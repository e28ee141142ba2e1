-- ===== src/Tests/Caches.antt =====
-- nsd/cache.c on a cache with two entries.
use anansi.Common.Int.{pos}
use anansi.Common.{ℕ, ◌≡◌, refl, true, none, some, [], ◌∷◌, arith, str_eq}
use anansi.Time.{Time}
use anansi.Cache.{
  Entry, Cache, create_sz, no_time, create_entry, find_entry, delete_entry, set_value_expires, push,
  store_value, unset_value, expired, prune, delink, unlink_next, unlink_prev,
}
use anansi.Cache.Books.{IsValid, store_value-IsValid}
use anansi.Cache.Access.{found_list, found, find_entry-IsValid}
use anansi.Cache.Create.{create_sz-IsValid, create_entry-IsValid}
use anansi.Cache.Flush.{rest_of}
use anansi.Cache.Prune.{IsStored, set_value_expires-IsStored}

abbrev blank : ℕ → Entry
blank a = record {
  next = none;
  prev = none;
  key = [];
  expires = no_time;
  size = 0;
  cost = 0;
  count = 0;
  value = none;
}

abbrev now : Time
now = record { sec = pos 100; usec = pos 0 }

abbrev empty : Cache
empty = create_sz blank 10 true

-- "a" and "b"
abbrev one : Cache
one = (create_entry empty (97 ∷ []) now).0

abbrev two : Cache
two = (create_entry one (98 ∷ []) now).0

-- The first entry has a value of six.
abbrev full : Cache
full = store_value two 0 7 6 none 0

one-IsValid : IsValid one (0 ∷ [])
unfolding create_sz
one-IsValid = (create_entry-IsValid empty (97 ∷ []) now [] (create_sz-IsValid blank 10 true)).0

two-IsValid : IsValid two (1 ∷ 0 ∷ [])
unfolding create_entry create_sz push str_eq
two-IsValid = (create_entry-IsValid one (98 ∷ []) now (0 ∷ []) one-IsValid).0

full-IsValid : IsValid full (1 ∷ 0 ∷ [])
full-IsValid = store_value-IsValid two 0 7 6 none 0 (1 ∷ 0 ∷ []) refl two-IsValid

-- The entry is found and comes to the front.
found-full : found_list full (97 ∷ []) now (1 ∷ 0 ∷ []) ≡ 0 ∷ 1 ∷ []
unfolding create_entry create_sz push str_eq store_value unset_value expired
found-full = refl

find_entry-IsValid_example :
    IsValid (find_entry full (97 ∷ []) now).0 (found_list full (97 ∷ []) now (1 ∷ 0 ∷ []))
    × ((find_entry full (97 ∷ []) now).1 ≡ found full (97 ∷ []) now)
find_entry-IsValid_example = find_entry-IsValid full (97 ∷ []) now (1 ∷ 0 ∷ []) full-IsValid

-- A value of five for the other entry does not fit with it.
pruned-full : (set_value_expires 2 full 1 8 5 none 0).first ≡ some 1
unfolding create_entry create_sz push str_eq store_value unset_value set_value_expires prune
    delete_entry delink unlink_next unlink_prev
pruned-full = refl

pruned_size-full : (set_value_expires 2 full 1 8 5 none 0).current_size ≡ 5
unfolding create_entry create_sz push str_eq store_value unset_value set_value_expires prune
    delete_entry delink unlink_next unlink_prev
pruned_size-full = refl

set_value_expires-IsStored_example :
    IsStored (set_value_expires 2 full 1 8 5 none 0) 1 8 5 (1 ∷ 0 ∷ [])
set_value_expires-IsStored_example =
    set_value_expires-IsStored 2 full 1 8 5 none 0 (1 ∷ 0 ∷ []) (omega arith) full-IsValid refl

-- The entry without a value stays.
rest-full : rest_of full.mem (0 ∷ 1 ∷ []) (1 ∷ 0 ∷ []) ≡ 1 ∷ []
unfolding create_entry create_sz push str_eq store_value unset_value expired
rest-full = refl

-- ===== src/Cache.antt =====
-- nsd/cache.c: caches of a limited size, which drop the entries that were not used for longest. An
-- entry is known by its address, `mem` is the memory of the entries, and `table` the hash table from
-- keys to addresses. `freed` holds the values that were given to `freeProc`, the last one first. The
-- current time is an argument, and every operation is run under the cache's lock.
pub mod Chain
pub mod Lists
pub mod Books
pub mod Access
pub mod Create
pub mod Prune
pub mod Flush
use anansi.Common.Int.{ℤ, pos, ltb_ℤ}
use anansi.Common.{
  ℕ, zero, suc, ◌+◌, ◌-◌, Bool, true, false, not, ◌&&◌, Option, none, some, List, [], ◌∷◌, ltb,
  ◌==◌, if◌then◌else◌, Bytes, str_eq, update,
}
use anansi.Time.{Time, diff_time}

pub record Entry : Type 0 where
  pub next : Option ℕ
  pub prev : Option ℕ
  pub key : Bytes
  pub expires : Time
  pub size : ℕ
  pub cost : ℕ
  pub count : ℕ
  pub value : Option ℕ

pub record Stats : Type 0 where
  pub nhit : ℕ
  pub nmiss : ℕ
  pub nexpired : ℕ
  pub nflushed : ℕ
  pub npruned : ℕ

pub record Cache : Type 0 where
  pub mem : ℕ → Entry
  pub first : Option ℕ
  pub last : Option ℕ
  pub max_size : ℕ
  pub current_size : ℕ
  pub has_free : Bool
  pub table : Bytes → Option ℕ
  pub stats : Stats
  pub next_addr : ℕ
  pub freed : List ℕ

abbrev pub no_time : Time
no_time = record { sec = pos 0; usec = pos 0 }

abbrev pub no_stats : Stats
no_stats = record { nhit = 0; nmiss = 0; nexpired = 0; nflushed = 0; npruned = 0 }

-- Ns_CacheCreateSz
unfoldable pub create_sz : (ℕ → Entry) → ℕ → Bool → Cache
create_sz mem max_size has_free = record {
  mem = mem;
  first = none;
  last = none;
  max_size = max_size;
  current_size = 0;
  has_free = has_free;
  table = λ k. none;
  stats = no_stats;
  next_addr = 0;
  freed = [];
}

-- Expired
unfoldable pub expired : Entry → Time → Bool
expired e now =
    if ltb_ℤ (pos 0) e.expires.sec then ltb_ℤ (diff_time e.expires now).1 (pos 0) else false

-- `q->nextPtr = v` and `q->prevPtr = v`
abbrev pub set_next : (ℕ → Entry) → ℕ → Option ℕ → ℕ → Entry
set_next m q v = update m q (record (m q) { next = v })

abbrev pub set_prev : (ℕ → Entry) → ℕ → Option ℕ → ℕ → Entry
set_prev m q v = update m q (record (m q) { prev = v })

-- The first test of Delink: the entry behind `e` follows the one before it.
unfoldable pub unlink_next : Cache → ℕ → Cache
unlink_next c e = elim (c.mem e).prev [
  | none ↦ record c { first = (c.mem e).next }
  | some q ↦ record c { mem = set_next c.mem q (c.mem e).next }
]

-- The second test.
unfoldable pub unlink_prev : Cache → ℕ → Cache
unlink_prev c e = elim (c.mem e).next [
  | none ↦ record c { last = (c.mem e).prev }
  | some q ↦ record c { mem = set_prev c.mem q (c.mem e).prev }
]

-- Delink
unfoldable pub delink : Cache → ℕ → Cache
delink c e =
    let d = unlink_prev (unlink_next c e) e in
    record d { mem = update d.mem e (record (d.mem e) { next = none; prev = none }) }

-- Push
unfoldable pub push : Cache → ℕ → Cache
push c e =
    let m : ℕ → Entry = elim c.first [ none ↦ c.mem | some f ↦ set_prev c.mem f (some e) ] in
    record c {
      mem = update m e (record (m e) { prev = none; next = c.first });
      first = some e;
      last = elim c.last [ none ↦ some e | some l ↦ some l ];
    }

-- Ns_CacheUnsetValue
unfoldable pub unset_value : Cache → ℕ → Cache
unset_value c e = elim (c.mem e).value [
  | none ↦ c
  | some v ↦ record c {
    current_size = c.current_size - (c.mem e).size;
    mem = update c.mem e (record (c.mem e) { size = 0; value = none; expires = no_time });
    freed = if c.has_free then v ∷ c.freed else c.freed;
  }
]

-- `Tcl_DeleteHashEntry`
abbrev pub drop_key : Cache → ℕ → Cache
drop_key c e = record c { table = λ k. if str_eq k (c.mem e).key then none else c.table k }

-- Ns_CacheDeleteEntry
unfoldable pub delete_entry : Cache → ℕ → Cache
delete_entry c e = drop_key (delink (unset_value c e) e) e

-- Ns_CacheFlushEntry
unfoldable pub flush_entry : Cache → ℕ → Cache
flush_entry c e =
    delete_entry (record c { stats = record (c.stats) { nflushed = c.stats.nflushed + 1 } }) e

abbrev pub add_hit : Cache → Cache
add_hit c = record c { stats = record (c.stats) { nhit = c.stats.nhit + 1 } }

abbrev pub add_miss : Cache → Cache
add_miss c = record c { stats = record (c.stats) { nmiss = c.stats.nmiss + 1 } }

abbrev pub add_expired : Cache → Cache
add_expired c = record c { stats = record (c.stats) { nexpired = c.stats.nexpired + 1 } }

abbrev pub add_pruned : Cache → Cache
add_pruned c = record c { stats = record (c.stats) { npruned = c.stats.npruned + 1 } }

-- `ePtr->count ++`
abbrev pub add_use : Cache → ℕ → Cache
add_use c e = record c { mem = update c.mem e (record (c.mem e) { count = (c.mem e).count + 1 }) }

-- Ns_CacheFindEntry
unfoldable pub find_entry : Cache → Bytes → Time → Cache × Option ℕ
find_entry c key now = elim (c.table key) [
  | none ↦ (add_miss c, none)
  | some e ↦ elim (c.mem e).value [
    | none ↦ (add_miss c, none)
    | some v ↦
        if expired (c.mem e) now
        then (add_miss (delete_entry c e), none)
        else (push (add_use (delink (add_hit c) e) e) e, some e)
  ]
]

-- `ns_calloc` of an entry, and `Tcl_CreateHashEntry`
abbrev pub new_entry : Cache → Bytes → Cache
new_entry c key = record c {
  mem = update c.mem c.next_addr (record {
    next = none;
    prev = none;
    key = key;
    expires = no_time;
    size = 0;
    cost = 0;
    count = 0;
    value = none;
  });
  table = λ k. if str_eq k key then some c.next_addr else c.table k;
  next_addr = c.next_addr + 1;
}

-- Ns_CacheCreateEntry: the entry, and whether it is new.
unfoldable pub create_entry : Cache → Bytes → Time → Cache × ℕ × Bool
create_entry c key now = elim (c.table key) [
  | none ↦ (push (add_miss (new_entry c key)) c.next_addr, c.next_addr, true)
  | some e ↦
      if expired (c.mem e) now
      then (push (delink (unset_value (add_expired c) e) e) e, e, true)
      else (push (delink (add_hit (add_use c e)) e) e, e, false)
]

-- The loop of Ns_CacheSetValueExpires that makes space. `lastEntryPtr` is not NULL there, since `e`
-- is in the list.
unfoldable pub prune : ℕ → Cache → ℕ → Cache
prune zero c e = c
prune (suc fuel) c e = elim c.last [
  | none ↦ c
  | some l ↦
      let rest = prune fuel (add_pruned (delete_entry c l)) e in
      if ltb c.max_size c.current_size
        && (not (l == e) && elim (c.mem l).value [ none ↦ false | some v ↦ true ])
      then rest
      else c
]

-- What Ns_CacheSetValueExpires stores; a NULL timeout is `none`.
unfoldable pub store_value : Cache → ℕ → ℕ → ℕ → Option Time → ℕ → Cache
store_value c e value size timeout cost =
    let d = unset_value c e in
    let v = d.mem e in
    record d {
      mem = update d.mem e (record v {
        value = some value;
        size = size;
        cost = cost;
        count = 1;
        expires = elim timeout [ none ↦ v.expires | some t ↦ t ];
      });
      current_size = d.current_size + size;
    }

-- Ns_CacheSetValueExpires, with fuel for the entries that it may drop.
unfoldable pub set_value_expires : ℕ → Cache → ℕ → ℕ → ℕ → Option Time → ℕ → Cache
set_value_expires fuel c e value size timeout cost =
    let d = store_value c e value size timeout cost in
    if ltb 0 d.max_size then prune fuel d e else d

-- Ns_CacheSetValueSz, Ns_CacheSetValue
unfoldable pub set_value_sz : ℕ → Cache → ℕ → ℕ → ℕ → Cache
set_value_sz fuel c e value size = set_value_expires fuel c e value size none 0

unfoldable pub set_value : ℕ → Cache → ℕ → ℕ → Cache
set_value fuel c e value = set_value_sz fuel c e value 0

-- Ns_CacheNextEntry, over the entries that the search of the hash table has yet to give; so is
-- Ns_CacheFirstEntry, over all of them.
unfoldable pub next_entry : Cache → Time → List ℕ → Cache × Option (ℕ × List ℕ)
next_entry c now [] = (c, none)
next_entry c now (e ∷ rest) =
    let skip = next_entry c now rest in
    let drop = next_entry (delete_entry (add_expired c) e) now rest in
    elim (c.mem e).value [
      | none ↦ skip
      | some v ↦ if expired (c.mem e) now then drop else (c, some (e, rest))
    ]

-- The loop of Ns_CacheFlush, with a round for each entry.
unfoldable pub flush_from : ℕ → Cache → Time → List ℕ → ℕ → Cache × ℕ
flush_from zero c now rest nflushed = (c, nflushed)
flush_from (suc fuel) c now rest nflushed =
    let (d, found) = next_entry c now rest in
    elim found [
      | none ↦ (d, nflushed)
      | some (e, after) ↦ flush_from fuel (delete_entry d e) now after (nflushed + 1)
    ]

-- Ns_CacheFlush, where the search of the hash table gives the entries `order`, `fuel` of them.
unfoldable pub flush : ℕ → Cache → Time → List ℕ → Cache × ℕ
flush fuel c now order =
    let (d, n) = flush_from fuel c now order 0 in
    (record d { stats = record (d.stats) { nflushed = d.stats.nflushed + 1 } }, n)

-- Ns_CacheResetStats
unfoldable pub reset_stats : Cache → Cache
reset_stats c = record c { stats = no_stats }

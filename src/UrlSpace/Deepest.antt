-- ===== src/UrlSpace/Deepest.antt =====
-- nsd/urlspace.c: JunctionFind returns the data of greatest depth, of the first channel that has it.
use Prim.Native.Nat.{Ordering}
use anansi.Common.{
  ℕ, ◌≡◌, refl, sym, ap, ◌∙◌, Bool, true, false, Option, none, some, List, [], ◌∷◌, arith, ltb,
  if◌then◌else◌, Bytes, str_eq, Option-cases,
}
use anansi.UrlSpace.Prefixes.{at_depth, best, trie_find-best}
use anansi.UrlSpace.Junction.{Junction, channels, last_word, visit, find_from, junction_find}

-- The deeper of two finds, the first of two that are as deep.
abbrev pub deeper : Option (ℕ × ℕ) → Option (ℕ × ℕ) → Option (ℕ × ℕ)
deeper none b = b
deeper (some a) none = some a
deeper (some a) (some b) = if ltb a.1 b.1 then some b else some a

-- Whether JunctionFind looks in a channel.
abbrev pub fits_filter : (Bytes → Bytes → Bool) → Bool → Bytes → Bytes → Bool
fits_filter string_match fast p filter = if fast then str_eq p filter else string_match p filter

deeper_assoc : (a b c : Option (ℕ × ℕ)) → deeper (deeper a b) c ≡ deeper a (deeper b c)
deeper_assoc none b c = refl
deeper_assoc (some a) none c = refl
deeper_assoc (some a) (some b) none = ground arith
deeper_assoc (some a) (some b) (some c) = ground arith

deeper-none : (a : Option (ℕ × ℕ)) → deeper a none ≡ a
deeper-none none = refl
deeper-none (some a) = refl

deeper-if :
    (t : Bool) (a b c : Option (ℕ × ℕ))
    → deeper (if t then deeper a b else a) c ≡ deeper a (if t then deeper b c else c)
deeper-if true a b c = deeper_assoc a b c
deeper-if false a b c = refl

module _ (strcmp : Bytes → Bytes → Ordering) (string_match : Bytes → Bytes → Bool) where
  -- The deepest of what the channels have for a sequence.
  abbrev pub deepest : Junction → List Bytes → Bool → List Bytes → Option (ℕ × ℕ)
  deepest j seq fast [] = none
  deepest j seq fast (filter ∷ rest) =
      let more = deepest j seq fast rest in
      if fits_filter string_match fast (last_word seq) filter
      then deeper (best strcmp (j.tries filter) seq) more
      else more

  visit-deeper :
      (j : Junction) (seq : List Bytes) (fast : Bool) (filter : Bytes) (found : Option (ℕ × ℕ))
      → visit strcmp string_match j seq fast filter (at_depth 0 found)
        ≡ at_depth 0 (
            if fits_filter string_match fast (last_word seq) filter
            then deeper found (best strcmp (j.tries filter) seq)
            else found)
  unfolding visit
  visit-deeper j seq fast filter none = ground (arith, trie_find-best strcmp (j.tries filter) seq 0)
  visit-deeper j seq fast filter (some r) = ground (
    arith,
    trie_find-best strcmp (j.tries filter) seq 0,
    Option-cases (best strcmp (j.tries filter) seq),
  )

  find_from-deeper :
      (j : Junction) (seq : List Bytes) (fast : Bool) (fs : List Bytes) (found : Option (ℕ × ℕ))
      → find_from strcmp string_match j seq fast fs (at_depth 0 found)
        ≡ at_depth 0 (deeper found (deepest j seq fast fs))
  unfolding find_from
  find_from-deeper j seq fast [] found = ap (at_depth 0) (sym (deeper-none found))
  find_from-deeper j seq fast (filter ∷ fs) found =
      ap (find_from strcmp string_match j seq fast fs) (visit-deeper j seq fast filter found)
      ∙ find_from-deeper j seq fast fs (
          if fits_filter string_match fast (last_word seq) filter
          then deeper found (best strcmp (j.tries filter) seq)
          else found)
      ∙ ap (at_depth 0) (
          deeper-if (fits_filter string_match fast (last_word seq) filter) found
            (best strcmp (j.tries filter) seq) (deepest j seq fast fs))

  -- JunctionFind returns the data of the deepest find of the channels whose filter fits the last
  -- word, the first of those that are as deep, and NULL where no such channel has any.
  pub junction_find-deepest :
      (j : Junction) (seq : List Bytes) (fast : Bool)
      → junction_find strcmp string_match j seq fast
        ≡ (at_depth 0 (deepest j seq fast (channels j))).0
  unfolding junction_find
  junction_find-deepest j seq fast = ap (λ r. r.0) (find_from-deeper j seq fast (channels j) none)

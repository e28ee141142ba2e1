-- ===== src/UrlSpace/Prefixes.antt =====
-- nsd/urlspace.c: TrieFind finds the data of the longest beginning of a sequence that has some.
use Prim.Native.Nat.{Ordering}
use anansi.Common.{
  ℕ, zero, suc, ◌+◌, ◌≡◌, inl, inr, refl, sym, ap, ◌∙◌, true, false, Option, none, some, List, [],
  ◌∷◌, arith, Bytes, length, take, Option-cases,
}
use anansi.UrlSpace.{
  op_noinherit, is_set, Node, Trie, trie, Branches, slot_of, node_exact, node_find, find_branch,
  trie_find, trie_find_exact,
}

-- A value at a depth, before what was found above.
abbrev pub or_above : Option ℕ → ℕ → Option (ℕ × ℕ) → Option (ℕ × ℕ)
or_above none n r = r
or_above (some d) n r = some (d, n)

abbrev below : Option (ℕ × ℕ) → Option (ℕ × ℕ) → Option (ℕ × ℕ)
below none r = r
below (some p) r = some (p.0, suc p.1)

below-or_above :
    (d : Option ℕ) (n : ℕ) (p r : Option (ℕ × ℕ))
    → below (or_above d n p) r ≡ or_above d (suc n) (below p r)
below-or_above none n p r = refl
below-or_above (some d) n p r = refl

-- What TrieFind returns: data with its depth, or NULL with the depth as it was.
abbrev pub at_depth : ℕ → Option (ℕ × ℕ) → Option ℕ × ℕ
at_depth depth none = (none, depth)
at_depth depth (some r) = (some r.0, depth + r.1)

-- What TrieFind makes of what it found below a branch.
abbrev up : Option ℕ → ℕ → Option ℕ × ℕ → Option ℕ × ℕ
up d depth (none, n) = (d, depth)
up d depth (some p, n) = (some p, n)

up-below :
    (d : Option ℕ) (depth : ℕ) (p : Option (ℕ × ℕ))
    → up d depth (at_depth (depth + 1) p) ≡ at_depth depth (below p (or_above d 0 none))
up-below none depth none = refl
up-below (some d) depth none = ground arith
up-below d depth (some p) = ground arith

node_find-last :
    (n : Option Node)
    → node_find true n
      ≡ (elim (node_exact op_noinherit n) [ none ↦ node_exact 0 n | some d ↦ some d ])
unfolding node_find node_exact slot_of is_set
node_find-last none = refl
node_find-last (some n) = ground arith

node_find-inner : (n : Option Node) → node_find false n ≡ node_exact 0 n
unfolding node_find node_exact slot_of is_set
node_find-inner none = refl
node_find-inner (some n) = ground arith

module _ (strcmp : Bytes → Bytes → Ordering) where
  -- The data of the longest beginning of `s` with at most `n` words, with its number of words.
  abbrev pub longest : Trie → List Bytes → ℕ → Option (ℕ × ℕ)
  longest t s zero = or_above (trie_find_exact strcmp t [] 0) 0 none
  longest t s (suc n) =
      or_above (trie_find_exact strcmp t (take (suc n) s) 0) (suc n) (longest t s n)

  -- The data that a lookup has to find: that which is not inherited at the whole sequence, else
  -- what the longest beginning has for all below it.
  abbrev pub best : Trie → List Bytes → Option (ℕ × ℕ)
  best t s = or_above (trie_find_exact strcmp t s op_noinherit) (length s) (longest t s (length s))

  exact_branch :
      (n : Option Node) (bs : Branches) (w : Bytes) (s : List Bytes) (t : Trie) (f : ℕ)
      → find_branch strcmp w bs ≡ some t
      → trie_find_exact strcmp (trie n bs) (w ∷ s) f ≡ trie_find_exact strcmp t s f
  unfolding trie_find_exact
  exact_branch n bs w s t f h = ground (arith, h)

  exact_missing :
      (n : Option Node) (bs : Branches) (w : Bytes) (s : List Bytes) (f : ℕ)
      → find_branch strcmp w bs ≡ none
      → trie_find_exact strcmp (trie n bs) (w ∷ s) f ≡ none
  unfolding trie_find_exact
  exact_missing n bs w s f h = ground (arith, h)

  -- Below a branch.
  longest-cons :
      (n : Option Node) (bs : Branches) (w : Bytes) (s : List Bytes) (k : ℕ) (t : Trie)
      → find_branch strcmp w bs ≡ some t
      → longest (trie n bs) (w ∷ s) (suc k)
        ≡ below (longest t s k) (or_above (node_exact 0 n) 0 none)
  unfolding trie_find_exact
  longest-cons n bs w s zero t h =
      ap (λ o. or_above o 1 (longest (trie n bs) (w ∷ s) 0)) (exact_branch n bs w [] t 0 h)
      ∙ sym (below-or_above (trie_find_exact strcmp t [] 0) 0 none _)
  longest-cons n bs w s (suc k) t h =
      ap (λ o. or_above o (suc (suc k)) (longest (trie n bs) (w ∷ s) (suc k)))
        (exact_branch n bs w (take (suc k) s) t 0 h)
      ∙ ap (or_above _ (suc (suc k))) (longest-cons n bs w s k t h)
      ∙ sym (below-or_above (trie_find_exact strcmp t (take (suc k) s) 0) (suc k) _ _)

  longest-none :
      (n : Option Node) (bs : Branches) (w : Bytes) (s : List Bytes) (k : ℕ)
      → find_branch strcmp w bs ≡ none
      → longest (trie n bs) (w ∷ s) k ≡ or_above (node_exact 0 n) 0 none
  unfolding trie_find_exact
  longest-none n bs w s zero h = refl
  longest-none n bs w s (suc k) h =
      ap (λ o. or_above o (suc k) (longest (trie n bs) (w ∷ s) k))
        (exact_missing n bs w (take k s) 0 h)
      ∙ longest-none n bs w s k h

  best-cons :
      (n : Option Node) (bs : Branches) (w : Bytes) (s : List Bytes) (t : Trie)
      → find_branch strcmp w bs ≡ some t
      → best (trie n bs) (w ∷ s) ≡ below (best t s) (or_above (node_exact 0 n) 0 none)
  best-cons n bs w s t h =
      ap (λ o. or_above o (suc (length s)) (longest (trie n bs) (w ∷ s) (suc (length s))))
        (exact_branch n bs w s t op_noinherit h)
      ∙ ap (or_above (trie_find_exact strcmp t s op_noinherit) (suc (length s)))
          (longest-cons n bs w s (length s) t h)
      ∙ sym (
          below-or_above (trie_find_exact strcmp t s op_noinherit) (length s)
            (longest t s (length s)) (or_above (node_exact 0 n) 0 none))

  trie_find-cons :
      (n : Option Node) (bs : Branches) (w : Bytes) (s : List Bytes) (t : Trie) (depth : ℕ)
      → find_branch strcmp w bs ≡ some t
      → trie_find strcmp (trie n bs) (w ∷ s) depth
        ≡ up (node_exact 0 n) depth (trie_find strcmp t s (depth + 1))
  unfolding trie_find
  trie_find-cons n bs w s t depth h =
      ground (arith, h, node_find-inner n, Option-cases (trie_find strcmp t s (depth + 1)).0)

  -- TrieFind finds the data that is not inherited at the whole sequence, else the inherited data of
  -- the longest beginning that has some, else NULL; the depth grows by the number of words of what
  -- is found.
  pub trie_find-best :
      (t : Trie) (s : List Bytes) (depth : ℕ)
      → trie_find strcmp t s depth ≡ at_depth depth (best t s)
  unfolding trie_find trie_find_exact
  trie_find-best (trie n bs) [] depth = ground (arith, node_find-last n)
  trie_find-best (trie n bs) (w ∷ s) depth = elim (Option-cases (find_branch strcmp w bs)) [
    | inl e ↦ ground (arith, e, node_find-inner n, longest-none n bs w s (suc (length s)) e)
    | inr (t, e) ↦
        let ih = trie_find-best t s (depth + 1) in
        let b = best-cons n bs w s t e in
        trie_find-cons n bs w s t depth e
        ∙ ap (up (node_exact 0 n) depth) ih
        ∙ up-below (node_exact 0 n) depth (best t s)
        ∙ ap (at_depth depth) (sym b)
  ]

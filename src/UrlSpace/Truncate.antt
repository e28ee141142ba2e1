-- ===== src/UrlSpace/Truncate.antt =====
-- nsd/urlspace.c: TrieTrunc and TrieTruncBranch, the removal of all that stands below a sequence.
use Prim.Native.Nat.{Ordering}
use anansi.Common.{
  ℕ, ◌≡◌, inl, inr, refl, Bool, true, false, ◌&&◌, Option, none, some, List, [], ◌∷◌, ◌++◌, arith,
  if◌then◌else◌, Bytes, str_eq, str_eq_iff, Option-cases, Ordering-cases,
}
use anansi.UrlSpace.{
  Node, Call, Trie, trie, Branches, no_branch, branch, node_destroy, node_exact, cmp_branch,
  find_branch, put_branch, trie_find_exact,
}
use anansi.UrlSpace.Exact.{IsStrcmp, find_branch-put_branch}

-- NodeDestroy of a node that may be missing.
unfoldable pub destroy_calls : Option Node → List Call
destroy_calls none = []
destroy_calls (some n) = node_destroy n

unfoldable mutual
  -- TrieTrunc
  pub trie_trunc : Trie → Trie × List Call
  trie_trunc (trie n bs) =
      let (rest, calls) = trunc_branches bs in (trie none rest, calls ++ destroy_calls n)

  -- The loop of TrieTrunc over the branches.
  pub trunc_branches : Branches → Branches × List Call
  trunc_branches no_branch = (no_branch, [])
  trunc_branches (branch word t bs) =
      let (s, calls) = trie_trunc t in
      let (rest, more) = trunc_branches bs in (branch word s rest, calls ++ more)

-- TrieTruncBranch; the truth value is whether it returns 0, not -1.
unfoldable pub trie_trunc_branch :
    (Bytes → Bytes → Ordering) → Trie → List Bytes → Trie × Bool × List Call
trie_trunc_branch strcmp (trie n bs) [] =
    let (t, calls) = trie_trunc (trie n bs) in (t, true, calls)
trie_trunc_branch strcmp (trie n bs) (word ∷ seq) = elim (find_branch strcmp word bs) [
  | none ↦ (trie n bs, false, [])
  | some t ↦
      let (s, found, calls) = trie_trunc_branch strcmp t seq in
      (trie n (put_branch strcmp word s bs), found, calls)
]

-- `s` is a beginning of `u`.
abbrev pub is_start : List Bytes → List Bytes → Bool
is_start [] u = true
is_start (v ∷ s) [] = false
is_start (v ∷ s) (w ∷ u) = str_eq v w && is_start s u

module _ (strcmp : Bytes → Bytes → Ordering) (c : IsStrcmp strcmp) where
  -- The branches of a truncated trie are still there, without data.
  mutual
    unfolding trie_trunc trunc_branches find_branch cmp_branch trie_find_exact node_exact

    trie_find_exact-trie_trunc :
        (t : Trie) (u : List Bytes) (g : ℕ) → trie_find_exact strcmp (trie_trunc t).0 u g ≡ none
    trie_find_exact-trie_trunc (trie n bs) [] g = refl
    trie_find_exact-trie_trunc (trie n bs) (w ∷ u) g = trunc_branches-none bs w u g

    trunc_branches-none :
        (bs : Branches) (w : Bytes) (u : List Bytes) (g : ℕ)
        → (elim (find_branch strcmp w (trunc_branches bs).0) [
          | none ↦ none
          | some t ↦ trie_find_exact strcmp t u g
        ])
          ≡ none
    trunc_branches-none no_branch w u g = refl
    trunc_branches-none (branch v t bs) w u g = ground (
      arith,
      trie_find_exact-trie_trunc t u g,
      trunc_branches-none bs w u g,
      Ordering-cases (strcmp w v),
    )

  -- What an exact lookup finds after a branch was cut off: nothing at and below the words, what it
  -- found before for all others.
  pub trie_find_exact-trie_trunc_branch :
      (t : Trie) (s u : List Bytes) (g : ℕ)
      → trie_find_exact strcmp (trie_trunc_branch strcmp t s).0 u g
        ≡ (if is_start s u then none else trie_find_exact strcmp t u g)
  unfolding trie_trunc_branch trie_find_exact
  trie_find_exact-trie_trunc_branch (trie n bs) [] u g = trie_find_exact-trie_trunc (trie n bs) u g
  trie_find_exact-trie_trunc_branch (trie n bs) (v ∷ s) [] g =
      ground (arith, Option-cases (find_branch strcmp v bs))
  trie_find_exact-trie_trunc_branch (trie n bs) (v ∷ s) (w ∷ u) g =
      elim (Option-cases (find_branch strcmp v bs)) [
        | inl e ↦ ground (arith, (str_eq_iff v w).0)
        | inr (t, e) ↦
            let ih = trie_find_exact-trie_trunc_branch t s u g in
            ground (
              arith,
              find_branch-put_branch strcmp c bs v w (trie_trunc_branch strcmp t s).0,
              (str_eq_iff v w).0,
              ih,
            )
      ]

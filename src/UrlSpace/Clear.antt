-- ===== src/UrlSpace/Clear.antt =====
-- nsd/urlspace.c: JunctionTruncBranch, the recursive part of Ns_UrlSpecificDestroy.
use Prim.Native.Nat.{Ordering}
use anansi.Common.{
  ℕ, ◌≡◌, inl, inr, refl, ap, ◌∙◌, Bool, ◌&&◌, none, List, [], ◌∷◌, arith, if◌then◌else◌, Bytes,
  str_eq, str_eq_iff, Bool-cases,
}
use anansi.Index.Order.{view}
use anansi.UrlSpace.{trie_find_exact}
use anansi.UrlSpace.Exact.{IsStrcmp}
use anansi.UrlSpace.Truncate.{trie_trunc_branch, is_start, trie_find_exact-trie_trunc_branch}
use anansi.UrlSpace.Junction.{
  Junction, set_trie, channels, channel_of, has_channel, junction_find_exact,
}
use anansi.UrlSpace.Channels.{IsGood, IsGood-indexes}
use anansi.UrlSpace.Replace.{IsUrl, IsPlain, junction_find_exact-entry}
use anansi.UrlSpace.Space.{trunc_from, junction_trunc_branch}

module _ (strcmp : Bytes → Bytes → Ordering) (c : IsStrcmp strcmp)
    (string_match : Bytes → Bytes → Bool) where
  trunc_from-indexes :
      (seq : List Bytes) (fs : List Bytes) (j : Junction)
      → ((trunc_from strcmp string_match seq fs j).0.byuse ≡ j.byuse)
        × ((trunc_from strcmp string_match seq fs j).0.byname ≡ j.byname)
  unfolding trunc_from set_trie
  trunc_from-indexes seq [] j = (refl, refl)
  trunc_from-indexes seq (f ∷ fs) j =
      trunc_from-indexes seq fs (set_trie j f (trie_trunc_branch strcmp (j.tries f) seq).0)

  trunc_from-tries :
      (seq : List Bytes) (fs : List Bytes) (j : Junction) (p : Bytes) (u : List Bytes) (g : ℕ)
      → trie_find_exact strcmp ((trunc_from strcmp string_match seq fs j).0.tries p) u g ≡ (
          if has_channel p fs && is_start seq u
          then none
          else trie_find_exact strcmp (j.tries p) u g)
  unfolding trunc_from set_trie has_channel
  trunc_from-tries seq [] j p u g = refl
  trunc_from-tries seq (f ∷ fs) j p u g =
      let t = (trie_trunc_branch strcmp (j.tries f) seq).0 in
      trunc_from-tries seq fs (set_trie j f t) p u g ∙ elim (Bool-cases (str_eq p f)) [
        | inl e ↦
            let same = (str_eq_iff p f).0 e in
            ground (arith, same, trie_find_exact-trie_trunc_branch strcmp c (j.tries f) seq u g)
        | inr e ↦ ground (arith, e)
      ]

  -- The junction that JunctionTruncBranch leaves.
  abbrev cleared : Junction → List Bytes → Junction
  cleared j seq = (junction_trunc_branch strcmp string_match j seq).0

  cleared-view : (j : Junction) (seq : List Bytes) → view (cleared j seq).byuse ≡ view j.byuse
  unfolding junction_trunc_branch
  cleared-view j seq = ap view (trunc_from-indexes seq (channels j) j).0

  cleared-IsGood :
      (j : Junction) (seq : List Bytes) → IsGood strcmp j → IsGood strcmp (cleared j seq)
  unfolding junction_trunc_branch
  cleared-IsGood j seq good =
      let (by_use, by_name) = trunc_from-indexes seq (channels j) j in
      IsGood-indexes strcmp j (cleared j seq) by_use by_name good

  cleared-tries :
      (j : Junction) (seq : List Bytes) (p : Bytes) (u : List Bytes) (g : ℕ)
      → trie_find_exact strcmp ((cleared j seq).tries p) u g ≡ (
          if has_channel p (view j.byuse) && is_start seq u
          then none
          else trie_find_exact strcmp (j.tries p) u g)
  unfolding junction_trunc_branch channels
  cleared-tries j seq p u g = trunc_from-tries seq (view j.byuse) j p u g

  cleared-IsPlain :
      (j : Junction) (seq : List Bytes) → IsPlain strcmp j → IsPlain strcmp (cleared j seq)
  cleared-IsPlain j seq plain = record {
    plain = λ p u g m. ground (arith, cleared-tries j seq p u g, plain.plain p u g m);
  }

  -- After JunctionTruncBranch an exact lookup finds nothing at and below the words of the sequence,
  -- in any channel, and what it found before everywhere else; the invariants stay.
  pub junction_find_exact-junction_trunc_branch :
      (j : Junction) (seq : List Bytes)
      → IsGood strcmp j
      → IsPlain strcmp j
      → IsGood strcmp (junction_trunc_branch strcmp string_match j seq).0
        × IsPlain strcmp (junction_trunc_branch strcmp string_match j seq).0
        × ((u : List Bytes) (g : ℕ)
            → IsUrl u
            → junction_find_exact strcmp (junction_trunc_branch strcmp string_match j seq).0 u g
              ≡ (if is_start seq (channel_of u).1 then none else junction_find_exact strcmp j u g))
  junction_find_exact-junction_trunc_branch j seq good plain =
      let good' = cleared-IsGood j seq good in
      let plain' = cleared-IsPlain j seq plain in
      (
        good',
        plain',
        λ u g h.
            let (p, words) = channel_of u in
            junction_find_exact-entry strcmp (cleared j seq) u g good' plain' h
            ∙ rw (cleared-view j seq) (
                ground (
                  arith,
                  junction_find_exact-entry strcmp j u g good plain h,
                  cleared-tries j seq p words g,
                )),
      )

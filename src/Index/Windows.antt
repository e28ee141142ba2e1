-- ===== src/Index/Windows.antt =====
-- nsd/index.c: `NsBsearch`, the binary search that takes the place of `bsearch` on old Windows.
use Prim.Native.Nat.{Ordering, lt, eq, gt}
use anansi.Common.{
  ℕ, zero, suc, ◌+◌, ◌-◌, ◌/◌, ◌≤◌, ◌<◌, ◌≡◌, ◌≢◌, ◌⊎◌, inl, inr, refl, Option, none, some, List,
  arith, ltb, if◌then◌else◌, length, get_or, Bool-cases, Ordering-cases,
}
use anansi.Index.Search.{IsMonotone}

module _ {ℓ} {A : Type ℓ} (nil : A) where
  -- The loop over the place of `base` and over `nmemb`.
  unfoldable pub bsearch_loop : (A → Ordering) → List A → ℕ → ℕ → ℕ → Option ℕ
  bsearch_loop compar xs zero base nmemb = none
  bsearch_loop compar xs (suc fuel) base nmemb =
      let mid_point = base + nmemb / 2 in
      let right = bsearch_loop compar xs fuel (suc mid_point) ((nmemb - 1) / 2) in
      let left = bsearch_loop compar xs fuel base (nmemb / 2) in
      if ltb 0 nmemb
      then elim (compar (get_or xs mid_point nil)) [ eq ↦ some mid_point | gt ↦ right | lt ↦ left ]
      else none

  -- NsBsearch of a whole array: a round for each element is enough.
  unfoldable pub ns_bsearch : (A → Ordering) → List A → Option ℕ
  ns_bsearch compar xs = bsearch_loop compar xs (length xs) 0 (length xs)

  module _ (compar : A → Ordering) (xs : List A) (m : IsMonotone nil compar xs (length xs)) where
    no_equal :
        (base : ℕ)
        → ((i : ℕ) → i < base → compar (get_or xs i nil) ≡ gt)
        → ((i : ℕ) → base ≤ i → i < length xs → compar (get_or xs i nil) ≡ lt)
        → (i : ℕ) → i < length xs
        → compar (get_or xs i nil) ≢ eq
    no_equal base above below i l k = elim (Bool-cases (ltb i base)) [
      | inl e ↦ let a = above i (ground arith) in cc
      | inr e ↦ let b = below i (ground arith) l in cc
    ]

    bsearch_loop_lem :
        (fuel base nmemb : ℕ)
        → nmemb ≤ fuel
        → base + nmemb ≤ length xs
        → ((i : ℕ) → i < base → compar (get_or xs i nil) ≡ gt)
        → ((i : ℕ) → base + nmemb ≤ i → i < length xs → compar (get_or xs i nil) ≡ lt)
        → ((i : ℕ) × (bsearch_loop compar xs fuel base nmemb ≡ some i)
            × (i < length xs)
            × (compar (get_or xs i nil) ≡ eq))
          ⊎ ((bsearch_loop compar xs fuel base nmemb ≡ none)
              × ((i : ℕ) → i < length xs → compar (get_or xs i nil) ≢ eq))
    unfolding bsearch_loop
    bsearch_loop_lem zero base nmemb l h above below =
        inr (refl, no_equal base above (λ i k. below i (omega arith)))
    bsearch_loop_lem (suc fuel) base nmemb l h above below =
        let mid : ℕ = base + nmemb / 2 in
        elim (Bool-cases (ltb 0 nmemb)) [
          | inr e ↦ rw e (inr (refl, no_equal base above (λ i k. below i (ground arith))))
          | inl e ↦ elim (Ordering-cases (compar (get_or xs mid nil))) [
            | inl o ↦
                rw (e, o)
                  (bsearch_loop_lem fuel base (nmemb / 2) (ground arith) (ground arith) above
                    (λ i k q. m.below mid i k q o))
            | inr (inl o) ↦ rw (e, o) (inl (mid, refl, ground arith, o))
            | inr (inr o) ↦
                rw (e, o)
                  (bsearch_loop_lem fuel (suc mid) ((nmemb - 1) / 2) (ground arith) (ground arith)
                    (λ i k. m.above i mid (omega arith) (ground arith) o)
                    (λ i k. below i (ground arith)))
          ]
        ]

    -- On a monotone array `NsBsearch` returns the index of an equal element, and NULL exactly where
    -- there is none: it is such a `bsearch` as the index needs.
    pub ns_bsearch_lem :
        ((i : ℕ) × (ns_bsearch compar xs ≡ some i)
          × (i < length xs)
          × (compar (get_or xs i nil) ≡ eq))
        ⊎ ((ns_bsearch compar xs ≡ none)
            × ((i : ℕ) → i < length xs → compar (get_or xs i nil) ≢ eq))
    unfolding ns_bsearch
    ns_bsearch_lem =
        bsearch_loop_lem (length xs) 0 (length xs) (omega arith) (omega arith)
          (λ i k. absurd (omega arith)) (λ i k l. absurd (omega arith))

-- ===== src/Index/Search.antt =====
-- nsd/index.c: `BinSearch` and `BinSearchKey`.
use Prim.Native.Nat.{Ordering, lt, eq, gt}
use anansi.Common.{
  ℕ, zero, suc, ◌+◌, ◌-◌, ◌/◌, ◌≤◌, ◌<◌, ◌≡◌, ◌⊎◌, inl, inr, List, arith, ltb, get_or, Bool-cases,
  Ordering-cases, ltb→lt,
}
use anansi.Index.{bin_loop, bin_search}

module _ {ℓ} {A : Type ℓ} (nil : A) (cond : A → Ordering) (xs : List A) (n : ℕ) where
  -- The array falls into a part that the key is above, one that it is equal to and one below.
  pub record IsMonotone : Type 0 where
    pub above :
        (i j : ℕ) → i ≤ j → j < n → cond (get_or xs j nil) ≡ gt → cond (get_or xs i nil) ≡ gt
    pub below :
        (i j : ℕ) → i ≤ j → j < n → cond (get_or xs i nil) ≡ lt → cond (get_or xs j nil) ≡ lt

  pub record IsMiss (r : ℕ) : Type 0 where
    pub inside : r ≤ n
    pub over : (i : ℕ) → i < r → cond (get_or xs i nil) ≡ gt
    pub under : (i : ℕ) → r ≤ i → i < n → cond (get_or xs i nil) ≡ lt

  pub record IsHit (r : ℕ) : Type 0 where
    pub inside : r < n
    pub equal : cond (get_or xs r nil) ≡ eq

  bin_loop_lem :
      (fuel low high1 mid : ℕ)
      → IsMonotone
      → low ≤ high1
      → high1 ≤ n
      → mid ≤ high1
      → high1 ≤ low + fuel
      → ((i : ℕ) → i < low → cond (get_or xs i nil) ≡ gt)
      → ((i : ℕ) → high1 ≤ i → i < n → cond (get_or xs i nil) ≡ lt)
      → IsHit (bin_loop nil cond xs fuel low high1 mid)
        ⊎ IsMiss (bin_loop nil cond xs fuel low high1 mid)
  unfolding bin_loop
  bin_loop_lem zero low high1 mid m a b c d p q = inr (ground arith)
  bin_loop_lem (suc fuel) low high1 mid m a b c d p q =
      let k = (low + high1 - 1) / 2 in
      elim (Bool-cases (ltb low high1)) [
        | inr e ↦ rw e (inr (ground arith))
        | inl e ↦
            let l = ltb→lt low high1 e in
            elim (Ordering-cases (cond (get_or xs k nil))) [
              | inl o ↦
                  rw (e, o)
                    (bin_loop_lem fuel low k k m (omega arith) (omega arith) (omega arith)
                      (omega arith) p (λ i h l. m.below k i h l o))
              | inr (inl o) ↦ rw (e, o) (inl (record { inside = omega arith; equal = o }))
              | inr (inr o) ↦
                  rw (e, o)
                    (bin_loop_lem fuel (suc k) high1 k m (omega arith) b (omega arith) (omega arith)
                      (λ i h. m.above i k (omega arith) (omega arith) o) q)
            ]
      ]

  -- On a monotone array the search returns the index of an equal element, or the one place between
  -- the elements that the key is above and those that it is below.
  pub bin_search_lem :
      IsMonotone → IsHit (bin_search nil cond xs n) ⊎ IsMiss (bin_search nil cond xs n)
  unfolding bin_search
  bin_search_lem m =
      bin_loop_lem n 0 n 0 m (omega arith) (omega arith) (omega arith) (omega arith)
        (λ i h. absurd (omega arith)) (λ i h l. absurd (omega arith))

  pub bin_search-le : IsMonotone → bin_search nil cond xs n ≤ n
  bin_search-le m = elim (bin_search_lem m) [ inl h ↦ omega (arith, h.inside) | inr h ↦ h.inside ]

-- The search stays in the array, whatever the comparison says.
pub bin_search-inside {ℓ} :
    {A : Type ℓ} (nil : A) (cond : A → Ordering) (xs : List A) (n : ℕ)
    → bin_search nil cond xs n ≤ n
unfolding bin_search bin_loop
bin_search-inside nil cond xs n = bin_loop-inside n 0 n 0 (omega arith) (omega arith) (omega arith)
  where
    bin_loop-inside :
        (fuel low high1 mid : ℕ)
        → low ≤ high1
        → high1 ≤ n
        → mid ≤ n
        → bin_loop nil cond xs fuel low high1 mid ≤ n
    bin_loop-inside zero low high1 mid a b c = ground arith
    bin_loop-inside (suc fuel) low high1 mid a b c =
        let k = (low + high1 - 1) / 2 in
        ground (arith, bin_loop-inside fuel low k k, bin_loop-inside fuel (suc k) high1 k)

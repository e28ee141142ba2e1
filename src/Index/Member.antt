-- ===== src/Index/Member.antt =====
-- nsd/index.c: `Ns_IndexFind` as a test whether an element is there.
use Prim.Native.Nat.{Ordering, eq}
use anansi.Common.{
  ℕ, ◌<◌, ◌≡◌, ◌≢◌, ◌⊎◌, inl, inr, refl, none, some, arith, Option-cases, length, get_or,
  get_or-take,
}
use anansi.Index.{NsIndex, find}
use anansi.Index.Search.{IsMonotone}
use anansi.Index.Order.{IsValid, view, length-view}
use anansi.Index.Find.{Bsearch, find-equal}

-- In a valid index in order, `find` returns an element that is equal to the key, or NULL where
-- there is none.
pub find-cases {ℓ} :
    {A : Type ℓ} (nil : A) (cond : A → Ordering) (x : NsIndex A)
    → IsValid x
    → (b : Bsearch nil) → IsMonotone nil cond x.el x.n
    → ((i : ℕ) × (i < length (view x))
        × (cond (get_or (view x) i nil) ≡ eq)
        × (find nil b.search cond x ≡ some (get_or (view x) i nil)))
      ⊎ ((find nil b.search cond x ≡ none)
          × ((i : ℕ) → i < length (view x) → cond (get_or (view x) i nil) ≢ eq))
unfolding find
find-cases nil cond x v b m = elim (Option-cases (b.search cond (view x))) [
  | inl e ↦
      let h : find nil b.search cond x ≡ none = rw (find, e) refl in
      inr (h, λ i l. (find-equal nil cond x v b m).1 h i (omega (arith, length-view nil x v)))
  | inr (i, e) ↦
      let (l, o) = b.found cond (view x) i e in
      inl (
        i,
        l,
        o,
        rw (find, e, get_or-take x.n i x.el nil (omega (arith, length-view nil x v))) refl,
      )
]

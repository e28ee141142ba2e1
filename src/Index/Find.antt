-- ===== src/Index/Find.antt =====
-- nsd/index.c: `Ns_IndexFind`, `Ns_IndexFindInf` and `Ns_IndexFindMultiple`. The C library's
-- `bsearch` is a parameter: it returns some equal element of an ordered array, if there is one.
use Prim.Native.Nat.{Ordering, lt, eq, gt}
use anansi.Common.{
  ℕ, zero, suc, ◌+◌, ◌-◌, ◌≤◌, ◌<◌, ◌≡◌, ◌≢◌, ◌⊎◌, inl, inr, refl, sym, ap, subst, Bool, true,
  false, Option, none, some, List, [], ◌∷◌, arith, ltb, leb, if◌then◌else◌, Bool-cases, ltb→lt,
  Option-cases, some_inj, Ordering-cases, length, get_or, take, drop, get_or-take, length-take,
  length-drop, take-drop-take,
}
use anansi.Index.{NsIndex, is_eq, bin_search, find, find_inf, back, forward, find_multiple}
use anansi.Index.Search.{IsMonotone, bin_search_lem}
use anansi.Index.Order.{IsValid, view, length-view}

pub record Bsearch {ℓ} {A : Type ℓ} (nil : A) : Type ℓ where
  pub search : (A → Ordering) → List A → Option ℕ
  pub found :
      (cond : A → Ordering) (xs : List A) (i : ℕ)
      → search cond xs ≡ some i
      → (i < length xs) × (cond (get_or xs i nil) ≡ eq)
  pub missing :
      (cond : A → Ordering) (xs : List A)
      → IsMonotone nil cond xs (length xs)
      → search cond xs ≡ none
      → (i : ℕ) → i < length xs
      → cond (get_or xs i nil) ≢ eq

-- The elements that pass a test.
unfoldable pub keep {ℓ} : {A : Type ℓ} → (A → Bool) → List A → List A
keep p [] = []
keep p (x ∷ xs) = if p x then x ∷ keep p xs else keep p xs

is_eq-true : (o : Ordering) → is_eq o ≡ true → o ≡ eq
is_eq-true lt h = cc
is_eq-true eq h = refl
is_eq-true gt h = cc

is_eq-ne : (o : Ordering) → o ≢ eq → is_eq o ≡ false
is_eq-ne lt h = refl
is_eq-ne eq h = absurd (h refl)
is_eq-ne gt h = refl

none-ne-some {ℓ} : {A : Type ℓ} {B : Type 0} (a : A) → ◌≡◌ {A = Option A} none (some a) → B
none-ne-some a h = cc

-- A list as an array that is NULL if it is empty.
unfoldable pub non_empty {ℓ} : {A : Type ℓ} → List A → Option (List A)
non_empty [] = none
non_empty (a ∷ as') = some (a ∷ as')

non_empty-some {ℓ} : {A : Type ℓ} (xs : List A) → 0 < length xs → non_empty xs ≡ some xs
unfolding non_empty
non_empty-some [] h = absurd (omega arith)
non_empty-some (a ∷ as') h = refl

is_eq-false : (o : Ordering) → is_eq o ≡ false → o ≢ eq
is_eq-false lt h = λ e. cc
is_eq-false eq h = λ e. cc
is_eq-false gt h = λ e. cc

module _ {ℓ} {A : Type ℓ} (nil : A) where
  keep_none :
      (p : A → Bool) (xs : List A)
      → ((j : ℕ) → j < length xs → p (get_or xs j nil) ≡ false)
      → keep p xs ≡ []
  unfolding keep
  keep_none p [] h = refl
  keep_none p (x ∷ xs) h = rw (h 0 (omega arith)) (keep_none p xs (λ j l. h (suc j) (omega arith)))

  -- A block of passing elements between failing ones is what passes.
  keep_block :
      (p : A → Bool) (xs : List A) (q i : ℕ)
      → ((j : ℕ) → j < q → p (get_or xs j nil) ≡ false)
      → ((j : ℕ) → j < i → p (get_or xs (q + j) nil) ≡ true)
      → ((j : ℕ) → q + i ≤ j → j < length xs → p (get_or xs j nil) ≡ false)
      → q + i ≤ length xs
      → keep p xs ≡ take i (drop q xs)
  unfolding keep
  keep_block p [] zero zero a b c l = refl
  keep_block p [] zero (suc i) a b c l = absurd (omega arith)
  keep_block p [] (suc q) i a b c l = absurd (omega arith)
  keep_block p (x ∷ xs) (suc q) i a b c l = rw (a 0 (omega arith)) (
      keep_block p xs q i (λ j h. a (suc j) (omega arith))
        (λ j h.
          let e : suc q + j ≡ suc (q + j) = omega arith in
          subst (λ n. p (get_or (x ∷ xs) n nil) ≡ true) e (b j h))
        (λ j h m. c (suc j) (omega arith) (omega arith)) (omega arith))
  keep_block p (x ∷ xs) zero zero a b c l = keep_none p (x ∷ xs) (λ j h. c j (omega arith) h)
  keep_block p (x ∷ xs) zero (suc i) a b c l =
      let e : 0 + 0 ≡ 0 = omega arith in
      rw (subst (λ n. p (get_or (x ∷ xs) n nil) ≡ true) e (b 0 (omega arith))) (
        ap (◌∷◌ x) (
          keep_block p xs zero i (λ j h. absurd (omega arith))
            (λ j h.
              let f : 0 + suc j ≡ suc (0 + j) = omega arith in
              subst (λ n. p (get_or (x ∷ xs) n nil) ≡ true) f (b (suc j) (omega arith)))
            (λ j h m. c (suc j) (omega arith) (omega arith)) (omega arith)))

  module _ (cond : A → Ordering) (x : NsIndex A) (v : IsValid x) where
    at : (i : ℕ) → i < x.n → get_or (view x) i nil ≡ get_or x.el i nil
    at i h = get_or-take x.n i x.el nil h

    view-IsMonotone : IsMonotone nil cond x.el x.n → IsMonotone nil cond (view x) (length (view x))
    view-IsMonotone m = record {
      above = λ i j h l g. rw (at i (omega (arith, length-view nil x v))) (
          m.above i j h (omega (arith, length-view nil x v))
            (rw (at j (omega (arith, length-view nil x v))) at g));
      below = λ i j h l g. rw (at j (omega (arith, length-view nil x v))) (
          m.below i j h (omega (arith, length-view nil x v))
            (rw (at i (omega (arith, length-view nil x v))) at g));
    }

    back_lem :
        (p : ℕ)
        → (back nil cond x.el p ≤ p)
          × ((j : ℕ) → back nil cond x.el p ≤ j → j < p → cond (get_or x.el j nil) ≡ eq)
          × ((j : ℕ) → back nil cond x.el p ≡ suc j → cond (get_or x.el j nil) ≢ eq)
    unfolding back
    back_lem zero = (omega arith, (λ j h l. absurd (omega arith)), (λ j e. absurd (omega arith)))
    back_lem (suc p) =
        let (b1, b2, b3) = back_lem p in
        elim (Bool-cases (is_eq (cond (get_or x.el p nil)))) [
          | inl e ↦ rw e (
            omega arith,
            (λ j h l. elim (Bool-cases (ltb j p)) [
              | inl t ↦ b2 j h (ltb→lt j p t)
              | inr t ↦
                  let z : j ≡ p = ground arith in rw z (is_eq-true (cond (get_or x.el p nil)) e)
            ]),
            b3,
          )
          | inr e ↦ rw e (
            omega arith,
            (λ j h l. absurd (omega arith)),
            (λ j h. let z : j ≡ p = omega arith in rw z (is_eq-false (cond (get_or x.el p nil)) e)),
          )
        ]

    forward_lem :
        (q k i : ℕ)
        → (i ≤ forward nil cond x.el q k i)
          × (forward nil cond x.el q k i ≤ i + k)
          × ((j : ℕ)
              → i ≤ j
              → j < forward nil cond x.el q k i
              → cond (get_or x.el (q + j) nil) ≡ eq)
          × (forward nil cond x.el q k i < i + k
              → cond (get_or x.el (q + forward nil cond x.el q k i) nil) ≢ eq)
    unfolding forward
    forward_lem q zero i =
        (omega arith, omega arith, (λ j h l. absurd (omega arith)), (λ l. absurd (omega arith)))
    forward_lem q (suc k) i =
        let (f1, f2, f3, f4) = forward_lem q k (suc i) in
        elim (Bool-cases (is_eq (cond (get_or x.el (q + i) nil)))) [
          | inl e ↦ rw e (
            omega arith,
            omega arith,
            (λ j h l. elim (Bool-cases (ltb i j)) [
              | inl t ↦ f3 j (ltb→lt i j t) l
              | inr t ↦
                  let z : j ≡ i = ground arith in
                  rw z (is_eq-true (cond (get_or x.el (q + i) nil)) e)
            ]),
            (λ l. f4 (omega arith)),
          )
          | inr e ↦ rw e (
            omega arith,
            omega arith,
            (λ j h l. absurd (omega arith)),
            (λ l. is_eq-false (cond (get_or x.el (q + i) nil)) e),
          )
        ]

    module _ (m : IsMonotone nil cond x.el x.n) (q : ℕ) (e : cond (get_or x.el q nil) ≡ eq) where
      before :
          q < x.n
          → (j : ℕ) → j < q
          → cond (get_or x.el (q - 1) nil) ≢ eq
          → is_eq (cond (get_or x.el j nil)) ≡ false
      before l j h d = elim (Ordering-cases (cond (get_or x.el (q - 1) nil))) [
        | inl o ↦ cc (m.below (q - 1) q (omega arith) l o)
        | inr (inl o) ↦ absurd (d o)
        | inr (inr o) ↦ rw (m.above j (q - 1) (omega arith) (omega arith) o)
      ]

      behind :
          (r j : ℕ)
          → q ≤ r
          → r ≤ j
          → j < x.n
          → cond (get_or x.el r nil) ≢ eq
          → is_eq (cond (get_or x.el j nil)) ≡ false
      behind r j h k l d = elim (Ordering-cases (cond (get_or x.el r nil))) [
        | inl o ↦ rw (m.below r j k l o)
        | inr (inl o) ↦ absurd (d o)
        | inr (inr o) ↦ cc (m.above q r h (omega arith) o)
      ]

    -- The elements around an equal one, as the two loops find them.
    module _ (m : IsMonotone nil cond x.el x.n) (p : ℕ) (l : p < x.n)
        (e : cond (get_or x.el p nil) ≡ eq) where
      block_keep :
          keep (λ a. is_eq (cond a)) (view x)
          ≡ take
              (forward nil cond x.el (back nil cond x.el p) (x.n - back nil cond x.el p - 1) 1)
              (drop (back nil cond x.el p) (view x))
      block_keep =
          let q = back nil cond x.el p in
          let i = forward nil cond x.el q (x.n - q - 1) 1 in
          let (b1, b2, b3) = back_lem p in
          let (f1, f2, f3, f4) = forward_lem q (x.n - q - 1) 1 in
          let first : cond (get_or x.el q nil) ≡ eq = elim (Bool-cases (ltb q p)) [
            | inl t ↦ b2 q (omega arith) (ltb→lt q p t)
            | inr t ↦ let z : q ≡ p = ground arith in rw z e
          ] in
          keep_block (λ a. is_eq (cond a)) (view x) q i
            (λ j h.
              rw (at j (omega arith))
                (before m q first (omega arith) j h (b3 (q - 1) (omega arith))))
            (λ j h. rw (at (q + j) (omega arith)) (elim (Bool-cases (ltb 0 j)) [
              | inl t ↦ rw (f3 j (ltb→lt 0 j t) h)
              | inr t ↦ let z : q + j ≡ q = ground arith in rw (z, first)
            ]))
            (λ j h k. rw (at j (omega (arith, length-view nil x v))) (
              behind m q first (q + i) j (omega arith) h (omega (arith, length-view nil x v))
                (f4 (omega (arith, length-view nil x v)))))
            (omega (arith, length-view nil x v))

    -- In a valid index in order, `find_multiple` returns all elements equal to the key, in their
    -- order, or NULL if there is none.
    pub find_multiple-keep :
        (b : Bsearch nil)
        → IsMonotone nil cond x.el x.n
        → find_multiple nil b.search cond x ≡ non_empty (keep (λ a. is_eq (cond a)) (view x))
    unfolding find_multiple non_empty
    find_multiple-keep b m = elim (Option-cases (b.search cond (view x))) [
      | inl e ↦ rw (
        e,
        find_multiple,
        keep_none (λ a. is_eq (cond a)) (view x)
            (λ j l.
              is_eq-ne (cond (get_or (view x) j nil))
                (b.missing cond (view x) (view-IsMonotone m) e j l)),
      )
      | inr (p, e) ↦
          let (l, o) = b.found cond (view x) p e in
          let lp : p < x.n = omega (arith, length-view nil x v) in
          let o' : cond (get_or x.el p nil) ≡ eq = rw (at p lp) at o in
          let q = back nil cond x.el p in
          let (b1, b2, b3) = back_lem p in
          let (f1, f2, f3, f4) = forward_lem q (x.n - q - 1) 1 in
          let i = forward nil cond x.el q (x.n - q - 1) 1 in
          rw
            (
              e,
              find_multiple,
              block_keep m p lp o',
              non_empty-some (take i (drop q (view x))) (
                  omega (
                    arith,
                    length-take i (drop q (view x)),
                    length-drop q (view x),
                    length-view nil x v,
                  )),
            )
            (ap some (sym (take-drop-take i q x.n x.el (omega arith))))
    ]

    -- In a valid index in order, an element that `find` returns is equal to the key, and where it
    -- returns NULL no element is.
    pub find-equal :
        (b : Bsearch nil)
        → IsMonotone nil cond x.el x.n
        → ((a : A) → find nil b.search cond x ≡ some a → cond a ≡ eq)
          × (find nil b.search cond x ≡ none
              → (i : ℕ) → i < x.n
              → cond (get_or (view x) i nil) ≢ eq)
    unfolding find
    find-equal b m = elim (Option-cases (b.search cond (view x))) [
      | inl e ↦ (
        (λ a h. none-ne-some a (rw (e, find) at h)),
        (λ h i l.
            b.missing cond (view x) (view-IsMonotone m) e i (omega (arith, length-view nil x v))),
      )
      | inr (i, e) ↦
          let (l, o) = b.found cond (view x) i e in
          let lp : i < x.n = omega (arith, length-view nil x v) in
          let o' : cond (get_or x.el i nil) ≡ eq = rw (at i lp) at o in
          (
            (λ a h.
                let g : some (get_or x.el i nil) ≡ some a = rw (e, find) at h in
                subst (λ y. cond y ≡ eq) (some_inj g) o'),
            (λ h j k. none-ne-some (get_or x.el i nil) (sym (rw (e, find) at h))),
          )
    ]

    -- In a valid index in order, `find_inf` returns NULL where the key is above all elements;
    -- otherwise an equal element, or the last element that the key is above where the next one is
    -- above the key, or the first element where that is above the key.
    pub find_inf-cases :
        IsMonotone nil cond x.el x.n
        → ((find_inf nil cond x ≡ none) × ((i : ℕ) → i < x.n → cond (get_or (view x) i nil) ≡ gt))
          ⊎ ((a : A) × (find_inf nil cond x ≡ some a) × (cond a ≡ eq))
          ⊎ ((r : ℕ) × (find_inf nil cond x ≡ some (get_or (view x) r nil))
              × (cond (get_or (view x) r nil) ≡ gt)
              × (suc r < x.n)
              × (cond (get_or (view x) (suc r) nil) ≡ lt))
          ⊎ ((find_inf nil cond x ≡ some (get_or (view x) 0 nil))
              × (0 < x.n)
              × (cond (get_or (view x) 0 nil) ≡ lt))
    unfolding find_inf
    find_inf-cases m =
        let r = bin_search nil cond x.el x.n in
        elim (bin_search_lem nil cond x.el x.n m) [
          | inl h ↦ inr (inl (get_or x.el r nil, ground (arith, h.inside, h.equal), h.equal))
          | inr h ↦ elim (Bool-cases (leb x.n r)) [
            | inl b ↦ inl (ground arith, λ i l. rw (at i l) (h.over i (ground (arith))))
            | inr b ↦ elim (Bool-cases (ltb 0 r)) [
              | inl p ↦
                  let e : suc (r - 1) ≡ r = ground arith in
                  let lr : r < x.n = ground arith in
                  inr (
                    inr (
                      inl (
                        r - 1,
                        rw (at (r - 1) (omega arith)) (ground (arith, h.under r)),
                        rw (at (r - 1) (omega arith)) (h.over (r - 1) (omega arith)),
                        omega arith,
                        rw (e, at r lr) (h.under r (omega arith) lr),
                      )))
              | inr p ↦
                  let z : r ≡ 0 = ground arith in
                  let l0 : 0 < x.n = ground arith in
                  let u = h.under 0 (omega arith) l0 in
                  inr (inr (inr (rw (at 0 l0) (ground arith), l0, rw (at 0 l0) u)))
            ]
          ]
        ]

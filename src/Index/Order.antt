-- ===== src/Index/Order.antt =====
-- nsd/index.c: the invariant of an index, `Ns_IndexAdd` and `Ns_IndexDel`.
use Prim.Native.Nat.{Ordering, lt, eq, gt}
use mathlib.Core.List.{Perm}
use anansi.Common.{
  ℕ, suc, ◌-◌, ◌≤◌, ◌<◌, ◌≡◌, ◌≢◌, inl, inr, refl, sym, ap, subst, ◌∙◌, List, [], ◌∷◌, ◌++◌, arith,
  ltb, Bool-cases, Ordering-cases, length, get_or, set, take, replicate, insert_at, shift_up,
  length-append, length-replicate, length-set, length-take, length-insert_at, take-append_le,
  take-set-suc, take-set-shift_up, length-shift_up, get_or-take, get_or-insert_at, insert_at-perm,
}
use anansi.Index.{NsIndex, init, grow, bin_search, bin_loop, place, open_slot, add}
use anansi.Index.Search.{IsMonotone, bin_search_lem, bin_search-inside}

-- The slots in use lie in the allocated array.
pub record IsValid {ℓ} {A : Type ℓ} (x : NsIndex A) : Type ℓ where
  pub fits : x.n ≤ x.max
  pub allocated : length x.el ≡ x.max
  pub grows : 0 < x.inc

-- The elements, in their order.
abbrev pub view {ℓ} : {A : Type ℓ} → NsIndex A → List A
view x = take x.n x.el

-- What the comparison function must be: a total preorder, whose sign turns with its arguments.
pub record IsOrder {ℓ} {A : Type ℓ} (cmp : A → A → Ordering) : Type ℓ where
  pub turn_lt : (a b : A) → cmp a b ≡ lt → cmp b a ≡ gt
  pub turn_gt : (a b : A) → cmp a b ≡ gt → cmp b a ≡ lt
  pub turn_eq : (a b : A) → cmp a b ≡ eq → cmp b a ≡ eq
  pub trans : (a b c : A) → cmp a b ≢ gt → cmp b c ≢ gt → cmp a c ≢ gt

module _ {ℓ} {A : Type ℓ} (nil : A) where
  -- No element stands behind a greater one.
  abbrev pub IsSorted : (A → A → Ordering) → List A → Type 0
  IsSorted cmp xs = (i j : ℕ) → i ≤ j → j < length xs → cmp (get_or xs i nil) (get_or xs j nil) ≢ gt

  pub length-view : (x : NsIndex A) → IsValid x → length (view x) ≡ x.n
  length-view x v = omega (arith, length-take x.n x.el, v.fits, v.allocated)

  pub init-IsValid : (inc : ℕ) → 0 < inc → IsValid (init nil inc) × (view (init nil inc) ≡ [])
  unfolding init
  init-IsValid inc h =
      (record { fits = omega arith; allocated = length-replicate inc nil; grows = h }, refl)

  grow_lem :
      (x : NsIndex A)
      → IsValid x
      → ((grow nil x).n ≡ x.n)
        × (x.n < (grow nil x).max)
        × (length (grow nil x).el ≡ (grow nil x).max)
        × (view (grow nil x) ≡ view x)
        × ((grow nil x).inc ≡ x.inc)
  unfolding grow
  grow_lem x v = ground (
    arith,
    v.fits,
    v.allocated,
    v.grows,
    length-append x.el (replicate x.inc nil),
    length-replicate x.inc nil,
    take-append_le x.n x.el (replicate x.inc nil),
  )

  insert_at_end : (xs : List A) (e : A) → insert_at (length xs) e xs ≡ xs ++ e ∷ []
  insert_at_end [] e = refl
  insert_at_end (x ∷ xs) e = ap (◌∷◌ x) (insert_at_end xs e)

  insert_at-end :
      (g : NsIndex A) (e : A) → g.n ≤ length g.el → insert_at g.n e (view g) ≡ view g ++ e ∷ []
  insert_at-end g e h =
      subst (λ n. insert_at n e (view g) ≡ view g ++ e ∷ []) (omega (arith, length-take g.n g.el))
        (insert_at_end (view g) e)

  place-bin_search :
      (cmp : A → A → Ordering) (g : NsIndex A) (e : A)
      → place nil cmp g e ≡ bin_search nil (cmp e) g.el g.n
  unfolding place bin_search bin_loop
  place-bin_search cmp g e = elim (Bool-cases (ltb 0 g.n)) [
    | inl h ↦ rw h
    | inr h ↦ let z : g.n ≡ 0 = ground arith in rw (h, z) refl
  ]

  view-open_slot :
      (g : NsIndex A) (i : ℕ) (e : A)
      → i ≤ g.n
      → g.n < length g.el
      → (take (suc g.n) (set (open_slot nil g i) i e) ≡ insert_at i e (view g))
        × (length (set (open_slot nil g i) i e) ≡ length g.el)
  unfolding open_slot
  view-open_slot g i e h l = elim (Bool-cases (ltb i g.n)) [
    | inl b ↦ (
      rw (b, open_slot) (take-set-shift_up nil (g.n - i) i g.n e g.el (omega arith) l),
      rw (b, open_slot)
          (length-set (shift_up nil (g.n - i) i g.el) i e ∙ length-shift_up nil (g.n - i) i g.el),
    )
    | inr b ↦
        let z : i ≡ g.n = ground arith in
        (
          rw (b, open_slot, z) (take-set-suc g.n g.el e l ∙ sym (insert_at-end g e (omega arith))),
          rw (b, open_slot) (length-set g.el i e),
        )
  ]

  module _ (cmp : A → A → Ordering) (order : IsOrder cmp) where
    pub IsSorted-IsMonotone :
        (x : NsIndex A) (e : A)
        → IsValid x
        → IsSorted cmp (view x)
        → IsMonotone nil (cmp e) x.el x.n
    IsSorted-IsMonotone x e v s = record { above = above; below = below }
      where
        le : (i j : ℕ) → i ≤ j → j < x.n → cmp (get_or x.el i nil) (get_or x.el j nil) ≢ gt
        le i j h l =
            subst (λ a. cmp a (get_or x.el j nil) ≢ gt) (get_or-take x.n i x.el nil (omega arith))
              (subst (λ b. cmp (get_or (view x) i nil) b ≢ gt) (get_or-take x.n j x.el nil l)
                (s i j h (omega (arith, length-view x v))))

        above :
            (i j : ℕ)
            → i ≤ j
            → j < x.n
            → cmp e (get_or x.el j nil) ≡ gt
            → cmp e (get_or x.el i nil) ≡ gt
        above i j h l g = elim (Ordering-cases (cmp e (get_or x.el i nil))) [
          | inl o ↦ absurd (order.trans e _ _ (λ d. cc) (le i j h l) g)
          | inr (inl o) ↦ absurd (order.trans e _ _ (λ d. cc) (le i j h l) g)
          | inr (inr o) ↦ o
        ]

        below :
            (i j : ℕ)
            → i ≤ j
            → j < x.n
            → cmp e (get_or x.el i nil) ≡ lt
            → cmp e (get_or x.el j nil) ≡ lt
        below i j h l g = elim (Ordering-cases (cmp e (get_or x.el j nil))) [
          | inl o ↦ o
          | inr (inl o) ↦
              let back = order.turn_eq e (get_or x.el j nil) o in
              absurd (order.trans _ _ e (le i j h l) (λ d. cc) (order.turn_lt e _ g))
          | inr (inr o) ↦ absurd (order.trans e _ _ (λ d. cc) (le i j h l) o)
        ]

    -- A place where an element may stand: nothing before it is greater, nothing behind it less.
    pub record Fits (e : A) (xs : List A) (r : ℕ) : Type 0 where
      pub inside : r ≤ length xs
      pub before : (i : ℕ) → i < r → cmp (get_or xs i nil) e ≢ gt
      pub behind : (i : ℕ) → r ≤ i → i < length xs → cmp e (get_or xs i nil) ≢ gt

    turned : (a b : A) → cmp a b ≢ lt → cmp b a ≢ gt
    turned a b h g = h (order.turn_gt b a g)

    search-Fits :
        (x : NsIndex A) (e : A)
        → IsValid x
        → IsSorted cmp (view x)
        → Fits e (view x) (bin_search nil (cmp e) x.el x.n)
    search-Fits x e v s =
        let r = bin_search nil (cmp e) x.el x.n in
        let m = IsSorted-IsMonotone x e v s in
        let at : (i : ℕ) → i < x.n → get_or (view x) i nil ≡ get_or x.el i nil =
          λ i h. get_or-take x.n i x.el nil h in
        elim (bin_search_lem nil (cmp e) x.el x.n m) [
          | inr h ↦ record {
            inside = omega (arith, h.inside, length-view x v);
            before = λ i l.
                rw (at i (omega (arith, h.inside)))
                  (turned e (get_or x.el i nil) (λ d. cc (h.over i l)));
            behind = λ i l k.
                rw (at i (omega (arith, length-view x v)))
                  (λ g. cc (h.under i l (omega (arith, length-view x v))));
          }
          | inl h ↦ record {
            inside = omega (arith, h.inside, length-view x v);
            before = λ i l. rw (at i (omega (arith, h.inside))) (
                turned e (get_or x.el i nil)
                  (λ d. cc (m.below i r (omega arith) h.inside d, h.equal)));
            behind = λ i l k.
                rw (at i (omega (arith, length-view x v)))
                  (λ g. cc (m.above r i l (omega (arith, length-view x v)) g, h.equal));
          }
        ]

    insert_at-IsSorted :
        (e : A) (xs : List A) (r : ℕ)
        → IsSorted cmp xs
        → Fits e xs r
        → IsSorted cmp (insert_at r e xs)
    insert_at-IsSorted e xs r s f i j h l =
        rw (get_or-insert_at r i e xs nil f.inside, get_or-insert_at r j e xs nil f.inside)
          (ground (
            arith,
            s i j,
            s i (j - 1),
            s (i - 1) (j - 1),
            f.before i,
            f.behind (j - 1),
            order.turn_gt e e,
            length-insert_at r e xs,
          ))

    -- `add` inserts the element at a place where it fits.
    pub view-add :
        (x : NsIndex A) (e : A)
        → IsValid x
        → IsSorted cmp (view x)
        → (r : ℕ) × (view (add nil cmp x e) ≡ insert_at r e (view x))
          × Fits e (view x) r
          × IsValid (add nil cmp x e)
    unfolding add
    view-add x e v s =
        let g = grow nil x in
        let (en, lt_max, len, ev, ei) = grow_lem x v in
        let gv : IsValid g = record {
          fits = omega arith;
          allocated = len;
          grows = omega (arith, v.grows);
        } in
        let f = search-Fits g e gv (subst (IsSorted cmp) (sym ev) s) in
        let i = bin_search nil (cmp e) g.el g.n in
        let (w, n) =
          view-open_slot g i e (omega (arith, f.inside, length-view g gv)) (omega arith) in
        (
          i,
          rw (place-bin_search cmp g e) (w ∙ ap (insert_at i e) ev),
          subst (λ xs. Fits e xs i) ev f,
          rw (place-bin_search cmp g e)
              (record { fits = omega arith; allocated = n ∙ len; grows = gv.grows }),
        )

    -- With a comparison that is an order, `add` keeps a valid index valid and in order, and adds the
    -- one element.
    pub add-IsSorted :
        (x : NsIndex A) (e : A)
        → IsValid x
        → IsSorted cmp (view x)
        → IsSorted cmp (view (add nil cmp x e))
          × Perm (view (add nil cmp x e)) (e ∷ view x)
          × IsValid (add nil cmp x e)
    add-IsSorted x e v s =
        let (r, w, f, u) = view-add x e v s in
        (rw w (insert_at-IsSorted e (view x) r s f), rw w (insert_at-perm r e (view x)), u)

  -- With any comparison, `add` inserts the element somewhere.
  pub view-add_any :
      (cmp : A → A → Ordering) (x : NsIndex A) (e : A)
      → IsValid x
      → (r : ℕ) × (view (add nil cmp x e) ≡ insert_at r e (view x)) × IsValid (add nil cmp x e)
  unfolding add
  view-add_any cmp x e v =
      let g = grow nil x in
      let (en, lt_max, len, ev, ei) = grow_lem x v in
      let i = bin_search nil (cmp e) g.el g.n in
      let (w, n) = view-open_slot g i e (bin_search-inside nil (cmp e) g.el g.n) (omega arith) in
      (
        i,
        rw (place-bin_search cmp g e) (w ∙ ap (insert_at i e) ev),
        rw (place-bin_search cmp g e)
            (record { fits = omega arith; allocated = n ∙ len; grows = omega (arith, v.grows) }),
      )

-- ===== src/Set/Change.antt =====
-- nsd/set.c: what a key finds in a set after the set was changed.
use anansi.Common.{
  ℕ, zero, suc, ◌+◌, ◌-◌, ◌≤◌, ◌≡◌, ◌≢◌, ◌↔◌, refl, sym, ap, ◌∙◌, Bool, true, false, Option, none,
  some, List, [], ◌∷◌, ◌++◌, arith, if◌then◌else◌, inl, inr, ◌⊎◌, Bool-cases, Bytes, get_or,
  remove_at, str_eq, str_eq_iff,
}
use anansi.Set.{
  Field, blank, NsSet, Cmp, matches, get_cmp, find, get, put, delete, delete_key, update,
}
use anansi.Set.View.{IsValid, view, view-put, view-delete, delete-IsValid}
use anansi.Set.Lookup.{first, count, value_of, named, IsFirst, find_cmp-first, get_cmp-first}

-- The first of two answers that is one.
abbrev pub or_else : Option Field → Option Field → Option Field
or_else none g = g
or_else (some f) g = some f

pub first-append :
    (p : Field → Bool) (xs ys : List Field) → first p (xs ++ ys) ≡ or_else (first p xs) (first p ys)
unfolding first
first-append p [] ys = refl
first-append p (x ∷ xs) ys = ground (arith, first-append p xs ys)

count-append :
    (p : Field → Bool) (xs ys : List Field) → count p (xs ++ ys) ≡ count p xs + count p ys
unfolding count
count-append p [] ys = omega arith
count-append p (x ∷ xs) ys = omega (arith, count-append p xs ys)

-- Fields that fail a test may be removed under the test's eyes.
first-remove_at :
    (p : Field → Bool) (m : ℕ) (xs : List Field)
    → p (get_or xs m blank) ≡ false
    → first p (remove_at m xs) ≡ first p xs
unfolding first
first-remove_at p m [] h = refl
first-remove_at p zero (x ∷ xs) h = rw h refl
first-remove_at p (suc m) (x ∷ xs) h = rw (first-remove_at p m xs h)

count-remove_at :
    (p : Field → Bool) (xs : List Field) (m : ℕ)
    → IsFirst p xs m
    → count p (remove_at m xs) + 1 ≡ count p xs
unfolding count
count-remove_at p [] m f = absurd (omega (arith, f.inside))
count-remove_at p (x ∷ xs) zero f = rw (f.passes) (omega arith)
count-remove_at p (x ∷ xs) (suc m) f = omega (
  arith,
  count-remove_at p xs m (record {
    inside = omega (arith, f.inside);
    passes = f.passes;
    before = λ n l. f.before (suc n) (omega arith);
  }),
)

count-zero_first : (p : Field → Bool) (xs : List Field) → count p xs ≡ 0 → first p xs ≡ none
unfolding count first
count-zero_first p [] h = refl
count-zero_first p (x ∷ xs) h = ground (arith, count-zero_first p xs)

count_of_first : (p : Field → Bool) (xs : List Field) → first p xs ≡ none → count p xs ≡ 0
unfolding count first
count_of_first p [] h = refl
count_of_first p (x ∷ xs) h = ground (arith, count_of_first p xs)

-- With `strcmp` a field matches a key exactly when its name is that key, NULL included.
pub matches_iff : (k n : Option Bytes) → (matches str_eq k n ≡ true) ↔ (k ≡ n)
unfolding matches
matches_iff none none = ((λ _. refl), (λ _. refl))
matches_iff none (some n) = ((λ h. cc), (λ h. cc))
matches_iff (some k) none = ((λ h. cc), (λ h. cc))
matches_iff (some k) (some n) =
    ((λ h. ap some ((str_eq_iff k n).0 h)), (λ h. (str_eq_iff k n).1 (cc)))

pub matches_ne : (k n : Option Bytes) → k ≢ n → matches str_eq k n ≡ false
matches_ne k n h = elim (Bool-cases (matches str_eq k n)) [
  | inl d ↦ absurd (h ((matches_iff k n).0 d))
  | inr d ↦ d
]

pub or_else-none : (f : Option Field) → or_else f none ≡ f
or_else-none none = refl
or_else-none (some f) = refl

str_eq-other :
    (k k' : Option Bytes) (f : Field) → k ≢ k' → named str_eq k f ≡ true → named str_eq k' f ≡ false
str_eq-other k k' f h e = elim (Bool-cases (named str_eq k' f)) [
  | inl d ↦ absurd (h ((matches_iff k f.name).0 e ∙ sym ((matches_iff k' f.name).0 d)))
  | inr d ↦ d
]

-- A lookup after `put` finds an older field that matches, else the new one.
pub get_cmp-put :
    (cmp : Cmp) (s : NsSet) (key value : Option Bytes) (q : Option Bytes)
    → IsValid s
    → get_cmp cmp (put s key value).0 q
      ≡ value_of (
          or_else
            (first (named cmp q) (view s))
            (if matches cmp q key then some (record { name = key; value = value }) else none))
unfolding first
get_cmp-put cmp s key value q v =
    let (e, _, w) = view-put s v key value in
    get_cmp-first cmp q (put s key value).0 w
    ∙ ap (λ xs. value_of (first (named cmp q) xs)) e
    ∙ ap value_of (first-append (named cmp q) (view s) _)

module _ (s : NsSet) (v : IsValid s) (key : Option Bytes) where
  pub delete_key-IsValid : IsValid (delete_key s key)
  unfolding delete_key
  delete_key-IsValid = delete-IsValid s v (find s key)

  delete_key-cases :
      ((delete_key s key ≡ s) × (first (named str_eq key) (view s) ≡ none))
      ⊎ ((m : ℕ) × (view (delete_key s key) ≡ remove_at m (view s))
          × IsFirst (named str_eq key) (view s) m)
  unfolding delete_key find
  delete_key-cases = elim (find_cmp-first str_eq key s v) [
    | inl (e, f) ↦ inl (unfold delete in rw (e, delete), f)
    | inr (m, e, f) ↦ inr (m, rw e (view-delete s v m), f)
  ]

  -- In a valid set `delete_key` removes one field with the key, if there is any: their number is one
  -- less than before, or 0.
  pub count-delete_key :
      count (named str_eq key) (view (delete_key s key)) ≡ count (named str_eq key) (view s) - 1
  count-delete_key = elim delete_key-cases [
    | inl (e, f) ↦ rw e (omega (arith, count_of_first (named str_eq key) (view s) f))
    | inr (m, e, f) ↦ rw e (omega (arith, count-remove_at (named str_eq key) (view s) m f))
  ]

  -- In a valid set `delete_key` does not change what any other key finds.
  pub get-delete_key : (q : Option Bytes) → key ≢ q → get (delete_key s key) q ≡ get s q
  unfolding get
  get-delete_key q h = elim delete_key-cases [
    | inl (e, f) ↦ rw e
    | inr (m, e, f) ↦
        get_cmp-first str_eq q (delete_key s key) delete_key-IsValid
        ∙ ap (λ xs. value_of (first (named str_eq q) xs)) e
        ∙ ap value_of (
            first-remove_at (named str_eq q) m (view s)
              (str_eq-other key q (get_or (view s) m blank) h f.passes))
        ∙ sym (get_cmp-first str_eq q s v)
  ]

module _ (s : NsSet) (v : IsValid s) (key value : Bytes) where
  pub update-IsValid : IsValid (update s key value)
  unfolding update
  update-IsValid =
      (view-put (delete_key s (some key)) (delete_key-IsValid s v (some key)) (some key)
        (some value)).2

  -- After `update` of a valid set, a key that no more than one field had has the new value, in one
  -- field.
  pub get-update :
      count (named str_eq (some key)) (view s) ≤ 1
      → (get (update s key value) (some key) ≡ some value)
        × (count (named str_eq (some key)) (view (update s key value)) ≡ 1)
  unfolding update get count
  get-update h =
      let p : Field → Bool = named str_eq (some key) in
      let d : NsSet = delete_key s (some key) in
      let w = delete_key-IsValid s v (some key) in
      let c : count p (view d) ≡ 0 = omega (arith, count-delete_key s v (some key)) in
      let here : matches str_eq (some key) (some key) ≡ true =
        (matches_iff (some key) (some key)).1 refl in
      (
        get_cmp-put str_eq d (some key) (some value) (some key) w
            ∙ rw (count-zero_first p (view d) c, here),
        rw ((view-put d w (some key) (some value)).0, count-append) (rw (c, here)),
      )

  -- In a valid set `update` does not change what any other key finds.
  pub get-update_ne : (q : Option Bytes) → some key ≢ q → get (update s key value) q ≡ get s q
  unfolding update get
  get-update_ne q h =
      let d : NsSet = delete_key s (some key) in
      let w = delete_key-IsValid s v (some key) in
      get_cmp-put str_eq d (some key) (some value) q w
      ∙ rw (matches_ne q (some key) (λ e. h (sym e)), or_else-none)
          (sym (get_cmp-first str_eq q d w))
      ∙ unfold get in get-delete_key s v (some key) q h

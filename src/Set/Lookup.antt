-- ===== src/Set/Lookup.antt =====
-- nsd/set.c: the searches of a set, against recursion on the list of its fields.
use anansi.Common.{
  ℕ, zero, suc, ◌+◌, ◌≤◌, ◌<◌, ◌≡◌, refl, sym, ◌∙◌, Bool, true, false, Option, none, some, List, [],
  ◌∷◌, arith, leb, if◌then◌else◌, inl, inr, ◌⊎◌, Bool-cases, Option-cases, Bytes, length, take,
  drop, get_or, take-drop-suc, get_or-take,
}
use anansi.Set.{
  Field, blank, NsSet, Cmp, field, matches, matches_unique, find_from, find_cmp, get_cmp,
  unique_from, unique_cmp,
}
use anansi.Set.View.{IsValid, view, length-view}

-- The index of the first field that passes a test, counted from `i`.
pub index_from : (Field → Bool) → ℕ → List Field → Option ℕ
index_from p i [] = none
index_from p i (x ∷ xs) = if p x then some i else index_from p (suc i) xs

-- The first field that passes a test.
unfoldable pub first : (Field → Bool) → List Field → Option Field
first p [] = none
first p (x ∷ xs) = if p x then some x else first p xs

unfoldable pub count : (Field → Bool) → List Field → ℕ
count p [] = 0
count p (x ∷ xs) = (if p x then 1 else 0) + count p xs

-- The value of a field that a search may have found.
abbrev pub value_of : Option Field → Option Bytes
value_of none = none
value_of (some f) = f.value

abbrev pub named : Cmp → Option Bytes → Field → Bool
named cmp key f = matches cmp key f.name

module _ (cmp : Cmp) (key : Option Bytes) (s : NsSet) where
  find_from-index_from :
      (k i : ℕ)
      → i + k ≤ length s.fields
      → find_from cmp key s k i ≡ index_from (named cmp key) i (take k (drop i s.fields))
  unfolding find_from index_from
  find_from-index_from zero i h = refl
  find_from-index_from (suc k) i h =
      rw (
        take-drop-suc k i s.fields blank (omega arith),
        find_from-index_from k (suc i) (omega arith),
      )

  find_cmp-index_from : IsValid s → find_cmp cmp s key ≡ index_from (named cmp key) 0 (view s)
  unfolding find_cmp
  find_cmp-index_from v = find_from-index_from s.size 0 (omega (arith, v.fits, v.allocated))

-- The index `m` is that of the first field that passes the test.
pub record IsFirst (p : Field → Bool) (xs : List Field) (m : ℕ) : Type 0 where
  pub inside : m < length xs
  pub passes : p (get_or xs m blank) ≡ true
  pub before : (n : ℕ) → n < m → p (get_or xs n blank) ≡ false

IsFirst-suc :
    (p : Field → Bool) (x : Field) (xs : List Field) (m : ℕ)
    → p x ≡ false
    → IsFirst p xs m
    → IsFirst p (x ∷ xs) (suc m)
IsFirst-suc p x xs m h f = record {
  inside = omega (arith, f.inside);
  passes = f.passes;
  before = b;
}
  where
    b : (n : ℕ) → n < suc m → p (get_or (x ∷ xs) n blank) ≡ false
    b zero l = h
    b (suc n) l = f.before n (omega arith)

index_from_sound :
    (p : Field → Bool) (i : ℕ) (xs : List Field) (j : ℕ)
    → index_from p i xs ≡ some j
    → (m : ℕ) × (j ≡ i + m) × IsFirst p xs m
unfolding index_from
index_from_sound p i [] j h = absurd (cc)
index_from_sound p i (x ∷ xs) j h = elim (Bool-cases (p x)) [
  | inl e ↦ (
    0,
    ground arith,
    record { inside = omega arith; passes = e; before = λ n l. absurd (omega arith) },
  )
  | inr e ↦
      let (m, q, f) = index_from_sound p (suc i) xs j (ground arith) in
      (suc m, omega arith, IsFirst-suc p x xs m e f)
]

index_from-none :
    (p : Field → Bool) (i : ℕ) (xs : List Field)
    → index_from p i xs ≡ none
    → (m : ℕ) → m < length xs
    → p (get_or xs m blank) ≡ false
unfolding index_from
index_from-none p i [] h m l = absurd (omega arith)
index_from-none p i (x ∷ xs) h zero l = ground arith
index_from-none p i (x ∷ xs) h (suc m) l =
    index_from-none p (suc i) xs (ground arith) m (omega arith)

pub first_of_IsFirst :
    (p : Field → Bool) (xs : List Field) (m : ℕ)
    → IsFirst p xs m
    → first p xs ≡ some (get_or xs m blank)
unfolding first
first_of_IsFirst p [] m f = absurd (omega (arith, f.inside))
first_of_IsFirst p (x ∷ xs) zero f = rw (f.passes)
first_of_IsFirst p (x ∷ xs) (suc m) f = rw (f.before 0 (omega arith)) (
    first_of_IsFirst p xs m (record {
      inside = omega (arith, f.inside);
      passes = f.passes;
      before = λ n l. f.before (suc n) (omega arith);
    }))

first_of_none :
    (p : Field → Bool) (i : ℕ) (xs : List Field) → index_from p i xs ≡ none → first p xs ≡ none
unfolding first index_from
first_of_none p i [] h = refl
first_of_none p i (x ∷ xs) h = ground (arith, first_of_none p (suc i) xs)

module _ (cmp : Cmp) (key : Option Bytes) (s : NsSet) (v : IsValid s) where
  -- In a valid set an index that a search returns is the first whose name matches the key, and
  -- where it returns -1 no name matches.
  pub find_cmp-IsFirst :
      ((m : ℕ) → find_cmp cmp s key ≡ some m → IsFirst (named cmp key) (view s) m)
      × (find_cmp cmp s key ≡ none
          → (m : ℕ) → m < s.size
          → named cmp key (get_or (view s) m blank) ≡ false)
  find_cmp-IsFirst = (
    (λ m h.
        let (m', e, f) =
          index_from_sound (named cmp key) 0 (view s) m
            (sym (find_cmp-index_from cmp key s v) ∙ h) in
        let e' : m ≡ m' = omega arith in rw e' f),
    (λ h m l.
        index_from-none (named cmp key) 0 (view s) (sym (find_cmp-index_from cmp key s v) ∙ h) m
          (omega (arith, length-view s v))),
  )

  pub find_cmp-first :
      (find_cmp cmp s key ≡ none) × (first (named cmp key) (view s) ≡ none)
      ⊎ ((m : ℕ) × (find_cmp cmp s key ≡ some m) × IsFirst (named cmp key) (view s) m)
  find_cmp-first = elim (Option-cases (find_cmp cmp s key)) [
    | inl e ↦
        inl
          (e, first_of_none (named cmp key) 0 (view s) (sym (find_cmp-index_from cmp key s v) ∙ e))
    | inr (m, e) ↦ inr (m, e, find_cmp-IsFirst.0 m e)
  ]

  -- In a valid set `get_cmp` is the value of the first field whose name matches, and NULL if there
  -- is none.
  pub get_cmp-first : get_cmp cmp s key ≡ value_of (first (named cmp key) (view s))
  unfolding get_cmp
  get_cmp-first = elim find_cmp-first [
    | inl (e, f) ↦ rw (f, e, get_cmp)
    | inr (m, e, f) ↦
        let g : field s m ≡ get_or (view s) m blank =
          sym (get_or-take s.size m s.fields blank (omega (arith, f.inside, length-view s v))) in
        rw (e, first_of_IsFirst (named cmp key) (view s) m f, get_cmp, g)
  ]

-- The fields without a name, and those whose name matches the key.
pub clashes : Cmp → Bytes → List Field → ℕ
clashes cmp key [] = 0
clashes cmp key (f ∷ fs) = elim f.name [
  | none ↦ suc (clashes cmp key fs)
  | some n ↦ if cmp key n then suc (clashes cmp key fs) else clashes cmp key fs
]

clashes-cons :
    (cmp : Cmp) (key : Bytes) (f : Field) (fs : List Field)
    → clashes cmp key (f ∷ fs)
      ≡ (if matches_unique cmp key f.name then suc (clashes cmp key fs) else clashes cmp key fs)
unfolding clashes
clashes-cons cmp key f fs = elim (Option-cases f.name) [
  | inl e ↦ rw (clashes, e)
  | inr (n, e) ↦ rw (clashes, e)
]

unique_from-count :
    (cmp : Cmp) (key : Bytes) (s : NsSet) (k i : ℕ)
    → i + k ≤ length s.fields
    → (unique_from cmp key s k i true ≡ leb (clashes cmp key (take k (drop i s.fields))) 0)
      × (unique_from cmp key s k i false ≡ leb (clashes cmp key (take k (drop i s.fields))) 1)
unfolding unique_from clashes
unique_from-count cmp key s zero i h = (refl, refl)
unique_from-count cmp key s (suc k) i h =
    rw
      (
        take-drop-suc k i s.fields blank (omega arith),
        clashes-cons cmp key (field s i) (take k (drop (suc i) s.fields)),
      )
      (ground (arith, unique_from-count cmp key s k (suc i) (omega arith)))

-- In a valid set a key is unique exactly when at most one field has no name or a name that the
-- comparison takes for the key: a field without a name counts against every key.
pub unique_cmp-count :
    (cmp : Cmp) (key : Bytes) (s : NsSet)
    → IsValid s
    → unique_cmp cmp s key ≡ leb (clashes cmp key (view s)) 1
unfolding unique_cmp
unique_cmp-count cmp key s v =
    (unique_from-count cmp key s s.size 0 (omega (arith, v.fits, v.allocated))).1

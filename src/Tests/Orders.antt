-- ===== src/Tests/Orders.antt =====
-- An order of strings and a search through an array, as `strcmp` and `bsearch` may be.
use Prim.Native.Nat.{Ordering, lt, eq, gt, compare}
use anansi.Common.{
  ℕ, zero, suc, ◌≡◌, ◌≢◌, ◌<◌, refl, Option, none, some, List, [], ◌∷◌, arith, length, get_or,
  Bytes,
}
use anansi.Index.Find.{Bsearch}
use anansi.UrlSpace.Exact.{IsStrcmp}

-- A search through the array, as a `bsearch`.
unfoldable pub linear {ℓ} : {A : Type ℓ} → (A → Ordering) → List A → Option ℕ
linear cond [] = none
linear cond (x ∷ xs) = elim (cond x) [
  | eq ↦ some 0
  | _ ↦ elim (linear cond xs) [ none ↦ none | some i ↦ some (suc i) ]
]

pub linear_found {ℓ} :
    {A : Type ℓ} (nil : A) (cond : A → Ordering) (xs : List A) (i : ℕ)
    → linear cond xs ≡ some i
    → (i < length xs) × (cond (get_or xs i nil) ≡ eq)
unfolding linear
linear_found nil cond [] i h = cc
linear_found nil cond (x ∷ xs) zero h = ground arith
linear_found nil cond (x ∷ xs) (suc i) h = ground (arith, linear_found nil cond xs i)

pub linear_missing {ℓ} :
    {A : Type ℓ} (nil : A) (cond : A → Ordering) (xs : List A)
    → linear cond xs ≡ none
    → (i : ℕ) → i < length xs
    → cond (get_or xs i nil) ≢ eq
unfolding linear
linear_missing nil cond [] h i l = absurd (omega arith)
linear_missing nil cond (x ∷ xs) h zero l = ground arith
linear_missing nil cond (x ∷ xs) h (suc i) l =
    linear_missing nil cond xs (ground arith) i (omega arith)

abbrev pub linear_search {ℓ} : {A : Type ℓ} (nil : A) → Bsearch nil
linear_search nil = record {
  search = linear;
  found = linear_found nil;
  missing = λ cond xs m. linear_missing nil cond xs;
}

-- The order of bytes in strings, as `strcmp` has it.
unfoldable pub order : Bytes → Bytes → Ordering
order [] [] = eq
order [] (y ∷ ys) = lt
order (x ∷ xs) [] = gt
order (x ∷ xs) (y ∷ ys) =
    let rest = order xs ys in elim (compare x y) [ lt ↦ lt | eq ↦ rest | gt ↦ gt ]

turned_lt : (a b : Bytes) → order a b ≡ lt → order b a ≡ gt
unfolding order
turned_lt [] [] h = cc
turned_lt [] (y ∷ ys) h = refl
turned_lt (x ∷ xs) [] h = cc
turned_lt (x ∷ xs) (y ∷ ys) h = ground (arith, turned_lt xs ys)

turned_gt : (a b : Bytes) → order a b ≡ gt → order b a ≡ lt
unfolding order
turned_gt [] [] h = cc
turned_gt [] (y ∷ ys) h = cc
turned_gt (x ∷ xs) [] h = refl
turned_gt (x ∷ xs) (y ∷ ys) h = ground (arith, turned_gt xs ys)

turned_eq : (a b : Bytes) → order a b ≡ eq → order b a ≡ eq
unfolding order
turned_eq [] [] h = refl
turned_eq [] (y ∷ ys) h = cc
turned_eq (x ∷ xs) [] h = cc
turned_eq (x ∷ xs) (y ∷ ys) h = ground (arith, turned_eq xs ys)

order_trans : (a b c : Bytes) → order a b ≢ gt → order b c ≢ gt → order a c ≢ gt
unfolding order
order_trans [] b [] h k = λ e. cc
order_trans [] b (z ∷ zs) h k = λ e. cc
order_trans (x ∷ xs) [] c h k = absurd (h refl)
order_trans (x ∷ xs) (y ∷ ys) [] h k = absurd (k refl)
order_trans (x ∷ xs) (y ∷ ys) (z ∷ zs) h k = ground (arith, order_trans xs ys zs)

order_equal : (a b : Bytes) → order a b ≡ eq → a ≡ b
unfolding order
order_equal [] [] h = refl
order_equal [] (y ∷ ys) h = cc
order_equal (x ∷ xs) [] h = cc
order_equal (x ∷ xs) (y ∷ ys) h = ground (arith, order_equal xs ys)

pub order-IsStrcmp : IsStrcmp order
order-IsStrcmp = record {
  order = record {
    turn_lt = turned_lt;
    turn_gt = turned_gt;
    turn_eq = turned_eq;
    trans = order_trans;
  };
  equal = order_equal;
}

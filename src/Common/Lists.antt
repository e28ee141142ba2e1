-- ===== src/Common/Lists.antt =====
-- Lists measured and indexed by native numbers, under the library's names.
use Prim.Native.Nat.{ℕ, zero, suc, ◌+◌, ◌-◌, ◌≤◌, ◌<◌, min}
use mathlib.Core.Path.{◌≡◌, refl, ap}
use mathlib.Core.Bool.{Bool}
use mathlib.Core.List.Perm
use mathlib.Core.List.{List, [], ◌∷◌, ◌++◌, Perm}
use mathlib.Core.Option.{Option, none, some}
use native.Mathlib.Omega.{arith}
use anansi.Common.Tests.{ltb, ◌==◌, if◌then◌else◌}

module _ {ℓ} {A : Type ℓ} where
  abbrev pub length : List A → ℕ
  length [] = 0
  length (x ∷ xs) = suc (length xs)

  abbrev pub get_or : List A → ℕ → A → A
  get_or [] i d = d
  get_or (x ∷ xs) zero d = x
  get_or (x ∷ xs) (suc i) d = get_or xs i d

  abbrev pub get_elem? : List A → ℕ → Option A
  get_elem? [] i = none
  get_elem? (x ∷ xs) zero = some x
  get_elem? (x ∷ xs) (suc i) = get_elem? xs i

  -- A write out of bounds changes nothing.
  abbrev pub set : List A → ℕ → A → List A
  set [] i v = []
  set (x ∷ xs) zero v = v ∷ xs
  set (x ∷ xs) (suc i) v = x ∷ set xs i v

  abbrev pub take : ℕ → List A → List A
  take zero xs = []
  take (suc n) [] = []
  take (suc n) (x ∷ xs) = x ∷ take n xs

  abbrev pub drop : ℕ → List A → List A
  drop zero xs = xs
  drop (suc n) [] = []
  drop (suc n) (x ∷ xs) = drop n xs

  abbrev pub replicate : ℕ → A → List A
  replicate zero a = []
  replicate (suc n) a = a ∷ replicate n a

  -- The list without its element at an index.
  abbrev pub remove_at : ℕ → List A → List A
  remove_at i [] = []
  remove_at zero (x ∷ xs) = xs
  remove_at (suc i) (x ∷ xs) = x ∷ remove_at i xs

  abbrev pub insert_at : ℕ → A → List A → List A
  insert_at zero v xs = v ∷ xs
  insert_at (suc i) v [] = v ∷ []
  insert_at (suc i) v (x ∷ xs) = x ∷ insert_at i v xs

  pub length-append : (xs ys : List A) → length (xs ++ ys) ≡ length xs + length ys
  length-append [] ys = omega arith
  length-append (x ∷ xs) ys = omega (arith, length-append xs ys)

  pub length-set : (xs : List A) (i : ℕ) (v : A) → length (set xs i v) ≡ length xs
  length-set [] i v = refl
  length-set (x ∷ xs) zero v = refl
  length-set (x ∷ xs) (suc i) v = ap suc (length-set xs i v)

  pub length-replicate : (n : ℕ) (a : A) → length (replicate n a) ≡ n
  length-replicate zero a = refl
  length-replicate (suc n) a = ap suc (length-replicate n a)

  pub length-take : (n : ℕ) (xs : List A) → length (take n xs) ≡ min n (length xs)
  length-take zero xs = omega arith
  length-take (suc n) [] = omega arith
  length-take (suc n) (x ∷ xs) = omega (arith, length-take n xs)

  pub length-remove_at :
      (i : ℕ) (xs : List A) → i < length xs → length (remove_at i xs) + 1 ≡ length xs
  length-remove_at i [] h = absurd (omega arith)
  length-remove_at zero (x ∷ xs) h = omega arith
  length-remove_at (suc i) (x ∷ xs) h = omega (arith, length-remove_at i xs (omega arith))

  pub get_or-take : (n i : ℕ) (xs : List A) (d : A) → i < n → get_or (take n xs) i d ≡ get_or xs i d
  get_or-take zero i xs d h = absurd (omega arith)
  get_or-take (suc n) i [] d h = refl
  get_or-take (suc n) zero (x ∷ xs) d h = refl
  get_or-take (suc n) (suc i) (x ∷ xs) d h = get_or-take n i xs d (omega arith)

  pub take-append_le : (n : ℕ) (xs ys : List A) → n ≤ length xs → take n (xs ++ ys) ≡ take n xs
  take-append_le zero xs ys h = refl
  take-append_le (suc n) [] ys h = absurd (omega arith)
  take-append_le (suc n) (x ∷ xs) ys h = ap (◌∷◌ x) (take-append_le n xs ys (omega arith))

  pub take_of_length-le : (n : ℕ) (xs : List A) → length xs ≤ n → take n xs ≡ xs
  take_of_length-le (suc m) (y ∷ ys) l = ap (λ zs. y ∷ zs) (take_of_length-le m ys (omega arith))
  take_of_length-le zero (y ∷ ys) l = absurd (omega arith)
  take_of_length-le (suc m) [] l = refl
  take_of_length-le zero [] l = refl

  pub take-set_of_le : (n i : ℕ) (xs : List A) (v : A) → n ≤ i → take n (set xs i v) ≡ take n xs
  take-set_of_le zero i xs v h = refl
  take-set_of_le (suc n) i [] v h = refl
  take-set_of_le (suc n) zero (x ∷ xs) v h = absurd (omega arith)
  take-set_of_le (suc n) (suc i) (x ∷ xs) v h = ap (◌∷◌ x) (take-set_of_le n i xs v (omega arith))

  pub take-set_of_lt : (n i : ℕ) (xs : List A) (v : A) → take n (set xs i v) ≡ set (take n xs) i v
  take-set_of_lt zero i xs v = refl
  take-set_of_lt (suc n) i [] v = refl
  take-set_of_lt (suc n) zero (x ∷ xs) v = refl
  take-set_of_lt (suc n) (suc i) (x ∷ xs) v = ap (◌∷◌ x) (take-set_of_lt n i xs v)

  -- A write just behind a prefix appends to it.
  pub take-set-suc :
      (n : ℕ) (xs : List A) (v : A)
      → n < length xs
      → take (suc n) (set xs n v) ≡ take n xs ++ v ∷ []
  take-set-suc n [] v h = absurd (omega arith)
  take-set-suc zero (x ∷ xs) v h = refl
  take-set-suc (suc n) (x ∷ xs) v h = ap (◌∷◌ x) (take-set-suc n xs v (omega arith))

  pub take-take : (n m : ℕ) (xs : List A) → n ≤ m → take n (take m xs) ≡ take n xs
  take-take zero m xs h = refl
  take-take (suc n) zero xs h = absurd (omega arith)
  take-take (suc n) (suc m) [] h = refl
  take-take (suc n) (suc m) (x ∷ xs) h = ap (◌∷◌ x) (take-take n m xs (omega arith))

  pub remove_at_of_length-le : (i : ℕ) (xs : List A) → length xs ≤ i → remove_at i xs ≡ xs
  remove_at_of_length-le i [] h = refl
  remove_at_of_length-le zero (x ∷ xs) h = absurd (omega arith)
  remove_at_of_length-le (suc i) (x ∷ xs) h = ap (◌∷◌ x) (remove_at_of_length-le i xs (omega arith))

  pub set_of_length-le : (i : ℕ) (xs : List A) (v : A) → length xs ≤ i → set xs i v ≡ xs
  set_of_length-le i [] v h = refl
  set_of_length-le zero (x ∷ xs) v h = absurd (omega arith)
  set_of_length-le (suc i) (x ∷ xs) v h = ap (◌∷◌ x) (set_of_length-le i xs v (omega arith))

  -- The loop step of a scan over an array.
  pub take-drop-suc :
      (k i : ℕ) (xs : List A) (d : A)
      → i < length xs
      → take (suc k) (drop i xs) ≡ get_or xs i d ∷ take k (drop (suc i) xs)
  take-drop-suc k i [] d h = absurd (omega arith)
  take-drop-suc k zero (x ∷ xs) d h = refl
  take-drop-suc k (suc i) (x ∷ xs) d h = take-drop-suc k i xs d (omega arith)

  pub get_or-insert_at :
      (r i : ℕ) (v : A) (xs : List A) (d : A)
      → r ≤ length xs
      → get_or (insert_at r v xs) i d
        ≡ (if ltb i r then get_or xs i d else if i == r then v else get_or xs (i - 1) d)
  get_or-insert_at zero zero v xs d h = refl
  get_or-insert_at zero (suc i) v xs d h = ground arith
  get_or-insert_at (suc r) i v [] d h = absurd (omega arith)
  get_or-insert_at (suc r) zero v (x ∷ xs) d h = ground arith
  get_or-insert_at (suc r) (suc zero) v (x ∷ xs) d h =
      ground (arith, get_or-insert_at r 0 v xs d (omega arith))
  get_or-insert_at (suc r) (suc (suc i)) v (x ∷ xs) d h =
      ground (arith, get_or-insert_at r (suc i) v xs d (omega arith))

  pub length-insert_at : (r : ℕ) (v : A) (xs : List A) → length (insert_at r v xs) ≡ length xs + 1
  length-insert_at zero v xs = omega arith
  length-insert_at (suc r) v [] = omega arith
  length-insert_at (suc r) v (x ∷ xs) = omega (arith, length-insert_at r v xs)

  pub insert_at-perm : (r : ℕ) (v : A) (xs : List A) → Perm (insert_at r v xs) (v ∷ xs)
  insert_at-perm zero v xs = Perm.refl (v ∷ xs)
  insert_at-perm (suc r) v [] = Perm.refl (v ∷ [])
  insert_at-perm (suc r) v (x ∷ xs) =
      Perm.trans (Perm.cons x (insert_at-perm r v xs)) (Perm.swap v x xs)

  pub take-append-length : (xs ys : List A) → take (length xs) (xs ++ ys) ≡ xs
  take-append-length [] ys = refl
  take-append-length (x ∷ xs) ys = ap (◌∷◌ x) (take-append-length xs ys)

  -- The list without the first element that passes a test.
  abbrev pub remove_first : (A → Bool) → List A → List A
  remove_first p [] = []
  remove_first p (x ∷ xs) = if p x then xs else x ∷ remove_first p xs

  pub remove_at-take :
      (k i : ℕ) (xs : List A)
      → i + k < length xs
      → remove_at i (take (i + suc k) xs) ≡ take i xs ++ take k (drop (suc i) xs)
  remove_at-take k i [] h = absurd (omega arith)
  remove_at-take k zero (x ∷ xs) h = let e : 0 + suc k ≡ suc k = omega arith in rw e
  remove_at-take k (suc i) (x ∷ xs) h =
      let e : suc i + suc k ≡ suc (i + suc k) = omega arith in
      rw e (ap (◌∷◌ x) (remove_at-take k i xs (omega arith)))

  pub take-suc :
      (i : ℕ) (xs : List A) (d : A)
      → i < length xs
      → take (suc i) xs ≡ take i xs ++ get_or xs i d ∷ []
  take-suc i [] d h = absurd (omega arith)
  take-suc zero (x ∷ xs) d h = refl
  take-suc (suc i) (x ∷ xs) d h = ap (◌∷◌ x) (take-suc i xs d (omega arith))

  pub length-drop : (n : ℕ) (xs : List A) → length (drop n xs) ≡ length xs - n
  length-drop zero xs = omega arith
  length-drop (suc n) [] = omega arith
  length-drop (suc n) (x ∷ xs) = omega (arith, length-drop n xs)

  pub take-drop-take :
      (i q n : ℕ) (xs : List A) → q + i ≤ n → take i (drop q (take n xs)) ≡ take i (drop q xs)
  take-drop-take i zero n xs h = take-take i n xs (omega arith)
  take-drop-take i (suc q) zero xs h = absurd (omega arith)
  take-drop-take i (suc q) (suc n) [] h = refl
  take-drop-take i (suc q) (suc n) (x ∷ xs) h = take-drop-take i q n xs (omega arith)

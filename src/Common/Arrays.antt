-- ===== src/Common/Arrays.antt =====
-- The two loops by which the program moves the elements of an array by one place.
use Prim.Native.Nat.{ℕ, zero, suc, ◌+◌, ◌<◌}
use mathlib.Core.Path.{◌≡◌, refl, ap, ◌∙◌}
use mathlib.Core.List.{List, [], ◌∷◌}
use native.Mathlib.Nat.{zero-add}
use native.Mathlib.Omega.{arith}
use anansi.Common.Lists.{length, get_or, set, take, remove_at, insert_at, length-set}

module _ {ℓ} {A : Type ℓ} (d : A) where
  -- `for (; i < n; ++i) a[i] = a[i + 1];` with `k` rounds left
  unfoldable pub shift_down : ℕ → ℕ → List A → List A
  shift_down zero i a = a
  shift_down (suc k) i a = shift_down k (suc i) (set a i (get_or a (suc i) d))

  -- `for (j = i + k; j > i; j--) a[j] = a[j - 1];`
  unfoldable pub shift_up : ℕ → ℕ → List A → List A
  shift_up zero i a = a
  shift_up (suc k) i a = shift_up k i (set a (i + suc k) (get_or a (i + k) d))

  shift_down_cons :
      (k i : ℕ) (x : A) (a : List A) → shift_down k (suc i) (x ∷ a) ≡ x ∷ shift_down k i a
  unfolding shift_down
  shift_down_cons zero i x a = refl
  shift_down_cons (suc k) i x a = shift_down_cons k (suc i) x _

  shift_down_head :
      (k : ℕ) (a : List A) → k < length a → take k (shift_down k 0 a) ≡ remove_at 0 (take (suc k) a)
  unfolding shift_down
  shift_down_head k [] h = absurd (omega arith)
  shift_down_head zero (x ∷ a) h = refl
  shift_down_head (suc k) (x ∷ []) h = absurd (omega arith)
  shift_down_head (suc k) (x ∷ y ∷ a) h =
      rw (shift_down_cons k 0 y (y ∷ a)) (ap (◌∷◌ y) (shift_down_head k (y ∷ a) (omega arith)))

  -- The loop removes the element at `i` from the first `i + k + 1` elements.
  pub take-shift_down :
      (k i n : ℕ) (a : List A)
      → n ≡ i + k
      → n < length a
      → take n (shift_down k i a) ≡ remove_at i (take (suc n) a)
  take-shift_down k zero n a e h =
      let e' : n ≡ k = omega arith in rw e' (shift_down_head k a (omega arith))
  take-shift_down k (suc i) n [] e h = absurd (omega arith)
  take-shift_down k (suc i) zero (x ∷ a) e h = absurd (omega arith)
  take-shift_down k (suc i) (suc n) (x ∷ a) e h =
      rw (shift_down_cons k i x a)
        (ap (◌∷◌ x) (take-shift_down k i n a (omega arith) (omega arith)))

  pub length-shift_down : (k i : ℕ) (a : List A) → length (shift_down k i a) ≡ length a
  unfolding shift_down
  length-shift_down zero i a = refl
  length-shift_down (suc k) i a = length-shift_down k (suc i) _ ∙ length-set a i _

  shift_up_cons : (k i : ℕ) (x : A) (a : List A) → shift_up k (suc i) (x ∷ a) ≡ x ∷ shift_up k i a
  unfolding shift_up
  shift_up_cons zero i x a = refl
  shift_up_cons (suc k) i x a =
      let e : suc i + suc k ≡ suc (i + suc k) = omega arith in
      let f : suc i + k ≡ suc (i + k) = omega arith in rw (e, f) (shift_up_cons k i x _)

  shift_up_step :
      (k : ℕ) (a : List A) → shift_up (suc k) 0 a ≡ shift_up k 0 (set a (suc k) (get_or a k d))
  unfolding shift_up
  shift_up_step k a = rw (zero-add (suc k), zero-add k) refl

  shift_up_zero : (a : List A) → shift_up 0 0 a ≡ a
  unfolding shift_up
  shift_up_zero a = refl

  shift_up_first :
      (k : ℕ) (x : A) (a : List A) → shift_up (suc k) 0 (x ∷ a) ≡ x ∷ set (shift_up k 0 a) 0 x
  shift_up_first zero x a = shift_up_step 0 (x ∷ a) ∙ shift_up_zero _ ∙ rw shift_up_zero
  shift_up_first (suc k) x a =
      shift_up_step (suc k) (x ∷ a) ∙ shift_up_first k x _ ∙ rw (shift_up_step k a)

  shift_up_head :
      (k : ℕ) (v : A) (a : List A)
      → k < length a
      → take (suc k) (set (shift_up k 0 a) 0 v) ≡ v ∷ take k a
  unfolding shift_up
  shift_up_head k v [] h = absurd (omega arith)
  shift_up_head zero v (x ∷ a) h = refl
  shift_up_head (suc k) v (x ∷ a) h =
      rw (shift_up_first k x a) (ap (◌∷◌ v) (shift_up_head k x a (omega arith)))

  -- The loop makes room at `i`: a write there inserts into the first `i + k` elements.
  pub take-set-shift_up :
      (k i n : ℕ) (v : A) (a : List A)
      → n ≡ i + k
      → n < length a
      → take (suc n) (set (shift_up k i a) i v) ≡ insert_at i v (take n a)
  take-set-shift_up k zero n v a e h =
      let e' : n ≡ k = omega arith in rw e' (shift_up_head k v a (omega arith))
  take-set-shift_up k (suc i) n v [] e h = absurd (omega arith)
  take-set-shift_up k (suc i) zero v (x ∷ a) e h = absurd (omega arith)
  take-set-shift_up k (suc i) (suc n) v (x ∷ a) e h =
      rw (shift_up_cons k i x a)
        (ap (◌∷◌ x) (take-set-shift_up k i n v a (omega arith) (omega arith)))

  pub length-shift_up : (k i : ℕ) (a : List A) → length (shift_up k i a) ≡ length a
  unfolding shift_up
  length-shift_up zero i a = refl
  length-shift_up (suc k) i a = length-shift_up k i _ ∙ length-set a (i + suc k) _

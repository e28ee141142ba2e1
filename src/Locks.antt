-- ===== src/Locks.antt =====
-- nsthread/rwlock.c, sema.c and cslock.c: locks built from a mutex and condition variables. What a
-- thread does while it holds the mutex is one step; a thread that waits on a condition may wake at
-- any time, as POSIX allows, and tests again. Threads are the places of a list of their states.
pub mod ReadWrite
pub mod Exclusion
pub mod Wakeup
pub mod Semaphore
pub mod Critical
use anansi.Common.{
  ℕ, zero, suc, ◌+◌, ◌<◌, ◌≡◌, refl, Bool, true, false, List, [], ◌∷◌, arith, if◌then◌else◌, length,
  get_or, set, replicate,
}

abbrev pub bit : Bool → ℕ
bit b = if b then 1 else 0

module _ {ℓ} {A : Type ℓ} where
  -- The number of threads whose state passes a test.
  unfoldable pub number : (A → Bool) → List A → ℕ
  number p [] = 0
  number p (x ∷ xs) = bit (p x) + number p xs

  pub number-set :
      (p : A → Bool) (d : A) (xs : List A) (i : ℕ) (v : A)
      → i < length xs
      → number p (set xs i v) + bit (p (get_or xs i d)) ≡ number p xs + bit (p v)
  unfolding number
  number-set p d [] i v h = absurd (omega arith)
  number-set p d (x ∷ xs) zero v h = omega arith
  number-set p d (x ∷ xs) (suc i) v h = omega (arith, number-set p d xs i v (omega arith))

  pub number-replicate : (p : A → Bool) (n : ℕ) (a : A) → p a ≡ false → number p (replicate n a) ≡ 0
  unfolding number
  number-replicate p zero a h = refl
  number-replicate p (suc n) a h = rw h (omega (arith, number-replicate p n a h))

  -- A thread that passes the test is counted, and two of them are counted twice.
  pub number_one :
      (p : A → Bool) (d : A) (xs : List A) (i : ℕ)
      → i < length xs
      → p (get_or xs i d) ≡ true
      → 0 < number p xs
  unfolding number
  number_one p d [] i l h = absurd (omega arith)
  number_one p d (x ∷ xs) zero l h = rw h (omega arith)
  number_one p d (x ∷ xs) (suc i) l h = omega (arith, number_one p d xs i (omega arith) h)

  pub number_two :
      (p : A → Bool) (d : A) (xs : List A) (i j : ℕ)
      → i < j
      → j < length xs
      → p (get_or xs i d) ≡ true
      → p (get_or xs j d) ≡ true
      → 1 < number p xs
  unfolding number
  number_two p d [] i j l m h k = absurd (omega arith)
  number_two p d (x ∷ xs) i zero l m h k = absurd (omega arith)
  number_two p d (x ∷ xs) zero (suc j) l m h k =
      rw h (omega (arith, number_one p d xs j (omega arith) k))
  number_two p d (x ∷ xs) (suc i) (suc j) l m h k =
      omega (arith, number_two p d xs i j (omega arith) (omega arith) h k)

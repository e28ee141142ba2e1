-- ===== src/Sched/Swap.antt =====
-- nsd/sched.c: `Exchange`, and the order of a heap as a property of the times in its slots.
use anansi.Common.{ℕ, ◌/◌, ◌≤◌, ◌<◌, ◌≡◌, ◌≢◌, arith, ◌==◌, if◌then◌else◌}
use anansi.Sched.{Event, Sched, set_qid, exchange, key}

nextqueue-set_qid : (ev : ℕ → Event) (e i a : ℕ) → (set_qid ev e i a).nextqueue ≡ (ev a).nextqueue
nextqueue-set_qid ev e i a = ground arith

-- A function with its values at `i` and `j` exchanged.
abbrev pub swapped : (ℕ → ℕ) → ℕ → ℕ → ℕ → ℕ
swapped f i j k = if k == j then f i else if k == i then f j else f k

pub key-exchange : (s : Sched) (i j k : ℕ) → key (exchange s i j) k ≡ swapped (key s) i j k
unfolding exchange
key-exchange s i j k = ground arith

-- No slot from 2 to `n` is earlier than its parent, slot `k` perhaps excepted; its children are not
-- earlier than its parent either.
pub record IsHeapUp (f : ℕ → ℕ) (n k : ℕ) : Type 0 where
  pub order : (i : ℕ) → 1 < i → i ≤ n → i ≢ k → f (i / 2) ≤ f i
  pub around : (i : ℕ) → 1 < k → i ≤ n → i / 2 ≡ k → f (k / 2) ≤ f i

-- No slot from 2 to `n` is earlier than its parent, unless that is slot `k`.
pub record IsHeapDown (f : ℕ → ℕ) (n k : ℕ) : Type 0 where
  pub order : (i : ℕ) → 1 < i → i ≤ n → i / 2 ≢ k → f (i / 2) ≤ f i
  pub around : (i : ℕ) → 1 < k → i ≤ n → i / 2 ≡ k → f (k / 2) ≤ f i

-- The order of a heap: no event is due before its parent.
abbrev pub IsHeap : (ℕ → ℕ) → ℕ → Type 0
IsHeap f n = (i : ℕ) → 1 < i → i ≤ n → f (i / 2) ≤ f i

pub swap_up :
    (f : ℕ → ℕ) (n k : ℕ)
    → 1 < k
    → k ≤ n
    → f k < f (k / 2)
    → IsHeapUp f n k
    → IsHeapUp (swapped f (k / 2) k) n (k / 2)
swap_up f n k h l lt u = record {
  order =
      λ i a b c. ground (arith, u.order i a b, u.order (i / 2), u.around i h b, u.order (k / 2));
  around = λ i a b c. ground (arith, u.order i, u.order (k / 2));
}

pub up_done : (f : ℕ → ℕ) (n k : ℕ) → IsHeapUp f n k → (1 < k → f (k / 2) ≤ f k) → IsHeap f n
up_done f n k u h i a b = ground (arith, u.order i a b)

pub swap_down :
    (f : ℕ → ℕ) (n k j : ℕ)
    → 0 < k
    → j ≤ n
    → j / 2 ≡ k
    → f j ≤ f k
    → ((i : ℕ) → i ≤ n → i / 2 ≡ k → f j ≤ f i)
    → IsHeapDown f n k
    → IsHeapDown (swapped f k j) n j
swap_down f n k j p l e le least d = record {
  order = λ i a b c. ground (arith, d.order i a b, d.around j, least i, d.around i);
  around = λ i a b c. ground (arith, d.order i);
}

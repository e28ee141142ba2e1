-- ===== src/Sched/Order.antt =====
-- nsd/sched.c: the two loops restore the order of the heap.
use mathlib.Core.Path.{fun_ext}
use anansi.Common.{
  ℕ, zero, suc, ◌+◌, ◌*◌, ◌/◌, ◌≤◌, ◌<◌, ◌≡◌, ◌≢◌, refl, sym, subst, ◌∙◌, true, false, ◌&&◌, arith,
  ltb, leb, ◌⊎◌, inl, inr, Bool-cases, leb→le,
}
use anansi.Sched.{Sched, exchange, key, up, child, down}
use anansi.Sched.Swap.{
  swapped, key-exchange, IsHeap, IsHeapUp, IsHeapDown, swap_up, up_done, swap_down,
}

swapped-key : (s : Sched) (i j : ℕ) → swapped (key s) i j ≡ key (exchange s i j)
swapped-key s i j = fun_ext (λ k. sym (key-exchange s i j k))

pub nqueue-exchange : (s : Sched) (i j : ℕ) → (exchange s i j).nqueue ≡ s.nqueue
unfolding exchange
nqueue-exchange s i j = refl

pub up_test-true :
    (s : Sched) (k : ℕ)
    → (ltb 1 k && ltb (key s k) (key s (k / 2))) ≡ true
    → (1 < k) × (key s k < key s (k / 2))
up_test-true s k h = ground arith

up_test-false :
    (s : Sched) (k : ℕ)
    → (ltb 1 k && ltb (key s k) (key s (k / 2))) ≡ false
    → 1 < k
    → key s (k / 2) ≤ key s k
up_test-false s k h l = ground arith

-- The upward loop makes a heap of one that is in order but for slot `k`.
pub up-IsHeap :
    (fuel : ℕ) (s : Sched) (k : ℕ)
    → k ≤ fuel
    → k ≤ s.nqueue
    → IsHeapUp (key s) s.nqueue k
    → IsHeap (key (up fuel s k)) (up fuel s k).nqueue × ((up fuel s k).nqueue ≡ s.nqueue)
unfolding up
up-IsHeap zero s k h l u = (up_done (key s) s.nqueue k u (λ p. absurd (omega arith)), refl)
up-IsHeap (suc fuel) s k h l u = elim (Bool-cases (ltb 1 k && ltb (key s k) (key s (k / 2)))) [
  | inr e ↦ rw e (up_done (key s) s.nqueue k u (up_test-false s k e), refl)
  | inl e ↦
      let (p, lt) = up_test-true s k e in
      let t = exchange s (k / 2) k in
      let n = nqueue-exchange s (k / 2) k in
      let w =
        subst (λ f. IsHeapUp f t.nqueue (k / 2)) (swapped-key s (k / 2) k)
          (rw n (swap_up (key s) s.nqueue k p l lt u)) in
      let (a, b) = up-IsHeap fuel t (k / 2) (omega arith) (omega arith) w in rw e (a, b ∙ n)
]

pub child_lem :
    (s : Sched) (k : ℕ)
    → 0 < k
    → 2 * k ≤ s.nqueue
    → (child s k ≤ s.nqueue)
      × (child s k / 2 ≡ k)
      × (k < child s k)
      × ((i : ℕ) → i ≤ s.nqueue → i / 2 ≡ k → key s (child s k) ≤ key s i)
unfolding child
child_lem s k p h = (ground arith, ground arith, ground arith, λ i l e. least i l e (omega arith))
  where
    least :
        (i : ℕ)
        → i ≤ s.nqueue
        → i / 2 ≡ k
        → (i ≡ 2 * k) ⊎ (i ≡ 2 * k + 1)
        → key s (child s k) ≤ key s i
    least i l e (inl z) = rw z (ground arith)
    least i l e (inr z) = rw z (ground arith)

no_child : (n k i : ℕ) → n < 2 * k → i ≤ n → i / 2 ≢ k
no_child n k i h l e = omega arith

-- The downward loop makes a heap of one that is in order but below slot `k`.
pub down-IsHeap :
    (fuel : ℕ) (s : Sched) (k : ℕ)
    → 0 < k
    → s.nqueue < k + fuel
    → IsHeapDown (key s) s.nqueue k
    → IsHeap (key (down fuel s k)) (down fuel s k).nqueue × ((down fuel s k).nqueue ≡ s.nqueue)
unfolding down
down-IsHeap zero s k p h d =
    ((λ i a b. d.order i a b (no_child s.nqueue k i (omega arith) b)), refl)
down-IsHeap (suc fuel) s k p h d = elim (Bool-cases (leb (2 * k) s.nqueue)) [
  | inr e ↦ rw e ((λ i a b. d.order i a b (no_child s.nqueue k i (ground arith) b)), refl)
  | inl e ↦
      let j = child s k in
      let (c1, c2, c3, c4) = child_lem s k p (leb→le (2 * k) s.nqueue e) in
      elim (Bool-cases (ltb (key s k) (key s j))) [
        | inl f ↦ rw (e, f) (stop (λ i l q. ground (arith, c4 i l q)), refl)
        | inr f ↦
            let t = exchange s k j in
            let n = nqueue-exchange s k j in
            let w =
              subst (λ g. IsHeapDown g t.nqueue j) (swapped-key s k j)
                (rw n (swap_down (key s) s.nqueue k j p c1 c2 (ground arith) c4 d)) in
            let (a, b) = down-IsHeap fuel t j (omega arith) (omega arith) w in rw (e, f) (a, b ∙ n)
      ]
]
  where
    stop : ((i : ℕ) → i ≤ s.nqueue → i / 2 ≡ k → key s k ≤ key s i) → IsHeap (key s) s.nqueue
    stop least i a b = ground (arith, d.order i a b, least i b)

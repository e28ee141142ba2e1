-- ===== src/Locks/Exclusion.antt =====
-- nsthread/rwlock.c: the counters of a read/write lock are right in every state that the threads
-- reach, and a writer is alone.
use anansi.Common.{
  ℕ, ◌+◌, ◌-◌, ◌<◌, ◌≡◌, ◌≢◌, ◌⊎◌, inl, inr, refl, sym, ap, subst, Bool, true, false, arith, length,
  set, replicate, ltb, Bool-cases,
}
use anansi.Common.Int.{ℤ, pos, negsuc, ◌+ℤ◌, ◌-ℤ◌}
use anansi.Locks.{number, number-set, number-replicate, number_one, number_two, bit}
use anansi.Locks.ReadWrite.{
  RwLock, Status, idle, waiting_rd, waiting_wr, reading, writing, init, rd_lock, rd_woken, wr_lock,
  wr_woken, unlock, System, status, after, Step, call_rd, wake_rd, call_wr, wake_wr, unlock_rd,
  unlock_wr, Reach, start, next,
}

abbrev pub is_waiting_rd : Status → Bool
is_waiting_rd waiting_rd = true
is_waiting_rd _ = false

abbrev pub is_waiting_wr : Status → Bool
is_waiting_wr waiting_wr = true
is_waiting_wr _ = false

abbrev pub is_reading : Status → Bool
is_reading reading = true
is_reading _ = false

abbrev pub is_writing : Status → Bool
is_writing writing = true
is_writing _ = false

-- The lock is held by `r` readers or by one of `w` writers.
abbrev pub IsHeld : ℤ → ℕ → ℕ → Type 0
IsHeld n r w = ((n ≡ pos r) × (w ≡ 0)) ⊎ ((n ≡ negsuc 0) × (r ≡ 0) × (w ≡ 1))

-- The counters of a lock with `a` and `b` threads that wait to read and to write, `r` readers and
-- `w` writers.
pub record IsCounted (l : RwLock) (a b r w : ℕ) : Type 0 where
  pub readers : l.nreaders ≡ a
  pub writers : l.nwriters ≡ b
  pub held : IsHeld l.lockcnt r w

abbrev pub IsConsistent : System → Type 0
IsConsistent s =
    IsCounted s.lock (number is_waiting_rd s.threads) (number is_waiting_wr s.threads)
      (number is_reading s.threads) (number is_writing s.threads)

rd_lock_lem :
    (l : RwLock) (a b r w : ℕ)
    → IsCounted l a b r w
    → (((rd_lock l).1 ≡ waiting_rd) × IsCounted (rd_lock l).0 (a + 1) b r w)
      ⊎ (((rd_lock l).1 ≡ reading) × IsCounted (rd_lock l).0 a b (r + 1) w)
unfolding rd_lock ◌+ℤ◌
rd_lock_lem l a b r w c = ground (arith, c.readers, c.writers, c.held)

wr_lock_lem :
    (l : RwLock) (a b r w : ℕ)
    → IsCounted l a b r w
    → (((wr_lock l).1 ≡ waiting_wr) × IsCounted (wr_lock l).0 a (b + 1) r w)
      ⊎ (((wr_lock l).1 ≡ writing) × IsCounted (wr_lock l).0 a b r (w + 1))
unfolding wr_lock
wr_lock_lem l a b r w c = ground (arith, c.readers, c.writers, c.held)

-- A reader that unlocks.
unlock_rd_lem :
    (l : RwLock) (a b r w : ℕ) → IsCounted l a b (r + 1) w → IsCounted (unlock l).0 a b r w
unfolding unlock ◌-ℤ◌
unlock_rd_lem l a b r w c = ground (arith, c.readers, c.writers, c.held)

unlock_wr_lem :
    (l : RwLock) (a b r w : ℕ) → IsCounted l a b r (w + 1) → IsCounted (unlock l).0 a b r w
unfolding unlock ◌-ℤ◌
unlock_wr_lem l a b r w c = ground (arith, c.readers, c.writers, c.held)

-- How the four numbers change where a thread that was in state `u` comes to `v`.
abbrev IsMoved : System → Status → Status → ℕ → ℕ → ℕ → ℕ → Type 0
IsMoved s u v a b r w =
    (a + bit (is_waiting_rd u) ≡ number is_waiting_rd s.threads + bit (is_waiting_rd v))
    × (b + bit (is_waiting_wr u) ≡ number is_waiting_wr s.threads + bit (is_waiting_wr v))
    × (r + bit (is_reading u) ≡ number is_reading s.threads + bit (is_reading v))
    × (w + bit (is_writing u) ≡ number is_writing s.threads + bit (is_writing v))

after-IsConsistent :
    (s : System) (t : ℕ) (l : RwLock × Status) (u v : Status) (a b r w : ℕ)
    → t < length s.threads
    → status s t ≡ u
    → l.1 ≡ v
    → IsCounted l.0 a b r w
    → IsMoved s u v a b r w
    → IsConsistent (after s t l)
after-IsConsistent s t l u v a b r w h e f c m =
    let (ea, eb, er, ew) =
      subst (λ x. IsMoved s x l.1 a b r w) (sym e) (subst (λ y. IsMoved s u y a b r w) (sym f) m) in
    let ga : a ≡ number is_waiting_rd (set s.threads t l.1) =
      omega (arith, number-set is_waiting_rd idle s.threads t l.1 h) in
    let gb : b ≡ number is_waiting_wr (set s.threads t l.1) =
      omega (arith, number-set is_waiting_wr idle s.threads t l.1 h) in
    let gr : r ≡ number is_reading (set s.threads t l.1) =
      omega (arith, number-set is_reading idle s.threads t l.1 h) in
    let gw : w ≡ number is_writing (set s.threads t l.1) =
      omega (arith, number-set is_writing idle s.threads t l.1 h) in
    rw (← ga, ← gb, ← gr, ← gw) c

module _ (s : System) (t : ℕ) (h : t < length s.threads) (c : IsConsistent s) where
  -- The number of threads in a state in which this thread is.
  one :
      (p : Status → Bool) (u : Status)
      → status s t ≡ u
      → p u ≡ true
      → (n : ℕ) × (number p s.threads ≡ n + 1)
  one p u e q =
      let l : 0 < number p s.threads = number_one p idle s.threads t h (rw e q) in
      (number p s.threads - 1, omega arith)

  call_rd-IsConsistent : status s t ≡ idle → IsConsistent (after s t (rd_lock s.lock))
  call_rd-IsConsistent e = elim (rd_lock_lem s.lock _ _ _ _ c) [
    | inl (v, d) ↦
        after-IsConsistent s t (rd_lock s.lock) idle waiting_rd _ _ _ _ h e v d (ground arith)
    | inr (v, d) ↦
        after-IsConsistent s t (rd_lock s.lock) idle reading _ _ _ _ h e v d (ground arith)
  ]

  call_wr-IsConsistent : status s t ≡ idle → IsConsistent (after s t (wr_lock s.lock))
  call_wr-IsConsistent e = elim (wr_lock_lem s.lock _ _ _ _ c) [
    | inl (v, d) ↦
        after-IsConsistent s t (wr_lock s.lock) idle waiting_wr _ _ _ _ h e v d (ground arith)
    | inr (v, d) ↦
        after-IsConsistent s t (wr_lock s.lock) idle writing _ _ _ _ h e v d (ground arith)
  ]

  wake_rd-IsConsistent : status s t ≡ waiting_rd → IsConsistent (after s t (rd_woken s.lock))
  unfolding rd_woken
  wake_rd-IsConsistent e =
      let (n, q) = one is_waiting_rd waiting_rd e refl in
      let l : RwLock = record s.lock { nreaders = s.lock.nreaders - 1 } in
      let d : IsCounted l n _ _ _ = record {
        readers = omega (arith, c.readers);
        writers = c.writers;
        held = c.held;
      } in
      elim (rd_lock_lem l _ _ _ _ d) [
        | inl (v, w) ↦
            after-IsConsistent s t (rd_lock l) waiting_rd waiting_rd _ _ _ _ h e v w (ground arith)
        | inr (v, w) ↦
            after-IsConsistent s t (rd_lock l) waiting_rd reading _ _ _ _ h e v w (ground arith)
      ]

  wake_wr-IsConsistent : status s t ≡ waiting_wr → IsConsistent (after s t (wr_woken s.lock))
  unfolding wr_woken
  wake_wr-IsConsistent e =
      let (n, q) = one is_waiting_wr waiting_wr e refl in
      let l : RwLock = record s.lock { nwriters = s.lock.nwriters - 1 } in
      let d : IsCounted l _ n _ _ = record {
        readers = c.readers;
        writers = omega (arith, c.writers);
        held = c.held;
      } in
      elim (wr_lock_lem l _ _ _ _ d) [
        | inl (v, w) ↦
            after-IsConsistent s t (wr_lock l) waiting_wr waiting_wr _ _ _ _ h e v w (ground arith)
        | inr (v, w) ↦
            after-IsConsistent s t (wr_lock l) waiting_wr writing _ _ _ _ h e v w (ground arith)
      ]

  unlock_rd-IsConsistent : status s t ≡ reading → IsConsistent (after s t ((unlock s.lock).0, idle))
  unlock_rd-IsConsistent e =
      let (n, q) = one is_reading reading e refl in
      after-IsConsistent s t ((unlock s.lock).0, idle) reading idle _ _ _ _ h e refl
        (unlock_rd_lem s.lock _ _ n _ (rw q at c)) (ground arith)

  unlock_wr-IsConsistent : status s t ≡ writing → IsConsistent (after s t ((unlock s.lock).0, idle))
  unlock_wr-IsConsistent e =
      let (n, q) = one is_writing writing e refl in
      after-IsConsistent s t ((unlock s.lock).0, idle) writing idle _ _ _ _ h e refl
        (unlock_wr_lem s.lock _ _ _ n (rw q at c)) (ground arith)

Step-IsConsistent : {s u : System} → Step s u → IsConsistent s → IsConsistent u
Step-IsConsistent {s} (call_rd t h e) c = call_rd-IsConsistent s t h c e
Step-IsConsistent {s} (wake_rd t h e) c = wake_rd-IsConsistent s t h c e
Step-IsConsistent {s} (call_wr t h e) c = call_wr-IsConsistent s t h c e
Step-IsConsistent {s} (wake_wr t h e) c = wake_wr-IsConsistent s t h c e
Step-IsConsistent {s} (unlock_rd t h e) c = unlock_rd-IsConsistent s t h c e
Step-IsConsistent {s} (unlock_wr t h e) c = unlock_wr-IsConsistent s t h c e

init-IsConsistent : (n : ℕ) → IsConsistent (record { lock = init; threads = replicate n idle })
unfolding init
init-IsConsistent n = record {
  readers = sym (number-replicate is_waiting_rd n idle refl);
  writers = sym (number-replicate is_waiting_wr n idle refl);
  held = inl (
    ap pos (sym (number-replicate is_reading n idle refl)),
    number-replicate is_writing n idle refl,
  );
}

-- In every state that the threads reach, the counters of the lock are the numbers of the threads
-- that wait to read, that wait to write, and that read; `lockcnt` is -1 exactly for one writer.
pub Reach-IsConsistent : {n : ℕ} {s : System} → Reach n s → IsConsistent s
Reach-IsConsistent {n} start = init-IsConsistent n
Reach-IsConsistent (next r st) = Step-IsConsistent st (Reach-IsConsistent r)

-- In every state that the threads reach, while one thread writes no thread reads and no other
-- thread writes.
pub writing_alone :
    {n : ℕ} (s : System) (i j : ℕ)
    → Reach n s
    → i < length s.threads
    → j < length s.threads
    → i ≢ j
    → status s i ≡ writing
    → (status s j ≢ reading) × (status s j ≢ writing)
writing_alone s i j reached hi hj ne e =
    let c = Reach-IsConsistent reached in
    let one_writer = number_one is_writing idle s.threads i hi (rw e refl) in
    (
      (λ f. ground (arith, number_one is_reading idle s.threads j hj (rw f refl), c.held)),
      (λ f.
          let two : 1 < number is_writing s.threads = elim (Bool-cases (ltb i j)) [
            | inl l ↦
                number_two is_writing idle s.threads i j (ground arith) hj (rw e refl) (rw f refl)
            | inr l ↦
                number_two is_writing idle s.threads j i (ground arith) hi (rw f refl) (rw e refl)
          ] in
          ground (arith, c.held)),
    )

-- ===== src/Locks/Semaphore.antt =====
-- nsthread/sema.c: counting semaphores, with counts that are not negative.
use anansi.Common.{ℕ, ◌+◌, ◌-◌, ◌≤◌, ◌≡◌, Bool, true, false, arith, ◌==◌, if◌then◌else◌}

pub record Sema : Type 0 where
  pub count : ℕ

-- The calls on the condition variable.
pub data Wake : Type 0 where
  one_thread : Wake
  all_threads : Wake

-- Ns_SemaInit
unfoldable pub sema_init : ℕ → Sema
sema_init count = record { count = count }

-- Ns_SemaWait: true once the thread has passed, false where it waits on the condition and tests
-- again.
unfoldable pub sema_wait : Sema → Sema × Bool
sema_wait s = if s.count == 0 then (s, false) else (record s { count = s.count - 1 }, true)

-- Ns_SemaPost
unfoldable pub sema_post : Sema → ℕ → Sema × Wake
sema_post s count =
    (record s { count = s.count + count }, if count == 1 then one_thread else all_threads)

-- The states that calls of `sema_wait`, first or after a wait, and of `sema_post` reach, with the
-- number of posts and of threads that passed.
pub data Run (initial : ℕ) : Sema → ℕ → ℕ → Type 0 where
  start : Run initial (sema_init initial) 0 0
  pass :
      {s : Sema} {posted passed : ℕ}
      → Run initial s posted passed
      → (sema_wait s).1 ≡ true
      → Run initial (sema_wait s).0 posted (passed + 1)
  wait :
      {s : Sema} {posted passed : ℕ}
      → Run initial s posted passed
      → (sema_wait s).1 ≡ false
      → Run initial (sema_wait s).0 posted passed
  post :
      {s : Sema} {posted passed : ℕ} (count : ℕ)
      → Run initial s posted passed
      → Run initial (sema_post s count).0 (posted + count) passed

Run-count :
    {initial posted passed : ℕ} {s : Sema}
    → Run initial s posted passed
    → s.count + passed ≡ initial + posted
unfolding sema_init sema_wait sema_post
Run-count start = omega arith
Run-count (pass r e) = ground (arith, Run-count r)
Run-count (wait r e) = ground (arith, Run-count r)
Run-count (post count r) = omega (arith, Run-count r)

-- After any calls the threads that passed are no more than the first count and the posts together,
-- and a thread passes exactly while they are fewer.
pub sema_wait-passes :
    {initial posted passed : ℕ} {s : Sema}
    → Run initial s posted passed
    → (passed ≤ initial + posted)
      × ((sema_wait s).1 ≡ (if passed == initial + posted then false else true))
unfolding sema_wait
sema_wait-passes r = ground (arith, Run-count r)

-- ===== src/Locks/Wakeup.antt =====
-- nsthread/rwlock.c: whom Ns_RWLockUnlock wakes, and that writers go before readers.
use anansi.Common.{ℕ, ◌<◌, ◌≡◌, refl, arith, ltb, if◌then◌else◌}
use anansi.Locks.{number}
use anansi.Locks.ReadWrite.{
  waiting_rd, nobody, signal_wcond, broadcast_rcond, rd_lock, unlock, System, Reach,
}
use anansi.Locks.Exclusion.{is_waiting_rd, is_waiting_wr, Reach-IsConsistent}

module _ {n : ℕ} (s : System) (reached : Reach n s) where
  -- In every state that the threads reach, a thread that unlocks signals the writers' condition if
  -- a thread waits to write, else wakes all readers if a thread waits to read, else nobody.
  pub unlock_wakes : (unlock s.lock).1 ≡ (
      if ltb 0 (number is_waiting_wr s.threads)
      then signal_wcond
      else if ltb 0 (number is_waiting_rd s.threads)
      then broadcast_rcond
      else nobody)
  unfolding unlock
  unlock_wakes = let c = Reach-IsConsistent reached in rw (c.readers, c.writers) refl

  -- In every state that the threads reach, while a thread waits to write, one that asks to read
  -- waits as well, and leaves the lock count as it is.
  pub rd_lock_waits :
      0 < number is_waiting_wr s.threads
      → ((rd_lock s.lock).1 ≡ waiting_rd) × ((rd_lock s.lock).0.lockcnt ≡ s.lock.lockcnt)
  unfolding rd_lock
  rd_lock_waits h = let c = Reach-IsConsistent reached in ground (arith, c.writers)

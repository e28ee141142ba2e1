-- ===== src/Locks/Critical.antt =====
-- nsthread/cslock.c: critical sections, which a thread may enter again while it is inside. Thread
-- ids are numbers, and `tid` is what it was before the first enter.
use anansi.Common.{
  ℕ, ◌+◌, ◌-◌, ◌<◌, ◌≡◌, ◌≢◌, Bool, true, false, not, ◌&&◌, arith, ltb, ◌==◌, if◌then◌else◌,
}

pub record CsLock : Type 0 where
  pub tid : ℕ
  pub count : ℕ

-- Ns_CsInit
unfoldable pub cs_init : ℕ → CsLock
cs_init tid = record { tid = tid; count = 0 }

-- Ns_CsEnter, from the mutex on or after a wait: true once the thread is inside, false where it
-- waits on the condition.
unfoldable pub cs_enter : CsLock → ℕ → CsLock × Bool
cs_enter l tid =
    if ltb 0 l.count && not (l.tid == tid)
    then (l, false)
    else (record l { tid = tid; count = l.count + 1 }, true)

-- Ns_CsLeave, and whether it signals the condition
unfoldable pub cs_leave : CsLock → CsLock × Bool
cs_leave l = (record l { count = l.count - 1 }, l.count - 1 == 0)

-- How deep each thread is inside, one of them changed.
abbrev pub depth_at : (ℕ → ℕ) → ℕ → ℕ → ℕ → ℕ
depth_at f tid n = λ j. if j == tid then n else f j

-- The states that threads reach of which each leaves no more often than it entered, with the depth
-- of each of them.
pub data Reach : CsLock → (ℕ → ℕ) → Type 0 where
  start : (tid : ℕ) → Reach (cs_init tid) (λ j. 0)
  enter :
      {l : CsLock} {f : ℕ → ℕ} (tid : ℕ)
      → Reach l f
      → (cs_enter l tid).1 ≡ true
      → Reach (cs_enter l tid).0 (depth_at f tid (f tid + 1))
  wait :
      {l : CsLock} {f : ℕ → ℕ} (tid : ℕ)
      → Reach l f
      → (cs_enter l tid).1 ≡ false
      → Reach (cs_enter l tid).0 f
  leave :
      {l : CsLock} {f : ℕ → ℕ} (tid : ℕ)
      → Reach l f
      → 0 < f tid
      → Reach (cs_leave l).0 (depth_at f tid (f tid - 1))

-- In every state that the threads reach, the thread of the lock is as deep inside as the count says
-- and no other thread is inside.
pub depth-count :
    {l : CsLock} {f : ℕ → ℕ} (j : ℕ) → Reach l f → f j ≡ (if j == l.tid then l.count else 0)
unfolding cs_init cs_enter cs_leave
depth-count j (start tid) = ground arith
depth-count j (enter {l} tid r e) = ground (arith, depth-count j r, depth-count tid r)
depth-count j (wait tid r e) = ground (arith, depth-count j r)
depth-count j (leave tid r h) = ground (arith, depth-count j r, depth-count tid r)

-- In every state that the threads reach, where a thread is inside no other thread is; the one
-- enters again without a wait, and any other waits.
pub cs_enter-alone :
    {l : CsLock} {f : ℕ → ℕ} (i j : ℕ)
    → Reach l f
    → i ≢ j
    → 0 < f i
    → (f j ≡ 0) × ((cs_enter l i).1 ≡ true) × ((cs_enter l j).1 ≡ false)
unfolding cs_enter
cs_enter-alone i j r ne h = ground (arith, depth-count i r, depth-count j r)

-- In every state that the threads reach, a thread that leaves signals the condition exactly when it
-- was inside once.
pub cs_leave-signal :
    {l : CsLock} {f : ℕ → ℕ} (tid : ℕ) → Reach l f → 0 < f tid → (cs_leave l).1 ≡ (f tid == 1)
unfolding cs_leave
cs_leave-signal tid r h = ground (arith, depth-count tid r)

-- ===== src/Locks/ReadWrite.antt =====
-- nsthread/rwlock.c: read/write locks.
use anansi.Common.{
  ℕ, ◌+◌, ◌-◌, ◌<◌, ◌≡◌, Bool, ◌||◌, List, ltb, if◌then◌else◌, length, get_or, set, replicate,
}
use anansi.Common.Int.{ℤ, pos, negsuc, ◌+ℤ◌, ◌-ℤ◌, ltb_ℤ}

-- `lockcnt` is the number of readers, or -1 for a writer.
pub record RwLock : Type 0 where
  pub nreaders : ℕ
  pub nwriters : ℕ
  pub lockcnt : ℤ

-- What a thread does with the lock.
pub data Status : Type 0 where
  idle : Status
  waiting_rd : Status
  waiting_wr : Status
  reading : Status
  writing : Status

-- The condition variable that Ns_RWLockUnlock signals.
pub data Signal : Type 0 where
  nobody : Signal
  signal_wcond : Signal
  broadcast_rcond : Signal

-- Ns_RWLockInit
unfoldable pub init : RwLock
init = record { nreaders = 0; nwriters = 0; lockcnt = pos 0 }

-- `lockcnt < 0 || nwriters > 0`
abbrev pub rd_blocked : RwLock → Bool
rd_blocked l = ltb_ℤ l.lockcnt (pos 0) || ltb 0 l.nwriters

-- `lockcnt != 0`
abbrev pub wr_blocked : RwLock → Bool
wr_blocked l = ltb_ℤ l.lockcnt (pos 0) || ltb_ℤ (pos 0) l.lockcnt

-- Ns_RWLockRdLock, up to the end or to Ns_CondWait
unfoldable pub rd_lock : RwLock → RwLock × Status
rd_lock l =
    if rd_blocked l
    then (record l { nreaders = l.nreaders + 1 }, waiting_rd)
    else (record l { lockcnt = l.lockcnt +ℤ pos 1 }, reading)

-- Ns_RWLockRdLock, from the return of Ns_CondWait
unfoldable pub rd_woken : RwLock → RwLock × Status
rd_woken l = rd_lock (record l { nreaders = l.nreaders - 1 })

-- Ns_RWLockWrLock, up to the end or to Ns_CondWait
unfoldable pub wr_lock : RwLock → RwLock × Status
wr_lock l =
    if wr_blocked l
    then (record l { nwriters = l.nwriters + 1 }, waiting_wr)
    else (record l { lockcnt = negsuc 0 }, writing)

-- Ns_RWLockWrLock, from the return of Ns_CondWait
unfoldable pub wr_woken : RwLock → RwLock × Status
wr_woken l = wr_lock (record l { nwriters = l.nwriters - 1 })

-- Ns_RWLockUnlock
unfoldable pub unlock : RwLock → RwLock × Signal
unlock l =
    let n = l.lockcnt -ℤ pos 1 in
    let m = record l { lockcnt = if ltb_ℤ n (pos 0) then pos 0 else n } in
    (
      m,
      if ltb 0 l.nwriters
          then signal_wcond
          else if ltb 0 l.nreaders
          then broadcast_rcond
          else nobody,
    )

-- A lock and the threads that use it.
pub record System : Type 0 where
  pub lock : RwLock
  pub threads : List Status

abbrev pub status : System → ℕ → Status
status s t = get_or s.threads t idle

-- Thread `t` leaves the lock as it is in `r`, and is in the state that `r` says.
abbrev pub after : System → ℕ → RwLock × Status → System
after s t r = record { lock = r.0; threads = set s.threads t r.1 }

-- The moves of the threads. Only a thread that holds the lock unlocks it.
pub data Step (s : System) : System → Type 0 where
  call_rd : (t : ℕ) → t < length s.threads → status s t ≡ idle → Step s (after s t (rd_lock s.lock))
  wake_rd :
      (t : ℕ)
      → t < length s.threads
      → status s t ≡ waiting_rd
      → Step s (after s t (rd_woken s.lock))
  call_wr : (t : ℕ) → t < length s.threads → status s t ≡ idle → Step s (after s t (wr_lock s.lock))
  wake_wr :
      (t : ℕ)
      → t < length s.threads
      → status s t ≡ waiting_wr
      → Step s (after s t (wr_woken s.lock))
  unlock_rd :
      (t : ℕ)
      → t < length s.threads
      → status s t ≡ reading
      → Step s (after s t ((unlock s.lock).0, idle))
  unlock_wr :
      (t : ℕ)
      → t < length s.threads
      → status s t ≡ writing
      → Step s (after s t ((unlock s.lock).0, idle))

-- The states that `n` threads reach.
pub data Reach (n : ℕ) : System → Type 0 where
  start : Reach n (record { lock = init; threads = replicate n idle })
  next : {s t : System} → Reach n s → Step s t → Reach n t

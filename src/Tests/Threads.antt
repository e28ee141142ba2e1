-- ===== src/Tests/Threads.antt =====
-- nsthread/rwlock.c, sema.c, cslock.c and time.c at small inputs.
use anansi.Common.{◌+◌, ◌%◌, ◌<◌, ◌≡◌, ◌≢◌, ◌⊎◌, ◌↔◌, refl, arith, ltb, if◌then◌else◌, replicate}
use anansi.Common.Int.{pos, negsuc, neg_part, ◌+ℤ◌, ◌-ℤ◌}
use anansi.Locks.{number}
use anansi.Locks.ReadWrite.{
  init, wr_lock, unlock, System, idle, reading, writing, nobody, signal_wcond, broadcast_rcond,
  status, after, Reach, start, next, call_wr,
}
use anansi.Locks.Exclusion.{
  IsConsistent, is_waiting_wr, is_waiting_rd, Reach-IsConsistent, writing_alone,
}
use anansi.Locks.Wakeup.{unlock_wakes}
use anansi.Locks.Critical
use anansi.Locks.Critical.{
  cs_init, cs_enter, cs_leave, depth_at, depth-count, cs_enter-alone, cs_leave-signal,
}
use anansi.Time.{Time, adj_time, incr_time, diff_time, SameMicros, IsNormal, micros_pos, micros_neg}
use anansi.Time.Adjust.{adj_time-usec}
use anansi.Time.Differ.{diff_time-compare}

-- Three threads; the first writes, then the second waits to write.
abbrev at_rest : System
at_rest = record { lock = init; threads = replicate 3 idle }

abbrev one_writes : System
one_writes = after at_rest 0 (wr_lock init)

one_writes-Reach : Reach 3 one_writes
unfolding wr_lock init
one_writes-Reach = next start (call_wr 0 (omega arith) refl)

abbrev one_waits : System
one_waits = after one_writes 1 (wr_lock one_writes.lock)

one_waits-Reach : Reach 3 one_waits
unfolding wr_lock init
one_waits-Reach = next one_writes-Reach (call_wr 1 (omega arith) refl)

Reach-IsConsistent_example : IsConsistent one_waits
Reach-IsConsistent_example = Reach-IsConsistent one_waits-Reach

writing_alone_example : (status one_waits 1 ≢ reading) × (status one_waits 1 ≢ writing)
unfolding wr_lock init
writing_alone_example =
    writing_alone one_waits 0 1 one_waits-Reach (omega arith) (omega arith)
      (λ e. absurd (omega arith)) refl

unlock_wakes_example : (unlock one_waits.lock).1 ≡ (
    if ltb 0 (number is_waiting_wr one_waits.threads)
    then signal_wcond
    else if ltb 0 (number is_waiting_rd one_waits.threads)
    then broadcast_rcond
    else nobody)
unlock_wakes_example = unlock_wakes one_waits one_waits-Reach

-- Thread 4 enters twice.
entered-Reach :
    Critical.Reach (cs_enter (cs_enter (cs_init 9) 4).0 4).0 (depth_at (depth_at (λ j. 0) 4 1) 4 2)
unfolding cs_enter cs_init
entered-Reach = Critical.enter 4 (Critical.enter 4 (Critical.start 9) refl) refl

-- One and a half seconds too many, and too few.
abbrev early : Time
early = record { sec = pos 7; usec = negsuc 1499999 }

abbrev late : Time
late = record { sec = pos 7; usec = pos 250000 }

adj_time-early : adj_time early ≡ record { sec = pos 5; usec = pos 500000 }
unfolding adj_time anansi.Time.quot anansi.Time.rem ◌+ℤ◌ ◌-ℤ◌
adj_time-early = refl

adj_time-usec_example : ((adj_time early).usec ≡ pos 1000000) ↔ (
    (early.usec ≡ pos 1000000) ⊎ ((0 < neg_part early.usec) × (neg_part early.usec % 1000000 ≡ 0)))
adj_time-usec_example = adj_time-usec early

diff_time-compare_example :
    IsNormal (diff_time late (record { sec = pos 6; usec = pos 999999 })).0
    × (micros_pos (diff_time late (record { sec = pos 6; usec = pos 999999 })).0 + (6999999 + 0)
        ≡ micros_neg (diff_time late (record { sec = pos 6; usec = pos 999999 })).0 + (7250000 + 0))
    × ((diff_time late (record { sec = pos 6; usec = pos 999999 })).1 ≡ pos 1)
diff_time-compare_example =
    diff_time-compare late (record { sec = pos 6; usec = pos 999999 }) (omega arith, omega arith)
      (omega arith, omega arith)

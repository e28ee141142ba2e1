-- ===== src/Sched/Calls.antt =====
-- nsd/sched.c: `Ns_After`, `Ns_ScheduleProc`, `Ns_ScheduleDaily`, `Ns_ScheduleWeekly`,
-- `Ns_UnscheduleProc` and `NsStartSchedShutdown`. The intervals, days, hours and minutes are ints
-- that may be negative; `none` for an id is NS_ERROR.
use anansi.Common.{
  ℕ, ◌+◌, ◌*◌, ◌/◌, ◌%◌, ◌≤◌, ◌<◌, ◌≡◌, ◌⊎◌, inl, inr, refl, Bool, true, false, ◌||◌, Option, none,
  arith, Bool-cases, if◌then◌else◌,
}
use anansi.Common.Int.{ℤ, pos, negsuc, pos_part, ltb_ℤ}
use anansi.Sched.{Flags, Sched, Calendar, schedule_proc_ex, cancel}

-- NS_SCHED_ONCE, and NS_SCHED_THREAD if asked for.
abbrev pub flags_of : Bool → Bool → Flags
flags_of once thread = record {
  once = once;
  thread = thread;
  daily = false;
  weekly = false;
  paused = false;
  running = false;
}

in_range :
    (a : ℤ) (n : ℕ)
    → ltb_ℤ a (pos 0) ≡ false
    → ltb_ℤ (pos n) a ≡ false
    → (a ≡ pos (pos_part a)) × (pos_part a ≤ n)
in_range (pos k) n h l = ground arith
in_range (negsuc k) n h l = ground arith

ltb_ℤ-pos : (n : ℕ) → ltb_ℤ (pos n) (pos 0) ≡ false
ltb_ℤ-pos n = ground arith

module _ (c : Calendar) (fuel : ℕ) (s : Sched) (now : ℕ) where
  -- Ns_ScheduleProcEx, with its test of the interval
  unfoldable pub schedule : Flags → ℤ → Sched × Option ℕ
  schedule flags interval =
      if ltb_ℤ interval (pos 0)
      then (s, none)
      else schedule_proc_ex c fuel s flags (pos_part interval) now

  -- Ns_After
  unfoldable pub after : ℤ → Sched × Option ℕ
  after delay = if ltb_ℤ delay (pos 0) then (s, none) else schedule (flags_of true false) delay

  -- Ns_ScheduleProc
  unfoldable pub schedule_proc : Bool → ℤ → Sched × Option ℕ
  schedule_proc thread interval =
      if ltb_ℤ interval (pos 0) then (s, none) else schedule (flags_of false thread) interval

  -- The test of the hour and the minute.
  abbrev pub bad_time : ℤ → ℤ → Bool
  bad_time hour minute =
      (ltb_ℤ (pos 23) hour || ltb_ℤ hour (pos 0)) || (ltb_ℤ (pos 59) minute || ltb_ℤ minute (pos 0))

  -- Ns_ScheduleDaily
  unfoldable pub schedule_daily : Flags → ℤ → ℤ → Sched × Option ℕ
  schedule_daily flags hour minute =
      if bad_time hour minute
      then (s, none)
      else schedule (record flags { daily = true })
          (pos (pos_part hour * 3600 + pos_part minute * 60))

  -- Ns_ScheduleWeekly
  unfoldable pub schedule_weekly : Flags → ℤ → ℤ → ℤ → Sched × Option ℕ
  schedule_weekly flags day hour minute =
      if (ltb_ℤ day (pos 0) || ltb_ℤ (pos 6) day) || bad_time hour minute
      then (s, none)
      else schedule (record flags { weekly = true })
          (pos ((pos_part day * 24 + pos_part hour) * 3600 + pos_part minute * 60))

  -- `schedule_weekly` changes nothing and returns an error for a day, an hour or a minute out of
  -- range; else it schedules with an interval within a week from which the three can be read.
  pub schedule_weekly-cases :
      (flags : Flags) (day hour minute : ℤ)
      → (schedule_weekly flags day hour minute ≡ (s, none))
        ⊎ ((d : ℕ) × (h : ℕ) × (m : ℕ) × (n : ℕ) × (day ≡ pos d)
            × (hour ≡ pos h)
            × (minute ≡ pos m)
            × (n < 7 * 86400)
            × (d ≡ n / 86400)
            × (h ≡ n / 3600 % 24)
            × (m ≡ n / 60 % 60)
            × (schedule_weekly flags day hour minute
                ≡ schedule_proc_ex c fuel s (record flags { weekly = true }) n now))
  unfolding schedule_weekly schedule
  schedule_weekly-cases flags day hour minute =
      elim (Bool-cases ((ltb_ℤ day (pos 0) || ltb_ℤ (pos 6) day) || bad_time hour minute)) [
        | inl e ↦ inl (rw e refl)
        | inr e ↦
            let (ed, bd) = in_range day 6 (ground arith) (ground arith) in
            let (eh, bh) = in_range hour 23 (ground arith) (ground arith) in
            let (em, bm) = in_range minute 59 (ground arith) (ground arith) in
            let d = pos_part day in
            let h = pos_part hour in
            let m = pos_part minute in
            let n = (d * 24 + h) * 3600 + m * 60 in
            inr (
              d,
              h,
              m,
              n,
              ed,
              eh,
              em,
              omega arith,
              omega arith,
              omega arith,
              omega arith,
              rw (e, ltb_ℤ-pos n) refl,
            )
      ]

-- Ns_UnscheduleProc
unfoldable pub unschedule_proc : Sched → ℕ → Sched
unschedule_proc s id = (cancel s id).0

-- NsStartSchedShutdown; `running` says whether SchedThread was created.
unfoldable pub start_shutdown : Bool → Sched → Sched
start_shutdown running s = if running then record s { shutdown_pending = true } else s

-- ===== src/Time.antt =====
-- nsthread/time.c: times as seconds and microseconds. A `long` is an integer, no sum here being near
-- its bounds; division and remainder are those of C, which round to 0.
pub mod Adjust
pub mod Differ
use anansi.Common.{
  ℕ, suc, ◌+◌, ◌-◌, ◌*◌, ◌/◌, ◌%◌, ◌≤◌, ◌<◌, ◌≡◌, Bool, true, false, ◌&&◌, Option, none, some, ltb,
  ◌==◌, if◌then◌else◌,
}
use anansi.Common.Int.{ℤ, pos, negsuc, pos_part, neg_part, sub_ℕ, ◌+ℤ◌, ◌-ℤ◌, ◌≤ℤ◌, ltb_ℤ}

-- Ns_Time
pub record Time : Type 0 where
  pub sec : ℤ
  pub usec : ℤ

-- `/` and `%` by a million
unfoldable pub quot : ℤ → ℤ
quot (pos n) = pos (n / 1000000)
quot (negsuc n) = sub_ℕ 0 (suc n / 1000000)

unfoldable pub rem : ℤ → ℤ
rem (pos n) = pos (n % 1000000)
rem (negsuc n) = sub_ℕ 0 (suc n % 1000000)

-- Ns_AdjTime
unfoldable pub adj_time : Time → Time
adj_time t =
    if ltb_ℤ t.usec (pos 0)
    then record { sec = t.sec +ℤ (quot t.usec -ℤ pos 1); usec = rem t.usec +ℤ pos 1000000 }
    else if ltb_ℤ (pos 1000000) t.usec
    then record { sec = t.sec +ℤ quot t.usec; usec = rem t.usec }
    else t

-- The times of Ns_DiffTime, before it adjusts the difference.
unfoldable pub subtract : Time → Time → Time
subtract t1 t0 =
    if ltb_ℤ t1.usec t0.usec
    then record { sec = t1.sec -ℤ t0.sec -ℤ pos 1; usec = pos 1000000 +ℤ t1.usec -ℤ t0.usec }
    else record { sec = t1.sec -ℤ t0.sec; usec = t1.usec -ℤ t0.usec }

-- Ns_DiffTime: the difference, and -1, 0 or 1.
unfoldable pub diff_time : Time → Time → Time × ℤ
diff_time t1 t0 =
    let d = adj_time (subtract t1 t0) in
    (
      d,
      if ltb_ℤ d.sec (pos 0)
          then negsuc 0
          else if (pos_part d.sec == 0) && ((pos_part d.usec == 0) && (neg_part d.usec == 0))
          then pos 0
          else pos 1,
    )

-- Ns_IncrTime
unfoldable pub incr_time : Time → ℤ → ℤ → Time
incr_time t sec usec = adj_time (record { usec = t.usec +ℤ usec; sec = t.sec +ℤ sec })

-- Ns_AbsoluteTime at the time `now`; NULL is `none`.
unfoldable pub absolute_time : Time → Option Time → Option Time
absolute_time now none = none
absolute_time now (some adj) =
    if ltb_ℤ adj.sec (pos 1000000000) then some (incr_time now adj.sec adj.usec) else some adj

-- A time in microseconds, as a difference of two numbers.
abbrev pub micros_pos : Time → ℕ
micros_pos t = pos_part t.sec * 1000000 + pos_part t.usec

abbrev pub micros_neg : Time → ℕ
micros_neg t = neg_part t.sec * 1000000 + neg_part t.usec

-- Two times are the same number of microseconds.
abbrev pub SameMicros : Time → Time → Type 0
SameMicros t u = micros_pos t + micros_neg u ≡ micros_pos u + micros_neg t

abbrev pub IsNormal : Time → Type 0
IsNormal t = (pos 0 ≤ℤ t.usec) × (suc (pos_part t.usec) ≤ 1000000)

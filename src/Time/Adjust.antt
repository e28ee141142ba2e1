-- ===== src/Time/Adjust.antt =====
-- nsthread/time.c: `Ns_AdjTime` and `Ns_IncrTime`.
use anansi.Common.{◌+◌, ◌*◌, ◌%◌, ◌<◌, ◌≡◌, ◌↔◌, ◌⊎◌, inl, inr, arith, Bool-cases, true, false}
use anansi.Common.Int.{ℤ, pos, negsuc, pos_part, neg_part, ◌+ℤ◌, ◌-ℤ◌, ◌≤ℤ◌, ltb_ℤ}
use anansi.Time.{Time, quot, rem, adj_time, incr_time, micros_pos, micros_neg, SameMicros}

pub +ℤ_parts :
    (a b : ℤ)
    → pos_part (a +ℤ b) + neg_part a + neg_part b ≡ neg_part (a +ℤ b) + pos_part a + pos_part b
unfolding ◌+ℤ◌
+ℤ_parts a b = ground arith

pub -ℤ_parts :
    (a b : ℤ)
    → pos_part (a -ℤ b) + neg_part a + pos_part b ≡ neg_part (a -ℤ b) + pos_part a + neg_part b
unfolding ◌-ℤ◌
-ℤ_parts a b = ground arith

ltb_ℤ-zero : (a : ℤ) → ltb_ℤ a (pos 0) ≡ true → (pos_part a ≡ 0) × (0 < neg_part a)
ltb_ℤ-zero a h = ground arith

ltb_ℤ_zero_false : (a : ℤ) → ltb_ℤ a (pos 0) ≡ false → neg_part a ≡ 0
ltb_ℤ_zero_false a h = ground arith

quot_parts :
    (a : ℤ)
    → (pos_part (quot a) * 1000000 + pos_part (rem a) ≡ pos_part a)
      × (neg_part (quot a) * 1000000 + neg_part (rem a) ≡ neg_part a)
      × (pos_part (rem a) < 1000000)
      × (neg_part (rem a) < 1000000)
unfolding quot rem
quot_parts (pos n) = ground arith
quot_parts (negsuc n) = ground arith

-- `adj_time` does not change the time in microseconds, and its microseconds are from 0 to a million.
pub adj_time-SameMicros :
    (t : Time)
    → SameMicros (adj_time t) t × (pos 0 ≤ℤ (adj_time t).usec) × ((adj_time t).usec ≤ℤ pos 1000000)
unfolding adj_time
adj_time-SameMicros t =
    let (a, b, c, d) = quot_parts t.usec in
    elim (Bool-cases (ltb_ℤ t.usec (pos 0))) [
      | inl h ↦
          let (z, _) = ltb_ℤ-zero t.usec h in
          let e1 = +ℤ_parts t.sec (quot t.usec -ℤ pos 1) in
          let e2 = -ℤ_parts (quot t.usec) (pos 1) in
          let e3 = +ℤ_parts (rem t.usec) (pos 1000000) in
          rw h (omega arith, omega arith, omega arith)
      | inr h ↦
          let z = ltb_ℤ_zero_false t.usec h in
          elim (Bool-cases (ltb_ℤ (pos 1000000) t.usec)) [
            | inl k ↦
                let e1 = +ℤ_parts t.sec (quot t.usec) in
                rw (h, k) (omega arith, omega arith, omega arith)
            | inr k ↦ rw (h, k) (omega arith, omega arith, ground arith)
          ]
    ]

adj_time-usec-at :
    (s u : ℤ)
    → ((adj_time (record { sec = s; usec = u })).usec ≡ pos 1000000)
      ↔ ((u ≡ pos 1000000) ⊎ ((0 < neg_part u) × (neg_part u % 1000000 ≡ 0)))
unfolding adj_time rem ◌+ℤ◌
adj_time-usec-at s (pos n) = ground arith
adj_time-usec-at s (negsuc n) = ground arith

-- `adj_time` leaves a whole million of microseconds, out of the range of a normal time, exactly
-- where it gets a million of them, or less than none by a multiple of a million.
pub adj_time-usec :
    (t : Time)
    → ((adj_time t).usec ≡ pos 1000000)
      ↔ ((t.usec ≡ pos 1000000) ⊎ ((0 < neg_part t.usec) × (neg_part t.usec % 1000000 ≡ 0)))
adj_time-usec t = adj_time-usec-at t.sec t.usec

-- `incr_time` adds the seconds and the microseconds, and its microseconds are from 0 to a million.
pub incr_time-micros :
    (t : Time) (sec usec : ℤ)
    → (micros_pos (incr_time t sec usec) + (micros_neg t + (neg_part sec * 1000000 + neg_part usec))
        ≡ micros_neg (incr_time t sec usec)
          + (micros_pos t + (pos_part sec * 1000000 + pos_part usec)))
      × (pos 0 ≤ℤ (incr_time t sec usec).usec)
      × ((incr_time t sec usec).usec ≤ℤ pos 1000000)
unfolding incr_time
incr_time-micros t sec usec =
    let u : Time = record { usec = t.usec +ℤ usec; sec = t.sec +ℤ sec } in
    let (e, l, r) = adj_time-SameMicros u in
    (omega (arith, +ℤ_parts t.usec usec, +ℤ_parts t.sec sec), l, r)

-- ===== src/Time/Differ.antt =====
-- nsthread/time.c: `Ns_DiffTime`.
use anansi.Common.{
  ℕ, ◌+◌, ◌-◌, ◌*◌, ◌&&◌, ◌≤◌, ◌<◌, ◌≡◌, inl, inr, arith, ltb, ◌==◌, if◌then◌else◌, Bool-cases,
}
use anansi.Common.Int.{ℤ, pos, negsuc, pos_part, neg_part, ◌+ℤ◌, ◌-ℤ◌, ltb_ℤ}
use anansi.Time.{Time, adj_time, subtract, diff_time, micros_pos, micros_neg, IsNormal}
use anansi.Time.Adjust.{+ℤ_parts, -ℤ_parts}

subtract_lem :
    (t1 t0 : Time)
    → micros_pos (subtract t1 t0) + (micros_pos t0 + micros_neg t1)
      ≡ micros_neg (subtract t1 t0) + (micros_pos t1 + micros_neg t0)
unfolding subtract
subtract_lem t1 t0 = elim (Bool-cases (ltb_ℤ t1.usec t0.usec)) [
  | inl h ↦
      let e1 = -ℤ_parts (t1.sec -ℤ t0.sec) (pos 1) in
      let e2 = -ℤ_parts t1.sec t0.sec in
      let e3 = +ℤ_parts (pos 1000000) t1.usec in
      let e4 = -ℤ_parts (pos 1000000 +ℤ t1.usec) t0.usec in rw h (omega arith)
  | inr h ↦
      let e1 = -ℤ_parts t1.sec t0.sec in let e2 = -ℤ_parts t1.usec t0.usec in rw h (omega arith)
]

-- An integer that is a number below a million.
below_million :
    (u : ℤ) (n : ℕ)
    → pos_part u ≡ n + neg_part u
    → n < 1000000
    → (neg_part u ≡ 0) × (pos_part u < 1000000)
below_million u n e h = ground arith

usec_in_range : (t : Time) → IsNormal t → (neg_part t.usec ≡ 0) × (pos_part t.usec < 1000000)
usec_in_range t n = ground arith

-- The difference of two normal times needs no adjustment.
subtract-IsNormal : (t1 t0 : Time) → IsNormal t1 → IsNormal t0 → IsNormal (subtract t1 t0)
unfolding subtract
subtract-IsNormal t1 t0 n m =
    let (a, b) = usec_in_range t1 n in
    let (c, d) = usec_in_range t0 m in
    elim (Bool-cases (ltb_ℤ t1.usec t0.usec)) [
      | inl h ↦
          let l : pos_part t1.usec < pos_part t0.usec = ground arith in
          let (e, f) =
            below_million (pos 1000000 +ℤ t1.usec -ℤ t0.usec)
              (1000000 + pos_part t1.usec - pos_part t0.usec)
              (omega
                (arith, -ℤ_parts (pos 1000000 +ℤ t1.usec) t0.usec, +ℤ_parts (pos 1000000) t1.usec))
              (omega arith) in
          rw h (omega arith, omega arith)
      | inr h ↦
          let l : pos_part t0.usec ≤ pos_part t1.usec = ground arith in
          let (e, f) =
            below_million (t1.usec -ℤ t0.usec) (pos_part t1.usec - pos_part t0.usec)
              (omega (arith, -ℤ_parts t1.usec t0.usec)) (omega arith) in
          rw h (omega arith, omega arith)
    ]

adj_time-normal : (t : Time) → IsNormal t → adj_time t ≡ t
unfolding adj_time
adj_time-normal t n = ground arith

-- The sign of a normal time.
sign_lem :
    (d : Time) (a b : ℕ)
    → IsNormal d
    → micros_pos d + b ≡ micros_neg d + a
    → (if ltb_ℤ d.sec (pos 0)
        then negsuc 0
        else if (pos_part d.sec == 0) && ((pos_part d.usec == 0) && (neg_part d.usec == 0))
        then pos 0
        else pos 1)
      ≡ (if ltb a b then negsuc 0 else if a == b then pos 0 else pos 1)
sign_lem d a b n e =
    let (z, l) = usec_in_range d n in
    elim (Bool-cases (ltb_ℤ d.sec (pos 0))) [
      | inl h ↦ let k : a < b = ground arith in rw h (ground arith)
      | inr h ↦
          let k : neg_part d.sec ≡ 0 = ground arith in
          let k2 : pos_part d.sec * 1000000 + pos_part d.usec + b ≡ a = omega arith in
          rw h (ground arith)
    ]

-- For two normal times `diff_time` is the difference in microseconds, a normal time, and its result
-- is -1, 0 or 1 as the first time is before, at or after the second.
pub diff_time-compare :
    (t1 t0 : Time)
    → IsNormal t1
    → IsNormal t0
    → IsNormal (diff_time t1 t0).0
      × (micros_pos (diff_time t1 t0).0 + (micros_pos t0 + micros_neg t1)
          ≡ micros_neg (diff_time t1 t0).0 + (micros_pos t1 + micros_neg t0))
      × ((diff_time t1 t0).1 ≡ (
          let a = micros_pos t1 + micros_neg t0 in
          let b = micros_pos t0 + micros_neg t1 in
          if ltb a b then negsuc 0 else if a == b then pos 0 else pos 1))
unfolding diff_time
diff_time-compare t1 t0 n m =
    let d = subtract t1 t0 in
    let w = subtract-IsNormal t1 t0 n m in
    let e = subtract_lem t1 t0 in rw (adj_time-normal d w) (w, e, sign_lem d _ _ w e)

-- ===== src/Range/Offsets.antt =====
-- nsd/range.c: the ranges that ParseRangeOffsets gives lie inside the entity.
use mathlib.Core.List.{reverse, reverse-cons}
use anansi.Common.{
  ℕ, zero, suc, ◌+◌, ◌≤◌, ◌<◌, ◌≡◌, inl, inr, refl, sym, ap, subst, ◌∙◌, true, false, Option, none,
  some, List, [], ◌∷◌, ◌++◌, arith, ltb, leb, if◌then◌else◌, Bytes, length, length-append,
  Bool-cases, Option-cases,
}
use anansi.Range.{
  Range, atoll, skip_digits, parse_last, parse_suffix, parse_range, parse_end, add_range,
  parse_loop, after_bytes, parse_range_offsets,
}

-- The range lies inside an entity of `len` bytes.
abbrev pub IsWithin : ℕ → Range → Type 0
IsWithin len r = (r.start ≤ r.end) × (r.end < len)

abbrev pub AllWithin : ℕ → List Range → Type 0
AllWithin len [] = Unit
AllWithin len (r ∷ rs) = IsWithin len r × AllWithin len rs

parse_last-end :
    (len start : ℕ) (s : Bytes) (r : Range) (t : Bytes)
    → parse_last len start s ≡ some (r, t)
    → (r.start < len)
    → r.end < len
unfolding parse_last
parse_last-end len start [] r t p h = absurd cc
parse_last-end len start (c ∷ s) r t p h = ground arith

parse_suffix-end :
    (len : ℕ) (s : Bytes) (r : Range) (t : Bytes)
    → parse_suffix len s ≡ some (r, t)
    → (r.start < len)
    → r.end < len
unfolding parse_suffix
parse_suffix-end len s r t p h = ground arith

pub parse_range-end :
    (len : ℕ) (s : Bytes) (r : Range) (t : Bytes)
    → parse_range len s ≡ some (r, t)
    → (r.start < len)
    → r.end < len
unfolding parse_range
parse_range-end len [] r t p h = absurd cc
parse_range-end len (c ∷ s) r t p h = ground (
  arith,
  parse_last-end len (atoll (c ∷ s)) (skip_digits (c ∷ s)) r t,
  parse_suffix-end len s r t,
)

pub add_range-within :
    (len : ℕ) (rs : List Range) (r : Range)
    → AllWithin len rs
    → IsWithin len r
    → AllWithin len (add_range rs r)
unfolding add_range
add_range-within len [] r a w = (w, tt)
add_range-within len (p ∷ ps) r ((a, b), as') (x, y) = ground arith

pub add_range-length : (rs : List Range) (r : Range) → length (add_range rs r) ≤ length rs + 1
unfolding add_range
add_range-length [] r = omega arith
add_range-length (p ∷ ps) r = ground arith

-- One round of the loop.
parse_loop_full :
    (fuel len max_ranges c : ℕ) (s : Bytes) (rs : List Range)
    → ltb (length rs) max_ranges ≡ false
    → parse_loop (suc fuel) len max_ranges (c ∷ s) rs ≡ some rs
unfolding parse_loop
parse_loop_full fuel len max_ranges c s rs h = ground arith

parse_loop_wrong :
    (fuel len max_ranges c : ℕ) (s : Bytes) (rs : List Range)
    → ltb (length rs) max_ranges ≡ true
    → parse_range len (c ∷ s) ≡ none
    → parse_loop (suc fuel) len max_ranges (c ∷ s) rs ≡ some []
unfolding parse_loop
parse_loop_wrong fuel len max_ranges c s rs h p = ground arith

parse_loop_wrong_end :
    (fuel len max_ranges c : ℕ) (s : Bytes) (rs : List Range) (r : Range) (t : Bytes)
    → ltb (length rs) max_ranges ≡ true
    → parse_range len (c ∷ s) ≡ some (r, t)
    → parse_end t ≡ none
    → parse_loop (suc fuel) len max_ranges (c ∷ s) rs ≡ some []
unfolding parse_loop
parse_loop_wrong_end fuel len max_ranges c s rs r t h p q = ground arith

pub parse_loop_step :
    (fuel len max_ranges c : ℕ) (s : Bytes) (rs : List Range) (r : Range) (t rest : Bytes)
    → ltb (length rs) max_ranges ≡ true
    → parse_range len (c ∷ s) ≡ some (r, t)
    → parse_end t ≡ some rest
    → parse_loop (suc fuel) len max_ranges (c ∷ s) rs ≡ (
        if leb len r.start
        then none
        else if ltb r.end r.start
        then some []
        else parse_loop fuel len max_ranges rest (add_range rs r))
unfolding parse_loop
parse_loop_step fuel len max_ranges c s rs r t rest h p q = ground arith

-- What the loop may give.
abbrev pub IsFine : ℕ → ℕ → Option (List Range) → Type 0
IsFine len max_ranges none = Unit
IsFine len max_ranges (some out) = AllWithin len out × (length out ≤ max_ranges)

step-IsFine :
    (fuel len m : ℕ) (rest : Bytes) (rs : List Range) (r : Range)
    → AllWithin len rs
    → length rs < m
    → (r.start < len → r.end < len)
    → (AllWithin len (add_range rs r)
        → length (add_range rs r) ≤ m
        → IsFine len m (parse_loop fuel len m rest (add_range rs r)))
    → IsFine len m (
        if leb len r.start
        then none
        else if ltb r.end r.start
        then some []
        else parse_loop fuel len m rest (add_range rs r))
step-IsFine fuel len m rest rs r a l e k = elim (Bool-cases (leb len r.start)) [
  | inl p ↦ rw p tt
  | inr p ↦ elim (Bool-cases (ltb r.end r.start)) [
    | inl q ↦ rw (p, q) (tt, omega arith)
    | inr q ↦
        rw (p, q)
          (k (add_range-within len rs r a (ground arith, ground (arith, e)))
            (omega (arith, add_range-length rs r)))
  ]
]

parse_loop-IsFine :
    (fuel len max_ranges : ℕ) (s : Bytes) (rs : List Range)
    → AllWithin len rs
    → length rs ≤ max_ranges
    → IsFine len max_ranges (parse_loop fuel len max_ranges s rs)
unfolding parse_loop
parse_loop-IsFine zero len m s rs a l = (a, l)
parse_loop-IsFine (suc fuel) len m [] rs a l = (a, l)
parse_loop-IsFine (suc fuel) len m (c ∷ s) rs a l = elim (Bool-cases (ltb (length rs) m)) [
  | inr f ↦ subst (IsFine len m) (sym (parse_loop_full fuel len m c s rs f)) (a, l)
  | inl f ↦ elim (Option-cases (parse_range len (c ∷ s))) [
    | inl p ↦ subst (IsFine len m) (sym (parse_loop_wrong fuel len m c s rs f p)) (tt, omega arith)
    | inr ((r, t), p) ↦ elim (Option-cases (parse_end t)) [
      | inl q ↦
          subst (IsFine len m) (sym (parse_loop_wrong_end fuel len m c s rs r t f p q))
            (tt, omega arith)
      | inr (rest, q) ↦
          subst (IsFine len m) (sym (parse_loop_step fuel len m c s rs r t rest f p q)) (
            step-IsFine fuel len m rest rs r a (ground arith) (parse_range-end len (c ∷ s) r t p)
              (parse_loop-IsFine fuel len m rest (add_range rs r)))
    ]
  ]
]

append-AllWithin :
    (len : ℕ) (rs qs : List Range) → AllWithin len rs → AllWithin len qs → AllWithin len (rs ++ qs)
append-AllWithin len [] qs a b = b
append-AllWithin len (r ∷ rs) qs (w, a) b = (w, append-AllWithin len rs qs a b)

reverse-AllWithin : (len : ℕ) (rs : List Range) → AllWithin len rs → AllWithin len (reverse rs)
reverse-AllWithin len [] a = tt
reverse-AllWithin len (r ∷ rs) (w, a) =
    subst (AllWithin len) (sym (reverse-cons r rs))
      (append-AllWithin len (reverse rs) (r ∷ []) (reverse-AllWithin len rs a) (w, tt))

length-reverse : (rs : List Range) → length (reverse rs) ≡ length rs
length-reverse [] = refl
length-reverse (r ∷ rs) =
    ap length (reverse-cons r rs)
    ∙ omega (arith, length-append (reverse rs) (r ∷ []), length-reverse rs)

reversed-IsFine :
    (len m : ℕ) (o : Option (List Range))
    → IsFine len m o
    → IsFine len m (elim o [ none ↦ none | some rs ↦ some (reverse rs) ])
reversed-IsFine len m none f = tt
reversed-IsFine len m (some rs) (a, l) =
    (reverse-AllWithin len rs a, omega (arith, length-reverse rs))

-- Whatever the header says, the ranges that ParseRangeOffsets gives lie inside the entity, none is
-- empty, and they are not more than there is room for.
pub parse_range_offsets-IsFine :
    (header : Option Bytes) (len max_ranges : ℕ)
    → IsFine len max_ranges (parse_range_offsets header len max_ranges)
unfolding parse_range_offsets
parse_range_offsets-IsFine none len m = (tt, omega arith)
parse_range_offsets-IsFine (some s) len m =
    elim (after_bytes s)
      as (λ o. IsFine len m (elim o [
        | none ↦ some []
        | some t ↦ elim (parse_loop (length t) len m t []) [
          | none ↦ none
          | some rs ↦ some (reverse rs)
        ]
      ])) [
        | none ↦ (tt, omega arith)
        | some t ↦
            reversed-IsFine len m (parse_loop (length t) len m t [])
              (parse_loop-IsFine (length t) len m t [] tt (omega arith))
      ]

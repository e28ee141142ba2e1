-- ===== src/Range/Covers.antt =====
-- nsd/range.c: the bytes that the ranges of ParseRangeOffsets cover.
use mathlib.Core.List.{reverse, reverse-cons}
use anansi.Common.{
  ℕ, zero, suc, ◌+◌, ◌≤◌, ◌≡◌, inl, inr, refl, ap, ◌∙◌, Bool, true, false, ◌&&◌, ◌||◌, Option, none,
  some, List, [], ◌∷◌, ◌++◌, arith, ltb, leb, if◌then◌else◌, Bytes, length, Option-cases,
}
use anansi.Range.{
  Range, parse_range, parse_end, add_range, parse_loop, after_bytes, parse_range_offsets,
}
use anansi.Range.Offsets.{
  IsWithin, AllWithin, parse_range-end, add_range-within, add_range-length, parse_loop_step,
}

-- One of the ranges has the byte at `i`.
abbrev pub covers : ℕ → List Range → Bool
covers i [] = false
covers i (r ∷ rs) = (leb r.start i && leb i r.end) || covers i rs

-- Joining ranges keeps the bytes that they cover.
add_range-covers :
    (len i : ℕ) (rs : List Range) (r : Range)
    → AllWithin len rs
    → IsWithin len r
    → covers i (add_range rs r) ≡ covers i (r ∷ rs)
unfolding add_range
add_range-covers len i [] r a w = refl
add_range-covers len i (p ∷ ps) r ((a, b), as') (x, y) = ground (arith, covers i ps)

covers-append : (i : ℕ) (rs qs : List Range) → covers i (rs ++ qs) ≡ (covers i rs || covers i qs)
covers-append i [] qs = refl
covers-append i (r ∷ rs) qs = ground (arith, covers-append i rs qs)

covers-reverse : (i : ℕ) (rs : List Range) → covers i (reverse rs) ≡ covers i rs
covers-reverse i [] = refl
covers-reverse i (r ∷ rs) =
    ap (covers i) (reverse-cons r rs)
    ∙ ground (arith, covers-append i (reverse rs) (r ∷ []), covers-reverse i rs, covers i rs)

-- The ranges that a header asks for, one after another and not joined, when all of them are well
-- formed and lie in an entity of `len` bytes.
abbrev pub all_ranges : ℕ → ℕ → Bytes → Option (List Range)
all_ranges fuel len [] = some []
all_ranges zero len (c ∷ s) = none
all_ranges (suc fuel) len (c ∷ s) = elim (parse_range len (c ∷ s)) [
  | none ↦ none
  | some (r, t) ↦ elim (parse_end t) [
    | none ↦ none
    | some rest ↦
        let more = all_ranges fuel len rest in
        if leb len r.start || ltb r.end r.start
        then none
        else elim more [ none ↦ none | some rs ↦ some (r ∷ rs) ]
  ]
]

all_ranges_step :
    (fuel len c : ℕ) (s : Bytes) (qs : List Range)
    → all_ranges (suc fuel) len (c ∷ s) ≡ some qs
    → (r : Range) × (t : Bytes) × (rest : Bytes) × (rs : List Range) × (parse_range len (c ∷ s)
        ≡ some (r, t))
      × (parse_end t ≡ some rest)
      × (leb len r.start ≡ false)
      × (ltb r.end r.start ≡ false)
      × (all_ranges fuel len rest ≡ some rs)
      × (qs ≡ r ∷ rs)
all_ranges_step fuel len c s qs h = elim (Option-cases (parse_range len (c ∷ s))) [
  | inl p ↦ absurd (ground arith)
  | inr ((r, t), p) ↦ elim (Option-cases (parse_end t)) [
    | inl q ↦ absurd (ground arith)
    | inr (rest, q) ↦ elim (Option-cases (all_ranges fuel len rest)) [
      | inl w ↦ absurd (ground arith)
      | inr (rs, w) ↦ (r, t, rest, rs, p, q, ground arith, ground arith, w, ground arith)
    ]
  ]
]

or_moved : {x y : Bool} (a b c : Bool) → x ≡ (c || b) → y ≡ (c || a) → (a || x) ≡ (y || b)
or_moved true b true p q = ground arith
or_moved true b false p q = ground arith
or_moved false b true p q = ground arith
or_moved false b false p q = ground arith

-- What the loop makes of well formed ranges.
abbrev Covering : ℕ → ℕ → ℕ → Bytes → List Range → List Range → Type 0
Covering fuel len m s rs qs =
    (out : List Range) × (parse_loop fuel len m s rs ≡ some out)
    × ((i : ℕ) → covers i out ≡ (covers i qs || covers i rs))

parse_loop-Covering :
    (fuel len m : ℕ) (s : Bytes) (rs qs : List Range)
    → all_ranges fuel len s ≡ some qs
    → length rs + length qs ≤ m
    → AllWithin len rs
    → Covering fuel len m s rs qs
unfolding parse_loop
parse_loop-Covering zero len m [] rs qs h b a = (rs, refl, λ i. ground arith)
parse_loop-Covering zero len m (c ∷ s) rs qs h b a = absurd cc
parse_loop-Covering (suc fuel) len m [] rs qs h b a = (rs, refl, λ i. ground arith)
parse_loop-Covering (suc fuel) len m (c ∷ s) rs qs h b a =
    let (r, t, rest, ps, p, q, x, y, w, e) = all_ranges_step fuel len c s qs h in
    let l : length qs ≡ suc (length ps) = ap length e in
    let z = parse_loop_step fuel len m c s rs r t rest (ground arith) p q in
    let within : IsWithin len r =
      (ground arith, parse_range-end len (c ∷ s) r t p (ground arith)) in
    let (out, o, k) =
      parse_loop-Covering fuel len m rest (add_range rs r) ps w
        (omega (arith, add_range-length rs r)) (add_range-within len rs r a within) in
    (
      out,
      z ∙ rw (x, y) o,
      λ i.
          k i
          ∙ or_moved (covers i ps) (covers i rs) (leb r.start i && leb i r.end)
              (add_range-covers len i rs r a within) (ap (covers i) e),
    )

-- When all the ranges behind "bytes=" are well formed and lie in the entity, and there is room for
-- them, ParseRangeOffsets answers with ranges that have the same bytes.
pub parse_range_offsets-covers :
    (s t : Bytes) (len max_ranges : ℕ) (qs : List Range)
    → after_bytes s ≡ some t
    → all_ranges (length t) len t ≡ some qs
    → length qs ≤ max_ranges
    → (out : List Range) × (parse_range_offsets (some s) len max_ranges ≡ some out)
      × ((i : ℕ) → covers i out ≡ covers i qs)
unfolding parse_range_offsets
parse_range_offsets-covers s t len m qs f h b =
    let (out, o, k) = parse_loop-Covering (length t) len m t [] qs h (omega arith) tt in
    (
      reverse out,
      rw (parse_range_offsets, f, o) refl,
      λ i. covers-reverse i out ∙ k i ∙ ground (arith, covers i qs),
    )

-- ===== src/Strings/Trim.antt =====
-- nsd/str.c: `Ns_StrTrimLeft`, `Ns_StrTrimRight` and `Ns_StrToLower`.
use anansi.Common.{
  ℕ, zero, suc, ◌-◌, ◌≤◌, ◌<◌, ◌≡◌, refl, true, false, ◌||◌, Bytes, arith, ◌==◌, Bool-cases, inl,
  inr, length, get_or, take,
}
use anansi.Strings.{is_space, trim_right_from, str_trim_right}

-- What is cut off at the right, and what is left.
pub record IsTrimmed (chars : Bytes) (n : ℕ) : Type 0 where
  pub inside : n ≤ length chars
  pub blank : (i : ℕ) → n ≤ i → i < length chars → is_space (get_or chars i 0) ≡ true
  pub full : 0 < n → is_space (get_or chars (n - 1) 0) ≡ false

trim_right_from_lem :
    (len : ℕ) (chars : Bytes)
    → len ≤ length chars
    → ((i : ℕ) → len ≤ i → i < length chars → is_space (get_or chars i 0) ≡ true)
    → (n : ℕ) × (trim_right_from len chars ≡ take n chars) × IsTrimmed chars n
unfolding trim_right_from
trim_right_from_lem zero chars h b =
    (0, refl, record { inside = omega arith; blank = b; full = λ p. absurd (omega arith) })
trim_right_from_lem (suc len) chars h b =
    elim (Bool-cases (is_space (get_or chars len 0) || get_or chars len 0 == 10)) [
      | inl e ↦
          let (n, f, t) = trim_right_from_lem len chars (omega arith) (λ i l k.
            elim (Bool-cases (i == len)) [
              | inl q ↦ let z : i ≡ len = ground arith in rw z (ground arith)
              | inr q ↦ b i (ground arith) k
            ]) in
          (n, rw e f, t)
      | inr e ↦
          let z : suc len - 1 ≡ len = omega arith in
          (suc len, rw e refl, record { inside = h; blank = b; full = λ p. rw z (ground arith) })
    ]

-- `str_trim_right` keeps a first part of the string: all behind it is white space, and its last byte
-- is none.
pub str_trim_right-IsTrimmed :
    (chars : Bytes) → (n : ℕ) × (str_trim_right chars ≡ take n chars) × IsTrimmed chars n
unfolding str_trim_right
str_trim_right-IsTrimmed chars =
    trim_right_from_lem (length chars) chars (omega arith) (λ i l k. absurd (omega arith))

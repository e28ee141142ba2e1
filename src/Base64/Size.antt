-- ===== src/Base64/Size.antt =====
-- nsd/uuencode.c: how many characters `Ns_HtuuEncode` writes.
use anansi.Common.{
  ℕ, ◌+◌, ◌*◌, ◌/◌, ◌≤◌, ◌≡◌, refl, Bool, true, false, [], ◌∷◌, ◌++◌, Bytes, arith, leb,
  if◌then◌else◌, length, length-append,
}
use anansi.Base64.{quad, encode_from, encode}

length_newline : (x : Bool) → length {A = ℕ} (if x then 10 ∷ [] else []) ≡ (if x then 1 else 0)
length_newline true = refl
length_newline false = refl

length-encode_from :
    (line : ℕ) (xs : Bytes)
    → length (encode_from line xs) ≤ 4 * ((length xs + 2) / 3) + (line + 4 * (length xs / 3)) / 60
unfolding encode_from quad
length-encode_from line [] = omega arith
length-encode_from line (a ∷ []) = omega arith
length-encode_from line (a ∷ b ∷ []) = omega arith
length-encode_from line (a ∷ b ∷ c ∷ rest) =
    let next = (if leb 60 line then 0 else line) + 4 in
    let h = length-encode_from next rest in
    let e =
      length-append (if leb 60 line then 10 ∷ [] else []) (quad a b c ++ encode_from next rest) in
    let f = length_newline (leb 60 line) in ground arith

-- From two bytes on, the encoding and its NUL fit into 1 + (n * 4) / 2 bytes.
pub length-encode : (xs : Bytes) → 2 ≤ length xs → length (encode xs) + 1 ≤ 1 + length xs * 4 / 2
unfolding encode
length-encode xs h = omega (arith, length-encode_from 0 xs)

-- The encoding of one byte has four characters, without the NUL.
length-encode_one : (a : ℕ) → length (encode (a ∷ [])) ≡ 4
unfolding encode encode_from
length-encode_one a = refl

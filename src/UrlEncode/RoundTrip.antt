-- ===== src/UrlEncode/RoundTrip.antt =====
-- nsd/urlencode.c: decoding undoes encoding, and the buffers have the lengths that were found for them.
use anansi.Common.{
  ℕ, ◌+◌, ◌/◌, ◌%◌, ◌≤◌, ◌<◌, ◌≡◌, inl, inr, refl, ap, ◌∙◌, true, ◌&&◌, none, some, [], ◌∷◌, ◌++◌,
  arith, ◌==◌, Bytes, length, length-append, length-take, take_of_length-le, Bool-cases,
  Option-cases,
}
use anansi.UrlEncode.{
  Part, query, path, is_literal, hex_value, hex_digit, is_query, encoded_len, total_len,
  encode_byte, encode_from, url_encode, plain, escape, decode_from, url_decode,
}

abbrev pub AllBytes : Bytes → Type 0
AllBytes [] = Unit
AllBytes (c ∷ s) = (c < 256) × AllBytes s

hex_value-hex_digit : (d : ℕ) → d < 16 → hex_value (hex_digit d) ≡ some d
unfolding hex_value hex_digit
hex_value-hex_digit d h = ground arith

is_literal-plain : (part : Part) (c : ℕ) → is_literal part c ≡ true → plain part c ≡ c
unfolding is_literal plain
is_literal-plain query c h = ground arith
is_literal-plain path c h = ground arith

is_literal-escape : (part : Part) (c a b : ℕ) → is_literal part c ≡ true → escape c a b ≡ none
unfolding is_literal escape
is_literal-escape query c a b h = ground arith
is_literal-escape path c a b h = ground arith

decode_from-plain :
    (part : Part) (c : ℕ) (s : Bytes)
    → ((a b : ℕ) → escape c a b ≡ none)
    → decode_from part (c ∷ s) ≡ plain part c ∷ decode_from part s
unfolding decode_from
decode_from-plain part c [] h = refl
decode_from-plain part c (a ∷ []) h = refl
decode_from-plain part c (a ∷ b ∷ s) h = rw (decode_from, h a b) refl

escape-hex : (c : ℕ) → c < 256 → escape b'%' (hex_digit (c / 16)) (hex_digit (c % 16)) ≡ some c
unfolding escape
escape-hex c h =
    rw (hex_value-hex_digit (c / 16) (omega arith), hex_value-hex_digit (c % 16) (omega arith))
      (ap some (omega arith))

decode_from-escape :
    (part : Part) (c a b byte : ℕ) (s : Bytes)
    → escape c a b ≡ some byte
    → decode_from part (c ∷ a ∷ b ∷ s) ≡ byte ∷ decode_from part s
unfolding decode_from
decode_from-escape part c a b byte s h = rw (decode_from, h) refl

plus-escape : (a b : ℕ) → escape b'+' a b ≡ none
unfolding escape
plus-escape a b = refl

space-plain : (part : Part) (c : ℕ) → (c == 32 && is_query part) ≡ true → plain part b'+' ≡ c
unfolding plain
space-plain query c h = ground arith
space-plain path c h = absurd (ground arith)

decode_from-encode_byte :
    (part : Part) (c : ℕ) (s : Bytes)
    → c < 256
    → decode_from part (encode_byte part c ++ s) ≡ c ∷ decode_from part s
unfolding encode_byte
decode_from-encode_byte part c s h = elim (Bool-cases (is_literal part c)) [
  | inl t ↦
      rw (encode_byte, t)
        (decode_from-plain part c s (λ a b. is_literal-escape part c a b t)
          ∙ ap (λ x. x ∷ decode_from part s) (is_literal-plain part c t))
  | inr t ↦ elim (Bool-cases (c == 32 && is_query part)) [
    | inl u ↦
        rw (encode_byte, t, u)
          (decode_from-plain part b'+' s (λ a b. plus-escape a b)
            ∙ ap (λ x. x ∷ decode_from part s) (space-plain part c u))
    | inr u ↦
        rw (encode_byte, t, u)
          (decode_from-escape part b'%' (hex_digit (c / 16)) (hex_digit (c % 16)) c s
            (escape-hex c h))
  ]
]

decode_from_nil : (part : Part) → decode_from part [] ≡ []
unfolding decode_from
decode_from_nil part = refl

decode_from-encode_from :
    (part : Part) (s : Bytes) → AllBytes s → decode_from part (encode_from part s) ≡ s
unfolding encode_from
decode_from-encode_from part [] a = decode_from_nil part
decode_from-encode_from part (c ∷ s) (h, a) =
    decode_from-encode_byte part c (encode_from part s) h
    ∙ ap (◌∷◌ c) (decode_from-encode_from part s a)

-- Decoding an encoded segment of bytes gives the segment, for both parts of a URL, when there is no
-- conversion and the decoder starts with an empty string.
pub url_decode-url_encode :
    (part : Part) (s : Bytes) → AllBytes s → url_decode [] (url_encode [] s none part) none part ≡ s
unfolding url_decode url_encode
url_decode-url_encode part s a =
    take_of_length-le (length (decode_from part (encode_from part s)))
      (decode_from part (encode_from part s)) (omega arith)
    ∙ decode_from-encode_from part s a

encode_byte-length : (part : Part) (c : ℕ) → length (encode_byte part c) ≡ encoded_len part c
unfolding encode_byte encoded_len
encode_byte-length part c = ground arith

encode_from-length : (part : Part) (s : Bytes) → length (encode_from part s) ≡ total_len part s
unfolding encode_from total_len
encode_from-length part [] = refl
encode_from-length part (c ∷ s) = omega (
  arith,
  length-append (encode_byte part c) (encode_from part s),
  encode_byte-length part c,
  encode_from-length part s,
)

decode_from-length : (part : Part) (s : Bytes) → length (decode_from part s) ≤ length s
unfolding decode_from
decode_from-length part [] = omega arith
decode_from-length part (c ∷ []) = omega arith
decode_from-length part (c ∷ a ∷ []) = omega arith
decode_from-length part (c ∷ a ∷ b ∷ s) = elim (Option-cases (escape c a b)) [
  | inl h ↦ rw (decode_from, h) (omega (arith, decode_from-length part (a ∷ b ∷ s)))
  | inr (x, h) ↦ rw (decode_from, h) (omega (arith, decode_from-length part s))
]

-- The room that UrlEncode and UrlDecode make in the string is enough: the first loop of UrlEncode adds
-- up exactly the bytes that the second one writes, and UrlDecode writes no more bytes than it reads.
pub url_encode-length :
    (part : Part) (ds s : Bytes)
    → (length (url_encode ds s none part) ≡ length ds + total_len part s)
      × (length (decode_from part s) ≤ length s)
unfolding url_encode
url_encode-length part ds s = (
  omega (arith, length-append ds (encode_from part s), encode_from-length part s),
  decode_from-length part s,
)

-- Without an encoding, UrlDecode leaves a string as long as what it decoded, however long the string
-- was before: what stood in the string is kept, and the end of what was decoded is cut off.
pub url_decode-length :
    (part : Part) (ds s : Bytes) → length (url_decode ds s none part) ≡ length (decode_from part s)
unfolding url_decode
url_decode-length part ds s = omega (
  arith,
  length-take (length (decode_from part s)) (ds ++ decode_from part s),
  length-append ds (decode_from part s),
)

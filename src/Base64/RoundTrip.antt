-- ===== src/Base64/RoundTrip.antt =====
-- nsd/uuencode.c: what `Ns_HtuuEncode` encodes, `Ns_HtuuDecode` decodes.
use anansi.Common.{
  ℕ, ◌+◌, ◌*◌, ◌/◌, ◌%◌, ◌<◌, ◌≡◌, refl, ap, ◌∙◌, some, [], ◌∷◌, ◌++◌, Bytes, arith, leb,
  if◌then◌else◌, Bool, true, false,
}
use anansi.Base64.{
  six2pr, pr2six, quad, encode_from, encode, Chars, chars0, chars1, chars2, chars3, decode_char,
  first_byte, second_byte, third_byte, store, flush, decode_from, skip_blanks, decode,
}

abbrev pub AllBytes : Bytes → Type 0
AllBytes [] = Unit
AllBytes (x ∷ xs) = (x < 256) × AllBytes xs

pr2six-six2pr : (n : ℕ) → n < 64 → pr2six (six2pr n) ≡ some n
unfolding pr2six six2pr
pr2six-six2pr n h = ground arith

decode_char-six2pr : (n : ℕ) → n < 64 → decode_char (six2pr n) ≡ n
unfolding decode_char
decode_char-six2pr n h = rw (pr2six-six2pr n h, decode_char) refl

-- A character of the alphabet is stored, and the two others that the encoder writes are skipped.
decode_from-six2pr :
    (buffer : Chars) (n : ℕ) (ps : Bytes)
    → n < 64
    → decode_from buffer (six2pr n ∷ ps)
      ≡ (store buffer (six2pr n)).1 ++ decode_from (store buffer (six2pr n)).0 ps
unfolding decode_from
decode_from-six2pr buffer n ps h = rw (pr2six-six2pr n h, decode_from) refl

decode_from_newline :
    (buffer : Chars) (ps : Bytes) → decode_from buffer (10 ∷ ps) ≡ decode_from buffer ps
unfolding decode_from pr2six
decode_from_newline buffer ps = refl

decode_from_pad :
    (buffer : Chars) (ps : Bytes) → decode_from buffer (61 ∷ ps) ≡ decode_from buffer ps
unfolding decode_from pr2six
decode_from_pad buffer ps = refl

-- The three bytes come back.
bytes_back :
    (a b c : ℕ)
    → a < 256
    → b < 256
    → c < 256
    → (first_byte (six2pr (a / 4)) (six2pr (a * 16 % 256 / 16 % 4 * 16 + b / 16 % 16)) ≡ a)
      × (second_byte
            (six2pr (a * 16 % 256 / 16 % 4 * 16 + b / 16 % 16))
            (six2pr (b * 4 % 256 / 4 % 16 * 4 + c / 64 % 4))
          ≡ b)
      × (third_byte (six2pr (b * 4 % 256 / 4 % 16 * 4 + c / 64 % 4)) (six2pr (c % 64)) ≡ c)
unfolding first_byte second_byte third_byte
bytes_back a b c ha hb hc =
    let e0 = decode_char-six2pr (a / 4) (omega arith) in
    let e1 = decode_char-six2pr (a * 16 % 256 / 16 % 4 * 16 + b / 16 % 16) (omega arith) in
    let e2 = decode_char-six2pr (b * 4 % 256 / 4 % 16 * 4 + c / 64 % 4) (omega arith) in
    let e3 = decode_char-six2pr (c % 64) (omega arith) in
    (rw (e0, e1) (omega arith), rw (e1, e2) (omega arith), rw (e2, e3) (omega arith))

decode_from-quad :
    (a b c : ℕ) (ps : Bytes)
    → a < 256
    → b < 256
    → c < 256
    → decode_from chars0 (quad a b c ++ ps) ≡ a ∷ b ∷ c ∷ decode_from chars0 ps
unfolding quad store
decode_from-quad a b c ps ha hb hc =
    let s1 = a * 16 % 256 / 16 % 4 * 16 + b / 16 % 16 in
    let s2 = b * 4 % 256 / 4 % 16 * 4 + c / 64 % 4 in
    let (ea, eb, ec) = bytes_back a b c ha hb hc in
    decode_from-six2pr chars0 (a / 4) _ (omega arith)
    ∙ decode_from-six2pr (chars1 (six2pr (a / 4))) s1 _ (omega arith)
    ∙ decode_from-six2pr (chars2 (six2pr (a / 4)) (six2pr s1)) s2 _ (omega arith)
    ∙ decode_from-six2pr (chars3 (six2pr (a / 4)) (six2pr s1) (six2pr s2)) (c % 64) _ (omega arith)
    ∙ rw (ea, eb, ec) refl

decode_from_one :
    (a : ℕ)
    → a < 256
    → decode_from chars0 (six2pr (a / 4) ∷ six2pr (a * 16 % 256 / 16 % 4 * 16) ∷ 61 ∷ 61 ∷ [])
      ≡ a ∷ []
unfolding store flush first_byte decode_from
decode_from_one a h =
    let s1 = a * 16 % 256 / 16 % 4 * 16 in
    let d0 = decode_char-six2pr (a / 4) (omega arith) in
    let d1 = decode_char-six2pr s1 (omega arith) in
    decode_from-six2pr chars0 (a / 4) (six2pr s1 ∷ 61 ∷ 61 ∷ []) (omega arith)
    ∙ decode_from-six2pr (chars1 (six2pr (a / 4))) s1 (61 ∷ 61 ∷ []) (omega arith)
    ∙ decode_from_pad (chars2 (six2pr (a / 4)) (six2pr s1)) (61 ∷ [])
    ∙ decode_from_pad (chars2 (six2pr (a / 4)) (six2pr s1)) []
    ∙ rw (d0, d1) (ap (λ x. x ∷ []) (omega arith))

decode_from_two :
    (a b : ℕ)
    → a < 256
    → b < 256
    → decode_from chars0 (
        six2pr (a / 4)
        ∷ six2pr (a * 16 % 256 / 16 % 4 * 16 + b / 16 % 16)
        ∷ six2pr (b * 4 % 256 / 4 % 16 * 4)
        ∷ 61
        ∷ [])
      ≡ a ∷ b ∷ []
unfolding store flush first_byte second_byte decode_from
decode_from_two a b ha hb =
    let s1 = a * 16 % 256 / 16 % 4 * 16 + b / 16 % 16 in
    let s2 = b * 4 % 256 / 4 % 16 * 4 in
    let d0 = decode_char-six2pr (a / 4) (omega arith) in
    let d1 = decode_char-six2pr s1 (omega arith) in
    let d2 = decode_char-six2pr s2 (omega arith) in
    let ea : a / 4 * 4 % 256 + s1 / 16 ≡ a = omega arith in
    let eb : s1 * 16 % 256 + s2 / 4 ≡ b = omega arith in
    decode_from-six2pr chars0 (a / 4) (six2pr s1 ∷ six2pr s2 ∷ 61 ∷ []) (omega arith)
    ∙ decode_from-six2pr (chars1 (six2pr (a / 4))) s1 (six2pr s2 ∷ 61 ∷ []) (omega arith)
    ∙ decode_from-six2pr (chars2 (six2pr (a / 4)) (six2pr s1)) s2 (61 ∷ []) (omega arith)
    ∙ decode_from_pad (chars3 (six2pr (a / 4)) (six2pr s1) (six2pr s2)) []
    ∙ rw (d0, d1, d2, ea, eb) refl

skip_newline :
    (x : Bool) (ps : Bytes)
    → decode_from chars0 ((if x then 10 ∷ [] else []) ++ ps) ≡ decode_from chars0 ps
skip_newline true ps = decode_from_newline chars0 ps
skip_newline false ps = refl

decode_from-encode_from :
    (line : ℕ) (xs : Bytes) → AllBytes xs → decode_from chars0 (encode_from line xs) ≡ xs
unfolding encode_from decode_from flush
decode_from-encode_from line [] h = refl
decode_from-encode_from line (a ∷ []) (ha, h) = decode_from_one a ha
decode_from-encode_from line (a ∷ b ∷ []) (ha, (hb, h)) = decode_from_two a b ha hb
decode_from-encode_from line (a ∷ b ∷ c ∷ rest) (ha, (hb, (hc, hr))) =
    let next = (if leb 60 line then 0 else line) + 4 in
    let q =
      decode_from-quad a b c (encode_from next rest) ha hb hc
      ∙ ap (λ ys. a ∷ b ∷ c ∷ ys) (decode_from-encode_from next rest hr) in
    skip_newline (leb 60 line) (quad a b c ++ encode_from next rest) ∙ q

-- The first character of an encoded string is no blank.
skip_blanks-six2pr : (n : ℕ) (ps : Bytes) → n < 64 → skip_blanks (six2pr n ∷ ps) ≡ six2pr n ∷ ps
unfolding skip_blanks six2pr
skip_blanks-six2pr n ps h = ground arith

skip_blanks-encode : (xs : Bytes) → AllBytes xs → skip_blanks (encode xs) ≡ encode xs
unfolding encode encode_from skip_blanks quad
skip_blanks-encode [] h = refl
skip_blanks-encode (a ∷ []) (ha, h) = skip_blanks-six2pr (a / 4) _ (omega arith)
skip_blanks-encode (a ∷ b ∷ []) (ha, h) = skip_blanks-six2pr (a / 4) _ (omega arith)
skip_blanks-encode (a ∷ b ∷ c ∷ rest) (ha, h) = skip_blanks-six2pr (a / 4) _ (omega arith)

-- `decode` gives back every string of bytes that `encode` encoded, whose lines are wrapped.
pub decode-encode : (xs : Bytes) → AllBytes xs → decode (encode xs) ≡ xs
unfolding decode encode
decode-encode xs h =
    ap (decode_from chars0) (skip_blanks-encode xs h) ∙ decode_from-encode_from 0 xs h

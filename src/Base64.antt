-- ===== src/Base64.antt =====
-- nsd/uuencode.c: base64. The masks and shifts are arithmetic: `x & 0x3F` is `x % 64`, `x & 0x3C`
-- is `x / 4 % 16 * 4`, `x & 0x30` is `x / 16 % 4 * 16`, UCHAR is `% 256`, and `|` joins disjoint
-- bits, a sum. A string is the list of its bytes, without the NUL.
pub mod RoundTrip
pub mod Size
use anansi.Common.{
  ℕ, ◌+◌, ◌-◌, ◌*◌, ◌/◌, ◌%◌, ◌≤◌, ◌<◌, Bool, ◌&&◌, ◌||◌, Option, none, some, List, [], ◌∷◌, ◌++◌,
  Bytes, ltb, leb, ◌==◌, if◌then◌else◌,
}

-- six2pr
unfoldable pub six2pr : ℕ → ℕ
six2pr n =
    if ltb n 26
    then n + 65
    else if ltb n 52
    then n + 71
    else if ltb n 62
    then n - 4
    else if n == 62
    then 43
    else 47

-- pr2six; -1 is `none`.
unfoldable pub pr2six : ℕ → Option ℕ
pr2six c =
    if leb 65 c && leb c 90
    then some (c - 65)
    else if leb 97 c && leb c 122
    then some (c - 71)
    else if leb 48 c && leb c 57
    then some (c + 4)
    else if c == 43
    then some 62
    else if c == 47
    then some 63
    else none

-- The four characters of three bytes.
unfoldable pub quad : ℕ → ℕ → ℕ → Bytes
quad a b c =
    six2pr (a / 4)
    ∷ six2pr (a * 16 % 256 / 16 % 4 * 16 + b / 16 % 16)
    ∷ six2pr (b * 4 % 256 / 4 % 16 * 4 + c / 64 % 4)
    ∷ six2pr (c % 64)
    ∷ []

-- The loop of Ns_HtuuEncode and what follows it, where the line has `line` characters.
unfoldable pub encode_from : ℕ → Bytes → Bytes
encode_from line [] = []
encode_from line (a ∷ []) = six2pr (a / 4) ∷ six2pr (a * 16 % 256 / 16 % 4 * 16) ∷ 61 ∷ 61 ∷ []
encode_from line (a ∷ b ∷ []) =
    six2pr (a / 4)
    ∷ six2pr (a * 16 % 256 / 16 % 4 * 16 + b / 16 % 16)
    ∷ six2pr (b * 4 % 256 / 4 % 16 * 4)
    ∷ 61
    ∷ []
encode_from line (a ∷ b ∷ c ∷ rest) =
    (if leb 60 line then 10 ∷ [] else [])
    ++ (quad a b c ++ encode_from ((if leb 60 line then 0 else line) + 4) rest)

-- Ns_HtuuEncode
unfoldable pub encode : Bytes → Bytes
encode input = encode_from 0 input

-- `chars`, of which `n` are in use: 0 to 3 where a round begins.
pub data Chars : Type 0 where
  chars0 : Chars
  chars1 : ℕ → Chars
  chars2 : ℕ → ℕ → Chars
  chars3 : ℕ → ℕ → ℕ → Chars

-- Decode
unfoldable pub decode_char : ℕ → ℕ
decode_char c = elim (pr2six c) [ none ↦ 255 | some n ↦ n ]

-- The three bytes of four characters.
unfoldable pub first_byte : ℕ → ℕ → ℕ
first_byte a b = decode_char a * 4 % 256 + decode_char b / 16

unfoldable pub second_byte : ℕ → ℕ → ℕ
second_byte b c = decode_char b * 16 % 256 + decode_char c / 4

unfoldable pub third_byte : ℕ → ℕ → ℕ
third_byte c d = decode_char c * 64 % 256 + decode_char d

-- A valid character stored in `chars`, and the bytes put out if it is the fourth.
unfoldable pub store : Chars → ℕ → Chars × Bytes
store chars0 p = (chars1 p, [])
store (chars1 a) p = (chars2 a p, [])
store (chars2 a b) p = (chars3 a b p, [])
store (chars3 a b c) p = (chars0, first_byte a b ∷ second_byte b c ∷ third_byte c p ∷ [])

-- The bytes of the remaining characters.
unfoldable pub flush : Chars → Bytes
flush chars0 = []
flush (chars1 a) = []
flush (chars2 a b) = first_byte a b ∷ []
flush (chars3 a b c) = first_byte a b ∷ second_byte b c ∷ []

-- The loop of Ns_HtuuDecode and what follows it.
unfoldable pub decode_from : Chars → Bytes → Bytes
decode_from buffer [] = flush buffer
decode_from buffer (p ∷ ps) =
    let skip = decode_from buffer ps in
    let (next, out) = store buffer p in
    let kept = out ++ decode_from next ps in elim (pr2six p) [ none ↦ skip | some n ↦ kept ]

-- The loop over leading blanks.
unfoldable pub skip_blanks : Bytes → Bytes
skip_blanks [] = []
skip_blanks (c ∷ cs) = let rest = skip_blanks cs in if c == 32 || c == 9 then rest else c ∷ cs

-- Ns_HtuuDecode
unfoldable pub decode : Bytes → Bytes
decode input = decode_from chars0 (skip_blanks input)

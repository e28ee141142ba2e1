-- ===== src/UrlEncode.antt =====
-- nsd/urlencode.c: the percent encoding of the parts of a URL. The tables `queryenc` and `pathenc` are
-- tests on a byte here, which agree with them in each of the 256 places. `to_external` and `to_utf` are
-- Tcl's conversions of an encoding, `none` where there is none.
pub mod RoundTrip
use anansi.Common.{
  ℕ, zero, suc, ◌+◌, ◌-◌, ◌*◌, ◌/◌, ◌%◌, Bool, true, false, not, ◌&&◌, ◌||◌, Option, none, some,
  List, [], ◌∷◌, ◌++◌, ltb, leb, ◌==◌, if◌then◌else◌, Bytes, length, take,
}

-- The argument `part`: 'q' or 'p'.
pub data Part : Type 0 where
  query path : Part

abbrev pub is_alnum : ℕ → Bool
is_alnum c =
    (leb b'0' c && leb c b'9') || ((leb b'A' c && leb c b'Z') || (leb b'a' c && leb c b'z'))

-- ! ' ( ) * - . _ ~
abbrev pub is_mark : ℕ → Bool
is_mark c = c == 33 || ((leb 39 c && leb c 42) || (c == 45 || (c == 46 || (c == 95 || c == 126))))

-- $ & + , : @
abbrev pub is_path_mark : ℕ → Bool
is_path_mark c = c == 36 || (c == 38 || (c == 43 || (c == 44 || (c == 58 || c == 64))))

-- `enc[c].str == NULL`
unfoldable pub is_literal : Part → ℕ → Bool
is_literal query c = is_alnum c || is_mark c
is_literal path c = is_alnum c || (is_mark c || is_path_mark c)

-- `enc[c].hex`, where it is not -1
unfoldable pub hex_value : ℕ → Option ℕ
hex_value c =
    if leb b'0' c && leb c b'9'
    then some (c - 48)
    else if leb b'A' c && leb c b'F'
    then some (c - 55)
    else if leb b'a' c && leb c b'f'
    then some (c - 87)
    else none

-- A digit of `enc[c].str`
unfoldable pub hex_digit : ℕ → ℕ
hex_digit d = if ltb d 10 then 48 + d else 87 + d

abbrev pub is_query : Part → Bool
is_query query = true
is_query path = false

-- `enc[c].len`
unfoldable pub encoded_len : Part → ℕ → ℕ
encoded_len part c = if is_literal part c || (c == 32 && is_query part) then 1 else 3

-- The first loop of UrlEncode, which finds the length.
unfoldable pub total_len : Part → Bytes → ℕ
total_len part [] = 0
total_len part (c ∷ s) = encoded_len part c + total_len part s

-- The second loop.
unfoldable pub encode_byte : Part → ℕ → Bytes
encode_byte part c =
    if is_literal part c
    then c ∷ []
    else if c == 32 && is_query part
    then b'+' ∷ []
    else b'%' ∷ hex_digit (c / 16) ∷ hex_digit (c % 16) ∷ []

unfoldable pub encode_from : Part → Bytes → Bytes
encode_from part [] = []
encode_from part (c ∷ s) = encode_byte part c ++ encode_from part s

-- UrlEncode, which appends to the string `ds`.
unfoldable pub url_encode : Bytes → Bytes → Option (Bytes → Bytes) → Part → Bytes
url_encode ds segment encoding part = elim encoding [
  | none ↦ ds ++ encode_from part segment
  | some to_external ↦ ds ++ encode_from part (to_external segment)
]

-- A byte that is no escape.
unfoldable pub plain : Part → ℕ → ℕ
plain part c = if c == b'+' && is_query part then 32 else c

-- The byte of an escape, when `a` and `b` are two digits behind a '%'.
unfoldable pub escape : ℕ → ℕ → ℕ → Option ℕ
escape c a b =
    if c == b'%'
    then elim (hex_value a) [
      | none ↦ none
      | some i ↦ elim (hex_value b) [ none ↦ none | some j ↦ some ((i * 16 % 256 + j) % 256) ]
    ]
    else none

-- The loop of UrlDecode.
unfoldable pub decode_from : Part → Bytes → Bytes
decode_from part [] = []
decode_from part (c ∷ []) = plain part c ∷ []
decode_from part (c ∷ a ∷ []) = plain part c ∷ decode_from part (a ∷ [])
decode_from part (c ∷ a ∷ b ∷ s) =
    let behind = decode_from part s in
    let next = decode_from part (a ∷ b ∷ s) in
    elim (escape c a b) [ some byte ↦ byte ∷ behind | none ↦ plain part c ∷ next ]

-- UrlDecode: without an encoding the bytes are written behind `ds`, and then the whole string is cut to
-- the number of bytes that were decoded.
unfoldable pub url_decode : Bytes → Bytes → Option (Bytes → Bytes) → Part → Bytes
url_decode ds segment encoding part =
    let out = decode_from part segment in
    elim encoding [ none ↦ take (length out) (ds ++ out) | some to_utf ↦ ds ++ to_utf out ]

-- The loop of NsTclUrlEncodeObjCmd over the arguments.
unfoldable pub encode_args : Bytes → List Bytes → Option (Bytes → Bytes) → Part → Bytes
encode_args ds [] encoding part = ds
encode_args ds (s ∷ []) encoding part = url_encode ds s encoding part
encode_args ds (s ∷ t ∷ ss) encoding part =
    encode_args (url_encode ds s encoding part ++ (if is_query part then b'&' else b'/') ∷ [])
      (t ∷ ss) encoding part

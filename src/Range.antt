-- ===== src/Range.antt =====
-- nsd/range.c: the byte ranges that a client asks for, and the parts of the response. The numbers are
-- far from the bounds of `off_t`. Where the source has an end of -1, the range starts at the end of the
-- entity and is refused before its end is read.

pub mod Offsets
pub mod Covers
pub mod Parts
use mathlib.Core.List.{reverse}
use anansi.Common.{
  ℕ, zero, suc, ◌+◌, ◌-◌, ◌*◌, ◌/◌, Bool, true, false, ◌&&◌, ◌||◌, Option, none, some, List, [],
  ◌∷◌, ◌++◌, ltb, leb, ◌==◌, if◌then◌else◌, Bytes, length, take, drop, min, max,
}

pub record Range : Type 0 where
  pub start : ℕ
  pub end : ℕ

-- `CHARTYPE(digit, c) != 0`
abbrev pub is_digit : ℕ → Bool
is_digit c = leb b'0' c && leb c b'9'

abbrev pub starts_digit : Bytes → Bool
starts_digit [] = false
starts_digit (c ∷ s) = is_digit c

-- `atoll`, of a string that starts with a digit, whose value was `n` before it
unfoldable pub atoll_from : ℕ → Bytes → ℕ
atoll_from n [] = n
atoll_from n (c ∷ s) =
    let rest = atoll_from (n * 10 + (c - b'0')) s in if is_digit c then rest else n

abbrev pub atoll : Bytes → ℕ
atoll s = atoll_from 0 s

unfoldable pub skip_digits : Bytes → Bytes
skip_digits [] = []
skip_digits (c ∷ s) = let rest = skip_digits s in if is_digit c then rest else c ∷ s

-- The part of a range behind its first number.
unfoldable pub parse_last : ℕ → ℕ → Bytes → Option (Range × Bytes)
parse_last len start [] = none
parse_last len start (c ∷ s) =
    if c == b'-'
    then if starts_digit s
      then some (
        record { start = start; end = if leb len (atoll s) then len - 1 else atoll s },
        skip_digits s,
      )
      else some (record { start = start; end = len - 1 }, s)
    else none

-- The part behind a '-' that stands first.
unfoldable pub parse_suffix : ℕ → Bytes → Option (Range × Bytes)
parse_suffix len s =
    let size = if leb len (atoll s) then len else atoll s in
    if starts_digit s
    then some (record { start = len - size; end = len - size + size - 1 }, skip_digits s)
    else none

-- One range, and what stands behind it.
unfoldable pub parse_range : ℕ → Bytes → Option (Range × Bytes)
parse_range len [] = none
parse_range len (c ∷ s) =
    if is_digit c
    then parse_last len (atoll (c ∷ s)) (skip_digits (c ∷ s))
    else if c == b'-'
    then parse_suffix len s
    else none

-- The end of a range: a comma is skipped.
unfoldable pub parse_end : Bytes → Option Bytes
parse_end [] = some []
parse_end (c ∷ s) = if c == b',' then some s else none

-- The ranges so far, the last one first, with one more.
unfoldable pub add_range : List Range → Range → List Range
add_range [] r = r ∷ []
add_range (p ∷ ps) r =
    if ltb (p.end + 1) r.start || (ltb 0 p.start && ltb r.end (p.start - 1))
    then r ∷ p ∷ ps
    else record { start = min p.start r.start; end = max p.end r.end } ∷ ps

-- The loop of ParseRangeOffsets: `none` is the error of a range behind the end of the entity, and no
-- ranges are what the source returns on wrong syntax. `fuel` is for the characters.
unfoldable pub parse_loop : ℕ → ℕ → ℕ → Bytes → List Range → Option (List Range)
parse_loop zero len max_ranges s rs = some rs
parse_loop (suc fuel) len max_ranges [] rs = some rs
parse_loop (suc fuel) len max_ranges (c ∷ s) rs =
    if ltb (length rs) max_ranges
    then elim (parse_range len (c ∷ s)) [
      | none ↦ some []
      | some (r, t) ↦ elim (parse_end t) [
        | none ↦ some []
        | some rest ↦
            let more = parse_loop fuel len max_ranges rest (add_range rs r) in
            if leb len r.start then none else if ltb r.end r.start then some [] else more
      ]
    ]
    else some rs

-- `s` behind the prefix, if it has it
unfoldable pub strip_prefix : Bytes → Bytes → Option Bytes
strip_prefix [] s = some s
strip_prefix (p ∷ ps) [] = none
strip_prefix (p ∷ ps) (c ∷ s) = let rest = strip_prefix ps s in if p == c then rest else none

-- "bytes="
abbrev pub bytes_unit : Bytes
bytes_unit = b'b' ∷ b'y' ∷ b't' ∷ b'e' ∷ b's' ∷ b'=' ∷ []

-- What stands behind the first "bytes="
unfoldable pub after_bytes : Bytes → Option Bytes
after_bytes [] = none
after_bytes (c ∷ s) =
    let rest = after_bytes s in
    elim (strip_prefix bytes_unit (c ∷ s)) [ some t ↦ some t | none ↦ rest ]

-- ParseRangeOffsets, of the header's value; the ranges are in the order of the header.
unfoldable pub parse_range_offsets : Option Bytes → ℕ → ℕ → Option (List Range)
parse_range_offsets header len max_ranges = elim header [
  | none ↦ some []
  | some s ↦ elim (after_bytes s) [
    | none ↦ some []
    | some t ↦ elim (parse_loop (length t) len max_ranges t []) [
      | none ↦ none
      | some rs ↦ some (reverse rs)
    ]
  ]
]

-- NsMatchRange; `if_range` is the time that the header of that name gives.
unfoldable pub ns_match_range : Option Bytes → Option ℕ → ℕ → Bool
ns_match_range header if_range mtime = elim header [
  | none ↦ true
  | some s ↦ elim if_range [ none ↦ true | some t ↦ if ltb t mtime then false else true ]
]

-- What a buffer points into: the text of the headers (`fd` is -1), or the entity.
pub data Source : Type 0 where
  text entity : Source

pub record FileVec : Type 0 where
  pub source : Source
  pub offset : ℕ
  pub length : ℕ

-- "\r\n"
abbrev pub crlf : Bytes
crlf = 13 ∷ 10 ∷ []

-- What the source prints around the numbers and the type.
pub record Wording : Type 0 where
  pub boundary : Bytes
  pub content_type : Bytes
  pub content_range : Bytes
  pub print : ℕ → Bytes

-- The text that AppendMultipartRangeHeader appends.
unfoldable pub range_header : Wording → Bytes → Range → ℕ → Bytes
range_header w type r len =
    (b'-' ∷ b'-' ∷ w.boundary)
    ++ crlf
    ++ w.content_type
    ++ type
    ++ crlf
    ++ w.content_range
    ++ w.print r.start
    ++ (b'-' ∷ w.print r.end)
    ++ (b'/' ∷ w.print len)
    ++ crlf
    ++ crlf

-- AppendMultipartRangeHeader, AppendMultipartRangeTrailer: the string and the number of bytes.
unfoldable pub append_header : Wording → Bytes → Bytes → Range → ℕ → Bytes × ℕ
append_header w ds type r len =
    let ds' = ds ++ range_header w type r len in (ds', length ds' - length ds)

-- The text that AppendMultipartRangeTrailer appends.
unfoldable pub trailer : Wording → Bytes
trailer w = (b'-' ∷ b'-' ∷ w.boundary) ++ (b'-' ∷ b'-' ∷ crlf)

unfoldable pub append_trailer : Wording → Bytes → Bytes × ℕ
append_trailer w ds = let ds' = ds ++ trailer w in (ds', length ds' - length ds)

-- The first loop of NsConnParseRange, and the trailer: the text, and the buffers that stand in the
-- even places.
unfoldable pub header_vecs : Wording → Bytes → ℕ → List Range → Bytes → ℕ → ℕ → Bytes × List FileVec
header_vecs w type size [] ds dsbase len =
    let (ds', n) = append_trailer w ds in
    (ds', record { source = text; offset = dsbase; length = len + n } ∷ [])
header_vecs w type size (r ∷ rs) ds dsbase len =
    let (ds', n) = append_header w ds type r size in
    let (out, vecs) = header_vecs w type size rs (ds' ++ crlf) (dsbase + (len + n)) 2 in
    (out, record { source = text; offset = dsbase; length = len + n } ∷ vecs)

-- The second loop: the buffers of the ranges between the others, and the length of them all.
unfoldable pub data_vecs : List FileVec → List Range → List FileVec × ℕ
data_vecs [] rs = ([], 0)
data_vecs (v ∷ vs) [] = (v ∷ [], v.length)
data_vecs (v ∷ vs) (r ∷ rs) =
    let (vecs, n) = data_vecs vs rs in
    let len = r.end - r.start + 1 in
    (v ∷ record { source = entity; offset = r.start; length = len } ∷ vecs, v.length + (len + n))

-- What NsConnParseRange leaves: the number of ranges, the buffers, the text and the length.
pub record Reply : Type 0 where
  pub range_count : ℕ
  pub bufs : List FileVec
  pub text : Bytes
  pub response_length : ℕ

-- NsConnParseRange, with room for `nbufs` buffers; `none` is its error.
unfoldable pub ns_conn_parse_range :
    Wording → Bytes → Option Bytes → Option ℕ → ℕ → ℕ → ℕ → Bytes → Option Reply
ns_conn_parse_range w type header if_range mtime size nbufs ds =
    let no_ranges : Reply = record { range_count = 0; bufs = []; text = ds; response_length = 0 } in
    if ns_match_range header if_range mtime
    then elim (parse_range_offsets header size (nbufs / 2 - 1)) [
      | none ↦ none
      | some [] ↦ some no_ranges
      | some (r ∷ []) ↦
          let len = r.end - r.start + 1 in
          some (record {
            range_count = 1;
            bufs = record { source = entity; offset = r.start; length = len } ∷ [];
            text = ds;
            response_length = len;
          })
      | some (r ∷ q ∷ rs) ↦
          let (ds', heads) = header_vecs w type size (r ∷ q ∷ rs) ds 0 0 in
          let (vecs, n) = data_vecs heads (r ∷ q ∷ rs) in
          some (record {
            range_count = length (r ∷ q ∷ rs);
            bufs = vecs;
            text = ds';
            response_length = n;
          })
    ]
    else some no_ranges

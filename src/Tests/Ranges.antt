-- ===== src/Tests/Ranges.antt =====
-- nsd/range.c on an entity of eight bytes.
use anansi.Common.{ℕ, ◌+◌, ◌*◌, ◌≡◌, refl, true, none, some, List, [], ◌∷◌, arith, Bytes, length}
use anansi.Range.{
  Range, Wording, Reply, parse_range, parse_last, parse_suffix, parse_end, parse_loop, add_range,
  atoll_from, skip_digits, strip_prefix, after_bytes, parse_range_offsets, ns_match_range,
  ns_conn_parse_range,
}
use anansi.Range.Offsets.{IsFine, parse_range_offsets-IsFine}
use anansi.Range.Covers.{all_ranges, covers, parse_range_offsets-covers}
use anansi.Range.Parts.{multipart, sent, ns_conn_parse_range-multipart}

-- "0-1,-2"
abbrev asked : Bytes
asked = b'0' ∷ b'-' ∷ b'1' ∷ b',' ∷ b'-' ∷ b'2' ∷ []

-- "bytes=0-1,-2"
abbrev header : Bytes
header = b'b' ∷ b'y' ∷ b't' ∷ b'e' ∷ b's' ∷ b'=' ∷ asked

abbrev front : Range
front = record { start = 0; end = 1 }

abbrev back : Range
back = record { start = 6; end = 7 }

abbrev eight : Bytes
eight = 1 ∷ 2 ∷ 3 ∷ 4 ∷ 5 ∷ 6 ∷ 7 ∷ 8 ∷ []

abbrev wording : Wording
wording = record {
  boundary = b'N' ∷ [];
  content_type = [];
  content_range = [];
  print = λ n. n ∷ [];
}

header-ranges : parse_range_offsets (some header) 8 3 ≡ some (front ∷ back ∷ [])
unfolding parse_range_offsets after_bytes strip_prefix parse_loop parse_range parse_last
    parse_suffix parse_end add_range atoll_from skip_digits
header-ranges = refl

-- Behind the end.
header-refused : parse_range_offsets (some header) 0 3 ≡ none
unfolding parse_range_offsets after_bytes strip_prefix parse_loop parse_range parse_last
    parse_suffix parse_end add_range atoll_from skip_digits
header-refused = refl

-- "2-", "3-9" and "7-7": an end that is left out or behind the entity is its last byte.
open_range : parse_range 8 (b'2' ∷ b'-' ∷ []) ≡ some (record { start = 2; end = 7 }, [])
unfolding parse_range parse_last atoll_from skip_digits
open_range = refl

long_range : parse_range 8 (b'3' ∷ b'-' ∷ b'9' ∷ []) ≡ some (record { start = 3; end = 7 }, [])
unfolding parse_range parse_last atoll_from skip_digits
long_range = refl

last_byte : parse_range 8 (b'7' ∷ b'-' ∷ b'7' ∷ []) ≡ some (record { start = 7; end = 7 }, [])
unfolding parse_range parse_last atoll_from skip_digits
last_byte = refl

-- "-3" and "-9": the last bytes, at most all of them.
suffix_range : parse_range 8 (b'-' ∷ b'3' ∷ []) ≡ some (record { start = 5; end = 7 }, [])
unfolding parse_range parse_suffix atoll_from skip_digits
suffix_range = refl

long_suffix : parse_range 8 (b'-' ∷ b'9' ∷ []) ≡ some (record { start = 0; end = 7 }, [])
unfolding parse_range parse_suffix atoll_from skip_digits
long_suffix = refl

-- "0-3,6-7,2-7": the last two are joined, and overlap the first.
joined :
    parse_loop 11 8 3
      (b'0' ∷ b'-' ∷ b'3' ∷ b',' ∷ b'6' ∷ b'-' ∷ b'7' ∷ b',' ∷ b'2' ∷ b'-' ∷ b'7' ∷ [])
      []
    ≡ some (record { start = 2; end = 7 } ∷ record { start = 0; end = 3 } ∷ [])
unfolding parse_loop parse_range parse_last parse_end add_range atoll_from skip_digits
joined = refl

parse_range_offsets-IsFine_example : IsFine 8 3 (parse_range_offsets (some header) 8 3)
parse_range_offsets-IsFine_example = parse_range_offsets-IsFine (some header) 8 3

asked-all : all_ranges 6 8 asked ≡ some (front ∷ back ∷ [])
unfolding parse_range parse_last parse_suffix parse_end atoll_from skip_digits
asked-all = refl

after-header : after_bytes header ≡ some asked
unfolding after_bytes strip_prefix
after-header = refl

parse_range_offsets-covers_example :
    (out : List Range) × (parse_range_offsets (some header) 8 3 ≡ some out)
    × ((i : ℕ) → covers i out ≡ covers i (front ∷ back ∷ []))
parse_range_offsets-covers_example =
    parse_range_offsets-covers header asked 8 3 (front ∷ back ∷ []) after-header asked-all
      (omega arith)

match-header : ns_match_range (some header) none 0 ≡ true
unfolding ns_match_range
match-header = refl

ns_conn_parse_range-multipart_example :
    (reply : Reply) × (ns_conn_parse_range wording [] (some header) none 0 8 8 [] ≡ some reply)
    × (sent reply.text eight reply.bufs ≡ multipart wording [] eight (front ∷ back ∷ []))
    × (reply.response_length ≡ length (multipart wording [] eight (front ∷ back ∷ [])))
    × (length reply.bufs ≡ reply.range_count * 2 + 1)
ns_conn_parse_range-multipart_example =
    ns_conn_parse_range-multipart wording [] (some header) none 0 eight 8 front back [] match-header
      header-ranges

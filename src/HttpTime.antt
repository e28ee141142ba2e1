-- ===== src/HttpTime.antt =====
-- nsd/httptime.c: the times of HTTP headers. `gmtime` and `timegm` are the C library's, parameters; a
-- broken-down time leaves out the day of the week, which parsing does not read.
pub mod Names
pub mod RoundTrip
use anansi.Common.{
  ℕ, zero, suc, ◌+◌, ◌-◌, ◌*◌, ◌/◌, ◌%◌, Bool, true, false, ◌&&◌, ◌||◌, Option, none, some, List,
  [], ◌∷◌, ◌++◌, ltb, leb, ◌==◌, if◌then◌else◌, Bytes, length, get_or, take, drop, str_eq, to_lower,
}
use anansi.Common.Int.{ℤ, pos, negsuc, ◌+ℤ◌, ◌-ℤ◌, ltb_ℤ, pos_part}
use anansi.Request.{cut_at}

-- The fields of `struct tm` that are read and written.
pub record Tm : Type 0 where
  pub mday : ℕ
  pub mon : ℕ
  pub year : ℕ
  pub hour : ℕ
  pub min : ℕ
  pub sec : ℕ

-- The fields as they are parsed, before their bounds are tested.
pub record Parsed : Type 0 where
  pub mday : ℤ
  pub mon : ℕ
  pub year : ℤ
  pub hour : ℤ
  pub min : ℤ
  pub sec : ℤ

abbrev pub month_names : List Bytes
month_names =
    (b'J' ∷ b'a' ∷ b'n' ∷ [])
    ∷ (b'F' ∷ b'e' ∷ b'b' ∷ [])
    ∷ (b'M' ∷ b'a' ∷ b'r' ∷ [])
    ∷ (b'A' ∷ b'p' ∷ b'r' ∷ [])
    ∷ (b'M' ∷ b'a' ∷ b'y' ∷ [])
    ∷ (b'J' ∷ b'u' ∷ b'n' ∷ [])
    ∷ (b'J' ∷ b'u' ∷ b'l' ∷ [])
    ∷ (b'A' ∷ b'u' ∷ b'g' ∷ [])
    ∷ (b'S' ∷ b'e' ∷ b'p' ∷ [])
    ∷ (b'O' ∷ b'c' ∷ b't' ∷ [])
    ∷ (b'N' ∷ b'o' ∷ b'v' ∷ [])
    ∷ (b'D' ∷ b'e' ∷ b'c' ∷ [])
    ∷ []

abbrev pub week_names : List Bytes
week_names =
    (b'S' ∷ b'u' ∷ b'n' ∷ [])
    ∷ (b'M' ∷ b'o' ∷ b'n' ∷ [])
    ∷ (b'T' ∷ b'u' ∷ b'e' ∷ [])
    ∷ (b'W' ∷ b'e' ∷ b'd' ∷ [])
    ∷ (b'T' ∷ b'h' ∷ b'u' ∷ [])
    ∷ (b'F' ∷ b'r' ∷ b'i' ∷ [])
    ∷ (b'S' ∷ b'a' ∷ b't' ∷ [])
    ∷ []

-- "%02d" of a number below 100
unfoldable pub two_digits : ℕ → Bytes
two_digits n = (b'0' + n / 10) ∷ (b'0' + n % 10) ∷ []

-- Ns_HttpTime of a broken-down time with the day of the week. The year, below 10000, has four
-- digits.
unfoldable pub format_time : ℕ → Tm → Bytes
format_time wday tm =
    let gmt = b' ' ∷ b'G' ∷ b'M' ∷ b'T' ∷ [] in
    let clock =
      two_digits tm.hour ++ b':' ∷ (two_digits tm.min ++ b':' ∷ (two_digits tm.sec ++ gmt)) in
    let year =
      two_digits ((tm.year + 1900) / 100)
      ++ (two_digits ((tm.year + 1900) % 100) ++ b' ' ∷ clock) in
    get_or week_names wday []
    ++ b',' ∷ b' ' ∷ (two_digits tm.mday ++ b' ' ∷ (get_or month_names tm.mon [] ++ b' ' ∷ year))

-- Ns_HttpTime; `none` is the NULL that it returns where `gmtime` fails.
unfoldable pub http_time : (ℤ → Option (ℕ × Tm)) → ℤ → Option Bytes
http_time gmtime t = elim (gmtime t) [ none ↦ none | some r ↦ some (format_time r.0 r.1) ]

abbrev pub is_digit : ℕ → Bool
is_digit c = leb b'0' c && leb c b'9'

-- MakeNum
unfoldable pub make_num : Bytes → ℤ
make_num s =
    let d = get_or s 0 0 in
    let e = pos (get_or s 1 0) -ℤ pos b'0' in if is_digit d then pos (10 * (d - b'0')) +ℤ e else e

abbrev pub to_upper : ℕ → ℕ
to_upper c = if leb b'a' c && leb c b'z' then c - 32 else c

-- The loop of MakeMonth from `i`, with `k` rounds left.
unfoldable pub month_from : ℕ → ℕ → Bytes → ℕ
month_from zero i s = 0
month_from (suc k) i s =
    let rest = month_from k (suc i) s in if str_eq (get_or month_names i []) s then i else rest

-- MakeMonth
unfoldable pub make_month : Bytes → ℕ
make_month s =
    month_from 12 0
      (to_upper (get_or s 0 0) ∷ to_lower (get_or s 1 0) ∷ to_lower (get_or s 2 0) ∷ [])

-- Past the blanks at the front.
unfoldable pub skip_blanks : Bytes → Bytes
skip_blanks [] = []
skip_blanks (c ∷ s) = let rest = skip_blanks s in if c == b' ' then rest else c ∷ s

-- `100 * n` and a sum with a number, as the second format computes the year.
unfoldable pub times_hundred : ℤ → ℤ
times_hundred n = elim n [ pos k ↦ pos (100 * k) | negsuc k ↦ negsuc (100 * k + 99) ]

-- The three formats: "10-Jun-93 01:29:59 GMT", "10 Jan 1993 01:29:59 GMT" and
-- "Wed Jun  9 01:29:59 1993 GMT".
unfoldable pub parse_dashed : Bytes → Option Parsed
parse_dashed s =
    if ltb (length s) 18
    then none
    else some (record {
      mday = make_num s;
      mon = make_month (drop 3 s);
      year = make_num (drop 7 s);
      hour = make_num (drop 10 s);
      min = make_num (drop 13 s);
      sec = make_num (drop 16 s);
    })

unfoldable pub parse_spaced : Bytes → Option Parsed
parse_spaced s =
    if ltb (length s) 20
    then none
    else some (record {
      mday = make_num s;
      mon = make_month (drop 3 s);
      year = (times_hundred (make_num (drop 7 s)) -ℤ pos 1900) +ℤ make_num (drop 9 s);
      hour = make_num (drop 12 s);
      min = make_num (drop 15 s);
      sec = make_num (drop 18 s);
    })

unfoldable pub parse_fixed : Bytes → Option Parsed
parse_fixed s =
    if ltb (length s) 24
    then none
    else some (record {
      mday = make_num (drop 8 s);
      mon = make_month (drop 4 s);
      year = make_num (drop 22 s);
      hour = make_num (drop 11 s);
      min = make_num (drop 14 s);
      sec = make_num (drop 17 s);
    })

-- Which format it is.
unfoldable pub parse_fields : Bytes → Option Parsed
parse_fields chars = elim (cut_at b',' chars).1 [
  | none ↦ parse_fixed (skip_blanks chars)
  | some rest ↦
      let s = skip_blanks rest in
      elim (cut_at b'-' s).1 [ none ↦ parse_spaced s | some tail ↦ parse_dashed s ]
]

abbrev pub outside : ℤ → ℕ → ℕ → Bool
outside n low high = ltb_ℤ n (pos low) || ltb_ℤ (pos high) n

-- The test for impossible values.
unfoldable pub check_fields : Parsed → Option Tm
check_fields f =
    if outside f.sec 0 59
      || (outside f.min 0 59
          || (outside f.hour 0 23
              || (outside f.mday 1 31 || (ltb 11 f.mon || outside f.year 70 120))))
    then none
    else some (record {
      mday = pos_part f.mday;
      mon = f.mon;
      year = pos_part f.year;
      hour = pos_part f.hour;
      min = pos_part f.min;
      sec = pos_part f.sec;
    })

-- Ns_ParseHttpTime
unfoldable pub parse_http_time : (Tm → ℤ) → Bytes → ℤ
parse_http_time timegm chars = elim (parse_fields chars) [
  | none ↦ pos 0
  | some f ↦ elim (check_fields f) [ none ↦ pos 0 | some tm ↦ timegm tm ]
]

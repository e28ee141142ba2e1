-- ===== src/HttpTime/RoundTrip.antt =====
-- nsd/httptime.c: a time that Ns_HttpTime writes is read back by Ns_ParseHttpTime.
use anansi.Common.{
  ℕ, ◌+◌, ◌/◌, ◌%◌, ◌≤◌, ◌<◌, ◌≡◌, refl, sym, ap, ◌∙◌, false, Option, none, some, [], ◌∷◌, ◌++◌,
  arith, ◌==◌, Bytes, get_or, drop,
}
use anansi.Common.Int.{ℤ, pos, ◌+ℤ◌, ◌-ℤ◌}
use anansi.Request.{cut_at}
use anansi.HttpTime.{
  Tm, month_names, week_names, two_digits, format_time, http_time, make_num, make_month,
  skip_blanks, times_hundred, parse_spaced, parse_fields, check_fields, parse_http_time,
}
use anansi.HttpTime.Names.{IsName, week_names-IsName, month_names-IsName, make_month-month_names}

-- The times that both functions know: those of the years 1970 to 2020.
pub record InRange (tm : Tm) : Type 0 where
  pub mday_low : 1 ≤ tm.mday
  pub mday_high : tm.mday ≤ 31
  pub mon_high : tm.mon ≤ 11
  pub year_low : 70 ≤ tm.year
  pub year_high : tm.year ≤ 120
  pub hour_high : tm.hour ≤ 23
  pub min_high : tm.min ≤ 59
  pub sec_high : tm.sec ≤ 59

make_num-two_digits : (n : ℕ) (s : Bytes) → n < 100 → make_num (two_digits n ++ s) ≡ pos n
unfolding make_num two_digits ◌+ℤ◌ ◌-ℤ◌
make_num-two_digits n s h = ground arith

-- The text of a time from its seconds, minutes, hours, years of the century and century on, that
-- behind the month, and that behind the blank after the comma with the name of a month.
abbrev gmt : Bytes
gmt = b' ' ∷ b'G' ∷ b'M' ∷ b'T' ∷ []

abbrev at_sec : Tm → Bytes
at_sec tm = two_digits tm.sec ++ gmt

abbrev at_min : Tm → Bytes
at_min tm = two_digits tm.min ++ b':' ∷ at_sec tm

abbrev at_hour : Tm → Bytes
at_hour tm = two_digits tm.hour ++ b':' ∷ at_min tm

abbrev at_years : Tm → Bytes
at_years tm = two_digits ((tm.year + 1900) % 100) ++ b' ' ∷ at_hour tm

abbrev at_century : Tm → Bytes
at_century tm = two_digits ((tm.year + 1900) / 100) ++ at_years tm

abbrev after_month : Tm → Bytes
after_month tm = b' ' ∷ at_century tm

abbrev body : Tm → Bytes → Bytes
body tm w = two_digits tm.mday ++ (b' ' ∷ w) ++ after_month tm

-- No hyphen in a text.
abbrev NoHyphen : Bytes → Type 0
NoHyphen s = (cut_at b'-' s).1 ≡ none

NoHyphen-cons : (c : ℕ) (s : Bytes) → (c == b'-') ≡ false → NoHyphen s → NoHyphen (c ∷ s)
unfolding cut_at
NoHyphen-cons c s h k = ground (arith, h, k)

NoHyphen-two_digits : (n : ℕ) (s : Bytes) → NoHyphen s → NoHyphen (two_digits n ++ s)
unfolding two_digits
NoHyphen-two_digits n s h =
    NoHyphen-cons (b'0' + n / 10) ((b'0' + n % 10) ∷ s) (ground arith)
      (NoHyphen-cons (b'0' + n % 10) s (ground arith) h)

gmt-NoHyphen : NoHyphen gmt
unfolding cut_at
gmt-NoHyphen = refl

NoHyphen-after_month : (tm : Tm) → NoHyphen (after_month tm)
NoHyphen-after_month tm =
    let secs = NoHyphen-two_digits tm.sec gmt gmt-NoHyphen in
    let mins =
      NoHyphen-two_digits tm.min (b':' ∷ at_sec tm) (NoHyphen-cons b':' (at_sec tm) refl secs) in
    let hours =
      NoHyphen-two_digits tm.hour (b':' ∷ at_min tm) (NoHyphen-cons b':' (at_min tm) refl mins) in
    let years =
      NoHyphen-two_digits ((tm.year + 1900) % 100) (b' ' ∷ at_hour tm)
        (NoHyphen-cons b' ' (at_hour tm) refl hours) in
    NoHyphen-cons b' ' (at_century tm) refl
      (NoHyphen-two_digits ((tm.year + 1900) / 100) (at_years tm) years)

NoHyphen-body : (tm : Tm) (w : Bytes) → IsName w → NoHyphen (body tm w)
unfolding two_digits
NoHyphen-body tm w n =
    let (k1, k2, k3) = n.letters in
    let rest = NoHyphen-after_month tm in
    let spelled : NoHyphen (n.fst ∷ n.snd ∷ n.trd ∷ after_month tm) =
      NoHyphen-cons n.fst (n.snd ∷ n.trd ∷ after_month tm) (ground arith) (
        NoHyphen-cons n.snd (n.trd ∷ after_month tm) (ground arith)
          (NoHyphen-cons n.trd (after_month tm) (ground arith) rest)) in
    let named : NoHyphen (w ++ after_month tm) = rw n.spelled spelled in
    NoHyphen-two_digits tm.mday (b' ' ∷ w ++ after_month tm)
      (NoHyphen-cons b' ' (w ++ after_month tm) refl named)

year_lem :
    (y : ℕ)
    → 70 ≤ y
    → (times_hundred (pos ((y + 1900) / 100)) -ℤ pos 1900) +ℤ pos ((y + 1900) % 100) ≡ pos y
unfolding times_hundred ◌+ℤ◌ ◌-ℤ◌
year_lem y h = ground arith

parse_spaced-spelled :
    (tm : Tm) (x y z : ℕ)
    → InRange tm
    → make_month (x ∷ y ∷ z ∷ after_month tm) ≡ tm.mon
    → parse_spaced (body tm (x ∷ y ∷ z ∷ []))
      ≡ some (record {
        mday = pos tm.mday;
        mon = tm.mon;
        year = pos tm.year;
        hour = pos tm.hour;
        min = pos tm.min;
        sec = pos tm.sec;
      })
unfolding parse_spaced two_digits
parse_spaced-spelled tm x y z r m =
    let num = make_num-two_digits in
    rw
      (
        num tm.mday (b' ' ∷ x ∷ y ∷ z ∷ after_month tm) (omega (arith, r.mday_high)),
        m,
        num ((tm.year + 1900) / 100) (at_years tm) (omega (arith, r.year_high)),
        num ((tm.year + 1900) % 100) (b' ' ∷ at_hour tm) (omega arith),
        num tm.hour (b':' ∷ at_min tm) (omega (arith, r.hour_high)),
        num tm.min (b':' ∷ at_sec tm) (omega (arith, r.min_high)),
        num tm.sec gmt (omega (arith, r.sec_high)),
        year_lem tm.year r.year_low,
      )
      refl

parse_spaced-body :
    (tm : Tm) (w : Bytes)
    → IsName w
    → InRange tm
    → make_month (w ++ after_month tm) ≡ tm.mon
    → parse_spaced (body tm w)
      ≡ some (record {
        mday = pos tm.mday;
        mon = tm.mon;
        year = pos tm.year;
        hour = pos tm.hour;
        min = pos tm.min;
        sec = pos tm.sec;
      })
parse_spaced-body tm w n r m = rw n.spelled (
    parse_spaced-spelled tm n.fst n.snd n.trd r
      (ap (λ v. make_month (v ++ after_month tm)) (sym n.spelled) ∙ m))

format_time-body :
    (wday : ℕ) (tm : Tm)
    → format_time wday tm
      ≡ get_or week_names wday [] ++ b',' ∷ b' ' ∷ body tm (get_or month_names tm.mon [])
unfolding format_time two_digits
format_time-body wday tm = refl

cut_at-comma : (w s : Bytes) → IsName w → (cut_at b',' (w ++ b',' ∷ s)).1 ≡ some s
unfolding cut_at
cut_at-comma w s n =
    let (k1, k2, k3) = n.letters in rw n.spelled (cut_at-letters n.fst n.snd n.trd s k1 k2 k3)
  where
    cut_at-letters :
        (x y z : ℕ) (s : Bytes)
        → b'A' ≤ x
        → b'A' ≤ y
        → b'A' ≤ z
        → (cut_at b',' (x ∷ y ∷ z ∷ b',' ∷ s)).1 ≡ some s
    cut_at-letters x y z s h k l = ground arith

skip_blanks-one : (d : ℕ) (s : Bytes) → (d == b' ') ≡ false → skip_blanks (b' ' ∷ d ∷ s) ≡ d ∷ s
unfolding skip_blanks
skip_blanks-one d s h = rw h refl

parse_fields-spaced :
    (w s : Bytes) (d : ℕ)
    → IsName w
    → (d == b' ') ≡ false
    → NoHyphen (d ∷ s)
    → parse_fields (w ++ b',' ∷ b' ' ∷ d ∷ s) ≡ parse_spaced (d ∷ s)
unfolding parse_fields
parse_fields-spaced w s d n h k =
    rw (parse_fields, cut_at-comma w (b' ' ∷ d ∷ s) n, parse_fields, skip_blanks-one d s h, k)
      (ap parse_spaced (skip_blanks-one d s h))

check_fields-InRange :
    (tm : Tm)
    → InRange tm
    → check_fields (record {
      mday = pos tm.mday;
      mon = tm.mon;
      year = pos tm.year;
      hour = pos tm.hour;
      min = pos tm.min;
      sec = pos tm.sec;
    })
      ≡ some tm
unfolding check_fields
check_fields-InRange tm r = ground (
  arith, r.mday_low, r.mday_high, r.mon_high, r.year_low, r.year_high, r.hour_high, r.min_high,
  r.sec_high,
)

parse_fields-format_time :
    (wday : ℕ) (tm : Tm)
    → wday ≤ 6
    → InRange tm
    → parse_fields (format_time wday tm)
      ≡ some (record {
        mday = pos tm.mday;
        mon = tm.mon;
        year = pos tm.year;
        hour = pos tm.hour;
        min = pos tm.min;
        sec = pos tm.sec;
      })
unfolding two_digits
parse_fields-format_time wday tm h r =
    let m = month_names-IsName tm.mon r.mon_high in
    let w = get_or month_names tm.mon [] in
    ap parse_fields (format_time-body wday tm)
    ∙ parse_fields-spaced (get_or week_names wday []) (drop 1 (body tm w)) (b'0' + tm.mday / 10)
        (week_names-IsName wday h) (ground arith) (NoHyphen-body tm w m)
    ∙ parse_spaced-body tm w m r (make_month-month_names tm.mon (after_month tm) r.mon_high)

-- A time that `gmtime` gives the day and the fields of, in the years 1970 to 2020, and that `timegm`
-- gives back: Ns_HttpTime writes it so that Ns_ParseHttpTime reads it back.
pub parse_http_time-http_time :
    (gmtime : ℤ → Option (ℕ × Tm)) (timegm : Tm → ℤ) (t : ℤ) (wday : ℕ) (tm : Tm)
    → gmtime t ≡ some (wday, tm)
    → timegm tm ≡ t
    → wday ≤ 6
    → InRange tm
    → (s : Bytes) × (http_time gmtime t ≡ some s) × (parse_http_time timegm s ≡ t)
unfolding http_time parse_http_time
parse_http_time-http_time gmtime timegm t wday tm g k h r = (
  format_time wday tm,
  rw (http_time, g) refl,
  rw
      (
        parse_http_time,
        parse_fields-format_time wday tm h r,
        parse_http_time,
        check_fields-InRange tm r,
      )
      k,
)

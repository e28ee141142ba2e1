-- ===== src/Tests/Dates.antt =====
-- nsd/httptime.c at small inputs.
use anansi.Common.{ℕ, ◌≡◌, refl, Option, some, [], ◌∷◌, arith, Bytes, str_eq, to_lower}
use anansi.Common.Int.{ℤ, pos, ◌+ℤ◌, ◌-ℤ◌}
use anansi.Request.{cut_at}
use anansi.HttpTime
use anansi.HttpTime.{
  Tm, two_digits, format_time, http_time, parse_fields, check_fields, parse_http_time,
}
use anansi.HttpTime.RoundTrip.{InRange, parse_http_time-http_time}

-- 6 November 1994, 08:49:37, a Sunday
abbrev moment : Tm
moment = record { mday = 6; mon = 10; year = 94; hour = 8; min = 49; sec = 37 }

abbrev gmtime : ℤ → Option (ℕ × Tm)
gmtime t = some (0, moment)

abbrev timegm : Tm → ℤ
timegm tm = pos 784111777

moment-InRange : InRange moment
moment-InRange = record {
  mday_low = omega arith;
  mday_high = omega arith;
  mon_high = omega arith;
  year_low = omega arith;
  year_high = omega arith;
  hour_high = omega arith;
  min_high = omega arith;
  sec_high = omega arith;
}

program : Unit {0}
unfolding two_digits format_time http_time parse_fields check_fields parse_http_time cut_at str_eq
    to_lower ◌+ℤ◌ ◌-ℤ◌ HttpTime.make_num HttpTime.make_month HttpTime.month_from
    HttpTime.skip_blanks HttpTime.times_hundred HttpTime.parse_dashed HttpTime.parse_spaced
    HttpTime.parse_fixed
program = tt

-- "Fri, 01 Jan 2021 00:00:00 GMT" is refused.
abbrev new_year : Tm
new_year = record { mday = 1; mon = 0; year = 121; hour = 0; min = 0; sec = 0 }

refused_year : parse_http_time timegm (format_time 5 new_year) ≡ pos 0
unfolding program
refused_year = refl

-- "Sun Jun  9 01:29:59 2013 GMT", of which only the last two digits of the year are read.
abbrev fixed : Bytes
fixed =
    b'S' ∷ b'u' ∷ b'n' ∷ b' ' ∷ b'J' ∷ b'u' ∷ b'n' ∷ b' ' ∷ b' ' ∷ b'9' ∷ b' ' ∷ b'0' ∷ b'1' ∷ b':'
    ∷ b'2' ∷ b'9' ∷ b':' ∷ b'5' ∷ b'9' ∷ b' ' ∷ b'2' ∷ b'0' ∷ b'1' ∷ b'3' ∷ b' ' ∷ b'G' ∷ b'M'
    ∷ b'T' ∷ []

refused_century : parse_http_time timegm fixed ≡ pos 0
unfolding program
refused_century = refl

parse_http_time-http_time_example :
    (s : Bytes) × (http_time gmtime (pos 784111777) ≡ some s)
    × (parse_http_time timegm s ≡ pos 784111777)
parse_http_time-http_time_example =
    parse_http_time-http_time gmtime timegm (pos 784111777) 0 moment refl refl (omega arith)
      moment-InRange

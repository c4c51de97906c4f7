-- ===== src/TsUtils/Rfc3339.antt =====
-- core/ts_utils.cc: `UnixMsToRfc3339Jst`, with what it uses of std::chrono and std::format: `%F` of a
-- date in the Gregorian calendar and `%T` of a time of day in milliseconds.
-- A year beyond 9999 has five digits, as `std::chrono::year` ends at 32767.
pub mod Calendar
pub mod Civil
pub mod Days
pub mod Reading
pub mod RoundTrip
use aribcap_dump.Output.{Text}
use aribcap_dump.Prelude.Int.{floor_mod, negsuc, floor_div, ◌*ℤ◌, pos, ◌*ℤ◌, ◌+ℤ◌, ℤ}
use aribcap_dump.Prelude.{
  ◌||◌, false, zero, codes, not, ◌-◌, ◌&&◌, true, [], ◌==◌, ◌++◌, ◌/◌, ◌∷◌, ltb, ◌∷◌, ◌%◌, suc, ◌*◌,
  ◌+◌, List, if◌then◌else◌, Bool, ℕ,
}

pub record Date : Type 0 where
  pub year : ℤ
  pub month : ℕ
  pub day : ℕ

unfoldable pub is_leap : ℕ → Bool
is_leap y = (y % 4 == 0) && (not (y % 100 == 0) || y % 400 == 0)

unfoldable pub days_in_year : ℕ → ℕ
unfolding is_leap
days_in_year y = if is_leap y then 366 else 365

abbrev pub months_of : Bool → List ℕ
months_of leap =
    31 ∷ (if leap then 29 else 28) ∷ 31 ∷ 30 ∷ 31 ∷ 30 ∷ 31 ∷ 31 ∷ 30 ∷ 31 ∷ 30 ∷ 31 ∷ []

-- The year, from `y` on, in which the day `r` after the first of January of `y` lies, and the days
-- before it in that year.
pub find_year : ℕ → ℕ → ℕ → ℕ × ℕ
unfolding days_in_year
find_year zero y r = (y, r)
find_year (suc fuel) y r = elim (ltb r (days_in_year y)) [
  | true ↦ (y, r)
  | false ↦ find_year fuel (y + 1) (r - days_in_year y)
]

-- The month, and the day in it, likewise.
pub find_month : List ℕ → ℕ → ℕ → ℕ × ℕ
find_month [] m r = (m, r + 1)
find_month (l ∷ ls) m r = elim (ltb r l) [
  | true ↦ (m, r + 1)
  | false ↦ find_month ls (m + 1) (r - l)
]

abbrev pub days_per_era : ℕ
days_per_era = 146097

-- The years repeat after four hundred.
abbrev pub date_in_era : ℤ → ℕ → Date
date_in_era era r =
    let y = find_year 400 0 r in
    let m = find_month (months_of (is_leap y.0)) 1 y.1 in
    record { year = era *ℤ pos 400 +ℤ pos y.0; month = m.0; day = m.1 }

-- `std::chrono::year_month_day` of the days since the epoch.
pub date_of_days : ℤ → Date
unfolding find_year find_month
date_of_days days =
    let z = days +ℤ pos 719528 in date_in_era (floor_div z days_per_era) (floor_mod z days_per_era)

abbrev pub digit : ℕ → ℕ
digit n = 48 + n % 10

abbrev pub two_digits : ℕ → Text
two_digits n = digit (n / 10) ∷ digit n ∷ []

abbrev pub three_digits : ℕ → Text
three_digits n = digit (n / 100) ∷ two_digits n

abbrev pub four_digits : ℕ → Text
four_digits n = digit (n / 1000) ∷ three_digits n

abbrev pub format_year : ℕ → Text
format_year y = if ltb y 10000 then four_digits y else digit (y / 10000) ∷ four_digits y

abbrev pub format_signed_year : ℤ → Text
format_signed_year (pos y) = format_year y
format_signed_year (negsuc y) = b'-' ∷ format_year (suc y)

-- `%F`
abbrev pub format_date : Date → Text
format_date d =
    format_signed_year d.year ++ (b'-' ∷ (two_digits d.month ++ (b'-' ∷ two_digits d.day)))

-- `%T` of the milliseconds since midnight
abbrev pub format_time : ℕ → Text
format_time ms =
    two_digits (ms / 3600000)
    ++ (b':'
        ∷ (two_digits (ms / 60000 % 60)
            ++ (b':' ∷ (two_digits (ms / 1000 % 60) ++ (b'.' ∷ three_digits (ms % 1000))))))

abbrev pub jst_offset_ms : ℕ
jst_offset_ms = 9 * 3600000

abbrev pub ms_per_day : ℕ
ms_per_day = 86400000

unfoldable pub unix_ms_to_rfc3339_jst : ℤ → Text
unfolding date_of_days ◌+ℤ◌ ◌*ℤ◌
unix_ms_to_rfc3339_jst unix_ms =
    let jst_wall_clock = unix_ms +ℤ pos jst_offset_ms in
    format_date (date_of_days (floor_div jst_wall_clock ms_per_day))
    ++ (b'T' ∷ (format_time (floor_mod jst_wall_clock ms_per_day) ++ codes "+09:00"))

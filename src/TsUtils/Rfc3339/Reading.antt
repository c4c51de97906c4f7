-- ===== src/TsUtils/Rfc3339/Reading.antt =====
-- A reader of RFC 3339 times, in any time zone, from the text of the standard: it knows nothing of the
-- printer.
use aribcap_dump.Prelude.Int.{sub_ℕ, ℤ}
use aribcap_dump.Output.{Text}
use aribcap_dump.Prelude.{
  get_or, false, [], true, zero, ◌==◌, suc, is_empty, ◌∷◌, ◌-◌, and_then, ◌&&◌, none, some,
  if◌then◌else◌, ◌/◌, ltb, leb, Option, ◌*◌, ◌+◌, Bool, ℕ,
}

-- The days of a common year before its months, and at the end those of the whole year.
abbrev pub common_days : ℕ → ℕ
common_days m =
    let starts = 0 ∷ 0 ∷ 31 ∷ 59 ∷ 90 ∷ 120 ∷ 151 ∷ 181 ∷ 212 ∷ 243 ∷ 273 ∷ 304 ∷ 334 ∷ 365 ∷ [] in
    get_or starts m 365

-- The leap days before the first of January of the year, from the year 0 on.
abbrev pub leap_days : ℕ → ℕ
leap_days y = (y + 3) / 4 + (y + 399) / 400 - (y + 99) / 100

-- The days from the first of January of the year 0. The leap day of a year comes before March.
abbrev pub civil_days : ℕ → ℕ → ℕ → ℕ
civil_days y m d = y * 365 + leap_days (if leb m 2 then y else y + 1) + common_days m + d - 1

abbrev pub unix_epoch_ms : ℕ
unix_epoch_ms = civil_days 1970 1 1 * 86400000

unfoldable pub digit_value : ℕ → Option ℕ
digit_value c = if leb 48 c && leb c 57 then some (c - 48) else none

-- A number of so many digits, after the digits read so far, and the rest of the text.
unfoldable pub digits : ℕ → ℕ → Text → Option (ℕ × Text)
unfolding digit_value
digits zero acc t = some (acc, t)
digits (suc n) acc [] = none
digits (suc n) acc (c ∷ cs) = and_then (digit_value c) (λ k. digits n (acc * 10 + k) cs)

abbrev pub expect : ℕ → Text → Option Text
expect c [] = none
expect c (d ∷ ds) = if c == d then some ds else none

-- `+` or `-`: whether local time is ahead of UTC.
abbrev pub sign : Text → Option (Bool × Text)
sign [] = none
sign (c ∷ cs) = if c == b'+' then some (true, cs) else if c == b'-' then some (false, cs) else none

abbrev pub is_date : ℕ → ℕ → ℕ → Bool
is_date y m d =
    (leb 1 m && leb m 12) && (leb 1 d && ltb (civil_days y m d) (civil_days y (m + 1) 1))

abbrev pub is_time : ℕ → ℕ → ℕ → Bool
is_time h m s = ltb h 24 && (ltb m 60 && ltb s 60)

-- The milliseconds of a local time since the start of the year 0.
abbrev pub local_ms : ℕ → ℕ → ℕ → ℕ → ℕ
local_ms days h m ms = days * 86400000 + h * 3600000 + m * 60000 + ms

abbrev pub from_epoch : Bool → ℕ → ℕ → ℤ
from_epoch ahead local offset =
    if ahead then sub_ℕ local (unix_epoch_ms + offset) else sub_ℕ (local + offset) unix_epoch_ms

-- `hh:mm` of the offset, and nothing behind it.
unfoldable pub read_offset : ℕ → Text → Option ℤ
unfolding digits
read_offset local t = and_then (sign t) λ ahead. and_then (digits 2 0 ahead.1) λ h.
    and_then (expect b':' h.1) λ t. and_then (digits 2 0 t) λ m.
      if is_empty m.1 && is_time h.0 m.0 0
      then some (from_epoch ahead.0 local (h.0 * 3600000 + m.0 * 60000))
      else none

-- `hh:mm:ss.SSS` and the offset
unfoldable pub read_time : ℕ → Text → Option ℤ
unfolding digits read_offset
read_time days t = and_then (digits 2 0 t) λ h. and_then (expect b':' h.1) λ t.
    and_then (digits 2 0 t) λ m. and_then (expect b':' m.1) λ t. and_then (digits 2 0 t) λ s.
      and_then (expect b'.' s.1) λ t. and_then (digits 3 0 t) λ ms.
        if is_time h.0 m.0 s.0
        then read_offset (local_ms days h.0 m.0 (s.0 * 1000 + ms.0)) ms.1
        else none

-- The Unix milliseconds of `YYYY-MM-DDThh:mm:ss.SSS±hh:mm`, of a date that exists.
unfoldable pub read_rfc3339 : Text → Option ℤ
unfolding digits read_time
read_rfc3339 t = and_then (digits 4 0 t) λ y. and_then (expect b'-' y.1) λ t.
    and_then (digits 2 0 t) λ m. and_then (expect b'-' m.1) λ t. and_then (digits 2 0 t) λ d.
      and_then (expect b'T' d.1)
        λ t. if is_date y.0 m.0 d.0 then read_time (civil_days y.0 m.0 d.0) t else none

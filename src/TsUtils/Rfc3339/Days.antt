-- ===== src/TsUtils/Rfc3339/Days.antt =====
-- The date of a time within the first ten thousand years, as the reader counts its days.
use aribcap_dump.TsUtils.Rfc3339.Civil.{civil_days_lem}
use aribcap_dump.TsUtils.Rfc3339.{
  days_in_year, is_leap, ms_per_day, days_per_era, months_of, date_in_era, find_month, find_year,
}
use aribcap_dump.TsUtils.Rfc3339.Reading.{is_date, civil_days}
use aribcap_dump.TsUtils.Rfc3339.Calendar.{
  days_before_year-era, is_leap-era, days_before_month, months_of-AllAtMost, sum-months_of,
  find_month_lem, days_in_era, find_year_lem, days_before_year,
}
use aribcap_dump.Prelude.Int.{
  negsuc, int_laws, floor_mod, floor_div, pos, ◌*ℤ◌, pos_part, neg_part, ◌+ℤ◌, ℤ,
}
use aribcap_dump.Prelude.{
  subst, sym, leb, ◌&&◌, ◌∙◌, Bool, ltb, ◌-◌, true, ap, arith, ◌%◌, ◌≤◌, ◌+◌, ◌<◌, ◌≡◌, ◌/◌, ◌*◌, ℕ,
  refl,
}

-- The days from the first of January of the year 0 to the epoch.
abbrev pub epoch_days : ℕ
epoch_days = 719528

-- The milliseconds from the start of the year 0, nine hours ahead of UTC, to the epoch.
abbrev pub epoch_ms : ℕ
epoch_ms = epoch_days * 86400000 + 32400000

-- The years from 0 to 9999 have 25 times 146097 days.
abbrev pub last_days : ℕ
last_days = 25 * 146097

-- A time whose year, nine hours ahead of UTC, has at most four digits.
pub record HasFourDigitYear (ms : ℤ) : Type 0 where
  pub after : neg_part ms ≤ epoch_ms
  pub before : epoch_ms + pos_part ms < last_days * 86400000 + neg_part ms

-- `w` is the time in JST, and `z` the same counted from the year 0.
pub wall_days :
    (w : ℤ) (z : ℕ)
    → pos_part w + epoch_days * ms_per_day ≡ z + neg_part w
    → floor_div w ms_per_day +ℤ pos epoch_days ≡ pos (z / ms_per_day)
wall_days (pos n) z h = omega int_laws
wall_days (negsuc n) z h = omega int_laws

pub wall_time :
    (w : ℤ) (z : ℕ)
    → pos_part w + epoch_days * ms_per_day ≡ z + neg_part w
    → floor_mod w ms_per_day ≡ z % ms_per_day
wall_time (pos n) z h = omega arith
wall_time (negsuc n) z h = omega arith

abbrev pub year_in_era : ℕ → ℕ × ℕ
year_in_era z = find_year 400 0 (z % days_per_era)

abbrev pub month_of : ℕ → ℕ × ℕ
month_of z = let q = year_in_era z in find_month (months_of (is_leap q.0)) 1 q.1

abbrev pub year_of : ℕ → ℕ
year_of z = z / days_per_era * 400 + (year_in_era z).0

pos-era : (e y : ℕ) → pos e *ℤ pos 400 +ℤ pos y ≡ pos (e * 400 + y)
unfolding ◌+ℤ◌ ◌*ℤ◌
pos-era e y = ground arith

pub date_in_era_lem :
    (z : ℕ)
    → date_in_era (pos (z / days_per_era)) (z % days_per_era)
      ≡ record { year = pos (year_of z); month = (month_of z).0; day = (month_of z).1 }
date_in_era_lem z =
    ap (λ y. record { year = y; month = (month_of z).0; day = (month_of z).1 })
      (pos-era (z / days_per_era) (year_in_era z).0)

-- The date of a day leads back to the day, exists, and its parts have the digits that are printed.
start : days_before_year 0 ≡ 0
unfolding days_before_year
start = refl

is_date-true :
    (y m d : ℕ)
    → 0 < m
    → m ≤ 12
    → 0 < d
    → civil_days y m d < civil_days y (m + 1) 1
    → is_date y m d ≡ true
is_date-true y m d a b c e =
    all_true (leb 1 m) (leb m 12) (leb 1 d) (ltb (civil_days y m d) (civil_days y (m + 1) 1))
      (ground arith) (ground arith) (ground arith) (ltb-true (civil_days y m d) _ e)
  where
    ltb-true : (a b : ℕ) → a < b → ltb a b ≡ true
    ltb-true a b h = ground (arith, h)

    all_true :
        (p q r s : Bool) → p ≡ true → q ≡ true → r ≡ true → s ≡ true → ((p && q) && (r && s)) ≡ true
    all_true p q r s h k l m = ground (arith, h, k, l, m)

pub days_lem :
    (z : ℕ)
    → z < last_days
    → (civil_days (year_of z) (month_of z).0 (month_of z).1 ≡ z)
      × (year_of z < 10000)
      × (is_date (year_of z) (month_of z).0 (month_of z).1 ≡ true)
      × ((month_of z).0 < 100)
      × ((month_of z).1 < 100)
days_lem z h =
    let e = z / days_per_era in
    let q = year_in_era z in
    let m = month_of z in
    let year : (days_before_year q.0 + q.1 ≡ z % days_per_era)
        × (q.1 < days_in_year q.0)
        × (q.0 < 400) =
      let found = find_year_lem 400 0 (z % days_per_era) (omega (arith, days_in_era, start)) in
      (omega (arith, found.0, start), found.1, omega (arith, found.2)) in
    let month =
      find_month_lem (months_of (is_leap q.0)) 1 q.1 (omega (arith, year.1, sum-months_of q.0))
        (months_of-AllAtMost (is_leap q.0)) in
    let y = e * 400 + q.0 in
    let k = m.0 - 1 in
    let leap : (n : ℕ)
        → days_before_month (months_of (is_leap y)) n
          ≡ days_before_month (months_of (is_leap q.0)) n =
      λ n. ap (λ b. days_before_month (months_of b) n) (is_leap-era e q.0) in
    let here : k + 1 ≡ m.0 = omega (arith, month.2) in
    let day : civil_days y m.0 m.1 ≡ z =
      ap (λ n. civil_days y n m.1) (sym here)
      ∙ omega (
        arith,
        civil_days_lem y k m.1 (omega (arith, month.3)) month.1,
        days_before_year-era e q.0,
        leap k,
        month.0,
        month.1,
        year.0,
      ) in
    let next : civil_days y m.0 m.1 < civil_days y (m.0 + 1) 1 =
      subst (λ n. civil_days y n m.1 < civil_days y (n + 1) 1) here
        (omega (
          arith,
          civil_days_lem y k m.1 (omega (arith, month.3)) month.1,
          civil_days_lem y (k + 1) 1 (omega (arith, month.3)) (omega arith),
          leap k,
          leap (k + 1),
          month.5,
        )) in
    (
      day,
      omega (arith, year.2),
      is_date-true y m.0 m.1 month.2 (omega (arith, month.3)) month.1 next,
      omega (arith, month.3),
      omega (arith, month.4),
    )

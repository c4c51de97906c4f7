-- ===== src/TsUtils/Rfc3339/Calendar.antt =====
-- The Gregorian calendar, by counting: the days before a year, and before a month of it.
use native.Mathlib.Numerals.{add-one}
use native.Mathlib.Nat.{zero-add}
use aribcap_dump.TsUtils.Rfc3339.{
  days_per_era, is_leap, months_of, find_month, find_year, days_in_year,
}
use aribcap_dump.Prelude.{
  false, true, Bool, sym, subst, dec_lt, ◌%◌, ◌∙◌, ap, length, ◌≤◌, [], zero, ◌-◌, ◌≡◌, arith, suc,
  ◌*◌, ◌+◌, ◌<◌, ◌∷◌, List, ℕ, refl,
}

-- The days from the first of January of the year 0 to that of year `y`.
unfoldable pub days_before_year : ℕ → ℕ
days_before_year zero = 0
days_before_year (suc y) = days_before_year y + days_in_year y

abbrev pub days_before_month : List ℕ → ℕ → ℕ
days_before_month ls zero = 0
days_before_month [] (suc m) = 0
days_before_month (l ∷ ls) (suc m) = l + days_before_month ls m

abbrev pub sum : List ℕ → ℕ
sum [] = 0
sum (l ∷ ls) = l + sum ls

days_in_year_pos : (y : ℕ) → 0 < days_in_year y
unfolding days_in_year
days_in_year_pos y = ground arith

pub sum-months_of : (y : ℕ) → sum (months_of (is_leap y)) ≡ days_in_year y
unfolding days_in_year
sum-months_of y = ground arith

next : (y : ℕ) → days_before_year (y + 1) ≡ days_before_year y + days_in_year y
unfolding days_before_year
next y = rw add-one refl

find_year-here : (fuel y r : ℕ) → r < days_in_year y → find_year (suc fuel) y r ≡ (y, r)
unfolding find_year
find_year-here fuel y r l = ground arith

find_year-later :
    (fuel y r : ℕ)
    → ¬ (r < days_in_year y)
    → find_year (suc fuel) y r ≡ find_year fuel (y + 1) (r - days_in_year y)
unfolding find_year
find_year-later fuel y r n = ground arith

find_month-here : (l : ℕ) (ls : List ℕ) (m r : ℕ) → r < l → find_month (l ∷ ls) m r ≡ (m, r + 1)
unfolding find_month
find_month-here l ls m r h = ground arith

find_month-later :
    (l : ℕ) (ls : List ℕ) (m r : ℕ)
    → ¬ (r < l)
    → find_month (l ∷ ls) m r ≡ find_month ls (m + 1) (r - l)
unfolding find_month
find_month-later l ls m r h = ground arith

-- With enough rounds, the year that is found holds the day.
pub find_year_lem :
    (fuel y r : ℕ)
    → days_before_year y + r < days_before_year (fuel + y)
    → let q = find_year fuel y r in
      (days_before_year q.0 + q.1 ≡ days_before_year y + r)
      × (q.1 < days_in_year q.0)
      × (q.0 < fuel + y)
unfolding find_year days_before_year
find_year_lem zero y r h = absurd (omega (arith, ap days_before_year (zero-add y)))
find_year_lem (suc fuel) y r h =
    let around : days_before_year (fuel + (y + 1)) ≡ days_before_year (suc fuel + y) =
      ap (λ n. days_before_year n) {x = fuel + (y + 1)} {y = suc fuel + y} (omega arith) in
    let later : days_before_year (y + 1) + (r - days_in_year y) < days_before_year (fuel + (y + 1))
        → days_in_year y ≤ r
        → let q = find_year fuel (y + 1) (r - days_in_year y) in
          (days_before_year q.0 + q.1 ≡ days_before_year y + r)
          × (q.1 < days_in_year q.0)
          × (q.0 < suc fuel + y) =
      λ k l.
        let ih = find_year_lem fuel (y + 1) (r - days_in_year y) k in
        (omega (arith, ih.0, next y), ih.1, omega (arith, ih.2)) in
    let P : ℕ × ℕ → Type 0 = λ q.
      (days_before_year q.0 + q.1 ≡ days_before_year y + r)
      × (q.1 < days_in_year q.0)
      × (q.0 < suc fuel + y) in
    elim (dec_lt r (days_in_year y)) [
      | yes l ↦ subst P (sym (find_year-here fuel y r l)) (refl, l, omega arith)
      | no n ↦
          subst P (sym (find_year-later fuel y r n))
            (later (omega (arith, next y, around)) (omega arith))
    ]

abbrev pub AllAtMost : ℕ → List ℕ → Type 0
AllAtMost n [] = Unit {0}
AllAtMost n (l ∷ ls) = (l ≤ n) × AllAtMost n ls

pub months_of-AllAtMost : (leap : Bool) → AllAtMost 31 (months_of leap)
months_of-AllAtMost true = omega arith
months_of-AllAtMost false = omega arith

nothing : (ls : List ℕ) → days_before_month ls 0 ≡ 0
nothing [] = refl
nothing (l ∷ ls) = refl

-- The day lies in the month that is found, of a year of which it is a day.
pub find_month_lem :
    (ls : List ℕ) (m r : ℕ)
    → r < sum ls
    → AllAtMost 31 ls
    → let q = find_month ls m r in
      (days_before_month ls (q.0 - m) + q.1 ≡ r + 1)
      × (0 < q.1)
      × (m ≤ q.0)
      × (q.0 < m + length ls)
      × (q.1 ≤ 31)
      × (days_before_month ls (q.0 - m) + q.1 ≤ days_before_month ls (q.0 - m + 1))
unfolding find_month
find_month_lem [] m r h b = elim h [ ]
find_month_lem (l ∷ ls) m r h b =
    let P : ℕ × ℕ → Type 0 = λ q.
      (days_before_month (l ∷ ls) (q.0 - m) + q.1 ≡ r + 1)
      × (0 < q.1)
      × (m ≤ q.0)
      × (q.0 < m + suc (length ls))
      × (q.1 ≤ 31)
      × (days_before_month (l ∷ ls) (q.0 - m) + q.1 ≤ days_before_month (l ∷ ls) (q.0 - m + 1)) in
    elim (dec_lt r l) [
      | yes k ↦ subst P (sym (find_month-here l ls m r k)) (
        ap (λ n. days_before_month (l ∷ ls) n + (r + 1)) {x = m - m} {y = 0} (omega arith)
            ∙ omega arith,
        omega arith,
        omega arith,
        omega arith,
        omega (arith, b.0),
        subst (λ n. days_before_month (l ∷ ls) n + (r + 1) ≤ days_before_month (l ∷ ls) (n + 1))
            {x = 0} {y = m - m} (omega arith) (omega (arith, k, nothing ls)),
      )
      | no n ↦ subst P (sym (find_month-later l ls m r n)) (
          let ih = find_month_lem ls (m + 1) (r - l) (omega arith) b.1 in
          let q = find_month ls (m + 1) (r - l) in
          let e : days_before_month (l ∷ ls) (q.0 - m) ≡ l + days_before_month ls (q.0 - (m + 1)) =
            ap (λ k. days_before_month (l ∷ ls) k) {x = q.0 - m} {y = suc (q.0 - (m + 1))}
              (omega (arith, ih.2)) in
          let f : days_before_month (l ∷ ls) (q.0 - m + 1)
              ≡ l + days_before_month ls (q.0 - (m + 1) + 1) =
            ap (λ k. days_before_month (l ∷ ls) k) {x = q.0 - m + 1} {y = suc (q.0 - (m + 1) + 1)}
              (omega (arith, ih.2)) in
          (
            omega (arith, e, ih.0),
            ih.1,
            omega (arith, ih.2),
            omega (arith, ih.3),
            ih.4,
            omega (arith, e, f, ih.5),
          ))
    ]

days_in_year-add : (y : ℕ) → days_in_year (400 + y) ≡ days_in_year y
unfolding days_in_year is_leap
days_in_year-add y =
    let four : (400 + y) % 4 ≡ y % 4 = omega arith in
    let hundred : (400 + y) % 100 ≡ y % 100 = omega arith in
    let all : (400 + y) % 400 ≡ y % 400 = omega arith in rw (four, hundred, all) refl

pub days_in_era : days_before_year 400 ≡ days_per_era
unfolding days_before_year days_in_year
days_in_era = refl

-- The calendar repeats after four hundred years.
days_before_year-add : (y : ℕ) → days_before_year (400 + y) ≡ days_per_era + days_before_year y
unfolding days_before_year
days_before_year-add zero = days_in_era
days_before_year-add (suc y) =
    let e : 400 + suc y ≡ suc (400 + y) = omega arith in
    ap (λ n. days_before_year n) e ∙ omega (arith, days_before_year-add y, days_in_year-add y)

pub days_before_year-era :
    (era y : ℕ) → days_before_year (era * 400 + y) ≡ era * days_per_era + days_before_year y
days_before_year-era zero y =
    ap (λ n. days_before_year n) {x = zero * 400 + y} {y = y} (omega arith) ∙ omega arith
days_before_year-era (suc era) y =
    ap (λ n. days_before_year n) {x = suc era * 400 + y} {y = 400 + (era * 400 + y)} (omega arith)
    ∙ days_before_year-add (era * 400 + y)
    ∙ omega (arith, days_before_year-era era y)

pub is_leap-era : (era y : ℕ) → is_leap (era * 400 + y) ≡ is_leap y
unfolding is_leap
is_leap-era era y =
    let four : (era * 400 + y) % 4 ≡ y % 4 = omega arith in
    let hundred : (era * 400 + y) % 100 ≡ y % 100 = omega arith in
    let all : (era * 400 + y) % 400 ≡ y % 400 = omega arith in rw (four, hundred, all) refl

-- ===== src/TsUtils/Rfc3339/Civil.antt =====
-- The reader's count of days and the one of the calendar.
use aribcap_dump.TsUtils.Rfc3339.Reading.{civil_days, common_days, leap_days}
use aribcap_dump.TsUtils.Rfc3339.Calendar.{days_before_month, days_before_year}
use aribcap_dump.TsUtils.Rfc3339.{months_of, days_in_year, is_leap}
use aribcap_dump.Prelude.{
  false, true, zero, leb, ◌<◌, arith, suc, if◌then◌else◌, ◌*◌, ◌+◌, ◌≡◌, ℕ, Bool, refl,
}

leap_days_next : (y : ℕ) → leap_days (y + 1) ≡ leap_days y + (if is_leap y then 1 else 0)
unfolding is_leap
leap_days_next y = ground arith

days_before_year-leap_days : (y : ℕ) → days_before_year y ≡ y * 365 + leap_days y
unfolding days_before_year days_in_year
days_before_year-leap_days zero = refl
days_before_year-leap_days (suc y) = ground (arith, leap_days_next y, days_before_year-leap_days y)

-- `n` leap days before the year, and `n'` before the next one.
common_days_lem :
    (leap : Bool) (k n n' : ℕ)
    → n' ≡ n + (if leap then 1 else 0)
    → k < 13
    → (if leb (k + 1) 2 then n else n') + common_days (k + 1)
      ≡ n + days_before_month (months_of leap) k
common_days_lem leap zero n n' e h = ground (arith, e)
common_days_lem leap (suc zero) n n' e h = ground (arith, e)
common_days_lem leap (suc (suc zero)) n n' e h = ground (arith, e)
common_days_lem leap (suc (suc (suc zero))) n n' e h = ground (arith, e)
common_days_lem leap (suc (suc (suc (suc zero)))) n n' e h = ground (arith, e)
common_days_lem leap (suc (suc (suc (suc (suc zero))))) n n' e h = ground (arith, e)
common_days_lem leap (suc (suc (suc (suc (suc (suc zero)))))) n n' e h = ground (arith, e)
common_days_lem leap (suc (suc (suc (suc (suc (suc (suc zero))))))) n n' e h = ground (arith, e)
common_days_lem leap (suc (suc (suc (suc (suc (suc (suc (suc zero)))))))) n n' e h =
    ground (arith, e)
common_days_lem leap (suc (suc (suc (suc (suc (suc (suc (suc (suc zero))))))))) n n' e h =
    ground (arith, e)
common_days_lem leap (suc (suc (suc (suc (suc (suc (suc (suc (suc (suc zero)))))))))) n n' e h =
    ground (arith, e)
common_days_lem leap (suc (suc (suc (suc (suc (suc (suc (suc (suc (suc (suc zero))))))))))) n n' e
      h =
    ground (arith, e)
common_days_lem leap (suc (suc (suc (suc (suc (suc (suc (suc (suc (suc (suc (suc zero)))))))))))) n
      n' e h =
    ground (arith, e)
common_days_lem leap (suc (suc (suc (suc (suc (suc (suc (suc (suc (suc (suc (suc (suc k)))))))))))))
      n n' e h =
    absurd (omega arith)

leap_days_if :
    (b : Bool) (y : ℕ)
    → leap_days (if b then y else y + 1) ≡ (if b then leap_days y else leap_days (y + 1))
leap_days_if true y = refl
leap_days_if false y = refl

-- The days of a date, for its month `k + 1`.
pub civil_days_lem :
    (y k d : ℕ)
    → k < 13
    → 0 < d
    → civil_days y (k + 1) d + 1
      ≡ days_before_year y + days_before_month (months_of (is_leap y)) k + d
civil_days_lem y k d h p = omega (
  arith,
  days_before_year-leap_days y,
  common_days_lem (is_leap y) k (leap_days y) (leap_days (y + 1)) (leap_days_next y) h,
  leap_days_if (leb (k + 1) 2) y,
)

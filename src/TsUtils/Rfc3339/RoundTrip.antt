-- ===== src/TsUtils/Rfc3339/RoundTrip.antt =====
-- The printed times, and the reader of RFC 3339.
use aribcap_dump.TsUtils.Rfc3339.Days.{
  month_of, year_of, wall_time, date_in_era_lem, wall_days, days_lem, epoch_days, HasFourDigitYear,
  epoch_ms,
}
use aribcap_dump.Output.{Text}
use aribcap_dump.TsUtils.Rfc3339.{
  jst_offset_ms, date_of_days, unix_ms_to_rfc3339_jst, format_year, ms_per_day, format_date,
  format_time, three_digits, two_digits, four_digits, days_per_era, digit, date_in_era,
}
use aribcap_dump.TsUtils.Rfc3339.Reading.{
  local_ms, is_time, read_offset, from_epoch, is_date, civil_days, read_rfc3339, read_time, digits,
  digit_value,
}
use aribcap_dump.Prelude.Int.{
  +ℤ_parts, negsuc, sub_ℕ, floor_mod, floor_div, pos, pos_part, neg_part, ◌+ℤ◌, ℤ,
}
use aribcap_dump.Prelude.{
  ap₂, suc, ◌∙◌, codes, ◌∷◌, ◌-◌, ◌++◌, true, ap, arith, some, ◌%◌, ◌≤◌, ◌+◌, ◌<◌, ◌≡◌, ◌/◌, ◌*◌, ℕ,
  refl,
}

abbrev text_of : ℕ → ℕ → ℕ → ℕ → Text
text_of y m d t =
    (four_digits y ++ (b'-' ∷ (two_digits m ++ (b'-' ∷ two_digits d))))
    ++ (b'T' ∷ (format_time t ++ codes "+09:00"))

digit_value-digit : (n : ℕ) → digit_value (digit n) ≡ some (n % 10)
unfolding digit_value
digit_value-digit n = ground arith

digits-two_digits :
    (n : ℕ) (rest : Text) → n < 100 → digits 2 0 (two_digits n ++ rest) ≡ some (n, rest)
unfolding digits
digits-two_digits n rest h =
    rw (digit_value-digit (n / 10), digit_value-digit n) (ap (λ k. some (k, rest)) (omega arith))

digits-three_digits :
    (n : ℕ) (rest : Text) → n < 1000 → digits 3 0 (three_digits n ++ rest) ≡ some (n, rest)
unfolding digits
digits-three_digits n rest h =
    rw (digit_value-digit (n / 100), digit_value-digit (n / 10), digit_value-digit n)
      (ap (λ k. some (k, rest)) (omega arith))

digits-four_digits :
    (n : ℕ) (rest : Text) → n < 10000 → digits 4 0 (four_digits n ++ rest) ≡ some (n, rest)
unfolding digits
digits-four_digits n rest h =
    rw
      (
        digit_value-digit (n / 1000),
        digit_value-digit (n / 100),
        digit_value-digit (n / 10),
        digit_value-digit n,
      )
      (ap (λ k. some (k, rest)) (omega arith))

read_offset-jst :
    (local : ℕ) → read_offset local (codes "+09:00") ≡ some (from_epoch true local 32400000)
unfolding read_offset digits digit_value
read_offset-jst local = refl

is_time-true : (h m s : ℕ) → h < 24 → m < 60 → s < 60 → is_time h m s ≡ true
is_time-true h m s a b c = ground arith

read_time-format_time :
    (days t : ℕ)
    → t < 86400000
    → read_time days (format_time t ++ codes "+09:00")
      ≡ some (from_epoch true (days * 86400000 + t) 32400000)
unfolding read_time
read_time-format_time days t l =
    let h = t / 3600000 in
    let m = t / 60000 % 60 in
    let s = t / 1000 % 60 in
    let ms = t % 1000 in
    let zone = codes "+09:00" in
    let after_s = b'.' ∷ (three_digits ms ++ zone) in
    let after_m = b':' ∷ (two_digits s ++ after_s) in
    let after_h = b':' ∷ (two_digits m ++ after_m) in
    rw
      (
        digits-two_digits h after_h (omega arith),
        digits-two_digits m after_m (omega arith),
        digits-two_digits s after_s (omega arith),
        digits-three_digits ms zone (omega arith),
        is_time-true h m s (omega arith) (omega arith) (omega arith),
        read_offset-jst (local_ms days h m (s * 1000 + ms)),
      )
      (ap (λ n. some (from_epoch true n 32400000)) (omega arith))

read_rfc3339-text_of :
    (y m d t : ℕ)
    → y < 10000
    → m < 100
    → d < 100
    → is_date y m d ≡ true
    → t < 86400000
    → read_rfc3339 (text_of y m d t) ≡ some (sub_ℕ (civil_days y m d * 86400000 + t) epoch_ms)
unfolding read_rfc3339
read_rfc3339-text_of y m d t hy hm hd e ht =
    let time = format_time t ++ codes "+09:00" in
    let after_d = b'T' ∷ time in
    let after_m = b'-' ∷ (two_digits d ++ after_d) in
    let after_y = b'-' ∷ (two_digits m ++ after_m) in
    rw
      (
        digits-four_digits y after_y hy,
        digits-two_digits m after_m hm,
        digits-two_digits d after_d hd,
        e,
      )
      (read_time-format_time (civil_days y m d) t ht)

format_date-text_of :
    (y m d t : ℕ)
    → y < 10000
    → format_date (record { year = pos y; month = m; day = d })
        ++ (b'T' ∷ (format_time t ++ codes "+09:00"))
      ≡ text_of y m d t
format_date-text_of y m d t h =
    let e : format_year y ≡ four_digits y = ground arith in
    ap
      (λ s.
        (s ++ (b'-' ∷ (two_digits m ++ (b'-' ∷ two_digits d))))
        ++ (b'T' ∷ (format_time t ++ codes "+09:00")))
      e

whole : (z : ℕ) → z / ms_per_day * ms_per_day + z % ms_per_day ≡ z
whole z = omega arith

back :
    (ms : ℤ)
    → neg_part ms ≤ epoch_ms
    → let z = epoch_ms + pos_part ms - neg_part ms in
      sub_ℕ (z / ms_per_day * ms_per_day + z % ms_per_day) epoch_ms ≡ ms
back (pos n) h = ap (λ k. sub_ℕ k epoch_ms) (whole (epoch_ms + n - 0)) ∙ ground arith
back (negsuc n) h = ap (λ k. sub_ℕ k epoch_ms) (whole (epoch_ms + 0 - suc n)) ∙ ground arith

-- A time whose year, nine hours ahead of UTC, has at most four digits is printed as a text that a reader
-- of RFC 3339 takes for that time: its separators and its offset stand where they should, its date
-- exists, and its fields and its offset name the time.
pub read_rfc3339-unix_ms_to_rfc3339_jst :
    (ms : ℤ) → HasFourDigitYear ms → read_rfc3339 (unix_ms_to_rfc3339_jst ms) ≡ some ms
unfolding unix_ms_to_rfc3339_jst date_of_days
read_rfc3339-unix_ms_to_rfc3339_jst ms h =
    let z = epoch_ms + pos_part ms - neg_part ms in
    let w = ms +ℤ pos jst_offset_ms in
    let at : pos_part w + epoch_days * ms_per_day ≡ z + neg_part w =
      omega (arith, h.after, +ℤ_parts ms (pos jst_offset_ms)) in
    let D = z / ms_per_day in
    let day = days_lem D (omega (arith, h.after, h.before)) in
    ap₂ (λ a b. read_rfc3339 (format_date a ++ (b'T' ∷ (format_time b ++ codes "+09:00"))))
      (ap (λ k. date_in_era (floor_div k days_per_era) (floor_mod k days_per_era))
          (wall_days w z at)
        ∙ date_in_era_lem D)
      (wall_time w z at)
    ∙ ap read_rfc3339
        (format_date-text_of (year_of D) (month_of D).0 (month_of D).1 (z % ms_per_day) day.1)
    ∙ read_rfc3339-text_of (year_of D) (month_of D).0 (month_of D).1 (z % ms_per_day) day.1 day.3
        day.4 day.2 (omega arith)
    ∙ ap (λ n. some (sub_ℕ (n * ms_per_day + z % ms_per_day) epoch_ms)) day.0
    ∙ ap some (back ms h.after)

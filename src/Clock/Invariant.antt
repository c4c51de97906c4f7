-- ===== src/Clock/Invariant.antt =====
-- What holds of a `ProgramClock` between two calls, whatever the calls are.
use aribcap_dump.Clock.{
  handle_suspect_pcr_discontinuity, adopt_new_pcr_series, suspect_pcr_confirm_count, ReferencePoint,
  Tot, update_reference_point_from_tot, record_pcr, set_pcr_pid, new_clock, TsPacket, ProgramClock,
  Timing,
}
use aribcap_dump.Prelude.{false, is_none, ◌<◌, true, [], ◌≤◌, ◌∷◌, some, arith, List, ◌≡◌, ℕ}

-- A recorded PCR is in range; it, and a reference point, stand only for a known PCR PID, and fewer
-- suspect PCRs are held than confirm a discontinuity.
pub record IsValid (t : Timing) (c : ProgramClock) : Type 0 where
  pub last_in_range : (p : ℕ) → c.last_pcr_90k ≡ some p → p ≤ t.max_pts_dts
  pub reference_in_range :
      (r : ReferencePoint) → c.reference_point ≡ some r → r.pcr_90k ≤ t.max_pts_dts
  pub anchored : is_none c.last_pcr_90k ≡ true → is_none c.reference_point ≡ true
  pub unnamed : is_none c.pcr_pid ≡ true → is_none c.last_pcr_90k ≡ true
  pub unconfirmed : c.suspect_pcr_count < suspect_pcr_confirm_count
  pub suspected : is_none c.last_pcr_90k ≡ true → c.suspect_pcr_count ≡ 0

-- The calls that change a clock.
pub data Call : Type 0 where
  sets_pcr_pid : ℕ → Call
  records : TsPacket → Call
  updates : Tot → Call

pub update_invalid :
    (c : ProgramClock) (tot : Tot)
    → tot.is_valid ≡ false
    → update_reference_point_from_tot c tot ≡ c
unfolding update_reference_point_from_tot
update_invalid c tot h = ground (arith, h)

module _ (t : Timing) where
  unfoldable pub step : ProgramClock → Call → ProgramClock
  step c (sets_pcr_pid pid) = set_pcr_pid t c pid
  step c (records packet) = (record_pcr t c packet).0
  step c (updates tot) = update_reference_point_from_tot c tot

  unfoldable pub run : ProgramClock → List Call → ProgramClock
  run c [] = c
  run c (x ∷ xs) = run (step c x) xs

  pub new_clock-IsValid : IsValid t new_clock
  new_clock-IsValid = grind arith

  set_pcr_pid-IsValid : (c : ProgramClock) (pid : ℕ) → IsValid t c → IsValid t (set_pcr_pid t c pid)
  unfolding set_pcr_pid
  set_pcr_pid-IsValid c pid v = grind arith

  pub record_pcr-IsValid :
      (c : ProgramClock) (packet : TsPacket) → IsValid t c → IsValid t (record_pcr t c packet).0
  unfolding record_pcr adopt_new_pcr_series handle_suspect_pcr_discontinuity
  record_pcr-IsValid c packet v = grind (arith, t.max_pcr-le)

  update-IsValid :
      (c : ProgramClock) (tot : Tot)
      → IsValid t c
      → IsValid t (update_reference_point_from_tot c tot)
  unfolding update_reference_point_from_tot
  update-IsValid c tot v = grind arith

  pub step-IsValid : (c : ProgramClock) (x : Call) → IsValid t c → IsValid t (step c x)
  unfolding step
  step-IsValid c (sets_pcr_pid pid) v = set_pcr_pid-IsValid c pid v
  step-IsValid c (records packet) v = record_pcr-IsValid c packet v
  step-IsValid c (updates tot) v = update-IsValid c tot v

  pub run-IsValid_from : (c : ProgramClock) (xs : List Call) → IsValid t c → IsValid t (run c xs)
  unfolding run
  run-IsValid_from c [] v = v
  run-IsValid_from c (x ∷ xs) v = run-IsValid_from (step c x) xs (step-IsValid c x v)

  -- After any calls, in any order and with any packets and tables, a clock is valid: the PCRs that
  -- it holds are in range, so that `WrapAwareDelta90k` and the conversion may use them; a reference
  -- point stands only beside a last PCR, and that only for a known PCR PID; and at most one suspect
  -- PCR is pending.
  pub run-IsValid : (xs : List Call) → IsValid t (run new_clock xs)
  run-IsValid xs = run-IsValid_from new_clock xs new_clock-IsValid

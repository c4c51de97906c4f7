-- ===== src/Clock/Bounds.antt =====
-- The widths of the numbers in `PtsToUnixMs`.
use aribcap_dump.Clock.Invariant.{IsValid}
use aribcap_dump.Clock.Delta.{wrap_aware_delta_90k_lem}
use aribcap_dump.Clock.Invariant.{run-IsValid, run, step}
use aribcap_dump.TsUtils.{jst_time_to_unix_ms}
use aribcap_dump.Clock.{
  wrap_aware_delta_90k, div_trunc, pts_to_unix_ms, new_clock, TsPacket,
  handle_suspect_pcr_discontinuity, Tot, adopt_new_pcr_series, update_reference_point_from_tot,
  record_pcr, set_pcr_pid, ReferencePoint, Timing, ProgramClock,
}
use aribcap_dump.Prelude.Int.{◌+ℤ◌, ◌+ℤ◌, pos, ◌*ℤ◌, neg_part, pos_part, ℤ}
use aribcap_dump.Clock.Invariant.{step, Call, updates, records, sets_pcr_pid}
use aribcap_dump.Prelude.{
  sym, subst, refl, none, Option, arith, some, ◌≤◌, ◌^◌, [], ℕ, ◌≡◌, ◌<◌, ◌∷◌, List,
}

-- An `std::int64_t` holds the number.
abbrev pub FitsInt64 : ℤ → Type 0
FitsInt64 z = (pos_part z < 2 ^ 63) × (neg_part z ≤ 2 ^ 63)

-- A time from the Unix epoch on, in a quarter of the range.
abbrev pub IsTimely : ℤ → Type 0
IsTimely ms = (neg_part ms ≡ 0) × (pos_part ms ≤ 2 ^ 62)

-- The calls in which a TOT, if its time is used, has such a time.
abbrev pub IsTimelyCall : Call → Type 0
IsTimelyCall (sets_pcr_pid pid) = Unit {0}
IsTimelyCall (records packet) = Unit {0}
IsTimelyCall (updates tot) = (ms : ℤ) → jst_time_to_unix_ms tot.utc_time ≡ some ms → IsTimely ms

abbrev pub AllTimely : List Call → Type 0
AllTimely [] = Unit {0}
AllTimely (x ∷ xs) = IsTimelyCall x × AllTimely xs

-- The reference point of a clock has such a time.
pub record HasTimely (c : ProgramClock) : Type 0 where
  pub reference : (r : ReferencePoint) → c.reference_point ≡ some r → IsTimely r.unix_ms

module _ (t : Timing) where
  set_pcr_pid-HasTimely :
      (c : ProgramClock) (pid : ℕ) → HasTimely c → HasTimely (set_pcr_pid t c pid)
  unfolding set_pcr_pid
  set_pcr_pid-HasTimely c pid v = grind arith

  record_pcr-HasTimely :
      (c : ProgramClock) (packet : TsPacket) → HasTimely c → HasTimely (record_pcr t c packet).0
  unfolding record_pcr adopt_new_pcr_series handle_suspect_pcr_discontinuity
  record_pcr-HasTimely c packet v = grind arith

  update-HasTimely :
      (c : ProgramClock) (tot : Tot)
      → IsTimelyCall (updates tot)
      → HasTimely c
      → HasTimely (update_reference_point_from_tot c tot)
  unfolding update_reference_point_from_tot
  update-HasTimely c tot h v = grind arith

  pub step-HasTimely :
      (c : ProgramClock) (x : Call) → IsTimelyCall x → HasTimely c → HasTimely (step t c x)
  unfolding step
  step-HasTimely c (sets_pcr_pid pid) h v = set_pcr_pid-HasTimely c pid v
  step-HasTimely c (records packet) h v = record_pcr-HasTimely c packet v
  step-HasTimely c (updates tot) h v = update-HasTimely c tot h v

  run-HasTimely :
      (c : ProgramClock) (xs : List Call) → AllTimely xs → HasTimely c → HasTimely (run t c xs)
  unfolding run
  run-HasTimely c [] h v = v
  run-HasTimely c (x ∷ xs) (h, k) v = run-HasTimely (step t c x) xs k (step-HasTimely c x h v)

  pub new_clock-HasTimely : HasTimely new_clock
  new_clock-HasTimely = grind arith

  product-FitsInt64 :
      (d : ℤ) → pos_part d ≤ 2 ^ 32 → neg_part d ≤ 2 ^ 32 → FitsInt64 (d *ℤ pos 1000)
  unfolding ◌*ℤ◌
  product-FitsInt64 d h k = ground arith

  sum-FitsInt64 :
      (ms d : ℤ)
      → IsTimely ms
      → pos_part d ≤ 2 ^ 32
      → neg_part d ≤ 2 ^ 32
      → FitsInt64 (ms +ℤ div_trunc (d *ℤ pos 1000) 90000)
  unfolding ◌*ℤ◌ ◌+ℤ◌
  sum-FitsInt64 ms d l h k = ground arith

  converted :
      (c : ProgramClock) (pts : ℕ) (ms : ℤ)
      → pts_to_unix_ms t c pts ≡ some ms
      → (pts ≤ t.max_pts_dts)
        × (r : ReferencePoint) × (c.reference_point ≡ some r)
        × (ms ≡ r.unix_ms +ℤ div_trunc (wrap_aware_delta_90k t r.pcr_90k pts *ℤ pos 1000) 90000)
  unfolding pts_to_unix_ms
  converted c pts ms e = of_reference c.reference_point refl
    where
      of_reference :
          (o : Option ReferencePoint)
          → c.reference_point ≡ o
          → (pts ≤ t.max_pts_dts)
            × (r : ReferencePoint) × (c.reference_point ≡ some r)
            × (ms ≡ r.unix_ms +ℤ div_trunc (wrap_aware_delta_90k t r.pcr_90k pts *ℤ pos 1000) 90000)
      of_reference none l = ground (arith, e, l)
      of_reference (some r) l = (ground (arith, e, l), r, l, ground (arith, e, l))

  pub pts_to_unix_ms-FitsInt64 :
      (c : ProgramClock) (pts : ℕ) (ms : ℤ)
      → IsValid t c
      → HasTimely c
      → pts_to_unix_ms t c pts ≡ some ms
      → (r : ReferencePoint) × (c.reference_point ≡ some r)
        × FitsInt64 (wrap_aware_delta_90k t r.pcr_90k pts *ℤ pos 1000)
        × FitsInt64 ms
  pts_to_unix_ms-FitsInt64 c pts ms v h e =
      let (l, r, k, q) = converted c pts ms e in
      let d = wrap_aware_delta_90k t r.pcr_90k pts in
      let (_, a, b) = wrap_aware_delta_90k_lem t r.pcr_90k pts (v.reference_in_range r k) l in
      (
        r,
        k,
        product-FitsInt64 d a b,
        subst FitsInt64 (sym q) (sum-FitsInt64 r.unix_ms d (h.reference r k) a b),
      )

  -- After any calls whose TOTs give times from the Unix epoch on, in a quarter of the range of an
  -- `std::int64_t`, a PTS that is converted has a reference point, and neither the product of the
  -- difference and 1000 nor the time that results leaves that range.
  pub run-FitsInt64 :
      (xs : List Call) (pts : ℕ) (ms : ℤ)
      → AllTimely xs
      → pts_to_unix_ms t (run t new_clock xs) pts ≡ some ms
      → (r : ReferencePoint) × ((run t new_clock xs).reference_point ≡ some r)
        × FitsInt64 (wrap_aware_delta_90k t r.pcr_90k pts *ℤ pos 1000)
        × FitsInt64 ms
  run-FitsInt64 xs pts ms h e =
      pts_to_unix_ms-FitsInt64 (run t new_clock xs) pts ms (run-IsValid t xs)
        (run-HasTimely new_clock xs h new_clock-HasTimely) e

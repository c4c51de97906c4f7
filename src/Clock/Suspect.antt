-- ===== src/Clock/Suspect.antt =====
-- Suspect PCRs and discontinuities.
use aribcap_dump.Output.{PcrDiscontinuity}
use aribcap_dump.Clock.Delta.{is_sane_pcr_delta_iff}
use aribcap_dump.Clock.Invariant.{updates, records, sets_pcr_pid, run, step, Call, IsValid}
use aribcap_dump.Clock.{
  adopt_new_pcr_series, set_pcr_pid, wrap_aware_delta_90k, is_sane_pcr_delta,
  handle_suspect_pcr_discontinuity, pts_to_unix_ms, compare_pcr, record_pcr, ProgramClock, TsPacket,
  Timing,
}
use aribcap_dump.Prelude.{
  [], ◌∷◌, List, Bool-cases, inr, inl, ◌⊎◌, ap, ◌∙◌, none, ◌^◌, ◌%◌, false, ◌+◌, ◌≢◌, ◌≤◌, arith,
  true, some, ◌/◌, ◌≡◌, ℕ, refl,
}

-- A packet with a usable, unflagged PCR on the clock's PCR PID.
abbrev pub CarriesPcr : Timing → ProgramClock → TsPacket → Type 0
CarriesPcr t c p =
    (c.pcr_pid ≡ some p.pid)
    × (p.has_pcr ≡ true)
    × (p.pcr ≤ t.max_pcr)
    × (p.pcr ≢ t.invalid_pcr)
    × (p.discontinuity_indicator ≡ false)

abbrev ticks : TsPacket → ℕ
ticks p = p.pcr / 300

-- The calls other than those that bring a TOT.
abbrev pub IsTotless : Call → Type 0
IsTotless (sets_pcr_pid pid) = Unit {0}
IsTotless (records packet) = Unit {0}
IsTotless (updates tot) = ⊥

abbrev pub AllTotless : List Call → Type 0
AllTotless [] = Unit {0}
AllTotless (x ∷ xs) = IsTotless x × AllTotless xs

module _ (t : Timing) where
  -- A PCR is compared with the last accepted one.
  record_pcr-compare :
      (c : ProgramClock) (p : TsPacket)
      → CarriesPcr t c p
      → record_pcr t c p ≡ compare_pcr t c c.last_pcr_90k (ticks p)
  unfolding record_pcr
  record_pcr-compare c p k = ground arith

  ticks-le : (p : TsPacket) → p.pcr ≤ t.max_pcr → ticks p ≤ t.max_pts_dts
  ticks-le p h = omega (arith, t.max_pcr-le)

  -- A PCR at most a second after the last accepted one is accepted without a report, clears what is
  -- suspect, and leaves the reference point.
  pub record_pcr_sane :
      (c : ProgramClock) (p : TsPacket) (last k : ℕ)
      → IsValid t c
      → CarriesPcr t c p
      → c.last_pcr_90k ≡ some last
      → k ≤ 90000
      → (last + k) % 2 ^ 33 ≡ ticks p
      → record_pcr t c p ≡ (record c { last_pcr_90k = some (ticks p); suspect_pcr_count = 0 }, none)
  record_pcr_sane c p last k v q l b e =
      let in_range = v.last_in_range last l in
      let sane = (is_sane_pcr_delta_iff t last (ticks p) in_range (ticks-le p q.2)).1 (k, b, e) in
      record_pcr-compare c p q
      ∙ ap (λ o. compare_pcr t c o (ticks p)) l
      ∙ (unfold compare_pcr in rw sane)

  -- A PCR that is not within that second is handed on as suspect.
  record_pcr-suspect :
      (c : ProgramClock) (p : TsPacket) (last : ℕ)
      → last ≤ t.max_pts_dts
      → CarriesPcr t c p
      → c.last_pcr_90k ≡ some last
      → ((k : ℕ) → k ≤ 90000 → (last + k) % 2 ^ 33 ≢ ticks p)
      → record_pcr t c p ≡ handle_suspect_pcr_discontinuity c (ticks p)
  record_pcr-suspect c p last v q l n =
      record_pcr-compare c p q
      ∙ ap (λ o. compare_pcr t c o (ticks p)) l
      ∙ anomalous (Bool-cases (is_sane_pcr_delta (wrap_aware_delta_90k t last (ticks p))))
    where
      anomalous :
          (is_sane_pcr_delta (wrap_aware_delta_90k t last (ticks p)) ≡ true)
            ⊎ (is_sane_pcr_delta (wrap_aware_delta_90k t last (ticks p)) ≡ false)
          → compare_pcr t c (some last) (ticks p) ≡ handle_suspect_pcr_discontinuity c (ticks p)
      anomalous (inl h) =
          let (k, b, e) = (is_sane_pcr_delta_iff t last (ticks p) v (ticks-le p q.2)).0 h in
          absurd (n k b e)
      anomalous (inr h) = unfold compare_pcr in rw h

  handle_suspect_first :
      (c : ProgramClock) (pcr : ℕ)
      → c.suspect_pcr_count ≡ 0
      → handle_suspect_pcr_discontinuity c pcr ≡ (record c { suspect_pcr_count = 1 }, none)
  unfolding handle_suspect_pcr_discontinuity
  handle_suspect_first c pcr z = ground arith

  -- Two PCRs in a row that are not within a second after the last accepted one: the first is not
  -- reported, and no PTS is converted while it is pending; the second is reported as an inferred
  -- discontinuity, starts a new series of PCRs, and drops the reference point.
  pub record_pcr_twice :
      (c : ProgramClock) (p q : TsPacket) (last pts : ℕ)
      → IsValid t c
      → CarriesPcr t c p
      → CarriesPcr t c q
      → c.last_pcr_90k ≡ some last
      → c.suspect_pcr_count ≡ 0
      → ((k : ℕ) → k ≤ 90000 → (last + k) % 2 ^ 33 ≢ ticks p)
      → ((k : ℕ) → k ≤ 90000 → (last + k) % 2 ^ 33 ≢ ticks q)
      → let (d, first) = record_pcr t c p in
        let (e, second) = record_pcr t d q in
        (first ≡ none)
        × (pts_to_unix_ms t d pts ≡ none)
        × (second ≡ some (record { pid = p.pid % 2 ^ 16; flagged = false }))
        × (e.last_pcr_90k ≡ some (ticks q))
        × (e.reference_point ≡ none)
        × (e.suspect_pcr_count ≡ 0)
  unfolding handle_suspect_pcr_discontinuity pts_to_unix_ms
  record_pcr_twice c p q last pts v kp kq l z np nq =
      let in_range = v.last_in_range last l in
      let d = record c { suspect_pcr_count = 1 } in
      let first : record_pcr t c p ≡ (d, none) =
        record_pcr-suspect c p last in_range kp l np ∙ handle_suspect_first c (ticks p) z in
      let second = record_pcr-suspect d q last in_range kq l nq in
      rw (first, second)
        (refl, ground arith, ground arith, ground arith, ground arith, ground arith)

  pub step_totless :
      (c : ProgramClock) (x : Call)
      → IsTotless x
      → c.reference_point ≡ none
      → (step t c x).reference_point ≡ none
  unfolding step set_pcr_pid record_pcr adopt_new_pcr_series handle_suspect_pcr_discontinuity
  step_totless c (sets_pcr_pid pid) h e = ground arith
  step_totless c (records packet) h e = ground arith
  step_totless c (updates tot) h e = elim h [ ]

  run_totless :
      (c : ProgramClock) (xs : List Call)
      → AllTotless xs
      → c.reference_point ≡ none
      → (run t c xs).reference_point ≡ none
  unfolding run
  run_totless c [] h e = e
  run_totless c (x ∷ xs) h e = run_totless (step t c x) xs h.1 (step_totless c x h.0 e)

  pub record_pcr_drops :
      (c : ProgramClock) (p : TsPacket) (r : PcrDiscontinuity)
      → (record_pcr t c p).1 ≡ some r
      → (record_pcr t c p).0.reference_point ≡ none
  unfolding record_pcr adopt_new_pcr_series handle_suspect_pcr_discontinuity
  record_pcr_drops c p r h = ground arith

  pub pts_to_unix_ms-none :
      (c : ProgramClock) (pts : ℕ) → c.reference_point ≡ none → pts_to_unix_ms t c pts ≡ none
  unfolding pts_to_unix_ms
  pts_to_unix_ms-none c pts e = rw e

  -- Once a packet has been reported as a discontinuity, flagged or inferred, no PTS is converted
  -- until a TOT comes: not after any packets and any changes of the PCR PID.
  pub record_pcr_discontinuity :
      (c : ProgramClock) (p : TsPacket) (r : PcrDiscontinuity) (xs : List Call) (pts : ℕ)
      → (record_pcr t c p).1 ≡ some r
      → AllTotless xs
      → pts_to_unix_ms t (run t (record_pcr t c p).0 xs) pts ≡ none
  record_pcr_discontinuity c p r xs pts h a =
      pts_to_unix_ms-none (run t (record_pcr t c p).0 xs) pts
        (run_totless (record_pcr t c p).0 xs a (record_pcr_drops c p r h))

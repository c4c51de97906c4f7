-- ===== src/Clock/Tests.antt =====
-- The clock with the numbers of MPEG-2 systems, after tests/program_clock_test.cc, and its theorems
-- at such runs.
use aribcap_dump.Clock.Bounds.{run-FitsInt64, FitsInt64, AllTimely}
use aribcap_dump.Clock.Steady.{done, passing, pts_to_unix_ms-Steady, follows, record_all, Steady}
use aribcap_dump.TsUtils.{jst_time_to_unix_ms}
use aribcap_dump.Clock.Convert.{pts_to_unix_ms_before, pts_to_unix_ms_after, pts_to_unix_ms_after}
use aribcap_dump.Clock.Suspect.{record_pcr_discontinuity, record_pcr_twice}
use aribcap_dump.Prelude.Int.{◌*ℤ◌, sub_ℕ, ◌+ℤ◌, pos}
use aribcap_dump.Clock.Invariant.{
  step, updates, run-IsValid, sets_pcr_pid, records, Call, IsValid, run,
}
use aribcap_dump.Clock.{
  ReferencePoint, set_pcr_pid, update_reference_point_from_tot, discontinuity, wrap_aware_delta_90k,
  new_clock, Tot, pts_to_unix_ms, TsPacket, record_pcr, ProgramClock, Timing,
}
use aribcap_dump.Prelude.{
  inl, subst, arith, [], ◌/◌, ◌%◌, ◌+◌, ◌∷◌, none, false, ◌*◌, ◌≡◌, some, true, ◌-◌, ◌^◌, List, ℕ,
  refl,
}

abbrev mpeg : Timing
mpeg = record {
  pid_null = 0x1FFF;
  invalid_pcr = 2 ^ 64 - 1;
  max_pcr = 2 ^ 33 * 300 - 1;
  max_pts_dts = 2 ^ 33 - 1;
  diff_pts = λ a b. (b + 2 ^ 33 - a) % 2 ^ 33;
  max_pts_dts_eq = omega arith;
  max_pcr-le = omega arith;
  diff_pts-le = λ a b h k. omega arith;
  diff_pts-add = λ a b h k. omega arith;
}

abbrev packet_at : ℕ → TsPacket
packet_at pcr_90k = record {
  pid = 256;
  has_valid_sync = true;
  has_pcr = true;
  pcr = pcr_90k * 300;
  discontinuity_indicator = false;
}

abbrev tot_at : ℕ → Tot
tot_at ms = record {
  is_valid = true;
  utc_time = record {
    is_epoch = false;
    jst_to_utc = record { before_unix_epoch = false; since_unix_epoch = pos ms };
  };
}

-- The PCR stands 100 ticks before the wrap, at the time 5000.
abbrev calls : List Call
calls = sets_pcr_pid 256 ∷ records (packet_at (2 ^ 33 - 100)) ∷ updates (tot_at 5000) ∷ []

abbrev locked : ProgramClock
locked = record {
  pcr_pid = some 256;
  last_pcr_90k = some (2 ^ 33 - 100);
  reference_point = some (record { pcr_90k = 2 ^ 33 - 100; unix_ms = pos 5000 });
  suspect_pcr_count = 0;
}

run-calls : run mpeg new_clock calls ≡ locked
unfolding run step update_reference_point_from_tot jst_time_to_unix_ms record_pcr set_pcr_pid
run-calls = refl

locked-IsValid : IsValid mpeg locked
locked-IsValid = subst (IsValid mpeg) run-calls (run-IsValid mpeg calls)

run-IsValid_example : IsValid mpeg (run mpeg new_clock calls)
run-IsValid_example = run-IsValid mpeg calls

record_pcr_twice_example :
    let (d, first) = record_pcr mpeg locked (packet_at 4000000) in
    let (e, second) = record_pcr mpeg d (packet_at 4001000) in
    (first ≡ none)
    × (pts_to_unix_ms mpeg d 33 ≡ none)
    × (second ≡ some (record { pid = 256 % 2 ^ 16; flagged = false }))
    × (e.last_pcr_90k ≡ some (4001000 * 300 / 300))
    × (e.reference_point ≡ none)
    × (e.suspect_pcr_count ≡ 0)
record_pcr_twice_example =
    record_pcr_twice mpeg locked (packet_at 4000000) (packet_at 4001000) (2 ^ 33 - 100) 33
      locked-IsValid (refl, refl, omega arith, omega arith, refl)
      (refl, refl, omega arith, omega arith, refl) refl refl (λ k h. omega arith)
      (λ k h. omega arith)

abbrev flagged : TsPacket
flagged = record (packet_at 77) { discontinuity_indicator = true }

flagged_reported : (record_pcr mpeg locked flagged).1 ≡ some (record { pid = 256; flagged = true })
unfolding record_pcr discontinuity
flagged_reported = refl

record_pcr_discontinuity_example :
    pts_to_unix_ms mpeg
      (run mpeg (record_pcr mpeg locked flagged).0 (records (packet_at 80) ∷ sets_pcr_pid 300 ∷ []))
      90
    ≡ none
record_pcr_discontinuity_example =
    record_pcr_discontinuity mpeg locked flagged _ (records (packet_at 80) ∷ sets_pcr_pid 300 ∷ [])
      90 flagged_reported (tt, (tt, tt))

pts_to_unix_ms_after_example : pts_to_unix_ms mpeg locked 900 ≡ some (pos 5000 +ℤ pos (1000 / 90))
pts_to_unix_ms_after_example =
    pts_to_unix_ms_after mpeg locked _ 900 1000 locked-IsValid refl refl (omega arith) (omega arith)
      refl

pts_to_unix_ms_before_example :
    pts_to_unix_ms mpeg locked 8589930000 ≡ some (pos 5000 +ℤ sub_ℕ 0 (4492 / 90))
pts_to_unix_ms_before_example =
    pts_to_unix_ms_before mpeg locked _ 8589930000 4492 locked-IsValid refl refl (omega arith)
      (omega arith) refl

-- A PCR of the PID, a packet of another PID, and a PCR after the wrap.
abbrev steady_packets : List TsPacket
steady_packets = packet_at (2 ^ 33 - 40) ∷ record (packet_at 7) { pid = 257 } ∷ packet_at 8 ∷ []

steady_packets-Steady : Steady mpeg 256 (8 * 300 / 300) (2 ^ 33 - 100) steady_packets
steady_packets-Steady =
    follows (packet_at (2 ^ 33 - 40)) 60 refl refl (omega arith) (omega arith) refl (omega arith)
      refl
      (passing (record (packet_at 7) { pid = 257 }) (inl (omega arith))
        (follows (packet_at 8) 48 refl refl (omega arith) (omega arith) refl (omega arith) refl
          done))

pts_to_unix_ms-Steady_example :
    let r = record_all mpeg locked steady_packets in
    (r.1 ≡ [])
    × (r.0.last_pcr_90k ≡ some (8 * 300 / 300))
    × ((pts : ℕ) → pts_to_unix_ms mpeg r.0 pts ≡ pts_to_unix_ms mpeg locked pts)
pts_to_unix_ms-Steady_example =
    pts_to_unix_ms-Steady mpeg steady_packets-Steady locked locked-IsValid refl refl refl

calls-AllTimely : AllTimely calls
unfolding jst_time_to_unix_ms
calls-AllTimely = (tt, (tt, ((λ ms e. ground (arith, e)), tt)))

converted_900 : pts_to_unix_ms mpeg (run mpeg new_clock calls) 900 ≡ some (pos 5011)
unfolding ◌+ℤ◌ ◌*ℤ◌ pts_to_unix_ms wrap_aware_delta_90k
converted_900 = rw run-calls refl

run-FitsInt64_example :
    (r : ReferencePoint) × ((run mpeg new_clock calls).reference_point ≡ some r)
    × FitsInt64 (wrap_aware_delta_90k mpeg r.pcr_90k 900 *ℤ pos 1000)
    × FitsInt64 (pos 5011)
run-FitsInt64_example = run-FitsInt64 mpeg calls 900 (pos 5011) calls-AllTimely converted_900

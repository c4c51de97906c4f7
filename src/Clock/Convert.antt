-- ===== src/Clock/Convert.antt =====
-- `PtsToUnixMs` with a reference point.
use aribcap_dump.Prelude.Int.{ℤ, ◌*ℤ◌, sub_ℕ, pos, ◌+ℤ◌}
use aribcap_dump.Clock.Invariant.{IsValid}
use aribcap_dump.Clock.{
  div_trunc, wrap_aware_delta_90k, pts_to_unix_ms, ReferencePoint, ProgramClock, Timing,
}
use aribcap_dump.Prelude.{ap, arith, ◌∙◌, ◌/◌, ◌%◌, ◌+◌, ◌^◌, ◌<◌, ◌≤◌, some, ◌≡◌, ℕ}

offset_pos : (k : ℕ) → div_trunc (pos k *ℤ pos 1000) 90000 ≡ pos (k / 90)
unfolding ◌*ℤ◌
offset_pos k = ground arith

offset_neg : (k : ℕ) → div_trunc (sub_ℕ 0 k *ℤ pos 1000) 90000 ≡ sub_ℕ 0 (k / 90)
unfolding ◌*ℤ◌
offset_neg k = ground arith

module _ (t : Timing) where
  module _ (from to k : ℕ) (lf : from ≤ t.max_pts_dts) (lt : to ≤ t.max_pts_dts)
      (h : k < 2 ^ 32) where
    delta_forward : (from + k) % 2 ^ 33 ≡ to → wrap_aware_delta_90k t from to ≡ pos k
    unfolding wrap_aware_delta_90k
    delta_forward e = ground (
      arith,
      t.max_pts_dts_eq,
      t.diff_pts-le from to lf lt,
      t.diff_pts-le to from lt lf,
      t.diff_pts-add from to lf lt,
      t.diff_pts-add to from lt lf,
    )

    delta_backward : (to + k) % 2 ^ 33 ≡ from → wrap_aware_delta_90k t from to ≡ sub_ℕ 0 k
    unfolding wrap_aware_delta_90k
    delta_backward e = ground (
      arith,
      t.max_pts_dts_eq,
      t.diff_pts-le from to lf lt,
      t.diff_pts-le to from lt lf,
      t.diff_pts-add from to lf lt,
      t.diff_pts-add to from lt lf,
    )

  pts_to_unix_ms-convert :
      (c : ProgramClock) (r : ReferencePoint) (pts : ℕ) (d : ℤ)
      → c.reference_point ≡ some r
      → c.suspect_pcr_count ≡ 0
      → pts ≤ t.max_pts_dts
      → wrap_aware_delta_90k t r.pcr_90k pts ≡ d
      → pts_to_unix_ms t c pts ≡ some (r.unix_ms +ℤ div_trunc (d *ℤ pos 1000) 90000)
  unfolding pts_to_unix_ms
  pts_to_unix_ms-convert c r pts d e z l w = ground arith

  -- On a valid clock with a reference point and no suspect PCR, a PTS in range that comes `k` ticks
  -- after the reference point, round the wrap and by less than half of it, is converted to the
  -- reference point's time plus the whole milliseconds in `k` ticks.
  pub pts_to_unix_ms_after :
      (c : ProgramClock) (r : ReferencePoint) (pts k : ℕ)
      → IsValid t c
      → c.reference_point ≡ some r
      → c.suspect_pcr_count ≡ 0
      → pts ≤ t.max_pts_dts
      → k < 2 ^ 32
      → (r.pcr_90k + k) % 2 ^ 33 ≡ pts
      → pts_to_unix_ms t c pts ≡ some (r.unix_ms +ℤ pos (k / 90))
  pts_to_unix_ms_after c r pts k v e z l h q =
      pts_to_unix_ms-convert c r pts (pos k) e z l
        (delta_forward r.pcr_90k pts k (v.reference_in_range r e) l h q)
      ∙ ap (λ d. some (r.unix_ms +ℤ d)) (offset_pos k)

  -- On a valid clock with a reference point and no suspect PCR, a PTS in range that comes `k` ticks
  -- before the reference point, round the wrap and by less than half of it, is converted to the
  -- reference point's time less the whole milliseconds in `k` ticks.
  pub pts_to_unix_ms_before :
      (c : ProgramClock) (r : ReferencePoint) (pts k : ℕ)
      → IsValid t c
      → c.reference_point ≡ some r
      → c.suspect_pcr_count ≡ 0
      → pts ≤ t.max_pts_dts
      → k < 2 ^ 32
      → (pts + k) % 2 ^ 33 ≡ r.pcr_90k
      → pts_to_unix_ms t c pts ≡ some (r.unix_ms +ℤ sub_ℕ 0 (k / 90))
  pts_to_unix_ms_before c r pts k v e z l h q =
      pts_to_unix_ms-convert c r pts (sub_ℕ 0 k) e z l
        (delta_backward r.pcr_90k pts k (v.reference_in_range r e) l h q)
      ∙ ap (λ d. some (r.unix_ms +ℤ d)) (offset_neg k)

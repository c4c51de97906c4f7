-- ===== src/Clock/Delta.antt =====
-- `WrapAwareDelta90k` and `IsSanePcrDelta`: the nearer way round the wrap at 2^33.
use aribcap_dump.Prelude.Int.{neg_part, pos_part, ℤ}
use aribcap_dump.Clock.{is_sane_pcr_delta, wrap_aware_delta_90k, Timing}
use aribcap_dump.Prelude.{◌↔◌, arith, true, ◌≡◌, ◌^◌, ◌%◌, ◌+◌, ◌≤◌, ℕ}

-- `delta` ticks after `from` comes `to`, round the wrap.
abbrev pub Leads : ℕ → ℤ → ℕ → Type 0
Leads from delta to = (from + pos_part delta) % 2 ^ 33 ≡ (to + neg_part delta) % 2 ^ 33

module _ (t : Timing) (from to : ℕ) (lf : from ≤ t.max_pts_dts) (lt : to ≤ t.max_pts_dts) where
  -- For ticks in range, the difference leads from the first to the second round the wrap, and is
  -- the shorter way: at most half a wrap in either direction.
  pub wrap_aware_delta_90k_lem :
      Leads from (wrap_aware_delta_90k t from to) to
      × (pos_part (wrap_aware_delta_90k t from to) ≤ 2 ^ 32)
      × (neg_part (wrap_aware_delta_90k t from to) ≤ 2 ^ 32)
  unfolding wrap_aware_delta_90k
  wrap_aware_delta_90k_lem = ground (
    arith,
    t.max_pts_dts_eq,
    t.diff_pts-le from to lf lt,
    t.diff_pts-le to from lt lf,
    t.diff_pts-add from to lf lt,
    t.diff_pts-add to from lt lf,
  )

  -- For ticks in range, a difference is sane exactly if the second PCR comes at most a second after
  -- the first one, round the wrap.
  pub is_sane_pcr_delta_iff :
      (is_sane_pcr_delta (wrap_aware_delta_90k t from to) ≡ true)
      ↔ ((k : ℕ) × (k ≤ 90000) × ((from + k) % 2 ^ 33 ≡ to))
  unfolding wrap_aware_delta_90k is_sane_pcr_delta
  is_sane_pcr_delta_iff = (
    λ h. (
      t.diff_pts from to,
      ground (
        arith,
        t.max_pts_dts_eq,
        t.diff_pts-le from to lf lt,
        t.diff_pts-le to from lt lf,
        t.diff_pts-add from to lf lt,
        t.diff_pts-add to from lt lf,
      ),
      t.diff_pts-add from to lf lt,
    ),
    λ k. ground (
      arith,
      t.max_pts_dts_eq,
      t.diff_pts-le from to lf lt,
      t.diff_pts-le to from lt lf,
      t.diff_pts-add from to lf lt,
      t.diff_pts-add to from lt lf,
    ),
  )

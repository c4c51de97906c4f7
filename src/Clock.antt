-- ===== src/Clock.antt =====
-- core/program_clock.hpp and core/program_clock.cc: `ProgramClock`, which maps PTS ticks to Unix
-- milliseconds from the PCRs and the TOTs of a stream.
-- A PCR in 90 kHz ticks is a quotient of an unsigned number, so a number here; the milliseconds and
-- the differences of ticks are signed. What TSDuck reads from a packet or computes is a parameter.
pub mod Bounds
pub mod Delta
pub mod Invariant
pub mod Steady
pub mod Suspect
pub mod Convert
mod Tests
use aribcap_dump.TsUtils.{jst_time_to_unix_ms, JstTime}
use aribcap_dump.Output.{PcrDiscontinuity}
use aribcap_dump.Prelude.{
  is_none, ◌≤◌, ltb, ◌%◌, suc, ◌^◌, ◌||◌, not, ◌==◌, leb, false, true, ◌≡◌, if◌then◌else◌, some,
  ◌/◌, none, Option, Bool, ◌+◌, ℕ,
}
use aribcap_dump.Prelude.Int.{◌+ℤ◌, ◌*ℤ◌, sub_ℕ, ℤ, pos, negsuc}

-- TSDuck's constants and `ts::DiffPTS`, the number of ticks from its first argument forward to its
-- second, round the wrap at 2^33.
pub record Timing : Type 0 where
  pub pid_null : ℕ
  pub invalid_pcr : ℕ
  pub max_pcr : ℕ
  pub max_pts_dts : ℕ
  pub diff_pts : ℕ → ℕ → ℕ
  pub max_pts_dts_eq : max_pts_dts + 1 ≡ 2 ^ 33
  pub max_pcr-le : max_pcr / 300 ≤ max_pts_dts
  pub diff_pts-le : (a b : ℕ) → a ≤ max_pts_dts → b ≤ max_pts_dts → diff_pts a b ≤ max_pts_dts
  pub diff_pts-add : (a b : ℕ) → a ≤ max_pts_dts → b ≤ max_pts_dts → (a + diff_pts a b) % 2 ^ 33 ≡ b

-- What `ts::TSPacket` tells of a packet.
pub record TsPacket : Type 0 where
  pub pid : ℕ
  pub has_valid_sync : Bool
  pub has_pcr : Bool
  pub pcr : ℕ
  pub discontinuity_indicator : Bool

-- What `ts::TOT` tells of a table.
pub record Tot : Type 0 where
  pub is_valid : Bool
  pub utc_time : JstTime

pub record ReferencePoint : Type 0 where
  pub pcr_90k : ℕ
  pub unix_ms : ℤ

pub record ProgramClock : Type 0 where
  pub pcr_pid : Option ℕ
  pub last_pcr_90k : Option ℕ
  pub reference_point : Option ReferencePoint
  pub suspect_pcr_count : ℕ

abbrev pub pcr_ticks_per_pts_tick : ℕ
pcr_ticks_per_pts_tick = 300

abbrev pub pts_ticks_per_second : ℕ
pts_ticks_per_second = 90000

abbrev pub millis_per_second : ℕ
millis_per_second = 1000

abbrev pub max_sane_pcr_delta_90k : ℕ
max_sane_pcr_delta_90k = 90000

abbrev pub suspect_pcr_confirm_count : ℕ
suspect_pcr_confirm_count = 2

abbrev pub new_clock : ProgramClock
new_clock = record {
  pcr_pid = none;
  last_pcr_90k = none;
  reference_point = none;
  suspect_pcr_count = 0;
}

-- Division of a signed number rounds towards zero.
abbrev pub div_trunc : ℤ → ℕ → ℤ
div_trunc (pos n) d = pos (n / d)
div_trunc (negsuc n) d = sub_ℕ 0 (suc n / d)

abbrev pub same_pid : Option ℕ → ℕ → Bool
same_pid none p = false
same_pid (some q) p = q == p

-- `*pcr_pid_`: it is read only where the PID is known.
abbrev pub value_of : Option ℕ → ℕ
value_of none = 0
value_of (some a) = a

unfoldable pub is_sane_pcr_delta : ℤ → Bool
is_sane_pcr_delta (pos d) = leb d max_sane_pcr_delta_90k
is_sane_pcr_delta (negsuc d) = false

pub clear_suspect : ProgramClock → ProgramClock
clear_suspect c = record c { suspect_pcr_count = 0 }

pub adopt_new_pcr_series : ProgramClock → ℕ → ProgramClock
unfolding clear_suspect
adopt_new_pcr_series c pcr_90k =
    clear_suspect (record c { last_pcr_90k = some pcr_90k; reference_point = none })

unfoldable pub discontinuity : ProgramClock → Bool → PcrDiscontinuity
discontinuity c flagged = record { pid = value_of c.pcr_pid % 2 ^ 16; flagged = flagged }

pub handle_suspect_pcr_discontinuity : ProgramClock → ℕ → ProgramClock × Option PcrDiscontinuity
unfolding adopt_new_pcr_series discontinuity
handle_suspect_pcr_discontinuity c pcr_90k =
    let d = record c { suspect_pcr_count = c.suspect_pcr_count + 1 } in
    if leb suspect_pcr_confirm_count d.suspect_pcr_count
    then (adopt_new_pcr_series d pcr_90k, some (discontinuity d false))
    else (d, none)

module _ (t : Timing) where
  pub wrap_aware_delta_90k : ℕ → ℕ → ℤ
  wrap_aware_delta_90k from to =
      let forward = t.diff_pts from to in
      let backward = t.diff_pts to from in
      if leb forward backward then pos forward else sub_ℕ 0 backward

  pub set_pcr_pid : ProgramClock → ℕ → ProgramClock
  unfolding clear_suspect
  set_pcr_pid c pid =
      if pid == t.pid_null
      then c
      else if same_pid c.pcr_pid pid
      then c
      else clear_suspect
          (record c { pcr_pid = some pid; last_pcr_90k = none; reference_point = none })

  -- `RecordPcr` from the test of the last accepted PCR on.
  pub compare_pcr : ProgramClock → Option ℕ → ℕ → ProgramClock × Option PcrDiscontinuity
  unfolding clear_suspect
  compare_pcr c none pcr_90k = (clear_suspect (record c { last_pcr_90k = some pcr_90k }), none)
  compare_pcr c (some last) pcr_90k =
      if is_sane_pcr_delta (wrap_aware_delta_90k last pcr_90k)
      then (clear_suspect (record c { last_pcr_90k = some pcr_90k }), none)
      else handle_suspect_pcr_discontinuity c pcr_90k

  unfoldable pub record_pcr : ProgramClock → TsPacket → ProgramClock × Option PcrDiscontinuity
  unfolding compare_pcr
  record_pcr c packet =
      if is_none c.pcr_pid || (not (same_pid c.pcr_pid packet.pid) || not packet.has_pcr)
      then (c, none)
      else if packet.pcr == t.invalid_pcr || ltb t.max_pcr packet.pcr
      then (c, none)
      else if packet.discontinuity_indicator
      then (
        adopt_new_pcr_series c (packet.pcr / pcr_ticks_per_pts_tick),
        some (discontinuity c true),
      )
      else compare_pcr c c.last_pcr_90k (packet.pcr / pcr_ticks_per_pts_tick)

abbrev pub anchor : Option ℕ → Option ℤ → Option ReferencePoint → Option ReferencePoint
anchor (some pcr) (some ms) old = some (record { pcr_90k = pcr; unix_ms = ms })
anchor _ _ old = old

pub update_reference_point_from_tot : ProgramClock → Tot → ProgramClock
update_reference_point_from_tot c tot =
    if not tot.is_valid
    then c
    else if is_none (jst_time_to_unix_ms tot.utc_time)
    then c
    else if is_none c.last_pcr_90k || ltb 0 c.suspect_pcr_count
    then c
    else record c {
      reference_point = anchor c.last_pcr_90k (jst_time_to_unix_ms tot.utc_time) c.reference_point;
    }

module _ (t : Timing) where
  pub convert : Option ReferencePoint → ℕ → Option ℤ
  convert none pts_90k = none
  convert (some r) pts_90k =
      let delta_90k = wrap_aware_delta_90k t r.pcr_90k pts_90k in
      let offset_ms = div_trunc (delta_90k *ℤ pos millis_per_second) pts_ticks_per_second in
      some (r.unix_ms +ℤ offset_ms)

  pub pts_to_unix_ms : ProgramClock → ℕ → Option ℤ
  unfolding convert
  pts_to_unix_ms c pts_90k =
      if is_none c.reference_point || (ltb 0 c.suspect_pcr_count || ltb t.max_pts_dts pts_90k)
      then none
      else convert c.reference_point pts_90k

-- ===== src/Service.antt =====
-- core/caption_dumper.hpp and core/caption_dumper.cc: the state of a `CaptionDumper`, and the caption
-- streams of its service that it registers and unregisters.
pub mod Invariant
pub mod Lookups
mod Desired
pub mod Setting
pub mod Preserve
pub mod Streams
pub mod Traversal
use aribcap_dump.Eit.Emitter.{new_eit_emitter, EitRecordEmitter, EitOutputMode}
use aribcap_dump.TsUtils.{PesPacket, PtsReader}
use aribcap_dump.Eit.{PresentSection, Eit}
use aribcap_dump.Captions.{new_emitter, Decoders, CaptionRecordEmitter}
use aribcap_dump.Clock.{new_clock, ProgramClock, TsPacket, Timing, Tot}
use aribcap_dump.Classifier.{classify_caption_stream, Stream, Profile, profile_a, profile_c}
use aribcap_dump.Prelude.{
  [], ◌&&◌, is_none, not, lookup, false, if◌then◌else◌, none, ◌||◌, ◌≡◌, some, true, ◌∷◌, erase,
  insert, ◌==◌, keys, Option, List, Bool, ℕ,
}

-- A demultiplexer of TSDuck, as far as this program uses it: a filter of PIDs, and what it delivers
-- to its handler for a packet, or when it is flushed. A delivery does not change the filter.
pub record Demux (Delivery : Type 0) : Type 1 where
  pub State : Type 0
  pub has_pid : State → ℕ → Bool
  pub add_pid : State → ℕ → State
  pub remove_pid : State → ℕ → State
  pub feed_packet : State → TsPacket → State × List Delivery
  pub flush : State → State × List Delivery
  pub has_pid-add_pid : (s : State) (p q : ℕ) → has_pid (add_pid s p) q ≡ (p == q) || has_pid s q
  pub has_pid-remove_pid :
      (s : State) (p q : ℕ) → has_pid (remove_pid s p) q ≡ not (p == q) && has_pid s q
  pub has_pid-feed_packet :
      (s : State) (packet : TsPacket) (q : ℕ) → has_pid (feed_packet s packet).0 q ≡ has_pid s q
  pub has_pid-flush : (s : State) (q : ℕ) → has_pid (flush s).0 q ≡ has_pid s q

-- What TSDuck tells of a binary table, by its table identifier.
pub record Pat : Type 0 where
  pub is_valid : Bool
  pub pmts : List (ℕ × ℕ)

pub record Pmt : Type 0 where
  pub is_valid : Bool
  pub source_pid : ℕ
  pub service_id : ℕ
  pub pcr_pid : ℕ
  pub streams : List (ℕ × Stream)

pub record EitTable : Type 0 where
  pub is_valid : Bool
  pub table_id_extension : ℕ
  pub version : ℕ
  pub eit : Eit
  pub present_section : Option PresentSection
  -- The extension of the table's identifier is the service of a valid EIT.
  pub service_id_eq : eit.is_valid ≡ true → eit.service_id ≡ table_id_extension

pub data Table : Type 0 where
  pat_table : Pat → Table
  pmt_table : Pmt → Table
  tot_table : Tot → Table
  tdt_table : Table
  eit_table : EitTable → Table
  other_table : Table

-- What the dumper uses that is not its own.
pub record Externals : Type 1 where
  pub timing : Timing
  pub reader : PtsReader
  pub decoders : Decoders
  pub section : Demux Table
  pub pes : Demux PesPacket
  pub new_section_demux : section.State
  pub new_pes_demux : pes.State
  pub pid_pat : ℕ
  pub pid_eit : ℕ
  pub pid_isdb_eit_3 : ℕ
  pub pid_tot : ℕ
  pub st_pes_priv : ℕ
  pub eit_payload_fixed_size : ℕ
  pub new_section_demux_eq :
      (p : ℕ)
      → section.has_pid new_section_demux p
        ≡ (pid_pat == p) || ((pid_eit == p) || ((pid_isdb_eit_3 == p) || (pid_tot == p)))
  pub new_pes_demux_eq : (p : ℕ) → pes.has_pid new_pes_demux p ≡ false

module _ (x : Externals) where
  abbrev pub Emitter : Type 0
  Emitter = CaptionRecordEmitter x.decoders.Decoder

  pub record CaptionDumper : Type 0 where
    pub target_sid : ℕ
    pub emit_empty_captions : Bool
    pub section_demux : x.section.State
    pub current_pmt_pid : Option ℕ
    pub pes_demux : x.pes.State
    pub program_clock : ProgramClock
    pub eit_emitter : EitRecordEmitter
    pub caption_emitters : List (ℕ × Emitter)

  abbrev pub reserved_section_pids : ℕ → Bool
  reserved_section_pids p =
      (x.pid_pat == p) || ((x.pid_eit == p) || ((x.pid_isdb_eit_3 == p) || (x.pid_tot == p)))

  abbrev pub new_dumper : ℕ → Bool → EitOutputMode → CaptionDumper
  new_dumper target_sid emit_empty_captions eit_output = record {
    target_sid = target_sid;
    emit_empty_captions = emit_empty_captions;
    section_demux = x.new_section_demux;
    current_pmt_pid = none;
    pes_demux = x.new_pes_demux;
    program_clock = new_clock;
    eit_emitter = new_eit_emitter eit_output;
    caption_emitters = [];
  }

  unfoldable pub register_caption_stream : CaptionDumper → ℕ → Profile → CaptionDumper
  register_caption_stream d pid profile = record d {
    caption_emitters =
        insert pid (new_emitter x.decoders profile d.emit_empty_captions) d.caption_emitters;
    pes_demux = x.pes.add_pid d.pes_demux pid;
  }

  unfoldable pub unregister_caption_stream : CaptionDumper → ℕ → CaptionDumper
  unregister_caption_stream d pid = record d {
    pes_demux = x.pes.remove_pid d.pes_demux pid;
    caption_emitters = erase pid d.caption_emitters;
  }

  -- `while (!caption_emitters_.empty())`: the keys of the map, the first one first.
  unfoldable pub unregister_all : CaptionDumper → List ℕ → CaptionDumper
  unfolding unregister_caption_stream
  unregister_all d [] = d
  unregister_all d (pid ∷ pids) = unregister_all (unregister_caption_stream d pid) pids

  abbrev pub drop_pmt_pid : CaptionDumper → Option ℕ → CaptionDumper
  drop_pmt_pid d none = d
  drop_pmt_pid d (some pid) = record d {
    section_demux = x.section.remove_pid d.section_demux pid;
    current_pmt_pid = none;
  }

  unfoldable pub teardown_target_service : CaptionDumper → CaptionDumper
  unfolding unregister_all
  teardown_target_service d =
      let e = drop_pmt_pid d d.current_pmt_pid in unregister_all e (keys e.caption_emitters)

  abbrev pub emplace : ℕ → Option Profile → List (ℕ × Profile) → List (ℕ × Profile)
  emplace es_pid none desired = desired
  emplace es_pid (some profile) desired = (es_pid, profile) ∷ desired

  -- The streams that are captions, with their profiles; those of the PMT are in the order of their
  -- PIDs.
  unfoldable pub desired_streams : ℕ → List (ℕ × Stream) → List (ℕ × Profile)
  desired_streams pmt_pid [] = []
  desired_streams pmt_pid (s ∷ streams) =
      emplace s.0 (classify_caption_stream x.st_pes_priv pmt_pid s.1)
        (desired_streams pmt_pid streams)

  -- The loop over the emitters that there are.
  unfoldable pub unregister_undesired : CaptionDumper → List (ℕ × Profile) → List ℕ → CaptionDumper
  unfolding unregister_caption_stream
  unregister_undesired d desired [] = d
  unregister_undesired d desired (pid ∷ pids) =
      unregister_undesired
        (if is_none (lookup pid desired) then unregister_caption_stream d pid else d) desired pids

  abbrev pub same_profile : Profile → Profile → Bool
  same_profile profile_a profile_a = true
  same_profile profile_c profile_c = true
  same_profile _ _ = false

  -- The body of the loop over the streams that there should be.
  unfoldable pub reconcile : CaptionDumper → ℕ → Profile → Option Emitter → CaptionDumper
  unfolding unregister_caption_stream register_caption_stream
  reconcile d pid profile none = register_caption_stream d pid profile
  reconcile d pid profile (some emitter) =
      if not (same_profile emitter.profile profile)
      then register_caption_stream (unregister_caption_stream d pid) pid profile
      else d

  unfoldable pub register_desired : CaptionDumper → List (ℕ × Profile) → CaptionDumper
  unfolding reconcile
  register_desired d [] = d
  register_desired d (s ∷ desired) =
      register_desired (reconcile d s.0 s.1 (lookup s.0 d.caption_emitters)) desired

  unfoldable pub sync_caption_streams : CaptionDumper → ℕ → List (ℕ × Stream) → CaptionDumper
  unfolding desired_streams unregister_undesired register_desired
  sync_caption_streams d pmt_pid streams =
      let desired = desired_streams pmt_pid streams in
      register_desired (unregister_undesired d desired (keys d.caption_emitters)) desired

-- ===== src/Dumper.antt =====
-- core/caption_dumper.hpp and core/caption_dumper.cc: the handlers of `CaptionDumper`, which drives
-- TSDuck's demultiplexers for one service. What goes to the sink is returned, in order.
pub mod Idle
pub mod Invariant
pub mod Moved
pub mod Sample
pub mod Setting
mod Switch
pub mod Times
pub mod Untimed
pub mod Fits
pub mod Isolation
pub mod Dated
pub mod Traversal
mod Tests
use aribcap_dump.Eit.Emitter.{handle_eit}
use aribcap_dump.Captions.{handle_pes}
use aribcap_dump.Eit.{deserialize_eit}
use aribcap_dump.Output.{
  pcr_discontinuity, reserved_pmt_pid_collision, diagnostic, OutputRecord, PcrDiscontinuity,
}
use aribcap_dump.TsUtils.{PesPacket}
use aribcap_dump.Clock.{
  same_pid, set_pcr_pid, record_pcr, update_reference_point_from_tot, TsPacket, Tot,
}
use aribcap_dump.Service.{
  reserved_section_pids, other_table, tdt_table, eit_table, tot_table, pmt_table, pat_table,
  Emitter, Table, EitTable, Pmt, Pat, sync_caption_streams, CaptionDumper, teardown_target_service,
  Externals,
}
use aribcap_dump.Prelude.{
  none, update, ◌^◌, ◌%◌, ◌++◌, ◌==◌, some, ◌∷◌, lookup, ◌||◌, [], is_none, not, if◌then◌else◌,
  List, Option, ℕ,
}

module _ (x : Externals) where
  abbrev pub collision : ℕ → List OutputRecord
  collision pmt_pid = diagnostic (reserved_pmt_pid_collision (pmt_pid % 2 ^ 16)) ∷ []

  pub switch_pmt_pid : CaptionDumper x → ℕ → CaptionDumper x
  unfolding teardown_target_service
  switch_pmt_pid d pmt_pid =
      let e = if not (is_none d.current_pmt_pid) then teardown_target_service x d else d in
      record e {
        current_pmt_pid = some pmt_pid;
        section_demux = x.section.add_pid e.section_demux pmt_pid;
      }

  -- `HandlePat` from the look-up of the service on.
  pub handle_entry : CaptionDumper x → Option ℕ → CaptionDumper x × List OutputRecord
  unfolding teardown_target_service switch_pmt_pid
  handle_entry d none = (teardown_target_service x d, [])
  handle_entry d (some pmt_pid) =
      if reserved_section_pids x pmt_pid
      then (d, collision pmt_pid)
      else if same_pid d.current_pmt_pid pmt_pid
      then (d, [])
      else (switch_pmt_pid d pmt_pid, [])

  pub handle_pat : CaptionDumper x → Pat → CaptionDumper x × List OutputRecord
  unfolding handle_entry
  handle_pat d pat =
      if not pat.is_valid then (d, []) else handle_entry d (lookup d.target_sid pat.pmts)

  pub handle_pmt : CaptionDumper x → Pmt → CaptionDumper x
  unfolding sync_caption_streams
  handle_pmt d pmt =
      if not pmt.is_valid || not (pmt.service_id == d.target_sid)
      then d
      else sync_caption_streams x
          (record d { program_clock = set_pcr_pid x.timing d.program_clock pmt.pcr_pid })
          pmt.source_pid pmt.streams

  pub handle_tot : CaptionDumper x → Tot → CaptionDumper x
  handle_tot d tot = record d {
    program_clock = update_reference_point_from_tot d.program_clock tot;
  }

  pub handle_eit_table : CaptionDumper x → EitTable → CaptionDumper x × List OutputRecord
  handle_eit_table d table =
      if not table.is_valid || not (table.table_id_extension == d.target_sid)
      then (d, [])
      else (let deserialized =
            deserialize_eit x.eit_payload_fixed_size table.eit table.version
              table.present_section in
          if not deserialized.eit.is_valid
          then (d, [])
          else (let r = handle_eit d.eit_emitter deserialized in
              (record d { eit_emitter = r.0 }, r.1)))

  pub handle_table : CaptionDumper x → Table → CaptionDumper x × List OutputRecord
  unfolding handle_pat handle_pmt handle_tot handle_eit_table
  handle_table d (pat_table pat) = handle_pat d pat
  handle_table d (pmt_table pmt) = (handle_pmt d pmt, [])
  handle_table d (tot_table tot) = (handle_tot d tot, [])
  handle_table d tdt_table = (d, [])
  handle_table d (eit_table table) = handle_eit_table d table
  handle_table d other_table = (d, [])

  abbrev pub decode_with :
      CaptionDumper x → PesPacket → Option (Emitter x) → CaptionDumper x × List OutputRecord
  decode_with d packet none = (d, [])
  decode_with d packet (some emitter) =
      let r = handle_pes x.decoders x.timing x.reader emitter d.program_clock packet in
      (record d { caption_emitters = update packet.source_pid r.0 d.caption_emitters }, r.1)

  pub handle_pes_packet : CaptionDumper x → PesPacket → CaptionDumper x × List OutputRecord
  handle_pes_packet d packet = decode_with d packet (lookup packet.source_pid d.caption_emitters)

  -- The calls of the two handlers for what a demultiplexer delivers, in order.
  pub handle_tables : CaptionDumper x → List Table → CaptionDumper x × List OutputRecord
  handle_tables d [] = (d, [])
  handle_tables d (table ∷ tables) =
      let r = handle_table d table in let q = handle_tables r.0 tables in (q.0, r.1 ++ q.1)

  pub handle_pes_packets : CaptionDumper x → List PesPacket → CaptionDumper x × List OutputRecord
  handle_pes_packets d [] = (d, [])
  handle_pes_packets d (packet ∷ packets) =
      let r = handle_pes_packet d packet in
      let q = handle_pes_packets r.0 packets in (q.0, r.1 ++ q.1)

  abbrev pub diagnostics : Option PcrDiscontinuity → List OutputRecord
  diagnostics none = []
  diagnostics (some discontinuity) = diagnostic (pcr_discontinuity discontinuity) ∷ []

  pub feed_section_demux : CaptionDumper x → TsPacket → CaptionDumper x × List OutputRecord
  feed_section_demux d packet =
      let r = x.section.feed_packet d.section_demux packet in
      handle_tables (record d { section_demux = r.0 }) r.1

  pub feed_pes_demux : CaptionDumper x → TsPacket → CaptionDumper x × List OutputRecord
  feed_pes_demux d packet =
      if x.pes.has_pid d.pes_demux packet.pid
      then (let r = x.pes.feed_packet d.pes_demux packet in
          handle_pes_packets (record d { pes_demux = r.0 }) r.1)
      else (d, [])

  pub dump_packet : CaptionDumper x → TsPacket → CaptionDumper x × List OutputRecord
  dump_packet d packet =
      if not packet.has_valid_sync
      then (d, [])
      else (let c = record_pcr x.timing d.program_clock packet in
          let s = feed_section_demux (record d { program_clock = c.0 }) packet in
          let p = feed_pes_demux s.0 packet in (p.0, diagnostics c.1 ++ s.1 ++ p.1))

  pub flush_dumper : CaptionDumper x → CaptionDumper x × List OutputRecord
  flush_dumper d =
      let r = x.pes.flush d.pes_demux in handle_pes_packets (record d { pes_demux = r.0 }) r.1

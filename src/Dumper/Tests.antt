-- ===== src/Dumper/Tests.antt =====
-- Runs of a dumper whose demultiplexers deliver the PAT for every packet.
use aribcap_dump.TsUtils.Sample.{get_or_byte}
use aribcap_dump.Dumper.Dated.{handle_pes_packet_dated}
use aribcap_dump.Dumper.Times.{HasTime}
use aribcap_dump.TsUtils.Fields.{CarriesPts}
use aribcap_dump.Clock.Invariant
use aribcap_dump.Dumper.Isolation.{handle_tables-only_concerning}
use aribcap_dump.Dumper.Untimed.{dump_packets-IsUntimed, IsUntimed}
use aribcap_dump.Output.{pcr_discontinuity, diagnostic, OutputRecord}
use aribcap_dump.Dumper.Traversal.{dump_packets}
use aribcap_dump.Clock.{ProgramClock, discontinuity, record_pcr, TsPacket}
use aribcap_dump.Prelude.Int.{◌+ℤ◌, pos}
use aribcap_dump.Dumper.Moved.{handle_pat_moved}
use aribcap_dump.Dumper.Sample.{
  pmt, caption_packet, caption_stream, event_of, delivering_all, externals, pat,
}
use aribcap_dump.Service.{
  pmt_table, tdt_table, eit_table, pat_table, Externals, reserved_section_pids, new_dumper,
  sync_caption_streams, CaptionDumper,
}
use aribcap_dump.Service.Invariant.{IsValid}
use aribcap_dump.Service.Streams.{sync_caption_streams_lem}
use aribcap_dump.Dumper.Invariant.{handle_pat_unlisted}
use aribcap_dump.Eit.Emitter.{new_eit_emitter, only_present}
use aribcap_dump.Captions.{new_emitter}
use aribcap_dump.Dumper.{handle_pes_packet, handle_tables, flush_dumper, handle_pat}
use aribcap_dump.Classifier.{profile_a, profile_c, classify_caption_stream}
use aribcap_dump.Prelude.{
  ◌/◌, ◌-◌, inl, ◌^◌, All, ◌++◌, List, true, ◌||◌, ◌==◌, lookup, none, some, arith, [], false, ◌∷◌,
  ◌≡◌, ◌∷◌, ℕ, refl,
}

abbrev dumper : ℕ → CaptionDumper externals
dumper sid = new_dumper externals sid false only_present

abbrev on_air : CaptionDumper externals
on_air = record (dumper 103) {
  current_pmt_pid = some 500;
  section_demux = 500 ∷ 0 ∷ 18 ∷ 39 ∷ 20 ∷ [];
  pes_demux = 256 ∷ [];
  caption_emitters =
      (256, record { profile = profile_c; emit_empty_captions = false; first = 7; second = none })
      ∷ [];
}

on_air-IsValid : IsValid externals on_air
on_air-IsValid = record {
  emitter_pids = λ p. ground arith;
  section_pids = λ p. ground arith;
  not_reserved = λ p h. ground (arith, h);
}

handle_pat_unlisted_example :
    let e = (handle_pat externals on_air pat).0 in
    (e.current_pmt_pid ≡ none)
    × (lookup 256 e.caption_emitters ≡ none)
    × (externals.pes.has_pid e.pes_demux 256 ≡ false)
    × (externals.section.has_pid e.section_demux 256 ≡ reserved_section_pids externals 256)
handle_pat_unlisted_example = handle_pat_unlisted externals on_air pat 256 on_air-IsValid refl refl

-- The emitter has profile C and the PMT wants profile A: it is made anew.
sync_caption_streams_example :
    lookup 256
      (sync_caption_streams externals on_air 500
        ((256, caption_stream) ∷ (257, caption_stream) ∷ [])).caption_emitters
    ≡ some (record { profile = profile_a; emit_empty_captions = false; first = 0; second = none })
unfolding new_emitter classify_caption_stream
sync_caption_streams_example =
    sync_caption_streams_lem externals on_air 500 256
      ((256, caption_stream) ∷ (257, caption_stream) ∷ []) (refl, (refl, tt))

handle_pat_moved_example :
    let (e, records) = handle_pat externals (record on_air { target_sid = 102 }) pat in
    (records ≡ [])
    × (e.current_pmt_pid ≡ some 501)
    × (lookup 256 e.caption_emitters ≡ none)
    × (externals.pes.has_pid e.pes_demux 256 ≡ false)
    × (externals.section.has_pid e.section_demux 256
        ≡ (501 == 256) || reserved_section_pids externals 256)
handle_pat_moved_example =
    handle_pat_moved externals (record on_air { target_sid = 102 }) pat 256
      (record {
        emitter_pids = on_air-IsValid.emitter_pids;
        section_pids = on_air-IsValid.section_pids;
        not_reserved = on_air-IsValid.not_reserved;
      })
      refl refl refl refl (omega arith)

-- Every packet delivers the PAT and an event; those of PID 256 also a caption with a PTS.
abbrev captioned : Externals
captioned = delivering_all (pat_table pat ∷ eit_table (event_of 101 8) ∷ []) (caption_packet ∷ [])

-- The service's PMT is at PID 500, and the clock knows the time.
abbrev timed : CaptionDumper captioned
timed = record {
  target_sid = 101;
  emit_empty_captions = false;
  section_demux = 500 ∷ 0 ∷ 18 ∷ 39 ∷ 20 ∷ [];
  current_pmt_pid = some 500;
  pes_demux = 256 ∷ [];
  program_clock = record {
    pcr_pid = some 256;
    last_pcr_90k = some 900;
    reference_point = some (record { pcr_90k = 900; unix_ms = pos 5000 });
    suspect_pcr_count = 0;
  };
  eit_emitter = new_eit_emitter only_present;
  caption_emitters =
      (256, record { profile = profile_a; emit_empty_captions = false; first = 7; second = none })
      ∷ [];
}

abbrev flagged : TsPacket
flagged = record {
  pid = 256;
  has_valid_sync = true;
  has_pcr = true;
  pcr = 8100;
  discontinuity_indicator = true;
}

flagged_reported :
    (record_pcr captioned.timing timed.program_clock flagged).1
    ≡ some (record { pid = 256; flagged = true })
unfolding record_pcr discontinuity
flagged_reported = refl

dump_packets-IsUntimed_example :
    let r = dump_packets captioned timed (flagged ∷ flagged ∷ []) in
    (rest : List OutputRecord) × (r.1 ++ (flush_dumper captioned r.0).1
      ≡ diagnostic (pcr_discontinuity (record { pid = 256; flagged = true })) ∷ rest)
    × All IsUntimed rest
dump_packets-IsUntimed_example =
    dump_packets-IsUntimed captioned timed flagged (flagged ∷ [])
      (record { pid = 256; flagged = true }) refl flagged_reported
      ((tt, (tt, tt)), ((tt, (tt, tt)), tt))

-- The EIT and the PMT are those of another service.
handle_tables-only_concerning_example :
    handle_tables externals (dumper 101) (
      eit_table (event_of 102 7)
      ∷ pat_table pat
      ∷ tdt_table
      ∷ pmt_table (record pmt { service_id = 102 })
      ∷ eit_table (event_of 101 8)
      ∷ [])
    ≡ handle_tables externals (dumper 101) (pat_table pat ∷ eit_table (event_of 101 8) ∷ [])
handle_tables-only_concerning_example = handle_tables-only_concerning externals (dumper 101) (
    eit_table (event_of 102 7)
    ∷ pat_table pat
    ∷ tdt_table
    ∷ pmt_table (record pmt { service_id = 102 })
    ∷ eit_table (event_of 101 8)
    ∷ [])

-- 100 ticks before the wrap it was 5 s after the epoch.
abbrev before_wrap : ProgramClock
before_wrap = record {
  pcr_pid = some 256;
  last_pcr_90k = some (2 ^ 33 - 100);
  reference_point = some (record { pcr_90k = 2 ^ 33 - 100; unix_ms = pos 5000 });
  suspect_pcr_count = 0;
}

before_wrap-IsValid : Invariant.IsValid captioned.timing before_wrap
before_wrap-IsValid = record {
  last_in_range = λ p h. ground (arith, h);
  reference_in_range = λ r h. ground (arith, h);
  anchored = λ h. ground (arith, h);
  unnamed = λ h. ground (arith, h);
  unconfirmed = omega arith;
  suspected = λ h. refl;
}

caption_packet-CarriesPts : CarriesPts caption_packet 0
caption_packet-CarriesPts = record {
  long = refl;
  size = omega arith;
  flags = inl refl;
  small = omega arith;
  field = refl;
}

handle_pes_packet_dated_example :
    All
      (HasTime (λ time. time ≡ some (pos 5000 +ℤ pos (100 / 90))))
      (handle_pes_packet captioned (record timed { program_clock = before_wrap }) caption_packet).1
handle_pes_packet_dated_example =
    handle_pes_packet_dated captioned (record timed { program_clock = before_wrap }) caption_packet
      (record { pcr_90k = 2 ^ 33 - 100; unix_ms = pos 5000 }) 0 100
      (λ i. get_or_byte caption_packet.header i refl) caption_packet-CarriesPts before_wrap-IsValid
      refl refl (omega arith) refl

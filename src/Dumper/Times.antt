-- ===== src/Dumper/Times.antt =====
-- The clock of the dumper, and the times of the captions, for any invariant of the clock.
use aribcap_dump.Dumper.{handle_tot}
use aribcap_dump.Service.{sync_caption_streams, reserved_section_pids}
use aribcap_dump.Service.Traversal.{if-Inv, sync-Inv}
use aribcap_dump.Captions.Setting.{handle_pes-AllFrom}
use aribcap_dump.TsUtils.{parse_pes_pts, PesPacket}
use aribcap_dump.Eit.{deserialize_eit}
use aribcap_dump.Dumper.Traversal.{branch-Keeps, Handlers, Keeps}
use aribcap_dump.Captions.{time_of}
use aribcap_dump.Captions.Records.{AllFrom}
use aribcap_dump.Eit.Versions.{handle_eit-AllSelected, AllSelected}
use aribcap_dump.Service.Traversal.{teardown-Inv, Registers}
use aribcap_dump.Dumper.{
  decode_with, handle_pes_packet, collision, handle_eit_table, handle_pat, handle_tot,
  switch_pmt_pid, handle_table, handle_pmt, handle_entry,
}
use aribcap_dump.Eit.Emitter.{EitOutputMode}
use aribcap_dump.Output.{diagnostic, eit, caption, OutputRecord}
use aribcap_dump.Prelude.Int.{ℤ}
use aribcap_dump.Clock.{
  Tot, same_pid, set_pcr_pid, record_pcr, update_reference_point_from_tot, TsPacket, ProgramClock,
}
use aribcap_dump.Prelude.{
  is_none, ◌==◌, lookup, ◌||◌, not, none, [], sym, some, subst, ◌∷◌, All, Bool, List, ℕ, Option,
}
use aribcap_dump.Service.{
  Emitter, EitTable, other_table, tdt_table, eit_table, pmt_table, pat_table, drop_pmt_pid, Pmt,
  teardown_target_service, unregister_caption_stream, tot_table, register_caption_stream,
  CaptionDumper, Table, Externals,
}

-- A caption's time has the property.
abbrev pub HasTime : (Option ℤ → Type 0) → OutputRecord → Type 0
HasTime P (caption c) = P c.time_ms
HasTime P (eit r) = Unit {0}
HasTime P (diagnostic d) = Unit {0}

module _ (P : Option ℤ → Type 0) where
  selected-HasTime :
      (mode : EitOutputMode) (sid : ℕ) (rs : List OutputRecord)
      → AllSelected mode sid rs
      → All (HasTime P) rs
  selected-HasTime mode sid [] a = tt
  selected-HasTime mode sid (eit r ∷ rs) a = (tt, selected-HasTime mode sid rs a.1)
  selected-HasTime mode sid (caption c ∷ rs) a = absurd a.0
  selected-HasTime mode sid (diagnostic d ∷ rs) a = absurd a.0

  pub from-HasTime :
      (pid : ℕ) (time : Option ℤ) (empty : Bool) (rs : List OutputRecord)
      → P time
      → AllFrom pid time empty rs
      → All (HasTime P) rs
  from-HasTime pid time empty [] h a = tt
  from-HasTime pid time empty (caption c ∷ rs) h a =
      (subst P (sym a.0.0) h, from-HasTime pid time empty rs h a.1)
  from-HasTime pid time empty (eit r ∷ rs) h a = absurd a.0
  from-HasTime pid time empty (diagnostic d ∷ rs) h a = (tt, from-HasTime pid time empty rs h a.1)

module _ (x : Externals) (C : ProgramClock → Type 0) (Allowed : Table → Type 0)
    (P : Option ℤ → Type 0) where
  -- What the clock owes: its calls, a TOT only if it is allowed, keep the invariant, and under it a
  -- PTS has a time with the property.
  pub record Clocks : Type 0 where
    pub records : (c : ProgramClock) (packet : TsPacket) → C c → C (record_pcr x.timing c packet).0
    pub sets_pcr_pid : (c : ProgramClock) (pid : ℕ) → C c → C (set_pcr_pid x.timing c pid)
    pub updates :
        (c : ProgramClock) (tot : Tot)
        → Allowed (tot_table tot)
        → C c
        → C (update_reference_point_from_tot c tot)
    pub converts :
        (c : ProgramClock) (pts : Option ℕ) → C c → P (time_of x.decoders x.timing x.reader c pts)

  abbrev pub InClock : CaptionDumper x → Type 0
  InClock d = C d.program_clock

  registers-InClock : Registers x InClock
  unfolding register_caption_stream unregister_caption_stream
  registers-InClock = record { register = λ d pid profile absent v. v; unregister = λ d pid v. v }

  teardown-InClock : (d : CaptionDumper x) → InClock d → InClock (teardown_target_service x d)
  teardown-InClock d v = teardown-Inv x InClock registers-InClock d (drop d.current_pmt_pid)
    where
      drop : (o : Option ℕ) → InClock (drop_pmt_pid x d o)
      drop none = v
      drop (some pid) = v

  module _ (k : Clocks) where
    handle_entry-InClock :
        (d : CaptionDumper x) (o : Option ℕ)
        → InClock d
        → Keeps x InClock (HasTime P) (handle_entry x d o)
    unfolding handle_entry switch_pmt_pid
    handle_entry-InClock d none v = (teardown-InClock d v, tt)
    handle_entry-InClock d (some pmt_pid) v =
        branch-Keeps x InClock (HasTime P) (reserved_section_pids x pmt_pid)
          (d, collision x pmt_pid) _ (λ y. (v, (tt, tt)))
          (λ n.
            branch-Keeps x InClock (HasTime P) (same_pid d.current_pmt_pid pmt_pid) (d, []) _
              (λ y. (v, tt))
              (λ m. (
                if-Inv x InClock (not (is_none d.current_pmt_pid)) (teardown_target_service x d) d
                    (teardown-InClock d v) v,
                tt,
              )))

    handle_pmt-InClock :
        (d : CaptionDumper x) (pmt : Pmt) → InClock d → InClock (handle_pmt x d pmt)
    unfolding handle_pmt
    handle_pmt-InClock d pmt v =
        let e : CaptionDumper x = record d {
          program_clock = set_pcr_pid x.timing d.program_clock pmt.pcr_pid;
        } in
        if-Inv x InClock (not pmt.is_valid || not (pmt.service_id == d.target_sid)) d
          (sync_caption_streams x e pmt.source_pid pmt.streams) v
          (sync-Inv x InClock registers-InClock e pmt.source_pid pmt.streams
            (k.sets_pcr_pid d.program_clock pmt.pcr_pid v))

    handle_eit_table-InClock :
        (d : CaptionDumper x) (table : EitTable)
        → InClock d
        → Keeps x InClock (HasTime P) (handle_eit_table x d table)
    unfolding handle_eit_table
    handle_eit_table-InClock d table v =
        let des =
          deserialize_eit x.eit_payload_fixed_size table.eit table.version table.present_section in
        branch-Keeps x InClock (HasTime P)
          (not table.is_valid || not (table.table_id_extension == d.target_sid)) (d, []) _
          (λ y. (v, tt))
          (λ n.
            branch-Keeps x InClock (HasTime P) (not des.eit.is_valid) (d, []) _ (λ y. (v, tt))
              (λ m. (
                v,
                selected-HasTime P d.eit_emitter.output_mode des.eit.service_id _
                    (handle_eit-AllSelected d.eit_emitter des),
              )))

    handle_table-InClock :
        (d : CaptionDumper x) (table : Table)
        → Allowed table
        → InClock d
        → Keeps x InClock (HasTime P) (handle_table x d table)
    unfolding handle_table handle_tot handle_pat
    handle_table-InClock d (pat_table pat) a v =
        branch-Keeps x InClock (HasTime P) (not pat.is_valid) (d, []) _ (λ n. (v, tt))
          (λ y. handle_entry-InClock d (lookup d.target_sid pat.pmts) v)
    handle_table-InClock d (pmt_table pmt) a v = (handle_pmt-InClock d pmt v, tt)
    handle_table-InClock d (tot_table tot) a v = (k.updates d.program_clock tot a v, tt)
    handle_table-InClock d tdt_table a v = (v, tt)
    handle_table-InClock d (eit_table table) a v = handle_eit_table-InClock d table v
    handle_table-InClock d other_table a v = (v, tt)

    handle_pes_packet-InClock :
        (d : CaptionDumper x) (packet : PesPacket)
        → InClock d
        → Keeps x InClock (HasTime P) (handle_pes_packet x d packet)
    unfolding handle_pes_packet
    handle_pes_packet-InClock d packet v = of_emitter (lookup packet.source_pid d.caption_emitters)
      where
        of_emitter :
            (o : Option (Emitter x)) → Keeps x InClock (HasTime P) (decode_with x d packet o)
        of_emitter none = (v, tt)
        of_emitter (some e) =
            let pts = parse_pes_pts x.reader packet in
            (
              v,
              from-HasTime P packet.source_pid
                  (time_of x.decoders x.timing x.reader d.program_clock pts) e.emit_empty_captions _
                  (k.converts d.program_clock pts v)
                  (handle_pes-AllFrom x.decoders x.timing x.reader e d.program_clock packet),
            )

    pub handlers-InClock : Handlers x InClock Allowed (HasTime P)
    handlers-InClock = record {
      clock = λ d packet v. k.records d.program_clock packet v;
      section = λ d packet v. v;
      pes = λ d packet v. v;
      flush = λ d v. v;
      table = handle_table-InClock;
      pes_packet = handle_pes_packet-InClock;
      discontinuity = λ c. tt;
    }

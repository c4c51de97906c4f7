-- ===== src/Dumper/Setting.antt =====
-- The options of a run, over the calls of the dumper.
use aribcap_dump.Service.Traversal.{if-Inv}
use aribcap_dump.Dumper.Traversal.{
  branch-Keeps, Keeps, Handlers, dump_packet-Keeps, flush_dumper-Keeps,
}
use aribcap_dump.Service.{
  other_table, teardown_target_service, tdt_table, reserved_section_pids, Externals, CaptionDumper,
  Emitter, eit_table, tot_table, pmt_table, pat_table, Table, EitTable, Pmt,
}
use aribcap_dump.Service.Setting.{
  AllSet, IsWanted, teardown-HasOptions, sync-HasOptions, HasOptions, update-AllSet, lookup-AllSet,
  AllWanted,
}
use aribcap_dump.Captions.Setting.{handle_pes-AllFrom, handle_pes-emit_empty_captions}
use aribcap_dump.Captions.{time_of, handle_pes}
use aribcap_dump.Eit.{deserialize_eit}
use aribcap_dump.Captions.Records.{AllFrom}
use aribcap_dump.Eit.Versions.{handle_eit-AllSelected, handle_eit-output_mode, AllSelected}
use aribcap_dump.Clock.{same_pid, TsPacket}
use aribcap_dump.TsUtils.{parse_pes_pts, PesPacket}
use aribcap_dump.Prelude.Int.{ℤ}
use aribcap_dump.Output.{diagnostic, caption, eit, OutputRecord}
use aribcap_dump.Dumper.{
  collision, decode_with, handle_pat, handle_tot, flush_dumper, dump_packet, handle_pes_packet,
  handle_table, handle_eit_table, handle_pmt, handle_entry, switch_pmt_pid,
}
use aribcap_dump.Eit.Emitter.{handle_eit, EitOutputMode}
use aribcap_dump.Prelude.{
  all_unit, ap, sym, subst₂, arith, is_none, ◌==◌, ◌||◌, subst, ◌∙◌, none, false, ◌≡◌, not, lookup,
  some, [], ◌∷◌, Option, ℕ, List, Bool, refl,
}

module _ (sid : ℕ) (empty : Bool) (mode : EitOutputMode) where
  selected-AllWanted :
      (rs : List OutputRecord) → AllSelected mode sid rs → AllWanted sid empty mode rs
  selected-AllWanted [] a = tt
  selected-AllWanted (eit r ∷ rs) a = (a.0, selected-AllWanted rs a.1)
  selected-AllWanted (caption c ∷ rs) a = absurd a.0
  selected-AllWanted (diagnostic d ∷ rs) a = absurd a.0

  from-AllWanted :
      (pid : ℕ) (time : Option ℤ) (rs : List OutputRecord)
      → AllFrom pid time empty rs
      → AllWanted sid empty mode rs
  from-AllWanted pid time [] a = tt
  from-AllWanted pid time (caption c ∷ rs) a = (a.0.1, from-AllWanted pid time rs a.1)
  from-AllWanted pid time (eit r ∷ rs) a = absurd a.0
  from-AllWanted pid time (diagnostic d ∷ rs) a = (tt, from-AllWanted pid time rs a.1)

module _ (x : Externals) (sid : ℕ) (empty : Bool) (mode : EitOutputMode) where
  -- What a handler leaves behind and prints is as the options have it.
  abbrev pub Obeys : CaptionDumper x × List OutputRecord → Type 0
  Obeys r = Keeps x (HasOptions x sid empty mode) (IsWanted sid empty mode) r

  switch-HasOptions :
      (d : CaptionDumper x) (pmt_pid : ℕ)
      → HasOptions x sid empty mode d
      → HasOptions x sid empty mode (switch_pmt_pid x d pmt_pid)
  unfolding switch_pmt_pid
  switch-HasOptions d pmt_pid v =
      let w =
        if-Inv x (HasOptions x sid empty mode) (not (is_none d.current_pmt_pid))
          (teardown_target_service x d) d (teardown-HasOptions x sid empty mode d v) v in
      record { target = w.target; dumper = w.dumper; events = w.events; emitters = w.emitters }

  handle_entry-Obeys :
      (d : CaptionDumper x) (o : Option ℕ)
      → HasOptions x sid empty mode d
      → Obeys (handle_entry x d o)
  unfolding handle_entry
  handle_entry-Obeys d none v = (teardown-HasOptions x sid empty mode d v, tt)
  handle_entry-Obeys d (some pmt_pid) v =
      branch-Keeps x (HasOptions x sid empty mode) (IsWanted sid empty mode)
        (reserved_section_pids x pmt_pid) (d, collision x pmt_pid) _ (λ y. (v, (tt, tt)))
        (λ n.
          branch-Keeps x (HasOptions x sid empty mode) (IsWanted sid empty mode)
            (same_pid d.current_pmt_pid pmt_pid) (d, []) (switch_pmt_pid x d pmt_pid, [])
            (λ y. (v, tt)) (λ m. (switch-HasOptions d pmt_pid v, tt)))

  handle_pmt-HasOptions :
      (d : CaptionDumper x) (pmt : Pmt)
      → HasOptions x sid empty mode d
      → HasOptions x sid empty mode (handle_pmt x d pmt)
  unfolding handle_pmt
  handle_pmt-HasOptions d pmt v =
      if-Inv x (HasOptions x sid empty mode)
        (not pmt.is_valid || not (pmt.service_id == d.target_sid)) d _ v
        (sync-HasOptions x sid empty mode _ pmt.source_pid pmt.streams (record {
          target = v.target;
          dumper = v.dumper;
          events = v.events;
          emitters = v.emitters;
        }))

  again :
      (d e : CaptionDumper x)
      → HasOptions x sid empty mode d
      → d.target_sid ≡ e.target_sid
      → d.emit_empty_captions ≡ e.emit_empty_captions
      → d.eit_emitter ≡ e.eit_emitter
      → d.caption_emitters ≡ e.caption_emitters
      → HasOptions x sid empty mode e
  again d e v a b c f = record {
    target = sym a ∙ v.target;
    dumper = sym b ∙ v.dumper;
    events = ap (λ m. m.output_mode) (sym c) ∙ v.events;
    emitters = subst (AllSet x empty) f v.emitters;
  }

  -- An EIT that passes the guards is one of the target service.
  service_of_target :
      (d : CaptionDumper x) (table : EitTable)
      → d.target_sid ≡ sid
      → (not table.is_valid || not (table.table_id_extension == d.target_sid)) ≡ false
      → not table.eit.is_valid ≡ false
      → table.eit.service_id ≡ sid
  service_of_target d table e n m = ground (arith, n, table.service_id_eq (ground (arith, m)), e)

  handle_eit_table-Obeys :
      (d : CaptionDumper x) (table : EitTable)
      → HasOptions x sid empty mode d
      → Obeys (handle_eit_table x d table)
  unfolding handle_eit_table deserialize_eit
  handle_eit_table-Obeys d table v =
      let des =
        deserialize_eit x.eit_payload_fixed_size table.eit table.version table.present_section in
      let r = handle_eit d.eit_emitter des in
      let f : CaptionDumper x = record d { eit_emitter = r.0 } in
      let w : HasOptions x sid empty mode f = record {
        target = v.target;
        dumper = v.dumper;
        events = handle_eit-output_mode d.eit_emitter des ∙ v.events;
        emitters = v.emitters;
      } in
      branch-Keeps x (HasOptions x sid empty mode) (IsWanted sid empty mode)
        (not table.is_valid || not (table.table_id_extension == d.target_sid)) (d, []) _
        (λ y. (v, tt))
        (λ n.
          branch-Keeps x (HasOptions x sid empty mode) (IsWanted sid empty mode)
            (not des.eit.is_valid) (d, []) (f, r.1) (λ y. (v, tt))
            (λ m. (
              w,
              selected-AllWanted sid empty mode r.1 (
                  subst₂ (λ k i. AllSelected k i r.1) v.events
                    (service_of_target d table v.target n m)
                    (handle_eit-AllSelected d.eit_emitter des)),
            )))

  handle_table-Obeys :
      (d : CaptionDumper x) (table : Table)
      → HasOptions x sid empty mode d
      → Obeys (handle_table x d table)
  unfolding handle_table handle_tot handle_pat
  handle_table-Obeys d (pat_table pat) v =
      branch-Keeps x (HasOptions x sid empty mode) (IsWanted sid empty mode) (not pat.is_valid)
        (d, []) (handle_entry x d (lookup d.target_sid pat.pmts)) (λ n. (v, tt))
        (λ y. handle_entry-Obeys d (lookup d.target_sid pat.pmts) v)
  handle_table-Obeys d (pmt_table pmt) v = (handle_pmt-HasOptions d pmt v, tt)
  handle_table-Obeys d (tot_table tot) v = (
    record { target = v.target; dumper = v.dumper; events = v.events; emitters = v.emitters },
    tt,
  )
  handle_table-Obeys d tdt_table v = (v, tt)
  handle_table-Obeys d (eit_table table) v = handle_eit_table-Obeys d table v
  handle_table-Obeys d other_table v = (v, tt)

  handle_pes_packet-Obeys :
      (d : CaptionDumper x) (packet : PesPacket)
      → HasOptions x sid empty mode d
      → Obeys (handle_pes_packet x d packet)
  unfolding handle_pes_packet
  handle_pes_packet-Obeys d packet v = of_emitter (lookup packet.source_pid d.caption_emitters) refl
    where
      of_emitter :
          (o : Option (Emitter x))
          → lookup packet.source_pid d.caption_emitters ≡ o
          → Obeys (decode_with x d packet o)
      of_emitter none l = (v, tt)
      of_emitter (some e) l =
          let r = handle_pes x.decoders x.timing x.reader e d.program_clock packet in
          let time =
            time_of x.decoders x.timing x.reader d.program_clock (parse_pes_pts x.reader packet) in
          let s = lookup-AllSet x empty packet.source_pid d.caption_emitters v.emitters l in
          (
            record {
              target = v.target;
              dumper = v.dumper;
              events = v.events;
              emitters =
                  update-AllSet x empty packet.source_pid r.0 d.caption_emitters
                    (handle_pes-emit_empty_captions x.decoders x.timing x.reader e d.program_clock
                        packet
                      ∙ s)
                    v.emitters;
            },
            from-AllWanted sid empty mode packet.source_pid time r.1 (
                subst (λ b. AllFrom packet.source_pid time b r.1) s
                  (handle_pes-AllFrom x.decoders x.timing x.reader e d.program_clock packet)),
          )

  handlers-Obeys :
      Handlers x (HasOptions x sid empty mode) (λ table. Unit {0}) (IsWanted sid empty mode)
  handlers-Obeys = record {
    clock = λ d packet v. again d _ v refl refl refl refl;
    section = λ d packet v. again d _ v refl refl refl refl;
    pes = λ d packet v. again d _ v refl refl refl refl;
    flush = λ d v. again d _ v refl refl refl refl;
    table = λ d table a v. handle_table-Obeys d table v;
    pes_packet = handle_pes_packet-Obeys;
    discontinuity = λ c. tt;
  }

  pub dump_packet-Obeys :
      (d : CaptionDumper x) (packet : TsPacket)
      → HasOptions x sid empty mode d
      → Obeys (dump_packet x d packet)
  dump_packet-Obeys d packet v =
      dump_packet-Keeps x (HasOptions x sid empty mode) (λ table. Unit {0})
        (IsWanted sid empty mode) handlers-Obeys d packet
        (all_unit (x.section.feed_packet d.section_demux packet).1) v

  pub flush_dumper-Obeys :
      (d : CaptionDumper x) → HasOptions x sid empty mode d → Obeys (flush_dumper x d)
  flush_dumper-Obeys d v =
      flush_dumper-Keeps x (HasOptions x sid empty mode) (λ table. Unit {0})
        (IsWanted sid empty mode) handlers-Obeys d v

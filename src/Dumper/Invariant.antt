-- ===== src/Dumper/Invariant.antt =====
-- The filters of the demultiplexers and the rest of the state, over the calls of the dumper.
use aribcap_dump.Service.Traversal.{if-Inv}
use aribcap_dump.Dumper.Traversal.{Handlers, dump_packet-Keeps}
use aribcap_dump.Dumper.Switch.{teardown-current_pmt_pid, switch-IsValid}
use aribcap_dump.Eit.Emitter.{handle_eit}
use aribcap_dump.Eit.{deserialize_eit}
use aribcap_dump.Service.Preserve.{sync-IsValid, lookup-teardown}
use aribcap_dump.Output.{OutputRecord}
use aribcap_dump.Service.Invariant.{or_false, teardown-IsValid, IsValid}
use aribcap_dump.Clock.{same_pid, TsPacket}
use aribcap_dump.TsUtils.{PesPacket}
use aribcap_dump.Service.{
  other_table, tdt_table, eit_table, tot_table, pmt_table, pat_table, Table, EitTable, Pmt, Pat,
  teardown_target_service, CaptionDumper, Externals, Emitter, reserved_section_pids,
}
use aribcap_dump.Dumper.{
  collision, handle_tot, dump_packet, handle_pes_packet, handle_table, handle_eit_table, handle_pmt,
  handle_pat, handle_entry, switch_pmt_pid, decode_with,
}
use aribcap_dump.Prelude.{
  all_unit, ap₂, is_none-lookup-update, subst, sym, ◌==◌, lookup, is_none, ap, true, [], ◌∙◌, not,
  if◌then◌else◌, some, none, List, ℕ, ◌≡◌, Option, false, ◌||◌, Bool, refl,
}

module _ (x : Externals) where
  branch-IsValid :
      (b : Bool) (r q : CaptionDumper x × List OutputRecord)
      → IsValid x r.0
      → IsValid x q.0
      → IsValid x (if b then r else q).0
  branch-IsValid true r q v w = v
  branch-IsValid false r q v w = w

  handle_entry-IsValid :
      (d : CaptionDumper x) (o : Option ℕ) → IsValid x d → IsValid x (handle_entry x d o).0
  unfolding handle_entry
  handle_entry-IsValid d none v = teardown-IsValid x d v
  handle_entry-IsValid d (some pmt_pid) v =
      of_tests (reserved_section_pids x pmt_pid) (same_pid d.current_pmt_pid pmt_pid) refl
    where
      entry : Bool → Bool → CaptionDumper x × List OutputRecord
      entry r s =
          if r
          then (d, collision x pmt_pid)
          else if s
          then (d, [])
          else (switch_pmt_pid x d pmt_pid, [])

      of_tests : (r s : Bool) → reserved_section_pids x pmt_pid ≡ r → IsValid x (entry r s).0
      of_tests true s e = v
      of_tests false true e = v
      of_tests false false e = switch-IsValid x d pmt_pid e v

  handle_pat-IsValid :
      (d : CaptionDumper x) (pat : Pat) → IsValid x d → IsValid x (handle_pat x d pat).0
  unfolding handle_pat
  handle_pat-IsValid d pat v =
      branch-IsValid (not pat.is_valid) (d, []) (handle_entry x d (lookup d.target_sid pat.pmts)) v
        (handle_entry-IsValid d (lookup d.target_sid pat.pmts) v)

  handle_pmt-IsValid :
      (d : CaptionDumper x) (pmt : Pmt) → IsValid x d → IsValid x (handle_pmt x d pmt)
  unfolding handle_pmt
  handle_pmt-IsValid d pmt v =
      if-Inv x (IsValid x) (not pmt.is_valid || not (pmt.service_id == d.target_sid)) d _ v (
        sync-IsValid x _ pmt.source_pid pmt.streams (record {
          emitter_pids = v.emitter_pids;
          section_pids = v.section_pids;
          not_reserved = v.not_reserved;
        }))

  handle_eit_table-IsValid :
      (d : CaptionDumper x) (table : EitTable)
      → IsValid x d
      → IsValid x (handle_eit_table x d table).0
  unfolding handle_eit_table
  handle_eit_table-IsValid d table v =
      let des =
        deserialize_eit x.eit_payload_fixed_size table.eit table.version table.present_section in
      let r = handle_eit d.eit_emitter des in
      let f : CaptionDumper x = record d { eit_emitter = r.0 } in
      let w : IsValid x f = record {
        emitter_pids = v.emitter_pids;
        section_pids = v.section_pids;
        not_reserved = v.not_reserved;
      } in
      branch-IsValid (not table.is_valid || not (table.table_id_extension == d.target_sid)) (d, [])
        (if not des.eit.is_valid then (d, []) else (f, r.1)) v
        (branch-IsValid (not des.eit.is_valid) (d, []) (f, r.1) v w)

  handle_table-IsValid :
      (d : CaptionDumper x) (table : Table) → IsValid x d → IsValid x (handle_table x d table).0
  unfolding handle_table handle_tot
  handle_table-IsValid d (pat_table pat) v = handle_pat-IsValid d pat v
  handle_table-IsValid d (pmt_table pmt) v = handle_pmt-IsValid d pmt v
  handle_table-IsValid d (tot_table tot) v = record {
    emitter_pids = v.emitter_pids;
    section_pids = v.section_pids;
    not_reserved = v.not_reserved;
  }
  handle_table-IsValid d tdt_table v = v
  handle_table-IsValid d (eit_table table) v = handle_eit_table-IsValid d table v
  handle_table-IsValid d other_table v = v

  handle_pes_packet-IsValid :
      (d : CaptionDumper x) (packet : PesPacket)
      → IsValid x d
      → IsValid x (handle_pes_packet x d packet).0
  unfolding handle_pes_packet
  handle_pes_packet-IsValid d packet v = of_emitter (lookup packet.source_pid d.caption_emitters)
    where
      of_emitter : (o : Option (Emitter x)) → IsValid x (decode_with x d packet o).0
      of_emitter none = v
      of_emitter (some e) = record {
        emitter_pids = λ p.
            v.emitter_pids p
            ∙ ap not (sym (is_none-lookup-update packet.source_pid p _ d.caption_emitters));
        section_pids = v.section_pids;
        not_reserved = v.not_reserved;
      }

  -- The demultiplexers keep their filters as they take packets.
  handlers-IsValid : Handlers x (IsValid x) (λ table. Unit {0}) (λ r. Unit {0})
  handlers-IsValid = record {
    clock = λ d packet v. record {
      emitter_pids = v.emitter_pids;
      section_pids = v.section_pids;
      not_reserved = v.not_reserved;
    };
    section = λ d packet v. record {
      emitter_pids = v.emitter_pids;
      section_pids = λ p. x.section.has_pid-feed_packet d.section_demux packet p ∙ v.section_pids p;
      not_reserved = v.not_reserved;
    };
    pes = λ d packet v. record {
      emitter_pids = λ p. x.pes.has_pid-feed_packet d.pes_demux packet p ∙ v.emitter_pids p;
      section_pids = v.section_pids;
      not_reserved = v.not_reserved;
    };
    flush = λ d v. record {
      emitter_pids = λ p. x.pes.has_pid-flush d.pes_demux p ∙ v.emitter_pids p;
      section_pids = v.section_pids;
      not_reserved = v.not_reserved;
    };
    table = λ d table a v. (handle_table-IsValid d table v, all_unit _);
    pes_packet = λ d packet v. (handle_pes_packet-IsValid d packet v, all_unit _);
    discontinuity = λ c. tt;
  }

  -- After a packet the filters agree with the state if they did before: the PES demultiplexer is given
  -- the PIDs that have an emitter, the section demultiplexer the reserved ones and that of the PMT,
  -- and no PMT has taken a reserved PID.
  pub dump_packet-IsValid :
      (d : CaptionDumper x) (packet : TsPacket) → IsValid x d → IsValid x (dump_packet x d packet).0
  dump_packet-IsValid d packet v =
      (dump_packet-Keeps x (IsValid x) (λ table. Unit {0}) (λ r. Unit {0}) handlers-IsValid d packet
        (all_unit (x.section.feed_packet d.section_demux packet).1) v).0

  -- A valid PAT that does not list the service leaves no PMT PID, no emitter of any PID, no PID for
  -- the PES demultiplexer and the reserved ones for the section demultiplexer.
  pub handle_pat_unlisted :
      (d : CaptionDumper x) (pat : Pat) (p : ℕ)
      → IsValid x d
      → pat.is_valid ≡ true
      → lookup d.target_sid pat.pmts ≡ none
      → let e = (handle_pat x d pat).0 in
        (e.current_pmt_pid ≡ none)
        × (lookup p e.caption_emitters ≡ none)
        × (x.pes.has_pid e.pes_demux p ≡ false)
        × (x.section.has_pid e.section_demux p ≡ reserved_section_pids x p)
  unfolding handle_pat handle_entry
  handle_pat_unlisted d pat p v valid absent =
      let e = teardown_target_service x d in
      let w = teardown-IsValid x d v in
      let c = teardown-current_pmt_pid x d in
      let l = lookup-teardown x d p in
      let torn : (handle_pat x d pat).0 ≡ e =
        ap₂ (λ b o. (if not b then (d, []) else handle_entry x d o).0) valid absent in
      subst
        (λ f.
          (f.current_pmt_pid ≡ none)
          × (lookup p f.caption_emitters ≡ none)
          × (x.pes.has_pid f.pes_demux p ≡ false)
          × (x.section.has_pid f.section_demux p ≡ reserved_section_pids x p))
        (sym torn)
        (
          c,
          l,
          w.emitter_pids p ∙ ap (λ o. not (is_none o)) l,
          w.section_pids p
              ∙ ap (λ o. reserved_section_pids x p || same_pid o p) c
              ∙ or_false (reserved_section_pids x p),
        )

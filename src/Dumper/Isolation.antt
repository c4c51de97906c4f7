-- ===== src/Dumper/Isolation.antt =====
-- Tables that are not about the service.
use aribcap_dump.Service.{reserved_section_pids}
use aribcap_dump.Clock.{same_pid, set_pcr_pid}
use aribcap_dump.Output.{OutputRecord}
use aribcap_dump.Service.Traversal.{if-Inv, sync-Inv}
use aribcap_dump.Service.Traversal.{teardown-Inv, Registers}
use aribcap_dump.Clock.Invariant.{update_invalid}
use aribcap_dump.Eit.{deserialize_eit}
use aribcap_dump.Dumper.{
  collision, switch_pmt_pid, handle_tables, handle_entry, handle_eit_table, handle_tot, handle_pmt,
  handle_pat, handle_table,
}
use aribcap_dump.Service.{
  sync_caption_streams, drop_pmt_pid, teardown_target_service, unregister_caption_stream,
  register_caption_stream, eit_table, tot_table, CaptionDumper, pmt_table, pat_table, Table,
  tdt_table, other_table, Externals,
}
use aribcap_dump.Prelude.{
  is_none, ◌∙◌, sym, subst, ◌++◌, lookup, none, some, Option, inr, inl, arith, Bool-cases, true,
  ◌||◌, ap, not, false, ◌≡◌, ◌==◌, ◌&&◌, [], if◌then◌else◌, ◌∷◌, Bool, List, ℕ, refl,
}

-- The table is valid, and is a PAT, a TOT, or the service's PMT or EIT.
abbrev pub concerns : ℕ → Table → Bool
concerns sid (pat_table pat) = pat.is_valid
concerns sid (pmt_table pmt) = pmt.is_valid && (pmt.service_id == sid)
concerns sid (tot_table tot) = tot.is_valid
concerns sid tdt_table = false
concerns sid (eit_table table) =
    table.is_valid && ((table.table_id_extension == sid) && table.eit.is_valid)
concerns sid other_table = false

abbrev pub only_concerning : ℕ → List Table → List Table
only_concerning sid [] = []
only_concerning sid (table ∷ tables) =
    let rest = only_concerning sid tables in if concerns sid table then table ∷ rest else rest

once : {A : Type 0} (a : Bool) (r q : A) → a ≡ true → (if a then r else q) ≡ r
once true r q h = refl
once false r q h = cc

twice :
    {A : Type 0} (a b : Bool) (r q : A)
    → (a || b) ≡ true
    → (if a then r else if b then r else q) ≡ r
twice true b r q h = refl
twice false true r q h = refl
twice false false r q h = cc

module _ (x : Externals) where
  handle_table-other :
      (d : CaptionDumper x) (table : Table)
      → concerns d.target_sid table ≡ false
      → handle_table x d table ≡ (d, [])
  unfolding handle_table handle_pat handle_pmt handle_tot handle_eit_table deserialize_eit
  handle_table-other d (pat_table pat) h = rw h refl
  handle_table-other d (pmt_table pmt) h =
      ap (λ e. (e, []))
        (once (not pmt.is_valid || not (pmt.service_id == d.target_sid)) d _ (ground (arith, h)))
  handle_table-other d (tot_table tot) h =
      ap (λ c. (record d { program_clock = c }, [])) (update_invalid d.program_clock tot h)
  handle_table-other d tdt_table h = refl
  handle_table-other d (eit_table table) h =
      twice (not table.is_valid || not (table.table_id_extension == d.target_sid))
        (not table.eit.is_valid) (d, []) _ (ground (arith, h))
  handle_table-other d other_table h = refl

  abbrev Targets : ℕ → CaptionDumper x → Type 0
  Targets sid d = d.target_sid ≡ sid

  registers-Targets : (sid : ℕ) → Registers x (Targets sid)
  unfolding register_caption_stream unregister_caption_stream
  registers-Targets sid = record {
    register = λ d pid profile absent e. e;
    unregister = λ d pid e. e;
  }

  teardown-Targets :
      (sid : ℕ) (d : CaptionDumper x) → Targets sid d → Targets sid (teardown_target_service x d)
  teardown-Targets sid d e =
      teardown-Inv x (Targets sid) (registers-Targets sid) d (drop d.current_pmt_pid)
    where
      drop : (o : Option ℕ) → Targets sid (drop_pmt_pid x d o)
      drop none = e
      drop (some pid) = e

  branch-Targets :
      (sid : ℕ) (b : Bool) (r q : CaptionDumper x × List OutputRecord)
      → Targets sid r.0
      → Targets sid q.0
      → Targets sid (if b then r else q).0
  branch-Targets sid true r q e f = e
  branch-Targets sid false r q e f = f

  handle_entry-Targets :
      (sid : ℕ) (d : CaptionDumper x) (o : Option ℕ)
      → Targets sid d
      → Targets sid (handle_entry x d o).0
  unfolding handle_entry switch_pmt_pid
  handle_entry-Targets sid d none e = teardown-Targets sid d e
  handle_entry-Targets sid d (some pmt_pid) e =
      branch-Targets sid (reserved_section_pids x pmt_pid) (d, collision x pmt_pid) _ e
        (branch-Targets sid (same_pid d.current_pmt_pid pmt_pid) (d, [])
          (switch_pmt_pid x d pmt_pid, []) e
          (if-Inv x (Targets sid) (not (is_none d.current_pmt_pid)) (teardown_target_service x d) d
            (teardown-Targets sid d e) e))

  handle_table-Targets :
      (sid : ℕ) (d : CaptionDumper x) (table : Table)
      → Targets sid d
      → Targets sid (handle_table x d table).0
  unfolding handle_table handle_pat handle_pmt handle_tot handle_eit_table
  handle_table-Targets sid d (pat_table pat) e =
      branch-Targets sid (not pat.is_valid) (d, []) _ e
        (handle_entry-Targets sid d (lookup d.target_sid pat.pmts) e)
  handle_table-Targets sid d (pmt_table pmt) e =
      let f : CaptionDumper x = record d {
        program_clock = set_pcr_pid x.timing d.program_clock pmt.pcr_pid;
      } in
      if-Inv x (Targets sid) (not pmt.is_valid || not (pmt.service_id == d.target_sid)) d
        (sync_caption_streams x f pmt.source_pid pmt.streams) e
        (sync-Inv x (Targets sid) (registers-Targets sid) f pmt.source_pid pmt.streams e)
  handle_table-Targets sid d (tot_table tot) e = e
  handle_table-Targets sid d tdt_table e = e
  handle_table-Targets sid d (eit_table table) e =
      branch-Targets sid (not table.is_valid || not (table.table_id_extension == d.target_sid))
        (d, []) _ e (branch-Targets sid _ (d, []) _ e e)
  handle_table-Targets sid d other_table e = e

  of_service :
      (sid : ℕ) (d : CaptionDumper x) (tables : List Table)
      → Targets sid d
      → handle_tables x d tables ≡ handle_tables x d (only_concerning sid tables)
  unfolding handle_tables
  of_service sid d [] e = refl
  of_service sid d (table ∷ tables) e =
      let r = handle_table x d table in
      let ih = of_service sid r.0 tables (handle_table-Targets sid d table e) in
      elim (Bool-cases (concerns sid table)) [
        | inl y ↦ rw y (ap (λ q. (q.0, r.1 ++ q.1)) ih)
        | inr n ↦
            let none_done =
              handle_table-other d table (subst (λ i. concerns i table ≡ false) (sym e) n) in
            rw n (
              ap (λ q. ((handle_tables x q.0 tables).0, q.1 ++ (handle_tables x q.0 tables).1))
                none_done
              ∙ of_service sid d tables e)
      ]

  -- What a dumper does with the tables that it is given, one after the other, is what it does with
  -- those alone that are valid and are a PAT, a TOT, or a PMT or an EIT of its service: all other
  -- tables change nothing and print nothing.
  pub handle_tables-only_concerning :
      (d : CaptionDumper x) (tables : List Table)
      → handle_tables x d tables ≡ handle_tables x d (only_concerning d.target_sid tables)
  handle_tables-only_concerning d tables = of_service d.target_sid d tables refl

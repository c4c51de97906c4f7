-- ===== src/Dumper/Moved.antt =====
-- A PAT that gives the PMT of the service another PID.
use aribcap_dump.Dumper.Switch.{teardown-current_pmt_pid}
use aribcap_dump.Service.Preserve.{lookup-teardown}
use aribcap_dump.Clock.{same_pid}
use aribcap_dump.Service.{
  teardown_target_service, reserved_section_pids, Pat, CaptionDumper, Externals,
}
use aribcap_dump.Service.Invariant.{or_false, teardown-IsValid, IsValid}
use aribcap_dump.Dumper.{collision, handle_entry, switch_pmt_pid, handle_pat}
use aribcap_dump.Prelude.{
  sym, subst, is_none, ==_ne, ap, ◌∙◌, ◌||◌, not, ◌==◌, if◌then◌else◌, none, ap₂, [], ◌≢◌, false,
  some, lookup, true, ◌≡◌, ℕ, refl,
}

module _ (x : Externals) where
  handle_pat-switch :
      (d : CaptionDumper x) (pat : Pat) {r q : ℕ}
      → pat.is_valid ≡ true
      → lookup d.target_sid pat.pmts ≡ some q
      → reserved_section_pids x q ≡ false
      → d.current_pmt_pid ≡ some r
      → r ≢ q
      → handle_pat x d pat ≡ (switch_pmt_pid x d q, [])
  unfolding handle_pat handle_entry
  handle_pat-switch d pat {r} {q} valid listed free current other =
      ap₂ (λ b o. if not b then (d, []) else handle_entry x d o) valid listed
      ∙ ap₂
          (λ b c.
            if b
            then (d, collision x q)
            else if same_pid c q
            then (d, [])
            else (switch_pmt_pid x d q, []))
          free current
      ∙ ap (λ b. if b then (d, []) else (switch_pmt_pid x d q, [])) (==_ne r q other)

  -- A valid PAT that moves the service's PMT from one PID to another, which is not reserved, prints
  -- nothing, and leaves no emitter of any PID; the PES demultiplexer is given no PID, and the section
  -- demultiplexer the reserved ones and the new one.
  pub handle_pat_moved :
      (d : CaptionDumper x) (pat : Pat) (p : ℕ) {r q : ℕ}
      → IsValid x d
      → pat.is_valid ≡ true
      → lookup d.target_sid pat.pmts ≡ some q
      → reserved_section_pids x q ≡ false
      → d.current_pmt_pid ≡ some r
      → r ≢ q
      → let (e, records) = handle_pat x d pat in
        (records ≡ [])
        × (e.current_pmt_pid ≡ some q)
        × (lookup p e.caption_emitters ≡ none)
        × (x.pes.has_pid e.pes_demux p ≡ false)
        × (x.section.has_pid e.section_demux p ≡ (q == p) || reserved_section_pids x p)
  unfolding switch_pmt_pid
  handle_pat_moved d pat p {r} {q} v valid listed free current other =
      let torn = teardown_target_service x d in
      let w = teardown-IsValid x d v in
      let c = teardown-current_pmt_pid x d in
      let l = lookup-teardown x d p in
      let e : CaptionDumper x = record torn {
        current_pmt_pid = some q;
        section_demux = x.section.add_pid torn.section_demux q;
      } in
      let moved : handle_pat x d pat ≡ (e, []) =
        handle_pat-switch d pat valid listed free current other
        ∙ ap
            (λ o.
              let f = if not (is_none o) then torn else d in
              (
                record f {
                  current_pmt_pid = some q;
                  section_demux = x.section.add_pid f.section_demux q;
                },
                [],
              ))
            current in
      subst
        (λ a.
          (a.1 ≡ [])
          × (a.0.current_pmt_pid ≡ some q)
          × (lookup p a.0.caption_emitters ≡ none)
          × (x.pes.has_pid a.0.pes_demux p ≡ false)
          × (x.section.has_pid a.0.section_demux p ≡ (q == p) || reserved_section_pids x p))
        (sym moved)
        (
          refl,
          refl,
          l,
          w.emitter_pids p ∙ ap (λ o. not (is_none o)) l,
          x.section.has_pid-add_pid torn.section_demux q p
              ∙ ap (λ b. (q == p) || b)
                  (w.section_pids p
                    ∙ ap (λ o. reserved_section_pids x p || same_pid o p) c
                    ∙ or_false (reserved_section_pids x p)),
        )

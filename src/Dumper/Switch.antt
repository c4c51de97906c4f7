-- ===== src/Dumper/Switch.antt =====
-- The PMT's PID: dropped with the service, and taken from a PAT.
use aribcap_dump.Service.Traversal.{Registers, teardown-Inv}
use aribcap_dump.Service.Invariant.{teardown-IsValid, IsValid}
use aribcap_dump.Clock.{same_pid}
use aribcap_dump.Service.{
  register_caption_stream, unregister_caption_stream, teardown_target_service, CaptionDumper,
  Externals, reserved_section_pids, drop_pmt_pid,
}
use aribcap_dump.Dumper.{switch_pmt_pid}
use aribcap_dump.Prelude.{
  arith, subst, ◌==◌, is_none, ap, true, ◌∙◌, not, if◌then◌else◌, some, none, ℕ, ◌≡◌, Option, false,
  ◌||◌, Bool, refl,
}

or_swap : (r b : Bool) → b || (r || false) ≡ r || b
or_swap true true = refl
or_swap false true = refl
or_swap true false = refl
or_swap false false = refl

module _ (x : Externals) where
  drop-current_pmt_pid :
      (d : CaptionDumper x) (o : Option ℕ)
      → d.current_pmt_pid ≡ o
      → (drop_pmt_pid x d o).current_pmt_pid ≡ none
  drop-current_pmt_pid d none c = c
  drop-current_pmt_pid d (some pid) c = refl

  -- Of the state the registrations change only the emitters and their filter.
  registers-current_pmt_pid : Registers x (λ d. d.current_pmt_pid ≡ none)
  unfolding register_caption_stream unregister_caption_stream
  registers-current_pmt_pid = record {
    register = λ d pid profile absent c. c;
    unregister = λ d pid c. c;
  }

  pub teardown-current_pmt_pid :
      (d : CaptionDumper x) → (teardown_target_service x d).current_pmt_pid ≡ none
  teardown-current_pmt_pid d =
      teardown-Inv x (λ e. e.current_pmt_pid ≡ none) registers-current_pmt_pid d
        (drop-current_pmt_pid d d.current_pmt_pid refl)

  adopt-IsValid :
      (e : CaptionDumper x) (pmt_pid : ℕ)
      → e.current_pmt_pid ≡ none
      → reserved_section_pids x pmt_pid ≡ false
      → IsValid x e
      → IsValid x (record e {
        current_pmt_pid = some pmt_pid;
        section_demux = x.section.add_pid e.section_demux pmt_pid;
      })
  adopt-IsValid e pmt_pid c free v = record {
    emitter_pids = v.emitter_pids;
    section_pids = λ p.
        x.section.has_pid-add_pid e.section_demux pmt_pid p
        ∙ ap (λ b. (pmt_pid == p) || b)
            (v.section_pids p ∙ ap (λ o. reserved_section_pids x p || same_pid o p) c)
        ∙ or_swap (reserved_section_pids x p) (pmt_pid == p);
    not_reserved = λ p h. subst (λ q. reserved_section_pids x q ≡ false) (ground (arith, h)) free;
  }

  pub switch-IsValid :
      (d : CaptionDumper x) (pmt_pid : ℕ)
      → reserved_section_pids x pmt_pid ≡ false
      → IsValid x d
      → IsValid x (switch_pmt_pid x d pmt_pid)
  unfolding switch_pmt_pid
  switch-IsValid d pmt_pid free v = of_current d.current_pmt_pid refl
    where
      of_current :
          (o : Option ℕ)
          → d.current_pmt_pid ≡ o
          → let e = if not (is_none o) then teardown_target_service x d else d in
            IsValid x (record e {
              current_pmt_pid = some pmt_pid;
              section_demux = x.section.add_pid e.section_demux pmt_pid;
            })
      of_current none c = adopt-IsValid d pmt_pid c free v
      of_current (some q) c =
          adopt-IsValid (teardown_target_service x d) pmt_pid (teardown-current_pmt_pid d) free
            (teardown-IsValid x d v)

-- ===== src/Service/Invariant.antt =====
-- The filters of the two demultiplexers and the rest of the state.
use aribcap_dump.Service.Traversal.{Registers, teardown-Inv}
use aribcap_dump.Captions.{new_emitter}
use aribcap_dump.Clock.{same_pid}
use aribcap_dump.Eit.Emitter.{EitOutputMode}
use aribcap_dump.Classifier.{Profile}
use aribcap_dump.Service.{
  new_dumper, teardown_target_service, register_caption_stream, unregister_caption_stream,
  CaptionDumper, Externals, reserved_section_pids, drop_pmt_pid,
}
use aribcap_dump.Prelude.{
  lookup-insert, ◌==◌, sym, ap, arith, ◌∙◌, if◌then◌else◌, ◌&&◌, false, true, ◌||◌, none, is_none,
  some, lookup, not, Option, lookup-erase, Bool, ◌≡◌, ℕ, refl,
}

pub or_false : (b : Bool) → (b || false) ≡ b
or_false true = refl
or_false false = refl

-- `has` is the old filter, `r` is whether a PID is reserved and `b` whether it is the one removed.
dropped :
    (r b : Bool) {has : Bool} → has ≡ r || b → (b ≡ true → r ≡ false) → not b && has ≡ r || false
dropped true true h n = ground (arith, n refl)
dropped false true h n = refl
dropped true false h n = h
dropped false false h n = h

added :
    {A : Type 0} (b : Bool) {has : Bool} (old new : Option A) (v : A)
    → has ≡ not (is_none old)
    → new ≡ (if b then some v else old)
    → b || has ≡ not (is_none new)
added true old new v h n = ap (λ o. not (is_none o)) (sym n)
added false old new v h n = h ∙ ap (λ o. not (is_none o)) (sym n)

module _ (x : Externals) where
  -- The PES demultiplexer is given the PIDs that have an emitter; the section demultiplexer is given
  -- the reserved ones and that of the PMT, which is none of them.
  pub record IsValid (d : CaptionDumper x) : Type 0 where
    pub emitter_pids :
        (p : ℕ) → x.pes.has_pid d.pes_demux p ≡ not (is_none (lookup p d.caption_emitters))
    pub section_pids :
        (p : ℕ)
        → x.section.has_pid d.section_demux p
          ≡ reserved_section_pids x p || same_pid d.current_pmt_pid p
    pub not_reserved :
        (p : ℕ) → same_pid d.current_pmt_pid p ≡ true → reserved_section_pids x p ≡ false

  pub new_dumper-IsValid :
      (sid : ℕ) (empty : Bool) (mode : EitOutputMode) → IsValid (new_dumper x sid empty mode)
  new_dumper-IsValid sid empty mode = record {
    emitter_pids = λ p. x.new_pes_demux_eq p;
    section_pids = λ p. x.new_section_demux_eq p ∙ sym (or_false (reserved_section_pids x p));
    not_reserved = λ p h. ground (arith, h);
  }

  unregister-IsValid :
      (d : CaptionDumper x) (pid : ℕ) → IsValid d → IsValid (unregister_caption_stream x d pid)
  unfolding unregister_caption_stream
  unregister-IsValid d pid v = record {
    emitter_pids = λ p. ground (
      arith,
      x.pes.has_pid-remove_pid d.pes_demux pid p,
      lookup-erase pid p d.caption_emitters,
      v.emitter_pids p,
    );
    section_pids = v.section_pids;
    not_reserved = v.not_reserved;
  }

  register-IsValid :
      (d : CaptionDumper x) (pid : ℕ) (profile : Profile)
      → lookup pid d.caption_emitters ≡ none
      → IsValid d
      → IsValid (register_caption_stream x d pid profile)
  unfolding register_caption_stream
  register-IsValid d pid profile absent v = record {
    emitter_pids = λ p.
        x.pes.has_pid-add_pid d.pes_demux pid p
        ∙ added (pid == p) _ _ _ (v.emitter_pids p) (
            lookup-insert pid p (new_emitter x.decoders profile d.emit_empty_captions)
              d.caption_emitters absent);
    section_pids = v.section_pids;
    not_reserved = v.not_reserved;
  }

  pub registers-IsValid : Registers x IsValid
  registers-IsValid = record { register = register-IsValid; unregister = unregister-IsValid }

  drop-IsValid :
      (d : CaptionDumper x) (current : Option ℕ)
      → d.current_pmt_pid ≡ current
      → IsValid d
      → IsValid (drop_pmt_pid x d current)
  drop-IsValid d none c v = v
  drop-IsValid d (some pid) c v = record {
    emitter_pids = v.emitter_pids;
    section_pids = λ p.
        x.section.has_pid-remove_pid d.section_demux pid p
        ∙ dropped (reserved_section_pids x p) (pid == p)
            (v.section_pids p ∙ ap (λ o. reserved_section_pids x p || same_pid o p) c)
            (λ h. v.not_reserved p (ap (λ o. same_pid o p) c ∙ h));
    not_reserved = λ p h. ground (arith, h);
  }

  pub teardown-IsValid : (d : CaptionDumper x) → IsValid d → IsValid (teardown_target_service x d)
  teardown-IsValid d v =
      teardown-Inv x IsValid registers-IsValid d (drop-IsValid d d.current_pmt_pid refl v)

-- ===== src/Service/Setting.antt =====
-- The options of a run, which the dumper hands on to every emitter.
use aribcap_dump.Eit.Versions.{Asks}
use aribcap_dump.Service.Traversal.{Registers, teardown-Inv, sync-Inv}
use aribcap_dump.Classifier.{Stream, Profile}
use aribcap_dump.Captions.{new_emitter}
use aribcap_dump.Output.{diagnostic, eit, caption, OutputRecord}
use aribcap_dump.Eit.Emitter.{EitOutputMode}
use aribcap_dump.Service.{
  drop_pmt_pid, sync_caption_streams, teardown_target_service, register_caption_stream,
  unregister_caption_stream, CaptionDumper, Emitter, Externals,
}
use aribcap_dump.Prelude.{
  All, inr, arith, inl, ◌⊎◌, none, Bool-cases, ltb, false, true, [], some, update, insert, ◌==◌,
  is_empty, Option, lookup, ◌≡◌, erase, if◌then◌else◌, ◌∷◌, ℕ, List, Bool,
}

-- A record that the options ask for: no caption without text unless those are wanted, and only events
-- of the target service and of the sections asked for. Diagnostics are always printed.
abbrev pub IsWanted : ℕ → Bool → EitOutputMode → OutputRecord → Type 0
IsWanted sid empty mode (caption c) = (is_empty c.text ≡ false) ⊎ (empty ≡ true)
IsWanted sid empty mode (eit r) = Asks mode r.section × (r.service_id ≡ sid)
IsWanted sid empty mode (diagnostic d) = Unit {0}

abbrev pub AllWanted : ℕ → Bool → EitOutputMode → List OutputRecord → Type 0
AllWanted sid empty mode rs = All (IsWanted sid empty mode) rs

module _ (x : Externals) (empty : Bool) where
  -- Every emitter has the option.
  abbrev pub AllSet : List (ℕ × Emitter x) → Type 0
  AllSet [] = Unit {0}
  AllSet (e ∷ es) = (e.1.emit_empty_captions ≡ empty) × AllSet es

  AllSet-if :
      (b : Bool) (es fs : List (ℕ × Emitter x))
      → AllSet es
      → AllSet fs
      → AllSet (if b then es else fs)
  AllSet-if true es fs h k = h
  AllSet-if false es fs h k = k

  pub erase-AllSet : (pid : ℕ) (es : List (ℕ × Emitter x)) → AllSet es → AllSet (erase pid es)
  erase-AllSet pid [] a = tt
  erase-AllSet pid (e ∷ es) a =
      let ih = erase-AllSet pid es a.1 in
      AllSet-if (e.0 == pid) (erase pid es) (e ∷ erase pid es) ih (a.0, ih)

  pub insert-AllSet :
      (pid : ℕ) (e : Emitter x) (es : List (ℕ × Emitter x))
      → e.emit_empty_captions ≡ empty
      → AllSet es
      → AllSet (insert pid e es)
  insert-AllSet pid e [] s a = (s, tt)
  insert-AllSet pid e (f ∷ es) s a = AllSet-if (f.0 == pid) (f ∷ es) _ a (
      AllSet-if (ltb pid f.0) ((pid, e) ∷ f ∷ es) (f ∷ insert pid e es) (s, a)
        (a.0, insert-AllSet pid e es s a.1))

  pub update-AllSet :
      (pid : ℕ) (e : Emitter x) (es : List (ℕ × Emitter x))
      → e.emit_empty_captions ≡ empty
      → AllSet es
      → AllSet (update pid e es)
  update-AllSet pid e [] s a = tt
  update-AllSet pid e (f ∷ es) s a =
      let ih = update-AllSet pid e es s a.1 in
      AllSet-if (f.0 == pid) ((pid, e) ∷ update pid e es) (f ∷ update pid e es) (s, ih) (a.0, ih)

  pub lookup-AllSet :
      (pid : ℕ) (es : List (ℕ × Emitter x)) {e : Emitter x}
      → AllSet es
      → lookup pid es ≡ some e
      → e.emit_empty_captions ≡ empty
  lookup-AllSet pid [] a l = cc
  lookup-AllSet pid (f ∷ es) {e = e} a l = elim (Bool-cases (f.0 == pid)) [
    | inl y ↦ ground (arith, y, l, a.0)
    | inr n ↦ lookup-AllSet pid es {e = e} a.1 (ground (arith, n, l))
  ]

module _ (x : Externals) (sid : ℕ) (empty : Bool) (mode : EitOutputMode) where
  -- The dumper and what it drives have the options.
  pub record HasOptions (d : CaptionDumper x) : Type 0 where
    pub target : d.target_sid ≡ sid
    pub dumper : d.emit_empty_captions ≡ empty
    pub events : d.eit_emitter.output_mode ≡ mode
    pub emitters : AllSet x empty d.caption_emitters

  unregister-HasOptions :
      (d : CaptionDumper x) (pid : ℕ)
      → HasOptions d
      → HasOptions (unregister_caption_stream x d pid)
  unfolding unregister_caption_stream
  unregister-HasOptions d pid v = record {
    target = v.target;
    dumper = v.dumper;
    events = v.events;
    emitters = erase-AllSet x empty pid d.caption_emitters v.emitters;
  }

  register-HasOptions :
      (d : CaptionDumper x) (pid : ℕ) (profile : Profile)
      → HasOptions d
      → HasOptions (register_caption_stream x d pid profile)
  unfolding register_caption_stream new_emitter
  register-HasOptions d pid profile v = record {
    target = v.target;
    dumper = v.dumper;
    events = v.events;
    emitters = insert-AllSet x empty pid _ d.caption_emitters v.dumper v.emitters;
  }

  registers-HasOptions : Registers x HasOptions
  registers-HasOptions = record {
    register = λ d pid profile absent v. register-HasOptions d pid profile v;
    unregister = unregister-HasOptions;
  }

  drop-HasOptions :
      (d : CaptionDumper x) (o : Option ℕ) → HasOptions d → HasOptions (drop_pmt_pid x d o)
  drop-HasOptions d none v = v
  drop-HasOptions d (some pid) v = record {
    target = v.target;
    dumper = v.dumper;
    events = v.events;
    emitters = v.emitters;
  }

  pub teardown-HasOptions :
      (d : CaptionDumper x) → HasOptions d → HasOptions (teardown_target_service x d)
  teardown-HasOptions d v =
      teardown-Inv x HasOptions registers-HasOptions d (drop-HasOptions d d.current_pmt_pid v)

  pub sync-HasOptions :
      (d : CaptionDumper x) (pmt_pid : ℕ) (streams : List (ℕ × Stream))
      → HasOptions d
      → HasOptions (sync_caption_streams x d pmt_pid streams)
  sync-HasOptions = sync-Inv x HasOptions registers-HasOptions

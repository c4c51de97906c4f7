-- ===== src/Service/Traversal.antt =====
-- The loops over the caption streams, for any invariant of the state.
use aribcap_dump.Service.Lookups.{if_self}
use aribcap_dump.Classifier.{Stream, Profile}
use aribcap_dump.Service.{
  same_profile, register_caption_stream, desired_streams, Emitter, unregister_caption_stream,
  drop_pmt_pid, sync_caption_streams, register_desired, reconcile, unregister_undesired,
  teardown_target_service, unregister_all, CaptionDumper, Externals,
}
use aribcap_dump.Prelude.{
  ◌∙◌, lookup-erase, [], not, some, none, false, is_none, ◌≡◌, true, Option, keys, ◌∷◌, lookup,
  List, if◌then◌else◌, Bool, ℕ, refl,
}

module _ (x : Externals) (Inv : CaptionDumper x → Type 0) where
  -- What the single registrations owe: each keeps the invariant.
  pub record Registers : Type 0 where
    pub register :
        (d : CaptionDumper x) (pid : ℕ) (profile : Profile)
        → lookup pid d.caption_emitters ≡ none
        → Inv d
        → Inv (register_caption_stream x d pid profile)
    pub unregister :
        (d : CaptionDumper x) (pid : ℕ) → Inv d → Inv (unregister_caption_stream x d pid)

  pub if-Inv : (b : Bool) (d e : CaptionDumper x) → Inv d → Inv e → Inv (if b then d else e)
  if-Inv true d e v w = v
  if-Inv false d e v w = w

  module _ (r : Registers) where
    unregister_all-Inv :
        (d : CaptionDumper x) (pids : List ℕ) → Inv d → Inv (unregister_all x d pids)
    unfolding unregister_all
    unregister_all-Inv d [] v = v
    unregister_all-Inv d (pid ∷ pids) v =
        unregister_all-Inv (unregister_caption_stream x d pid) pids (r.unregister d pid v)

    pub teardown-Inv :
        (d : CaptionDumper x)
        → Inv (drop_pmt_pid x d d.current_pmt_pid)
        → Inv (teardown_target_service x d)
    unfolding teardown_target_service
    teardown-Inv d v =
        let e = drop_pmt_pid x d d.current_pmt_pid in
        unregister_all-Inv e (keys e.caption_emitters) v

    unregister_undesired-Inv :
        (d : CaptionDumper x) (desired : List (ℕ × Profile)) (pids : List ℕ)
        → Inv d
        → Inv (unregister_undesired x d desired pids)
    unfolding unregister_undesired
    unregister_undesired-Inv d desired [] v = v
    unregister_undesired-Inv d desired (pid ∷ pids) v =
        let b = is_none (lookup pid desired) in
        let e = unregister_caption_stream x d pid in
        unregister_undesired-Inv (if b then e else d) desired pids
          (if-Inv b e d (r.unregister d pid v) v)

    reconcile-Inv :
        (d : CaptionDumper x) (pid : ℕ) (profile : Profile) (o : Option (Emitter x))
        → lookup pid d.caption_emitters ≡ o
        → Inv d
        → Inv (reconcile x d pid profile o)
    unfolding reconcile unregister_caption_stream
    reconcile-Inv d pid profile none a v = r.register d pid profile a v
    reconcile-Inv d pid profile (some e) a v =
        let f = unregister_caption_stream x d pid in
        if-Inv (not (same_profile x e.profile profile)) (register_caption_stream x f pid profile) d
          (r.register f pid profile (lookup-erase pid pid d.caption_emitters ∙ if_self pid _)
            (r.unregister d pid v))
          v

    register_desired-Inv :
        (d : CaptionDumper x) (desired : List (ℕ × Profile))
        → Inv d
        → Inv (register_desired x d desired)
    unfolding register_desired
    register_desired-Inv d [] v = v
    register_desired-Inv d (s ∷ desired) v =
        let o = lookup s.0 d.caption_emitters in
        register_desired-Inv (reconcile x d s.0 s.1 o) desired (reconcile-Inv d s.0 s.1 o refl v)

    pub sync-Inv :
        (d : CaptionDumper x) (pmt_pid : ℕ) (streams : List (ℕ × Stream))
        → Inv d
        → Inv (sync_caption_streams x d pmt_pid streams)
    unfolding sync_caption_streams
    sync-Inv d pmt_pid streams v =
        let desired = desired_streams x pmt_pid streams in
        let pids = keys d.caption_emitters in
        register_desired-Inv (unregister_undesired x d desired pids) desired
          (unregister_undesired-Inv d desired pids v)

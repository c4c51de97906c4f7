-- ===== src/Service/Preserve.antt =====
-- The filters over a PMT, and over the end of a service.
use aribcap_dump.Service.Traversal.{sync-Inv}
use aribcap_dump.Service.Invariant.{registers-IsValid}
use aribcap_dump.Service.Lookups.{lookup-keys, contains}
use aribcap_dump.Classifier.{Stream}
use aribcap_dump.Service.Invariant.{IsValid}
use aribcap_dump.Service.{
  unregister_caption_stream, CaptionDumper, teardown_target_service, unregister_all,
  sync_caption_streams, Externals, Emitter, drop_pmt_pid,
}
use aribcap_dump.Prelude.{
  inr, inl, Bool-cases, arith, lookup-erase, ap, ◌∙◌, [], none, keys, ◌≡◌, ◌∷◌, lookup,
  if◌then◌else◌, ℕ, List, refl,
}

module _ (x : Externals) where
  pub sync-IsValid :
      (d : CaptionDumper x) (pmt_pid : ℕ) (streams : List (ℕ × Stream))
      → IsValid x d
      → IsValid x (sync_caption_streams x d pmt_pid streams)
  sync-IsValid = sync-Inv x (IsValid x) (registers-IsValid x)

  lookup-unregister_all :
      (d : CaptionDumper x) (pids : List ℕ) (p : ℕ)
      → lookup p (unregister_all x d pids).caption_emitters
        ≡ (if contains p pids then none else lookup p d.caption_emitters)
  unfolding unregister_all unregister_caption_stream
  lookup-unregister_all d [] p = refl
  lookup-unregister_all d (pid ∷ pids) p =
      lookup-unregister_all (unregister_caption_stream x d pid) pids p
      ∙ ap (λ o. if contains p pids then none else o) (lookup-erase pid p d.caption_emitters)
      ∙ ground arith

  gone :
      (p : ℕ) (es : List (ℕ × Emitter x))
      → (if contains p (keys es) then none else lookup p es) ≡ none
  gone p es = elim (Bool-cases (contains p (keys es))) [
    | inl y ↦ ap (λ b. if b then none else lookup p es) y
    | inr n ↦ ap (λ b. if b then none else lookup p es) n ∙ lookup-keys p es n
  ]

  -- Once the service is torn down no PID has an emitter.
  pub lookup-teardown :
      (d : CaptionDumper x) (p : ℕ) → lookup p (teardown_target_service x d).caption_emitters ≡ none
  unfolding teardown_target_service
  lookup-teardown d p =
      let e = drop_pmt_pid x d d.current_pmt_pid in
      lookup-unregister_all e (keys e.caption_emitters) p ∙ gone p e.caption_emitters

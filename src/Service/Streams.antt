-- ===== src/Service/Streams.antt =====
-- Which caption streams are registered after a PMT.
use aribcap_dump.Service.Desired.{wanted, lookup-desired_streams, desired_streams-HasDistinctKeys}
use aribcap_dump.Captions.{new_emitter}
use aribcap_dump.Service.Lookups.{
  lookup-keys, lookup_other, if_not, lookup_same, unregistered, if_same, if_other, if_self,
  contains, if_ap, HasDistinctKeys,
}
use aribcap_dump.Classifier.{Profile, Stream}
use aribcap_dump.Service.{
  CaptionDumper, register_caption_stream, unregister_caption_stream, sync_caption_streams,
  register_desired, reconcile, unregister_undesired, desired_streams, Externals, Emitter,
  same_profile,
}
use aribcap_dump.Prelude.{
  inr, inl, [], Bool-cases, insert, sym, ap₂, ap, subst, not, lookup-erase, ◌&&◌, ◌∙◌, ℕ_discrete,
  keys, lookup-insert, is_none, ◌∷◌, arith, none, some, if◌then◌else◌, erase, ◌≢◌, ◌≡◌, lookup,
  List, Option, Bool, ℕ, refl,
}

module _ (x : Externals) where
  lookup-unregister_undesired :
      (d : CaptionDumper x) (desired : List (ℕ × Profile)) (pids : List ℕ) (p : ℕ)
      → lookup p (unregister_undesired x d desired pids).caption_emitters ≡ (
          if is_none (lookup p desired) && contains p pids
          then none
          else lookup p d.caption_emitters)
  unfolding unregister_undesired unregister_caption_stream
  lookup-unregister_undesired d desired [] p = ground arith
  lookup-unregister_undesired d desired (pid ∷ pids) p =
      if_ap (λ e. lookup p (unregister_undesired x e desired pids).caption_emitters)
        (is_none (lookup pid desired)) (unregister_caption_stream x d pid) d
      ∙ ap₂ (λ a b. if is_none (lookup pid desired) then a else b)
          (lookup-unregister_undesired (unregister_caption_stream x d pid) desired pids p
            ∙ ap (λ o. if is_none (lookup p desired) && contains p pids then none else o)
                (lookup-erase pid p d.caption_emitters))
          (lookup-unregister_undesired d desired pids p)
      ∙ unregistered pid p (contains p pids) desired (lookup p d.caption_emitters)

  unregister_undesired-emit_empty_captions :
      (d : CaptionDumper x) (desired : List (ℕ × Profile)) (pids : List ℕ)
      → (unregister_undesired x d desired pids).emit_empty_captions ≡ d.emit_empty_captions
  unfolding unregister_undesired unregister_caption_stream
  unregister_undesired-emit_empty_captions d desired [] = refl
  unregister_undesired-emit_empty_captions d desired (pid ∷ pids) =
      if_ap (λ e. (unregister_undesired x e desired pids).emit_empty_captions)
        (is_none (lookup pid desired)) (unregister_caption_stream x d pid) d
      ∙ ap₂ (λ a b. if is_none (lookup pid desired) then a else b)
          (unregister_undesired-emit_empty_captions (unregister_caption_stream x d pid) desired
            pids)
          (unregister_undesired-emit_empty_captions d desired pids)
      ∙ if_same (is_none (lookup pid desired)) d.emit_empty_captions

  -- The emitter that a PID with one of `old` has when `wanted` is its profile.
  abbrev pub settled : Bool → Option Profile → Option (Emitter x) → Option (Emitter x)
  settled empty none old = none
  settled empty (some profile) none = some (new_emitter x.decoders profile empty)
  settled empty (some profile) (some e) =
      if same_profile x e.profile profile
      then some e
      else some (new_emitter x.decoders profile empty)

  lookup-erase_same : (p : ℕ) (es : List (ℕ × Emitter x)) → lookup p (erase p es) ≡ none
  lookup-erase_same p es = lookup-erase p p es ∙ if_self p _

  lookup-reconcile_same :
      (d : CaptionDumper x) (pid : ℕ) (profile : Profile) (o : Option (Emitter x))
      → lookup pid d.caption_emitters ≡ o
      → lookup pid (reconcile x d pid profile o).caption_emitters
        ≡ settled d.emit_empty_captions (some profile) o
  unfolding reconcile register_caption_stream unregister_caption_stream
  lookup-reconcile_same d pid profile none a =
      lookup-insert pid pid (new_emitter x.decoders profile d.emit_empty_captions)
        d.caption_emitters a
      ∙ if_self pid _
  lookup-reconcile_same d pid profile (some e) a =
      let v = new_emitter x.decoders profile d.emit_empty_captions in
      let es = d.caption_emitters in
      let fresh : lookup pid (insert pid v (erase pid es)) ≡ some v =
        lookup-insert pid pid v (erase pid es) (lookup-erase_same pid es) ∙ if_self pid _ in
      if_ap (λ c. lookup pid c.caption_emitters) (not (same_profile x e.profile profile)) _ d
      ∙ ap₂ (λ b c. if not (same_profile x e.profile profile) then b else c) fresh a
      ∙ if_not (same_profile x e.profile profile) (some v) (some e)

  lookup-reconcile_other :
      (d : CaptionDumper x) (pid p : ℕ) (profile : Profile) (o : Option (Emitter x))
      → lookup pid d.caption_emitters ≡ o
      → pid ≢ p
      → lookup p (reconcile x d pid profile o).caption_emitters ≡ lookup p d.caption_emitters
  unfolding reconcile register_caption_stream unregister_caption_stream
  lookup-reconcile_other d pid p profile none a n =
      lookup-insert pid p (new_emitter x.decoders profile d.emit_empty_captions) d.caption_emitters
        a
      ∙ if_other pid p _ n
  lookup-reconcile_other d pid p profile (some e) a n =
      let v = new_emitter x.decoders profile d.emit_empty_captions in
      let es = d.caption_emitters in
      let kept : lookup p (insert pid v (erase pid es)) ≡ lookup p es =
        lookup-insert pid p v (erase pid es) (lookup-erase_same pid es)
        ∙ if_other pid p _ n
        ∙ lookup-erase pid p es
        ∙ if_other pid p _ n in
      if_ap (λ c. lookup p c.caption_emitters) (not (same_profile x e.profile profile)) _ d
      ∙ ap (λ b. if not (same_profile x e.profile profile) then b else lookup p es) kept
      ∙ if_same (not (same_profile x e.profile profile)) (lookup p es)

  reconcile-emit_empty_captions :
      (d : CaptionDumper x) (pid : ℕ) (profile : Profile) (o : Option (Emitter x))
      → (reconcile x d pid profile o).emit_empty_captions ≡ d.emit_empty_captions
  unfolding reconcile register_caption_stream unregister_caption_stream
  reconcile-emit_empty_captions d pid profile none = refl
  reconcile-emit_empty_captions d pid profile (some e) =
      if_ap (λ c. c.emit_empty_captions) (not (same_profile x e.profile profile)) _ d
      ∙ if_same (not (same_profile x e.profile profile)) d.emit_empty_captions

  abbrev registered : Bool → Option Profile → Option (Emitter x) → Option (Emitter x)
  registered empty none old = old
  registered empty (some profile) old = settled empty (some profile) old

  lookup-register_desired :
      (d : CaptionDumper x) (desired : List (ℕ × Profile)) (p : ℕ)
      → HasDistinctKeys desired
      → lookup p (register_desired x d desired).caption_emitters
        ≡ registered d.emit_empty_captions (lookup p desired) (lookup p d.caption_emitters)
  unfolding register_desired
  lookup-register_desired d [] p h = refl
  lookup-register_desired d (s ∷ desired) p h =
      let old = lookup s.0 d.caption_emitters in
      let e = reconcile x d s.0 s.1 old in
      let rest : (q : ℕ)
          → lookup q (register_desired x d (s ∷ desired)).caption_emitters
            ≡ registered d.emit_empty_captions (lookup q desired) (lookup q e.caption_emitters) =
        λ q.
          lookup-register_desired e desired q h.1
          ∙ ap (λ b. registered b (lookup q desired) (lookup q e.caption_emitters))
              (reconcile-emit_empty_captions d s.0 s.1 old) in
      elim (ℕ_discrete s.0 p) [
        | yes k ↦
            subst
              (λ q.
                lookup q (register_desired x d (s ∷ desired)).caption_emitters
                ≡ registered d.emit_empty_captions (lookup q (s ∷ desired))
                    (lookup q d.caption_emitters))
              k
              (rest s.0
                ∙ ap₂ (registered d.emit_empty_captions) h.0
                    (lookup-reconcile_same d s.0 s.1 old refl)
                ∙ ap (λ o. registered d.emit_empty_captions o old)
                    (sym (lookup_same s.0 s.1 desired)))
        | no n ↦
            rest p
            ∙ ap₂ (registered d.emit_empty_captions) (sym (lookup_other s.0 p s.1 desired n))
                (lookup-reconcile_other d s.0 p s.1 old refl n)
      ]

  settled_lem :
      (empty : Bool) (o : Option Profile) (p : ℕ) (es : List (ℕ × Emitter x))
      → registered empty o (if is_none o && contains p (keys es) then none else lookup p es)
        ≡ settled empty o (lookup p es)
  settled_lem empty none p es = elim (Bool-cases (contains p (keys es))) [
    | inl y ↦ ap (λ b. if b then none else lookup p es) y
    | inr n ↦ ap (λ b. if b then none else lookup p es) n ∙ lookup-keys p es n
  ]
  settled_lem empty (some profile) p es = refl

  -- After a PMT whose streams have different PIDs, a PID has an emitter exactly if the PMT lists it as
  -- a caption stream; the emitter is the one it had if that has the stream's profile, and a new one
  -- with that profile otherwise.
  pub sync_caption_streams_lem :
      (d : CaptionDumper x) (pmt_pid p : ℕ) (streams : List (ℕ × Stream))
      → HasDistinctKeys streams
      → lookup p (sync_caption_streams x d pmt_pid streams).caption_emitters
        ≡ settled d.emit_empty_captions
            (wanted x pmt_pid (lookup p streams))
            (lookup p d.caption_emitters)
  unfolding sync_caption_streams
  sync_caption_streams_lem d pmt_pid p streams h =
      let desired = desired_streams x pmt_pid streams in
      let e = unregister_undesired x d desired (keys d.caption_emitters) in
      lookup-register_desired e desired p (desired_streams-HasDistinctKeys x pmt_pid streams h)
      ∙ ap₂ (λ b o. registered b (lookup p desired) o)
          (unregister_undesired-emit_empty_captions d desired (keys d.caption_emitters))
          (lookup-unregister_undesired d desired (keys d.caption_emitters) p)
      ∙ settled_lem d.emit_empty_captions (lookup p desired) p d.caption_emitters
      ∙ ap (λ o. settled d.emit_empty_captions o (lookup p d.caption_emitters))
          (lookup-desired_streams x pmt_pid p streams h)

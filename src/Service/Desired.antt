-- ===== src/Service/Desired.antt =====
-- The streams that a PMT asks for.
use aribcap_dump.Service.Lookups.{lookup_other, lookup_same, HasDistinctKeys}
use aribcap_dump.Classifier.{classify_caption_stream, Profile, Stream}
use aribcap_dump.Service.{desired_streams, Externals, emplace}
use aribcap_dump.Prelude.{
  [], sym, ap, subst, ◌∙◌, ℕ_discrete, ◌∷◌, arith, none, some, ◌≢◌, ◌≡◌, lookup, List, Option, ℕ,
  refl,
}

module _ (x : Externals) where
  -- The profile that a PMT wants for a PID.
  abbrev pub wanted : ℕ → Option Stream → Option Profile
  wanted pmt_pid none = none
  wanted pmt_pid (some s) = classify_caption_stream x.st_pes_priv pmt_pid s

  lookup-emplace_same :
      (p : ℕ) (o : Option Profile) (desired : List (ℕ × Profile))
      → lookup p desired ≡ none
      → lookup p (emplace x p o desired) ≡ o
  lookup-emplace_same p none desired h = h
  lookup-emplace_same p (some profile) desired h = ground arith

  lookup-emplace_other :
      (k p : ℕ) (o : Option Profile) (desired : List (ℕ × Profile))
      → k ≢ p
      → lookup p (emplace x k o desired) ≡ lookup p desired
  lookup-emplace_other k p none desired n = refl
  lookup-emplace_other k p (some profile) desired n = ground (arith, n)

  emplace-HasDistinctKeys :
      (k : ℕ) (o : Option Profile) (desired : List (ℕ × Profile))
      → lookup k desired ≡ none
      → HasDistinctKeys desired
      → HasDistinctKeys (emplace x k o desired)
  emplace-HasDistinctKeys k none desired h u = u
  emplace-HasDistinctKeys k (some profile) desired h u = (h, u)

  pub lookup-desired_streams :
      (pmt_pid p : ℕ) (streams : List (ℕ × Stream))
      → HasDistinctKeys streams
      → lookup p (desired_streams x pmt_pid streams) ≡ wanted pmt_pid (lookup p streams)
  unfolding desired_streams
  lookup-desired_streams pmt_pid p [] h = refl
  lookup-desired_streams pmt_pid p (s ∷ streams) h = elim (ℕ_discrete s.0 p) [
    | yes e ↦
        subst
          (λ q.
            lookup q (desired_streams x pmt_pid (s ∷ streams))
            ≡ wanted pmt_pid (lookup q (s ∷ streams)))
          e
          (lookup-emplace_same s.0 (classify_caption_stream x.st_pes_priv pmt_pid s.1)
              (desired_streams x pmt_pid streams)
              (lookup-desired_streams pmt_pid s.0 streams h.1 ∙ ap (wanted pmt_pid) h.0)
            ∙ ap (wanted pmt_pid) (sym (lookup_same s.0 s.1 streams)))
    | no n ↦
        lookup-emplace_other s.0 p (classify_caption_stream x.st_pes_priv pmt_pid s.1)
          (desired_streams x pmt_pid streams) n
        ∙ lookup-desired_streams pmt_pid p streams h.1
        ∙ ap (wanted pmt_pid) (sym (lookup_other s.0 p s.1 streams n))
  ]

  pub desired_streams-HasDistinctKeys :
      (pmt_pid : ℕ) (streams : List (ℕ × Stream))
      → HasDistinctKeys streams
      → HasDistinctKeys (desired_streams x pmt_pid streams)
  unfolding desired_streams
  desired_streams-HasDistinctKeys pmt_pid [] h = tt
  desired_streams-HasDistinctKeys pmt_pid (s ∷ streams) h =
      emplace-HasDistinctKeys s.0 (classify_caption_stream x.st_pes_priv pmt_pid s.1)
        (desired_streams x pmt_pid streams)
        (lookup-desired_streams pmt_pid s.0 streams h.1 ∙ ap (wanted pmt_pid) h.0)
        (desired_streams-HasDistinctKeys pmt_pid streams h.1)

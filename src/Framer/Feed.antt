-- ===== src/Framer/Feed.antt =====
-- The loop of `Feed`: its fuel, the invariant, and the packets handed over.
use aribcap_dump.Framer.Locked.{feed_synced-Outcome}
use aribcap_dump.Framer.Probe.{feed_seeking_sync-Outcome}
use aribcap_dump.Framer.Window.{again, first}
use aribcap_dump.Framer.Spec.Deliver.{deliver-nil, deliver-append_true}
use aribcap_dump.Framer.Outcome.{
  rank-le, starved, rank, continued, Kept, prepend-nil, Outcome, measure, IsValid, prepend,
}
use aribcap_dump.Framer.Spec.{expected, deliver, Packet}
use aribcap_dump.Framer.{
  stop, need_more_data, continue, synced, feed, seeking_sync, initial_sync, Step, Mode, Framer,
  feed_loop, Fed, feed_by_mode, Ts,
}
use aribcap_dump.Prelude.{
  subst, zero, arith, ◌+◌, [], ap₂, inr, ◌*◌, inl, ◌≢◌, suc, ◌^◌, ◌<◌, ◌∷◌, none, append_assoc, ◌∙◌,
  length, false, sym, true, ap, some, ◌++◌, ℕ, ◌≡◌, Bool, Option, List, refl,
}

prepend-prepend :
    (ps qs : List Packet) (o : Option (List Packet))
    → prepend ps (prepend qs o) ≡ prepend (ps ++ qs) o
prepend-prepend ps qs none = refl
prepend-prepend ps qs (some xs) = ap some (sym (append_assoc ps qs xs))

prepend-some :
    (ps : List Packet) (o : Option (List Packet)) (qs : List Packet)
    → o ≡ some qs
    → prepend ps o ≡ some (ps ++ qs)
prepend-some ps o qs e = ap (prepend ps) e

module _ {S : Type 0} (ts : Ts) (on_packet : Packet → S → Bool × S) where
  -- What a call of `Feed` achieves.
  pub data FeedOutcome (owed : List ℕ → Option (List Packet)) (s : S)
      : Fed ts on_packet → Type 0 where
    fed :
        {g : Framer} {t : S} (ps : List Packet)
        → Kept owed ps
        → ((rest : List ℕ) → owed rest ≡ prepend ps (expected ts g (g.pending ++ rest)))
        → deliver on_packet ps s ≡ (true, t)
        → IsValid ts g
        → FeedOutcome owed s (true, g, t)
    refused :
        {g : Framer} {t : S}
        → ((rest : List ℕ)
            → (qs : List Packet) × (owed rest ≡ some qs) × (deliver on_packet qs s ≡ (false, t)))
        → g.initial_sync_failed ≡ false
        → FeedOutcome owed s (false, g, t)
    lost :
        {g : Framer} {t : S}
        → ((rest : List ℕ) → owed rest ≡ none)
        → t ≡ s
        → g.initial_sync_failed ≡ true
        → FeedOutcome owed s (false, g, t)

  abbrev pub Owed : Type 0
  Owed = List ℕ → Option (List Packet)

  by_mode :
      (t : Mode) (f : Framer) (b : ℕ) (bs : List ℕ) (s : S)
      → f.mode ≡ t
      → IsValid ts f
      → length (b ∷ bs) < 2 ^ 63
      → Outcome ts on_packet
          (λ rest. expected ts f (f.pending ++ (b ∷ bs ++ rest)))
          s
          (measure f (b ∷ bs))
          (feed_by_mode ts on_packet t f (b ∷ bs) s)
  unfolding feed_by_mode
  by_mode initial_sync f b bs s md v l =
      feed_seeking_sync-Outcome ts on_packet first f (b ∷ bs) s md v refl l
  by_mode seeking_sync f b bs s md v l =
      feed_seeking_sync-Outcome ts on_packet again f (b ∷ bs) s md v refl l
  by_mode synced f b bs s md v l = feed_synced-Outcome ts on_packet f b bs s md v

  prepend-ne_none : (ps : List Packet) (o : Option (List Packet)) → o ≢ none → prepend ps o ≢ none
  prepend-ne_none ps none h e = h refl
  prepend-ne_none ps (some qs) h e = cc

  Kept-append :
      {owed owed' : Owed} (ps qs : List Packet)
      → ((rest : List ℕ) → owed rest ≡ prepend ps (owed' rest))
      → Kept owed ps
      → Kept owed' qs
      → Kept owed (ps ++ qs)
  Kept-append ps qs o (inr k) l = inr k
  Kept-append ps qs o (inl e) (inl e') = inl (ap₂ ◌++◌ e e')
  Kept-append ps qs o (inl e) (inr k) =
      inr (λ rest h. prepend-ne_none ps _ (k rest) (sym (o rest) ∙ h))

  -- Packets handed over before come first.
  pub after :
      {owed owed' : Owed} {s t : S} {r : Fed ts on_packet} (ps : List Packet)
      → Kept owed ps
      → ((rest : List ℕ) → owed rest ≡ prepend ps (owed' rest))
      → deliver on_packet ps s ≡ (true, t)
      → FeedOutcome owed' t r
      → FeedOutcome owed s r
  after {s = s} {t = t} ps k o d (fed qs k' o' d' v) =
      fed (ps ++ qs) (Kept-append ps qs o k k')
        (λ rest. o rest ∙ ap (prepend ps) (o' rest) ∙ prepend-prepend ps qs _)
        (deliver-append_true on_packet ps qs s t d ∙ d') v
  after {s = s} {t = t} ps k o d (refused r u) =
      refused
        (λ rest. (
          ps ++ (r rest).0,
          o rest ∙ prepend-some ps _ _ (r rest).1,
          deliver-append_true on_packet ps _ s t d ∙ (r rest).2,
        ))
        u
  after {s = s} {t = t} ps (inl e) o d (lost l e' u) =
      let same : t ≡ s =
        ap (λ x. x.1) (sym d ∙ ap (λ k. deliver on_packet k s) e ∙ deliver-nil on_packet s) in
      lost (λ rest. o rest ∙ ap (prepend ps) (l rest)) (e' ∙ same) u
  after {s = s} {t = t} ps (inr k) o d (lost l e' u) = absurd (k [] (o [] ∙ ap (prepend ps) (l [])))

  abbrev pub Loops : Owed → S → Option (Fed ts on_packet) → Type 0
  Loops owed s o = (r : Fed ts on_packet) × (o ≡ some r) × FeedOutcome owed s r

  -- With fuel above the measure the loop ends.
  feed_loop-Loops :
      (n : ℕ) (f : Framer) (cursor : List ℕ) (s : S)
      → IsValid ts f
      → measure f cursor < n
      → length cursor < 2 ^ 63
      → Loops
          (λ rest. expected ts f (f.pending ++ (cursor ++ rest)))
          s
          (feed_loop ts on_packet n f cursor s)
  unfolding feed_loop
  feed_loop-Loops zero f cursor s v m l = elim m [ ]
  feed_loop-Loops (suc n) f [] s v m l =
      (_, refl, fed [] (inl refl) (λ rest. sym (prepend-nil _)) (deliver-nil on_packet s) v)
  feed_loop-Loops (suc n) f (b ∷ bs) s v m l =
      round (feed_by_mode ts on_packet f.mode f (b ∷ bs) s) (by_mode f.mode f b bs s refl v l)
        (λ g d t w k. feed_loop-Loops n g d t w (omega arith) (omega (arith, rank-le f.mode)))
    where
      owed : Owed
      owed rest = expected ts f (f.pending ++ (b ∷ bs ++ rest))

      round :
          (r : Step ts on_packet)
          → Outcome ts on_packet owed s (measure f (b ∷ bs)) r
          → ((g : Framer) (d : List ℕ) (t : S)
              → IsValid ts g
              → measure g d < measure f (b ∷ bs)
              → Loops
                  (λ rest. expected ts g (g.pending ++ (d ++ rest)))
                  t
                  (feed_loop ts on_packet n g d t))
          → Loops owed s (elim r.0 [
            | continue ↦ feed_loop ts on_packet n r.1 r.2 r.3
            | need_more_data ↦ some (true, r.1, r.3)
            | stop ↦ some (false, r.1, r.3)
          ])
      round _ (continued {g} {d} {t} ps kp o e w k) next =
          let (r, q, x) = next g d t w k in (r, q, after ps kp o e x)
      round _ (starved ps kp o e w) next = (_, refl, fed ps kp o e w)
      round _ (aribcap_dump.Framer.Outcome.refused r u) next = (_, refl, refused r u)
      round _ (aribcap_dump.Framer.Outcome.lost r e u) next = (_, refl, lost r e u)

  -- A call of `Feed` on a valid framer ends, and hands over what the input completes.
  pub feed-Loops :
      (f : Framer) (bytes : List ℕ) (s : S)
      → IsValid ts f
      → length bytes < 2 ^ 63
      → Loops (λ rest. expected ts f (f.pending ++ (bytes ++ rest))) s (feed ts on_packet f bytes s)
  unfolding feed
  feed-Loops f bytes s v l =
      feed_loop-Loops (2 * length bytes + 2) f bytes s v (omega (arith, rank-le f.mode)) l

  kept :
      {owed : Owed} {s : S} {r : Fed ts on_packet}
      → FeedOutcome owed s r
      → r.0 ≡ true
      → IsValid ts r.1
  kept (fed ps k o d w) h = w
  kept (refused q u) h = cc
  kept (lost q e' u) h = cc

  -- `Feed` on a valid framer and an input that fits a `size_t` keeps the invariant, if it returns
  -- true: the bytes buffered stay within the probe window or the packet, and begin with a sync byte.
  pub feed-IsValid :
      (f g : Framer) (bytes : List ℕ) (s t : S)
      → IsValid ts f
      → length bytes < 2 ^ 63
      → feed ts on_packet f bytes s ≡ some (true, g, t)
      → IsValid ts g
  feed-IsValid f g bytes s t v l e =
      let (r, e', o) = feed-Loops f bytes s v l in
      let same : r ≡ (true, g, t) = cc (e', e) in
      subst (λ q. IsValid ts q.1) same (kept o (ap (λ q. q.0) same))

  -- `Feed` on a valid framer and an input that fits a `size_t` ends within its fuel.
  pub feed_total :
      (f : Framer) (bytes : List ℕ) (s : S)
      → IsValid ts f
      → length bytes < 2 ^ 63
      → (r : Fed ts on_packet) × (feed ts on_packet f bytes s ≡ some r)
  feed_total f bytes s v l = let (r, e, o) = feed-Loops f bytes s v l in (r, e)

-- ===== src/Clock/Steady.antt =====
-- A stretch of the stream whose PCRs follow each other within a second.
use aribcap_dump.Clock.Invariant.{record_pcr-IsValid, IsValid}
use aribcap_dump.Clock.Suspect.{record_pcr_sane}
use aribcap_dump.Output.{PcrDiscontinuity}
use aribcap_dump.Clock.{TsPacket, pts_to_unix_ms, record_pcr, ProgramClock, Timing}
use aribcap_dump.Prelude.{
  ◌^◌, ◌%◌, inr, ◌+◌, subst, arith, ◌≤◌, inl, true, sym, ◌/◌, false, ◌∙◌, ◌⊎◌, none, ap, ap₂, ◌≢◌,
  some, ◌≡◌, ◌∷◌, [], List, ℕ, Option, refl,
}

-- Packets on which the PCRs of `pid` go on from `last` to `end`, each at most a second after the one
-- before it, round the wrap; packets of other PIDs, and without a PCR, may come between.
pub data Steady (t : Timing) (pid : ℕ) (end : ℕ) : ℕ → List TsPacket → Type 0 where
  done : Steady t pid end end []
  passing :
      {last : ℕ} {ps : List TsPacket} (p : TsPacket)
      → (p.pid ≢ pid) ⊎ (p.has_pcr ≡ false)
      → Steady t pid end last ps
      → Steady t pid end last (p ∷ ps)
  follows :
      {last : ℕ} {ps : List TsPacket} (p : TsPacket) (k : ℕ)
      → p.pid ≡ pid
      → p.has_pcr ≡ true
      → p.pcr ≤ t.max_pcr
      → p.pcr ≢ t.invalid_pcr
      → p.discontinuity_indicator ≡ false
      → k ≤ 90000
      → (last + k) % 2 ^ 33 ≡ p.pcr / 300
      → Steady t pid end (p.pcr / 300) ps
      → Steady t pid end last (p ∷ ps)

abbrev pub reported : Option PcrDiscontinuity → List PcrDiscontinuity → List PcrDiscontinuity
reported none ds = ds
reported (some d) ds = d ∷ ds

module _ (t : Timing) where
  -- The packets, one after the other, and all that is reported.
  unfoldable pub record_all : ProgramClock → List TsPacket → ProgramClock × List PcrDiscontinuity
  record_all c [] = (c, [])
  record_all c (p ∷ ps) =
      let r = record_pcr t c p in let q = record_all r.0 ps in (q.0, reported r.1 q.1)

  record_pcr_passing :
      (c : ProgramClock) (p : TsPacket) {pid : ℕ}
      → c.pcr_pid ≡ some pid
      → (p.pid ≢ pid) ⊎ (p.has_pcr ≡ false)
      → record_pcr t c p ≡ (c, none)
  unfolding record_pcr
  record_pcr_passing c p e (inl n) = ground (arith, e, n)
  record_pcr_passing c p e (inr n) = ground (arith, e, n)

  record_all-Steady :
      {pid end last : ℕ} {ps : List TsPacket}
      → Steady t pid end last ps
      → (c : ProgramClock) → IsValid t c
      → c.pcr_pid ≡ some pid
      → c.last_pcr_90k ≡ some last
      → c.suspect_pcr_count ≡ 0
      → record_all c ps ≡ (record c { last_pcr_90k = some end; suspect_pcr_count = 0 }, [])
  unfolding record_all
  record_all-Steady done c v e l s =
      ap₂ (λ a b. (record c { last_pcr_90k = a; suspect_pcr_count = b }, [])) l s
  record_all-Steady (passing {ps = ps} p n h) c v e l s =
      ap (λ r. ((record_all r.0 ps).0, reported r.1 (record_all r.0 ps).1))
        (record_pcr_passing c p e n)
      ∙ record_all-Steady h c v e l s
  record_all-Steady (follows {last = last} {ps = ps} p k a b m i f le q h) c v e l s =
      let d : ProgramClock = record c {
        last_pcr_90k = some (p.pcr / 300);
        suspect_pcr_count = 0;
      } in
      let sane : record_pcr t c p ≡ (d, none) =
        record_pcr_sane t c p last k v (e ∙ ap some (sym a), b, m, i, f) l le q in
      ap (λ r. ((record_all r.0 ps).0, reported r.1 (record_all r.0 ps).1)) sane
      ∙ record_all-Steady h d (subst (IsValid t) (ap (λ r. r.0) sane) (record_pcr-IsValid t c p v))
          e refl refl

  -- On a stretch of packets whose PCRs follow each other within a second, nothing is reported, and the
  -- clock converts every PTS after it as before it: only the last PCR is another one.
  pub pts_to_unix_ms-Steady :
      {pid end last : ℕ} {ps : List TsPacket}
      → Steady t pid end last ps
      → (c : ProgramClock) → IsValid t c
      → c.pcr_pid ≡ some pid
      → c.last_pcr_90k ≡ some last
      → c.suspect_pcr_count ≡ 0
      → let r = record_all c ps in
        (r.1 ≡ [])
        × (r.0.last_pcr_90k ≡ some end)
        × ((pts : ℕ) → pts_to_unix_ms t r.0 pts ≡ pts_to_unix_ms t c pts)
  unfolding pts_to_unix_ms
  pts_to_unix_ms-Steady {end = end} h c v e l s =
      let r = record_all-Steady h c v e l s in
      (
        ap (λ r. r.1) r,
        ap (λ r. r.0.last_pcr_90k) r,
        λ pts.
            ap (λ r. pts_to_unix_ms t r.0 pts) r
            ∙ ap
                (λ n.
                  pts_to_unix_ms t (record c { last_pcr_90k = some end; suspect_pcr_count = n })
                    pts)
                (sym s),
      )

-- ===== src/Dumper/Untimed.antt =====
-- The captions after a discontinuity of the PCR.
use aribcap_dump.Clock.Suspect.{record_pcr_drops, pts_to_unix_ms-none, step_totless}
use aribcap_dump.Captions.{time_of}
use aribcap_dump.Dumper.Times.{handlers-InClock, Clocks, HasTime}
use aribcap_dump.Dumper.{diagnostics, flush_dumper, feed_pes_demux, feed_section_demux, dump_packet}
use aribcap_dump.Dumper.Traversal.{
  flush_dumper-Keeps, dump_packets-Keeps, recorded-Keeps, dump_packets, AllDeliver, Handlers,
}
use aribcap_dump.Clock.Invariant.{Call, records, step}
use aribcap_dump.Clock.{record_pcr, TsPacket, ProgramClock}
use aribcap_dump.Output.{pcr_discontinuity, diagnostic, PcrDiscontinuity, OutputRecord}
use aribcap_dump.Prelude.{
  subst, append-All, ap, arith, ap₂, [], All, not, if◌then◌else◌, ◌++◌, Bool, ◌∷◌, List, some, true,
  ℕ, none, Option, ◌≡◌, refl,
}
use aribcap_dump.Service.{
  other_table, tdt_table, eit_table, pmt_table, pat_table, tot_table, CaptionDumper, Table,
  Externals,
}

-- A table that is no TOT.
abbrev pub IsTotlessTable : Table → Type 0
IsTotlessTable (tot_table tot) = ⊥
IsTotlessTable (pat_table pat) = Unit {0}
IsTotlessTable (pmt_table pmt) = Unit {0}
IsTotlessTable tdt_table = Unit {0}
IsTotlessTable (eit_table table) = Unit {0}
IsTotlessTable other_table = Unit {0}

-- If a caption, one without a time.
abbrev pub IsUntimed : OutputRecord → Type 0
IsUntimed r = HasTime (λ time. time ≡ none) r

module _ (x : Externals) where
  abbrev IsUnset : ProgramClock → Type 0
  IsUnset c = c.reference_point ≡ none

  time_of-none :
      (c : ProgramClock) (pts : Option ℕ)
      → IsUnset c
      → time_of x.decoders x.timing x.reader c pts ≡ none
  time_of-none c none e = refl
  time_of-none c (some pts) e = pts_to_unix_ms-none x.timing c pts e

  clocks-IsUnset : Clocks x IsUnset IsTotlessTable (λ time. time ≡ none)
  unfolding step
  clocks-IsUnset = record {
    records = λ c packet e. step_totless x.timing c (records packet) tt e;
    sets_pcr_pid = λ c pid e. step_totless x.timing c (Call.sets_pcr_pid pid) tt e;
    updates = λ c tot a e. absurd a;
    converts = time_of-none;
  }

  abbrev unset_handlers : Handlers x (λ d. IsUnset d.program_clock) IsTotlessTable IsUntimed
  unset_handlers = handlers-InClock x IsUnset IsTotlessTable (λ time. time ≡ none) clocks-IsUnset

  reported :
      (d : CaptionDumper x) (p : TsPacket) (c : PcrDiscontinuity)
      → p.has_valid_sync ≡ true
      → (record_pcr x.timing d.program_clock p).1 ≡ some c
      → (rest : List OutputRecord) × ((dump_packet x d p).1
          ≡ diagnostic (pcr_discontinuity c) ∷ rest)
  unfolding dump_packet
  reported d p c y h =
      let e : CaptionDumper x = record d {
        program_clock = (record_pcr x.timing d.program_clock p).0;
      } in
      let s = feed_section_demux x e p in
      let q = feed_pes_demux x s.0 p in
      let out : Bool → Option PcrDiscontinuity → List OutputRecord = λ b o.
        let r : CaptionDumper x × List OutputRecord =
          if not b then (d, []) else (q.0, diagnostics x o ++ s.1 ++ q.1) in
        r.1 in
      (s.1 ++ q.1, ap₂ out y h)

  -- Where the PCR of a packet is taken for a discontinuity, and no packet from then on delivers a TOT,
  -- the first record printed is the report, and all captions after it, those of that packet and of the
  -- flush included, are printed without a time.
  pub dump_packets-IsUntimed :
      (d : CaptionDumper x) (p : TsPacket) (ps : List TsPacket) (c : PcrDiscontinuity)
      → p.has_valid_sync ≡ true
      → (record_pcr x.timing d.program_clock p).1 ≡ some c
      → AllDeliver x IsTotlessTable d (p ∷ ps)
      → let r = dump_packets x d (p ∷ ps) in
        (rest : List OutputRecord) × (r.1 ++ (flush_dumper x r.0).1
          ≡ diagnostic (pcr_discontinuity c) ∷ rest)
        × All IsUntimed rest
  dump_packets-IsUntimed d p ps c y h a =
      let Unset : CaptionDumper x → Type 0 = λ d. IsUnset d.program_clock in
      let q = dump_packet x d p in
      let k =
        recorded-Keeps x Unset IsTotlessTable IsUntimed unset_handlers d p a.0
          (λ n. ground (arith, y, n)) (record_pcr_drops x.timing d.program_clock p c h) in
      let m = dump_packets-Keeps x Unset IsTotlessTable IsUntimed unset_handlers q.0 ps a.1 k.0 in
      let f =
        flush_dumper-Keeps x Unset IsTotlessTable IsUntimed unset_handlers (dump_packets x q.0 ps).0
          m.0 in
      let (rest, e) = reported d p c y h in
      let ms = (dump_packets x q.0 ps).1 in
      let fs = (flush_dumper x (dump_packets x q.0 ps).0).1 in
      (
        (rest ++ ms) ++ fs,
        ap (λ rs. (rs ++ ms) ++ fs) e,
        append-All IsUntimed (rest ++ ms) fs
            (append-All IsUntimed rest ms (subst (All IsUntimed) e k.1).1 m.1) f.1,
      )

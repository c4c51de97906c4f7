-- ===== src/Dumper/Fits.antt =====
-- The width of the captions' times.
use aribcap_dump.Service.{tdt_table, other_table}
use aribcap_dump.Output.{OutputRecord}
use aribcap_dump.Dumper.{flush_dumper}
use aribcap_dump.Eit.Emitter.{EitOutputMode}
use aribcap_dump.Dumper.Times.{handlers-InClock, HasTime, Clocks}
use aribcap_dump.Captions.{time_of}
use aribcap_dump.Clock.Bounds.{
  new_clock-HasTimely, step-HasTimely, pts_to_unix_ms-FitsInt64, FitsInt64, IsTimelyCall, HasTimely,
}
use aribcap_dump.Prelude.Int.{ℤ}
use aribcap_dump.Dumper.Traversal.{
  flush_dumper-Keeps, dump_packets-Keeps, dump_packets, AllDeliver, Handlers,
}
use aribcap_dump.Clock.{TsPacket, pts_to_unix_ms, ProgramClock}
use aribcap_dump.Prelude.{append-All, ◌++◌, All, none, List, ◌≡◌, some, Bool, ℕ, Option, refl}
use aribcap_dump.Service.{
  CaptionDumper, eit_table, new_dumper, pmt_table, pat_table, tot_table, Table, Externals,
}
use aribcap_dump.Clock.Invariant.{
  new_clock-IsValid, step-IsValid, updates, records, Call, step, IsValid,
}

-- A time, if there is one, that an `std::int64_t` holds.
abbrev pub IsTimeThatFits : Option ℤ → Type 0
IsTimeThatFits none = Unit {0}
IsTimeThatFits (some ms) = FitsInt64 ms

-- If a TOT, one that gives a time from the Unix epoch on, in a quarter of that range.
abbrev pub IsTimelyTable : Table → Type 0
IsTimelyTable (tot_table tot) = IsTimelyCall (updates tot)
IsTimelyTable (pat_table pat) = Unit {0}
IsTimelyTable (pmt_table pmt) = Unit {0}
IsTimelyTable tdt_table = Unit {0}
IsTimelyTable (eit_table table) = Unit {0}
IsTimelyTable other_table = Unit {0}

module _ (x : Externals) where
  abbrev pub IsInRange : ProgramClock → Type 0
  IsInRange c = IsValid x.timing c × HasTimely c

  of_time :
      (c : ProgramClock) (pts : ℕ) (o : Option ℤ)
      → IsInRange c
      → pts_to_unix_ms x.timing c pts ≡ o
      → IsTimeThatFits o
  of_time c pts none v e = tt
  of_time c pts (some ms) v e =
      let (r, _, _, f) = pts_to_unix_ms-FitsInt64 x.timing c pts ms v.0 v.1 e in f

  time_of-IsTimeThatFits :
      (c : ProgramClock) (pts : Option ℕ)
      → IsInRange c
      → IsTimeThatFits (time_of x.decoders x.timing x.reader c pts)
  time_of-IsTimeThatFits c none v = tt
  time_of-IsTimeThatFits c (some pts) v = of_time c pts (pts_to_unix_ms x.timing c pts) v refl

  step-IsInRange :
      (c : ProgramClock) (call : Call)
      → IsTimelyCall call
      → IsInRange c
      → IsInRange (step x.timing c call)
  step-IsInRange c call a v =
      (step-IsValid x.timing c call v.0, step-HasTimely x.timing c call a v.1)

  clocks-IsInRange : Clocks x IsInRange IsTimelyTable IsTimeThatFits
  unfolding step
  clocks-IsInRange = record {
    records = λ c packet v. step-IsInRange c (records packet) tt v;
    sets_pcr_pid = λ c pid v. step-IsInRange c (Call.sets_pcr_pid pid) tt v;
    updates = λ c tot a v. step-IsInRange c (updates tot) a v;
    converts = time_of-IsTimeThatFits;
  }

  abbrev in_range_handlers :
      Handlers x (λ d. IsInRange d.program_clock) IsTimelyTable (HasTime IsTimeThatFits)
  in_range_handlers = handlers-InClock x IsInRange IsTimelyTable IsTimeThatFits clocks-IsInRange

  -- From a new dumper on, over packets whose TOTs are timely.
  pub new_dumper-AllFit :
      (sid : ℕ) (empty : Bool) (mode : EitOutputMode) (ps : List TsPacket)
      → AllDeliver x IsTimelyTable (new_dumper x sid empty mode) ps
      → let r = dump_packets x (new_dumper x sid empty mode) ps in
        All (HasTime IsTimeThatFits) (r.1 ++ (flush_dumper x r.0).1)
  new_dumper-AllFit sid empty mode ps a =
      let InRange : CaptionDumper x → Type 0 = λ d. IsInRange d.program_clock in
      let Fits : OutputRecord → Type 0 = HasTime IsTimeThatFits in
      let d = new_dumper x sid empty mode in
      let r = dump_packets x d ps in
      let m =
        dump_packets-Keeps x InRange IsTimelyTable Fits in_range_handlers d ps a
          (new_clock-IsValid x.timing, new_clock-HasTimely x.timing) in
      let f = flush_dumper-Keeps x InRange IsTimelyTable Fits in_range_handlers r.0 m.0 in
      append-All Fits r.1 (flush_dumper x r.0).1 m.1 f.1

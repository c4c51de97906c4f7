-- ===== src/Main/Tests.antt =====
-- Runs of the program, from `main` and from `Run`.
use aribcap_dump.Main.Sample.{
  tape_frames, packets, reads-Delivers, options, reads, piped, tape, colliding,
}
use aribcap_dump.Main.Success.{main-IsComplete, IsComplete}
use aribcap_dump.Main.CommandLine.{
  parse_error, options_of, parsed, main, CommandLine, ParseResult, Given,
}
use aribcap_dump.Main.Whole.{run-Runs, Printed}
use aribcap_dump.Main.Complete.{run_complete}
use aribcap_dump.Sink.{emit_all}
use aribcap_dump.Main.Fault.{run-BreaksOff}
use aribcap_dump.Main.Delivery.{printed}
use aribcap_dump.Main.Laws.{run-Ending, Ending}
use aribcap_dump.Framer.Sample.{
  torn_reads-Delivers, torn-Runs, marked-IsPacket, marked, torn_reads, short,
}
use aribcap_dump.Sink.Sample.{text_stream-IsReliable, text_stream}
use aribcap_dump.Eit.Emitter.{only_following}
use aribcap_dump.Json.Sample.{sample}
use aribcap_dump.Framer.Input.{failed, got}
use aribcap_dump.Framer.Stream.{fault, BreaksOff}
use aribcap_dump.Main.{open_failed, run, Outcome}
use aribcap_dump.Prelude.{
  Option, ◌&&◌, ap, ◌≤◌, leb, if◌then◌else◌, some, codes, ◌≡◌, arith, none, [], ◌∷◌, ℕ, false, refl,
}

run-Ending_example :
    (o : Outcome colliding sample text_stream short (piped reads)) × (run colliding sample
        text_stream short
        (piped reads)
        101
        []
        options
        []
      ≡ some o)
    × Ending colliding sample text_stream short (piped reads) 101 options [] tape o
run-Ending_example =
    run-Ending colliding sample text_stream short (piped reads) 101 [] options [] refl
      reads-Delivers

tape-BreaksOff : BreaksOff (got tape ∷ failed ∷ [])
tape-BreaksOff =
    BreaksOff.chunk 0 (0x47 ∷ 1 ∷ 0 ∷ 0x47 ∷ 2 ∷ 0 ∷ 0x47 ∷ 3 ∷ 0 ∷ 0x47 ∷ 4 ∷ 0 ∷ []) (omega arith)
      fault

run-BreaksOff_example :
    (o : Outcome colliding sample text_stream short (piped (got tape ∷ failed ∷ []))) × (run
        colliding sample text_stream short
        (piped (got tape ∷ failed ∷ []))
        101
        []
        options
        []
      ≡ some o)
    × (o.exit_status ≡ 1)
run-BreaksOff_example =
    run-BreaksOff colliding sample text_stream short (piped (got tape ∷ failed ∷ [])) 101 [] options
      [] refl tape-BreaksOff

-- A file that cannot be opened.
unopened :
    run colliding sample text_stream short (piped reads) 101 (codes "a.ts") options []
    ≡ some (record { exit_status = 1; complaints = open_failed (codes "a.ts") ∷ []; stdout = [] })
unfolding run
unopened = refl

run-Runs_example :
    Printed colliding sample text_stream short
      (piped torn_reads)
      text_stream-IsReliable
      101
      []
      options
      []
      (marked 16
        ∷ marked 17
        ∷ marked 18
        ∷ marked 19
        ∷ marked 20
        ∷ marked 21
        ∷ marked 22
        ∷ marked 23
        ∷ [])
run-Runs_example =
    run-Runs colliding sample text_stream short (piped torn_reads) text_stream-IsReliable 101 []
      options [] (1 ∷ []) (marked 16) (marked 17) (marked 18) (marked 19) (omega arith) refl
      (marked-IsPacket 16, marked-IsPacket 17, marked-IsPacket 18, marked-IsPacket 19) torn-Runs
      refl torn_reads-Delivers refl refl

-- It takes every command line for `--sid 101 --eit f`, where the range has that.
abbrev wanted : Given
wanted = record {
  sid = 101;
  file = none;
  emit_empty_captions = false;
  eit_output = some only_following;
}

abbrev answer : ℕ → ℕ → ParseResult
answer low high = if leb low 101 && leb 101 high then parsed wanted else parse_error 105

answer_range :
    (low high : ℕ) {given : Given}
    → answer low high ≡ parsed given
    → (low ≤ given.sid) × (given.sid ≤ high)
answer_range low high {given} h = (ground (arith, h), ground (arith, h))

abbrev cli : CommandLine
cli = record {
  parse = λ low high modes args. answer low high;
  parse_range = λ low high modes args h. answer_range low high h;
}

main_run :
    main colliding sample text_stream short (piped reads) cli [] []
    ≡ some (
      0,
      some (record {
        exit_status = 0;
        complaints = [];
        stdout = emit_all sample text_stream [] (
            printed colliding sample text_stream short
              (piped reads)
              101
              (options_of wanted)
              packets);
      }),
    )
unfolding main
main_run =
    ap
      (λ o.
        elim o
          as (λ _. Option (ℕ × Option (Outcome colliding sample text_stream short (piped reads)))) [
            | none ↦ none
            | some r ↦ some (r.exit_status, some r)
          ])
      (run_complete colliding sample text_stream short (piped reads) text_stream-IsReliable 101 []
        (options_of wanted) [] refl reads-Delivers tape_frames refl)

main-IsComplete_example :
    IsComplete colliding sample text_stream short (piped reads) cli wanted [] tape (record {
      exit_status = 0;
      complaints = [];
      stdout = emit_all sample text_stream [] (
          printed colliding sample text_stream short (piped reads) 101 (options_of wanted) packets);
    })
main-IsComplete_example =
    main-IsComplete colliding sample text_stream short (piped reads) cli [] [] refl refl
      reads-Delivers main_run

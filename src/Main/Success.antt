-- ===== src/Main/Success.antt =====
-- The exit status 0 of a run.
use aribcap_dump.Prelude.{refl}
use aribcap_dump.Eit.Emitter.{only_present, EitOutputMode}
use aribcap_dump.Framer.Stream.{Delivers}
use aribcap_dump.Framer.Input.{SysRead}
use aribcap_dump.Output.{Text}
use aribcap_dump.Main.Delivery.{printed}
use aribcap_dump.Main.Laws.{run-Ending, broken_output, unsynced, complete, Ending}
use aribcap_dump.Framer.Spec.{stream_frames, Packet}
use aribcap_dump.Main.CommandLine.{
  run_parsed, file_of, parsed, eit_output_modes, options_of, main, Given, CommandLine,
}
use aribcap_dump.Main.{CaptionDumperOptions, input_of, Outcome, Host}
use aribcap_dump.Framer.{Ts}
use aribcap_dump.Sink.{lines, Ostream}
use aribcap_dump.Json.{JsonLibrary}
use aribcap_dump.Service.{Externals}
use aribcap_dump.Prelude.{subst, ◌∙◌, ap, sym, none, Option, arith, ◌++◌, [], some, ◌≡◌, ℕ, List}

-- The options that a command line asks for: the present event unless it says otherwise.
abbrev pub asked_options : Given → CaptionDumperOptions
asked_options given =
    let mode : EitOutputMode = elim given.eit_output [ none ↦ only_present | some mode ↦ mode ] in
    record { emit_empty_captions = given.emit_empty_captions; eit_output = mode }

options_of-asked_options : (given : Given) → options_of given ≡ asked_options given
options_of-asked_options given = of_mode given.eit_output
  where
    of_mode :
        (o : Option EitOutputMode)
        → options_of (record given { eit_output = o })
          ≡ asked_options (record given { eit_output = o })
    of_mode none = refl
    of_mode (some mode) = refl

module _ (x : Externals) (j : JsonLibrary) (out : Ostream) (ts : Ts) (host : Host)
    (cli : CommandLine) where
  -- Everything was printed.
  abbrev pub IsComplete : Given → out.State → List ℕ → Outcome x j out ts host → Type 0
  IsComplete given s bytes o =
      (ps : List Packet) × (stream_frames ts bytes ≡ some ps)
      × (o.complaints ≡ [])
      × (out.written o.stdout
          ≡ out.written s
            ++ lines j out (printed x j out ts host given.sid (asked_options given) ps))

  status_of_answer : ℕ → Option (ℕ × Option (Outcome x j out ts host)) → ℕ
  status_of_answer n none = n
  status_of_answer n (some a) = a.0

  outcome_of_answer :
      Outcome x j out ts host
      → Option (ℕ × Option (Outcome x j out ts host))
      → Outcome x j out ts host
  outcome_of_answer q none = q
  outcome_of_answer q (some (n, none)) = q
  outcome_of_answer q (some (n, some o)) = o

  Ending-zero :
      (given : Given) (s : out.State) (bytes : List ℕ) {o : Outcome x j out ts host}
      → Ending x j out ts host given.sid (options_of given) s bytes o
      → o.exit_status ≡ 0
      → IsComplete given s bytes o
  Ending-zero given s bytes (complete ps f z c w) h = (
    ps,
    f,
    c,
    w
        ∙ ap (λ o. out.written s ++ lines j out (printed x j out ts host given.sid o ps))
            (options_of-asked_options given),
  )
  Ending-zero given s bytes (unsynced f z c w) h = absurd (omega (arith, z, h))
  Ending-zero given s bytes (broken_output b z c) h = absurd (omega (arith, z, h))

  -- The exit status 0 of a run on an input that is read to its end is never given too early: the input
  -- has a sync, nothing is complained of, and the output has taken a line for each record of all packets
  -- and of the flush, for the service and with the options of the command line.
  pub main-IsComplete :
      (args : List Text) (s : out.State) {given : Given} {reads : List SysRead} {bytes : List ℕ}
      {o : Outcome x j out ts host}
      → cli.parse 1 65535 eit_output_modes args ≡ parsed given
      → input_of x j out ts host (file_of given.file) ≡ some reads
      → Delivers reads bytes
      → main x j out ts host cli args s ≡ some (0, some o)
      → IsComplete given s bytes o
  unfolding main status_of_answer outcome_of_answer
  main-IsComplete args s {given} {reads} {bytes} {o} p i d m =
      let (q, r, e) =
        run-Ending x j out ts host given.sid (file_of given.file) (options_of given) s i d in
      let h : some (q.exit_status, some q) ≡ some (0, some o) =
        sym (
          ap (run_parsed x j out ts host cli s) p
          ∙ ap
              (λ o. elim o as (λ _. Option (ℕ × Option (Outcome x j out ts host))) [
                | none ↦ none
                | some r ↦ some (r.exit_status, some r)
              ])
              r)
        ∙ m in
      let zero : q.exit_status ≡ 0 = ap (status_of_answer 0) h in
      let same : q ≡ o = ap (outcome_of_answer q) h in
      subst (IsComplete given s bytes) same (Ending-zero given s bytes e zero)

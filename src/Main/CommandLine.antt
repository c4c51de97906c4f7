-- ===== src/Main/CommandLine.antt =====
-- main.cc: `main`, from the command line to the exit status of the process.
use aribcap_dump.Framer.{Ts}
use aribcap_dump.Sink.{Ostream}
use aribcap_dump.Json.{JsonLibrary}
use aribcap_dump.Eit.Emitter.{present_following, only_following, only_present, EitOutputMode}
use aribcap_dump.Output.{Text}
use aribcap_dump.Service.{Externals}
use aribcap_dump.Main.{run, Outcome, Host, CaptionDumperOptions}
use aribcap_dump.Prelude.{none, some, ◌≤◌, ◌∷◌, [], ◌≡◌, codes, Bool, Option, List, ℕ}

-- The values of the options and of the argument, where they were given.
pub record Given : Type 0 where
  pub sid : ℕ
  pub file : Option Text
  pub emit_empty_captions : Bool
  pub eit_output : Option EitOutputMode

-- A command line that CLI11 takes, or the exit status for one that it does not, or that asks for help.
pub data ParseResult : Type 0 where
  parsed : Given → ParseResult
  parse_error : ℕ → ParseResult

abbrev pub eit_output_modes : List (Text × EitOutputMode)
eit_output_modes =
    (codes "p", only_present) ∷ (codes "f", only_following) ∷ (codes "pf", present_following) ∷ []

-- CLI11, given the range of `--sid` and the values of `--eit`: `--sid` is required.
pub record CommandLine : Type 0 where
  pub parse : ℕ → ℕ → List (Text × EitOutputMode) → List Text → ParseResult
  pub parse_range :
      (low high : ℕ) (modes : List (Text × EitOutputMode)) (args : List Text) {given : Given}
      → parse low high modes args ≡ parsed given
      → (low ≤ given.sid) × (given.sid ≤ high)

abbrev pub file_of : Option Text → Text
file_of none = []
file_of (some file) = file

abbrev pub eit_output_of : Option EitOutputMode → EitOutputMode
eit_output_of none = only_present
eit_output_of (some mode) = mode

abbrev pub options_of : Given → CaptionDumperOptions
options_of given = record {
  emit_empty_captions = given.emit_empty_captions;
  eit_output = eit_output_of given.eit_output;
}

module _ (x : Externals) (j : JsonLibrary) (out : Ostream) (ts : Ts) (host : Host)
    (cli : CommandLine) where
  -- The exit status, and the run where there is one.
  abbrev pub run_parsed : out.State → ParseResult → Option (ℕ × Option (Outcome x j out ts host))
  run_parsed s (parse_error status) = some (status, none)
  run_parsed s (parsed given) =
      elim (run x j out ts host given.sid (file_of given.file) (options_of given) s) [
        | none ↦ none
        | some o ↦ some (o.exit_status, some o)
      ]

  unfoldable pub main : List Text → out.State → Option (ℕ × Option (Outcome x j out ts host))
  main args s = run_parsed s (cli.parse 1 65535 eit_output_modes args)

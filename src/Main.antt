-- ===== src/Main.antt =====
-- main.cc: `Run`, the program after its command line has been read. A packet's fields are read from
-- its bytes by TSDuck; the file system's answer to `open(2)` is a parameter, as the answers of
-- `read(2)` for each descriptor. The destructor of `ScopedFd` closes the file, which nothing reads.
pub mod CommandLine
pub mod Complete
pub mod Delivery
pub mod Fault
pub mod Laws
pub mod Reached
pub mod Success
pub mod Whole
pub mod Sample
mod Tests
use aribcap_dump.Dumper.{flush_dumper, dump_packet}
use aribcap_dump.Framer.{Ts}
use aribcap_dump.Sink.{emit_all, Ostream}
use aribcap_dump.Clock.{TsPacket}
use aribcap_dump.Json.{JsonLibrary}
use aribcap_dump.Eit.Emitter.{EitOutputMode}
use aribcap_dump.Service.{new_dumper, CaptionDumper, Externals}
use aribcap_dump.Output.{Text}
use aribcap_dump.Framer.Input.{
  no_sync, read_and_frame_packets, ReadFrameStatus, SysRead, failed, ok,
}
use aribcap_dump.Prelude.{
  true, false, none, [], not, ◌∷◌, is_empty, some, if◌then◌else◌, Option, ℕ, List, Bool, refl,
}

-- What the program says on its standard error.
pub data Complaint : Type 0 where
  open_failed : Text → Complaint
  write_failed no_ts_sync read_failed : Complaint

pub record CaptionDumperOptions : Type 0 where
  pub emit_empty_captions : Bool
  pub eit_output : EitOutputMode

-- The environment of a run: the packet's fields, the standard input and the files.
pub record Host : Type 0 where
  pub parse_packet : List ℕ → TsPacket
  pub stdin : List SysRead
  pub open_file : Text → Option (List SysRead)

module _ (x : Externals) (j : JsonLibrary) (out : Ostream) (ts : Ts) (host : Host) where
  abbrev pub State : Type 0
  State = CaptionDumper x × out.State

  -- The exit status, what is said on the standard error, and the standard output.
  pub record Outcome : Type 0 where
    pub exit_status : ℕ
    pub complaints : List Complaint
    pub stdout : out.State

  -- The lambda that gets each packet.
  unfoldable pub on_packet : List ℕ → State → Bool × State
  on_packet bytes (d, s) =
      let r = dump_packet x d (host.parse_packet bytes) in
      let t = emit_all j out s r.1 in (out.good t, (r.0, t))

  unfoldable pub flush_output : CaptionDumper x → out.State → out.State
  flush_output d s = if out.good s then emit_all j out s (flush_dumper x d).1 else s

  -- The end of `Run`: whether the output is good, and then the status of the reader.
  unfoldable pub exit_with : ReadFrameStatus → out.State → Bool → Outcome
  exit_with status t false = record { exit_status = 1; complaints = write_failed ∷ []; stdout = t }
  exit_with ok t true = record { exit_status = 0; complaints = []; stdout = t }
  exit_with no_sync t true = record { exit_status = 1; complaints = no_ts_sync ∷ []; stdout = t }
  exit_with failed t true = record { exit_status = 1; complaints = read_failed ∷ []; stdout = t }

  -- `Run` after the packets.
  unfoldable pub finish : ReadFrameStatus × State → Outcome
  unfolding exit_with flush_output
  finish (status, (d, s)) = let t = flush_output d s in exit_with status t (out.good t)

  abbrev pub input_of : Text → Option (List SysRead)
  input_of file = if is_empty file then some host.stdin else host.open_file file

  abbrev pub run_on :
      ℕ → CaptionDumperOptions → Text → out.State → Option (List SysRead) → Option Outcome
  run_on sid options file s none =
      some (record { exit_status = 1; complaints = open_failed file ∷ []; stdout = s })
  run_on sid options file s (some reads) =
      elim (read_and_frame_packets ts on_packet reads
        (new_dumper x sid options.emit_empty_captions options.eit_output, s)) [
          | none ↦ none
          | some r ↦ some (finish r)
        ]

  -- `none` where the list of the answers of `read(2)` ends too early.
  unfoldable pub run : ℕ → Text → CaptionDumperOptions → out.State → Option Outcome
  run sid file options s = run_on sid options file s (input_of file)

-- ===== src/Main/Fault.antt =====
-- Runs that end with an error.
use aribcap_dump.Output.{Text}
use aribcap_dump.Framer.{Ts}
use aribcap_dump.Sink.{Ostream}
use aribcap_dump.Json.{JsonLibrary}
use aribcap_dump.Service.{new_dumper, Externals}
use aribcap_dump.Framer.Input.{no_sync, SysRead, ReadFrameStatus, failed, ok}
use aribcap_dump.Framer.Stream.{read_and_frame_packets_fault, BreaksOff}
use aribcap_dump.Main.{
  on_packet, Outcome, flush_output, CaptionDumperOptions, State, run, finish, exit_with, Host,
  input_of, run_on,
}
use aribcap_dump.Prelude.{none, Option, ◌∙◌, ap, false, true, some, List, ◌≡◌, ◌≢◌, Bool, ℕ, refl}

module _ (x : Externals) (j : JsonLibrary) (out : Ostream) (ts : Ts) (host : Host) where
  exit_with-ne :
      (status : ReadFrameStatus) (t : out.State) (good : Bool)
      → status ≢ ReadFrameStatus.ok
      → (exit_with x j out ts host status t good).exit_status ≡ 1
  unfolding exit_with
  exit_with-ne ok t true n = absurd (n refl)
  exit_with-ne no_sync t true n = refl
  exit_with-ne failed t true n = refl
  exit_with-ne ok t false n = refl
  exit_with-ne no_sync t false n = refl
  exit_with-ne failed t false n = refl

  finish-ne :
      (status : ReadFrameStatus) (t : State x j out ts host)
      → status ≢ ReadFrameStatus.ok
      → (finish x j out ts host (status, t)).exit_status ≡ 1
  unfolding finish
  finish-ne status t n =
      let u = flush_output x j out ts host t.0 t.1 in exit_with-ne status u (out.good u) n

  -- A run whose input fails to be read after some chunks ends, with status 1.
  pub run-BreaksOff :
      (sid : ℕ) (file : Text) (options : CaptionDumperOptions) (s : out.State)
      {reads : List SysRead}
      → input_of x j out ts host file ≡ some reads
      → BreaksOff reads
      → (o : Outcome x j out ts host) × (run x j out ts host sid file options s ≡ some o)
        × (o.exit_status ≡ 1)
  unfolding run
  run-BreaksOff sid file options s i b =
      let start : State x j out ts host =
        (new_dumper x sid options.emit_empty_captions options.eit_output, s) in
      let (st, t, e, n) = read_and_frame_packets_fault ts (on_packet x j out ts host) b start in
      (
        finish x j out ts host (st, t),
        ap (run_on x j out ts host sid options file s) i
            ∙ ap
                (λ o. elim o as (λ _. Option (Outcome x j out ts host)) [
                  | none ↦ none
                  | some r ↦ some (finish x j out ts host r)
                ])
                e,
        finish-ne st t n,
      )

-- ===== src/Main/Complete.antt =====
-- Runs whose output takes all that it is given.
use aribcap_dump.Dumper.{dump_packet, flush_dumper}
use aribcap_dump.Framer.Stream.{verdict, read_and_frame_packets_lem, Delivers}
use aribcap_dump.Framer.Spec.{stream_frames, Packet, deliver}
use aribcap_dump.Main.Delivery.{deliver-go, handler, fresh_dumper, printed, dump_all}
use aribcap_dump.Main.Laws.{flush_output-good}
use aribcap_dump.Framer.{Ts}
use aribcap_dump.Json.{to_json_line, JsonLibrary}
use aribcap_dump.Output.{OutputRecord, Text}
use aribcap_dump.Service.{CaptionDumper, Externals}
use aribcap_dump.Sink.{IsReliable, emit_all-append, emit_all-nil, emit, emit_all, Ostream}
use aribcap_dump.Framer.Input.{ReadFrameStatus, SysRead}
use aribcap_dump.Main.{
  Outcome, flush_output, State, CaptionDumperOptions, exit_with, on_packet, finish, run, Host,
  input_of, run_on,
}
use aribcap_dump.Prelude.{
  if◌then◌else◌, none, Option, ap₂, ◌∙◌, sym, ap, ◌∷◌, [], some, List, ℕ, true, ◌≡◌,
}

module _ (x : Externals) (j : JsonLibrary) (out : Ostream) (ts : Ts) (host : Host)
    (rel : IsReliable out) where
  pub emit_all-good :
      (s : out.State) (rs : List OutputRecord)
      → out.good s ≡ true
      → out.good (emit_all j out s rs) ≡ true
  unfolding emit_all emit
  emit_all-good s [] g = g
  emit_all-good s (r ∷ rs) g =
      emit_all-good (emit j out s r) rs
        (rel.flush _ (rel.write _ _ (rel.write s (to_json_line j r) g)))

  deliver-all :
      (ps : List Packet) (d : CaptionDumper x) (s : out.State)
      → out.good s ≡ true
      → let r = dump_all x j out ts host d ps in
        deliver (handler x j out ts host) ps (d, s) ≡ (true, (r.0, emit_all j out s r.1))
  unfolding dump_all deliver on_packet
  deliver-all [] d s g = ap (λ t. (true, (d, t))) (sym (emit_all-nil j out s))
  deliver-all (p ∷ ps) d s g =
      let r = dump_packet x d (host.parse_packet p) in
      let t = emit_all j out s r.1 in
      let fine = emit_all-good s r.1 g in
      let q = dump_all x j out ts host r.0 ps in
      deliver-go x j out ts host p ps (d, s) (r.0, t) (ap (λ b. (b, (r.0, t))) fine)
      ∙ deliver-all ps r.0 t fine
      ∙ ap (λ u. (true, (q.0, u))) (sym (emit_all-append j out s r.1 q.1))

  -- A run on a file with a sync that is read to its end, with an output that takes all it is given, ends
  -- with status 0 and no complaint, and has printed the records of all packets and of the flush, in
  -- order.
  pub run_complete :
      (sid : ℕ) (file : Text) (options : CaptionDumperOptions) (s : out.State)
      {reads : List SysRead} {bytes : List ℕ} {ps : List Packet}
      → input_of x j out ts host file ≡ some reads
      → Delivers reads bytes
      → stream_frames ts bytes ≡ some ps
      → out.good s ≡ true
      → run x j out ts host sid file options s
        ≡ some (record {
          exit_status = 0;
          complaints = [];
          stdout = emit_all j out s (printed x j out ts host sid options ps);
        })
  unfolding run finish exit_with printed
  run_complete sid file options s {reads} {bytes} {ps} i d f g =
      let start : State x j out ts host = (fresh_dumper x j out ts host sid options, s) in
      let r = dump_all x j out ts host start.0 ps in
      let t = emit_all j out s r.1 in
      let good_t = emit_all-good s r.1 g in
      let flushed = flush_output-good x j out ts host r.0 t good_t in
      let u = flush_output x j out ts host r.0 t in
      let good_u : out.good u ≡ true =
        ap out.good flushed ∙ emit_all-good t (flush_dumper x r.0).1 good_t in
      let ended : finish x j out ts host (ReadFrameStatus.ok, (r.0, t))
          ≡ exit_with x j out ts host ReadFrameStatus.ok
              (emit_all j out s (printed x j out ts host sid options ps)) true =
        ap₂ (exit_with x j out ts host ReadFrameStatus.ok)
          (flushed ∙ sym (emit_all-append j out s r.1 (flush_dumper x r.0).1)) good_u in
      ap (run_on x j out ts host sid options file s) i
      ∙ ap
          (λ o. elim o as (λ _. Option (Outcome x j out ts host)) [
            | none ↦ none
            | some r ↦ some (finish x j out ts host r)
          ])
          (read_and_frame_packets_lem ts (on_packet x j out ts host) d start)
      ∙ ap (λ o. some (finish x j out ts host (verdict ts (handler x j out ts host) o start))) f
      ∙ ap
          (λ q. some (
            finish x j out ts host
              (if q.0 then ReadFrameStatus.ok else ReadFrameStatus.failed, q.1)))
          (deliver-all ps start.0 s g)
      ∙ ap some ended

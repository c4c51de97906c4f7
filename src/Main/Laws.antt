-- ===== src/Main/Laws.antt =====
-- What a run of the program prints, and how it ends.
use aribcap_dump.Main.Delivery.{
  all, stopped, dump_all, fresh_dumper, printed, handler, Delivered, deliver-Delivered,
}
use aribcap_dump.Dumper.Idle.{flush_dumper-idle}
use aribcap_dump.Framer.Stream.{verdict, read_and_frame_packets_lem, Delivers}
use aribcap_dump.Dumper.{flush_dumper}
use aribcap_dump.Output.{Text}
use aribcap_dump.Framer.Spec.{stream_frames, deliver, Packet}
use aribcap_dump.Framer.{Ts}
use aribcap_dump.Sink.{emit_all-nil, written-emit_all, lines, emit_all-append, emit_all, Ostream}
use aribcap_dump.Json.{JsonLibrary}
use aribcap_dump.Service.{CaptionDumper, Externals}
use aribcap_dump.Framer.Input.{no_sync, SysRead, ReadFrameStatus}
use aribcap_dump.Main.{
  run_on, exit_with, flush_output, no_ts_sync, write_failed, run, finish, Outcome, on_packet, State,
  CaptionDumperOptions, Host, input_of,
}
use aribcap_dump.Prelude.{
  Option-cases, Option, none, if◌then◌else◌, some, sym, subst, ◌∙◌, ap, inr, inl, [], Bool-cases,
  false, true, ◌++◌, ◌∷◌, ◌≡◌, Bool, List, ℕ, refl,
}

module _ (x : Externals) (j : JsonLibrary) (out : Ostream) (ts : Ts) (host : Host) where
  -- How a run ends, and what it has written by then.
  pub data Ending (sid : ℕ) (options : CaptionDumperOptions) (s : out.State) (bytes : List ℕ)
      : Outcome x j out ts host → Type 0 where
    complete :
        {o : Outcome x j out ts host} (ps : List Packet)
        → stream_frames ts bytes ≡ some ps
        → o.exit_status ≡ 0
        → o.complaints ≡ []
        → out.written o.stdout
          ≡ out.written s ++ lines j out (printed x j out ts host sid options ps)
        → Ending sid options s bytes o
    unsynced :
        {o : Outcome x j out ts host}
        → stream_frames ts bytes ≡ none
        → o.exit_status ≡ 1
        → o.complaints ≡ no_ts_sync ∷ []
        → o.stdout ≡ s
        → Ending sid options s bytes o
    broken_output :
        {o : Outcome x j out ts host}
        → out.good o.stdout ≡ false
        → o.exit_status ≡ 1
        → o.complaints ≡ write_failed ∷ []
        → Ending sid options s bytes o

  pub flush_output-good :
      (d : CaptionDumper x) (s : out.State)
      → out.good s ≡ true
      → flush_output x j out ts host d s ≡ emit_all j out s (flush_dumper x d).1
  unfolding flush_output
  flush_output-good d s g = ap (λ b. if b then emit_all j out s (flush_dumper x d).1 else s) g

  flush_output-broken :
      (d : CaptionDumper x) (s : out.State)
      → out.good s ≡ false
      → flush_output x j out ts host d s ≡ s
  unfolding flush_output
  flush_output-broken d s b = ap (λ b. if b then emit_all j out s (flush_dumper x d).1 else s) b

  exit_with-broken :
      (sid : ℕ) (options : CaptionDumperOptions) (s : out.State) (bytes : List ℕ)
      (status : ReadFrameStatus) (t : out.State)
      → out.good t ≡ false
      → Ending sid options s bytes (exit_with x j out ts host status t (out.good t))
  unfolding exit_with
  exit_with-broken sid options s bytes status t b =
      subst (λ g. Ending sid options s bytes (exit_with x j out ts host status t g)) (sym b)
        (broken_output b refl refl)

  finish-broken :
      (sid : ℕ) (options : CaptionDumperOptions) (s : out.State) (bytes : List ℕ)
      (status : ReadFrameStatus) (d : CaptionDumper x) (t : out.State)
      → out.good t ≡ false
      → Ending sid options s bytes (finish x j out ts host (status, (d, t)))
  unfolding finish
  finish-broken sid options s bytes status d t b =
      exit_with-broken sid options s bytes status (flush_output x j out ts host d t)
        (ap out.good (flush_output-broken d t b) ∙ b)

  finish_complete :
      (sid : ℕ) (options : CaptionDumperOptions) (s : out.State) (bytes : List ℕ) (ps : List Packet)
      → stream_frames ts bytes ≡ some ps
      → let r = dump_all x j out ts host (fresh_dumper x j out ts host sid options) ps in
        Ending sid options s bytes
          (finish x j out ts host (ReadFrameStatus.ok, (r.0, emit_all j out s r.1)))
  unfolding finish printed exit_with
  finish_complete sid options s bytes ps f =
      let r = dump_all x j out ts host (fresh_dumper x j out ts host sid options) ps in
      let t = emit_all j out s r.1 in
      let u = flush_output x j out ts host r.0 t in
      elim (Bool-cases (out.good t)) [
        | inr b ↦ finish-broken sid options s bytes ReadFrameStatus.ok r.0 t b
        | inl g ↦ elim (Bool-cases (out.good u)) [
          | inr b ↦ exit_with-broken sid options s bytes ReadFrameStatus.ok u b
          | inl good ↦
              let e : u ≡ emit_all j out s (printed x j out ts host sid options ps) =
                flush_output-good r.0 t g
                ∙ sym (emit_all-append j out s r.1 (flush_dumper x r.0).1) in
              subst
                (λ c. Ending sid options s bytes (exit_with x j out ts host ReadFrameStatus.ok u c))
                (sym good)
                (complete ps f refl refl (
                  ap out.written e
                  ∙ written-emit_all j out s (printed x j out ts host sid options ps)
                      (ap out.good (sym e) ∙ good)))
        ]
      ]

  finish-Ending :
      (sid : ℕ) (options : CaptionDumperOptions) (s : out.State) (bytes : List ℕ) (ps : List Packet)
      (q : Bool × State x j out ts host)
      → stream_frames ts bytes ≡ some ps
      → Delivered x j out ts host (fresh_dumper x j out ts host sid options) s ps q
      → Ending sid options s bytes
          (finish x j out ts host (if q.0 then ReadFrameStatus.ok else ReadFrameStatus.failed, q.1))
  finish-Ending sid options s bytes ps q f (all e) =
      subst
        (λ q. Ending sid options s bytes (
          finish x j out ts host (if q.0 then ReadFrameStatus.ok else ReadFrameStatus.failed, q.1)))
        (sym e) (finish_complete sid options s bytes ps f)
  finish-Ending sid options s bytes ps q f (stopped a b) =
      finish-broken sid options s bytes _ q.1.0 q.1.1 b

  finish-unsynced :
      (sid : ℕ) (options : CaptionDumperOptions) (s : out.State) (bytes : List ℕ)
      → stream_frames ts bytes ≡ none
      → Ending sid options s bytes
          (finish x j out ts host (no_sync, (fresh_dumper x j out ts host sid options, s)))
  unfolding finish exit_with
  finish-unsynced sid options s bytes f =
      let d = fresh_dumper x j out ts host sid options in
      let u = flush_output x j out ts host d s in
      elim (Bool-cases (out.good s)) [
        | inr b ↦ finish-broken sid options s bytes no_sync d s b
        | inl g ↦
            let e : u ≡ s =
              flush_output-good d s g
              ∙ ap (emit_all j out s) (flush_dumper-idle x d refl)
              ∙ emit_all-nil j out s in
            subst (λ c. Ending sid options s bytes (exit_with x j out ts host no_sync u c))
              (sym (ap out.good e ∙ g)) (unsynced f refl refl e)
      ]

  -- A run on a file that is read to its end, in chunks of any sizes, ends, and in one of three ways: it
  -- has printed the records of all packets and of the flush, a line for each, with status 0 and no
  -- complaint; or the file has no sync, and nothing is printed; or the output has failed, which is
  -- reported with status 1.
  pub run-Ending :
      (sid : ℕ) (file : Text) (options : CaptionDumperOptions) (s : out.State)
      {reads : List SysRead} {bytes : List ℕ}
      → input_of x j out ts host file ≡ some reads
      → Delivers reads bytes
      → (o : Outcome x j out ts host) × (run x j out ts host sid file options s ≡ some o)
        × Ending sid options s bytes o
  unfolding run
  run-Ending sid file options s {reads} {bytes} i d =
      let start : State x j out ts host = (fresh_dumper x j out ts host sid options, s) in
      let r = read_and_frame_packets_lem ts (on_packet x j out ts host) d start in
      let q = verdict ts (handler x j out ts host) (stream_frames ts bytes) start in
      (
        finish x j out ts host q,
        ap (run_on x j out ts host sid options file s) i
            ∙ ap
                (λ o. elim o as (λ _. Option (Outcome x j out ts host)) [
                  | none ↦ none
                  | some r ↦ some (finish x j out ts host r)
                ])
                r,
        elim (Option-cases (stream_frames ts bytes)) [
          | inl f ↦
              subst
                (λ o.
                  Ending sid options s bytes
                    (finish x j out ts host (verdict ts (handler x j out ts host) o start)))
                (sym f) (finish-unsynced sid options s bytes f)
          | inr f ↦
              subst
                (λ o.
                  Ending sid options s bytes
                    (finish x j out ts host (verdict ts (handler x j out ts host) o start)))
                (sym f.1)
                (finish-Ending sid options s bytes f.0 (deliver (handler x j out ts host) f.0 start)
                  f.1
                  (deliver-Delivered x j out ts host f.0 (fresh_dumper x j out ts host sid options)
                    s))
        ],
      )

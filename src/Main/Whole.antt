-- ===== src/Main/Whole.antt =====
-- A run on a file of packets, from its bytes to the printed lines.
use aribcap_dump.Framer.Spec.Recovery.{stream_frames-Runs, Runs}
use aribcap_dump.Main.Complete.{emit_all-good, run_complete}
use aribcap_dump.Main.Delivery.{printed}
use aribcap_dump.Json.{to_json_line, JsonLibrary}
use aribcap_dump.Sink.Lines.{split_lines-lines, split_lines}
use aribcap_dump.Framer.Stream.{Delivers}
use aribcap_dump.Framer.Input.{SysRead}
use aribcap_dump.Framer.Spec.Whole.{IsPacket}
use aribcap_dump.Framer.Spec.{stream_frames, Packet}
use aribcap_dump.Output.{Text}
use aribcap_dump.Main.{run, Outcome, input_of, CaptionDumperOptions, Host}
use aribcap_dump.Framer.{Ts}
use aribcap_dump.Sink.{lines, written-emit_all, IsReliable, Ostream}
use aribcap_dump.Service.{Externals}
use aribcap_dump.Prelude.{
  ◌∷◌, ◌∙◌, ap, map, [], true, ◌++◌, some, false, ◌≡◌, contains_byte, ◌<◌, length, List, ℕ, refl,
}

module _ (x : Externals) (j : JsonLibrary) (out : Ostream) (ts : Ts) (host : Host)
    (rel : IsReliable out) where
  -- The end of a run that has printed the records of the packets, and the lines of its output.
  abbrev pub Printed : ℕ → Text → CaptionDumperOptions → out.State → List Packet → Type 0
  Printed sid file options s ps =
      (o : Outcome x j out ts host) × (run x j out ts host sid file options s ≡ some o)
      × (o.exit_status ≡ 0)
      × (o.complaints ≡ [])
      × (split_lines [] (out.written o.stdout)
          ≡ map (to_json_line j) (printed x j out ts host sid options ps))

  run-Printed :
      (sid : ℕ) (file : Text) (options : CaptionDumperOptions) (s : out.State)
      {reads : List SysRead} {bytes : List ℕ} {ps : List Packet}
      → input_of x j out ts host file ≡ some reads
      → Delivers reads bytes
      → stream_frames ts bytes ≡ some ps
      → out.good s ≡ true
      → out.written s ≡ []
      → Printed sid file options s ps
  run-Printed sid file options s {ps = ps} i d f g w =
      let rs = printed x j out ts host sid options ps in
      (
        _,
        run_complete x j out ts host rel sid file options s i d f g,
        refl,
        refl,
        ap (split_lines []) (
              written-emit_all j out s rs (emit_all-good x j out ts host rel s rs g)
              ∙ ap (λ u. u ++ lines j out rs) w)
            ∙ split_lines-lines j out rs,
      )

  -- A run on a file that begins with at least four packets, after fewer bytes than a packet's and no
  -- sync byte, and in which sync may be lost and regained any number of times, in chunks of any sizes,
  -- and with an empty output that takes all it is given: it ends with status 0 and no complaint, and
  -- the lines of its output are the JSON texts of the records of the packets of all runs and of the
  -- flush, in order. What follows a loss of sync and is shorter than four packets is left out.
  pub run-Runs :
      (sid : ℕ) (file : Text) (options : CaptionDumperOptions) (s : out.State) (skip : List ℕ)
      (a b c d : Packet) {ps : List Packet} {rest : List ℕ}
      → length skip < ts.pkt_size
      → contains_byte ts.sync_byte skip ≡ false
      → IsPacket ts a × IsPacket ts b × IsPacket ts c × IsPacket ts d
      → Runs ts ps rest
      → {reads : List SysRead} → input_of x j out ts host file ≡ some reads
      → Delivers reads (skip ++ (a ++ (b ++ (c ++ (d ++ rest)))))
      → out.good s ≡ true
      → out.written s ≡ []
      → Printed sid file options s (a ∷ b ∷ c ∷ d ∷ ps)
  run-Runs sid file options s skip a b c d l n v r i del g w =
      run-Printed sid file options s i del (stream_frames-Runs ts skip a b c d l n v r) g w

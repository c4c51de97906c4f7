-- ===== src/Main/Reached.antt =====
-- What holds of the dumper, and of all that is printed, over the packets of a whole run.
mod Tests
use aribcap_dump.Dumper.Times.{HasTime}
use aribcap_dump.Dumper.Fits.{new_dumper-AllFit, IsTimeThatFits, IsTimelyTable}
use aribcap_dump.Dumper.Traversal.{dump_packets, AllDeliver}
use aribcap_dump.Service.Invariant.{new_dumper-IsValid, IsValid}
use aribcap_dump.Dumper.Invariant.{dump_packet-IsValid}
use aribcap_dump.Dumper.Setting.{flush_dumper-Obeys, dump_packet-Obeys, Obeys}
use aribcap_dump.Service.Setting.{IsWanted, AllWanted, HasOptions}
use aribcap_dump.Framer.Spec.{Packet}
use aribcap_dump.Dumper.{flush_dumper, dump_packet}
use aribcap_dump.Eit.Emitter.{EitOutputMode}
use aribcap_dump.Clock.{TsPacket}
use aribcap_dump.Main.Delivery.{fresh_dumper, printed, dump_all}
use aribcap_dump.Main.{CaptionDumperOptions, Host}
use aribcap_dump.Framer.{Ts}
use aribcap_dump.Sink.{Ostream}
use aribcap_dump.Json.{JsonLibrary}
use aribcap_dump.Service.{CaptionDumper, Externals}
use aribcap_dump.Prelude.{
  sym, subst, ◌++◌, All, ap, map, ◌≡◌, append-All, [], ◌∷◌, List, Bool, ℕ, refl,
}

module _ (x : Externals) (j : JsonLibrary) (out : Ostream) (ts : Ts) (host : Host) where
  dump_all_keeps :
      (P : CaptionDumper x → Type 0)
      → ((d : CaptionDumper x) (packet : TsPacket) → P d → P (dump_packet x d packet).0)
      → (d : CaptionDumper x) (ps : List Packet) → P d
      → P (dump_all x j out ts host d ps).0
  unfolding dump_all
  dump_all_keeps P k d [] h = h
  dump_all_keeps P k d (p ∷ ps) h =
      dump_all_keeps P k (dump_packet x d (host.parse_packet p)).0 ps (k d (host.parse_packet p) h)

  -- After any packets the filters agree with the state: the PES demultiplexer is given the PIDs that
  -- have an emitter, the section demultiplexer the reserved ones and that of the PMT, and no PMT has
  -- taken a reserved PID.
  pub dump_all-IsValid :
      (sid : ℕ) (options : CaptionDumperOptions) (ps : List Packet)
      → IsValid x (dump_all x j out ts host (fresh_dumper x j out ts host sid options) ps).0
  dump_all-IsValid sid options ps =
      dump_all_keeps (IsValid x) (dump_packet-IsValid x) (fresh_dumper x j out ts host sid options)
        ps (new_dumper-IsValid x sid options.emit_empty_captions options.eit_output)

  dump_all-Obeys :
      (sid : ℕ) (empty : Bool) (mode : EitOutputMode) (d : CaptionDumper x) (ps : List Packet)
      → HasOptions x sid empty mode d
      → Obeys x sid empty mode (dump_all x j out ts host d ps)
  unfolding dump_all
  dump_all-Obeys sid empty mode d [] h = (h, tt)
  dump_all-Obeys sid empty mode d (p ∷ ps) h =
      let r = dump_packet x d (host.parse_packet p) in
      let a = dump_packet-Obeys x sid empty mode d (host.parse_packet p) h in
      let q = dump_all-Obeys sid empty mode r.0 ps a.0 in
      (q.0, append-All (IsWanted sid empty mode) r.1 (dump_all x j out ts host r.0 ps).1 a.1 q.1)

  -- Every record that a run prints, over any packets, is one that its options ask for: a caption has
  -- text unless empty ones are wanted, and an event is one of the target service, and the present one or
  -- a following one where only those are wanted.
  pub printed-AllWanted :
      (sid : ℕ) (options : CaptionDumperOptions) (ps : List Packet)
      → AllWanted sid options.emit_empty_captions options.eit_output
          (printed x j out ts host sid options ps)
  unfolding printed
  printed-AllWanted sid options ps =
      let empty = options.emit_empty_captions in
      let mode = options.eit_output in
      let d = fresh_dumper x j out ts host sid options in
      let r = dump_all x j out ts host d ps in
      let a =
        dump_all-Obeys sid empty mode d ps
          (record { target = refl; dumper = refl; events = refl; emitters = tt }) in
      append-All (IsWanted sid empty mode) r.1 (flush_dumper x r.0).1 a.1
        (flush_dumper-Obeys x sid empty mode r.0 a.0).1

  dump_all-dump_packets :
      (d : CaptionDumper x) (ps : List Packet)
      → dump_all x j out ts host d ps ≡ dump_packets x d (map host.parse_packet ps)
  unfolding dump_all
  dump_all-dump_packets d [] = refl
  dump_all-dump_packets d (p ∷ ps) =
      let r = dump_packet x d (host.parse_packet p) in
      ap (λ q. (q.0, r.1 ++ q.1)) (dump_all-dump_packets r.0 ps)

  -- Where the TOTs that are delivered during a run give times from the Unix epoch on, in a quarter of
  -- the range of an `std::int64_t`, such a number holds the time of every caption that the run prints.
  pub printed-AllFit :
      (sid : ℕ) (options : CaptionDumperOptions) (ps : List Packet)
      → AllDeliver x IsTimelyTable
          (fresh_dumper x j out ts host sid options)
          (map host.parse_packet ps)
      → All (HasTime IsTimeThatFits) (printed x j out ts host sid options ps)
  unfolding printed
  printed-AllFit sid options ps a =
      let d = fresh_dumper x j out ts host sid options in
      subst (λ r. All (HasTime IsTimeThatFits) (r.1 ++ (flush_dumper x r.0).1))
        (sym (dump_all-dump_packets d ps))
        (new_dumper-AllFit x sid options.emit_empty_captions options.eit_output
          (map host.parse_packet ps) a)

-- ===== src/Main/Delivery.antt =====
-- The handler of `Run` over the packets of a stream, and the records of all.
use aribcap_dump.Dumper.{flush_dumper, dump_packet}
use aribcap_dump.Output.{OutputRecord}
use aribcap_dump.Framer.Spec.{deliver, Packet}
use aribcap_dump.Framer.{Ts}
use aribcap_dump.Sink.{emit_all-append, emit_all, Ostream}
use aribcap_dump.Json.{JsonLibrary}
use aribcap_dump.Service.{new_dumper, CaptionDumper, Externals}
use aribcap_dump.Main.{on_packet, State, CaptionDumperOptions, Host}
use aribcap_dump.Prelude.{
  sym, subst, ◌∙◌, ap, inr, inl, [], Bool-cases, false, true, ◌++◌, ◌∷◌, ◌≡◌, Bool, List, ℕ, refl,
}

module _ (x : Externals) (j : JsonLibrary) (out : Ostream) (ts : Ts) (host : Host) where
  -- The packets, one after the other: the dumper's last state, and the records of all.
  unfoldable pub dump_all : CaptionDumper x → List Packet → CaptionDumper x × List OutputRecord
  dump_all d [] = (d, [])
  dump_all d (p ∷ ps) =
      let r = dump_packet x d (host.parse_packet p) in let q = dump_all r.0 ps in (q.0, r.1 ++ q.1)

  abbrev pub fresh_dumper : ℕ → CaptionDumperOptions → CaptionDumper x
  fresh_dumper sid options = new_dumper x sid options.emit_empty_captions options.eit_output

  -- The records of a whole stream, those of the flush at its end included.
  unfoldable pub printed : ℕ → CaptionDumperOptions → List Packet → List OutputRecord
  unfolding dump_all
  printed sid options ps =
      let r = dump_all (fresh_dumper sid options) ps in r.1 ++ (flush_dumper x r.0).1

  abbrev pub handler : Packet → State x j out ts host → Bool × State x j out ts host
  handler = on_packet x j out ts host

  pub deliver-go :
      (p : Packet) (ps : List Packet) (s t : State x j out ts host)
      → handler p s ≡ (true, t)
      → deliver handler (p ∷ ps) s ≡ deliver handler ps t
  unfolding deliver
  deliver-go p ps s t e =
      ap
        (λ r. elim r.0 as (λ _. Bool × State x j out ts host) [
          | true ↦ deliver handler ps r.1
          | false ↦ (false, r.1)
        ])
        e

  deliver-stop :
      (p : Packet) (ps : List Packet) (s t : State x j out ts host)
      → handler p s ≡ (false, t)
      → deliver handler (p ∷ ps) s ≡ (false, t)
  unfolding deliver
  deliver-stop p ps s t e =
      ap
        (λ r. elim r.0 as (λ _. Bool × State x j out ts host) [
          | true ↦ deliver handler ps r.1
          | false ↦ (false, r.1)
        ])
        e

  -- How the handler leaves the packets: all dumped and printed, or the output not good.
  pub data Delivered (d : CaptionDumper x) (s : out.State) (ps : List Packet)
      : Bool × State x j out ts host → Type 0 where
    all :
        {r : Bool × State x j out ts host}
        → r ≡ (true, ((dump_all d ps).0, emit_all j out s (dump_all d ps).1))
        → Delivered d s ps r
    stopped :
        {r : Bool × State x j out ts host}
        → r.0 ≡ false
        → out.good r.1.1 ≡ false
        → Delivered d s ps r

  Delivered-later :
      (d : CaptionDumper x) (s : out.State) (p : Packet) (ps : List Packet)
      {q : Bool × State x j out ts host}
      → let r = dump_packet x d (host.parse_packet p) in
        Delivered r.0 (emit_all j out s r.1) ps q → Delivered d s (p ∷ ps) q
  unfolding dump_all
  Delivered-later d s p ps (all e) =
      let r = dump_packet x d (host.parse_packet p) in
      let q = dump_all r.0 ps in
      all (e ∙ ap (λ u. (true, (q.0, u))) (sym (emit_all-append j out s r.1 q.1)))
  Delivered-later d s p ps (stopped a b) = stopped a b

  pub deliver-Delivered :
      (ps : List Packet) (d : CaptionDumper x) (s : out.State)
      → Delivered d s ps (deliver handler ps (d, s))
  unfolding dump_all deliver emit_all on_packet
  deliver-Delivered [] d s = all refl
  deliver-Delivered (p ∷ ps) d s =
      let r = dump_packet x d (host.parse_packet p) in
      let t = emit_all j out s r.1 in
      elim (Bool-cases (out.good t)) [
        | inl y ↦
            subst (Delivered d s (p ∷ ps))
              (sym (deliver-go p ps (d, s) (r.0, t) (ap (λ b. (b, (r.0, t))) y)))
              (Delivered-later d s p ps (deliver-Delivered ps r.0 t))
        | inr n ↦
            subst (Delivered d s (p ∷ ps))
              (sym (deliver-stop p ps (d, s) (r.0, t) (ap (λ b. (b, (r.0, t))) n))) (stopped refl n)
      ]

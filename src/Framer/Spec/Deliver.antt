-- ===== src/Framer/Spec/Deliver.antt =====
-- A handler over a list of packets, in parts, and over the four packets of a confirmed probe.
use aribcap_dump.Prelude.{
  ℕ, zero, suc, ◌*◌, ◌≡◌, refl, ap, Bool, true, false, List, [], ◌∷◌, ◌++◌, take, drop, arith,
}
use aribcap_dump.Framer.{Ts, emit_packet, emit_from, emit_sync_confirmed_packets}
use aribcap_dump.Framer.Spec.{Packet, deliver}
use aribcap_dump.Framer.Spec.Locked.{packets_from}

pub deliver-append_true :
    {S : Type 0} (h : Packet → S → Bool × S) (ps qs : List Packet) (s t : S)
    → deliver h ps s ≡ (true, t)
    → deliver h (ps ++ qs) s ≡ deliver h qs t
unfolding deliver
deliver-append_true h [] qs s t e = ap (λ r. deliver h qs r.1) e
deliver-append_true h (p ∷ ps) qs s t e = ground (arith, deliver-append_true h ps qs (h p s).1 t)

pub deliver-append_false :
    {S : Type 0} (h : Packet → S → Bool × S) (ps qs : List Packet) (s t : S)
    → deliver h ps s ≡ (false, t)
    → deliver h (ps ++ qs) s ≡ (false, t)
unfolding deliver
deliver-append_false h [] qs s t e = ground arith
deliver-append_false h (p ∷ ps) qs s t e = ground (arith, deliver-append_false h ps qs (h p s).1 t)

pub deliver-nil : {S : Type 0} (h : Packet → S → Bool × S) (s : S) → deliver h [] s ≡ (true, s)
unfolding deliver
deliver-nil h s = refl

module _ {S : Type 0} (ts : Ts) (on_packet : Packet → S → Bool × S) where
  emit_from-deliver :
      (n index : ℕ) (xs : List ℕ) (s : S)
      → emit_from ts on_packet n index xs s ≡ deliver on_packet (packets_from ts n index xs) s
  unfolding emit_from packets_from deliver emit_packet
  emit_from-deliver zero index xs s = refl
  emit_from-deliver (suc n) index xs s = ground (
    arith,
    emit_from-deliver n (suc index) xs
        (on_packet (take ts.pkt_size (drop (index * ts.pkt_size) xs)) s).1,
  )

  -- Emitting the packets of a probe is handing them over one by one.
  pub emit_sync_confirmed_packets-deliver :
      (xs : List ℕ) (s : S)
      → emit_sync_confirmed_packets ts on_packet xs s ≡ deliver on_packet (packets_from ts 4 0 xs) s
  unfolding emit_sync_confirmed_packets
  emit_sync_confirmed_packets-deliver xs s = emit_from-deliver 4 0 xs s

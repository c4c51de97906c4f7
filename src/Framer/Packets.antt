-- ===== src/Framer/Packets.antt =====
-- What the handler of `ReadAndFramePackets` may count on.
use aribcap_dump.Framer.Spec.Recovery.{stream_frames-Runs, Runs}
use aribcap_dump.Framer.Stream.{read_and_frame_packets_lem, verdict, Delivers}
use aribcap_dump.Framer.Input.{read_and_frame_packets, ReadFrameStatus, SysRead}
use aribcap_dump.Framer.Spec.Whole.{stream_frames-join, join, IsPacket, AllPackets}
use aribcap_dump.Framer.Spec.{stream_frames, probe, deliver, Packet, initial_frames, frames}
use aribcap_dump.Framer.{Ts}
use aribcap_dump.Prelude.{
  sym, ap, Option-cases, if◌then◌else◌, ◌++◌, ◌∙◌, contains_byte, length-take, inr, subst, leb,
  arith, inl, ◌==◌, get_or, Bool-cases, ◌<◌, zero, false, ◌-◌, [], true, take, ◌∷◌, length, suc,
  some, ◌≤◌, ◌≡◌, Bool, List, ℕ, refl,
}

head-take : (n b : ℕ) (bs : List ℕ) → 0 < n → get_or (take n (b ∷ bs)) 0 0 ≡ b
head-take zero b bs h = absurd (omega arith)
head-take (suc n) b bs h = refl

module _ (ts : Ts) where
  AllPackets-if :
      (c : Bool) (ps qs : List Packet)
      → (c ≡ true → AllPackets ts ps)
      → (c ≡ false → AllPackets ts qs)
      → AllPackets ts (elim c as (λ _. List Packet) [ true ↦ ps | false ↦ qs ])
  AllPackets-if true ps qs h k = h refl
  AllPackets-if false ps qs h k = k refl

  head_IsPacket :
      (b : ℕ) (bs : List ℕ)
      → b ≡ ts.sync_byte
      → ts.pkt_size ≤ length (b ∷ bs)
      → IsPacket ts (take ts.pkt_size (b ∷ bs))
  head_IsPacket b bs e l = record {
    size = omega (arith, l, length-take ts.pkt_size (b ∷ bs));
    sync = head-take ts.pkt_size b bs ts.pkt_size_pos ∙ e;
  }

  probe_head : (b : ℕ) (bs : List ℕ) → probe ts (b ∷ bs) ≡ true → b ≡ ts.sync_byte
  unfolding probe
  probe_head b bs h = ground (arith, h)

  probe_size : (b : ℕ) (bs : List ℕ) → probe ts (b ∷ bs) ≡ true → ts.pkt_size ≤ length (b ∷ bs)
  unfolding probe
  probe_size b bs h = ground (arith, h)

  frames-AllPackets :
      (locked : Bool) (k : ℕ) (bytes : List ℕ) → AllPackets ts (frames ts locked k bytes)
  unfolding frames
  frames-AllPackets locked k [] = tt
  frames-AllPackets locked (suc k) (b ∷ bs) = frames-AllPackets locked k bs
  frames-AllPackets false zero (b ∷ bs) =
      let later = frames-AllPackets false zero bs in
      let locked = frames-AllPackets true (ts.pkt_size - 1) bs in
      AllPackets-if (probe ts (b ∷ bs)) _ _
        (λ e. (head_IsPacket b bs (probe_head b bs e) (probe_size b bs e), locked)) (λ _. later)
  frames-AllPackets true zero (b ∷ bs) =
      let later = frames-AllPackets false zero bs in
      let locked = frames-AllPackets true (ts.pkt_size - 1) bs in
      AllPackets-if (b == ts.sync_byte) _ _
        (λ e.
          AllPackets-if (leb ts.pkt_size (length (b ∷ bs))) _ _
            (λ l. (head_IsPacket b bs (ground (arith, e)) (ground (arith, l)), locked)) (λ _. tt))
        (λ _. later)

  initial_frames-AllPackets :
      (n : ℕ) (bytes : List ℕ) {ps : List Packet}
      → initial_frames ts n bytes ≡ some ps
      → AllPackets ts ps
  unfolding initial_frames
  initial_frames-AllPackets zero bytes e = cc
  initial_frames-AllPackets (suc n) [] e = cc
  initial_frames-AllPackets (suc n) (b ∷ bs) {ps} e = elim (Bool-cases (probe ts (b ∷ bs))) [
    | inl y ↦ subst (AllPackets ts) (ground (arith, e, y)) (frames-AllPackets false 0 (b ∷ bs))
    | inr n' ↦ initial_frames-AllPackets n bs (ground (arith, e, n'))
  ]

  stream_frames-AllPackets :
      (bytes : List ℕ) {ps : List Packet} → stream_frames ts bytes ≡ some ps → AllPackets ts ps
  unfolding stream_frames
  stream_frames-AllPackets bytes e = initial_frames-AllPackets ts.pkt_size bytes e

module _ {S : Type 0} (ts : Ts) (on_packet : Packet → S → Bool × S) where
  deliver-keeps :
      (P : S → Type 0)
      → ((p : Packet) (s : S) → IsPacket ts p → P s → P (on_packet p s).1)
      → (ps : List Packet) (s : S) → AllPackets ts ps
      → P s
      → P (deliver on_packet ps s).1
  unfolding deliver
  deliver-keeps P k [] s a h = h
  deliver-keeps P k (p ∷ ps) s (i, a) h =
      let r = on_packet p s in
      let here = k p s i h in
      let later = deliver-keeps P k ps r.1 a here in
      elim (Bool-cases r.0) [
        | inl y ↦ subst P (ground (arith, y)) later
        | inr n ↦ subst P (ground (arith, n)) here
      ]

  -- On a file that is read to its end, every packet that the handler gets has the length of a packet
  -- and begins with a sync byte: what the handler keeps for such packets, holds at the end.
  pub read_and_frame_packets_keeps :
      (P : S → Type 0)
      → ((p : Packet) (s : S) → IsPacket ts p → P s → P (on_packet p s).1)
      → {rs : List SysRead} {xs : List ℕ} → Delivers rs xs
      → (s : S) → P s
      → (r : ReadFrameStatus × S) × (read_and_frame_packets ts on_packet rs s ≡ some r) × P r.1
  read_and_frame_packets_keeps P k {rs} {xs} d s h = (
    verdict ts on_packet (stream_frames ts xs) s,
    read_and_frame_packets_lem ts on_packet d s,
    elim (Option-cases (stream_frames ts xs)) [
      | inl e ↦ subst (λ o. P (verdict ts on_packet o s).1) (sym e) h
      | inr e ↦
          subst (λ o. P (verdict ts on_packet o s).1) (sym e.1)
            (deliver-keeps P k e.0 s (stream_frames-AllPackets ts xs e.1) h)
    ],
  )

  -- A file of at least four packets, with fewer bytes than a packet's and no sync byte before them,
  -- and fewer than a packet's after them: the handler gets these packets, each once and in order, until
  -- it returns false, and the run has failed exactly if it did.
  pub read_and_frame_packets-join :
      (skip : List ℕ) (ps : List Packet) (tail : List ℕ)
      → length skip < ts.pkt_size
      → contains_byte ts.sync_byte skip ≡ false
      → AllPackets ts ps
      → 4 ≤ length ps
      → length tail < ts.pkt_size
      → {rs : List SysRead} → Delivers rs (skip ++ (join ps ++ tail))
      → (s : S)
      → let r = deliver on_packet ps s in
        read_and_frame_packets ts on_packet rs s
        ≡ some (if r.0 then ReadFrameStatus.ok else ReadFrameStatus.failed, r.1)
  read_and_frame_packets-join skip ps tail l n v h t d s =
      read_and_frame_packets_lem ts on_packet d s
      ∙ ap (λ o. some (verdict ts on_packet o s)) (stream_frames-join ts skip ps tail l n v h t)

  -- A file that begins with at least four packets, after fewer bytes than a packet's and no sync byte,
  -- and in which sync may be lost and regained any number of times: the handler gets the packets of
  -- all runs, each once and in order, until it returns false, and the run has failed exactly if it
  -- did. What follows a loss of sync and is shorter than four packets is not delivered, even where
  -- whole packets stand in it, and that is no failure.
  pub read_and_frame_packets-Runs :
      (skip : List ℕ) (x y z w : Packet) {ps : List Packet} {rest : List ℕ}
      → length skip < ts.pkt_size
      → contains_byte ts.sync_byte skip ≡ false
      → IsPacket ts x × IsPacket ts y × IsPacket ts z × IsPacket ts w
      → Runs ts ps rest
      → {rs : List SysRead} → Delivers rs (skip ++ (x ++ (y ++ (z ++ (w ++ rest)))))
      → (s : S)
      → let r = deliver on_packet (x ∷ y ∷ z ∷ w ∷ ps) s in
        read_and_frame_packets ts on_packet rs s
        ≡ some (if r.0 then ReadFrameStatus.ok else ReadFrameStatus.failed, r.1)
  read_and_frame_packets-Runs skip x y z w l n v r d s =
      read_and_frame_packets_lem ts on_packet d s
      ∙ ap (λ o. some (verdict ts on_packet o s)) (stream_frames-Runs ts skip x y z w l n v r)

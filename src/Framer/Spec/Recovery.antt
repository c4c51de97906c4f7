-- ===== src/Framer/Spec/Recovery.antt =====
-- Streams that lose and regain sync: runs of packets, with bytes between them that are none.
use aribcap_dump.Framer.Spec.Whole.{probe_join, initial_frames_skip, frames_packet, IsPacket}
use aribcap_dump.Framer.Spec.Locked.{
  frames_short, frames-probe, probe-head_ne, frames_unlock, frames_locked_short,
}
use aribcap_dump.Framer.Spec.{Packet, stream_frames, frames}
use aribcap_dump.Framer.{Ts}
use aribcap_dump.Prelude.{
  ap, ◌*◌, some, ◌∙◌, arith, ◌≢◌, ◌++◌, [], false, ◌<◌, true, ◌∷◌, ◌≡◌, length, contains_byte, ℕ,
  List, refl,
}

-- The packets of a stream, from a packet boundary on. After bytes that begin without a sync byte the
-- next run has at least four packets, or is too short for four and is given up.
pub data Runs (ts : Ts) : List Packet → List ℕ → Type 0 where
  truncated : {tail : List ℕ} → length tail < ts.pkt_size → Runs ts [] tail
  packet :
      {p : Packet} {ps : List Packet} {rest : List ℕ}
      → IsPacket ts p
      → Runs ts ps rest
      → Runs ts (p ∷ ps) (p ++ rest)
  regained :
      {ps : List Packet} {rest : List ℕ} (b : ℕ) (gap : List ℕ) (x y z w : Packet)
      → contains_byte ts.sync_byte (b ∷ gap) ≡ false
      → IsPacket ts x × IsPacket ts y × IsPacket ts z × IsPacket ts w
      → Runs ts ps rest
      → Runs ts (x ∷ y ∷ z ∷ w ∷ ps) (b ∷ gap ++ (x ++ (y ++ (z ++ (w ++ rest)))))
  given_up :
      {rest : List ℕ} (b : ℕ)
      → b ≢ ts.sync_byte
      → length (b ∷ rest) < 4 * ts.pkt_size
      → Runs ts [] (b ∷ rest)

module _ (ts : Ts) where
  frames_gap :
      (gap rest : List ℕ)
      → contains_byte ts.sync_byte gap ≡ false
      → frames ts false 0 (gap ++ rest) ≡ frames ts false 0 rest
  unfolding frames
  frames_gap [] rest h = refl
  frames_gap (b ∷ gap) rest h =
      ground (arith, probe-head_ne ts b (gap ++ rest), frames_gap gap rest)

  -- Four packets after bytes without a sync byte, and what follows them.
  frames-regained :
      (b : ℕ) (gap : List ℕ) (x y z w : Packet) (rest : List ℕ)
      → contains_byte ts.sync_byte (b ∷ gap) ≡ false
      → IsPacket ts x × IsPacket ts y × IsPacket ts z × IsPacket ts w
      → frames ts true 0 (b ∷ gap ++ (x ++ (y ++ (z ++ (w ++ rest)))))
        ≡ x ∷ y ∷ z ∷ w ∷ frames ts true 0 rest
  frames-regained b gap x y z w rest h (vx, vy, vz, vw) =
      let run = x ++ (y ++ (z ++ (w ++ rest))) in
      frames_unlock ts b (gap ++ run) (ground (arith, h))
      ∙ frames_gap (b ∷ gap) run h
      ∙ frames-probe ts run (probe_join ts x y z w rest (vx, vy, vz, vw))
      ∙ frames_packet ts x (y ++ (z ++ (w ++ rest))) vx
      ∙ ap (λ ps. x ∷ ps)
          (frames_packet ts y (z ++ (w ++ rest)) vy
            ∙ ap (λ ps. y ∷ ps)
                (frames_packet ts z (w ++ rest) vz
                  ∙ ap (λ ps. z ∷ ps) (frames_packet ts w rest vw)))

  pub frames-Runs :
      {ps : List Packet} {bytes : List ℕ} → Runs ts ps bytes → frames ts true 0 bytes ≡ ps
  frames-Runs (truncated h) = frames_locked_short ts _ h
  frames-Runs (packet {p = p} {rest = rest} i r) =
      frames_packet ts p rest i ∙ ap (λ ps. p ∷ ps) (frames-Runs r)
  frames-Runs (regained {rest = rest} b gap x y z w h v r) =
      frames-regained b gap x y z w rest h v ∙ ap (λ ps. x ∷ y ∷ z ∷ w ∷ ps) (frames-Runs r)
  frames-Runs (given_up {rest = rest} b n h) =
      frames_unlock ts b rest n ∙ frames_short ts (b ∷ rest) h

  -- A stream that begins with fewer bytes than a packet's, none of them a sync byte, and then with at
  -- least four packets.
  pub stream_frames-Runs :
      (skip : List ℕ) (x y z w : Packet) {ps : List Packet} {rest : List ℕ}
      → length skip < ts.pkt_size
      → contains_byte ts.sync_byte skip ≡ false
      → IsPacket ts x × IsPacket ts y × IsPacket ts z × IsPacket ts w
      → Runs ts ps rest
      → stream_frames ts (skip ++ (x ++ (y ++ (z ++ (w ++ rest))))) ≡ some (x ∷ y ∷ z ∷ w ∷ ps)
  unfolding stream_frames
  stream_frames-Runs skip x y z w {ps} {rest} l n (vx, vy, vz, vw) r =
      initial_frames_skip ts ts.pkt_size skip (x ++ (y ++ (z ++ (w ++ rest)))) l n
        (probe_join ts x y z w rest (vx, vy, vz, vw))
      ∙ ap some (frames-Runs (packet vx (packet vy (packet vz (packet vw r)))))

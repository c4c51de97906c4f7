-- ===== src/Framer/Spec/Whole.antt =====
-- The packets of a stream that is made of packets, and the shape of the packets of any stream.
use aribcap_dump.Framer.Lists.{
  get_or-append_right, drop-all, drop-append_left, take-all, take-append_left, get_or-append_left,
}
use aribcap_dump.Framer.Spec.Locked.{
  frames-probe, probe_short, probe-head_ne, frames_locked_short, frames_locked,
}
use aribcap_dump.Framer.Spec.{stream_frames, initial_frames, sync_at, frames, probe, Packet}
use aribcap_dump.Framer.{Ts}
use aribcap_dump.Prelude.{
  zero, ◌≤◌, some, false, ◌+◌, sym, ap₂, ◌∙◌, append_assoc, length-append, ap, arith, suc, get_or,
  [], ◌*◌, ◌<◌, true, contains_byte, ◌≡◌, ◌++◌, ◌∷◌, length, ℕ, List,
}

-- What the framer takes for a packet: its length, and a sync byte at its head.
pub record IsPacket (ts : Ts) (p : Packet) : Type 0 where
  pub size : length p ≡ ts.pkt_size
  pub sync : get_or p 0 0 ≡ ts.sync_byte

abbrev pub AllPackets : Ts → List Packet → Type 0
AllPackets ts [] = Unit {0}
AllPackets ts (p ∷ ps) = IsPacket ts p × AllPackets ts ps

abbrev pub join : List Packet → List ℕ
join [] = []
join (p ∷ ps) = p ++ join ps

module _ (ts : Ts) where
  pub frames_packet :
      (p : Packet) (rest : List ℕ)
      → IsPacket ts p
      → frames ts true 0 (p ++ rest) ≡ p ∷ frames ts true 0 rest
  frames_packet p rest i =
      frames_locked ts (p ++ rest)
        (ground (
          arith,
          i.size,
          i.sync,
          ts.pkt_size_pos,
          length-append p rest,
          get_or-append_left p rest 0 0,
        ))
        (omega (arith, i.size, length-append p rest))
      ∙ ap₂ (λ q r. q ∷ frames ts true 0 r)
          (take-append_left ts.pkt_size p rest (omega (arith, i.size))
            ∙ take-all ts.pkt_size p (sym i.size))
          (drop-append_left ts.pkt_size p rest (omega (arith, i.size))
            ∙ ap (λ q. q ++ rest) (drop-all ts.pkt_size p (sym i.size)))

  frames-join :
      (ps : List Packet) (tail : List ℕ)
      → AllPackets ts ps
      → length tail < ts.pkt_size
      → frames ts true 0 (join ps ++ tail) ≡ ps
  frames-join [] tail a h = frames_locked_short ts tail h
  frames-join (p ∷ ps) tail (i, a) h =
      ap (frames ts true 0) (append_assoc p (join ps) tail)
      ∙ frames_packet p (join ps ++ tail) i
      ∙ ap (λ qs. p ∷ qs) (frames-join ps tail a h)

  -- A sync byte stands where the next packet starts.
  sync_at_next :
      (p : Packet) (rest : List ℕ) (i : ℕ)
      → IsPacket ts p
      → sync_at ts rest (i * ts.pkt_size) ≡ true
      → sync_at ts (p ++ rest) (suc i * ts.pkt_size) ≡ true
  sync_at_next p rest i v h =
      let e : suc i * ts.pkt_size ≡ length p + i * ts.pkt_size = omega (arith, v.size) in
      ap (sync_at ts (p ++ rest)) e
      ∙ ground (arith, length-append p rest, get_or-append_right p rest (i * ts.pkt_size) 0, h)

  sync_at_head :
      (p : Packet) (rest : List ℕ) → IsPacket ts p → sync_at ts (p ++ rest) (0 * ts.pkt_size) ≡ true
  sync_at_head p rest v =
      let e : 0 * ts.pkt_size ≡ 0 = omega arith in
      ap (sync_at ts (p ++ rest)) e
      ∙ ground (
        arith,
        v.size,
        v.sync,
        ts.pkt_size_pos,
        length-append p rest,
        get_or-append_left p rest 0 0,
      )

  pub probe_join :
      (a b c d : Packet) (rest : List ℕ)
      → IsPacket ts a × IsPacket ts b × IsPacket ts c × IsPacket ts d
      → probe ts (a ++ (b ++ (c ++ (d ++ rest)))) ≡ true
  unfolding probe
  probe_join a b c d rest (va, vb, vc, vd) =
      let s3 = sync_at_head d rest vd in
      let s2 = sync_at_next c (d ++ rest) 0 vc s3 in
      let s1 = sync_at_next b (c ++ (d ++ rest)) 1 vb s2 in
      let s0 = sync_at_next a (b ++ (c ++ (d ++ rest))) 2 va s1 in
      let r2 = sync_at_next b (c ++ (d ++ rest)) 0 vb (sync_at_head c (d ++ rest) vc) in
      let r1 = sync_at_next a (b ++ (c ++ (d ++ rest))) 1 va r2 in
      let q1 =
        sync_at_next a (b ++ (c ++ (d ++ rest))) 0 va (sync_at_head b (c ++ (d ++ rest)) vb) in
      let p1 = sync_at_head a (b ++ (c ++ (d ++ rest))) va in
      ground (
        arith,
        va.size,
        vb.size,
        vc.size,
        vd.size,
        length-append a (b ++ (c ++ (d ++ rest))),
        length-append b (c ++ (d ++ rest)),
        length-append c (d ++ rest),
        length-append d rest,
        s0,
        r1,
        q1,
        p1,
      )

  pub initial_frames_skip :
      (n : ℕ) (skip rest : List ℕ)
      → length skip < n
      → contains_byte ts.sync_byte skip ≡ false
      → probe ts rest ≡ true
      → initial_frames ts n (skip ++ rest) ≡ some (frames ts true 0 rest)
  unfolding initial_frames
  initial_frames_skip zero skip rest l c h = absurd (omega arith)
  initial_frames_skip (suc n) [] [] l c h =
      ground (arith, h, probe_short ts [] (omega (arith, ts.pkt_size_pos)))
  initial_frames_skip (suc n) [] (b ∷ bs) l c h = ground (arith, h, frames-probe ts (b ∷ bs) h)
  initial_frames_skip (suc n) (b ∷ skip) rest l c h =
      ground (arith, probe-head_ne ts b (skip ++ rest), initial_frames_skip n skip rest)

  -- A stream of at least four packets, with fewer bytes than a packet's and no sync byte before
  -- them, and fewer than a packet's after them, is cut into these packets.
  pub stream_frames-join :
      (skip : List ℕ) (ps : List Packet) (tail : List ℕ)
      → length skip < ts.pkt_size
      → contains_byte ts.sync_byte skip ≡ false
      → AllPackets ts ps
      → 4 ≤ length ps
      → length tail < ts.pkt_size
      → stream_frames ts (skip ++ (join ps ++ tail)) ≡ some ps
  unfolding stream_frames
  stream_frames-join skip (a ∷ b ∷ c ∷ d ∷ ps) tail l n v h t =
      initial_frames_skip ts.pkt_size skip (join (a ∷ b ∷ c ∷ d ∷ ps) ++ tail) l n (
        ap (probe ts) (simp (append_assoc))
        ∙ probe_join a b c d (join ps ++ tail) (v.0, v.1.0, v.1.1.0, v.1.1.1.0))
      ∙ ap some (frames-join (a ∷ b ∷ c ∷ d ∷ ps) tail v t)
  stream_frames-join skip [] tail l n v h t = absurd (omega arith)
  stream_frames-join skip (a ∷ []) tail l n v h t = absurd (omega arith)
  stream_frames-join skip (a ∷ b ∷ []) tail l n v h t = absurd (omega arith)
  stream_frames-join skip (a ∷ b ∷ c ∷ []) tail l n v h t = absurd (omega arith)

-- ===== src/Dumper/Traversal.antt =====
-- The loops of the dumper over what the demultiplexers deliver, for any invariant of the state and any
-- property of the records.
use aribcap_dump.TsUtils.{PesPacket}
use aribcap_dump.Dumper.{
  handle_pes_packet, diagnostics, handle_table, flush_dumper, dump_packet, feed_pes_demux,
  feed_section_demux, handle_pes_packets, handle_tables,
}
use aribcap_dump.Clock.{record_pcr, TsPacket}
use aribcap_dump.Output.{pcr_discontinuity, diagnostic, PcrDiscontinuity, OutputRecord}
use aribcap_dump.Service.{Table, CaptionDumper, Externals}
use aribcap_dump.Prelude.{
  refl, arith, not, none, false, ◌++◌, some, [], append-All, true, if◌then◌else◌, ◌∷◌, ◌≡◌, Bool,
  All, Option, List,
}

module _ (x : Externals) (Inv : CaptionDumper x → Type 0) (Good : OutputRecord → Type 0) where
  -- What a call leaves behind and prints is as it should be.
  abbrev pub Keeps : CaptionDumper x × List OutputRecord → Type 0
  Keeps r = Inv r.0 × All Good r.1

  pub branch-Keeps :
      (b : Bool) (r q : CaptionDumper x × List OutputRecord)
      → (b ≡ true → Keeps r)
      → (b ≡ false → Keeps q)
      → Keeps (if b then r else q)
  branch-Keeps true r q h k = h refl
  branch-Keeps false r q h k = k refl

-- What the handlers and the demultiplexers owe: each keeps the invariant, for tables of the kind
-- allowed, and prints records that have the property.
pub record Handlers (x : Externals) (Inv : CaptionDumper x → Type 0) (Allowed : Table → Type 0)
    (Good : OutputRecord → Type 0) : Type 0 where
  pub clock :
      (d : CaptionDumper x) (packet : TsPacket)
      → Inv d
      → Inv (record d { program_clock = (record_pcr x.timing d.program_clock packet).0 })
  pub section :
      (d : CaptionDumper x) (packet : TsPacket)
      → Inv d
      → Inv (record d { section_demux = (x.section.feed_packet d.section_demux packet).0 })
  pub pes :
      (d : CaptionDumper x) (packet : TsPacket)
      → Inv d
      → Inv (record d { pes_demux = (x.pes.feed_packet d.pes_demux packet).0 })
  pub flush :
      (d : CaptionDumper x) → Inv d → Inv (record d { pes_demux = (x.pes.flush d.pes_demux).0 })
  pub table :
      (d : CaptionDumper x) (table : Table)
      → Allowed table
      → Inv d
      → Inv (handle_table x d table).0 × All Good (handle_table x d table).1
  pub pes_packet :
      (d : CaptionDumper x) (packet : PesPacket)
      → Inv d
      → Inv (handle_pes_packet x d packet).0 × All Good (handle_pes_packet x d packet).1
  pub discontinuity : (c : PcrDiscontinuity) → Good (diagnostic (pcr_discontinuity c))

module _ (x : Externals) where
  -- The packets, one after the other, and all that they print.
  abbrev pub dump_packets : CaptionDumper x → List TsPacket → CaptionDumper x × List OutputRecord
  dump_packets d [] = (d, [])
  dump_packets d (packet ∷ packets) =
      let r = dump_packet x d packet in let q = dump_packets r.0 packets in (q.0, r.1 ++ q.1)

  -- The tables that a packet delivers are of the kind allowed.
  abbrev pub DeliversOnly : (Table → Type 0) → CaptionDumper x → TsPacket → Type 0
  DeliversOnly Allowed d packet = All Allowed (x.section.feed_packet d.section_demux packet).1

  abbrev pub AllDeliver : (Table → Type 0) → CaptionDumper x → List TsPacket → Type 0
  AllDeliver Allowed d [] = Unit {0}
  AllDeliver Allowed d (packet ∷ packets) =
      DeliversOnly Allowed d packet × AllDeliver Allowed (dump_packet x d packet).0 packets

module _ (x : Externals) (Inv : CaptionDumper x → Type 0) (Allowed : Table → Type 0)
    (Good : OutputRecord → Type 0) (h : Handlers x Inv Allowed Good) where
  handle_tables-Keeps :
      (d : CaptionDumper x) (tables : List Table)
      → All Allowed tables
      → Inv d
      → Keeps x Inv Good (handle_tables x d tables)
  unfolding handle_tables
  handle_tables-Keeps d [] a v = (v, tt)
  handle_tables-Keeps d (table ∷ tables) a v =
      let r = handle_table x d table in
      let k = h.table d table a.0 v in
      let q = handle_tables-Keeps r.0 tables a.1 k.0 in
      (q.0, append-All Good r.1 (handle_tables x r.0 tables).1 k.1 q.1)

  handle_pes_packets-Keeps :
      (d : CaptionDumper x) (packets : List PesPacket)
      → Inv d
      → Keeps x Inv Good (handle_pes_packets x d packets)
  unfolding handle_pes_packets
  handle_pes_packets-Keeps d [] v = (v, tt)
  handle_pes_packets-Keeps d (packet ∷ packets) v =
      let r = handle_pes_packet x d packet in
      let k = h.pes_packet d packet v in
      let q = handle_pes_packets-Keeps r.0 packets k.0 in
      (q.0, append-All Good r.1 (handle_pes_packets x r.0 packets).1 k.1 q.1)

  feed_section_demux-Keeps :
      (d : CaptionDumper x) (packet : TsPacket)
      → DeliversOnly x Allowed d packet
      → Inv d
      → Keeps x Inv Good (feed_section_demux x d packet)
  unfolding feed_section_demux
  feed_section_demux-Keeps d packet a v =
      handle_tables-Keeps _ (x.section.feed_packet d.section_demux packet).1 a
        (h.section d packet v)

  feed_pes_demux-Keeps :
      (d : CaptionDumper x) (packet : TsPacket)
      → Inv d
      → Keeps x Inv Good (feed_pes_demux x d packet)
  unfolding feed_pes_demux
  feed_pes_demux-Keeps d packet v =
      branch-Keeps x Inv Good (x.pes.has_pid d.pes_demux packet.pid) _ (d, [])
        (λ y.
          handle_pes_packets-Keeps _ (x.pes.feed_packet d.pes_demux packet).1 (h.pes d packet v))
        (λ n. (v, tt))

  diagnostics-All : (o : Option PcrDiscontinuity) → All Good (diagnostics x o)
  diagnostics-All none = tt
  diagnostics-All (some c) = (h.discontinuity c, tt)

  -- A packet without sync changes nothing; for another one the invariant is to hold once its PCR is
  -- recorded.
  pub recorded-Keeps :
      (d : CaptionDumper x) (packet : TsPacket)
      → DeliversOnly x Allowed d packet
      → (packet.has_valid_sync ≡ false → Inv d)
      → Inv (record d { program_clock = (record_pcr x.timing d.program_clock packet).0 })
      → Keeps x Inv Good (dump_packet x d packet)
  unfolding dump_packet
  recorded-Keeps d packet a u v =
      let c = record_pcr x.timing d.program_clock packet in
      let e : CaptionDumper x = record d { program_clock = c.0 } in
      let s = feed_section_demux x e packet in
      let p = feed_pes_demux x s.0 packet in
      let hs = feed_section_demux-Keeps e packet a v in
      let hp = feed_pes_demux-Keeps s.0 packet hs.0 in
      branch-Keeps x Inv Good (not packet.has_valid_sync) (d, [])
        (p.0, diagnostics x c.1 ++ s.1 ++ p.1) (λ n. (u (ground (arith, n)), tt))
        (λ y. (
          hp.0,
          append-All Good (diagnostics x c.1 ++ s.1) p.1
              (append-All Good (diagnostics x c.1) s.1 (diagnostics-All c.1) hs.1) hp.1,
        ))

  pub dump_packet-Keeps :
      (d : CaptionDumper x) (packet : TsPacket)
      → DeliversOnly x Allowed d packet
      → Inv d
      → Keeps x Inv Good (dump_packet x d packet)
  dump_packet-Keeps d packet a v = recorded-Keeps d packet a (λ n. v) (h.clock d packet v)

  pub flush_dumper-Keeps : (d : CaptionDumper x) → Inv d → Keeps x Inv Good (flush_dumper x d)
  unfolding flush_dumper
  flush_dumper-Keeps d v = handle_pes_packets-Keeps _ (x.pes.flush d.pes_demux).1 (h.flush d v)

  pub dump_packets-Keeps :
      (d : CaptionDumper x) (packets : List TsPacket)
      → AllDeliver x Allowed d packets
      → Inv d
      → Keeps x Inv Good (dump_packets x d packets)
  dump_packets-Keeps d [] a v = (v, tt)
  dump_packets-Keeps d (packet ∷ packets) a v =
      let r = dump_packet x d packet in
      let k = dump_packet-Keeps d packet a.0 v in
      let q = dump_packets-Keeps r.0 packets a.1 k.0 in
      (q.0, append-All Good r.1 (dump_packets x r.0 packets).1 k.1 q.1)

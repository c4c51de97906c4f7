-- ===== src/Dumper/Idle.antt =====
-- A dumper without emitters.
use aribcap_dump.TsUtils.{PesPacket}
use aribcap_dump.Service.{CaptionDumper, Externals}
use aribcap_dump.Dumper.{flush_dumper, handle_pes_packets, handle_pes_packet, decode_with}
use aribcap_dump.Prelude.{◌∙◌, ◌++◌, lookup, ◌∷◌, ap, [], ◌≡◌, List, refl}

module _ (x : Externals) where
  idle :
      (d : CaptionDumper x) (packet : PesPacket)
      → d.caption_emitters ≡ []
      → handle_pes_packet x d packet ≡ (d, [])
  unfolding handle_pes_packet
  idle d packet e = ap (λ es. decode_with x d packet (lookup packet.source_pid es)) e

  handle_pes_packets-idle :
      (d : CaptionDumper x) (packets : List PesPacket)
      → d.caption_emitters ≡ []
      → handle_pes_packets x d packets ≡ (d, [])
  unfolding handle_pes_packets
  handle_pes_packets-idle d [] e = refl
  handle_pes_packets-idle d (p ∷ ps) e =
      ap (λ r. ((handle_pes_packets x r.0 ps).0, r.1 ++ (handle_pes_packets x r.0 ps).1))
        (idle d p e)
      ∙ handle_pes_packets-idle d ps e

  pub flush_dumper-idle :
      (d : CaptionDumper x) → d.caption_emitters ≡ [] → (flush_dumper x d).1 ≡ []
  unfolding flush_dumper
  flush_dumper-idle d e =
      ap (λ r. r.1)
        (handle_pes_packets-idle (record d { pes_demux = (x.pes.flush d.pes_demux).0 })
          (x.pes.flush d.pes_demux).1 e)

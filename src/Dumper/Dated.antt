-- ===== src/Dumper/Dated.antt =====
-- The time of a caption, from the bytes of its PES packet on.
use aribcap_dump.Clock.Convert.{pts_to_unix_ms_after}
use aribcap_dump.Captions.Setting.{handle_pes-AllFrom}
use aribcap_dump.Dumper.Times.{from-HasTime, HasTime}
use aribcap_dump.TsUtils.Fields.{parse_pes_pts_iff, CarriesPts}
use aribcap_dump.Captions.{time_of}
use aribcap_dump.Prelude.Int.{pos, ◌+ℤ◌, ℤ}
use aribcap_dump.Clock.{ReferencePoint}
use aribcap_dump.TsUtils.{parse_pes_pts, header_byte, PesPacket}
use aribcap_dump.Dumper.{decode_with, handle_pes_packet}
use aribcap_dump.Prelude.{
  arith, ◌∙◌, none, ap, ◌/◌, lookup, ◌%◌, ◌+◌, ◌^◌, some, All, ◌≡◌, ◌<◌, ℕ, Option,
}
use aribcap_dump.Service.{Emitter, CaptionDumper, Externals}
use aribcap_dump.Clock.Invariant.{IsValid}

module _ (x : Externals) where
  handle_pes_packet-HasTime :
      (d : CaptionDumper x) (packet : PesPacket) (time : Option ℤ)
      → time_of x.decoders x.timing x.reader d.program_clock (parse_pes_pts x.reader packet) ≡ time
      → All (HasTime (λ t. t ≡ time)) (handle_pes_packet x d packet).1
  unfolding handle_pes_packet
  handle_pes_packet-HasTime d packet time e =
      of_emitter (lookup packet.source_pid d.caption_emitters)
    where
      of_emitter :
          (o : Option (Emitter x)) → All (HasTime (λ t. t ≡ time)) (decode_with x d packet o).1
      of_emitter none = tt
      of_emitter (some m) =
          from-HasTime (λ t. t ≡ time) packet.source_pid _ m.emit_empty_captions _ e
            (handle_pes-AllFrom x.decoders x.timing x.reader m d.program_clock packet)

  -- Where the clock is valid, has a reference point and no suspect PCR, and the header of a PES packet
  -- carries a PTS that comes `k` ticks after the reference point, round the wrap and by less than half of
  -- it: the captions of the packet, in both languages, are printed with the time of the reference point
  -- plus the whole milliseconds in `k` ticks.
  pub handle_pes_packet_dated :
      (d : CaptionDumper x) (packet : PesPacket) (r : ReferencePoint) (pts k : ℕ)
      → ((i : ℕ) → header_byte packet i < 256)
      → CarriesPts packet pts
      → IsValid x.timing d.program_clock
      → d.program_clock.reference_point ≡ some r
      → d.program_clock.suspect_pcr_count ≡ 0
      → k < 2 ^ 32
      → (r.pcr_90k + k) % 2 ^ 33 ≡ pts
      → All
          (HasTime (λ time. time ≡ some (r.unix_ms +ℤ pos (k / 90))))
          (handle_pes_packet x d packet).1
  handle_pes_packet_dated d packet r pts k bytes c v e z h q =
      handle_pes_packet-HasTime d packet (some (r.unix_ms +ℤ pos (k / 90))) (
        ap (λ o. time_of x.decoders x.timing x.reader d.program_clock o)
          ((parse_pes_pts_iff x.reader packet pts bytes).1 c)
        ∙ pts_to_unix_ms_after x.timing d.program_clock r pts k v e z
            (omega (arith, x.timing.max_pts_dts_eq, c.small)) h q)

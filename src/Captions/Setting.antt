-- ===== src/Captions/Setting.antt =====
-- The option of a caption stream's emitter, from packet to packet.
use aribcap_dump.Captions.Records.{
  decode_all-AllFrom, after_second-state, AllFrom, ensure-emit_empty_captions,
}
use aribcap_dump.TsUtils.{parse_pes_pts, PesPacket, PtsReader}
use aribcap_dump.Prelude.Int.{ℤ}
use aribcap_dump.Clock.{ProgramClock, Timing}
use aribcap_dump.Captions.{
  no_caption, error, pts_ms_of, got_caption, time_of, ensure_second_language_decoder, decode_all,
  Decoded, handle_pes, after_first, CaptionRecordEmitter, decode_second, Decoders,
}
use aribcap_dump.Prelude.{none, ap, some, ◌∙◌, ◌≡◌, List, ℕ, Option, refl}

module _ (ds : Decoders) where
  decode_second-emit_empty_captions :
      (e : CaptionRecordEmitter ds.Decoder) (o : Option ds.Decoder) (time : Option ℤ) (pid : ℕ)
      (payload : List ℕ) (pts_ms : ℤ)
      → (decode_second ds e o time pid payload pts_ms).0.emit_empty_captions ≡ e.emit_empty_captions
  unfolding decode_second
  decode_second-emit_empty_captions e none time pid payload pts_ms = refl
  decode_second-emit_empty_captions e (some decoder) time pid payload pts_ms =
      let r = ds.decode decoder payload pts_ms in
      ap (λ f. f.emit_empty_captions)
        (after_second-state ds (record e { second = some r.0 }) r.1 time pid)

  fed-emit_empty_captions :
      (e : CaptionRecordEmitter ds.Decoder) (time : Option ℤ) (pid : ℕ) (payload : List ℕ)
      (pts_ms : ℤ)
      → let f = ensure_second_language_decoder ds e in
        (decode_second ds f f.second time pid payload pts_ms).0.emit_empty_captions
        ≡ e.emit_empty_captions
  fed-emit_empty_captions e time pid payload pts_ms =
      let f = ensure_second_language_decoder ds e in
      decode_second-emit_empty_captions f f.second time pid payload pts_ms
      ∙ ensure-emit_empty_captions ds e

  after_first-emit_empty_captions :
      (e : CaptionRecordEmitter ds.Decoder) (status : Decoded) (time : Option ℤ) (pid : ℕ)
      (payload : List ℕ) (pts_ms : ℤ)
      → (after_first ds e status time pid payload pts_ms).0.emit_empty_captions
        ≡ e.emit_empty_captions
  unfolding after_first
  after_first-emit_empty_captions e error time pid payload pts_ms = refl
  after_first-emit_empty_captions e no_caption time pid payload pts_ms =
      fed-emit_empty_captions e time pid payload pts_ms
  after_first-emit_empty_captions e (got_caption c) time pid payload pts_ms =
      fed-emit_empty_captions e time pid payload pts_ms

  pub handle_pes-emit_empty_captions :
      (t : Timing) (reader : PtsReader) (e : CaptionRecordEmitter ds.Decoder) (clock : ProgramClock)
      (packet : PesPacket)
      → (handle_pes ds t reader e clock packet).0.emit_empty_captions ≡ e.emit_empty_captions
  unfolding handle_pes decode_all
  handle_pes-emit_empty_captions t reader e clock packet =
      let pts = parse_pes_pts reader packet in
      let r = ds.decode e.first packet.payload (pts_ms_of ds t reader pts) in
      after_first-emit_empty_captions (record e { first = r.0 }) r.1 (time_of ds t reader clock pts)
        packet.source_pid packet.payload (pts_ms_of ds t reader pts)

  pub handle_pes-AllFrom :
      (t : Timing) (reader : PtsReader) (e : CaptionRecordEmitter ds.Decoder) (clock : ProgramClock)
      (packet : PesPacket)
      → let time = time_of ds t reader clock (parse_pes_pts reader packet) in
        AllFrom packet.source_pid time e.emit_empty_captions
          (handle_pes ds t reader e clock packet).1
  unfolding handle_pes
  handle_pes-AllFrom t reader e clock packet =
      let pts = parse_pes_pts reader packet in
      decode_all-AllFrom ds e (time_of ds t reader clock pts) packet.source_pid packet.payload
        (pts_ms_of ds t reader pts)

-- ===== src/Captions.antt =====
-- core/caption_record_emitter.hpp and core/caption_record_emitter.cc: `CaptionRecordEmitter`, which
-- decodes the PES packets of one caption stream. What goes to the sink is returned, in order.
-- The decoder is libaribcaption's, behind the interface `CaptionDecoder`: a parameter.
pub mod Arib
pub mod Metadata
pub mod Records
pub mod Setting
mod Tests
use aribcap_dump.TsUtils.{parse_pes_pts, PesPacket, pts_90k_to_ms, PtsReader}
use aribcap_dump.Clock.{pts_to_unix_ms, ProgramClock, Timing}
use aribcap_dump.Prelude.Int.{negsuc, ℤ}
use aribcap_dump.Classifier.{Profile}
use aribcap_dump.Output.{caption_decode_error, diagnostic, caption, OutputRecord, Text}
use aribcap_dump.Prelude.{
  zero, ◌-◌, ◌%◌, ◌^◌, is_none, ◌&&◌, ◌++◌, ◌*◌, ◌/◌, ◌+◌, some, suc, none, is_empty, ◌∷◌, ◌==◌,
  not, ◌∷◌, ltb, if◌then◌else◌, [], Option, List, Bool, ℕ,
}

pub data LanguageId : Type 0 where
  language_first language_second : LanguageId

pub record ColorRgba : Type 0 where
  pub r : ℕ
  pub g : ℕ
  pub b : ℕ
  pub a : ℕ

-- `u8str` holds the bytes before its terminating NUL.
pub record CaptionChar : Type 0 where
  pub u8str : Text
  pub text_color : ColorRgba

pub record CaptionRegion : Type 0 where
  pub is_ruby : Bool
  pub chars : List CaptionChar

pub record Caption : Type 0 where
  pub text : Text
  pub iso6392_language_code : ℕ
  pub regions : List CaptionRegion

-- `DecodeStatus`, with the caption of the result where there is one.
pub data Decoded : Type 0 where
  error no_caption : Decoded
  got_caption : Caption → Decoded

pub record Decoders : Type 1 where
  pub Decoder : Type 0
  pub create : Profile → LanguageId → Decoder
  pub decode : Decoder → List ℕ → ℤ → Decoder × Decoded
  pub query_iso6392_language_code : Decoder → LanguageId → ℕ

pub record CaptionMetadata : Type 0 where
  pub ruby : List Text
  pub color : Option Text

-- The two elements of `decoders_`: the constructor fills the first.
pub record CaptionRecordEmitter (Decoder : Type 0) : Type 0 where
  pub profile : Profile
  pub emit_empty_captions : Bool
  pub first : Decoder
  pub second : Option Decoder

abbrev pub hex_digit : ℕ → ℕ
hex_digit n = if ltb n 10 then 48 + n else 87 + n

-- `std::format("0x{:08x}", n)` of a 32-bit number.
abbrev pub hex_digits : ℕ → ℕ → Text
hex_digits zero n = []
hex_digits (suc k) n = hex_digit (n / 16 ^ k % 16) ∷ hex_digits k n

-- The bytes do not overlap, so `|` is a sum.
pub color_to_rgba_hex : ColorRgba → Text
color_to_rgba_hex c = 48 ∷ 120 ∷ hex_digits 8 (c.r * 2 ^ 24 + c.g * 2 ^ 16 + c.b * 2 ^ 8 + c.a)

pub has_utf8_text : CaptionChar → Bool
has_utf8_text ch = not (is_empty ch.u8str)

pub language_code_to_string : ℕ → Option Text
language_code_to_string code =
    if code == 0
    then none
    else some (code / 2 ^ 16 % 2 ^ 8 ∷ code / 2 ^ 8 % 2 ^ 8 ∷ code % 2 ^ 8 ∷ [])

pub ruby_text : List CaptionChar → Text
unfolding has_utf8_text
ruby_text [] = []
ruby_text (ch ∷ chs) = if not (has_utf8_text ch) then ruby_text chs else ch.u8str ++ ruby_text chs

abbrev push_ruby : CaptionMetadata → Text → CaptionMetadata
push_ruby metadata text =
    if is_empty text then metadata else record metadata { ruby = metadata.ruby ++ (text ∷ []) }

abbrev pub first_color : Option Text → List CaptionChar → Option Text
first_color (some color) chars = some color
first_color none [] = none
first_color none (ch ∷ chs) = some (color_to_rgba_hex ch.text_color)

pub extract_regions : CaptionMetadata → List CaptionRegion → CaptionMetadata
extract_regions metadata [] = metadata
extract_regions metadata (region ∷ regions) =
    let next =
      if region.is_ruby
      then push_ruby metadata (ruby_text region.chars)
      else record metadata { color = first_color metadata.color region.chars } in
    extract_regions next regions

pub extract_caption_metadata : Caption → CaptionMetadata
extract_caption_metadata c = extract_regions (record { ruby = []; color = none }) c.regions

abbrev pub caption_record : Option ℤ → Caption → OutputRecord
caption_record time c = caption (record {
  time_ms = time;
  text = c.text;
  ruby = (extract_caption_metadata c).ruby;
  color = (extract_caption_metadata c).color;
  language_code = language_code_to_string c.iso6392_language_code;
})

-- The end of the loop's body, from the test for a caption on.
pub emit_caption : Bool → Option ℤ → Decoded → List OutputRecord
emit_caption emit_empty_captions time (got_caption c) =
    if is_empty c.text && not emit_empty_captions then [] else caption_record time c ∷ []
emit_caption emit_empty_captions time _ = []

abbrev pub decode_error : ℕ → List OutputRecord
decode_error pid = diagnostic (caption_decode_error (pid % 2 ^ 16)) ∷ []

module _ (ds : Decoders) where
  unfoldable pub new_emitter : Profile → Bool → CaptionRecordEmitter ds.Decoder
  new_emitter profile emit_empty_captions = record {
    profile = profile;
    emit_empty_captions = emit_empty_captions;
    first = ds.create profile language_first;
    second = none;
  }

  pub ensure_second_language_decoder :
      CaptionRecordEmitter ds.Decoder → CaptionRecordEmitter ds.Decoder
  ensure_second_language_decoder e =
      if not (is_none e.second)
      then e
      else if not (ds.query_iso6392_language_code e.first language_second == 0)
      then record e { second = some (ds.create e.profile language_second) }
      else e

  -- The loop's body for the second decoder, from the status on.
  pub after_second :
      CaptionRecordEmitter ds.Decoder
      → Decoded
      → Option ℤ
      → ℕ
      → CaptionRecordEmitter ds.Decoder × List OutputRecord
  after_second e error time pid = (e, decode_error pid)
  after_second e no_caption time pid = (e, [])
  after_second e (got_caption c) time pid =
      (e, emit_caption e.emit_empty_captions time (got_caption c))

  pub decode_second :
      CaptionRecordEmitter ds.Decoder
      → Option ds.Decoder
      → Option ℤ
      → ℕ
      → List ℕ
      → ℤ
      → CaptionRecordEmitter ds.Decoder × List OutputRecord
  unfolding after_second
  decode_second e none time pid payload pts_ms = (e, [])
  decode_second e (some decoder) time pid payload pts_ms =
      let r = ds.decode decoder payload pts_ms in
      after_second (record e { second = some r.0 }) r.1 time pid

  -- The loop from the first decoder's status on.
  pub after_first :
      CaptionRecordEmitter ds.Decoder
      → Decoded
      → Option ℤ
      → ℕ
      → List ℕ
      → ℤ
      → CaptionRecordEmitter ds.Decoder × List OutputRecord
  after_first e error time pid payload pts_ms = (e, decode_error pid)
  after_first e status time pid payload pts_ms =
      let f = ensure_second_language_decoder e in
      let r = decode_second f f.second time pid payload pts_ms in
      (r.0, emit_caption e.emit_empty_captions time status ++ r.1)

  pub decode_all :
      CaptionRecordEmitter ds.Decoder
      → Option ℤ
      → ℕ
      → List ℕ
      → ℤ
      → CaptionRecordEmitter ds.Decoder × List OutputRecord
  decode_all e time pid payload pts_ms =
      let r = ds.decode e.first payload pts_ms in
      after_first (record e { first = r.0 }) r.1 time pid payload pts_ms

-- `std::numeric_limits<std::int64_t>::min()`
abbrev pub no_pts_ms : ℤ
no_pts_ms = negsuc (2 ^ 63 - 1)

module _ (ds : Decoders) (t : Timing) (reader : PtsReader) where
  abbrev pub time_of : ProgramClock → Option ℕ → Option ℤ
  time_of clock none = none
  time_of clock (some pts) = pts_to_unix_ms t clock pts

  abbrev pub pts_ms_of : Option ℕ → ℤ
  pts_ms_of none = no_pts_ms
  pts_ms_of (some pts) = pts_90k_to_ms reader pts

  pub handle_pes :
      CaptionRecordEmitter ds.Decoder
      → ProgramClock
      → PesPacket
      → CaptionRecordEmitter ds.Decoder × List OutputRecord
  handle_pes e clock packet =
      let pts = parse_pes_pts reader packet in
      decode_all ds e (time_of clock pts) packet.source_pid packet.payload (pts_ms_of pts)

-- ===== src/Captions/Tests.antt =====
-- Runs of a caption stream's emitter, with a decoder that finds the payload's bytes as a caption.
use aribcap_dump.Captions.Metadata.{extract_caption_metadata_lem}
use aribcap_dump.Prelude.Int.{pos}
use aribcap_dump.Classifier.{profile_a}
use aribcap_dump.Captions.Records.{decode_all-AllFrom, decode_all-second, AllFrom}
use aribcap_dump.Captions.{
  extract_caption_metadata, Caption, emit_caption, after_second, got_caption, decode_second, error,
  ensure_second_language_decoder, Decoded, after_first, language_code_to_string, color_to_rgba_hex,
  decode_all, CaptionRecordEmitter, Decoders, ColorRgba,
}
use aribcap_dump.Prelude.{
  length, true, arith, none, ◌≢◌, false, ◌+◌, [], some, ◌≡◌, ℕ, ◌∷◌, List, refl,
}

abbrev white : ColorRgba
white = record { r = 255; g = 255; b = 255; a = 128 }

abbrev decoded : List ℕ → Decoded
decoded [] = error
decoded (b ∷ bs) = got_caption (record {
  text = bs;
  iso6392_language_code = 6975598;
  regions =
      record { is_ruby = true; chars = record { u8str = b ∷ []; text_color = white } ∷ [] }
      ∷ record { is_ruby = false; chars = record { u8str = bs; text_color = white } ∷ [] }
      ∷ [];
})

-- The decoder counts what it has decoded.
abbrev decoders : Decoders
decoders = record {
  Decoder = ℕ;
  create = λ profile language. 0;
  decode = λ n payload pts_ms. (n + 1, decoded payload);
  query_iso6392_language_code = λ n language. n;
}

abbrev emitter : CaptionRecordEmitter ℕ
emitter = record { profile = profile_a; emit_empty_captions = false; first = 0; second = none }

-- Both languages are printed of the first packet.
test_count : length (decode_all decoders emitter (some (pos 5)) 256 (7 ∷ 8 ∷ []) (pos 0)).1 ≡ 2
unfolding decode_all after_first ensure_second_language_decoder decode_second after_second
    emit_caption
test_count = refl

test_color : color_to_rgba_hex white ≡ 48 ∷ 120 ∷ 102 ∷ 102 ∷ 102 ∷ 102 ∷ 102 ∷ 102 ∷ 56 ∷ 48 ∷ []
unfolding color_to_rgba_hex
test_color = refl

test_language : language_code_to_string 6975598 ≡ some (106 ∷ 112 ∷ 110 ∷ [])
unfolding language_code_to_string
test_language = refl

decode_all-AllFrom_example :
    AllFrom 256
      (some (pos 5))
      false
      (decode_all decoders emitter (some (pos 5)) 256 (7 ∷ 8 ∷ []) (pos 0)).1
decode_all-AllFrom_example =
    decode_all-AllFrom decoders emitter (some (pos 5)) 256 (7 ∷ 8 ∷ []) (pos 0)

got_one : (decoders.decode 0 (7 ∷ 8 ∷ []) (pos 0)).1 ≢ error
got_one h = ground (arith, h)

decode_all-second_example :
    (decode_all decoders emitter (some (pos 5)) 256 (7 ∷ 8 ∷ []) (pos 0)).0.second ≡ some 1
decode_all-second_example =
    decode_all-second decoders emitter (some (pos 5)) 256 (7 ∷ 8 ∷ []) (pos 0) refl got_one
      (λ h. ground (arith, h))

abbrev shown : Caption
shown = record {
  text = 65 ∷ [];
  iso6392_language_code = 6975598;
  regions =
      record { is_ruby = true; chars = record { u8str = []; text_color = white } ∷ [] }
      ∷ record { is_ruby = true; chars = record { u8str = 97 ∷ []; text_color = white } ∷ [] }
      ∷ record { is_ruby = false; chars = record { u8str = 65 ∷ []; text_color = white } ∷ [] }
      ∷ [];
}

extract_caption_metadata_example :
    extract_caption_metadata shown
    ≡ record { ruby = (97 ∷ []) ∷ []; color = some (color_to_rgba_hex white) }
extract_caption_metadata_example = extract_caption_metadata_lem shown

-- ===== src/Captions/Arib.antt =====
-- core/caption_record_emitter.cc: `AribCaptionDecoder`, the decoder in production, over libaribcaption.
use aribcap_dump.Prelude.Int.{ℤ}
use aribcap_dump.Captions.{Decoded, LanguageId, Decoders}
use aribcap_dump.Classifier.{Profile}
use aribcap_dump.Prelude.{ℕ, List}

-- libaribcaption: a decoder over a context of its own, and its functions. What `Initialize` returns is
-- not looked at.
pub record AribCaption : Type 1 where
  pub Decoder : Type 0
  pub EncodingScheme : Type 0
  pub CaptionType : Type 0
  pub arib_std_b24_jis : EncodingScheme
  pub type_caption : CaptionType
  pub new_decoder : Decoder
  pub initialize : Decoder → EncodingScheme → CaptionType → Profile → LanguageId → Decoder
  pub decode : Decoder → List ℕ → ℤ → Decoder × Decoded
  pub query_iso6392_language_code : Decoder → LanguageId → ℕ

module _ (lib : AribCaption) where
  pub new_arib_caption_decoder : Profile → LanguageId → lib.Decoder
  new_arib_caption_decoder profile language_id =
      lib.initialize lib.new_decoder lib.arib_std_b24_jis lib.type_caption profile language_id

  pub make_arib_caption_decoder_factory : Decoders
  unfolding new_arib_caption_decoder
  make_arib_caption_decoder_factory = record {
    Decoder = lib.Decoder;
    create = new_arib_caption_decoder;
    decode = lib.decode;
    query_iso6392_language_code = lib.query_iso6392_language_code;
  }

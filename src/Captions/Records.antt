-- ===== src/Captions/Records.antt =====
-- What a caption stream's emitter prints for a PES packet, and when it decodes the second language.
use aribcap_dump.Prelude.Int.{ℤ}
use aribcap_dump.Captions.{
  no_caption, language_second, error, got_caption, Decoded, decode_all, after_first,
  CaptionRecordEmitter, ensure_second_language_decoder, decode_second, after_second, Decoders,
  emit_caption, caption_record,
}
use aribcap_dump.Output.{caption_decode_error, OutputRecord, caption, eit, diagnostic}
use aribcap_dump.Prelude.{
  ==_ne, ◌∙◌, is_none, ap, ap₂, ◌^◌, inl, ◌%◌, inr, not, true, [], ◌&&◌, ◌⊎◌, ◌≢◌, subst,
  if◌then◌else◌, ◌∷◌, false, some, none, ◌++◌, is_empty, arith, List, Bool, ◌≡◌, Option, ℕ, refl,
}

abbrev pub IsFrom : ℕ → Option ℤ → Bool → OutputRecord → Type 0
IsFrom pid time empty (caption c) =
    (c.time_ms ≡ time) × ((is_empty c.text ≡ false) ⊎ (empty ≡ true))
IsFrom pid time empty (eit r) = ⊥
IsFrom pid time empty (diagnostic r) = r ≡ caption_decode_error (pid % 2 ^ 16)

abbrev pub AllFrom : ℕ → Option ℤ → Bool → List OutputRecord → Type 0
AllFrom pid time empty [] = Unit {0}
AllFrom pid time empty (r ∷ rs) = IsFrom pid time empty r × AllFrom pid time empty rs

append-AllFrom :
    (pid : ℕ) (time : Option ℤ) (empty : Bool) (rs qs : List OutputRecord)
    → AllFrom pid time empty rs
    → AllFrom pid time empty qs
    → AllFrom pid time empty (rs ++ qs)
append-AllFrom pid time empty [] qs a b = b
append-AllFrom pid time empty (r ∷ rs) qs a b = (a.0, append-AllFrom pid time empty rs qs a.1 b)

emit_caption-AllFrom :
    (pid : ℕ) (time : Option ℤ) (empty : Bool) (status : Decoded)
    → AllFrom pid time empty (emit_caption empty time status)
unfolding emit_caption
emit_caption-AllFrom pid time empty error = tt
emit_caption-AllFrom pid time empty no_caption = tt
emit_caption-AllFrom pid time empty (got_caption c) = of_tests (is_empty c.text) empty refl refl
  where
    of_tests :
        (b f : Bool)
        → is_empty c.text ≡ b
        → empty ≡ f
        → AllFrom pid time empty (if b && not f then [] else caption_record time c ∷ [])
    of_tests true false h k = tt
    of_tests true true h k = ((refl, inr k), tt)
    of_tests false f h k = ((refl, inl h), tt)

module _ (ds : Decoders) where
  after_second-AllFrom :
      (e : CaptionRecordEmitter ds.Decoder) (status : Decoded) (time : Option ℤ) (pid : ℕ)
      → AllFrom pid time e.emit_empty_captions (after_second ds e status time pid).1
  unfolding after_second
  after_second-AllFrom e error time pid = (refl, tt)
  after_second-AllFrom e no_caption time pid = tt
  after_second-AllFrom e (got_caption c) time pid =
      emit_caption-AllFrom pid time e.emit_empty_captions (got_caption c)

  decode_second-AllFrom :
      (e : CaptionRecordEmitter ds.Decoder) (o : Option ds.Decoder) (time : Option ℤ) (pid : ℕ)
      (payload : List ℕ) (pts_ms : ℤ)
      → AllFrom pid time e.emit_empty_captions (decode_second ds e o time pid payload pts_ms).1
  unfolding decode_second
  decode_second-AllFrom e none time pid payload pts_ms = tt
  decode_second-AllFrom e (some decoder) time pid payload pts_ms =
      let r = ds.decode decoder payload pts_ms in
      after_second-AllFrom (record e { second = some r.0 }) r.1 time pid

  pub ensure-emit_empty_captions :
      (e : CaptionRecordEmitter ds.Decoder)
      → (ensure_second_language_decoder ds e).emit_empty_captions ≡ e.emit_empty_captions
  unfolding ensure_second_language_decoder
  ensure-emit_empty_captions e = ground arith

  fed-AllFrom :
      (e : CaptionRecordEmitter ds.Decoder) (status : Decoded) (time : Option ℤ) (pid : ℕ)
      (payload : List ℕ) (pts_ms : ℤ)
      → let f = ensure_second_language_decoder ds e in
        AllFrom pid time e.emit_empty_captions (
          emit_caption e.emit_empty_captions time status
          ++ (decode_second ds f f.second time pid payload pts_ms).1)
  fed-AllFrom e status time pid payload pts_ms =
      let f = ensure_second_language_decoder ds e in
      let r = decode_second ds f f.second time pid payload pts_ms in
      append-AllFrom pid time e.emit_empty_captions (emit_caption e.emit_empty_captions time status)
        r.1 (emit_caption-AllFrom pid time e.emit_empty_captions status)
        (subst (λ b. AllFrom pid time b r.1) (ensure-emit_empty_captions e)
          (decode_second-AllFrom f f.second time pid payload pts_ms))

  after_first-AllFrom :
      (e : CaptionRecordEmitter ds.Decoder) (status : Decoded) (time : Option ℤ) (pid : ℕ)
      (payload : List ℕ) (pts_ms : ℤ)
      → AllFrom pid time e.emit_empty_captions (after_first ds e status time pid payload pts_ms).1
  unfolding after_first
  after_first-AllFrom e error time pid payload pts_ms = (refl, tt)
  after_first-AllFrom e no_caption time pid payload pts_ms =
      fed-AllFrom e no_caption time pid payload pts_ms
  after_first-AllFrom e (got_caption c) time pid payload pts_ms =
      fed-AllFrom e (got_caption c) time pid payload pts_ms

  -- The records of a packet are captions with the packet's time, whose text is empty only if empty
  -- captions are wanted, and reports of decoding errors on the packet's PID.
  pub decode_all-AllFrom :
      (e : CaptionRecordEmitter ds.Decoder) (time : Option ℤ) (pid : ℕ) (payload : List ℕ)
      (pts_ms : ℤ)
      → AllFrom pid time e.emit_empty_captions (decode_all ds e time pid payload pts_ms).1
  unfolding decode_all
  decode_all-AllFrom e time pid payload pts_ms =
      let r = ds.decode e.first payload pts_ms in
      after_first-AllFrom (record e { first = r.0 }) r.1 time pid payload pts_ms

  ensure-fresh :
      (e : CaptionRecordEmitter ds.Decoder)
      → e.second ≡ none
      → ds.query_iso6392_language_code e.first language_second ≢ 0
      → ensure_second_language_decoder ds e
        ≡ record e { second = some (ds.create e.profile language_second) }
  unfolding ensure_second_language_decoder
  ensure-fresh e fresh second =
      let f : CaptionRecordEmitter ds.Decoder = record e {
        second = some (ds.create e.profile language_second);
      } in
      ap₂ (λ s b. if not (is_none s) then e else if not b then f else e) fresh
        (==_ne (ds.query_iso6392_language_code e.first language_second) 0 second)

  pub after_second-state :
      (e : CaptionRecordEmitter ds.Decoder) (status : Decoded) (time : Option ℤ) (pid : ℕ)
      → (after_second ds e status time pid).0 ≡ e
  unfolding after_second
  after_second-state e error time pid = refl
  after_second-state e no_caption time pid = refl
  after_second-state e (got_caption c) time pid = refl

  fed-second :
      (e : CaptionRecordEmitter ds.Decoder) (time : Option ℤ) (pid : ℕ) (payload : List ℕ)
      (pts_ms : ℤ)
      → e.second ≡ none
      → ds.query_iso6392_language_code e.first language_second ≢ 0
      → let f = ensure_second_language_decoder ds e in
        (decode_second ds f f.second time pid payload pts_ms).0.second
        ≡ some (ds.decode (ds.create e.profile language_second) payload pts_ms).0
  unfolding decode_second
  fed-second e time pid payload pts_ms fresh second =
      let r = ds.decode (ds.create e.profile language_second) payload pts_ms in
      ap (λ g. (decode_second ds g g.second time pid payload pts_ms).0.second)
        (ensure-fresh e fresh second)
      ∙ ap (λ g. g.second) (after_second-state (record e { second = some r.0 }) r.1 time pid)

  after_first-second :
      (e : CaptionRecordEmitter ds.Decoder) (status : Decoded) (time : Option ℤ) (pid : ℕ)
      (payload : List ℕ) (pts_ms : ℤ)
      → e.second ≡ none
      → status ≢ error
      → ds.query_iso6392_language_code e.first language_second ≢ 0
      → (after_first ds e status time pid payload pts_ms).0.second
        ≡ some (ds.decode (ds.create e.profile language_second) payload pts_ms).0
  unfolding after_first
  after_first-second e error time pid payload pts_ms fresh fine second = absurd (fine refl)
  after_first-second e no_caption time pid payload pts_ms fresh fine second =
      fed-second e time pid payload pts_ms fresh second
  after_first-second e (got_caption c) time pid payload pts_ms fresh fine second =
      fed-second e time pid payload pts_ms fresh second

  -- Where there is no second decoder yet, the packet whose decoding by the first one gives no error and
  -- shows a second language is itself decoded for that language, by a decoder made for it.
  pub decode_all-second :
      (e : CaptionRecordEmitter ds.Decoder) (time : Option ℤ) (pid : ℕ) (payload : List ℕ)
      (pts_ms : ℤ)
      → e.second ≡ none
      → (ds.decode e.first payload pts_ms).1 ≢ error
      → ds.query_iso6392_language_code (ds.decode e.first payload pts_ms).0 language_second ≢ 0
      → (decode_all ds e time pid payload pts_ms).0.second
        ≡ some (ds.decode (ds.create e.profile language_second) payload pts_ms).0
  unfolding decode_all
  decode_all-second e time pid payload pts_ms fresh fine second =
      let r = ds.decode e.first payload pts_ms in
      after_first-second (record e { first = r.0 }) r.1 time pid payload pts_ms fresh fine second

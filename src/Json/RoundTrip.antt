-- ===== src/Json/RoundTrip.antt =====
-- A record and the JSON value that is printed of it.
use aribcap_dump.TsUtils.Rfc3339.Days.{HasFourDigitYear}
use aribcap_dump.TsUtils.Rfc3339.RoundTrip.{read_rfc3339-unix_ms_to_rfc3339_jst}
use aribcap_dump.Json.Reading.{
  read_type, read_section, text_at, time_of_text, read_record, read_diagnostic, read_eit,
  read_caption, read_all, read_genre, read_short_event,
}
use aribcap_dump.Prelude.Int.{ℤ}
use aribcap_dump.Json.{
  of_optional_time, genre_to_json, short_event_to_json, eit_to_json, caption_to_json,
  of_optional_number, of_optional, to_json, diagnostic_to_json, genres_to_json,
  short_events_to_json, section_to_string, ruby_to_json, push_genres, push_short_events, push_texts,
  JsonLibrary,
}
use aribcap_dump.Output.{
  following, present, pcr_discontinuity, reserved_pmt_pid_collision, caption_decode_error,
  EitRecord, CaptionRecord, DiagnosticRecord, EitSection, EitGenre, EitShortEvent, Text,
  OutputRecord, caption, eit, diagnostic,
}
use aribcap_dump.Prelude.{
  [], append_assoc, and_then, append-nil, ◌∙◌, ap, ◌∷◌, sym, none, codes, map, ◌++◌, some, ◌≡◌,
  List, ℕ, Option, refl,
}

-- A time whose year has at most four digits, where there is one.
abbrev pub IsReadableTime : Option ℤ → Type 0
IsReadableTime none = Unit {0}
IsReadableTime (some ms) = HasFourDigitYear ms

abbrev pub IsReadable : OutputRecord → Type 0
IsReadable (caption c) = IsReadableTime c.time_ms
IsReadable (eit r) = IsReadableTime r.start_time_ms
IsReadable (diagnostic d) = Unit {0}

module _ (j : JsonLibrary) where
  read_short_event-object :
      (e : EitShortEvent) → read_short_event j (j.object (short_event_to_json j e)) ≡ some e
  unfolding read_short_event
  read_short_event-object e = simp (j.as_object-object, j.at-assign, j.as_text-text)

  read_genre-object : (g : EitGenre) → read_genre j (j.object (genre_to_json j g)) ≡ some g
  unfolding read_genre
  read_genre-object g = simp (j.as_object-object, j.at-assign, j.as_number-number)

  elements-push_texts :
      (a : j.Array) (ts : List Text)
      → j.elements (push_texts j a ts) ≡ j.elements a ++ map j.text ts
  unfolding push_texts
  elements-push_texts a [] = sym (append-nil (j.elements a))
  elements-push_texts a (t ∷ ts) =
      elements-push_texts (j.push_back a (j.text t)) ts
      ∙ ap (λ vs. vs ++ map j.text ts) (j.elements-push_back a (j.text t))
      ∙ append_assoc (j.elements a) (j.text t ∷ []) (map j.text ts)

  elements-push_short_events :
      (a : j.Array) (es : List EitShortEvent)
      → j.elements (push_short_events j a es)
        ≡ j.elements a ++ map (λ e. j.object (short_event_to_json j e)) es
  unfolding push_short_events
  elements-push_short_events a [] = sym (append-nil (j.elements a))
  elements-push_short_events a (e ∷ es) =
      let p : (EitShortEvent → j.Json) = λ a. j.object (short_event_to_json j a) in
      elements-push_short_events (j.push_back a (p e)) es
      ∙ ap (λ vs. vs ++ map p es) (j.elements-push_back a (p e))
      ∙ append_assoc (j.elements a) (p e ∷ []) (map p es)

  elements-push_genres :
      (a : j.Array) (gs : List EitGenre)
      → j.elements (push_genres j a gs) ≡ j.elements a ++ map (λ g. j.object (genre_to_json j g)) gs
  unfolding push_genres
  elements-push_genres a [] = sym (append-nil (j.elements a))
  elements-push_genres a (g ∷ gs) =
      let p : (EitGenre → j.Json) = λ a. j.object (genre_to_json j a) in
      elements-push_genres (j.push_back a (p g)) gs
      ∙ ap (λ vs. vs ++ map p gs) (j.elements-push_back a (p g))
      ∙ append_assoc (j.elements a) (p g ∷ []) (map p gs)

  read_all-map :
      {A : Type 0} (read : j.Json → Option A) (print : A → j.Json)
      → ((a : A) → read (print a) ≡ some a)
      → (xs : List A) → read_all j read (map print xs) ≡ some xs
  unfolding read_all
  read_all-map read print back [] = refl
  read_all-map read print back (x ∷ xs) = simp (back, read_all-map read print back xs)

  read_texts-ruby :
      (ts : List Text) → read_all j j.as_text (j.elements (ruby_to_json j ts)) ≡ some ts
  unfolding ruby_to_json
  read_texts-ruby ts =
      simp
        (elements-push_texts, j.elements-empty_array, read_all-map j.as_text j.text j.as_text-text)

  as_text-optional : (o : Option Text) → j.as_text (of_optional j o) ≡ o
  as_text-optional none = j.as_text-null
  as_text-optional (some t) = j.as_text-text t

  as_number-optional : (o : Option ℕ) → j.as_number (of_optional_number j o) ≡ o
  as_number-optional none = j.as_number-null
  as_number-optional (some n) = j.as_number-number n

  time_of_text-optional :
      (o : Option ℤ) → IsReadableTime o → time_of_text (j.as_text (of_optional_time j o)) ≡ some o
  time_of_text-optional none h = ap time_of_text j.as_text-null
  time_of_text-optional (some ms) h =
      ap time_of_text (j.as_text-text _)
      ∙ ap (λ o. and_then o (λ m. some (some m))) (read_rfc3339-unix_ms_to_rfc3339_jst ms h)

  read_section-section : (s : EitSection) → read_section (section_to_string s) ≡ s
  unfolding section_to_string
  read_section-section present = refl
  read_section-section following = refl

  read_caption-to_json :
      (c : CaptionRecord)
      → IsReadableTime c.time_ms
      → read_caption j (caption_to_json j c) ≡ some (caption c)
  unfolding read_caption caption_to_json
  read_caption-to_json c h = simp (
    j.at-assign,
    j.as_text-text,
    j.as_array-array,
    read_texts-ruby,
    as_text-optional,
    time_of_text-optional c.time_ms h,
  )

  read_short_events_lem :
      (es : List EitShortEvent)
      → read_all j (read_short_event j) (j.elements (short_events_to_json j es)) ≡ some es
  unfolding short_events_to_json
  read_short_events_lem es = simp (
    elements-push_short_events,
    j.elements-empty_array,
    read_all-map (read_short_event j) (λ (e : EitShortEvent). j.object (short_event_to_json j e))
        read_short_event-object,
  )

  read_genres_lem :
      (gs : List EitGenre) → read_all j (read_genre j) (j.elements (genres_to_json j gs)) ≡ some gs
  unfolding genres_to_json
  read_genres_lem gs = simp (
    elements-push_genres,
    j.elements-empty_array,
    read_all-map (read_genre j) (λ (g : EitGenre). j.object (genre_to_json j g)) read_genre-object,
  )

  read_eit-to_json :
      (r : EitRecord) → IsReadableTime r.start_time_ms → read_eit j (eit_to_json j r) ≡ some (eit r)
  unfolding read_eit eit_to_json
  read_eit-to_json r h = simp (
    j.at-assign,
    j.as_text-text,
    j.as_number-number,
    j.as_array-array,
    read_short_events_lem,
    read_genres_lem,
    as_number-optional,
    read_section-section,
    time_of_text-optional r.start_time_ms h,
  )

  read_diagnostic-to_json :
      (d : DiagnosticRecord) → read_diagnostic j (diagnostic_to_json j d) ≡ some (diagnostic d)
  unfolding read_diagnostic diagnostic_to_json
  read_diagnostic-to_json (caption_decode_error pid) =
      simp (j.at-assign, j.as_text-text, j.as_number-number)
  read_diagnostic-to_json (reserved_pmt_pid_collision pid) =
      simp (j.at-assign, j.as_text-text, j.as_number-number)
  read_diagnostic-to_json (pcr_discontinuity d) =
      simp (j.at-assign, j.as_text-text, j.as_number-number, j.as_boolean-boolean)

  type_of :
      (o : j.Object) (t : Text)
      → text_at j o (codes "type") ≡ some t
      → read_record j (j.object o) ≡ read_type j o t
  unfolding read_record
  type_of o t h =
      ap (λ p. and_then p (λ o. and_then (text_at j o (codes "type")) (λ t. read_type j o t)))
        (j.as_object-object o)
      ∙ ap (λ p. and_then p (λ t. read_type j o t)) h

  type_of_diagnostic :
      (d : DiagnosticRecord)
      → text_at j (diagnostic_to_json j d) (codes "type") ≡ some (codes "diagnostic")
  unfolding diagnostic_to_json
  type_of_diagnostic (caption_decode_error pid) = simp (j.at-assign, j.as_text-text)
  type_of_diagnostic (reserved_pmt_pid_collision pid) = simp (j.at-assign, j.as_text-text)
  type_of_diagnostic (pcr_discontinuity d) = simp (j.at-assign, j.as_text-text)

  -- The JSON value of a record, whose time if it has one is in a year of at most four digits, is read
  -- back as that record: its type, the absence of an optional field, the order of a list and every
  -- value are in it.
  pub read_record-to_json : (r : OutputRecord) → IsReadable r → read_record j (to_json j r) ≡ some r
  unfolding to_json
  read_record-to_json (caption c) h =
      type_of (caption_to_json j c) (codes "caption")
        (unfold caption_to_json in simp (j.at-assign, j.as_text-text))
      ∙ read_caption-to_json c h
  read_record-to_json (eit r) h =
      type_of (eit_to_json j r) (codes "eit")
        (unfold eit_to_json in simp (j.at-assign, j.as_text-text))
      ∙ read_eit-to_json r h
  read_record-to_json (diagnostic d) h =
      type_of (diagnostic_to_json j d) (codes "diagnostic") (type_of_diagnostic d)
      ∙ read_diagnostic-to_json d

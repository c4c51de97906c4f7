-- ===== src/Json/Reading.antt =====
-- A reader of the program's output: from a JSON value back to a record, by the keys of its objects.
use aribcap_dump.TsUtils.Rfc3339.Reading.{read_rfc3339}
use aribcap_dump.Prelude.Int.{ℤ}
use aribcap_dump.Json.{JsonLibrary}
use aribcap_dump.Output.{
  pcr_discontinuity, reserved_pmt_pid_collision, following, caption_decode_error, present,
  EitSection, EitGenre, OutputRecord, EitShortEvent, Text, caption, eit, diagnostic,
}
use aribcap_dump.Prelude.{
  [], none, same_text, codes, ◌∷◌, if◌then◌else◌, Bool, ℕ, and_then, some, List, Option,
}

-- A time may be left out, but a text is to be one.
abbrev pub time_of_text : Option Text → Option (Option ℤ)
time_of_text none = some none
time_of_text (some t) = and_then (read_rfc3339 t) (λ ms. some (some ms))

abbrev pub read_section : Text → EitSection
read_section t = if same_text t (codes "present") then present else following

module _ (j : JsonLibrary) where
  unfoldable pub read_all : {A : Type 0} → (j.Json → Option A) → List j.Json → Option (List A)
  read_all read [] = some []
  read_all read (v ∷ vs) =
      and_then (read v) (λ a. and_then (read_all read vs) (λ as'. some (a ∷ as')))

  abbrev pub text_at : j.Object → Text → Option Text
  text_at o k = and_then (j.at o k) j.as_text

  abbrev pub number_at : j.Object → Text → Option ℕ
  number_at o k = and_then (j.at o k) j.as_number

  abbrev pub boolean_at : j.Object → Text → Option Bool
  boolean_at o k = and_then (j.at o k) j.as_boolean

  abbrev pub optional_text_at : j.Object → Text → Option (Option Text)
  optional_text_at o k = and_then (j.at o k) (λ v. some (j.as_text v))

  abbrev pub optional_number_at : j.Object → Text → Option (Option ℕ)
  optional_number_at o k = and_then (j.at o k) (λ v. some (j.as_number v))

  abbrev pub optional_time_at : j.Object → Text → Option (Option ℤ)
  optional_time_at o k = and_then (j.at o k) (λ v. time_of_text (j.as_text v))

  abbrev pub array_at : {A : Type 0} → (j.Json → Option A) → j.Object → Text → Option (List A)
  array_at read o k = and_then (and_then (j.at o k) j.as_array) (λ a. read_all read (j.elements a))

  unfoldable pub read_short_event : j.Json → Option EitShortEvent
  read_short_event v = and_then (j.as_object v) λ o.
      and_then (text_at o (codes "eventName")) λ name. and_then (text_at o (codes "text")) λ text.
        and_then (text_at o (codes "languageCode"))
          λ language. some (record { event_name = name; text = text; language_code = language })

  unfoldable pub read_caption : j.Object → Option OutputRecord
  read_caption o = and_then (optional_time_at o (codes "time")) λ time.
      and_then (text_at o (codes "text")) λ text.
        and_then (array_at j.as_text o (codes "ruby")) λ ruby.
          and_then (optional_text_at o (codes "color")) λ color.
            and_then (optional_text_at o (codes "languageCode")) λ language. some (
              caption (record {
                time_ms = time;
                text = text;
                ruby = ruby;
                color = color;
                language_code = language;
              }))

  unfoldable pub read_genre : j.Json → Option EitGenre
  read_genre v = and_then (j.as_object v) λ o.
      and_then (number_at o (codes "contentNibbleLevel1")) λ a.
        and_then (number_at o (codes "contentNibbleLevel2")) λ b.
          and_then (number_at o (codes "userNibble1")) λ c.
            and_then (number_at o (codes "userNibble2")) λ d. some (record {
              content_nibble_level_1 = a;
              content_nibble_level_2 = b;
              user_nibble_1 = c;
              user_nibble_2 = d;
            })

  unfoldable pub read_eit : j.Object → Option OutputRecord
  read_eit o = and_then (optional_time_at o (codes "startTime")) λ time.
      and_then (optional_number_at o (codes "durationSec")) λ duration.
        and_then (array_at read_short_event o (codes "shortEvents")) λ short_events.
          and_then (text_at o (codes "extendedText")) λ extended.
            and_then (array_at read_genre o (codes "genres")) λ genres.
              and_then (text_at o (codes "section")) λ section.
                and_then (number_at o (codes "version")) λ version.
                  and_then (number_at o (codes "serviceId")) λ service.
                    and_then (number_at o (codes "transportStreamId")) λ ts.
                      and_then (number_at o (codes "originalNetworkId")) λ network.
                        and_then (number_at o (codes "eventId")) λ event. some (
                          eit (record {
                            start_time_ms = time;
                            duration_sec = duration;
                            short_events = short_events;
                            extended_text = extended;
                            genres = genres;
                            section = read_section section;
                            version = version;
                            service_id = service;
                            transport_stream_id = ts;
                            original_network_id = network;
                            event_id = event;
                          }))

  unfoldable pub read_kind : j.Object → Text → ℕ → Option OutputRecord
  read_kind o kind pid =
      if same_text kind (codes "captionDecodeError")
      then some (diagnostic (caption_decode_error pid))
      else if same_text kind (codes "reservedPmtPidCollision")
      then some (diagnostic (reserved_pmt_pid_collision pid))
      else and_then (boolean_at o (codes "flagged"))
          λ flagged. some (diagnostic (pcr_discontinuity (record { pid = pid; flagged = flagged })))

  unfoldable pub read_diagnostic : j.Object → Option OutputRecord
  unfolding read_kind
  read_diagnostic o =
      and_then (text_at o (codes "kind"))
        λ kind. and_then (number_at o (codes "pid")) λ pid. read_kind o kind pid

  abbrev pub read_type : j.Object → Text → Option OutputRecord
  read_type o type =
      if same_text type (codes "caption")
      then read_caption o
      else if same_text type (codes "eit")
      then read_eit o
      else read_diagnostic o

  -- A reader of the program's output, by the keys of its JSON objects.
  unfoldable pub read_record : j.Json → Option OutputRecord
  unfolding read_caption read_eit read_diagnostic
  read_record v =
      and_then (j.as_object v) λ o. and_then (text_at o (codes "type")) λ type. read_type o type

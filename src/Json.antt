-- ===== src/Json.antt =====
-- core/output_record.cc: `ToJsonLine`. The JSON library, jsoncons, is a parameter.
pub mod Reading
pub mod RoundTrip
pub mod Sample
mod Tests
use aribcap_dump.TsUtils.Rfc3339.{unix_ms_to_rfc3339_jst}
use aribcap_dump.Prelude.Int.{ℤ}
use aribcap_dump.Output.{
  following, diagnostic, pcr_discontinuity, present, eit, reserved_pmt_pid_collision, caption,
  caption_decode_error, OutputRecord, EitRecord, CaptionRecord, EitGenre, EitShortEvent,
  DiagnosticRecord, EitSection, Text,
}
use aribcap_dump.Prelude.{
  false, contains_byte, ◌++◌, [], same_text, if◌then◌else◌, none, ◌≡◌, Bool, some, ◌∷◌, codes, ℕ,
  List, Option, refl,
}

-- `jsoncons::ojson`: values, objects and arrays while they are built (`out[key] = value` and
-- `push_back`), and `to_string`; then the accessors, and what the library says of both. Without
-- options `to_string` gives one line: control characters within a text are escaped.
pub record JsonLibrary : Type 1 where
  pub Json : Type 0
  pub Object : Type 0
  pub Array : Type 0
  pub null : Json
  pub text : Text → Json
  pub number : ℕ → Json
  pub boolean : Bool → Json
  pub object : Object → Json
  pub array : Array → Json
  pub empty_object : Object
  pub assign : Object → Text → Json → Object
  pub empty_array : Array
  pub push_back : Array → Json → Array
  pub to_string : Json → Text
  pub as_text : Json → Option Text
  pub as_number : Json → Option ℕ
  pub as_boolean : Json → Option Bool
  pub as_object : Json → Option Object
  pub as_array : Json → Option Array
  pub at : Object → Text → Option Json
  pub elements : Array → List Json
  pub as_text-text : (t : Text) → as_text (text t) ≡ some t
  pub as_text-null : as_text null ≡ none
  pub as_number-number : (n : ℕ) → as_number (number n) ≡ some n
  pub as_number-null : as_number null ≡ none
  pub as_boolean-boolean : (b : Bool) → as_boolean (boolean b) ≡ some b
  pub as_object-object : (o : Object) → as_object (object o) ≡ some o
  pub as_array-array : (a : Array) → as_array (array a) ≡ some a
  pub at-assign :
      (o : Object) (key : Text) (v : Json) (k : Text)
      → at (assign o key v) k ≡ (if same_text key k then some v else at o k)
  pub elements-empty_array : elements empty_array ≡ []
  pub elements-push_back :
      (a : Array) (v : Json) → elements (push_back a v) ≡ elements a ++ (v ∷ [])
  pub to_string_one_line : (v : Json) → contains_byte b'\n' (to_string v) ≡ false

unfoldable pub section_to_string : EitSection → Text
section_to_string present = codes "present"
section_to_string following = codes "following"

module _ (j : JsonLibrary) where
  abbrev pub of_optional : Option Text → j.Json
  of_optional none = j.null
  of_optional (some t) = j.text t

  abbrev pub of_optional_number : Option ℕ → j.Json
  of_optional_number none = j.null
  of_optional_number (some n) = j.number n

  abbrev pub of_optional_time : Option ℤ → j.Json
  of_optional_time none = j.null
  of_optional_time (some ms) = j.text (unix_ms_to_rfc3339_jst ms)

  abbrev pub add_optional : j.Object → Text → Option Text → j.Object
  add_optional o key value = j.assign o key (of_optional value)

  abbrev pub add_optional_number : j.Object → Text → Option ℕ → j.Object
  add_optional_number o key value = j.assign o key (of_optional_number value)

  abbrev pub add_optional_rfc3339 : j.Object → Text → Option ℤ → j.Object
  add_optional_rfc3339 o key unix_ms = j.assign o key (of_optional_time unix_ms)

  abbrev pub with_pid : j.Object → Text → ℕ → j.Object
  with_pid o kind pid =
      j.assign (j.assign o (codes "kind") (j.text kind)) (codes "pid") (j.number pid)

  abbrev diagnostic_object : j.Object → DiagnosticRecord → j.Object
  diagnostic_object o (caption_decode_error pid) = with_pid o (codes "captionDecodeError") pid
  diagnostic_object o (reserved_pmt_pid_collision pid) =
      with_pid o (codes "reservedPmtPidCollision") pid
  diagnostic_object o (pcr_discontinuity d) =
      j.assign (with_pid o (codes "pcrDiscontinuity") d.pid) (codes "flagged") (j.boolean d.flagged)

  unfoldable pub diagnostic_to_json : DiagnosticRecord → j.Object
  diagnostic_to_json d =
      diagnostic_object (j.assign j.empty_object (codes "type") (j.text (codes "diagnostic"))) d

  abbrev pub short_event_to_json : EitShortEvent → j.Object
  short_event_to_json e =
      let a = j.assign j.empty_object (codes "eventName") (j.text e.event_name) in
      let b = j.assign a (codes "text") (j.text e.text) in
      j.assign b (codes "languageCode") (j.text e.language_code)

  abbrev pub genre_to_json : EitGenre → j.Object
  genre_to_json g =
      let a =
        j.assign j.empty_object (codes "contentNibbleLevel1") (j.number g.content_nibble_level_1) in
      let b = j.assign a (codes "contentNibbleLevel2") (j.number g.content_nibble_level_2) in
      let c = j.assign b (codes "userNibble1") (j.number g.user_nibble_1) in
      j.assign c (codes "userNibble2") (j.number g.user_nibble_2)

  pub push_short_events : j.Array → List EitShortEvent → j.Array
  push_short_events out [] = out
  push_short_events out (e ∷ es) =
      push_short_events (j.push_back out (j.object (short_event_to_json e))) es

  pub short_events_to_json : List EitShortEvent → j.Array
  unfolding push_short_events
  short_events_to_json es = push_short_events j.empty_array es

  pub push_genres : j.Array → List EitGenre → j.Array
  push_genres out [] = out
  push_genres out (g ∷ gs) = push_genres (j.push_back out (j.object (genre_to_json g))) gs

  pub genres_to_json : List EitGenre → j.Array
  unfolding push_genres
  genres_to_json gs = push_genres j.empty_array gs

  pub push_texts : j.Array → List Text → j.Array
  push_texts out [] = out
  push_texts out (t ∷ ts) = push_texts (j.push_back out (j.text t)) ts

  pub ruby_to_json : List Text → j.Array
  unfolding push_texts
  ruby_to_json ruby = push_texts j.empty_array ruby

  pub caption_to_json : CaptionRecord → j.Object
  caption_to_json c =
      let o1 = j.assign j.empty_object (codes "type") (j.text (codes "caption")) in
      let o2 = add_optional_rfc3339 o1 (codes "time") c.time_ms in
      let o3 = j.assign o2 (codes "text") (j.text c.text) in
      let o4 = j.assign o3 (codes "ruby") (j.array (ruby_to_json c.ruby)) in
      let o5 = add_optional o4 (codes "color") c.color in
      add_optional o5 (codes "languageCode") c.language_code

  pub eit_to_json : EitRecord → j.Object
  eit_to_json r =
      let o1 = j.assign j.empty_object (codes "type") (j.text (codes "eit")) in
      let o2 = add_optional_rfc3339 o1 (codes "startTime") r.start_time_ms in
      let o3 = add_optional_number o2 (codes "durationSec") r.duration_sec in
      let o4 = j.assign o3 (codes "shortEvents") (j.array (short_events_to_json r.short_events)) in
      let o5 = j.assign o4 (codes "extendedText") (j.text r.extended_text) in
      let o6 = j.assign o5 (codes "genres") (j.array (genres_to_json r.genres)) in
      let o7 = j.assign o6 (codes "section") (j.text (section_to_string r.section)) in
      let o8 = j.assign o7 (codes "version") (j.number r.version) in
      let o9 = j.assign o8 (codes "serviceId") (j.number r.service_id) in
      let o10 = j.assign o9 (codes "transportStreamId") (j.number r.transport_stream_id) in
      let o11 = j.assign o10 (codes "originalNetworkId") (j.number r.original_network_id) in
      j.assign o11 (codes "eventId") (j.number r.event_id)

  pub to_json : OutputRecord → j.Json
  unfolding caption_to_json eit_to_json diagnostic_to_json
  to_json (caption c) = j.object (caption_to_json c)
  to_json (eit r) = j.object (eit_to_json r)
  to_json (diagnostic d) = j.object (diagnostic_to_json d)

  unfoldable pub to_json_line : OutputRecord → Text
  unfolding to_json
  to_json_line record' = j.to_string (to_json record')

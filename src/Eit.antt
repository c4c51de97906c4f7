-- ===== src/Eit.antt =====
-- core/eit_parser.hpp and core/eit_parser.cc: from an EIT to output records.
-- What TSDuck deserializes (descriptors, sections, events, their text in UTF-8) is data.
pub mod Emitter
pub mod Extended
pub mod Reference
pub mod Versions
mod Tests
use aribcap_dump.Prelude.Int.{negsuc, pos, ℤ}
use aribcap_dump.TsUtils.{jst_time_to_unix_ms, JstTime}
use aribcap_dump.Output.{following, present, EitSection, EitGenre, EitShortEvent, EitRecord, Text}
use aribcap_dump.Prelude.{
  is_empty, true, none, ◌-◌, ◌||◌, length, ◌^◌, ltb, ◌==◌, not, leb, ◌++◌, ◌&&◌, some, false, [],
  if◌then◌else◌, ◌∷◌, List, Bool, Option, ℕ,
}

pub record ExtendedItem : Type 0 where
  pub description : Text
  pub value : Text

-- A descriptor of an event, with what it holds if it is valid; `other` has another tag.
pub data Descriptor : Type 0 where
  short_event : Option EitShortEvent → Descriptor
  content : Option (List EitGenre) → Descriptor
  extended_event : Option (List ExtendedItem × Text) → Descriptor
  other : Descriptor

pub record EitEvent : Type 0 where
  pub event_id : ℕ
  pub start_time : JstTime
  pub duration : ℤ
  pub descs : List Descriptor

pub record Eit : Type 0 where
  pub is_valid : Bool
  pub service_id : ℕ
  pub ts_id : ℕ
  pub onetw_id : ℕ
  pub events : List EitEvent

pub record DeserializedEit : Type 0 where
  pub eit : Eit
  pub version : ℕ
  pub present_section_has_event : Bool

pub record ParsedEventText : Type 0 where
  pub genres : List EitGenre
  pub short_events : List EitShortEvent
  pub extended_text : Text

pub get_section_kind : ℕ → Bool → EitSection
get_section_kind event_index present_section_has_event =
    if present_section_has_event && event_index == 0 then present else following

-- `items->back().value += value`
abbrev pub append_to_last : List ExtendedItem → Text → List ExtendedItem
append_to_last [] value = []
append_to_last (i ∷ []) value = record i { value = i.value ++ value } ∷ []
append_to_last (i ∷ j ∷ is) value = i ∷ append_to_last (j ∷ is) value

pub push_parsed_extended_event_item : List ExtendedItem → Text → Text → List ExtendedItem
push_parsed_extended_event_item items description value =
    if is_empty description && not (is_empty items)
    then append_to_last items value
    else items ++ (record { description = description; value = value } ∷ [])

abbrev pub newline : ℕ
newline = 10

pub append_part : Text → Text → Text
append_part out part = (if is_empty out then out else out ++ (newline ∷ [])) ++ part

abbrev pub append_item : Text → ExtendedItem → Text
append_item out item =
    if is_empty item.description
    then (if is_empty item.value then out else append_part out item.value)
    else append_part out (item.description ++ (newline ∷ item.value))

pub append_items : Text → List ExtendedItem → Text
append_items out [] = out
append_items out (item ∷ items) = append_items (append_item out item) items

pub format_extended_text : List ExtendedItem → Text → Text
format_extended_text items trailing_text =
    let out = append_items [] items in
    if is_empty trailing_text then out else append_part out trailing_text

-- The three loops over the descriptors of a tag, in the order of the list.
pub collect_short_events : List Descriptor → List EitShortEvent
collect_short_events [] = []
collect_short_events (short_event (some e) ∷ ds) = e ∷ collect_short_events ds
collect_short_events (_ ∷ ds) = collect_short_events ds

pub collect_genres : List Descriptor → List EitGenre
collect_genres [] = []
collect_genres (content (some gs) ∷ ds) = gs ++ collect_genres ds
collect_genres (_ ∷ ds) = collect_genres ds

pub push_items : List ExtendedItem → List ExtendedItem → List ExtendedItem
push_items items [] = items
push_items items (e ∷ es) =
    push_items (push_parsed_extended_event_item items e.description e.value) es

pub collect_extended : List ExtendedItem → Text → List Descriptor → List ExtendedItem × Text
collect_extended items trailing_text [] = (items, trailing_text)
collect_extended items trailing_text (extended_event (some (es, text)) ∷ ds) =
    collect_extended (push_items items es) (trailing_text ++ text) ds
collect_extended items trailing_text (_ ∷ ds) = collect_extended items trailing_text ds

pub parse_descriptors : List Descriptor → ParsedEventText
parse_descriptors ds =
    let r = collect_extended [] [] ds in
    record {
      genres = collect_genres ds;
      short_events = collect_short_events ds;
      extended_text = format_extended_text r.0 r.1;
    }

-- Section number 0 of a table: whether it is valid, and the size of its payload.
pub record PresentSection : Type 0 where
  pub is_valid : Bool
  pub payload_size : ℕ

-- `fixed_size` is `ts::EIT::EIT_PAYLOAD_FIXED_SIZE`.
pub eit_present_section_has_event : ℕ → Option PresentSection → Bool
eit_present_section_has_event fixed_size none = false
eit_present_section_has_event fixed_size (some s) = s.is_valid && ltb fixed_size s.payload_size

unfoldable pub deserialize_eit : ℕ → Eit → ℕ → Option PresentSection → DeserializedEit
deserialize_eit fixed_size eit version section = record {
  eit = eit;
  version = version;
  present_section_has_event = eit_present_section_has_event fixed_size section;
}

-- A duration is kept if it fits an unsigned 32-bit number.
pub duration_sec : ℤ → Option ℕ
duration_sec (pos n) = if leb n (2 ^ 32 - 1) then some n else none
duration_sec (negsuc n) = none

-- The body of the loop of `ParseEit`, with `index` records before this one.
pub parse_event : DeserializedEit → ℕ → EitEvent → EitRecord
parse_event d index event =
    let event_text = parse_descriptors event.descs in
    record {
      start_time_ms = jst_time_to_unix_ms event.start_time;
      duration_sec = duration_sec event.duration;
      short_events = event_text.short_events;
      extended_text = event_text.extended_text;
      genres = event_text.genres;
      section = get_section_kind index d.present_section_has_event;
      version = d.version;
      service_id = d.eit.service_id;
      transport_stream_id = d.eit.ts_id;
      original_network_id = d.eit.onetw_id;
      event_id = event.event_id;
    }

-- The loop of `ParseEit` over the events, with the records made so far.
pub parse_events : DeserializedEit → List EitRecord → List EitEvent → List EitRecord
parse_events d results [] = results
parse_events d results (event ∷ events) = elim (leb 2 (length results)) [
  | true ↦ results
  | false ↦ parse_events d (results ++ (parse_event d (length results) event ∷ [])) events
]

pub parse_eit : DeserializedEit → List EitRecord
parse_eit d =
    if not d.eit.is_valid || is_empty d.eit.events then [] else parse_events d [] d.eit.events

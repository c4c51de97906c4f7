-- ===== src/Eit/Tests.antt =====
-- Runs of the EIT parser and of its emitter.
use aribcap_dump.Eit.Extended.{parse_descriptors_lem, all_texts, all_items, joined}
use aribcap_dump.Eit.Reference.{parts, join_lines, parse_eit_lem, format_extended_text_lem}
use aribcap_dump.Output.{following, present}
use aribcap_dump.Prelude.Int.{negsuc, pos}
use aribcap_dump.TsUtils.{JstTime}
use aribcap_dump.Eit.Emitter.{only_present, new_eit_emitter}
use aribcap_dump.Eit.Versions.{run-changes, print_all, run}
use aribcap_dump.Eit.{
  append_part, other, append_items, push_parsed_extended_event_item, extended_event, parse_eit,
  duration_sec, collect_extended, DeserializedEit, ExtendedItem, push_items, format_extended_text,
  parse_event, parse_descriptors, EitEvent,
}
use aribcap_dump.Prelude.{none, some, ◌∷◌, ◌≡◌, true, false, [], map, List, ℕ, refl}

abbrev at : ℕ → JstTime
at n = record {
  is_epoch = false;
  jst_to_utc = record { before_unix_epoch = false; since_unix_epoch = pos n };
}

abbrev item : List ℕ → List ℕ → ExtendedItem
item d v = record { description = d; value = v }

abbrev news : EitEvent
news = record {
  event_id = 7;
  start_time = at 1000;
  duration = pos 1800;
  descs =
      extended_event (some (item (65 ∷ []) (66 ∷ []) ∷ [], []))
      ∷ other
      ∷ extended_event (some (item [] (67 ∷ []) ∷ [], 68 ∷ []))
      ∷ [];
}

abbrev weather : EitEvent
weather = record { event_id = 8; start_time = at 2000; duration = negsuc 0; descs = [] }

abbrev table : ℕ → DeserializedEit
table v = record {
  eit = record {
    is_valid = true;
    service_id = 101;
    ts_id = 1;
    onetw_id = 2;
    events = news ∷ weather ∷ news ∷ [];
  };
  version = v;
  present_section_has_event = true;
}

-- A text that two descriptors share is one line.
test_text : (parse_descriptors news.descs).extended_text ≡ 65 ∷ 10 ∷ 66 ∷ 67 ∷ 10 ∷ 68 ∷ []
unfolding parse_descriptors collect_extended push_items push_parsed_extended_event_item
    format_extended_text append_items append_part
test_text = refl

-- A duration below 0 is left out.
test_duration : (parse_event (table 3) 1 weather).duration_sec ≡ none
unfolding parse_event duration_sec
test_duration = refl

parse_eit_example : map (λ r. r.section) (parse_eit (table 3)) ≡ present ∷ following ∷ []
parse_eit_example = (parse_eit_lem (table 3) refl).2

-- The second EIT repeats the version of the first, and the fourth is new again.
run-changes_example :
    (run (new_eit_emitter only_present) (table 3 ∷ table 3 ∷ table 4 ∷ table 3 ∷ [])).1
    ≡ print_all only_present (table 3 ∷ table 4 ∷ table 3 ∷ [])
run-changes_example =
    run-changes (new_eit_emitter only_present) (table 3 ∷ table 3 ∷ table 4 ∷ table 3 ∷ [])

format_extended_text_example :
    format_extended_text (item [] [] ∷ item (65 ∷ []) [] ∷ item [] (66 ∷ []) ∷ []) (67 ∷ [])
    ≡ 65 ∷ 10 ∷ 10 ∷ 66 ∷ 10 ∷ 67 ∷ []
format_extended_text_example =
    format_extended_text_lem (item [] [] ∷ item (65 ∷ []) [] ∷ item [] (66 ∷ []) ∷ []) (67 ∷ [])

-- The second descriptor begins with the rest of the first one's item.
parse_descriptors_example :
    (parse_descriptors news.descs).extended_text
    ≡ join_lines (parts (joined (all_items news.descs)) (all_texts news.descs))
parse_descriptors_example = parse_descriptors_lem news.descs

joined_news : joined (all_items news.descs) ≡ item (65 ∷ []) (66 ∷ 67 ∷ []) ∷ []
joined_news = refl

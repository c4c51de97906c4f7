-- ===== src/Eit/Reference.antt =====
-- What the parser makes of the events and of the extended descriptions.
use aribcap_dump.TsUtils.{jst_time_to_unix_ms}
use aribcap_dump.Output.{EitRecord, following, present, Text, EitSection}
use aribcap_dump.Eit.{
  append_item, append_items, format_extended_text, append_part, EitEvent, DeserializedEit, newline,
  get_section_kind, parse_event, parse_events, ExtendedItem, parse_eit,
}
use aribcap_dump.Prelude.{
  append-nil, append_assoc, sym, ◌||◌, ℕ, ◌∙◌, not, ap, length, map, false, take, true, ◌≡◌, [],
  ◌++◌, is_empty, ◌∷◌, if◌then◌else◌, List, Bool, refl,
}

abbrev pub sections : Bool → List EitSection
sections true = present ∷ following ∷ []
sections false = following ∷ following ∷ []

abbrev first_two : DeserializedEit → List EitEvent → List EitRecord
first_two d [] = []
first_two d (e ∷ []) = parse_event d 0 e ∷ []
first_two d (e ∷ f ∷ es) = parse_event d 0 e ∷ parse_event d 1 f ∷ []

parse_events-first_two :
    (d : DeserializedEit) (es : List EitEvent) → parse_events d [] es ≡ first_two d es
unfolding parse_events
parse_events-first_two d [] = refl
parse_events-first_two d (e ∷ []) = refl
parse_events-first_two d (e ∷ f ∷ []) = refl
parse_events-first_two d (e ∷ f ∷ g ∷ es) = refl

parse_eit-first_two :
    (d : DeserializedEit) → d.eit.is_valid ≡ true → parse_eit d ≡ first_two d d.eit.events
unfolding parse_eit
parse_eit-first_two d v =
    ap (λ b. if not b || is_empty d.eit.events then [] else parse_events d [] d.eit.events) v
    ∙ of_events d.eit.events
  where
    of_events :
        (es : List EitEvent) → (if is_empty es then [] else parse_events d [] es) ≡ first_two d es
    of_events [] = refl
    of_events (e ∷ es) = parse_events-first_two d (e ∷ es)

first_two_lem :
    (d : DeserializedEit) (es : List EitEvent)
    → let rs = first_two d es in
      (map (λ r. r.event_id) rs ≡ map (λ e. e.event_id) (take 2 es))
      × (map (λ r. r.start_time_ms) rs ≡ map (λ e. jst_time_to_unix_ms e.start_time) (take 2 es))
      × (map (λ r. r.section) rs ≡ take (length (take 2 es)) (sections d.present_section_has_event))
unfolding parse_event get_section_kind
first_two_lem d [] = (refl, refl, refl)
first_two_lem d (e ∷ []) = (refl, refl, by_flag d.present_section_has_event)
  where
    by_flag : (b : Bool) → get_section_kind 0 b ∷ [] ≡ take 1 (sections b)
    by_flag true = refl
    by_flag false = refl
first_two_lem d (e ∷ f ∷ es) = (refl, refl, by_flag d.present_section_has_event)
  where
    by_flag : (b : Bool) → get_section_kind 0 b ∷ get_section_kind 1 b ∷ [] ≡ take 2 (sections b)
    by_flag true = refl
    by_flag false = refl

-- A valid EIT yields a record for each of its first two events, in order, with the event's identifier
-- and start time; the first record is the present event exactly if the present section carries an
-- event, and all others are following ones.
pub parse_eit_lem :
    (d : DeserializedEit)
    → d.eit.is_valid ≡ true
    → let rs = parse_eit d in
      let es = take 2 d.eit.events in
      (map (λ r. r.event_id) rs ≡ map (λ e. e.event_id) es)
      × (map (λ r. r.start_time_ms) rs ≡ map (λ e. jst_time_to_unix_ms e.start_time) es)
      × (map (λ r. r.section) rs ≡ take (length es) (sections d.present_section_has_event))
parse_eit_lem d v = rw (parse_eit-first_two d v) (first_two_lem d d.eit.events)

abbrev pub item_part : ExtendedItem → List Text
item_part i =
    if is_empty i.description
    then (if is_empty i.value then [] else i.value ∷ [])
    else (i.description ++ (newline ∷ i.value)) ∷ []

abbrev pub parts : List ExtendedItem → Text → List Text
parts [] t = if is_empty t then [] else t ∷ []
parts (i ∷ is) t = item_part i ++ parts is t

-- Each text on a new line.
abbrev pub on_new_lines : List Text → Text
on_new_lines [] = []
on_new_lines (p ∷ ps) = newline ∷ (p ++ on_new_lines ps)

abbrev pub join_lines : List Text → Text
join_lines [] = []
join_lines (p ∷ ps) = p ++ on_new_lines ps

on_new_lines-append :
    (ps qs : List Text) → on_new_lines (ps ++ qs) ≡ on_new_lines ps ++ on_new_lines qs
on_new_lines-append [] qs = refl
on_new_lines-append (p ∷ ps) qs =
    ap (λ ts. newline ∷ ts)
      (ap (λ ts. p ++ ts) (on_new_lines-append ps qs)
        ∙ sym (append_assoc p (on_new_lines ps) (on_new_lines qs)))

abbrev finish : Text → List ExtendedItem → Text → Text
finish out items t = let o = append_items out items in if is_empty t then o else append_part o t

new_line_part :
    (o : ℕ) (os p : Text) → ((o ∷ os) ++ (newline ∷ [])) ++ p ≡ (o ∷ os) ++ on_new_lines (p ∷ [])
new_line_part o os p =
    append_assoc (o ∷ os) (newline ∷ []) p
    ∙ ap (λ us. (o ∷ os) ++ (newline ∷ us)) (sym (append-nil p))

append_item-on_new_lines :
    (o : ℕ) (os d v : Text)
    → append_item (o ∷ os) (record { description = d; value = v })
      ≡ (o ∷ os) ++ on_new_lines (item_part (record { description = d; value = v }))
unfolding append_part
append_item-on_new_lines o os [] [] = ap (λ ts. o ∷ ts) (sym (append-nil os))
append_item-on_new_lines o os [] (v ∷ vs) = new_line_part o os (v ∷ vs)
append_item-on_new_lines o os (d ∷ ds) v = new_line_part o os (d ∷ (ds ++ (newline ∷ v)))

finish-on_new_lines :
    (items : List ExtendedItem) (t : Text) (o : ℕ) (os : Text)
    → finish (o ∷ os) items t ≡ (o ∷ os) ++ on_new_lines (parts items t)
unfolding append_items append_part
finish-on_new_lines [] [] o os = ap (λ ts. o ∷ ts) (sym (append-nil os))
finish-on_new_lines [] (t ∷ ts) o os = new_line_part o os (t ∷ ts)
finish-on_new_lines (i ∷ is) t o os =
    ap (λ out. finish out is t) (append_item-on_new_lines o os i.description i.value)
    ∙ finish-on_new_lines is t o (os ++ on_new_lines (item_part i))
    ∙ append_assoc (o ∷ os) (on_new_lines (item_part i)) (on_new_lines (parts is t))
    ∙ ap (λ ps. (o ∷ os) ++ ps) (sym (on_new_lines-append (item_part i) (parts is t)))

finish-nil : (items : List ExtendedItem) (t : Text) → finish [] items t ≡ join_lines (parts items t)
unfolding append_items append_part
finish-nil [] [] = refl
finish-nil [] (t ∷ ts) = ap (λ us. t ∷ us) (sym (append-nil ts))
finish-nil (i ∷ is) t = of_first i.description i.value (finish-nil is t)
  where
    of_first :
        (d v : Text)
        → finish [] is t ≡ join_lines (parts is t)
        → let i : ExtendedItem = record { description = d; value = v } in
          finish [] (i ∷ is) t ≡ join_lines (parts (i ∷ is) t)
    of_first [] [] rest = rest
    of_first [] (v ∷ vs) rest = finish-on_new_lines is t v vs
    of_first (d ∷ ds) v rest = finish-on_new_lines is t d (ds ++ (newline ∷ v))

-- What is printed of the extended descriptions: for each item its description and, on a new line, its
-- value, for an item without a description the value alone, and nothing for one with neither; then
-- the trailing text unless it is empty; all on lines of their own.
pub format_extended_text_lem :
    (items : List ExtendedItem) (trailing_text : Text)
    → format_extended_text items trailing_text ≡ join_lines (parts items trailing_text)
unfolding format_extended_text
format_extended_text_lem items trailing_text = finish-nil items trailing_text

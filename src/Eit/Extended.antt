-- ===== src/Eit/Extended.antt =====
-- The extended text of an event, over all its descriptors.
use aribcap_dump.Eit.Reference.{format_extended_text_lem, parts, join_lines}
use aribcap_dump.Output.{Text}
use aribcap_dump.Eit.{
  format_extended_text, append_to_last, Descriptor, ExtendedItem, parse_descriptors,
  collect_extended, push_items, push_parsed_extended_event_item, short_event, content, other,
  extended_event,
}
use aribcap_dump.Prelude.{
  inr, none, inl, append_assoc, Bool-cases, ap₂, Bool, append-nil, ◌∙◌, sym, if◌then◌else◌, true,
  ap, false, some, [], ◌≡◌, ◌++◌, ◌∷◌, is_empty, List, refl,
}

is_empty-snoc :
    (items : List ExtendedItem) (i : ExtendedItem) → is_empty (items ++ (i ∷ [])) ≡ false
is_empty-snoc [] i = refl
is_empty-snoc (j ∷ items) i = refl

append_to_last-snoc :
    (items : List ExtendedItem) (i : ExtendedItem) (value : Text)
    → append_to_last (items ++ (i ∷ [])) value
      ≡ items ++ (record i { value = i.value ++ value } ∷ [])
append_to_last-snoc [] i value = refl
append_to_last-snoc (j ∷ []) i value = refl
append_to_last-snoc (j ∷ k ∷ items) i value =
    ap (λ is. j ∷ is) (append_to_last-snoc (k ∷ items) i value)

push_parsed_extended_event_item-unnamed :
    (items : List ExtendedItem) (i : ExtendedItem) (d v : Text)
    → is_empty d ≡ true
    → push_parsed_extended_event_item (items ++ (i ∷ [])) d v
      ≡ items ++ (record i { value = i.value ++ v } ∷ [])
unfolding push_parsed_extended_event_item
push_parsed_extended_event_item-unnamed items i d v u =
    rw (u, is_empty-snoc items i) (append_to_last-snoc items i v)

push_parsed_extended_event_item-named :
    (items : List ExtendedItem) (d v : Text)
    → is_empty d ≡ false
    → push_parsed_extended_event_item items d v
      ≡ items ++ (record { description = d; value = v } ∷ [])
unfolding push_parsed_extended_event_item
push_parsed_extended_event_item-named items d v n = rw n refl

-- The values of the items without a description that come first, and the items with one, each of which
-- has taken the values of those without one that follow it.
abbrev pub groups : List ExtendedItem → Text × List ExtendedItem
groups [] = ([], [])
groups (i ∷ is) =
    let g = groups is in
    if is_empty i.description
    then (i.value ++ g.0, g.1)
    else ([], record i { value = i.value ++ g.0 } ∷ g.1)

-- The first item stands even without a description.
abbrev pub joined : List ExtendedItem → List ExtendedItem
joined [] = []
joined (i ∷ is) = let g = groups is in record i { value = i.value ++ g.0 } ∷ g.1

push_items-groups :
    (items : List ExtendedItem) (i : ExtendedItem) (es : List ExtendedItem)
    → push_items (items ++ (i ∷ [])) es
      ≡ items ++ (record i { value = i.value ++ (groups es).0 } ∷ (groups es).1)
unfolding push_items
push_items-groups items i [] =
    ap (λ v. items ++ (record i { value = v } ∷ [])) (sym (append-nil i.value))
push_items-groups items i (e ∷ es) =
    let unnamed = push_items-groups items (record i { value = i.value ++ e.value }) es in
    let named = push_items-groups (items ++ (i ∷ [])) e es in
    let g = groups es in
    let e' : ExtendedItem = record e { value = e.value ++ g.0 } in
    let after : Text × List ExtendedItem → List ExtendedItem =
      λ g. items ++ (record i { value = i.value ++ g.0 } ∷ g.1) in
    let of_test : Bool → Text × List ExtendedItem =
      λ b. if b then (e.value ++ g.0, g.1) else ([], e' ∷ g.1) in
    elim (Bool-cases (is_empty e.description)) [
      | inl y ↦
          ap (λ is. push_items is es)
            (push_parsed_extended_event_item-unnamed items i e.description e.value y)
          ∙ unnamed
          ∙ ap (λ v. items ++ (record i { value = v } ∷ g.1)) (append_assoc i.value e.value g.0)
          ∙ sym (ap (λ b. after (of_test b)) y)
      | inr n ↦
          ap (λ is. push_items is es)
            (push_parsed_extended_event_item-named (items ++ (i ∷ [])) e.description e.value n)
          ∙ named
          ∙ append_assoc items (i ∷ []) (e' ∷ g.1)
          ∙ ap (λ v. items ++ (record i { value = v } ∷ e' ∷ g.1)) (sym (append-nil i.value))
          ∙ sym (ap (λ b. after (of_test b)) n)
    ]

-- The items of all extended descriptions that can be read, in order, and their texts.
abbrev pub all_items : List Descriptor → List ExtendedItem
all_items [] = []
all_items (extended_event (some (es, text)) ∷ ds) = es ++ all_items ds
all_items (_ ∷ ds) = all_items ds

abbrev pub all_texts : List Descriptor → Text
all_texts [] = []
all_texts (extended_event (some (es, text)) ∷ ds) = text ++ all_texts ds
all_texts (_ ∷ ds) = all_texts ds

push_items-append :
    (items es fs : List ExtendedItem)
    → push_items items (es ++ fs) ≡ push_items (push_items items es) fs
unfolding push_items
push_items-append items [] fs = refl
push_items-append items (e ∷ es) fs =
    push_items-append (push_parsed_extended_event_item items e.description e.value) es fs

collect_extended-push_items :
    (items : List ExtendedItem) (text : Text) (ds : List Descriptor)
    → collect_extended items text ds ≡ (push_items items (all_items ds), text ++ all_texts ds)
unfolding collect_extended push_items
collect_extended-push_items items text [] = ap (λ t. (items, t)) (sym (append-nil text))
collect_extended-push_items items text (extended_event (some (es, more)) ∷ ds) =
    collect_extended-push_items (push_items items es) (text ++ more) ds
    ∙ ap₂ (λ is t. (is, t)) (sym (push_items-append items es (all_items ds)))
        (append_assoc text more (all_texts ds))
collect_extended-push_items items text (extended_event none ∷ ds) =
    collect_extended-push_items items text ds
collect_extended-push_items items text (short_event e ∷ ds) =
    collect_extended-push_items items text ds
collect_extended-push_items items text (content gs ∷ ds) = collect_extended-push_items items text ds
collect_extended-push_items items text (other ∷ ds) = collect_extended-push_items items text ds

push_first :
    (d v : Text)
    → push_parsed_extended_event_item [] d v ≡ record { description = d; value = v } ∷ []
unfolding push_parsed_extended_event_item
push_first [] v = refl
push_first (c ∷ cs) v = refl

push_items-joined : (es : List ExtendedItem) → push_items [] es ≡ joined es
unfolding push_items
push_items-joined [] = refl
push_items-joined (e ∷ es) =
    ap (λ is. push_items is es) (push_first e.description e.value) ∙ push_items-groups [] e es

-- The extended text of an event, from all its descriptors: the items of the extended descriptions, in
-- order, where an item without a description goes on with the value of the one before it, also over
-- the end of a descriptor, so that a text cut over several items or descriptors is whole again; each item
-- on lines of its own, and at the end the texts of these descriptions, joined without a break.
pub parse_descriptors_lem :
    (ds : List Descriptor)
    → (parse_descriptors ds).extended_text
      ≡ join_lines (parts (joined (all_items ds)) (all_texts ds))
unfolding parse_descriptors
parse_descriptors_lem ds =
    ap (λ r. format_extended_text r.0 r.1) (collect_extended-push_items [] [] ds)
    ∙ ap (λ is. format_extended_text is (all_texts ds)) (push_items-joined (all_items ds))
    ∙ format_extended_text_lem (joined (all_items ds)) (all_texts ds)

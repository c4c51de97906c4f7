-- ===== src/Captions/Metadata.antt =====
-- The ruby and the colour of a caption, against a description of its regions.
use aribcap_dump.Prelude.{
  append_assoc, inl, ◌∙◌, inr, arith, Bool-cases, ap, append-nil, true, sym, ap₂, is_empty_nil,
  is_empty, not, ◌&&◌, [], if◌then◌else◌, ◌++◌, some, ◌≡◌, none, ◌∷◌, Option, List, refl,
}
use aribcap_dump.Output.{Text}
use aribcap_dump.Captions.{
  first_color, has_utf8_text, color_to_rgba_hex, Caption, CaptionMetadata, CaptionRegion,
  CaptionChar, extract_caption_metadata, extract_regions, ruby_text,
}

abbrev pub text_of : List CaptionChar → Text
text_of [] = []
text_of (ch ∷ chs) = ch.u8str ++ text_of chs

-- The texts of the ruby regions that have one.
abbrev pub rubies : List CaptionRegion → List Text
rubies [] = []
rubies (region ∷ regions) =
    let rest = rubies regions in
    if region.is_ruby && not (is_empty (text_of region.chars))
    then text_of region.chars ∷ rest
    else rest

-- The characters that are not ruby.
abbrev pub body : List CaptionRegion → List CaptionChar
body [] = []
body (region ∷ regions) =
    let rest = body regions in if region.is_ruby then rest else region.chars ++ rest

abbrev pub head_color : List CaptionChar → Option Text
head_color [] = none
head_color (ch ∷ chs) = some (color_to_rgba_hex ch.text_color)

ruby_text_lem : (chs : List CaptionChar) → ruby_text chs ≡ text_of chs
unfolding ruby_text has_utf8_text
ruby_text_lem [] = refl
ruby_text_lem (ch ∷ chs) =
    let blank : is_empty ch.u8str ≡ true → text_of chs ≡ ch.u8str ++ text_of chs =
      λ h. ap (λ u. u ++ text_of chs) (sym (is_empty_nil ch.u8str h)) in
    ground (arith, ruby_text_lem chs, blank)

or_else : Option Text → Option Text → Option Text
or_else (some a) b = some a
or_else none b = b

or_else-none : (o : Option Text) → or_else o none ≡ o
unfolding or_else
or_else-none none = refl
or_else-none (some t) = refl

or_else-append :
    (o : Option Text) (chs rest : List CaptionChar)
    → or_else (first_color o chs) (head_color rest) ≡ or_else o (head_color (chs ++ rest))
unfolding or_else
or_else-append (some t) chs rest = refl
or_else-append none [] rest = refl
or_else-append none (ch ∷ chs) rest = refl

record_eq :
    {a b : List Text} {c d : Option Text}
    → a ≡ b
    → c ≡ d
    → (let m : CaptionMetadata = record { ruby = a; color = c } in m)
      ≡ record { ruby = b; color = d }
record_eq e f = ap₂ (λ a c. record { ruby = a; color = c }) e f

extract_regions_lem :
    (m : CaptionMetadata) (regions : List CaptionRegion)
    → extract_regions m regions ≡ record {
      ruby = m.ruby ++ rubies regions;
      color = or_else m.color (head_color (body regions));
    }
unfolding extract_regions or_else
extract_regions_lem m [] = record_eq (sym (append-nil m.ruby)) (sym (or_else-none m.color))
extract_regions_lem m (region ∷ regions) = elim (Bool-cases region.is_ruby) [
  | inr n ↦ rw n (
      extract_regions_lem (record m { color = first_color m.color region.chars }) regions
      ∙ record_eq refl (or_else-append m.color region.chars (body regions)))
  | inl y ↦ elim (Bool-cases (is_empty (text_of region.chars))) [
    | inl e ↦ rw (y, ruby_text_lem region.chars) (rw e (extract_regions_lem m regions))
    | inr e ↦
        let t = text_of region.chars in
        rw (y, ruby_text_lem region.chars)
          (rw e (
            extract_regions_lem (record m { ruby = m.ruby ++ (t ∷ []) }) regions
            ∙ record_eq (append_assoc m.ruby (t ∷ []) (rubies regions)) refl))
  ]
]

-- The ruby of a caption is the texts of its ruby regions, in order, those without text left out; its
-- colour is that of its first character that is not ruby, and absent where there is none.
pub extract_caption_metadata_lem :
    (c : Caption)
    → extract_caption_metadata c
      ≡ record { ruby = rubies c.regions; color = head_color (body c.regions) }
unfolding extract_caption_metadata or_else
extract_caption_metadata_lem c = extract_regions_lem (record { ruby = []; color = none }) c.regions

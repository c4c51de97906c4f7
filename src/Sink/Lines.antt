-- ===== src/Sink/Lines.antt =====
-- A line for each record.
use aribcap_dump.Sink.{written-emit_all, emit_all, line_end, lines, Ostream}
use aribcap_dump.Json.{to_json_line, JsonLibrary}
use aribcap_dump.Output.{OutputRecord, Text}
use aribcap_dump.Prelude.{
  true, ◌||◌, inr, arith, inl, Bool-cases, ◌∙◌, append-nil, append_assoc, sym, ap, ◌==◌, map,
  if◌then◌else◌, false, ◌++◌, ◌≡◌, [], ◌∷◌, contains_byte, List, refl,
}

-- The lines of a text, each ended by a newline: `line` is the part of the first one that is behind.
unfoldable pub split_lines : Text → Text → List Text
split_lines line [] = []
split_lines line (c ∷ cs) =
    let rest = split_lines [] cs in
    let more = split_lines (line ++ (c ∷ [])) cs in if c == line_end then line ∷ rest else more

split_lines-append :
    (line t rest : Text)
    → contains_byte line_end t ≡ false
    → split_lines line (t ++ (line_end ∷ rest)) ≡ (line ++ t) ∷ split_lines [] rest
unfolding split_lines
split_lines-append line [] rest h = ap (λ l. l ∷ split_lines [] rest) (sym (append-nil line))
split_lines-append line (c ∷ cs) rest h =
    let ih = split_lines-append (line ++ (c ∷ [])) cs rest in
    elim (Bool-cases (c == line_end)) [
      | inl y ↦ ground (arith, y, h)
      | inr n ↦
          ap
            (λ b.
              if b
              then line ∷ split_lines [] (cs ++ (line_end ∷ rest))
              else split_lines (line ++ (c ∷ [])) (cs ++ (line_end ∷ rest)))
            n
          ∙ ih (ap (λ b. b || contains_byte line_end cs) (sym n) ∙ h)
          ∙ ap (λ l. l ∷ split_lines [] rest) (append_assoc line (c ∷ []) cs)
    ]

pub split_lines-lines :
    (j : JsonLibrary) (out : Ostream) (rs : List OutputRecord)
    → split_lines [] (lines j out rs) ≡ map (to_json_line j) rs
unfolding split_lines to_json_line
split_lines-lines j out [] = refl
split_lines-lines j out (r ∷ rs) =
    let t = to_json_line j r in
    ap (split_lines []) (append_assoc t (line_end ∷ []) (lines j out rs))
    ∙ split_lines-append [] t (lines j out rs) (j.to_string_one_line _)
    ∙ ap (λ ls. t ∷ ls) (split_lines-lines j out rs)

-- What the sink prints of records, to an output that is good after the last of them: the text added to
-- what was written before, cut at its newlines, is the JSON texts of the records, in order. No record
-- spans two lines, no two share one, and the last one is ended.
pub emit_all_lines :
    (j : JsonLibrary) (out : Ostream) (s : out.State) (rs : List OutputRecord)
    → out.good (emit_all j out s rs) ≡ true
    → (added : Text) × (out.written (emit_all j out s rs) ≡ out.written s ++ added)
      × (split_lines [] added ≡ map (to_json_line j) rs)
emit_all_lines j out s rs h =
    (lines j out rs, written-emit_all j out s rs h, split_lines-lines j out rs)

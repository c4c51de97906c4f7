-- ===== src/Sink.antt =====
-- core/output_record_sink.hpp and core/output_record_sink.cc: the sinks. The dumper's operations give
-- the records that they emit as a list, in order.
pub mod Lines
pub mod Sample
pub mod Vector
mod Tests
use aribcap_dump.Output.{OutputRecord, Text}
use aribcap_dump.Json.{JsonLibrary, to_json_line}
use aribcap_dump.Prelude.{
  append_assoc, append-nil, ap, sym, ◌∙◌, [], true, ◌++◌, ◌≡◌, ◌∷◌, ◌∷◌, Bool, List, ℕ, refl,
}

-- A `std::ostream`: `written` is all that has been inserted while the stream was good. A stream that
-- is not good takes nothing and stays so; one that is good after an insertion has taken it.
pub record Ostream : Type 1 where
  pub State : Type 0
  pub write : State → Text → State
  pub flush : State → State
  pub good : State → Bool
  pub written : State → Text
  pub good-write : (s : State) (t : Text) → good (write s t) ≡ true → good s ≡ true
  pub good-flush : (s : State) → good (flush s) ≡ true → good s ≡ true
  pub written-write :
      (s : State) (t : Text) → good (write s t) ≡ true → written (write s t) ≡ written s ++ t
  pub written-flush : (s : State) → good (flush s) ≡ true → written (flush s) ≡ written s

-- The output stays good.
pub record IsReliable (out : Ostream) : Type 0 where
  pub write : (s : out.State) (t : Text) → out.good s ≡ true → out.good (out.write s t) ≡ true
  pub flush : (s : out.State) → out.good s ≡ true → out.good (out.flush s) ≡ true

abbrev pub line_end : ℕ
line_end = b'\n'

module _ (j : JsonLibrary) (out : Ostream) where
  -- `JsonlOutputRecordSink::Emit`
  unfoldable pub emit : out.State → OutputRecord → out.State
  emit s r = out.flush (out.write (out.write s (to_json_line j r)) (line_end ∷ []))

  -- The records that a call emits, one after the other.
  unfoldable pub emit_all : out.State → List OutputRecord → out.State
  unfolding emit
  emit_all s [] = s
  emit_all s (r ∷ rs) = emit_all (emit s r) rs

  -- The text of records, a line for each.
  abbrev pub lines : List OutputRecord → Text
  lines [] = []
  lines (r ∷ rs) = (to_json_line j r ++ (line_end ∷ [])) ++ lines rs

  good-emit : (s : out.State) (r : OutputRecord) → out.good (emit s r) ≡ true → out.good s ≡ true
  unfolding emit
  good-emit s r h = out.good-write _ _ (out.good-write _ _ (out.good-flush _ h))

  written-emit :
      (s : out.State) (r : OutputRecord)
      → out.good (emit s r) ≡ true
      → out.written (emit s r) ≡ out.written s ++ (to_json_line j r ++ (line_end ∷ []))
  unfolding emit
  written-emit s r h =
      let line = to_json_line j r in
      let b = out.good-flush (out.write (out.write s line) (line_end ∷ [])) h in
      let a = out.good-write (out.write s line) (line_end ∷ []) b in
      out.written-flush (out.write (out.write s line) (line_end ∷ [])) h
      ∙ out.written-write (out.write s line) (line_end ∷ []) b
      ∙ ap (λ t. t ++ (line_end ∷ [])) (out.written-write s line a)
      ∙ append_assoc (out.written s) line (line_end ∷ [])

  pub good-emit_all :
      (s : out.State) (rs : List OutputRecord) → out.good (emit_all s rs) ≡ true → out.good s ≡ true
  unfolding emit_all
  good-emit_all s [] h = h
  good-emit_all s (r ∷ rs) h = good-emit s r (good-emit_all (emit s r) rs h)

  -- A stream that is good after all records has taken a line for each, in order.
  pub written-emit_all :
      (s : out.State) (rs : List OutputRecord)
      → out.good (emit_all s rs) ≡ true
      → out.written (emit_all s rs) ≡ out.written s ++ lines rs
  unfolding emit_all
  written-emit_all s [] h = sym (append-nil (out.written s))
  written-emit_all s (r ∷ rs) h =
      written-emit_all (emit s r) rs h
      ∙ ap (λ t. t ++ lines rs) (written-emit s r (good-emit_all (emit s r) rs h))
      ∙ append_assoc (out.written s) (to_json_line j r ++ (line_end ∷ [])) (lines rs)

  pub emit_all-nil : (s : out.State) → emit_all s [] ≡ s
  unfolding emit_all
  emit_all-nil s = refl

  pub emit_all-append :
      (s : out.State) (rs qs : List OutputRecord)
      → emit_all s (rs ++ qs) ≡ emit_all (emit_all s rs) qs
  unfolding emit_all
  emit_all-append s [] qs = refl
  emit_all-append s (r ∷ rs) qs = emit_all-append (emit s r) rs qs

-- ===== src/Sink/Vector.antt =====
-- core/output_record_sink.cc: `VectorOutputRecordSink`, the sink of the tests.
use aribcap_dump.Sink.{written-emit_all, lines, emit_all, Ostream}
use aribcap_dump.Json.{JsonLibrary}
use aribcap_dump.Output.{OutputRecord}
use aribcap_dump.Prelude.{ap, append_assoc, ◌∙◌, true, append-nil, sym, ◌≡◌, ◌∷◌, ◌++◌, [], List}

pub record VectorSink : Type 0 where
  pub records : List OutputRecord

unfoldable pub vector_emit : VectorSink → OutputRecord → VectorSink
vector_emit s r = record s { records = s.records ++ (r ∷ []) }

abbrev pub empty_sink : VectorSink
empty_sink = record { records = [] }

unfoldable pub vector_emit_all : VectorSink → List OutputRecord → VectorSink
unfolding vector_emit
vector_emit_all s [] = s
vector_emit_all s (r ∷ rs) = vector_emit_all (vector_emit s r) rs

records-vector_emit_all :
    (s : VectorSink) (rs : List OutputRecord) → (vector_emit_all s rs).records ≡ s.records ++ rs
unfolding vector_emit_all vector_emit
records-vector_emit_all s [] = sym (append-nil s.records)
records-vector_emit_all s (r ∷ rs) =
    records-vector_emit_all (vector_emit s r) rs ∙ append_assoc s.records (r ∷ []) rs

-- The two sinks agree: where the output stream is good after all records, what it has taken is a line
-- for each record that the sink of the tests holds after the same calls, in its order.
written-vector_emit_all :
    (j : JsonLibrary) (out : Ostream) (s : out.State) (rs : List OutputRecord)
    → out.good (emit_all j out s rs) ≡ true
    → out.written (emit_all j out s rs)
      ≡ out.written s ++ lines j out (vector_emit_all empty_sink rs).records
written-vector_emit_all j out s rs h =
    written-emit_all j out s rs h
    ∙ ap (λ qs. out.written s ++ lines j out qs) (sym (records-vector_emit_all empty_sink rs))

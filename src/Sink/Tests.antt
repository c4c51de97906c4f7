-- ===== src/Sink/Tests.antt =====
-- The printed text of two records, cut at its newlines.
use aribcap_dump.Sink.Vector.{vector_emit, empty_sink, vector_emit_all}
use aribcap_dump.Json.{to_json_line}
use aribcap_dump.Sink.Sample.{text_stream}
use aribcap_dump.Json.Sample.{sample}
use aribcap_dump.Sink.{emit_all, line_end}
use aribcap_dump.Sink.Lines.{emit_all_lines, split_lines}
use aribcap_dump.Output.{Text, caption_decode_error, diagnostic}
use aribcap_dump.Prelude.{◌++◌, map, ◌≡◌, ◌∷◌, [], refl}

-- Two records after an older line.
emit_all_lines_example :
    let d = diagnostic (caption_decode_error 291) in
    (added : Text) × (text_stream.written
        (emit_all sample text_stream (65 ∷ line_end ∷ []) (d ∷ d ∷ []))
      ≡ text_stream.written (65 ∷ line_end ∷ []) ++ added)
    × (split_lines [] added ≡ map (to_json_line sample) (d ∷ d ∷ []))
emit_all_lines_example =
    let d = diagnostic (caption_decode_error 291) in
    emit_all_lines sample text_stream (65 ∷ line_end ∷ []) (d ∷ d ∷ []) refl

-- A text that stops without a newline has no line for its last part.
cut : split_lines [] (1 ∷ line_end ∷ line_end ∷ 2 ∷ []) ≡ (1 ∷ []) ∷ [] ∷ []
unfolding split_lines
cut = refl

-- The sink of the tests holds the records in the order of the calls.
kept :
    (vector_emit_all empty_sink
      (diagnostic (caption_decode_error 1) ∷ diagnostic (caption_decode_error 2) ∷ [])).records
    ≡ diagnostic (caption_decode_error 1) ∷ diagnostic (caption_decode_error 2) ∷ []
unfolding vector_emit_all vector_emit
kept = refl

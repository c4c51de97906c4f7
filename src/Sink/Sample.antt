-- ===== src/Sink/Sample.antt =====
-- Output streams for tests.
use aribcap_dump.Output.{Text}
use aribcap_dump.Sink.{IsReliable, Ostream}
use aribcap_dump.Prelude.{true, ◌++◌, refl}

-- It takes everything.
abbrev pub text_stream : Ostream
text_stream = record {
  State = Text;
  write = λ s t. s ++ t;
  flush = λ s. s;
  good = λ s. true;
  written = λ s. s;
  good-write = λ s t h. refl;
  good-flush = λ s h. refl;
  written-write = λ s t h. refl;
  written-flush = λ s h. refl;
}

pub text_stream-IsReliable : IsReliable text_stream
text_stream-IsReliable = record { write = λ s t g. refl; flush = λ s g. refl }

-- ===== src/Output.antt =====
-- core/output_record.hpp: the records that the program prints.
-- Strings are lists of their bytes; a field of a fixed width holds a number.
use aribcap_dump.Prelude.{Bool, Option, List, ℕ}
use aribcap_dump.Prelude.Int.{ℤ}

abbrev pub Text : Type 0
Text = List ℕ

pub record CaptionRecord : Type 0 where
  pub time_ms : Option ℤ
  pub text : Text
  pub ruby : List Text
  pub color : Option Text
  pub language_code : Option Text

pub data EitSection : Type 0 where
  present following : EitSection

pub record EitShortEvent : Type 0 where
  pub event_name : Text
  pub text : Text
  pub language_code : Text

pub record EitGenre : Type 0 where
  pub content_nibble_level_1 : ℕ
  pub content_nibble_level_2 : ℕ
  pub user_nibble_1 : ℕ
  pub user_nibble_2 : ℕ

pub record EitRecord : Type 0 where
  pub start_time_ms : Option ℤ
  pub duration_sec : Option ℕ
  pub short_events : List EitShortEvent
  pub extended_text : Text
  pub genres : List EitGenre
  pub section : EitSection
  pub version : ℕ
  pub service_id : ℕ
  pub transport_stream_id : ℕ
  pub original_network_id : ℕ
  pub event_id : ℕ

pub record PcrDiscontinuity : Type 0 where
  pub pid : ℕ
  pub flagged : Bool

-- `DiagnosticRecordKind`, the one field of a `DiagnosticRecord`.
pub data DiagnosticRecord : Type 0 where
  caption_decode_error : ℕ → DiagnosticRecord
  pcr_discontinuity : PcrDiscontinuity → DiagnosticRecord
  reserved_pmt_pid_collision : ℕ → DiagnosticRecord

pub data OutputRecord : Type 0 where
  caption : CaptionRecord → OutputRecord
  eit : EitRecord → OutputRecord
  diagnostic : DiagnosticRecord → OutputRecord

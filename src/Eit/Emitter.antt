-- ===== src/Eit/Emitter.antt =====
-- core/eit_record_emitter.hpp and core/eit_record_emitter.cc: `EitRecordEmitter`, which prints an EIT
-- only when its version changes. What goes to the sink is returned, in order.
use aribcap_dump.Eit.{parse_eit, DeserializedEit}
use aribcap_dump.Output.{following, present, eit, OutputRecord, EitRecord, EitSection}
use aribcap_dump.Prelude.{
  ◌==◌, some, [], if◌then◌else◌, false, ◌∷◌, true, Bool, List, none, Option, ℕ,
}

pub data EitOutputMode : Type 0 where
  only_present only_following present_following : EitOutputMode

pub record EitRecordEmitter : Type 0 where
  pub output_mode : EitOutputMode
  pub last_emitted_version : Option ℕ

abbrev pub new_eit_emitter : EitOutputMode → EitRecordEmitter
new_eit_emitter mode = record { output_mode = mode; last_emitted_version = none }

unfoldable pub selects : EitOutputMode → EitSection → Bool
selects present_following section = true
selects only_present present = true
selects only_present following = false
selects only_following present = false
selects only_following following = true

unfoldable pub emit_selected : EitOutputMode → List EitRecord → List OutputRecord
emit_selected mode [] = []
emit_selected mode (r ∷ rs) =
    if selects mode r.section then eit r ∷ emit_selected mode rs else emit_selected mode rs

abbrev pub same_version : Option ℕ → ℕ → Bool
same_version none v = false
same_version (some w) v = w == v

unfoldable pub handle_eit :
    EitRecordEmitter → DeserializedEit → EitRecordEmitter × List OutputRecord
unfolding emit_selected
handle_eit e d = if same_version e.last_emitted_version d.version then (e, []) else (
  record e { last_emitted_version = some d.version },
  emit_selected e.output_mode (parse_eit d),
)

-- ===== src/Domain/Integrity/Detection.antt =====
-- domain/_rules_integrity.py: a violation of record integrity was detected.
use claude_code_codex_review.Prelude.{some, [], ◌∷◌, List}
use claude_code_codex_review.Domain.States.{
  State, non_terminal, active_states, resumable_states, minus, state_value,
}
use claude_code_codex_review.Domain.Commands.{Command}
use claude_code_codex_review.Domain.Events.Types.{EventType}
use claude_code_codex_review.Domain.Values.Responses.{Awaiting}
use claude_code_codex_review.Domain.Rules.Kinds.{BlockKind, ProcedureKind}
use claude_code_codex_review.Domain.Rules.Match.{Rule, on}
use claude_code_codex_review.Domain.Workflow.Builders.{same_state}
use claude_code_codex_review.Domain.Integrity.Effects.{
  detect_union_effect, detect_direct_block_effect, detect_halt_gate_effect,
  detect_blocked_union_effect, detect_halt_gate_union_effect,
}
use claude_code_codex_review.Domain.Recovery.Merge.{merge_outcome}

abbrev pub rule_i_d1 : Rule
rule_i_d1 = record {
  rule_id = "I-D1";
  guard = record (on non_terminal EventType.record_integrity_violation_detected) {
    procedures = ProcedureKind.recording_incident ∷ [];
  };
  effect = detect_union_effect [];
  to_state = same_state;
  command_names = ("InvalidateApprovals" ∷ []);
}

abbrev pub rule_i_d2 : Rule
rule_i_d2 = record {
  rule_id = "I-D2";
  guard =
      record (on (minus non_terminal (State.merging ∷ []))
        EventType.record_integrity_violation_detected) {
          procedures = ProcedureKind.cancelling ∷ [];
        };
  effect = detect_union_effect [];
  to_state = same_state;
  command_names = ("InvalidateApprovals" ∷ []);
}

abbrev pub rule_i_d3 : Rule
rule_i_d3 = record {
  rule_id = "I-D3";
  guard = record (on (State.merging ∷ []) EventType.record_integrity_violation_detected) {
    awaiting = some merge_outcome;
  };
  effect = detect_union_effect (Command.query_merge_outcome ∷ []);
  to_state = state_value State.merging;
  command_names = ("InvalidateApprovals" ∷ "QueryMergeOutcome" ∷ []);
}

abbrev pub rule_i_d4 : Rule
rule_i_d4 = record {
  rule_id = "I-D4";
  guard = record (on (State.merging ∷ []) EventType.record_integrity_violation_detected) {
    awaiting = some (some Awaiting.merge_preconditions ∷ []);
  };
  effect = detect_direct_block_effect;
  to_state = state_value State.blocked;
  command_names = ("InvalidateApprovals" ∷ []);
}

abbrev pub rule_i_d5 : Rule
rule_i_d5 = record {
  rule_id = "I-D5";
  guard =
      on (minus active_states (State.merging ∷ [])) EventType.record_integrity_violation_detected;
  effect = detect_halt_gate_effect;
  to_state = "同一state（halt gate）";
  command_names = ("InvalidateApprovals" ∷ "HaltRun" ∷ []);
}

abbrev pub rule_i_d5u : Rule
rule_i_d5u = record {
  rule_id = "I-D5u";
  guard =
      record (on (minus active_states (State.merging ∷ []))
        EventType.record_integrity_violation_detected) {
          procedures = ProcedureKind.halting_for_block ∷ [];
        };
  effect = detect_halt_gate_union_effect;
  to_state = "同一state（halt gate）";
  command_names = ("InvalidateApprovals" ∷ []);
}

abbrev pub rule_i_d6 : Rule
rule_i_d6 = record {
  rule_id = "I-D6";
  guard =
      on (minus resumable_states (State.blocked ∷ []))
        EventType.record_integrity_violation_detected;
  effect = detect_direct_block_effect;
  to_state = state_value State.blocked;
  command_names = ("InvalidateApprovals" ∷ []);
}

abbrev pub rule_i_d7 : Rule
rule_i_d7 = record {
  rule_id = "I-D7";
  guard = record (on (State.blocked ∷ []) EventType.record_integrity_violation_detected) {
    block_kinds = some (BlockKind.record_integrity ∷ []);
  };
  effect = detect_blocked_union_effect;
  to_state = state_value State.blocked;
  command_names = ("InvalidateApprovals" ∷ []);
}

abbrev pub rule_i_d8 : Rule
rule_i_d8 = record {
  rule_id = "I-D8";
  guard = record (on (State.blocked ∷ []) EventType.record_integrity_violation_detected) {
    block_kinds = some (BlockKind.progress ∷ BlockKind.external_dependency ∷ []);
  };
  effect = detect_direct_block_effect;
  to_state = state_value State.blocked;
  command_names = ("InvalidateApprovals" ∷ []);
}

abbrev pub detection_rules : List Rule
detection_rules =
    rule_i_d1 ∷ rule_i_d2 ∷ rule_i_d3 ∷ rule_i_d4 ∷ rule_i_d5 ∷ rule_i_d5u ∷ rule_i_d6 ∷ rule_i_d7
    ∷ rule_i_d8 ∷ []

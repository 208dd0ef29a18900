-- ===== src/Domain/Recovery/Cancel.antt =====
-- domain/_rules_recovery.py: cancellation behind the stop gate, and run failures.
use claude_code_codex_review.Prelude.{some, [], ◌∷◌, List, true, false}
use claude_code_codex_review.Domain.States.{
  State, non_terminal, active_states, resumable_states, minus, state_value,
}
use claude_code_codex_review.Domain.Events.Types.{EventType}
use claude_code_codex_review.Domain.Rules.Kinds.{ProcedureKind, PendingMatch, BindingMatch}
use claude_code_codex_review.Domain.Rules.Match.{Rule, on}
use claude_code_codex_review.Domain.Workflow.Builders.{matched, same_state}
use claude_code_codex_review.Domain.Recovery.Effects.{
  start_cancel, cancelled_effect, cancel_completed_to_incident, fail_to_recovery, keep_effect,
}

abbrev pub rule_c_01 : Rule
rule_c_01 = record {
  rule_id = "C-01";
  guard = record (on (minus non_terminal (State.merging ∷ [])) EventType.user_cancel_verified) {
    pending = matched;
  };
  effect = start_cancel true;
  to_state = "同一state（cancelling）";
  command_names = ("HaltRun" ∷ []);
}

abbrev pub rule_c_02 : Rule
rule_c_02 = record {
  rule_id = "C-02";
  guard = record (on (minus non_terminal (State.merging ∷ [])) EventType.user_cancel_verified) {
    pending = some (PendingMatch.absent ∷ PendingMatch.mismatch ∷ []);
  };
  effect = start_cancel false;
  to_state = "同一state（cancelling）";
  command_names = ("HaltRun" ∷ []);
}

abbrev pub rule_c_03 : Rule
rule_c_03 = record {
  rule_id = "C-03";
  guard = record (on (minus non_terminal (State.merging ∷ [])) EventType.cancellation_completed) {
    procedures = ProcedureKind.cancelling ∷ [];
    binding = some (BindingMatch.match ∷ []);
    deferred_nonempty = some false;
  };
  effect = cancelled_effect;
  to_state = state_value State.cancelled;
  command_names = [];
}

abbrev pub rule_c_04 : Rule
rule_c_04 = record {
  rule_id = "C-04";
  guard = record (on (minus non_terminal (State.merging ∷ [])) EventType.cancellation_completed) {
    procedures = ProcedureKind.cancelling ∷ [];
    binding = some (BindingMatch.match ∷ []);
    deferred_nonempty = some true;
  };
  effect = cancel_completed_to_incident;
  to_state = "同一state（incident記録）";
  command_names = ("RecordIntegrityIncident" ∷ []);
}

abbrev pub rule_c_05 : Rule
rule_c_05 = record {
  rule_id = "C-05";
  guard = record (on (minus non_terminal (State.merging ∷ [])) EventType.cancellation_completed) {
    procedures = ProcedureKind.normal ∷ [];
    binding = some (BindingMatch.match ∷ []);
    deferred_nonempty = some false;
  };
  effect = cancelled_effect;
  to_state = state_value State.cancelled;
  command_names = [];
}

abbrev pub cancel_rules : List Rule
cancel_rules = rule_c_01 ∷ rule_c_02 ∷ rule_c_03 ∷ rule_c_04 ∷ rule_c_05 ∷ []

abbrev pub rule_f_01 : Rule
rule_f_01 = record {
  rule_id = "F-01";
  guard = record (on (minus active_states (State.merging ∷ [])) EventType.run_failed) {
    procedures = ProcedureKind.normal ∷ [];
  };
  effect = fail_to_recovery;
  to_state = state_value State.failed;
  command_names = [];
}

abbrev pub rule_f_02 : Rule
rule_f_02 = record {
  rule_id = "F-02";
  guard = record (on resumable_states EventType.run_failed) {
    procedures = ProcedureKind.normal ∷ [];
  };
  effect = keep_effect;
  to_state = same_state;
  command_names = [];
}

abbrev pub failure_rules : List Rule
failure_rules = rule_f_01 ∷ rule_f_02 ∷ []

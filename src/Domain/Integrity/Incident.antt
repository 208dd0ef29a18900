-- ===== src/Domain/Integrity/Incident.antt =====
-- domain/_rules_integrity.py: incident records, and merge outcomes while violations are deferred.
use claude_code_codex_review.Prelude.{some, [], ◌∷◌, List, true}
use claude_code_codex_review.Domain.States.{State, non_terminal, state_value}
use claude_code_codex_review.Domain.Events.Types.{EventType}
use claude_code_codex_review.Domain.Values.Kinds.{RecordKind, IncidentTarget, IncidentCoverage}
use claude_code_codex_review.Domain.Values.Responses.{Awaiting}
use claude_code_codex_review.Domain.Rules.Kinds.{ProcedureKind}
use claude_code_codex_review.Domain.Rules.Match.{Rule, on}
use claude_code_codex_review.Domain.Workflow.Builders.{matched, absent, same_state}
use claude_code_codex_review.Domain.Integrity.Effects.{
  incident_produced_effect, incident_complete_effect, incident_remainder_effect,
  outcome_to_incident, outcome_failure_to_block, query_again_effect,
}
use claude_code_codex_review.Domain.Recovery.Merge.{merge_outcome}

abbrev pub rule_i_p : Rule
rule_i_p = record {
  rule_id = "I-P";
  guard = record (on non_terminal EventType.record_produced) {
    procedures = ProcedureKind.recording_incident ∷ [];
    pending = absent;
    record_kinds = some (RecordKind.integrity_incident ∷ []);
  };
  effect = incident_produced_effect;
  to_state = same_state;
  command_names = ("PersistRecord" ∷ []);
}

abbrev pub rule_i_vc : Rule
rule_i_vc = record {
  rule_id = "I-VC";
  guard = record (on non_terminal EventType.integrity_incident_verified) {
    procedures = ProcedureKind.recording_incident ∷ [];
    pending = matched;
    coverage = some (IncidentCoverage.complete ∷ []);
  };
  effect = incident_complete_effect;
  to_state = "incident_target（MERGED / CANCELLED）";
  command_names = [];
}

abbrev pub rule_i_vr : Rule
rule_i_vr = record {
  rule_id = "I-VR";
  guard = record (on non_terminal EventType.integrity_incident_verified) {
    procedures = ProcedureKind.recording_incident ∷ [];
    pending = matched;
    coverage = some (IncidentCoverage.remainder ∷ []);
  };
  effect = incident_remainder_effect;
  to_state = "同一state（incident記録の継続）";
  command_names = ("RecordIntegrityIncident" ∷ []);
}

abbrev pub incident_rules : List Rule
incident_rules = rule_i_p ∷ rule_i_vc ∷ rule_i_vr ∷ []

abbrev pub rule_i_46 : Rule
rule_i_46 = record {
  rule_id = "I-46";
  guard = record (on (State.merging ∷ []) EventType.merge_confirmed) {
    awaiting = some merge_outcome;
    pending = absent;
    deferred_nonempty = some true;
  };
  effect = outcome_to_incident IncidentTarget.merged;
  to_state = "MERGING（incident記録）";
  command_names = ("RecordIntegrityIncident" ∷ []);
}

abbrev pub rule_i_47 : Rule
rule_i_47 = record {
  rule_id = "I-47";
  guard = record (on (State.merging ∷ []) EventType.merge_not_executed_confirmed) {
    awaiting = some (some Awaiting.merge_outcome_cancel ∷ []);
    pending = absent;
    deferred_nonempty = some true;
  };
  effect = outcome_to_incident IncidentTarget.cancelled;
  to_state = "MERGING（incident記録）";
  command_names = ("RecordIntegrityIncident" ∷ []);
}

abbrev pub rule_i_48 : Rule
rule_i_48 = record {
  rule_id = "I-48";
  guard = record (on (State.merging ∷ []) EventType.merge_not_executed_confirmed) {
    awaiting = some (some Awaiting.merge_outcome_failure ∷ []);
    pending = absent;
    deferred_nonempty = some true;
  };
  effect = outcome_failure_to_block;
  to_state = state_value State.blocked;
  command_names = [];
}

abbrev pub rule_i_49 : Rule
rule_i_49 = record {
  rule_id = "I-49";
  guard = record (on (State.merging ∷ []) EventType.merge_outcome_unknown) {
    awaiting = some merge_outcome;
    pending = absent;
    deferred_nonempty = some true;
  };
  effect = query_again_effect;
  to_state = state_value State.merging;
  command_names = ("QueryMergeOutcome" ∷ []);
}

abbrev pub merge_integrity_rules : List Rule
merge_integrity_rules = rule_i_46 ∷ rule_i_47 ∷ rule_i_48 ∷ rule_i_49 ∷ []

-- ===== src/Domain/Workflow/Produced.antt =====
-- domain/_rules_workflow.py: a record was written; it is pending until its persistence is verified.
use claude_code_codex_review.Prelude.{some, [], ◌∷◌, List, true}
use claude_code_codex_review.Domain.States.{State, non_terminal}
use claude_code_codex_review.Domain.Events.Types.{EventType}
use claude_code_codex_review.Domain.Values.Kinds.{RecordKind, Progress}
use claude_code_codex_review.Domain.Values.Responses.{Awaiting}
use claude_code_codex_review.Domain.Rules.Kinds.{BlockKind}
use claude_code_codex_review.Domain.Rules.Match.{Rule, on}
use claude_code_codex_review.Domain.Workflow.Effects.{produced_effect}
use claude_code_codex_review.Domain.Workflow.Builders.{absent, same_state, produced_rule}

abbrev pub rule_p_01 : Rule
rule_p_01 =
    produced_rule "P-01" RecordKind.review_result (State.running_review ∷ [])
      (some Awaiting.codex_code_review ∷ [])

abbrev pub rule_p_02 : Rule
rule_p_02 =
    produced_rule "P-02" RecordKind.fix_result (State.applying_fixes ∷ [])
      (some Awaiting.host_apply_findings ∷ [])

abbrev pub rule_p_03 : Rule
rule_p_03 =
    produced_rule "P-03" RecordKind.clarification_question (State.changes_requested ∷ [])
      (some Awaiting.host_apply_findings ∷ [])

abbrev pub rule_p_04 : Rule
rule_p_04 =
    produced_rule "P-04" RecordKind.clarification_answer (State.clarifying_review ∷ [])
      (some Awaiting.codex_clarification ∷ [])

abbrev pub rule_p_05 : Rule
rule_p_05 =
    produced_rule "P-05" RecordKind.decision_request (State.applying_fixes ∷ [])
      (some Awaiting.host_apply_findings ∷ [])

abbrev pub rule_p_06 : Rule
rule_p_06 =
    produced_rule "P-06" RecordKind.decision_request (State.reviewing_decision_request ∷ [])
      (some Awaiting.host_draft_decision_request ∷ some Awaiting.host_revise_decision_request ∷ [])

abbrev pub rule_p_07 : Rule
rule_p_07 =
    produced_rule "P-07" RecordKind.decision_verdict (State.reviewing_decision_request ∷ [])
      (some Awaiting.codex_decision_verdict ∷ [])

abbrev pub rule_p_08 : Rule
rule_p_08 =
    produced_rule "P-08" RecordKind.decision_brief (State.reviewing_decision_request ∷ [])
      (some Awaiting.host_draft_decision_brief ∷ [])

abbrev pub rule_p_09 : Rule
rule_p_09 =
    produced_rule "P-09" RecordKind.decision_record (State.reviewing_decision_request ∷ [])
      (some Awaiting.host_record_decision ∷ [])

abbrev pub rule_p_10 : Rule
rule_p_10 =
    produced_rule "P-10" RecordKind.external_dependency (State.applying_fixes ∷ [])
      (some Awaiting.host_apply_findings ∷ [])

abbrev pub rule_p_11 : Rule
rule_p_11 =
    produced_rule "P-11" RecordKind.permission_block (State.running_review ∷ [])
      (some Awaiting.codex_code_review ∷ [])

abbrev pub rule_p_12 : Rule
rule_p_12 =
    produced_rule "P-12" RecordKind.permission_block (State.applying_fixes ∷ [])
      (some Awaiting.host_apply_findings ∷ [])

abbrev pub rule_p_13 : Rule
rule_p_13 =
    produced_rule "P-13" RecordKind.ci_timeout (State.waiting_ci ∷ [])
      (some Awaiting.ci_result ∷ [])

abbrev pub rule_p_14 : Rule
rule_p_14 =
    produced_rule "P-14" RecordKind.ci_code_failure (State.waiting_ci ∷ [])
      (some Awaiting.ci_result ∷ [])

abbrev pub rule_p_15 : Rule
rule_p_15 =
    produced_rule "P-15" RecordKind.final_report (State.generating_report ∷ [])
      (some Awaiting.report ∷ [])

abbrev pub rule_p_16 : Rule
rule_p_16 =
    produced_rule "P-16" RecordKind.gate_answer (State.ready_for_human_merge ∷ [])
      (some Awaiting.host_answer_gate_question ∷ [])

abbrev pub rule_p_17 : Rule
rule_p_17 =
    produced_rule "P-17" RecordKind.user_decision (State.awaiting_user_decision ∷ [])
      (some Awaiting.user_input_decision ∷ [])

abbrev pub rule_p_18 : Rule
rule_p_18 =
    produced_rule "P-18" RecordKind.gate_question (State.ready_for_human_merge ∷ [])
      (some Awaiting.user_input_gate ∷ [])

abbrev pub rule_p_19 : Rule
rule_p_19 =
    produced_rule "P-19" RecordKind.gate_changes (State.ready_for_human_merge ∷ [])
      (some Awaiting.user_input_gate ∷ [])

abbrev pub rule_p_20 : Rule
rule_p_20 =
    produced_rule "P-20" RecordKind.merge_approval (State.ready_for_human_merge ∷ [])
      (some Awaiting.user_input_gate ∷ [])

abbrev pub rule_p_22 : Rule
rule_p_22 = record {
  rule_id = "P-22";
  guard = record (on (State.blocked ∷ []) EventType.record_produced) {
    pending = absent;
    record_kinds = some (RecordKind.block_intervention ∷ []);
    block_kinds = some (BlockKind.progress ∷ []);
    block_reasons = some (Progress.no_progress ∷ []);
  };
  effect = produced_effect true;
  to_state = same_state;
  command_names = ("PersistRecord" ∷ []);
}

abbrev pub rule_p_23 : Rule
rule_p_23 = record {
  rule_id = "P-23";
  guard = record (on (State.blocked ∷ []) EventType.record_produced) {
    pending = absent;
    record_kinds = some (RecordKind.block_intervention ∷ []);
    block_kinds = some (BlockKind.external_dependency ∷ []);
  };
  effect = produced_effect true;
  to_state = same_state;
  command_names = ("PersistRecord" ∷ []);
}

abbrev pub rule_p_21 : Rule
rule_p_21 = record {
  rule_id = "P-21";
  guard = record (on non_terminal EventType.record_produced) {
    pending = absent;
    record_kinds = some (RecordKind.user_cancel ∷ []);
  };
  effect = produced_effect true;
  to_state = same_state;
  command_names = ("PersistRecord" ∷ []);
}

abbrev pub produced_rules : List Rule
produced_rules =
    rule_p_01 ∷ rule_p_02 ∷ rule_p_03 ∷ rule_p_04 ∷ rule_p_05 ∷ rule_p_06 ∷ rule_p_07 ∷ rule_p_08
    ∷ rule_p_09 ∷ rule_p_10 ∷ rule_p_11 ∷ rule_p_12 ∷ rule_p_13 ∷ rule_p_14 ∷ rule_p_15 ∷ rule_p_16
    ∷ rule_p_17 ∷ rule_p_18 ∷ rule_p_19 ∷ rule_p_20 ∷ rule_p_22 ∷ rule_p_23 ∷ rule_p_21 ∷ []

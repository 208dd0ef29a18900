-- ===== src/Domain/Workflow/Gate.antt =====
-- domain/_rules_workflow.py: user decision, permission, CI, report and merge gate (rows T-20a to T-43).
use claude_code_codex_review.Prelude.{none, some, [], ◌∷◌, List}
use claude_code_codex_review.Domain.States.{State, state_value}
use claude_code_codex_review.Domain.Commands.{Command, CodexPurpose, HostAction}
use claude_code_codex_review.Domain.Events.Types.{EventType}
use claude_code_codex_review.Domain.Values.Responses.{Awaiting}
use claude_code_codex_review.Domain.Rules.Match.{Rule, on}
use claude_code_codex_review.Domain.Rules.Tables.{codex, host, cont_ci_code_failure}
use claude_code_codex_review.Domain.Workflow.Effects.{
  advance, permission_resume_effect, external_dependency_effect,
}
use claude_code_codex_review.Domain.Workflow.Builders.{
  matched, absent, continues, waiting_for, verified_rule, external_rule, response_rule,
  progress_block_rule,
}

abbrev pub rule_t_20a : Rule
rule_t_20a =
    verified_rule "T-20a" EventType.user_decision_verified (State.awaiting_user_decision ∷ [])
      (some State.applying_fixes) (some Awaiting.host_apply_findings)
      (host HostAction.apply_findings) none

abbrev pub rule_t_20b : Rule
rule_t_20b =
    external_rule "T-20b" EventType.user_decision_verified (State.awaiting_user_decision ∷ [])
      Awaiting.user_input_decision (some State.applying_fixes) (some Awaiting.host_apply_findings)
      (host HostAction.apply_findings)

abbrev pub rule_t_21 : Rule
rule_t_21 = record {
  rule_id = "T-21";
  guard = record (on (State.awaiting_tool_permission ∷ []) EventType.permission_resume_validated) {
    awaiting = waiting_for Awaiting.user_input_permission;
    pending = absent;
  };
  effect = permission_resume_effect;
  to_state = "return_to";
  command_names = ("return_to対応の駆動command" ∷ []);
}

abbrev pub rule_t_22 : Rule
rule_t_22 =
    response_rule "T-22" EventType.ci_succeeded (State.waiting_ci ∷ []) Awaiting.ci_result
      (some State.generating_report) (some Awaiting.report) (Command.generate_report ∷ [])

abbrev pub rule_t_23 : Rule
rule_t_23 =
    verified_rule "T-23" EventType.ci_code_failure_verified (State.waiting_ci ∷ [])
      (some State.changes_requested) (some Awaiting.host_apply_findings)
      (Command.invalidate_approvals ∷ host HostAction.apply_findings) continues

abbrev pub rule_t_b23 : Rule
rule_t_b23 =
    progress_block_rule "T-B23" EventType.ci_code_failure_verified (State.waiting_ci ∷ [])
      cont_ci_code_failure (Command.invalidate_approvals ∷ [])

abbrev pub rule_t_24 : Rule
rule_t_24 =
    response_rule "T-24" EventType.ci_infra_failure (State.waiting_ci ∷ []) Awaiting.ci_result none
      (some Awaiting.ci_result) (Command.check_ci ∷ [])

abbrev pub rule_t_25 : Rule
rule_t_25 =
    verified_rule "T-25" EventType.ci_timeout_recorded (State.waiting_ci ∷ []) none none [] none

abbrev pub rule_t_26 : Rule
rule_t_26 = record {
  rule_id = "T-26";
  guard = record (on (State.waiting_ci ∷ []) EventType.head_changed_externally) {
    pending = absent;
  };
  effect =
      advance (some State.running_review) (some Awaiting.codex_code_review)
        (Command.invalidate_approvals ∷ codex CodexPurpose.code_review);
  to_state = state_value State.running_review;
  command_names = ("InvalidateApprovals" ∷ "RequestCodexReview" ∷ []);
}

abbrev pub rule_t_27 : Rule
rule_t_27 =
    verified_rule "T-27" EventType.report_verified (State.generating_report ∷ [])
      (some State.ready_for_human_merge) (some Awaiting.user_input_gate) [] none

abbrev pub rule_t_28 : Rule
rule_t_28 =
    response_rule "T-28" EventType.report_failed (State.generating_report ∷ []) Awaiting.report
      (some State.report_failed) none []

abbrev pub rule_t_29a : Rule
rule_t_29a =
    verified_rule "T-29a" EventType.gate_question_verified (State.ready_for_human_merge ∷ []) none
      (some Awaiting.host_answer_gate_question) (host HostAction.answer_gate_question) none

abbrev pub rule_t_29b : Rule
rule_t_29b =
    external_rule "T-29b" EventType.gate_question_verified (State.ready_for_human_merge ∷ [])
      Awaiting.user_input_gate none (some Awaiting.host_answer_gate_question)
      (host HostAction.answer_gate_question)

abbrev pub rule_t_30 : Rule
rule_t_30 =
    verified_rule "T-30" EventType.gate_answer_verified (State.ready_for_human_merge ∷ []) none
      (some Awaiting.user_input_gate) [] none

abbrev pub rule_t_31a : Rule
rule_t_31a =
    verified_rule "T-31a" EventType.gate_changes_verified (State.ready_for_human_merge ∷ [])
      (some State.changes_requested) (some Awaiting.host_apply_findings)
      (Command.invalidate_approvals ∷ host HostAction.apply_findings) none

abbrev pub rule_t_31b : Rule
rule_t_31b =
    external_rule "T-31b" EventType.gate_changes_verified (State.ready_for_human_merge ∷ [])
      Awaiting.user_input_gate (some State.changes_requested) (some Awaiting.host_apply_findings)
      (Command.invalidate_approvals ∷ host HostAction.apply_findings)

abbrev pub rule_t_33 : Rule
rule_t_33 = record {
  rule_id = "T-33";
  guard = record (on (State.ready_for_human_merge ∷ []) EventType.head_changed_externally) {
    pending = absent;
  };
  effect =
      advance (some State.running_review) (some Awaiting.codex_code_review)
        (Command.invalidate_approvals ∷ codex CodexPurpose.code_review);
  to_state = state_value State.running_review;
  command_names = ("InvalidateApprovals" ∷ "RequestCodexReview" ∷ []);
}

abbrev pub rule_t_43 : Rule
rule_t_43 = record {
  rule_id = "T-43";
  guard = record (on (State.applying_fixes ∷ []) EventType.external_dependency_verified) {
    pending = matched;
  };
  effect = external_dependency_effect;
  to_state = state_value State.blocked;
  command_names = [];
}

abbrev pub gate_rules : List Rule
gate_rules =
    rule_t_20a ∷ rule_t_20b ∷ rule_t_21 ∷ rule_t_22 ∷ rule_t_23 ∷ rule_t_b23 ∷ rule_t_24 ∷ rule_t_25
    ∷ rule_t_26 ∷ rule_t_27 ∷ rule_t_28 ∷ rule_t_29a ∷ rule_t_29b ∷ rule_t_30 ∷ rule_t_31a
    ∷ rule_t_31b ∷ rule_t_33 ∷ rule_t_43 ∷ []

-- ===== src/Domain/Rules/Tables.antt =====
-- The finite tables of domain/_ruledefs.py and domain/_rules_workflow.py.
use claude_code_codex_review.Prelude.{Option, none, some, List, [], ◌∷◌, String}
use claude_code_codex_review.Domain.States.{State}
use claude_code_codex_review.Domain.Commands.{Command, CodexPurpose, HostAction}
use claude_code_codex_review.Domain.Events.Types.{EventType}
use claude_code_codex_review.Domain.Values.Kinds.{Budget}
use claude_code_codex_review.Domain.Values.Responses.{Awaiting}
use claude_code_codex_review.Domain.Values.Blocks.{BlockedContinuation}

abbrev pub codex : CodexPurpose → List Command
codex purpose = Command.request_codex_review purpose ∷ []

abbrev pub host : HostAction → List Command
host action = Command.request_host_action action ∷ []

-- `AWAITING_COMMANDS[awaiting]`.
unfoldable pub awaiting_commands : Awaiting → List Command
awaiting_commands Awaiting.codex_code_review = codex CodexPurpose.code_review
awaiting_commands Awaiting.codex_clarification = codex CodexPurpose.clarification
awaiting_commands Awaiting.codex_decision_verdict = codex CodexPurpose.decision_verdict
awaiting_commands Awaiting.host_apply_findings = host HostAction.apply_findings
awaiting_commands Awaiting.host_draft_decision_request = host HostAction.draft_decision_request
awaiting_commands Awaiting.host_draft_decision_brief = host HostAction.draft_decision_brief
awaiting_commands Awaiting.host_record_decision = host HostAction.record_decision
awaiting_commands Awaiting.host_revise_decision_request = host HostAction.revise_decision_request
awaiting_commands Awaiting.host_answer_gate_question = host HostAction.answer_gate_question
awaiting_commands Awaiting.ci_result = Command.check_ci ∷ []
awaiting_commands Awaiting.report = Command.generate_report ∷ []
awaiting_commands Awaiting.merge_preconditions = Command.verify_merge_preconditions ∷ []
awaiting_commands Awaiting.merge_outcome_execute = Command.query_merge_outcome ∷ []
awaiting_commands Awaiting.merge_outcome_cancel = Command.query_merge_outcome ∷ []
awaiting_commands Awaiting.merge_outcome_failure = Command.query_merge_outcome ∷ []
awaiting_commands Awaiting.user_input_decision = []
awaiting_commands Awaiting.user_input_gate = []
awaiting_commands Awaiting.user_input_permission = []

-- `DRIVE_TABLE.get(state)`.
unfoldable pub drive_table : State → Option (List Command × Awaiting)
drive_table State.running_review = some (codex CodexPurpose.code_review, Awaiting.codex_code_review)
drive_table State.changes_requested =
    some (host HostAction.apply_findings, Awaiting.host_apply_findings)
drive_table State.applying_fixes =
    some (host HostAction.apply_findings, Awaiting.host_apply_findings)
drive_table State.clarifying_review =
    some (codex CodexPurpose.clarification, Awaiting.codex_clarification)
drive_table State.reviewing_decision_request =
    some (codex CodexPurpose.decision_verdict, Awaiting.codex_decision_verdict)
drive_table State.generating_report = some (Command.generate_report ∷ [], Awaiting.report)
drive_table _ = none

-- `BUDGET_EVENTS[event_type][0]`.
unfoldable pub budget_events : EventType → Option Budget
budget_events EventType.review_blocking_verified = some Budget.review_round
budget_events EventType.ci_code_failure_verified = some Budget.review_round
budget_events EventType.fix_result_verified = some Budget.review_round
budget_events EventType.clarification_question_verified = some Budget.clarification_turn
budget_events EventType.verdict_resubmit_verified = some Budget.clarification_turn
budget_events _ = none

-- `BLOCKED_CONTINUATIONS`: every continuation that a block can store.
abbrev pub cont_review_blocking : BlockedContinuation
cont_review_blocking = record {
  resume_state = State.changes_requested;
  commands = host HostAction.apply_findings;
  awaiting = some Awaiting.host_apply_findings;
}

abbrev pub cont_clarification : BlockedContinuation
cont_clarification = record {
  resume_state = State.clarifying_review;
  commands = codex CodexPurpose.clarification;
  awaiting = some Awaiting.codex_clarification;
}

abbrev pub cont_fix_result : BlockedContinuation
cont_fix_result = record {
  resume_state = State.running_review;
  commands = codex CodexPurpose.code_review;
  awaiting = some Awaiting.codex_code_review;
}

abbrev pub cont_resubmit : BlockedContinuation
cont_resubmit = record {
  resume_state = State.reviewing_decision_request;
  commands = host HostAction.revise_decision_request;
  awaiting = some Awaiting.host_revise_decision_request;
}

abbrev pub cont_ci_code_failure : BlockedContinuation
cont_ci_code_failure = record {
  resume_state = State.changes_requested;
  commands = Command.invalidate_approvals ∷ host HostAction.apply_findings;
  awaiting = some Awaiting.host_apply_findings;
}

abbrev pub cont_external_dependency : BlockedContinuation
cont_external_dependency = record {
  resume_state = State.applying_fixes;
  commands = host HostAction.apply_findings;
  awaiting = some Awaiting.host_apply_findings;
}

abbrev pub blocked_continuations : List (String × BlockedContinuation)
blocked_continuations =
    ("REVIEW_BLOCKING", cont_review_blocking)
    ∷ ("CLARIFICATION", cont_clarification)
    ∷ ("FIX_RESULT", cont_fix_result)
    ∷ ("RESUBMIT", cont_resubmit)
    ∷ ("CI_CODE_FAILURE", cont_ci_code_failure)
    ∷ ("EXTERNAL_DEPENDENCY", cont_external_dependency)
    ∷ []

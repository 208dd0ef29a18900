-- ===== src/Domain/Workflow/Review.antt =====
-- domain/_rules_workflow.py: review, fix, clarification and decision (rows T-03 to T-19).
use claude_code_codex_review.Prelude.{none, some, [], ◌∷◌, List}
use claude_code_codex_review.Domain.States.{State, state_value}
use claude_code_codex_review.Domain.Commands.{Command, CodexPurpose, HostAction}
use claude_code_codex_review.Domain.Events.Types.{EventType}
use claude_code_codex_review.Domain.Values.Responses.{Awaiting}
use claude_code_codex_review.Domain.Rules.Match.{Rule, on}
use claude_code_codex_review.Domain.Rules.Tables.{
  codex, host, cont_review_blocking, cont_clarification, cont_fix_result, cont_resubmit,
}
use claude_code_codex_review.Domain.Workflow.Effects.{permission_effect}
use claude_code_codex_review.Domain.Workflow.Builders.{
  matched, continues, verified_rule, response_rule, progress_block_rule,
}

abbrev pub rule_t_03 : Rule
rule_t_03 =
    verified_rule "T-03" EventType.review_blocking_verified (State.running_review ∷ [])
      (some State.changes_requested) (some Awaiting.host_apply_findings)
      (host HostAction.apply_findings) continues

abbrev pub rule_t_b03 : Rule
rule_t_b03 =
    progress_block_rule "T-B03" EventType.review_blocking_verified (State.running_review ∷ [])
      cont_review_blocking []

abbrev pub rule_t_04 : Rule
rule_t_04 =
    verified_rule "T-04" EventType.review_approved_verified (State.running_review ∷ [])
      (some State.waiting_ci) (some Awaiting.ci_result) (Command.check_ci ∷ []) none

abbrev pub rule_t_05 : Rule
rule_t_05 = record {
  rule_id = "T-05";
  guard = record (on (State.running_review ∷ []) EventType.tool_permission_blocked) {
    pending = matched;
  };
  effect = permission_effect State.running_review;
  to_state = state_value State.awaiting_tool_permission;
  command_names = [];
}

abbrev pub rule_t_06 : Rule
rule_t_06 =
    response_rule "T-06" EventType.fix_started (State.changes_requested ∷ [])
      Awaiting.host_apply_findings (some State.applying_fixes) (some Awaiting.host_apply_findings)
      []

abbrev pub rule_t_07 : Rule
rule_t_07 =
    verified_rule "T-07" EventType.clarification_question_verified (State.changes_requested ∷ [])
      (some State.clarifying_review) (some Awaiting.codex_clarification)
      (codex CodexPurpose.clarification) continues

abbrev pub rule_t_b07 : Rule
rule_t_b07 =
    progress_block_rule "T-B07" EventType.clarification_question_verified
      (State.changes_requested ∷ []) cont_clarification []

abbrev pub rule_t_08a : Rule
rule_t_08a =
    verified_rule "T-08a" EventType.clarification_confirmed_verified (State.clarifying_review ∷ [])
      (some State.changes_requested) (some Awaiting.host_apply_findings)
      (host HostAction.apply_findings) none

abbrev pub rule_t_08b : Rule
rule_t_08b =
    verified_rule "T-08b" EventType.clarification_revised_verified (State.clarifying_review ∷ [])
      (some State.changes_requested) (some Awaiting.host_apply_findings)
      (host HostAction.apply_findings) none

abbrev pub rule_t_09 : Rule
rule_t_09 =
    verified_rule "T-09" EventType.clarification_withdrawn_verified (State.clarifying_review ∷ [])
      (some State.running_review) (some Awaiting.codex_code_review) (codex CodexPurpose.code_review)
      none

abbrev pub rule_t_10 : Rule
rule_t_10 =
    verified_rule "T-10" EventType.clarification_escalated_verified (State.clarifying_review ∷ [])
      (some State.reviewing_decision_request) (some Awaiting.host_draft_decision_request)
      (host HostAction.draft_decision_request) none

abbrev pub rule_t_11 : Rule
rule_t_11 =
    verified_rule "T-11" EventType.fix_result_verified (State.applying_fixes ∷ [])
      (some State.running_review) (some Awaiting.codex_code_review) (codex CodexPurpose.code_review)
      continues

abbrev pub rule_t_b11 : Rule
rule_t_b11 =
    progress_block_rule "T-B11" EventType.fix_result_verified (State.applying_fixes ∷ [])
      cont_fix_result []

abbrev pub rule_t_12 : Rule
rule_t_12 =
    verified_rule "T-12" EventType.decision_request_verified (State.applying_fixes ∷ [])
      (some State.reviewing_decision_request) (some Awaiting.codex_decision_verdict)
      (codex CodexPurpose.decision_verdict) none

abbrev pub rule_t_13 : Rule
rule_t_13 = record {
  rule_id = "T-13";
  guard = record (on (State.applying_fixes ∷ []) EventType.tool_permission_blocked) {
    pending = matched;
  };
  effect = permission_effect State.applying_fixes;
  to_state = state_value State.awaiting_tool_permission;
  command_names = [];
}

abbrev pub rule_t_14 : Rule
rule_t_14 =
    verified_rule "T-14" EventType.decision_request_verified (State.reviewing_decision_request ∷ [])
      none (some Awaiting.codex_decision_verdict) (codex CodexPurpose.decision_verdict) none

abbrev pub rule_t_15 : Rule
rule_t_15 =
    verified_rule "T-15" EventType.verdict_ask_user_verified (State.reviewing_decision_request ∷ [])
      none (some Awaiting.host_draft_decision_brief) (host HostAction.draft_decision_brief) none

abbrev pub rule_t_16 : Rule
rule_t_16 =
    verified_rule "T-16" EventType.decision_brief_verified (State.reviewing_decision_request ∷ [])
      (some State.awaiting_user_decision) (some Awaiting.user_input_decision) [] none

abbrev pub rule_t_17 : Rule
rule_t_17 =
    verified_rule "T-17" EventType.verdict_proceed_verified (State.reviewing_decision_request ∷ [])
      none (some Awaiting.host_record_decision) (host HostAction.record_decision) none

abbrev pub rule_t_18 : Rule
rule_t_18 =
    verified_rule "T-18" EventType.decision_record_verified (State.reviewing_decision_request ∷ [])
      (some State.applying_fixes) (some Awaiting.host_apply_findings)
      (host HostAction.apply_findings) none

abbrev pub rule_t_19 : Rule
rule_t_19 =
    verified_rule "T-19" EventType.verdict_resubmit_verified (State.reviewing_decision_request ∷ [])
      none (some Awaiting.host_revise_decision_request) (host HostAction.revise_decision_request)
      continues

abbrev pub rule_t_b19 : Rule
rule_t_b19 =
    progress_block_rule "T-B19" EventType.verdict_resubmit_verified
      (State.reviewing_decision_request ∷ []) cont_resubmit []

abbrev pub review_rules : List Rule
review_rules =
    rule_t_03 ∷ rule_t_b03 ∷ rule_t_04 ∷ rule_t_05 ∷ rule_t_06 ∷ rule_t_07 ∷ rule_t_b07 ∷ rule_t_08a
    ∷ rule_t_08b ∷ rule_t_09 ∷ rule_t_10 ∷ rule_t_11 ∷ rule_t_b11 ∷ rule_t_12 ∷ rule_t_13
    ∷ rule_t_14 ∷ rule_t_15 ∷ rule_t_16 ∷ rule_t_17 ∷ rule_t_18 ∷ rule_t_19 ∷ rule_t_b19 ∷ []

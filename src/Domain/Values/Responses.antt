-- ===== src/Domain/Values/Responses.antt =====
-- domain/values.py: the response that an issued command waits for, and the states it may wait in.
use claude_code_codex_review.Prelude.{ℕ, List, [], ◌∷◌, some, ◌≡◌, refl, Eq, enum_eq, get_elem?}
use claude_code_codex_review.Domain.States.{State}

pub data Awaiting : Type 0 where
  codex_code_review codex_clarification codex_decision_verdict host_apply_findings : Awaiting
  host_draft_decision_request host_draft_decision_brief host_record_decision : Awaiting
  host_revise_decision_request host_answer_gate_question ci_result report : Awaiting
  merge_preconditions merge_outcome_execute merge_outcome_cancel merge_outcome_failure : Awaiting
  user_input_decision user_input_gate user_input_permission : Awaiting

abbrev pub awaiting_code : Awaiting → ℕ
awaiting_code Awaiting.codex_code_review = 0
awaiting_code Awaiting.codex_clarification = 1
awaiting_code Awaiting.codex_decision_verdict = 2
awaiting_code Awaiting.host_apply_findings = 3
awaiting_code Awaiting.host_draft_decision_request = 4
awaiting_code Awaiting.host_draft_decision_brief = 5
awaiting_code Awaiting.host_record_decision = 6
awaiting_code Awaiting.host_revise_decision_request = 7
awaiting_code Awaiting.host_answer_gate_question = 8
awaiting_code Awaiting.ci_result = 9
awaiting_code Awaiting.report = 10
awaiting_code Awaiting.merge_preconditions = 11
awaiting_code Awaiting.merge_outcome_execute = 12
awaiting_code Awaiting.merge_outcome_cancel = 13
awaiting_code Awaiting.merge_outcome_failure = 14
awaiting_code Awaiting.user_input_decision = 15
awaiting_code Awaiting.user_input_gate = 16
awaiting_code Awaiting.user_input_permission = 17

abbrev pub all_awaitings : List Awaiting
all_awaitings =
    Awaiting.codex_code_review ∷ Awaiting.codex_clarification ∷ Awaiting.codex_decision_verdict
    ∷ Awaiting.host_apply_findings ∷ Awaiting.host_draft_decision_request
    ∷ Awaiting.host_draft_decision_brief ∷ Awaiting.host_record_decision
    ∷ Awaiting.host_revise_decision_request ∷ Awaiting.host_answer_gate_question
    ∷ Awaiting.ci_result ∷ Awaiting.report ∷ Awaiting.merge_preconditions
    ∷ Awaiting.merge_outcome_execute ∷ Awaiting.merge_outcome_cancel
    ∷ Awaiting.merge_outcome_failure ∷ Awaiting.user_input_decision ∷ Awaiting.user_input_gate
    ∷ Awaiting.user_input_permission ∷ []

pub all_awaitings_lem : (a : Awaiting) → get_elem? all_awaitings (awaiting_code a) ≡ some a
all_awaitings_lem Awaiting.codex_code_review = refl
all_awaitings_lem _ = refl

instance abbrev pub awaiting_eq : Eq Awaiting
awaiting_eq = enum_eq awaiting_code all_awaitings all_awaitings_lem

abbrev pub merge_outcome_awaitings : List Awaiting
merge_outcome_awaitings =
    Awaiting.merge_outcome_execute ∷ Awaiting.merge_outcome_cancel ∷ Awaiting.merge_outcome_failure
    ∷ []

-- `AWAITING_HOME[awaiting]`.
abbrev pub awaiting_home : Awaiting → List State
awaiting_home Awaiting.codex_code_review = State.running_review ∷ []
awaiting_home Awaiting.codex_clarification = State.clarifying_review ∷ []
awaiting_home Awaiting.codex_decision_verdict = State.reviewing_decision_request ∷ []
awaiting_home Awaiting.host_apply_findings = State.changes_requested ∷ State.applying_fixes ∷ []
awaiting_home Awaiting.host_draft_decision_request = State.reviewing_decision_request ∷ []
awaiting_home Awaiting.host_draft_decision_brief = State.reviewing_decision_request ∷ []
awaiting_home Awaiting.host_record_decision = State.reviewing_decision_request ∷ []
awaiting_home Awaiting.host_revise_decision_request = State.reviewing_decision_request ∷ []
awaiting_home Awaiting.host_answer_gate_question = State.ready_for_human_merge ∷ []
awaiting_home Awaiting.ci_result = State.waiting_ci ∷ []
awaiting_home Awaiting.report = State.generating_report ∷ []
awaiting_home Awaiting.merge_preconditions = State.merging ∷ []
awaiting_home Awaiting.merge_outcome_execute = State.merging ∷ []
awaiting_home Awaiting.merge_outcome_cancel = State.merging ∷ []
awaiting_home Awaiting.merge_outcome_failure = State.merging ∷ []
awaiting_home Awaiting.user_input_decision = State.awaiting_user_decision ∷ []
awaiting_home Awaiting.user_input_gate = State.ready_for_human_merge ∷ []
awaiting_home Awaiting.user_input_permission = State.awaiting_tool_permission ∷ []

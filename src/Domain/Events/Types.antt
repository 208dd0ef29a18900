-- ===== src/Domain/Events/Types.antt =====
-- `type(event)`: one value for each event class of domain/events.py.
use claude_code_codex_review.Prelude.{ℕ, List, [], ◌∷◌, some, ◌≡◌, refl, Eq, enum_eq, get_elem?}

pub data EventType : Type 0 where
  record_produced review_blocking_verified review_approved_verified fix_result_verified : EventType
  clarification_question_verified clarification_confirmed_verified : EventType
  clarification_revised_verified clarification_withdrawn_verified : EventType
  clarification_escalated_verified decision_request_verified verdict_ask_user_verified : EventType
  verdict_proceed_verified verdict_resubmit_verified decision_brief_verified : EventType
  decision_record_verified user_decision_verified external_dependency_verified : EventType
  tool_permission_blocked ci_timeout_recorded ci_code_failure_verified report_verified : EventType
  gate_question_verified gate_answer_verified gate_changes_verified : EventType
  merge_approval_verified user_cancel_verified integrity_incident_verified fix_started : EventType
  permission_resume_validated ci_succeeded ci_infra_failure ci_resume_requested : EventType
  report_failed reporter_retry_requested merge_preconditions_ok : EventType
  merge_precondition_mismatch merge_confirmed merge_not_executed_confirmed : EventType
  merge_outcome_unknown head_changed_externally cancellation_completed : EventType
  block_halt_completed record_integrity_violation_detected run_failed resume_validated : EventType
  resume_fallback_required resume_same_head_validated block_resolved_limit_raised : EventType
  block_resolved_intervention integrity_restored_validated integrity_salvage_established : EventType

abbrev pub event_type_code : EventType → ℕ
event_type_code EventType.record_produced = 0
event_type_code EventType.review_blocking_verified = 1
event_type_code EventType.review_approved_verified = 2
event_type_code EventType.fix_result_verified = 3
event_type_code EventType.clarification_question_verified = 4
event_type_code EventType.clarification_confirmed_verified = 5
event_type_code EventType.clarification_revised_verified = 6
event_type_code EventType.clarification_withdrawn_verified = 7
event_type_code EventType.clarification_escalated_verified = 8
event_type_code EventType.decision_request_verified = 9
event_type_code EventType.verdict_ask_user_verified = 10
event_type_code EventType.verdict_proceed_verified = 11
event_type_code EventType.verdict_resubmit_verified = 12
event_type_code EventType.decision_brief_verified = 13
event_type_code EventType.decision_record_verified = 14
event_type_code EventType.user_decision_verified = 15
event_type_code EventType.external_dependency_verified = 16
event_type_code EventType.tool_permission_blocked = 17
event_type_code EventType.ci_timeout_recorded = 18
event_type_code EventType.ci_code_failure_verified = 19
event_type_code EventType.report_verified = 20
event_type_code EventType.gate_question_verified = 21
event_type_code EventType.gate_answer_verified = 22
event_type_code EventType.gate_changes_verified = 23
event_type_code EventType.merge_approval_verified = 24
event_type_code EventType.user_cancel_verified = 25
event_type_code EventType.integrity_incident_verified = 26
event_type_code EventType.fix_started = 27
event_type_code EventType.permission_resume_validated = 28
event_type_code EventType.ci_succeeded = 29
event_type_code EventType.ci_infra_failure = 30
event_type_code EventType.ci_resume_requested = 31
event_type_code EventType.report_failed = 32
event_type_code EventType.reporter_retry_requested = 33
event_type_code EventType.merge_preconditions_ok = 34
event_type_code EventType.merge_precondition_mismatch = 35
event_type_code EventType.merge_confirmed = 36
event_type_code EventType.merge_not_executed_confirmed = 37
event_type_code EventType.merge_outcome_unknown = 38
event_type_code EventType.head_changed_externally = 39
event_type_code EventType.cancellation_completed = 40
event_type_code EventType.block_halt_completed = 41
event_type_code EventType.record_integrity_violation_detected = 42
event_type_code EventType.run_failed = 43
event_type_code EventType.resume_validated = 44
event_type_code EventType.resume_fallback_required = 45
event_type_code EventType.resume_same_head_validated = 46
event_type_code EventType.block_resolved_limit_raised = 47
event_type_code EventType.block_resolved_intervention = 48
event_type_code EventType.integrity_restored_validated = 49
event_type_code EventType.integrity_salvage_established = 50

abbrev pub all_event_types : List EventType
all_event_types =
    EventType.record_produced ∷ EventType.review_blocking_verified
    ∷ EventType.review_approved_verified ∷ EventType.fix_result_verified
    ∷ EventType.clarification_question_verified ∷ EventType.clarification_confirmed_verified
    ∷ EventType.clarification_revised_verified ∷ EventType.clarification_withdrawn_verified
    ∷ EventType.clarification_escalated_verified ∷ EventType.decision_request_verified
    ∷ EventType.verdict_ask_user_verified ∷ EventType.verdict_proceed_verified
    ∷ EventType.verdict_resubmit_verified ∷ EventType.decision_brief_verified
    ∷ EventType.decision_record_verified ∷ EventType.user_decision_verified
    ∷ EventType.external_dependency_verified ∷ EventType.tool_permission_blocked
    ∷ EventType.ci_timeout_recorded ∷ EventType.ci_code_failure_verified ∷ EventType.report_verified
    ∷ EventType.gate_question_verified ∷ EventType.gate_answer_verified
    ∷ EventType.gate_changes_verified ∷ EventType.merge_approval_verified
    ∷ EventType.user_cancel_verified ∷ EventType.integrity_incident_verified ∷ EventType.fix_started
    ∷ EventType.permission_resume_validated ∷ EventType.ci_succeeded ∷ EventType.ci_infra_failure
    ∷ EventType.ci_resume_requested ∷ EventType.report_failed ∷ EventType.reporter_retry_requested
    ∷ EventType.merge_preconditions_ok ∷ EventType.merge_precondition_mismatch
    ∷ EventType.merge_confirmed ∷ EventType.merge_not_executed_confirmed
    ∷ EventType.merge_outcome_unknown ∷ EventType.head_changed_externally
    ∷ EventType.cancellation_completed ∷ EventType.block_halt_completed
    ∷ EventType.record_integrity_violation_detected ∷ EventType.run_failed
    ∷ EventType.resume_validated ∷ EventType.resume_fallback_required
    ∷ EventType.resume_same_head_validated ∷ EventType.block_resolved_limit_raised
    ∷ EventType.block_resolved_intervention ∷ EventType.integrity_restored_validated
    ∷ EventType.integrity_salvage_established ∷ []

pub all_event_types_lem : (a : EventType) → get_elem? all_event_types (event_type_code a) ≡ some a
all_event_types_lem EventType.record_produced = refl
all_event_types_lem _ = refl

instance abbrev pub event_type_eq : Eq EventType
event_type_eq = enum_eq event_type_code all_event_types all_event_types_lem

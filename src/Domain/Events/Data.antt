-- ===== src/Domain/Events/Data.antt =====
-- domain/events.py: the events that the domain receives.
use claude_code_codex_review.Prelude.{Option, none, some, List}
use claude_code_codex_review.Domain.Events.Types.{EventType}
use claude_code_codex_review.Domain.Values.Kinds.{RecordKind}
use claude_code_codex_review.Domain.Values.Opaque.{OpaqueBinding, OpaqueRef}
use claude_code_codex_review.Domain.Values.Records.{
  RecordEvidence, IntegrityEvidenceRef, ProgressReport, BlockResolutionEvidence,
}

pub data PreflightEvent : Type 0 where
  preflight_ok preflight_ng : PreflightEvent

pub data Event : Type 0 where
  record_produced : RecordKind → OpaqueBinding → Event
  review_blocking_verified : RecordEvidence → ProgressReport → Event
  review_approved_verified : RecordEvidence → Event
  fix_result_verified : RecordEvidence → ProgressReport → Event
  clarification_question_verified : RecordEvidence → ProgressReport → Event
  clarification_confirmed_verified : RecordEvidence → Event
  clarification_revised_verified : RecordEvidence → Event
  clarification_withdrawn_verified : RecordEvidence → Event
  clarification_escalated_verified : RecordEvidence → Event
  decision_request_verified : RecordEvidence → Event
  verdict_ask_user_verified : RecordEvidence → Event
  verdict_proceed_verified : RecordEvidence → Event
  verdict_resubmit_verified : RecordEvidence → ProgressReport → Event
  decision_brief_verified : RecordEvidence → Event
  decision_record_verified : RecordEvidence → Event
  user_decision_verified : RecordEvidence → Event
  external_dependency_verified : RecordEvidence → OpaqueRef → Event
  tool_permission_blocked : RecordEvidence → Event
  ci_timeout_recorded : RecordEvidence → Event
  ci_code_failure_verified : RecordEvidence → ProgressReport → Event
  report_verified : RecordEvidence → Event
  gate_question_verified : RecordEvidence → Event
  gate_answer_verified : RecordEvidence → Event
  gate_changes_verified : RecordEvidence → Event
  merge_approval_verified : RecordEvidence → Event
  user_cancel_verified : RecordEvidence → Event
  integrity_incident_verified : RecordEvidence → List OpaqueBinding → Event
  fix_started : Event
  permission_resume_validated : Event
  ci_succeeded : Event
  ci_infra_failure : Event
  ci_resume_requested : Event
  report_failed : Event
  reporter_retry_requested : Event
  merge_preconditions_ok : Event
  merge_precondition_mismatch : Event
  merge_confirmed : Event
  merge_not_executed_confirmed : Event
  merge_outcome_unknown : Event
  head_changed_externally : Event
  cancellation_completed : Option OpaqueBinding → Option OpaqueRef → Event
  block_halt_completed : OpaqueBinding → Event
  record_integrity_violation_detected : IntegrityEvidenceRef → Event
  run_failed : Event
  resume_validated : Event
  resume_fallback_required : Event
  resume_same_head_validated : Event
  block_resolved_limit_raised : BlockResolutionEvidence → Event
  block_resolved_intervention : BlockResolutionEvidence → Event
  integrity_restored_validated : BlockResolutionEvidence → Event
  integrity_salvage_established : BlockResolutionEvidence → Event

-- `type(event)`.
unfoldable pub event_type : Event → EventType
event_type (Event.record_produced _ _) = EventType.record_produced
event_type (Event.review_blocking_verified _ _) = EventType.review_blocking_verified
event_type (Event.review_approved_verified _) = EventType.review_approved_verified
event_type (Event.fix_result_verified _ _) = EventType.fix_result_verified
event_type (Event.clarification_question_verified _ _) = EventType.clarification_question_verified
event_type (Event.clarification_confirmed_verified _) = EventType.clarification_confirmed_verified
event_type (Event.clarification_revised_verified _) = EventType.clarification_revised_verified
event_type (Event.clarification_withdrawn_verified _) = EventType.clarification_withdrawn_verified
event_type (Event.clarification_escalated_verified _) = EventType.clarification_escalated_verified
event_type (Event.decision_request_verified _) = EventType.decision_request_verified
event_type (Event.verdict_ask_user_verified _) = EventType.verdict_ask_user_verified
event_type (Event.verdict_proceed_verified _) = EventType.verdict_proceed_verified
event_type (Event.verdict_resubmit_verified _ _) = EventType.verdict_resubmit_verified
event_type (Event.decision_brief_verified _) = EventType.decision_brief_verified
event_type (Event.decision_record_verified _) = EventType.decision_record_verified
event_type (Event.user_decision_verified _) = EventType.user_decision_verified
event_type (Event.external_dependency_verified _ _) = EventType.external_dependency_verified
event_type (Event.tool_permission_blocked _) = EventType.tool_permission_blocked
event_type (Event.ci_timeout_recorded _) = EventType.ci_timeout_recorded
event_type (Event.ci_code_failure_verified _ _) = EventType.ci_code_failure_verified
event_type (Event.report_verified _) = EventType.report_verified
event_type (Event.gate_question_verified _) = EventType.gate_question_verified
event_type (Event.gate_answer_verified _) = EventType.gate_answer_verified
event_type (Event.gate_changes_verified _) = EventType.gate_changes_verified
event_type (Event.merge_approval_verified _) = EventType.merge_approval_verified
event_type (Event.user_cancel_verified _) = EventType.user_cancel_verified
event_type (Event.integrity_incident_verified _ _) = EventType.integrity_incident_verified
event_type Event.fix_started = EventType.fix_started
event_type Event.permission_resume_validated = EventType.permission_resume_validated
event_type Event.ci_succeeded = EventType.ci_succeeded
event_type Event.ci_infra_failure = EventType.ci_infra_failure
event_type Event.ci_resume_requested = EventType.ci_resume_requested
event_type Event.report_failed = EventType.report_failed
event_type Event.reporter_retry_requested = EventType.reporter_retry_requested
event_type Event.merge_preconditions_ok = EventType.merge_preconditions_ok
event_type Event.merge_precondition_mismatch = EventType.merge_precondition_mismatch
event_type Event.merge_confirmed = EventType.merge_confirmed
event_type Event.merge_not_executed_confirmed = EventType.merge_not_executed_confirmed
event_type Event.merge_outcome_unknown = EventType.merge_outcome_unknown
event_type Event.head_changed_externally = EventType.head_changed_externally
event_type (Event.cancellation_completed _ _) = EventType.cancellation_completed
event_type (Event.block_halt_completed _) = EventType.block_halt_completed
event_type (Event.record_integrity_violation_detected _) =
    EventType.record_integrity_violation_detected
event_type Event.run_failed = EventType.run_failed
event_type Event.resume_validated = EventType.resume_validated
event_type Event.resume_fallback_required = EventType.resume_fallback_required
event_type Event.resume_same_head_validated = EventType.resume_same_head_validated
event_type (Event.block_resolved_limit_raised _) = EventType.block_resolved_limit_raised
event_type (Event.block_resolved_intervention _) = EventType.block_resolved_intervention
event_type (Event.integrity_restored_validated _) = EventType.integrity_restored_validated
event_type (Event.integrity_salvage_established _) = EventType.integrity_salvage_established

-- The `evidence` of an instance of `_VerifiedEvent`.
unfoldable pub verified_evidence : Event → Option RecordEvidence
verified_evidence (Event.review_blocking_verified evidence _) = some evidence
verified_evidence (Event.review_approved_verified evidence) = some evidence
verified_evidence (Event.fix_result_verified evidence _) = some evidence
verified_evidence (Event.clarification_question_verified evidence _) = some evidence
verified_evidence (Event.clarification_confirmed_verified evidence) = some evidence
verified_evidence (Event.clarification_revised_verified evidence) = some evidence
verified_evidence (Event.clarification_withdrawn_verified evidence) = some evidence
verified_evidence (Event.clarification_escalated_verified evidence) = some evidence
verified_evidence (Event.decision_request_verified evidence) = some evidence
verified_evidence (Event.verdict_ask_user_verified evidence) = some evidence
verified_evidence (Event.verdict_proceed_verified evidence) = some evidence
verified_evidence (Event.verdict_resubmit_verified evidence _) = some evidence
verified_evidence (Event.decision_brief_verified evidence) = some evidence
verified_evidence (Event.decision_record_verified evidence) = some evidence
verified_evidence (Event.user_decision_verified evidence) = some evidence
verified_evidence (Event.external_dependency_verified evidence _) = some evidence
verified_evidence (Event.tool_permission_blocked evidence) = some evidence
verified_evidence (Event.ci_timeout_recorded evidence) = some evidence
verified_evidence (Event.ci_code_failure_verified evidence _) = some evidence
verified_evidence (Event.report_verified evidence) = some evidence
verified_evidence (Event.gate_question_verified evidence) = some evidence
verified_evidence (Event.gate_answer_verified evidence) = some evidence
verified_evidence (Event.gate_changes_verified evidence) = some evidence
verified_evidence (Event.merge_approval_verified evidence) = some evidence
verified_evidence (Event.user_cancel_verified evidence) = some evidence
verified_evidence (Event.integrity_incident_verified evidence _) = some evidence
verified_evidence _ = none

-- `type(event).EXPECTED_KIND`.
unfoldable pub expected_kind : Event → Option RecordKind
expected_kind (Event.review_blocking_verified _ _) = some RecordKind.review_result
expected_kind (Event.review_approved_verified _) = some RecordKind.review_result
expected_kind (Event.fix_result_verified _ _) = some RecordKind.fix_result
expected_kind (Event.clarification_question_verified _ _) = some RecordKind.clarification_question
expected_kind (Event.clarification_confirmed_verified _) = some RecordKind.clarification_answer
expected_kind (Event.clarification_revised_verified _) = some RecordKind.clarification_answer
expected_kind (Event.clarification_withdrawn_verified _) = some RecordKind.clarification_answer
expected_kind (Event.clarification_escalated_verified _) = some RecordKind.clarification_answer
expected_kind (Event.decision_request_verified _) = some RecordKind.decision_request
expected_kind (Event.verdict_ask_user_verified _) = some RecordKind.decision_verdict
expected_kind (Event.verdict_proceed_verified _) = some RecordKind.decision_verdict
expected_kind (Event.verdict_resubmit_verified _ _) = some RecordKind.decision_verdict
expected_kind (Event.decision_brief_verified _) = some RecordKind.decision_brief
expected_kind (Event.decision_record_verified _) = some RecordKind.decision_record
expected_kind (Event.user_decision_verified _) = some RecordKind.user_decision
expected_kind (Event.external_dependency_verified _ _) = some RecordKind.external_dependency
expected_kind (Event.tool_permission_blocked _) = some RecordKind.permission_block
expected_kind (Event.ci_timeout_recorded _) = some RecordKind.ci_timeout
expected_kind (Event.ci_code_failure_verified _ _) = some RecordKind.ci_code_failure
expected_kind (Event.report_verified _) = some RecordKind.final_report
expected_kind (Event.gate_question_verified _) = some RecordKind.gate_question
expected_kind (Event.gate_answer_verified _) = some RecordKind.gate_answer
expected_kind (Event.gate_changes_verified _) = some RecordKind.gate_changes
expected_kind (Event.merge_approval_verified _) = some RecordKind.merge_approval
expected_kind (Event.user_cancel_verified _) = some RecordKind.user_cancel
expected_kind (Event.integrity_incident_verified _ _) = some RecordKind.integrity_incident
expected_kind _ = none

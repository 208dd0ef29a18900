-- ===== src/Domain/Recovery/Effects.antt =====
-- domain/_rules_recovery.py: the effects of merge, cancel, failure and resume.
use claude_code_codex_review.Prelude.{
  Option, none, some, List, [], ◌∷◌, Bool, ◌==◌, elem, if◌then◌else◌,
}
use claude_code_codex_review.Domain.States.{State, state_eq, terminal_states}
use claude_code_codex_review.Domain.Commands.{Command, CodexPurpose}
use claude_code_codex_review.Domain.Errors.{ok, ◌>>=◌}
use claude_code_codex_review.Domain.Events.Data.{verified_evidence}
use claude_code_codex_review.Domain.Values.Kinds.{IncidentTarget}
use claude_code_codex_review.Domain.Values.Opaque.{OpaqueBinding}
use claude_code_codex_review.Domain.Values.Responses.{Awaiting}
use claude_code_codex_review.Domain.Values.Records.{PendingRecord}
use claude_code_codex_review.Domain.Values.Blocks.{Procedure, bindings_of}
use claude_code_codex_review.Domain.Values.Machine.{MachineState, bare, make}
use claude_code_codex_review.Domain.Rules.Match.{Effect}
use claude_code_codex_review.Domain.Rules.Tables.{awaiting_commands, drive_table}
use claude_code_codex_review.Domain.Workflow.Effects.{returns, field_of, key_of}

-- The state of a run that starts a fresh review: `MachineState(state=..., awaiting=...)`.
abbrev pub reviewing : MachineState
reviewing = record (bare State.running_review) { awaiting = some Awaiting.codex_code_review }

unfoldable pub fresh_review : Effect
fresh_review ms event =
    returns (make reviewing)
      (Command.invalidate_approvals ∷ Command.request_codex_review CodexPurpose.code_review ∷ [])

unfoldable pub to_merging : Effect
to_merging ms event =
    returns
      (make (record ms {
        state = State.merging;
        awaiting = some Awaiting.merge_preconditions;
        pending_record = none;
      }))
      (Command.verify_merge_preconditions ∷ [])

abbrev pub merge_target : Option State → Option Awaiting → MachineState → MachineState
merge_target none awaiting_after ms = record ms { awaiting = awaiting_after }
merge_target (some to) awaiting_after ms =
    if elem to terminal_states then bare to else record ms { state = to; awaiting = awaiting_after }

unfoldable pub merge_effect : Option State → Option Awaiting → List Command → Effect
merge_effect to awaiting_after commands ms event =
    returns (make (merge_target to awaiting_after ms)) commands

unfoldable pub cancel_query_effect : Effect
cancel_query_effect ms event =
    returns
      (make (record ms { awaiting = some Awaiting.merge_outcome_cancel; pending_record = none }))
      (Command.query_merge_outcome ∷ [])

unfoldable pub same_head_effect : Effect
same_head_effect ms event =
    returns
      (make (record ms {
        state = State.ready_for_human_merge;
        awaiting = some Awaiting.user_input_gate;
      }))
      []

unfoldable pub start_cancel : Bool → Effect
unfolding verified_evidence
start_cancel consume_pending ms event = do
  evidence ← field_of (verified_evidence event)
  returns
      (make (record ms {
        procedure = Procedure.cancelling evidence.binding;
        awaiting = none;
        pending_record = if consume_pending then none else ms.pending_record;
      }))
      (Command.halt_run evidence.binding ∷ [])

unfoldable pub cancelled_effect : Effect
cancelled_effect ms event = returns (make (bare State.cancelled)) []

unfoldable pub cancel_completed_to_incident : Effect
cancel_completed_to_incident ms event =
    returns
      (make (record ms {
        procedure = Procedure.recording_incident IncidentTarget.cancelled ms.pending_record;
        pending_record = none;
      }))
      (Command.record_integrity_incident (bindings_of ms.deferred_integrity) ms.pending_record ∷ [])

unfoldable pub fail_to_recovery : Effect
fail_to_recovery ms event =
    returns (make (record ms { state = State.failed; recovery_to = some ms.state })) []

-- `lambda ms, event: (ms, ())`: no state is built.
unfoldable pub keep_effect : Effect
keep_effect ms event = ok (ms, [])

abbrev pub cancel_attempt : Procedure → Option OpaqueBinding
cancel_attempt (Procedure.cancelling binding) = some binding
cancel_attempt (Procedure.halting_for_block _ binding) = some binding
cancel_attempt _ = none

abbrev pub procedure_audit : Procedure → Option (Option PendingRecord)
procedure_audit (Procedure.recording_incident _ audit) = some audit
procedure_audit _ = none

-- `procedure.attempt_binding`, a field of both classes.
unfoldable pub reissue_halt_for_cancel : Effect
reissue_halt_for_cancel ms event = do
  binding ← field_of (cancel_attempt ms.procedure)
  ok (ms, Command.halt_run binding ∷ [])

unfoldable pub reissue_halt_for_block : Effect
reissue_halt_for_block ms event = do
  binding ← field_of (cancel_attempt ms.procedure)
  ok (ms, Command.halt_run binding ∷ [])

unfoldable pub reissue_incident_request : Effect
reissue_incident_request ms event = do
  audit ← field_of (procedure_audit ms.procedure)
  ok (ms, Command.record_integrity_incident (bindings_of ms.deferred_integrity) audit ∷ [])

unfoldable pub reissue_persist : Effect
reissue_persist ms event = do
  pending ← field_of ms.pending_record
  ok (ms, Command.persist_record pending.kind pending.binding ∷ [])

unfoldable pub resume_pending : Effect
resume_pending ms event = do
  pending ← field_of ms.pending_record
  returns
      (make (record ms {
        state = pending.source_state;
        recovery_to = if pending.source_state == ms.state then ms.recovery_to else none;
      }))
      (Command.persist_record pending.kind pending.binding ∷ [])

-- `recovery_to` as the new state: None would not be a state.
unfoldable pub resume_awaiting_failed : Effect
unfolding awaiting_commands
resume_awaiting_failed ms event = do
  recovery_to ← field_of ms.recovery_to
  made ← make (record ms { state = recovery_to; recovery_to = none })
  awaiting ← key_of ms.awaiting
  ok (made, awaiting_commands awaiting)

unfoldable pub resume_awaiting_live : Effect
unfolding awaiting_commands
resume_awaiting_live ms event = do
  awaiting ← key_of ms.awaiting
  ok (ms, awaiting_commands awaiting)

unfoldable pub resume_drive : Effect
unfolding drive_table
resume_drive ms event = do
  recovery_to ← key_of ms.recovery_to
  (commands, awaiting) ← key_of (drive_table recovery_to)
  returns (make (record ms { state = recovery_to; awaiting = some awaiting; recovery_to = none }))
      commands

unfoldable pub ci_resume_effect : Effect
unfolding awaiting_commands
ci_resume_effect ms event =
    returns (make (record ms { awaiting = some Awaiting.ci_result }))
      (awaiting_commands Awaiting.ci_result)

unfoldable pub reporter_retry_effect : Effect
unfolding awaiting_commands
reporter_retry_effect ms event =
    returns (make (record ms { state = State.generating_report; awaiting = some Awaiting.report }))
      (awaiting_commands Awaiting.report)

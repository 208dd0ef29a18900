-- ===== src/Domain/Integrity/Effects.antt =====
-- domain/_rules_integrity.py: the effects of detection, incident records and block resolution.
use claude_code_codex_review.Prelude.{Option, none, some, List, [], ◌∷◌, ◌++◌, not, elem, keep}
use claude_code_codex_review.Domain.States.{State}
use claude_code_codex_review.Domain.Commands.{Command, CodexPurpose}
use claude_code_codex_review.Domain.Errors.{Error, ok, err, ◌>>=◌}
use claude_code_codex_review.Domain.Events.Data.{Event}
use claude_code_codex_review.Domain.Values.Kinds.{IncidentTarget}
use claude_code_codex_review.Domain.Values.Opaque.{OpaqueBinding, binding_eq}
use claude_code_codex_review.Domain.Values.Records.{IntegrityEvidenceRef}
use claude_code_codex_review.Domain.Values.Blocks.{
  BlockContext, BlockedContinuation, RecordIntegrityBlock, Procedure, bindings_of,
  make_integrity_block, make_halting,
}
use claude_code_codex_review.Domain.Values.Integrity.{canonicalize_integrity}
use claude_code_codex_review.Domain.Values.Machine.{MachineState, bare, make}
use claude_code_codex_review.Domain.Rules.Match.{Effect}
use claude_code_codex_review.Domain.Workflow.Effects.{returns, field_of}
use claude_code_codex_review.Domain.Recovery.Effects.{reviewing}

abbrev pub blocked_by : RecordIntegrityBlock → MachineState
blocked_by block = record (bare State.blocked) {
  block = some (BlockContext.record_integrity block);
}

abbrev pub invalidate : List Command
invalidate = Command.invalidate_approvals ∷ []

-- `event.evidence` of a detection.
abbrev pub detected : Event → Option IntegrityEvidenceRef
detected (Event.record_integrity_violation_detected evidence) = some evidence
detected _ = none

abbrev pub integrity_block : Option BlockContext → Option RecordIntegrityBlock
integrity_block (some (BlockContext.record_integrity block)) = some block
integrity_block _ = none

abbrev pub halting_parts : Procedure → Option (RecordIntegrityBlock × OpaqueBinding)
halting_parts (Procedure.halting_for_block block binding) = some (block, binding)
halting_parts _ = none

abbrev pub incident_parts : Procedure → Option IncidentTarget
incident_parts (Procedure.recording_incident target _) = some target
incident_parts _ = none

unfoldable pub union_deferred : MachineState → IntegrityEvidenceRef → List IntegrityEvidenceRef
union_deferred ms evidence = canonicalize_integrity (ms.deferred_integrity ++ evidence ∷ [])

unfoldable pub detect_union_effect : List Command → Effect
unfolding union_deferred
detect_union_effect extra ms event = do
  evidence ← field_of (detected event)
  returns (make (record ms { deferred_integrity = union_deferred ms evidence }))
      (invalidate ++ extra)

unfoldable pub detect_direct_block_effect : Effect
unfolding make_integrity_block
detect_direct_block_effect ms event = do
  evidence ← field_of (detected event)
  block ← make_integrity_block (evidence ∷ [])
  returns (make (blocked_by block)) invalidate

unfoldable pub detect_halt_gate_effect : Effect
unfolding make_integrity_block make_halting
detect_halt_gate_effect ms event = do
  evidence ← field_of (detected event)
  block ← make_integrity_block (evidence ∷ [])
  procedure ← make_halting block evidence.binding
  returns
      (make (record ms {
        procedure = procedure;
        awaiting = none;
        pending_record = none;
        deferred_integrity = [];
      }))
      (invalidate ++ Command.halt_run evidence.binding ∷ [])

unfoldable pub detect_blocked_union_effect : Effect
unfolding make_integrity_block
detect_blocked_union_effect ms event = do
  evidence ← field_of (detected event)
  block ← field_of (integrity_block ms.block)
  merged ← make_integrity_block (canonicalize_integrity (block.violations ++ evidence ∷ []))
  returns (make (record ms { block = some (BlockContext.record_integrity merged) })) invalidate

unfoldable pub detect_halt_gate_union_effect : Effect
unfolding make_integrity_block make_halting
detect_halt_gate_union_effect ms event = do
  evidence ← field_of (detected event)
  (block, attempt_binding) ← field_of (halting_parts ms.procedure)
  merged ← make_integrity_block (canonicalize_integrity (block.violations ++ evidence ∷ []))
  procedure ← make_halting merged attempt_binding
  returns (make (record ms { procedure = procedure })) invalidate

unfoldable pub incident_produced_effect : Effect
incident_produced_effect ms (Event.record_produced kind binding) =
    returns
      (make (record ms {
        pending_record = some (record { kind = kind; binding = binding; source_state = ms.state });
      }))
      (Command.persist_record kind binding ∷ [])
incident_produced_effect ms _ = err Error.attribute_error

abbrev pub incident_state : IncidentTarget → State
incident_state IncidentTarget.merged = State.merged
incident_state IncidentTarget.cancelled = State.cancelled

unfoldable pub incident_complete_effect : Effect
incident_complete_effect ms event = do
  target ← field_of (incident_parts ms.procedure)
  returns (make (bare (incident_state target))) []

abbrev pub recorded_bindings : Event → Option (List OpaqueBinding)
recorded_bindings (Event.integrity_incident_verified _ recorded) = some recorded
recorded_bindings _ = none

-- `tuple(ref for ref in deferred if ref.binding not in recorded)`.
unfoldable pub not_recorded :
    List OpaqueBinding → List IntegrityEvidenceRef → List IntegrityEvidenceRef
not_recorded recorded = keep (λ ref. not (elem ref.binding recorded))

unfoldable pub incident_remainder_effect : Effect
unfolding not_recorded
incident_remainder_effect ms event = elim ms.procedure [
  | Procedure.recording_incident target audit ↦ do
    recorded ← field_of (recorded_bindings event)
    let remaining = not_recorded recorded ms.deferred_integrity
    returns (make (record ms { pending_record = none; deferred_integrity = remaining }))
        (Command.record_integrity_incident (bindings_of remaining) audit ∷ [])
  | _ ↦ err Error.attribute_error
]

unfoldable pub outcome_to_incident : IncidentTarget → Effect
outcome_to_incident target ms event =
    returns
      (make (record ms { procedure = Procedure.recording_incident target none; awaiting = none }))
      (Command.record_integrity_incident (bindings_of ms.deferred_integrity) none ∷ [])

unfoldable pub outcome_failure_to_block : Effect
unfolding make_integrity_block
outcome_failure_to_block ms event = do
  block ← make_integrity_block ms.deferred_integrity
  returns (make (blocked_by block)) []

-- `lambda ms, event: (ms, (QueryMergeOutcome(),))`.
unfoldable pub query_again_effect : Effect
query_again_effect ms event = ok (ms, Command.query_merge_outcome ∷ [])

unfoldable pub halt_completed_effect : Effect
halt_completed_effect ms event = do
  (block, attempt_binding) ← field_of (halting_parts ms.procedure)
  returns (make (blocked_by block)) []

-- `block.continuation`, a field of two of the three classes.
abbrev pub continuation_of : Option BlockContext → Option BlockedContinuation
continuation_of (some (BlockContext.progress block)) = some block.continuation
continuation_of (some (BlockContext.external_dependency block)) = some block.continuation
continuation_of _ = none

unfoldable pub replay_continuation : Effect
replay_continuation ms event = do
  cont ← field_of (continuation_of ms.block)
  returns (make (record (bare cont.resume_state) { awaiting = cont.awaiting })) cont.commands

unfoldable pub integrity_exit_effect : Effect
integrity_exit_effect ms event =
    returns (make reviewing)
      (Command.invalidate_approvals ∷ Command.request_codex_review CodexPurpose.code_review ∷ [])

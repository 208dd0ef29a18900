-- ===== src/Domain/Rules/Guards.antt =====
-- domain/_ruledefs.py: the guard key is derived by comparisons of opaque values for equality.
use claude_code_codex_review.Prelude.{
  Option, none, some, List, [], ◌∷◌, Bool, true, false, ◌&&◌, not, ◌==◌, elem, all, is_some,
  is_empty, option_eq, list_eq, if◌then◌else◌,
}
use claude_code_codex_review.Domain.Events.Data.{Event, verified_evidence}
use claude_code_codex_review.Domain.Values.Kinds.{
  RecordKind, Progress, Budget, IncidentCoverage, record_kind_eq, progress_eq, budget_eq,
}
use claude_code_codex_review.Domain.Values.Opaque.{
  OpaqueBinding, OpaqueRef, OpaqueSnapshot, OpaqueFingerprint, binding_eq, ref_eq, snapshot_eq,
  fingerprint_eq,
}
use claude_code_codex_review.Domain.Values.Records.{
  PendingRecord, RecordEvidence, IntegrityEvidenceRef, ProgressReport, BlockResolutionEvidence,
}
use claude_code_codex_review.Domain.Values.Blocks.{
  BlockContext, Procedure, RecordIntegrityBlock, bindings_of,
}
use claude_code_codex_review.Domain.Values.Machine.{MachineState}
use claude_code_codex_review.Domain.Rules.Kinds.{
  ProcedureKind, PendingMatch, BindingMatch, BlockKind,
}
use claude_code_codex_review.Domain.Rules.Match.{GuardKey}

unfoldable pub procedure_kind : Procedure → ProcedureKind
procedure_kind Procedure.normal = ProcedureKind.normal
procedure_kind (Procedure.cancelling _) = ProcedureKind.cancelling
procedure_kind (Procedure.halting_for_block _ _) = ProcedureKind.halting_for_block
procedure_kind (Procedure.recording_incident _ _) = ProcedureKind.recording_incident

unfoldable pub pending_vs_evidence : Option PendingRecord → Option RecordEvidence → PendingMatch
pending_vs_evidence none record' = PendingMatch.absent
pending_vs_evidence (some p) none = PendingMatch.mismatch
pending_vs_evidence (some p) (some r) =
    if p.kind == r.kind && p.binding == r.binding then PendingMatch.match else PendingMatch.mismatch

abbrev presence : Option PendingRecord → PendingMatch
presence none = PendingMatch.absent
presence (some _) = PendingMatch.present

-- What the event says of a record: the evidence of a verified event, the record of an intervention,
-- and nothing for any other.
abbrev pub event_record : Event → Option (Option RecordEvidence)
event_record (Event.block_resolved_intervention resolution) = some resolution.evidence_record
event_record event = elim (verified_evidence event) [ none ↦ none | some r ↦ some (some r) ]

unfoldable pub derive_pending : MachineState → Event → PendingMatch
unfolding verified_evidence pending_vs_evidence
derive_pending ms event = elim (event_record event) [
  | none ↦ presence ms.pending_record
  | some evidence ↦ pending_vs_evidence ms.pending_record evidence
]

-- The first violation; `None` stands for the IndexError of an empty tuple, which no block holds.
abbrev pub first_violation : RecordIntegrityBlock → Option IntegrityEvidenceRef
first_violation block = elim block.violations [ [] ↦ none | ref ∷ _ ↦ some ref ]

unfoldable pub block_binding : BlockContext → Option OpaqueBinding
block_binding (BlockContext.progress b) = some b.binding
block_binding (BlockContext.external_dependency b) = some b.binding
block_binding (BlockContext.record_integrity b) = elim (first_violation b) [
  | none ↦ none
  | some ref ↦ some ref.binding
]

unfoldable pub block_head : BlockContext → Option OpaqueRef
block_head (BlockContext.progress b) = some b.head
block_head (BlockContext.external_dependency b) = some b.head
block_head (BlockContext.record_integrity b) = elim (first_violation b) [
  | none ↦ none
  | some ref ↦ some ref.head
]

-- The audit values of a progress block; `None` for the other kinds.
abbrev pub expects_reason : BlockContext → Option Progress
expects_reason (BlockContext.progress b) = some b.reason
expects_reason _ = none

abbrev pub expects_budget : BlockContext → Option Budget
expects_budget (BlockContext.progress b) = some b.budget
expects_budget _ = none

abbrev pub expects_snapshot : BlockContext → Option OpaqueSnapshot
expects_snapshot (BlockContext.progress b) = some b.counter_snapshot
expects_snapshot _ = none

abbrev pub expects_fingerprint : BlockContext → Option OpaqueFingerprint
expects_fingerprint (BlockContext.progress b) = some b.fingerprint
expects_fingerprint _ = none

-- The whole set of violations of an integrity block; `None` for the other kinds.
abbrev pub expects_violations : BlockContext → Option (List OpaqueBinding)
expects_violations (BlockContext.record_integrity b) = some (bindings_of b.violations)
expects_violations _ = none

abbrev to_match : Bool → BindingMatch
to_match true = BindingMatch.match
to_match false = BindingMatch.mismatch

unfoldable pub resolves : BlockContext → BlockResolutionEvidence → Bool
unfolding block_binding block_head
resolves block res =
    some res.target_block_binding == block_binding block
    && (some res.head == block_head block
        && (res.reason == expects_reason block
            && (res.budget == expects_budget block
                && (res.counter_snapshot == expects_snapshot block
                    && (res.fingerprint == expects_fingerprint block
                        && res.violation_bindings == expects_violations block)))))

unfoldable pub resolution_matches : MachineState → BlockResolutionEvidence → BindingMatch
unfolding resolves
resolution_matches ms res = elim ms.block [
  | none ↦ BindingMatch.mismatch
  | some block ↦ to_match (resolves block res)
]

abbrev completes_cancel : Procedure → Option OpaqueBinding → Option OpaqueRef → Bool
completes_cancel (Procedure.cancelling binding) (some attempt) emergency = attempt == binding
completes_cancel (Procedure.cancelling binding) none emergency = false
completes_cancel Procedure.normal attempt emergency = is_some emergency
completes_cancel _ attempt emergency = false

abbrev completes_halt : Procedure → OpaqueBinding → Bool
completes_halt (Procedure.halting_for_block block binding) attempt = attempt == binding
completes_halt _ attempt = false

unfoldable pub derive_binding : MachineState → Event → Option BindingMatch
unfolding resolution_matches
derive_binding ms (Event.cancellation_completed attempt emergency) =
    some (to_match (completes_cancel ms.procedure attempt emergency))
derive_binding ms (Event.block_halt_completed attempt) =
    some (to_match (completes_halt ms.procedure attempt))
derive_binding ms (Event.block_resolved_limit_raised res) = some (resolution_matches ms res)
derive_binding ms (Event.block_resolved_intervention res) = some (resolution_matches ms res)
derive_binding ms (Event.integrity_restored_validated res) = some (resolution_matches ms res)
derive_binding ms (Event.integrity_salvage_established res) = some (resolution_matches ms res)
derive_binding ms _ = none

-- `deferred <= recorded`, as sets of bindings.
abbrev pub covered : List IntegrityEvidenceRef → List OpaqueBinding → Bool
covered deferred recorded = all (λ ref. elem ref.binding recorded) deferred

unfoldable pub derive_coverage : MachineState → Event → Option IncidentCoverage
derive_coverage ms (Event.integrity_incident_verified evidence recorded) = some (
    if covered ms.deferred_integrity recorded
    then IncidentCoverage.complete
    else IncidentCoverage.remainder)
derive_coverage ms _ = none

-- `event.report` of the events that carry a progress report.
unfoldable pub event_report : Event → Option ProgressReport
event_report (Event.review_blocking_verified _ report) = some report
event_report (Event.ci_code_failure_verified _ report) = some report
event_report (Event.fix_result_verified _ report) = some report
event_report (Event.clarification_question_verified _ report) = some report
event_report (Event.verdict_resubmit_verified _ report) = some report
event_report _ = none

abbrev produced_kind : Event → Option RecordKind
produced_kind (Event.record_produced kind _) = some kind
produced_kind _ = none

abbrev pub block_kind_of : Option BlockContext → Option BlockKind
block_kind_of none = none
block_kind_of (some (BlockContext.progress _)) = some BlockKind.progress
block_kind_of (some (BlockContext.external_dependency _)) = some BlockKind.external_dependency
block_kind_of (some (BlockContext.record_integrity _)) = some BlockKind.record_integrity

abbrev pub block_reason_of : Option BlockContext → Option Progress
block_reason_of (some (BlockContext.progress b)) = some b.reason
block_reason_of _ = none

abbrev pub report_progress : Option ProgressReport → Option Progress
report_progress none = none
report_progress (some report) = some report.progress

unfoldable pub derive_guard_key : MachineState → Event → GuardKey
unfolding procedure_kind derive_pending derive_binding derive_coverage event_report
derive_guard_key ms event = record {
  procedure = procedure_kind ms.procedure;
  awaiting = ms.awaiting;
  pending = derive_pending ms event;
  record_kind = produced_kind event;
  progress = report_progress (event_report event);
  deferred_nonempty = not (is_empty ms.deferred_integrity);
  binding = derive_binding ms event;
  block_kind = block_kind_of ms.block;
  block_reason = block_reason_of ms.block;
  coverage = derive_coverage ms event;
  recovery_present = is_some ms.recovery_to;
}

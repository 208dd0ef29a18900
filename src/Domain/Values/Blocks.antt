-- ===== src/Domain/Values/Blocks.antt =====
-- domain/values.py: why a run is blocked, and the procedures that suspend the normal workflow. A
-- class whose `__post_init__` can raise has a `make_` function; no other value of it is built.
use claude_code_codex_review.Prelude.Sort.{collect, sort}
use claude_code_codex_review.Prelude.{
  String, Option, List, [], map, Bool, ◌||◌, not, ◌==◌, string_eq, list_eq, is_empty, elem, length,
  nat_beq,
}
use claude_code_codex_review.Domain.States.{State}
use claude_code_codex_review.Domain.Commands.{Command}
use claude_code_codex_review.Domain.Errors.{Result, ok, ◌>>◌, raise_if}
use claude_code_codex_review.Domain.Values.Codes.{IllegalStateCode}
use claude_code_codex_review.Domain.Values.Kinds.{Progress, Budget, IncidentTarget, progress_eq}
use claude_code_codex_review.Domain.Values.Responses.{Awaiting}
use claude_code_codex_review.Domain.Values.Opaque.{
  OpaqueBinding, OpaqueRef, OpaqueSnapshot, OpaqueFingerprint, binding_eq,
}
use claude_code_codex_review.Domain.Values.Records.{
  PendingRecord, RecordEvidence, IntegrityEvidenceRef,
}

pub record BlockedContinuation : Type 0 where
  pub resume_state : State
  pub commands : List Command
  pub awaiting : Option Awaiting

pub record ProgressBlock : Type 0 where
  pub binding : OpaqueBinding
  pub head : OpaqueRef
  pub continuation : BlockedContinuation
  pub reason : Progress
  pub budget : Budget
  pub counter_snapshot : OpaqueSnapshot
  pub fingerprint : OpaqueFingerprint

pub record ExternalDependencyBlock : Type 0 where
  pub binding : OpaqueBinding
  pub head : OpaqueRef
  pub continuation : BlockedContinuation
  pub evidence : RecordEvidence

pub record RecordIntegrityBlock : Type 0 where
  pub violations : List IntegrityEvidenceRef

pub data BlockContext : Type 0 where
  progress : ProgressBlock → BlockContext
  external_dependency : ExternalDependencyBlock → BlockContext
  record_integrity : RecordIntegrityBlock → BlockContext

pub data Procedure : Type 0 where
  normal : Procedure
  cancelling : (attempt_binding : OpaqueBinding) → Procedure
  halting_for_block : (block : RecordIntegrityBlock) (attempt_binding : OpaqueBinding) → Procedure
  recording_incident : (target : IncidentTarget) (audit : Option PendingRecord) → Procedure

abbrev pub binding_text : IntegrityEvidenceRef → String
binding_text ref = ref.binding.value

-- `tuple(ref.binding for ref in refs)`.
abbrev pub bindings_of : List IntegrityEvidenceRef → List OpaqueBinding
bindings_of = map (λ ref. ref.binding)

unfoldable pub make_progress_block : ProgressBlock → Result ProgressBlock
make_progress_block block = do
  raise_if (block.reason == Progress.continue) IllegalStateCode.progress_block_reason
  ok block

-- `bindings != sorted(bindings) or len(set(bindings)) != len(bindings)`.
abbrev pub out_of_order : List String → Bool
out_of_order bindings =
    not (bindings == sort (λ (s : String). s) bindings)
    || not (nat_beq (length (collect (λ (s : String). s) [] bindings)) (length bindings))

unfoldable pub make_integrity_block : List IntegrityEvidenceRef → Result RecordIntegrityBlock
make_integrity_block violations = do
  raise_if (is_empty violations) IllegalStateCode.integrity_block_empty
  raise_if (out_of_order (map binding_text violations)) IllegalStateCode.integrity_block_order
  ok (record { violations = violations })

unfoldable pub make_halting : RecordIntegrityBlock → OpaqueBinding → Result Procedure
make_halting block attempt_binding = do
  raise_if (not (elem attempt_binding (bindings_of block.violations)))
      IllegalStateCode.halt_attempt_binding
  ok (Procedure.halting_for_block block attempt_binding)

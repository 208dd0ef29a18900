-- ===== src/Domain/Values/Records.antt =====
-- domain/values.py: the records and evidence that events carry and the machine keeps.
use claude_code_codex_review.Prelude.{Option, List}
use claude_code_codex_review.Domain.States.{State}
use claude_code_codex_review.Domain.Values.Kinds.{RecordKind, Progress, Budget}
use claude_code_codex_review.Domain.Values.Opaque.{
  OpaqueBinding, OpaqueRef, OpaqueSnapshot, OpaqueFingerprint,
}

pub record PendingRecord : Type 0 where
  pub kind : RecordKind
  pub binding : OpaqueBinding
  pub source_state : State

pub record RecordEvidence : Type 0 where
  pub kind : RecordKind
  pub binding : OpaqueBinding
  pub ref : OpaqueRef

pub record IntegrityEvidenceRef : Type 0 where
  pub binding : OpaqueBinding
  pub descriptor : OpaqueRef
  pub head : OpaqueRef

pub record ProgressReport : Type 0 where
  pub progress : Progress
  pub head : OpaqueRef
  pub counter_snapshot : OpaqueSnapshot
  pub fingerprint : OpaqueFingerprint

pub record BlockResolutionEvidence : Type 0 where
  pub target_block_binding : OpaqueBinding
  pub head : OpaqueRef
  pub evidence_record : Option RecordEvidence
  pub reason : Option Progress
  pub budget : Option Budget
  pub counter_snapshot : Option OpaqueSnapshot
  pub fingerprint : Option OpaqueFingerprint
  pub violation_bindings : Option (List OpaqueBinding)

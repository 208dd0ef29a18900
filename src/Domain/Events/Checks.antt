-- ===== src/Domain/Events/Checks.antt =====
-- domain/events.py: the `__post_init__` checks. An event that they refuse is never built.
use claude_code_codex_review.Prelude.{
  Option, none, some, List, Bool, true, ◌==◌, not, is_empty, is_none, ◌≡◌, ◌&&◌, ◌||◌, is_some,
}
use claude_code_codex_review.Domain.Errors.{Result, ok, ◌>>◌, refuse_if}
use claude_code_codex_review.Domain.Events.Data.{Event, verified_evidence, expected_kind}
use claude_code_codex_review.Domain.Values.Codes.{IllegalEventCode}
use claude_code_codex_review.Domain.Values.Kinds.{RecordKind, record_kind_eq}
use claude_code_codex_review.Domain.Values.Opaque.{OpaqueBinding}
use claude_code_codex_review.Domain.Values.Records.{RecordEvidence}
use claude_code_codex_review.Domain.Values.Machine.{holds}

-- `_VerifiedEvent.__post_init__`.
unfoldable pub check_evidence : Option RecordKind → Option RecordEvidence → Result (Unit {0})
check_evidence (some expected) (some evidence) =
    refuse_if (not (evidence.kind == expected)) IllegalEventCode.evidence_kind
check_evidence _ _ = ok tt

-- `not violation_bindings`: absent or empty.
abbrev pub no_bindings : Option (List OpaqueBinding) → Bool
no_bindings none = true
no_bindings (some bindings) = is_empty bindings

-- The checks of the events whose class is not a `_VerifiedEvent`.
unfoldable pub check_other : Event → Result (Unit {0})
check_other (Event.cancellation_completed attempt emergency) =
    refuse_if ((is_none attempt && is_none emergency) || (is_some attempt && is_some emergency))
      IllegalEventCode.cancel_completion_origin
check_other (Event.block_resolved_intervention resolution) =
    refuse_if
      (not (holds (λ r. r.kind == RecordKind.block_intervention) resolution.evidence_record))
      IllegalEventCode.intervention_record
check_other (Event.integrity_restored_validated resolution) =
    refuse_if (no_bindings resolution.violation_bindings) IllegalEventCode.integrity_resolution_set
check_other (Event.integrity_salvage_established resolution) =
    refuse_if (no_bindings resolution.violation_bindings) IllegalEventCode.integrity_resolution_set
check_other _ = ok tt

-- The construction of an event.
unfoldable pub make_event : Event → Result Event
make_event event = do
  check_evidence (expected_kind event) (verified_evidence event)
  check_other event
  ok event

-- An event that the program can hold.
abbrev pub IsLegal : Event → Type 0
IsLegal event = make_event event ≡ ok event

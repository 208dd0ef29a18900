-- ===== src/Domain/Values/Machine.antt =====
-- domain/values.py: `MachineState` and the checks of its `__post_init__`, in their order. `make` is
-- the only way in which the program builds a state, `dataclasses.replace` included.
use claude_code_codex_review.Prelude.{
  Option, none, some, List, [], ◌∷◌, Bool, true, false, ◌&&◌, ◌||◌, not, ◌==◌, list_eq, elem,
  is_empty, is_none, is_some,
}
use claude_code_codex_review.Domain.States.{State, state_eq, terminal_states, active_states}
use claude_code_codex_review.Domain.Errors.{Result, ok, ◌>>◌, raise_if}
use claude_code_codex_review.Domain.Values.Codes.{IllegalStateCode}
use claude_code_codex_review.Domain.Values.Kinds.{RecordKind, record_kind_eq}
use claude_code_codex_review.Domain.Values.Responses.{
  Awaiting, awaiting_eq, merge_outcome_awaitings, awaiting_home,
}
use claude_code_codex_review.Domain.Values.Records.{PendingRecord, IntegrityEvidenceRef}
use claude_code_codex_review.Domain.Values.Blocks.{BlockContext, Procedure}
use claude_code_codex_review.Domain.Values.Integrity.{canonicalize_integrity, evidence_eq}

pub record MachineState : Type 0 where
  pub state : State
  pub procedure : Procedure
  pub awaiting : Option Awaiting
  pub pending_record : Option PendingRecord
  pub deferred_integrity : List IntegrityEvidenceRef
  pub return_to : Option State
  pub recovery_to : Option State
  pub block : Option BlockContext

-- `MachineState(state=state)`: every other field at its default.
abbrev pub bare : State → MachineState
bare state = record {
  state = state;
  procedure = Procedure.normal;
  awaiting = none;
  pending_record = none;
  deferred_integrity = [];
  return_to = none;
  recovery_to = none;
  block = none;
}

-- `isinstance(procedure, ...)`.
abbrev pub is_normal : Procedure → Bool
is_normal Procedure.normal = true
is_normal _ = false

abbrev pub is_cancelling : Procedure → Bool
is_cancelling (Procedure.cancelling _) = true
is_cancelling _ = false

abbrev pub is_halting : Procedure → Bool
is_halting (Procedure.halting_for_block _ _) = true
is_halting _ = false

abbrev pub is_recording : Procedure → Bool
is_recording (Procedure.recording_incident _ _) = true
is_recording _ = false

-- `x is not None and test(x)`.
abbrev pub holds {ℓ} : {A : Type ℓ} → (A → Bool) → Option A → Bool
holds test none = false
holds test (some a) = test a

unfoldable pub check_canonical_deferred : MachineState → Result (Unit {0})
check_canonical_deferred ms =
    raise_if (not (ms.deferred_integrity == canonicalize_integrity ms.deferred_integrity))
      IllegalStateCode.deferred_canonical

unfoldable pub check_terminal_bare : MachineState → Result (Unit {0})
check_terminal_bare ms =
    raise_if
      (elem ms.state terminal_states
        && (not (is_normal ms.procedure)
            || (is_some ms.awaiting
                || (is_some ms.pending_record
                    || (not (is_empty ms.deferred_integrity)
                        || (is_some ms.return_to
                            || (is_some ms.recovery_to || is_some ms.block)))))))
      IllegalStateCode.terminal_bare

unfoldable pub check_block_scope : MachineState → Result (Unit {0})
check_block_scope ms = do
  let blocked = ms.state == State.blocked
  raise_if ((is_some ms.block && not blocked) || (is_none ms.block && blocked))
      IllegalStateCode.block_scope
  raise_if (blocked && is_some ms.awaiting) IllegalStateCode.blocked_no_awaiting
  raise_if (blocked && is_halting ms.procedure) IllegalStateCode.blocked_no_halt_gate
  raise_if
      (blocked
        && (is_normal ms.procedure
            && holds
                (λ p.
                  not (elem p.kind (RecordKind.user_cancel ∷ RecordKind.block_intervention ∷ [])))
                ms.pending_record))
      IllegalStateCode.blocked_pending_kind

unfoldable pub check_recovery_scope : MachineState → Result (Unit {0})
check_recovery_scope ms = do
  raise_if (is_some ms.recovery_to && not (ms.state == State.failed))
      IllegalStateCode.recovery_scope
  raise_if (holds (λ s. not (elem s active_states) || s == State.merging) ms.recovery_to)
      IllegalStateCode.recovery_target

unfoldable pub check_return_scope : MachineState → Result (Unit {0})
check_return_scope ms = do
  let waiting = ms.state == State.awaiting_tool_permission
  raise_if ((is_some ms.return_to && not waiting) || (is_none ms.return_to && waiting))
      IllegalStateCode.return_scope
  raise_if
      (holds (λ s. not (elem s (State.running_review ∷ State.applying_fixes ∷ []))) ms.return_to)
      IllegalStateCode.return_target

unfoldable pub check_procedure_shape : MachineState → Result (Unit {0})
check_procedure_shape ms = do
  raise_if (not (is_normal ms.procedure) && is_some ms.awaiting)
      IllegalStateCode.procedure_no_awaiting
  raise_if (is_cancelling ms.procedure && ms.state == State.merging)
      IllegalStateCode.merging_no_cancelling
  raise_if
      (is_halting ms.procedure && (not (elem ms.state active_states) || ms.state == State.merging))
      IllegalStateCode.halt_gate_state
  raise_if (is_halting ms.procedure && is_some ms.pending_record)
      IllegalStateCode.halt_gate_no_pending
  raise_if (is_halting ms.procedure && not (is_empty ms.deferred_integrity))
      IllegalStateCode.halt_gate_no_deferred
  raise_if (is_recording ms.procedure && is_empty ms.deferred_integrity)
      IllegalStateCode.incident_needs_deferred
  raise_if
      (is_recording ms.procedure
        && holds (λ p. not (p.kind == RecordKind.integrity_incident)) ms.pending_record)
      IllegalStateCode.incident_pending_kind

unfoldable pub check_deferred_scope : MachineState → Result (Unit {0})
check_deferred_scope ms =
    raise_if
      (not (is_empty ms.deferred_integrity)
        && (not (is_cancelling ms.procedure || is_recording ms.procedure)
            && not (
                is_normal ms.procedure
                && (ms.state == State.merging
                    && holds (λ a. elem a merge_outcome_awaitings) ms.awaiting))))
      IllegalStateCode.deferred_scope

-- The checks of a pending record that is there.
unfoldable pub check_pending : MachineState → PendingRecord → Result (Unit {0})
check_pending ms p = do
  raise_if (not (ms.state == p.source_state) && not (ms.state == State.failed))
      IllegalStateCode.pending_home
  raise_if (p.kind == RecordKind.integrity_incident && not (is_recording ms.procedure))
      IllegalStateCode.incident_pending_scope
  raise_if (is_some ms.awaiting && not (p.kind == RecordKind.user_cancel))
      IllegalStateCode.pending_awaiting_exclusive
  raise_if
      (ms.state == State.failed
        && (not (p.source_state == State.failed)
            && not (holds (λ s. s == p.source_state) ms.recovery_to)))
      IllegalStateCode.failed_pending_recovery

unfoldable pub check_pending_home : MachineState → Result (Unit {0})
unfolding check_pending
check_pending_home ms = elim ms.pending_record [ none ↦ ok tt | some p ↦ check_pending ms p ]

unfoldable pub check_awaiting : MachineState → Awaiting → Result (Unit {0})
check_awaiting ms a = do
  raise_if (not (elem ms.state (awaiting_home a)) && not (ms.state == State.failed))
      IllegalStateCode.awaiting_home
  raise_if (ms.state == State.failed && not (holds (λ s. elem s (awaiting_home a)) ms.recovery_to))
      IllegalStateCode.failed_awaiting_recovery

unfoldable pub check_awaiting_home : MachineState → Result (Unit {0})
unfolding check_awaiting
check_awaiting_home ms = elim ms.awaiting [ none ↦ ok tt | some a ↦ check_awaiting ms a ]

-- `MachineState(...)`, with `__post_init__`.
unfoldable pub make : MachineState → Result MachineState
make ms = do
  check_canonical_deferred ms
  check_terminal_bare ms
  check_block_scope ms
  check_recovery_scope ms
  check_return_scope ms
  check_procedure_shape ms
  check_deferred_scope ms
  check_pending_home ms
  check_awaiting_home ms
  ok ms

-- ===== src/Domain/Values/Codes.antt =====
-- The codes of `IllegalMachineStateError` (domain/values.py) and `IllegalEventError` (domain/events.py).
use claude_code_codex_review.Prelude.{ℕ, List, [], ◌∷◌, some, ◌≡◌, refl, Eq, enum_eq, get_elem?}

pub data IllegalStateCode : Type 0 where
  progress_block_reason integrity_block_empty integrity_block_order : IllegalStateCode
  halt_attempt_binding deferred_canonical terminal_bare block_scope : IllegalStateCode
  blocked_no_awaiting blocked_no_halt_gate blocked_pending_kind recovery_scope : IllegalStateCode
  recovery_target return_scope return_target procedure_no_awaiting : IllegalStateCode
  merging_no_cancelling halt_gate_state halt_gate_no_pending halt_gate_no_deferred :
      IllegalStateCode
  incident_needs_deferred incident_pending_kind deferred_scope pending_home : IllegalStateCode
  incident_pending_scope pending_awaiting_exclusive failed_pending_recovery : IllegalStateCode
  awaiting_home failed_awaiting_recovery : IllegalStateCode

abbrev pub illegal_state_code_code : IllegalStateCode → ℕ
illegal_state_code_code IllegalStateCode.progress_block_reason = 0
illegal_state_code_code IllegalStateCode.integrity_block_empty = 1
illegal_state_code_code IllegalStateCode.integrity_block_order = 2
illegal_state_code_code IllegalStateCode.halt_attempt_binding = 3
illegal_state_code_code IllegalStateCode.deferred_canonical = 4
illegal_state_code_code IllegalStateCode.terminal_bare = 5
illegal_state_code_code IllegalStateCode.block_scope = 6
illegal_state_code_code IllegalStateCode.blocked_no_awaiting = 7
illegal_state_code_code IllegalStateCode.blocked_no_halt_gate = 8
illegal_state_code_code IllegalStateCode.blocked_pending_kind = 9
illegal_state_code_code IllegalStateCode.recovery_scope = 10
illegal_state_code_code IllegalStateCode.recovery_target = 11
illegal_state_code_code IllegalStateCode.return_scope = 12
illegal_state_code_code IllegalStateCode.return_target = 13
illegal_state_code_code IllegalStateCode.procedure_no_awaiting = 14
illegal_state_code_code IllegalStateCode.merging_no_cancelling = 15
illegal_state_code_code IllegalStateCode.halt_gate_state = 16
illegal_state_code_code IllegalStateCode.halt_gate_no_pending = 17
illegal_state_code_code IllegalStateCode.halt_gate_no_deferred = 18
illegal_state_code_code IllegalStateCode.incident_needs_deferred = 19
illegal_state_code_code IllegalStateCode.incident_pending_kind = 20
illegal_state_code_code IllegalStateCode.deferred_scope = 21
illegal_state_code_code IllegalStateCode.pending_home = 22
illegal_state_code_code IllegalStateCode.incident_pending_scope = 23
illegal_state_code_code IllegalStateCode.pending_awaiting_exclusive = 24
illegal_state_code_code IllegalStateCode.failed_pending_recovery = 25
illegal_state_code_code IllegalStateCode.awaiting_home = 26
illegal_state_code_code IllegalStateCode.failed_awaiting_recovery = 27

abbrev pub illegal_state_code_values : List IllegalStateCode
illegal_state_code_values =
    IllegalStateCode.progress_block_reason ∷ IllegalStateCode.integrity_block_empty
    ∷ IllegalStateCode.integrity_block_order ∷ IllegalStateCode.halt_attempt_binding
    ∷ IllegalStateCode.deferred_canonical ∷ IllegalStateCode.terminal_bare
    ∷ IllegalStateCode.block_scope ∷ IllegalStateCode.blocked_no_awaiting
    ∷ IllegalStateCode.blocked_no_halt_gate ∷ IllegalStateCode.blocked_pending_kind
    ∷ IllegalStateCode.recovery_scope ∷ IllegalStateCode.recovery_target
    ∷ IllegalStateCode.return_scope ∷ IllegalStateCode.return_target
    ∷ IllegalStateCode.procedure_no_awaiting ∷ IllegalStateCode.merging_no_cancelling
    ∷ IllegalStateCode.halt_gate_state ∷ IllegalStateCode.halt_gate_no_pending
    ∷ IllegalStateCode.halt_gate_no_deferred ∷ IllegalStateCode.incident_needs_deferred
    ∷ IllegalStateCode.incident_pending_kind ∷ IllegalStateCode.deferred_scope
    ∷ IllegalStateCode.pending_home ∷ IllegalStateCode.incident_pending_scope
    ∷ IllegalStateCode.pending_awaiting_exclusive ∷ IllegalStateCode.failed_pending_recovery
    ∷ IllegalStateCode.awaiting_home ∷ IllegalStateCode.failed_awaiting_recovery ∷ []

pub illegal_state_code_values_lem :
    (a : IllegalStateCode)
    → get_elem? illegal_state_code_values (illegal_state_code_code a) ≡ some a
illegal_state_code_values_lem IllegalStateCode.progress_block_reason = refl
illegal_state_code_values_lem _ = refl

instance abbrev pub illegal_state_code_eq : Eq IllegalStateCode
illegal_state_code_eq =
    enum_eq illegal_state_code_code illegal_state_code_values illegal_state_code_values_lem

pub data IllegalEventCode : Type 0 where
  evidence_kind cancel_completion_origin intervention_record : IllegalEventCode
  integrity_resolution_set : IllegalEventCode

abbrev pub illegal_event_code_code : IllegalEventCode → ℕ
illegal_event_code_code IllegalEventCode.evidence_kind = 0
illegal_event_code_code IllegalEventCode.cancel_completion_origin = 1
illegal_event_code_code IllegalEventCode.intervention_record = 2
illegal_event_code_code IllegalEventCode.integrity_resolution_set = 3

abbrev pub illegal_event_code_values : List IllegalEventCode
illegal_event_code_values =
    IllegalEventCode.evidence_kind ∷ IllegalEventCode.cancel_completion_origin
    ∷ IllegalEventCode.intervention_record ∷ IllegalEventCode.integrity_resolution_set ∷ []

pub illegal_event_code_values_lem :
    (a : IllegalEventCode)
    → get_elem? illegal_event_code_values (illegal_event_code_code a) ≡ some a
illegal_event_code_values_lem IllegalEventCode.evidence_kind = refl
illegal_event_code_values_lem _ = refl

instance abbrev pub illegal_event_code_eq : Eq IllegalEventCode
illegal_event_code_eq =
    enum_eq illegal_event_code_code illegal_event_code_values illegal_event_code_values_lem

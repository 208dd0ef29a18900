-- ===== src/Domain/Safety/Scenario.antt =====
-- A run with a cancel request, a violation that is detected meanwhile, and its incident record.
use claude_code_codex_review.Prelude.{
  ◌≡◌, refl, elem, keep, all, any, [], ◌∷◌, some, none, option_eq, String,
}
use claude_code_codex_review.Prelude.Sort.{has, setdefault, collect, insert, sort}
use claude_code_codex_review.Prelude.Sort.Canonical.{canonicalize}
use claude_code_codex_review.Domain.States.{State, state_eq}
use claude_code_codex_review.Domain.Commands.{Command}
use claude_code_codex_review.Domain.Errors.{ok}
use claude_code_codex_review.Domain.Events.Data.{
  Event, PreflightEvent, event_type, expected_kind, verified_evidence,
}
use claude_code_codex_review.Domain.Events.Checks.{IsLegal, make_event, check_evidence, check_other}
use claude_code_codex_review.Domain.Values.Kinds.{RecordKind, IncidentTarget}
use claude_code_codex_review.Domain.Values.Responses.{awaiting_eq}
use claude_code_codex_review.Domain.Values.Opaque.{OpaqueBinding, binding_eq, OpaqueRef}
use claude_code_codex_review.Domain.Values.Records.{IntegrityEvidenceRef, RecordEvidence}
use claude_code_codex_review.Domain.Values.Blocks.{Procedure}
use claude_code_codex_review.Domain.Values.Integrity.{canonicalize_integrity}
use claude_code_codex_review.Domain.Values.Machine.{
  MachineState, bare, make, check_canonical_deferred, check_terminal_bare, check_block_scope,
  check_recovery_scope, check_return_scope, check_procedure_shape, check_deferred_scope,
  check_pending_home, check_awaiting_home, check_pending, check_awaiting,
}
use claude_code_codex_review.Domain.Rules.Match.{matches}
use claude_code_codex_review.Domain.Rules.Guards.{
  derive_guard_key, procedure_kind, derive_pending, derive_binding, derive_coverage, event_report,
  pending_vs_evidence,
}
use claude_code_codex_review.Domain.Workflow.Effects.{produced_effect}
use claude_code_codex_review.Domain.Recovery.Effects.{
  reviewing, start_cancel, cancel_completed_to_incident,
}
use claude_code_codex_review.Domain.Integrity.Effects.{
  detect_union_effect, union_deferred, incident_produced_effect, incident_complete_effect,
}
use claude_code_codex_review.Domain.Machine.{
  registry, initialize, transition, select_rule, the_only, indexed,
}
use claude_code_codex_review.Domain.Safety.Transition.{Reachable, started, stepped}

abbrev pub binding : String → OpaqueBinding
binding text = record { value = text }

abbrev pub ref : String → OpaqueRef
ref text = record { value = text }

abbrev pub violation : IntegrityEvidenceRef
violation = record { binding = binding "v-1"; descriptor = ref "d-1"; head = ref "h-1" }

abbrev pub evidence : RecordKind → String → RecordEvidence
evidence kind text = record { kind = kind; binding = binding text; ref = ref "r-1" }

abbrev pub cancel_request : Event
cancel_request = Event.record_produced RecordKind.user_cancel (binding "req-1")

abbrev pub cancel_verified : Event
cancel_verified = Event.user_cancel_verified (evidence RecordKind.user_cancel "req-1")

abbrev pub detected : Event
detected = Event.record_integrity_violation_detected violation

abbrev pub cancel_completed : Event
cancel_completed = Event.cancellation_completed (some (binding "req-1")) none

abbrev pub incident_request : Event
incident_request = Event.record_produced RecordKind.integrity_incident (binding "inc-1")

abbrev pub incident_verified : Event
incident_verified =
    Event.integrity_incident_verified (evidence RecordKind.integrity_incident "inc-1")
      (binding "v-1" ∷ [])

-- The states of the run, one after the other.
abbrev pub requested : MachineState
requested = record reviewing {
  pending_record = some (record {
    kind = RecordKind.user_cancel;
    binding = binding "req-1";
    source_state = State.running_review;
  });
}

abbrev pub cancelling : MachineState
cancelling = record (bare State.running_review) {
  procedure = Procedure.cancelling (binding "req-1");
}

abbrev pub violated : MachineState
violated = record cancelling { deferred_integrity = violation ∷ [] }

abbrev pub recording : MachineState
recording = record (bare State.running_review) {
  procedure = Procedure.recording_incident IncidentTarget.cancelled none;
  deferred_integrity = violation ∷ [];
}

abbrev pub recorded : MachineState
recorded = record recording {
  pending_record = some (record {
    kind = RecordKind.integrity_incident;
    binding = binding "inc-1";
    source_state = State.running_review;
  });
}

pub run :
    (transition reviewing cancel_request
      ≡ ok (requested, Command.persist_record RecordKind.user_cancel (binding "req-1") ∷ []))
    × (transition requested cancel_verified
        ≡ ok (cancelling, Command.halt_run (binding "req-1") ∷ []))
    × (transition cancelling detected ≡ ok (violated, Command.invalidate_approvals ∷ []))
    × (transition violated cancel_completed
        ≡ ok (recording, Command.record_integrity_incident (binding "v-1" ∷ []) none ∷ []))
    × (transition recording incident_request
        ≡ ok
            (recorded, Command.persist_record RecordKind.integrity_incident (binding "inc-1") ∷ []))
    × (transition recorded incident_verified ≡ ok (bare State.cancelled, []))
unfolding transition registry indexed select_rule the_only matches derive_guard_key procedure_kind
    derive_pending derive_binding derive_coverage event_report event_type verified_evidence
    pending_vs_evidence elem keep all any produced_effect make check_canonical_deferred
    check_terminal_bare check_block_scope check_recovery_scope check_return_scope
    check_procedure_shape check_deferred_scope check_pending_home check_awaiting_home check_pending
    check_awaiting canonicalize_integrity canonicalize has setdefault collect insert sort
    start_cancel detect_union_effect union_deferred cancel_completed_to_incident
    incident_produced_effect incident_complete_effect
run = (refl, refl, refl, refl, refl, refl)

pub reviewing_reached : Reachable reviewing
unfolding initialize make check_canonical_deferred check_terminal_bare check_block_scope
    check_recovery_scope check_return_scope check_procedure_shape check_deferred_scope
    check_pending_home check_awaiting_home check_pending check_awaiting canonicalize_integrity
    canonicalize has setdefault collect insert sort elem
reviewing_reached = started PreflightEvent.preflight_ok refl

pub legal :
    IsLegal cancel_request
    × IsLegal cancel_verified
    × IsLegal detected
    × IsLegal cancel_completed
    × IsLegal incident_request
    × IsLegal incident_verified
    × IsLegal Event.run_failed
unfolding make_event check_evidence check_other expected_kind verified_evidence
legal = (refl, refl, refl, refl, refl, refl, refl)

pub requested_reached : Reachable requested
requested_reached = stepped cancel_request reviewing_reached legal.0 run.0

pub cancelling_reached : Reachable cancelling
cancelling_reached = stepped cancel_verified requested_reached legal.1 run.1

pub violated_reached : Reachable violated
violated_reached = stepped detected cancelling_reached legal.2 run.2

pub recording_reached : Reachable recording
recording_reached = stepped cancel_completed violated_reached legal.3 run.3

pub recorded_reached : Reachable recorded
recorded_reached = stepped incident_request recording_reached legal.4 run.4

pub cancelled_reached : Reachable (bare State.cancelled)
cancelled_reached = stepped incident_verified recorded_reached legal.5 run.5

-- ===== src/Domain/Safety/Examples.antt =====
-- The theorems at concrete inputs.
use claude_code_codex_review.Prelude.{
  is_empty, false, ◌≡◌, ◌⊎◌, refl, true, elem, keep, all, any, [], ◌∷◌, some, none, not, ◌&&◌,
  option_eq,
}
use claude_code_codex_review.Prelude.Order.{before}
use claude_code_codex_review.Prelude.Sort.{has, setdefault, collect, insert, sort}
use claude_code_codex_review.Prelude.Sort.Canonical.{canonicalize}
use claude_code_codex_review.Domain.States.{State, state_eq}
use claude_code_codex_review.Domain.Commands.{Command}
use claude_code_codex_review.Domain.Errors.{Error, ok, err}
use claude_code_codex_review.Domain.Events.Data.{
  Event, PreflightEvent, event_type, verified_evidence, expected_kind,
}
use claude_code_codex_review.Domain.Events.Checks.{make_event, check_evidence, check_other}
use claude_code_codex_review.Domain.Values.Kinds.{RecordKind, IncidentTarget}
use claude_code_codex_review.Domain.Values.Responses.{
  Awaiting, awaiting_eq, merge_outcome_awaitings,
}
use claude_code_codex_review.Domain.Values.Opaque.{binding_eq}
use claude_code_codex_review.Domain.Values.Records.{
  IntegrityEvidenceRef, BlockResolutionEvidence, RecordEvidence,
}
use claude_code_codex_review.Domain.Values.Blocks.{
  BlockContext, Procedure, bindings_of, make_integrity_block,
}
use claude_code_codex_review.Domain.Values.Integrity.{canonicalize_integrity}
use claude_code_codex_review.Domain.Values.Machine.{
  MachineState, bare, make, check_canonical_deferred, check_terminal_bare, check_block_scope,
  check_recovery_scope, check_return_scope, check_procedure_shape, check_deferred_scope,
  check_pending_home, check_awaiting_home, check_pending, check_awaiting, is_cancelling,
  is_recording, holds,
}
use claude_code_codex_review.Domain.Rules.Match.{Rule, matches}
use claude_code_codex_review.Domain.Rules.Kinds.{BindingMatch}
use claude_code_codex_review.Domain.Rules.Guards.{
  derive_guard_key, procedure_kind, derive_pending, derive_binding, derive_coverage, event_report,
  pending_vs_evidence, resolves, resolution_matches, block_binding, block_head,
}
use claude_code_codex_review.Domain.Rules.Tables.{awaiting_commands}
use claude_code_codex_review.Domain.Recovery.Effects.{
  reviewing, start_cancel, cancel_completed_to_incident,
}
use claude_code_codex_review.Domain.Recovery.Cancel.{rule_f_01}
use claude_code_codex_review.Domain.Integrity.Effects.{
  detect_union_effect, union_deferred, incident_complete_effect,
}
use claude_code_codex_review.Domain.Validity.{IsValid, Succeeds}
use claude_code_codex_review.Domain.Machine.{registry, transition, select_rule, the_only, indexed}
use claude_code_codex_review.Domain.Safety.Transition.{
  select_rule_unique, transition-total, Reachable, Reachable-IsValid,
}
use claude_code_codex_review.Domain.Safety.Runs.{run_from, run_from-Completes}
use claude_code_codex_review.Domain.Safety.Selection.{transition-fires}
use claude_code_codex_review.Domain.Safety.Invariants.{
  Reachable-bare, Reachable-deferred, Reachable-exclusive,
}
use claude_code_codex_review.Domain.Safety.Violations.{InOrder}
use claude_code_codex_review.Domain.Safety.Kept.{
  canonicalize_integrity-canonical, detection-resolution_matches,
}
use claude_code_codex_review.Domain.Safety.Remainder.{incident_remainder_effect-kept}
use claude_code_codex_review.Domain.Safety.NoLoss.{Keeping}
use claude_code_codex_review.Domain.Safety.Accepted.{detection-accepted}
use claude_code_codex_review.Domain.Safety.RoundTrip.{fail-resume, failed_from}
use claude_code_codex_review.Domain.Recovery.Effects.{merge_effect}
use claude_code_codex_review.Domain.Safety.MergeOnce.{merge-once}
use claude_code_codex_review.Domain.Safety.Scenario.{
  binding, ref, violation, evidence, detected, cancel_request, cancel_verified, cancel_completed,
  requested, cancelling, violated, recorded, reviewing_reached, legal, requested_reached,
  cancelling_reached, violated_reached, cancelled_reached,
}

abbrev merging : MachineState
merging = record (bare State.merging) { awaiting = some Awaiting.merge_preconditions }

executed :
    transition merging Event.merge_preconditions_ok
    ≡ ok (
      record merging { awaiting = some Awaiting.merge_outcome_execute },
      Command.execute_merge ∷ [],
    )
unfolding transition registry indexed select_rule the_only matches derive_guard_key procedure_kind
    derive_pending derive_binding derive_coverage event_report event_type verified_evidence
    pending_vs_evidence elem keep all any merge_effect make check_canonical_deferred
    check_terminal_bare check_block_scope check_recovery_scope check_return_scope
    check_procedure_shape check_deferred_scope check_pending_home check_awaiting_home check_pending
    check_awaiting canonicalize_integrity canonicalize has setdefault collect insert sort
    start_cancel detect_union_effect union_deferred cancel_completed_to_incident
    incident_complete_effect
executed = refl

merge-once_example :
    (Command.execute_merge ∷ [] ≡ Command.execute_merge ∷ [])
    × (some Awaiting.merge_outcome_execute ≡ some Awaiting.merge_outcome_execute)
    × (transition
          (record merging { awaiting = some Awaiting.merge_outcome_execute })
          Event.merge_preconditions_ok
        ≡ err (Error.transition_rejected State.merging (event_type Event.merge_preconditions_ok)))
merge-once_example =
    merge-once merging (record merging { awaiting = some Awaiting.merge_outcome_execute })
      (Command.execute_merge ∷ []) executed

transition-total_example :
    Succeeds (transition violated cancel_completed)
    ⊎ (transition violated cancel_completed
        ≡ err (Error.transition_rejected violated.state (event_type cancel_completed)))
transition-total_example =
    transition-total violated cancel_completed (Reachable-IsValid violated violated_reached) legal.3

select_rule_unique_example :
    (select_rule (indexed (event_type detected)) cancelling detected
      ≡ err (Error.transition_rejected cancelling.state (event_type detected)))
    ⊎ ((rule : Rule) × ((select_rule (indexed (event_type detected)) cancelling detected ≡ ok rule)
          × (matches rule.guard cancelling.state detected (derive_guard_key cancelling detected)
              ≡ true)))
select_rule_unique_example = select_rule_unique cancelling detected

-- The second event is rejected, and the third is accepted in the same state.
run_from-Completes_example :
    (ms : MachineState) × (run_from PreflightEvent.preflight_ok
        (cancel_request ∷ detected ∷ cancel_verified ∷ [])
      ≡ ok ms)
    × IsValid ms
    × Reachable ms
run_from-Completes_example =
    run_from-Completes PreflightEvent.preflight_ok
      (cancel_request ∷ detected ∷ cancel_verified ∷ []) (legal.0, (legal.2, (legal.1, tt)))

Reachable-bare_example : bare State.cancelled ≡ bare State.cancelled
unfolding elem
Reachable-bare_example = Reachable-bare (bare State.cancelled) cancelled_reached refl

Reachable-deferred_example :
    InOrder violated.deferred_integrity
    × ((is_cancelling violated.procedure ≡ true)
        ⊎ ((is_recording violated.procedure ≡ true)
            ⊎ ((violated.procedure ≡ Procedure.normal)
                × ((violated.state ≡ State.merging)
                    × (holds (λ a. elem a merge_outcome_awaitings) violated.awaiting ≡ true)))))
Reachable-deferred_example = Reachable-deferred violated violated_reached refl

Reachable-exclusive_example : RecordKind.user_cancel ≡ RecordKind.user_cancel
Reachable-exclusive_example =
    Reachable-exclusive requested
      (record {
        kind = RecordKind.user_cancel;
        binding = binding "req-1";
        source_state = State.running_review;
      })
      Awaiting.codex_code_review requested_reached refl refl

detection-accepted_example :
    Keeping cancelling violation (binding "v-1") (transition cancelling detected)
unfolding elem
detection-accepted_example =
    detection-accepted cancelling violation (binding "v-1")
      (Reachable-IsValid cancelling cancelling_reached) refl refl

transition-fires_example :
    transition reviewing Event.run_failed ≡ rule_f_01.effect reviewing Event.run_failed
unfolding registry matches derive_guard_key procedure_kind event_type elem keep
transition-fires_example = transition-fires 82 rule_f_01 reviewing Event.run_failed refl refl refl

fail-resume_example :
    (transition reviewing Event.run_failed ≡ ok (failed_from reviewing, []))
    × (transition (failed_from reviewing) Event.resume_validated
        ≡ ok (reviewing, awaiting_commands Awaiting.codex_code_review))
unfolding elem keep
fail-resume_example =
    fail-resume reviewing Awaiting.codex_code_review (Reachable-IsValid reviewing reviewing_reached)
      refl refl refl refl refl

canonicalize_integrity-canonical_example :
    InOrder (canonicalize_integrity (violation ∷ violation ∷ []))
    × ((canonicalize_integrity (canonicalize_integrity (violation ∷ violation ∷ []))
          ≡ canonicalize_integrity (violation ∷ violation ∷ []))
        × (elem (binding "v-1") (bindings_of (canonicalize_integrity (violation ∷ violation ∷ [])))
            ≡ elem (binding "v-1") (bindings_of (violation ∷ violation ∷ []))))
canonicalize_integrity-canonical_example =
    canonicalize_integrity-canonical (violation ∷ violation ∷ []) (binding "v-1")

abbrev later : IntegrityEvidenceRef
later = record { binding = binding "v-2"; descriptor = ref "d-2"; head = ref "h-1" }

-- The incident record names only the second of two deferred violations.
abbrev half_recorded : MachineState
half_recorded = record recorded { deferred_integrity = violation ∷ later ∷ [] }

abbrev inc : RecordEvidence
inc = evidence RecordKind.integrity_incident "inc-1"

half_recorded-IsValid : IsValid half_recorded
unfolding make check_canonical_deferred check_terminal_bare check_block_scope check_recovery_scope
    check_return_scope check_procedure_shape check_deferred_scope check_pending_home
    check_awaiting_home check_pending check_awaiting canonicalize_integrity canonicalize has
    setdefault collect insert sort elem before
half_recorded-IsValid = record { made = refl; block_made = tt; procedure_made = tt }

incident_remainder_effect-kept_example :
    (after : MachineState) × (transition half_recorded
        (Event.integrity_incident_verified inc (binding "v-2" ∷ []))
      ≡ ok (
        after,
        Command.record_integrity_incident (bindings_of after.deferred_integrity) none ∷ [],
      ))
    × (after.procedure ≡ Procedure.recording_incident IncidentTarget.cancelled none)
    × (after.pending_record ≡ none)
    × (elem (binding "v-1") (bindings_of after.deferred_integrity) ≡ (
        elem (binding "v-1") (bindings_of half_recorded.deferred_integrity)
        && not (elem (binding "v-1") (binding "v-2" ∷ []))))
    × (is_empty after.deferred_integrity ≡ false)
unfolding make_event check_evidence check_other expected_kind verified_evidence elem all
incident_remainder_effect-kept_example =
    incident_remainder_effect-kept half_recorded inc (binding "v-2" ∷ []) IncidentTarget.cancelled
      none
      (record {
        kind = RecordKind.integrity_incident;
        binding = binding "inc-1";
        source_state = State.running_review;
      })
      (binding "v-1") half_recorded-IsValid refl refl refl refl refl refl refl

abbrev restored : BlockResolutionEvidence
restored = record {
  target_block_binding = binding "v-1";
  head = ref "h-1";
  evidence_record = none;
  reason = none;
  budget = none;
  counter_snapshot = none;
  fingerprint = none;
  violation_bindings = some (binding "v-1" ∷ []);
}

abbrev blocked : MachineState
blocked = record (bare State.blocked) {
  block = some (BlockContext.record_integrity (record { violations = violation ∷ [] }));
}

blocked-IsValid : IsValid blocked
unfolding make check_canonical_deferred check_terminal_bare check_block_scope check_recovery_scope
    check_return_scope check_procedure_shape check_deferred_scope check_pending_home
    check_awaiting_home check_pending check_awaiting canonicalize_integrity canonicalize has
    setdefault collect insert sort elem make_integrity_block
blocked-IsValid = record { made = refl; block_made = refl; procedure_made = tt }

detection-resolution_matches_example :
    (after : MachineState) × (transition blocked (Event.record_integrity_violation_detected later)
      ≡ ok (after, Command.invalidate_approvals ∷ []))
    × (resolution_matches after restored ≡ BindingMatch.mismatch)
unfolding resolution_matches resolves block_binding block_head elem
detection-resolution_matches_example =
    detection-resolution_matches blocked (record { violations = violation ∷ [] }) later restored
      blocked-IsValid refl refl refl refl refl

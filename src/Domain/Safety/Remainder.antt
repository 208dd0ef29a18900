-- ===== src/Domain/Safety/Remainder.antt =====
-- domain/_rules_integrity.py: an incident record that covers some of the deferred violations.
use claude_code_codex_review.Prelude.{
  is_empty, all, ◌≡◌, refl, ap, ◌∙◌, true, false, elem, keep, List, [], ◌∷◌, arith, some, none,
  Option, subst, not, ◌==◌, ◌&&◌, list_eq, option_eq,
}
use claude_code_codex_review.Domain.Values.Opaque.{OpaqueBinding, binding_eq}
use claude_code_codex_review.Domain.Values.Records.{
  IntegrityEvidenceRef, RecordEvidence, PendingRecord,
}
use claude_code_codex_review.Domain.Values.Blocks.{Procedure, bindings_of}
use claude_code_codex_review.Domain.Values.Machine.{MachineState, make}
use claude_code_codex_review.Domain.Rules.Guards.{
  derive_guard_key, procedure_kind, covered, derive_pending, derive_coverage, derive_binding,
  pending_vs_evidence,
}
use claude_code_codex_review.Domain.Integrity.Effects.{not_recorded, incident_remainder_effect}
use claude_code_codex_review.Domain.States.{state_eq, terminal_states}
use claude_code_codex_review.Domain.Commands.{Command}
use claude_code_codex_review.Domain.Errors.{Error, ok, err}
use claude_code_codex_review.Domain.Events.Data.{Event, event_type, verified_evidence}
use claude_code_codex_review.Domain.Events.Checks.{IsLegal}
use claude_code_codex_review.Domain.Values.Kinds.{IncidentTarget, record_kind_eq}
use claude_code_codex_review.Domain.Rules.Match.{matches}
use claude_code_codex_review.Domain.Workflow.Effects.{returns}
use claude_code_codex_review.Domain.Integrity.Incident.{rule_i_vr}
use claude_code_codex_review.Domain.Validity.{IsValid, Succeeds}
use claude_code_codex_review.Domain.Machine.{registry, transition}
use claude_code_codex_review.Domain.Safety.NoLoss.{returned}
use claude_code_codex_review.Domain.Safety.Selection.{transition-fires}
use claude_code_codex_review.Domain.Safety.Accepted.{effect-Succeeds}

names-left :
    (recorded : List OpaqueBinding) (refs : List IntegrityEvidenceRef) (b : OpaqueBinding)
    → elem b (bindings_of (not_recorded recorded refs))
      ≡ (elem b (bindings_of refs) && not (elem b recorded))
unfolding not_recorded keep elem
names-left recorded [] b = refl
names-left recorded (x ∷ xs) b =
    let rest = names-left recorded xs b in
    let same : b == x.binding ≡ true → elem b recorded ≡ elem x.binding recorded =
      λ e. ap (λ y. elem y recorded) ((binding_eq.beq_iff b x.binding).0 e) in
    ground arith

incident_remainder_lem :
    (ms : MachineState) (evidence : RecordEvidence) (recorded : List OpaqueBinding)
    (target : IncidentTarget) (audit : Option PendingRecord)
    → ms.procedure ≡ Procedure.recording_incident target audit
    → Succeeds (incident_remainder_effect ms (Event.integrity_incident_verified evidence recorded))
    → incident_remainder_effect ms (Event.integrity_incident_verified evidence recorded)
      ≡ ok (
        record ms {
          pending_record = none;
          deferred_integrity = not_recorded recorded ms.deferred_integrity;
        },
        Command.record_integrity_incident
              (bindings_of (not_recorded recorded ms.deferred_integrity))
              audit
            ∷ [],
      )
unfolding incident_remainder_effect
incident_remainder_lem ms evidence recorded target audit p s =
    let left = not_recorded recorded ms.deferred_integrity in
    let e =
      ap
        (λ q. elim q [
          | Procedure.recording_incident target audit ↦
              returns (make (record ms { pending_record = none; deferred_integrity = left }))
                (Command.record_integrity_incident (bindings_of left) audit ∷ [])
          | _ ↦ err Error.attribute_error
        ])
        p in
    e ∙ returned _ _ (subst Succeeds e s)

nothing-left :
    (recorded : List OpaqueBinding) (refs : List IntegrityEvidenceRef)
    → is_empty (not_recorded recorded refs) ≡ covered refs recorded
unfolding not_recorded keep all
nothing-left recorded [] = refl
nothing-left recorded (x ∷ xs) = ground (arith, nothing-left recorded xs)

remainder-matches :
    (ms : MachineState) (evidence : RecordEvidence) (recorded : List OpaqueBinding)
    (target : IncidentTarget) (audit : Option PendingRecord) (pending : PendingRecord)
    → elem ms.state terminal_states ≡ false
    → ms.procedure ≡ Procedure.recording_incident target audit
    → ms.pending_record ≡ some pending
    → pending.kind ≡ evidence.kind
    → pending.binding ≡ evidence.binding
    → covered ms.deferred_integrity recorded ≡ false
    → matches rule_i_vr.guard ms.state
        (Event.integrity_incident_verified evidence recorded)
        (derive_guard_key ms (Event.integrity_incident_verified evidence recorded))
      ≡ true
unfolding matches derive_guard_key procedure_kind derive_pending derive_coverage derive_binding
    pending_vs_evidence verified_evidence event_type elem keep
remainder-matches ms evidence recorded target audit pending t p q k w c =
    let same_kind : pending.kind == evidence.kind ≡ true =
      (record_kind_eq.beq_iff pending.kind evidence.kind).1 k in
    let same_binding : pending.binding == evidence.binding ≡ true =
      (binding_eq.beq_iff pending.binding evidence.binding).1 w in
    rw (p, q, same_kind, same_binding, c) (ground arith)

-- In a valid state that records an incident and is not terminal, a legal report of the pending incident
-- record is verified that does not cover every deferred violation. The report is accepted: the
-- procedure stays and nothing is pending. A violation is deferred afterwards exactly if it was
-- deferred before and is not among the recorded ones, at least one is, and the only command asks for
-- an incident record of exactly the violations that are left.
pub incident_remainder_effect-kept :
    (ms : MachineState) (evidence : RecordEvidence) (recorded : List OpaqueBinding)
    (target : IncidentTarget) (audit : Option PendingRecord) (pending : PendingRecord)
    (b : OpaqueBinding)
    → IsValid ms
    → IsLegal (Event.integrity_incident_verified evidence recorded)
    → elem ms.state terminal_states ≡ false
    → ms.procedure ≡ Procedure.recording_incident target audit
    → ms.pending_record ≡ some pending
    → pending.kind ≡ evidence.kind
    → pending.binding ≡ evidence.binding
    → covered ms.deferred_integrity recorded ≡ false
    → (after : MachineState) × (transition ms (Event.integrity_incident_verified evidence recorded)
        ≡ ok (
          after,
          Command.record_integrity_incident (bindings_of after.deferred_integrity) audit ∷ [],
        ))
      × (after.procedure ≡ Procedure.recording_incident target audit)
      × (after.pending_record ≡ none)
      × (elem b (bindings_of after.deferred_integrity)
          ≡ (elem b (bindings_of ms.deferred_integrity) && not (elem b recorded)))
      × (is_empty after.deferred_integrity ≡ false)
unfolding registry
incident_remainder_effect-kept ms evidence recorded target audit pending b v l t p q k w c =
    let event = Event.integrity_incident_verified evidence recorded in
    let m = remainder-matches ms evidence recorded target audit pending t p q k w c in
    let s = effect-Succeeds 132 rule_i_vr ms event v l refl m in
    let e = incident_remainder_lem ms evidence recorded target audit p s in
    (
      record ms {
        pending_record = none;
        deferred_integrity = not_recorded recorded ms.deferred_integrity;
      },
      transition-fires 132 rule_i_vr ms event refl t m ∙ e,
      p,
      refl,
      names-left recorded ms.deferred_integrity b,
      nothing-left recorded ms.deferred_integrity ∙ c,
    )

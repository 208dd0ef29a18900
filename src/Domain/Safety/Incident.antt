-- ===== src/Domain/Safety/Incident.antt =====
-- domain/_rules_integrity.py: the states of the incident record.
use claude_code_codex_review.Prelude.{
  Option, none, some, List, [], ◌∷◌, true, false, not, ◌≡◌, refl, sym, arith, elem, elem-all, all,
  not-true, keep, inl, inr, subst, is_empty, Bool-cases, option_eq,
}
use claude_code_codex_review.Domain.States.{State, state_eq, terminal_states}
use claude_code_codex_review.Domain.Commands.{Command}
use claude_code_codex_review.Domain.Errors.{Error, err, ◌>>=◌}
use claude_code_codex_review.Domain.Events.Types.{EventType}
use claude_code_codex_review.Domain.Events.Data.{Event}
use claude_code_codex_review.Domain.Values.Kinds.{RecordKind, IncidentTarget, record_kind_eq}
use claude_code_codex_review.Domain.Values.Opaque.{OpaqueBinding}
use claude_code_codex_review.Domain.Values.Responses.{Awaiting, awaiting_eq}
use claude_code_codex_review.Domain.Values.Records.{RecordEvidence, PendingRecord}
use claude_code_codex_review.Domain.Values.Blocks.{BlockContext, Procedure}
use claude_code_codex_review.Domain.Values.Machine.{
  MachineState, bare, make, check_canonical_deferred, check_terminal_bare, check_block_scope,
  check_recovery_scope, check_return_scope, check_procedure_shape, check_deferred_scope,
  check_pending_home, check_awaiting_home, check_pending, check_awaiting,
}
use claude_code_codex_review.Domain.Rules.Kinds.{
  ProcedureKind, PendingMatch, procedure_kind_eq, pending_match_eq,
}
use claude_code_codex_review.Domain.Rules.Match.{Match, allows_some}
use claude_code_codex_review.Domain.Rules.Guards.{derive_guard_key}
use claude_code_codex_review.Domain.Workflow.Effects.{returns, target}
use claude_code_codex_review.Domain.Validity.{IsValid, Succeeds}
use claude_code_codex_review.Domain.Validity.Shape.{
  Checks, Checks-make, make-Checks, canonical-ok, fits,
}
use claude_code_codex_review.Domain.Safety.Rule.{SoundWith, Fires, Succeeds-make}
use claude_code_codex_review.Domain.Safety.Events.{IsOf-match, Fires-absent}
use claude_code_codex_review.Prelude.Sort.Canonical.{keep-Ascending}
use claude_code_codex_review.Domain.Values.Kinds.{IncidentCoverage, incident_coverage_eq}
use claude_code_codex_review.Domain.Values.Records.{IntegrityEvidenceRef}
use claude_code_codex_review.Domain.Values.Opaque.{binding_eq}
use claude_code_codex_review.Domain.Values.Blocks.{bindings_of, binding_text}
use claude_code_codex_review.Domain.Rules.Guards.{derive_coverage, covered}
use claude_code_codex_review.Domain.Workflow.Effects.{field_of}
use claude_code_codex_review.Domain.Integrity.Effects.{
  incident_produced_effect, incident_complete_effect, incident_remainder_effect,
  outcome_to_incident, outcome_failure_to_block, query_again_effect, integrity_exit_effect,
  not_recorded, incident_parts, incident_state, blocked_by,
}
use claude_code_codex_review.Domain.Safety.Events.{incident_inv}
use claude_code_codex_review.Domain.Safety.Produced.{produced-only, produced_kind_is}
use claude_code_codex_review.Domain.Safety.Blocking.{blocked_with-Succeeds}
use claude_code_codex_review.Domain.Safety.Merge.{waits-Succeeds}
use claude_code_codex_review.Domain.Safety.Cancel.{recording-Checks, Fires-nonempty}
use claude_code_codex_review.Domain.Safety.Procedures.{Fires-recording}
use claude_code_codex_review.Domain.Safety.Violations.{
  InOrder, InOrder-canonical, Checks-InOrder, make_integrity_block-ok,
}

produced-Checks :
    (ms : MachineState) (target : IncidentTarget) (audit : Option PendingRecord) (b : OpaqueBinding)
    → Checks ms
    → ms.procedure ≡ Procedure.recording_incident target audit
    → elem ms.state terminal_states ≡ false
    → Checks (record ms {
      pending_record =
          some
            (record { kind = RecordKind.integrity_incident; binding = b; source_state = ms.state });
    })
unfolding check_canonical_deferred check_terminal_bare check_block_scope check_recovery_scope
    check_return_scope check_procedure_shape check_deferred_scope check_pending_home
    check_awaiting_home check_pending check_awaiting elem
produced-Checks ms target audit b c n q = record {
  canonical_deferred = c.canonical_deferred;
  terminal_bare = ground arith;
  block_scope = let p = c.block_scope in ground arith;
  recovery_scope = c.recovery_scope;
  return_scope = c.return_scope;
  procedure_shape = let p = c.procedure_shape in ground arith;
  deferred_scope = c.deferred_scope;
  pending_home = let p = c.procedure_shape in ground arith;
  awaiting_home = c.awaiting_home;
}

pub incident_produced_sound :
    (m : Match)
    → m.procedures ≡ ProcedureKind.recording_incident ∷ []
    → m.event_type ≡ EventType.record_produced
    → m.record_kinds ≡ some (RecordKind.integrity_incident ∷ [])
    → all (λ s. not (elem s terminal_states)) m.states ≡ true
    → SoundWith m incident_produced_effect
unfolding incident_produced_effect
incident_produced_sound m n t ks q ms event v l f =
    let (target, audit, e) = Fires-recording m ms event n f in
    let h =
      not-true _ (elem-all (λ s. not (elem s terminal_states)) ms.state m.states f.states q) in
    produced-only m incident_produced_effect ms event t
      (λ k b g.
        subst
          (λ k'. Succeeds (
            returns
              (make (record ms {
                pending_record = some (record { kind = k'; binding = b; source_state = ms.state });
              }))
              (Command.persist_record k b ∷ [])))
          (sym (produced_kind_is m ms RecordKind.integrity_incident k b ks g))
          (Succeeds-make _ _ (record {
            made = make-Checks _ (produced-Checks ms target audit b (Checks-make ms v.made) e h);
            block_made = v.block_made;
            procedure_made = v.procedure_made;
          })))
      f

pub incident_complete_sound :
    (m : Match)
    → m.procedures ≡ ProcedureKind.recording_incident ∷ []
    → SoundWith m incident_complete_effect
unfolding incident_complete_effect
incident_complete_sound m n ms event v l f =
    let (target, audit, e) = Fires-recording m ms event n f in
    subst
      (λ p. Succeeds (
        field_of (incident_parts p) >>= λ target. returns (make (bare (incident_state target))) []))
      (sym e) (waits-Succeeds (incident_state target) none [] (ended target))
  where
    ended : (target : IncidentTarget) → fits (incident_state target) none ≡ true
    ended IncidentTarget.merged = unfold elem in refl
    ended IncidentTarget.cancelled = unfold elem in refl

-- What is not recorded stays deferred, so that a remainder is never empty.
pub not_recorded-nonempty :
    (recorded : List OpaqueBinding) (refs : List IntegrityEvidenceRef)
    → covered refs recorded ≡ false
    → is_empty (not_recorded recorded refs) ≡ false
unfolding not_recorded keep all elem
not_recorded-nonempty recorded [] h = cc
not_recorded-nonempty recorded (x ∷ xs) h = ground (arith, not_recorded-nonempty recorded xs)

remainder-Checks :
    (ms : MachineState) (target : IncidentTarget) (audit : Option PendingRecord)
    (refs : List IntegrityEvidenceRef)
    → Checks ms
    → ms.procedure ≡ Procedure.recording_incident target audit
    → elem ms.state terminal_states ≡ false
    → InOrder refs
    → is_empty refs ≡ false
    → Checks (record ms { pending_record = none; deferred_integrity = refs })
unfolding check_terminal_bare check_block_scope check_recovery_scope check_return_scope
    check_procedure_shape check_deferred_scope check_pending_home check_awaiting_home check_pending
    check_awaiting elem
remainder-Checks ms target audit refs c n q o e = record {
  canonical_deferred =
      canonical-ok (record ms { pending_record = none; deferred_integrity = refs })
        (InOrder-canonical refs o);
  terminal_bare = ground arith;
  block_scope = let p = c.block_scope in ground arith;
  recovery_scope = c.recovery_scope;
  return_scope = c.return_scope;
  procedure_shape = let p = c.procedure_shape in ground arith;
  deferred_scope = ground arith;
  pending_home = refl;
  awaiting_home = c.awaiting_home;
}

Fires-remainder :
    (m : Match) (ms : MachineState) (evidence : RecordEvidence) (recorded : List OpaqueBinding)
    → m.coverage ≡ some (IncidentCoverage.remainder ∷ [])
    → Fires m ms (Event.integrity_incident_verified evidence recorded)
    → covered ms.deferred_integrity recorded ≡ false
unfolding derive_guard_key derive_coverage elem
Fires-remainder m ms evidence recorded k f =
    elim (Bool-cases (covered ms.deferred_integrity recorded)) [
      | inr h ↦ h
      | inl h ↦
          let p =
            subst
              (λ x.
                allows_some x
                  (derive_coverage ms (Event.integrity_incident_verified evidence recorded))
                ≡ true)
              k f.coverage in
          absurd (cc (rw h at p))
    ]

pub incident_remainder_sound :
    (m : Match)
    → m.procedures ≡ ProcedureKind.recording_incident ∷ []
    → m.event_type ≡ EventType.integrity_incident_verified
    → m.coverage ≡ some (IncidentCoverage.remainder ∷ [])
    → all (λ s. not (elem s terminal_states)) m.states ≡ true
    → SoundWith m incident_remainder_effect
incident_remainder_sound m n t k q ms event v l f =
    let (target, audit, e) = Fires-recording m ms event n f in
    let (evidence, recorded, ev) = incident_inv event (IsOf-match m ms event _ t f) in
    subst (λ event. Fires m ms event → Succeeds (incident_remainder_effect ms event)) (sym ev)
      (λ g.
        remainder-Succeeds ms target audit evidence recorded v e
          (not-true _ (elem-all (λ s. not (elem s terminal_states)) ms.state m.states g.states q))
          (Fires-remainder m ms evidence recorded k g))
      f
  where
    remainder-Succeeds :
        (ms : MachineState) (target : IncidentTarget) (audit : Option PendingRecord)
        (evidence : RecordEvidence) (recorded : List OpaqueBinding)
        → IsValid ms
        → ms.procedure ≡ Procedure.recording_incident target audit
        → elem ms.state terminal_states ≡ false
        → covered ms.deferred_integrity recorded ≡ false
        → Succeeds
            (incident_remainder_effect ms (Event.integrity_incident_verified evidence recorded))
    remainder-Succeeds ms target audit evidence recorded v e s r =
        unfold incident_remainder_effect in
        subst
          (λ p. Succeeds (elim p [
            | Procedure.recording_incident target audit ↦
                returns
                  (make (record ms {
                    pending_record = none;
                    deferred_integrity = not_recorded recorded ms.deferred_integrity;
                  }))
                  (Command.record_integrity_incident
                      (bindings_of (not_recorded recorded ms.deferred_integrity)) audit
                    ∷ [])
            | _ ↦ err Error.attribute_error
          ]))
          (sym e)
          (Succeeds-make
            (record ms {
              pending_record = none;
              deferred_integrity = not_recorded recorded ms.deferred_integrity;
            })
            _
            (record {
              made = make-Checks _ (
                  remainder-Checks ms target audit (not_recorded recorded ms.deferred_integrity)
                    (Checks-make ms v.made) e s
                    (unfold not_recorded in
                      keep-Ascending binding_text (λ ref. not (elem ref.binding recorded))
                        ms.deferred_integrity (Checks-InOrder ms (Checks-make ms v.made)))
                    (not_recorded-nonempty recorded ms.deferred_integrity r));
              block_made = v.block_made;
              procedure_made = v.procedure_made;
            }))

pub outcome_to_incident_sound :
    (m : Match) (target : IncidentTarget)
    → m.pending ≡ some (PendingMatch.absent ∷ [])
    → m.deferred_nonempty ≡ some true
    → all (λ s. not (elem s terminal_states)) m.states ≡ true
    → SoundWith m (outcome_to_incident target)
unfolding outcome_to_incident
outcome_to_incident_sound m target pe d q ms event v l f =
    Succeeds-make
      (record ms { procedure = Procedure.recording_incident target none; awaiting = none }) _
      (record {
        made = make-Checks _ (
            subst
              (λ p. Checks (record ms {
                procedure = Procedure.recording_incident target none;
                awaiting = none;
                pending_record = p;
              }))
              (sym (Fires-absent m ms event f pe))
              (recording-Checks ms target none (Checks-make ms v.made)
                (not-true _
                  (elem-all (λ s. not (elem s terminal_states)) ms.state m.states f.states q))
                (Fires-nonempty m ms event d f)));
        block_made = v.block_made;
        procedure_made = tt;
      })

pub outcome_failure_sound :
    (m : Match) → m.deferred_nonempty ≡ some true → SoundWith m outcome_failure_to_block
unfolding outcome_failure_to_block
outcome_failure_sound m d ms event v l f =
    let made =
      make_integrity_block-ok ms.deferred_integrity (Checks-InOrder ms (Checks-make ms v.made))
        (Fires-nonempty m ms event d f) in
    subst (λ r. Succeeds (r >>= λ block. returns (make (blocked_by block)) [])) (sym made)
      (blocked_with-Succeeds
        (BlockContext.record_integrity (record { violations = ms.deferred_integrity })) [] made)

pub query_again_sound : (m : Match) → SoundWith m query_again_effect
unfolding query_again_effect
query_again_sound m ms event v l f = v

pub integrity_exit_sound : (m : Match) → SoundWith m integrity_exit_effect
unfolding integrity_exit_effect elem
integrity_exit_sound m ms event v l f =
    waits-Succeeds State.running_review (some Awaiting.codex_code_review) _ refl

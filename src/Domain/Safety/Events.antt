-- ===== src/Domain/Safety/Events.antt =====
-- The class of an event decides its constructor; and what the guard key says of the pending record.
use claude_code_codex_review.Prelude.{
  none, some, List, [], ◌∷◌, true, false, ◌==◌, ◌≡◌, refl, arith, elem, inl, inr, Option-cases,
  subst, elem-singleton,
}
use claude_code_codex_review.Domain.Events.Types.{EventType, event_type_eq}
use claude_code_codex_review.Domain.Events.Data.{Event, event_type}
use claude_code_codex_review.Domain.Values.Kinds.{RecordKind, record_kind_eq}
use claude_code_codex_review.Domain.Values.Opaque.{OpaqueBinding, OpaqueRef, binding_eq}
use claude_code_codex_review.Domain.Values.Records.{
  RecordEvidence, IntegrityEvidenceRef, PendingRecord,
}
use claude_code_codex_review.Domain.Values.Machine.{MachineState}
use claude_code_codex_review.Domain.Rules.Kinds.{PendingMatch, pending_match_eq}
use claude_code_codex_review.Domain.Rules.Match.{Match, allows}
use claude_code_codex_review.Domain.Rules.Guards.{
  derive_guard_key, derive_pending, event_record, pending_vs_evidence,
}
use claude_code_codex_review.Domain.Integrity.Effects.{detected}
use claude_code_codex_review.Domain.Safety.Rule.{Fires}

abbrev pub IsOf : EventType → Event → Type 0
IsOf t event = (event_type event == t) ≡ true

pub IsOf-match :
    (m : Match) (ms : MachineState) (event : Event) (t : EventType)
    → m.event_type ≡ t
    → Fires m ms event
    → IsOf t event
IsOf-match m ms event t e f = subst (λ t. IsOf t event) e f.event_type

pub produced_inv :
    (event : Event)
    → IsOf EventType.record_produced event
    → (kind : RecordKind) × (binding : OpaqueBinding) × (event ≡ Event.record_produced kind binding)
unfolding event_type
produced_inv (Event.record_produced kind binding) h = (kind, binding, refl)
produced_inv _ h = cc

pub detected_inv :
    (event : Event)
    → IsOf EventType.record_integrity_violation_detected event
    → (evidence : IntegrityEvidenceRef) × (detected event ≡ some evidence)
unfolding event_type
detected_inv (Event.record_integrity_violation_detected evidence) h = (evidence, refl)
detected_inv _ h = cc

pub cancel_inv :
    (event : Event)
    → IsOf EventType.user_cancel_verified event
    → (evidence : RecordEvidence) × (event ≡ Event.user_cancel_verified evidence)
unfolding event_type
cancel_inv (Event.user_cancel_verified evidence) h = (evidence, refl)
cancel_inv _ h = cc

pub incident_inv :
    (event : Event)
    → IsOf EventType.integrity_incident_verified event
    → (evidence : RecordEvidence) × (recorded : List OpaqueBinding) × (event
        ≡ Event.integrity_incident_verified evidence recorded)
unfolding event_type
incident_inv (Event.integrity_incident_verified evidence recorded) h = (evidence, recorded, refl)
incident_inv _ h = cc

pub external_inv :
    (event : Event)
    → IsOf EventType.external_dependency_verified event
    → (evidence : RecordEvidence) × (head : OpaqueRef) × (event
        ≡ Event.external_dependency_verified evidence head)
unfolding event_type
external_inv (Event.external_dependency_verified evidence head) h = (evidence, head, refl)
external_inv _ h = cc

pub derive_pending-absent :
    (ms : MachineState) (event : Event)
    → derive_pending ms event ≡ PendingMatch.absent
    → ms.pending_record ≡ none
unfolding derive_pending
derive_pending-absent ms event h = elim (Option-cases ms.pending_record) [
  | inl e ↦ e
  | inr (p, e) ↦ ground (arith, Option-cases (event_record event))
]

module _ (m : Match) (ms : MachineState) (event : Event) (f : Fires m ms event) where
  -- `pending=_ABSENT`.
  pub Fires-absent : m.pending ≡ some (PendingMatch.absent ∷ []) → ms.pending_record ≡ none
  unfolding derive_guard_key elem
  Fires-absent e = derive_pending-absent ms event (ground (arith, f.pending))

pub derive_pending-present :
    (ms : MachineState) (event : Event)
    → (derive_pending ms event == PendingMatch.absent) ≡ false
    → (p : PendingRecord) × (ms.pending_record ≡ some p)
unfolding derive_pending pending_vs_evidence
derive_pending-present ms event h = elim (Option-cases ms.pending_record) [
  | inl e ↦ absurd (ground (arith, Option-cases (event_record event)))
  | inr x ↦ x
]

-- `pending=frozenset({PendingMatch.PRESENT})`, or `_MATCHED`.
pub Fires-present :
    (m : Match) (ms : MachineState) (event : Event) (k : PendingMatch)
    → (k == PendingMatch.absent) ≡ false
    → m.pending ≡ some (k ∷ [])
    → Fires m ms event
    → (p : PendingRecord) × (ms.pending_record ≡ some p)
unfolding derive_guard_key
Fires-present m ms event k h e f =
    let q : derive_pending ms event ≡ k =
      elem-singleton (derive_pending ms event) k
        (subst (λ x. allows x (derive_pending ms event) ≡ true) e f.pending) in
    derive_pending-present ms event (rw q h)

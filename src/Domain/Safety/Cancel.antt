-- ===== src/Domain/Safety/Cancel.antt =====
-- domain/_rules_recovery.py: the states that cancellation and failure build.
use claude_code_codex_review.Prelude.{
  Option, none, some, [], ◌∷◌, Bool, true, false, not, ◌≡◌, ◌⊎◌, refl, arith, elem, elem-all, all,
  not-true, inl, inr, subst, is_empty, option_eq, if◌then◌else◌,
}
use claude_code_codex_review.Domain.States.{State, state_eq, terminal_states}
use claude_code_codex_review.Domain.Events.Types.{EventType}
use claude_code_codex_review.Domain.Events.Data.{Event}
use claude_code_codex_review.Domain.Values.Kinds.{IncidentTarget, record_kind_eq}
use claude_code_codex_review.Domain.Values.Opaque.{OpaqueBinding}
use claude_code_codex_review.Domain.Values.Responses.{awaiting_eq}
use claude_code_codex_review.Domain.Values.Records.{PendingRecord}
use claude_code_codex_review.Domain.Values.Blocks.{Procedure}
use claude_code_codex_review.Domain.Values.Machine.{
  MachineState, check_canonical_deferred, check_terminal_bare, check_block_scope,
  check_recovery_scope, check_return_scope, check_procedure_shape, check_deferred_scope,
  check_pending_home, check_awaiting_home, check_pending,
}
use claude_code_codex_review.Domain.Rules.Kinds.{ProcedureKind, procedure_kind_eq, pending_match_eq}
use claude_code_codex_review.Domain.Rules.Match.{Match}
use claude_code_codex_review.Domain.Rules.Guards.{derive_guard_key, procedure_kind}
use claude_code_codex_review.Domain.Workflow.Effects.{target}
use claude_code_codex_review.Domain.Validity.Shape.{Checks, Checks-make, make-Checks}
use claude_code_codex_review.Domain.Safety.Rule.{SoundWith, Fires, Fires-normal, Succeeds-make}
use claude_code_codex_review.Domain.Safety.Events.{IsOf-match}
use claude_code_codex_review.Domain.Recovery.Effects.{
  start_cancel, cancelled_effect, cancel_completed_to_incident, keep_effect,
}
use claude_code_codex_review.Domain.Safety.Events.{cancel_inv}
use claude_code_codex_review.Domain.Safety.Merge.{waits-Succeeds}

-- The procedure of a rule that names one kind of procedure.
pub Fires-cancelling :
    (m : Match) (ms : MachineState) (event : Event)
    → m.procedures ≡ ProcedureKind.cancelling ∷ []
    → Fires m ms event
    → (binding : OpaqueBinding) × (ms.procedure ≡ Procedure.cancelling binding)
unfolding derive_guard_key procedure_kind elem
Fires-cancelling m ms event n f =
    let p : elem (procedure_kind ms.procedure) m.procedures ≡ true = f.procedures in
    go ms.procedure (subst (λ x. elem (procedure_kind ms.procedure) x ≡ true) n p)
  where
    go :
        (p : Procedure)
        → elem (procedure_kind p) (ProcedureKind.cancelling ∷ []) ≡ true
        → (binding : OpaqueBinding) × (p ≡ Procedure.cancelling binding)
    go (Procedure.cancelling binding) h = (binding, refl)
    go Procedure.normal h = cc
    go (Procedure.halting_for_block _ _) h = cc
    go (Procedure.recording_incident _ _) h = cc

cancelling-Checks :
    (ms : MachineState) (binding : OpaqueBinding) (p : Option PendingRecord)
    → Checks ms
    → ms.procedure ≡ Procedure.normal
    → elem ms.state (State.merging ∷ terminal_states) ≡ false
    → (p ≡ none) ⊎ (p ≡ ms.pending_record)
    → Checks (record ms {
      procedure = Procedure.cancelling binding;
      awaiting = none;
      pending_record = p;
    })
unfolding check_canonical_deferred check_terminal_bare check_block_scope check_recovery_scope
    check_return_scope check_procedure_shape check_deferred_scope check_pending_home
    check_awaiting_home check_pending elem
cancelling-Checks ms binding p c n s k = record {
  canonical_deferred = c.canonical_deferred;
  terminal_bare = ground arith;
  block_scope = let b = c.block_scope in ground arith;
  recovery_scope = c.recovery_scope;
  return_scope = c.return_scope;
  procedure_shape = ground arith;
  deferred_scope = ground arith;
  pending_home = let b = c.pending_home in ground arith;
  awaiting_home = refl;
}

pub start_cancel_sound :
    (m : Match) (consume : Bool)
    → m.procedures ≡ ProcedureKind.normal ∷ []
    → m.event_type ≡ EventType.user_cancel_verified
    → all (λ s. not (elem s (State.merging ∷ terminal_states))) m.states ≡ true
    → SoundWith m (start_cancel consume)
unfolding start_cancel
start_cancel_sound m consume n t q ms event v l f =
    let (evidence, e) = cancel_inv event (IsOf-match m ms event _ t f) in
    rw e (
      Succeeds-make _ _ (record {
        made = make-Checks _ (
            cancelling-Checks ms evidence.binding _ (Checks-make ms v.made)
              (Fires-normal m ms event n f)
              (not-true _ (
                elem-all (λ s. not (elem s (State.merging ∷ terminal_states))) ms.state m.states
                  f.states q))
              (kept consume));
        block_made = v.block_made;
        procedure_made = tt;
      }))
  where
    kept :
        (b : Bool)
        → ((if b then none else ms.pending_record) ≡ none)
          ⊎ ((if b then none else ms.pending_record) ≡ ms.pending_record)
    kept true = inl refl
    kept false = inr refl

pub cancelled_sound : (m : Match) → SoundWith m cancelled_effect
unfolding cancelled_effect elem
cancelled_sound m ms event v l f = waits-Succeeds State.cancelled none [] refl

pub keep_sound : (m : Match) → SoundWith m keep_effect
unfolding keep_effect
keep_sound m ms event v l f = v

-- The record of violations is kept by an incident procedure.
pub recording-Checks :
    (ms : MachineState) (target : IncidentTarget) (audit : Option PendingRecord)
    → Checks ms
    → elem ms.state terminal_states ≡ false
    → is_empty ms.deferred_integrity ≡ false
    → Checks (record ms {
      procedure = Procedure.recording_incident target audit;
      awaiting = none;
      pending_record = none;
    })
unfolding check_canonical_deferred check_terminal_bare check_block_scope check_recovery_scope
    check_return_scope check_procedure_shape check_deferred_scope check_pending_home
    check_awaiting_home check_pending elem
recording-Checks ms target audit c s d = record {
  canonical_deferred = c.canonical_deferred;
  terminal_bare = ground arith;
  block_scope = let b = c.block_scope in ground arith;
  recovery_scope = c.recovery_scope;
  return_scope = c.return_scope;
  procedure_shape = ground arith;
  deferred_scope = ground arith;
  pending_home = refl;
  awaiting_home = refl;
}

pub Fires-nonempty :
    (m : Match) (ms : MachineState) (event : Event)
    → m.deferred_nonempty ≡ some true
    → Fires m ms event
    → is_empty ms.deferred_integrity ≡ false
unfolding derive_guard_key
Fires-nonempty m ms event d f = let p = f.deferred_nonempty in ground arith

procedure-awaiting :
    (ms : MachineState) (binding : OpaqueBinding)
    → Checks ms
    → ms.procedure ≡ Procedure.cancelling binding
    → ms.awaiting ≡ none
unfolding check_procedure_shape
procedure-awaiting ms binding c e = let p = c.procedure_shape in ground arith

pub cancel_completed_sound :
    (m : Match)
    → m.procedures ≡ ProcedureKind.cancelling ∷ []
    → m.deferred_nonempty ≡ some true
    → all (λ s. not (elem s terminal_states)) m.states ≡ true
    → SoundWith m cancel_completed_to_incident
unfolding cancel_completed_to_incident
cancel_completed_sound m n d q ms event v l f =
    let c = Checks-make ms v.made in
    let (binding, e) = Fires-cancelling m ms event n f in
    rw (procedure-awaiting ms binding c e) (
      Succeeds-make _ _ (record {
        made = make-Checks _ (
            recording-Checks ms IncidentTarget.cancelled ms.pending_record c
              (not-true _
                (elem-all (λ s. not (elem s terminal_states)) ms.state m.states f.states q))
              (Fires-nonempty m ms event d f));
        block_made = v.block_made;
        procedure_made = tt;
      }))

-- ===== src/Domain/Safety/Detection.antt =====
-- domain/_rules_integrity.py: the union of violations, and a block at once.
use claude_code_codex_review.Prelude.{
  Option, some, List, [], ◌∷◌, ◌++◌, true, false, not, ◌≡◌, ◌⊎◌, refl, arith, elem, elem-all, all,
  not-true, inl, inr, subst, is_empty, ◌||◌, option_eq,
}
use claude_code_codex_review.Domain.States.{State, state_eq, terminal_states}
use claude_code_codex_review.Domain.Commands.{Command}
use claude_code_codex_review.Domain.Events.Types.{EventType}
use claude_code_codex_review.Domain.Events.Data.{Event}
use claude_code_codex_review.Domain.Values.Kinds.{record_kind_eq}
use claude_code_codex_review.Domain.Values.Responses.{
  Awaiting, awaiting_eq, merge_outcome_awaitings,
}
use claude_code_codex_review.Domain.Values.Blocks.{BlockContext, Procedure}
use claude_code_codex_review.Domain.Values.Machine.{
  MachineState, check_terminal_bare, check_block_scope, check_recovery_scope, check_return_scope,
  check_procedure_shape, check_deferred_scope, check_pending_home, check_awaiting_home,
  check_pending, check_awaiting, is_cancelling, is_recording, holds,
}
use claude_code_codex_review.Domain.Rules.Kinds.{ProcedureKind, procedure_kind_eq, pending_match_eq}
use claude_code_codex_review.Domain.Rules.Match.{Match, allows}
use claude_code_codex_review.Domain.Rules.Guards.{derive_guard_key}
use claude_code_codex_review.Domain.Validity.Shape.{Checks, Checks-make, make-Checks, canonical-ok}
use claude_code_codex_review.Domain.Safety.Rule.{SoundWith, Fires, Fires-normal, Succeeds-make}
use claude_code_codex_review.Domain.Safety.Events.{IsOf-match}
use claude_code_codex_review.Domain.Values.Records.{IntegrityEvidenceRef}
use claude_code_codex_review.Domain.Values.Integrity.{canonicalize_integrity}
use claude_code_codex_review.Domain.Values.Opaque.{binding_eq}
use claude_code_codex_review.Domain.Recovery.Merge.{merge_outcome}
use claude_code_codex_review.Domain.Integrity.Effects.{
  invalidate, detect_union_effect, detect_direct_block_effect,
}
use claude_code_codex_review.Domain.Safety.Blocking.{blocked_with-Succeeds}
use claude_code_codex_review.Domain.Safety.Events.{detected_inv}
use claude_code_codex_review.Domain.Safety.Merge.{state_is}
use claude_code_codex_review.Domain.Safety.Cancel.{Fires-cancelling}
use claude_code_codex_review.Domain.Safety.Procedures.{Fires-recording}
use claude_code_codex_review.Domain.Safety.Violations.{
  canonical-InOrder, InOrder-canonical, make_integrity_block-ok, union-nonempty,
}

-- Where the violations of a state may be kept.
abbrev Keeps : MachineState → Type 0
Keeps ms =
    ((is_cancelling ms.procedure || is_recording ms.procedure) ≡ true)
    ⊎ ((ms.procedure ≡ Procedure.normal)
        × (ms.state ≡ State.merging)
        × (holds (λ a. elem a merge_outcome_awaitings) ms.awaiting ≡ true))

union-Checks :
    (ms : MachineState) (refs : List IntegrityEvidenceRef)
    → Checks ms
    → elem ms.state terminal_states ≡ false
    → canonicalize_integrity refs ≡ refs
    → is_empty refs ≡ false
    → Keeps ms
    → Checks (record ms { deferred_integrity = refs })
unfolding check_terminal_bare check_block_scope check_recovery_scope check_return_scope
    check_procedure_shape check_deferred_scope check_pending_home check_awaiting_home check_pending
    check_awaiting elem
union-Checks ms refs c t o e k = record {
  canonical_deferred = canonical-ok (record ms { deferred_integrity = refs }) o;
  terminal_bare = ground arith;
  block_scope = c.block_scope;
  recovery_scope = c.recovery_scope;
  return_scope = c.return_scope;
  procedure_shape = let b = c.procedure_shape in ground arith;
  deferred_scope = ground arith;
  pending_home = c.pending_home;
  awaiting_home = c.awaiting_home;
}

-- The three rules that add to the deferred violations.
union_sound :
    (m : Match) (extra : List Command)
    → m.event_type ≡ EventType.record_integrity_violation_detected
    → all (λ s. not (elem s terminal_states)) m.states ≡ true
    → ((ms : MachineState) (event : Event) → Fires m ms event → Keeps ms)
    → SoundWith m (detect_union_effect extra)
unfolding detect_union_effect
union_sound m extra t q k ms event v l f =
    let (r, e) = detected_inv event (IsOf-match m ms event _ t f) in
    rw e (
      Succeeds-make _ _ (record {
        made = make-Checks _ (
            union-Checks ms _ (Checks-make ms v.made)
              (not-true _
                (elem-all (λ s. not (elem s terminal_states)) ms.state m.states f.states q))
              (InOrder-canonical _ (canonical-InOrder (ms.deferred_integrity ++ r ∷ [])))
              (union-nonempty ms.deferred_integrity r) (k ms event f));
        block_made = v.block_made;
        procedure_made = v.procedure_made;
      }))

module _ (m : Match) (t : m.event_type ≡ EventType.record_integrity_violation_detected) where
  pub union_recording_sound :
      (extra : List Command)
      → m.procedures ≡ ProcedureKind.recording_incident ∷ []
      → all (λ s. not (elem s terminal_states)) m.states ≡ true
      → SoundWith m (detect_union_effect extra)
  union_recording_sound extra n q =
      union_sound m extra t q
        λ ms event f. let (_, _, e) = Fires-recording m ms event n f in inl (rw e refl)

  pub union_cancelling_sound :
      (extra : List Command)
      → m.procedures ≡ ProcedureKind.cancelling ∷ []
      → all (λ s. not (elem s terminal_states)) m.states ≡ true
      → SoundWith m (detect_union_effect extra)
  union_cancelling_sound extra n q =
      union_sound m extra t q
        λ ms event f. let (_, e) = Fires-cancelling m ms event n f in inl (rw e refl)

  pub union_merging_sound :
      (extra : List Command)
      → m.procedures ≡ ProcedureKind.normal ∷ []
      → m.states ≡ State.merging ∷ []
      → m.awaiting ≡ some merge_outcome
      → SoundWith m (detect_union_effect extra)
  unfolding derive_guard_key
  union_merging_sound extra n q w =
      union_sound m extra t (rw q (unfold all elem in refl)) λ ms event f. inr (
        Fires-normal m ms event n f,
        state_is m ms event State.merging q f,
        outcome_awaited ms.awaiting (subst (λ x. allows x ms.awaiting ≡ true) w f.awaiting),
      )
    where
      outcome_awaited :
          (o : Option Awaiting)
          → elem o merge_outcome ≡ true
          → holds (λ a. elem a merge_outcome_awaitings) o ≡ true
      outcome_awaited o h = unfold elem in ground arith

  pub direct_block_sound : SoundWith m detect_direct_block_effect
  unfolding detect_direct_block_effect
  direct_block_sound ms event v l f =
      let (r, e) = detected_inv event (IsOf-match m ms event _ t f) in
      let made = make_integrity_block-ok (r ∷ []) (tt, tt) refl in
      rw e (
        rw made (
          blocked_with-Succeeds (BlockContext.record_integrity (record { violations = r ∷ [] }))
            invalidate made))

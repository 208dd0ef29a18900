-- ===== src/Domain/Safety/HaltGate.antt =====
-- The halt gate, and violations that are detected in it or in a block.
use claude_code_codex_review.Prelude.{
  Option, none, some, [], ◌∷◌, ◌++◌, true, false, not, ◌==◌, ◌≡◌, refl, sym, ◌∙◌, arith, elem,
  elem-all, all, not-true, keep, subst, option_eq,
}
use claude_code_codex_review.Domain.States.{State, state_eq, active_states}
use claude_code_codex_review.Domain.Errors.{◌>>=◌}
use claude_code_codex_review.Domain.Events.Types.{EventType}
use claude_code_codex_review.Domain.Events.Data.{Event}
use claude_code_codex_review.Domain.Values.Kinds.{record_kind_eq}
use claude_code_codex_review.Domain.Values.Opaque.{OpaqueBinding}
use claude_code_codex_review.Domain.Values.Responses.{awaiting_eq}
use claude_code_codex_review.Domain.Values.Blocks.{BlockContext, Procedure}
use claude_code_codex_review.Domain.Values.Machine.{
  MachineState, make, check_canonical_deferred, check_terminal_bare, check_block_scope,
  check_recovery_scope, check_return_scope, check_procedure_shape, check_deferred_scope,
  check_pending_home, check_awaiting_home, check_pending, check_awaiting,
}
use claude_code_codex_review.Domain.Rules.Kinds.{ProcedureKind, procedure_kind_eq, pending_match_eq}
use claude_code_codex_review.Domain.Rules.Match.{Match, allows_some}
use claude_code_codex_review.Domain.Rules.Guards.{derive_guard_key, block_kind_of}
use claude_code_codex_review.Domain.Workflow.Effects.{returns}
use claude_code_codex_review.Domain.Validity.{Succeeds}
use claude_code_codex_review.Domain.Validity.Shape.{
  Checks, Checks-make, make-Checks, canonical-ok, canonicalize-nil,
}
use claude_code_codex_review.Domain.Safety.Rule.{SoundWith, Fires, Succeeds-make}
use claude_code_codex_review.Domain.Safety.Events.{IsOf-match}
use claude_code_codex_review.Domain.Values.Blocks.{
  RecordIntegrityBlock, make_integrity_block, make_halting,
}
use claude_code_codex_review.Domain.Values.Integrity.{canonicalize_integrity}
use claude_code_codex_review.Domain.Values.Opaque.{binding_eq}
use claude_code_codex_review.Domain.Workflow.Effects.{field_of}
use claude_code_codex_review.Domain.Rules.Kinds.{BlockKind, block_kind_eq}
use claude_code_codex_review.Domain.Validity.{IsProcedure}
use claude_code_codex_review.Domain.Integrity.Effects.{
  integrity_block, halting_parts, invalidate, blocked_by, detect_halt_gate_effect,
  detect_blocked_union_effect, detect_halt_gate_union_effect, halt_completed_effect,
}
use claude_code_codex_review.Domain.Safety.Blocking.{blocked_with-Succeeds}
use claude_code_codex_review.Domain.Safety.Events.{detected_inv}
use claude_code_codex_review.Domain.Safety.Procedures.{Fires-halting}
use claude_code_codex_review.Domain.Safety.Violations.{
  canonical-InOrder, make_integrity_block-ok, union-nonempty, elem-union, make_halting-ok,
  halting-elem,
}

halting-Checks :
    (ms : MachineState) (block : RecordIntegrityBlock) (b : OpaqueBinding)
    → Checks ms
    → elem ms.state active_states ≡ true
    → (ms.state == State.merging) ≡ false
    → Checks (record ms {
      procedure = Procedure.halting_for_block block b;
      awaiting = none;
      pending_record = none;
      deferred_integrity = [];
    })
unfolding check_terminal_bare check_block_scope check_recovery_scope check_return_scope
    check_procedure_shape check_deferred_scope check_pending_home check_awaiting_home check_pending
    check_awaiting elem keep
halting-Checks ms block b c a s = record {
  canonical_deferred = canonical-ok _ canonicalize-nil;
  terminal_bare = ground arith;
  block_scope = let p = c.block_scope in ground arith;
  recovery_scope = c.recovery_scope;
  return_scope = c.return_scope;
  procedure_shape = ground arith;
  deferred_scope = refl;
  pending_home = refl;
  awaiting_home = refl;
}

-- Another block in a blocked state, or in its halt gate.
block-Checks :
    (ms : MachineState) (old new : BlockContext)
    → Checks ms
    → ms.block ≡ some old
    → Checks (record ms { block = some new })
unfolding check_canonical_deferred check_terminal_bare check_block_scope check_recovery_scope
    check_return_scope check_procedure_shape check_deferred_scope check_pending_home
    check_awaiting_home check_pending check_awaiting elem
block-Checks ms old new c e = record {
  canonical_deferred = c.canonical_deferred;
  terminal_bare = let p = c.terminal_bare in ground arith;
  block_scope = let p = c.block_scope in ground arith;
  recovery_scope = c.recovery_scope;
  return_scope = c.return_scope;
  procedure_shape = c.procedure_shape;
  deferred_scope = c.deferred_scope;
  pending_home = c.pending_home;
  awaiting_home = c.awaiting_home;
}

gate-Checks :
    (ms : MachineState) (old new : RecordIntegrityBlock) (b : OpaqueBinding)
    → Checks ms
    → ms.procedure ≡ Procedure.halting_for_block old b
    → Checks (record ms { procedure = Procedure.halting_for_block new b })
unfolding check_canonical_deferred check_terminal_bare check_block_scope check_recovery_scope
    check_return_scope check_procedure_shape check_deferred_scope check_pending_home
    check_awaiting_home check_pending check_awaiting elem
gate-Checks ms old new b c e = record {
  canonical_deferred = c.canonical_deferred;
  terminal_bare = let p = c.terminal_bare in ground arith;
  block_scope = let p = c.block_scope in ground arith;
  recovery_scope = c.recovery_scope;
  return_scope = c.return_scope;
  procedure_shape = let p = c.procedure_shape in ground arith;
  deferred_scope = let p = c.deferred_scope in ground arith;
  pending_home = let p = c.pending_home in let q = c.procedure_shape in ground arith;
  awaiting_home = c.awaiting_home;
}

Fires-integrity :
    (m : Match) (ms : MachineState) (event : Event)
    → m.block_kinds ≡ some (BlockKind.record_integrity ∷ [])
    → Fires m ms event
    → (block : RecordIntegrityBlock) × (ms.block ≡ some (BlockContext.record_integrity block))
unfolding derive_guard_key elem
Fires-integrity m ms event n f =
    go ms.block (subst (λ x. allows_some x (block_kind_of ms.block) ≡ true) n f.block_kinds)
  where
    go :
        (o : Option BlockContext)
        → allows_some (some (BlockKind.record_integrity ∷ [])) (block_kind_of o) ≡ true
        → (block : RecordIntegrityBlock) × (o ≡ some (BlockContext.record_integrity block))
    go (some (BlockContext.record_integrity block)) h = (block, refl)
    go (some (BlockContext.progress _)) h = cc
    go (some (BlockContext.external_dependency _)) h = cc
    go none h = cc

module _ (m : Match) (t : m.event_type ≡ EventType.record_integrity_violation_detected) where
  pub halt_gate_sound :
      all (λ s. elem s active_states) m.states ≡ true
      → all (λ s. not (s == State.merging)) m.states ≡ true
      → SoundWith m detect_halt_gate_effect
  unfolding detect_halt_gate_effect
  halt_gate_sound a q ms event v l f =
      let (r, e) = detected_inv event (IsOf-match m ms event _ t f) in
      let block : RecordIntegrityBlock = record { violations = r ∷ [] } in
      let made = make_integrity_block-ok (r ∷ []) (tt, tt) refl in
      let halting =
        make_halting-ok block r.binding
          (unfold elem in ground (arith, binding_eq.beq_iff r.binding r.binding)) in
      rw e (
        rw made (
          rw halting (
            Succeeds-make _ _ (record {
              made = make-Checks _ (
                  halting-Checks ms block r.binding (Checks-make ms v.made)
                    (elem-all (λ s. elem s active_states) ms.state m.states f.states a)
                    (not-true _
                      (elem-all (λ s. not (s == State.merging)) ms.state m.states f.states q)));
              block_made = v.block_made;
              procedure_made = (made, halting);
            }))))

  pub blocked_union_sound :
      m.block_kinds ≡ some (BlockKind.record_integrity ∷ [])
      → SoundWith m detect_blocked_union_effect
  unfolding detect_blocked_union_effect
  blocked_union_sound k ms event v l f =
      let (r, e) = detected_inv event (IsOf-match m ms event _ t f) in
      let (block, b) = Fires-integrity m ms event k f in
      let refs = canonicalize_integrity (block.violations ++ r ∷ []) in
      let made =
        make_integrity_block-ok refs (canonical-InOrder (block.violations ++ r ∷ []))
          (union-nonempty block.violations r) in
      let new : BlockContext = BlockContext.record_integrity (record { violations = refs }) in
      rw e (
        subst
          (λ o. Succeeds (
            field_of (integrity_block o) >>= λ block.
            make_integrity_block (canonicalize_integrity (block.violations ++ r ∷ [])) >>= λ merged.
            returns (make (record ms { block = some (BlockContext.record_integrity merged) }))
              invalidate))
          (sym b)
          (rw made (
            Succeeds-make (record ms { block = some new }) invalidate
              (record {
                made = make-Checks _ (block-Checks ms _ new (Checks-make ms v.made) b);
                block_made = made;
                procedure_made = v.procedure_made;
              }))))

  pub halt_gate_union_sound :
      m.procedures ≡ ProcedureKind.halting_for_block ∷ []
      → SoundWith m detect_halt_gate_union_effect
  unfolding detect_halt_gate_union_effect
  halt_gate_union_sound n ms event v l f =
      let (r, e) = detected_inv event (IsOf-match m ms event _ t f) in
      let (block, b, h) = Fires-halting m ms event n f in
      let refs = canonicalize_integrity (block.violations ++ r ∷ []) in
      let new : RecordIntegrityBlock = record { violations = refs } in
      let made =
        make_integrity_block-ok refs (canonical-InOrder (block.violations ++ r ∷ []))
          (union-nonempty block.violations r) in
      let old = halting-elem block b (subst IsProcedure h v.procedure_made).1 in
      let halting = make_halting-ok new b (elem-union b block.violations r ∙ ground (arith, old)) in
      rw e (
        subst
          (λ p. Succeeds (
            field_of (halting_parts p) >>= λ (block, b).
            make_integrity_block (canonicalize_integrity (block.violations ++ r ∷ [])) >>= λ merged.
            make_halting merged b >>= λ procedure.
            returns (make (record ms { procedure = procedure })) invalidate))
          (sym h)
          (rw made (
            rw halting (
              Succeeds-make (record ms { procedure = Procedure.halting_for_block new b }) invalidate
                (record {
                  made = make-Checks _ (gate-Checks ms block new b (Checks-make ms v.made) h);
                  block_made = v.block_made;
                  procedure_made = (made, halting);
                })))))

pub halt_completed_sound :
    (m : Match)
    → m.procedures ≡ ProcedureKind.halting_for_block ∷ []
    → SoundWith m halt_completed_effect
unfolding halt_completed_effect
halt_completed_sound m n ms event v l f =
    let (block, b, h) = Fires-halting m ms event n f in
    subst
      (λ p.
        Succeeds
          (field_of (halting_parts p) >>= λ (block, b). returns (make (blocked_by block)) []))
      (sym h)
      (blocked_with-Succeeds (BlockContext.record_integrity block) []
        (subst IsProcedure h v.procedure_made).0)

-- ===== src/Domain/Safety/NoLoss.antt =====
-- domain/_rules_integrity.py: the violations that a state holds, before and after a detection.
use claude_code_codex_review.Prelude.{
  ◌≡◌, refl, sym, ap, ◌∙◌, true, false, Bool, elem, List, [], ◌∷◌, ◌++◌, arith, some, none, Option,
  subst, ◌==◌, option_eq, ◌||◌,
}
use claude_code_codex_review.Domain.States.{state_eq}
use claude_code_codex_review.Domain.Commands.{Command}
use claude_code_codex_review.Domain.Errors.{Result, ok, err, ◌>>=◌}
use claude_code_codex_review.Domain.Events.Data.{Event}
use claude_code_codex_review.Domain.Values.Opaque.{OpaqueBinding, binding_eq}
use claude_code_codex_review.Domain.Values.Records.{IntegrityEvidenceRef}
use claude_code_codex_review.Domain.Values.Blocks.{
  Procedure, BlockContext, RecordIntegrityBlock, bindings_of, make_integrity_block, make_halting,
}
use claude_code_codex_review.Domain.Values.Integrity.{canonicalize_integrity}
use claude_code_codex_review.Domain.Values.Machine.{MachineState, make}
use claude_code_codex_review.Domain.Rules.Match.{Outcome}
use claude_code_codex_review.Domain.Workflow.Effects.{returns, field_of}
use claude_code_codex_review.Domain.Integrity.Effects.{
  integrity_block, halting_parts, union_deferred, invalidate, blocked_by, detect_union_effect,
  detect_direct_block_effect, detect_halt_gate_effect, detect_blocked_union_effect,
  detect_halt_gate_union_effect,
}
use claude_code_codex_review.Domain.Validity.{Succeeds}
use claude_code_codex_review.Domain.Validity.Shape.{Checks-make, make-Checks}
use claude_code_codex_review.Domain.Safety.Violations.{
  elem-union, make_integrity_block-ok, canonical-InOrder, union-nonempty, make_halting-ok,
}

abbrev pub block_bindings : Option BlockContext → List OpaqueBinding
block_bindings (some (BlockContext.record_integrity block)) = bindings_of block.violations
block_bindings _ = []

abbrev pub gate_bindings : Procedure → List OpaqueBinding
gate_bindings (Procedure.halting_for_block block _) = bindings_of block.violations
gate_bindings _ = []

-- The state holds a violation with this binding: deferred, in its block, or in the halt gate.
abbrev pub holds_violation : OpaqueBinding → MachineState → Bool
holds_violation b ms =
    elem b (bindings_of ms.deferred_integrity)
    || (elem b (block_bindings ms.block) || elem b (gate_bindings ms.procedure))

-- The answer of a detection: approvals are invalidated first, and what is held afterwards is what
-- was held before and the detected violation.
abbrev pub Keeping : MachineState → IntegrityEvidenceRef → OpaqueBinding → Result Outcome → Type 0
Keeping ms evidence b r =
    (after : MachineState) × (extra : List Command) × (r
      ≡ ok (after, Command.invalidate_approvals ∷ extra))
    × (holds_violation b after ≡ (holds_violation b ms || b == evidence.binding))

pub make-same : (ms after : MachineState) → make ms ≡ ok after → after ≡ ms
make-same ms after h =
    ap (λ r. elim r [ ok x ↦ x | err e ↦ after ]) (sym h ∙ make-Checks ms (Checks-make ms h))

pub returned :
    (ms : MachineState) (commands : List Command)
    → Succeeds (returns (make ms) commands)
    → returns (make ms) commands ≡ ok (ms, commands)
returned ms commands s = go (make ms) refl s
  where
    go :
        (r : Result MachineState)
        → make ms ≡ r
        → Succeeds (returns r commands)
        → returns r commands ≡ ok (ms, commands)
    go (ok after) e s = ap (λ x. ok (x, commands)) (make-same ms after e)
    go (err x) e s = absurd s

module _ (ms : MachineState) (evidence : IntegrityEvidenceRef) (b : OpaqueBinding) where
  abbrev detection : Event
  detection = Event.record_integrity_violation_detected evidence

  pub union-Keeping :
      (extra : List Command)
      → Succeeds (detect_union_effect extra ms detection)
      → Keeping ms evidence b (detect_union_effect extra ms detection)
  unfolding detect_union_effect union_deferred
  union-Keeping extra s = (
    record ms {
      deferred_integrity = canonicalize_integrity (ms.deferred_integrity ++ evidence ∷ []);
    },
    extra,
    returned _ _ s,
    ground (arith, elem-union b ms.deferred_integrity evidence),
  )

  pub direct_block-Keeping :
      holds_violation b ms ≡ false
      → Succeeds (detect_direct_block_effect ms detection)
      → Keeping ms evidence b (detect_direct_block_effect ms detection)
  unfolding detect_direct_block_effect
  direct_block-Keeping h s =
      let made = make_integrity_block-ok (evidence ∷ []) (tt, tt) refl in
      let e = ap (λ r. r >>= λ block. returns (make (blocked_by block)) invalidate) made in
      (
        blocked_by (record { violations = evidence ∷ [] }),
        [],
        e ∙ returned _ _ (subst Succeeds e s),
        unfold elem in ground arith,
      )

  pub halt_gate-Keeping :
      holds_violation b ms ≡ false
      → ms.block ≡ none
      → Succeeds (detect_halt_gate_effect ms detection)
      → Keeping ms evidence b (detect_halt_gate_effect ms detection)
  unfolding detect_halt_gate_effect
  halt_gate-Keeping h n s =
      let block : RecordIntegrityBlock = record { violations = evidence ∷ [] } in
      let made = make_integrity_block-ok (evidence ∷ []) (tt, tt) refl in
      let halting =
        make_halting-ok block evidence.binding
          (unfold elem in ground (arith, binding_eq.beq_iff evidence.binding evidence.binding)) in
      let after : Procedure → MachineState = λ p. record ms {
        procedure = p;
        awaiting = none;
        pending_record = none;
        deferred_integrity = [];
      } in
      let commands = invalidate ++ Command.halt_run evidence.binding ∷ [] in
      let e =
        ap
          (λ r. r >>= λ block.
            make_halting block evidence.binding >>= λ p. returns (make (after p)) commands)
          made
        ∙ ap (λ r. r >>= λ p. returns (make (after p)) commands) halting in
      (
        after (Procedure.halting_for_block block evidence.binding),
        Command.halt_run evidence.binding ∷ [],
        e ∙ returned _ _ (subst Succeeds e s),
        unfold elem in ground arith,
      )

  -- In a block of this kind the detected violation joins those that the block names.
  pub blocked_union_lem :
      (block : RecordIntegrityBlock)
      → ms.block ≡ some (BlockContext.record_integrity block)
      → Succeeds (detect_blocked_union_effect ms detection)
      → detect_blocked_union_effect ms detection
        ≡ ok (
          record ms {
            block = some (
                BlockContext.record_integrity (record {
                  violations = canonicalize_integrity (block.violations ++ evidence ∷ []);
                }));
          },
          invalidate,
        )
  unfolding detect_blocked_union_effect
  blocked_union_lem block n s =
      let refs = canonicalize_integrity (block.violations ++ evidence ∷ []) in
      let made =
        make_integrity_block-ok refs (canonical-InOrder (block.violations ++ evidence ∷ []))
          (union-nonempty block.violations evidence) in
      let after : RecordIntegrityBlock → MachineState =
        λ m. record ms { block = some (BlockContext.record_integrity m) } in
      let e =
        ap
          (λ o. field_of (integrity_block o) >>= λ block.
            make_integrity_block (canonicalize_integrity (block.violations ++ evidence ∷ []))
            >>= λ m. returns (make (after m)) invalidate)
          n
        ∙ ap (λ r. r >>= λ m. returns (make (after m)) invalidate) made in
      e ∙ returned _ _ (subst Succeeds e s)

  pub blocked_union-Keeping :
      (block : RecordIntegrityBlock)
      → ms.block ≡ some (BlockContext.record_integrity block)
      → Succeeds (detect_blocked_union_effect ms detection)
      → Keeping ms evidence b (detect_blocked_union_effect ms detection)
  blocked_union-Keeping block n s = (
    _,
    [],
    blocked_union_lem block n s,
    ground (arith, n, elem-union b block.violations evidence),
  )

  pub halt_gate_union-Keeping :
      (block : RecordIntegrityBlock) (attempt : OpaqueBinding)
      → ms.procedure ≡ Procedure.halting_for_block block attempt
      → elem attempt (bindings_of block.violations) ≡ true
      → Succeeds (detect_halt_gate_union_effect ms detection)
      → Keeping ms evidence b (detect_halt_gate_union_effect ms detection)
  unfolding detect_halt_gate_union_effect
  halt_gate_union-Keeping block attempt n old s =
      let refs = canonicalize_integrity (block.violations ++ evidence ∷ []) in
      let new : RecordIntegrityBlock = record { violations = refs } in
      let made =
        make_integrity_block-ok refs (canonical-InOrder (block.violations ++ evidence ∷ []))
          (union-nonempty block.violations evidence) in
      let halting =
        make_halting-ok new attempt
          (elem-union attempt block.violations evidence ∙ ground (arith, old)) in
      let after : Procedure → MachineState = λ p. record ms { procedure = p } in
      let e =
        ap
          (λ p. field_of (halting_parts p) >>= λ (block, attempt).
            make_integrity_block (canonicalize_integrity (block.violations ++ evidence ∷ []))
            >>= λ m. make_halting m attempt >>= λ q. returns (make (after q)) invalidate)
          n
        ∙ ap (λ r. r >>= λ m. make_halting m attempt >>= λ q. returns (make (after q)) invalidate)
            made
        ∙ ap (λ r. r >>= λ q. returns (make (after q)) invalidate) halting in
      (
        after (Procedure.halting_for_block new attempt),
        [],
        e ∙ returned _ _ (subst Succeeds e s),
        ground (arith, elem-union b block.violations evidence),
      )

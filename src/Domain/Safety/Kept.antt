-- ===== src/Domain/Safety/Kept.antt =====
-- domain/values.py, domain/_ruledefs.py and domain/_rules_integrity.py: sets of violations.
use claude_code_codex_review.Prelude.{
  ◌≡◌, refl, sym, ap, ◌∙◌, true, false, inl, inr, elem, keep, List, [], ◌∷◌, ◌++◌, Bool-cases,
  arith, some, none, list_eq, option_eq, true-false, ==-refl,
}
use claude_code_codex_review.Domain.Values.Opaque.{OpaqueBinding, binding_eq}
use claude_code_codex_review.Domain.Values.Records.{IntegrityEvidenceRef, BlockResolutionEvidence}
use claude_code_codex_review.Domain.Values.Blocks.{
  BlockContext, Procedure, RecordIntegrityBlock, bindings_of,
}
use claude_code_codex_review.Domain.Values.Integrity.{canonicalize_integrity}
use claude_code_codex_review.Domain.Values.Machine.{MachineState}
use claude_code_codex_review.Domain.Rules.Guards.{
  resolves, expects_violations, resolution_matches, derive_guard_key, procedure_kind,
}
use claude_code_codex_review.Domain.States.{State, state_eq, terminal_states}
use claude_code_codex_review.Domain.Commands.{Command}
use claude_code_codex_review.Domain.Errors.{ok}
use claude_code_codex_review.Domain.Events.Data.{Event, event_type, expected_kind}
use claude_code_codex_review.Domain.Events.Checks.{make_event, check_evidence, check_other}
use claude_code_codex_review.Domain.Values.Kinds.{record_kind_eq}
use claude_code_codex_review.Domain.Rules.Kinds.{BindingMatch}
use claude_code_codex_review.Domain.Rules.Match.{matches}
use claude_code_codex_review.Domain.Integrity.Detection.{rule_i_d7}
use claude_code_codex_review.Domain.Validity.{IsValid}
use claude_code_codex_review.Domain.Machine.{registry, transition}
use claude_code_codex_review.Domain.Safety.NoLoss.{blocked_union_lem}
use claude_code_codex_review.Domain.Safety.Selection.{transition-fires}
use claude_code_codex_review.Domain.Safety.Accepted.{effect-Succeeds}
use claude_code_codex_review.Domain.Safety.Violations.{
  InOrder, canonical-InOrder, InOrder-canonical, elem-canonical, elem-union,
}

-- The canonical form of a sequence of violations is strictly ascending in the bindings, is its own
-- canonical form, and names a binding exactly when the sequence does.
pub canonicalize_integrity-canonical :
    (refs : List IntegrityEvidenceRef) (b : OpaqueBinding)
    → InOrder (canonicalize_integrity refs)
      × ((canonicalize_integrity (canonicalize_integrity refs) ≡ canonicalize_integrity refs)
          × (elem b (bindings_of (canonicalize_integrity refs)) ≡ elem b (bindings_of refs)))
canonicalize_integrity-canonical refs b =
    (canonical-InOrder refs, (InOrder-canonical _ (canonical-InOrder refs), elem-canonical b refs))

-- Evidence resolves a block only if it names the violations that the block names.
named :
    (block : BlockContext) (resolution : BlockResolutionEvidence)
    → resolves block resolution ≡ true
    → resolution.violation_bindings ≡ expects_violations block
unfolding resolves
named block resolution h =
    (option_eq.beq_iff resolution.violation_bindings (expects_violations block)).0 (ground arith)

match-resolves :
    (ms : MachineState) (block : BlockContext) (resolution : BlockResolutionEvidence)
    → ms.block ≡ some block
    → resolution_matches ms resolution ≡ BindingMatch.match
    → resolves block resolution ≡ true
unfolding resolution_matches
match-resolves ms block resolution n h = elim (Bool-cases (resolves block resolution)) [
  | inl e ↦ e
  | inr e ↦ absurd (cc (rw (n, e) at h))
]

resolves-mismatch :
    (ms : MachineState) (block : BlockContext) (resolution : BlockResolutionEvidence)
    → ms.block ≡ some block
    → resolves block resolution ≡ false
    → resolution_matches ms resolution ≡ BindingMatch.mismatch
unfolding resolution_matches
resolves-mismatch ms block resolution n e = rw (n, e) refl

unnamed :
    (block : RecordIntegrityBlock) (evidence : IntegrityEvidenceRef)
    (resolution : BlockResolutionEvidence)
    → resolves (BlockContext.record_integrity block) resolution ≡ true
    → elem evidence.binding (bindings_of block.violations) ≡ false
    → resolves
        (BlockContext.record_integrity
          (record { violations = canonicalize_integrity (block.violations ++ evidence ∷ []) }))
        resolution
      ≡ false
unnamed block evidence resolution h n = elim (Bool-cases (resolves merged resolution)) [
  | inr e ↦ e
  | inl e ↦ absurd (
      true-false (elem evidence.binding (bindings_of merged_violations))
        (elem-union evidence.binding block.violations evidence
          ∙ ground (arith, ==-refl evidence.binding))
        (ap (λ o. elim o [ none ↦ false | some bs ↦ elem evidence.binding bs ])
            (sym (named merged resolution e)
              ∙ named (BlockContext.record_integrity block) resolution h)
          ∙ n))
]
  where
    merged_violations : List IntegrityEvidenceRef
    merged_violations = canonicalize_integrity (block.violations ++ evidence ∷ [])

    merged : BlockContext
    merged = BlockContext.record_integrity (record { violations = merged_violations })

-- In a valid BLOCKED state with an integrity block, where no procedure runs and a resolution matches:
-- once a violation that the block did not name is detected, the detection is accepted, the only
-- command invalidates the approvals, and the same resolution no longer matches the state.
pub detection-resolution_matches :
    (ms : MachineState) (block : RecordIntegrityBlock) (evidence : IntegrityEvidenceRef)
    (resolution : BlockResolutionEvidence)
    → IsValid ms
    → ms.state ≡ State.blocked
    → ms.procedure ≡ Procedure.normal
    → ms.block ≡ some (BlockContext.record_integrity block)
    → resolution_matches ms resolution ≡ BindingMatch.match
    → elem evidence.binding (bindings_of block.violations) ≡ false
    → (after : MachineState) × (transition ms (Event.record_integrity_violation_detected evidence)
        ≡ ok (after, Command.invalidate_approvals ∷ []))
      × (resolution_matches after resolution ≡ BindingMatch.mismatch)
unfolding registry matches derive_guard_key procedure_kind elem keep event_type make_event
    check_evidence check_other expected_kind
detection-resolution_matches ms block evidence resolution v s p n h u =
    let event = Event.record_integrity_violation_detected evidence in
    let t : elem ms.state terminal_states ≡ false = rw s refl in
    let m : matches rule_i_d7.guard ms.state event (derive_guard_key ms event) ≡ true =
      rw (s, p, n) refl in
    let k = effect-Succeeds 128 rule_i_d7 ms event v refl refl m in
    let e = blocked_union_lem ms evidence evidence.binding block n k in
    let merged =
      BlockContext.record_integrity
        (record { violations = canonicalize_integrity (block.violations ++ evidence ∷ []) }) in
    let after = record ms { block = some merged } in
    (
      after,
      transition-fires 128 rule_i_d7 ms event refl t m ∙ e,
      resolves-mismatch after merged resolution refl (
          unnamed block evidence resolution
            (match-resolves ms (BlockContext.record_integrity block) resolution n h) u),
    )

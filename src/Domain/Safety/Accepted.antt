-- ===== src/Domain/Safety/Accepted.antt =====
-- domain/_rules_integrity.py: the detection of a violation, in every kind of state.
use claude_code_codex_review.Prelude.{
  ◌≡◌, refl, sym, ap, true, false, inl, inr, elem, keep, List, [], ◌∷◌, Bool-cases, arith, some,
  none, Option, subst, not, ◌==◌, get_elem?, option_eq, ℕ, is_some, ◌||◌, All, zero, suc,
}
use claude_code_codex_review.Domain.States.{State, state_eq, terminal_states, active_states}
use claude_code_codex_review.Domain.Commands.{Command}
use claude_code_codex_review.Domain.Events.Data.{Event, event_type, expected_kind}
use claude_code_codex_review.Domain.Events.Checks.{IsLegal, make_event, check_evidence, check_other}
use claude_code_codex_review.Domain.Values.Opaque.{OpaqueBinding, binding_eq}
use claude_code_codex_review.Domain.Machine.Disjoint.{matches-Matched}
use claude_code_codex_review.Domain.Safety.Rule.{IsSound}
use claude_code_codex_review.Domain.Safety.Registry.{registry-IsSound}
use claude_code_codex_review.Domain.Safety.Violations.{halting-elem}
use claude_code_codex_review.Domain.Safety.NoLoss.{
  Keeping, holds_violation, block_bindings, union-Keeping, direct_block-Keeping, halt_gate-Keeping,
  blocked_union-Keeping, halt_gate_union-Keeping,
}
use claude_code_codex_review.Domain.Values.Responses.{Awaiting, awaiting_eq}
use claude_code_codex_review.Domain.Values.Records.{IntegrityEvidenceRef}
use claude_code_codex_review.Domain.Values.Blocks.{Procedure, BlockContext, RecordIntegrityBlock}
use claude_code_codex_review.Domain.Values.Machine.{
  MachineState, check_block_scope, check_procedure_shape, check_awaiting_home, check_awaiting,
  check_deferred_scope,
}
use claude_code_codex_review.Domain.Rules.Kinds.{procedure_kind_eq, BlockKind, block_kind_eq}
use claude_code_codex_review.Domain.Rules.Match.{Rule, matches}
use claude_code_codex_review.Domain.Rules.Guards.{derive_guard_key, procedure_kind, block_kind_of}
use claude_code_codex_review.Domain.Integrity.Detection.{
  rule_i_d1, rule_i_d2, rule_i_d3, rule_i_d4, rule_i_d5, rule_i_d5u, rule_i_d6, rule_i_d7,
  rule_i_d8,
}
use claude_code_codex_review.Domain.Validity.{IsValid, Succeeds, IsProcedure}
use claude_code_codex_review.Domain.Validity.Shape.{Checks, Checks-make, block_none, deferred_none}
use claude_code_codex_review.Domain.Machine.{registry, transition}
use claude_code_codex_review.Domain.Safety.Selection.{transition-fires}

abbrev detection : IntegrityEvidenceRef → Event
detection evidence = Event.record_integrity_violation_detected evidence

-- Some detection rule fires, and where its effect succeeds it keeps the violations.
abbrev Fired : MachineState → IntegrityEvidenceRef → OpaqueBinding → Type 0
Fired ms evidence b =
    (rule : Rule) × (i : ℕ) × (get_elem? registry i ≡ some rule)
    × (matches rule.guard ms.state (detection evidence) (derive_guard_key ms (detection evidence))
        ≡ true)
    × (Succeeds (rule.effect ms (detection evidence))
        → Keeping ms evidence b (rule.effect ms (detection evidence)))

-- Nothing is held where nothing is deferred and there is neither a block of this kind nor a halt gate.
nothing-held :
    (ms : MachineState) (b : OpaqueBinding)
    → ms.procedure ≡ Procedure.normal
    → ms.deferred_integrity ≡ []
    → block_bindings ms.block ≡ []
    → holds_violation b ms ≡ false
unfolding elem
nothing-held ms b n d e = rw (n, d, e) refl

preconditions-empty :
    (ms : MachineState)
    → Checks ms
    → ms.procedure ≡ Procedure.normal
    → (ms.awaiting == some Awaiting.merge_preconditions) ≡ true
    → ms.deferred_integrity ≡ []
unfolding check_deferred_scope elem
preconditions-empty ms c n w = let p = c.deferred_scope in ground arith

merging-Fired :
    (ms : MachineState) (evidence : IntegrityEvidenceRef) (b : OpaqueBinding)
    → Checks ms
    → ms.state ≡ State.merging
    → ms.procedure ≡ Procedure.normal
    → is_some ms.awaiting ≡ true
    → Fired ms evidence b
merging-Fired ms evidence b c s n w =
    elim (Bool-cases (ms.awaiting == some Awaiting.merge_preconditions)) [
      | inl e ↦ (
        rule_i_d4,
        124,
        unfold registry in refl,
        unfold matches derive_guard_key procedure_kind elem keep event_type in ground arith,
        direct_block-Keeping ms evidence b (
            nothing-held ms b n (preconditions-empty ms c n e)
              (ap block_bindings (block_none ms c (rw s refl)))),
      )
      | inr e ↦
          let h = c.awaiting_home in
          (
            rule_i_d3,
            123,
            unfold registry in refl,
            unfold matches derive_guard_key procedure_kind elem keep event_type check_awaiting_home
                  check_awaiting in
                ground arith,
            union-Keeping ms evidence b (Command.query_merge_outcome ∷ []),
          )
    ]

integrity_kind :
    (o : Option BlockContext)
    → (block_kind_of o == some BlockKind.record_integrity) ≡ true
    → (block : RecordIntegrityBlock) × (o ≡ some (BlockContext.record_integrity block))
integrity_kind (some (BlockContext.record_integrity block)) h = (block, refl)
integrity_kind (some (BlockContext.progress _)) h = cc
integrity_kind (some (BlockContext.external_dependency _)) h = cc
integrity_kind none h = cc

other_kind :
    (o : Option BlockContext)
    → (block_kind_of o == some BlockKind.record_integrity) ≡ false
    → block_bindings o ≡ []
other_kind (some (BlockContext.record_integrity block)) h = cc
other_kind (some (BlockContext.progress _)) h = refl
other_kind (some (BlockContext.external_dependency _)) h = refl
other_kind none h = refl

blocked-Fired :
    (ms : MachineState) (evidence : IntegrityEvidenceRef) (b : OpaqueBinding)
    → Checks ms
    → ms.state ≡ State.blocked
    → ms.procedure ≡ Procedure.normal
    → Fired ms evidence b
blocked-Fired ms evidence b c s n =
    elim (Bool-cases (block_kind_of ms.block == some BlockKind.record_integrity)) [
      | inl e ↦ (
        rule_i_d7,
        128,
        unfold registry in refl,
        unfold matches derive_guard_key procedure_kind elem keep event_type in ground arith,
        (let (block, f) = integrity_kind ms.block e in blocked_union-Keeping ms evidence b block f),
      )
      | inr e ↦
          let h = c.block_scope in
          (
            rule_i_d8,
            129,
            unfold registry in refl,
            unfold matches derive_guard_key procedure_kind elem keep event_type check_block_scope in
                ground arith,
            direct_block-Keeping ms evidence b
                (nothing-held ms b n (deferred_none ms c n (rw s refl)) (other_kind ms.block e)),
          )
    ]

normal-Fired :
    (ms : MachineState) (evidence : IntegrityEvidenceRef) (b : OpaqueBinding)
    → Checks ms
    → elem ms.state terminal_states ≡ false
    → (is_some ms.awaiting || not (ms.state == State.merging)) ≡ true
    → ms.procedure ≡ Procedure.normal
    → Fired ms evidence b
normal-Fired ms evidence b c t w n = elim (Bool-cases (ms.state == State.merging)) [
  | inl m ↦
      merging-Fired ms evidence b c ((state_eq.beq_iff ms.state State.merging).0 m) n (ground arith)
  | inr m ↦ elim (Bool-cases (ms.state == State.blocked)) [
    | inl k ↦ blocked-Fired ms evidence b c ((state_eq.beq_iff ms.state State.blocked).0 k) n
    | inr k ↦ elim (Bool-cases (elem ms.state active_states)) [
      | inl a ↦ (
        rule_i_d5,
        125,
        unfold registry in refl,
        unfold matches derive_guard_key procedure_kind elem keep event_type in ground arith,
        halt_gate-Keeping ms evidence b
            (nothing-held ms b n (deferred_none ms c n m) (ap block_bindings (block_none ms c k)))
            (block_none ms c k),
      )
      | inr a ↦ (
        rule_i_d6,
        127,
        unfold registry in refl,
        unfold matches derive_guard_key procedure_kind elem keep event_type in ground arith,
        direct_block-Keeping ms evidence b
            (nothing-held ms b n (deferred_none ms c n m) (ap block_bindings (block_none ms c k))),
      )
    ]
  ]
]

detected-Fired :
    (ms : MachineState) (evidence : IntegrityEvidenceRef) (b : OpaqueBinding)
    → Checks ms
    → IsProcedure ms.procedure
    → elem ms.state terminal_states ≡ false
    → (is_some ms.awaiting || not (ms.state == State.merging)) ≡ true
    → Fired ms evidence b
detected-Fired ms evidence b c v t w = go ms.procedure refl
  where
    go : (p : Procedure) → ms.procedure ≡ p → Fired ms evidence b
    go (Procedure.recording_incident target audit) e = (
      rule_i_d1,
      121,
      unfold registry in refl,
      unfold matches derive_guard_key procedure_kind elem keep event_type in ground arith,
      union-Keeping ms evidence b [],
    )
    go (Procedure.cancelling attempt) e =
        let p = c.procedure_shape in
        (
          rule_i_d2,
          122,
          unfold registry in refl,
          unfold matches derive_guard_key procedure_kind elem keep event_type
                check_procedure_shape in
              ground arith,
          union-Keeping ms evidence b [],
        )
    go (Procedure.halting_for_block block attempt) e =
        let p = c.procedure_shape in
        (
          rule_i_d5u,
          126,
          unfold registry in refl,
          unfold matches derive_guard_key procedure_kind elem keep event_type
                check_procedure_shape in
              ground arith,
          halt_gate_union-Keeping ms evidence b block attempt e
              (halting-elem block attempt (subst IsProcedure e v).1),
        )
    go Procedure.normal e = normal-Fired ms evidence b c t w e

All-get :
    (rules : List Rule) (i : ℕ) (rule : Rule)
    → All IsSound rules
    → get_elem? rules i ≡ some rule
    → IsSound rule
All-get [] i rule h g = cc
All-get (x ∷ xs) zero rule h g = subst IsSound (ap (λ o. elim o [ none ↦ x | some y ↦ y ]) g) h.0
All-get (x ∷ xs) (suc i) rule h g = All-get xs i rule h.1 g

-- Where a rule of the registry fires in a valid state on a legal event, its effect succeeds.
pub effect-Succeeds :
    (i : ℕ) (rule : Rule) (ms : MachineState) (event : Event)
    → IsValid ms
    → IsLegal event
    → get_elem? registry i ≡ some rule
    → matches rule.guard ms.state event (derive_guard_key ms event) ≡ true
    → Succeeds (rule.effect ms event)
effect-Succeeds i rule ms event v l g m =
    All-get registry i rule registry-IsSound g ms event v l
      (matches-Matched rule.guard ms.state event _ m)

-- In every valid state that is not terminal (and, in MERGING, awaits a response), the detection of
-- a violation is not rejected: the transition answers a state, and commands of which the first
-- invalidates the approvals. Afterwards the violations that the state holds (deferred, in its block
-- or in its halt gate) are exactly those that it held before and the detected one.
pub detection-accepted :
    (ms : MachineState) (evidence : IntegrityEvidenceRef) (b : OpaqueBinding)
    → IsValid ms
    → elem ms.state terminal_states ≡ false
    → (is_some ms.awaiting || not (ms.state == State.merging)) ≡ true
    → Keeping ms evidence b (transition ms (Event.record_integrity_violation_detected evidence))
unfolding make_event check_evidence check_other expected_kind
detection-accepted ms evidence b v t w =
    let (rule, i, g, m, k) =
      detected-Fired ms evidence b (Checks-make ms v.made) v.procedure_made t w in
    subst (Keeping ms evidence b) (sym (transition-fires i rule ms (detection evidence) g t m))
      (k (effect-Succeeds i rule ms (detection evidence) v refl g m))

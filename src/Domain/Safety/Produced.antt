-- ===== src/Domain/Safety/Produced.antt =====
-- domain/_rules_workflow.py: a produced record becomes the pending one.
use claude_code_codex_review.Prelude.{
  none, some, List, [], ◌∷◌, true, false, not, ◌==◌, ◌≡◌, refl, sym, arith, elem, elem-all,
  elem-singleton, all, not-true, ◌⊎◌, inl, inr, subst,
}
use claude_code_codex_review.Domain.States.{State, state_eq, terminal_states}
use claude_code_codex_review.Domain.Commands.{Command}
use claude_code_codex_review.Domain.Events.Types.{EventType}
use claude_code_codex_review.Domain.Events.Data.{Event}
use claude_code_codex_review.Domain.Values.Kinds.{RecordKind, record_kind_eq}
use claude_code_codex_review.Domain.Values.Opaque.{OpaqueBinding}
use claude_code_codex_review.Domain.Values.Responses.{awaiting_eq}
use claude_code_codex_review.Domain.Values.Records.{PendingRecord}
use claude_code_codex_review.Domain.Values.Blocks.{Procedure}
use claude_code_codex_review.Domain.Values.Machine.{
  MachineState, bare, make, check_canonical_deferred, check_terminal_bare, check_block_scope,
  check_recovery_scope, check_return_scope, check_procedure_shape, check_deferred_scope,
  check_pending_home, check_awaiting_home, check_pending,
}
use claude_code_codex_review.Domain.Rules.Kinds.{ProcedureKind}
use claude_code_codex_review.Domain.Rules.Match.{Match, Effect, allows_some}
use claude_code_codex_review.Domain.Rules.Guards.{derive_guard_key}
use claude_code_codex_review.Domain.Workflow.Effects.{produced_effect, returns}
use claude_code_codex_review.Domain.Validity.{IsValid, Succeeds}
use claude_code_codex_review.Domain.Validity.Shape.{
  Checks, Checks-make, make-Checks, plain, canonical-ok, canonicalize-nil, blocked-awaiting,
}
use claude_code_codex_review.Domain.Safety.Rule.{
  SoundWith, Fires, Fires-normal, Succeeds-make, settled_with,
}
use claude_code_codex_review.Domain.Safety.Events.{IsOf-match, produced_inv}

abbrev holding : State → PendingRecord → MachineState
holding s p = record (bare s) { pending_record = some p }

holding-Checks :
    (s : State) (p : PendingRecord)
    → plain s ≡ true
    → elem s terminal_states ≡ false
    → p.source_state ≡ s
    → (p.kind == RecordKind.integrity_incident) ≡ false
    → Checks (holding s p)
unfolding check_terminal_bare check_block_scope check_recovery_scope check_return_scope
    check_procedure_shape check_deferred_scope check_pending_home check_awaiting_home elem
holding-Checks s p h t src k = record {
  canonical_deferred = canonical-ok (holding s p) canonicalize-nil;
  terminal_bare = rw t;
  block_scope = ground arith;
  recovery_scope = refl;
  return_scope = ground arith;
  procedure_shape = refl;
  deferred_scope = refl;
  pending_home = ground (arith, state_eq.beq_iff s p.source_state);
  awaiting_home = refl;
}

-- A cancel request, or an intervention in a block, waits beside what the state already holds.
beside-Checks :
    (ms : MachineState) (p : PendingRecord)
    → Checks ms
    → ms.procedure ≡ Procedure.normal
    → elem ms.state terminal_states ≡ false
    → p.source_state ≡ ms.state
    → (p.kind ≡ RecordKind.user_cancel)
      ⊎ ((p.kind ≡ RecordKind.block_intervention) × (ms.awaiting ≡ none))
    → Checks (record ms { pending_record = some p })
unfolding check_canonical_deferred check_terminal_bare check_block_scope check_recovery_scope
    check_return_scope check_procedure_shape check_deferred_scope check_pending_home
    check_awaiting_home check_pending elem
beside-Checks ms p c n t src k = record {
  canonical_deferred = c.canonical_deferred;
  terminal_bare = rw t;
  block_scope = let b = c.block_scope in ground arith;
  recovery_scope = c.recovery_scope;
  return_scope = c.return_scope;
  procedure_shape = let b = c.procedure_shape in ground arith;
  deferred_scope = c.deferred_scope;
  pending_home = ground (arith, state_eq.beq_iff ms.state p.source_state);
  awaiting_home = c.awaiting_home;
}

-- The state of a pending record and nothing else is built, and is valid.
holding-Succeeds :
    (ms : MachineState) (p : PendingRecord) (commands : List Command)
    → IsValid ms
    → ms.procedure ≡ Procedure.normal
    → plain ms.state ≡ true
    → elem ms.state terminal_states ≡ false
    → p.source_state ≡ ms.state
    → (p.kind == RecordKind.integrity_incident) ≡ false
    → Succeeds (returns (make (record ms { awaiting = none; pending_record = some p })) commands)
holding-Succeeds ms p commands v n h t src k =
    rw (settled_with ms (Checks-make ms v.made) n h ms.state none (some p)) (
      Succeeds-make (holding ms.state p) commands (record {
        made = make-Checks (holding ms.state p) (holding-Checks ms.state p h t src k);
        block_made = tt;
        procedure_made = tt;
      }))

pub beside-Succeeds :
    (ms : MachineState) (p : PendingRecord) (commands : List Command)
    → IsValid ms
    → ms.procedure ≡ Procedure.normal
    → elem ms.state terminal_states ≡ false
    → p.source_state ≡ ms.state
    → (p.kind ≡ RecordKind.user_cancel)
      ⊎ ((p.kind ≡ RecordKind.block_intervention) × (ms.awaiting ≡ none))
    → Succeeds (returns (make (record ms { pending_record = some p })) commands)
beside-Succeeds ms p commands v n t src k =
    Succeeds-make (record ms { pending_record = some p }) commands
      (record {
        made = make-Checks _ (beside-Checks ms p (Checks-make ms v.made) n t src k);
        block_made = v.block_made;
        procedure_made = v.procedure_made;
      })

-- The kind of a produced record is the one that the rule names.
pub produced_kind_is :
    (m : Match) (ms : MachineState) (kind k : RecordKind) (b : OpaqueBinding)
    → m.record_kinds ≡ some (kind ∷ [])
    → Fires m ms (Event.record_produced k b)
    → k ≡ kind
unfolding derive_guard_key
produced_kind_is m ms kind k b ks f =
    elem-singleton k kind (subst (λ s. allows_some s (some k) ≡ true) ks f.record_kinds)

-- A rule for produced records need only be checked at a produced record.
pub produced-only :
    (m : Match) (effect : Effect) (ms : MachineState) (event : Event)
    → m.event_type ≡ EventType.record_produced
    → ((k : RecordKind) (b : OpaqueBinding)
        → Fires m ms (Event.record_produced k b)
        → Succeeds (effect ms (Event.record_produced k b)))
    → Fires m ms event
    → Succeeds (effect ms event)
produced-only m effect ms event t at f =
    let (k, b, e) = produced_inv event (IsOf-match m ms event EventType.record_produced t f) in
    subst (λ event. Fires m ms event → Succeeds (effect ms event)) (sym e) (at k b) f

-- The awaited response is consumed: rows P-01 to P-20.
pub produced_sound :
    (m : Match) (kind : RecordKind)
    → m.procedures ≡ ProcedureKind.normal ∷ []
    → m.event_type ≡ EventType.record_produced
    → m.record_kinds ≡ some (kind ∷ [])
    → (kind == RecordKind.integrity_incident) ≡ false
    → all plain m.states ≡ true
    → all (λ s. not (elem s terminal_states)) m.states ≡ true
    → SoundWith m (produced_effect false)
unfolding produced_effect
produced_sound m kind n t ks k p q ms event v l f =
    produced-only m (produced_effect false) ms event t
      (λ k' b g.
        holding-Succeeds ms (record { kind = k'; binding = b; source_state = ms.state })
          (Command.persist_record k' b ∷ []) v (Fires-normal m ms event n f)
          (elem-all plain ms.state m.states f.states p)
          (not-true _ (elem-all (λ s. not (elem s terminal_states)) ms.state m.states f.states q))
          refl (rw (produced_kind_is m ms kind k' b ks g) k))
      f

-- The awaited response stays: a cancel request (P-21).
pub produced_cancel_sound :
    (m : Match)
    → m.procedures ≡ ProcedureKind.normal ∷ []
    → m.event_type ≡ EventType.record_produced
    → m.record_kinds ≡ some (RecordKind.user_cancel ∷ [])
    → all (λ s. not (elem s terminal_states)) m.states ≡ true
    → SoundWith m (produced_effect true)
unfolding produced_effect
produced_cancel_sound m n t ks q ms event v l f =
    produced-only m (produced_effect true) ms event t
      (λ k b g.
        beside-Succeeds ms (record { kind = k; binding = b; source_state = ms.state })
          (Command.persist_record k b ∷ []) v (Fires-normal m ms event n f)
          (not-true _ (elem-all (λ s. not (elem s terminal_states)) ms.state m.states f.states q))
          refl (inl (produced_kind_is m ms RecordKind.user_cancel k b ks g)))
      f

-- An intervention in a block (P-22, P-23).
pub produced_intervention_sound :
    (m : Match)
    → m.procedures ≡ ProcedureKind.normal ∷ []
    → m.event_type ≡ EventType.record_produced
    → m.record_kinds ≡ some (RecordKind.block_intervention ∷ [])
    → m.states ≡ State.blocked ∷ []
    → SoundWith m (produced_effect true)
unfolding produced_effect elem
produced_intervention_sound m n t ks q ms event v l f =
    let b : ms.state ≡ State.blocked =
      elem-singleton ms.state State.blocked (subst (λ s. elem ms.state s ≡ true) q f.states) in
    produced-only m (produced_effect true) ms event t
      (λ k x g.
        beside-Succeeds ms (record { kind = k; binding = x; source_state = ms.state })
          (Command.persist_record k x ∷ []) v (Fires-normal m ms event n f) (ground arith) refl
          (inr (
            produced_kind_is m ms RecordKind.block_intervention k x ks g,
            blocked-awaiting ms (Checks-make ms v.made) b,
          )))
      f

-- ===== src/Domain/Safety/Resume.antt =====
-- domain/_rules_recovery.py: failure and resuming.
use claude_code_codex_review.Prelude.{
  Option, none, some, List, [], ◌∷◌, Bool, true, false, not, ◌==◌, ◌≡◌, ◌⊎◌, refl, sym, ap, is_some,
  is_some-true, arith, elem, elem-all, all, not-true, ==-sym, ◌&&◌, keep, inl, inr, subst,
  Bool-cases, option_eq, if◌then◌else◌,
}
use mathlib.Core.Path.{ap₂}
use claude_code_codex_review.Domain.States.{State, state_eq, active_states}
use claude_code_codex_review.Domain.Commands.{Command}
use claude_code_codex_review.Domain.Errors.{ok, ◌>>=◌, raise_if}
use claude_code_codex_review.Domain.Values.Codes.{IllegalStateCode}
use claude_code_codex_review.Domain.Events.Data.{Event}
use claude_code_codex_review.Domain.Values.Kinds.{record_kind_eq}
use claude_code_codex_review.Domain.Values.Responses.{Awaiting, awaiting_eq}
use claude_code_codex_review.Domain.Values.Records.{PendingRecord}
use claude_code_codex_review.Domain.Values.Blocks.{Procedure}
use claude_code_codex_review.Domain.Values.Machine.{
  MachineState, make, check_canonical_deferred, check_terminal_bare, check_block_scope,
  check_recovery_scope, check_return_scope, check_procedure_shape, check_deferred_scope,
  check_pending_home, check_awaiting_home, check_pending, check_awaiting, holds,
}
use claude_code_codex_review.Domain.Rules.Kinds.{
  ProcedureKind, PendingMatch, procedure_kind_eq, pending_match_eq,
}
use claude_code_codex_review.Domain.Rules.Match.{Match, allows, agrees}
use claude_code_codex_review.Domain.Rules.Guards.{derive_guard_key}
use claude_code_codex_review.Domain.Rules.Tables.{awaiting_commands}
use claude_code_codex_review.Domain.Workflow.Effects.{returns, field_of, key_of}
use claude_code_codex_review.Domain.Validity.{IsValid, Succeeds}
use claude_code_codex_review.Domain.Validity.Shape.{Checks, Checks-make, passed, make-Checks}
use claude_code_codex_review.Domain.Safety.Rule.{SoundWith, Fires, Fires-normal, Succeeds-make}
use claude_code_codex_review.Domain.Safety.Events.{Fires-absent, Fires-present}
use claude_code_codex_review.Domain.Recovery.Effects.{
  fail_to_recovery, resume_pending, resume_awaiting_failed, resume_awaiting_live,
}
use claude_code_codex_review.Domain.Recovery.Resume.{any_awaiting}
use claude_code_codex_review.Domain.Safety.Merge.{state_is}

pub failing-Checks :
    (ms : MachineState)
    → Checks ms
    → ms.procedure ≡ Procedure.normal
    → elem ms.state active_states ≡ true
    → (ms.state == State.merging) ≡ false
    → Checks (record ms { state = State.failed; recovery_to = some ms.state })
unfolding check_canonical_deferred check_terminal_bare check_block_scope check_recovery_scope
    check_return_scope check_procedure_shape check_deferred_scope check_pending_home
    check_awaiting_home check_pending check_awaiting elem keep
failing-Checks ms c n a s = record {
  canonical_deferred = c.canonical_deferred;
  terminal_bare = refl;
  block_scope = let b = c.block_scope in ground arith;
  recovery_scope = ground arith;
  return_scope = let b = c.return_scope in ground arith;
  procedure_shape = rw n refl;
  deferred_scope = let b = c.deferred_scope in ground arith;
  pending_home = let b = c.pending_home in ground (arith, state_eq.beq_iff);
  awaiting_home = let b = c.awaiting_home in ground arith;
}

pub fail_sound :
    (m : Match)
    → m.procedures ≡ ProcedureKind.normal ∷ []
    → all (λ s. elem s active_states) m.states ≡ true
    → all (λ s. not (s == State.merging)) m.states ≡ true
    → SoundWith m fail_to_recovery
unfolding fail_to_recovery
fail_sound m n a q ms event v l f = Succeeds-make _ _ (record {
  made = make-Checks _ (
      failing-Checks ms (Checks-make ms v.made) (Fires-normal m ms event n f)
        (elem-all (λ s. elem s active_states) ms.state m.states f.states a)
        (not-true _ (elem-all (λ s. not (s == State.merging)) ms.state m.states f.states q)));
  block_made = v.block_made;
  procedure_made = v.procedure_made;
})

-- Back from FAILED to the state that failed.
restored-Checks :
    (ms : MachineState) (s : State)
    → Checks ms
    → ms.procedure ≡ Procedure.normal
    → ms.state ≡ State.failed
    → ms.recovery_to ≡ some s
    → (ms.pending_record ≡ none)
      ⊎ ((p : PendingRecord) × (ms.pending_record ≡ some p) × (p.source_state ≡ s))
    → Checks (record ms { state = s; recovery_to = none })
unfolding check_canonical_deferred check_terminal_bare check_block_scope check_recovery_scope
    check_return_scope check_procedure_shape check_deferred_scope check_pending_home
    check_awaiting_home check_pending check_awaiting elem keep
restored-Checks ms s c n e r k = record {
  canonical_deferred = c.canonical_deferred;
  terminal_bare = let b = c.recovery_scope in ground arith;
  block_scope = let b = c.block_scope in let d = c.recovery_scope in ground arith;
  recovery_scope = refl;
  return_scope = let b = c.return_scope in let d = c.recovery_scope in ground arith;
  procedure_shape = rw n refl;
  deferred_scope = let b = c.deferred_scope in ground arith;
  pending_home =
      let b = c.pending_home in let d = c.recovery_scope in ground (arith, state_eq.beq_iff);
  awaiting_home = let b = c.awaiting_home in ground arith;
}

restored-Succeeds :
    (ms : MachineState) (s : State) (commands : List Command)
    → IsValid ms
    → ms.procedure ≡ Procedure.normal
    → ms.state ≡ State.failed
    → ms.recovery_to ≡ some s
    → (ms.pending_record ≡ none)
      ⊎ ((p : PendingRecord) × (ms.pending_record ≡ some p) × (p.source_state ≡ s))
    → Succeeds (returns (make (record ms { state = s; recovery_to = none })) commands)
restored-Succeeds ms s commands v n e r k = Succeeds-make _ commands (record {
  made = make-Checks _ (restored-Checks ms s (Checks-make ms v.made) n e r k);
  block_made = v.block_made;
  procedure_made = v.procedure_made;
})

home_or_failed :
    (x y : Bool) (code : IllegalStateCode)
    → raise_if (not x && not y) code ≡ ok tt
    → x ≡ false
    → y ≡ true
home_or_failed x y code h k = ground arith

recovered :
    (x y z : Bool) (code : IllegalStateCode)
    → raise_if (x && (not y && not z)) code ≡ ok tt
    → x ≡ true
    → y ≡ false
    → z ≡ true
recovered x y z code h k l = ground arith

held_by : (s : State) (o : Option State) → holds (λ r. r == s) o ≡ true → o ≡ some s
held_by s none h = cc
held_by s (some r) h = ap some ((state_eq.beq_iff r s).0 h)

pending_checked :
    (ms : MachineState) (p : PendingRecord)
    → Checks ms
    → ms.pending_record ≡ some p
    → check_pending ms p ≡ ok tt
unfolding check_pending_home
pending_checked ms p c e = let b = c.pending_home in ground arith

-- A pending record away from its own state was carried over to FAILED.
carried :
    (ms : MachineState) (p : PendingRecord)
    → check_pending ms p ≡ ok tt
    → (p.source_state == ms.state) ≡ false
    → (ms.state ≡ State.failed) × (ms.recovery_to ≡ some p.source_state)
unfolding check_pending
carried ms p c h =
    let a = passed _ _ c in
    let b = passed _ _ a.1 in
    let d = passed _ _ b.1 in
    let x =
      home_or_failed (ms.state == p.source_state) (ms.state == State.failed) _ a.0
        (==-sym p.source_state ms.state h) in
    let e = (state_eq.beq_iff ms.state State.failed).0 x in
    (
      e,
      held_by p.source_state ms.recovery_to (
          recovered (ms.state == State.failed) (p.source_state == State.failed)
            (holds (λ s. s == p.source_state) ms.recovery_to) _ d.1 x
            (subst (λ s. (p.source_state == s) ≡ false) e h)),
    )

resume_pending_at :
    (ms : MachineState) (event : Event) (p : PendingRecord)
    → ms.pending_record ≡ some p
    → resume_pending ms event
      ≡ returns
          (make (record ms {
            state = p.source_state;
            recovery_to = if p.source_state == ms.state then ms.recovery_to else none;
          }))
          (Command.persist_record p.kind p.binding ∷ [])
unfolding resume_pending
resume_pending_at ms event p e =
    ap
      (λ (o : Option PendingRecord). field_of o >>= λ pending.
        returns
          (make (record ms {
            state = pending.source_state;
            recovery_to = if pending.source_state == ms.state then ms.recovery_to else none;
          }))
          (Command.persist_record pending.kind pending.binding ∷ []))
      e

resumed_here :
    (ms : MachineState) (s : State) (commands : List Command)
    → IsValid ms
    → s ≡ ms.state
    → Succeeds (returns (make (record ms { state = s; recovery_to = ms.recovery_to })) commands)
resumed_here ms s commands v e =
    subst
      (λ s.
        Succeeds (returns (make (record ms { state = s; recovery_to = ms.recovery_to })) commands))
      (sym e) (Succeeds-make ms commands v)

pub resume_pending_sound :
    (m : Match)
    → m.procedures ≡ ProcedureKind.normal ∷ []
    → m.pending ≡ some (PendingMatch.present ∷ [])
    → SoundWith m resume_pending
resume_pending_sound m n q ms event v l f =
    let (p, e) = Fires-present m ms event PendingMatch.present refl q f in
    rw (resume_pending_at ms event p e) (elim (Bool-cases (p.source_state == ms.state)) [
      | inl h ↦ rw h (
          resumed_here ms p.source_state (Command.persist_record p.kind p.binding ∷ []) v
            ((state_eq.beq_iff p.source_state ms.state).0 h))
      | inr h ↦
          let (s, r) = carried ms p (pending_checked ms p (Checks-make ms v.made) e) h in
          rw h (
            restored-Succeeds ms p.source_state (Command.persist_record p.kind p.binding ∷ []) v
              (Fires-normal m ms event n f) s r (inr (p, e, refl)))
    ])

-- The state that a rule needs is there: `awaiting=_ANY_AWAITING`, `recovery_present=True`.
Fires-awaiting :
    (m : Match) (ms : MachineState) (event : Event)
    → m.awaiting ≡ some any_awaiting
    → Fires m ms event
    → (a : Awaiting) × (ms.awaiting ≡ some a)
unfolding derive_guard_key elem
Fires-awaiting m ms event w f =
    go ms.awaiting (subst (λ x. allows x ms.awaiting ≡ true) w f.awaiting)
  where
    go : (o : Option Awaiting) → elem o any_awaiting ≡ true → (a : Awaiting) × (o ≡ some a)
    go none h = cc
    go (some a) h = (a, refl)

pub Fires-recovery :
    (m : Match) (ms : MachineState) (event : Event)
    → m.recovery_present ≡ some true
    → Fires m ms event
    → (s : State) × (ms.recovery_to ≡ some s)
unfolding derive_guard_key
Fires-recovery m ms event w f =
    is_some-true ms.recovery_to
      (subst (λ x. agrees x (is_some ms.recovery_to) ≡ true) w f.recovery_present)

pub resume_failed_at :
    (ms : MachineState) (event : Event) (s : State) (a : Awaiting)
    → ms.recovery_to ≡ some s
    → ms.awaiting ≡ some a
    → resume_awaiting_failed ms event
      ≡ returns (make (record ms { state = s; recovery_to = none })) (awaiting_commands a)
unfolding resume_awaiting_failed
resume_failed_at ms event s a r w =
    ap₂
      (λ (o : Option State) (q : Option Awaiting). field_of o >>= λ t.
        make (record ms { state = t; recovery_to = none }) >>= λ made.
        key_of q >>= λ b. ok (made, awaiting_commands b))
      r w

pub resume_failed_sound :
    (m : Match)
    → m.procedures ≡ ProcedureKind.normal ∷ []
    → m.states ≡ State.failed ∷ []
    → m.awaiting ≡ some any_awaiting
    → m.pending ≡ some (PendingMatch.absent ∷ [])
    → m.recovery_present ≡ some true
    → SoundWith m resume_awaiting_failed
resume_failed_sound m n q w pe r ms event v l f =
    let (a, e) = Fires-awaiting m ms event w f in
    let (s, x) = Fires-recovery m ms event r f in
    rw (resume_failed_at ms event s a x e) (
      restored-Succeeds ms s (awaiting_commands a) v (Fires-normal m ms event n f)
        (state_is m ms event State.failed q f) x (inl (Fires-absent m ms event f pe)))

pub resume_live_sound :
    (m : Match) → m.awaiting ≡ some any_awaiting → SoundWith m resume_awaiting_live
unfolding resume_awaiting_live
resume_live_sound m w ms event v l f =
    let (a, e) = Fires-awaiting m ms event w f in
    subst (λ o. Succeeds (key_of o >>= λ b. ok (ms, awaiting_commands b))) (sym e) v

-- ===== src/Domain/Safety/Merge.antt =====
-- domain/_rules_recovery.py: the states of the merge transaction.
use claude_code_codex_review.Prelude.{
  Option, none, some, List, [], ◌∷◌, true, false, ◌≡◌, ◌⊎◌, refl, arith, elem, elem-all,
  elem-singleton, all, inl, inr, subst, option_eq,
}
use claude_code_codex_review.Domain.States.{State, state_eq, terminal_states}
use claude_code_codex_review.Domain.Commands.{Command}
use claude_code_codex_review.Domain.Events.Data.{Event}
use claude_code_codex_review.Domain.Values.Kinds.{record_kind_eq}
use claude_code_codex_review.Domain.Values.Responses.{Awaiting, awaiting_eq}
use claude_code_codex_review.Domain.Values.Blocks.{Procedure}
use claude_code_codex_review.Domain.Values.Machine.{MachineState, make, check_deferred_scope}
use claude_code_codex_review.Domain.Rules.Kinds.{ProcedureKind, PendingMatch}
use claude_code_codex_review.Domain.Rules.Match.{Match, allows}
use claude_code_codex_review.Domain.Rules.Guards.{derive_guard_key}
use claude_code_codex_review.Domain.Workflow.Effects.{returns, target}
use claude_code_codex_review.Domain.Validity.{Succeeds}
use claude_code_codex_review.Domain.Validity.Shape.{
  Checks, Checks-make, plain, block_none, return_none, recovery_none, waits, fits,
}
use claude_code_codex_review.Domain.Safety.Rule.{
  SoundWith, Fires, Fires-normal, Succeeds-make, settled, waits-IsValid,
}
use claude_code_codex_review.Domain.Safety.Events.{Fires-absent}
use claude_code_codex_review.Domain.Recovery.Effects.{fresh_review, to_merging, merge_effect}

-- Nothing is held beside the awaited response.
pub quiet :
    (ms : MachineState)
    → Checks ms
    → ms.procedure ≡ Procedure.normal
    → ms.pending_record ≡ none
    → ms.deferred_integrity ≡ []
    → elem ms.state (State.blocked ∷ State.failed ∷ State.awaiting_tool_permission ∷ []) ≡ false
    → (s : State) (a : Option Awaiting) → record ms { state = s; awaiting = a } ≡ waits s a
unfolding elem
quiet ms c n e d h s a =
    let t = return_none ms c (ground arith) in
    let r = recovery_none ms c (ground arith) in
    let b = block_none ms c (ground arith) in
    λ i. record {
      state = s;
      procedure = n i;
      awaiting = a;
      pending_record = e i;
      deferred_integrity = d i;
      return_to = t i;
      recovery_to = r i;
      block = b i;
    }

pub waits-Succeeds :
    (s : State) (a : Option Awaiting) (commands : List Command)
    → fits s a ≡ true
    → Succeeds (returns (make (waits s a)) commands)
waits-Succeeds s a commands h = Succeeds-make (waits s a) commands (waits-IsValid s a h)

pub state_is :
    (m : Match) (ms : MachineState) (event : Event) (s : State)
    → m.states ≡ s ∷ []
    → Fires m ms event
    → ms.state ≡ s
state_is m ms event s q f =
    elem-singleton ms.state s (subst (λ x. elem ms.state x ≡ true) q f.states)

pub fresh_review_sound : (m : Match) → SoundWith m fresh_review
unfolding fresh_review elem
fresh_review_sound m ms event v l f =
    waits-Succeeds State.running_review (some Awaiting.codex_code_review) _ refl

pub to_merging_sound :
    (m : Match)
    → m.procedures ≡ ProcedureKind.normal ∷ []
    → all plain m.states ≡ true
    → SoundWith m to_merging
unfolding to_merging elem
to_merging_sound m n p ms event v l f =
    rw
      (settled ms (Checks-make ms v.made) (Fires-normal m ms event n f)
        (elem-all plain ms.state m.states f.states p) State.merging
        (some Awaiting.merge_preconditions))
      (waits-Succeeds State.merging (some Awaiting.merge_preconditions) _ refl)

pub terminal_sound :
    (m : Match) (to : State) (commands : List Command)
    → elem to terminal_states ≡ true
    → SoundWith m (merge_effect (some to) none commands)
unfolding merge_effect
terminal_sound m to commands h ms event v l f =
    rw h (waits-Succeeds to none commands (terminal-fits to h))
  where
    terminal-fits : (s : State) → elem s terminal_states ≡ true → fits s none ≡ true
    terminal-fits s h = unfold elem in ground arith

-- `deferred_nonempty=False`.
pub Fires-empty :
    (m : Match) (ms : MachineState) (event : Event)
    → m.deferred_nonempty ≡ some false
    → Fires m ms event
    → ms.deferred_integrity ≡ []
unfolding derive_guard_key
Fires-empty m ms event d f = let p = f.deferred_nonempty in ground arith

-- At the stage of the preconditions nothing is deferred.
pub preconditions_empty :
    (m : Match) (ms : MachineState) (event : Event)
    → m.procedures ≡ ProcedureKind.normal ∷ []
    → m.awaiting ≡ some (some Awaiting.merge_preconditions ∷ [])
    → Checks ms
    → Fires m ms event
    → ms.deferred_integrity ≡ []
unfolding derive_guard_key check_deferred_scope elem
preconditions_empty m ms event n w c f =
    let a : ms.awaiting ≡ some Awaiting.merge_preconditions =
      elem-singleton ms.awaiting _ (subst (λ x. allows x ms.awaiting ≡ true) w f.awaiting) in
    let q = Fires-normal m ms event n f in let p = c.deferred_scope in ground arith

-- A step inside the merge, or out of it into a state that waits for nothing.
pub merge_sound :
    (m : Match) (to : Option State) (a : Option Awaiting) (commands : List Command)
    → m.procedures ≡ ProcedureKind.normal ∷ []
    → m.states ≡ State.merging ∷ []
    → m.pending ≡ some (PendingMatch.absent ∷ [])
    → (m.deferred_nonempty ≡ some false)
      ⊎ (m.awaiting ≡ some (some Awaiting.merge_preconditions ∷ []))
    → elem (target to State.merging) terminal_states ≡ false
    → fits (target to State.merging) a ≡ true
    → SoundWith m (merge_effect to a commands)
unfolding merge_effect
merge_sound m to a commands n q pe d t h ms event v l f =
    let s = state_is m ms event State.merging q f in
    let c = Checks-make ms v.made in
    let empty : ms.deferred_integrity ≡ [] = elim d [
      | inl x ↦ Fires-empty m ms event x f
      | inr x ↦ preconditions_empty m ms event n x c f
    ] in
    let e =
      quiet ms c (Fires-normal m ms event n f) (Fires-absent m ms event f pe) empty
        (rw s (unfold elem in refl)) in
    go to t h s e
  where
    go :
        (to : Option State)
        → elem (target to State.merging) terminal_states ≡ false
        → fits (target to State.merging) a ≡ true
        → ms.state ≡ State.merging
        → ((s : State) (a : Option Awaiting) → record ms { state = s; awaiting = a } ≡ waits s a)
        → Succeeds (merge_effect to a commands ms event)
    go none t h s e = rw (e ms.state a) (rw s (waits-Succeeds State.merging a commands h))
    go (some s') t h s e = rw t (rw (e s' a) (waits-Succeeds s' a commands h))

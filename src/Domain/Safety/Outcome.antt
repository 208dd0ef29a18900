-- ===== src/Domain/Safety/Outcome.antt =====
-- A merge that is cancelled or fails, and the ways back after a merge, a report or a CI run.
use claude_code_codex_review.Prelude.{
  Option, none, some, List, [], ◌∷◌, ◌++◌, true, ◌≡◌, ◌≢◌, ◌⊎◌, refl, arith, elem, elem-all, all,
  inl, inr, subst, option_eq,
}
use claude_code_codex_review.Domain.States.{State, state_eq}
use claude_code_codex_review.Domain.Commands.{Command}
use claude_code_codex_review.Domain.Events.Data.{Event}
use claude_code_codex_review.Domain.Values.Kinds.{record_kind_eq}
use claude_code_codex_review.Domain.Values.Responses.{
  Awaiting, awaiting_eq, merge_outcome_awaitings,
}
use claude_code_codex_review.Domain.Values.Records.{PendingRecord}
use claude_code_codex_review.Domain.Values.Blocks.{Procedure}
use claude_code_codex_review.Domain.Values.Machine.{
  MachineState, make, check_canonical_deferred, check_terminal_bare, check_block_scope,
  check_recovery_scope, check_return_scope, check_procedure_shape, check_deferred_scope,
  check_pending_home, check_awaiting_home, check_pending,
}
use claude_code_codex_review.Domain.Rules.Kinds.{ProcedureKind, PendingMatch}
use claude_code_codex_review.Domain.Rules.Match.{Match, allows}
use claude_code_codex_review.Domain.Rules.Guards.{derive_guard_key}
use claude_code_codex_review.Domain.Workflow.Effects.{returns}
use claude_code_codex_review.Domain.Validity.{IsValid, Succeeds}
use claude_code_codex_review.Domain.Validity.Shape.{
  Checks, Checks-make, make-Checks, plain, deferred_none, fits,
}
use claude_code_codex_review.Domain.Safety.Rule.{SoundWith, Fires, Fires-normal, Succeeds-make}
use claude_code_codex_review.Domain.Safety.Events.{Fires-absent}
use claude_code_codex_review.Domain.Recovery.Merge.{merge_outcome}
use claude_code_codex_review.Domain.Recovery.Effects.{
  merge_effect, cancel_query_effect, same_head_effect, ci_resume_effect, reporter_retry_effect,
}
use claude_code_codex_review.Domain.Safety.Merge.{quiet, waits-Succeeds, state_is}

-- A merging state keeps its violations while the outcome is asked for.
querying-Checks :
    (ms : MachineState) (a : Awaiting) (p : Option PendingRecord)
    → Checks ms
    → ms.procedure ≡ Procedure.normal
    → ms.state ≡ State.merging
    → elem a merge_outcome_awaitings ≡ true
    → (p ≡ none) ⊎ ((p ≡ ms.pending_record) × (ms.awaiting ≢ none))
    → Checks (record ms { awaiting = some a; pending_record = p })
unfolding check_canonical_deferred check_terminal_bare check_block_scope check_recovery_scope
    check_return_scope check_procedure_shape check_deferred_scope check_pending_home
    check_awaiting_home check_pending elem
querying-Checks ms a p c n s h k = record {
  canonical_deferred = c.canonical_deferred;
  terminal_bare = rw s refl;
  block_scope = let b = c.block_scope in ground arith;
  recovery_scope = c.recovery_scope;
  return_scope = c.return_scope;
  procedure_shape = rw n refl;
  deferred_scope = ground arith;
  pending_home = let b = c.pending_home in ground arith;
  awaiting_home = ground arith;
}

querying-Succeeds :
    (ms : MachineState) (a : Awaiting) (p : Option PendingRecord) (commands : List Command)
    → IsValid ms
    → ms.procedure ≡ Procedure.normal
    → ms.state ≡ State.merging
    → elem a merge_outcome_awaitings ≡ true
    → (p ≡ none) ⊎ ((p ≡ ms.pending_record) × (ms.awaiting ≢ none))
    → Succeeds (returns (make (record ms { awaiting = some a; pending_record = p })) commands)
querying-Succeeds ms a p commands v n s h k = Succeeds-make _ commands (record {
  made = make-Checks _ (querying-Checks ms a p (Checks-make ms v.made) n s h k);
  block_made = v.block_made;
  procedure_made = v.procedure_made;
})

pub cancel_query_sound :
    (m : Match)
    → m.procedures ≡ ProcedureKind.normal ∷ []
    → m.states ≡ State.merging ∷ []
    → SoundWith m cancel_query_effect
unfolding cancel_query_effect elem
cancel_query_sound m n q ms event v l f =
    querying-Succeeds ms Awaiting.merge_outcome_cancel none _ v (Fires-normal m ms event n f)
      (state_is m ms event State.merging q f) refl (inl refl)

pub merge_failure_sound :
    (m : Match)
    → m.procedures ≡ ProcedureKind.normal ∷ []
    → m.states ≡ State.merging ∷ []
    → m.awaiting ≡ some (merge_outcome ++ some Awaiting.merge_preconditions ∷ [])
    → SoundWith m
        (merge_effect none (some Awaiting.merge_outcome_failure) (Command.query_merge_outcome ∷ []))
unfolding merge_effect elem derive_guard_key
merge_failure_sound m n q w ms event v l f =
    querying-Succeeds ms Awaiting.merge_outcome_failure ms.pending_record _ v
      (Fires-normal m ms event n f) (state_is m ms event State.merging q f) refl
      (inr (refl, waiting))
  where
    waiting : ms.awaiting ≢ none
    waiting e =
        let p : allows (some (merge_outcome ++ some Awaiting.merge_preconditions ∷ [])) ms.awaiting
            ≡ true =
          subst (λ x. allows x ms.awaiting ≡ true) w f.awaiting in
        cc (rw e at p)

-- Back from a plain state in which nothing is pending.
resting-Succeeds :
    (m : Match) (ms : MachineState) (event : Event) (s : State) (a : Option Awaiting)
    (commands : List Command)
    → IsValid ms
    → m.procedures ≡ ProcedureKind.normal ∷ []
    → m.pending ≡ some (PendingMatch.absent ∷ [])
    → Fires m ms event
    → plain ms.state ≡ true
    → fits s a ≡ true
    → Succeeds (returns (make (record ms { state = s; awaiting = a })) commands)
unfolding elem
resting-Succeeds m ms event s a commands v n pe f p h =
    let c = Checks-make ms v.made in
    let q = Fires-normal m ms event n f in
    rw
      (quiet ms c q (Fires-absent m ms event f pe) (deferred_none ms c q (ground arith))
        (ground arith) s a)
      (waits-Succeeds s a commands h)

module _ (m : Match) (n : m.procedures ≡ ProcedureKind.normal ∷ [])
    (pe : m.pending ≡ some (PendingMatch.absent ∷ [])) where
  pub same_head_sound : all plain m.states ≡ true → SoundWith m same_head_effect
  unfolding same_head_effect
  same_head_sound p ms event v l f =
      resting-Succeeds m ms event State.ready_for_human_merge (some Awaiting.user_input_gate) [] v n
        pe f (elem-all plain ms.state m.states f.states p) (unfold elem in refl)

  pub reporter_retry_sound : all plain m.states ≡ true → SoundWith m reporter_retry_effect
  unfolding reporter_retry_effect
  reporter_retry_sound p ms event v l f =
      resting-Succeeds m ms event State.generating_report (some Awaiting.report) _ v n pe f
        (elem-all plain ms.state m.states f.states p) (unfold elem in refl)

  pub ci_resume_sound : m.states ≡ State.waiting_ci ∷ [] → SoundWith m ci_resume_effect
  unfolding ci_resume_effect
  ci_resume_sound q ms event v l f =
      let s = state_is m ms event State.waiting_ci q f in
      resting-Succeeds m ms event ms.state (some Awaiting.ci_result) _ v n pe f
        (rw s (unfold elem in refl)) (rw s (unfold elem in refl))

-- ===== src/Domain/Safety/MergeOnce.antt =====
-- domain/machine.py and rule M-34: reports of verified merge preconditions.
use claude_code_codex_review.Prelude.{
  ◌≡◌, refl, sym, ap, ◌∙◌, true, false, Bool, elem, keep, List, [], ◌∷◌, arith, some, option_eq,
  if◌then◌else◌,
}
use claude_code_codex_review.Domain.States.{state_eq, terminal_states}
use claude_code_codex_review.Domain.Commands.{Command}
use claude_code_codex_review.Domain.Errors.{Error, Result, ok, err, ◌>>=◌}
use claude_code_codex_review.Domain.Events.Types.{event_type_eq}
use claude_code_codex_review.Domain.Events.Data.{Event, event_type}
use claude_code_codex_review.Domain.Values.Responses.{Awaiting, awaiting_eq}
use claude_code_codex_review.Domain.Values.Machine.{MachineState, make}
use claude_code_codex_review.Domain.Rules.Match.{Outcome, matches}
use claude_code_codex_review.Domain.Rules.Guards.{derive_guard_key}
use claude_code_codex_review.Domain.Workflow.Effects.{returns}
use claude_code_codex_review.Domain.Recovery.Effects.{merge_effect}
use claude_code_codex_review.Domain.Recovery.Merge.{rule_m_34}
use claude_code_codex_review.Domain.Machine.{registry, the_only, select_rule, indexed, transition}
use claude_code_codex_review.Domain.Safety.NoLoss.{make-same}
use claude_code_codex_review.Domain.Safety.Transition.{fires, rejected}

abbrev verified : Event
verified = Event.merge_preconditions_ok

-- One rule is for this event.
indexed-verified : indexed (event_type verified) ≡ rule_m_34 ∷ []
unfolding indexed registry keep event_type
indexed-verified = refl

-- The rule's effect, or a rejection.
abbrev answer : Bool → MachineState → Result Outcome
answer b ms =
    the_only ms verified (if b then rule_m_34 ∷ [] else []) >>= λ rule. rule.effect ms verified

transition-answer :
    (ms : MachineState)
    → transition ms verified ≡ (
        if elem ms.state terminal_states
        then err (rejected ms verified)
        else answer (fires ms verified rule_m_34) ms)
unfolding transition select_rule keep
transition-answer ms = rw indexed-verified refl

executed :
    (ms after : MachineState) (commands : List Command)
    → transition ms verified ≡ ok (after, commands)
    → (after.awaiting ≡ some Awaiting.merge_outcome_execute)
      × (commands ≡ Command.execute_merge ∷ [])
executed ms after commands h =
    go (elem ms.state terminal_states) (fires ms verified rule_m_34)
      (sym (transition-answer ms) ∙ h)
  where
    built :
        (r : Result MachineState)
        → (returns r (Command.execute_merge ∷ []) ≡ ok (after, commands))
        → (r ≡ ok after) × (commands ≡ Command.execute_merge ∷ [])
    built (ok x) e = (cc, cc)
    built (err x) e = (cc, cc)

    go :
        (t f : Bool)
        → (if t then err (rejected ms verified) else answer f ms) ≡ ok (after, commands)
        → (after.awaiting ≡ some Awaiting.merge_outcome_execute)
          × (commands ≡ Command.execute_merge ∷ [])
    go true f e = absurd (cc)
    go false false e = absurd (unfold the_only in cc e)
    go false true e =
        let (r, c) =
          built (make (record ms { awaiting = some Awaiting.merge_outcome_execute }))
            (unfold the_only merge_effect in e) in
        (
          ap (λ (x : MachineState). x.awaiting)
              (make-same (record ms { awaiting = some Awaiting.merge_outcome_execute }) after r),
          c,
        )

waiting-rejects :
    (ms : MachineState)
    → ms.awaiting ≡ some Awaiting.merge_outcome_execute
    → transition ms verified ≡ err (rejected ms verified)
waiting-rejects ms w =
    transition-answer ms ∙ go (elem ms.state terminal_states) (fires ms verified rule_m_34) refl
  where
    silent : fires ms verified rule_m_34 ≡ false
    silent = unfold matches derive_guard_key elem in ground arith

    go :
        (t f : Bool)
        → fires ms verified rule_m_34 ≡ f
        → (if t then err (rejected ms verified) else answer f ms) ≡ err (rejected ms verified)
    go true f e = refl
    go false false e = unfold the_only in refl
    go false true e = absurd (cc (silent, e))

-- A report of verified merge preconditions that is accepted, in whatever state, is answered by
-- exactly one command, ExecuteMerge; the outcome of the merge is then awaited, and a further
-- report of verified preconditions that comes next, in that state, is rejected there.
pub merge-once :
    (ms after : MachineState) (commands : List Command)
    → transition ms Event.merge_preconditions_ok ≡ ok (after, commands)
    → (commands ≡ Command.execute_merge ∷ [])
      × (after.awaiting ≡ some Awaiting.merge_outcome_execute)
      × (transition after Event.merge_preconditions_ok
          ≡ err (Error.transition_rejected after.state (event_type Event.merge_preconditions_ok)))
merge-once ms after commands h =
    let (w, c) = executed ms after commands h in (c, w, waiting-rejects after w)

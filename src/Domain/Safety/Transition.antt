-- ===== src/Domain/Safety/Transition.antt =====
-- domain/machine.py: one call of `transition`, and every run that starts with `initialize`.
use claude_code_codex_review.Prelude.{
  ◌≡◌, ◌⊎◌, refl, true, Bool, inl, inr, elem, keep, All, Pairs, All-keep, List, [], ◌∷◌, Bool-cases,
  some, none, subst,
}
use claude_code_codex_review.Domain.States.{State, state_eq, terminal_states}
use claude_code_codex_review.Domain.Commands.{Command}
use claude_code_codex_review.Domain.Errors.{Error, ok, err}
use claude_code_codex_review.Domain.Events.Data.{Event, PreflightEvent, event_type}
use claude_code_codex_review.Domain.Events.Checks.{IsLegal}
use claude_code_codex_review.Domain.Values.Responses.{Awaiting}
use claude_code_codex_review.Domain.Values.Machine.{MachineState}
use claude_code_codex_review.Domain.Rules.Match.{Rule, matches}
use claude_code_codex_review.Domain.Rules.Guards.{derive_guard_key}
use claude_code_codex_review.Domain.Validity.{IsValid, Succeeds}
use claude_code_codex_review.Domain.Machine.{
  registry, initialize, the_only, select_rule, indexed, transition,
}
use claude_code_codex_review.Domain.Machine.Disjoint.{disjoint_lem, matches-Matched}
use claude_code_codex_review.Domain.Safety.Rule.{IsSound}
use claude_code_codex_review.Domain.Safety.Merge.{waits-Succeeds}
use claude_code_codex_review.Domain.Safety.Registry.{
  Apart, Pairs-keep, registry-IsSound, registry-Pairs,
}

-- The refusal of an event, with the state and the class of the event.
abbrev pub rejected : MachineState → Event → Error
rejected ms event = Error.transition_rejected ms.state (event_type event)

abbrev pub fires : MachineState → Event → Rule → Bool
fires ms event rule = matches rule.guard ms.state event (derive_guard_key ms event)

pub keep-holds : (p : Rule → Bool) (rules : List Rule) → All (λ r. p r ≡ true) (keep p rules)
unfolding keep
keep-holds p [] = tt
keep-holds p (r ∷ rs) = elim (Bool-cases (p r)) [
  | inl e ↦ rw e (e, keep-holds p rs)
  | inr e ↦ rw e (keep-holds p rs)
]

abbrev pub Selected : MachineState → Event → List Rule → Type 0
Selected ms event rules =
    (the_only ms event rules ≡ err (rejected ms event))
    ⊎ ((rule : Rule) × ((the_only ms event rules ≡ ok rule)
          × ((fires ms event rule ≡ true) × IsSound rule)))

the_only-Selected :
    (ms : MachineState) (event : Event) (rules : List Rule)
    → All (λ r. fires ms event r ≡ true) rules
    → Pairs Apart rules
    → All IsSound rules
    → Selected ms event rules
unfolding the_only
the_only-Selected ms event [] f p s = inl refl
the_only-Selected ms event (r ∷ []) f p s = inr (r, (refl, (f.0, s.0)))
the_only-Selected ms event (r ∷ r' ∷ rs) f p s =
    absurd
      (disjoint_lem r.guard r'.guard ms.state event (derive_guard_key ms event) p.0.0 f.0 f.1.0)

indexed-Selected :
    (ms : MachineState) (event : Event)
    → Selected ms event (keep (fires ms event) (indexed (event_type event)))
unfolding indexed
indexed-Selected ms event =
    the_only-Selected ms event _ (keep-holds (fires ms event) _)
      (Pairs-keep (fires ms event) _ (Pairs-keep _ registry registry-Pairs))
      (All-keep IsSound (fires ms event) _ (All-keep IsSound _ registry registry-IsSound))

-- In every state, valid or not, and for every event, at most one rule of the registry applies:
-- the selection either answers the rule that fires or rejects the event, and it never finds that
-- the registry is ambiguous.
pub select_rule_unique :
    (ms : MachineState) (event : Event)
    → (select_rule (indexed (event_type event)) ms event
        ≡ err (Error.transition_rejected ms.state (event_type event)))
      ⊎ ((rule : Rule) × ((select_rule (indexed (event_type event)) ms event ≡ ok rule)
            × (matches rule.guard ms.state event (derive_guard_key ms event) ≡ true)))
unfolding select_rule
select_rule_unique ms event = elim (indexed-Selected ms event) [
  | inl e ↦ inl e
  | inr (rule, (e, (f, s))) ↦ inr (rule, (e, f))
]

-- In a valid state a legal event is either rejected, with the state and the event's class, or
-- answered by a valid state: no transition raises an illegal state, a missing key, a missing
-- attribute or an ambiguous registry.
pub transition-total :
    (ms : MachineState) (event : Event)
    → IsValid ms
    → IsLegal event
    → Succeeds (transition ms event)
      ⊎ (transition ms event ≡ err (Error.transition_rejected ms.state (event_type event)))
unfolding transition select_rule
transition-total ms event v l = elim (Bool-cases (elem ms.state terminal_states)) [
  | inl t ↦ rw t (inr refl)
  | inr t ↦ elim (indexed-Selected ms event) [
    | inl e ↦ rw (t, e) (inr refl)
    | inr (rule, (e, (f, s))) ↦
        rw (t, e) (inl (s ms event v l (matches-Matched rule.guard ms.state event _ f)))
  ]
]

-- A state that `initialize` and then any number of transitions answer.
pub data Reachable : MachineState → Type 0 where
  started :
      {ms : MachineState} {commands : List Command} (e : PreflightEvent)
      → initialize e ≡ ok (ms, commands)
      → Reachable ms
  stepped :
      {ms after : MachineState} {commands : List Command} (event : Event)
      → Reachable ms
      → IsLegal event
      → transition ms event ≡ ok (after, commands)
      → Reachable after

pub started-Succeeds : (e : PreflightEvent) → Succeeds (initialize e)
unfolding initialize elem
started-Succeeds PreflightEvent.preflight_ok =
    waits-Succeeds State.running_review (some Awaiting.codex_code_review) _ refl
started-Succeeds PreflightEvent.preflight_ng = waits-Succeeds State.failed none _ refl

-- Every state that a run reaches is valid.
pub Reachable-IsValid : (ms : MachineState) → Reachable ms → IsValid ms
Reachable-IsValid ms (started e h) = subst Succeeds h (started-Succeeds e)
Reachable-IsValid after (stepped {ms} event r l h) =
    elim (transition-total ms event (Reachable-IsValid ms r) l) [
      | inl s ↦ subst Succeeds h s
      | inr x ↦ absurd (cc (x, h))
    ]

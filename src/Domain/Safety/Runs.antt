-- ===== src/Domain/Safety/Runs.antt =====
-- domain/machine.py: `initialize`, and then one `transition` after the other.
use claude_code_codex_review.Prelude.{◌≡◌, refl, sym, ◌∙◌, inl, inr, All, List, [], ◌∷◌, subst}
use claude_code_codex_review.Domain.Errors.{Error, Result, ok, err, ◌>>=◌}
use claude_code_codex_review.Domain.Events.Data.{Event, PreflightEvent}
use claude_code_codex_review.Domain.Events.Checks.{IsLegal}
use claude_code_codex_review.Domain.Values.Machine.{MachineState}
use claude_code_codex_review.Domain.Rules.Match.{Outcome}
use claude_code_codex_review.Domain.Validity.{IsValid, Succeeds}
use claude_code_codex_review.Domain.Machine.{initialize, transition}
use claude_code_codex_review.Domain.Safety.Transition.{
  Reachable, started, stepped, started-Succeeds, transition-total, Reachable-IsValid,
}

-- The state that an answer leaves: the old one, where the event was rejected. Any other error is kept.
abbrev pub settled : MachineState → Result Outcome → Result MachineState
settled ms (ok outcome) = ok outcome.0
settled ms (err (Error.transition_rejected _ _)) = ok ms
settled ms (err e) = err e

unfoldable pub follow : MachineState → List Event → Result MachineState
follow ms [] = ok ms
follow ms (event ∷ events) = settled ms (transition ms event) >>= λ after. follow after events

abbrev pub run_from : PreflightEvent → List Event → Result MachineState
run_from e events = initialize e >>= λ outcome. follow outcome.0 events

abbrev Completes : Result MachineState → Type 0
Completes r = (ms : MachineState) × (r ≡ ok ms) × IsValid ms × Reachable ms

settled-Completes :
    (ms : MachineState) (event : Event)
    → Reachable ms
    → IsLegal event
    → Completes (settled ms (transition ms event))
settled-Completes ms event r l = go (transition ms event) refl
  where
    go : (a : Result Outcome) → transition ms event ≡ a → Completes (settled ms a)
    go (ok outcome) e =
        let n = stepped event r l e in (outcome.0, refl, Reachable-IsValid outcome.0 n, n)
    go (err x) e = elim (transition-total ms event (Reachable-IsValid ms r) l) [
      | inl s ↦ absurd (subst Succeeds e s)
      | inr q ↦
          subst (λ a. Completes (settled ms a)) (sym q ∙ e) (ms, refl, Reachable-IsValid ms r, r)
    ]

follow-Completes :
    (events : List Event) (ms : MachineState)
    → Reachable ms
    → All IsLegal events
    → Completes (follow ms events)
unfolding follow
follow-Completes [] ms r l = (ms, refl, Reachable-IsValid ms r, r)
follow-Completes (event ∷ events) ms r l =
    let (after, e, v, n) = settled-Completes ms event r l.0 in
    rw e (follow-Completes events after n l.1)

-- Every run comes to its end: from either preflight event, and for every list of legal events, of
-- which each may be accepted or rejected (a rejected event leaves the state as it is), `initialize`
-- succeeds and no transition fails otherwise; the last state is reachable and passes every check.
pub run_from-Completes :
    (e : PreflightEvent) (events : List Event)
    → All IsLegal events
    → (ms : MachineState) × (run_from e events ≡ ok ms) × IsValid ms × Reachable ms
run_from-Completes e events l = go (initialize e) refl (started-Succeeds e)
  where
    go :
        (a : Result Outcome)
        → initialize e ≡ a
        → Succeeds a
        → Completes (a >>= λ outcome. follow outcome.0 events)
    go (ok outcome) q s = follow-Completes events outcome.0 (started e q) l
    go (err x) q s = absurd s

-- ===== src/Domain/Safety/Selection.antt =====
-- domain/machine.py: which rule the interpreter applies.
use claude_code_codex_review.Prelude.{
  ◌≡◌, ◌⊎◌, refl, sym, ap, ◌∙◌, true, false, Bool, inl, inr, elem, keep, All, Pairs, List, [], ◌∷◌,
  some, none, subst, ℕ, zero, suc, get_elem?, if◌then◌else◌,
}
use claude_code_codex_review.Domain.States.{state_eq, terminal_states}
use claude_code_codex_review.Domain.Errors.{ok}
use claude_code_codex_review.Domain.Events.Types.{event_type_eq}
use claude_code_codex_review.Domain.Events.Data.{Event, event_type}
use claude_code_codex_review.Domain.Values.Machine.{MachineState}
use claude_code_codex_review.Domain.Rules.Match.{Rule, matches}
use claude_code_codex_review.Domain.Rules.Guards.{derive_guard_key}
use claude_code_codex_review.Domain.Machine.{registry, the_only, select_rule, indexed, transition}
use claude_code_codex_review.Domain.Machine.Disjoint.{disjoint_lem, matches-Matched}
use claude_code_codex_review.Domain.Safety.Registry.{Apart, Pairs-keep, registry-Pairs}
use claude_code_codex_review.Domain.Safety.Transition.{fires, keep-holds}

abbrev In : Rule → List Rule → Type 0
In r [] = ⊥
In r (x ∷ xs) = (x ≡ r) ⊎ In r xs

get_elem?-In : (r : Rule) (rules : List Rule) (i : ℕ) → get_elem? rules i ≡ some r → In r rules
get_elem?-In r [] i h = cc
get_elem?-In r (x ∷ xs) zero h = inl (ap (λ o. elim o [ none ↦ x | some y ↦ y ]) h)
get_elem?-In r (x ∷ xs) (suc i) h = inr (get_elem?-In r xs i h)

In-keep :
    (p : Rule → Bool) (r : Rule) (rules : List Rule) → In r rules → p r ≡ true → In r (keep p rules)
unfolding keep
In-keep p r [] i h = i
In-keep p r (x ∷ xs) (inl e) h =
    subst (λ b. In r (if b then x ∷ keep p xs else keep p xs)) (sym (ap p e ∙ h)) (inl e)
In-keep p r (x ∷ xs) (inr i) h = go (p x) (In-keep p r xs i h)
  where
    go : (b : Bool) → In r (keep p xs) → In r (if b then x ∷ keep p xs else keep p xs)
    go true j = inr j
    go false j = j

the_only-In :
    (ms : MachineState) (event : Event) (r : Rule) (rules : List Rule)
    → All (λ r. fires ms event r ≡ true) rules
    → Pairs Apart rules
    → In r rules
    → the_only ms event rules ≡ ok r
unfolding the_only
the_only-In ms event r [] f p i = absurd i
the_only-In ms event r (x ∷ []) f p (inl e) = ap (λ (r : Rule). ok r) e
the_only-In ms event r (x ∷ []) f p (inr i) = absurd i
the_only-In ms event r (x ∷ y ∷ rs) f p i =
    absurd (disjoint_lem x.guard y.guard ms.state event (derive_guard_key ms event) p.0.0 f.0 f.1.0)

-- If a rule stands anywhere in the registry and its match part fits a state that is not terminal
-- and an event, then the transition is that rule's effect: no rule before or after it is taken.
pub transition-fires :
    (i : ℕ) (rule : Rule) (ms : MachineState) (event : Event)
    → get_elem? registry i ≡ some rule
    → elem ms.state terminal_states ≡ false
    → matches rule.guard ms.state event (derive_guard_key ms event) ≡ true
    → transition ms event ≡ rule.effect ms event
unfolding transition select_rule indexed
transition-fires i rule ms event g t m =
    let named = (matches-Matched rule.guard ms.state event _ m).event_type in
    let there = In-keep _ rule registry (get_elem?-In rule registry i g) (
      (event_type_eq.beq_iff rule.guard.event_type (event_type event)).1
        (sym ((event_type_eq.beq_iff (event_type event) rule.guard.event_type).0 named))) in
    rw
      (
        t,
        the_only-In ms event rule _ (keep-holds (fires ms event) _)
            (Pairs-keep (fires ms event) _ (Pairs-keep _ registry registry-Pairs))
            (In-keep (fires ms event) rule _ there m),
      )
      refl

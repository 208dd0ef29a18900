-- ===== src/Domain/Machine.antt =====
-- domain/machine.py: the registry and its interpreter.
pub mod Disjoint
use claude_code_codex_review.Prelude.{
  String, some, none, List, [], ◌∷◌, ◌++◌, Bool, true, false, ◌==◌, elem, string_eq, any, keep,
  if◌then◌else◌,
}
use claude_code_codex_review.Domain.States.{State, state_eq, terminal_states}
use claude_code_codex_review.Domain.Commands.{Command, CodexPurpose}
use claude_code_codex_review.Domain.Errors.{Error, Result, ok, err, ◌>>=◌, ◌>>◌}
use claude_code_codex_review.Domain.Events.Types.{EventType, event_type_eq}
use claude_code_codex_review.Domain.Events.Data.{Event, PreflightEvent, event_type}
use claude_code_codex_review.Domain.Values.Machine.{MachineState, bare, make}
use claude_code_codex_review.Domain.Rules.Match.{Match, Rule, Outcome, matches}
use claude_code_codex_review.Domain.Rules.Guards.{derive_guard_key}
use claude_code_codex_review.Domain.Workflow.Effects.{returns}
use claude_code_codex_review.Domain.Workflow.Produced.{produced_rules}
use claude_code_codex_review.Domain.Workflow.Review.{review_rules}
use claude_code_codex_review.Domain.Workflow.Gate.{gate_rules}
use claude_code_codex_review.Domain.Recovery.Effects.{reviewing}
use claude_code_codex_review.Domain.Recovery.Merge.{merge_rules}
use claude_code_codex_review.Domain.Recovery.Cancel.{cancel_rules, failure_rules}
use claude_code_codex_review.Domain.Recovery.Procedures.{procedure_rules}
use claude_code_codex_review.Domain.Recovery.Resume.{resume_rules}
use claude_code_codex_review.Domain.Integrity.Detection.{detection_rules}
use claude_code_codex_review.Domain.Integrity.Incident.{incident_rules, merge_integrity_rules}
use claude_code_codex_review.Domain.Integrity.Resolution.{block_resolution_rules}

abbrev pub workflow_rules : List Rule
workflow_rules = review_rules ++ gate_rules

abbrev pub recovery_rules : List Rule
recovery_rules =
    merge_rules ++ (cancel_rules ++ (failure_rules ++ (procedure_rules ++ resume_rules)))

abbrev pub integrity_rules : List Rule
integrity_rules =
    detection_rules ++ (incident_rules ++ (merge_integrity_rules ++ block_resolution_rules))

unfoldable pub registry : List Rule
registry = produced_rules ++ (workflow_rules ++ (recovery_rules ++ integrity_rules))

-- `check_registry`: with the rule ids that were seen so far.
unfoldable pub check_rules : List String → List Rule → Result (Unit {0})
check_rules seen [] = ok tt
check_rules seen (rule ∷ rules) =
    if elem rule.rule_id seen
    then err Error.registry_integrity
    else if any (λ s. elem s terminal_states) rule.guard.states
    then err Error.registry_integrity
    else check_rules (rule.rule_id ∷ seen) rules

unfoldable pub check_registry : List Rule → Result (Unit {0})
unfolding check_rules
check_registry rules = check_rules [] rules

unfoldable pub initialize : PreflightEvent → Result Outcome
initialize PreflightEvent.preflight_ok =
    returns (make reviewing) (Command.request_codex_review CodexPurpose.code_review ∷ [])
initialize PreflightEvent.preflight_ng = returns (make (bare State.failed)) []

-- The one rule that matched.
unfoldable pub the_only : MachineState → Event → List Rule → Result Rule
the_only ms event [] = err (Error.transition_rejected ms.state (event_type event))
the_only ms event (rule ∷ []) = ok rule
the_only ms event (rule ∷ _ ∷ _) = err Error.registry_integrity

unfoldable pub select_rule : List Rule → MachineState → Event → Result Rule
unfolding the_only
select_rule rules ms event =
    the_only ms event
      (keep (λ rule. matches rule.guard ms.state event (derive_guard_key ms event)) rules)

-- `_INDEX.get(type(event), ())`: the rules of the registry for one class of events, in their order.
unfoldable pub indexed : EventType → List Rule
unfolding registry
indexed event_type = keep (λ rule. rule.guard.event_type == event_type) registry

unfoldable pub transition : MachineState → Event → Result Outcome
transition ms event =
    if elem ms.state terminal_states
    then err (Error.transition_rejected ms.state (event_type event))
    else (select_rule (indexed (event_type event)) ms event >>= λ rule. rule.effect ms event)

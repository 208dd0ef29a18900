-- ===== src/Domain/Rules/Match.antt =====
-- domain/_ruledefs.py: the guard key of a state and an event, the match part of a rule, and rules.
use claude_code_codex_review.Prelude.{
  String, Option, none, some, List, [], ◌∷◌, Bool, true, false, ◌&&◌, ◌==◌, Eq, elem, option_eq,
}
use claude_code_codex_review.Domain.States.{State, state_eq}
use claude_code_codex_review.Domain.Commands.{Command}
use claude_code_codex_review.Domain.Errors.{Result}
use claude_code_codex_review.Domain.Events.Types.{EventType, event_type_eq}
use claude_code_codex_review.Domain.Events.Data.{Event, event_type}
use claude_code_codex_review.Domain.Values.Kinds.{
  RecordKind, Progress, IncidentCoverage, record_kind_eq, progress_eq, incident_coverage_eq,
}
use claude_code_codex_review.Domain.Values.Responses.{Awaiting, awaiting_eq}
use claude_code_codex_review.Domain.Values.Machine.{MachineState}
use claude_code_codex_review.Domain.Rules.Kinds.{
  ProcedureKind, PendingMatch, BindingMatch, BlockKind, procedure_kind_eq, pending_match_eq,
  binding_match_eq, block_kind_eq,
}

pub record GuardKey : Type 0 where
  pub procedure : ProcedureKind
  pub awaiting : Option Awaiting
  pub pending : PendingMatch
  pub record_kind : Option RecordKind
  pub progress : Option Progress
  pub deferred_nonempty : Bool
  pub binding : Option BindingMatch
  pub block_kind : Option BlockKind
  pub block_reason : Option Progress
  pub coverage : Option IncidentCoverage
  pub recovery_present : Bool

pub record Match : Type 0 where
  pub states : List State
  pub event_type : EventType
  pub procedures : List ProcedureKind
  pub awaiting : Option (List (Option Awaiting))
  pub pending : Option (List PendingMatch)
  pub record_kinds : Option (List RecordKind)
  pub progress : Option (List Progress)
  pub deferred_nonempty : Option Bool
  pub binding : Option (List BindingMatch)
  pub block_kinds : Option (List BlockKind)
  pub block_reasons : Option (List Progress)
  pub coverage : Option (List IncidentCoverage)
  pub recovery_present : Option Bool

-- `Match(states=..., event_type=...)`: the other components at their defaults.
abbrev pub on : List State → EventType → Match
on states event_type = record {
  states = states;
  event_type = event_type;
  procedures = ProcedureKind.normal ∷ [];
  awaiting = none;
  pending = none;
  record_kinds = none;
  progress = none;
  deferred_nonempty = none;
  binding = none;
  block_kinds = none;
  block_reasons = none;
  coverage = none;
  recovery_present = none;
}

-- `allowed is None or value in allowed`.
abbrev pub allows {ℓ} : {A : Type ℓ} ⦃e : Eq A⦄ → Option (List A) → A → Bool
allows none a = true
allows (some allowed) a = elem a allowed

-- The same for a value that may be None; these sets do not hold None.
abbrev pub allows_some {ℓ} : {A : Type ℓ} ⦃e : Eq A⦄ → Option (List A) → Option A → Bool
allows_some none a = true
allows_some (some allowed) none = false
allows_some (some allowed) (some a) = elem a allowed

-- `wanted is None or value == wanted`.
abbrev pub agrees : Option Bool → Bool → Bool
agrees none b = true
agrees (some true) b = b
agrees (some false) true = false
agrees (some false) false = true

unfoldable pub matches : Match → State → Event → GuardKey → Bool
matches m state event key =
    elem state m.states
    && (event_type event == m.event_type
        && (elem key.procedure m.procedures
            && (allows m.awaiting key.awaiting
                && (allows m.pending key.pending
                    && (allows_some m.record_kinds key.record_kind
                        && (allows_some m.progress key.progress
                            && (agrees m.deferred_nonempty key.deferred_nonempty
                                && (allows_some m.binding key.binding
                                    && (allows_some m.block_kinds key.block_kind
                                        && (allows_some m.block_reasons key.block_reason
                                            && (allows_some m.coverage key.coverage
                                                && agrees m.recovery_present
                                                    key.recovery_present)))))))))))

abbrev pub Outcome : Type 0
Outcome = MachineState × List Command

abbrev pub Effect : Type 0
Effect = MachineState → Event → Result Outcome

pub record Rule : Type 0 where
  pub rule_id : String
  pub guard : Match
  pub effect : Effect
  pub to_state : String
  pub command_names : List String

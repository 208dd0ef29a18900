-- ===== src/Domain/Workflow/Builders.antt =====
-- domain/_rules_workflow.py: the functions that build a rule.
use claude_code_codex_review.Prelude.{Option, none, some, List, [], ◌∷◌, map, false, String}
use claude_code_codex_review.Domain.States.{State, state_value}
use claude_code_codex_review.Domain.Commands.{Command, command_name}
use claude_code_codex_review.Domain.Events.Types.{EventType}
use claude_code_codex_review.Domain.Values.Kinds.{RecordKind, Progress}
use claude_code_codex_review.Domain.Values.Responses.{Awaiting}
use claude_code_codex_review.Domain.Values.Blocks.{BlockedContinuation}
use claude_code_codex_review.Domain.Rules.Kinds.{PendingMatch}
use claude_code_codex_review.Domain.Rules.Match.{Rule, on}
use claude_code_codex_review.Domain.Workflow.Effects.{
  advance, produced_effect, progress_block_effect,
}

abbrev pub matched : Option (List PendingMatch)
matched = some (PendingMatch.match ∷ [])

abbrev pub absent : Option (List PendingMatch)
absent = some (PendingMatch.absent ∷ [])

abbrev pub bounded : Option (List Progress)
bounded = some (Progress.limit_reached ∷ Progress.no_progress ∷ [])

abbrev pub continues : Option (List Progress)
continues = some (Progress.continue ∷ [])

-- `_names(commands)`.
abbrev pub names : List Command → List String
names = map command_name

abbrev pub same_state : String
same_state = "同一state"

-- `to.value if to is not None else "同一state"`.
abbrev pub target_name : Option State → String
target_name none = same_state
target_name (some to) = state_value to

abbrev pub waiting_for : Awaiting → Option (List (Option Awaiting))
waiting_for awaiting = some (some awaiting ∷ [])

abbrev pub produced_rule : String → RecordKind → List State → List (Option Awaiting) → Rule
produced_rule rule_id kind states awaitings = record {
  rule_id = rule_id;
  guard = record (on states EventType.record_produced) {
    awaiting = some awaitings;
    pending = absent;
    record_kinds = some (kind ∷ []);
  };
  effect = produced_effect false;
  to_state = same_state;
  command_names = "PersistRecord" ∷ [];
}

abbrev pub verified_rule :
    String
    → EventType
    → List State
    → Option State
    → Option Awaiting
    → List Command
    → Option (List Progress)
    → Rule
verified_rule rule_id event_type from_states to awaiting_after commands progress = record {
  rule_id = rule_id;
  guard = record (on from_states event_type) { pending = matched; progress = progress };
  effect = advance to awaiting_after commands;
  to_state = target_name to;
  command_names = names commands;
}

-- `_external_rule` and `_response_rule` build the same rule but for its texts.
abbrev pub external_rule :
    String
    → EventType
    → List State
    → Awaiting
    → Option State
    → Option Awaiting
    → List Command
    → Rule
external_rule rule_id event_type from_states awaiting_guard to awaiting_after commands = record {
  rule_id = rule_id;
  guard = record (on from_states event_type) {
    awaiting = waiting_for awaiting_guard;
    pending = absent;
  };
  effect = advance to awaiting_after commands;
  to_state = target_name to;
  command_names = names commands;
}

abbrev pub response_rule :
    String
    → EventType
    → List State
    → Awaiting
    → Option State
    → Option Awaiting
    → List Command
    → Rule
response_rule rule_id event_type from_states awaiting_guard to awaiting_after commands = record {
  rule_id = rule_id;
  guard = record (on from_states event_type) {
    awaiting = waiting_for awaiting_guard;
    pending = absent;
  };
  effect = advance to awaiting_after commands;
  to_state = target_name to;
  command_names = names commands;
}

abbrev pub progress_block_rule :
    String → EventType → List State → BlockedContinuation → List Command → Rule
progress_block_rule rule_id event_type from_states continuation entry_commands = record {
  rule_id = rule_id;
  guard = record (on from_states event_type) { pending = matched; progress = bounded };
  effect = progress_block_effect event_type continuation entry_commands;
  to_state = state_value State.blocked;
  command_names = names entry_commands;
}

-- ===== src/Domain/Integrity/Resolution.antt =====
-- domain/_rules_integrity.py: the end of the halt gate, and the ways out of a block.
use claude_code_codex_review.Prelude.{some, [], ◌∷◌, List}
use claude_code_codex_review.Domain.States.{State, active_states, minus, state_value}
use claude_code_codex_review.Domain.Events.Types.{EventType}
use claude_code_codex_review.Domain.Values.Kinds.{Progress}
use claude_code_codex_review.Domain.Rules.Kinds.{
  BlockKind, ProcedureKind, PendingMatch, BindingMatch,
}
use claude_code_codex_review.Domain.Rules.Match.{Rule, on}
use claude_code_codex_review.Domain.Workflow.Builders.{absent}
use claude_code_codex_review.Domain.Integrity.Effects.{
  halt_completed_effect, replay_continuation, integrity_exit_effect,
}

abbrev pub rule_b_hc : Rule
rule_b_hc = record {
  rule_id = "B-HC";
  guard = record (on (minus active_states (State.merging ∷ [])) EventType.block_halt_completed) {
    procedures = ProcedureKind.halting_for_block ∷ [];
    binding = some (BindingMatch.match ∷ []);
  };
  effect = halt_completed_effect;
  to_state = state_value State.blocked;
  command_names = [];
}

abbrev pub rule_b_lr : Rule
rule_b_lr = record {
  rule_id = "B-LR";
  guard = record (on (State.blocked ∷ []) EventType.block_resolved_limit_raised) {
    pending = absent;
    binding = some (BindingMatch.match ∷ []);
    block_kinds = some (BlockKind.progress ∷ []);
    block_reasons = some (Progress.limit_reached ∷ []);
  };
  effect = replay_continuation;
  to_state = "continuationのresume_state";
  command_names = ("保存したcommand列" ∷ []);
}

abbrev pub rule_b_iv1 : Rule
rule_b_iv1 = record {
  rule_id = "B-IV1";
  guard = record (on (State.blocked ∷ []) EventType.block_resolved_intervention) {
    pending = some (PendingMatch.match ∷ PendingMatch.absent ∷ []);
    binding = some (BindingMatch.match ∷ []);
    block_kinds = some (BlockKind.progress ∷ []);
    block_reasons = some (Progress.no_progress ∷ []);
  };
  effect = replay_continuation;
  to_state = "continuationのresume_state";
  command_names = ("保存したcommand列" ∷ []);
}

abbrev pub rule_b_iv2 : Rule
rule_b_iv2 = record {
  rule_id = "B-IV2";
  guard = record (on (State.blocked ∷ []) EventType.block_resolved_intervention) {
    pending = some (PendingMatch.match ∷ PendingMatch.absent ∷ []);
    binding = some (BindingMatch.match ∷ []);
    block_kinds = some (BlockKind.external_dependency ∷ []);
  };
  effect = replay_continuation;
  to_state = "continuationのresume_state";
  command_names = ("保存したcommand列" ∷ []);
}

abbrev pub rule_b_rs : Rule
rule_b_rs = record {
  rule_id = "B-RS";
  guard = record (on (State.blocked ∷ []) EventType.integrity_restored_validated) {
    pending = absent;
    binding = some (BindingMatch.match ∷ []);
    block_kinds = some (BlockKind.record_integrity ∷ []);
  };
  effect = integrity_exit_effect;
  to_state = state_value State.running_review;
  command_names = ("InvalidateApprovals" ∷ "RequestCodexReview" ∷ []);
}

abbrev pub rule_b_sv : Rule
rule_b_sv = record {
  rule_id = "B-SV";
  guard = record (on (State.blocked ∷ []) EventType.integrity_salvage_established) {
    pending = absent;
    binding = some (BindingMatch.match ∷ []);
    block_kinds = some (BlockKind.record_integrity ∷ []);
  };
  effect = integrity_exit_effect;
  to_state = state_value State.running_review;
  command_names = ("InvalidateApprovals" ∷ "RequestCodexReview" ∷ []);
}

abbrev pub block_resolution_rules : List Rule
block_resolution_rules =
    rule_b_hc ∷ rule_b_lr ∷ rule_b_iv1 ∷ rule_b_iv2 ∷ rule_b_rs ∷ rule_b_sv ∷ []

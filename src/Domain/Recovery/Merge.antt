-- ===== src/Domain/Recovery/Merge.antt =====
-- domain/_rules_recovery.py: the merge transaction.
use claude_code_codex_review.Prelude.{none, some, [], ◌∷◌, ◌++◌, List, Option, false}
use claude_code_codex_review.Domain.States.{State, state_value}
use claude_code_codex_review.Domain.Commands.{Command}
use claude_code_codex_review.Domain.Events.Types.{EventType}
use claude_code_codex_review.Domain.Values.Responses.{Awaiting}
use claude_code_codex_review.Domain.Rules.Match.{Rule, on}
use claude_code_codex_review.Domain.Workflow.Builders.{matched, absent}
use claude_code_codex_review.Domain.Recovery.Effects.{
  fresh_review, to_merging, merge_effect, cancel_query_effect, same_head_effect,
}

-- `_MERGE_OUTCOME`.
abbrev pub merge_outcome : List (Option Awaiting)
merge_outcome =
    some Awaiting.merge_outcome_execute
    ∷ some Awaiting.merge_outcome_cancel
    ∷ some Awaiting.merge_outcome_failure
    ∷ []

abbrev pub rule_m_32a : Rule
rule_m_32a = record {
  rule_id = "M-32a";
  guard = record (on (State.ready_for_human_merge ∷ []) EventType.merge_approval_verified) {
    pending = matched;
  };
  effect = to_merging;
  to_state = state_value State.merging;
  command_names = ("VerifyMergePreconditions" ∷ []);
}

abbrev pub rule_m_32b : Rule
rule_m_32b = record {
  rule_id = "M-32b";
  guard = record (on (State.ready_for_human_merge ∷ []) EventType.merge_approval_verified) {
    awaiting = some (some Awaiting.user_input_gate ∷ []);
    pending = absent;
  };
  effect = to_merging;
  to_state = state_value State.merging;
  command_names = ("VerifyMergePreconditions" ∷ []);
}

abbrev pub rule_m_34 : Rule
rule_m_34 = record {
  rule_id = "M-34";
  guard = record (on (State.merging ∷ []) EventType.merge_preconditions_ok) {
    awaiting = some (some Awaiting.merge_preconditions ∷ []);
    pending = absent;
  };
  effect = merge_effect none (some Awaiting.merge_outcome_execute) (Command.execute_merge ∷ []);
  to_state = state_value State.merging;
  command_names = ("ExecuteMerge" ∷ []);
}

abbrev pub rule_m_35 : Rule
rule_m_35 = record {
  rule_id = "M-35";
  guard = record (on (State.merging ∷ []) EventType.merge_precondition_mismatch) {
    awaiting = some (some Awaiting.merge_preconditions ∷ []);
    pending = absent;
  };
  effect = merge_effect (some State.merge_failed) none [];
  to_state = state_value State.merge_failed;
  command_names = [];
}

abbrev pub rule_m_36 : Rule
rule_m_36 = record {
  rule_id = "M-36";
  guard = record (on (State.merging ∷ []) EventType.head_changed_externally) {
    awaiting = some (some Awaiting.merge_preconditions ∷ []);
    pending = absent;
  };
  effect = fresh_review;
  to_state = state_value State.running_review;
  command_names = ("InvalidateApprovals" ∷ "RequestCodexReview" ∷ []);
}

abbrev pub rule_m_37 : Rule
rule_m_37 = record {
  rule_id = "M-37";
  guard = record (on (State.merging ∷ []) EventType.merge_confirmed) {
    awaiting = some merge_outcome;
    pending = absent;
    deferred_nonempty = some false;
  };
  effect = merge_effect (some State.merged) none [];
  to_state = state_value State.merged;
  command_names = [];
}

abbrev pub rule_m_38 : Rule
rule_m_38 = record {
  rule_id = "M-38";
  guard = record (on (State.merging ∷ []) EventType.merge_not_executed_confirmed) {
    awaiting = some (some Awaiting.merge_outcome_cancel ∷ []);
    pending = absent;
    deferred_nonempty = some false;
  };
  effect = merge_effect (some State.cancelled) none [];
  to_state = state_value State.cancelled;
  command_names = [];
}

abbrev pub rule_m_39 : Rule
rule_m_39 = record {
  rule_id = "M-39";
  guard = record (on (State.merging ∷ []) EventType.merge_not_executed_confirmed) {
    awaiting = some (some Awaiting.merge_outcome_failure ∷ []);
    pending = absent;
    deferred_nonempty = some false;
  };
  effect = merge_effect (some State.merge_failed) none [];
  to_state = state_value State.merge_failed;
  command_names = [];
}

abbrev pub rule_m_40 : Rule
rule_m_40 = record {
  rule_id = "M-40";
  guard = record (on (State.merging ∷ []) EventType.merge_outcome_unknown) {
    awaiting = some merge_outcome;
    pending = absent;
    deferred_nonempty = some false;
  };
  effect = merge_effect (some State.merge_failed) none [];
  to_state = state_value State.merge_failed;
  command_names = [];
}

abbrev pub rule_m_41a : Rule
rule_m_41a = record {
  rule_id = "M-41a";
  guard = record (on (State.merging ∷ []) EventType.user_cancel_verified) { pending = matched };
  effect = cancel_query_effect;
  to_state = state_value State.merging;
  command_names = ("QueryMergeOutcome" ∷ []);
}

abbrev pub rule_m_41b : Rule
rule_m_41b = record {
  rule_id = "M-41b";
  guard = record (on (State.merging ∷ []) EventType.user_cancel_verified) { pending = absent };
  effect = cancel_query_effect;
  to_state = state_value State.merging;
  command_names = ("QueryMergeOutcome" ∷ []);
}

abbrev pub rule_m_42 : Rule
rule_m_42 = record {
  rule_id = "M-42";
  guard = record (on (State.merging ∷ []) EventType.run_failed) {
    awaiting = some (merge_outcome ++ (some Awaiting.merge_preconditions ∷ []));
  };
  effect =
      merge_effect none (some Awaiting.merge_outcome_failure) (Command.query_merge_outcome ∷ []);
  to_state = state_value State.merging;
  command_names = ("QueryMergeOutcome" ∷ []);
}

abbrev pub rule_m_sh : Rule
rule_m_sh = record {
  rule_id = "M-SH";
  guard = record (on (State.merge_failed ∷ []) EventType.resume_same_head_validated) {
    pending = absent;
  };
  effect = same_head_effect;
  to_state = state_value State.ready_for_human_merge;
  command_names = [];
}

abbrev pub rule_m_hc : Rule
rule_m_hc = record {
  rule_id = "M-HC";
  guard = record (on (State.merge_failed ∷ []) EventType.head_changed_externally) {
    pending = absent;
  };
  effect = fresh_review;
  to_state = state_value State.running_review;
  command_names = ("InvalidateApprovals" ∷ "RequestCodexReview" ∷ []);
}

abbrev pub merge_rules : List Rule
merge_rules =
    rule_m_32a ∷ rule_m_32b ∷ rule_m_34 ∷ rule_m_35 ∷ rule_m_36 ∷ rule_m_37 ∷ rule_m_38 ∷ rule_m_39
    ∷ rule_m_40 ∷ rule_m_41a ∷ rule_m_41b ∷ rule_m_42 ∷ rule_m_sh ∷ rule_m_hc ∷ []

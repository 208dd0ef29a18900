-- ===== src/Domain/Recovery/Resume.antt =====
-- domain/_rules_recovery.py: explicit resume outside procedures.
use claude_code_codex_review.Prelude.{none, some, [], ◌∷◌, List, Option, map, true}
use claude_code_codex_review.Domain.States.{State, non_terminal, minus, state_value}
use claude_code_codex_review.Domain.Events.Types.{EventType}
use claude_code_codex_review.Domain.Values.Responses.{Awaiting, all_awaitings}
use claude_code_codex_review.Domain.Rules.Kinds.{BlockKind, PendingMatch}
use claude_code_codex_review.Domain.Rules.Match.{Rule, on}
use claude_code_codex_review.Domain.Workflow.Builders.{absent, same_state}
use claude_code_codex_review.Domain.Recovery.Effects.{
  fresh_review, keep_effect, resume_pending, resume_awaiting_failed, resume_awaiting_live,
  resume_drive, ci_resume_effect, reporter_retry_effect,
}

-- `_ANY_AWAITING`.
abbrev pub any_awaiting : List (Option Awaiting)
any_awaiting = map (λ a. some a) all_awaitings

abbrev pub rule_r_p : Rule
rule_r_p = record {
  rule_id = "R-P";
  guard = record (on non_terminal EventType.resume_validated) {
    pending = some (PendingMatch.present ∷ []);
  };
  effect = resume_pending;
  to_state = "pendingのsource_state";
  command_names = ("PersistRecord" ∷ []);
}

abbrev pub rule_r_a1 : Rule
rule_r_a1 = record {
  rule_id = "R-A1";
  guard = record (on (State.failed ∷ []) EventType.resume_validated) {
    awaiting = some any_awaiting;
    pending = absent;
    recovery_present = some true;
  };
  effect = resume_awaiting_failed;
  to_state = "recovery_to";
  command_names = ("awaiting対応command" ∷ []);
}

abbrev pub rule_r_a2 : Rule
rule_r_a2 = record {
  rule_id = "R-A2";
  guard =
      record (on (minus non_terminal (State.failed ∷ State.blocked ∷ []))
        EventType.resume_validated) { awaiting = some any_awaiting; pending = absent };
  effect = resume_awaiting_live;
  to_state = same_state;
  command_names = ("awaiting対応command" ∷ []);
}

abbrev pub rule_r_d : Rule
rule_r_d = record {
  rule_id = "R-D";
  guard = record (on (State.failed ∷ []) EventType.resume_validated) {
    awaiting = some (none ∷ []);
    pending = absent;
    recovery_present = some true;
  };
  effect = resume_drive;
  to_state = "recovery_to";
  command_names = ("recovery_to対応の駆動command" ∷ []);
}

abbrev pub rule_r_b : Rule
rule_r_b = record {
  rule_id = "R-B";
  guard = record (on (State.blocked ∷ []) EventType.resume_validated) { pending = absent };
  effect = keep_effect;
  to_state = state_value State.blocked;
  command_names = [];
}

abbrev pub rule_r_f : Rule
rule_r_f = record {
  rule_id = "R-F";
  guard = record (on (State.failed ∷ []) EventType.resume_fallback_required) {
    recovery_present = some true;
  };
  effect = fresh_review;
  to_state = state_value State.running_review;
  command_names = ("InvalidateApprovals" ∷ "RequestCodexReview" ∷ []);
}

abbrev pub rule_r_fb : Rule
rule_r_fb = record {
  rule_id = "R-FB";
  guard = record (on (State.blocked ∷ []) EventType.resume_fallback_required) {
    block_kinds = some (BlockKind.progress ∷ BlockKind.external_dependency ∷ []);
  };
  effect = fresh_review;
  to_state = state_value State.running_review;
  command_names = ("InvalidateApprovals" ∷ "RequestCodexReview" ∷ []);
}

abbrev pub rule_r_ci : Rule
rule_r_ci = record {
  rule_id = "R-CI";
  guard = record (on (State.waiting_ci ∷ []) EventType.ci_resume_requested) {
    awaiting = some (none ∷ some Awaiting.ci_result ∷ []);
    pending = absent;
  };
  effect = ci_resume_effect;
  to_state = state_value State.waiting_ci;
  command_names = ("CheckCi" ∷ []);
}

abbrev pub rule_r_rt : Rule
rule_r_rt = record {
  rule_id = "R-RT";
  guard = record (on (State.report_failed ∷ []) EventType.reporter_retry_requested) {
    awaiting = some (none ∷ []);
    pending = absent;
  };
  effect = reporter_retry_effect;
  to_state = state_value State.generating_report;
  command_names = ("GenerateReport" ∷ []);
}

abbrev pub resume_rules : List Rule
resume_rules =
    rule_r_p ∷ rule_r_a1 ∷ rule_r_a2 ∷ rule_r_d ∷ rule_r_b ∷ rule_r_f ∷ rule_r_fb ∷ rule_r_ci
    ∷ rule_r_rt ∷ []

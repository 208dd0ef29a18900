-- ===== src/State/Tests.antt =====
-- The witnesses of state/: a failed merge that is resumed, and the user's only answer.
use claude_code_codex_review.Prelude.{
  String, true, false, not, ◌&&◌, none, some, List, [], ◌∷◌, map, ◌≡◌, ◌≢◌, ◌⊎◌, ◌↔◌, refl, elem,
  any, keep, All, is_empty,
}
use claude_code_codex_review.Prelude.Text.{
  contains, upper, lower, ends_with, all_chars, span, strip_prefix, value_from,
}
use claude_code_codex_review.Domain.States.{State}
use claude_code_codex_review.Domain.Values.Kinds.{RecordKind, record_kind_eq}
use claude_code_codex_review.Transport.Fetched.{UnverifiedComment}
use claude_code_codex_review.Identity.Actor.{is_login, resolve_actor}
use claude_code_codex_review.Identity.Allowlist.{
  split_repository, read_numbers, comment_origin, DecisionAllowlist, DecisionAllowlistState,
  DecisionContext,
}
use claude_code_codex_review.Identity.Decision.{
  has_token, from_context, accepted_decision, accept_from, accept_user_decision, DecisionRejection,
}
use claude_code_codex_review.State.Reconcile.{
  HeadObservation, CheckpointHeads, ApprovalEvidence, ApprovalStatus, ResumeVerdict,
  ReconciliationResult, Observed, HeadChange, approves, status_of, evaluate_approvals,
  epoch_established, collect_approvals, classify, confirmed, reconcile_head, merge_gate_approvals,
}
use claude_code_codex_review.State.Gate.{
  Approved, Unmoved, approvals_of, stale, verdict, reconcile_head-same_head,
  reconcile_head-fallback,
}
use claude_code_codex_review.State.Approvals.{
  Judged, evaluate_approvals-Judged, reconcile_head-missing,
}
use claude_code_codex_review.State.DirectAnswer.{
  DirectAnswerOutcome, RejectedCandidate, is_candidate, tally, enumerate_direct_answers,
}
use claude_code_codex_review.State.SoleAnswer.{
  Sole, enumerate_direct_answers-Sole, Sole-enumerate_direct_answers,
}

abbrev head : HeadObservation
head = record { head_sha = "new"; base_sha = "base"; pull_state = "open"; merged = false }

abbrev heads : CheckpointHeads
heads = record {
  observed_sha = some "new";
  approved_sha = some "new";
  base_sha = none;
  coder_pushed_sha = none;
}

abbrev approval_at : RecordKind → String → ApprovalEvidence
approval_at k sha = record {
  kind = k;
  binding = "b";
  head_sha = sha;
  comment_id = "1";
  detail = none;
}

abbrev approvals : List ApprovalEvidence
approvals =
    approval_at RecordKind.review_result "old"
    ∷ approval_at RecordKind.review_result "new"
    ∷ approval_at RecordKind.merge_approval "new"
    ∷ []

reconcile_head-same_head_example :
    (verdict (reconcile_head head [] heads (some State.merge_failed) approvals)
      ≡ some ResumeVerdict.same_head_validated)
    ↔ ((some State.merge_failed ≡ some State.merge_failed)
        × Unmoved head heads
        × Approved RecordKind.review_result "new" (approvals_of [] approvals)
        × Approved RecordKind.merge_approval "new" (approvals_of [] approvals))
reconcile_head-same_head_example =
    reconcile_head-same_head head [] heads (some State.merge_failed) approvals

reconcile_head-fallback_example :
    (verdict (reconcile_head head [] heads none (approval_at RecordKind.merge_approval "old" ∷ []))
      ≡ some ResumeVerdict.fallback_required)
    ↔ (((s : String) × (heads.observed_sha ≡ some s) × (s ≢ "new"))
        ⊎ ((any
                (approves RecordKind.review_result "new")
                (approvals_of [] (approval_at RecordKind.merge_approval "old" ∷ []))
              ≡ false)
            × (stale "new" (approvals_of [] (approval_at RecordKind.merge_approval "old" ∷ []))
                ≡ true)))
reconcile_head-fallback_example =
    reconcile_head-fallback head [] heads none (approval_at RecordKind.merge_approval "old" ∷ [])

evaluate_approvals-Judged_example :
    (map (λ (s : ApprovalStatus). s.evidence) (evaluate_approvals approvals "new") ≡ approvals)
    × All (Judged approvals "new") (evaluate_approvals approvals "new")
evaluate_approvals-Judged_example = evaluate_approvals-Judged approvals "new"

abbrev reviewed_only : List ApprovalEvidence
reviewed_only = approval_at RecordKind.review_result "new" ∷ []

abbrev stop_facts : Observed
stop_facts = record {
  change = HeadChange.unchanged;
  observation = head;
  approvals = map (status_of true "new") reviewed_only;
}

stops :
    reconcile_head head [] heads (some State.merge_failed) reviewed_only
    ≡ ReconciliationResult.stopped (RecordKind.merge_approval ∷ []) stop_facts
unfolding reconcile_head evaluate_approvals epoch_established collect_approvals classify confirmed
    any keep
stops = refl

reconcile_head-missing_example :
    (is_empty (RecordKind.merge_approval ∷ []) ≡ false)
    × ((k : RecordKind)
        → elem k (RecordKind.merge_approval ∷ []) ≡ (
            elem k merge_gate_approvals
            && not (any (approves k "new") (approvals_of [] reviewed_only))))
reconcile_head-missing_example =
    reconcile_head-missing head [] heads (some State.merge_failed) reviewed_only
      (RecordKind.merge_approval ∷ []) stop_facts stops

abbrev answer_by : String → String → UnverifiedComment
answer_by login i = record {
  comment_id = i;
  url = "https://github.com/Owner/repo/issues/7#issuecomment-5";
  author_login = some login;
  created_at = "2026-01-03";
  updated_at = "2026-01-03";
  body = "yes";
  reply_to = none;
  review_id = none;
  body_hash = "hash";
  marker = none;
}

abbrev users : DecisionAllowlist
users = record { logins = "alice" ∷ [] }

abbrev question : DecisionContext
question = record {
  kind = RecordKind.user_decision;
  repository = "owner/repo";
  number = 7;
  head_sha = "0123456789012345678901234567890123456789";
  merge_method = none;
  candidate_fingerprint = none;
}

abbrev answers : List UnverifiedComment
answers = answer_by "mallory" "4" ∷ answer_by "alice" "5" ∷ []

answer_taken :
    enumerate_direct_answers answers (DecisionAllowlistState.allowlist users) question [] none
    ≡ DirectAnswerOutcome.answered
        (accepted_decision (answer_by "alice" "5") question "alice")
        ((record { comment_id = "4"; reason = DecisionRejection.not_in_allowlist }) ∷ [])
unfolding enumerate_direct_answers tally is_candidate accept_user_decision accept_from
    accepted_decision resolve_actor is_login all_chars ends_with lower contains upper has_token
    from_context comment_origin split_repository read_numbers span strip_prefix value_from elem
answer_taken = refl

enumerate_direct_answers-Sole_example :
    Sole users question [] none (accepted_decision (answer_by "alice" "5") question "alice") answers
enumerate_direct_answers-Sole_example =
    enumerate_direct_answers-Sole users question [] none answers
      (accepted_decision (answer_by "alice" "5") question "alice") _ answer_taken

Sole-enumerate_direct_answers_example :
    (rejected : List RejectedCandidate) × (enumerate_direct_answers answers
        (DecisionAllowlistState.allowlist users)
        question
        []
        none
      ≡ DirectAnswerOutcome.answered
          (accepted_decision (answer_by "alice" "5") question "alice")
          rejected)
Sole-enumerate_direct_answers_example =
    Sole-enumerate_direct_answers users question [] none answers
      (accepted_decision (answer_by "alice" "5") question "alice")
      (enumerate_direct_answers-Sole users question [] none answers
        (accepted_decision (answer_by "alice" "5") question "alice") _ answer_taken)

-- ===== src/Identity/Decision/Tests.antt =====
-- The witnesses of identity/: a merge approval that a user wrote as a comment.
use claude_code_codex_review.Prelude.{String, none, some, [], ◌∷◌, ◌≡◌, ◌↔◌, refl, elem}
use claude_code_codex_review.Prelude.Text.{
  contains, upper, lower, ends_with, all_chars, span, strip_prefix, value_from,
}
use claude_code_codex_review.Domain.Values.Kinds.{RecordKind}
use claude_code_codex_review.Transport.Fetched.{UnverifiedComment}
use claude_code_codex_review.Identity.Actor.{is_login, resolve_actor, user_login}
use claude_code_codex_review.Identity.Allowlist.{
  split_repository, read_numbers, comment_origin, DecisionAllowlist, DecisionAllowlistState,
  DecisionContext,
}
use claude_code_codex_review.Identity.Decision.{
  has_token, from_context, accepted_decision, accept_from, accept_user_decision,
  revalidate_user_decision, AcceptedUserDecision, DecisionOutcome, DecisionValidity,
}
use claude_code_codex_review.Identity.Decision.Acceptance.{Acceptable, accept_user_decision_iff}
use claude_code_codex_review.Identity.Decision.Revalidation.{accept-revalidate}
use claude_code_codex_review.Identity.Decision.Intent.{
  SameIntent, revalidate_user_decision-SameIntent,
}

abbrev approval : UnverifiedComment
approval = record {
  comment_id = "5";
  url = "https://github.com/Owner/repo/pull/7#issuecomment-5";
  author_login = some "Alice";
  created_at = "2026-01-03";
  updated_at = "2026-01-03";
  body = "merge";
  reply_to = none;
  review_id = none;
  body_hash = "hash";
  marker = none;
}

abbrev users : DecisionAllowlist
users = record { logins = "alice" ∷ [] }

abbrev merge_context : DecisionContext
merge_context = record {
  kind = RecordKind.merge_approval;
  repository = "owner/repo";
  number = 7;
  head_sha = "0123456789012345678901234567890123456789";
  merge_method = some "squash";
  candidate_fingerprint = none;
}

abbrev decision : AcceptedUserDecision
decision = accepted_decision approval merge_context "alice"

approval_accepted :
    accept_user_decision approval (DecisionAllowlistState.allowlist users) merge_context []
    ≡ DecisionOutcome.accepted decision
unfolding accept_user_decision accept_from accepted_decision resolve_actor is_login all_chars
    ends_with lower contains upper has_token from_context comment_origin split_repository
    read_numbers span strip_prefix value_from elem
approval_accepted = refl

accept_user_decision_iff_example :
    (accept_user_decision approval (DecisionAllowlistState.allowlist users) merge_context []
      ≡ DecisionOutcome.accepted decision)
    ↔ ((login : String) × Acceptable approval ("alice" ∷ []) merge_context [] login
        × (accepted_decision approval merge_context login ≡ decision))
accept_user_decision_iff_example = accept_user_decision_iff approval users merge_context [] decision

accept-revalidate_example :
    revalidate_user_decision decision (some approval) merge_context ≡ DecisionValidity.valid
accept-revalidate_example =
    accept-revalidate approval users merge_context [] decision approval_accepted

revalidate_user_decision-SameIntent_example :
    SameIntent merge_context merge_context
    × (approval.comment_id ≡ approval.comment_id)
    × (approval.body_hash ≡ approval.body_hash)
    × (approval.updated_at ≡ approval.created_at)
    × (user_login approval.author_login ≡ user_login approval.author_login)
revalidate_user_decision-SameIntent_example =
    revalidate_user_decision-SameIntent approval approval users merge_context merge_context []
      decision approval_accepted
      (accept-revalidate approval users merge_context [] decision approval_accepted)

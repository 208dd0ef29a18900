-- ===== src/Identity/Decision.antt =====
-- identity/allowlist.py: when a comment counts as the user's decision, and when it no longer does.
mod Acceptance
mod Revalidation
mod Intent
mod Tests
use claude_code_codex_review.Prelude.{
  String, Bool, false, not, ◌&&◌, ◌||◌, Option, none, some, List, elem, if◌then◌else◌, nat_beq,
  ◌==◌, string_eq, option_eq,
}
use claude_code_codex_review.Prelude.Text.{contains, lower, upper}
use claude_code_codex_review.Domain.Values.Opaque.{OpaqueBinding}
use claude_code_codex_review.Domain.Values.Records.{RecordEvidence}
use claude_code_codex_review.Transport.Fetched.{UnverifiedComment}
use claude_code_codex_review.Identity.Actor.{ActorClass, resolve_actor, user_login}
use claude_code_codex_review.Identity.Allowlist.{
  comment_origin, DecisionAllowlistState, DecisionContext, derive_binding,
}

abbrev pub marker_token : String
marker_token = "CC_REVIEW_META"

pub data DecisionRejection : Type 0 where
  allowlist_unavailable not_in_allowlist bot_actor invalid_login missing_actor : DecisionRejection
  source_mismatch edited already_consumed embedded_marker : DecisionRejection

pub record AcceptedUserDecision : Type 0 where
  pub binding : OpaqueBinding
  pub evidence : RecordEvidence
  pub comment_id : String
  pub author_login : String
  pub body : String
  pub body_hash : String
  pub head_sha : String

-- A rejection names the reason and the comment; the detail, a sentence, is left out.
pub data DecisionOutcome : Type 0 where
  accepted : AcceptedUserDecision → DecisionOutcome
  rejected : DecisionRejection → String → DecisionOutcome

-- `MARKER_TOKEN in body.upper()`.
unfoldable pub has_token : String → Bool
has_token body = contains (upper body) marker_token

-- The comment stands where the context expects it, by its address and by its ID.
unfoldable pub from_context : UnverifiedComment → DecisionContext → Bool
from_context comment c = elim (comment_origin comment.url) [
  | none ↦ false
  | some o ↦
      lower o.repository == lower c.repository
      && nat_beq o.number c.number
      && o.comment_id == comment.comment_id
]

unfoldable pub accepted_decision :
    UnverifiedComment → DecisionContext → String → AcceptedUserDecision
accepted_decision comment c login =
    let binding : OpaqueBinding = record { value = derive_binding c comment.comment_id } in
    record {
      binding = binding;
      evidence = record { kind = c.kind; binding = binding; ref = record { value = comment.url } };
      comment_id = comment.comment_id;
      author_login = login;
      body = comment.body;
      body_hash = comment.body_hash;
      head_sha = c.head_sha;
    }

-- The checks that follow the author's, in their order.
unfoldable pub accept_from :
    UnverifiedComment → List String → DecisionContext → List String → String → DecisionOutcome
accept_from comment logins context consumed login =
    let reject = λ (r : DecisionRejection). DecisionOutcome.rejected r comment.comment_id in
    if not (elem login logins)
    then reject DecisionRejection.not_in_allowlist
    else if not (from_context comment context)
    then reject DecisionRejection.source_mismatch
    else if not (comment.updated_at == comment.created_at)
    then reject DecisionRejection.edited
    else if elem comment.comment_id consumed
    then reject DecisionRejection.already_consumed
    else if has_token comment.body
    then reject DecisionRejection.embedded_marker
    else DecisionOutcome.accepted (accepted_decision comment context login)

unfoldable pub accept_user_decision :
    UnverifiedComment → DecisionAllowlistState → DecisionContext → List String → DecisionOutcome
unfolding accept_from
accept_user_decision comment DecisionAllowlistState.unavailable context consumed =
    DecisionOutcome.rejected DecisionRejection.allowlist_unavailable comment.comment_id
accept_user_decision comment (DecisionAllowlistState.allowlist a) context consumed =
    let actor = resolve_actor comment.author_login in
    elim actor.klass [
      | ActorClass.missing ↦
          DecisionOutcome.rejected DecisionRejection.missing_actor comment.comment_id
      | ActorClass.bot ↦ DecisionOutcome.rejected DecisionRejection.bot_actor comment.comment_id
      | ActorClass.invalid ↦
          DecisionOutcome.rejected DecisionRejection.invalid_login comment.comment_id
      | ActorClass.user ↦ elim actor.login [
        | none ↦ DecisionOutcome.rejected DecisionRejection.invalid_login comment.comment_id
        | some login ↦ accept_from comment a.logins context consumed login
      ]
    ]

pub data DecisionValidity : Type 0 where
  valid voided_edited voided_deleted voided_source_mismatch voided_binding_mismatch :
      DecisionValidity

-- `none` for the comment is the answer 404.
unfoldable pub revalidate_user_decision :
    AcceptedUserDecision → Option UnverifiedComment → DecisionContext → DecisionValidity
revalidate_user_decision d none expected = DecisionValidity.voided_deleted
revalidate_user_decision d (some current) expected =
    if not (current.comment_id == d.comment_id)
    then DecisionValidity.voided_source_mismatch
    else if not (from_context current expected)
    then DecisionValidity.voided_source_mismatch
    else if not (user_login current.author_login == some d.author_login)
    then DecisionValidity.voided_source_mismatch
    else if not (current.body_hash == d.body_hash) || not (current.updated_at == current.created_at)
    then DecisionValidity.voided_edited
    else if not (derive_binding expected d.comment_id == d.binding.value)
    then DecisionValidity.voided_binding_mismatch
    else DecisionValidity.valid

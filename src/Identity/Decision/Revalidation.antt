-- ===== src/Identity/Decision/Revalidation.antt =====
-- identity/allowlist.py: an accepted decision, checked again on what is then fetched.
use claude_code_codex_review.Prelude.{
  String, true, some, List, ◌≡◌, refl, subst, arith, ◌==◌, string_eq, option_eq,
}
use claude_code_codex_review.Transport.Fetched.{UnverifiedComment}
use claude_code_codex_review.Identity.Actor.{user_login}
use claude_code_codex_review.Identity.Allowlist.{
  DecisionAllowlist, DecisionAllowlistState, DecisionContext, derive_binding,
}
use claude_code_codex_review.Identity.Decision.{
  from_context, accepted_decision, accept_user_decision, revalidate_user_decision,
  AcceptedUserDecision, DecisionOutcome, DecisionValidity,
}
use claude_code_codex_review.Identity.Decision.Acceptance.{Acceptable, accept_user_decision_iff}

-- The comment that was fetched again is the accepted one, unchanged, and the same intent is expected.
pub record Unchanged (d : AcceptedUserDecision) (current : UnverifiedComment)
    (expected : DecisionContext) : Type 0 where
  pub same_comment : current.comment_id ≡ d.comment_id
  pub in_place : from_context current expected ≡ true
  pub same_author : user_login current.author_login ≡ some d.author_login
  pub same_body : current.body_hash ≡ d.body_hash
  pub unedited : current.updated_at ≡ current.created_at
  pub same_intent : derive_binding expected d.comment_id ≡ d.binding.value

module _ (d : AcceptedUserDecision) (current : UnverifiedComment) (expected : DecisionContext) where
  valid_lem :
      revalidate_user_decision d (some current) expected ≡ DecisionValidity.valid
      → ((current.comment_id == d.comment_id) ≡ true)
        × (from_context current expected ≡ true)
        × ((user_login current.author_login == some d.author_login) ≡ true)
        × ((current.body_hash == d.body_hash) ≡ true)
        × ((current.updated_at == current.created_at) ≡ true)
        × ((derive_binding expected d.comment_id == d.binding.value) ≡ true)
  unfolding revalidate_user_decision
  valid_lem h = (ground arith, ground arith, ground arith, ground arith, ground arith, ground arith)

  pub valid-Unchanged :
      revalidate_user_decision d (some current) expected ≡ DecisionValidity.valid
      → Unchanged d current expected
  valid-Unchanged h =
      let p = valid_lem h in
      record {
        same_comment = (string_eq.beq_iff current.comment_id d.comment_id).0 p.0;
        in_place = p.1;
        same_author =
            (option_eq.beq_iff (user_login current.author_login) (some d.author_login)).0 p.2;
        same_body = (string_eq.beq_iff current.body_hash d.body_hash).0 p.3;
        unedited = (string_eq.beq_iff current.updated_at current.created_at).0 p.4;
        same_intent =
            (string_eq.beq_iff (derive_binding expected d.comment_id) d.binding.value).0 p.5;
      }

  pub Unchanged-valid :
      Unchanged d current expected
      → revalidate_user_decision d (some current) expected ≡ DecisionValidity.valid
  unfolding revalidate_user_decision
  Unchanged-valid u =
      let a = (string_eq.beq_iff current.comment_id d.comment_id).1 u.same_comment in
      let b = u.in_place in
      let c =
        (option_eq.beq_iff (user_login current.author_login) (some d.author_login)).1
          u.same_author in
      let e = (string_eq.beq_iff current.body_hash d.body_hash).1 u.same_body in
      let f = (string_eq.beq_iff current.updated_at current.created_at).1 u.unedited in
      let g =
        (string_eq.beq_iff (derive_binding expected d.comment_id) d.binding.value).1
          u.same_intent in
      ground arith

accepted-Unchanged :
    (comment : UnverifiedComment) (logins : List String) (context : DecisionContext)
    (consumed : List String) (login : String)
    → Acceptable comment logins context consumed login
    → Unchanged (accepted_decision comment context login) comment context
unfolding accepted_decision
accepted-Unchanged comment logins context consumed login p = record {
  same_comment = refl;
  in_place = p.expected;
  same_author = p.author;
  same_body = refl;
  unedited = p.unedited;
  same_intent = refl;
}

-- A decision that was accepted is still valid when the same comment is fetched again and the same
-- context is expected.
pub accept-revalidate :
    (comment : UnverifiedComment) (a : DecisionAllowlist) (context : DecisionContext)
    (consumed : List String) (d : AcceptedUserDecision)
    → accept_user_decision comment (DecisionAllowlistState.allowlist a) context consumed
      ≡ DecisionOutcome.accepted d
    → revalidate_user_decision d (some comment) context ≡ DecisionValidity.valid
accept-revalidate comment a context consumed d h =
    let p = (accept_user_decision_iff comment a context consumed d).0 h in
    Unchanged-valid d comment context (
      subst (λ x. Unchanged x comment context) p.2
        (accepted-Unchanged comment a.logins context consumed p.0 p.1))

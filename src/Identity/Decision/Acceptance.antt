-- ===== src/Identity/Decision/Acceptance.antt =====
-- identity/allowlist.py: what an accepted decision says of its comment, and of the same comment later.
use claude_code_codex_review.Prelude.{
  String, true, false, Option, none, some, List, elem, ◌≡◌, refl, ap, subst, ◌∙◌, ◌↔◌, arith, ◌==◌,
  string_eq, option_eq,
}
use claude_code_codex_review.Transport.Fetched.{UnverifiedComment}
use claude_code_codex_review.Identity.Actor.{ActorClass, resolve_actor, user_login}
use claude_code_codex_review.Identity.Allowlist.{
  DecisionAllowlist, DecisionAllowlistState, DecisionContext,
}
use claude_code_codex_review.Identity.Decision.{
  has_token, from_context, accepted_decision, accept_from, accept_user_decision,
  AcceptedUserDecision, DecisionOutcome, DecisionRejection,
}

-- A comment that may count as the decision of a user of the list.
pub record Acceptable (comment : UnverifiedComment) (logins : List String)
    (context : DecisionContext) (consumed : List String) (login : String) : Type 0 where
  pub author : user_login comment.author_login ≡ some login
  pub listed : elem login logins ≡ true
  pub expected : from_context comment context ≡ true
  pub unedited : comment.updated_at ≡ comment.created_at
  pub fresh : elem comment.comment_id consumed ≡ false
  pub unmarked : has_token comment.body ≡ false

decision_inj :
    {a b : AcceptedUserDecision} → DecisionOutcome.accepted a ≡ DecisionOutcome.accepted b → a ≡ b
decision_inj p = cc

module _ (comment : UnverifiedComment) (logins : List String) (context : DecisionContext)
    (consumed : List String) where
  accept_from_lem :
      (login : String) (d : AcceptedUserDecision)
      → accept_from comment logins context consumed login ≡ DecisionOutcome.accepted d
      → (elem login logins ≡ true)
        × (from_context comment context ≡ true)
        × ((comment.updated_at == comment.created_at) ≡ true)
        × (elem comment.comment_id consumed ≡ false)
        × (has_token comment.body ≡ false)
        × (accepted_decision comment context login ≡ d)
  unfolding accept_from
  accept_from_lem login d h =
      (ground arith, ground arith, ground arith, ground arith, ground arith, ground arith)

  accept_from_ok :
      (login : String)
      → Acceptable comment logins context consumed login
      → accept_from comment logins context consumed login
        ≡ DecisionOutcome.accepted (accepted_decision comment context login)
  unfolding accept_from
  accept_from_ok login p =
      let q = p.listed in
      let r = p.expected in
      let s = p.fresh in
      let t = p.unmarked in
      let u = (string_eq.beq_iff comment.updated_at comment.created_at).1 p.unedited in ground arith

  user_lem :
      (a : DecisionAllowlist) (d : AcceptedUserDecision)
      → a.logins ≡ logins
      → accept_user_decision comment (DecisionAllowlistState.allowlist a) context consumed
        ≡ DecisionOutcome.accepted d
      → (login : String) × (user_login comment.author_login ≡ some login)
        × (accept_from comment logins context consumed login ≡ DecisionOutcome.accepted d)
  unfolding accept_user_decision user_login
  user_lem a d e h =
      go (resolve_actor comment.author_login).klass (resolve_actor comment.author_login).login h
    where
      go :
          (k : ActorClass) (l : Option String)
          → elim k [
            | ActorClass.missing ↦
                DecisionOutcome.rejected DecisionRejection.missing_actor comment.comment_id
            | ActorClass.bot ↦
                DecisionOutcome.rejected DecisionRejection.bot_actor comment.comment_id
            | ActorClass.invalid ↦
                DecisionOutcome.rejected DecisionRejection.invalid_login comment.comment_id
            | ActorClass.user ↦ elim l [
              | none ↦ DecisionOutcome.rejected DecisionRejection.invalid_login comment.comment_id
              | some login ↦ accept_from comment a.logins context consumed login
            ]
          ]
            ≡ DecisionOutcome.accepted d
          → (login : String) × (elim k [ ActorClass.user ↦ l | _ ↦ none ] ≡ some login)
            × (accept_from comment logins context consumed login ≡ DecisionOutcome.accepted d)
      go ActorClass.missing l h = absurd (cc)
      go ActorClass.bot l h = absurd (cc)
      go ActorClass.invalid l h = absurd (cc)
      go ActorClass.user none h = absurd (cc)
      go ActorClass.user (some login) h = (
        login,
        refl,
        subst (λ ls. accept_from comment ls context consumed login ≡ DecisionOutcome.accepted d) e
            h,
      )

  user_of :
      (a : DecisionAllowlist) (login : String)
      → a.logins ≡ logins
      → user_login comment.author_login ≡ some login
      → accept_user_decision comment (DecisionAllowlistState.allowlist a) context consumed
        ≡ accept_from comment logins context consumed login
  unfolding accept_user_decision user_login
  user_of a login e h =
      go (resolve_actor comment.author_login).klass (resolve_actor comment.author_login).login h
    where
      go :
          (k : ActorClass) (l : Option String)
          → elim k [ ActorClass.user ↦ l | _ ↦ none ] ≡ some login
          → elim k [
            | ActorClass.missing ↦
                DecisionOutcome.rejected DecisionRejection.missing_actor comment.comment_id
            | ActorClass.bot ↦
                DecisionOutcome.rejected DecisionRejection.bot_actor comment.comment_id
            | ActorClass.invalid ↦
                DecisionOutcome.rejected DecisionRejection.invalid_login comment.comment_id
            | ActorClass.user ↦ elim l [
              | none ↦ DecisionOutcome.rejected DecisionRejection.invalid_login comment.comment_id
              | some x ↦ accept_from comment a.logins context consumed x
            ]
          ]
            ≡ accept_from comment logins context consumed login
      go ActorClass.missing l h = absurd (cc)
      go ActorClass.bot l h = absurd (cc)
      go ActorClass.invalid l h = absurd (cc)
      go ActorClass.user none h = absurd (cc)
      go ActorClass.user (some x) h = cc

-- With a list of logins, a comment is accepted exactly when its author is a user of the list, it
-- stands where the context expects it, it was never edited, it is not consumed and it holds no
-- reserved token; the decision is then the one made of this comment, context and login.
pub accept_user_decision_iff :
    (comment : UnverifiedComment) (a : DecisionAllowlist) (context : DecisionContext)
    (consumed : List String) (d : AcceptedUserDecision)
    → (accept_user_decision comment (DecisionAllowlistState.allowlist a) context consumed
        ≡ DecisionOutcome.accepted d)
      ↔ ((login : String) × Acceptable comment a.logins context consumed login
          × (accepted_decision comment context login ≡ d))
accept_user_decision_iff comment a context consumed d = (
  λ h.
      let u = user_lem comment a.logins context consumed a d refl h in
      let p = accept_from_lem comment a.logins context consumed u.0 d u.2 in
      (
        u.0,
        record {
          author = u.1;
          listed = p.0;
          expected = p.1;
          unedited = (string_eq.beq_iff comment.updated_at comment.created_at).0 p.2;
          fresh = p.3;
          unmarked = p.4;
        },
        p.5,
      ),
  λ (login, p, e).
      user_of comment a.logins context consumed a login refl p.author
      ∙ accept_from_ok comment a.logins context consumed login p
      ∙ ap DecisionOutcome.accepted e,
)

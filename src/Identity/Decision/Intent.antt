-- ===== src/Identity/Decision/Intent.antt =====
-- identity/allowlist.py: what the binding of a decision says of the context that it was derived from.
use Prim.Native.String.{◌++◌}
use text.Mathlib.TextLemmas.{append-nil, append_cancel_left, append_cancel_right}
use claude_code_codex_review.Prelude.{String, Option, none, some, ◌≡◌, refl, sym, ap, ◌∙◌}
use claude_code_codex_review.Prelude.Order.{before}
use claude_code_codex_review.Prelude.Text.{decimal, lower}
use claude_code_codex_review.Domain.Values.Kinds.{RecordKind}
use claude_code_codex_review.Schema.Kinds.{kind_value, record_kind_of, record_kind_of-value}
use claude_code_codex_review.Schema.Encoding.{dumps, print, quoted, sort_keys}
use claude_code_codex_review.Schema.Unquote.{quoted_inj, null_or_quoted}
use claude_code_codex_review.Schema.Numerals.{decimal_inj}
use claude_code_codex_review.Identity.Allowlist.{DecisionContext, derive_binding, optional_text}
use claude_code_codex_review.Prelude.{List}
use claude_code_codex_review.Transport.Fetched.{UnverifiedComment}
use claude_code_codex_review.Identity.Actor.{user_login}
use claude_code_codex_review.Identity.Allowlist.{DecisionAllowlist, DecisionAllowlistState}
use claude_code_codex_review.Identity.Decision.{
  accepted_decision, accept_user_decision, revalidate_user_decision, AcceptedUserDecision,
  DecisionOutcome, DecisionValidity,
}
use claude_code_codex_review.Identity.Decision.Acceptance.{accept_user_decision_iff}
use claude_code_codex_review.Identity.Decision.Revalidation.{valid-Unchanged}

-- The two contexts ask for the same thing: all that a decision is bound to is equal.
pub record SameIntent (a b : DecisionContext) : Type 0 where
  pub kind : a.kind ≡ b.kind
  pub repository : lower a.repository ≡ lower b.repository
  pub number : a.number ≡ b.number
  pub head_sha : a.head_sha ≡ b.head_sha
  pub merge_method : a.merge_method ≡ b.merge_method
  pub candidate_fingerprint : a.candidate_fingerprint ≡ b.candidate_fingerprint

abbrev optional_print : Option String → String
optional_print o = print (sort_keys (optional_text o))

abbrev after_number : DecisionContext → String
after_number c = quoted "repository" ++ (":" ++ quoted (lower c.repository))

abbrev after_method : DecisionContext → String
after_method c = quoted "number" ++ (":" ++ (decimal c.number ++ ("," ++ after_number c)))

abbrev after_kind : DecisionContext → String
after_kind c =
    quoted "method" ++ (":" ++ (optional_print c.merge_method ++ ("," ++ after_method c)))

abbrev after_head : DecisionContext → String
after_head c = quoted "kind" ++ (":" ++ (quoted (kind_value c.kind) ++ ("," ++ after_kind c)))

abbrev after_fingerprint : DecisionContext → String
after_fingerprint c = quoted "head" ++ (":" ++ (quoted c.head_sha ++ ("," ++ after_head c)))

abbrev after_comment : DecisionContext → String
after_comment c =
    quoted "fingerprint"
    ++ (":" ++ (optional_print c.candidate_fingerprint ++ ("," ++ after_fingerprint c)))

derived_text :
    (c : DecisionContext) (i : String)
    → derive_binding c i
      ≡ "ud:"
        ++ ("{" ++ ((quoted "comment" ++ (":" ++ (quoted i ++ ("," ++ after_comment c)))) ++ "}"))
unfolding derive_binding dumps print sort_keys before
derived_text c i = refl

some_inj : {a b : RecordKind} → ◌≡◌ {A = Option RecordKind} (some a) (some b) → a ≡ b
some_inj p = cc

-- Two entries with the same key and the same form of value agree when what they begin does.
same_start : (k : String) (s t : String) → quoted k ++ (":" ++ s) ≡ quoted k ++ (":" ++ t) → s ≡ t
same_start k s t p =
    append_cancel_left ":" s t (append_cancel_left (quoted k) (":" ++ s) (":" ++ t) p)

text_inj :
    (s t r r' : String) → quoted s ++ ("," ++ r) ≡ quoted t ++ ("," ++ r') → (s ≡ t) × (r ≡ r')
text_inj s t r r' p =
    let q = quoted_inj s t ("," ++ r) ("," ++ r') p in (q.0, append_cancel_left "," r r' q.1)

optional_inj :
    (a b : Option String) (r r' : String)
    → optional_print a ++ ("," ++ r) ≡ optional_print b ++ ("," ++ r')
    → (a ≡ b) × (r ≡ r')
unfolding print sort_keys
optional_inj none none r r' p =
    (refl, append_cancel_left "," r r' (append_cancel_left "null" ("," ++ r) ("," ++ r') p))
optional_inj none (some t) r r' p = absurd (null_or_quoted t ("," ++ r) ("," ++ r') p)
optional_inj (some s) none r r' p = absurd (null_or_quoted s ("," ++ r') ("," ++ r) (sym p))
optional_inj (some s) (some t) r r' p = let q = text_inj s t r r' p in (ap some q.0, q.1)

kind_value_inj : (a b : RecordKind) → kind_value a ≡ kind_value b → a ≡ b
kind_value_inj a b p =
    some_inj (sym (record_kind_of-value a) ∙ ap record_kind_of p ∙ record_kind_of-value b)

-- The binding of a comment determines everything that the decision is bound to.
pub derive_binding_inj :
    (a b : DecisionContext) (i : String) → derive_binding a i ≡ derive_binding b i → SameIntent a b
derive_binding_inj a b i p =
    let whole =
      append_cancel_left "{" _ _
        (append_cancel_left "ud:" _ _ (sym (derived_text a i) ∙ p ∙ derived_text b i)) in
    let comment =
      append_cancel_left (quoted i) _ _
        (same_start "comment" _ _ (append_cancel_right _ _ "}" whole)) in
    let fingerprint =
      optional_inj a.candidate_fingerprint b.candidate_fingerprint _ _
        (same_start "fingerprint" _ _ (append_cancel_left "," _ _ comment)) in
    let head = text_inj a.head_sha b.head_sha _ _ (same_start "head" _ _ fingerprint.1) in
    let kind =
      text_inj (kind_value a.kind) (kind_value b.kind) _ _ (same_start "kind" _ _ head.1) in
    let method = optional_inj a.merge_method b.merge_method _ _ (same_start "method" _ _ kind.1) in
    let number = decimal_inj a.number b.number _ _ (same_start "number" _ _ method.1) in
    let repository =
      quoted_whole (lower a.repository) (lower b.repository)
        (same_start "repository" _ _ number.1) in
    record {
      kind = kind_value_inj a.kind b.kind kind.0;
      repository = repository;
      number = number.0;
      head_sha = head.0;
      merge_method = method.0;
      candidate_fingerprint = fingerprint.0;
    }
  where
    quoted_whole : (s t : String) → quoted s ≡ quoted t → s ≡ t
    quoted_whole s t q =
        (quoted_inj s t "" "" (append-nil (quoted s) ∙ q ∙ sym (append-nil (quoted t)))).0

module _ (comment : UnverifiedComment) (context : DecisionContext) (login : String)
    (d : AcceptedUserDecision) (e : accepted_decision comment context login ≡ d) where
  decided_comment : comment.comment_id ≡ d.comment_id
  unfolding accepted_decision
  decided_comment = ap (λ (x : AcceptedUserDecision). x.comment_id) e

  decided_body : comment.body_hash ≡ d.body_hash
  unfolding accepted_decision
  decided_body = ap (λ (x : AcceptedUserDecision). x.body_hash) e

  decided_login : login ≡ d.author_login
  unfolding accepted_decision
  decided_login = ap (λ (x : AcceptedUserDecision). x.author_login) e

  decided_binding : derive_binding context comment.comment_id ≡ d.binding.value
  unfolding accepted_decision
  decided_binding = ap (λ (x : AcceptedUserDecision). x.binding.value) e

-- A decision that was accepted in one context and is still valid in another: the comment that was
-- fetched again is the one that was accepted, with the same body hash and author and not edited, and
-- the two contexts agree on the kind, the number, the head, the merge method and the candidate, and
-- on the repository up to upper and lower case.
pub revalidate_user_decision-SameIntent :
    (comment current : UnverifiedComment) (a : DecisionAllowlist)
    (context expected : DecisionContext) (consumed : List String) (d : AcceptedUserDecision)
    → accept_user_decision comment (DecisionAllowlistState.allowlist a) context consumed
      ≡ DecisionOutcome.accepted d
    → revalidate_user_decision d (some current) expected ≡ DecisionValidity.valid
    → SameIntent expected context
      × (current.comment_id ≡ comment.comment_id)
      × (current.body_hash ≡ comment.body_hash)
      × (current.updated_at ≡ current.created_at)
      × (user_login current.author_login ≡ user_login comment.author_login)
revalidate_user_decision-SameIntent comment current a context expected consumed d h v =
    let p = (accept_user_decision_iff comment a context consumed d).0 h in
    let e = p.2 in
    let u = valid-Unchanged d current expected v in
    (
      derive_binding_inj expected context comment.comment_id (
          ap (derive_binding expected) (decided_comment comment context p.0 d e)
          ∙ u.same_intent
          ∙ sym (decided_binding comment context p.0 d e)),
      u.same_comment ∙ sym (decided_comment comment context p.0 d e),
      u.same_body ∙ sym (decided_body comment context p.0 d e),
      u.unedited,
      u.same_author ∙ sym (p.1.author ∙ ap some (decided_login comment context p.0 d e)),
    )

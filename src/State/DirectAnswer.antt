-- ===== src/State/DirectAnswer.antt =====
-- state/direct_answer.py: the answer that the user wrote as a comment, if exactly one can be accepted.
use claude_code_codex_review.Prelude.{
  String, Bool, true, not, ◌&&◌, Option, none, some, List, [], ◌∷◌, elem, if◌then◌else◌, string_eq,
}
use claude_code_codex_review.Prelude.Order.{before}
use claude_code_codex_review.Transport.Fetched.{UnverifiedComment}
use claude_code_codex_review.Identity.Allowlist.{DecisionAllowlistState, DecisionContext}
use claude_code_codex_review.Identity.Decision.{
  has_token, accept_user_decision, AcceptedUserDecision, DecisionOutcome, DecisionRejection,
}

pub record RejectedCandidate : Type 0 where
  pub comment_id : String
  pub reason : DecisionRejection

pub data DirectAnswerOutcome : Type 0 where
  absent : List RejectedCandidate → DirectAnswerOutcome
  answered : AcceptedUserDecision → List RejectedCandidate → DirectAnswerOutcome
  ambiguous : List AcceptedUserDecision → DirectAnswerOutcome
  unavailable : DirectAnswerOutcome

abbrev later : Option String → String → Bool
later none created = true
later (some after) created = before after created

unfoldable pub is_candidate : Option String → List String → UnverifiedComment → Bool
is_candidate after consumed comment =
    not (has_token comment.body)
    && not (elem comment.comment_id consumed)
    && later after comment.created_at

pub record Tally : Type 0 where
  pub taken : List AcceptedUserDecision
  pub refused : List RejectedCandidate

abbrev pub count_in : DecisionOutcome → Tally → Tally
count_in (DecisionOutcome.accepted d) t = record { taken = d ∷ t.taken; refused = t.refused }
count_in (DecisionOutcome.rejected r i) t = record {
  taken = t.taken;
  refused = (record { comment_id = i; reason = r }) ∷ t.refused;
}

abbrev pub tally_step : Bool → DecisionOutcome → Tally → Tally
tally_step b o rest = if b then count_in o rest else rest

unfoldable pub tally :
    DecisionAllowlistState
    → DecisionContext
    → List String
    → Option String
    → List UnverifiedComment
    → Tally
tally list context consumed after [] = record { taken = []; refused = [] }
tally list context consumed after (c ∷ cs) =
    let rest = tally list context consumed after cs in
    tally_step (is_candidate after consumed c) (accept_user_decision c list context consumed) rest

abbrev pub outcome_of : Tally → DirectAnswerOutcome
outcome_of t = elim t.taken [
  | [] ↦ DirectAnswerOutcome.absent t.refused
  | d ∷ rest ↦ elim rest [
    | [] ↦ DirectAnswerOutcome.answered d t.refused
    | e ∷ more ↦ DirectAnswerOutcome.ambiguous (d ∷ e ∷ more)
  ]
]

unfoldable pub enumerate_direct_answers :
    List UnverifiedComment
    → DecisionAllowlistState
    → DecisionContext
    → List String
    → Option String
    → DirectAnswerOutcome
unfolding tally
enumerate_direct_answers comments DecisionAllowlistState.unavailable context consumed after =
    DirectAnswerOutcome.unavailable
enumerate_direct_answers comments (DecisionAllowlistState.allowlist a) context consumed after =
    outcome_of (tally (DecisionAllowlistState.allowlist a) context consumed after comments)

-- ===== src/State/SoleAnswer.antt =====
-- state/direct_answer.py: an answer is taken only where it is the only one.
use claude_code_codex_review.Prelude.{
  String, true, Option, List, [], ◌∷◌, ◌++◌, ◌≡◌, refl, sym, ap, subst, ◌∙◌, All, Bool-cases, inl,
  inr, ◌⊎◌, true-false,
}
use claude_code_codex_review.Transport.Fetched.{UnverifiedComment}
use claude_code_codex_review.Identity.Allowlist.{
  DecisionAllowlist, DecisionAllowlistState, DecisionContext,
}
use claude_code_codex_review.Identity.Decision.{
  accept_user_decision, AcceptedUserDecision, DecisionOutcome, DecisionRejection,
}
use claude_code_codex_review.State.DirectAnswer.{
  RejectedCandidate, DirectAnswerOutcome, is_candidate, Tally, tally, tally_step, outcome_of,
  enumerate_direct_answers,
}

module _ (a : DecisionAllowlist) (context : DecisionContext) (consumed : List String)
    (after : Option String) where
  -- The comment is a candidate and is accepted as this decision.
  abbrev pub Answers : AcceptedUserDecision → UnverifiedComment → Type 0
  Answers d c =
      (is_candidate after consumed c ≡ true)
      × (accept_user_decision c (DecisionAllowlistState.allowlist a) context consumed
          ≡ DecisionOutcome.accepted d)

  abbrev pub NoAnswer : UnverifiedComment → Type 0
  NoAnswer c = (d : AcceptedUserDecision) → Answers d c → ⊥

  abbrev taken_from : List UnverifiedComment → List AcceptedUserDecision
  taken_from cs = (tally (DecisionAllowlistState.allowlist a) context consumed after cs).taken

  none_or_one : (d : AcceptedUserDecision) → taken_from [] ≡ d ∷ [] → ⊥
  unfolding tally
  none_or_one d h = cc

  accepted_or_rejected :
      (d : AcceptedUserDecision) (r : DecisionRejection) (i : String)
      → DecisionOutcome.accepted d ≡ DecisionOutcome.rejected r i
      → ⊥
  accepted_or_rejected d r i h = cc

  taken_step :
      (c : UnverifiedComment) (cs : List UnverifiedComment)
      → ((d : AcceptedUserDecision) × Answers d c × (taken_from (c ∷ cs) ≡ d ∷ taken_from cs))
        ⊎ (NoAnswer c × (taken_from (c ∷ cs) ≡ taken_from cs))
  unfolding tally
  taken_step c cs = elim (Bool-cases (is_candidate after consumed c)) [
    | inl e ↦
        go (accept_user_decision c (DecisionAllowlistState.allowlist a) context consumed) refl e
    | inr e ↦ inr (
      λ d p. true-false (is_candidate after consumed c) p.0 e,
      ap
          (λ b.
            (tally_step b
              (accept_user_decision c (DecisionAllowlistState.allowlist a) context consumed)
              (tally (DecisionAllowlistState.allowlist a) context consumed after cs)).taken)
          e,
    )
  ]
    where
      go :
          (o : DecisionOutcome)
          → accept_user_decision c (DecisionAllowlistState.allowlist a) context consumed ≡ o
          → is_candidate after consumed c ≡ true
          → ((d : AcceptedUserDecision) × Answers d c × (taken_from (c ∷ cs) ≡ d ∷ taken_from cs))
            ⊎ (NoAnswer c × (taken_from (c ∷ cs) ≡ taken_from cs))
      go (DecisionOutcome.accepted d) q e = inl (
        d,
        (e, q),
        λ i.
            (tally_step (e i) (q i)
              (tally (DecisionAllowlistState.allowlist a) context consumed after cs)).taken,
      )
      go (DecisionOutcome.rejected r i) q e = inr (
        λ d p. accepted_or_rejected d r i (sym p.1 ∙ q),
        λ j.
            (tally_step (e j) (q j)
              (tally (DecisionAllowlistState.allowlist a) context consumed after cs)).taken,
      )

  none_taken : (cs : List UnverifiedComment) → taken_from cs ≡ [] → All NoAnswer cs
  none_taken [] h = tt
  none_taken (c ∷ cs) h = elim (taken_step c cs) [
    | inl (d, p, e) ↦ absurd (cc)
    | inr (n, e) ↦ (n, none_taken cs (sym e ∙ h))
  ]

  -- The comments around the only one that answers.
  abbrev pub Sole : AcceptedUserDecision → List UnverifiedComment → Type 0
  Sole d cs =
      (front : List UnverifiedComment) × (c : UnverifiedComment) × (back : List UnverifiedComment)
      × (cs ≡ front ++ c ∷ back)
      × Answers d c
      × All NoAnswer front
      × All NoAnswer back

  one_taken :
      (d : AcceptedUserDecision) (cs : List UnverifiedComment) → taken_from cs ≡ d ∷ [] → Sole d cs
  one_taken d [] h = absurd (none_or_one d h)
  one_taken d (c ∷ cs) h = elim (taken_step c cs) [
    | inl (e, p, q) ↦
        let r = sym q ∙ h in
        ([], c, cs, refl, subst (λ x. Answers x c) (cc) p, tt, none_taken cs (cc))
    | inr (n, e) ↦
        let ih = one_taken d cs (sym e ∙ h) in
        (c ∷ ih.0, ih.1, ih.2, ap (λ t. c ∷ t) ih.3, ih.4, (n, ih.5), ih.6)
  ]

  -- With a list of logins, an answer is taken only if it is that of one comment, which is a candidate
  -- and is accepted, and no other of the comments is both.
  pub enumerate_direct_answers-Sole :
      (comments : List UnverifiedComment) (d : AcceptedUserDecision)
      (rejected : List RejectedCandidate)
      → enumerate_direct_answers comments
          (DecisionAllowlistState.allowlist a)
          context
          consumed
          after
        ≡ DirectAnswerOutcome.answered d rejected
      → Sole d comments
  unfolding enumerate_direct_answers
  enumerate_direct_answers-Sole comments d rejected h =
      one_taken d comments (
        answered_lem (tally (DecisionAllowlistState.allowlist a) context consumed after comments) h)
    where
      answered_lem :
          (t : Tally) → outcome_of t ≡ DirectAnswerOutcome.answered d rejected → t.taken ≡ d ∷ []
      answered_lem t h = go t.taken h
        where
          go :
              (ds : List AcceptedUserDecision)
              → elim ds [
                | [] ↦ DirectAnswerOutcome.absent t.refused
                | x ∷ rest ↦ elim rest [
                  | [] ↦ DirectAnswerOutcome.answered x t.refused
                  | e ∷ more ↦ DirectAnswerOutcome.ambiguous (x ∷ e ∷ more)
                ]
              ]
                ≡ DirectAnswerOutcome.answered d rejected
              → ds ≡ d ∷ []
          go [] h = absurd (cc)
          go (x ∷ []) h = cc
          go (x ∷ e ∷ more) h = absurd (cc)

  none_taken_from : (cs : List UnverifiedComment) → All NoAnswer cs → taken_from cs ≡ []
  unfolding tally
  none_taken_from [] n = refl
  none_taken_from (c ∷ cs) n = elim (taken_step c cs) [
    | inl (d, p, e) ↦ absurd (n.0 d p)
    | inr (m, e) ↦ e ∙ none_taken_from cs n.1
  ]

  decision_inj :
      {d e : AcceptedUserDecision} → DecisionOutcome.accepted d ≡ DecisionOutcome.accepted e → d ≡ e
  decision_inj p = cc

  sole_taken :
      (d : AcceptedUserDecision) (front : List UnverifiedComment) (c : UnverifiedComment)
      (back : List UnverifiedComment)
      → Answers d c
      → All NoAnswer front
      → All NoAnswer back
      → taken_from (front ++ c ∷ back) ≡ d ∷ []
  sole_taken d [] c back p f b = elim (taken_step c back) [
    | inl (e, q, t) ↦
        t
        ∙ ap (λ x. x ∷ taken_from back) (decision_inj (sym q.1 ∙ p.1))
        ∙ ap (λ r. d ∷ r) (none_taken_from back b)
    | inr (n, t) ↦ absurd (n d p)
  ]
  sole_taken d (x ∷ front) c back p f b = elim (taken_step x (front ++ c ∷ back)) [
    | inl (e, q, t) ↦ absurd (f.0 e q)
    | inr (n, t) ↦ t ∙ sole_taken d front c back p f.1 b
  ]

  abbrev outcome_by : List RejectedCandidate → List AcceptedUserDecision → DirectAnswerOutcome
  outcome_by refused ds = elim ds [
    | [] ↦ DirectAnswerOutcome.absent refused
    | d ∷ rest ↦ elim rest [
      | [] ↦ DirectAnswerOutcome.answered d refused
      | e ∷ more ↦ DirectAnswerOutcome.ambiguous (d ∷ e ∷ more)
    ]
  ]

  -- With a list of logins, the answer of one comment that is a candidate and is accepted, where no
  -- other of the comments is both, is taken.
  pub Sole-enumerate_direct_answers :
      (comments : List UnverifiedComment) (d : AcceptedUserDecision)
      → Sole d comments
      → (rejected : List RejectedCandidate) × (enumerate_direct_answers comments
            (DecisionAllowlistState.allowlist a)
            context
            consumed
            after
          ≡ DirectAnswerOutcome.answered d rejected)
  unfolding enumerate_direct_answers
  Sole-enumerate_direct_answers comments d s =
      let t = tally (DecisionAllowlistState.allowlist a) context consumed after comments in
      (
        t.refused,
        ap (outcome_by t.refused) (ap taken_from s.3 ∙ sole_taken d s.0 s.1 s.2 s.4 s.5 s.6),
      )

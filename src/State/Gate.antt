-- ===== src/State/Gate.antt =====
-- state/reconcile.py: what the verdict on a resumed run depends on.
use claude_code_codex_review.Prelude.{
  String, Bool, true, false, not, ◌&&◌, Option, none, some, List, [], ◌∷◌, ◌++◌, map, ◌≡◌, ◌≢◌,
  refl, sym, ap, ◌∙◌, ◌⊎◌, inl, inr, ◌↔◌, arith, ◌==◌, string_eq, option_eq, if◌then◌else◌, any,
  keep, Bool-cases, Option-cases, true-false,
}
use claude_code_codex_review.Domain.States.{State, state_eq}
use claude_code_codex_review.Domain.Values.Kinds.{RecordKind, record_kind_eq}
use claude_code_codex_review.Identity.Records.{VerifiedRecord}
use claude_code_codex_review.State.Reconcile.{
  HeadObservation, CheckpointHeads, ApprovalEvidence, ApprovalState, approval_eq, HeadChange,
  ResumeVerdict, ReconciliationResult, collect_approvals, classify, approves, epoch_established,
  status_of, evaluate_approvals, in_state, confirmed, moved, reconcile_head,
}

-- The approvals that a verdict takes into account.
abbrev pub approvals_of : List VerifiedRecord → List ApprovalEvidence → List ApprovalEvidence
approvals_of records external = collect_approvals records ++ external

abbrev pub Approved : RecordKind → String → List ApprovalEvidence → Type 0
Approved k sha approvals = any (approves k sha) approvals ≡ true

-- Some approval is bound to another head.
abbrev pub stale : String → List ApprovalEvidence → Bool
stale sha approvals = any (λ (e : ApprovalEvidence). not (e.head_sha == sha)) approvals

abbrev pub verdict : ReconciliationResult → Option ResumeVerdict
verdict (ReconciliationResult.reconciled v o) = some v
verdict (ReconciliationResult.stopped ks o) = none

some_inj : {a b : String} → ◌≡◌ {A = Option String} (some a) (some b) → a ≡ b
some_inj p = cc

any_voided :
    (epoch : Bool) (sha : String) (es : List ApprovalEvidence)
    → any (in_state ApprovalState.voided) (map (status_of epoch sha) es)
      ≡ (not epoch && stale sha es)
unfolding any
any_voided true sha [] = refl
any_voided false sha [] = refl
any_voided true sha (e ∷ es) = ground (arith, any_voided true sha es)
any_voided false sha (e ∷ es) = ground (arith, any_voided false sha es)

pub confirmed-approves :
    (epoch : Bool) (sha : String) (k : RecordKind) (es : List ApprovalEvidence)
    → confirmed (map (status_of epoch sha) es) k ≡ any (approves k sha) es
unfolding any confirmed
confirmed-approves epoch sha k [] = refl
confirmed-approves epoch sha k (e ∷ es) = ground (arith, confirmed-approves epoch sha k es)

-- The head is the one that the checkpoint observed, or it observed none.
abbrev pub Unmoved : HeadObservation → CheckpointHeads → Type 0
Unmoved o heads = (heads.observed_sha ≡ none) ⊎ (heads.observed_sha ≡ some o.head_sha)

moved_sound :
    (o : HeadObservation) (heads : CheckpointHeads)
    → moved (classify o heads) ≡ false
    → Unmoved o heads
unfolding classify
moved_sound o heads h = go heads.observed_sha h
  where
    go :
        (s : Option String)
        → moved (elim s [
          | none ↦ HeadChange.unknown
          | some t ↦
              if t == o.head_sha
              then HeadChange.unchanged
              else if heads.coder_pushed_sha == some o.head_sha
              then HeadChange.coder_push
              else HeadChange.external_update
        ])
          ≡ false
        → (s ≡ none) ⊎ (s ≡ some o.head_sha)
    go none h = inl refl
    go (some t) h = elim (Bool-cases (t == o.head_sha)) [
      | inl e ↦ inr (ap some ((string_eq.beq_iff t o.head_sha).0 e))
      | inr e ↦ elim (Bool-cases (heads.coder_pushed_sha == some o.head_sha)) [
        | inl f ↦ absurd (cc (rw (e, f) at h))
        | inr f ↦ absurd (cc (rw (e, f) at h))
      ]
    ]

moved_complete :
    (o : HeadObservation) (heads : CheckpointHeads)
    → Unmoved o heads
    → moved (classify o heads) ≡ false
unfolding classify
moved_complete o heads (inl e) = rw e refl
moved_complete o heads (inr e) = rw (e, (string_eq.beq_iff o.head_sha o.head_sha).1 refl) refl

moved_head :
    (o : HeadObservation) (heads : CheckpointHeads)
    → moved (classify o heads) ≡ true
    → (s : String) × (heads.observed_sha ≡ some s) × (s ≢ o.head_sha)
moved_head o heads h = elim (Option-cases heads.observed_sha) [
  | inl e ↦ absurd (true-false (moved (classify o heads)) h (moved_complete o heads (inl e)))
  | inr (s, e) ↦ (
    s,
    e,
    λ q. true-false (moved (classify o heads)) h (moved_complete o heads (inr (e ∙ ap some q))),
  )
]

head_moved :
    (o : HeadObservation) (heads : CheckpointHeads)
    → (s : String) × (heads.observed_sha ≡ some s) × (s ≢ o.head_sha)
    → moved (classify o heads) ≡ true
head_moved o heads (s, e, n) = elim (Bool-cases (moved (classify o heads))) [
  | inl m ↦ m
  | inr m ↦ absurd (elim (moved_sound o heads m) [ inl x ↦ cc | inr x ↦ n (some_inj (sym e ∙ x)) ])
]

module _ (o : HeadObservation) (records : List VerifiedRecord) (heads : CheckpointHeads)
    (checkpoint_state : Option State) (external : List ApprovalEvidence) where
  abbrev outcome : ReconciliationResult
  outcome = reconcile_head o records heads checkpoint_state external

  abbrev reviewed : Bool
  reviewed = any (approves RecordKind.review_result o.head_sha) (approvals_of records external)

  abbrev merge_agreed : Bool
  merge_agreed = any (approves RecordKind.merge_approval o.head_sha) (approvals_of records external)

  verdict_lem : verdict outcome ≡ (
      if not reviewed && stale o.head_sha (approvals_of records external)
      then some ResumeVerdict.fallback_required
      else if moved (classify o heads)
      then some ResumeVerdict.fallback_required
      else if checkpoint_state == some State.merge_failed
      then if merge_agreed && reviewed then some ResumeVerdict.same_head_validated else none
      else some ResumeVerdict.validated)
  unfolding reconcile_head evaluate_approvals epoch_established keep
  verdict_lem =
      rw
        (
          any_voided reviewed o.head_sha (approvals_of records external),
          confirmed-approves reviewed o.head_sha RecordKind.merge_approval
              (approvals_of records external),
          confirmed-approves reviewed o.head_sha RecordKind.review_result
              (approvals_of records external),
        )
        (ground arith)

  same_head_lem : (verdict outcome ≡ some ResumeVerdict.same_head_validated) ↔ (
      (moved (classify o heads) ≡ false)
      × ((checkpoint_state == some State.merge_failed) ≡ true)
      × (reviewed ≡ true)
      × (merge_agreed ≡ true))
  same_head_lem =
      rw verdict_lem
        (λ h. (ground (arith), ground arith, ground arith, ground arith), λ h. ground arith)

  -- A run returns to the merge exactly when the merge had failed, the checkpoint observed this head
  -- or none, and both a review and a merge approval are bound to this head, among the verified
  -- records or the accepted comments. The head that the checkpoint calls approved has no part in it.
  pub reconcile_head-same_head :
      (verdict (reconcile_head o records heads checkpoint_state external)
        ≡ some ResumeVerdict.same_head_validated)
      ↔ ((checkpoint_state ≡ some State.merge_failed)
          × Unmoved o heads
          × Approved RecordKind.review_result o.head_sha (approvals_of records external)
          × Approved RecordKind.merge_approval o.head_sha (approvals_of records external))
  reconcile_head-same_head = (
    λ h.
        let p = same_head_lem.0 h in
        (
          (option_eq.beq_iff checkpoint_state (some State.merge_failed)).0 p.1,
          moved_sound o heads p.0,
          p.2,
          p.3,
        ),
    λ h. same_head_lem.1 (
      moved_complete o heads h.1,
      (option_eq.beq_iff checkpoint_state (some State.merge_failed)).1 h.0,
      h.2,
      h.3,
    ),
  )

  fallback_lem : (verdict outcome ≡ some ResumeVerdict.fallback_required) ↔ (
      (moved (classify o heads) ≡ true)
      ⊎ ((reviewed ≡ false) × (stale o.head_sha (approvals_of records external) ≡ true)))
  fallback_lem = rw verdict_lem (λ h. ground arith, λ h. ground arith)

  -- A run falls back to a fresh review exactly when the checkpoint observed another head, or some
  -- approval is bound to another head and no review approval is bound to this one. It does so in
  -- every state of the checkpoint and whatever the checkpoint says of approvals and pushes. The
  -- docstring of reconcile_head says otherwise: there an old approval keeps the run from going on
  -- unless one of the same kind is bound to this head. What is proved here is what the code does,
  -- in agreement with the module's docstring.
  pub reconcile_head-fallback :
      (verdict (reconcile_head o records heads checkpoint_state external)
        ≡ some ResumeVerdict.fallback_required)
      ↔ (((s : String) × (heads.observed_sha ≡ some s) × (s ≢ o.head_sha))
          ⊎ ((any (approves RecordKind.review_result o.head_sha) (approvals_of records external)
                ≡ false)
              × (stale o.head_sha (approvals_of records external) ≡ true)))
  reconcile_head-fallback = (
    λ h. elim (fallback_lem.0 h) [ inl m ↦ inl (moved_head o heads m) | inr r ↦ inr r ],
    λ h. fallback_lem.1 (elim h [ inl m ↦ inl (head_moved o heads m) | inr r ↦ inr r ]),
  )

-- ===== src/State/Approvals.antt =====
-- state/reconcile.py: the state of each approval, and what a stop says is missing.
use claude_code_codex_review.Prelude.{
  String, Bool, true, false, not, ◌&&◌, Option, List, [], ◌∷◌, map, ◌≡◌, ◌≢◌, refl, ap, ◌∙◌, inl,
  inr, ◌↔◌, arith, ◌==◌, string_eq, option_eq, if◌then◌else◌, any, keep, All, is_empty, elem,
  Bool-cases,
}
use claude_code_codex_review.Domain.States.{State, state_eq}
use claude_code_codex_review.Domain.Values.Kinds.{RecordKind, record_kind_eq}
use claude_code_codex_review.Identity.Records.{VerifiedRecord}
use claude_code_codex_review.State.Gate.{Approved, approvals_of, confirmed-approves}
use claude_code_codex_review.State.Reconcile.{
  HeadObservation, CheckpointHeads, ApprovalEvidence, ApprovalState, ApprovalStatus, approval_eq,
  Observed, ReconciliationResult, approves, epoch_established, status_of, evaluate_approvals,
  confirmed, merge_gate_approvals, reconcile_head,
}

-- The state of an approval, by its head and by whether the current head was approved by a review.
abbrev pub Judged : List ApprovalEvidence → String → ApprovalStatus → Type 0
Judged approvals sha s =
    ((s.state ≡ ApprovalState.valid) ↔ (s.evidence.head_sha ≡ sha))
    × ((s.state ≡ ApprovalState.superseded)
        ↔ ((s.evidence.head_sha ≢ sha) × Approved RecordKind.review_result sha approvals))
    × ((s.state ≡ ApprovalState.voided) ↔ (
        (s.evidence.head_sha ≢ sha)
        × (any (approves RecordKind.review_result sha) approvals ≡ false)))

state_of : Bool → Bool → ApprovalState
state_of same epoch =
    if same
    then ApprovalState.valid
    else if epoch
    then ApprovalState.superseded
    else ApprovalState.voided

judge_lem :
    (same epoch : Bool) {H : Type 0}
    → ((same ≡ true) ↔ H)
    → ((state_of same epoch ≡ ApprovalState.valid) ↔ H)
      × ((state_of same epoch ≡ ApprovalState.superseded) ↔ ((H → ⊥) × (epoch ≡ true)))
      × ((state_of same epoch ≡ ApprovalState.voided) ↔ ((H → ⊥) × (epoch ≡ false)))
unfolding state_of
judge_lem true epoch h = (
  (λ p. h.0 refl, λ p. refl),
  (λ p. absurd (cc), λ p. absurd (p.0 (h.0 refl))),
  (λ p. absurd (cc), λ p. absurd (p.0 (h.0 refl))),
)
judge_lem false true h = (
  (λ p. absurd (cc), λ p. absurd (cc (h.1 p))),
  (λ p. (λ q. cc (h.1 q), refl), λ p. refl),
  (λ p. absurd (cc), λ p. absurd (cc)),
)
judge_lem false false h = (
  (λ p. absurd (cc), λ p. absurd (cc (h.1 p))),
  (λ p. absurd (cc), λ p. absurd (cc)),
  (λ p. (λ q. cc (h.1 q), refl), λ p. refl),
)

statuses-Judged :
    (approvals : List ApprovalEvidence) (sha : String) (es : List ApprovalEvidence)
    → (map
          (λ (s : ApprovalStatus). s.evidence)
          (map (status_of (any (approves RecordKind.review_result sha) approvals) sha) es)
        ≡ es)
      × All
          (Judged approvals sha)
          (map (status_of (any (approves RecordKind.review_result sha) approvals) sha) es)
unfolding state_of
statuses-Judged approvals sha [] = (refl, tt)
statuses-Judged approvals sha (e ∷ es) =
    let rest = statuses-Judged approvals sha es in
    (
      ap (λ t. e ∷ t) rest.0,
      (
        judge_lem (e.head_sha == sha) (any (approves RecordKind.review_result sha) approvals)
            (string_eq.beq_iff e.head_sha sha),
        rest.1,
      ),
    )

-- Every approval is kept, in its order; it is valid exactly when it is bound to the current head,
-- superseded exactly when it is bound to another while a review approved the current head, and
-- void exactly when it is bound to another and no review approved the current one. The comments of
-- ApprovalState say otherwise: there an approval is superseded by one of the same kind only. What is
-- proved here is what the code does, in agreement with the module's docstring.
pub evaluate_approvals-Judged :
    (approvals : List ApprovalEvidence) (sha : String)
    → (map (λ (s : ApprovalStatus). s.evidence) (evaluate_approvals approvals sha) ≡ approvals)
      × All (Judged approvals sha) (evaluate_approvals approvals sha)
unfolding evaluate_approvals epoch_established
evaluate_approvals-Judged approvals sha = statuses-Judged approvals sha approvals

elem-keep :
    (k : RecordKind) (p : RecordKind → Bool) (ks : List RecordKind)
    → elem k (keep p ks) ≡ (elem k ks && p k)
unfolding elem keep
elem-keep k p [] = refl
elem-keep k p (x ∷ xs) = elim (Bool-cases (k == x)) [
  | inl e ↦ let q = ap p ((record_kind_eq.beq_iff k x).0 e) in ground (arith, elem-keep k p xs)
  | inr e ↦ ground (arith, elem-keep k p xs)
]

is_empty-elem : (k : RecordKind) (ks : List RecordKind) → is_empty ks ≡ true → elem k ks ≡ false
unfolding elem
is_empty-elem k [] h = refl
is_empty-elem k (x ∷ xs) h = absurd (cc)

module _ (o : HeadObservation) (records : List VerifiedRecord) (heads : CheckpointHeads)
    (checkpoint_state : Option State) (external : List ApprovalEvidence) where
  abbrev gate_missing : List RecordKind
  gate_missing =
      keep (λ k. not (confirmed (evaluate_approvals (approvals_of records external) o.head_sha) k))
        merge_gate_approvals

  stopped_lem :
      (missing : List RecordKind) (facts : Observed)
      → reconcile_head o records heads checkpoint_state external
        ≡ ReconciliationResult.stopped missing facts
      → (missing ≡ gate_missing) × (is_empty gate_missing ≡ false)
  unfolding reconcile_head
  stopped_lem missing facts h = ground arith

  -- Where a run stops, something is missing, and a kind is missing exactly when the merge needs it
  -- and no approval of this kind is bound to the current head.
  pub reconcile_head-missing :
      (missing : List RecordKind) (facts : Observed)
      → reconcile_head o records heads checkpoint_state external
        ≡ ReconciliationResult.stopped missing facts
      → (is_empty missing ≡ false)
        × ((k : RecordKind)
            → elem k missing ≡ (
                elem k merge_gate_approvals
                && not (any (approves k o.head_sha) (approvals_of records external))))
  unfolding evaluate_approvals
  reconcile_head-missing missing facts h =
      let p = stopped_lem missing facts h in
      (
        ap is_empty p.0 ∙ p.1,
        λ k.
            ap (elem k) p.0
            ∙ elem-keep k
                (λ j.
                  not (confirmed (evaluate_approvals (approvals_of records external) o.head_sha) j))
                merge_gate_approvals
            ∙ ap (λ b. elem k merge_gate_approvals && not b)
                (confirmed-approves (epoch_established (approvals_of records external) o.head_sha)
                  o.head_sha k (approvals_of records external)),
      )

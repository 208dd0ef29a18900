-- ===== src/State/Reconcile.antt =====
-- state/reconcile.py: the head of the pull request against the approvals and the checkpoint.
use claude_code_codex_review.Prelude.{
  ℕ, String, Bool, true, false, not, ◌&&◌, ◌||◌, Option, none, some, List, [], ◌∷◌, ◌++◌, map, ◌≡◌,
  refl, Eq, enum_eq, get_elem?, ◌==◌, string_eq, option_eq, if◌then◌else◌, any, keep, is_empty,
}
use claude_code_codex_review.Prelude.Text.{is_hex_of}
use claude_code_codex_review.Domain.States.{State, state_eq}
use claude_code_codex_review.Domain.Values.Kinds.{RecordKind, record_kind_eq}
use claude_code_codex_review.Schema.Json.{Json, Fields, get, as_text}
use claude_code_codex_review.Transport.Fetched.{UnverifiedPullRequest}
use claude_code_codex_review.Identity.Records.{VerifiedRecord}

pub record HeadObservation : Type 0 where
  pub head_sha : String
  pub base_sha : String
  pub pull_state : String
  pub merged : Bool

-- What cannot be observed stops the resume; which of the two heads it was is kept of the detail.
pub data HeadReading : Type 0 where
  observed : HeadObservation → HeadReading
  unobservable : String → HeadReading

unfoldable pub observe_head : UnverifiedPullRequest → HeadReading
observe_head pull =
    if not (is_hex_of 40 pull.head_sha)
    then HeadReading.unobservable "head"
    else if not (is_hex_of 40 pull.base_sha)
    then HeadReading.unobservable "base"
    else HeadReading.observed (record {
      head_sha = pull.head_sha;
      base_sha = pull.base_sha;
      pull_state = pull.state;
      merged = pull.merged;
    })

pub record CheckpointHeads : Type 0 where
  pub observed_sha : Option String
  pub approved_sha : Option String
  pub base_sha : Option String
  pub coder_pushed_sha : Option String

abbrev optional_sha : Option Json → String → Option String
optional_sha (some (Json.object fs)) k = as_text (get k fs)
optional_sha _ k = none

unfoldable pub read_checkpoint_heads : Fields → CheckpointHeads
read_checkpoint_heads payload = record {
  observed_sha = optional_sha (get "heads" payload) "observed_sha";
  approved_sha = optional_sha (get "heads" payload) "approved_sha";
  base_sha = optional_sha (get "heads" payload) "base_sha";
  coder_pushed_sha = optional_sha (get "coder" payload) "pushed_head_sha";
}

pub record ApprovalEvidence : Type 0 where
  pub kind : RecordKind
  pub binding : String
  pub head_sha : String
  pub comment_id : String
  pub detail : Option String

pub data ApprovalState : Type 0 where
  valid superseded voided : ApprovalState

abbrev pub approval_code : ApprovalState → ℕ
approval_code ApprovalState.valid = 0
approval_code ApprovalState.superseded = 1
approval_code ApprovalState.voided = 2

abbrev pub approval_states : List ApprovalState
approval_states = ApprovalState.valid ∷ ApprovalState.superseded ∷ ApprovalState.voided ∷ []

pub approval_states_lem : (a : ApprovalState) → get_elem? approval_states (approval_code a) ≡ some a
approval_states_lem ApprovalState.valid = refl
approval_states_lem _ = refl

instance abbrev pub approval_eq : Eq ApprovalState
approval_eq = enum_eq approval_code approval_states approval_states_lem

-- The reason, which is for diagnosis, is left out.
pub record ApprovalStatus : Type 0 where
  pub evidence : ApprovalEvidence
  pub state : ApprovalState

abbrev pub is_approval : VerifiedRecord → Bool
is_approval r =
    r.kind == RecordKind.merge_approval
    || (r.kind == RecordKind.review_result && r.projection.result == some "APPROVED")

abbrev pub approval_of : VerifiedRecord → ApprovalEvidence
approval_of r = record {
  kind = r.kind;
  binding = r.key;
  head_sha = r.head_sha;
  comment_id = r.comment_id;
  detail = r.projection.result;
}

unfoldable pub collect_approvals : List VerifiedRecord → List ApprovalEvidence
collect_approvals records = map approval_of (keep is_approval records)

pub data HeadChange : Type 0 where
  unchanged coder_push external_update unknown : HeadChange

pub data ResumeVerdict : Type 0 where
  validated fallback_required same_head_validated : ResumeVerdict

-- What a verdict or a stop was made from; the detail, a sentence for the user, is left out.
pub record Observed : Type 0 where
  pub change : HeadChange
  pub observation : HeadObservation
  pub approvals : List ApprovalStatus

-- A stop has one reason, MERGE_APPROVAL_UNCONFIRMED, and the kinds of approval that are missing.
pub data ReconciliationResult : Type 0 where
  reconciled : ResumeVerdict → Observed → ReconciliationResult
  stopped : List RecordKind → Observed → ReconciliationResult

unfoldable pub classify : HeadObservation → CheckpointHeads → HeadChange
classify o heads = elim heads.observed_sha [
  | none ↦ HeadChange.unknown
  | some s ↦
      if s == o.head_sha
      then HeadChange.unchanged
      else if heads.coder_pushed_sha == some o.head_sha
      then HeadChange.coder_push
      else HeadChange.external_update
]

abbrev pub approves : RecordKind → String → ApprovalEvidence → Bool
approves k sha e = e.kind == k && e.head_sha == sha

unfoldable pub epoch_established : List ApprovalEvidence → String → Bool
epoch_established approvals sha = any (approves RecordKind.review_result sha) approvals

abbrev pub status_of : Bool → String → ApprovalEvidence → ApprovalStatus
status_of epoch sha e = record {
  evidence = e;
  state =
      if e.head_sha == sha
      then ApprovalState.valid
      else if epoch
      then ApprovalState.superseded
      else ApprovalState.voided;
}

unfoldable pub evaluate_approvals : List ApprovalEvidence → String → List ApprovalStatus
evaluate_approvals approvals sha = map (status_of (epoch_established approvals sha) sha) approvals

abbrev pub in_state : ApprovalState → ApprovalStatus → Bool
in_state a s = s.state == a

-- `_MERGE_GATE_APPROVALS - confirmed`, sorted by the values of the kinds.
abbrev pub merge_gate_approvals : List RecordKind
merge_gate_approvals = RecordKind.merge_approval ∷ RecordKind.review_result ∷ []

unfoldable pub confirmed : List ApprovalStatus → RecordKind → Bool
confirmed statuses k =
    any (λ (s : ApprovalStatus). in_state ApprovalState.valid s && s.evidence.kind == k) statuses

abbrev pub moved : HeadChange → Bool
moved HeadChange.coder_push = true
moved HeadChange.external_update = true
moved _ = false

unfoldable pub reconcile_head :
    HeadObservation
    → List VerifiedRecord
    → CheckpointHeads
    → Option State
    → List ApprovalEvidence
    → ReconciliationResult
reconcile_head o records heads checkpoint_state external =
    let change = classify o heads in
    let statuses = evaluate_approvals (collect_approvals records ++ external) o.head_sha in
    let facts : Observed = record { change = change; observation = o; approvals = statuses } in
    let missing = keep (λ k. not (confirmed statuses k)) merge_gate_approvals in
    if any (in_state ApprovalState.voided) statuses
    then ReconciliationResult.reconciled ResumeVerdict.fallback_required facts
    else if moved change
    then ReconciliationResult.reconciled ResumeVerdict.fallback_required facts
    else if checkpoint_state == some State.merge_failed
    then if is_empty missing
      then ReconciliationResult.reconciled ResumeVerdict.same_head_validated facts
      else ReconciliationResult.stopped missing facts
    else ReconciliationResult.reconciled ResumeVerdict.validated facts

-- ===== src/Domain/States.antt =====
-- src/claude_code_codex_review_loop/domain/states.py: the 17 visible states and their classes.
use claude_code_codex_review.Prelude.{
  String, ℕ, List, [], ◌∷◌, some, ◌≡◌, refl, Eq, enum_eq, get_elem?, elem, keep, not,
}

pub data State : Type 0 where
  running_review changes_requested applying_fixes clarifying_review : State
  reviewing_decision_request awaiting_user_decision awaiting_tool_permission waiting_ci : State
  generating_report ready_for_human_merge merging merged merge_failed blocked failed : State
  cancelled report_failed : State

abbrev pub state_code : State → ℕ
state_code State.running_review = 0
state_code State.changes_requested = 1
state_code State.applying_fixes = 2
state_code State.clarifying_review = 3
state_code State.reviewing_decision_request = 4
state_code State.awaiting_user_decision = 5
state_code State.awaiting_tool_permission = 6
state_code State.waiting_ci = 7
state_code State.generating_report = 8
state_code State.ready_for_human_merge = 9
state_code State.merging = 10
state_code State.merged = 11
state_code State.merge_failed = 12
state_code State.blocked = 13
state_code State.failed = 14
state_code State.cancelled = 15
state_code State.report_failed = 16

abbrev pub all_states : List State
all_states =
    State.running_review ∷ State.changes_requested ∷ State.applying_fixes ∷ State.clarifying_review
    ∷ State.reviewing_decision_request ∷ State.awaiting_user_decision
    ∷ State.awaiting_tool_permission ∷ State.waiting_ci ∷ State.generating_report
    ∷ State.ready_for_human_merge ∷ State.merging ∷ State.merged ∷ State.merge_failed
    ∷ State.blocked ∷ State.failed ∷ State.cancelled ∷ State.report_failed ∷ []

pub all_states_lem : (a : State) → get_elem? all_states (state_code a) ≡ some a
all_states_lem State.running_review = refl
all_states_lem _ = refl

instance abbrev pub state_eq : Eq State
state_eq = enum_eq state_code all_states all_states_lem

-- The sets are given by their elements; a difference of sets is taken in the order of the first.
abbrev pub minus : List State → List State → List State
minus xs ys = keep (λ s. not (elem s ys)) xs

abbrev pub terminal_states : List State
terminal_states = State.merged ∷ State.cancelled ∷ []

abbrev pub resumable_states : List State
resumable_states =
    State.waiting_ci ∷ State.awaiting_user_decision ∷ State.awaiting_tool_permission
    ∷ State.ready_for_human_merge ∷ State.blocked ∷ State.failed ∷ State.report_failed
    ∷ State.merge_failed ∷ []

abbrev pub active_states : List State
active_states = minus (minus all_states terminal_states) resumable_states

abbrev pub non_terminal : List State
non_terminal = minus all_states terminal_states

-- `state.value`.
abbrev pub state_value : State → String
state_value State.running_review = "RUNNING_REVIEW"
state_value State.changes_requested = "CHANGES_REQUESTED"
state_value State.applying_fixes = "APPLYING_FIXES"
state_value State.clarifying_review = "CLARIFYING_REVIEW"
state_value State.reviewing_decision_request = "REVIEWING_DECISION_REQUEST"
state_value State.awaiting_user_decision = "AWAITING_USER_DECISION"
state_value State.awaiting_tool_permission = "AWAITING_TOOL_PERMISSION"
state_value State.waiting_ci = "WAITING_CI"
state_value State.generating_report = "GENERATING_REPORT"
state_value State.ready_for_human_merge = "READY_FOR_HUMAN_MERGE"
state_value State.merging = "MERGING"
state_value State.merged = "MERGED"
state_value State.merge_failed = "MERGE_FAILED"
state_value State.blocked = "BLOCKED"
state_value State.failed = "FAILED"
state_value State.cancelled = "CANCELLED"
state_value State.report_failed = "REPORT_FAILED"

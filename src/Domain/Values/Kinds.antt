-- ===== src/Domain/Values/Kinds.antt =====
-- domain/values.py: the finite discriminators of records, responses, progress and incidents.
use claude_code_codex_review.Prelude.{ℕ, List, [], ◌∷◌, some, ◌≡◌, refl, Eq, enum_eq, get_elem?}

pub data RecordKind : Type 0 where
  review_result fix_result clarification_question clarification_answer decision_request : RecordKind
  decision_verdict decision_brief decision_record external_dependency permission_block : RecordKind
  ci_timeout ci_code_failure final_report integrity_incident gate_answer user_decision : RecordKind
  gate_question gate_changes merge_approval block_intervention user_cancel : RecordKind

abbrev pub record_kind_code : RecordKind → ℕ
record_kind_code RecordKind.review_result = 0
record_kind_code RecordKind.fix_result = 1
record_kind_code RecordKind.clarification_question = 2
record_kind_code RecordKind.clarification_answer = 3
record_kind_code RecordKind.decision_request = 4
record_kind_code RecordKind.decision_verdict = 5
record_kind_code RecordKind.decision_brief = 6
record_kind_code RecordKind.decision_record = 7
record_kind_code RecordKind.external_dependency = 8
record_kind_code RecordKind.permission_block = 9
record_kind_code RecordKind.ci_timeout = 10
record_kind_code RecordKind.ci_code_failure = 11
record_kind_code RecordKind.final_report = 12
record_kind_code RecordKind.integrity_incident = 13
record_kind_code RecordKind.gate_answer = 14
record_kind_code RecordKind.user_decision = 15
record_kind_code RecordKind.gate_question = 16
record_kind_code RecordKind.gate_changes = 17
record_kind_code RecordKind.merge_approval = 18
record_kind_code RecordKind.block_intervention = 19
record_kind_code RecordKind.user_cancel = 20

abbrev pub record_kinds : List RecordKind
record_kinds =
    RecordKind.review_result ∷ RecordKind.fix_result ∷ RecordKind.clarification_question
    ∷ RecordKind.clarification_answer ∷ RecordKind.decision_request ∷ RecordKind.decision_verdict
    ∷ RecordKind.decision_brief ∷ RecordKind.decision_record ∷ RecordKind.external_dependency
    ∷ RecordKind.permission_block ∷ RecordKind.ci_timeout ∷ RecordKind.ci_code_failure
    ∷ RecordKind.final_report ∷ RecordKind.integrity_incident ∷ RecordKind.gate_answer
    ∷ RecordKind.user_decision ∷ RecordKind.gate_question ∷ RecordKind.gate_changes
    ∷ RecordKind.merge_approval ∷ RecordKind.block_intervention ∷ RecordKind.user_cancel ∷ []

pub record_kinds_lem : (a : RecordKind) → get_elem? record_kinds (record_kind_code a) ≡ some a
record_kinds_lem RecordKind.review_result = refl
record_kinds_lem _ = refl

instance abbrev pub record_kind_eq : Eq RecordKind
record_kind_eq = enum_eq record_kind_code record_kinds record_kinds_lem

pub data Progress : Type 0 where
  continue limit_reached no_progress : Progress

abbrev pub progress_code : Progress → ℕ
progress_code Progress.continue = 0
progress_code Progress.limit_reached = 1
progress_code Progress.no_progress = 2

abbrev pub progress_values : List Progress
progress_values = Progress.continue ∷ Progress.limit_reached ∷ Progress.no_progress ∷ []

pub progress_values_lem : (a : Progress) → get_elem? progress_values (progress_code a) ≡ some a
progress_values_lem Progress.continue = refl
progress_values_lem _ = refl

instance abbrev pub progress_eq : Eq Progress
progress_eq = enum_eq progress_code progress_values progress_values_lem

pub data Budget : Type 0 where
  review_round clarification_turn : Budget

abbrev pub budget_code : Budget → ℕ
budget_code Budget.review_round = 0
budget_code Budget.clarification_turn = 1

abbrev pub budget_values : List Budget
budget_values = Budget.review_round ∷ Budget.clarification_turn ∷ []

pub budget_values_lem : (a : Budget) → get_elem? budget_values (budget_code a) ≡ some a
budget_values_lem Budget.review_round = refl
budget_values_lem _ = refl

instance abbrev pub budget_eq : Eq Budget
budget_eq = enum_eq budget_code budget_values budget_values_lem

pub data IncidentTarget : Type 0 where
  merged cancelled : IncidentTarget

abbrev pub incident_target_code : IncidentTarget → ℕ
incident_target_code IncidentTarget.merged = 0
incident_target_code IncidentTarget.cancelled = 1

abbrev pub incident_target_values : List IncidentTarget
incident_target_values = IncidentTarget.merged ∷ IncidentTarget.cancelled ∷ []

pub incident_target_values_lem :
    (a : IncidentTarget) → get_elem? incident_target_values (incident_target_code a) ≡ some a
incident_target_values_lem IncidentTarget.merged = refl
incident_target_values_lem _ = refl

instance abbrev pub incident_target_eq : Eq IncidentTarget
incident_target_eq = enum_eq incident_target_code incident_target_values incident_target_values_lem

pub data IncidentCoverage : Type 0 where
  complete remainder : IncidentCoverage

abbrev pub incident_coverage_code : IncidentCoverage → ℕ
incident_coverage_code IncidentCoverage.complete = 0
incident_coverage_code IncidentCoverage.remainder = 1

abbrev pub incident_coverage_values : List IncidentCoverage
incident_coverage_values = IncidentCoverage.complete ∷ IncidentCoverage.remainder ∷ []

pub incident_coverage_values_lem :
    (a : IncidentCoverage) → get_elem? incident_coverage_values (incident_coverage_code a) ≡ some a
incident_coverage_values_lem IncidentCoverage.complete = refl
incident_coverage_values_lem _ = refl

instance abbrev pub incident_coverage_eq : Eq IncidentCoverage
incident_coverage_eq =
    enum_eq incident_coverage_code incident_coverage_values incident_coverage_values_lem

abbrev pub user_input_record_kinds : List RecordKind
user_input_record_kinds =
    RecordKind.user_decision ∷ RecordKind.gate_question ∷ RecordKind.gate_changes
    ∷ RecordKind.merge_approval ∷ RecordKind.block_intervention ∷ RecordKind.user_cancel ∷ []

-- ===== src/Schema/Kinds.antt =====
-- domain/values.py: the texts that the kinds of records stand for (`kind.value`), and `RecordKind(text)`.
use claude_code_codex_review.Prelude.{
  String, Option, none, some, List, [], ◌∷◌, ◌≡◌, refl, ◌==◌, string_eq, if◌then◌else◌,
}
use claude_code_codex_review.Domain.Values.Kinds.{RecordKind, record_kinds}

abbrev pub kind_value : RecordKind → String
kind_value RecordKind.review_result = "REVIEW_RESULT"
kind_value RecordKind.fix_result = "FIX_RESULT"
kind_value RecordKind.clarification_question = "CLARIFICATION_QUESTION"
kind_value RecordKind.clarification_answer = "CLARIFICATION_ANSWER"
kind_value RecordKind.decision_request = "DECISION_REQUEST"
kind_value RecordKind.decision_verdict = "DECISION_VERDICT"
kind_value RecordKind.decision_brief = "DECISION_BRIEF"
kind_value RecordKind.decision_record = "DECISION_RECORD"
kind_value RecordKind.external_dependency = "EXTERNAL_DEPENDENCY"
kind_value RecordKind.permission_block = "PERMISSION_BLOCK"
kind_value RecordKind.ci_timeout = "CI_TIMEOUT"
kind_value RecordKind.ci_code_failure = "CI_CODE_FAILURE"
kind_value RecordKind.final_report = "FINAL_REPORT"
kind_value RecordKind.integrity_incident = "INTEGRITY_INCIDENT"
kind_value RecordKind.gate_answer = "GATE_ANSWER"
kind_value RecordKind.user_decision = "USER_DECISION"
kind_value RecordKind.gate_question = "GATE_QUESTION"
kind_value RecordKind.gate_changes = "GATE_CHANGES"
kind_value RecordKind.merge_approval = "MERGE_APPROVAL"
kind_value RecordKind.block_intervention = "BLOCK_INTERVENTION"
kind_value RecordKind.user_cancel = "USER_CANCEL"

abbrev first_named : String → List RecordKind → Option RecordKind
first_named s [] = none
first_named s (k ∷ ks) = let rest = first_named s ks in if kind_value k == s then some k else rest

-- `RecordKind(text)`; none is the ValueError.
unfoldable pub record_kind_of : String → Option RecordKind
record_kind_of s = first_named s record_kinds

pub record_kind_of-value : (k : RecordKind) → record_kind_of (kind_value k) ≡ some k
unfolding record_kind_of
record_kind_of-value RecordKind.review_result = refl
record_kind_of-value _ = refl

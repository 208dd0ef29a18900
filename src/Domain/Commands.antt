-- ===== src/Domain/Commands.antt =====
-- domain/commands.py: what the domain asks the other components to do.
use claude_code_codex_review.Prelude.{Option, List, String}
use claude_code_codex_review.Domain.Values.Kinds.{RecordKind}
use claude_code_codex_review.Domain.Values.Opaque.{OpaqueBinding}
use claude_code_codex_review.Domain.Values.Records.{PendingRecord}

pub data CodexPurpose : Type 0 where
  code_review clarification decision_verdict : CodexPurpose

pub data HostAction : Type 0 where
  apply_findings draft_decision_request draft_decision_brief record_decision : HostAction
  revise_decision_request answer_gate_question : HostAction

pub data Command : Type 0 where
  request_codex_review : CodexPurpose → Command
  request_host_action : HostAction → Command
  persist_record : RecordKind → OpaqueBinding → Command
  check_ci generate_report : Command
  halt_run : OpaqueBinding → Command
  verify_merge_preconditions execute_merge query_merge_outcome invalidate_approvals : Command
  record_integrity_incident : List OpaqueBinding → Option PendingRecord → Command

-- `type(command).__name__`.
abbrev pub command_name : Command → String
command_name (Command.request_codex_review _) = "RequestCodexReview"
command_name (Command.request_host_action _) = "RequestHostAction"
command_name (Command.persist_record _ _) = "PersistRecord"
command_name Command.check_ci = "CheckCi"
command_name Command.generate_report = "GenerateReport"
command_name (Command.halt_run _) = "HaltRun"
command_name Command.verify_merge_preconditions = "VerifyMergePreconditions"
command_name Command.execute_merge = "ExecuteMerge"
command_name Command.query_merge_outcome = "QueryMergeOutcome"
command_name Command.invalidate_approvals = "InvalidateApprovals"
command_name (Command.record_integrity_incident _ _) = "RecordIntegrityIncident"

-- ===== src/Domain/Recovery/Procedures.antt =====
-- domain/_rules_recovery.py: during a procedure, a failure or an explicit resume reissues the command of
-- the stage and nothing else (`_procedure_rules`).
use claude_code_codex_review.Prelude.{some, [], ◌∷◌, ◌++◌, List, String}
use claude_code_codex_review.Domain.States.{State, non_terminal, active_states, minus}
use claude_code_codex_review.Domain.Events.Types.{EventType}
use claude_code_codex_review.Domain.Rules.Kinds.{ProcedureKind, PendingMatch}
use claude_code_codex_review.Domain.Rules.Match.{Rule, on}
use claude_code_codex_review.Domain.Workflow.Builders.{absent, same_state}
use claude_code_codex_review.Domain.Recovery.Effects.{
  reissue_halt_for_cancel, reissue_halt_for_block, reissue_incident_request, reissue_persist,
}

abbrev pub cancelling_rule : String → EventType → Rule
cancelling_rule rule_id event_type = record {
  rule_id = rule_id;
  guard = record (on (minus non_terminal (State.merging ∷ [])) event_type) {
    procedures = ProcedureKind.cancelling ∷ [];
  };
  effect = reissue_halt_for_cancel;
  to_state = same_state;
  command_names = ("HaltRun" ∷ []);
}

abbrev pub halting_rule : String → EventType → Rule
halting_rule rule_id event_type = record {
  rule_id = rule_id;
  guard = record (on (minus active_states (State.merging ∷ [])) event_type) {
    procedures = ProcedureKind.halting_for_block ∷ [];
  };
  effect = reissue_halt_for_block;
  to_state = same_state;
  command_names = ("HaltRun" ∷ []);
}

abbrev pub incident_request_rule : String → EventType → Rule
incident_request_rule rule_id event_type = record {
  rule_id = rule_id;
  guard = record (on non_terminal event_type) {
    procedures = ProcedureKind.recording_incident ∷ [];
    pending = absent;
  };
  effect = reissue_incident_request;
  to_state = same_state;
  command_names = ("RecordIntegrityIncident" ∷ []);
}

abbrev pub incident_persist_rule : String → EventType → Rule
incident_persist_rule rule_id event_type = record {
  rule_id = rule_id;
  guard = record (on non_terminal event_type) {
    procedures = ProcedureKind.recording_incident ∷ [];
    pending = some (PendingMatch.present ∷ []);
  };
  effect = reissue_persist;
  to_state = same_state;
  command_names = ("PersistRecord" ∷ []);
}

-- The four rules of one event; the text is `index`.
abbrev pub rules_for : String → String → String → String → EventType → List Rule
rules_for x_c x_h x_a x_b event_type =
    cancelling_rule x_c event_type
    ∷ halting_rule x_h event_type
    ∷ incident_request_rule x_a event_type
    ∷ incident_persist_rule x_b event_type
    ∷ []

abbrev pub procedure_rules : List Rule
procedure_rules =
    rules_for "X-C0" "X-H0" "X-I0a" "X-I0b" EventType.run_failed
    ++ (rules_for "X-C1" "X-H1" "X-I1a" "X-I1b" EventType.resume_validated
        ++ (rules_for "X-C2" "X-H2" "X-I2a" "X-I2b" EventType.resume_fallback_required
            ++ (rules_for "X-C3" "X-H3" "X-I3a" "X-I3b" EventType.resume_same_head_validated
                ++ (rules_for "X-C4" "X-H4" "X-I4a" "X-I4b" EventType.ci_resume_requested
                    ++ (rules_for "X-C5" "X-H5" "X-I5a" "X-I5b"
                          EventType.permission_resume_validated
                        ++ (rules_for "X-C6" "X-H6" "X-I6a" "X-I6b"
                            EventType.reporter_retry_requested))))))

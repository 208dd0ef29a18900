-- ===== src/Domain/Safety/IntegrityRules.antt =====
-- domain/_rules_integrity.py: its rules, one by one.
use claude_code_codex_review.Prelude.{refl, elem, all, keep, All}
use claude_code_codex_review.Domain.States.{state_eq}
use claude_code_codex_review.Domain.Rules.Tables.{budget_events}
use claude_code_codex_review.Domain.Values.Kinds.{record_kind_eq}
use claude_code_codex_review.Domain.Values.Responses.{awaiting_eq}
use claude_code_codex_review.Domain.Integrity.Detection.{
  detection_rules, rule_i_d1, rule_i_d2, rule_i_d3, rule_i_d4, rule_i_d5, rule_i_d5u, rule_i_d6,
  rule_i_d7, rule_i_d8,
}
use claude_code_codex_review.Domain.Integrity.Incident.{
  incident_rules, rule_i_p, rule_i_vc, rule_i_vr, merge_integrity_rules, rule_i_46, rule_i_47,
  rule_i_48, rule_i_49,
}
use claude_code_codex_review.Domain.Integrity.Resolution.{
  block_resolution_rules, rule_b_hc, rule_b_lr, rule_b_iv1, rule_b_iv2, rule_b_rs, rule_b_sv,
}
use claude_code_codex_review.Domain.Safety.Detection.{
  union_recording_sound, union_cancelling_sound, union_merging_sound, direct_block_sound,
}
use claude_code_codex_review.Domain.Safety.HaltGate.{
  halt_gate_sound, halt_gate_union_sound, blocked_union_sound, halt_completed_sound,
}
use claude_code_codex_review.Domain.Safety.Incident.{
  incident_produced_sound, incident_complete_sound, incident_remainder_sound,
  outcome_to_incident_sound, outcome_failure_sound, query_again_sound, integrity_exit_sound,
}
use claude_code_codex_review.Domain.Safety.Replay.{replay_sound}
use claude_code_codex_review.Domain.Safety.Rule.{IsSound}

pub detection_rules-IsSound : All IsSound detection_rules
unfolding elem all keep budget_events
detection_rules-IsSound = (
  union_recording_sound rule_i_d1.guard refl _ refl refl,
  (
    union_cancelling_sound rule_i_d2.guard refl _ refl refl,
    (
      union_merging_sound rule_i_d3.guard refl _ refl refl refl,
      (
        direct_block_sound rule_i_d4.guard refl,
        (
          halt_gate_sound rule_i_d5.guard refl refl refl,
          (
            halt_gate_union_sound rule_i_d5u.guard refl refl,
            (
              direct_block_sound rule_i_d6.guard refl,
              (
                blocked_union_sound rule_i_d7.guard refl refl,
                (direct_block_sound rule_i_d8.guard refl, tt),
              ),
            ),
          ),
        ),
      ),
    ),
  ),
)

pub incident_rules-IsSound : All IsSound incident_rules
unfolding elem all keep budget_events
incident_rules-IsSound = (
  incident_produced_sound rule_i_p.guard refl refl refl refl,
  (
    incident_complete_sound rule_i_vc.guard refl,
    (incident_remainder_sound rule_i_vr.guard refl refl refl refl, tt),
  ),
)

pub merge_integrity_rules-IsSound : All IsSound merge_integrity_rules
unfolding elem all keep budget_events
merge_integrity_rules-IsSound = (
  outcome_to_incident_sound rule_i_46.guard _ refl refl refl,
  (
    outcome_to_incident_sound rule_i_47.guard _ refl refl refl,
    (outcome_failure_sound rule_i_48.guard refl, (query_again_sound rule_i_49.guard, tt)),
  ),
)

pub block_resolution_rules-IsSound : All IsSound block_resolution_rules
unfolding elem all keep budget_events
block_resolution_rules-IsSound = (
  halt_completed_sound rule_b_hc.guard refl,
  (
    replay_sound rule_b_lr.guard _ refl refl,
    (
      replay_sound rule_b_iv1.guard _ refl refl,
      (
        replay_sound rule_b_iv2.guard _ refl refl,
        (integrity_exit_sound rule_b_rs.guard, (integrity_exit_sound rule_b_sv.guard, tt)),
      ),
    ),
  ),
)

-- ===== src/Domain/Safety/RecoveryRules.antt =====
-- domain/_rules_recovery.py: its rules, one by one.
use claude_code_codex_review.Prelude.{refl, inl, inr, elem, all, keep, All}
use claude_code_codex_review.Domain.States.{state_eq}
use claude_code_codex_review.Domain.Rules.Tables.{budget_events}
use claude_code_codex_review.Domain.Values.Kinds.{record_kind_eq}
use claude_code_codex_review.Domain.Values.Responses.{awaiting_eq}
use claude_code_codex_review.Domain.Recovery.Merge.{
  merge_rules, rule_m_32a, rule_m_32b, rule_m_34, rule_m_35, rule_m_36, rule_m_37, rule_m_38,
  rule_m_39, rule_m_40, rule_m_41a, rule_m_41b, rule_m_42, rule_m_sh, rule_m_hc,
}
use claude_code_codex_review.Domain.Recovery.Cancel.{
  cancel_rules, rule_c_01, rule_c_02, rule_c_03, rule_c_04, rule_c_05, failure_rules, rule_f_01,
  rule_f_02,
}
use claude_code_codex_review.Domain.Recovery.Resume.{
  resume_rules, rule_r_p, rule_r_a1, rule_r_a2, rule_r_d, rule_r_b, rule_r_f, rule_r_fb, rule_r_ci,
  rule_r_rt,
}
use claude_code_codex_review.Domain.Safety.Merge.{
  to_merging_sound, terminal_sound, merge_sound, fresh_review_sound,
}
use claude_code_codex_review.Domain.Safety.Outcome.{
  merge_failure_sound, cancel_query_sound, same_head_sound, reporter_retry_sound, ci_resume_sound,
}
use claude_code_codex_review.Domain.Safety.Cancel.{
  start_cancel_sound, cancelled_sound, cancel_completed_sound, keep_sound,
}
use claude_code_codex_review.Domain.Safety.Resume.{
  fail_sound, resume_pending_sound, resume_failed_sound, resume_live_sound,
}
use claude_code_codex_review.Domain.Safety.Procedures.{resume_drive_sound}
use claude_code_codex_review.Domain.Safety.Rule.{IsSound}

pub merge_rules-IsSound : All IsSound merge_rules
unfolding elem all keep budget_events
merge_rules-IsSound = (
  to_merging_sound rule_m_32a.guard refl refl,
  (
    to_merging_sound rule_m_32b.guard refl refl,
    (
      merge_sound rule_m_34.guard _ _ _ refl refl refl (inr refl) refl refl,
      (
        merge_sound rule_m_35.guard _ _ _ refl refl refl (inr refl) refl refl,
        (
          fresh_review_sound rule_m_36.guard,
          (
            terminal_sound rule_m_37.guard _ _ refl,
            (
              terminal_sound rule_m_38.guard _ _ refl,
              (
                merge_sound rule_m_39.guard _ _ _ refl refl refl (inl refl) refl refl,
                (
                  merge_sound rule_m_40.guard _ _ _ refl refl refl (inl refl) refl refl,
                  (
                    cancel_query_sound rule_m_41a.guard refl refl,
                    (
                      cancel_query_sound rule_m_41b.guard refl refl,
                      (
                        merge_failure_sound rule_m_42.guard refl refl refl,
                        (
                          same_head_sound rule_m_sh.guard refl refl refl,
                          (fresh_review_sound rule_m_hc.guard, tt),
                        ),
                      ),
                    ),
                  ),
                ),
              ),
            ),
          ),
        ),
      ),
    ),
  ),
)

pub cancel_rules-IsSound : All IsSound cancel_rules
unfolding elem all keep budget_events
cancel_rules-IsSound = (
  start_cancel_sound rule_c_01.guard _ refl refl refl,
  (
    start_cancel_sound rule_c_02.guard _ refl refl refl,
    (
      cancelled_sound rule_c_03.guard,
      (
        cancel_completed_sound rule_c_04.guard refl refl refl,
        (cancelled_sound rule_c_05.guard, tt),
      ),
    ),
  ),
)

pub failure_rules-IsSound : All IsSound failure_rules
unfolding elem all keep budget_events
failure_rules-IsSound =
    (fail_sound rule_f_01.guard refl refl refl, (keep_sound rule_f_02.guard, tt))

pub resume_rules-IsSound : All IsSound resume_rules
unfolding elem all keep budget_events
resume_rules-IsSound = (
  resume_pending_sound rule_r_p.guard refl refl,
  (
    resume_failed_sound rule_r_a1.guard refl refl refl refl refl,
    (
      resume_live_sound rule_r_a2.guard refl,
      (
        resume_drive_sound rule_r_d.guard refl refl refl refl,
        (
          keep_sound rule_r_b.guard,
          (
            fresh_review_sound rule_r_f.guard,
            (
              fresh_review_sound rule_r_fb.guard,
              (
                ci_resume_sound rule_r_ci.guard refl refl refl,
                (reporter_retry_sound rule_r_rt.guard refl refl refl, tt),
              ),
            ),
          ),
        ),
      ),
    ),
  ),
)

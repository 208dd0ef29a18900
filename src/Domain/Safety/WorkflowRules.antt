-- ===== src/Domain/Safety/WorkflowRules.antt =====
-- domain/_rules_workflow.py: its rules, one by one.
use claude_code_codex_review.Prelude.{refl, inl, inr, elem, all, keep, All}
use claude_code_codex_review.Domain.States.{state_eq}
use claude_code_codex_review.Domain.Rules.Tables.{budget_events}
use claude_code_codex_review.Domain.Values.Kinds.{record_kind_eq}
use claude_code_codex_review.Domain.Values.Responses.{awaiting_eq}
use claude_code_codex_review.Domain.Workflow.Produced.{
  produced_rules, rule_p_01, rule_p_02, rule_p_03, rule_p_04, rule_p_05, rule_p_06, rule_p_07,
  rule_p_08, rule_p_09, rule_p_10, rule_p_11, rule_p_12, rule_p_13, rule_p_14, rule_p_15, rule_p_16,
  rule_p_17, rule_p_18, rule_p_19, rule_p_20, rule_p_22, rule_p_23, rule_p_21,
}
use claude_code_codex_review.Domain.Workflow.Review.{
  review_rules, rule_t_03, rule_t_b03, rule_t_04, rule_t_05, rule_t_06, rule_t_07, rule_t_b07,
  rule_t_08a, rule_t_08b, rule_t_09, rule_t_10, rule_t_11, rule_t_b11, rule_t_12, rule_t_13,
  rule_t_14, rule_t_15, rule_t_16, rule_t_17, rule_t_18, rule_t_19, rule_t_b19,
}
use claude_code_codex_review.Domain.Workflow.Gate.{
  gate_rules, rule_t_20a, rule_t_20b, rule_t_21, rule_t_22, rule_t_23, rule_t_b23, rule_t_24,
  rule_t_25, rule_t_26, rule_t_27, rule_t_28, rule_t_29a, rule_t_29b, rule_t_30, rule_t_31a,
  rule_t_31b, rule_t_33, rule_t_43,
}
use claude_code_codex_review.Domain.Safety.Produced.{
  produced_sound, produced_cancel_sound, produced_intervention_sound,
}
use claude_code_codex_review.Domain.Safety.Advance.{advance_sound}
use claude_code_codex_review.Domain.Safety.Blocking.{
  progress_block_sound, permission_sound, permission_resume_sound, external_dependency_sound,
}
use claude_code_codex_review.Domain.Safety.Rule.{IsSound}

pub produced_rules-IsSound : All IsSound produced_rules
unfolding elem all keep budget_events
produced_rules-IsSound = (
  produced_sound rule_p_01.guard _ refl refl refl refl refl refl,
  (
    produced_sound rule_p_02.guard _ refl refl refl refl refl refl,
    (
      produced_sound rule_p_03.guard _ refl refl refl refl refl refl,
      (
        produced_sound rule_p_04.guard _ refl refl refl refl refl refl,
        (
          produced_sound rule_p_05.guard _ refl refl refl refl refl refl,
          (
            produced_sound rule_p_06.guard _ refl refl refl refl refl refl,
            (
              produced_sound rule_p_07.guard _ refl refl refl refl refl refl,
              (
                produced_sound rule_p_08.guard _ refl refl refl refl refl refl,
                (
                  produced_sound rule_p_09.guard _ refl refl refl refl refl refl,
                  (
                    produced_sound rule_p_10.guard _ refl refl refl refl refl refl,
                    (
                      produced_sound rule_p_11.guard _ refl refl refl refl refl refl,
                      (
                        produced_sound rule_p_12.guard _ refl refl refl refl refl refl,
                        (
                          produced_sound rule_p_13.guard _ refl refl refl refl refl refl,
                          (
                            produced_sound rule_p_14.guard _ refl refl refl refl refl refl,
                            (
                              produced_sound rule_p_15.guard _ refl refl refl refl refl refl,
                              (
                                produced_sound rule_p_16.guard _ refl refl refl refl refl refl,
                                (
                                  produced_sound rule_p_17.guard _ refl refl refl refl refl refl,
                                  (
                                    produced_sound rule_p_18.guard _ refl refl refl refl refl refl,
                                    (
                                      produced_sound rule_p_19.guard _ refl refl refl refl refl
                                          refl,
                                      (
                                        produced_sound rule_p_20.guard _ refl refl refl refl refl
                                            refl,
                                        (
                                          produced_intervention_sound rule_p_22.guard refl refl refl
                                              refl,
                                          (
                                            produced_intervention_sound rule_p_23.guard refl refl
                                                refl refl,
                                            (
                                              produced_cancel_sound rule_p_21.guard refl refl refl
                                                  refl,
                                              tt,
                                            ),
                                          ),
                                        ),
                                      ),
                                    ),
                                  ),
                                ),
                              ),
                            ),
                          ),
                        ),
                      ),
                    ),
                  ),
                ),
              ),
            ),
          ),
        ),
      ),
    ),
  ),
)

pub review_rules-IsSound : All IsSound review_rules
unfolding elem all keep budget_events
review_rules-IsSound = (
  advance_sound rule_t_03.guard _ _ _ refl refl refl,
  (
    progress_block_sound rule_t_b03.guard _ _ _ _ refl refl refl refl (inl refl),
    (
      advance_sound rule_t_04.guard _ _ _ refl refl refl,
      (
        permission_sound rule_t_05.guard _ refl refl refl,
        (
          advance_sound rule_t_06.guard _ _ _ refl refl refl,
          (
            advance_sound rule_t_07.guard _ _ _ refl refl refl,
            (
              progress_block_sound rule_t_b07.guard _ _ _ _ refl refl refl refl (inr (inl refl)),
              (
                advance_sound rule_t_08a.guard _ _ _ refl refl refl,
                (
                  advance_sound rule_t_08b.guard _ _ _ refl refl refl,
                  (
                    advance_sound rule_t_09.guard _ _ _ refl refl refl,
                    (
                      advance_sound rule_t_10.guard _ _ _ refl refl refl,
                      (
                        advance_sound rule_t_11.guard _ _ _ refl refl refl,
                        (
                          progress_block_sound rule_t_b11.guard _ _ _ _ refl refl refl refl
                              (inr (inr (inl refl))),
                          (
                            advance_sound rule_t_12.guard _ _ _ refl refl refl,
                            (
                              permission_sound rule_t_13.guard _ refl refl refl,
                              (
                                advance_sound rule_t_14.guard _ _ _ refl refl refl,
                                (
                                  advance_sound rule_t_15.guard _ _ _ refl refl refl,
                                  (
                                    advance_sound rule_t_16.guard _ _ _ refl refl refl,
                                    (
                                      advance_sound rule_t_17.guard _ _ _ refl refl refl,
                                      (
                                        advance_sound rule_t_18.guard _ _ _ refl refl refl,
                                        (
                                          advance_sound rule_t_19.guard _ _ _ refl refl refl,
                                          (
                                            progress_block_sound rule_t_b19.guard _ _ _ _ refl refl
                                                refl refl (inr (inr (inr (inl refl)))),
                                            tt,
                                          ),
                                        ),
                                      ),
                                    ),
                                  ),
                                ),
                              ),
                            ),
                          ),
                        ),
                      ),
                    ),
                  ),
                ),
              ),
            ),
          ),
        ),
      ),
    ),
  ),
)

pub gate_rules-IsSound : All IsSound gate_rules
unfolding elem all keep budget_events
gate_rules-IsSound = (
  advance_sound rule_t_20a.guard _ _ _ refl refl refl,
  (
    advance_sound rule_t_20b.guard _ _ _ refl refl refl,
    (
      permission_resume_sound rule_t_21.guard refl refl refl,
      (
        advance_sound rule_t_22.guard _ _ _ refl refl refl,
        (
          advance_sound rule_t_23.guard _ _ _ refl refl refl,
          (
            progress_block_sound rule_t_b23.guard _ _ _ _ refl refl refl refl
                (inr (inr (inr (inr (inl refl))))),
            (
              advance_sound rule_t_24.guard _ _ _ refl refl refl,
              (
                advance_sound rule_t_25.guard _ _ _ refl refl refl,
                (
                  advance_sound rule_t_26.guard _ _ _ refl refl refl,
                  (
                    advance_sound rule_t_27.guard _ _ _ refl refl refl,
                    (
                      advance_sound rule_t_28.guard _ _ _ refl refl refl,
                      (
                        advance_sound rule_t_29a.guard _ _ _ refl refl refl,
                        (
                          advance_sound rule_t_29b.guard _ _ _ refl refl refl,
                          (
                            advance_sound rule_t_30.guard _ _ _ refl refl refl,
                            (
                              advance_sound rule_t_31a.guard _ _ _ refl refl refl,
                              (
                                advance_sound rule_t_31b.guard _ _ _ refl refl refl,
                                (
                                  advance_sound rule_t_33.guard _ _ _ refl refl refl,
                                  (external_dependency_sound rule_t_43.guard refl refl refl, tt),
                                ),
                              ),
                            ),
                          ),
                        ),
                      ),
                    ),
                  ),
                ),
              ),
            ),
          ),
        ),
      ),
    ),
  ),
)

-- ===== src/Domain/Safety/Registry.antt =====
-- domain/machine.py: the registry as a whole, from the lists of its rules.
use claude_code_codex_review.Prelude.{
  ◌≡◌, refl, true, Bool, inl, inr, elem, all, any, keep, All, Pairs, All-append, All-keep,
  All-of_all, ◌++◌, List, [], ◌∷◌, &&-true, Bool-cases,
}
use claude_code_codex_review.Domain.States.{state_eq}
use claude_code_codex_review.Domain.Rules.Match.{Rule}
use claude_code_codex_review.Domain.Workflow.Produced.{produced_rules}
use claude_code_codex_review.Domain.Workflow.Review.{review_rules}
use claude_code_codex_review.Domain.Workflow.Gate.{gate_rules}
use claude_code_codex_review.Domain.Recovery.Merge.{merge_rules}
use claude_code_codex_review.Domain.Recovery.Cancel.{cancel_rules, failure_rules}
use claude_code_codex_review.Domain.Recovery.Procedures.{procedure_rules}
use claude_code_codex_review.Domain.Recovery.Resume.{resume_rules}
use claude_code_codex_review.Domain.Integrity.Detection.{detection_rules}
use claude_code_codex_review.Domain.Integrity.Incident.{incident_rules, merge_integrity_rules}
use claude_code_codex_review.Domain.Integrity.Resolution.{block_resolution_rules}
use claude_code_codex_review.Domain.Machine.{
  registry, workflow_rules, recovery_rules, integrity_rules,
}
use claude_code_codex_review.Domain.Machine.Disjoint.{disjoint, pairwise_disjoint}
use claude_code_codex_review.Domain.Safety.Rule.{IsSound}
use claude_code_codex_review.Domain.Safety.Procedures.{
  reissue_cancel_sound, reissue_block_sound, reissue_incident_sound, reissue_persist_sound,
}
use claude_code_codex_review.Domain.Safety.WorkflowRules.{
  produced_rules-IsSound, review_rules-IsSound, gate_rules-IsSound,
}
use claude_code_codex_review.Domain.Safety.RecoveryRules.{
  merge_rules-IsSound, cancel_rules-IsSound, failure_rules-IsSound, resume_rules-IsSound,
}
use claude_code_codex_review.Domain.Safety.IntegrityRules.{
  detection_rules-IsSound, incident_rules-IsSound, merge_integrity_rules-IsSound,
  block_resolution_rules-IsSound,
}

procedure_rules-IsSound : All IsSound procedure_rules
procedure_rules-IsSound = (
  reissue_cancel_sound _ refl,
  (
    reissue_block_sound _ refl,
    (
      reissue_incident_sound _ refl,
      (
        reissue_persist_sound _ refl,
        (
          reissue_cancel_sound _ refl,
          (
            reissue_block_sound _ refl,
            (
              reissue_incident_sound _ refl,
              (
                reissue_persist_sound _ refl,
                (
                  reissue_cancel_sound _ refl,
                  (
                    reissue_block_sound _ refl,
                    (
                      reissue_incident_sound _ refl,
                      (
                        reissue_persist_sound _ refl,
                        (
                          reissue_cancel_sound _ refl,
                          (
                            reissue_block_sound _ refl,
                            (
                              reissue_incident_sound _ refl,
                              (
                                reissue_persist_sound _ refl,
                                (
                                  reissue_cancel_sound _ refl,
                                  (
                                    reissue_block_sound _ refl,
                                    (
                                      reissue_incident_sound _ refl,
                                      (
                                        reissue_persist_sound _ refl,
                                        (
                                          reissue_cancel_sound _ refl,
                                          (
                                            reissue_block_sound _ refl,
                                            (
                                              reissue_incident_sound _ refl,
                                              (
                                                reissue_persist_sound _ refl,
                                                (
                                                  reissue_cancel_sound _ refl,
                                                  (
                                                    reissue_block_sound _ refl,
                                                    (
                                                      reissue_incident_sound _ refl,
                                                      (reissue_persist_sound _ refl, tt),
                                                    ),
                                                  ),
                                                ),
                                              ),
                                            ),
                                          ),
                                        ),
                                      ),
                                    ),
                                  ),
                                ),
                              ),
                            ),
                          ),
                        ),
                      ),
                    ),
                  ),
                ),
              ),
            ),
          ),
        ),
      ),
    ),
  ),
)

failing_rules-IsSound : All IsSound (failure_rules ++ (procedure_rules ++ resume_rules))
failing_rules-IsSound =
    All-append IsSound failure_rules (procedure_rules ++ resume_rules) failure_rules-IsSound
      (All-append IsSound procedure_rules resume_rules procedure_rules-IsSound resume_rules-IsSound)

recovery_rules-IsSound : All IsSound recovery_rules
recovery_rules-IsSound =
    All-append IsSound merge_rules
      (cancel_rules ++ (failure_rules ++ (procedure_rules ++ resume_rules))) merge_rules-IsSound
      (All-append IsSound cancel_rules (failure_rules ++ (procedure_rules ++ resume_rules))
        cancel_rules-IsSound failing_rules-IsSound)

resolving_rules-IsSound : All IsSound (merge_integrity_rules ++ block_resolution_rules)
resolving_rules-IsSound =
    All-append IsSound merge_integrity_rules block_resolution_rules merge_integrity_rules-IsSound
      block_resolution_rules-IsSound

integrity_rules-IsSound : All IsSound integrity_rules
integrity_rules-IsSound =
    All-append IsSound detection_rules
      (incident_rules ++ (merge_integrity_rules ++ block_resolution_rules)) detection_rules-IsSound
      (All-append IsSound incident_rules (merge_integrity_rules ++ block_resolution_rules)
        incident_rules-IsSound resolving_rules-IsSound)

pub registry-IsSound : All IsSound registry
unfolding registry
registry-IsSound =
    All-append IsSound produced_rules (workflow_rules ++ (recovery_rules ++ integrity_rules))
      produced_rules-IsSound
      (All-append IsSound workflow_rules (recovery_rules ++ integrity_rules)
        (All-append IsSound review_rules gate_rules review_rules-IsSound gate_rules-IsSound)
        (All-append IsSound recovery_rules integrity_rules recovery_rules-IsSound
          integrity_rules-IsSound))

-- Two rules whose match parts no state and event fulfil both.
abbrev pub Apart : Rule → Rule → Type 0
Apart r s = disjoint r.guard s.guard ≡ true

pub pairwise_disjoint-Pairs :
    (rules : List Rule) → pairwise_disjoint rules ≡ true → Pairs Apart rules
unfolding pairwise_disjoint
pairwise_disjoint-Pairs [] h = tt
pairwise_disjoint-Pairs (r ∷ rs) h =
    let both = &&-true _ _ h in
    (
      All-of_all _ (λ (s : Rule). disjoint r.guard s.guard) (λ s e. e) rs both.0,
      pairwise_disjoint-Pairs rs both.1,
    )

pub Pairs-keep :
    (p : Rule → Bool) (rules : List Rule) → Pairs Apart rules → Pairs Apart (keep p rules)
unfolding keep
Pairs-keep p [] h = tt
Pairs-keep p (r ∷ rs) h = elim (Bool-cases (p r)) [
  | inl e ↦ rw e (All-keep (Apart r) p rs h.0, Pairs-keep p rs h.1)
  | inr e ↦ rw e (Pairs-keep p rs h.1)
]

pub registry-Pairs : Pairs Apart registry
unfolding pairwise_disjoint registry elem any keep all
registry-Pairs = pairwise_disjoint-Pairs registry refl

-- ===== src/Identity/Chain/Provenance.antt =====
-- identity/record_chain.py: what a verified record rests on, whatever violations there are.
use claude_code_codex_review.Prelude.{
  String, true, false, Option, List, [], ◌∷◌, map, ◌≡◌, refl, subst, any, keep, All, All-keep,
  Bool-cases, inl, inr, ◌⊎◌,
}
use claude_code_codex_review.Transport.Fetched.{UnverifiedComment}
use claude_code_codex_review.Identity.Errors.{Checked, made_inj}
use claude_code_codex_review.Identity.Allowlist.{ProducerAllowlist}
use claude_code_codex_review.Identity.Records.{VerifiedRecord}
use claude_code_codex_review.Identity.Chain.{
  KnownRecord, ChainCheckpoint, Probe, ChainVerification, Candidate, Step, passes, dedupe,
}
use claude_code_codex_review.Identity.Chain.Stages.{record_of, check_all_known}
use claude_code_codex_review.Identity.Chain.Verification.{
  classified, groups_of, chosen, edits, reliable, walked, sound, tampered, known_of, high_water_of,
  unprobed, verified_from, verify_pool, verify_record_chain,
}
use claude_code_codex_review.Identity.Chain.Groups.{Held, group_from-Held}
use claude_code_codex_review.Identity.Chain.Sources.{
  Sourced, classified-Sourced, chosen-All, edits-All, by_number-All,
}

-- The record is that of a comment which was fetched, never edited, and written by a listed producer.
abbrev pub Backed : String → ProducerAllowlist → List UnverifiedComment → VerifiedRecord → Type 0
Backed run producers pool r =
    (c : Candidate) × (record_of c ≡ r)
    × Sourced run producers pool c
    × (c.comment.updated_at ≡ c.comment.created_at)

module _ (run_id detection_head : String) (producers : ProducerAllowlist) where
  pub reliable-Sourced :
      (pool : List UnverifiedComment)
      → All
          (λ (c : Candidate).
            Sourced run_id producers pool c × (c.comment.updated_at ≡ c.comment.created_at))
          (reliable run_id detection_head producers pool)
  reliable-Sourced pool =
      by_number-All run_id detection_head producers
        (λ (c : Candidate).
          Sourced run_id producers pool c × (c.comment.updated_at ≡ c.comment.created_at))
        (passes (edits run_id detection_head producers pool))
        (edits-All run_id detection_head producers (Sourced run_id producers pool)
          (passes (chosen run_id detection_head producers pool))
          (chosen-All run_id detection_head producers (Sourced run_id producers pool)
            (groups_of run_id detection_head producers pool) (groups-Held pool)))
    where
      groups-Held :
          (pool : List UnverifiedComment)
          → All
              (Held (Sourced run_id producers pool))
              (groups_of run_id detection_head producers pool)
      groups-Held pool =
          group_from-Held (Sourced run_id producers pool) []
            (passes (classified run_id detection_head producers pool))
            (classified-Sourced run_id detection_head producers pool pool (λ x m. m)) tt

  -- What a verification that is made was made of.
  pub verify_pool-made :
      (pool : List UnverifiedComment) (checkpoint : Option ChainCheckpoint) (probes : List Probe)
      (v : ChainVerification)
      → verify_pool run_id detection_head producers pool checkpoint probes ≡ Checked.made v
      → (steps : List (Step KnownRecord)) × (any (unprobed pool probes) (known_of checkpoint)
          ≡ false)
        × (check_all_known run_id detection_head pool probes (known_of checkpoint)
            ≡ Checked.made steps)
        × (verified_from run_id detection_head producers pool
              (high_water_of checkpoint)
              steps
              (tampered pool probes (known_of checkpoint))
            ≡ v)
  unfolding verify_pool
  verify_pool-made pool checkpoint probes v h =
      by_probe (Bool-cases (any (unprobed pool probes) (known_of checkpoint)))
        (check_all_known run_id detection_head pool probes (known_of checkpoint)) refl
    where
      by_probe :
          (any (unprobed pool probes) (known_of checkpoint) ≡ true)
            ⊎ (any (unprobed pool probes) (known_of checkpoint) ≡ false)
          → (r : Checked (List (Step KnownRecord)))
          → check_all_known run_id detection_head pool probes (known_of checkpoint) ≡ r
          → (steps : List (Step KnownRecord)) × (any (unprobed pool probes) (known_of checkpoint)
              ≡ false)
            × (check_all_known run_id detection_head pool probes (known_of checkpoint)
                ≡ Checked.made steps)
            × (verified_from run_id detection_head producers pool
                  (high_water_of checkpoint)
                  steps
                  (tampered pool probes (known_of checkpoint))
                ≡ v)
      by_probe (inl e) r q = absurd (cc (rw e at h))
      by_probe (inr e) (Checked.raised x) q = absurd (cc (rw (e, q) at h))
      by_probe (inr e) (Checked.key_error x) q = absurd (cc (rw (e, q) at h))
      by_probe (inr e) (Checked.made steps) q = (steps, e, q, made_inj (rw (e, q) at h))

  -- Every record that a verification answers, whatever violations it found, was read from a comment
  -- that was fetched, with a marker in canonical form that names this run, by a listed producer, and
  -- never edited; its number, kind, key, head and projection are the marker's, its body the comment's.
  pub verify_record_chain-Backed :
      (comments : List UnverifiedComment) (checkpoint : Option ChainCheckpoint)
      (probes : List Probe) (v : ChainVerification)
      → verify_record_chain run_id detection_head producers comments checkpoint probes
        ≡ Checked.made v
      → All (Backed run_id producers (dedupe comments probes)) v.records
  unfolding verify_record_chain
  verify_record_chain-Backed comments checkpoint probes v h =
      let pool = dedupe comments probes in
      let m = verify_pool-made pool checkpoint probes v h in
      let ids = tampered pool probes (known_of checkpoint) in
      subst (λ (x : ChainVerification). All (Backed run_id producers pool) x.records) m.3
        (backed_all pool
          (keep (sound (walked run_id detection_head producers pool ids).0 ids)
            (reliable run_id detection_head producers pool))
          (All-keep
            (λ (c : Candidate).
              Sourced run_id producers pool c × (c.comment.updated_at ≡ c.comment.created_at))
            (sound (walked run_id detection_head producers pool ids).0 ids)
            (reliable run_id detection_head producers pool) (reliable-Sourced pool)))
    where
      backed_all :
          (pool : List UnverifiedComment) (cs : List Candidate)
          → All
              (λ (c : Candidate).
                Sourced run_id producers pool c × (c.comment.updated_at ≡ c.comment.created_at))
              cs
          → All (Backed run_id producers pool) (map record_of cs)
      backed_all pool [] a = tt
      backed_all pool (c ∷ cs) a = ((c, refl, a.0.0, a.0.1), backed_all pool cs a.1)

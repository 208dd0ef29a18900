-- ===== src/Identity/Chain/Intact.antt =====
-- identity/record_chain.py: a verification that finds no violation.
use Prim.Native.Nat.{◌+◌, ◌≤◌, ◌<◌}
use claude_code_codex_review.Prelude.{
  ℕ, String, true, Option, List, [], ◌∷◌, map, ◌≡◌, refl, sym, ap, subst, ◌∙◌, arith, any, keep,
  All, elem, string_eq, nat_beq,
}
use claude_code_codex_review.Transport.Fetched.{UnverifiedComment}
use claude_code_codex_review.Identity.Errors.{Checked}
use claude_code_codex_review.Identity.Allowlist.{ProducerAllowlist}
use claude_code_codex_review.Identity.Records.{VerifiedRecord}
use claude_code_codex_review.Identity.Chain.{
  KnownRecord, ChainCheckpoint, Probe, ChainVerification, Candidate, Step, faults, passes, dedupe,
  is_intact,
}
use claude_code_codex_review.Identity.Chain.Stages.{maximum, larger, range_from, record_of, seq_of}
use claude_code_codex_review.Identity.Chain.Verification.{
  classified, groups_of, chosen, edits, reliable, observed, gaps, walked, sound, tampered, known_of,
  high_water_of, all_faults, verified_from, verify_record_chain,
}
use claude_code_codex_review.Identity.Chain.Numbers.{
  Among, Rising-range, Distinct, numbers, Among-by_number, by_number-Rising, maximum-bounds,
}
use claude_code_codex_review.Identity.Chain.Groups.{group_from-Held, group_from-Distinct}
use claude_code_codex_review.Identity.Chain.Sources.{
  Sourced, classified-Sourced, chosen-numbers, edits-kept, by_number-All,
}
use claude_code_codex_review.Identity.Chain.Provenance.{verify_pool-made, reliable-Sourced}
use claude_code_codex_review.Identity.Marker.Parsed.{parse_record_marker-positive}
use claude_code_codex_review.Identity.Chain.Gapless.{
  no_violations, append_empty, range_All, gaps_none, walk_unbroken, known_Present, tampered_none,
  Present,
}

to_numbers :
    (P : ℕ → Type 0) (cs : List Candidate) → All (λ c. P (seq_of c)) cs → All P (numbers cs)
to_numbers P [] a = tt
to_numbers P (c ∷ cs) a = (a.0, to_numbers P cs a.1)

of_numbers :
    (P : ℕ → Type 0) (cs : List Candidate) → All P (numbers cs) → All (λ c. P (seq_of c)) cs
of_numbers P [] a = tt
of_numbers P (c ∷ cs) a = (a.0, of_numbers P cs a.1)

module _ (run_id detection_head : String) (producers : ProducerAllowlist)
    (pool : List UnverifiedComment) where
  -- None of the stages found a violation.
  pub record Clean (high_water : ℕ) (steps : List (Step KnownRecord)) (ids : List String)
      : Type 0 where
    pub one_each : faults (chosen run_id detection_head producers pool) ≡ []
    pub never_edited : faults (edits run_id detection_head producers pool) ≡ []
    pub no_gap : faults (gaps run_id detection_head producers pool high_water) ≡ []
    pub known : faults steps ≡ []
    pub linked : faults (walked run_id detection_head producers pool ids).1 ≡ []

  pub no_faults :
      (high_water : ℕ) (steps : List (Step KnownRecord)) (ids : List String)
      → is_intact (verified_from run_id detection_head producers pool high_water steps ids) ≡ true
      → Clean high_water steps ids
  no_faults high_water steps ids h =
      let a =
        append_empty _ _ (
          no_violations (all_faults run_id detection_head producers pool high_water steps ids) h) in
      let b = append_empty _ _ a.1 in
      let c = append_empty _ _ b.1 in
      let d = append_empty _ _ c.1 in
      let e = append_empty _ _ d.1 in
      record { one_each = b.0; never_edited = c.0; no_gap = d.0; known = e.0; linked = e.1 }

  reliable_numbers :
      (high_water : ℕ) (steps : List (Step KnownRecord)) (ids : List String)
      → Clean high_water steps ids
      → numbers (passes (edits run_id detection_head producers pool))
        ≡ observed run_id detection_head producers pool
  reliable_numbers high_water steps ids c =
      ap numbers (
        edits-kept run_id detection_head producers
          (passes (chosen run_id detection_head producers pool)) c.never_edited)
      ∙ chosen-numbers run_id detection_head producers (Sourced run_id producers pool)
          (groups_of run_id detection_head producers pool)
          (group_from-Held (Sourced run_id producers pool) []
            (passes (classified run_id detection_head producers pool))
            (classified-Sourced run_id detection_head producers pool pool (λ x m. m)) tt)
          c.one_each

  within :
      (M : ℕ) (ns : List ℕ)
      → All (λ n. 1 ≤ n) ns
      → All (λ n. n ≤ M) ns
      → All (λ n. (1 ≤ n) × (n < 1 + M)) ns
  within M [] a b = tt
  within M (n ∷ ns) a b = ((a.0, omega (arith, b.0)), within M ns a.1 b.1)

  positive :
      (cs : List Candidate)
      → All
          (λ (c : Candidate).
            Sourced run_id producers pool c × (c.comment.updated_at ≡ c.comment.created_at))
          cs
      → All (λ n. 1 ≤ n) (numbers cs)
  positive [] a = tt
  positive (c ∷ cs) a =
      (parse_record_marker-positive c.comment c.payload a.0.0.parsed, positive cs a.1)

  at_most : (M K : ℕ) (ns : List ℕ) → M ≤ K → All (λ n. n ≤ M) ns → All (λ n. n ≤ K) ns
  at_most M K [] h a = tt
  at_most M K (n ∷ ns) h a = (omega (arith, a.0), at_most M K ns h a.1)

  all_there :
      (high_water : ℕ) (steps : List (Step KnownRecord)) (ids : List String)
      → Clean high_water steps ids
      → numbers (reliable run_id detection_head producers pool)
        ≡ range_from 1 (larger (maximum (observed run_id detection_head producers pool)) high_water)
  all_there high_water steps ids c =
      let seen = observed run_id detection_head producers pool in
      let M = larger (maximum seen) high_water in
      let kept = passes (edits run_id detection_head producers pool) in
      let same = reliable_numbers high_water steps ids c in
      Rising-range M 1 (1 + M) (numbers (reliable run_id detection_head producers pool)) refl
        (by_number-Rising kept (subst Distinct (sym same) distinct))
        (within M (numbers (reliable run_id detection_head producers pool))
          (positive (reliable run_id detection_head producers pool)
            (reliable-Sourced run_id detection_head producers pool))
          (to_numbers (λ n. n ≤ M) (reliable run_id detection_head producers pool)
            (by_number-All run_id detection_head producers (λ (x : Candidate). seq_of x ≤ M) kept
              (of_numbers (λ n. n ≤ M) kept
                (subst (All (λ n. n ≤ M)) (sym same) (
                  at_most (maximum seen) M seen (below (maximum seen) high_water)
                    (maximum-bounds seen)))))))
        (λ n l h.
          Among-by_number n kept
          ∙ ap (any (nat_beq n)) same
          ∙ range_All (λ k. Among k seen) M 1 (1 + M) refl
              (gaps_none run_id detection_head seen high_water (range_from 1 M) c.no_gap) n l h)
    where
      below : (a b : ℕ) → a ≤ larger a b
      below a b = ground arith

      distinct : Distinct (observed run_id detection_head producers pool)
      distinct =
          group_from-Distinct [] (passes (classified run_id detection_head producers pool)) tt

  -- With nothing broken and nothing tampered with, every record is kept.
  keep-sound : (cs : List Candidate) → map record_of (keep (sound [] []) cs) ≡ map record_of cs
  unfolding keep any elem
  keep-sound [] = refl
  keep-sound (c ∷ cs) = ap (λ t. record_of c ∷ t) (keep-sound cs)

  pub all_recorded :
      (high_water : ℕ) (steps : List (Step KnownRecord)) (ids : List String)
      → Clean high_water steps ids
      → ids ≡ []
      → (verified_from run_id detection_head producers pool high_water steps ids).records
        ≡ map record_of (reliable run_id detection_head producers pool)
  all_recorded high_water steps ids c e =
      let w =
        walk_unbroken run_id detection_head (reliable run_id detection_head producers pool) ids []
          (reliable run_id detection_head producers pool) c.linked in
      (λ i.
        map record_of (keep (sound (w i) (e i)) (reliable run_id detection_head producers pool)))
      ∙ keep-sound (reliable run_id detection_head producers pool)

record_numbers :
    (cs : List Candidate) → map (λ (r : VerifiedRecord). r.seq) (map record_of cs) ≡ numbers cs
record_numbers [] = refl
record_numbers (c ∷ cs) = ap (λ t. seq_of c ∷ t) (record_numbers cs)

module _ (run_id detection_head : String) (producers : ProducerAllowlist)
    (comments : List UnverifiedComment) (checkpoint : Option ChainCheckpoint) (probes : List Probe)
    (v : ChainVerification) where
  -- Where a verification finds no violation, its records are numbered 1, 2, 3 and so on, in this
  -- order and with no number left out or twice, up to the greatest number observed or to the
  -- checkpoint's high-water mark, if that is greater.
  pub verify_record_chain-gapless :
      verify_record_chain run_id detection_head producers comments checkpoint probes
        ≡ Checked.made v
      → is_intact v ≡ true
      → map (λ (r : VerifiedRecord). r.seq) v.records
        ≡ range_from 1 (larger v.max_seq v.assurance_high_water)
  unfolding verify_record_chain
  verify_record_chain-gapless h i =
      let pool = dedupe comments probes in
      let m = verify_pool-made run_id detection_head producers pool checkpoint probes v h in
      let hw = high_water_of checkpoint in
      let ids = tampered pool probes (known_of checkpoint) in
      let c =
        no_faults run_id detection_head producers pool hw m.0 ids
          (subst (λ (x : ChainVerification). is_intact x ≡ true) (sym m.3) i) in
      let e =
        tampered_none pool probes (known_of checkpoint)
          (known_Present run_id detection_head pool probes (known_of checkpoint) m.0 m.2 c.known) in
      subst
        (λ (x : ChainVerification).
          map (λ (r : VerifiedRecord). r.seq) x.records
          ≡ range_from 1 (larger x.max_seq x.assurance_high_water))
        m.3
        (ap (map (λ (r : VerifiedRecord). r.seq))
            (all_recorded run_id detection_head producers pool hw m.0 ids c e)
          ∙ record_numbers (reliable run_id detection_head producers pool)
          ∙ all_there run_id detection_head producers pool hw m.0 ids c)

  -- Where a verification finds no violation, no record that the checkpoint knows was found missing,
  -- and the comment of each has the body hash that the checkpoint recorded.
  pub verify_record_chain-Present :
      verify_record_chain run_id detection_head producers comments checkpoint probes
        ≡ Checked.made v
      → is_intact v ≡ true
      → All (Present (dedupe comments probes) probes) (known_of checkpoint)
  unfolding verify_record_chain
  verify_record_chain-Present h i =
      let pool = dedupe comments probes in
      let m = verify_pool-made run_id detection_head producers pool checkpoint probes v h in
      let ids = tampered pool probes (known_of checkpoint) in
      let c =
        no_faults run_id detection_head producers pool (high_water_of checkpoint) m.0 ids
          (subst (λ (x : ChainVerification). is_intact x ≡ true) (sym m.3) i) in
      known_Present run_id detection_head pool probes (known_of checkpoint) m.0 m.2 c.known

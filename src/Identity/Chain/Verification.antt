-- ===== src/Identity/Chain/Verification.antt =====
-- identity/record_chain.py: `verify_record_chain`.
use claude_code_codex_review.Prelude.{
  ℕ, String, Bool, not, ◌&&◌, Option, none, some, List, [], ◌++◌, map, if◌then◌else◌, any, keep,
  elem, is_none, string_eq,
}
use claude_code_codex_review.Domain.Values.Records.{IntegrityEvidenceRef}
use claude_code_codex_review.Domain.Values.Integrity.{canonicalize_integrity}
use claude_code_codex_review.Transport.Fetched.{UnverifiedComment}
use claude_code_codex_review.Identity.Errors.{Checked, raise, ◌>>=◌}
use claude_code_codex_review.Identity.Allowlist.{ProducerAllowlist}
use claude_code_codex_review.Identity.Chain.{
  KnownRecord, ChainCheckpoint, Probe, ChainVerification, Candidate, Step, faults, passes, dedupe,
  probe_of, comment_of, classify_comment, check_edited, check_gap,
}
use claude_code_codex_review.Identity.Chain.Stages.{
  Group, group_from, choose, maximum, larger, range_from, by_number, has_number, walk, tampered_id,
  check_all_known, record_of,
}

abbrev pub known_of : Option ChainCheckpoint → List KnownRecord
known_of none = []
known_of (some c) = c.known_records

abbrev pub high_water_of : Option ChainCheckpoint → ℕ
high_water_of none = 0
high_water_of (some c) = c.high_water_mark

-- A known record that is neither in the pool nor probed: the caller forgot the probe.
abbrev pub unprobed : List UnverifiedComment → List Probe → KnownRecord → Bool
unprobed pool probes k =
    is_none (comment_of k.comment_id pool) && is_none (probe_of k.comment_id probes)

abbrev pub tampered : List UnverifiedComment → List Probe → List KnownRecord → List String
tampered pool probes known =
    map (λ (k : KnownRecord). k.comment_id) (keep (tampered_id pool probes) known)

-- The candidates that are neither broken nor tampered with.
abbrev pub sound : List ℕ → List String → Candidate → Bool
sound broken ids c = not (has_number broken c) && not (elem c.comment.comment_id ids)

module _ (run_id : String) (detection_head : String) (producers : ProducerAllowlist) where
  abbrev pub classified : List UnverifiedComment → List (Step Candidate)
  classified pool = map (classify_comment run_id detection_head producers) pool

  abbrev pub groups_of : List UnverifiedComment → List Group
  groups_of pool = group_from [] (passes (classified pool))

  abbrev pub chosen : List UnverifiedComment → List (Step Candidate)
  chosen pool = map (choose run_id detection_head) (groups_of pool)

  abbrev pub edits : List UnverifiedComment → List (Step Candidate)
  edits pool = map (check_edited run_id detection_head) (passes (chosen pool))

  -- The candidates that were chosen and never edited, in the order of their numbers.
  abbrev pub reliable : List UnverifiedComment → List Candidate
  reliable pool = by_number (passes (edits pool))

  abbrev pub observed : List UnverifiedComment → List ℕ
  observed pool = map (λ (g : Group). g.seq) (groups_of pool)

  abbrev pub gaps : List UnverifiedComment → ℕ → List (Step ℕ)
  gaps pool high_water =
      map (check_gap run_id detection_head (observed pool) high_water)
        (range_from 1 (larger (maximum (observed pool)) high_water))

  abbrev pub walked : List UnverifiedComment → List String → List ℕ × List (Step ℕ)
  walked pool ids = walk run_id detection_head (reliable pool) ids [] (reliable pool)

  abbrev pub all_faults :
      List UnverifiedComment → ℕ → List (Step KnownRecord) → List String → List IntegrityEvidenceRef
  all_faults pool high_water known ids =
      faults (classified pool)
      ++ (faults (chosen pool)
          ++ (faults (edits pool)
              ++ (faults (gaps pool high_water) ++ (faults known ++ faults (walked pool ids).1))))

  abbrev pub verified_from :
      List UnverifiedComment → ℕ → List (Step KnownRecord) → List String → ChainVerification
  verified_from pool high_water known ids = record {
    records = map record_of (keep (sound (walked pool ids).0 ids) (reliable pool));
    violations = canonicalize_integrity (all_faults pool high_water known ids);
    max_seq = maximum (observed pool);
    assurance_high_water = high_water;
  }

  unfoldable pub verify_pool :
      List UnverifiedComment → Option ChainCheckpoint → List Probe → Checked ChainVerification
  unfolding group_from choose maximum range_from by_number walk check_all_known
  verify_pool pool checkpoint probes =
      let known = check_all_known run_id detection_head pool probes (known_of checkpoint) in
      if any (unprobed pool probes) (known_of checkpoint)
      then raise "probe"
      else (known >>= (λ steps. Checked.made (
          verified_from pool (high_water_of checkpoint) steps
            (tampered pool probes (known_of checkpoint)))))

  unfoldable pub verify_record_chain :
      List UnverifiedComment → Option ChainCheckpoint → List Probe → Checked ChainVerification
  unfolding verify_pool
  verify_record_chain comments checkpoint probes =
      verify_pool (dedupe comments probes) checkpoint probes

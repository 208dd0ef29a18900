-- ===== src/Identity/Chain/Links.antt =====
-- identity/record_chain.py: the hashes that link the records of a chain without violations.
use Prim.Native.Nat.{◌-◌}
use claude_code_codex_review.Prelude.{
  ℕ, String, true, Option, none, some, List, [], ◌∷◌, map, ◌≡◌, ◌≢◌, sym, ap, subst, ◌∙◌, All,
  Bool-cases, inl, inr, nat_beq, nat_beq_iff, ◌==◌, string_eq, option_eq,
}
use claude_code_codex_review.Transport.Fetched.{UnverifiedComment}
use claude_code_codex_review.Identity.Errors.{Checked}
use claude_code_codex_review.Identity.Allowlist.{ProducerAllowlist}
use claude_code_codex_review.Identity.Chain.{
  ChainCheckpoint, Probe, ChainVerification, Candidate, Step, faults, dedupe, is_intact,
}
use claude_code_codex_review.Identity.Chain.Stages.{
  walk, break_at, check_link_of, check_hash, check_anchor, with_number, eligible, maximum,
  record_of, seq_of,
}
use claude_code_codex_review.Identity.Chain.Verification.{
  reliable, tampered, known_of, high_water_of, verify_record_chain,
}
use claude_code_codex_review.Identity.Chain.Sources.{Sourced}
use claude_code_codex_review.Identity.Chain.Provenance.{verify_pool-made, reliable-Sourced}
use claude_code_codex_review.Identity.Chain.Gapless.{known_Present, tampered_none}
use claude_code_codex_review.Identity.Chain.Intact.{no_faults, all_recorded}

-- The number of the record that a record names as the one before it.
abbrev pub named_by : ℕ → Option ℕ → ℕ
named_by seq none = seq - 1
named_by seq (some anchor) = anchor

abbrev pub named : Candidate → ℕ
named c = named_by (seq_of c) c.payload.audit_prev

-- The record names the body hash of the one before it, if there is one.
abbrev pub Linked : List Candidate → Candidate → Type 0
Linked cs c =
    (p : Candidate)
    → with_number (named c) cs ≡ some p
    → named c ≢ 0
    → c.payload.prev ≡ some p.comment.body_hash

abbrev NoFault : Step ℕ → Type 0
NoFault (Step.fault v) = ⊥
NoFault _ = Unit

module _ (run_id detection_head : String) where
  hash_lem :
      (cs : List Candidate) (c : Candidate) (n : ℕ)
      → NoFault (check_hash run_id detection_head cs c n)
      → (p : Candidate) → with_number n cs ≡ some p
      → n ≢ 0
      → c.payload.prev ≡ some p.comment.body_hash
  unfolding check_hash
  hash_lem cs c n h p w z = elim (Bool-cases (nat_beq n 0)) [
    | inl e ↦ absurd (z ((nat_beq_iff n 0).0 e))
    | inr e ↦ elim (Bool-cases (c.payload.prev == some p.comment.body_hash)) [
      | inl q ↦ (option_eq.beq_iff c.payload.prev (some p.comment.body_hash)).0 q
      | inr q ↦ absurd (rw (e, w, q) at h)
    ]
  ]

  anchor_lem :
      (cs : List Candidate) (ids : List String) (broken : List ℕ) (c : Candidate) (o : Option ℕ)
      → NoFault (check_anchor run_id detection_head cs ids broken c o)
      → (p : Candidate) → with_number (named_by (seq_of c) o) cs ≡ some p
      → named_by (seq_of c) o ≢ 0
      → c.payload.prev ≡ some p.comment.body_hash
  unfolding check_anchor
  anchor_lem cs ids broken c none h = hash_lem cs c (seq_of c - 1) h
  anchor_lem cs ids broken c (some n) h =
      elim (Bool-cases (nat_beq n (maximum (eligible cs ids broken (seq_of c))))) [
        | inl e ↦ hash_lem cs c n (rw e at h)
        | inr e ↦ absurd (rw e at h)
      ]

  link_lem :
      (cs : List Candidate) (ids : List String) (broken : List ℕ) (c : Candidate)
      → NoFault (check_link_of run_id detection_head cs ids broken c)
      → Linked cs c
  unfolding check_link_of
  link_lem cs ids broken c h = anchor_lem cs ids broken c c.payload.audit_prev h

  walk_links :
      (all_of : List Candidate) (ids : List String) (broken : List ℕ) (cs : List Candidate)
      → faults (walk run_id detection_head all_of ids broken cs).1 ≡ []
      → All (Linked all_of) cs
  unfolding faults walk
  walk_links all_of ids broken [] h = tt
  walk_links all_of ids broken (c ∷ cs) h =
      go (check_link_of run_id detection_head all_of ids broken c) (link_lem all_of ids broken c)
        (walk_links all_of ids
          (break_at (check_link_of run_id detection_head all_of ids broken c) c broken) cs)
        h
    where
      go :
          (s : Step ℕ)
          → (NoFault s → Linked all_of c)
          → (faults (walk run_id detection_head all_of ids (break_at s c broken) cs).1 ≡ []
              → All (Linked all_of) cs)
          → faults (s ∷ (walk run_id detection_head all_of ids (break_at s c broken) cs).1) ≡ []
          → All (Linked all_of) (c ∷ cs)
      go Step.skipped l ih q = (l tt, ih q)
      go (Step.fault v) l ih q = absurd (cc)
      go (Step.passed n) l ih q = (l tt, ih q)

-- Where a verification finds no violation, its records were read from candidates, each of them from a
-- fetched comment of this run by a listed producer, and each names the body hash of the record whose
-- number it names (the number before its own, or the explicit one of an incident), where there is one.
pub verify_record_chain-Linked :
    (run_id detection_head : String) (producers : ProducerAllowlist)
    (comments : List UnverifiedComment) (checkpoint : Option ChainCheckpoint) (probes : List Probe)
    (v : ChainVerification)
    → verify_record_chain run_id detection_head producers comments checkpoint probes
      ≡ Checked.made v
    → is_intact v ≡ true
    → (cs : List Candidate) × (map record_of cs ≡ v.records)
      × All
          (λ (c : Candidate).
            Sourced run_id producers (dedupe comments probes) c
            × (c.comment.updated_at ≡ c.comment.created_at))
          cs
      × All (Linked cs) cs
unfolding verify_record_chain
verify_record_chain-Linked run_id detection_head producers comments checkpoint probes v h i =
    let pool = dedupe comments probes in
    let m = verify_pool-made run_id detection_head producers pool checkpoint probes v h in
    let ids = tampered pool probes (known_of checkpoint) in
    let c =
      no_faults run_id detection_head producers pool (high_water_of checkpoint) m.0 ids
        (subst (λ (x : ChainVerification). is_intact x ≡ true) (sym m.3) i) in
    let e =
      tampered_none pool probes (known_of checkpoint)
        (known_Present run_id detection_head pool probes (known_of checkpoint) m.0 m.2 c.known) in
    let cs = reliable run_id detection_head producers pool in
    (
      cs,
      sym (all_recorded run_id detection_head producers pool (high_water_of checkpoint) m.0 ids c e)
          ∙ ap (λ (x : ChainVerification). x.records) m.3,
      reliable-Sourced run_id detection_head producers pool,
      walk_links run_id detection_head cs ids [] cs c.linked,
    )

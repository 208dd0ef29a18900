-- ===== src/Identity/Chain/Gapless.antt =====
-- identity/record_chain.py: what a chain without violations says of the numbers of its records.
use Prim.Native.Nat.{zero, suc, ◌+◌, ◌≤◌, ◌<◌}
use claude_code_codex_review.Prelude.{
  ℕ, String, true, false, Option, none, some, List, [], ◌∷◌, ◌++◌, map, ◌≡◌, refl, sym, ap, subst,
  ◌∙◌, arith, any, keep, All, Bool-cases, inl, inr, is_empty, string_eq, nat_beq, ==-refl, ◌==◌,
}
use claude_code_codex_review.Prelude.Sort.{has}
use claude_code_codex_review.Prelude.Sort.Canonical.{has-canonicalize}
use claude_code_codex_review.Domain.Values.Records.{IntegrityEvidenceRef}
use claude_code_codex_review.Domain.Values.Blocks.{binding_text}
use claude_code_codex_review.Domain.Values.Integrity.{canonicalize_integrity}
use claude_code_codex_review.Transport.Fetched.{UnverifiedComment}
use claude_code_codex_review.Identity.Errors.{Checked, bind-made, made_inj}
use claude_code_codex_review.Identity.Chain.{
  KnownRecord, Probe, Candidate, Step, faults, check_gap, check_known, check_body, is_missing,
  probe_of, comment_of,
}
use claude_code_codex_review.Identity.Chain.Stages.{
  range_from, walk, break_at, check_link_of, check_all_known, changed_from,
}
use claude_code_codex_review.Identity.Chain.Verification.{tampered}
use claude_code_codex_review.Identity.Chain.Numbers.{Among}

first_has :
    (y : IntegrityEvidenceRef) (ys : List IntegrityEvidenceRef)
    → has binding_text (binding_text y) (y ∷ ys) ≡ true
unfolding has
first_has y ys = rw (==-refl (binding_text y)) refl

nothing_has :
    (k : String) (ys : List IntegrityEvidenceRef)
    → is_empty ys ≡ true
    → has binding_text k ys ≡ true
    → ⊥
unfolding has
nothing_has k [] e m = cc
nothing_has k (y ∷ ys) e m = cc

-- A canonical form is empty only of nothing.
pub no_violations :
    (xs : List IntegrityEvidenceRef) → is_empty (canonicalize_integrity xs) ≡ true → xs ≡ []
unfolding canonicalize_integrity
no_violations [] h = refl
no_violations (x ∷ xs) h = absurd (
    nothing_has (binding_text x) _ h
      (has-canonicalize binding_text (binding_text x) (x ∷ xs) ∙ first_has x xs))

pub append_empty : (xs ys : List IntegrityEvidenceRef) → xs ++ ys ≡ [] → (xs ≡ []) × (ys ≡ [])
append_empty [] ys h = (refl, h)
append_empty (x ∷ xs) ys h = absurd (cc)

pub range_All :
    (P : ℕ → Type 0) (k lo hi : ℕ)
    → hi ≡ lo + k
    → All P (range_from lo k)
    → (n : ℕ) → lo ≤ n
    → n < hi
    → P n
unfolding range_from
range_All P zero lo hi e a n l h = absurd (omega arith)
range_All P (suc k) lo hi e a n l h = elim (Bool-cases (nat_beq lo n)) [
  | inl q ↦ subst P (ground arith) a.0
  | inr q ↦ range_All P k (suc lo) hi (omega arith) a.1 n (ground arith) h
]

-- The known record was not found missing, and its comment has the body that the checkpoint recorded.
abbrev pub Present : List UnverifiedComment → List Probe → KnownRecord → Type 0
Present pool probes k =
    (is_missing (probe_of k.comment_id probes) ≡ false)
    × (c : UnverifiedComment) × (comment_of k.comment_id pool ≡ some c)
    × (c.body_hash ≡ k.body_hash)

module _ (run_id detection_head : String) where
  pub gaps_none :
      (ns : List ℕ) (high_water : ℕ) (range : List ℕ)
      → faults (map (check_gap run_id detection_head ns high_water) range) ≡ []
      → All (λ n. Among n ns) range
  unfolding faults check_gap
  gaps_none ns high_water [] h = tt
  gaps_none ns high_water (n ∷ range) h = elim (Bool-cases (any (nat_beq n) ns)) [
    | inl e ↦ (e, gaps_none ns high_water range (rw e at h))
    | inr e ↦ absurd (cc (rw e at h))
  ]

  pub walk_unbroken :
      (all_of : List Candidate) (ids : List String) (broken : List ℕ) (cs : List Candidate)
      → faults (walk run_id detection_head all_of ids broken cs).1 ≡ []
      → (walk run_id detection_head all_of ids broken cs).0 ≡ broken
  unfolding faults walk
  walk_unbroken all_of ids broken [] h = refl
  walk_unbroken all_of ids broken (c ∷ cs) h =
      go (check_link_of run_id detection_head all_of ids broken c)
        (walk_unbroken all_of ids
          (break_at (check_link_of run_id detection_head all_of ids broken c) c broken) cs)
        h
    where
      go :
          (s : Step ℕ)
          → (faults (walk run_id detection_head all_of ids (break_at s c broken) cs).1 ≡ []
              → (walk run_id detection_head all_of ids (break_at s c broken) cs).0
                ≡ break_at s c broken)
          → faults (s ∷ (walk run_id detection_head all_of ids (break_at s c broken) cs).1) ≡ []
          → (walk run_id detection_head all_of ids (break_at s c broken) cs).0 ≡ broken
      go Step.skipped ih q = ih q
      go (Step.fault v) ih q = absurd (cc)
      go (Step.passed n) ih q = ih q

  body_lem :
      (k : KnownRecord) (o : Option UnverifiedComment) (s : Step KnownRecord)
      (rest : List (Step KnownRecord))
      → check_body run_id detection_head k o ≡ Checked.made s
      → faults (s ∷ rest) ≡ []
      → ((c : UnverifiedComment) × (o ≡ some c) × (c.body_hash ≡ k.body_hash)) × (faults rest ≡ [])
  unfolding faults
  body_lem k none s rest h f = absurd (cc)
  body_lem k (some c) s rest h f = elim (Bool-cases (c.body_hash == k.body_hash)) [
    | inl e ↦ (
      (c, refl, (string_eq.beq_iff c.body_hash k.body_hash).0 e),
      subst (λ (x : Step KnownRecord). faults (x ∷ rest) ≡ []) (sym (made_inj (rw e at h))) f,
    )
    | inr e ↦ absurd (
        cc
          (subst (λ (x : Step KnownRecord). faults (x ∷ rest) ≡ []) (sym (made_inj (rw e at h))) f))
  ]

  known_lem :
      (pool : List UnverifiedComment) (probes : List Probe) (k : KnownRecord) (s : Step KnownRecord)
      (rest : List (Step KnownRecord))
      → check_known run_id detection_head pool probes k ≡ Checked.made s
      → faults (s ∷ rest) ≡ []
      → Present pool probes k × (faults rest ≡ [])
  unfolding faults check_known
  known_lem pool probes k s rest h f =
      elim (Bool-cases (is_missing (probe_of k.comment_id probes))) [
        | inl e ↦ absurd (
            cc (
              subst (λ (x : Step KnownRecord). faults (x ∷ rest) ≡ []) (sym (made_inj (rw e at h)))
                f))
        | inr e ↦
            let p = body_lem k (comment_of k.comment_id pool) s rest (rw e at h) f in
            ((e, p.0.0, p.0.1, p.0.2), p.1)
      ]

  pub known_Present :
      (pool : List UnverifiedComment) (probes : List Probe) (known : List KnownRecord)
      (steps : List (Step KnownRecord))
      → check_all_known run_id detection_head pool probes known ≡ Checked.made steps
      → faults steps ≡ []
      → All (Present pool probes) known
  unfolding check_all_known
  known_Present pool probes [] steps h f = tt
  known_Present pool probes (k ∷ ks) steps h f =
      let a = bind-made (check_known run_id detection_head pool probes k) _ steps h in
      let b = bind-made (check_all_known run_id detection_head pool probes ks) _ steps a.2 in
      let p =
        known_lem pool probes k a.0 b.0 a.1
          (subst (λ (x : List (Step KnownRecord)). faults x ≡ []) (sym (made_inj b.2)) f) in
      (p.0, known_Present pool probes ks b.0 b.1 p.1)

pub tampered_none :
    (pool : List UnverifiedComment) (probes : List Probe) (known : List KnownRecord)
    → All (Present pool probes) known
    → tampered pool probes known ≡ []
unfolding keep
tampered_none pool probes [] p = refl
tampered_none pool probes (k ∷ ks) p =
    let e = ap (changed_from k) p.0.2 in
    let f = (string_eq.beq_iff p.0.1.body_hash k.body_hash).1 p.0.3 in
    rw (p.0.0, e, f) (tampered_none pool probes ks p.1)

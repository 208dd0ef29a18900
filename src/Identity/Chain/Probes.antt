-- ===== src/Identity/Chain/Probes.antt =====
-- identity/record_chain.py: when a verification is made, and when the call was wrong.
use claude_code_codex_review.Prelude.{
  String, true, false, Option, none, some, List, [], ◌∷◌, ◌≡◌, refl, arith, ◌↔◌, ◌⊎◌, inl, inr, any,
  All, Bool-cases, is_none, is_some, true-false, ◌||◌, string_eq, Bool, all, not, ◌&&◌, ◌==◌, ◌++◌,
  ap, ◌∙◌, subst,
}
use claude_code_codex_review.Transport.Fetched.{UnverifiedComment}
use claude_code_codex_review.Identity.Errors.{Checked, raise, ◌>>=◌}
use claude_code_codex_review.Identity.Allowlist.{ProducerAllowlist}
use claude_code_codex_review.Identity.Chain.{
  KnownRecord, ChainCheckpoint, Probe, ChainVerification, Step, dedupe, probed, observe,
  observe_all, probe_of, comment_of, is_missing, check_known, ProbeOutcome, check_body,
}
use claude_code_codex_review.Identity.Chain.Stages.{check_all_known}
use claude_code_codex_review.Identity.Chain.Verification.{
  known_of, high_water_of, unprobed, tampered, verified_from, verify_pool, verify_record_chain,
}

-- The known record was fetched, or its probe found it missing.
abbrev pub Accounted : List UnverifiedComment → List Probe → KnownRecord → Type 0
Accounted pool probes k =
    (is_missing (probe_of k.comment_id probes) ≡ true)
    ⊎ (is_some (comment_of k.comment_id pool) ≡ true)

abbrev NotRaised {ℓ} : {A : Type ℓ} → Checked A → Type 0
NotRaised (Checked.raised e) = ⊥
NotRaised _ = Unit

module _ (run_id detection_head : String) (pool : List UnverifiedComment)
    (probes : List Probe) where
  body-NotRaised :
      (k : KnownRecord) (o : Option UnverifiedComment)
      → NotRaised (check_body run_id detection_head k o)
  body-NotRaised k none = tt
  body-NotRaised k (some c) = tt

  known-NotRaised : (k : KnownRecord) → NotRaised (check_known run_id detection_head pool probes k)
  unfolding check_known
  known-NotRaised k = elim (Bool-cases (is_missing (probe_of k.comment_id probes))) [
    | inl e ↦ rw e tt
    | inr e ↦ rw e (body-NotRaised k (comment_of k.comment_id pool))
  ]

  all_known-NotRaised :
      (ks : List KnownRecord) → NotRaised (check_all_known run_id detection_head pool probes ks)
  unfolding check_all_known
  all_known-NotRaised [] = tt
  all_known-NotRaised (k ∷ ks) =
      go (check_known run_id detection_head pool probes k)
        (check_all_known run_id detection_head pool probes ks) (known-NotRaised k)
        (all_known-NotRaised ks)
    where
      go :
          (r : Checked (Step KnownRecord)) (rest : Checked (List (Step KnownRecord)))
          → NotRaised r
          → NotRaised rest
          → NotRaised (r >>= (λ s. rest >>= (λ ss. Checked.made (s ∷ ss))))
      go (Checked.made s) (Checked.made ss) a b = tt
      go (Checked.made s) (Checked.raised e) a b = b
      go (Checked.made s) (Checked.key_error k) a b = tt
      go (Checked.raised e) rest a b = a
      go (Checked.key_error k) rest a b = tt

  body_made :
      (k : KnownRecord) (o : Option UnverifiedComment)
      → is_some o ≡ true
      → (s : Step KnownRecord) × (check_body run_id detection_head k o ≡ Checked.made s)
  body_made k none h = absurd (cc)
  body_made k (some c) h = (_, refl)

  known_made :
      (k : KnownRecord)
      → Accounted pool probes k
      → (s : Step KnownRecord) × (check_known run_id detection_head pool probes k ≡ Checked.made s)
  unfolding check_known
  known_made k h = elim (Bool-cases (is_missing (probe_of k.comment_id probes))) [
    | inl e ↦ rw e (_, refl)
    | inr e ↦ elim h [
      | inl m ↦ absurd (true-false (is_missing (probe_of k.comment_id probes)) m e)
      | inr c ↦ rw e (body_made k (comment_of k.comment_id pool) c)
    ]
  ]

  all_known_made :
      (ks : List KnownRecord)
      → All (Accounted pool probes) ks
      → (ss : List (Step KnownRecord)) × (check_all_known run_id detection_head pool probes ks
          ≡ Checked.made ss)
  unfolding check_all_known
  all_known_made [] h = ([], refl)
  all_known_made (k ∷ ks) h =
      let a = known_made k h.0 in let b = all_known_made ks h.1 in (a.0 ∷ b.0, rw (a.1, b.1) refl)

  none_unprobed :
      (ks : List KnownRecord)
      → All (Accounted pool probes) ks
      → any (unprobed pool probes) ks ≡ false
  unfolding any
  none_unprobed [] h = refl
  none_unprobed (k ∷ ks) h = rw (none_unprobed ks h.1) (one k h.0)
    where
      missing_some : (o : Option ProbeOutcome) → is_missing o ≡ true → is_none o ≡ false
      missing_some none m = absurd (cc)
      missing_some (some p) m = refl

      found_some : (o : Option UnverifiedComment) → is_some o ≡ true → is_none o ≡ false
      found_some none m = absurd (cc)
      found_some (some c) m = refl

      one : (j : KnownRecord) → Accounted pool probes j → (unprobed pool probes j || false) ≡ false
      one j (inl m) = let e = missing_some (probe_of j.comment_id probes) m in ground arith
      one j (inr c) = let e = found_some (comment_of j.comment_id pool) c in ground arith

-- No comment that was fetched or that a probe found has the record's identifier, and no probe asked
-- for it.
abbrev pub unseen : List UnverifiedComment → List Probe → KnownRecord → Bool
unseen comments probes k =
    all (λ (c : UnverifiedComment). not (c.comment_id == k.comment_id)) (comments ++ probed probes)
    && all (λ (p : Probe). not (p.comment_id == k.comment_id)) probes

comment_of-observe :
    (i : String) (pool : List UnverifiedComment) (c : UnverifiedComment)
    → is_none (comment_of i (observe pool c))
      ≡ (is_none (comment_of i pool) && not (c.comment_id == i))
unfolding comment_of observe
comment_of-observe i [] c = ground arith
comment_of-observe i (x ∷ xs) c =
    let rest = comment_of-observe i xs c in
    let same : x.comment_id == c.comment_id ≡ true → x.comment_id == i ≡ (c.comment_id == i) =
      λ e. ap (λ j. j == i) ((string_eq.beq_iff x.comment_id c.comment_id).0 e) in
    ground arith

comment_of-observe_all :
    (i : String) (cs pool : List UnverifiedComment)
    → is_none (comment_of i (observe_all pool cs))
      ≡ (is_none (comment_of i pool) && all (λ (c : UnverifiedComment). not (c.comment_id == i)) cs)
unfolding observe_all all
comment_of-observe_all i [] pool = ground arith
comment_of-observe_all i (c ∷ cs) pool =
    comment_of-observe_all i cs (observe pool c) ∙ ground (arith, comment_of-observe i pool c)

probe_of_none :
    (i : String) (probes : List Probe)
    → is_none (probe_of i probes) ≡ all (λ (p : Probe). not (p.comment_id == i)) probes
unfolding probe_of all
probe_of_none i [] = refl
probe_of_none i (p ∷ ps) = let rest = probe_of_none i ps in ground arith

unprobed-unseen :
    (comments : List UnverifiedComment) (probes : List Probe) (ks : List KnownRecord)
    → any (unprobed (dedupe comments probes) probes) ks ≡ any (unseen comments probes) ks
unfolding dedupe any comment_of
unprobed-unseen comments probes [] = refl
unprobed-unseen comments probes (k ∷ ks) =
    rw
      (
        comment_of-observe_all k.comment_id (comments ++ probed probes) [],
        probe_of_none k.comment_id probes,
        unprobed-unseen comments probes ks,
      )
      refl

module _ (run_id detection_head : String) (producers : ProducerAllowlist)
    (comments : List UnverifiedComment) (checkpoint : Option ChainCheckpoint)
    (probes : List Probe) where
  raises_lem :
      (verify_record_chain run_id detection_head producers comments checkpoint probes
        ≡ raise "probe")
      ↔ (any (unprobed (dedupe comments probes) probes) (known_of checkpoint) ≡ true)
  unfolding verify_record_chain verify_pool
  raises_lem =
      elim (Bool-cases (any (unprobed (dedupe comments probes) probes) (known_of checkpoint))) [
        | inl e ↦ rw e (λ h. refl, λ h. refl)
        | inr e ↦ rw e (
          λ h. absurd (
              not_raised
                (check_all_known run_id detection_head (dedupe comments probes) probes
                  (known_of checkpoint))
                (all_known-NotRaised run_id detection_head (dedupe comments probes) probes
                  (known_of checkpoint))
                h),
          λ h. absurd (cc),
        )
      ]
    where
      not_raised :
          (r : Checked (List (Step KnownRecord)))
          → NotRaised r
          → (r >>= (λ steps. Checked.made (
              verified_from run_id detection_head producers
                (dedupe comments probes)
                (high_water_of checkpoint)
                steps
                (tampered (dedupe comments probes) probes (known_of checkpoint)))))
            ≡ raise "probe"
          → ⊥
      not_raised (Checked.made s) n h = cc
      not_raised (Checked.raised e) n h = n
      not_raised (Checked.key_error k) n h = cc

  -- The verification raises an IdentityError exactly if there is a record that the checkpoint knows
  -- whose identifier no probe asked for and no comment has, of those that were fetched or that a
  -- probe found.
  pub verify_record_chain-raises :
      (verify_record_chain run_id detection_head producers comments checkpoint probes
        ≡ raise "probe")
      ↔ (any (unseen comments probes) (known_of checkpoint) ≡ true)
  verify_record_chain-raises =
      subst
        (λ b.
          (verify_record_chain run_id detection_head producers comments checkpoint probes
            ≡ raise "probe")
          ↔ (b ≡ true))
        (unprobed-unseen comments probes (known_of checkpoint)) raises_lem

  -- If every record that the checkpoint knows was fetched or found missing, there is a verification,
  -- whatever the comments are.
  pub verify_record_chain-made :
      All (Accounted (dedupe comments probes) probes) (known_of checkpoint)
      → (v : ChainVerification) × (verify_record_chain run_id detection_head producers comments
            checkpoint probes
          ≡ Checked.made v)
  unfolding verify_record_chain verify_pool
  verify_record_chain-made h =
      let a =
        all_known_made run_id detection_head (dedupe comments probes) probes (known_of checkpoint)
          h in
      let b =
        none_unprobed run_id detection_head (dedupe comments probes) probes (known_of checkpoint)
          h in
      (
        verified_from run_id detection_head producers (dedupe comments probes)
            (high_water_of checkpoint) a.0
            (tampered (dedupe comments probes) probes (known_of checkpoint)),
        rw (b, a.1) refl,
      )

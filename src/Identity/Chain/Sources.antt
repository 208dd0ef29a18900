-- ===== src/Identity/Chain/Sources.antt =====
-- identity/record_chain.py: where the candidates come from, through the stages of the verification.
use claude_code_codex_review.Prelude.{
  String, true, Option, none, some, List, [], ◌∷◌, map, ◌≡◌, refl, sym, ap, subst, all, All, elem,
  Bool-cases, inl, inr, ◌⊎◌, string_eq, ◌==◌,
}
use claude_code_codex_review.Prelude.Order.{ltb}
use claude_code_codex_review.Schema.Reading.{Reading}
use claude_code_codex_review.Transport.Fetched.{UnverifiedComment}
use claude_code_codex_review.Identity.Actor.{user_login}
use claude_code_codex_review.Identity.Allowlist.{ProducerAllowlist}
use claude_code_codex_review.Identity.Decision.{has_token}
use claude_code_codex_review.Identity.Marker.{ChainPayload, parse_record_marker}
use claude_code_codex_review.Identity.Chain.{
  Candidate, Step, faults, passes, check_actor, check_marker, classify_comment, check_edited,
}
use claude_code_codex_review.Identity.Chain.Stages.{
  Group, choose, same_signature, by_number, insert_seq, seq_of,
}
use claude_code_codex_review.Identity.Chain.Groups.{Held, earliest-Held, group_numbers}

-- The value stands in the list.
abbrev pub In : UnverifiedComment → List UnverifiedComment → Type 0
In a [] = ⊥
In a (x ∷ xs) = (a ≡ x) ⊎ In a xs

-- What a candidate was read from: a comment of the pool, with a marker in canonical form that names
-- this run, by a user of the list of producers.
pub record Sourced (run_id : String) (producers : ProducerAllowlist) (pool : List UnverifiedComment)
    (c : Candidate) : Type 0 where
  pub fetched : In c.comment pool
  pub parsed : parse_record_marker c.comment ≡ Reading.read c.payload
  pub of_run : c.payload.run ≡ run_id
  pub author : user_login c.comment.author_login ≡ some c.author_login
  pub producer : elem c.author_login producers.logins ≡ true

step_inj : {a b : Candidate} → ◌≡◌ {A = Step Candidate} (Step.passed a) (Step.passed b) → a ≡ b
step_inj p = cc

module _ (run_id detection_head : String) (producers : ProducerAllowlist) where
  by_actor :
      (x : UnverifiedComment) (p : ChainPayload) (c : Candidate)
      → parse_record_marker x ≡ Reading.read p
      → (p.run == run_id) ≡ true
      → (l : Option String) → user_login x.author_login ≡ l
      → check_actor run_id detection_head producers x p l ≡ Step.passed c
      → Sourced run_id producers (x ∷ []) c
  by_actor x p c q r none e h = absurd (cc)
  by_actor x p c q r (some login) e h = elim (Bool-cases (elem login producers.logins)) [
    | inl m ↦ subst (Sourced run_id producers (x ∷ [])) (step_inj (rw m at h)) (record {
      fetched = inl refl;
      parsed = q;
      of_run = (string_eq.beq_iff p.run run_id).0 r;
      author = e;
      producer = m;
    })
    | inr m ↦ absurd (cc (rw m at h))
  ]

  by_marker :
      (x : UnverifiedComment) (c : Candidate) (r : Reading ChainPayload)
      → parse_record_marker x ≡ r
      → check_marker run_id detection_head producers x r ≡ Step.passed c
      → Sourced run_id producers (x ∷ []) c
  by_marker x c (Reading.refused why) q h = absurd (cc)
  by_marker x c (Reading.read p) q h = elim (Bool-cases (p.run == run_id)) [
    | inl e ↦ by_actor x p c q e (user_login x.author_login) refl (rw e at h)
    | inr e ↦ absurd (cc (rw e at h))
  ]

  passed_lem :
      (x : UnverifiedComment) (c : Candidate)
      → classify_comment run_id detection_head producers x ≡ Step.passed c
      → Sourced run_id producers (x ∷ []) c
  unfolding classify_comment
  passed_lem x c h = elim (Bool-cases (has_token x.body)) [
    | inl e ↦ by_marker x c (parse_record_marker x) refl (rw e at h)
    | inr e ↦ absurd (cc (rw e at h))
  ]

  widen :
      (x : UnverifiedComment) (pool : List UnverifiedComment) (c : Candidate)
      → In x pool
      → Sourced run_id producers (x ∷ []) c
      → Sourced run_id producers pool c
  widen x pool c m s = record {
    fetched = elim s.fetched [ inl e ↦ subst (λ y. In y pool) (sym e) m | inr n ↦ absurd n ];
    parsed = s.parsed;
    of_run = s.of_run;
    author = s.author;
    producer = s.producer;
  }

  pub classified-Sourced :
      (pool cs : List UnverifiedComment)
      → ((x : UnverifiedComment) → In x cs → In x pool)
      → All
          (Sourced run_id producers pool)
          (passes (map (classify_comment run_id detection_head producers) cs))
  unfolding passes
  classified-Sourced pool [] within = tt
  classified-Sourced pool (x ∷ xs) within =
      go (classify_comment run_id detection_head producers x)
        (λ c e. widen x pool c (within x (inl refl)) (passed_lem x c e))
        (classified-Sourced pool xs (λ y m. within y (inr m)))
    where
      go :
          (s : Step Candidate)
          → ((c : Candidate) → s ≡ Step.passed c → Sourced run_id producers pool c)
          → All
              (Sourced run_id producers pool)
              (passes (map (classify_comment run_id detection_head producers) xs))
          → All
              (Sourced run_id producers pool)
              (passes (s ∷ map (classify_comment run_id detection_head producers) xs))
      go Step.skipped f h = h
      go (Step.fault v) f h = h
      go (Step.passed c) f h = (f c refl, h)

  -- The stages after the grouping, for a property that the candidates of the pool have.
  module _ (P : Candidate → Type 0) where
    pub chosen-All :
        (gs : List Group) → All (Held P) gs → All P (passes (map (choose run_id detection_head) gs))
    unfolding passes choose
    chosen-All [] h = tt
    chosen-All (g ∷ gs) h = elim (Bool-cases (all (same_signature g.first) g.others)) [
      | inl e ↦ rw e (
        (earliest-Held P (λ c. P c × (seq_of c ≡ g.seq)) g.first g.others h.0).0,
        chosen-All gs h.1,
      )
      | inr e ↦ rw e (chosen-All gs h.1)
    ]

    pub edits-All :
        (cs : List Candidate)
        → All P cs
        → All
            (λ (c : Candidate). P c × (c.comment.updated_at ≡ c.comment.created_at))
            (passes (map (check_edited run_id detection_head) cs))
    unfolding passes check_edited
    edits-All [] h = tt
    edits-All (c ∷ cs) h = elim (Bool-cases (c.comment.updated_at == c.comment.created_at)) [
      | inl e ↦ rw e (
        (h.0, (string_eq.beq_iff c.comment.updated_at c.comment.created_at).0 e),
        edits-All cs h.1,
      )
      | inr e ↦ rw e (edits-All cs h.1)
    ]

    insert-All : (c : Candidate) (cs : List Candidate) → P c → All P cs → All P (insert_seq c cs)
    unfolding insert_seq
    insert-All c [] p h = (p, tt)
    insert-All c (d ∷ ds) p h = elim (Bool-cases (ltb (seq_of c) (seq_of d))) [
      | inl e ↦ rw e (p, h)
      | inr e ↦ rw e (h.0, insert-All c ds p h.1)
    ]

    pub by_number-All : (cs : List Candidate) → All P cs → All P (by_number cs)
    unfolding by_number
    by_number-All [] h = tt
    by_number-All (c ∷ cs) h = insert-All c (by_number cs) h.0 (by_number-All cs h.1)

  -- Where no two candidates of a number disagree, one is chosen for each number.
  pub chosen-numbers :
      (P : Candidate → Type 0) (gs : List Group)
      → All (Held P) gs
      → faults (map (choose run_id detection_head) gs) ≡ []
      → map seq_of (passes (map (choose run_id detection_head) gs)) ≡ group_numbers gs
  unfolding passes faults choose
  chosen-numbers P [] h f = refl
  chosen-numbers P (g ∷ gs) h f = elim (Bool-cases (all (same_signature g.first) g.others)) [
    | inl e ↦ rw e (
        cc (
          (earliest-Held P (λ c. P c × (seq_of c ≡ g.seq)) g.first g.others h.0).1,
          chosen-numbers P gs h.1 (rw e at f),
        ))
    | inr e ↦ absurd (cc (rw e at f))
  ]

  pub edits-kept :
      (cs : List Candidate)
      → faults (map (check_edited run_id detection_head) cs) ≡ []
      → passes (map (check_edited run_id detection_head) cs) ≡ cs
  unfolding passes faults check_edited
  edits-kept [] f = refl
  edits-kept (c ∷ cs) f = elim (Bool-cases (c.comment.updated_at == c.comment.created_at)) [
    | inl e ↦ rw e (ap (λ t. c ∷ t) (edits-kept cs (rw e at f)))
    | inr e ↦ absurd (cc (rw e at f))
  ]

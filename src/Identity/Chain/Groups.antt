-- ===== src/Identity/Chain/Groups.antt =====
-- identity/record_chain.py: the candidates of a run by their numbers.
use claude_code_codex_review.Prelude.{
  ℕ, List, [], ◌∷◌, map, ◌≡◌, refl, sym, ◌∙◌, arith, nat_beq, nat_beq_iff, any, All, All-append,
  ◌||◌, Bool-cases, inl, inr,
}
use claude_code_codex_review.Identity.Chain.Stages.{
  Group, add_member, group_from, earliest, earlier, seq_of,
}
use claude_code_codex_review.Identity.Chain.{Candidate}
use claude_code_codex_review.Identity.Chain.Numbers.{Distinct}

abbrev pub group_numbers : List Group → List ℕ
group_numbers gs = map (λ (g : Group). g.seq) gs

module _ (P : Candidate → Type 0) where
  -- What holds of every member of a group, and the number that they share.
  abbrev pub Held : Group → Type 0
  Held g = All (λ (c : Candidate). P c × (seq_of c ≡ g.seq)) (g.first ∷ g.others)

  add_member-Held :
      (gs : List Group) (c : Candidate) → P c → All Held gs → All Held (add_member gs c)
  unfolding add_member
  add_member-Held [] c p h = (((p, refl), tt), tt)
  add_member-Held (g ∷ gs) c p h = elim (Bool-cases (nat_beq g.seq (seq_of c))) [
    | inl e ↦ rw e (
      (
        h.0.0,
        All-append (λ (x : Candidate). P x × (seq_of x ≡ g.seq)) g.others (c ∷ []) h.0.1
            ((p, sym ((nat_beq_iff g.seq (seq_of c)).0 e)), tt),
      ),
      h.1,
    )
    | inr e ↦ rw e (h.0, add_member-Held gs c p h.1)
  ]

  pub group_from-Held :
      (gs : List Group) (cs : List Candidate) → All P cs → All Held gs → All Held (group_from gs cs)
  unfolding group_from
  group_from-Held gs [] p h = h
  group_from-Held gs (c ∷ cs) p h =
      group_from-Held (add_member gs c) cs p.1 (add_member-Held gs c p.0 h)

  pub earliest-Held :
      (Q : Candidate → Type 0) (c : Candidate) (cs : List Candidate)
      → All Q (c ∷ cs)
      → Q (earliest c cs)
  unfolding earliest
  earliest-Held Q c [] h = h.0
  earliest-Held Q c (d ∷ ds) h = elim (Bool-cases (earlier d.comment c.comment)) [
    | inl e ↦ rw e (earliest-Held Q d ds h.1)
    | inr e ↦ rw e (earliest-Held Q c ds (h.0, h.1.1))
  ]

Among-add :
    (n : ℕ) (gs : List Group) (c : Candidate)
    → any (nat_beq n) (group_numbers (add_member gs c))
      ≡ (any (nat_beq n) (group_numbers gs) || nat_beq n (seq_of c))
unfolding any add_member
Among-add n [] c = ground arith
Among-add n (g ∷ gs) c = elim (Bool-cases (nat_beq g.seq (seq_of c))) [
  | inl e ↦ let q = (nat_beq_iff g.seq (seq_of c)).0 e in rw (e, sym q) (ground arith)
  | inr e ↦ rw e (ground (arith, Among-add n gs c))
]

add_member-Distinct :
    (gs : List Group) (c : Candidate)
    → Distinct (group_numbers gs)
    → Distinct (group_numbers (add_member gs c))
unfolding add_member any
add_member-Distinct [] c d = (refl, tt)
add_member-Distinct (g ∷ gs) c d = elim (Bool-cases (nat_beq g.seq (seq_of c))) [
  | inl e ↦ rw e d
  | inr e ↦ rw e (Among-add g.seq gs c ∙ rw (d.0, e) refl, add_member-Distinct gs c d.1)
]

pub group_from-Distinct :
    (gs : List Group) (cs : List Candidate)
    → Distinct (group_numbers gs)
    → Distinct (group_numbers (group_from gs cs))
unfolding group_from
group_from-Distinct gs [] d = d
group_from-Distinct gs (c ∷ cs) d =
    group_from-Distinct (add_member gs c) cs (add_member-Distinct gs c d)

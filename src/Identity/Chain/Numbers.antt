-- ===== src/Identity/Chain/Numbers.antt =====
-- identity/record_chain.py: sequence numbers, in ascending order and without a gap.
use Prim.Native.Nat.{zero, suc, ◌+◌, ◌≤◌, ◌<◌}
use claude_code_codex_review.Prelude.{
  ℕ, true, false, List, [], ◌∷◌, map, ◌≡◌, refl, sym, ap, subst, ◌∙◌, arith, nat_beq, nat_beq_iff,
  any, All, ◌||◌, Bool-cases, inl, inr, ||-true,
}
use claude_code_codex_review.Prelude.Order.{ltb}
use claude_code_codex_review.Identity.Chain.Stages.{
  range_from, maximum, larger, insert_seq, by_number, seq_of,
}
use claude_code_codex_review.Identity.Chain.{Candidate}

abbrev pub Among : ℕ → List ℕ → Type 0
Among n ns = any (nat_beq n) ns ≡ true

abbrev pub Rising : List ℕ → Type 0
Rising [] = Unit
Rising (n ∷ ns) = All (λ m. n < m) ns × Rising ns

Among-All : (P : ℕ → Type 0) (n : ℕ) (ns : List ℕ) → All P ns → Among n ns → P n
unfolding any
Among-All P n [] h m = absurd (cc)
Among-All P n (k ∷ ks) h m = elim (||-true (nat_beq n k) (any (nat_beq n) ks) m) [
  | inl e ↦ subst P (sym ((nat_beq_iff n k).0 e)) h.0
  | inr e ↦ Among-All P n ks h.1 e
]

nothing : (lo : ℕ) (ns : List ℕ) → All (λ n. (lo ≤ n) × (n < lo)) ns → ns ≡ []
nothing lo [] h = refl
nothing lo (n ∷ ns) h = absurd (omega (arith, h.0.0, h.0.1))

tail_bounds :
    (lo hi : ℕ) (ns : List ℕ)
    → All (λ m. lo < m) ns
    → All (λ n. (lo ≤ n) × (n < hi)) ns
    → All (λ n. (suc lo ≤ n) × (n < hi)) ns
tail_bounds lo hi [] a b = tt
tail_bounds lo hi (n ∷ ns) a b = ((omega (arith, a.0), b.0.1), tail_bounds lo hi ns a.1 b.1)

Among-tail : (n k : ℕ) (ns : List ℕ) → k < n → Among n (k ∷ ns) → Among n ns
unfolding any
Among-tail n k ns h m = elim (||-true (nat_beq n k) (any (nat_beq n) ns) m) [
  | inl e ↦ let p = (nat_beq_iff n k).0 e in absurd (omega arith)
  | inr e ↦ e
]

first_is : (lo n : ℕ) (ns : List ℕ) → All (λ m. n < m) ns → lo ≤ n → Among lo (n ∷ ns) → n ≡ lo
unfolding any
first_is lo n ns a h m = elim (||-true (nat_beq lo n) (any (nat_beq lo) ns) m) [
  | inl e ↦ sym ((nat_beq_iff lo n).0 e)
  | inr e ↦ let p : n < lo = Among-All (λ m. n < m) lo ns a e in absurd (omega arith)
]

empty-Among : (n : ℕ) → Among n [] → ⊥
unfolding any
empty-Among n m = cc

-- A rising list between two bounds that has every number between them is the range.
pub Rising-range :
    (k lo hi : ℕ) (ns : List ℕ)
    → hi ≡ lo + k
    → Rising ns
    → All (λ n. (lo ≤ n) × (n < hi)) ns
    → ((n : ℕ) → lo ≤ n → n < hi → Among n ns)
    → ns ≡ range_from lo k
unfolding range_from
Rising-range zero lo hi ns e r b f =
    nothing lo ns (subst (λ x. All (λ n. (lo ≤ n) × (n < x)) ns) (omega arith) b)
Rising-range (suc k) lo hi [] e r b f = absurd (empty-Among lo (f lo (omega arith) (omega arith)))
Rising-range (suc k) lo hi (n ∷ ns) e r b f =
    let p = first_is lo n ns r.0 b.0.0 (f lo (omega arith) (omega arith)) in
    let ih =
      Rising-range k (suc lo) hi ns (omega arith) r.1
        (tail_bounds lo hi ns (subst (λ x. All (λ m. x < m) ns) p r.0) b.1)
        (λ m h l. Among-tail m n ns (omega arith) (f m (omega arith) l)) in
    ap (λ x. x ∷ ns) p ∙ ap (λ t. lo ∷ t) ih

-- Sorting candidates with different numbers makes their numbers rise, and keeps which there are.
abbrev pub numbers : List Candidate → List ℕ
numbers cs = map seq_of cs

Among-insert :
    (n : ℕ) (c : Candidate) (cs : List Candidate)
    → any (nat_beq n) (numbers (insert_seq c cs)) ≡ any (nat_beq n) (seq_of c ∷ numbers cs)
unfolding any insert_seq
Among-insert n c [] = refl
Among-insert n c (d ∷ ds) = ground (arith, Among-insert n c ds)

pub Among-by_number :
    (n : ℕ) (cs : List Candidate)
    → any (nat_beq n) (numbers (by_number cs)) ≡ any (nat_beq n) (numbers cs)
unfolding any by_number
Among-by_number n [] = refl
Among-by_number n (c ∷ cs) =
    Among-insert n c (by_number cs) ∙ ap (λ b. nat_beq n (seq_of c) || b) (Among-by_number n cs)

All-insert :
    (P : ℕ → Type 0) (c : Candidate) (cs : List Candidate)
    → P (seq_of c)
    → All P (numbers cs)
    → All P (numbers (insert_seq c cs))
unfolding insert_seq
All-insert P c [] p h = (p, tt)
All-insert P c (d ∷ ds) p h = elim (Bool-cases (ltb (seq_of c) (seq_of d))) [
  | inl e ↦ rw e (p, h)
  | inr e ↦ rw e (h.0, All-insert P c ds p h.1)
]

above_all : (m n : ℕ) (ns : List ℕ) → m < n → All (λ k. n < k) ns → All (λ k. m < k) ns
above_all m n [] h a = tt
above_all m n (k ∷ ks) h a = (omega (arith, a.0), above_all m n ks h a.1)

Rising-insert :
    (c : Candidate) (cs : List Candidate)
    → Rising (numbers cs)
    → any (nat_beq (seq_of c)) (numbers cs) ≡ false
    → Rising (numbers (insert_seq c cs))
unfolding insert_seq any
Rising-insert c [] r n = (tt, tt)
Rising-insert c (d ∷ ds) r n = elim (Bool-cases (ltb (seq_of c) (seq_of d))) [
  | inl e ↦
      rw e ((ground arith, above_all (seq_of c) (seq_of d) (numbers ds) (ground arith) r.0), r)
  | inr e ↦
      let l : seq_of d < seq_of c = ground arith in
      let f : any (nat_beq (seq_of c)) (numbers ds) ≡ false = ground arith in
      rw e (All-insert (λ k. seq_of d < k) c ds l r.0, Rising-insert c ds r.1 f)
]

-- No number stands twice.
abbrev pub Distinct : List ℕ → Type 0
Distinct [] = Unit
Distinct (n ∷ ns) = (any (nat_beq n) ns ≡ false) × Distinct ns

pub by_number-Rising :
    (cs : List Candidate) → Distinct (numbers cs) → Rising (numbers (by_number cs))
unfolding by_number
by_number-Rising [] d = tt
by_number-Rising (c ∷ cs) d =
    Rising-insert c (by_number cs) (by_number-Rising cs d.1) (Among-by_number (seq_of c) cs ∙ d.0)

-- Every number is at most the maximum.
pub maximum-bounds : (ns : List ℕ) → All (λ n. n ≤ maximum ns) ns
unfolding maximum
maximum-bounds [] = tt
maximum-bounds (n ∷ ns) = (
  ground arith,
  raise_bounds (maximum ns) (larger n (maximum ns)) ns (ground arith) (maximum-bounds ns),
)
  where
    raise_bounds : (a b : ℕ) (ks : List ℕ) → a ≤ b → All (λ k. k ≤ a) ks → All (λ k. k ≤ b) ks
    raise_bounds a b [] h p = tt
    raise_bounds a b (k ∷ ks) h p = (omega (arith, p.0), raise_bounds a b ks h p.1)

-- ===== src/Domain/Safety/Violations.antt =====
-- domain/values.py: sequences of violations, their canonical form, and the blocks made of them.
use claude_code_codex_review.Prelude.Sort.{has}
use claude_code_codex_review.Prelude.Sort.Laws.{Ascending}
use claude_code_codex_review.Prelude.Sort.Canonical.{
  canonicalize-fixed, canonicalize-Ascending, has-canonicalize, map-Ascending, sort-texts,
  collect-texts,
}
use claude_code_codex_review.Prelude.{
  List, [], ◌∷◌, ◌++◌, map, true, false, ◌==◌, ◌≡◌, refl, sym, ◌∙◌, arith, elem, is_empty, list_eq,
  string_eq, Bool-cases, inl, inr, subst, ◌||◌, ==-refl, length, nat_beq_iff, String,
}
use claude_code_codex_review.Domain.Errors.{ok}
use claude_code_codex_review.Domain.Values.Opaque.{OpaqueBinding, binding_eq}
use claude_code_codex_review.Domain.Values.Records.{IntegrityEvidenceRef}
use claude_code_codex_review.Domain.Values.Blocks.{
  Procedure, RecordIntegrityBlock, binding_text, bindings_of, make_integrity_block, make_halting,
  out_of_order,
}
use claude_code_codex_review.Domain.Values.Integrity.{canonicalize_integrity, evidence_eq}
use claude_code_codex_review.Domain.Values.Machine.{MachineState, check_canonical_deferred}
use claude_code_codex_review.Domain.Validity.Shape.{Checks}

abbrev pub InOrder : List IntegrityEvidenceRef → Type 0
InOrder = Ascending binding_text

pub canonical-InOrder : (refs : List IntegrityEvidenceRef) → InOrder (canonicalize_integrity refs)
unfolding canonicalize_integrity
canonical-InOrder refs = canonicalize-Ascending binding_text refs

pub InOrder-canonical :
    (refs : List IntegrityEvidenceRef) → InOrder refs → canonicalize_integrity refs ≡ refs
unfolding canonicalize_integrity
InOrder-canonical refs h = canonicalize-fixed binding_text refs h

-- The violations of a state that passes its checks are in order.
pub Checks-InOrder : (ms : MachineState) → Checks ms → InOrder ms.deferred_integrity
unfolding check_canonical_deferred
Checks-InOrder ms c = subst InOrder (sym e) (canonical-InOrder ms.deferred_integrity)
  where
    e : ms.deferred_integrity ≡ canonicalize_integrity ms.deferred_integrity
    e = elim (Bool-cases (ms.deferred_integrity == canonicalize_integrity ms.deferred_integrity)) [
      | inl h ↦
          (list_eq.beq_iff ms.deferred_integrity (canonicalize_integrity ms.deferred_integrity)).0 h
      | inr h ↦ let p = c.canonical_deferred in absurd (cc (rw h at p))
    ]

in_order_texts : (ks : List String) → Ascending (λ (s : String). s) ks → out_of_order ks ≡ false
in_order_texts ks h =
    rw (sort-texts ks h, collect-texts ks h)
      (rw ((list_eq.beq_iff ks ks).1 refl, (nat_beq_iff (length ks) (length ks)).1 refl))

-- Violations in order, at least one, make a block.
pub make_integrity_block-ok :
    (refs : List IntegrityEvidenceRef)
    → InOrder refs
    → is_empty refs ≡ false
    → make_integrity_block refs ≡ ok (record { violations = refs })
unfolding make_integrity_block
make_integrity_block-ok refs o e =
    rw (e, in_order_texts (map binding_text refs) (map-Ascending binding_text refs o))

pub has-bindings :
    (b : OpaqueBinding) (refs : List IntegrityEvidenceRef)
    → elem b (bindings_of refs) ≡ has binding_text b.value refs
unfolding elem has
has-bindings b [] = refl
has-bindings b (x ∷ xs) = ground (
  arith,
  has-bindings b xs,
  string_eq.beq_iff b.value x.binding.value,
  string_eq.beq_iff x.binding.value b.value,
)

-- A binding is among the canonical violations exactly when it was among the given ones.
pub elem-canonical :
    (b : OpaqueBinding) (refs : List IntegrityEvidenceRef)
    → elem b (bindings_of (canonicalize_integrity refs)) ≡ elem b (bindings_of refs)
unfolding canonicalize_integrity
elem-canonical b refs =
    has-bindings b (canonicalize_integrity refs)
    ∙ has-canonicalize binding_text b.value refs
    ∙ sym (has-bindings b refs)

-- Every binding that was there, and the new one, are in the union.
pub elem-union :
    (b : OpaqueBinding) (refs : List IntegrityEvidenceRef) (r : IntegrityEvidenceRef)
    → elem b (bindings_of (canonicalize_integrity (refs ++ r ∷ [])))
      ≡ (elem b (bindings_of refs) || b == r.binding)
unfolding elem has
elem-union b refs r = elem-canonical b (refs ++ r ∷ []) ∙ go refs
  where
    go :
        (xs : List IntegrityEvidenceRef)
        → elem b (bindings_of (xs ++ r ∷ [])) ≡ (elem b (bindings_of xs) || b == r.binding)
    go [] = ground arith
    go (x ∷ xs) = ground (arith, go xs)

pub union-nonempty :
    (refs : List IntegrityEvidenceRef) (r : IntegrityEvidenceRef)
    → is_empty (canonicalize_integrity (refs ++ r ∷ [])) ≡ false
unfolding elem
union-nonempty refs r =
    go (canonicalize_integrity (refs ++ r ∷ []))
      (elem-union r.binding refs r ∙ ground (arith, ==-refl r.binding))
  where
    go :
        (xs : List IntegrityEvidenceRef)
        → elem r.binding (bindings_of xs) ≡ true
        → is_empty xs ≡ false
    go [] h = cc
    go (x ∷ xs) h = refl

pub make_halting-ok :
    (block : RecordIntegrityBlock) (b : OpaqueBinding)
    → elem b (bindings_of block.violations) ≡ true
    → make_halting block b ≡ ok (Procedure.halting_for_block block b)
unfolding make_halting
make_halting-ok block b h = rw h

pub halting-elem :
    (block : RecordIntegrityBlock) (b : OpaqueBinding)
    → make_halting block b ≡ ok (Procedure.halting_for_block block b)
    → elem b (bindings_of block.violations) ≡ true
unfolding make_halting
halting-elem block b h = elim (Bool-cases (elem b (bindings_of block.violations))) [
  | inl e ↦ e
  | inr e ↦ absurd (cc (rw e at h))
]

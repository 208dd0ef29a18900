-- ===== src/Domain/Values/Integrity.antt =====
-- domain/values.py: `canonicalize_integrity`, and equality of the evidence of two violations.
use claude_code_codex_review.Prelude.Sort.Canonical.{canonicalize}
use claude_code_codex_review.Prelude.{List, ◌≡◌, ◌↔◌, true, Bool, ◌&&◌, Eq, ◌==◌, &&-true, &&-intro}
use claude_code_codex_review.Domain.Values.Opaque.{binding_eq, ref_eq}
use claude_code_codex_review.Domain.Values.Records.{IntegrityEvidenceRef}
use claude_code_codex_review.Domain.Values.Blocks.{binding_text}

unfoldable pub canonicalize_integrity : List IntegrityEvidenceRef → List IntegrityEvidenceRef
canonicalize_integrity refs = canonicalize binding_text refs

abbrev pub evidence_beq : IntegrityEvidenceRef → IntegrityEvidenceRef → Bool
evidence_beq a b = a.binding == b.binding && (a.descriptor == b.descriptor && a.head == b.head)

pub evidence_iff : (a b : IntegrityEvidenceRef) → (evidence_beq a b ≡ true) ↔ (a ≡ b)
evidence_iff a b = (
  λ h.
      let p =
        &&-true (a.binding == b.binding) (a.descriptor == b.descriptor && a.head == b.head) h in
      let q = &&-true (a.descriptor == b.descriptor) (a.head == b.head) p.1 in
      let x = (binding_eq.beq_iff a.binding b.binding).0 p.0 in
      let y = (ref_eq.beq_iff a.descriptor b.descriptor).0 q.0 in
      let z = (ref_eq.beq_iff a.head b.head).0 q.1 in
      λ i. record { binding = x i; descriptor = y i; head = z i },
  λ e.
      &&-intro (a.binding == b.binding) (a.descriptor == b.descriptor && a.head == b.head)
        ((binding_eq.beq_iff a.binding b.binding).1 (λ i. (e i).binding))
        (&&-intro (a.descriptor == b.descriptor) (a.head == b.head)
          ((ref_eq.beq_iff a.descriptor b.descriptor).1 (λ i. (e i).descriptor))
          ((ref_eq.beq_iff a.head b.head).1 (λ i. (e i).head))),
)

instance abbrev pub evidence_eq : Eq IntegrityEvidenceRef
evidence_eq = record { beq = evidence_beq; beq_iff = evidence_iff }

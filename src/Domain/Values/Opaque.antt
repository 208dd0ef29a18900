-- ===== src/Domain/Values/Opaque.antt =====
-- domain/values.py: values that other components number and verify. The domain only compares them.
use claude_code_codex_review.Prelude.{String, ◌≡◌, Eq, string_eq, wrapped_eq}

pub record OpaqueBinding : Type 0 where
  pub value : String

pub record OpaqueRef : Type 0 where
  pub value : String

pub record OpaqueSnapshot : Type 0 where
  pub value : String

pub record OpaqueFingerprint : Type 0 where
  pub value : String

pub binding_ext : (a b : OpaqueBinding) → a.value ≡ b.value → a ≡ b
binding_ext a b p = λ i. record { value = p i }

pub ref_ext : (a b : OpaqueRef) → a.value ≡ b.value → a ≡ b
ref_ext a b p = λ i. record { value = p i }

pub snapshot_ext : (a b : OpaqueSnapshot) → a.value ≡ b.value → a ≡ b
snapshot_ext a b p = λ i. record { value = p i }

pub fingerprint_ext : (a b : OpaqueFingerprint) → a.value ≡ b.value → a ≡ b
fingerprint_ext a b p = λ i. record { value = p i }

instance abbrev pub binding_eq : Eq OpaqueBinding
binding_eq = wrapped_eq (λ (b : OpaqueBinding). b.value) binding_ext

instance abbrev pub ref_eq : Eq OpaqueRef
ref_eq = wrapped_eq (λ (b : OpaqueRef). b.value) ref_ext

instance abbrev pub snapshot_eq : Eq OpaqueSnapshot
snapshot_eq = wrapped_eq (λ (b : OpaqueSnapshot). b.value) snapshot_ext

instance abbrev pub fingerprint_eq : Eq OpaqueFingerprint
fingerprint_eq = wrapped_eq (λ (b : OpaqueFingerprint). b.value) fingerprint_ext

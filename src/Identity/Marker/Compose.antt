-- ===== src/Identity/Marker/Compose.antt =====
-- identity/record_chain.py: `compose_record_marker_payload`, and what it checks.
use Prim.Native.String.{len}
use claude_code_codex_review.Prelude.{
  ℕ, String, Bool, true, false, not, ◌||◌, Option, none, some, ◌≡◌, refl, ap, zero, suc, arith,
  if◌then◌else◌, leb, nat_beq, any, elem, is_some, is_none, Bool-cases, inl, inr, string_eq, ◌==◌,
}
use claude_code_codex_review.Prelude.Text.{is_hex_of, is_blank}
use claude_code_codex_review.Domain.Values.Kinds.{RecordKind}
use claude_code_codex_review.Schema.Json.{ℤ, Json, Fields, get, keys}
use claude_code_codex_review.Schema.Kinds.{kind_value}
use claude_code_codex_review.Schema.Encoding.{dumps}
use claude_code_codex_review.Schema.Projection.{DecodedProjection}
use claude_code_codex_review.Schema.Reading.{Reading}
use claude_code_codex_review.Identity.Errors.{Checked, raise}
use claude_code_codex_review.Identity.Marker.{
  ChainPayload, structural_payload_keys, max_payload_bytes, audit_link_error, check_link, positive,
}

abbrev pub audit_json : Option ℕ → Option Json
audit_json none = none
audit_json (some n) = some (Json.integer (ℤ.pos n))

abbrev pub hash_json : Option String → Option Json
hash_json none = none
hash_json (some h) = some (Json.text h)

abbrev with_audit : Option ℕ → Fields → Fields
with_audit none rest = rest
with_audit (some n) rest = Fields.field "audit_prev" (Json.integer (ℤ.pos n)) rest

abbrev with_prev : Option String → Fields → Fields
with_prev none rest = rest
with_prev (some h) rest = Fields.field "prev" (Json.text h) rest

abbrev pub link_wrong : RecordKind → ℕ → Option String → Option ℕ → Bool
link_wrong kind seq prev none = not (if nat_beq seq 1 then is_none prev else is_some prev)
link_wrong kind seq prev (some n) =
    is_some (audit_link_error kind seq (some (Json.integer (ℤ.pos n))) (hash_json prev))

abbrev pub hash_wrong : Option String → Bool
hash_wrong none = false
hash_wrong (some h) = not (is_hex_of 64 h)

abbrev pub composed :
    String → RecordKind → String → String → ℕ → Option String → Fields → Option ℕ → Fields
composed key kind run head seq prev projection audit = Fields.field "key" (Json.text key) (
    Fields.field "kind" (Json.text (kind_value kind)) (
      Fields.field "run" (Json.text run) (
        Fields.field "head" (Json.text head) (
          Fields.field "seq" (Json.integer (ℤ.pos seq))
            (with_audit audit (with_prev prev projection))))))

-- Each of the checks raises an IdentityError of the stage `compose`.
unfoldable pub compose_record_marker_payload :
    String → RecordKind → String → String → ℕ → Option String → Fields → Option ℕ → Checked Fields
compose_record_marker_payload key kind run head seq prev projection audit =
    if is_blank key
      || is_blank run
      || is_blank head
      || nat_beq seq 0
      || link_wrong kind seq prev audit
      || hash_wrong prev
      || any (λ k. elem k structural_payload_keys) (keys projection)
      || not (
          leb (len (dumps (Json.object (composed key kind run head seq prev projection audit))))
            max_payload_bytes)
    then raise "compose"
    else Checked.made (composed key kind run head seq prev projection audit)

pub missing_key :
    (k : String) (fs : Fields)
    → elem k structural_payload_keys ≡ true
    → any (λ j. elem j structural_payload_keys) (keys fs) ≡ false
    → get k fs ≡ none
unfolding get keys any
missing_key k Fields.empty s h = refl
missing_key k (Fields.field l v r) s h = elim (Bool-cases (k == l)) [
  | inl e ↦
      let q = ap (λ j. elem j structural_payload_keys) ((string_eq.beq_iff k l).0 e) in
      absurd (ground arith)
  | inr e ↦
      let t : any (λ j. elem j structural_payload_keys) (keys r) ≡ false = ground arith in
      rw e (missing_key k r s t)
]

module _ (key : String) (kind : RecordKind) (run head : String) (seq : ℕ) (prev : Option String)
    (projection : Fields) (audit : Option ℕ) where
  pub checks_lem :
      (payload : Fields)
      → compose_record_marker_payload key kind run head seq prev projection audit
        ≡ Checked.made payload
      → (is_blank key ≡ false)
        × (is_blank run ≡ false)
        × (is_blank head ≡ false)
        × (nat_beq seq 0 ≡ false)
        × (link_wrong kind seq prev audit ≡ false)
        × (hash_wrong prev ≡ false)
        × (any (λ k. elem k structural_payload_keys) (keys projection) ≡ false)
        × (composed key kind run head seq prev projection audit ≡ payload)
  unfolding compose_record_marker_payload
  checks_lem payload h = (
    ground arith,
    ground arith,
    ground arith,
    ground arith,
    ground arith,
    ground arith,
    ground arith,
    ground arith,
  )

abbrev pub composed_marker :
    String
    → RecordKind
    → String
    → String
    → ℕ
    → Option String
    → Option ℕ
    → DecodedProjection
    → ChainPayload
composed_marker key kind run head seq prev audit decoded = record {
  key = key;
  kind = kind;
  run = run;
  head = head;
  seq = seq;
  prev = prev;
  projection = decoded;
  audit_prev = audit;
}

no_error : (o : Option String) → is_some o ≡ false → o ≡ none
no_error none h = refl
no_error (some s) h = absurd (cc)

audit_zero :
    (kind : RecordKind) (seq n : ℕ) (h : String)
    → audit_link_error kind seq (some (Json.integer (ℤ.pos n))) (some (Json.text h)) ≡ none
    → nat_beq n 0 ≡ false
unfolding audit_link_error
audit_zero kind seq n h e = ground arith

pub link_lem :
    (kind : RecordKind) (seq : ℕ) (prev : Option String) (audit : Option ℕ)
    → link_wrong kind seq prev audit ≡ false
    → hash_wrong prev ≡ false
    → check_link kind seq (audit_json audit) (hash_json prev) ≡ Reading.read true
unfolding check_link
link_lem kind seq none none l w = elim (Bool-cases (nat_beq seq 1)) [
  | inl e ↦ rw e refl
  | inr e ↦ absurd (cc (rw e at l))
]
link_lem kind seq (some h) none l w = elim (Bool-cases (nat_beq seq 1)) [
  | inl e ↦ absurd (cc (rw e at l))
  | inr e ↦ let q : is_hex_of 64 h ≡ true = ground arith in rw (e, q) refl
]
link_lem kind seq none (some n) l w =
    let e = no_error (audit_link_error kind seq (some (Json.integer (ℤ.pos n))) none) l in
    rw e (elim (Bool-cases (nat_beq n 0)) [ inl q ↦ rw q refl | inr q ↦ rw q refl ])
link_lem kind seq (some h) (some n) l w =
    let e =
      no_error (audit_link_error kind seq (some (Json.integer (ℤ.pos n))) (some (Json.text h))) l in
    rw (e, audit_zero kind seq n h e) refl

pub kind_value-text : (k : RecordKind) → is_blank (kind_value k) ≡ false
kind_value-text RecordKind.review_result = refl
kind_value-text _ = refl

pub seq_read : (n : ℕ) → nat_beq n 0 ≡ false → positive (some n) ≡ Reading.read n
seq_read zero z = absurd (cc)
seq_read (suc n) z = refl

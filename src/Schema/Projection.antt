-- ===== src/Schema/Projection.antt =====
-- schema/projection.py: the projection of a record's payload that its marker carries, and its codec.
use Prim.Native.String.{◌++◌ as append}
use claude_code_codex_review.Prelude.{
  ℕ, suc, String, Bool, true, false, not, Option, none, some, List, [], ◌∷◌, ◌++◌, map, ◌==◌,
  string_eq, elem, is_some, is_none, if◌then◌else◌, ◌&&◌, ◌||◌, keep,
}
use claude_code_codex_review.Prelude.Sort.{sort}
use claude_code_codex_review.Prelude.Text.{is_hex_of, is_blank}
use claude_code_codex_review.Domain.Values.Kinds.{RecordKind}
use claude_code_codex_review.Schema.Json.{ℤ, Json, Fields, keys}
use claude_code_codex_review.Schema.Reading.{Reading, ◌>>=◌}

abbrev pub projection_keys : List String
projection_keys = "res" ∷ "round" ∷ "turn" ∷ "fp" ∷ "sid" ∷ "tgt" ∷ "pay" ∷ "dig" ∷ "cnt" ∷ []

abbrev integer_keys : List String
integer_keys = "round" ∷ "turn" ∷ "cnt" ∷ []

pub record ProjectionField : Type 0 where
  pub key : String
  pub source : String
  pub required : Bool

pub record ProjectionSpec : Type 0 where
  pub fields : List ProjectionField
  pub digest_source : Option String
  pub head_source : Option String

pub record DecodedProjection : Type 0 where
  pub payload_hash : String
  pub result : Option String
  pub round : Option ℕ
  pub turn : Option ℕ
  pub fingerprint : Option String
  pub subject_id : Option String
  pub target : Option String
  pub digest : Option String
  pub count : Option ℕ

abbrev needs : String → String → ProjectionField
needs k s = record { key = k; source = s; required = true }

abbrev headed : List ProjectionField → String → ProjectionSpec
headed fs h = record { fields = fs; digest_source = none; head_source = some h }

-- `PROJECTION_SPECS`, by kind.
abbrev pub projection_spec : RecordKind → ProjectionSpec
projection_spec RecordKind.review_result =
    headed (needs "res" "verdict" ∷ needs "round" "round" ∷ []) "target_head_sha"
projection_spec RecordKind.fix_result = headed [] "pushed_head_sha"
projection_spec RecordKind.clarification_question =
    headed (needs "turn" "turn" ∷ needs "fp" "fingerprint" ∷ needs "tgt" "target_finding" ∷ [])
      "target_head_sha"
projection_spec RecordKind.clarification_answer =
    headed (needs "res" "result" ∷ needs "turn" "turn" ∷ needs "fp" "fingerprint" ∷ [])
      "target_head_sha"
projection_spec RecordKind.decision_verdict =
    headed
      (needs "res" "verdict"
        ∷ (record { key = "fp"; source = "fingerprint"; required = false })
        ∷ [])
      "target_head_sha"
projection_spec RecordKind.decision_brief =
    headed (needs "sid" "decision_id" ∷ []) "target_head_sha"
projection_spec RecordKind.decision_record =
    headed (needs "sid" "decision_id" ∷ needs "res" "verdict" ∷ []) "target_head_sha"
projection_spec RecordKind.permission_block =
    headed (needs "sid" "permission_id" ∷ []) "target_head_sha"
projection_spec RecordKind.final_report = headed [] "approved_head_sha"
projection_spec RecordKind.integrity_incident = record {
  fields = [];
  digest_source = some "violation_bindings";
  head_source = none;
}
projection_spec RecordKind.user_decision = headed (needs "sid" "decision_id" ∷ []) "target_head_sha"
projection_spec RecordKind.merge_approval =
    headed (needs "res" "merge_method" ∷ []) "approved_head_sha"
projection_spec RecordKind.block_intervention =
    headed (needs "tgt" "target_block_binding" ∷ []) "target_head_sha"
projection_spec _ = headed [] "target_head_sha"

-- `ProjectionSpec.keys`: the keys that a marker of this kind may have.
abbrev pub spec_keys : ProjectionSpec → List String
spec_keys s =
    map (λ (f : ProjectionField). f.key) s.fields
    ++ ("pay" ∷ (if is_some s.digest_source then "dig" ∷ "cnt" ∷ [] else []))

-- `result_vocabulary`: the enum of the field that `res` is taken from, in the kind's schema.
abbrev pub result_vocabulary : RecordKind → Option (List String)
result_vocabulary RecordKind.review_result = some ("APPROVED" ∷ "CHANGES_REQUESTED" ∷ [])
result_vocabulary RecordKind.clarification_answer = some (
    "CONFIRMED" ∷ "REVISED" ∷ "WITHDRAWN" ∷ "MORE_EVIDENCE_REQUIRED" ∷ "USER_DECISION_REQUIRED"
    ∷ [])
result_vocabulary RecordKind.decision_verdict =
    some ("ASK_USER" ∷ "PROCEED_WITH_RECORD" ∷ "REVISE_AND_RESUBMIT" ∷ [])
result_vocabulary RecordKind.decision_record =
    some ("ASK_USER" ∷ "PROCEED_WITH_RECORD" ∷ "REVISE_AND_RESUBMIT" ∷ [])
result_vocabulary RecordKind.merge_approval = some ("merge" ∷ "squash" ∷ "rebase" ∷ [])
result_vocabulary _ = none

-- A decoded value: a text, or an integer that is at least 1.
pub data Scalar : Type 0 where
  word : String → Scalar
  number : ℕ → Scalar

abbrev number_value : Json → Option Scalar
number_value (Json.integer (ℤ.pos (suc n))) = some (Scalar.number (suc n))
number_value _ = none

abbrev word_value : String → Json → Option Scalar
word_value k (Json.text s) =
    if is_blank s || ((k == "pay" || k == "dig") && not (is_hex_of 64 s))
    then none
    else some (Scalar.word s)
word_value k _ = none

unfoldable pub decoded_value : String → Json → Option Scalar
decoded_value k v = if elem k integer_keys then number_value v else word_value k v

pub record Entry : Type 0 where
  pub key : String
  pub value : Scalar

-- The entries of the payload under projection keys, each checked, in the payload's order.
unfoldable pub decoded : Fields → Reading (List Entry)
unfolding decoded_value
decoded Fields.empty = Reading.read []
decoded (Fields.field k v r) =
    let rest = decoded r in
    if elem k projection_keys
    then elim (decoded_value k v) [
      | none ↦ Reading.refused (append "projection key `" (append k "`の値が不正"))
      | some s ↦ (rest >>= (λ es. Reading.read ((record { key = k; value = s }) ∷ es)))
    ]
    else rest

abbrev lookup : String → List Entry → Option Scalar
lookup k [] = none
lookup k (e ∷ es) = let rest = lookup k es in if k == e.key then some e.value else rest

abbrev as_word : Option Scalar → Option String
as_word (some (Scalar.word s)) = some s
as_word _ = none

abbrev as_number : Option Scalar → Option ℕ
as_number (some (Scalar.number n)) = some n
as_number _ = none

abbrev first_missing : List ProjectionField → List Entry → Option String
first_missing [] es = none
first_missing (f ∷ fs) es =
    let rest = first_missing fs es in
    if f.required && is_none (lookup f.key es) then some f.key else rest

abbrev outside_vocabulary : Option (List String) → Option String → Bool
outside_vocabulary (some ws) (some r) = not (elem r ws)
outside_vocabulary _ _ = false

abbrev projection_of : String → List Entry → DecodedProjection
projection_of pay es = record {
  payload_hash = pay;
  result = as_word (lookup "res" es);
  round = as_number (lookup "round" es);
  turn = as_number (lookup "turn" es);
  fingerprint = as_word (lookup "fp" es);
  subject_id = as_word (lookup "sid" es);
  target = as_word (lookup "tgt" es);
  digest = as_word (lookup "dig" es);
  count = as_number (lookup "cnt" es);
}

-- The checks that follow the decoding of the entries, in the order of the source.
unfoldable pub check_entries : RecordKind → List Entry → Reading DecodedProjection
check_entries kind es =
    let spec = projection_spec kind in
    elim (as_word (lookup "pay" es)) [
      | none ↦ Reading.refused "projection key `pay`が無い"
      | some pay ↦ elim (first_missing spec.fields es) [
        | some k ↦ Reading.refused (append "このkindに必要なprojection key `" (append k "`が無い"))
        | none ↦
            if is_some spec.digest_source
              && (is_none (lookup "dig" es) || is_none (lookup "cnt" es))
            then Reading.refused "このkindに必要なprojection key `dig` / `cnt`が無い"
            else if outside_vocabulary (result_vocabulary kind) (as_word (lookup "res" es))
            then Reading.refused "projection key `res`の値が語彙に無い"
            else Reading.read (projection_of pay es)
      ]
    ]

abbrev unexpected_keys : RecordKind → Fields → List String
unexpected_keys kind payload =
    sort (λ (k : String). k)
      (keep (λ k. elem k projection_keys && not (elem k (spec_keys (projection_spec kind))))
        (keys payload))

unfoldable pub decode_record_projection : RecordKind → Fields → Reading DecodedProjection
unfolding decoded check_entries
decode_record_projection kind payload = elim (unexpected_keys kind payload) [
  | k ∷ ks ↦ Reading.refused (append "このkindが持たないprojection key: " k)
  | [] ↦ (decoded payload >>= check_entries kind)
]

-- ===== src/Identity/Marker.antt =====
-- identity/record_chain.py: the marker of a record, composed and parsed.
pub mod Attach
pub mod Compose
pub mod RoundTrip
pub mod Parsed
use Prim.Native.String.{◌++◌, len}
use claude_code_codex_review.Prelude.{suc}
use claude_code_codex_review.Prelude.{
  ℕ, String, Bool, true, false, not, ◌&&◌, ◌||◌, Option, none, some, List, [], ◌∷◌, if◌then◌else◌,
  leb, nat_beq, all, elem, is_some, is_none, ◌==◌, string_eq,
}
use claude_code_codex_review.Prelude.Order.{ltb}
use claude_code_codex_review.Prelude.Text.{is_hex_of, is_blank, ends_with, occurrences, upper}
use claude_code_codex_review.Domain.Values.Kinds.{RecordKind, record_kind_eq}
use claude_code_codex_review.Schema.Json.{ℤ, Json, Fields, get, keys}
use claude_code_codex_review.Schema.Reading.{Reading, ◌>>=◌}
use claude_code_codex_review.Schema.Kinds.{record_kind_of}
use claude_code_codex_review.Schema.Projection.{
  DecodedProjection, decode_record_projection, projection_keys,
}
use claude_code_codex_review.Schema.Encoding.{dumps}
use claude_code_codex_review.Transport.Fetched.{UnverifiedComment, ExtractedMarker}
use claude_code_codex_review.Identity.Decision.{marker_token}

abbrev pub structural_payload_keys : List String
structural_payload_keys = "key" ∷ "kind" ∷ "run" ∷ "head" ∷ "seq" ∷ "prev" ∷ "audit_prev" ∷ []

abbrev pub allowed_payload_key : String → Bool
allowed_payload_key k = elem k structural_payload_keys || elem k projection_keys

abbrev pub max_payload_bytes : ℕ
max_payload_bytes = 2048

pub record ChainPayload : Type 0 where
  pub key : String
  pub kind : RecordKind
  pub run : String
  pub head : String
  pub seq : ℕ
  pub prev : Option String
  pub projection : DecodedProjection
  pub audit_prev : Option ℕ

-- `value is None`, also for the null of JSON.
abbrev pub is_null : Option Json → Bool
is_null none = true
is_null (some Json.null) = true
is_null _ = false

abbrev pub is_hash : Option Json → Bool
is_hash (some (Json.text s)) = is_hex_of 64 s
is_hash _ = false

abbrev pub text_of : Option Json → Option String
text_of (some (Json.text s)) = some s
text_of _ = none

abbrev pub count_of : Option Json → Option ℕ
count_of (some (Json.integer (ℤ.pos n))) = some n
count_of _ = none

abbrev pub count_is : Option Json → ℕ → Bool
count_is (some (Json.integer (ℤ.pos n))) m = nat_beq n m
count_is _ m = false

-- The link of an incident: 0, where no verified record goes before it, or the number of one that does.
unfoldable pub audit_link_error : RecordKind → ℕ → Option Json → Option Json → Option String
audit_link_error kind seq anchor previous =
    if not (kind == RecordKind.integrity_incident)
    then some "audit_prevはINTEGRITY_INCIDENTに限る"
    else elim (count_of anchor) [
      | none ↦ some "audit_prevは0以上かつseq未満の整数でなければならない"
      | some n ↦
          if not (ltb n seq)
          then some "audit_prevは0以上かつseq未満の整数でなければならない"
          else if nat_beq n 0
          then if is_null previous then none else some "audit_prev=0はprevを持たない"
          else if is_hash previous
          then none
          else some "audit_prev>0はprevのSHA-256 hashを必要とする"
    ]

abbrev pub need : Bool → String → Reading Bool
need b why = if b then Reading.read true else Reading.refused why

abbrev pub some_text : String → Option String → Reading String
some_text k none = Reading.refused ("markerの" ++ (k ++ "が欠如または不正"))
some_text k (some s) =
    if is_blank s then Reading.refused ("markerの" ++ (k ++ "が欠如または不正")) else Reading.read s

abbrev pub need_text : String → Fields → Reading String
need_text k payload = some_text k (text_of (get k payload))

abbrev pub positive : Option ℕ → Reading ℕ
positive (some (suc n)) = Reading.read (suc n)
positive _ = Reading.refused "markerのseqが1始まりの整数でない"

abbrev pub need_seq : Fields → Reading ℕ
need_seq payload = positive (count_of (get "seq" payload))

abbrev pub known_kind : Option RecordKind → Reading RecordKind
known_kind none = Reading.refused "markerのkindが未知の種別"
known_kind (some k) = Reading.read k

abbrev pub need_kind : String → Reading RecordKind
need_kind s = known_kind (record_kind_of s)

abbrev pub need_no_error : Option String → Reading Bool
need_no_error none = Reading.read true
need_no_error (some why) = Reading.refused why

-- The link to the record before: an explicit one, none for the first record, and a hash otherwise.
unfoldable pub check_link : RecordKind → ℕ → Option Json → Option Json → Reading Bool
unfolding audit_link_error
check_link kind seq none previous =
    if nat_beq seq 1
    then need (is_none previous) "genesis record（seq=1）はprevを持たない"
    else need (is_hash previous) "markerのprevがSHA-256 hexでない"
check_link kind seq (some anchor) previous =
    need_no_error (audit_link_error kind seq (some anchor) previous)
    >>= (λ _. need (not (count_is (some anchor) 0 && is_some previous)) "audit_prev=0はprevを持たない")

-- The payload of a marker that is in canonical form.
unfoldable pub read_payload : Fields → Reading ChainPayload
unfolding check_link
read_payload payload = need_text "key" payload >>= (λ key.
    need_text "kind" payload >>= (λ kind_text. need_text "run" payload >>= (λ run.
      need_text "head" payload >>= (λ head. need_seq payload >>= (λ seq.
        need_kind kind_text >>= (λ kind.
          check_link kind seq (get "audit_prev" payload) (get "prev" payload) >>= (λ _.
            decode_record_projection kind payload >>= (λ projection. Reading.read (record {
              key = key;
              kind = kind;
              run = run;
              head = head;
              seq = seq;
              prev = text_of (get "prev" payload);
              projection = projection;
              audit_prev = count_of (get "audit_prev" payload);
            })))))))))

-- The text of a marker is its payload in canonical encoding, and the comment's body ends with its line.
unfoldable pub read_canonical : String → String → Option Fields → Reading ChainPayload
unfolding read_payload
read_canonical body raw none = Reading.refused "marker payloadがJSONとして解釈できない"
read_canonical body raw (some payload) =
    need (leb (len raw) max_payload_bytes) "marker payloadが上限byte数を超える" >>= (λ _.
      need (raw == dumps (Json.object payload))
        "marker payloadがcanonical encoding（sorted keysのcompact JSON）でない"
      >>= (λ _.
          need (ends_with body ("\n<!-- CC_REVIEW_META:v1 " ++ (raw ++ " -->")))
            "markerが本文末尾の単独1行でない"
          >>= (λ _.
              need (all allowed_payload_key (keys payload)) "markerが許可されないkeyを含む"
              >>= (λ _. read_payload payload))))

unfoldable pub read_marker : String → Option ExtractedMarker → Reading ChainPayload
unfolding read_canonical
read_marker body none = Reading.refused "予約tokenが本文末尾の正規形式markerでない"
read_marker body (some marker) =
    need (nat_beq (occurrences (upper body) marker_token) 1) "予約tokenがmarker行以外にも出現する"
    >>= (λ _. read_canonical body marker.raw_json marker.payload)

-- A comment that holds the reserved token: the payload of its marker, or why it is not in canonical form.
unfoldable pub parse_record_marker : UnverifiedComment → Reading ChainPayload
unfolding read_marker
parse_record_marker comment = read_marker comment.body comment.marker

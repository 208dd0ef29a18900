-- ===== src/Identity/Chain/Tests.antt =====
-- The witnesses of identity/: a run with two records, and a decision on a pull request.
use Prim.Native.String.{◌++◌}
use claude_code_codex_review.Prelude.{
  ℕ, String, true, Option, none, some, List, [], ◌∷◌, map, ◌≡◌, ◌↔◌, refl, All, any, elem, inr,
}
use claude_code_codex_review.Domain.Values.Kinds.{RecordKind}
use claude_code_codex_review.Schema.Json.{ℤ, Json, Fields}
use claude_code_codex_review.Schema.Encoding.{dumps}
use claude_code_codex_review.Schema.Projection.{DecodedProjection}
use claude_code_codex_review.Transport.Fetched.{UnverifiedComment}
use claude_code_codex_review.Identity.Errors.{Checked}
use claude_code_codex_review.Identity.Allowlist.{ProducerAllowlist}
use claude_code_codex_review.Identity.Records.{VerifiedRecord}
use claude_code_codex_review.Identity.Chain.{ChainCheckpoint, ChainVerification, Candidate}
use claude_code_codex_review.Identity.Chain.Stages.{record_of}
use claude_code_codex_review.Identity.Chain.Verification.{verify_record_chain}
use claude_code_codex_review.Identity.Chain.{
  comment_of, dedupe, observe_all, observe, check_known, probe_of, passes, faults, classify_comment,
  check_edited, check_gap, violation,
}
use claude_code_codex_review.Prelude.{keep, all}
use claude_code_codex_review.Domain.Values.Integrity.{canonicalize_integrity}
use claude_code_codex_review.Prelude.Sort.Canonical.{canonicalize}
use claude_code_codex_review.Prelude.Sort.{collect, has, insert, setdefault, sort}
use claude_code_codex_review.Identity.Decision.{has_token, marker_token}
use claude_code_codex_review.Prelude.Text.{
  contains, upper, occurrences, decimal, digits, all_chars, ends_with, is_hex_of, lower,
}
use claude_code_codex_review.Identity.Marker.{
  structural_payload_keys, parse_record_marker, audit_link_error, check_link, read_canonical,
  read_marker, read_payload,
}
use claude_code_codex_review.Schema.Encoding.{escape, escaped, print, quoted, sort_keys}
use claude_code_codex_review.Prelude.Order.{before}
use claude_code_codex_review.Identity.Actor.{is_login, resolve_actor, user_login}
use claude_code_codex_review.Identity.Chain.Verification.{verify_pool}
use claude_code_codex_review.Identity.Chain.Stages.{
  add_member, by_number, check_all_known, check_anchor, check_hash, check_link_of, choose, earlier,
  earliest, eligible, group_from, insert_seq, maximum, range_from, walk, with_number,
}
use claude_code_codex_review.Schema.Json.{get, keys}
use claude_code_codex_review.Schema.Kinds.{record_kind_of}
use claude_code_codex_review.Schema.Projection.{
  check_entries, decode_record_projection, decoded, decoded_value,
}
use claude_code_codex_review.Prelude.{is_some}
use claude_code_codex_review.Identity.Errors.{raise}
use claude_code_codex_review.Identity.Chain.Verification.{known_of}
use claude_code_codex_review.Identity.Chain.Sources.{Sourced}
use claude_code_codex_review.Identity.Chain.Provenance.{Backed, verify_record_chain-Backed}
use claude_code_codex_review.Identity.Chain.Gapless.{Present}
use claude_code_codex_review.Identity.Chain.Intact.{
  verify_record_chain-gapless, verify_record_chain-Present,
}
use claude_code_codex_review.Identity.Chain.Links.{Linked, verify_record_chain-Linked}
use claude_code_codex_review.Identity.Chain.Probes.{
  unseen, verify_record_chain-raises, verify_record_chain-made,
}
use claude_code_codex_review.Schema.Reading.{Reading}
use claude_code_codex_review.Identity.Marker.Attach.{attach_marker, is_attachable, rstrip_newlines}
use claude_code_codex_review.Identity.Marker.RoundTrip.{parse_record_marker-attach_marker}
use claude_code_codex_review.Identity.Marker.Compose.{
  composed, composed_marker, compose_record_marker_payload,
}

abbrev hash_a : String
hash_a = "aaaaaaaaaaaaaaaaaaaaaaaaaaaaaaaaaaaaaaaaaaaaaaaaaaaaaaaaaaaaaaaa"

abbrev hash_b : String
hash_b = "bbbbbbbbbbbbbbbbbbbbbbbbbbbbbbbbbbbbbbbbbbbbbbbbbbbbbbbbbbbbbbbb"

abbrev after_kind : ℕ → (Fields → Fields) → Fields
after_kind n link = Fields.field "pay" (Json.text hash_a) (
    link (
      Fields.field "run" (Json.text "r1")
        (Fields.field "seq" (Json.integer (ℤ.pos n)) Fields.empty)))

abbrev fix_payload : String → Fields → Fields
fix_payload key rest =
    Fields.field "head" (Json.text "h1")
      (Fields.field "key" (Json.text key) (Fields.field "kind" (Json.text "FIX_RESULT") rest))

abbrev first_payload : Fields
first_payload = fix_payload "k1" (after_kind 1 (λ rest. rest))

abbrev second_payload : Fields
second_payload = fix_payload "k2" (after_kind 2 (Fields.field "prev" (Json.text hash_a)))

abbrev marked : String → String → String → Fields → String → UnverifiedComment
marked i hash at payload raw = record {
  comment_id = i;
  url = "";
  author_login = some "Controller";
  created_at = at;
  updated_at = at;
  body = "done\n\n<!-- CC_REVIEW_META:v1 " ++ (raw ++ " -->");
  reply_to = none;
  review_id = none;
  body_hash = hash;
  marker = some (record { raw_json = raw; payload = some payload });
}

abbrev first_comment : UnverifiedComment
first_comment =
    marked "11" hash_a "2026-01-01" first_payload
      "{\"head\":\"h1\",\"key\":\"k1\",\"kind\":\"FIX_RESULT\",\"pay\":\"aaaaaaaaaaaaaaaaaaaaaaaaaaaaaaaaaaaaaaaaaaaaaaaaaaaaaaaaaaaaaaaa\",\"run\":\"r1\",\"seq\":1}"

abbrev second_comment : UnverifiedComment
second_comment =
    marked "12" hash_b "2026-01-02" second_payload
      "{\"head\":\"h1\",\"key\":\"k2\",\"kind\":\"FIX_RESULT\",\"pay\":\"aaaaaaaaaaaaaaaaaaaaaaaaaaaaaaaaaaaaaaaaaaaaaaaaaaaaaaaaaaaaaaaa\",\"prev\":\"aaaaaaaaaaaaaaaaaaaaaaaaaaaaaaaaaaaaaaaaaaaaaaaaaaaaaaaaaaaaaaaa\",\"run\":\"r1\",\"seq\":2}"

abbrev producers : ProducerAllowlist
producers = record { logins = "controller" ∷ [] }

abbrev checkpoint : Option ChainCheckpoint
checkpoint = some (record {
  high_water_mark = 1;
  known_records = (record { seq = 1; comment_id = "11"; body_hash = hash_a }) ∷ [];
})

abbrev fix_projection : DecodedProjection
fix_projection = record {
  payload_hash = hash_a;
  result = none;
  round = none;
  turn = none;
  fingerprint = none;
  subject_id = none;
  target = none;
  digest = none;
  count = none;
}

abbrev candidate : UnverifiedComment → String → ℕ → Option String → Candidate
candidate c key n prev = record {
  comment = c;
  payload = record {
    key = key;
    kind = RecordKind.fix_result;
    run = "r1";
    head = "h1";
    seq = n;
    prev = prev;
    projection = fix_projection;
    audit_prev = none;
  };
  author_login = "controller";
}

-- The comments arrive in any order.
abbrev comments : List UnverifiedComment
comments = second_comment ∷ first_comment ∷ []

abbrev two_records : ChainVerification
two_records = record {
  records =
      record_of (candidate first_comment "k1" 1 none)
      ∷ record_of (candidate second_comment "k2" 2 (some hash_a))
      ∷ [];
  violations = [];
  max_seq = 2;
  assurance_high_water = 1;
}

two_records_made :
    verify_record_chain "r1" "h1" producers comments checkpoint [] ≡ Checked.made two_records
unfolding comment_of dedupe observe_all observe check_known probe_of passes faults classify_comment
    check_edited check_gap violation any keep elem all canonicalize_integrity canonicalize collect
    has insert setdefault sort has_token contains upper occurrences decimal digits all_chars
    ends_with is_hex_of lower parse_record_marker audit_link_error check_link read_canonical
    read_marker read_payload dumps escape escaped print quoted sort_keys before is_login
    resolve_actor user_login verify_record_chain verify_pool add_member by_number check_all_known
    check_anchor check_hash check_link_of choose earlier earliest eligible group_from insert_seq
    maximum range_from walk with_number get keys record_kind_of check_entries
    decode_record_projection decoded decoded_value
two_records_made = refl

known_there : is_some (comment_of "11" (dedupe comments [])) ≡ true
unfolding comment_of dedupe observe_all observe
known_there = refl

verify_record_chain-gapless_example :
    map (λ (r : VerifiedRecord). r.seq) two_records.records ≡ range_from 1 2
verify_record_chain-gapless_example =
    verify_record_chain-gapless "r1" "h1" producers comments checkpoint [] two_records
      two_records_made refl

verify_record_chain-Backed_example :
    All (Backed "r1" producers (dedupe comments [])) two_records.records
verify_record_chain-Backed_example =
    verify_record_chain-Backed "r1" "h1" producers comments checkpoint [] two_records
      two_records_made

verify_record_chain-Present_example : All (Present (dedupe comments []) []) (known_of checkpoint)
verify_record_chain-Present_example =
    verify_record_chain-Present "r1" "h1" producers comments checkpoint [] two_records
      two_records_made refl

verify_record_chain-Linked_example :
    (cs : List Candidate) × (map record_of cs ≡ two_records.records)
    × All
        (λ (c : Candidate).
          Sourced "r1" producers (dedupe comments []) c
          × (c.comment.updated_at ≡ c.comment.created_at))
        cs
    × All (Linked cs) cs
verify_record_chain-Linked_example =
    verify_record_chain-Linked "r1" "h1" producers comments checkpoint [] two_records
      two_records_made refl

verify_record_chain-raises_example :
    (verify_record_chain "r1" "h1" producers (second_comment ∷ []) checkpoint [] ≡ raise "probe")
    ↔ (any (unseen (second_comment ∷ []) []) (known_of checkpoint) ≡ true)
verify_record_chain-raises_example =
    verify_record_chain-raises "r1" "h1" producers (second_comment ∷ []) checkpoint []

verify_record_chain-made_example :
    (v : ChainVerification) × (verify_record_chain "r1" "h1" producers comments checkpoint []
      ≡ Checked.made v)
verify_record_chain-made_example =
    verify_record_chain-made "r1" "h1" producers comments checkpoint [] (inr known_there, tt)

abbrev composed_fields : Fields
composed_fields =
    composed "k2" RecordKind.fix_result "r1" "h1" 2 (some hash_a)
      (Fields.field "pay" (Json.text hash_a) Fields.empty) none

fields_composed :
    compose_record_marker_payload "k2" RecordKind.fix_result "r1" "h1" 2
      (some hash_a)
      (Fields.field "pay" (Json.text hash_a) Fields.empty)
      none
    ≡ Checked.made composed_fields
unfolding compose_record_marker_payload is_hex_of all_chars any elem keys dumps escape escaped print
    quoted sort_keys before decimal digits
fields_composed = refl

fields_attached : attach_marker "done\n" composed_fields ≡ some second_comment.body
unfolding attach_marker is_attachable rstrip_newlines elem dumps escape escaped print quoted
    sort_keys before decimal digits
fields_attached = refl

one_token : occurrences (upper second_comment.body) marker_token ≡ 1
unfolding occurrences upper
one_token = refl

fields_extracted :
    second_comment.marker
    ≡ some
        (record { raw_json = dumps (Json.object composed_fields); payload = some second_payload })
unfolding dumps escape escaped print quoted sort_keys before decimal digits
fields_extracted = refl

fields_loaded :
    All (λ j. get j second_payload ≡ get j composed_fields) structural_payload_keys
    × (keys second_payload ≡ sort (λ (k : String). k) (keys composed_fields))
    × (dumps (Json.object second_payload) ≡ dumps (Json.object composed_fields))
unfolding get keys sort insert dumps escape escaped print quoted sort_keys before decimal digits
fields_loaded = ((refl, (refl, (refl, (refl, (refl, (refl, (refl, tt))))))), refl, refl)

fields_decoded :
    decode_record_projection RecordKind.fix_result second_payload ≡ Reading.read fix_projection
unfolding decode_record_projection check_entries decoded decoded_value is_hex_of all_chars elem keep
    keys sort insert before
fields_decoded = refl

parse_record_marker-attach_marker_example :
    parse_record_marker second_comment
    ≡ Reading.read
        (composed_marker "k2" RecordKind.fix_result "r1" "h1" 2 (some hash_a) none fix_projection)
parse_record_marker-attach_marker_example =
    parse_record_marker-attach_marker "k2" RecordKind.fix_result "r1" "h1" 2 (some hash_a)
      (Fields.field "pay" (Json.text hash_a) Fields.empty) none composed_fields second_payload
      fix_projection "done\n" second_comment fields_composed fields_attached one_token
      fields_extracted fields_loaded.0 fields_loaded.1 fields_loaded.2 fields_decoded

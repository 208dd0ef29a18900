-- ===== src/Identity/Marker/RoundTrip.antt =====
-- identity/record_chain.py and transport/marker.py: from the composition of a marker to its parser.
use claude_code_codex_review.Prelude.{
  ℕ, String, Bool, true, false, Option, none, some, ◌≡◌, refl, sym, ap, ◌∙◌, subst, All, all, ◌&&◌,
  List, [], ◌∷◌, arith, nat_beq, any, elem, string_eq, ◌==◌,
}
use claude_code_codex_review.Prelude.Text.{is_blank, occurrences, upper}
use claude_code_codex_review.Prelude.Sort.{insert, sort}
use claude_code_codex_review.Domain.Values.Kinds.{RecordKind}
use claude_code_codex_review.Schema.Json.{Json, Fields, get, keys}
use claude_code_codex_review.Schema.Kinds.{record_kind_of-value}
use claude_code_codex_review.Schema.Encoding.{dumps}
use claude_code_codex_review.Schema.Projection.{DecodedProjection, decode_record_projection}
use claude_code_codex_review.Schema.Reading.{Reading}
use claude_code_codex_review.Identity.Errors.{Checked}
use claude_code_codex_review.Transport.Fetched.{UnverifiedComment}
use claude_code_codex_review.Identity.Decision.{marker_token}
use claude_code_codex_review.Identity.Marker.Attach.{attach_marker, attach_marker_lem}
use claude_code_codex_review.Identity.Marker.{
  structural_payload_keys, read_payload, text_of, count_of, allowed_payload_key,
  parse_record_marker, read_marker, read_canonical,
}
use claude_code_codex_review.Identity.Marker.Compose.{
  audit_json, hash_json, link_wrong, hash_wrong, composed, compose_record_marker_payload,
  missing_key, checks_lem, composed_marker, link_lem, kind_value-text, seq_read,
}

-- What the lookups of a composed payload answer.
module _ (key : String) (kind : RecordKind) (run head : String) (seq : ℕ) (prev : Option String)
    (projection : Fields) (audit : Option ℕ)
    (free : any (λ k. elem k structural_payload_keys) (keys projection) ≡ false) where
  get-prev : get "prev" (composed key kind run head seq prev projection audit) ≡ hash_json prev
  unfolding get elem
  get-prev = go prev audit
    where
      missing : get "prev" projection ≡ none
      missing = missing_key "prev" projection refl free

      go :
          (p : Option String) (a : Option ℕ)
          → get "prev" (composed key kind run head seq p projection a) ≡ hash_json p
      go none none = missing
      go (some x) none = refl
      go none (some n) = missing
      go (some x) (some n) = refl

  get-audit_prev :
      get "audit_prev" (composed key kind run head seq prev projection audit) ≡ audit_json audit
  unfolding get elem
  get-audit_prev = go prev audit
    where
      missing : get "audit_prev" projection ≡ none
      missing = missing_key "audit_prev" projection refl free

      go :
          (p : Option String) (a : Option ℕ)
          → get "audit_prev" (composed key kind run head seq p projection a) ≡ audit_json a
      go none none = missing
      go (some x) none = missing
      go p (some n) = refl

text_of-hash_json : (prev : Option String) → text_of (hash_json prev) ≡ prev
text_of-hash_json none = refl
text_of-hash_json (some h) = refl

count_of-audit_json : (audit : Option ℕ) → count_of (audit_json audit) ≡ audit
count_of-audit_json none = refl
count_of-audit_json (some n) = refl

-- The fields read alike.
abbrev pub SameFields : Fields → Fields → Type 0
SameFields a b = All (λ j. get j a ≡ get j b) structural_payload_keys

composed_lem :
    (key : String) (kind : RecordKind) (run head : String) (seq : ℕ) (prev : Option String)
    (projection : Fields) (audit : Option ℕ) (parsed : Fields) (decoded : DecodedProjection)
    → (is_blank key ≡ false)
      × (is_blank run ≡ false)
      × (is_blank head ≡ false)
      × (nat_beq seq 0 ≡ false)
      × (link_wrong kind seq prev audit ≡ false)
      × (hash_wrong prev ≡ false)
      × (any (λ k. elem k structural_payload_keys) (keys projection) ≡ false)
    → SameFields parsed (composed key kind run head seq prev projection audit)
    → decode_record_projection kind parsed ≡ Reading.read decoded
    → read_payload parsed ≡ Reading.read (composed_marker key kind run head seq prev audit decoded)
unfolding read_payload get
composed_lem key kind run head seq prev projection audit parsed decoded (k, r, h, z, l, w, free)
      (g0, (g1, (g2, (g3, (g4, (g5, (g6, _))))))) d =
    let p = get-prev key kind run head seq prev projection audit free in
    let a = get-audit_prev key kind run head seq prev projection audit free in
    rw
      (
        g0,
        g1,
        g2,
        g3,
        g4,
        g5 ∙ p,
        g6 ∙ a,
        k,
        kind_value-text kind,
        r,
        h,
        seq_read seq z,
        record_kind_of-value kind,
        link_lem kind seq prev audit l w,
        d,
        text_of-hash_json prev,
        count_of-audit_json audit,
      )
      refl

all-insert :
    (p : String → Bool) (x : String) (xs : List String)
    → all p (insert (λ (k : String). k) x xs) ≡ (p x && all p xs)
unfolding insert all
all-insert p x [] = refl
all-insert p x (y ∷ ys) = let rest = all-insert p x ys in ground arith

all-sort : (p : String → Bool) (xs : List String) → all p (sort (λ (k : String). k) xs) ≡ all p xs
unfolding sort all
all-sort p [] = refl
all-sort p (x ∷ xs) =
    all-insert p x (sort (λ (k : String). k) xs) ∙ ap (λ b. p x && b) (all-sort p xs)

-- What is composed and attached to a body is parsed again. A payload was composed, and a marker of it
-- attached to a text; a comment has the attached body, in which the reserved token occurs once, and
-- its marker is the encoded payload with what json.loads reads there: the structural fields of
-- the payload, its keys in ascending order, the same canonical encoding, and a projection that decodes.
-- The parser then answers the key, kind, run, head, number and link that were given, and that
-- projection.
pub parse_record_marker-attach_marker :
    (key : String) (kind : RecordKind) (run head : String) (seq : ℕ) (prev : Option String)
    (projection : Fields) (audit : Option ℕ) (payload parsed : Fields) (decoded : DecodedProjection)
    (text : String) (comment : UnverifiedComment)
    → compose_record_marker_payload key kind run head seq prev projection audit
      ≡ Checked.made payload
    → attach_marker text payload ≡ some comment.body
    → occurrences (upper comment.body) marker_token ≡ 1
    → comment.marker
      ≡ some (record { raw_json = dumps (Json.object payload); payload = some parsed })
    → All (λ j. get j parsed ≡ get j payload) structural_payload_keys
    → keys parsed ≡ sort (λ (k : String). k) (keys payload)
    → dumps (Json.object parsed) ≡ dumps (Json.object payload)
    → decode_record_projection kind parsed ≡ Reading.read decoded
    → parse_record_marker comment
      ≡ Reading.read (composed_marker key kind run head seq prev audit decoded)
unfolding parse_record_marker read_marker read_canonical
parse_record_marker-attach_marker key kind run head seq prev projection audit payload parsed decoded
      text comment h a o m g s e d =
    let (c0, c1, c2, c3, c4, c5, c6, c7) =
      checks_lem key kind run head seq prev projection audit payload h in
    let same = subst (λ x. SameFields parsed x) (sym c7) g in
    let (keys_allowed, small, ends) = attach_marker_lem text comment.body payload a in
    let allowed : all allowed_payload_key (keys parsed) ≡ true =
      ap (all allowed_payload_key) s ∙ all-sort allowed_payload_key (keys payload) ∙ keys_allowed in
    let canonical : dumps (Json.object payload) == dumps (Json.object parsed) ≡ true =
      (string_eq.beq_iff (dumps (Json.object payload)) (dumps (Json.object parsed))).1 (sym e) in
    rw (m, o, small, canonical, ends, allowed)
      (composed_lem key kind run head seq prev projection audit parsed decoded
        (c0, c1, c2, c3, c4, c5, c6) same d)

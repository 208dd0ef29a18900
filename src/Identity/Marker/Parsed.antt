-- ===== src/Identity/Marker/Parsed.antt =====
-- identity/record_chain.py: what a marker in canonical form says.
use Prim.Native.Nat.{zero, suc, ◌≤◌}
use claude_code_codex_review.Prelude.{ℕ, String, Option, none, some, ◌≡◌, subst, arith, nat_beq}
use claude_code_codex_review.Schema.Json.{Json, Fields, get, keys}
use claude_code_codex_review.Schema.Reading.{Reading, bind-read}
use Prim.Native.String.{◌++◌, len}
use claude_code_codex_review.Prelude.{leb, all, ◌==◌, string_eq}
use claude_code_codex_review.Prelude.Text.{ends_with, occurrences, upper}
use claude_code_codex_review.Schema.Encoding.{dumps}
use claude_code_codex_review.Identity.Decision.{marker_token}
use claude_code_codex_review.Schema.Projection.{decode_record_projection}
use claude_code_codex_review.Transport.Fetched.{UnverifiedComment, ExtractedMarker}
use claude_code_codex_review.Identity.Marker.{
  ChainPayload, need_text, need_seq, need_kind, positive, count_of, check_link, read_payload,
  read_canonical, read_marker, need, max_payload_bytes, allowed_payload_key, parse_record_marker,
}

reading_inj {ℓ} : {A : Type ℓ} {a b : A} → Reading.read a ≡ Reading.read b → a ≡ b
reading_inj p = cc

positive_lem : (o : Option ℕ) (n : ℕ) → positive o ≡ Reading.read n → 1 ≤ n
positive_lem none n h = absurd (cc)
positive_lem (some zero) n h = absurd (cc)
positive_lem (some (suc k)) n h = subst (λ x. 1 ≤ x) (reading_inj h) (omega arith)

read_payload-positive :
    (payload : Fields) (p : ChainPayload) → read_payload payload ≡ Reading.read p → 1 ≤ p.seq
unfolding read_payload
read_payload-positive payload p h =
    let a = bind-read (need_text "key" payload) _ p h in
    let b = bind-read (need_text "kind" payload) _ p a.2 in
    let c = bind-read (need_text "run" payload) _ p b.2 in
    let d = bind-read (need_text "head" payload) _ p c.2 in
    let e = bind-read (need_seq payload) _ p d.2 in
    let f = bind-read (need_kind b.0) _ p e.2 in
    let g =
      bind-read (check_link f.0 e.0 (get "audit_prev" payload) (get "prev" payload)) _ p f.2 in
    let k = bind-read (decode_record_projection f.0 payload) _ p g.2 in
    subst (λ (x : ChainPayload). 1 ≤ x.seq) (reading_inj k.2)
      (positive_lem (count_of (get "seq" payload)) e.0 e.1)

read_canonical-positive :
    (body raw : String) (o : Option Fields) (p : ChainPayload)
    → read_canonical body raw o ≡ Reading.read p
    → 1 ≤ p.seq
unfolding read_canonical
read_canonical-positive body raw none p q = absurd (cc)
read_canonical-positive body raw (some payload) p q =
    let a = bind-read (need (leb (len raw) max_payload_bytes) _) _ p q in
    let b = bind-read (need (raw == dumps (Json.object payload)) _) _ p a.2 in
    let c =
      bind-read (need (ends_with body ("\n<!-- CC_REVIEW_META:v1 " ++ (raw ++ " -->"))) _) _ p
        b.2 in
    let d = bind-read (need (all allowed_payload_key (keys payload)) _) _ p c.2 in
    read_payload-positive payload p d.2

read_marker-positive :
    (body : String) (o : Option ExtractedMarker) (p : ChainPayload)
    → read_marker body o ≡ Reading.read p
    → 1 ≤ p.seq
unfolding read_marker
read_marker-positive body none p q = absurd (cc)
read_marker-positive body (some m) p q =
    let a = bind-read (need (nat_beq (occurrences (upper body) marker_token) 1) _) _ p q in
    read_canonical-positive body m.raw_json m.payload p a.2

-- A record's number is at least 1.
pub parse_record_marker-positive :
    (c : UnverifiedComment) (p : ChainPayload) → parse_record_marker c ≡ Reading.read p → 1 ≤ p.seq
unfolding parse_record_marker
parse_record_marker-positive c p h = read_marker-positive c.body c.marker p h

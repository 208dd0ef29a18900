-- ===== src/Identity/Chain/Stages.antt =====
-- identity/record_chain.py: `verify_record_chain`, the stages of the verification and their composition.
use Prim.Native.Nat.{zero, suc, ◌-◌}
use Prim.Native.String.{count}
use claude_code_codex_review.Prelude.{
  ℕ, String, Bool, false, not, ◌&&◌, ◌||◌, Option, none, some, List, [], ◌∷◌, ◌++◌, map,
  if◌then◌else◌, nat_beq, all, any, keep, elem, ◌==◌, string_eq, option_eq,
}
use claude_code_codex_review.Prelude.Order.{before, ltb}
use claude_code_codex_review.Prelude.Sort.{sort}
use claude_code_codex_review.Domain.Values.Records.{IntegrityEvidenceRef}
use claude_code_codex_review.Schema.Json.{ℤ, Json, Items, Fields}
use claude_code_codex_review.Transport.Fetched.{UnverifiedComment}
use claude_code_codex_review.Identity.Errors.{Checked, ◌>>=◌}
use claude_code_codex_review.Identity.Chain.{
  KnownRecord, Probe, Candidate, Step, violation, probe_of, comment_of, seq_subject, check_known,
  is_missing,
}
use claude_code_codex_review.Identity.Records.{VerifiedRecord}

-- An entry of `by_seq`: the candidates with this number, in their order, of which there is one at least.
pub record Group : Type 0 where
  pub seq : ℕ
  pub first : Candidate
  pub others : List Candidate

unfoldable pub add_member : List Group → Candidate → List Group
add_member [] c = (record { seq = c.payload.seq; first = c; others = [] }) ∷ []
add_member (g ∷ gs) c =
    let rest = add_member gs c in
    if nat_beq g.seq c.payload.seq
    then (record { seq = g.seq; first = g.first; others = g.others ++ c ∷ [] }) ∷ gs
    else g ∷ rest

unfoldable pub group_from : List Group → List Candidate → List Group
unfolding add_member
group_from gs [] = gs
group_from gs (c ∷ cs) = group_from (add_member gs c) cs

abbrev pub same_signature : Candidate → Candidate → Bool
same_signature a b = a.payload.key == b.payload.key && a.comment.body_hash == b.comment.body_hash

-- The order of `(created_at, len(comment_id), comment_id)`.
unfoldable pub earlier : UnverifiedComment → UnverifiedComment → Bool
earlier a b =
    before a.created_at b.created_at
    || (a.created_at == b.created_at
        && (ltb (count a.comment_id) (count b.comment_id)
            || (nat_beq (count a.comment_id) (count b.comment_id)
                && before a.comment_id b.comment_id)))

unfoldable pub earliest : Candidate → List Candidate → Candidate
earliest best [] = best
earliest best (c ∷ cs) = earliest (if earlier c.comment best.comment then c else best) cs

abbrev id_items : List String → Items
id_items [] = Items.end
id_items (i ∷ is) = Items.item (Json.text i) (id_items is)

-- `current.payload.prev` in a descriptor.
abbrev optional_field : Option String → Json
optional_field none = Json.null
optional_field (some s) = Json.text s

-- `max(…, default=0)`.
abbrev pub larger : ℕ → ℕ → ℕ
larger a b = if ltb a b then b else a

unfoldable pub maximum : List ℕ → ℕ
maximum [] = 0
maximum (n ∷ ns) = larger n (maximum ns)

-- `range(first, first + n)`.
unfoldable pub range_from : ℕ → ℕ → List ℕ
range_from first zero = []
range_from first (suc n) = first ∷ range_from (suc first) n

abbrev pub seq_of : Candidate → ℕ
seq_of c = c.payload.seq

unfoldable pub insert_seq : Candidate → List Candidate → List Candidate
insert_seq c [] = c ∷ []
insert_seq c (d ∷ ds) =
    let rest = insert_seq c ds in if ltb (seq_of c) (seq_of d) then c ∷ d ∷ ds else d ∷ rest

unfoldable pub by_number : List Candidate → List Candidate
unfolding insert_seq
by_number [] = []
by_number (c ∷ cs) = insert_seq c (by_number cs)

unfoldable pub with_number : ℕ → List Candidate → Option Candidate
with_number n [] = none
with_number n (c ∷ cs) =
    let rest = with_number n cs in if nat_beq (seq_of c) n then some c else rest

abbrev pub has_number : List ℕ → Candidate → Bool
has_number broken c = any (nat_beq (seq_of c)) broken

-- The records that an incident may name as the one before it.
unfoldable pub eligible : List Candidate → List String → List ℕ → ℕ → List ℕ
eligible reliable tampered broken seq = map seq_of (
    keep
      (λ (c : Candidate).
        ltb (seq_of c) seq && not (has_number broken c) && not (elem c.comment.comment_id tampered))
      reliable)

abbrev pub break_at : Step ℕ → Candidate → List ℕ → List ℕ
break_at (Step.fault v) c broken = seq_of c ∷ broken
break_at _ c broken = broken

module _ (run_id : String) (detection_head : String) where
  -- One canonical candidate for each number, unless two differ in key or body.
  unfoldable pub choose : Group → Step Candidate
  unfolding earliest
  choose g =
      if all (same_signature g.first) g.others
      then Step.passed (earliest g.first g.others)
      else Step.fault (
          violation "seqconflict" run_id (seq_subject g.seq) detection_head (
            Fields.field "seq" (Json.integer (ℤ.pos g.seq)) (
              Fields.field "comment_ids"
                (Json.array (
                  id_items (
                    sort (λ (i : String). i)
                      (map (λ (x : Candidate). x.comment.comment_id) (g.first ∷ g.others)))))
                Fields.empty)))

  abbrev link_fault : Candidate → Json → Json → IntegrityEvidenceRef
  link_fault c expected observed =
      violation "chain" run_id (seq_subject (seq_of c)) detection_head (
        Fields.field "seq" (Json.integer (ℤ.pos (seq_of c)))
          (Fields.field "expected" expected (Fields.field "observed" observed Fields.empty)))

  -- The hash that the record names against that of the record with this number, if it is there.
  unfoldable pub check_hash : List Candidate → Candidate → ℕ → Step ℕ
  check_hash reliable c previous =
      if nat_beq previous 0 then Step.skipped else elim (with_number previous reliable) [
        | none ↦ Step.skipped
        | some p ↦
            if c.payload.prev == some p.comment.body_hash
            then Step.passed (seq_of c)
            else Step.fault
                (link_fault c (Json.text p.comment.body_hash) (optional_field c.payload.prev))
      ]

  abbrev anchor_fault : Candidate → ℕ → ℕ → IntegrityEvidenceRef
  anchor_fault c expected anchor =
      violation "chain" run_id (seq_subject (seq_of c)) detection_head (
        Fields.field "seq" (Json.integer (ℤ.pos (seq_of c))) (
          Fields.field "expected_anchor" (Json.integer (ℤ.pos expected))
            (Fields.field "observed_anchor" (Json.integer (ℤ.pos anchor)) Fields.empty)))

  unfoldable pub check_anchor :
      List Candidate → List String → List ℕ → Candidate → Option ℕ → Step ℕ
  unfolding check_hash
  check_anchor reliable tampered broken c none = check_hash reliable c (seq_of c - 1)
  check_anchor reliable tampered broken c (some anchor) =
      if nat_beq anchor (maximum (eligible reliable tampered broken (seq_of c)))
      then check_hash reliable c anchor
      else Step.fault
          (anchor_fault c (maximum (eligible reliable tampered broken (seq_of c))) anchor)

  -- Condition 6: the link of one record, an explicit one of an incident included.
  unfoldable pub check_link_of : List Candidate → List String → List ℕ → Candidate → Step ℕ
  unfolding check_anchor
  check_link_of reliable tampered broken c =
      check_anchor reliable tampered broken c c.payload.audit_prev

  -- The walk through the records in the order of their numbers: the broken ones, and the steps.
  unfoldable pub walk :
      List Candidate → List String → List ℕ → List Candidate → List ℕ × List (Step ℕ)
  unfolding check_link_of
  walk reliable tampered broken [] = (broken, [])
  walk reliable tampered broken (c ∷ cs) =
      let s = check_link_of reliable tampered broken c in
      let rest = walk reliable tampered (break_at s c broken) cs in (rest.0, s ∷ rest.1)

abbrev pub changed_from : KnownRecord → Option UnverifiedComment → Bool
changed_from k none = false
changed_from k (some c) = not (c.body_hash == k.body_hash)

-- The known records whose body has changed.
abbrev pub tampered_id : List UnverifiedComment → List Probe → KnownRecord → Bool
tampered_id pool probes k =
    not (is_missing (probe_of k.comment_id probes)) && changed_from k (comment_of k.comment_id pool)

unfoldable pub check_all_known :
    String
    → String
    → List UnverifiedComment
    → List Probe
    → List KnownRecord
    → Checked (List (Step KnownRecord))
check_all_known run head pool probes [] = Checked.made []
check_all_known run head pool probes (k ∷ ks) =
    let rest = check_all_known run head pool probes ks in
    check_known run head pool probes k >>= (λ s. rest >>= (λ ss. Checked.made (s ∷ ss)))

abbrev pub record_of : Candidate → VerifiedRecord
record_of c = record {
  seq = c.payload.seq;
  kind = c.payload.kind;
  key = c.payload.key;
  comment_id = c.comment.comment_id;
  url = c.comment.url;
  body = c.comment.body;
  body_hash = c.comment.body_hash;
  author_login = c.author_login;
  head_sha = c.payload.head;
  created_at = c.comment.created_at;
  projection = c.payload.projection;
}

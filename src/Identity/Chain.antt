-- ===== src/Identity/Chain.antt =====
-- identity/record_chain.py: the chain of a run's records, rebuilt from comments and verified.
pub mod Stages
pub mod Verification
mod Numbers
mod Groups
mod Sources
mod Provenance
mod Gapless
mod Intact
mod Links
mod Probes
mod Tests
use Prim.Native.String.{◌++◌ as append}
use claude_code_codex_review.Prelude.{
  ℕ, String, Bool, true, false, not, ◌||◌, Option, none, some, List, [], ◌∷◌, ◌++◌, if◌then◌else◌,
  nat_beq, any, elem, is_empty, ◌==◌, string_eq, option_eq,
}
use claude_code_codex_review.Prelude.Order.{before, ltb}
use claude_code_codex_review.Prelude.Text.{padded}
use claude_code_codex_review.Domain.Values.Records.{IntegrityEvidenceRef}
use claude_code_codex_review.Schema.Json.{ℤ, Json, Fields}
use claude_code_codex_review.Schema.Reading.{Reading}
use claude_code_codex_review.Schema.Encoding.{dumps}
use claude_code_codex_review.Transport.Fetched.{UnverifiedComment}
use claude_code_codex_review.Identity.Errors.{Checked, raise}
use claude_code_codex_review.Identity.Actor.{user_login}
use claude_code_codex_review.Identity.Allowlist.{ProducerAllowlist}
use claude_code_codex_review.Identity.Decision.{has_token}
use claude_code_codex_review.Identity.Marker.{ChainPayload, parse_record_marker}
use claude_code_codex_review.Identity.Records.{VerifiedRecord}

pub record KnownRecord : Type 0 where
  pub seq : ℕ
  pub comment_id : String
  pub body_hash : String

pub record ChainCheckpoint : Type 0 where
  pub high_water_mark : ℕ
  pub known_records : List KnownRecord

abbrev repeats_seq : List KnownRecord → Bool
repeats_seq [] = false
repeats_seq (k ∷ ks) =
    any (λ (j : KnownRecord). nat_beq j.seq k.seq || j.comment_id == k.comment_id) ks
    || repeats_seq ks

-- `ChainCheckpoint.__post_init__`.
unfoldable pub make_checkpoint : ChainCheckpoint → Checked ChainCheckpoint
make_checkpoint c =
    if repeats_seq c.known_records
      || any (λ (k : KnownRecord). nat_beq k.seq 0 || ltb c.high_water_mark k.seq) c.known_records
    then raise "checkpoint"
    else Checked.made c

pub data ProbeOutcome : Type 0 where
  found : UnverifiedComment → ProbeOutcome
  missing : String → ProbeOutcome

-- `probes`: the outcomes by the comment's ID.
pub record Probe : Type 0 where
  pub comment_id : String
  pub outcome : ProbeOutcome

pub record ChainVerification : Type 0 where
  pub records : List VerifiedRecord
  pub violations : List IntegrityEvidenceRef
  pub max_seq : ℕ
  pub assurance_high_water : ℕ

abbrev pub is_intact : ChainVerification → Bool
is_intact v = is_empty v.violations

-- `_violation`, with the entries of the descriptor that follow its type.
unfoldable pub violation : String → String → String → String → Fields → IntegrityEvidenceRef
violation condition run subject head fields = record {
  binding = record {
    value = append "iv:" (append condition (append ":" (append run (append ":" subject))));
  };
  descriptor = record {
    value = dumps (Json.object (Fields.field "type" (Json.text condition) fields));
  };
  head = record { value = head };
}

pub record Candidate : Type 0 where
  pub comment : UnverifiedComment
  pub payload : ChainPayload
  pub author_login : String

-- The pool of comments by ID: of two observations of a comment the later one is kept, in its place.
unfoldable pub observe : List UnverifiedComment → UnverifiedComment → List UnverifiedComment
observe [] c = c ∷ []
observe (x ∷ xs) c =
    let rest = observe xs c in
    if x.comment_id == c.comment_id
    then (if before x.updated_at c.updated_at then c ∷ xs else x ∷ xs)
    else x ∷ rest

unfoldable pub observe_all :
    List UnverifiedComment → List UnverifiedComment → List UnverifiedComment
unfolding observe
observe_all pool [] = pool
observe_all pool (c ∷ cs) = observe_all (observe pool c) cs

abbrev pub probed : List Probe → List UnverifiedComment
probed [] = []
probed (p ∷ ps) = elim p.outcome [
  | ProbeOutcome.found c ↦ c ∷ probed ps
  | ProbeOutcome.missing i ↦ probed ps
]

unfoldable pub dedupe : List UnverifiedComment → List Probe → List UnverifiedComment
dedupe comments probes = observe_all [] (comments ++ probed probes)

unfoldable pub probe_of : String → List Probe → Option ProbeOutcome
probe_of i [] = none
probe_of i (p ∷ ps) = let rest = probe_of i ps in if p.comment_id == i then some p.outcome else rest

abbrev pub is_missing : Option ProbeOutcome → Bool
is_missing (some (ProbeOutcome.missing i)) = true
is_missing _ = false

unfoldable pub comment_of : String → List UnverifiedComment → Option UnverifiedComment
comment_of i [] = none
comment_of i (c ∷ cs) = let rest = comment_of i cs in if c.comment_id == i then some c else rest

-- One step of a loop over comments, records or numbers: it goes on without a trace, with a violation,
-- or with a result.
pub data Step {ℓ} (A : Type ℓ) : Type ℓ where
  skipped : Step A
  fault : IntegrityEvidenceRef → Step A
  passed : A → Step A

unfoldable pub faults {ℓ} : {A : Type ℓ} → List (Step A) → List IntegrityEvidenceRef
faults [] = []
faults (Step.skipped ∷ xs) = faults xs
faults (Step.fault v ∷ xs) = v ∷ faults xs
faults (Step.passed a ∷ xs) = faults xs

unfoldable pub passes {ℓ} : {A : Type ℓ} → List (Step A) → List A
passes [] = []
passes (Step.skipped ∷ xs) = passes xs
passes (Step.fault v ∷ xs) = passes xs
passes (Step.passed a ∷ xs) = a ∷ passes xs

abbrev number_field : String → ℕ → Fields → Fields
number_field k n = Fields.field k (Json.integer (ℤ.pos n))

abbrev text_field : String → String → Fields → Fields
text_field k s = Fields.field k (Json.text s)

abbrev pub comment_subject : UnverifiedComment → String
comment_subject c = append "c" c.comment_id

abbrev pub seq_subject : ℕ → String
seq_subject n = append "s" (padded n)

module _ (run_id : String) (detection_head : String) where
  abbrev actor_fault : UnverifiedComment → ChainPayload → IntegrityEvidenceRef
  actor_fault c p =
      violation "actor" run_id (comment_subject c) detection_head
        (text_field "comment_id" c.comment_id (number_field "seq" p.seq Fields.empty))

  -- Condition 1: the author is a user of the list of producers.
  abbrev pub check_actor :
      ProducerAllowlist → UnverifiedComment → ChainPayload → Option String → Step Candidate
  check_actor producers c p none = Step.fault (actor_fault c p)
  check_actor producers c p (some login) =
      if elem login producers.logins
      then Step.passed (record { comment = c; payload = p; author_login = login })
      else Step.fault (actor_fault c p)

  -- Condition 2: the marker is in canonical form. One of another run is left aside.
  abbrev pub check_marker :
      ProducerAllowlist → UnverifiedComment → Reading ChainPayload → Step Candidate
  check_marker producers c (Reading.refused why) = Step.fault (
      violation "marker" run_id (comment_subject c) detection_head
        (text_field "comment_id" c.comment_id (text_field "reason" why Fields.empty)))
  check_marker producers c (Reading.read p) =
      if not (p.run == run_id)
      then Step.skipped
      else check_actor producers c p (user_login c.author_login)

  unfoldable pub classify_comment : ProducerAllowlist → UnverifiedComment → Step Candidate
  classify_comment producers c =
      if not (has_token c.body)
      then Step.skipped
      else check_marker producers c (parse_record_marker c)

  -- Condition 4: the comment of a record is never edited.
  unfoldable pub check_edited : Candidate → Step Candidate
  check_edited c =
      if c.comment.updated_at == c.comment.created_at
      then Step.passed c
      else Step.fault (
          violation "edited" run_id (comment_subject c.comment) detection_head (
            text_field "comment_id" c.comment.comment_id
              (number_field "seq" c.payload.seq Fields.empty)))

  -- Condition 5: no number is left out.
  unfoldable pub check_gap : List ℕ → ℕ → ℕ → Step ℕ
  check_gap observed high_water n =
      if any (nat_beq n) observed
      then Step.passed n
      else Step.fault (
          violation "gap" run_id (seq_subject n) detection_head
            (number_field "seq" n (number_field "high_water" high_water Fields.empty)))

  abbrev tamper_fault : KnownRecord → UnverifiedComment → IntegrityEvidenceRef
  tamper_fault k c = violation "tamper" run_id (append "c" k.comment_id) detection_head (
      text_field "comment_id" k.comment_id (
        number_field "seq" k.seq
          (text_field "expected" k.body_hash (text_field "observed" c.body_hash Fields.empty))))

  abbrev missing_fault : KnownRecord → IntegrityEvidenceRef
  missing_fault k =
      violation "missing" run_id (append "c" k.comment_id) detection_head
        (text_field "comment_id" k.comment_id (number_field "seq" k.seq Fields.empty))

  -- Condition 3: the body is the one that the checkpoint recorded.
  abbrev pub check_body : KnownRecord → Option UnverifiedComment → Checked (Step KnownRecord)
  check_body k none = Checked.key_error k.comment_id
  check_body k (some c) =
      Checked.made
        (if c.body_hash == k.body_hash then Step.passed k else Step.fault (tamper_fault k c))

  -- Conditions 7 and 3: a known record is still there, with the same body. One that was neither found
  -- missing nor is in the pool is a KeyError.
  unfoldable pub check_known :
      List UnverifiedComment → List Probe → KnownRecord → Checked (Step KnownRecord)
  check_known pool probes k =
      if is_missing (probe_of k.comment_id probes)
      then Checked.made (Step.fault (missing_fault k))
      else check_body k (comment_of k.comment_id pool)

-- ===== src/Identity/Records.antt =====
-- identity/record_chain.py: the records that the verification of the chain answers.
use claude_code_codex_review.Prelude.{ℕ, String}
use claude_code_codex_review.Domain.Values.Kinds.{RecordKind}
use claude_code_codex_review.Schema.Projection.{DecodedProjection}

pub record VerifiedRecord : Type 0 where
  pub seq : ℕ
  pub kind : RecordKind
  pub key : String
  pub comment_id : String
  pub url : String
  pub body : String
  pub body_hash : String
  pub author_login : String
  pub head_sha : String
  pub created_at : String
  pub projection : DecodedProjection

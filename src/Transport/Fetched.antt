-- ===== src/Transport/Fetched.antt =====
-- transport/conversation.py, transport/pull_request.py, transport/marker.py: unverified metadata.
use claude_code_codex_review.Prelude.{ℕ, String, Bool, Option}
use claude_code_codex_review.Schema.Json.{Fields}

-- The marker at the end of a comment; there is a payload where its text parses as JSON.
pub record ExtractedMarker : Type 0 where
  pub raw_json : String
  pub payload : Option Fields

pub record UnverifiedComment : Type 0 where
  pub comment_id : String
  pub url : String
  pub author_login : Option String
  pub created_at : String
  pub updated_at : String
  pub body : String
  pub reply_to : Option String
  pub review_id : Option String
  pub body_hash : String
  pub marker : Option ExtractedMarker

pub record UnverifiedPullRequest : Type 0 where
  pub number : ℕ
  pub state : String
  pub merged : Bool
  pub head_sha : String
  pub head_ref : String
  pub head_repository : String
  pub base_sha : String
  pub base_ref : String
  pub base_repository : String
  pub author_login : Option String
  pub updated_at : String

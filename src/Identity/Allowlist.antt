-- ===== src/Identity/Allowlist.antt =====
-- identity/allowlist.py: the lists of logins, and what a decision is bound to.
use Prim.Native.Char.{Char, code}
use claude_code_codex_review.Prelude.{
  ℕ, String, Bool, true, false, not, ◌&&◌, ◌||◌, Option, none, some, List, [], ◌∷◌, is_empty, elem,
  if◌then◌else◌, nat_beq, ◌==◌, string_eq,
}
use claude_code_codex_review.Prelude.Text.{
  is_upper, is_lower, is_digit, is_blank, all_chars, span, strip_prefix, value_from, is_hex_of,
  lower,
}
use claude_code_codex_review.Domain.Values.Kinds.{
  RecordKind, record_kind_eq, user_input_record_kinds,
}
use claude_code_codex_review.Schema.Json.{pos, Json, Fields}
use claude_code_codex_review.Schema.Kinds.{kind_value}
use claude_code_codex_review.Schema.Encoding.{dumps}
use claude_code_codex_review.Identity.Errors.{Checked, raise, ◌>>=◌}
use claude_code_codex_review.Identity.Actor.{user_login}

-- `[A-Za-z0-9._-]`.
abbrev pub is_name_char : Char → Bool
is_name_char c =
    is_upper c
    || is_lower c
    || is_digit c
    || nat_beq (code c) 46
    || nat_beq (code c) 95
    || nat_beq (code c) 45

-- The parts of `[A-Za-z0-9._-]+/[A-Za-z0-9._-]+` at the beginning of a text, with what follows: no part
-- of it can be matched otherwise, since a slash is no character of a name.
unfoldable pub split_repository : String → Option ((String × String) × String)
split_repository s =
    let owner = span is_name_char s in
    elim (strip_prefix "/" owner.1) [
      | none ↦ none
      | some r ↦
          let name = span is_name_char r in
          if is_blank owner.0 || is_blank name.0 then none else some ((owner.0, name.0), name.1)
    ]

unfoldable pub is_repository : String → Bool
is_repository s = elim (split_repository s) [ none ↦ false | some r ↦ is_blank r.1 ]

pub record Origin : Type 0 where
  pub repository : String
  pub number : ℕ
  pub comment_id : String

abbrev starts_zero : String → Bool
starts_zero String.[] = true
starts_zero (String.◌∷◌ c s) = nat_beq (code c) 48

-- `([1-9][0-9]*)#issuecomment-([0-9]+)\Z`.
unfoldable pub read_numbers : String → Option (ℕ × String)
read_numbers s =
    let n = span is_digit s in
    elim (strip_prefix "#issuecomment-" n.1) [
      | none ↦ none
      | some i ↦
          if starts_zero n.0 || is_blank i || not (all_chars is_digit i)
          then none
          else some (value_from 0 n.0, i)
    ]

abbrev either_prefix : String → Option String
either_prefix s = elim (strip_prefix "/issues/" s) [
  | some r ↦ some r
  | none ↦ strip_prefix "/pull/" s
]

-- `_comment_origin`: where a comment stands, by its address on github.com.
unfoldable pub comment_origin : String → Option Origin
comment_origin url = elim (strip_prefix "https://github.com/" url) [
  | none ↦ none
  | some s ↦ elim (split_repository s) [
    | none ↦ none
    | some r ↦ elim (either_prefix r.1) [
      | none ↦ none
      | some t ↦ elim (read_numbers t) [
        | none ↦ none
        | some p ↦ some (record {
          repository = Prim.Native.String.◌++◌ r.0.0 (Prim.Native.String.◌++◌ "/" r.0.1);
          number = p.0;
          comment_id = p.1;
        })
      ]
    ]
  ]
]

-- `_normalized_logins`: an entry that is no login of a user is an error.
unfoldable pub normalized_logins : String → List String → Checked (List String)
normalized_logins stage [] = Checked.made []
normalized_logins stage (x ∷ xs) =
    let rest = normalized_logins stage xs in
    elim (user_login (some x)) [
      | none ↦ raise stage
      | some l ↦ (rest >>= (λ ls. Checked.made (l ∷ ls)))
    ]

-- The logins after construction, in lower case.
pub record DecisionAllowlist : Type 0 where
  pub logins : List String

unfoldable pub make_decision_allowlist : List String → Checked DecisionAllowlist
make_decision_allowlist raw =
    normalized_logins "allowlist" raw >>= (λ ls. Checked.made (record { logins = ls }))

pub data DecisionAllowlistState : Type 0 where
  allowlist : DecisionAllowlist → DecisionAllowlistState
  unavailable : DecisionAllowlistState

pub record ProducerAllowlist : Type 0 where
  pub logins : List String

unfoldable pub make_producer_allowlist : List String → Checked ProducerAllowlist
make_producer_allowlist raw =
    let rest = normalized_logins "producer" raw in
    if is_empty raw
    then raise "producer"
    else (rest >>= (λ ls. Checked.made (record { logins = ls })))

pub record DecisionContext : Type 0 where
  pub kind : RecordKind
  pub repository : String
  pub number : ℕ
  pub head_sha : String
  pub merge_method : Option String
  pub candidate_fingerprint : Option String

-- `not value` and `value is not None and not value`.
abbrev pub lacks_text : Option String → Bool
lacks_text none = true
lacks_text (some s) = is_blank s

abbrev pub empty_text : Option String → Bool
empty_text none = false
empty_text (some s) = is_blank s

-- `DecisionContext.__post_init__`.
unfoldable pub make_context : DecisionContext → Checked DecisionContext
make_context c =
    if not (elem c.kind user_input_record_kinds)
      || not (is_repository c.repository)
      || nat_beq c.number 0
      || not (is_hex_of 40 c.head_sha)
      || (c.kind == RecordKind.merge_approval && lacks_text c.merge_method)
      || empty_text c.merge_method
      || empty_text c.candidate_fingerprint
    then raise "context"
    else Checked.made c

abbrev pub optional_text : Option String → Json
optional_text none = Json.null
optional_text (some s) = Json.text s

-- `_derive_binding`; `casefold` of a repository, which is ASCII, is `lower`.
unfoldable pub derive_binding : DecisionContext → String → String
derive_binding c comment_id = Prim.Native.String.◌++◌ "ud:" (
    dumps (
      Json.object (
        Fields.field "comment" (Json.text comment_id) (
          Fields.field "fingerprint" (optional_text c.candidate_fingerprint) (
            Fields.field "head" (Json.text c.head_sha) (
              Fields.field "kind" (Json.text (kind_value c.kind)) (
                Fields.field "method" (optional_text c.merge_method) (
                  Fields.field "number" (Json.integer (pos c.number)) (
                    Fields.field "repository" (Json.text (lower c.repository)) Fields.empty)))))))))

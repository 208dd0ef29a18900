-- ===== src/Schema/Json.antt =====
-- The JSON values that json.loads answers: Python's None, bool, int, float, str, list and dict.
use claude_code_codex_review.Prelude.{
  ℕ, String, Bool, Option, none, some, List, [], ◌∷◌, ◌==◌, string_eq, if◌then◌else◌,
}

pub data ℤ : Type 0 where
  pos : ℕ → ℤ
  negsuc : ℕ → ℤ

-- A float is kept as the text that Python prints for it. The entries of a dict stand in the order
-- of insertion.
mutual
  pub data Json : Type 0 where
    null : Json
    boolean : Bool → Json
    integer : ℤ → Json
    float : String → Json
    text : String → Json
    array : Items → Json
    object : Fields → Json

  pub data Items : Type 0 where
    end : Items
    item : Json → Items → Items

  pub data Fields : Type 0 where
    empty : Fields
    field : String → Json → Fields → Fields

-- `payload.get(key)`: none where the key is missing.
unfoldable pub get : String → Fields → Option Json
get k Fields.empty = none
get k (Fields.field l v r) = let rest = get k r in if k == l then some v else rest

unfoldable pub keys : Fields → List String
keys Fields.empty = []
keys (Fields.field l v r) = l ∷ keys r

-- A value that is a text.
abbrev pub as_text : Option Json → Option String
as_text (some (Json.text s)) = some s
as_text _ = none

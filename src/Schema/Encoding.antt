-- ===== src/Schema/Encoding.antt =====
-- `json.dumps(value, sort_keys=True, separators=(",", ":"), ensure_ascii=False)`, of schema/projection.py
-- and identity/.
use Prim.Native.Nat.{suc, ◌/◌, ◌%◌}
use Prim.Native.Char.{Char, code}
use Prim.Native.String.{◌++◌}
use claude_code_codex_review.Prelude.{String, Bool, true, false, if◌then◌else◌, nat_beq, leb}
use claude_code_codex_review.Prelude.Order.{before}
use claude_code_codex_review.Prelude.Text.{decimal, digit_of}
use claude_code_codex_review.Schema.Json.{ℤ, Json, Items, Fields}

-- What stands for a character inside a quoted text.
unfoldable pub escape : Char → String
escape c =
    if nat_beq (code c) 34
    then "\\\""
    else if nat_beq (code c) 92
    then "\\\\"
    else if nat_beq (code c) 10
    then "\\n"
    else if nat_beq (code c) 13
    then "\\r"
    else if nat_beq (code c) 9
    then "\\t"
    else if nat_beq (code c) 12
    then "\\f"
    else if nat_beq (code c) 8
    then "\\b"
    else if leb (code c) 31
    then "\\u00"
      ++ String.◌∷◌ (digit_of (code c / 16)) (String.◌∷◌ (digit_of (code c % 16)) String.[])
    else String.◌∷◌ c String.[]

unfoldable pub escaped : String → String
unfolding escape
escaped String.[] = String.[]
escaped (String.◌∷◌ c s) = escape c ++ escaped s

unfoldable pub quoted : String → String
unfolding escaped
quoted s = "\"" ++ (escaped s ++ "\"")

abbrev integer_text : ℤ → String
integer_text (ℤ.pos n) = decimal n
integer_text (ℤ.negsuc n) = "-" ++ decimal (suc n)

abbrev insert_field : String → Json → Fields → Fields
insert_field k v Fields.empty = Fields.field k v Fields.empty
insert_field k v (Fields.field l w r) =
    let rest = insert_field k v r in
    if before k l then Fields.field k v (Fields.field l w r) else Fields.field l w rest

abbrev boolean_text : Bool → String
boolean_text true = "true"
boolean_text false = "false"

-- A value with the keys of each object sorted.
unfoldable mutual
  pub sort_keys : Json → Json
  sort_keys (Json.array xs) = Json.array (sort_items xs)
  sort_keys (Json.object fs) = Json.object (sort_fields fs)
  sort_keys v = v

  pub sort_items : Items → Items
  sort_items Items.end = Items.end
  sort_items (Items.item v r) = Items.item (sort_keys v) (sort_items r)

  pub sort_fields : Fields → Fields
  sort_fields Fields.empty = Fields.empty
  sort_fields (Fields.field k v r) = insert_field k (sort_keys v) (sort_fields r)

unfoldable mutual
  unfolding quoted

  pub print : Json → String
  print Json.null = "null"
  print (Json.boolean b) = boolean_text b
  print (Json.integer i) = integer_text i
  print (Json.float s) = s
  print (Json.text s) = quoted s
  print (Json.array xs) = "[" ++ (print_items xs ++ "]")
  print (Json.object fs) = "{" ++ (print_fields fs ++ "}")

  pub print_items : Items → String
  print_items Items.end = ""
  print_items (Items.item v Items.end) = print v
  print_items (Items.item v (Items.item w r)) = print v ++ ("," ++ print_items (Items.item w r))

  pub print_fields : Fields → String
  print_fields Fields.empty = ""
  print_fields (Fields.field k v Fields.empty) = quoted k ++ (":" ++ print v)
  print_fields (Fields.field k v (Fields.field l w r)) =
      quoted k ++ (":" ++ (print v ++ ("," ++ print_fields (Fields.field l w r))))

unfoldable pub dumps : Json → String
unfolding sort_keys print
dumps v = print (sort_keys v)

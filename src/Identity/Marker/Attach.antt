-- ===== src/Identity/Marker/Attach.antt =====
-- transport/marker.py: `attach_marker`, which writes a marker at the end of a body.
use Prim.Native.Char.{code}
use Prim.Native.String.{◌++◌, len}
use text.Mathlib.Text.{starts_with}
use text.Mathlib.TextEquality.{starts_with_iff}
use text.Mathlib.TextLemmas.{
  nil-append, cons-append, append-nil, append_assoc, length-cons, length-append,
}
use claude_code_codex_review.Prelude.{
  String, Bool, true, false, ◌&&◌, Option, none, some, ◌≡◌, refl, sym, ap, subst, ◌∙◌, arith,
  if◌then◌else◌, leb, nat_beq, all,
}
use claude_code_codex_review.Prelude.Text.{ends_with, is_blank}
use claude_code_codex_review.Schema.Json.{Json, Fields, keys}
use claude_code_codex_review.Schema.Encoding.{dumps}
use claude_code_codex_review.Identity.Marker.{allowed_payload_key, max_payload_bytes}

-- `isinstance(value, str | int)`, without bool.
abbrev is_word_or_count : Json → Bool
is_word_or_count (Json.text s) = true
is_word_or_count (Json.integer i) = true
is_word_or_count _ = false

unfoldable pub is_attachable : Fields → Bool
is_attachable Fields.empty = true
is_attachable (Fields.field k v r) =
    allowed_payload_key k && (is_word_or_count v && is_attachable r)

-- `body.rstrip("\n")`.
unfoldable pub rstrip_newlines : String → String
rstrip_newlines String.[] = ""
rstrip_newlines (String.◌∷◌ c s) =
    let rest = rstrip_newlines s in
    if nat_beq (code c) 10 && is_blank rest then "" else String.◌∷◌ c rest

abbrev pub marker_line : String → String
marker_line encoded = "<!-- CC_REVIEW_META:v1 " ++ (encoded ++ " -->")

-- `None` where it raises a TransportError.
unfoldable pub attach_marker : String → Fields → Option String
attach_marker body payload =
    if is_attachable payload && leb (len (dumps (Json.object payload))) max_payload_bytes
    then some (rstrip_newlines body ++ ("\n\n" ++ marker_line (dumps (Json.object payload))))
    else none

is_attachable-allowed_payload_key :
    (fs : Fields) → is_attachable fs ≡ true → all allowed_payload_key (keys fs) ≡ true
unfolding is_attachable all keys
is_attachable-allowed_payload_key Fields.empty h = refl
is_attachable-allowed_payload_key (Fields.field k v r) h =
    let rest = is_attachable-allowed_payload_key r in ground arith

starts_with_refl : (s : String) → starts_with s s ≡ true
starts_with_refl s = (starts_with_iff s s).1 (String.[], append-nil s)

ends_with_refl : (s : String) → ends_with s s ≡ true
unfolding ends_with
ends_with_refl String.[] = refl
ends_with_refl (String.◌∷◌ c s) =
    let a = starts_with_refl (String.◌∷◌ c s) in let n = length-cons c s in ground arith

ends_with-append : (s t : String) → ends_with (s ++ t) t ≡ true
unfolding ends_with
ends_with-append String.[] t = rw (nil-append t) (ends_with_refl t)
ends_with-append (String.◌∷◌ c s) t =
    let rest = ends_with-append s t in
    let n = length-append s t in rw (cons-append c s t) (ground (arith, rest, n))

-- The line of the marker is preceded by a line break, and this one by another.
marker_split :
    (text rest : String)
    → text ++ ("\n\n" ++ ("<!-- CC_REVIEW_META:v1 " ++ rest))
      ≡ (text ++ "\n") ++ ("\n<!-- CC_REVIEW_META:v1 " ++ rest)
marker_split text rest =
    ap (λ s. text ++ s)
      (append_assoc "\n" "\n" ("<!-- CC_REVIEW_META:v1 " ++ rest)
        ∙ ap (λ s. "\n" ++ s) (sym (append_assoc "\n" "<!-- CC_REVIEW_META:v1 " rest)))
    ∙ sym (append_assoc text "\n" ("\n<!-- CC_REVIEW_META:v1 " ++ rest))

-- What is attached: the keys are allowed, the encoding is within the limit, and the body ends with the
-- line of the marker.
pub attach_marker_lem :
    (body attached : String) (payload : Fields)
    → attach_marker body payload ≡ some attached
    → (all allowed_payload_key (keys payload) ≡ true)
      × (leb (len (dumps (Json.object payload))) max_payload_bytes ≡ true)
      × (ends_with attached ("\n<!-- CC_REVIEW_META:v1 " ++ (dumps (Json.object payload) ++ " -->"))
          ≡ true)
unfolding attach_marker
attach_marker_lem body attached payload h =
    go (is_attachable payload) (leb (len (dumps (Json.object payload))) max_payload_bytes) refl refl
      h
  where
    rest : String
    rest = dumps (Json.object payload) ++ " -->"

    some_inj : {s t : String} → some s ≡ some t → s ≡ t
    some_inj e = cc

    go :
        (a l : Bool)
        → is_attachable payload ≡ a
        → leb (len (dumps (Json.object payload))) max_payload_bytes ≡ l
        → (if a && l
            then some (rstrip_newlines body ++ ("\n\n" ++ ("<!-- CC_REVIEW_META:v1 " ++ rest)))
            else none)
          ≡ some attached
        → (all allowed_payload_key (keys payload) ≡ true)
          × (leb (len (dumps (Json.object payload))) max_payload_bytes ≡ true)
          × (ends_with attached
                ("\n<!-- CC_REVIEW_META:v1 " ++ (dumps (Json.object payload) ++ " -->"))
              ≡ true)
    go true true a l e = (
      is_attachable-allowed_payload_key payload a,
      l,
      subst (λ s. ends_with s ("\n<!-- CC_REVIEW_META:v1 " ++ rest) ≡ true)
          (sym (marker_split (rstrip_newlines body) rest) ∙ some_inj e)
          (ends_with-append (rstrip_newlines body ++ "\n") ("\n<!-- CC_REVIEW_META:v1 " ++ rest)),
    )
    go true false a l e = absurd (cc)
    go false l' a l e = absurd (cc)

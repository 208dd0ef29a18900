-- ===== src/Schema/Unquote.antt =====
-- schema/projection.py, identity/: quoted texts and decimal numbers can be read back from what follows them.
use Prim.Native.Nat.{zero, suc, ◌+◌, ◌*◌, ◌-◌, ◌/◌, ◌%◌, ◌<◌, ◌≤◌}
use Prim.Native.Char.{Char, code}
use Prim.Native.String.{◌++◌}
use text.Mathlib.TextEquality.{Char-path}
use mathlib.Core.Path.{ap₂}
use text.Mathlib.TextLemmas.{nil-append, cons-append, append_assoc, append_cancel_left}
use claude_code_codex_review.Prelude.{
  ℕ, String, if◌then◌else◌, nat_beq, nat_beq_iff, leb, ◌≡◌, refl, sym, ap, ◌∙◌, arith, Bool-cases,
  inl, inr,
}
use claude_code_codex_review.Prelude.Text.{digit_of}
use claude_code_codex_review.Schema.Encoding.{escape, escaped, quoted}

hex_value : ℕ → ℕ
hex_value n = if leb n 57 then n - 48 else n - 87

hex_value-digit_of : (d : ℕ) → d < 16 → hex_value (code (digit_of d)) ≡ d
unfolding hex_value
hex_value-digit_of zero h = refl
hex_value-digit_of (suc zero) h = refl
hex_value-digit_of (suc (suc zero)) h = refl
hex_value-digit_of (suc (suc (suc zero))) h = refl
hex_value-digit_of (suc (suc (suc (suc zero)))) h = refl
hex_value-digit_of (suc (suc (suc (suc (suc zero))))) h = refl
hex_value-digit_of (suc (suc (suc (suc (suc (suc zero)))))) h = refl
hex_value-digit_of (suc (suc (suc (suc (suc (suc (suc zero))))))) h = refl
hex_value-digit_of (suc (suc (suc (suc (suc (suc (suc (suc zero)))))))) h = refl
hex_value-digit_of (suc (suc (suc (suc (suc (suc (suc (suc (suc zero))))))))) h = refl
hex_value-digit_of (suc (suc (suc (suc (suc (suc (suc (suc (suc (suc zero)))))))))) h = refl
hex_value-digit_of (suc (suc (suc (suc (suc (suc (suc (suc (suc (suc (suc zero))))))))))) h = refl
hex_value-digit_of (suc (suc (suc (suc (suc (suc (suc (suc (suc (suc (suc (suc zero)))))))))))) h =
    refl
hex_value-digit_of
      (suc (suc (suc (suc (suc (suc (suc (suc (suc (suc (suc (suc (suc zero))))))))))))) h =
    refl
hex_value-digit_of
      (suc (suc (suc (suc (suc (suc (suc (suc (suc (suc (suc (suc (suc (suc zero)))))))))))))) h =
    refl
hex_value-digit_of
      (suc (suc (suc (suc (suc (suc (suc (suc (suc (suc (suc (suc (suc (suc (suc zero)))))))))))))))
      h =
    refl
hex_value-digit_of
      (suc
        (suc (suc (suc (suc (suc (suc (suc (suc (suc (suc (suc (suc (suc (suc (suc n))))))))))))))))
      h =
    absurd (omega arith)

read_hex : String → ℕ × String
read_hex (String.◌∷◌ x (String.◌∷◌ y (String.◌∷◌ a (String.◌∷◌ b s)))) =
    (16 * hex_value (code a) + hex_value (code b), s)
read_hex s = (0, s)

read_escape : String → ℕ × String
unfolding read_hex
read_escape String.[] = (0, String.[])
read_escape (String.◌∷◌ y s) =
    if nat_beq (code y) 34
    then (34, s)
    else if nat_beq (code y) 92
    then (92, s)
    else if nat_beq (code y) 110
    then (10, s)
    else if nat_beq (code y) 114
    then (13, s)
    else if nat_beq (code y) 116
    then (9, s)
    else if nat_beq (code y) 102
    then (12, s)
    else if nat_beq (code y) 98
    then (8, s)
    else read_hex s

-- The code of the first character of a quoted text, and what follows its escape.
unescape : String → ℕ × String
unfolding read_escape
unescape String.[] = (0, String.[])
unescape (String.◌∷◌ x s) = if nat_beq (code x) 92 then read_escape s else (code x, s)

one : (c : Char) (s : String) → String.◌∷◌ c String.[] ++ s ≡ String.◌∷◌ c s
one c s = cons-append c String.[] s ∙ ap (String.◌∷◌ c) (nil-append s)

two :
    (c d : Char) (s : String)
    → String.◌∷◌ c (String.◌∷◌ d String.[]) ++ s ≡ String.◌∷◌ c (String.◌∷◌ d s)
two c d s = cons-append c (String.◌∷◌ d String.[]) s ∙ ap (String.◌∷◌ c) (one d s)

four :
    (a b c d : Char) (s : String)
    → String.◌∷◌ a (String.◌∷◌ b (String.◌∷◌ c (String.◌∷◌ d String.[]))) ++ s
      ≡ String.◌∷◌ a (String.◌∷◌ b (String.◌∷◌ c (String.◌∷◌ d s)))
four a b c d s =
    cons-append a (String.◌∷◌ b (String.◌∷◌ c (String.◌∷◌ d String.[]))) s
    ∙ ap (String.◌∷◌ a)
        (cons-append b (String.◌∷◌ c (String.◌∷◌ d String.[])) s ∙ ap (String.◌∷◌ b) (two c d s))

hex_lem :
    (n : ℕ) (s : String)
    → n ≤ 31
    → unescape (
        ("\\u00" ++ String.◌∷◌ (digit_of (n / 16)) (String.◌∷◌ (digit_of (n % 16)) String.[])) ++ s)
      ≡ (n, s)
unfolding unescape read_hex read_escape
hex_lem n s h =
    let e = hex_value-digit_of (n / 16) (omega arith) in
    let f = hex_value-digit_of (n % 16) (omega arith) in
    let g : 16 * (n / 16) + n % 16 ≡ n = omega arith in
    rw
      (
        append_assoc "\\u00"
            (String.◌∷◌ (digit_of (n / 16)) (String.◌∷◌ (digit_of (n % 16)) String.[])) s,
        two (digit_of (n / 16)) (digit_of (n % 16)) s,
        four _ _ _ _ (String.◌∷◌ (digit_of (n / 16)) (String.◌∷◌ (digit_of (n % 16)) s)),
        e,
        f,
        g,
      )
      refl

unescape-escape : (c : Char) (s : String) → unescape (escape c ++ s) ≡ (code c, s)
unfolding escape unescape read_escape
unescape-escape c s = elim (Bool-cases (nat_beq (code c) 34)) [
  | inl e ↦ rw (e, (nat_beq_iff (code c) 34).0 e, two _ _ s) refl
  | inr n34 ↦ elim (Bool-cases (nat_beq (code c) 92)) [
    | inl e ↦ rw (n34, e, (nat_beq_iff (code c) 92).0 e, two _ _ s) refl
    | inr n92 ↦ elim (Bool-cases (nat_beq (code c) 10)) [
      | inl e ↦ rw (n34, n92, e, (nat_beq_iff (code c) 10).0 e, two _ _ s) refl
      | inr n10 ↦ elim (Bool-cases (nat_beq (code c) 13)) [
        | inl e ↦ rw (n34, n92, n10, e, (nat_beq_iff (code c) 13).0 e, two _ _ s) refl
        | inr n13 ↦ elim (Bool-cases (nat_beq (code c) 9)) [
          | inl e ↦ rw (n34, n92, n10, n13, e, (nat_beq_iff (code c) 9).0 e, two _ _ s) refl
          | inr n9 ↦ elim (Bool-cases (nat_beq (code c) 12)) [
            | inl e ↦ rw (n34, n92, n10, n13, n9, e, (nat_beq_iff (code c) 12).0 e, two _ _ s) refl
            | inr n12 ↦ elim (Bool-cases (nat_beq (code c) 8)) [
              | inl e ↦
                  rw (n34, n92, n10, n13, n9, n12, e, (nat_beq_iff (code c) 8).0 e, two _ _ s) refl
              | inr n8 ↦ elim (Bool-cases (leb (code c) 31)) [
                | inl e ↦
                    rw (n34, n92, n10, n13, n9, n12, n8, e) (hex_lem (code c) s (ground arith))
                | inr e ↦ rw (n34, n92, n10, n13, n9, n12, n8, e, one c s) (rw n92 refl)
              ]
            ]
          ]
        ]
      ]
    ]
  ]
]

-- Two characters that are escaped alike, before whatever follows, are the same.
pub escape_inj : (c d : Char) (s t : String) → escape c ++ s ≡ escape d ++ t → (c ≡ d) × (s ≡ t)
escape_inj c d s t p =
    let q : (code c, s) ≡ (code d, t) =
      sym (unescape-escape c s) ∙ ap unescape p ∙ unescape-escape d t in
    (Char-path c d (ap (λ (x : ℕ × String). x.0) q), ap (λ (x : ℕ × String). x.1) q)

first : String → ℕ
first String.[] = 0
first (String.◌∷◌ c s) = code c

quote_first : (r : String) → first ("\"" ++ r) ≡ 34
unfolding first
quote_first r = rw (one _ r) refl

escaped_first : (s : String) → first ("\\\"" ++ s) ≡ 92
unfolding first
escaped_first s = rw (two _ _ s) refl

quote_read : (r : String) → unescape ("\"" ++ r) ≡ (34, r)
unfolding unescape
quote_read r = rw (one _ r) refl

quote_escape : (d : Char) → code d ≡ 34 → escape d ≡ "\\\""
unfolding escape
quote_escape d e = rw ((nat_beq_iff (code d) 34).1 e) refl

quote_is_no_escape : (d : Char) (s r : String) → "\"" ++ r ≡ escape d ++ s → ⊥
quote_is_no_escape d s r p =
    let q = sym (quote_read r) ∙ ap unescape p ∙ unescape-escape d s in
    let e = quote_escape d (sym (ap (λ (x : ℕ × String). x.0) q)) in
    let h : ◌≡◌ {A = ℕ} 34 92 =
      sym (quote_first r) ∙ ap first (p ∙ ap (λ x. x ++ s) e) ∙ escaped_first s in
    absurd (omega arith)

-- A quoted text ends where it ends: what is quoted and what follows can be told apart.
pub escaped_inj :
    (s t r r' : String) → escaped s ++ ("\"" ++ r) ≡ escaped t ++ ("\"" ++ r') → (s ≡ t) × (r ≡ r')
unfolding escaped
escaped_inj String.[] String.[] r r' p = (
  refl,
  append_cancel_left "\"" r r' (sym (nil-append ("\"" ++ r)) ∙ p ∙ nil-append ("\"" ++ r')),
)
escaped_inj String.[] (String.◌∷◌ d t) r r' p = absurd (
    quote_is_no_escape d (escaped t ++ ("\"" ++ r')) r
      (sym (nil-append ("\"" ++ r)) ∙ p ∙ append_assoc (escape d) (escaped t) ("\"" ++ r')))
escaped_inj (String.◌∷◌ c s) String.[] r r' p = absurd (
    quote_is_no_escape c (escaped s ++ ("\"" ++ r)) r'
      (sym (nil-append ("\"" ++ r')) ∙ sym p ∙ append_assoc (escape c) (escaped s) ("\"" ++ r)))
escaped_inj (String.◌∷◌ c s) (String.◌∷◌ d t) r r' p =
    let q = escape_inj c d (escaped s ++ ("\"" ++ r)) (escaped t ++ ("\"" ++ r')) (
      sym (append_assoc (escape c) (escaped s) ("\"" ++ r))
      ∙ p
      ∙ append_assoc (escape d) (escaped t) ("\"" ++ r')) in
    let ih = escaped_inj s t r r' q.1 in (ap₂ String.◌∷◌ q.0 ih.0, ih.1)

pub quoted_inj : (s t r r' : String) → quoted s ++ r ≡ quoted t ++ r' → (s ≡ t) × (r ≡ r')
unfolding quoted
quoted_inj s t r r' p =
    escaped_inj s t r r' (append_cancel_left "\"" _ _ (sym (split s r) ∙ p ∙ split t r'))
  where
    split : (x y : String) → ("\"" ++ (escaped x ++ "\"")) ++ y ≡ "\"" ++ (escaped x ++ ("\"" ++ y))
    split x y =
        append_assoc "\"" (escaped x ++ "\"") y
        ∙ ap (λ z. "\"" ++ z) (append_assoc (escaped x) "\"" y)

null_first : (r : String) → first ("null" ++ r) ≡ 110
unfolding first
null_first r = rw (four _ _ _ _ r) refl

-- What begins with `null` is no quoted text.
pub null_or_quoted : (s r r' : String) → "null" ++ r ≡ quoted s ++ r' → ⊥
unfolding quoted
null_or_quoted s r r' p =
    let h : ◌≡◌ {A = ℕ} 110 34 =
      sym (null_first r)
      ∙ ap first (p ∙ append_assoc "\"" (escaped s ++ "\"") r')
      ∙ quote_first ((escaped s ++ "\"") ++ r') in
    absurd (omega arith)

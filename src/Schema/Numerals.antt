-- ===== src/Schema/Numerals.antt =====
-- schema/projection.py, identity/: decimal numbers can be read back from what follows them.
use Prim.Native.Nat.{zero, suc, ◌+◌, ◌*◌, ◌-◌, ◌/◌, ◌%◌, ◌<◌}
use Prim.Native.Char.{Char, code}
use Prim.Native.String.{◌++◌}
use text.Mathlib.TextLemmas.{nil-append, cons-append, append_assoc, append_cancel_left}
use claude_code_codex_review.Prelude.{
  ℕ, String, Bool, true, false, if◌then◌else◌, leb, ◌≡◌, refl, sym, ap, ◌∙◌, arith, Bool-cases, inl,
  inr,
}
use claude_code_codex_review.Prelude.Text.{decimal, digits, digit_of, is_digit}

-- The number that a text of digits adds to what was read, and what follows the digits.
read_number : ℕ → String → ℕ × String
read_number n String.[] = (n, String.[])
read_number n (String.◌∷◌ c s) =
    let rest = read_number (n * 10 + (code c - 48)) s in
    if is_digit c then rest else (n, String.◌∷◌ c s)

code-digit_of : (d : ℕ) → d < 10 → code (digit_of d) ≡ 48 + d
code-digit_of zero h = refl
code-digit_of (suc zero) h = refl
code-digit_of (suc (suc zero)) h = refl
code-digit_of (suc (suc (suc zero))) h = refl
code-digit_of (suc (suc (suc (suc zero)))) h = refl
code-digit_of (suc (suc (suc (suc (suc zero))))) h = refl
code-digit_of (suc (suc (suc (suc (suc (suc zero)))))) h = refl
code-digit_of (suc (suc (suc (suc (suc (suc (suc zero))))))) h = refl
code-digit_of (suc (suc (suc (suc (suc (suc (suc (suc zero)))))))) h = refl
code-digit_of (suc (suc (suc (suc (suc (suc (suc (suc (suc zero))))))))) h = refl
code-digit_of (suc (suc (suc (suc (suc (suc (suc (suc (suc (suc n)))))))))) h = absurd (omega arith)

read_digit :
    (m d : ℕ) (r : String)
    → d < 10
    → read_number m (String.◌∷◌ (digit_of d) r) ≡ read_number (m * 10 + d) r
unfolding read_number
read_digit m d r h =
    let lo : leb 48 (48 + d) ≡ true = ground arith in
    let hi : leb (48 + d) 57 ≡ true = ground arith in
    let e : m * 10 + (48 + d - 48) ≡ m * 10 + d = omega arith in
    rw (code-digit_of d h, lo, hi, e) refl

one : (c : Char) (s : String) → String.◌∷◌ c String.[] ++ s ≡ String.◌∷◌ c s
one c s = cons-append c String.[] s ∙ ap (String.◌∷◌ c) (nil-append s)

abbrev round : ℕ → ℕ → Bool → String
round fuel n b = elim b [
  | true ↦ String.◌∷◌ (digit_of n) String.[]
  | false ↦ digits fuel (n / 10) ++ String.◌∷◌ (digit_of (n % 10)) String.[]
]

digits_step : (fuel n : ℕ) (b : Bool) → leb n 9 ≡ b → digits (suc fuel) n ≡ round fuel n b
unfolding digits
digits_step fuel n b e = ap (round fuel n) e

-- A round for each tenth is enough.
read-digits :
    (fuel n : ℕ) (r : String) → n < fuel → read_number 0 (digits fuel n ++ r) ≡ read_number n r
read-digits zero n r h = absurd (omega arith)
read-digits (suc fuel) n r h = elim (Bool-cases (leb n 9)) [
  | inl e ↦
      rw (digits_step fuel n true e, one (digit_of n) r)
        (read_digit 0 n r (ground arith) ∙ ap (λ x. read_number x r) (omega arith))
  | inr e ↦
      rw
        (
          digits_step fuel n false e,
          append_assoc (digits fuel (n / 10)) (String.◌∷◌ (digit_of (n % 10)) String.[]) r,
          one (digit_of (n % 10)) r,
        )
        (read-digits fuel (n / 10) (String.◌∷◌ (digit_of (n % 10)) r) (ground arith)
          ∙ read_digit (n / 10) (n % 10) r (omega arith)
          ∙ ap (λ x. read_number x r) (omega arith))
]

comma_stops : (n : ℕ) (r : String) → read_number n ("," ++ r) ≡ (n, "," ++ r)
unfolding read_number
comma_stops n r = rw (one _ r) refl

read-decimal : (n : ℕ) (r : String) → read_number 0 (decimal n ++ ("," ++ r)) ≡ (n, "," ++ r)
unfolding decimal
read-decimal n r = read-digits (suc n) n ("," ++ r) (omega arith) ∙ comma_stops n r

-- A number ends at a comma: the number and what follows can be told apart.
pub decimal_inj :
    (m n : ℕ) (r r' : String)
    → decimal m ++ ("," ++ r) ≡ decimal n ++ ("," ++ r')
    → (m ≡ n) × (r ≡ r')
decimal_inj m n r r' p =
    let q = sym (read-decimal m r) ∙ ap (read_number 0) p ∙ read-decimal n r' in
    (ap (λ (x : ℕ × String). x.0) q, append_cancel_left "," r r' (ap (λ (x : ℕ × String). x.1) q))

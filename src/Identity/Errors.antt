-- ===== src/Identity/Errors.antt =====
-- identity/errors.py: IdentityError as a value, of which the stage is kept (the detail is a sentence), and
-- the KeyError of a missing entry of a dict.
use claude_code_codex_review.Prelude.{String, ◌≡◌, refl}

pub record IdentityError : Type 0 where
  pub stage : String

pub data Checked {ℓ} (A : Type ℓ) : Type ℓ where
  made : A → Checked A
  raised : IdentityError → Checked A
  key_error : String → Checked A

abbrev pub raise {ℓ} : {A : Type ℓ} → String → Checked A
raise s = Checked.raised (record { stage = s })

infixl 1 ◌>>=◌
abbrev pub ◌>>=◌ {ℓ κ} : {A : Type ℓ} {B : Type κ} → Checked A → (A → Checked B) → Checked B
Checked.made a >>= f = f a
Checked.raised e >>= f = Checked.raised e
Checked.key_error k >>= f = Checked.key_error k

-- Where a chain of checks is passed, each of its parts is.
pub bind-made {ℓ κ} :
    {A : Type ℓ} {B : Type κ} (r : Checked A) (f : A → Checked B) (b : B)
    → (r >>= f) ≡ Checked.made b
    → (a : A) × (r ≡ Checked.made a) × (f a ≡ Checked.made b)
bind-made (Checked.made a) f b h = (a, refl, h)
bind-made (Checked.raised e) f b h = absurd (cc)
bind-made (Checked.key_error k) f b h = absurd (cc)

pub made_inj {ℓ} : {A : Type ℓ} {a b : A} → Checked.made a ≡ Checked.made b → a ≡ b
made_inj p = cc

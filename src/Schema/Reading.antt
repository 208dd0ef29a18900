-- ===== src/Schema/Reading.antt =====
-- A value, or the text that says why there is none, as the parsers answer.
use claude_code_codex_review.Prelude.{String, ◌≡◌, refl}

pub data Reading {ℓ} (A : Type ℓ) : Type ℓ where
  read : A → Reading A
  refused : String → Reading A

infixl 1 ◌>>=◌
abbrev pub ◌>>=◌ {ℓ κ} : {A : Type ℓ} {B : Type κ} → Reading A → (A → Reading B) → Reading B
Reading.read a >>= f = f a
Reading.refused why >>= f = Reading.refused why

-- Where a chain of readings is read, each of its parts is.
pub bind-read {ℓ κ} :
    {A : Type ℓ} {B : Type κ} (r : Reading A) (f : A → Reading B) (b : B)
    → (r >>= f) ≡ Reading.read b
    → (a : A) × (r ≡ Reading.read a) × (f a ≡ Reading.read b)
bind-read (Reading.read a) f b h = (a, refl, h)
bind-read (Reading.refused why) f b h = absurd (cc)

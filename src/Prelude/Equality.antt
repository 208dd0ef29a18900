-- ===== src/Prelude/Equality.antt =====
-- Equality tests as an interface, its instances for texts, options, lists and enumerations, and
-- membership in a finite set that is given by its elements.
use Prim.Native.Nat.{ℕ}
use Prim.Native.String.{String}
use mathlib.Core.Path.{◌≡◌, refl, sym, ap, ◌∙◌}
use mathlib.Core.Logic.{◌↔◌, inl, inr}
use mathlib.Core.Bool.{Bool, true, false, ◌&&◌, ◌||◌}
use mathlib.Core.Option.{Option, none, some}
use mathlib.Core.List.{List, [], ◌∷◌}
use native.Mathlib.Omega.{arith}
use text.Mathlib.Text.{◌==◌ as str_eq}
use text.Mathlib.TextEquality.{eq_iff}
use claude_code_codex_review.Prelude.Tests.{
  nat_beq, nat_beq_iff, Bool-cases, &&-true, ||-true, true-false,
}
use claude_code_codex_review.Prelude.Lists.{get_elem?, all}

pub record Eq {ℓ} (A : Type ℓ) : Type ℓ where
  pub beq : A → A → Bool
  pub beq_iff : (x y : A) → (beq x y ≡ true) ↔ (x ≡ y)

some_inj {ℓ} : {A : Type ℓ} {a b : A} → ◌≡◌ {A = Option A} (some a) (some b) → a ≡ b
some_inj p = cc

infix 50 ◌==◌
abbrev pub ◌==◌ {ℓ} : {A : Type ℓ} ⦃e : Eq A⦄ → A → A → Bool
◌==◌ ⦃e⦄ = e.beq

-- An enumeration: the position of each value in the list of all of them.
module _ {ℓ} {A : Type ℓ} (code : A → ℕ) (values : List A) where
  pub enum_iff :
      ((a : A) → get_elem? values (code a) ≡ some a)
      → (a b : A) → (nat_beq (code a) (code b) ≡ true) ↔ (a ≡ b)
  enum_iff law a b = (
    λ h.
        some_inj
          (sym (law a) ∙ ap (get_elem? values) ((nat_beq_iff (code a) (code b)).0 h) ∙ law b),
    λ p. (nat_beq_iff (code a) (code b)).1 (ap code p),
  )

  abbrev pub enum_eq : ((a : A) → get_elem? values (code a) ≡ some a) → Eq A
  enum_eq law = record { beq = λ a b. nat_beq (code a) (code b); beq_iff = enum_iff law }

-- Equality of a wrapper by the value inside.
module _ {ℓ κ} {A : Type ℓ} {B : Type κ} (unwrap : A → B) ⦃e : Eq B⦄ where
  abbrev pub wrapped_eq : ((a b : A) → unwrap a ≡ unwrap b → a ≡ b) → Eq A
  wrapped_eq inj = record {
    beq = λ a b. e.beq (unwrap a) (unwrap b);
    beq_iff = λ a b. (
      λ h. inj a b ((e.beq_iff (unwrap a) (unwrap b)).0 h),
      λ p. (e.beq_iff (unwrap a) (unwrap b)).1 (ap unwrap p),
    );
  }

module _ {ℓ} {A : Type ℓ} ⦃e : Eq A⦄ where
  abbrev option_beq : Option A → Option A → Bool
  option_beq none none = true
  option_beq (some a) (some b) = e.beq a b
  option_beq _ _ = false

  pub option_iff : (a b : Option A) → (option_beq a b ≡ true) ↔ (a ≡ b)
  option_iff none none = (λ h. refl, λ p. refl)
  option_iff none (some b) = (λ h. cc, λ p. cc)
  option_iff (some a) none = (λ h. cc, λ p. cc)
  option_iff (some a) (some b) =
      (λ h. ap some ((e.beq_iff a b).0 h), λ p. (e.beq_iff a b).1 (some_inj p))

  instance abbrev pub option_eq : Eq (Option A)
  option_eq = record { beq = option_beq; beq_iff = option_iff }

  abbrev list_beq : List A → List A → Bool
  list_beq [] [] = true
  list_beq (a ∷ as') (b ∷ bs) = e.beq a b && list_beq as' bs
  list_beq _ _ = false

  pub list_iff : (xs ys : List A) → (list_beq xs ys ≡ true) ↔ (xs ≡ ys)
  list_iff [] [] = (λ h. refl, λ p. refl)
  list_iff [] (b ∷ bs) = (λ h. cc, λ p. cc)
  list_iff (a ∷ as') [] = (λ h. cc, λ p. cc)
  list_iff (a ∷ as') (b ∷ bs) = (
    λ h.
        let both = &&-true (e.beq a b) (list_beq as' bs) h in
        cc ((e.beq_iff a b).0 both.0, (list_iff as' bs).0 both.1),
    λ p. ground (arith, (e.beq_iff a b).1, (list_iff as' bs).1),
  )

  instance abbrev pub list_eq : Eq (List A)
  list_eq = record { beq = list_beq; beq_iff = list_iff }

  -- `a in xs`, for a set that is given by its elements.
  unfoldable pub elem : A → List A → Bool
  elem a [] = false
  elem a (x ∷ xs) = e.beq a x || elem a xs

  pub ==-refl : (a : A) → e.beq a a ≡ true
  ==-refl a = (e.beq_iff a a).1 refl

  pub ==-sym : (a b : A) → e.beq a b ≡ false → e.beq b a ≡ false
  ==-sym a b h = elim (Bool-cases (e.beq b a)) [
    | inl x ↦ absurd (true-false (e.beq a b) ((e.beq_iff a b).1 (sym ((e.beq_iff b a).0 x))) h)
    | inr x ↦ x
  ]

  -- What holds of every element of the set holds of a member.
  pub elem-all :
      (p : A → Bool) (a : A) (xs : List A) → elem a xs ≡ true → all p xs ≡ true → p a ≡ true
  unfolding elem all
  elem-all p a [] h k = absurd (true-false false h refl)
  elem-all p a (x ∷ xs) h k =
      let both = &&-true (p x) (all p xs) k in
      elim (||-true (e.beq a x) (elem a xs) h) [
        | inl q ↦ ap p ((e.beq_iff a x).0 q) ∙ both.0
        | inr q ↦ elem-all p a xs q both.1
      ]

  pub elem-singleton : (a x : A) → elem a (x ∷ []) ≡ true → a ≡ x
  unfolding elem
  elem-singleton a x h = elim (||-true (e.beq a x) false h) [
    | inl q ↦ (e.beq_iff a x).0 q
    | inr q ↦ absurd (true-false false q refl)
  ]

instance abbrev pub string_eq : Eq String
string_eq = record { beq = str_eq; beq_iff = eq_iff }

-- ===== src/Prelude/Order.antt =====
-- Python's `<` on `str`: by code points, a proper prefix first. It is a strict total order.
use Prim.Native.Nat.{ℕ, compare, Ordering}
use Prim.Native.Char.{code}
use Prim.Native.String.{String}
use mathlib.Core.Path.{◌≡◌, refl, sym, ap, ap₂, ◌∙◌}
use mathlib.Core.Logic.{◌≢◌}
use mathlib.Core.Bool.{Bool, true, false}
use native.Mathlib.Omega.{arith}
use text.Mathlib.TextEquality.{Char-path}
use claude_code_codex_review.Prelude.Tests.{nat_beq, if◌then◌else◌, true-false}

abbrev pub ltb : ℕ → ℕ → Bool
ltb a b = elim (compare a b) [ Ordering.lt ↦ true | _ ↦ false ]

unfoldable pub before : String → String → Bool
before String.[] String.[] = false
before String.[] (String.◌∷◌ d t) = true
before (String.◌∷◌ c s) String.[] = false
before (String.◌∷◌ c s) (String.◌∷◌ d t) =
    if nat_beq (code c) (code d) then before s t else ltb (code c) (code d)

pub before_irrefl : (s : String) → before s s ≡ false
unfolding before
before_irrefl String.[] = refl
before_irrefl (String.◌∷◌ c s) = ground (arith, before_irrefl s)

pub before-ne : (s t : String) → before s t ≡ true → s ≢ t
before-ne s t h p = true-false (before t t) (ap (λ x. before x t) (sym p) ∙ h) (before_irrefl t)

pub before_trans : (s t u : String) → before s t ≡ true → before t u ≡ true → before s u ≡ true
unfolding before
before_trans String.[] String.[] u h k = cc
before_trans String.[] (String.◌∷◌ d t) String.[] h k = cc
before_trans String.[] (String.◌∷◌ d t) (String.◌∷◌ e u) h k = refl
before_trans (String.◌∷◌ c s) String.[] u h k = cc
before_trans (String.◌∷◌ c s) (String.◌∷◌ d t) String.[] h k = cc
before_trans (String.◌∷◌ c s) (String.◌∷◌ d t) (String.◌∷◌ e u) h k =
    ground (arith, before_trans s t u)

pub before-total : (s t : String) → s ≢ t → before s t ≡ false → before t s ≡ true
unfolding before
before-total String.[] String.[] ne h = absurd (ne refl)
before-total String.[] (String.◌∷◌ d t) ne h = cc
before-total (String.◌∷◌ c s) String.[] ne h = refl
before-total (String.◌∷◌ c s) (String.◌∷◌ d t) ne h = ground (arith, before-total s t, tail_ne)
  where
    tail_ne : code c ≡ code d → s ≢ t
    tail_ne e p = ne (ap₂ String.◌∷◌ (Char-path c d e) p)

-- ===== src/Prelude/Sort.antt =====
-- `dict.setdefault` over a sequence, `sorted` by a text key, and sequences in strictly ascending order.
pub mod Laws
pub mod Canonical
use claude_code_codex_review.Prelude.Order.{
  before, before_irrefl, before-ne, before_trans, before-total,
}
use claude_code_codex_review.Prelude.{
  ℕ, String, List, [], ◌∷◌, ◌++◌, map, Bool, true, false, ◌≡◌, ◌≢◌, refl, sym, ap, ◌∙◌, arith, ◌==◌,
  string_eq, if◌then◌else◌, any, keep, All, Pairs, All-append, length, inl, inr, Bool-cases,
}

module _ {A : Type 0} (key : A → String) where
  unfoldable pub has : String → List A → Bool
  has k [] = false
  has k (x ∷ xs) = if key x == k then true else has k xs

  -- `for x in xs: d.setdefault(key(x), x)`, with the entries of `d` in the order of insertion.
  unfoldable pub setdefault : List A → A → List A
  setdefault d x = if has (key x) d then d else d ++ x ∷ []

  unfoldable pub collect : List A → List A → List A
  unfolding setdefault
  collect d [] = d
  collect d (x ∷ xs) = collect (setdefault d x) xs

  unfoldable pub insert : A → List A → List A
  insert x [] = x ∷ []
  insert x (y ∷ ys) = if before (key x) (key y) then x ∷ y ∷ ys else y ∷ insert x ys

  unfoldable pub sort : List A → List A
  unfolding insert
  sort [] = []
  sort (x ∷ xs) = insert x (sort xs)

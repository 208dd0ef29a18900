-- ===== src/Prelude/Sort/Canonical.antt =====
-- Sequences without repeated keys in ascending order: made by `canonicalize`, which leaves them alone.
use mathlib.Core.List.{append-nil, append_assoc}
use claude_code_codex_review.Prelude.Order.{before, before-ne}
use claude_code_codex_review.Prelude.{
  String, List, [], ◌∷◌, ◌++◌, map, Bool, true, false, ◌≡◌, ◌≢◌, refl, sym, ap, ◌∙◌, arith, ◌==◌,
  string_eq, keep, All, All-append, All-keep, inl, inr, Bool-cases, true-false,
}
use claude_code_codex_review.Prelude.Sort.{has, setdefault, collect, insert, sort}
use claude_code_codex_review.Prelude.Sort.Laws.{
  Ascending, Distinct, has-sort, has-collect, sort-Ascending,
}

module _ {A : Type 0} (key : A → String) where
  unfoldable pub canonicalize : List A → List A
  canonicalize xs = sort key (collect key [] xs)

  missing : (k : String) (d : List A) → has key k d ≡ false → All (λ y. key y ≢ k) d
  unfolding has
  missing k [] h = tt
  missing k (x ∷ xs) h = elim (Bool-cases (key x == k)) [
    | inl e ↦ ground (arith, e)
    | inr e ↦ (
      λ p. true-false (key x == k) ((string_eq.beq_iff (key x) k).1 p) e,
      missing k xs (ground (arith, e)),
    )
  ]

  Distinct-snoc :
      (d : List A) (x : A)
      → Distinct key d
      → All (λ y. key y ≢ key x) d
      → Distinct key (d ++ x ∷ [])
  Distinct-snoc [] x h ne = (tt, tt)
  Distinct-snoc (y ∷ d) x h ne =
      (All-append (λ z. key y ≢ key z) d (x ∷ []) h.0 (ne.0, tt), Distinct-snoc d x h.1 ne.1)

  setdefault-Distinct : (d : List A) (x : A) → Distinct key d → Distinct key (setdefault key d x)
  unfolding setdefault
  setdefault-Distinct d x h = elim (Bool-cases (has key (key x) d)) [
    | inl old ↦ rw old h
    | inr new ↦ rw new (Distinct-snoc d x h (missing (key x) d new))
  ]

  collect-Distinct : (d xs : List A) → Distinct key d → Distinct key (collect key d xs)
  unfolding collect
  collect-Distinct d [] h = h
  collect-Distinct d (x ∷ xs) h =
      collect-Distinct (setdefault key d x) xs (setdefault-Distinct d x h)

  -- The result is in strictly ascending order of keys.
  pub canonicalize-Ascending : (xs : List A) → Ascending key (canonicalize xs)
  unfolding canonicalize
  canonicalize-Ascending xs = sort-Ascending key (collect key [] xs) (collect-Distinct [] xs tt)

  -- A key is in the result exactly when it was in the input.
  pub has-canonicalize : (k : String) (xs : List A) → has key k (canonicalize xs) ≡ has key k xs
  unfolding canonicalize has
  has-canonicalize k xs = has-sort key k (collect key [] xs) ∙ has-collect key k [] xs

  insert_below :
      (x : A) (xs : List A) → All (λ y. before (key x) (key y) ≡ true) xs → insert key x xs ≡ x ∷ xs
  unfolding insert
  insert_below x [] h = refl
  insert_below x (y ∷ ys) h = rw h.0

  sort-fixed : (xs : List A) → Ascending key xs → sort key xs ≡ xs
  unfolding sort
  sort-fixed [] h = refl
  sort-fixed (x ∷ xs) h = rw (sort-fixed xs h.1) (insert_below x xs h.0)

  has_above :
      (x : A) (xs : List A)
      → All (λ y. before (key x) (key y) ≡ true) xs
      → has key (key x) xs ≡ false
  unfolding has
  has_above x [] h = refl
  has_above x (y ∷ ys) h = elim (Bool-cases (key y == key x)) [
    | inl e ↦ absurd (before-ne (key x) (key y) h.0 (sym ((string_eq.beq_iff (key y) (key x)).0 e)))
    | inr e ↦ rw e (has_above x ys h.1)
  ]

  Distinct-middle :
      (d : List A) (x : A) (xs : List A) → Distinct key (d ++ x ∷ xs) → has key (key x) d ≡ false
  unfolding has
  Distinct-middle [] x xs h = refl
  Distinct-middle (y ∷ d) x xs h = elim (Bool-cases (key y == key x)) [
    | inl e ↦ absurd (All-at d h.0 ((string_eq.beq_iff (key y) (key x)).0 e))
    | inr e ↦ rw e (Distinct-middle d x xs h.1)
  ]
    where
      All-at : (d : List A) → All (λ z. key y ≢ key z) (d ++ x ∷ xs) → key y ≢ key x
      All-at [] h = h.0
      All-at (z ∷ d) h = All-at d h.1

  collect-fixed : (d xs : List A) → Distinct key (d ++ xs) → collect key d xs ≡ d ++ xs
  unfolding collect setdefault
  collect-fixed d [] h = sym (append-nil d)
  collect-fixed d (x ∷ xs) h = rw (Distinct-middle d x xs h) (
      collect-fixed (d ++ x ∷ []) xs (rw (append_assoc d (x ∷ []) xs) h)
      ∙ append_assoc d (x ∷ []) xs)

  Ascending→Distinct : (xs : List A) → Ascending key xs → Distinct key xs
  Ascending→Distinct [] h = tt
  Ascending→Distinct (x ∷ xs) h = (apart xs h.0, Ascending→Distinct xs h.1)
    where
      apart :
          (ys : List A) → All (λ y. before (key x) (key y) ≡ true) ys → All (λ y. key x ≢ key y) ys
      apart [] h = tt
      apart (y ∷ ys) h = (before-ne (key x) (key y) h.0, apart ys h.1)

  -- A sequence in strictly ascending order is its own canonical form.
  pub canonicalize-fixed : (xs : List A) → Ascending key xs → canonicalize xs ≡ xs
  unfolding canonicalize
  canonicalize-fixed xs h =
      ap (sort key) (collect-fixed [] xs (Ascending→Distinct xs h)) ∙ sort-fixed xs h

  pub keep-Ascending : (p : A → Bool) (xs : List A) → Ascending key xs → Ascending key (keep p xs)
  unfolding keep
  keep-Ascending p [] h = h
  keep-Ascending p (x ∷ xs) h = elim (Bool-cases (p x)) [
    | inl e ↦ rw e (All-keep (λ y. before (key x) (key y) ≡ true) p xs h.0, keep-Ascending p xs h.1)
    | inr e ↦ rw e (keep-Ascending p xs h.1)
  ]

  pub map-Ascending : (xs : List A) → Ascending key xs → Ascending (λ (s : String). s) (map key xs)
  map-Ascending [] h = tt
  map-Ascending (x ∷ xs) h = (all-map xs h.0, map-Ascending xs h.1)
    where
      all-map :
          (ys : List A)
          → All (λ y. before (key x) (key y) ≡ true) ys
          → All (λ s. before (key x) s ≡ true) (map key ys)
      all-map [] h = tt
      all-map (y ∷ ys) h = (h.0, all-map ys h.1)

-- `bindings == sorted(bindings) and len(set(bindings)) == len(bindings)`.
module _ (ks : List String) where
  pub sort-texts : Ascending (λ (s : String). s) ks → sort (λ (s : String). s) ks ≡ ks
  sort-texts h = sort-fixed (λ s. s) ks h

  pub collect-texts : Ascending (λ (s : String). s) ks → collect (λ (s : String). s) [] ks ≡ ks
  collect-texts h = collect-fixed (λ s. s) [] ks (Ascending→Distinct (λ s. s) ks h)

-- ===== src/Prelude/Sort/Laws.antt =====
-- What `collect` and `sort` do to keys: which are there, that none is there twice, and their order.
use claude_code_codex_review.Prelude.Order.{before, before_trans, before-total}
use claude_code_codex_review.Prelude.{
  String, List, [], ◌∷◌, ◌++◌, true, ◌||◌, ◌≡◌, ◌≢◌, refl, ◌∙◌, arith, string_eq, All, Pairs, inl,
  inr, Bool-cases,
}
use claude_code_codex_review.Prelude.Sort.{has, setdefault, collect, insert, sort}

module _ {A : Type 0} (key : A → String) where
  abbrev pub Ascending : List A → Type 0
  Ascending = Pairs (λ x y. before (key x) (key y) ≡ true)

  abbrev pub Distinct : List A → Type 0
  Distinct = Pairs (λ x y. key x ≢ key y)

  pub has-append :
      (k : String) (xs ys : List A) → has key k (xs ++ ys) ≡ (has key k xs || has key k ys)
  unfolding has
  has-append k [] ys = refl
  has-append k (x ∷ xs) ys = ground (arith, has-append k xs ys)

  has-insert : (k : String) (x : A) (ys : List A) → has key k (insert key x ys) ≡ has key k (x ∷ ys)
  unfolding has insert
  has-insert k x [] = refl
  has-insert k x (y ∷ ys) = ground (arith, has-insert k x ys)

  pub has-sort : (k : String) (xs : List A) → has key k (sort key xs) ≡ has key k xs
  unfolding has sort
  has-sort k [] = refl
  has-sort k (x ∷ xs) = has-insert k x (sort key xs) ∙ ground (arith, has-sort k xs)

  has-setdefault :
      (k : String) (d : List A) (x : A)
      → has key k (setdefault key d x) ≡ (has key k d || has key k (x ∷ []))
  unfolding has setdefault
  has-setdefault k d x = elim (Bool-cases (has key (key x) d)) [
    | inl old ↦ ground (arith, old, (string_eq.beq_iff (key x) k).0)
    | inr new ↦ rw new (has-append k d (x ∷ []))
  ]

  pub has-collect :
      (k : String) (d xs : List A) → has key k (collect key d xs) ≡ (has key k d || has key k xs)
  unfolding has collect
  has-collect k d [] = ground arith
  has-collect k d (x ∷ xs) =
      has-collect k (setdefault key d x) xs ∙ ground (arith, has-setdefault k d x)

  All-insert {κ} : (P : A → Type κ) (x : A) (ys : List A) → P x → All P ys → All P (insert key x ys)
  unfolding insert
  All-insert P x [] h hs = (h, tt)
  All-insert P x (y ∷ ys) h hs = elim (Bool-cases (before (key x) (key y))) [
    | inl e ↦ rw e (h, hs)
    | inr e ↦ rw e (hs.0, All-insert P x ys h hs.1)
  ]

  All-sort {κ} : (P : A → Type κ) (xs : List A) → All P xs → All P (sort key xs)
  unfolding sort
  All-sort P [] h = h
  All-sort P (x ∷ xs) h = All-insert P x (sort key xs) h.0 (All-sort P xs h.1)

  All-map {κ} : {P Q : A → Type κ} → ((a : A) → P a → Q a) → (xs : List A) → All P xs → All Q xs
  All-map f [] h = h
  All-map f (x ∷ xs) h = (f x h.0, All-map f xs h.1)

  insert-Ascending :
      (x : A) (ys : List A)
      → All (λ y. key x ≢ key y) ys
      → Ascending ys
      → Ascending (insert key x ys)
  unfolding insert
  insert-Ascending x [] ne h = (tt, tt)
  insert-Ascending x (y ∷ ys) ne h = elim (Bool-cases (before (key x) (key y))) [
    | inl e ↦ rw e ((e, All-map (λ z. before_trans (key x) (key y) (key z) e) ys h.0), h)
    | inr e ↦ rw e (
      All-insert (λ z. before (key y) (key z) ≡ true) x ys (before-total (key x) (key y) ne.0 e)
          h.0,
      insert-Ascending x ys ne.1 h.1,
    )
  ]

  pub sort-Ascending : (xs : List A) → Distinct xs → Ascending (sort key xs)
  unfolding sort
  sort-Ascending [] h = tt
  sort-Ascending (x ∷ xs) h =
      insert-Ascending x (sort key xs) (All-sort (λ y. key x ≢ key y) xs h.0)
        (sort-Ascending xs h.1)

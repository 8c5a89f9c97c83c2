-- ===== src/Schema/Table.antt =====
-- SQL's statements on one table, given the test of the WHERE clause, and what they do to a lookup.
use retainer.Prelude.{
  ◌≡◌, refl, Bool, true, false, not, Option, none, some, List, [], ◌∷◌, ◌++◌, arith, if◌then◌else◌,
  Bool-cases, inl, inr,
}

module _ {ℓ} {A : Type ℓ} where
  -- SELECT … WHERE p: the rows, and the first of them
  unfoldable pub select : (A → Bool) → List A → List A
  select p [] = []
  select p (r ∷ rows) = let rest = select p rows in if p r then r ∷ rest else rest

  unfoldable pub find : (A → Bool) → List A → Option A
  find p [] = none
  find p (r ∷ rows) = if p r then some r else find p rows

  -- UPDATE … WHERE p
  unfoldable pub update : (A → Bool) → (A → A) → List A → List A
  update p f [] = []
  update p f (r ∷ rows) = (if p r then f r else r) ∷ update p f rows

  -- DELETE … WHERE p
  unfoldable pub delete : (A → Bool) → List A → List A
  delete p rows = select (λ r. not (p r)) rows

  -- ORDER BY: insertion sort by `before`, rows that are not before one another in table order.
  unfoldable pub insert_sorted : (A → A → Bool) → A → List A → List A
  insert_sorted before r [] = r ∷ []
  insert_sorted before r (s ∷ rows) =
      if before s r then s ∷ insert_sorted before r rows else r ∷ s ∷ rows

  unfoldable pub order_by : (A → A → Bool) → List A → List A
  unfolding insert_sorted
  order_by before [] = []
  order_by before (r ∷ rows) = insert_sorted before r (order_by before rows)

  unfoldable pub exists : (A → Bool) → List A → Bool
  exists p [] = false
  exists p (r ∷ rows) = if p r then true else exists p rows

  -- The row that a lookup finds passes its test.
  pub find-test : (p : A → Bool) (rows : List A) (r : A) → find p rows ≡ some r → p r ≡ true
  unfolding find
  find-test p [] r h = cc
  find-test p (s ∷ rows) r h = ground (arith, find-test p rows r)

  -- A lookup by a test that the update does not change finds the updated row.
  pub find-update :
      (q p : A → Bool) (f : A → A) (rows : List A)
      → ((r : A) → q (f r) ≡ q r)
      → find q (update p f rows)
        ≡ elim (find q rows) [ none ↦ none | some r ↦ some (if p r then f r else r) ]
  unfolding find update
  find-update q p f [] keeps = refl
  find-update q p f (r ∷ rows) keeps = ground (arith, keeps r, find-update q p f rows keeps)

  pub find-append :
      (q : A → Bool) (rows : List A) (r : A)
      → find q (rows ++ r ∷ [])
        ≡ elim (find q rows) [ none ↦ if q r then some r else none | some s ↦ some s ]
  unfolding find
  find-append q [] r = refl
  find-append q (s ∷ rows) r = ground (arith, find-append q rows r)

  -- Where no row passes a test, none passes a stricter one.
  module _ (p q : A → Bool) (stricter : (r : A) → p r ≡ false → q r ≡ false) where
    pub find-nothing : (rows : List A) → exists p rows ≡ false → find q rows ≡ none
    unfolding exists find
    find-nothing [] h = refl
    find-nothing (r ∷ rows) h = ground (arith, stricter r, find-nothing rows)

    pub select-nothing : (rows : List A) → exists p rows ≡ false → select q rows ≡ []
    unfolding exists select
    select-nothing [] h = refl
    select-nothing (r ∷ rows) h = ground (arith, stricter r, select-nothing rows)

  pub exists-find : (p : A → Bool) (rows : List A) → exists p rows ≡ false → find p rows ≡ none
  exists-find p rows = find-nothing p p (λ r h. h) rows

  pub find-exists :
      (p : A → Bool) (rows : List A) → exists p rows ≡ true → (r : A) × (find p rows ≡ some r)
  unfolding exists find
  find-exists p [] h = cc
  find-exists p (r ∷ rows) h = elim (Bool-cases (p r)) [
    | inl hit ↦ (r, rw hit refl)
    | inr miss ↦ let (s, found) = find-exists p rows (rw miss at h) in (s, rw miss found)
  ]

-- ===== src/Schema/Members.antt =====
-- Which rows SQL's statements keep.
use mathlib.Core.List.{Memᴰ}
use retainer.Prelude.{
  ◌≡◌, refl, sym, ap, Bool, true, some, List, [], ◌∷◌, map, arith, inl, inr, Bool-cases, subst, ◌∙◌,
}
use retainer.Schema.Table.{find, select, order_by, insert_sorted}

pub some_injective : {A : Type 0} {a b : A} → some a ≡ some b → a ≡ b
some_injective h = ground arith

module _ {A : Type 0} where
  pub find-Mem : (p : A → Bool) (rows : List A) (r : A) → find p rows ≡ some r → Memᴰ r rows
  unfolding find
  find-Mem p [] r h = cc
  find-Mem p (s ∷ rows) r h = elim (Bool-cases (p s)) [
    | inl hit ↦ Memᴰ.head (some_injective (sym (rw hit at h)))
    | inr miss ↦ Memᴰ.tail (find-Mem p rows r (rw miss at h))
  ]

  pub select-Mem :
      (p : A → Bool) (rows : List A) (r : A) → p r ≡ true → Memᴰ r rows → Memᴰ r (select p rows)
  unfolding select
  select-Mem p [] r h m = elim m [ ]
  select-Mem p (s ∷ rows) r h (Memᴰ.head e) =
      let hit : p s ≡ true = ap p (sym e) ∙ h in rw hit (Memᴰ.head e)
  select-Mem p (s ∷ rows) r h (Memᴰ.tail m) =
      let rest = select-Mem p rows r h m in
      elim (Bool-cases (p s)) [ inl hit ↦ rw hit (Memᴰ.tail rest) | inr miss ↦ rw miss rest ]

  insert_sorted-head :
      (before : A → A → Bool) (s : A) (rows : List A) → Memᴰ s (insert_sorted before s rows)
  unfolding insert_sorted
  insert_sorted-head before s [] = Memᴰ.head refl
  insert_sorted-head before s (t ∷ rows) =
      let rest = insert_sorted-head before s rows in
      elim (Bool-cases (before t s)) [
        | inl b ↦ rw b (Memᴰ.tail rest)
        | inr b ↦ rw b (Memᴰ.head refl)
      ]

  insert_sorted-tail :
      (before : A → A → Bool) (s : A) (rows : List A) (r : A)
      → Memᴰ r rows
      → Memᴰ r (insert_sorted before s rows)
  unfolding insert_sorted
  insert_sorted-tail before s [] r m = elim m [ ]
  insert_sorted-tail before s (t ∷ rows) r (Memᴰ.head e) = elim (Bool-cases (before t s)) [
    | inl b ↦ rw b (Memᴰ.head e)
    | inr b ↦ rw b (Memᴰ.tail (Memᴰ.head e))
  ]
  insert_sorted-tail before s (t ∷ rows) r (Memᴰ.tail m) =
      let rest = insert_sorted-tail before s rows r m in
      elim (Bool-cases (before t s)) [
        | inl b ↦ rw b (Memᴰ.tail rest)
        | inr b ↦ rw b (Memᴰ.tail (Memᴰ.tail m))
      ]

  pub order_by-Mem :
      (before : A → A → Bool) (rows : List A) (r : A) → Memᴰ r rows → Memᴰ r (order_by before rows)
  unfolding order_by
  order_by-Mem before [] r m = elim m [ ]
  order_by-Mem before (s ∷ rows) r (Memᴰ.head e) =
      subst (λ x. Memᴰ x (insert_sorted before s (order_by before rows))) (sym e)
        (insert_sorted-head before s (order_by before rows))
  order_by-Mem before (s ∷ rows) r (Memᴰ.tail m) =
      insert_sorted-tail before s (order_by before rows) r (order_by-Mem before rows r m)

  pub map-Mem :
      {B : Type 0} (f : A → B) (rows : List A) (r : A) → Memᴰ r rows → Memᴰ (f r) (map f rows)
  map-Mem f [] r m = elim m [ ]
  map-Mem f (s ∷ rows) r (Memᴰ.head e) = Memᴰ.head (ap f e)
  map-Mem f (s ∷ rows) r (Memᴰ.tail m) = Memᴰ.tail (map-Mem f rows r m)

  pub Mem-map :
      {B : Type 0} (f : A → B) (rows : List A) (b : B)
      → Memᴰ b (map f rows)
      → (r : A) × Memᴰ r rows × (b ≡ f r)
  Mem-map f [] b m = elim m [ ]
  Mem-map f (s ∷ rows) b (Memᴰ.head e) = (s, Memᴰ.head refl, e)
  Mem-map f (s ∷ rows) b (Memᴰ.tail m) = let (r, k, e) = Mem-map f rows b m in (r, Memᴰ.tail k, e)

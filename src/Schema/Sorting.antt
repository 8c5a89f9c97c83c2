-- ===== src/Schema/Sorting.antt =====
-- What ORDER BY makes of the rows: the same rows, in ascending order.
use mathlib.Core.List.{Memᴰ, Mem, Perm, Pairwise, Pairwise-singleton, forall_mem-cons}
use mathlib.Core.List.Memᴰ
use mathlib.Core.List.Perm
use retainer.Prelude.{
  ◌≡◌, refl, ap, Bool, true, false, none, some, List, [], ◌∷◌, map, arith, inl, inr, ◌⊎◌,
  Bool-cases,
}
use retainer.Schema.Table.{find, order_by, insert_sorted}

module _ {A : Type 0} where
  module _ (before : A → A → Bool) where
    insert_sorted-perm : (r : A) (rows : List A) → Perm (insert_sorted before r rows) (r ∷ rows)
    unfolding insert_sorted
    insert_sorted-perm r [] = Perm.rfl
    insert_sorted-perm r (s ∷ rows) =
        let rest = insert_sorted-perm r rows in
        elim (Bool-cases (before s r)) [
          | inl b ↦ rw b (Perm.trans (Perm.cons s rest) (Perm.swap r s rows))
          | inr b ↦ rw b Perm.rfl
        ]

    pub order_by-perm : (rows : List A) → Perm (order_by before rows) rows
    unfolding order_by
    order_by-perm [] = Perm.rfl
    order_by-perm (r ∷ rows) =
        Perm.trans (insert_sorted-perm r (order_by before rows)) (Perm.cons r (order_by-perm rows))

    Mem-insert_sorted :
        (s r : A) (rows : List A) → Memᴰ s (insert_sorted before r rows) → (s ≡ r) ⊎ Memᴰ s rows
    unfolding insert_sorted
    Mem-insert_sorted s r [] (Memᴰ.head e) = inl e
    Mem-insert_sorted s r [] (Memᴰ.tail m) = inr m
    Mem-insert_sorted s r (t ∷ rows) m = elim (Bool-cases (before t r)) [
      | inl b ↦ elim (Memᴰ.cases_cons (rw b at m)) [
        | inl e ↦ inr (Memᴰ.head e)
        | inr later ↦ elim (Mem-insert_sorted s r rows later) [
          | inl e ↦ inl e
          | inr k ↦ inr (Memᴰ.tail k)
        ]
      ]
      | inr b ↦ Memᴰ.cases_cons (rw b at m)
    ]

    -- Every row that is answered is one of the table.
    pub Mem-order_by : (rows : List A) (r : A) → Memᴰ r (order_by before rows) → Memᴰ r rows
    unfolding order_by
    Mem-order_by [] r m = m
    Mem-order_by (s ∷ rows) r m = elim (Mem-insert_sorted r s (order_by before rows) m) [
      | inl e ↦ Memᴰ.head e
      | inr k ↦ Memᴰ.tail (Mem-order_by rows r k)
    ]

  -- A transitive order that the test decides
  module _ (before : A → A → Bool) (Le : A → A → Type 0) (prop : (r s : A) → IsProp (Le r s))
      (le : (r s : A) → before r s ≡ true → Le r s) (ge : (r s : A) → before r s ≡ false → Le s r)
      (trans : (r s t : A) → Le r s → Le s t → Le r t) where
    below_head :
        (r s : A) (rows : List A)
        → Le r s
        → ((t : A) → Mem t rows → Le s t)
        → (t : A) → Mem t (s ∷ rows)
        → Le r t
    below_head r s rows h below = (forall_mem-cons (prop r)).1 (h, λ t m. trans r s t h (below t m))

    insert_sorted-Pairwise :
        (r : A) (rows : List A) → Pairwise Le rows → Pairwise Le (insert_sorted before r rows)
    unfolding insert_sorted
    insert_sorted-Pairwise r [] p = Pairwise-singleton Le r
    insert_sorted-Pairwise r (s ∷ rows) (Pairwise.cons below p) = elim (Bool-cases (before s r)) [
      | inl b ↦
          let all = (forall_mem-cons (prop s)).1 (le s r b, below) in
          rw b (
            Pairwise.cons (λ t m. all t ((Perm.mem_iff (insert_sorted-perm before r rows)).0 m))
              (insert_sorted-Pairwise r rows p))
      | inr b ↦ rw b (Pairwise.cons (below_head r s rows (ge s r b) below) (Pairwise.cons below p))
    ]

    pub order_by-Pairwise : (rows : List A) → Pairwise Le (order_by before rows)
    unfolding order_by
    order_by-Pairwise [] = Pairwise.nil
    order_by-Pairwise (r ∷ rows) =
        insert_sorted-Pairwise r (order_by before rows) (order_by-Pairwise rows)

  -- A lookup that only one row answers to
  pub find-only :
      (p : A → Bool) (rows : List A) (r : A)
      → p r ≡ true
      → Memᴰ r rows
      → ((s : A) → Memᴰ s rows → p s ≡ true → s ≡ r)
      → find p rows ≡ some r
  unfolding find
  find-only p [] r h m only = elim m [ ]
  find-only p (s ∷ rows) r h m only = elim (Bool-cases (p s)) [
    | inl hit ↦ rw hit (ap some (only s (Memᴰ.head refl) hit))
    | inr miss ↦ rw miss (elim (Memᴰ.cases_cons m) [
      | inl e ↦ cc (ap p e, h, miss)
      | inr later ↦ find-only p rows r h later (λ t k. only t (Memᴰ.tail k))
    ])
  ]

  pub find-nowhere :
      (p : A → Bool) (rows : List A) → ((s : A) → Memᴰ s rows → p s ≡ false) → find p rows ≡ none
  unfolding find
  find-nowhere p [] h = refl
  find-nowhere p (s ∷ rows) h =
      rw (h s (Memᴰ.head refl)) (find-nowhere p rows (λ t m. h t (Memᴰ.tail m)))

  pub find-map :
      {B : Type 0} (q : B → Bool) (f : A → B) (rows : List A)
      → find q (map f rows) ≡ elim (find (λ r. q (f r)) rows) [ none ↦ none | some r ↦ some (f r) ]
  unfolding find
  find-map q f [] = refl
  find-map q f (r ∷ rows) = ground (arith, find-map q f rows)

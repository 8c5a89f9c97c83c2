-- ===== src/Labels/Names.antt =====
-- The names of the labels.
use mathlib.Core.List.{Memᴰ}
use retainer.Prelude.{
  ◌≡◌, refl, sym, ap, subst, ◌∙◌, String, Bool, true, false, ◌||◌, Option, none, some, List, [],
  ◌∷◌, ◌++◌, arith, ◌⊎◌, inl, inr, eq_iff, Bool-cases, if◌then◌else◌,
}
use retainer.Prelude.Text.{Text, text_eq, text_eq_iff}
use retainer.Prelude.Int.{ℤ}
use retainer.Schema.{Db, LabelRow}
use retainer.Schema.Table.{select, find, update, delete, exists}
use retainer.Store.{Error, Result, ok, err, name_taken, not_found, transact, exec, fail}
use retainer.Store.Inversion.{ok_injective}
use retainer.Store.Rows.{label_is}
use retainer.Labels.{
  trim_space, attaches, named, set_name, taken_by_other, insert_label, create_named, create,
  rename_found, rename_named, rename, delete_label, detach_and_delete,
}

-- No two labels have one name.
unfoldable pub Unique : List LabelRow → Type 0
Unique rows = (l k : LabelRow) → Memᴰ l rows → Memᴰ k rows → l.name ≡ k.name → l.id ≡ k.id

module _ {A : Type 0} where
  exists-Mem :
      (p : A → Bool) (rows : List A) (r : A) → exists p rows ≡ false → Memᴰ r rows → p r ≡ false
  unfolding exists
  exists-Mem p [] r h m = elim m [ ]
  exists-Mem p (s ∷ rows) r h (Memᴰ.head e) = ap p e ∙ ground arith
  exists-Mem p (s ∷ rows) r h (Memᴰ.tail m) = exists-Mem p rows r (ground arith) m

  Mem-append : (rows : List A) (r s : A) → Memᴰ r (rows ++ s ∷ []) → Memᴰ r rows ⊎ (r ≡ s)
  Mem-append [] r s (Memᴰ.head e) = inr e
  Mem-append [] r s (Memᴰ.tail m) = elim m [ ]
  Mem-append (t ∷ rows) r s (Memᴰ.head e) = inl (Memᴰ.head e)
  Mem-append (t ∷ rows) r s (Memᴰ.tail m) = elim (Mem-append rows r s m) [
    | inl x ↦ inl (Memᴰ.tail x)
    | inr e ↦ inr e
  ]

  uncons : {r s : A} {rows : List A} → Memᴰ r (s ∷ rows) → (r ≡ s) ⊎ Memᴰ r rows
  uncons (Memᴰ.head e) = inl e
  uncons (Memᴰ.tail m) = inr m

  Mem-select : (p : A → Bool) (rows : List A) (r : A) → Memᴰ r (select p rows) → Memᴰ r rows
  unfolding select
  Mem-select p [] r m = elim m [ ]
  Mem-select p (s ∷ rows) r m = elim (Bool-cases (p s)) [
    | inl hit ↦ elim (uncons (rw hit at m)) [
      | inl e ↦ Memᴰ.head e
      | inr t ↦ Memᴰ.tail (Mem-select p rows r t)
    ]
    | inr miss ↦ Memᴰ.tail (Mem-select p rows r (rw miss at m))
  ]

  -- What an update has made of the rows
  Mem-update :
      (p : A → Bool) (f : A → A) (rows : List A) (r : A)
      → Memᴰ r (update p f rows)
      → (Memᴰ r rows × (p r ≡ false)) ⊎ ((s : A) × (p s ≡ true) × (r ≡ f s))
  unfolding update
  Mem-update p f [] r m = elim m [ ]
  Mem-update p f (s ∷ rows) r (Memᴰ.head e) = elim (Bool-cases (p s)) [
    | inl hit ↦ inr (s, hit, rw hit at e)
    | inr miss ↦ let same : r ≡ s = rw miss at e in inl (Memᴰ.head same, ap p same ∙ miss)
  ]
  Mem-update p f (s ∷ rows) r (Memᴰ.tail m) = elim (Mem-update p f rows r m) [
    | inl (x, y) ↦ inl (Memᴰ.tail x, y)
    | inr x ↦ inr x
  ]

-- A guard that a constraint stands behind
guard-eq-ok :
    (c : Bool) (x : Error) (l k : LabelRow) (d e : Db)
    → ◌≡◌ {A = Result (LabelRow × Db)} (if c then err x else ok (l, d)) (ok (k, e))
    → (c ≡ false) × (e ≡ d)
guard-eq-ok true x l k d e h = cc
guard-eq-ok false x l k d e h = (refl, sym (ap (λ p. p.1) (ok_injective h)))

no_name : (a b : Bool) → (a || b) ≡ false → b ≡ false
no_name a b h = ground arith

insert-Unique :
    (l k : LabelRow) (d e : Db) → Unique d.labels → insert_label l d ≡ ok (k, e) → Unique e.labels
unfolding insert_label Unique
insert-Unique l k d e u h =
    let (free, made) =
      guard-eq-ok (exists (label_is l.id) d.labels || exists (named l.name) d.labels) name_taken l k
        _ e h in
    subst (λ x. Unique x.labels) (sym made) (unique_with (no_name _ _ free))
  where
    unique_with : exists (named l.name) d.labels ≡ false → Unique (d.labels ++ l ∷ [])
    unique_with free a b ma mb same = elim (Mem-append d.labels a l ma) [
      | inl ma' ↦ elim (Mem-append d.labels b l mb) [
        | inl mb' ↦ u a b ma' mb' same
        | inr eb ↦ cc (
          exists-Mem (named l.name) d.labels a free ma',
          (text_eq_iff a.name l.name).1 (same ∙ ap (λ r. r.name) eb),
        )
      ]
      | inr ea ↦ elim (Mem-append d.labels b l mb) [
        | inl mb' ↦ cc (
          exists-Mem (named l.name) d.labels b free mb',
          (text_eq_iff b.name l.name).1 (sym same ∙ ap (λ r. r.name) ea),
        )
        | inr eb ↦ ap (λ r. r.id) (ea ∙ sym eb)
      ]
    ]

-- Where no two labels have one name, none have after a label has been created.
pub create-Unique :
    (id : String) (name : Text) (now : ℤ) (l : LabelRow) (d e : Db)
    → Unique d.labels
    → create id name now d ≡ ok (l, e)
    → Unique e.labels
unfolding create create_named
create-Unique id name now l d e u h = by_name (trim_space name) h
  where
    by_name : (n : Text) → create_named id n now d ≡ ok (l, e) → Unique e.labels
    by_name [] h = cc
    by_name (c ∷ n) h = insert-Unique (record { id = id; name = c ∷ n; created_at = now }) l d e u h

rename_found-Unique :
    (id : String) (name : Text) (o : Option LabelRow) (l : LabelRow) (d e : Db)
    → Unique d.labels
    → rename_found id name o d ≡ ok (l, e)
    → Unique e.labels
unfolding rename_found Unique
rename_found-Unique id name none l d e u h = cc
rename_found-Unique id name (some r) l d e u h =
    let (free, made) =
      guard-eq-ok (exists (taken_by_other id name) d.labels) name_taken (set_name name r) l _ e h in
    subst (λ x. Unique x.labels) (sym made) (unique_with free)
  where
    other_name :
        exists (taken_by_other id name) d.labels ≡ false
        → (k : LabelRow) → Memᴰ k d.labels
        → label_is id k ≡ false
        → text_eq k.name name ≡ false
    other_name free k m miss =
        let t = exists-Mem (taken_by_other id name) d.labels k free m in ground arith

    unique_with :
        exists (taken_by_other id name) d.labels ≡ false
        → Unique (update (label_is id) (set_name name) d.labels)
    unique_with free a b ma mb same =
        elim (Mem-update (label_is id) (set_name name) d.labels a ma) [
          | inl (ma', missa) ↦ elim (Mem-update (label_is id) (set_name name) d.labels b mb) [
            | inl (mb', missb) ↦ u a b ma' mb' same
            | inr (k, hit, eb) ↦ cc (
              other_name free a ma' missa,
              (text_eq_iff a.name name).1 (same ∙ ap (λ r. r.name) eb),
            )
          ]
          | inr (j, hita, ea) ↦ elim (Mem-update (label_is id) (set_name name) d.labels b mb) [
            | inl (mb', missb) ↦ cc (
              other_name free b mb' missb,
              (text_eq_iff b.name name).1 (sym same ∙ ap (λ r. r.name) ea),
            )
            | inr (k, hitb, eb) ↦
                ap (λ r. r.id) ea
                ∙ (eq_iff j.id id).0 hita
                ∙ sym (ap (λ r. r.id) eb ∙ (eq_iff k.id id).0 hitb)
          ]
        ]

-- Where no two labels have one name, none have after a label has been renamed, whether to a new name or to
-- the one that it has.
pub rename-Unique :
    (id : String) (name : Text) (l : LabelRow) (d e : Db)
    → Unique d.labels
    → rename id name d ≡ ok (l, e)
    → Unique e.labels
unfolding rename rename_named
rename-Unique id name l d e u h = by_name (trim_space name) h
  where
    by_name : (n : Text) → rename_named id n d ≡ ok (l, e) → Unique e.labels
    by_name [] h = cc
    by_name (c ∷ n) h = rename_found-Unique id (c ∷ n) (find (label_is id) d.labels) l d e u h

-- Where no two labels have one name, none have after a label has been deleted, or the deletion has failed.
pub delete-Unique : (id : String) (d : Db) → Unique d.labels → Unique (delete_label id d).1.labels
unfolding Unique delete delete_label detach_and_delete
delete-Unique id d u = left (exists (label_is id) d.labels)
  where
    detached : Db
    detached = record d { note_labels = delete (attaches id) d.note_labels }

    left :
        (c : Bool)
        → Unique
            (transact {A = Unit}
              (λ _.
                if c
                then exec (λ e. record e { labels = delete (label_is id) e.labels }) detached
                else fail not_found detached)
              d).1.labels
    left true a b ma mb = u a b (Mem-select _ d.labels a ma) (Mem-select _ d.labels b mb)
    left false a b ma mb = u a b ma mb

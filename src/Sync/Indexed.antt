-- ===== src/Sync/Indexed.antt =====
-- The index row of one note, and when it is up to date.
pub mod Notes
use text.Mathlib.TextPositions.{eq_refl}
use retainer.Prelude.{
  ℕ, ◌+◌, ◌≡◌, refl, sym, ap, subst, ◌∙◌, String, Bool, true, false, Option, none, some, List, [],
  ◌∷◌, ◌++◌, append-nil, arith, str_eq, eq_iff, Bool-cases, Option-cases, inl, inr, if◌then◌else◌,
}
use retainer.Prelude.Int.{ℤ}
use retainer.Schema.{Db, NoteRow}
use retainer.Schema.Table.{select, delete, find, update, find-append, find-update, find-test}
use retainer.Store.{ok}
use retainer.Store.Rows.{note_is, find_note, fts_of}
use retainer.Search.{fts_row, content_blob, item_lines}
use retainer.Search.Reindex.{index_rows, reindexed}
use retainer.Sync.Wire.{Mutation, NoteColumn, Value}
use retainer.Sync.Notes.{
  new_note, write_column, set_note_column, is_note_content, apply_note_mutation,
}
use retainer.Sync.Notes.Step.{
  NoteStep, discarded, created, written, first_row, with_notes, with_index, written_rows, note_step,
}
use retainer.Sync.Notes.Settled.{id-write_column, id-apply_field}

-- The index has one row of a note, with the note's title and content as they are, and none without a note.
unfoldable pub Current : String → Db → Type 0
Current id d = select (fts_of id) d.fts ≡ index_rows id d (find_note id d)

module _ {A : Type 0} where
  select-append : (p : A → Bool) (l r : List A) → select p (l ++ r) ≡ select p l ++ select p r
  unfolding select
  select-append p [] r = refl
  select-append p (x ∷ l) r = let rest = select-append p l r in ground arith

  select-delete_same : (p : A → Bool) (l : List A) → select p (delete p l) ≡ []
  unfolding delete select
  select-delete_same p [] = refl
  select-delete_same p (x ∷ l) = ground (arith, select-delete_same p l)

  select-delete_apart :
      (p q : A → Bool) (l : List A)
      → ((x : A) → p x ≡ true → q x ≡ false)
      → select p (delete q l) ≡ select p l
  unfolding delete select
  select-delete_apart p q [] apart = refl
  select-delete_apart p q (x ∷ l) apart = ground (arith, select-delete_apart p q l apart, apart x)

pub apart_ids : (i j k : String) → str_eq i j ≡ false → str_eq k i ≡ true → str_eq k j ≡ false
apart_ids i j k h e = subst (λ x. str_eq x j ≡ false) (sym ((eq_iff k i).0 e)) h

select-index_rows :
    (id : String) (d : Db) (o : Option NoteRow)
    → select (fts_of id) (index_rows id d o) ≡ index_rows id d o
unfolding select fts_row
select-index_rows id d none = refl
select-index_rows id d (some n) = rw (eq_refl id) refl

select-index_rows_other :
    (id other : String) (d : Db) (o : Option NoteRow)
    → str_eq id other ≡ false
    → select (fts_of id) (index_rows other d o) ≡ []
unfolding select fts_row
select-index_rows_other id other d none h = refl
select-index_rows_other id other d (some n) h =
    let swapped : str_eq other id ≡ false = ground (arith, eq_iff id other, eq_iff other id) in
    rw swapped refl

index_rows-with_index :
    (id other : String) (d : Db) (o : Option NoteRow)
    → index_rows id (with_index other d) o ≡ index_rows id d o
unfolding fts_row content_blob item_lines
index_rows-with_index id other d none = refl
index_rows-with_index id other d (some n) = refl

-- A note that was just indexed
reindexed-Current : (id : String) (d : Db) → Current id (with_index id d)
unfolding Current reindexed
reindexed-Current id d =
    select-append (fts_of id) (delete (fts_of id) d.fts) (index_rows id d (find_note id d))
    ∙ rw (select-delete_same (fts_of id) d.fts) (select-index_rows id d (find_note id d))
    ∙ sym (index_rows-with_index id id d (find_note id d))

-- And the others
other-Current :
    (id other : String) (d : Db)
    → str_eq id other ≡ false
    → Current id d
    → Current id (with_index other d)
unfolding Current reindexed
other-Current id other d h c =
    select-append (fts_of id) (delete (fts_of other) d.fts) (index_rows other d (find_note other d))
    ∙ rw
        (
          select-index_rows_other id other d (find_note other d) h,
          select-delete_apart (fts_of id) (fts_of other) d.fts
              (λ f e. apart_ids id other f.note_id h e),
        )
        (append-nil _ ∙ c ∙ sym (index_rows-with_index id other d (find_note id d)))

-- Reindexing a note brings that one up to date, and leaves the others so.
pub indexed-Current :
    (id other : String) (d : Db)
    → (str_eq id other ≡ false → Current id d)
    → Current id (with_index other d)
indexed-Current id other d c = elim (Bool-cases (str_eq id other)) [
  | inl same ↦
      subst (λ i. Current i (with_index other d)) (sym ((eq_iff id other).0 same))
        (reindexed-Current other d)
  | inr apart ↦ other-Current id other d apart (c apart)
]

index_rows-with_notes :
    (id : String) (d : Db) (rows : List NoteRow) (o : Option NoteRow)
    → index_rows id (with_notes d rows) o ≡ index_rows id d o
unfolding fts_row content_blob item_lines
index_rows-with_notes id d rows none = refl
index_rows-with_notes id d rows (some n) = refl

-- The notes table changed, but not what the index has of this note.
pub unchanged-Current :
    (id : String) (d : Db) (rows : List NoteRow)
    → index_rows id d (find (note_is id) rows) ≡ index_rows id d (find_note id d)
    → Current id d
    → Current id (with_notes d rows)
unfolding Current
unchanged-Current id d rows same c =
    c ∙ sym same ∙ sym (index_rows-with_notes id d rows (find (note_is id) rows))

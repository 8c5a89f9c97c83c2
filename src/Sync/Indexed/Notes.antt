-- ===== src/Sync/Indexed/Notes.antt =====
-- Note mutations and the search index.
use retainer.Prelude.{
  ℕ, ◌+◌, ◌≡◌, refl, sym, ap, subst, String, Bool, true, false, List, [], ◌∷◌, ◌++◌, arith, str_eq,
  eq_iff, Bool-cases, Option-cases, inl, inr, if◌then◌else◌,
}
use retainer.Prelude.Int.{ℤ}
use retainer.Schema.{Db, NoteRow}
use retainer.Schema.Table.{find, update, find-append, find-update, find-test}
use retainer.Store.{ok}
use retainer.Store.Rows.{note_is, find_note}
use retainer.Search.{fts_row, content_blob}
use retainer.Search.Reindex.{index_rows}
use retainer.Sync.Wire.{Mutation, NoteColumn, Value}
use retainer.Sync.Notes.{
  new_note, write_column, set_note_column, is_note_content, apply_note_mutation,
}
use retainer.Sync.Notes.Step.{
  NoteStep, discarded, created, written, first_row, with_notes, with_index, written_rows, note_step,
}
use retainer.Sync.Notes.Settled.{id-write_column, id-apply_field}
use retainer.Sync.Indexed.{Current, apart_ids, indexed-Current, unchanged-Current}

find-append_apart :
    (id : String) (rows : List NoteRow) (n : NoteRow)
    → str_eq id n.id ≡ false
    → find (note_is id) (rows ++ n ∷ []) ≡ find (note_is id) rows
find-append_apart id rows n apart =
    let swapped : str_eq n.id id ≡ false = ground (arith, eq_iff id n.id, eq_iff n.id id) in
    elim (Option-cases (find (note_is id) rows)) [
      | inl e ↦ rw (find-append (note_is id) rows n, e, swapped) refl
      | inr (a, e) ↦ rw (find-append (note_is id) rows n, e) refl
    ]

module _ (now : ℤ) (c : NoteColumn) (m : Mutation) (seq : ℕ) (v : Value) where
  same_test : (id : String) (r : NoteRow) → note_is id (write_column now c m seq v r) ≡ note_is id r
  same_test id r = ap (λ i. str_eq i id) (id-write_column now c m seq v r)

  find-write_apart :
      (id : String) (rows : List NoteRow)
      → str_eq id m.id ≡ false
      → find (note_is id) (update (note_is m.id) (write_column now c m seq v) rows)
        ≡ find (note_is id) rows
  find-write_apart id rows apart = elim (Option-cases (find (note_is id) rows)) [
    | inl e ↦
        rw
          (
            find-update (note_is id) (note_is m.id) (write_column now c m seq v) rows
                (same_test id),
            e,
          )
          refl
    | inr (r, e) ↦
        let miss = apart_ids id m.id r.id apart (find-test (note_is id) rows r e) in
        rw
          (
            find-update (note_is id) (note_is m.id) (write_column now c m seq v) rows
                (same_test id),
            e,
            miss,
          )
          refl
  ]

  -- A column that the index does not have
  fts_row-write :
      (id : String) (n : NoteRow) (d : Db)
      → is_note_content c ≡ false
      → fts_row id (write_column now c m seq v n) d ≡ fts_row id n d
  unfolding fts_row content_blob write_column set_note_column is_note_content
  fts_row-write id n d plain = ground arith

  index_rows-write :
      (id : String) (d : Db)
      → is_note_content c ≡ false
      → index_rows id d
          (find (note_is id) (update (note_is m.id) (write_column now c m seq v) d.notes))
        ≡ index_rows id d (find_note id d)
  index_rows-write id d plain = elim (Option-cases (find (note_is id) d.notes)) [
    | inl e ↦
        rw
          (
            find-update (note_is id) (note_is m.id) (write_column now c m seq v) d.notes
                (same_test id),
            e,
          )
          refl
    | inr (r, e) ↦ elim (Bool-cases (note_is m.id r)) [
      | inl hit ↦
          rw
            (
              find-update (note_is id) (note_is m.id) (write_column now c m seq v) d.notes
                  (same_test id),
              e,
              hit,
              fts_row-write id r d plain,
            )
            refl
      | inr miss ↦
          rw
            (
              find-update (note_is id) (note_is m.id) (write_column now c m seq v) d.notes
                  (same_test id),
              e,
              miss,
            )
            refl
    ]
  ]

NoteStep-Current :
    (now : ℤ) (m : Mutation) (d e : Db)
    → NoteStep now m d e
    → (id : String) → Current id d
    → Current id e
unfolding new_note
NoteStep-Current now m d e (discarded c adm n found old same) id cur =
    subst (Current id) (sym same) cur
NoteStep-Current now m d e (created c adm absent n decoded valid made) id cur =
    let named : n.id ≡ m.id =
      id-apply_field (new_note m.id now (d.counter + 1)) c m.value decoded in
    let rows = d.notes ++ first_row m n ∷ [] in
    subst (Current id) (sym made) (
      indexed-Current id m.id (with_notes d rows) (λ apart.
        unchanged-Current id d rows
          (ap (index_rows id d) (
            find-append_apart id d.notes (first_row m n)
              (subst (λ i. str_eq id i ≡ false) (sym named) apart)))
          cur))
NoteStep-Current now m d e (written c adm n found fresh v decoded valid made) id cur =
    subst (Current id) (sym made) (by_column (is_note_content c) refl)
  where
    by_column :
        (b : Bool)
        → is_note_content c ≡ b
        → Current id
            (if b then with_index m.id (written_rows now c m v d) else written_rows now c m v d)
    by_column true content = indexed-Current id m.id (written_rows now c m v d) (λ apart.
        unchanged-Current id d _
          (ap (index_rows id d) (find-write_apart now c m (d.counter + 1) v id d.notes apart)) cur)
    by_column false plain =
        unchanged-Current id d _ (index_rows-write now c m (d.counter + 1) v id d plain) cur

-- A note mutation that succeeds keeps the index: a note whose index row was up to date, the one that is
-- edited or another, has its one row with the title and the content that it now has.
pub apply_note_mutation-Current :
    (now : ℤ) (m : Mutation) (d e : Db)
    → apply_note_mutation now m d ≡ ok (tt, e)
    → (id : String) → Current id d
    → Current id e
apply_note_mutation-Current now m d e h = NoteStep-Current now m d e (note_step now m d e h)

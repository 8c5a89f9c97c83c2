-- ===== src/Sync/Registers/Lookups.antt =====
-- One mutation against the register of one field.
use retainer.Prelude.{
  ◌+◌, ◌≡◌, refl, ap, ◌∙◌, String, false, Option, none, some, [], ◌∷◌, ◌++◌, arith, str_eq, eq_iff,
  if◌then◌else◌,
}
use retainer.Prelude.Int.{ℤ}
use retainer.Schema.{Db, NoteRow}
use retainer.Schema.Table.{find, find-test, find-update, find-append}
use retainer.Store.Rows.{note_is, find_note}
use retainer.Sync.Wire.{Mutation, NoteColumn, Value}
use retainer.Sync.Notes.{write_column, is_note_content}
use retainer.Sync.Notes.Step.{with_index, written_rows}
use retainer.Sync.Notes.Settled.{id-write_column, find_note-indexed}

-- A lookup behind the steps of another note
find_note-written :
    (id : String) (now : ℤ) (m : Mutation) (b : NoteColumn) (v : Value) (d : Db)
    → find_note id (
        if is_note_content b
        then with_index m.id (written_rows now b m v d)
        else written_rows now b m v d)
      ≡ elim (find_note id d) [
        | none ↦ none
        | some r ↦ some (if note_is m.id r then write_column now b m (d.counter + 1) v r else r)
      ]
find_note-written id now m b v d =
    find_note-indexed id (is_note_content b) m.id (written_rows now b m v d)
    ∙ find-update (note_is id) (note_is m.id) (write_column now b m (d.counter + 1) v) d.notes
        (λ r. ap (λ i. str_eq i id) (id-write_column now b m (d.counter + 1) v r))

pub written_other :
    (id : String) (now : ℤ) (m : Mutation) (b : NoteColumn) (v : Value) (d : Db)
    (o : Option NoteRow)
    → find_note id d ≡ o
    → str_eq m.id id ≡ false
    → find_note id (
        if is_note_content b
        then with_index m.id (written_rows now b m v d)
        else written_rows now b m v d)
      ≡ o
written_other id now m b v d none at other = find_note-written id now m b v d ∙ rw at refl
written_other id now m b v d (some r) at other =
    let hit = find-test (note_is id) d.notes r at in
    let miss : str_eq r.id m.id ≡ false =
      ground (arith, eq_iff r.id id, eq_iff r.id m.id, eq_iff m.id id) in
    find_note-written id now m b v d ∙ rw (at, miss) refl

pub written_same :
    (now : ℤ) (m : Mutation) (b : NoteColumn) (v : Value) (d : Db) (r : NoteRow)
    → find_note m.id d ≡ some r
    → find_note m.id (
        if is_note_content b
        then with_index m.id (written_rows now b m v d)
        else written_rows now b m v d)
      ≡ some (write_column now b m (d.counter + 1) v r)
written_same now m b v d r at =
    find_note-written m.id now m b v d ∙ rw (at, find-test (note_is m.id) d.notes r at) refl

pub appended_other :
    (id : String) (r : NoteRow) (d : Db)
    → str_eq r.id id ≡ false
    → find (note_is id) (d.notes ++ r ∷ []) ≡ find_note id d
appended_other id r d other = find-append (note_is id) d.notes r ∙ same (find_note id d)
  where
    same :
        (o : Option NoteRow)
        → elim o [ none ↦ if note_is id r then some r else none | some s ↦ some s ] ≡ o
    same none = rw other refl
    same (some s) = refl

-- ===== src/Sync/Notes/Step.antt =====
-- What a note mutation that succeeded has done to the database: one of three things.
use retainer.Prelude.{
  ◌+◌, ◌≡◌, refl, String, Bool, true, false, inl, inr, Option, none, some, List, [], ◌∷◌, ◌++◌,
  arith, str_eq, Bool-cases, if◌then◌else◌,
}
use retainer.Prelude.Int.{ℤ}
use retainer.Schema.{Db, NoteRow}
use retainer.Schema.Table.{update}
use retainer.Store.{Result, ok, pure, missing_id, next_server_seq}
use retainer.Store.Rows.{note_is, find_note, valid_kind}
use retainer.Store.Inversion.{update_note-eq-ok, bind_lift-eq-ok, if_fail-eq-ok, insert_note-eq-ok}
use retainer.Search.{reindex_note}
use retainer.Search.Reindex.{reindexed, reindex_note-eq-ok}
use retainer.Sync.Wire.{Mutation, NoteColumn, Value, note_field_columns, coerced_value}
use retainer.Sync.Clocks.{stale}
use retainer.Sync.Notes.{
  apply_field_to_note, new_note, is_note_content, guard_kind, create_note, write_column, write_note,
  merge_note, create_or_merge, apply_to_column, apply_note_mutation,
}

-- The checks in front of the database
pub record Admitted (m : Mutation) (c : NoteColumn) : Type 0 where
  pub column : note_field_columns m.field ≡ some c
  pub has_id : str_eq m.id "" ≡ false
  pub kind_ok : guard_kind c m.value ≡ ok tt

-- The row that a first mutation inserts
abbrev pub first_row : Mutation → NoteRow → NoteRow
first_row m n = record n { field_clocks = (m.field, m.hlc) ∷ [] }

-- The next sequence number, and another content of the notes table
abbrev pub with_notes : Db → List NoteRow → Db
with_notes d rows = record d { counter = d.counter + 1; notes = rows }

abbrev pub with_index : String → Db → Db
with_index id d = record d { fts = reindexed id d }

abbrev pub written_rows : ℤ → NoteColumn → Mutation → Value → Db → Db
written_rows now c m v d =
    with_notes d (update (note_is m.id) (write_column now c m (d.counter + 1) v) d.notes)

result_db : {d e : Db} → ◌≡◌ {A = Result (Unit {0} × Db)} (ok (tt, d)) (ok (tt, e)) → e ≡ d
result_db h = ground arith

pub data NoteStep (now : ℤ) (m : Mutation) (d e : Db) : Type 0 where
  discarded :
      (c : NoteColumn)
      → Admitted m c
      → (n : NoteRow) → find_note m.id d ≡ some n
      → stale n.field_clocks m.field m.hlc ≡ true
      → e ≡ d
      → NoteStep now m d e
  created :
      (c : NoteColumn)
      → Admitted m c
      → find_note m.id d ≡ none
      → (n : NoteRow) → apply_field_to_note (new_note m.id now (d.counter + 1)) c m.value ≡ ok n
      → valid_kind n.kind ≡ true
      → e ≡ with_index m.id (with_notes d (d.notes ++ first_row m n ∷ []))
      → NoteStep now m d e
  written :
      (c : NoteColumn)
      → Admitted m c
      → (n : NoteRow) → find_note m.id d ≡ some n
      → stale n.field_clocks m.field m.hlc ≡ false
      → (v : Value) → coerced_value m.field m.value ≡ ok v
      → valid_kind (write_column now c m (d.counter + 1) v n).kind ≡ true
      → e ≡ (
          if is_note_content c
          then with_index m.id (written_rows now c m v d)
          else written_rows now c m v d)
      → NoteStep now m d e

abbrev next : Db → Db
next d = record d { counter = d.counter + 1 }

module _ (now : ℤ) (m : Mutation) (d e : Db) (c : NoteColumn) (adm : Admitted m c) where
  created_step : find_note m.id d ≡ none → create_note now c m d ≡ ok (tt, e) → NoteStep now m d e
  unfolding create_note next_server_seq
  created_step absent h =
      let blank : NoteRow = new_note m.id now (d.counter + 1) in
      let (n, decoded, h1) = bind_lift-eq-ok (apply_field_to_note blank c m.value) _ (next d) h in
      let (valid, h2) = insert_note-eq-ok (reindex_note m.id) (next d) (first_row m n) h1 in
      created c adm absent n decoded valid (reindex_note-eq-ok m.id _ h2)

  after_write :
      (content : Bool) (d1 : Db)
      → (if content then reindex_note m.id else pure tt) d1 ≡ ok (tt, e)
      → e ≡ (if content then with_index m.id d1 else d1)
  after_write true d1 h = reindex_note-eq-ok m.id d1 h
  after_write false d1 h = ground arith

  written_step :
      (n : NoteRow)
      → find_note m.id d ≡ some n
      → stale n.field_clocks m.field m.hlc ≡ false
      → write_note now c m d ≡ ok (tt, e)
      → NoteStep now m d e
  unfolding write_note next_server_seq
  written_step n found fresh h =
      let (v, decoded, h1) = bind_lift-eq-ok (coerced_value m.field m.value) _ (next d) h in
      let (valid, h2) =
        update_note-eq-ok _ (next d) m.id (write_column now c m (d.counter + 1) v) n found h1 in
      written c adm n found fresh v decoded valid (after_write (is_note_content c) _ h2)

  merged_step :
      (n : NoteRow)
      → find_note m.id d ≡ some n
      → merge_note now c m n d ≡ ok (tt, e)
      → NoteStep now m d e
  unfolding merge_note
  merged_step n found h = elim (Bool-cases (stale n.field_clocks m.field m.hlc)) [
    | inl old ↦ discarded c adm n found old (result_db (rw old at h))
    | inr fresh ↦ written_step n found fresh (rw fresh at h)
  ]

  found_step :
      (o : Option NoteRow)
      → find_note m.id d ≡ o
      → create_or_merge now c m o d ≡ ok (tt, e)
      → NoteStep now m d e
  unfolding create_or_merge
  found_step none f h = created_step f h
  found_step (some n) f h = merged_step n f h

column_step :
    (now : ℤ) (m : Mutation) (d e : Db) (o : Option NoteColumn)
    → note_field_columns m.field ≡ o
    → apply_to_column now o m d ≡ ok (tt, e)
    → NoteStep now m d e
unfolding apply_to_column
column_step now m d e none f h = cc
column_step now m d e (some c) f h =
    let (has_id, h1) = if_fail-eq-ok (str_eq m.id "") missing_id _ d h in
    let (u, guarded, h2) = bind_lift-eq-ok (guard_kind c m.value) _ d h1 in
    found_step now m d e c (record { column = f; has_id = has_id; kind_ok = guarded })
      (find_note m.id d) refl h2

-- A mutation that succeeds has been discarded, or has created the note, or has written its field.
pub note_step :
    (now : ℤ) (m : Mutation) (d e : Db)
    → apply_note_mutation now m d ≡ ok (tt, e)
    → NoteStep now m d e
unfolding apply_note_mutation
note_step now m d e h = column_step now m d e (note_field_columns m.field) refl h

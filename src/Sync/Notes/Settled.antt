-- ===== src/Sync/Notes/Settled.antt =====
-- Note mutations against a database that has their edit or a newer one.
use retainer.Prelude.{
  ℕ, ◌+◌, ◌≡◌, refl, sym, ap, ◌∙◌, subst, String, Bool, true, false, some, [], ◌∷◌, ◌++◌, arith,
  str_eq, eq_iff, if◌then◌else◌,
}
use text.Mathlib.TextPositions.{eq_refl}
use retainer.Prelude.Int.{ℤ}
use retainer.Schema.{Db, NoteRow}
use retainer.Schema.Table.{find, update, find-test, find-update, find-append}
use retainer.Store.{ok}
use retainer.Store.Rows.{note_is, find_note}
use retainer.Sync.Wire.{RawMessage, Mutation, NoteColumn, Value}
use retainer.Sync.Clocks.{stale, stale-put_self, stale_first, Advanced-put}
use retainer.Sync.Notes.{
  apply_field_to_note, new_note, is_note_content, set_note_column, write_column, merge_note,
  create_or_merge, apply_to_column, apply_note_mutation,
}
use retainer.Sync.Notes.Step.{
  Admitted, NoteStep, discarded, created, written, first_row, with_notes, with_index, written_rows,
}
use retainer.Sync.Progress.{
  Kept, NoteLe, NoteLe-refl, Progress, Progress-refl, Kept-append, Kept-update, Kept-some,
  notes_Progress,
}

pub record NoteSettled (m : Mutation) (d : Db) : Type 0 where
  pub column : NoteColumn
  pub admitted : Admitted m column
  pub row : NoteRow
  pub found : find_note m.id d ≡ some row
  pub old : stale row.field_clocks m.field m.hlc ≡ true

-- A settled mutation is discarded.
pub NoteSettled-apply :
    (now : ℤ) (m : Mutation) (d : Db) → NoteSettled m d → apply_note_mutation now m d ≡ ok (tt, d)
unfolding apply_note_mutation apply_to_column create_or_merge merge_note
NoteSettled-apply now m d s =
    rw (s.admitted.column, s.admitted.has_id, s.admitted.kind_ok, s.found, s.old)

-- It stays so while the stamps advance.
pub NoteSettled-Progress :
    (m : Mutation) (d e : Db) → NoteSettled m d → Progress d e → NoteSettled m e
NoteSettled-Progress m d e s p =
    let (row, found, le) =
      Kept-some NoteLe s.row (find_note m.id e)
        (subst (λ o. Kept NoteLe o (find_note m.id e)) s.found (p.notes m.id)) in
    record {
      column = s.column;
      admitted = s.admitted;
      row = row;
      found = found;
      old = le.clocks m.field m.hlc s.old;
    }

pub id-apply_field :
    (n : NoteRow) (c : NoteColumn) (raw : RawMessage) {n' : NoteRow}
    → apply_field_to_note n c raw ≡ ok n'
    → n'.id ≡ n.id
unfolding apply_field_to_note
id-apply_field n c raw h = ground arith

pub id-write_column :
    (now : ℤ) (c : NoteColumn) (m : Mutation) (seq : ℕ) (v : Value) (n : NoteRow)
    → (write_column now c m seq v n).id ≡ n.id
unfolding write_column set_note_column
id-write_column now c m seq v n = ground arith

written_old :
    (now : ℤ) (c : NoteColumn) (m : Mutation) (seq : ℕ) (v : Value) (n : NoteRow)
    → stale (write_column now c m seq v n).field_clocks m.field m.hlc ≡ true
unfolding write_column
written_old now c m seq v n = stale-put_self m.field m.hlc n.field_clocks

module _ (now : ℤ) (m : Mutation) (d : Db) (c : NoteColumn) where
  -- The update keeps every note's id, and advances the stamps of the note that it writes.
  NoteLe-write :
      (seq : ℕ) (v : Value) (n : NoteRow)
      → stale n.field_clocks m.field m.hlc ≡ false
      → NoteLe n (write_column now c m seq v n)
  unfolding write_column
  NoteLe-write seq v n fresh = record { clocks = Advanced-put m.field m.hlc n.field_clocks fresh }

  same_test :
      (id : String) (seq : ℕ) (v : Value) (r : NoteRow)
      → note_is id (write_column now c m seq v r) ≡ note_is id r
  same_test id seq v r = ap (λ i. str_eq i id) (id-write_column now c m seq v r)

  -- The only row that the update writes is the one that was found.
  module _ (n : NoteRow) (found : find_note m.id d ≡ some n)
      (fresh : stale n.field_clocks m.field m.hlc ≡ false) where
    one_row : (id : String) (r : NoteRow) → find_note id d ≡ some r → note_is m.id r ≡ true → r ≡ n
    one_row id r at hit =
        let e : id ≡ m.id =
          sym ((eq_iff r.id id).0 (find-test (note_is id) d.notes r at))
          ∙ (eq_iff r.id m.id).0 hit in
        let at' : find_note m.id d ≡ some r = subst (λ i. find_note i d ≡ some r) e at in
        cc (at', found)

    written-Kept :
        (seq : ℕ) (v : Value) (id : String)
        → Kept NoteLe
            (find_note id d)
            (find (note_is id) (update (note_is m.id) (write_column now c m seq v) d.notes))
    written-Kept seq v id =
        Kept-update NoteLe NoteLe-refl (note_is id) (note_is m.id) (write_column now c m seq v)
          d.notes (same_test id seq v)
          λ r at hit.
            subst (λ x. NoteLe x (write_column now c m seq v x)) (sym (one_row id r at hit))
              (NoteLe-write seq v n fresh)

    written-found :
        (seq : ℕ) (v : Value)
        → find (note_is m.id) (update (note_is m.id) (write_column now c m seq v) d.notes)
          ≡ some (write_column now c m seq v n)
    written-found seq v = rw (
      find-update (note_is m.id) (note_is m.id) (write_column now c m seq v) d.notes
          (same_test m.id seq v),
      found,
      find-test (note_is m.id) d.notes n found,
    )

-- Reindexing leaves the rows.
indexed_Progress :
    (d e : Db) (content : Bool) (id : String)
    → Progress d e
    → Progress d (if content then with_index id e else e)
indexed_Progress d e true id p = record {
  counter = p.counter;
  notes = p.notes;
  items = p.items;
  note_labels = p.note_labels;
}
indexed_Progress d e false id p = p

pub find_note-indexed :
    (id : String) (content : Bool) (n : String) (e : Db)
    → find_note id (if content then with_index n e else e) ≡ find_note id e
find_note-indexed id true n e = refl
find_note-indexed id false n e = refl

-- Every note mutation that succeeds moves the database forward.
pub NoteStep-Progress : (now : ℤ) (m : Mutation) (d e : Db) → NoteStep now m d e → Progress d e
NoteStep-Progress now m d e (discarded c adm n found old same) =
    subst (Progress d) (sym same) (Progress-refl d)
NoteStep-Progress now m d e (created c adm absent n decoded valid made) =
    subst (Progress d) (sym made) (
      indexed_Progress d (with_notes d (d.notes ++ first_row m n ∷ [])) true m.id (
        notes_Progress d (with_notes d (d.notes ++ first_row m n ∷ [])) (omega arith)
          (λ id. Kept-append NoteLe NoteLe-refl (note_is id) d.notes (first_row m n)) refl refl))
NoteStep-Progress now m d e (written c adm n found fresh v decoded valid made) =
    subst (Progress d) (sym made) (
      indexed_Progress d (written_rows now c m v d) (is_note_content c) m.id (
        notes_Progress d (written_rows now c m v d) (omega arith)
          (written-Kept now m d c n found fresh (d.counter + 1) v) refl refl))

-- And leaves the mutation settled.
pub NoteStep-Settled : (now : ℤ) (m : Mutation) (d e : Db) → NoteStep now m d e → NoteSettled m e
unfolding new_note
NoteStep-Settled now m d e (discarded c adm n found old same) =
    subst (NoteSettled m) (sym same)
      (record { column = c; admitted = adm; row = n; found = found; old = old })
NoteStep-Settled now m d e (created c adm absent n decoded valid made) =
    subst (NoteSettled m) (sym made) (record {
      column = c;
      admitted = adm;
      row = first_row m n;
      found = rw (
        find-append (note_is m.id) d.notes (first_row m n),
        absent,
        id-apply_field (new_note m.id now (d.counter + 1)) c m.value decoded,
        eq_refl m.id,
      );
      old = stale_first m.field m.hlc;
    })
NoteStep-Settled now m d e (written c adm n found fresh v decoded valid made) =
    subst (NoteSettled m) (sym made) (record {
      column = c;
      admitted = adm;
      row = write_column now c m (d.counter + 1) v n;
      found =
          find_note-indexed m.id (is_note_content c) m.id (written_rows now c m v d)
          ∙ written-found now m d c n found fresh (d.counter + 1) v;
      old = written_old now c m (d.counter + 1) v n;
    })

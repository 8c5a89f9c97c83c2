-- ===== src/Sync/Delta/Steps.antt =====
-- The sequence numbers that one mutation writes.
use retainer.Prelude.{
  ◌+◌, ◌≤◌, ◌<◌, ◌≡◌, refl, ap, String, Bool, true, false, [], ◌∷◌, ◌++◌, arith, inl, sym, subst,
  str_eq, if◌then◌else◌,
}
use retainer.Prelude.Int.{ℤ}
use retainer.Schema.{Db, NoteRow, ItemRow, NoteLabelRow}
use retainer.Store.{ok}
use retainer.Store.Rows.{note_is, find_note, item_is, find_item, attachment_is, find_attachment}
use retainer.Sync.Wire.{RawMessage, Mutation, NoteColumn, ItemColumn}
use retainer.Sync.Notes.{apply_field_to_note, new_note, write_column, is_note_content}
use retainer.Sync.Notes.Step.{
  NoteStep, discarded, created, written, first_row, with_notes, with_index, written_rows,
}
use retainer.Sync.Notes.Settled.{id-write_column}
use retainer.Sync.Items.{
  apply_field_to_item, new_item, write_item_column, is_item_content, reindexed_note,
}
use retainer.Sync.Items.Step.{ItemStep, first_item, with_items, written_items}
use retainer.Sync.Items.Settled.{keys-write_item_column}
use retainer.Sync.Attachments.{write_attached}
use retainer.Sync.Attachments.Step.{LabelStep, first_attachment}
use retainer.Sync.Delta.{Newer, Newer-append, Newer-update, Fresh, Fresh-refl}

module _ (d e : Db) (counts : d.counter ≤ e.counter) where
  notes_Fresh :
      ((id : String)
        → Newer (λ (n : NoteRow). n.server_seq) d.counter (find_note id d) (find_note id e))
      → e.items ≡ d.items
      → e.note_labels ≡ d.note_labels
      → Fresh d e
  notes_Fresh n i l = record {
    counter = counts;
    notes = n;
    items = λ id. rw i (λ r h. inl h);
    note_labels = λ a b. rw l (λ r h. inl h);
  }

  items_Fresh :
      e.notes ≡ d.notes
      → ((id : String)
          → Newer (λ (i : ItemRow). i.server_seq) d.counter (find_item id d) (find_item id e))
      → e.note_labels ≡ d.note_labels
      → Fresh d e
  items_Fresh n i l = record {
    counter = counts;
    notes = λ id. rw n (λ r h. inl h);
    items = i;
    note_labels = λ a b. rw l (λ r h. inl h);
  }

  labels_Fresh :
      e.notes ≡ d.notes
      → e.items ≡ d.items
      → ((n l : String)
          → Newer
              (λ (a : NoteLabelRow). a.server_seq)
              d.counter
              (find_attachment n l d)
              (find_attachment n l e))
      → Fresh d e
  labels_Fresh n i l = record {
    counter = counts;
    notes = λ id. rw n (λ r h. inl h);
    items = λ id. rw i (λ r h. inl h);
    note_labels = l;
  }

-- Reindexing leaves the rows.
indexed_Fresh :
    (d e : Db) (content : Bool) (id : String)
    → Fresh d e
    → Fresh d (if content then with_index id e else e)
indexed_Fresh d e true id p = record {
  counter = p.counter;
  notes = p.notes;
  items = p.items;
  note_labels = p.note_labels;
}
indexed_Fresh d e false id p = p

seq-apply_field :
    (n : NoteRow) (c : NoteColumn) (raw : RawMessage) {n' : NoteRow}
    → apply_field_to_note n c raw ≡ ok n'
    → n'.server_seq ≡ n.server_seq
unfolding apply_field_to_note
seq-apply_field n c raw h = ground arith

seq-apply_item_field :
    (i : ItemRow) (c : ItemColumn) (raw : RawMessage) {i' : ItemRow}
    → apply_field_to_item i c raw ≡ ok i'
    → i'.server_seq ≡ i.server_seq
unfolding apply_field_to_item
seq-apply_item_field i c raw h = ground arith

pub NoteStep-Fresh : (now : ℤ) (m : Mutation) (d e : Db) → NoteStep now m d e → Fresh d e
unfolding new_note write_column
NoteStep-Fresh now m d e (discarded c adm n found old same) =
    subst (Fresh d) (sym same) (Fresh-refl d)
NoteStep-Fresh now m d e (created c adm absent n decoded valid made) =
    let e1 = with_notes d (d.notes ++ first_row m n ∷ []) in
    let above : (d.counter < n.server_seq) =
      rw (seq-apply_field (new_note m.id now (d.counter + 1)) c m.value decoded) (omega arith) in
    subst (Fresh d) (sym made) (
      indexed_Fresh d e1 true m.id (
        notes_Fresh d e1 (omega arith)
          (λ id.
            Newer-append (λ (n : NoteRow). n.server_seq) d.counter (note_is id) d.notes
              (first_row m n) above)
          refl refl))
NoteStep-Fresh now m d e (written c adm n found fresh v decoded valid made) =
    subst (Fresh d) (sym made) (
      indexed_Fresh d (written_rows now c m v d) (is_note_content c) m.id (
        notes_Fresh d (written_rows now c m v d) (omega arith)
          (λ id.
            Newer-update (λ (n : NoteRow). n.server_seq) d.counter (note_is id) (note_is m.id)
              (write_column now c m (d.counter + 1) v) d.notes
              (λ r. ap (λ i. str_eq i id) (id-write_column now c m (d.counter + 1) v r))
              (λ r. omega arith))
          refl refl))

pub ItemStep-Fresh : (m : Mutation) (d e : Db) → ItemStep m d e → Fresh d e
unfolding new_item write_item_column
ItemStep-Fresh m d e (ItemStep.discarded c adm i found old same) =
    subst (Fresh d) (sym same) (Fresh-refl d)
ItemStep-Fresh m d e (ItemStep.created c adm absent i decoded made) =
    let e1 = with_items d (d.items ++ first_item m i ∷ []) in
    let above : (d.counter < i.server_seq) =
      rw (seq-apply_item_field (new_item m.id m.note_id (d.counter + 1)) c m.value decoded)
        (omega arith) in
    subst (Fresh d) (sym made) (
      indexed_Fresh d e1 true m.note_id (
        items_Fresh d e1 (omega arith) refl
          (λ id.
            Newer-append (λ (i : ItemRow). i.server_seq) d.counter (item_is id) d.items
              (first_item m i) above)
          refl))
ItemStep-Fresh m d e (ItemStep.written c adm i found fresh v decoded made) =
    subst (Fresh d) (sym made) (
      indexed_Fresh d (written_items c m v d) (is_item_content c) (reindexed_note m i) (
        items_Fresh d (written_items c m v d) (omega arith) refl
          (λ id.
            Newer-update (λ (i : ItemRow). i.server_seq) d.counter (item_is id) (item_is m.id)
              (write_item_column c m (d.counter + 1) v) d.items
              (λ r. ap (λ i. str_eq i id) (keys-write_item_column c m (d.counter + 1) v r).0)
              (λ r. omega arith))
          refl))

pub LabelStep-Fresh : (m : Mutation) (d e : Db) → LabelStep m d e → Fresh d e
unfolding write_attached
LabelStep-Fresh m d e (LabelStep.discarded b adm l found old same) =
    subst (Fresh d) (sym same) (Fresh-refl d)
LabelStep-Fresh m d e (LabelStep.created b adm absent made) = subst (Fresh d) (sym made) (
    labels_Fresh d _ (omega arith) refl refl (λ n l.
      Newer-append (λ (a : NoteLabelRow). a.server_seq) d.counter (attachment_is n l) d.note_labels
        (first_attachment m b (d.counter + 1)) (omega arith)))
LabelStep-Fresh m d e (LabelStep.written b adm l found fresh made) = subst (Fresh d) (sym made) (
    labels_Fresh d _ (omega arith) refl refl (λ n l.
      Newer-update (λ (a : NoteLabelRow). a.server_seq) d.counter (attachment_is n l)
        (attachment_is m.note_id m.label_id) (write_attached m b (d.counter + 1)) d.note_labels
        (λ r. refl) (λ r. omega arith)))

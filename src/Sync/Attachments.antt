-- ===== src/Sync/Attachments.antt =====
-- `applyNoteLabelMutation`: a label put on a note, or taken off it.
pub mod Step
pub mod Settled
use retainer.Prelude.{
  ℕ, String, Bool, true, false, not, ◌||◌, Option, none, some, [], ◌∷◌, str_eq, if◌then◌else◌,
}
use retainer.Schema.{Db, NoteLabelRow}
use retainer.Store.{
  Tx, pure, fail, query, lift, unknown_field, missing_label_id, next_server_seq, ◌>>=◌, ◌>>◌,
}
use retainer.Store.Rows.{find_attachment, insert_attachment, update_attachment}
use retainer.Sync.Wire.{Mutation, decode_bool}
use retainer.Sync.Clocks.{not_after}

-- The branch on `sql.ErrNoRows`
unfoldable pub create_attachment : Mutation → Bool → Tx (Unit {0})
create_attachment m attached = do
  seq ← next_server_seq
  insert_attachment (record {
    note_id = m.note_id;
    label_id = m.label_id;
    attached = attached;
    hlc = m.hlc;
    server_seq = seq;
  })

unfoldable pub write_attached : Mutation → Bool → ℕ → NoteLabelRow → NoteLabelRow
write_attached m attached seq l = record l { attached = attached; hlc = m.hlc; server_seq = seq }

unfoldable pub write_attachment : Mutation → Bool → Tx (Unit {0})
write_attachment m attached = do
  seq ← next_server_seq
  update_attachment m.note_id m.label_id (write_attached m attached seq)

unfoldable pub create_or_merge_attachment : Mutation → Bool → Option NoteLabelRow → Tx (Unit {0})
create_or_merge_attachment m attached none = create_attachment m attached
create_or_merge_attachment m attached (some l) =
    if not_after m.hlc l.hlc then pure tt else write_attachment m attached

unfoldable pub apply_note_label_mutation : Mutation → Tx (Unit {0})
apply_note_label_mutation m =
    if not (str_eq m.field "attached")
    then fail unknown_field
    else if str_eq m.note_id "" || str_eq m.label_id ""
    then fail missing_label_id
    else do
      attached ← lift (decode_bool m.value)
      l ← query (find_attachment m.note_id m.label_id)
      create_or_merge_attachment m attached l

-- ===== src/Sync/Items.antt =====
-- `applyItemMutation` and `applyFieldToItem`.
pub mod Step
pub mod Settled
use retainer.Prelude.{
  ℕ, String, Bool, true, false, Option, none, some, [], ◌∷◌, str_eq, if◌then◌else◌,
}
use retainer.Prelude.Text.{codes}
use retainer.Schema.{Db, ItemRow}
use retainer.Store.{
  Result, ok, err, Tx, pure, fail, query, lift, unknown_field, missing_id, missing_note_id,
  next_server_seq, ◌>>=◌, ◌>>◌,
}
use retainer.Store.Rows.{find_item, insert_item, update_item}
use retainer.Search.{reindex_note}
use retainer.Sync.Wire.{
  RawMessage, Mutation, ItemColumn, Value, a_text, a_bool, item_field_columns, decode_string,
  decode_bool, coerced_value,
}
use retainer.Sync.Clocks.{put, stale}
use retainer.Sync.Notes.{map_result, first_position}

-- `applyFieldToItem`
unfoldable pub apply_field_to_item : ItemRow → ItemColumn → RawMessage → Result ItemRow
unfolding map_result decode_string decode_bool
apply_field_to_item i ItemColumn.text raw =
    map_result (λ v. record i { text = v }) (decode_string raw)
apply_field_to_item i ItemColumn.checked raw =
    map_result (λ v. record i { checked = v }) (decode_bool raw)
apply_field_to_item i ItemColumn.deleted raw =
    map_result (λ v. record i { deleted = v }) (decode_bool raw)
apply_field_to_item i ItemColumn.position raw =
    map_result (λ v. record i { position = v }) (decode_string raw)

-- `SET <column> = ?`
unfoldable pub set_item_column : ItemColumn → Value → ItemRow → ItemRow
set_item_column ItemColumn.text (a_text v) i = record i { text = v }
set_item_column ItemColumn.checked (a_bool v) i = record i { checked = v }
set_item_column ItemColumn.deleted (a_bool v) i = record i { deleted = v }
set_item_column ItemColumn.position (a_text v) i = record i { position = v }
set_item_column c v i = i

-- The item that a first mutation starts from
unfoldable pub new_item : String → String → ℕ → ItemRow
new_item id note_id seq = record {
  id = id;
  note_id = note_id;
  text = codes "";
  checked = false;
  deleted = false;
  position = first_position;
  field_clocks = [];
  server_seq = seq;
}

-- `itemContentFields`
unfoldable pub is_item_content : ItemColumn → Bool
is_item_content ItemColumn.text = true
is_item_content ItemColumn.deleted = true
is_item_content _ = false

-- The branch on `sql.ErrNoRows`: the item is created, on the note that the mutation names.
unfoldable pub create_item : ItemColumn → Mutation → Tx (Unit {0})
create_item column m = if str_eq m.note_id "" then fail missing_note_id else do
  seq ← next_server_seq
  i ← lift (apply_field_to_item (new_item m.id m.note_id seq) column m.value)
  insert_item (record i { field_clocks = (m.field, m.hlc) ∷ [] })
  reindex_note m.note_id

unfoldable pub write_item_column : ItemColumn → Mutation → ℕ → Value → ItemRow → ItemRow
write_item_column column m seq v i = record (set_item_column column v i) {
  field_clocks = put m.field m.hlc i.field_clocks;
  server_seq = seq;
}

-- The note to reindex: the mutation's, or where it names none the item's.
unfoldable pub reindexed_note : Mutation → ItemRow → String
reindexed_note m i = if str_eq m.note_id "" then i.note_id else m.note_id

unfoldable pub write_item : ItemColumn → Mutation → ItemRow → Tx (Unit {0})
write_item column m i = do
  seq ← next_server_seq
  v ← lift (coerced_value m.field m.value)
  update_item m.id (write_item_column column m seq v)
  if is_item_content column then reindex_note (reindexed_note m i) else pure tt

unfoldable pub merge_item : ItemColumn → Mutation → ItemRow → Tx (Unit {0})
merge_item column m i =
    if stale i.field_clocks m.field m.hlc then pure tt else write_item column m i

unfoldable pub create_or_merge_item : ItemColumn → Mutation → Option ItemRow → Tx (Unit {0})
create_or_merge_item column m none = create_item column m
create_or_merge_item column m (some i) = merge_item column m i

unfoldable pub apply_to_item_column : Option ItemColumn → Mutation → Tx (Unit {0})
apply_to_item_column none m = fail unknown_field
apply_to_item_column (some column) m =
    if str_eq m.id ""
    then fail missing_id
    else do i ← query (find_item m.id); create_or_merge_item column m i

unfoldable pub apply_item_mutation : Mutation → Tx (Unit {0})
apply_item_mutation m = apply_to_item_column (item_field_columns m.field) m

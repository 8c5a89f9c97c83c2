-- ===== src/Sync/Samples.antt =====
-- Batches like those of syncsvc_test.go.
use retainer.Prelude.{ℕ, String, List, [], ◌∷◌}
use retainer.Prelude.Text.{Text, codes}
use retainer.Prelude.Int.{ℤ, pos}
use retainer.Schema.{Db, init}
use retainer.Store.{Result, ok, err}
use retainer.Prelude.Text.{compare_text, text_eq}
use retainer.Schema.Table.{find, update, delete, exists, select, order_by}
use retainer.Store.{next_server_seq, current_server_seq}
use retainer.Store.Rows.{
  insert_note, update_note, insert_item, update_item, insert_attachment, update_attachment,
  valid_kind,
}
use retainer.Hlc.{compare_clock}
use retainer.Search.{reindex_note, item_lines}
use retainer.Sync.Wire.{note_field_columns, item_field_columns, coerced_value}
use retainer.Sync.Clocks.{stale, put}
use retainer.Sync.Notes.{
  apply_note_mutation, apply_to_column, create_or_merge, create_note, merge_note, write_note,
  write_column, set_note_column, apply_field_to_note, new_note, is_note_content, guard_kind,
}
use retainer.Sync.Items.{
  apply_item_mutation, apply_to_item_column, create_or_merge_item, create_item, apply_field_to_item,
  new_item, is_item_content, merge_item, write_item, write_item_column, set_item_column,
  reindexed_note,
}
use retainer.Sync.Attachments.{
  apply_note_label_mutation, create_or_merge_attachment, create_attachment, write_attachment,
  write_attached,
}
use retainer.Sync.Pull.{
  load_changes, load_changed_notes, load_changed_items, load_changed_note_labels, changed_since,
}
use retainer.Sync.{apply}
use retainer.Sync.Wire.{Mutation, RawMessage, string}
use retainer.Sync.Pull.{Changes}

abbrev pub at_ten : ℕ → ℤ
at_ten i = pos 10

-- A stamp of the device `d`
abbrev pub stamp : String → Text
stamp s = codes s

abbrev pub note_edit : String → String → RawMessage → Text → Mutation
note_edit id field value hlc = record {
  entity = "note";
  id = id;
  note_id = "";
  label_id = "";
  field = field;
  value = value;
  hlc = hlc;
}

abbrev pub item_edit : String → String → String → RawMessage → Text → Mutation
item_edit id note_id field value hlc = record {
  entity = "item";
  id = id;
  note_id = note_id;
  label_id = "";
  field = field;
  value = value;
  hlc = hlc;
}

abbrev pub batch : List Mutation
batch =
    note_edit "n1" "title" (string (codes "Groceries")) (stamp "1-a")
    ∷ note_edit "n1" "kind" (string (codes "checklist")) (stamp "1-a")
    ∷ item_edit "i1" "n1" "text" (string (codes "milk")) (stamp "2-a")
    ∷ note_edit "n1" "title" (string (codes "Late")) (stamp "0-b")
    ∷ []

abbrev pub no_changes : Changes
no_changes = record { notes = []; items = []; note_labels = [] }

-- The answer of a request that succeeded
unfoldable pub answer_of : Result (ℕ × Changes) → ℕ × Changes
answer_of (ok r) = r
answer_of (err e) = (0, no_changes)

-- `apply`, with all that a run of it computes with
unfoldable pub run : ℕ → List Mutation → Db → Result (ℕ × Changes) × Db
unfolding apply apply_note_mutation apply_to_column note_field_columns guard_kind create_or_merge
    create_note next_server_seq apply_field_to_note new_note insert_note exists reindex_note find
    merge_note write_note coerced_value update_note update is_note_content write_column
    set_note_column stale put compare_text text_eq valid_kind compare_clock delete select
    apply_item_mutation apply_to_item_column item_field_columns create_or_merge_item create_item
    apply_field_to_item new_item insert_item merge_item write_item update_item is_item_content
    write_item_column set_item_column reindexed_note apply_note_label_mutation
    create_or_merge_attachment create_attachment write_attachment write_attached insert_attachment
    update_attachment load_changes load_changed_notes load_changed_items load_changed_note_labels
    changed_since current_server_seq item_lines order_by
run = apply at_ten

abbrev pub after_batch : Db
after_batch = (apply at_ten 0 batch init).1

-- The database that a mutation leaves
unfoldable pub db_of : Result (Unit {0} × Db) → Db
db_of (ok (u, e)) = e
db_of (err x) = init

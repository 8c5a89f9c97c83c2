-- ===== src/Notes.antt =====
-- Reading notes, with their items and labels: server/internal/notesvc/notesvc.go.
pub mod Listing
pub mod Indexed
mod Tests
use retainer.Prelude.{
  ◌≡◌, String, Bool, true, false, ◌&&◌, not, Option, none, some, List, map, Ordering, str_eq,
}
use retainer.Prelude.Text.{compare_text}
use retainer.Schema.{Db, NoteRow, ItemRow, NoteLabelRow, Note, ChecklistItem, scan_note}
use retainer.Schema.Table.{select, order_by}
use retainer.Store.Rows.{find_note, item_of}
use retainer.Search.{item_before}

-- The columns that `itemsForNote` scans: `deleted` is not one of them.
unfoldable pub scan_listed : ItemRow → ChecklistItem
scan_listed i = record {
  id = i.id;
  note_id = i.note_id;
  text = i.text;
  checked = i.checked;
  deleted = false;
  position = i.position;
  server_seq = i.server_seq;
}

-- WHERE note_id = ? AND deleted = 0
abbrev pub listed_item : String → ItemRow → Bool
listed_item note_id i = item_of note_id i && not i.deleted

-- `itemsForNote`
unfoldable pub items_for_note : String → Db → List ChecklistItem
items_for_note note_id db =
    map scan_listed (order_by item_before (select (listed_item note_id) db.items))

-- WHERE note_id = ? AND attached = 1
abbrev pub attached_to : String → NoteLabelRow → Bool
attached_to note_id l = str_eq l.note_id note_id && l.attached

-- `labelIDsForNote`
unfoldable pub label_ids_for_note : String → Db → List String
label_ids_for_note note_id db = map (λ l. l.label_id) (select (attached_to note_id) db.note_labels)

-- What is read behind the note's own row
unfoldable pub complete : Db → Note → Note
complete db n = record n { items = items_for_note n.id db; label_ids = label_ids_for_note n.id db }

-- ORDER BY position DESC
abbrev pub note_before : NoteRow → NoteRow → Bool
note_before n m = elim (compare_text m.position n.position) [ Ordering.lt ↦ true | _ ↦ false ]

-- `List`
unfoldable pub list_notes : Db → List Note
unfolding complete
list_notes db = map (complete db) (map scan_note (order_by note_before db.notes))

unfoldable pub get_found : Db → Option NoteRow → Option Note
unfolding complete
get_found db none = none
get_found db (some n) = some (complete db (scan_note n))

-- `Get`, whose `sql.ErrNoRows` is `none`
unfoldable pub get : String → Db → Option Note
unfolding get_found
get id db = get_found db (find_note id db)

-- ===== src/Store/Rows.antt =====
-- The statements on notes, checklist items and label attachments that more than one service runs,
-- with the constraints that the schema puts on them: primary keys, the CHECK on a note's kind, and
-- the references to notes(id) and labels(id).
use retainer.Prelude.{
  String, Bool, ◌&&◌, ◌||◌, not, Option, none, some, [], ◌∷◌, ◌++◌, str_eq, if◌then◌else◌,
}
use retainer.Prelude.Text.{Text, codes, text_eq}
use retainer.Schema.{Db, NoteRow, ItemRow, LabelRow, NoteLabelRow, FtsRow}
use retainer.Schema.Table.{find, update, exists}
use retainer.Store.Transaction.{Tx, fail, exec, constraint}

-- `WHERE id = ?` and `WHERE note_id = ?`
abbrev pub note_is : String → NoteRow → Bool
note_is id n = str_eq n.id id

abbrev pub item_is : String → ItemRow → Bool
item_is id i = str_eq i.id id

abbrev pub label_is : String → LabelRow → Bool
label_is id l = str_eq l.id id

abbrev pub item_of : String → ItemRow → Bool
item_of note_id i = str_eq i.note_id note_id

abbrev pub fts_of : String → FtsRow → Bool
fts_of note_id f = str_eq f.note_id note_id

-- `WHERE note_id = ? AND label_id = ?`
abbrev pub attachment_is : String → String → NoteLabelRow → Bool
attachment_is note_id label_id l = str_eq l.note_id note_id && str_eq l.label_id label_id

abbrev pub find_note : String → Db → Option NoteRow
find_note id db = find (note_is id) db.notes

abbrev pub find_item : String → Db → Option ItemRow
find_item id db = find (item_is id) db.items

abbrev pub find_attachment : String → String → Db → Option NoteLabelRow
find_attachment note_id label_id db = find (attachment_is note_id label_id) db.note_labels

-- CHECK (kind IN ('text', 'checklist', 'audio'))
unfoldable pub valid_kind : Text → Bool
valid_kind kind =
    text_eq kind (codes "text") || text_eq kind (codes "checklist") || text_eq kind (codes "audio")

unfoldable pub note_exists : String → Db → Bool
note_exists id db = exists (note_is id) db.notes

unfoldable pub label_exists : String → Db → Bool
label_exists id db = exists (label_is id) db.labels

-- INSERT INTO notes
unfoldable pub insert_note : NoteRow → Tx (Unit {0})
unfolding note_exists
insert_note n db =
    if note_exists n.id db || not (valid_kind n.kind)
    then fail constraint db
    else exec (λ db. record db { notes = db.notes ++ n ∷ [] }) db

-- UPDATE notes SET … WHERE id = ?, which touches the row that is found, if there is one
unfoldable pub update_found : String → (NoteRow → NoteRow) → Option NoteRow → Tx (Unit {0})
update_found id f none db = exec (λ db. db) db
update_found id f (some n) db =
    if not (valid_kind (f n).kind)
    then fail constraint db
    else exec (λ db. record db { notes = update (note_is id) f db.notes }) db

unfoldable pub update_note : String → (NoteRow → NoteRow) → Tx (Unit {0})
unfolding update_found
update_note id f db = update_found id f (find_note id db) db

-- INSERT INTO checklist_items
unfoldable pub insert_item : ItemRow → Tx (Unit {0})
unfolding note_exists
insert_item i db =
    if exists (item_is i.id) db.items || not (note_exists i.note_id db)
    then fail constraint db
    else exec (λ db. record db { items = db.items ++ i ∷ [] }) db

-- UPDATE checklist_items SET … WHERE id = ?, of columns that no constraint is on
unfoldable pub update_item : String → (ItemRow → ItemRow) → Tx (Unit {0})
update_item id f = exec (λ db. record db { items = update (item_is id) f db.items })

-- INSERT INTO note_labels
unfoldable pub insert_attachment : NoteLabelRow → Tx (Unit {0})
unfolding note_exists label_exists
insert_attachment l db =
    if exists (attachment_is l.note_id l.label_id) db.note_labels
      || not (note_exists l.note_id db)
      || not (label_exists l.label_id db)
    then fail constraint db
    else exec (λ db. record db { note_labels = db.note_labels ++ l ∷ [] }) db

-- UPDATE note_labels SET … WHERE note_id = ? AND label_id = ?
unfoldable pub update_attachment : String → String → (NoteLabelRow → NoteLabelRow) → Tx (Unit {0})
update_attachment note_id label_id f =
    exec
      (λ db. record db { note_labels = update (attachment_is note_id label_id) f db.note_labels })

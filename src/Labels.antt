-- ===== src/Labels.antt =====
-- Labels: server/internal/labelsvc/labelsvc.go.
pub mod Names
pub mod Apart
mod Tests
use retainer.Prelude.{
  ℕ, String, Bool, true, false, ◌&&◌, ◌||◌, not, Option, none, some, List, [], ◌∷◌, ◌++◌, Ordering,
  str_eq, if◌then◌else◌,
}
use retainer.Prelude.Text.{Text, text_eq, compare_text}
use retainer.Prelude.Int.{ℤ}
use retainer.Schema.{Db, LabelRow, NoteLabelRow}
use retainer.Schema.Table.{find, update, delete, exists, order_by}
use retainer.Store.{
  Result, Tx, pure, fail, query, exec, transact, not_found, name_taken, empty_name, ◌>>=◌, ◌>>◌,
}
use retainer.Store.Rows.{label_is}
use retainer.Search.{is_space}

-- `strings.TrimSpace`, for the spaces that take one byte
unfoldable pub trim_left : Text → Text
trim_left [] = []
trim_left (c ∷ s) = let rest = trim_left s in if is_space c then rest else c ∷ s

unfoldable pub cons_trimmed : ℕ → Text → Text
cons_trimmed c [] = if is_space c then [] else c ∷ []
cons_trimmed c (d ∷ s) = c ∷ d ∷ s

unfoldable pub trim_right : Text → Text
unfolding cons_trimmed
trim_right [] = []
trim_right (c ∷ s) = cons_trimmed c (trim_right s)

abbrev pub trim_space : Text → Text
trim_space s = trim_right (trim_left s)

abbrev pub named : Text → LabelRow → Bool
named name l = text_eq l.name name

-- `List`, in the order of the names
unfoldable pub list : Db → List LabelRow
list db =
    order_by (λ l k. elim (compare_text l.name k.name) [ Ordering.lt ↦ true | _ ↦ false ]) db.labels

-- INSERT INTO labels. A key that is there is reported as a name that is there.
unfoldable pub insert_label : LabelRow → Tx LabelRow
insert_label l db =
    if exists (label_is l.id) db.labels || exists (named l.name) db.labels
    then fail name_taken db
    else pure l (record db { labels = db.labels ++ l ∷ [] })

-- `Create` behind the trimming; `id` is the new UUID.
unfoldable pub create_named : String → Text → ℤ → Tx LabelRow
unfolding insert_label
create_named id [] now db = fail empty_name db
create_named id (c ∷ name) now db =
    insert_label (record { id = id; name = c ∷ name; created_at = now }) db

-- `Create`
unfoldable pub create : String → Text → ℤ → Tx LabelRow
create id name now = create_named id (trim_space name) now

abbrev pub set_name : Text → LabelRow → LabelRow
set_name name l = record l { name = name }

-- Another label that has the name
abbrev pub taken_by_other : String → Text → LabelRow → Bool
taken_by_other id name l = named name l && not (label_is id l)

-- UPDATE labels SET name = ? WHERE id = ?, from the row that it touches on
unfoldable pub rename_found : String → Text → Option LabelRow → Tx LabelRow
rename_found id name none db = fail not_found db
rename_found id name (some l) db =
    if exists (taken_by_other id name) db.labels
    then fail name_taken db
    else pure (set_name name l)
        (record db { labels = update (label_is id) (set_name name) db.labels })

unfoldable pub rename_named : String → Text → Tx LabelRow
unfolding rename_found
rename_named id [] db = fail empty_name db
rename_named id (c ∷ name) db = rename_found id (c ∷ name) (find (label_is id) db.labels) db

-- `Rename`
unfoldable pub rename : String → Text → Tx LabelRow
rename id name = rename_named id (trim_space name)

abbrev pub attaches : String → NoteLabelRow → Bool
attaches label_id l = str_eq l.label_id label_id

-- The transaction of `Delete`
unfoldable pub detach_and_delete : String → Tx (Unit {0})
detach_and_delete id db =
    let detached = record db { note_labels = delete (attaches id) db.note_labels } in
    if exists (label_is id) db.labels
    then exec (λ d. record d { labels = delete (label_is id) d.labels }) detached
    else fail not_found detached

-- `Delete`
unfoldable pub delete_label : String → Db → Result (Unit {0}) × Db
delete_label id = transact (detach_and_delete id)

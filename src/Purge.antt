-- ===== src/Purge.antt =====
-- The trash: server/internal/purge/sweep.go.
pub mod Sweep
pub mod Retained
mod Tests
use retainer.Prelude.{
  ℕ, ◌+◌, ◌*◌, String, Bool, true, false, ◌||◌, Option, none, some, List, [], ◌∷◌, map, str_eq,
  length, if◌then◌else◌,
}
use retainer.Prelude.Int.{ℤ, pos, ltb_ℤ, sub_ℕ}
use retainer.Schema.{Db, NoteRow, NoteLabelRow}
use retainer.Schema.Table.{select, delete, exists}
use retainer.Store.{Result, Tx, pure, fail, query, exec, transact, constraint, ◌>>=◌, ◌>>◌}
use retainer.Store.Rows.{note_is, item_of}
use retainer.Search.{delete_fts}

-- Seven days in milliseconds
abbrev pub retention : ℕ
retention = 7 * 24 * 60 * 60 * 1000

abbrev pub label_of : String → NoteLabelRow → Bool
label_of note_id l = str_eq l.note_id note_id

-- DELETE FROM notes WHERE id = ?, which the references to notes(id) refuse while there are any
unfoldable pub delete_note : String → Tx (Unit {0})
delete_note id db =
    if exists (item_of id) db.items || exists (label_of id) db.note_labels
    then fail constraint db
    else exec (λ db. record db { notes = delete (note_is id) db.notes }) db

-- `purgeNote`
unfoldable pub purge_note : String → Tx (Unit {0})
unfolding delete_fts
purge_note id = do
  exec (λ db. record db { items = delete (item_of id) db.items })
  exec (λ db. record db { note_labels = delete (label_of id) db.note_labels })
  exec (delete_fts id)
  delete_note id

-- `PurgeOne`
unfoldable pub purge_one : String → Db → Result (Unit {0}) × Db
purge_one id = transact (purge_note id)

-- `trashed_at IS NOT NULL AND trashed_at < ?`
unfoldable pub expired : ℤ → NoteRow → Bool
expired cutoff n = elim n.trashed_at [ none ↦ false | some t ↦ ltb_ℤ t cutoff ]

-- The loop over the ids
unfoldable pub purge_all : List String → Tx (Unit {0})
purge_all [] = pure tt
purge_all (id ∷ ids) = do purge_note id; purge_all ids

-- The ids that the query of `Sweep` collects at the time `now`, in milliseconds since 1970
unfoldable pub expired_ids : ℕ → Db → List String
unfolding expired
expired_ids now db = map (λ n. n.id) (select (expired (sub_ℕ now retention)) db.notes)

-- The loop, and the answer behind it
unfoldable pub purge_and_count : List String → Tx ℕ
purge_and_count ids = do purge_all ids; pure (length ids)

-- `Sweep`
unfoldable pub sweep : ℕ → Db → Result ℕ × Db
sweep now = transact (λ db. purge_and_count (expired_ids now db) db)

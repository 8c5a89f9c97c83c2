-- ===== src/Search/Reindex.antt =====
-- What `ReindexNote` leaves: the index row of one note, from the note and its items as they are.
use retainer.Prelude.{
  ◌≡◌, refl, String, arith, Option, none, some, List, [], ◌∷◌, ◌++◌, ap, sym, append-nil,
}
use retainer.Schema.{Db, NoteRow, FtsRow}
use retainer.Schema.Table.{delete}
use retainer.Store.{ok}
use retainer.Store.Rows.{find_note, fts_of}
use retainer.Search.{fts_row, reindex, reindex_note}

abbrev pub index_rows : String → Db → Option NoteRow → List FtsRow
index_rows note_id d none = []
index_rows note_id d (some n) = fts_row note_id n d ∷ []

-- The index without the old row of the note, and with the one that it is to have.
unfoldable pub reindexed : String → Db → List FtsRow
reindexed note_id d = delete (fts_of note_id) d.fts ++ index_rows note_id d (find_note note_id d)

reindex_lem :
    (note_id : String) (d : Db) (o : Option NoteRow)
    → reindex note_id o d
      ≡ ok (tt, record d { fts = delete (fts_of note_id) d.fts ++ index_rows note_id d o })
unfolding reindex
reindex_lem note_id d none =
    ap (λ (rows : List FtsRow). ok (tt, record d { fts = rows })) (sym (append-nil _))
reindex_lem note_id d (some n) = refl

-- Reindexing never fails, and changes the index only.
pub reindex_note_lem :
    (note_id : String) (d : Db)
    → reindex_note note_id d ≡ ok (tt, record d { fts = reindexed note_id d })
unfolding reindex_note reindexed
reindex_note_lem note_id d = reindex_lem note_id d (find_note note_id d)

pub reindex_note-eq-ok :
    (note_id : String) (d : Db) {u : Unit {0}} {e : Db}
    → reindex_note note_id d ≡ ok (u, e)
    → e ≡ record d { fts = reindexed note_id d }
reindex_note-eq-ok note_id d h = ground (arith, reindex_note_lem note_id d)

-- ===== src/Notes/Indexed.antt =====
-- The search index against what a reader of the note is shown.
use mathlib.Core.List.{map-map}
use retainer.Prelude.{
  ◌≡◌, refl, sym, ap, ◌∙◌, String, Option, none, some, List, [], ◌∷◌, ◌++◌, map, eq_iff,
  if◌then◌else◌,
}
use retainer.Prelude.Text.{Text, text_eq, codes}
use retainer.Schema.{Db, NoteRow, Note, FtsRow, scan_note}
use retainer.Schema.Table.{delete, find-test}
use retainer.Store.{ok}
use retainer.Store.Rows.{note_is, find_note, fts_of}
use retainer.Search.{join, item_lines, content_blob, fts_row, reindex_note}
use retainer.Search.Reindex.{reindexed, index_rows, reindex_note_lem}
use retainer.Notes.{scan_listed, items_for_note, complete, get_found, get}

item_lines-items_for_note :
    (id : String) (d : Db) → item_lines id d ≡ map (λ i. i.text) (items_for_note id d)
unfolding item_lines items_for_note scan_listed
item_lines-items_for_note id d = sym (map-map (λ i. i.text) scan_listed _)

-- The text of a note as it is shown: the items of a checklist, a line each, and else the body.
abbrev pub shown_text : Note → Text
shown_text n =
    if text_eq n.kind (codes "checklist") then join (map (λ i. i.text) n.items) else n.body

abbrev pub shown_rows : Option Note → List FtsRow
shown_rows none = []
shown_rows (some n) = record { note_id = n.id; title = n.title; content_blob = shown_text n } ∷ []

index_rows-shown :
    (id : String) (d : Db) (o : Option NoteRow)
    → find_note id d ≡ o
    → index_rows id d o ≡ shown_rows (get_found d o)
unfolding fts_row content_blob get_found complete scan_note
index_rows-shown id d none found = refl
index_rows-shown id d (some n) found =
    rw ((eq_iff n.id id).0 (find-test (note_is id) d.notes n found), item_lines-items_for_note id d)
      refl

-- ReindexNote never fails. The index then has, of the note, one row with the title and the text that Get
-- shows, the items of a checklist in the order in which they are listed; it has none, if Get finds no note.
-- Its rows of other notes stay, as does the rest of the database.
pub reindex_note-get :
    (id : String) (d : Db)
    → reindex_note id d
      ≡ ok (tt, record d { fts = delete (fts_of id) d.fts ++ shown_rows (get id d) })
unfolding reindexed get
reindex_note-get id d =
    reindex_note_lem id d
    ∙ ap (λ rows. ok (tt, record d { fts = delete (fts_of id) d.fts ++ rows }))
        (index_rows-shown id d (find_note id d) refl)

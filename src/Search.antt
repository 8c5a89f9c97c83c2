-- ===== src/Search.antt =====
-- The search index: server/internal/searchsvc/searchsvc.go.
mod Tests
pub mod Reindex
pub mod Query
pub mod Grid
use retainer.Prelude.{
  ℕ, ◌≡◌, String, Bool, true, false, ◌&&◌, ◌||◌, not, Option, none, some, List, [], ◌∷◌, ◌++◌, map,
  Ordering, str_eq, ◌==◌, leb, if◌then◌else◌,
}
use retainer.Prelude.Text.{Text, codes, compare_text, text_eq}
use retainer.Schema.{Db, NoteRow, ItemRow, FtsRow}
use retainer.Schema.Table.{select, delete, order_by}
use retainer.Store.{Tx, query, exec, ◌>>=◌, ◌>>◌}
use retainer.Store.Rows.{find_note, item_of, fts_of}

-- ORDER BY position ASC
abbrev pub item_before : ItemRow → ItemRow → Bool
item_before i j = elim (compare_text i.position j.position) [ Ordering.lt ↦ true | _ ↦ false ]

-- `strings.Join(lines, "\n")`
unfoldable pub join : List Text → Text
join [] = []
join (s ∷ []) = s
join (s ∷ t ∷ rest) = s ++ (10 ∷ join (t ∷ rest))

-- SELECT text FROM checklist_items WHERE note_id = ? AND deleted = 0 ORDER BY position ASC
unfoldable pub item_lines : String → Db → List Text
item_lines note_id db =
    map (λ i. i.text)
      (order_by item_before (select (λ i. item_of note_id i && not i.deleted) db.items))

-- `contentBlob`
unfoldable pub content_blob : String → NoteRow → Db → Text
unfolding join item_lines
content_blob note_id n db =
    if text_eq n.kind (codes "checklist") then join (item_lines note_id db) else n.body

-- The FTS row that a note is to have.
unfoldable pub fts_row : String → NoteRow → Db → FtsRow
unfolding content_blob
fts_row note_id n db = record {
  note_id = note_id;
  title = n.title;
  content_blob = content_blob note_id n db;
}

-- DELETE FROM notes_fts WHERE note_id = ?
unfoldable pub delete_fts : String → Db → Db
delete_fts note_id db = record db { fts = delete (fts_of note_id) db.fts }

-- `ReindexNote`, behind its first query
unfoldable pub reindex : String → Option NoteRow → Tx (Unit {0})
unfolding delete_fts fts_row
reindex note_id none = exec (delete_fts note_id)
reindex note_id (some n) = do
  row ← query (fts_row note_id n)
  exec (delete_fts note_id)
  exec (λ db. record db { fts = db.fts ++ row ∷ [] })

unfoldable pub reindex_note : String → Tx (Unit {0})
unfolding reindex
reindex_note note_id = do note ← query (find_note note_id); reindex note_id note

-- The spaces of `strings.Fields` that take one byte
unfoldable pub is_space : ℕ → Bool
is_space c = c == 32 || (leb 9 c && leb c 13)

-- What ends a word: it is a field, unless it is empty.
pub emit : Text → List Text → List Text
emit [] rest = rest
emit (c ∷ w) rest = (c ∷ w) ∷ rest

pub fields_from : Text → Text → List Text
fields_from w [] = emit w []
fields_from w (c ∷ s) = elim (is_space c) [
  | true ↦ emit w (fields_from [] s)
  | false ↦ fields_from (w ++ c ∷ []) s
]

-- `strings.Fields`
unfoldable pub fields : Text → List Text
unfolding fields_from is_space emit
fields q = fields_from [] q

-- `strings.ReplaceAll(f, `"`, `""`)`
pub escape : Text → Text
escape [] = []
escape (c ∷ s) = if c == b'"' then b'"' ∷ b'"' ∷ escape s else c ∷ escape s

unfoldable pub quote : Text → Text
quote f = b'"' ∷ (escape f ++ b'"' ∷ [])

-- `strings.Join(parts, " ")`
unfoldable pub join_parts : List Text → Text
join_parts [] = []
join_parts (p ∷ []) = p
join_parts (p ∷ r ∷ rest) = p ++ (b' ' ∷ join_parts (r ∷ rest))

unfoldable pub sanitize_query : Text → Text
sanitize_query q = join_parts (map quote (fields q))

-- `n.trashed_at IS NULL AND n.archived = 0`
unfoldable pub in_main_grid : Option NoteRow → Bool
in_main_grid none = false
in_main_grid (some n) = elim n.trashed_at [ none ↦ not n.archived | some t ↦ false ]

-- FTS5's MATCH with ORDER BY rank: the rows that match, best first.
module _ (fts_match : Text → List FtsRow → List FtsRow) where
  -- `Search`
  unfoldable pub search_notes : Text → Db → List String
  unfolding sanitize_query in_main_grid
  search_notes query db = elim (sanitize_query query) [
    | [] ↦ []
    | c ∷ q ↦
        map (λ f. f.note_id)
          (select (λ f. in_main_grid (find_note f.note_id db)) (fts_match (c ∷ q) db.fts))
  ]

-- ===== src/Search/Grid.antt =====
-- What a search may return.
use mathlib.Core.List.{Memᴰ}
use retainer.Prelude.{◌≡◌, String, true, List}
use retainer.Prelude.Text.{Text}
use retainer.Schema.{Db, FtsRow}
use retainer.Store.Rows.{find_note}
use retainer.Search.{in_main_grid, sanitize_query}

-- An id that a search may return: its note is in the main grid, and the matcher has ranked an index row of it.
pub record Shown (fts_match : Text → List FtsRow → List FtsRow) (query : Text) (d : Db)
    (id : String) : Type 0 where
  pub in_grid : in_main_grid (find_note id d) ≡ true
  pub row : FtsRow
  pub matched : Memᴰ row (fts_match (sanitize_query query) d.fts)
  pub named : row.note_id ≡ id

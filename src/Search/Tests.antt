-- ===== src/Search/Tests.antt =====
-- What the sanitizer makes of a typed query.
use retainer.Prelude.{String, Bool, true, false, none, List, ◌≡◌, refl, [], ◌∷◌}
use retainer.Prelude.Text.{Text, codes}
use retainer.Search.{fields, sanitize_query}
use retainer.Prelude.Int.{pos}
use retainer.Schema.{Db, NoteRow, FtsRow, init}
use retainer.Schema.Table.{find, select}
use retainer.Search.{in_main_grid, search_notes}
use retainer.Search.{join_parts, quote}

abbrev typed : Text
typed = codes "milk  \"or\" -eggs"

three_words : fields typed ≡ codes "milk" ∷ codes "\"or\"" ∷ codes "-eggs" ∷ []
unfolding fields
three_words = refl

abbrev a_note : String → Bool → NoteRow
a_note id archived = record {
  id = id;
  kind = codes "text";
  title = codes "Milk";
  body = codes "";
  color = codes "default";
  pinned = false;
  archived = archived;
  trashed_at = none;
  position = codes "U";
  archive_position = codes "";
  field_clocks = [];
  server_seq = 1;
  created_at = pos 0;
  updated_at = pos 0;
  audio_blob = none;
  audio_mime_type = codes "";
  audio_duration_ms = pos 0;
}

-- One note in the grid, one in the archive
abbrev grid : Db
grid = record init {
  notes = a_note "n1" false ∷ a_note "n2" true ∷ [];
  fts =
      record { note_id = "n2"; title = codes "Milk"; content_blob = [] }
      ∷ record { note_id = "n1"; title = codes "Milk"; content_blob = [] }
      ∷ [];
}

-- A matcher that finds every row
abbrev every : Text → List FtsRow → List FtsRow
every q rows = rows

only_the_first : search_notes every (codes "milk") grid ≡ "n1" ∷ []
unfolding search_notes sanitize_query select in_main_grid find fields join_parts quote
only_the_first = refl

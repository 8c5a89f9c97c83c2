-- ===== src/Http/Searched.antt =====
-- What the search endpoint answers.
use retainer.Prelude.{◌≡◌, String, false, none, some, List, map, All}
use retainer.Prelude.Text.{Text}
use retainer.Schema.{Db, Note}
use retainer.Notes.{get}

-- A note as Get reads it, neither in the trash nor archived
pub record Found (d : Db) (n : Note) : Type 0 where
  pub read : get n.id d ≡ some n
  pub not_trashed : n.trashed_at ≡ none
  pub not_archived : n.archived ≡ false

pub record Answers (d : Db) (ids : List String) (notes : List Note) : Type 0 where
  pub ids_of : map (λ n. n.id) notes ≡ ids
  pub found : All (Found d) notes

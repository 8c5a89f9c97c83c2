-- ===== src/Purge/Retained.antt =====
-- Which notes outlive a sweep.
use mathlib.Core.List.{Memᴰ}
use retainer.Prelude.{◌≡◌, String, Bool, true, Option, none, some, List, if◌then◌else◌}
use retainer.Prelude.Int.{ℤ}
use retainer.Schema.{Db, NoteRow}
use retainer.Store.Rows.{find_note}
use retainer.Purge.{expired}

-- `id` is the key of the table of notes.
pub record HasKeys (d : Db) : Type 0 where
  pub key : (n : NoteRow) → Memᴰ n d.notes → find_note n.id d ≡ some n

unfoldable pub unless_expired : ℤ → Option NoteRow → Option NoteRow
unless_expired cutoff none = none
unless_expired cutoff (some n) = if expired cutoff n then none else some n

-- A note with an id, among those that the test selects
record Selected (test : NoteRow → Bool) (id : String) (rows : List NoteRow) : Type 0 where
  row : NoteRow
  among : Memᴰ row rows
  named : row.id ≡ id
  tested : test row ≡ true

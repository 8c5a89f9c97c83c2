-- ===== src/Sync/Registers.antt =====
-- The abstract view of the merge on notes: each field of a note is a register, in which the writer with the newest
-- stamp wins.
pub mod Columns
pub mod Writes
pub mod Lookups
pub mod Steps
pub mod Refines
pub mod Converge
use retainer.Prelude.{
  ◌≡◌, String, Bool, true, false, ◌&&◌, Option, none, some, List, [], ◌∷◌, str_eq, if◌then◌else◌,
}
use retainer.Prelude.Text.{Text, codes}
use retainer.Schema.{Db, NoteRow}
use retainer.Store.{Result, ok, err}
use retainer.Store.Rows.{find_note}
use retainer.Sync.Wire.{
  RawMessage, Mutation, NoteColumn, Value, a_text, a_bool, a_time, decode_text, decode_flag,
  decode_time,
}
use retainer.Sync.Clocks.{lookup, not_after}
use retainer.Sync.Notes.{first_position}

-- The stamp of the last write, if there was one, and the value
abbrev pub Register : Type 0
Register = Option Text × Value

-- A write wins, if no stamp is there or its own is newer.
unfoldable pub write : Text → Value → Register → Register
write stamp v (none, w) = (some stamp, v)
write stamp v (some last, w) = if not_after stamp last then (some last, w) else (some stamp, v)

-- The values that a field takes
unfoldable pub decode_at : NoteColumn → RawMessage → Result Value
decode_at NoteColumn.pinned raw = decode_flag raw
decode_at NoteColumn.archived raw = decode_flag raw
decode_at NoteColumn.trashed_at raw = decode_time raw
decode_at _ raw = decode_text raw

unfoldable pub write_decoded : Text → Result Value → Register → Register
unfolding write
write_decoded stamp (ok v) r = write stamp v r
write_decoded stamp (err e) r = r

-- A mutation of the field of the note
abbrev pub concerns : String → String → Mutation → Bool
concerns id field m = str_eq m.entity "note" && (str_eq m.id id && str_eq m.field field)

-- The register behind a mutation
unfoldable pub write_one : String → String → NoteColumn → Mutation → Register → Register
unfolding write_decoded decode_at
write_one id field c m r =
    if concerns id field m then write_decoded m.hlc (decode_at c m.value) r else r

-- The register behind a batch
unfoldable pub write_all : String → String → NoteColumn → List Mutation → Register → Register
write_all id field c [] r = r
write_all id field c (m ∷ ms) r = write_all id field c ms (write_one id field c m r)

unfoldable pub value_at : NoteColumn → NoteRow → Value
value_at NoteColumn.kind n = a_text n.kind
value_at NoteColumn.title n = a_text n.title
value_at NoteColumn.body n = a_text n.body
value_at NoteColumn.color n = a_text n.color
value_at NoteColumn.pinned n = a_bool n.pinned
value_at NoteColumn.archived n = a_bool n.archived
value_at NoteColumn.trashed_at n = a_time n.trashed_at
value_at NoteColumn.position n = a_text n.position
value_at NoteColumn.archive_position n = a_text n.archive_position

-- The register that a row of the table stands for
unfoldable pub register_of : String → NoteColumn → NoteRow → Register
unfolding value_at
register_of field c n = (lookup field n.field_clocks, value_at c n)

-- The values of a note that nobody has edited
unfoldable pub default_at : NoteColumn → Value
default_at NoteColumn.kind = a_text (codes "text")
default_at NoteColumn.color = a_text (codes "default")
default_at NoteColumn.pinned = a_bool false
default_at NoteColumn.archived = a_bool false
default_at NoteColumn.trashed_at = a_time none
default_at NoteColumn.position = a_text first_position
default_at _ = a_text (codes "")

-- The register of a note, which may not be there yet
unfoldable pub register_in : String → NoteColumn → Option NoteRow → Register
unfolding register_of default_at
register_in field c none = (none, default_at c)
register_in field c (some n) = register_of field c n

unfoldable pub register_at : String → String → NoteColumn → Db → Register
unfolding register_in
register_at id field c d = register_in field c (find_note id d)

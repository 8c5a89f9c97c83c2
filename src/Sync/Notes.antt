-- ===== src/Sync/Notes.antt =====
-- `applyNoteMutation` and `applyFieldToNote`.
pub mod Step
pub mod Settled
use retainer.Prelude.{
  ℕ, String, Bool, true, false, Option, none, some, List, [], ◌∷◌, str_eq, if◌then◌else◌,
}
use retainer.Prelude.Text.{Text, codes, text_eq}
use retainer.Prelude.Int.{ℤ, pos}
use retainer.Fracindex.{key_between}
use retainer.Schema.{Db, NoteRow}
use retainer.Store.{
  Result, ok, err, Tx, pure, fail, query, lift, unknown_field, missing_id, audio_kind,
  next_server_seq, ◌>>=◌, ◌>>◌,
}
use retainer.Store.Rows.{find_note, insert_note, update_note}
use retainer.Search.{reindex_note}
use retainer.Sync.Wire.{
  RawMessage, Mutation, NoteColumn, Value, a_text, a_bool, a_time, note_field_columns,
  decode_string, decode_bool, decode_nullable_int64, coerced_value,
}
use retainer.Sync.Clocks.{put, stale}

unfoldable pub map_result {ℓ κ} : {A : Type ℓ} {B : Type κ} → (A → B) → Result A → Result B
map_result f (ok a) = ok (f a)
map_result f (err e) = err e

-- `applyFieldToNote`
unfoldable pub apply_field_to_note : NoteRow → NoteColumn → RawMessage → Result NoteRow
unfolding map_result decode_string decode_bool decode_nullable_int64
apply_field_to_note n NoteColumn.kind raw =
    map_result (λ v. record n { kind = v }) (decode_string raw)
apply_field_to_note n NoteColumn.title raw =
    map_result (λ v. record n { title = v }) (decode_string raw)
apply_field_to_note n NoteColumn.body raw =
    map_result (λ v. record n { body = v }) (decode_string raw)
apply_field_to_note n NoteColumn.color raw =
    map_result (λ v. record n { color = v }) (decode_string raw)
apply_field_to_note n NoteColumn.pinned raw =
    map_result (λ v. record n { pinned = v }) (decode_bool raw)
apply_field_to_note n NoteColumn.archived raw =
    map_result (λ v. record n { archived = v }) (decode_bool raw)
apply_field_to_note n NoteColumn.trashed_at raw =
    map_result (λ v. record n { trashed_at = v }) (decode_nullable_int64 raw)
apply_field_to_note n NoteColumn.position raw =
    map_result (λ v. record n { position = v }) (decode_string raw)
apply_field_to_note n NoteColumn.archive_position raw =
    map_result (λ v. record n { archive_position = v }) (decode_string raw)

-- `SET <column> = ?`; `coercedValue` gives each column a value of its type.
unfoldable pub set_note_column : NoteColumn → Value → NoteRow → NoteRow
set_note_column NoteColumn.kind (a_text v) n = record n { kind = v }
set_note_column NoteColumn.title (a_text v) n = record n { title = v }
set_note_column NoteColumn.body (a_text v) n = record n { body = v }
set_note_column NoteColumn.color (a_text v) n = record n { color = v }
set_note_column NoteColumn.pinned (a_bool v) n = record n { pinned = v }
set_note_column NoteColumn.archived (a_bool v) n = record n { archived = v }
set_note_column NoteColumn.trashed_at (a_time v) n = record n { trashed_at = v }
set_note_column NoteColumn.position (a_text v) n = record n { position = v }
set_note_column NoteColumn.archive_position (a_text v) n = record n { archive_position = v }
set_note_column c v n = n

-- `fracindex.KeyBetween("", "")`
pub first_position : Text
first_position = elim (key_between [] []) [ none ↦ [] | some key ↦ key ]

-- The note that a first mutation starts from
unfoldable pub new_note : String → ℤ → ℕ → NoteRow
new_note id now seq = record {
  id = id;
  kind = codes "text";
  title = codes "";
  body = codes "";
  color = codes "default";
  pinned = false;
  archived = false;
  trashed_at = none;
  position = first_position;
  archive_position = codes "";
  field_clocks = [];
  server_seq = seq;
  created_at = now;
  updated_at = now;
  audio_blob = none;
  audio_mime_type = codes "";
  audio_duration_ms = pos 0;
}

-- `noteContentFields`
unfoldable pub is_note_content : NoteColumn → Bool
is_note_content NoteColumn.title = true
is_note_content NoteColumn.body = true
is_note_content NoteColumn.kind = true
is_note_content _ = false

-- The audio check: a mutation never makes a note an audio note.
unfoldable pub guard_kind : NoteColumn → RawMessage → Result (Unit {0})
guard_kind NoteColumn.kind raw = elim (decode_string raw) [
  | err e ↦ err e
  | ok v ↦ if text_eq v (codes "audio") then err audio_kind else ok tt
]
guard_kind _ raw = ok tt

-- The branch on `sql.ErrNoRows`: the note is created.
unfoldable pub create_note : ℤ → NoteColumn → Mutation → Tx (Unit {0})
create_note now column m = do
  seq ← next_server_seq
  n ← lift (apply_field_to_note (new_note m.id now seq) column m.value)
  insert_note (record n { field_clocks = (m.field, m.hlc) ∷ [] })
  reindex_note m.id

-- The UPDATE of one column
unfoldable pub write_column : ℤ → NoteColumn → Mutation → ℕ → Value → NoteRow → NoteRow
write_column now column m seq v n = record (set_note_column column v n) {
  field_clocks = put m.field m.hlc n.field_clocks;
  server_seq = seq;
  updated_at = now;
}

-- Behind the discarding test
unfoldable pub write_note : ℤ → NoteColumn → Mutation → Tx (Unit {0})
write_note now column m = do
  seq ← next_server_seq
  v ← lift (coerced_value m.field m.value)
  update_note m.id (write_column now column m seq v)
  if is_note_content column then reindex_note m.id else pure tt

-- A note that is there: a stamp that is not newer than the stored one is discarded.
unfoldable pub merge_note : ℤ → NoteColumn → Mutation → NoteRow → Tx (Unit {0})
merge_note now column m n =
    if stale n.field_clocks m.field m.hlc then pure tt else write_note now column m

unfoldable pub create_or_merge : ℤ → NoteColumn → Mutation → Option NoteRow → Tx (Unit {0})
create_or_merge now column m none = create_note now column m
create_or_merge now column m (some n) = merge_note now column m n

-- Behind the look-up of the column
unfoldable pub apply_to_column : ℤ → Option NoteColumn → Mutation → Tx (Unit {0})
apply_to_column now none m = fail unknown_field
apply_to_column now (some column) m = if str_eq m.id "" then fail missing_id else do
  lift (guard_kind column m.value)
  n ← query (find_note m.id)
  create_or_merge now column m n

unfoldable pub apply_note_mutation : ℤ → Mutation → Tx (Unit {0})
apply_note_mutation now m = apply_to_column now (note_field_columns m.field) m

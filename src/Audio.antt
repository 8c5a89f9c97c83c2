-- ===== src/Audio.antt =====
-- Audio notes: server/internal/audiosvc/audiosvc.go.
pub mod Recording
pub mod Immutable
mod Tests
use retainer.Prelude.{
  ℕ, ◌+◌, ◌*◌, String, Bool, true, false, ◌&&◌, Option, none, some, List, [], ◌∷◌,
}
use retainer.Prelude.Text.{Text, codes, text_eq}
use retainer.Prelude.Int.{ℤ}
use retainer.Schema.{Db, NoteRow, Note}
use retainer.Schema.Table.{find}
use retainer.Store.{Result, Tx, pure, transact, next_server_seq, ◌>>=◌, ◌>>◌}
use retainer.Store.Rows.{note_is, insert_note}
use retainer.Search.{reindex_note}

-- `MaxDurationMs`
abbrev pub max_duration_ms : ℕ
max_duration_ms = 5 * 60 * 1000 + 2000

-- What `Create` is called with
pub record Upload : Type 0 where
  pub id : String
  pub title : Text
  pub position : Text
  pub mime_type : Text
  pub duration_ms : ℤ
  pub blob : List ℕ

-- The columns of the INSERT
unfoldable pub audio_row : Upload → ℤ → ℕ → NoteRow
audio_row u now seq = record {
  id = u.id;
  kind = codes "audio";
  title = u.title;
  body = codes "";
  color = codes "default";
  pinned = false;
  archived = false;
  trashed_at = none;
  position = u.position;
  archive_position = codes "";
  field_clocks = [];
  server_seq = seq;
  created_at = now;
  updated_at = now;
  audio_blob = some u.blob;
  audio_mime_type = u.mime_type;
  audio_duration_ms = u.duration_ms;
}

-- The note that is answered, whose other fields have Go's zero values
unfoldable pub audio_note : Upload → ℤ → ℕ → Note
audio_note u now seq = record {
  id = u.id;
  kind = codes "audio";
  title = u.title;
  body = codes "";
  color = codes "default";
  pinned = false;
  archived = false;
  trashed_at = none;
  position = u.position;
  archive_position = codes "";
  server_seq = seq;
  created_at = now;
  updated_at = now;
  items = [];
  label_ids = [];
  audio_mime_type = u.mime_type;
  audio_duration_ms = u.duration_ms;
}

-- The transaction of `Create`
unfoldable pub insert_audio : Upload → ℤ → Tx Note
unfolding audio_row audio_note
insert_audio u now = do
  seq ← next_server_seq
  insert_note (audio_row u now seq)
  reindex_note u.id
  pure (audio_note u now seq)

-- `Create`
unfoldable pub create_audio : Upload → ℤ → Db → Result Note × Db
create_audio u now = transact (insert_audio u now)

-- WHERE id = ? AND kind = 'audio'
abbrev pub recording_is : String → NoteRow → Bool
recording_is id n = note_is id n && text_eq n.kind (codes "audio")

-- A NULL blob is scanned as no bytes.
abbrev pub scan_blob : Option (List ℕ) → List ℕ
scan_blob none = []
scan_blob (some bytes) = bytes

unfoldable pub scan_recording : Option NoteRow → Option (List ℕ × Text)
scan_recording none = none
scan_recording (some n) = some (scan_blob n.audio_blob, n.audio_mime_type)

-- `Audio`, whose `sql.ErrNoRows` is `none`
unfoldable pub audio : String → Db → Option (List ℕ × Text)
unfolding scan_recording
audio id db = scan_recording (find (recording_is id) db.notes)

-- ===== src/Schema.antt =====
-- The tables of server/migrations/001_init.sql and 002_audio_notes.sql, as the lists of their rows,
-- and the structures of server/internal/models/models.go that are read from them.
pub mod Table
pub mod Members
pub mod Sorting
use retainer.Prelude.{ℕ, String, Bool, Option, List, []}
use retainer.Prelude.Text.{Text}
use retainer.Prelude.Int.{ℤ, pos}

-- `field_clocks`: the stamp of each field that was written, by the field's name.
abbrev pub Clocks : Type 0
Clocks = List (String × Text)

pub record NoteRow : Type 0 where
  pub id : String
  pub kind : Text
  pub title : Text
  pub body : Text
  pub color : Text
  pub pinned : Bool
  pub archived : Bool
  pub trashed_at : Option ℤ
  pub position : Text
  pub archive_position : Text
  pub field_clocks : Clocks
  pub server_seq : ℕ
  pub created_at : ℤ
  pub updated_at : ℤ
  pub audio_blob : Option (List ℕ)
  pub audio_mime_type : Text
  pub audio_duration_ms : ℤ

pub record ItemRow : Type 0 where
  pub id : String
  pub note_id : String
  pub text : Text
  pub checked : Bool
  pub deleted : Bool
  pub position : Text
  pub field_clocks : Clocks
  pub server_seq : ℕ

pub record LabelRow : Type 0 where
  pub id : String
  pub name : Text
  pub created_at : ℤ

pub record NoteLabelRow : Type 0 where
  pub note_id : String
  pub label_id : String
  pub attached : Bool
  pub hlc : Text
  pub server_seq : ℕ

-- Times in milliseconds since 1970
pub record SessionRow : Type 0 where
  pub token_hash : String
  pub created_at : ℕ
  pub expires_at : ℕ
  pub last_used_at : ℕ

pub record FtsRow : Type 0 where
  pub note_id : String
  pub title : Text
  pub content_blob : Text

-- The database. `counter` is the one row of `sync_counter`.
pub record Db : Type 0 where
  pub counter : ℕ
  pub notes : List NoteRow
  pub items : List ItemRow
  pub labels : List LabelRow
  pub note_labels : List NoteLabelRow
  pub sessions : List SessionRow
  pub config : List (String × Text)
  pub fts : List FtsRow

-- What 001_init.sql leaves.
abbrev pub init : Db
init = record {
  counter = 0;
  notes = [];
  items = [];
  labels = [];
  note_labels = [];
  sessions = [];
  config = [];
  fts = [];
}

-- `models.ChecklistItem`
pub record ChecklistItem : Type 0 where
  pub id : String
  pub note_id : String
  pub text : Text
  pub checked : Bool
  pub deleted : Bool
  pub position : Text
  pub server_seq : ℕ

-- `models.Note`
pub record Note : Type 0 where
  pub id : String
  pub kind : Text
  pub title : Text
  pub body : Text
  pub color : Text
  pub pinned : Bool
  pub archived : Bool
  pub trashed_at : Option ℤ
  pub position : Text
  pub archive_position : Text
  pub server_seq : ℕ
  pub created_at : ℤ
  pub updated_at : ℤ
  pub items : List ChecklistItem
  pub label_ids : List String
  pub audio_mime_type : Text
  pub audio_duration_ms : ℤ

-- The columns that the note queries scan, with no items and labels read yet.
unfoldable pub scan_note : NoteRow → Note
scan_note n = record {
  id = n.id;
  kind = n.kind;
  title = n.title;
  body = n.body;
  color = n.color;
  pinned = n.pinned;
  archived = n.archived;
  trashed_at = n.trashed_at;
  position = n.position;
  archive_position = n.archive_position;
  server_seq = n.server_seq;
  created_at = n.created_at;
  updated_at = n.updated_at;
  items = [];
  label_ids = [];
  audio_mime_type = n.audio_mime_type;
  audio_duration_ms = n.audio_duration_ms;
}

unfoldable pub scan_item : ItemRow → ChecklistItem
scan_item i = record {
  id = i.id;
  note_id = i.note_id;
  text = i.text;
  checked = i.checked;
  deleted = i.deleted;
  position = i.position;
  server_seq = i.server_seq;
}

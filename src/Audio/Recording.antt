-- ===== src/Audio/Recording.antt =====
-- What an upload leaves, and when it is refused.
use text.Mathlib.TextPositions.{eq_refl}
use retainer.Prelude.{
  ◌+◌, ◌≡◌, refl, ap, ◌∙◌, String, Bool, true, false, ◌&&◌, Option, none, some, [], ◌∷◌, ◌++◌,
  str_eq, if◌then◌else◌,
}
use retainer.Prelude.Text.{text_eq, compare_text}
use retainer.Prelude.Int.{ℤ}
use retainer.Schema.{Db, NoteRow, NoteLabelRow, Note, scan_note}
use retainer.Schema.Table.{find, exists, find-append, order_by, find-nothing, select-nothing}
use retainer.Store.{Error, ok, err, continue, transact, next_server_seq, pure, ◌>>◌}
use retainer.Store.Rows.{note_is, note_exists, find_note, insert_note, valid_kind, item_of}
use retainer.Search.{reindex_note}
use retainer.Search.Reindex.{reindexed, reindex_note_lem}
use retainer.Notes.{
  complete, get, get_found, items_for_note, label_ids_for_note, listed_item, attached_to,
}
use retainer.Audio.{
  Upload, audio_row, audio_note, insert_audio, create_audio, recording_is, scan_recording, audio,
}

-- Items and label attachments are of notes that are there.
pub record Referenced (d : Db) : Type 0 where
  pub items : (id : String) → note_exists id d ≡ false → exists (item_of id) d.items ≡ false
  pub note_labels :
      (id : String)
      → note_exists id d ≡ false
      → exists (λ (l : NoteLabelRow). str_eq l.note_id id) d.note_labels ≡ false

-- The database behind an upload
abbrev pub inserted : Upload → ℤ → Db → Db
inserted u now d = record d {
  counter = d.counter + 1;
  notes = d.notes ++ audio_row u now (d.counter + 1) ∷ [];
}

abbrev pub uploaded : Upload → ℤ → Db → Db
uploaded u now d = record (inserted u now d) { fts = reindexed u.id (inserted u now d) }

insert_note-free :
    (n : NoteRow) (d : Db)
    → note_exists n.id d ≡ false
    → valid_kind n.kind ≡ true
    → insert_note n d ≡ ok (tt, record d { notes = d.notes ++ n ∷ [] })
unfolding insert_note
insert_note-free n d free valid = rw (free, valid) refl

insert_audio-free :
    (u : Upload) (now : ℤ) (d : Db)
    → note_exists u.id d ≡ false
    → insert_audio u now d ≡ ok (audio_note u now (d.counter + 1), uploaded u now d)
unfolding insert_audio next_server_seq audio_row valid_kind text_eq compare_text note_exists
insert_audio-free u now d free =
    let row = audio_row u now (d.counter + 1) in
    let first = insert_note-free row (record d { counter = d.counter + 1 }) free refl in
    rw (first, reindex_note_lem u.id (inserted u now d)) refl

and-false : (a b : Bool) → a ≡ false → (a && b) ≡ false
and-false a b h = rw h refl

module _ (u : Upload) (now : ℤ) (d : Db) (free : note_exists u.id d ≡ false) where
  abbrev row : NoteRow
  row = audio_row u now (d.counter + 1)

  pub audio-uploaded : audio u.id (uploaded u now d) ≡ some (u.blob, u.mime_type)
  unfolding audio audio_row scan_recording note_exists text_eq compare_text
  audio-uploaded =
      let missing =
        find-nothing (note_is u.id) (recording_is u.id) (λ n h. and-false _ _ h) d.notes free in
      let found : find (recording_is u.id) (d.notes ++ row ∷ []) ≡ some row =
        find-append (recording_is u.id) d.notes row ∙ rw (missing, eq_refl u.id) refl in
      ap scan_recording found

  find_note-uploaded : find_note u.id (uploaded u now d) ≡ some row
  unfolding note_exists audio_row
  find_note-uploaded =
      let missing = find-nothing (note_is u.id) (note_is u.id) (λ n h. h) d.notes free in
      find-append (note_is u.id) d.notes row ∙ rw (missing, eq_refl u.id) refl

  find_note-others :
      (id : String) → str_eq u.id id ≡ false → find_note id (uploaded u now d) ≡ find_note id d
  unfolding audio_row
  find_note-others id other =
      find-append (note_is id) d.notes row ∙ kept (str_eq u.id id) other (find_note id d)
    where
      kept :
          (b : Bool)
          → b ≡ false
          → (o : Option NoteRow)
          → elim o [ none ↦ if b then some row else none | some s ↦ some s ] ≡ o
      kept b h none = rw h refl
      kept b h (some s) = refl

  get-uploaded :
      Referenced d → get u.id (uploaded u now d) ≡ some (audio_note u now (d.counter + 1))
  unfolding get get_found complete scan_note audio_note items_for_note label_ids_for_note audio_row
      order_by
  get-uploaded refs =
      let no_items =
        select-nothing (item_of u.id) (listed_item u.id) (λ i h. and-false _ _ h) d.items
          (refs.items u.id free) in
      let no_labels =
        select-nothing (λ (l : NoteLabelRow). str_eq l.note_id u.id) (attached_to u.id)
          (λ l h. and-false _ _ h) d.note_labels (refs.note_labels u.id free) in
      rw (find_note-uploaded, no_items, no_labels) refl

pub create_audio-free :
    (u : Upload) (now : ℤ) (d : Db)
    → note_exists u.id d ≡ false
    → create_audio u now d ≡ (ok (audio_note u now (d.counter + 1)), uploaded u now d)
unfolding create_audio
create_audio-free u now d free =
    ap (λ r. transact {A = Note} (λ _. r) d) (insert_audio-free u now d free)

-- What an upload answers, and what its database gives to a reader
pub record Stored (u : Upload) (d : Db) (n : Note) (e : Db) : Type 0 where
  pub numbered : (n.server_seq ≡ e.counter) × (e.counter ≡ d.counter + 1)
  pub recording : audio u.id e ≡ some (u.blob, u.mime_type)
  pub readable : get u.id e ≡ some n
  pub others : (id : String) → str_eq u.id id ≡ false → find_note id e ≡ find_note id d

-- Where items and label attachments are of notes that are there: an upload under an id that no note has succeeds. The recording
-- is then read back, byte for byte, with its MIME type; Get reads the note that was answered, which has the next sequence number; and
-- every other note is as it was.
pub create_audio-Stored :
    (u : Upload) (now : ℤ) (d : Db)
    → Referenced d
    → note_exists u.id d ≡ false
    → (n : Note) × (e : Db) × (create_audio u now d ≡ (ok n, e)) × Stored u d n e
unfolding audio_note
create_audio-Stored u now d refs free = (
  audio_note u now (d.counter + 1),
  uploaded u now d,
  create_audio-free u now d free,
  record {
    numbered = (refl, refl);
    recording = audio-uploaded u now d free;
    readable = get-uploaded u now d free refs;
    others = find_note-others u now d free;
  },
)

insert_note-taken :
    (n : NoteRow) (d : Db) → note_exists n.id d ≡ true → insert_note n d ≡ err Error.constraint
unfolding insert_note
insert_note-taken n d taken = rw taken refl

-- An upload under an id that a note has, of whatever kind, is refused, and changes nothing: a recording is never
-- overwritten.
pub create_audio_taken :
    (u : Upload) (now : ℤ) (d : Db)
    → note_exists u.id d ≡ true
    → create_audio u now d ≡ (err Error.constraint, d)
unfolding create_audio insert_audio next_server_seq audio_row note_exists
create_audio_taken u now d taken =
    let refused =
      insert_note-taken (audio_row u now (d.counter + 1)) (record d { counter = d.counter + 1 })
        taken in
    ap
      (λ r.
        transact {A = Note}
          (λ _.
            continue {A = Unit} r
              (λ _. reindex_note u.id >> pure (audio_note u now (d.counter + 1))))
          d)
      refused

-- ===== src/Audio/Immutable.antt =====
-- What the merge leaves of a recording.
use retainer.Prelude.{
  ℕ, ◌+◌, ◌≡◌, refl, sym, ap, subst, ◌∙◌, String, Bool, true, false, some, List, arith, str_eq,
  if◌then◌else◌,
}
use retainer.Prelude.Int.{ℤ}
use retainer.Schema.{Db, NoteRow}
use retainer.Store.Rows.{note_is, find_note}
use retainer.Sync.Wire.{Mutation, NoteColumn, Value}
use retainer.Sync.Notes.{write_column, set_note_column, is_note_content}
use retainer.Sync.Notes.Step.{NoteStep, first_row, with_index, written_rows}
use retainer.Sync.Notes.Settled.{id-write_column}
use retainer.Sync.Items.{is_item_content, reindexed_note}
use retainer.Sync.Items.Step.{ItemStep, written_items}
use retainer.Sync.Attachments.Step.{LabelStep}
use retainer.Sync.Applied.{Applied}
use retainer.Sync.Progress.{Kept, Kept-refl, Kept-trans, Kept-append, Kept-update, Kept-some}
use retainer.Sync.Requests.{Request, serve, serve-Keeps}

-- Two contents of a row with one recording
pub record Recording (a b : NoteRow) : Type 0 where
  pub blob : b.audio_blob ≡ a.audio_blob
  pub mime_type : b.audio_mime_type ≡ a.audio_mime_type
  pub duration : b.audio_duration_ms ≡ a.audio_duration_ms
  pub created : b.created_at ≡ a.created_at

Recording-refl : (n : NoteRow) → Recording n n
Recording-refl n = record { blob = refl; mime_type = refl; duration = refl; created = refl }

Recording-trans : (a b c : NoteRow) → Recording a b → Recording b c → Recording a c
Recording-trans a b c p q = record {
  blob = q.blob ∙ p.blob;
  mime_type = q.mime_type ∙ p.mime_type;
  duration = q.duration ∙ p.duration;
  created = q.created ∙ p.created;
}

abbrev Recordings : Db → Db → Type 0
Recordings d e = (id : String) → Kept Recording (find_note id d) (find_note id e)

Recordings-refl : (d : Db) → Recordings d d
Recordings-refl d id = Kept-refl Recording Recording-refl (find_note id d)

Recordings-trans : (c d e : Db) → Recordings c d → Recordings d e → Recordings c e
Recordings-trans c d e p q id = Kept-trans Recording Recording-trans _ _ _ (p id) (q id)

set_column-Recording :
    (c : NoteColumn) (v : Value) (n : NoteRow) → Recording n (set_note_column c v n)
unfolding set_note_column
set_column-Recording c v n = record {
  blob = ground arith;
  mime_type = ground arith;
  duration = ground arith;
  created = ground arith;
}

write_column-Recording :
    (now : ℤ) (c : NoteColumn) (m : Mutation) (seq : ℕ) (v : Value) (n : NoteRow)
    → Recording n (write_column now c m seq v n)
unfolding write_column
write_column-Recording now c m seq v n =
    let s = set_column-Recording c v n in
    record { blob = s.blob; mime_type = s.mime_type; duration = s.duration; created = s.created }

-- The rows of another database, with the index redone or not
indexed_Recordings :
    (d e : Db) (content : Bool) (id : String)
    → Recordings d e
    → Recordings d (if content then with_index id e else e)
indexed_Recordings d e true id p = p
indexed_Recordings d e false id p = p

Applied-Recordings : (now : ℤ) (m : Mutation) (d e : Db) → Applied now m d e → Recordings d e
Applied-Recordings now m d e (Applied.note is (NoteStep.discarded c adm n found old same)) =
    subst (Recordings d) (sym same) (Recordings-refl d)
Applied-Recordings now m d e
      (Applied.note is (NoteStep.created c adm absent n decoded valid made)) =
    subst (Recordings d) (sym made)
      λ id. Kept-append Recording Recording-refl (note_is id) d.notes (first_row m n)
Applied-Recordings now m d e
      (Applied.note is (NoteStep.written c adm n found fresh v decoded valid made)) =
    subst (Recordings d) (sym made) (
      indexed_Recordings d (written_rows now c m v d) (is_note_content c) m.id λ id.
        Kept-update Recording Recording-refl (note_is id) (note_is m.id)
          (write_column now c m (d.counter + 1) v) d.notes
          (λ r. ap (λ i. str_eq i id) (id-write_column now c m (d.counter + 1) v r))
          (λ r found hit. write_column-Recording now c m (d.counter + 1) v r))
Applied-Recordings now m d e (Applied.item n is (ItemStep.discarded c adm i found old same)) =
    subst (Recordings d) (sym same) (Recordings-refl d)
Applied-Recordings now m d e (Applied.item n is (ItemStep.created c adm absent i decoded made)) =
    subst (Recordings d) (sym made) (Recordings-refl d)
Applied-Recordings now m d e
      (Applied.item n is (ItemStep.written c adm i found fresh v decoded made)) =
    subst (Recordings d) (sym made) (
      indexed_Recordings d (written_items c m v d) (is_item_content c) (reindexed_note m i)
        (Recordings-refl d))
Applied-Recordings now m d e (Applied.label n i is (LabelStep.discarded b adm l found old same)) =
    subst (Recordings d) (sym same) (Recordings-refl d)
Applied-Recordings now m d e (Applied.label n i is (LabelStep.created b adm absent made)) =
    subst (Recordings d) (sym made) (Recordings-refl d)
Applied-Recordings now m d e (Applied.label n i is (LabelStep.written b adm l found fresh made)) =
    subst (Recordings d) (sym made) (Recordings-refl d)

-- Whatever requests the sync endpoint serves, a note that is there stays there, and its recording, the MIME
-- type, the duration and the time of its creation stay as they were.
pub serve-Recording :
    (qs : List Request) (d : Db) (id : String) (n : NoteRow)
    → find_note id d ≡ some n
    → (n' : NoteRow) × (find_note id (serve qs d) ≡ some n') × Recording n n'
serve-Recording qs d id n found = Kept-some Recording n (find_note id (serve qs d)) (
    subst (λ o. Kept Recording o (find_note id (serve qs d))) found
      (serve-Keeps Recordings Recordings-refl Recordings-trans Applied-Recordings qs d id))

-- ===== src/Audio/Tests.antt =====
-- An upload and a sync behind it, and witnesses.
use retainer.Prelude.{◌≡◌, refl, some, [], ◌∷◌}
use retainer.Prelude.Text.{codes}
use retainer.Prelude.Int.{pos}
use retainer.Schema.{Db, NoteRow, Note, init}
use retainer.Schema.Table.{find, exists}
use retainer.Store.{ok}
use retainer.Store.Rows.{find_note, note_exists}
use retainer.Sync.Wire.{Mutation, string}
use retainer.Sync.Requests.{Request, serve}
use retainer.Audio.{Upload, audio_row, create_audio}
use retainer.Audio.Recording.{Referenced, Stored, uploaded, create_audio-Stored}
use retainer.Audio.Immutable.{Recording, serve-Recording}

abbrev voice : Upload
voice = record {
  id = "v1";
  title = codes "Voice";
  position = codes "V";
  mime_type = codes "audio/webm";
  duration_ms = pos 5000;
  blob = 26 ∷ 69 ∷ 223 ∷ [];
}

init-Referenced : Referenced init
unfolding exists
init-Referenced = record { items = λ id h. refl; note_labels = λ id h. refl }

create_audio-Stored_example :
    (n : Note) × (e : Db) × (create_audio voice (pos 7) init ≡ (ok n, e)) × Stored voice init n e
unfolding note_exists exists
create_audio-Stored_example = create_audio-Stored voice (pos 7) init init-Referenced refl

abbrev with_voice : Db
with_voice = uploaded voice (pos 7) init

-- Another device trims the title, and makes the note a text note.
abbrev title_edit : Mutation
title_edit = record {
  entity = "note";
  id = "v1";
  note_id = "";
  label_id = "";
  field = "title";
  value = string (codes "V");
  hlc = codes "1-b";
}

abbrev edits : Request
edits = record {
  clock = λ i. pos 9;
  since = 1;
  mutations = title_edit ∷ record title_edit { field = "kind"; value = string (codes "text") } ∷ [];
}

voice_found : find_note "v1" with_voice ≡ some (audio_row voice (pos 7) 1)
unfolding find audio_row
voice_found = refl

serve-Recording_example :
    (n : NoteRow) × (find_note "v1" (serve (edits ∷ []) with_voice) ≡ some n)
    × Recording (audio_row voice (pos 7) 1) n
serve-Recording_example =
    serve-Recording (edits ∷ []) with_voice "v1" (audio_row voice (pos 7) 1) voice_found

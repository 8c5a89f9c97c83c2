-- ===== src/Http/Upload.antt =====
-- The handlers of server/internal/httpapi/audio.go.
use retainer.Prelude.{ℕ, String, ◌||◌, Option, none, some, List, [], ◌∷◌, str_eq, if◌then◌else◌}
use retainer.Prelude.Text.{Text, codes, text_eq}
use retainer.Prelude.Int.{ℤ, pos, leb_ℤ, ltb_ℤ, parse_int}
use retainer.Schema.{Db, Note}
use retainer.Store.{Result, ok, err}
use retainer.Audio.{Upload, max_duration_ms, create_audio, audio}
use retainer.Auth.RateLimit.{Bucket}
use retainer.Auth.Login.{unix_milli}
use retainer.Http.{Form, HttpReply, Body, App, Handler, write_json, write_error}
use retainer.Http.Notes.{notify_counter}

-- The content type of the file, or the default
unfoldable pub mime_of : Text → Text
mime_of [] = codes "audio/webm"
mime_of (c ∷ t) = c ∷ t

-- A form that was accepted, or the message of the error 400
pub data Checked : Type 0 where
  accepted : Upload → Checked
  rejected : String → Checked

-- `r.FormFile` and `io.ReadAll`
unfoldable pub check_file : Form → ℤ → Option (Text × Option (List ℕ)) → Checked
unfolding mime_of
check_file f ms none = Checked.rejected "missing audio file"
check_file f ms (some (mime, none)) = Checked.rejected "failed to read audio data"
check_file f ms (some (mime, some bytes)) = Checked.accepted (record {
  id = f.id;
  title = f.title;
  position = f.position;
  mime_type = mime_of mime;
  duration_ms = ms;
  blob = bytes;
})

unfoldable pub check_duration : Form → Option ℤ → Checked
unfolding check_file
check_duration f none = Checked.rejected "invalid durationMs"
check_duration f (some ms) =
    if leb_ℤ ms (pos 0)
    then Checked.rejected "invalid durationMs"
    else if ltb_ℤ (pos max_duration_ms) ms
    then Checked.rejected "recording exceeds the 5 minute limit"
    else check_file f ms f.audio

-- The checks of `handleCreateAudioNote`, in their order
unfoldable pub check_form : Option Form → Checked
unfolding check_duration
check_form none = Checked.rejected "invalid or oversized form data"
check_form (some f) =
    if str_eq f.id "" || text_eq f.position []
    then Checked.rejected "missing id or position"
    else check_duration f (parse_int f.duration_ms)

unfoldable pub audio_reply : Option (List ℕ × Text) → HttpReply
audio_reply none = write_error 404 (Body.message "not found")
audio_reply (some (bytes, mime)) = write_json 200 (Body.recording mime bytes)

module _ {b : Bucket} where
  unfoldable pub created_reply : Result Note × Db → App b → HttpReply × App b
  created_reply (ok n, db') s =
      (write_json 201 (Body.a_note n), notify_counter (record s { db = db' }))
  created_reply (err e, db') s = (write_error 500 (Body.failure e), record s { db = db' })

  unfoldable pub upload : ℤ → Checked → App b → HttpReply × App b
  unfolding created_reply
  upload now (Checked.rejected m) s = (write_error 400 (Body.message m), s)
  upload now (Checked.accepted u) s = created_reply (create_audio u now s.db) s

  -- `handleCreateAudioNote`
  unfoldable pub handle_create_audio_note : Handler b
  unfolding upload check_form
  handle_create_audio_note r s = upload (pos (unix_milli r.now)) (check_form r.form) s

  -- `handleGetAudio`
  unfoldable pub handle_get_audio : String → Handler b
  unfolding audio_reply
  handle_get_audio id r s = (audio_reply (audio id s.db), s)

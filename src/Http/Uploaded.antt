-- ===== src/Http/Uploaded.antt =====
-- Which uploads are accepted, and what an accepted one leaves.
use retainer.Prelude.{
  ℕ, ◌≡◌, ◌≤◌, ◌<◌, refl, sym, ap, subst, Bool, false, ◌||◌, Option, none, some, List, [], arith,
  str_eq, inl, inr, ◌⊎◌, Bool-cases,
}
use retainer.Prelude.Text.{Text, text_eq}
use retainer.Prelude.Int.{ℤ, pos, negsuc, leb_ℤ, ltb_ℤ, parse_int}
use retainer.Store.Rows.{note_exists}
use retainer.Audio.{Upload, max_duration_ms}
use retainer.Audio.Recording.{uploaded, create_audio-free, create_audio_taken, audio-uploaded}
use retainer.Hub.{enqueue}
use retainer.Auth.RateLimit.{Bucket}
use retainer.Auth.Login.{unix_milli}
use retainer.Http.{Form, HttpRequest, HttpReply, Body, App, write_json}
use retainer.Http.Notes.{notify_counter}
use retainer.Http.Upload.{
  mime_of, Checked, check_file, check_duration, check_form, created_reply, upload,
  handle_create_audio_note, audio_reply, handle_get_audio,
}

-- What a form that passes the checks holds, and the upload that is made of it
pub record Sent (form : Option Form) (u : Upload) : Type 0 where
  pub fields : Form
  pub given : form ≡ some fields
  pub has_id : str_eq fields.id "" ≡ false
  pub has_position : text_eq fields.position [] ≡ false
  pub duration : ℕ
  pub read : parse_int fields.duration_ms ≡ some (pos duration)
  pub in_range : (0 < duration) × (duration ≤ max_duration_ms)
  pub mime : Text
  pub bytes : List ℕ
  pub file : fields.audio ≡ some (mime, some bytes)
  pub made : u ≡ record {
    id = fields.id;
    title = fields.title;
    position = fields.position;
    mime_type = mime_of mime;
    duration_ms = pos duration;
    blob = bytes;
  }

accepted_injective : {u v : Upload} → Checked.accepted u ≡ Checked.accepted v → u ≡ v
accepted_injective h = ground arith

both_false : (a b : Bool) → (a || b) ≡ false → (a ≡ false) × (b ≡ false)
both_false a b h = ground arith

module _ (f : Form) (u : Upload) (has_id : str_eq f.id "" ≡ false)
    (has_position : text_eq f.position [] ≡ false) where
  check_file-Sent :
      (n : ℕ) (o : Option (Text × Option (List ℕ)))
      → parse_int f.duration_ms ≡ some (pos n)
      → 0 < n
      → n ≤ max_duration_ms
      → f.audio ≡ o
      → check_file f (pos n) o ≡ Checked.accepted u
      → Sent (some f) u
  unfolding check_file
  check_file-Sent n none read low high file h = cc
  check_file-Sent n (some (mime, none)) read low high file h = cc
  check_file-Sent n (some (mime, some bytes)) read low high file h = record {
    fields = f;
    given = refl;
    has_id = has_id;
    has_position = has_position;
    duration = n;
    read = read;
    in_range = (low, high);
    mime = mime;
    bytes = bytes;
    file = file;
    made = sym (accepted_injective h);
  }

  check_duration-Sent :
      (o : Option ℤ)
      → parse_int f.duration_ms ≡ o
      → check_duration f o ≡ Checked.accepted u
      → Sent (some f) u
  unfolding check_duration
  check_duration-Sent none read h = cc
  check_duration-Sent (some (negsuc n)) read h = cc
  check_duration-Sent (some (pos n)) read h = elim (Bool-cases (leb_ℤ (pos n) (pos 0))) [
    | inl low ↦ cc (rw low at h)
    | inr low ↦ elim (Bool-cases (ltb_ℤ (pos max_duration_ms) (pos n))) [
      | inl high ↦ cc (rw (low, high) at h)
      | inr high ↦
          check_file-Sent n f.audio read (ground arith) (ground arith) refl (rw (low, high) at h)
    ]
  ]

check_form-Sent : (o : Option Form) (u : Upload) → check_form o ≡ Checked.accepted u → Sent o u
unfolding check_form
check_form-Sent none u h = cc
check_form-Sent (some f) u h = elim (Bool-cases (str_eq f.id "" || text_eq f.position [])) [
  | inl missing ↦ cc (rw missing at h)
  | inr present ↦
      let (a, p) = both_false (str_eq f.id "") (text_eq f.position []) present in
      check_duration-Sent f u a p (parse_int f.duration_ms) refl (rw present at h)
]

-- The ways in which an upload is answered
pub data Uploading {b : Bucket} (r : HttpRequest) (s : App b) (a : HttpReply × App b) : Type 0 where
  rejected : (a.0.status ≡ 400) ⊎ (a.0.status ≡ 500) → a.1 ≡ s → Uploading r s a
  stored :
      (u : Upload)
      → Sent r.form u
      → note_exists u.id s.db ≡ false
      → a.0.status ≡ 201
      → a.1.hub ≡ enqueue a.1.db.counter s.hub
      → ((q : HttpRequest)
          → handle_get_audio u.id q a.1 ≡ (write_json 200 (Body.recording u.mime_type u.blob), a.1))
      → Uploading r s a

module _ {b : Bucket} (r : HttpRequest) (s : App b) where
  answered :
      (c : Checked) → check_form r.form ≡ c → Uploading r s (upload (pos (unix_milli r.now)) c s)
  unfolding upload created_reply notify_counter handle_get_audio audio_reply
  answered (Checked.rejected m) h = Uploading.rejected (inl refl) refl
  answered (Checked.accepted u) h =
      let now = pos (unix_milli r.now) in
      elim (Bool-cases (note_exists u.id s.db)) [
        | inl taken ↦
            subst (λ o. Uploading r s (created_reply o s))
              (sym (create_audio_taken u now s.db taken)) (Uploading.rejected (inr refl) refl)
        | inr free ↦
            subst (λ o. Uploading r s (created_reply o s)) (sym (create_audio-free u now s.db free))
              (Uploading.stored u (check_form-Sent r.form u h) free refl refl (λ q.
                ap (λ o. (audio_reply o, notify_counter (record s { db = uploaded u now s.db })))
                  (audio-uploaded u now s.db free)))
      ]

  -- An upload is answered 400 or 500, and then nothing is changed; or it is answered 201. Then its form has an id that no note had,
  -- a position, a duration of 1 to 302000 ms, and a file; the recording's URL then answers with the bytes and the
  -- content type of the file ("audio/webm" if it has none); and the hub is told the new sequence number.
  pub handle_create_audio_note-Uploading : Uploading r s (handle_create_audio_note r s)
  unfolding handle_create_audio_note
  handle_create_audio_note-Uploading = answered (check_form r.form) refl

-- ===== src/Http/Tests.antt =====
-- Requests to the sample server, and witnesses.
use retainer.Prelude.{◌≡◌, ◌+◌, refl, true, false, some, [], ◌∷◌, arith, if◌then◌else◌}
use retainer.Prelude.Text.{codes, text_eq, compare_text}
use retainer.Schema.{Db, init}
use retainer.Schema.Table.{find, exists}
use retainer.Store.{ok}
use retainer.Sync.{apply}
use retainer.Hub.{fan_out}
use retainer.Hub
use retainer.Hub.Safe.{SoundHub}
use retainer.Sync.Wire.{Mutation, string}
use retainer.Sync.Samples.{at_ten, stamp, note_edit, answer_of, run}
use retainer.Hub.Delivery.{Delivered, sent}
use retainer.Auth.Samples.{drops, flat, shifted, digest, configured}
use retainer.Auth.RateLimit.{allow, state, lookup, new_state, store, record_success, remove}
use retainer.Auth.Session.{session_ttl, create_session}
use retainer.Auth.Password.{split, verify_parts, verify_password, scan_uint32, to_uint8}
use retainer.Hlc.{
  skip_space, scan_number, scan_digits, is_digit, is_space, scan_int, scan_sign, to_int64,
}
use retainer.Auth.Session.Lifetime.{Expires}
use retainer.Auth.Login.{
  unix_milli, answer, open_session, settle, check, attempt, admit, handle_login, password_hash,
}
use retainer.Http.{HttpRequest, App, Cookie}
use retainer.Http.Session.{
  not_logged_in, handle_login_request, require_auth, after_login, write_login,
}
use retainer.Http.Notes.{handle_sync, handle_list_notes}
use retainer.Http.Upload.{handle_create_audio_note}
use retainer.Http.Router.{match, match_method, match_segments, router, session_routes}
use retainer.Http.Guarded.{Refused, open_to, any_matches, router-Refused}
use retainer.Http.Visit.{login-require_auth}
use retainer.Http.Uploaded.{Uploading, handle_create_audio_note-Uploading}
use retainer.Http.Notified.{Synced, handle_sync-Synced, handle_sync-Delivered}
use retainer.Http.Samples.{at_five, plain, listening, server, sync_request, match_all, not_found}

closed : open_to plain ≡ false
unfolding match match_method match_segments exists
closed = refl

without_cookie : Refused digest plain server
unfolding Refused
without_cookie token carries row found = cc

router-Refused_example : router flat shifted digest match_all not_found plain server ≡ (
  if any_matches digest (session_routes {b = drops} flat shifted digest match_all) plain
      then not_logged_in
      else not_found plain,
  server,
)
router-Refused_example =
    router-Refused drops flat shifted digest match_all not_found plain server closed without_cookie

handle_sync-Synced_example : Synced sync_request server (handle_sync sync_request server)
handle_sync-Synced_example = handle_sync-Synced sync_request server

abbrev upload_request : HttpRequest
upload_request = record plain {
  form = some (record {
    id = "v1";
    title = codes "Voice";
    position = codes "V";
    duration_ms = codes "5000";
    audio = some (codes "audio/ogg", some (1 ∷ 2 ∷ []));
  });
}

handle_create_audio_note-Uploading_example :
    Uploading upload_request server (handle_create_audio_note upload_request server)
handle_create_audio_note-Uploading_example =
    handle_create_audio_note-Uploading upload_request server

abbrev login_request : HttpRequest
login_request = record plain { password = some (codes "horse"); token = some "t" }

abbrev locked : App drops
locked = record server { db = configured }

cookie_set :
    (handle_login_request flat shifted digest login_request locked).0.cookie
    ≡ Cookie.set_session "t" 7776005000
unfolding handle_login_request after_login write_login handle_login admit attempt check settle
    open_session answer password_hash find exists create_session allow state lookup new_state store
    record_success remove verify_password verify_parts split scan_uint32 to_uint8 skip_space
    scan_number scan_digits is_digit is_space scan_int scan_sign to_int64 text_eq compare_text
cookie_set = refl

login-require_auth_example :
    (db : Db) × (require_auth digest handle_list_notes sync_request
        (handle_login_request flat shifted digest login_request locked).1
      ≡ handle_list_notes sync_request
          (record ((handle_login_request flat shifted digest login_request locked).1) { db = db }))
    × Expires digest "t" (unix_milli at_five + session_ttl) db
login-require_auth_example =
    login-require_auth flat shifted digest login_request locked "t" 7776005000 cookie_set
      handle_list_notes sync_request refl (omega arith)

abbrev first_edit : Mutation
first_edit = note_edit "n1" "title" (string (codes "Groceries")) (stamp "1-a")

abbrev batch_request : HttpRequest
batch_request = record plain { clock = at_ten; sync = some (0, first_edit ∷ []) }

abbrev empty_server : App drops
empty_server = record server { db = init }

edit_applied : apply at_ten 0 (first_edit ∷ []) init ≡ (
  ok (answer_of (apply at_ten 0 (first_edit ∷ []) init).0),
  (apply at_ten 0 (first_edit ∷ []) init).1,
)
unfolding run answer_of
edit_applied = refl

hub_sound : SoundHub listening
hub_sound = record {
  clients = (record { in_map = refl; bounded = omega arith }, tt);
  bounded = omega arith;
}

handle_sync-Delivered_example :
    Delivered 0
      (sent
        (record { registered = true; closed = false; send = 1 ∷ [] })
        (1 ∷ (answer_of (apply at_ten 0 (first_edit ∷ []) init).0).0 ∷ []))
      (Hub.run (fan_out ∷ fan_out ∷ []) (some (handle_sync batch_request empty_server).1.hub))
handle_sync-Delivered_example =
    handle_sync-Delivered batch_request empty_server 0 first_edit []
      (answer_of (apply at_ten 0 (first_edit ∷ []) init).0).0
      (answer_of (apply at_ten 0 (first_edit ∷ []) init).0).1
      (apply at_ten 0 (first_edit ∷ []) init).1 refl edit_applied hub_sound (omega arith) 0
      (record { registered = true; closed = false; send = 1 ∷ [] }) refl refl (omega arith)

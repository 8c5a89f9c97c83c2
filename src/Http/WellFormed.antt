-- ===== src/Http/WellFormed.antt =====
-- What is right of the server's state, and the handlers on notes.
use retainer.Prelude.{
  ℕ, ◌≡◌, sym, subst, ◌∙◌, String, Bool, true, false, Option, none, some, List, length, ltb,
}
use retainer.Prelude.Text.{Text}
use retainer.Prelude.Int.{pos}
use retainer.Schema.{Db, Note}
use retainer.Store.{Result, ok, err}
use retainer.Sync.{apply}
use retainer.Sync.Wire.{Mutation}
use retainer.Sync.Pull.{Changes}
use retainer.Purge.{purge_one}
use retainer.Audio.{create_audio}
use retainer.Labels.Names.{Unique}
use retainer.Hub.Safe.{SoundHub, register-Sound, enqueue-Sound}
use retainer.Auth.RateLimit.{Bucket}
use retainer.Auth.Login.{unix_milli}
use retainer.Http.{HttpRequest, App, Handler}
use retainer.Http.Notes.{
  notify_counter, notify_if, sync_reply, sync_decoded, handle_sync, purge_reply, handle_purge_note,
  connect, handle_ws,
}
use retainer.Http.Upload.{Checked, check_form, created_reply, upload, handle_create_audio_note}
use retainer.Http.Shares.{Shares, apply-Shares, purge_one-Shares, create_audio-Shares}

-- No two labels have one name, the hub is sound, and the settings, the password among them, are `config`.
pub record WellFormed (config : List (String × Text)) {b : Bucket} (s : App b) : Type 0 where
  pub names : Unique s.db.labels
  pub hub : SoundHub s.hub
  pub settings : s.db.config ≡ config

module _ (config : List (String × Text)) {b : Bucket} where
  -- Another database with the labels and the settings
  pub with_db :
      (s : App b) (db : Db)
      → WellFormed config s
      → Shares s.db db
      → WellFormed config (record s { db = db })
  with_db s db w h = record {
    names = subst Unique (sym h.labels) w.names;
    hub = w.hub;
    settings = h.config ∙ w.settings;
  }

  with_hub : (s : App b) → WellFormed config s → WellFormed config (notify_counter s)
  unfolding notify_counter
  with_hub s w = record {
    names = w.names;
    hub = enqueue-Sound s.db.counter s.hub w.hub;
    settings = w.settings;
  }

  abbrev pub Keeps : Handler b → Type 0
  Keeps h = (r : HttpRequest) (s : App b) → WellFormed config s → WellFormed config (h r s).1

  pub sync-Keeps : Keeps handle_sync
  unfolding handle_sync sync_decoded sync_reply notify_if
  sync-Keeps r s w = decoded r.sync
    where
      notified :
          (c : Bool) (seq : ℕ) (t : App b)
          → WellFormed config t
          → WellFormed config (notify_if c seq t)
      notified true seq t w = record {
        names = w.names;
        hub = enqueue-Sound seq t.hub w.hub;
        settings = w.settings;
      }
      notified false seq t w = w

      replied :
          (ms : List Mutation) (a : Result (ℕ × Changes) × Db)
          → Shares s.db a.1
          → WellFormed config (sync_reply ms a s).1
      replied ms (ok (seq, changes), db) h =
          notified (ltb 0 (length ms)) seq (record s { db = db }) (with_db s db w h)
      replied ms (err e, db) h = with_db s db w h

      decoded : (q : Option (ℕ × List Mutation)) → WellFormed config (sync_decoded r.clock q s).1
      decoded none = w
      decoded (some (since, ms)) =
          replied ms (apply r.clock since ms s.db) (apply-Shares r.clock since ms s.db)

  pub purge-Keeps : (id : String) → Keeps (handle_purge_note id)
  unfolding handle_purge_note purge_reply
  purge-Keeps id r s w = replied (purge_one id s.db) (purge_one-Shares id s.db)
    where
      replied :
          (a : Result (Unit {0}) × Db) → Shares s.db a.1 → WellFormed config (purge_reply a s).1
      replied (ok u, db) h = with_hub (record s { db = db }) (with_db s db w h)
      replied (err e, db) h = with_db s db w h

  pub upload-Keeps : Keeps handle_create_audio_note
  unfolding handle_create_audio_note upload created_reply
  upload-Keeps r s w = checked (check_form r.form)
    where
      replied : (a : Result Note × Db) → Shares s.db a.1 → WellFormed config (created_reply a s).1
      replied (ok n, db) h = with_hub (record s { db = db }) (with_db s db w h)
      replied (err e, db) h = with_db s db w h

      checked : (c : Checked) → WellFormed config (upload (pos (unix_milli r.now)) c s).1
      checked (Checked.rejected m) = w
      checked (Checked.accepted u) =
          replied (create_audio u (pos (unix_milli r.now)) s.db)
            (create_audio-Shares u (pos (unix_milli r.now)) s.db)

  pub ws-Keeps : Keeps handle_ws
  unfolding handle_ws connect
  ws-Keeps r s w = upgraded r.upgrades
    where
      upgraded : (c : Bool) → WellFormed config (connect c s).1
      upgraded true = record {
        names = w.names;
        hub = register-Sound s.hub w.hub;
        settings = w.settings;
      }
      upgraded false = w

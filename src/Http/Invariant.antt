-- ===== src/Http/Invariant.antt =====
-- What every request keeps, whoever sends it.
use retainer.Prelude.{
  ℕ, ◌≡◌, refl, sym, subst, ◌∙◌, String, Option, none, some, List, [], ◌∷◌, ◌++◌, All, Option-cases,
  inl, inr,
}
use retainer.Prelude.Text.{Text}
use retainer.Prelude.Int.{pos}
use retainer.Schema.{Db, LabelRow, FtsRow}
use retainer.Store.{Error, Result, ok, err}
use retainer.Labels.{create, rename, delete_label}
use retainer.Labels.Names.{Unique, create-Unique, rename-Unique, delete-Unique}
use retainer.Labels.Apart.{Config, create-Config, rename-Config, delete-Config}
use retainer.Auth.RateLimit.{Bucket}
use retainer.Auth.Session.{validate_session, delete_session}
use retainer.Auth.Password.{Argon2, Base64}
use retainer.Auth.Login.{unix_milli}
use retainer.Http.{HttpRequest, HttpReply, App, Handler}
use retainer.Http.Session.{
  handle_health, handle_auth_status, ignore_error, log_out, handle_logout, admit_valid,
  admit_cookie, require_auth, after_login, handle_login_request,
}
use retainer.Http.Notes.{
  handle_list_notes, handle_sync, handle_purge_note, handle_ws, handle_search_notes,
}
use retainer.Http.Labels.{
  handle_list_labels, label_reply, create_from, handle_create_label, rename_from,
  handle_rename_label, deleted_reply, handle_delete_label,
}
use retainer.Http.Upload.{handle_create_audio_note, handle_get_audio}
use retainer.Http.Router.{Route, match, dispatch, router, open_routes, session_routes}
use retainer.Http.Shares.{
  Leaves, of_ok, validate_session-Leaves, delete_session-Leaves, handle_login-Shares,
}
use retainer.Http.WellFormed.{
  WellFormed, with_db, Keeps, sync-Keeps, purge-Keeps, upload-Keeps, ws-Keeps,
}

module _ (config : List (String × Text)) {b : Bucket} where
  -- What the label handlers answer from
  label_reply-WellFormed :
      (status : ℕ) (failed : Error → HttpReply) (s : App b) (a : Result (LabelRow × Db))
      → WellFormed config s
      → ((l : LabelRow) (e : Db) → a ≡ ok (l, e) → Unique e.labels)
      → Config s.db a
      → WellFormed config (label_reply status failed a s).1
  unfolding label_reply Config
  label_reply-WellFormed status failed s (ok (l, e)) w names h = record {
    names = names l e refl;
    hub = w.hub;
    settings = h ∙ w.settings;
  }
  label_reply-WellFormed status failed s (err e) w names h = w

  create-Keeps : Keeps config {b = b} handle_create_label
  unfolding handle_create_label create_from
  create-Keeps r s w = decoded r.name
    where
      decoded : (name : Option Text) → WellFormed config (create_from r name s).1
      decoded none = w
      decoded (some name) =
          label_reply-WellFormed 201 _ s (create r.uuid name (pos (unix_milli r.now)) s.db) w
            (λ l e h. create-Unique r.uuid name (pos (unix_milli r.now)) l s.db e w.names h)
            (create-Config r.uuid name (pos (unix_milli r.now)) s.db)

  rename-Keeps : (id : String) → Keeps config {b = b} (handle_rename_label id)
  unfolding handle_rename_label rename_from
  rename-Keeps id r s w = decoded r.name
    where
      decoded : (name : Option Text) → WellFormed config (rename_from id name s).1
      decoded none = w
      decoded (some name) =
          label_reply-WellFormed 200 _ s (rename id name s.db) w
            (λ l e h. rename-Unique id name l s.db e w.names h) (rename-Config id name s.db)

  delete-Keeps : (id : String) → Keeps config {b = b} (handle_delete_label id)
  unfolding handle_delete_label deleted_reply
  delete-Keeps id r s w =
      replied (delete_label id s.db) (delete-Unique id s.db w.names) (delete-Config id s.db)
    where
      replied :
          (a : Result (Unit {0}) × Db)
          → Unique a.1.labels
          → a.1.config ≡ s.db.config
          → WellFormed config (deleted_reply a s).1
      replied (ok u, e) names h = record { names = names; hub = w.hub; settings = h ∙ w.settings }
      replied (err x, e) names h = record { names = names; hub = w.hub; settings = h ∙ w.settings }

  module _ (hash_token : String → String) where
    logout-Keeps : Keeps config {b = b} (handle_logout hash_token)
    unfolding handle_logout log_out ignore_error
    logout-Keeps r s w = carried r.cookie
      where
        deleted :
            (a : Result (Unit {0} × Db))
            → Leaves s.db a
            → WellFormed config (record s { db = ignore_error a s.db })
        deleted (ok (u, e)) h = with_db config s e w (of_ok u h)
        deleted (err x) h = w

        carried : (c : Option String) → WellFormed config (log_out hash_token c s)
        carried none = w
        carried (some token) =
            deleted (delete_session hash_token token s.db)
              (delete_session-Leaves hash_token token s.db)

    guarded-Keeps :
        (next : Handler b) → Keeps config next → Keeps config (require_auth hash_token next)
    unfolding require_auth admit_cookie admit_valid
    guarded-Keeps next keeps r s w = carried r.cookie
      where
        valid :
            (a : Result (Unit {0} × Db))
            → Leaves s.db a
            → WellFormed config (admit_valid hash_token next r a s).1
        valid (ok (u, e)) h = keeps r (record s { db = e }) (with_db config s e w (of_ok u h))
        valid (err x) h = w

        carried : (c : Option String) → WellFormed config (admit_cookie hash_token next r c s).1
        carried none = w
        carried (some token) =
            valid (validate_session hash_token token (unix_milli r.now) s.db)
              (validate_session-Leaves hash_token token (unix_milli r.now) s.db)

    login-Keeps :
        (argon : Argon2) (base64 : Base64)
        → Keeps config {b = b} (handle_login_request argon base64 hash_token)
    unfolding handle_login_request after_login
    login-Keeps argon base64 r s w =
        let h =
          handle_login-Shares hash_token b argon base64 r.ip r.token r.now r.password s.limiter
            s.db in
        record {
          names = subst Unique (sym h.labels) w.names;
          hub = w.hub;
          settings = h.config ∙ w.settings;
        }

  dispatch-Keeps :
      (unrouted : HttpRequest → HttpReply) (routes : List (Route b))
      → All (λ route. (id : String) → Keeps config (route.handler id)) routes
      → Keeps config (dispatch unrouted routes)
  unfolding dispatch
  dispatch-Keeps unrouted [] k r s w = w
  dispatch-Keeps unrouted (route ∷ routes) (k, ks) r s w =
      elim (Option-cases (match route.pattern r)) [
        | inl misses ↦ rw (misses, dispatch) (dispatch-Keeps unrouted routes ks r s w)
        | inr (id, hits) ↦ rw (hits, dispatch) (k id r s w)
      ]

module _ (config : List (String × Text)) (b : Bucket) (argon : Argon2) (base64 : Base64)
    (hash_token : String → String) (fts_match : Text → List FtsRow → List FtsRow) where
  guarded_id :
      (next : String → Handler b)
      → ((id : String) → Keeps config (next id))
      → (id : String) → Keeps config (require_auth hash_token (next id))
  guarded_id next keeps id = guarded-Keeps config hash_token (next id) (keeps id)

  routes-Keep :
      All
        (λ route. (id : String) → Keeps config (route.handler id))
        (open_routes {b = b} argon base64 hash_token fts_match
          ++ session_routes argon base64 hash_token fts_match)
  unfolding handle_health handle_auth_status handle_list_notes handle_search_notes handle_get_audio
      handle_list_labels
  routes-Keep = (
    (λ id r s w. w),
    (
      (λ id. login-Keeps config hash_token argon base64),
      (
        (λ id. logout-Keeps config hash_token),
        (
          guarded_id (λ id. handle_auth_status) (λ id r s w. w),
          (
            guarded_id (λ id. handle_list_notes) (λ id r s w. w),
            (
              guarded_id (λ id. handle_search_notes fts_match) (λ id r s w. w),
              (
                guarded_id (λ id. handle_sync) (λ id. sync-Keeps config),
                (
                  guarded_id handle_purge_note (purge-Keeps config),
                  (
                    guarded_id (λ id. handle_create_audio_note) (λ id. upload-Keeps config),
                    (
                      guarded_id handle_get_audio (λ id r s w. w),
                      (
                        guarded_id (λ id. handle_ws) (λ id. ws-Keeps config),
                        (
                          guarded_id (λ id. handle_list_labels) (λ id r s w. w),
                          (
                            guarded_id (λ id. handle_create_label) (λ id. create-Keeps config),
                            (
                              guarded_id handle_rename_label (rename-Keeps config),
                              (guarded_id handle_delete_label (delete-Keeps config), tt),
                            ),
                          ),
                        ),
                      ),
                    ),
                  ),
                ),
              ),
            ),
          ),
        ),
      ),
    ),
  )

  -- A request, whatever it asks for and whatever it is answered, leaves no two labels with one name and the hub sound, if that is
  -- how it found them, and it leaves the settings, the password among them, as they were.
  pub router-WellFormed :
      (unrouted : HttpRequest → HttpReply) (r : HttpRequest) (s : App b)
      → WellFormed config s
      → WellFormed config (router argon base64 hash_token fts_match unrouted r s).1
  unfolding router
  router-WellFormed unrouted r s w =
      dispatch-Keeps config unrouted
        (open_routes argon base64 hash_token fts_match
          ++ session_routes argon base64 hash_token fts_match)
        routes-Keep r s w

-- ===== src/Http/Session.antt =====
-- The handlers of server/internal/httpapi/auth.go, requireAuth, and health.go.
use retainer.Prelude.{String, Option, none, some, if◌then◌else◌}
use retainer.Schema.{Db}
use retainer.Store.{Result, ok, err}
use retainer.Auth.RateLimit.{Bucket}
use retainer.Auth.Session.{validate_session, delete_session}
use retainer.Auth.Password.{Argon2, Base64}
use retainer.Auth.Login.{
  Response, logged_in, too_many_requests, bad_request, unconfigured, internal_error, unauthorized,
  Server, unix_milli, handle_login,
}
use retainer.Http.{HttpRequest, HttpReply, Body, Cookie, App, Handler, write_json, write_error}

-- What `handleLogin` writes
unfoldable pub write_login : Response → HttpReply
write_login (logged_in token expires) = record {
  status = 200;
  body = Body.ok_true;
  cookie = Cookie.set_session token expires;
}
write_login (too_many_requests seconds) = write_error 429 (Body.retry seconds)
write_login bad_request = write_error 400 (Body.message "invalid JSON body")
write_login unconfigured = write_error 503 (Body.message "server has no password configured")
write_login internal_error = write_error 500 (Body.message "internal error")
write_login unauthorized = write_error 401 (Body.message "invalid password")

abbrev pub not_logged_in : HttpReply
not_logged_in = write_error 401 (Body.message "not logged in")

-- The database behind a statement whose error is not looked at
unfoldable pub ignore_error : Result (Unit {0} × Db) → Db → Db
ignore_error (ok (u, db')) db = db'
ignore_error (err e) db = db

abbrev pub logged_out : HttpReply
logged_out = record { status = 200; body = Body.ok_true; cookie = Cookie.cleared }

module _ {b : Bucket} where
  unfoldable pub after_login : App b → Response × Server b → HttpReply × App b
  unfolding write_login
  after_login s (answer, (l, db)) = (write_login answer, record s { limiter = l; db = db })

  -- `handleHealth`
  unfoldable pub handle_health : Handler b
  handle_health r s = (
    if r.pings
        then write_json 200 Body.status_ok
        else write_error 503 (Body.message "database unavailable"),
    s,
  )

  -- `handleAuthStatus`
  unfoldable pub handle_auth_status : Handler b
  handle_auth_status r s = (write_json 200 Body.logged_in_true, s)

module _ {b : Bucket} (hash_token : String → String) where
  -- `handleLogout`
  unfoldable pub log_out : Option String → App b → App b
  unfolding ignore_error
  log_out none s = s
  log_out (some token) s = record s {
    db = ignore_error (delete_session hash_token token s.db) s.db;
  }

  unfoldable pub handle_logout : Handler b
  unfolding log_out
  handle_logout r s = (logged_out, log_out r.cookie s)

  -- Behind `ValidateSession`
  unfoldable pub admit_valid :
      Handler b → HttpRequest → Result (Unit {0} × Db) → App b → HttpReply × App b
  admit_valid next r (ok (u, db')) s = next r (record s { db = db' })
  admit_valid next r (err e) s = (not_logged_in, s)

  unfoldable pub admit_cookie : Handler b → HttpRequest → Option String → App b → HttpReply × App b
  unfolding admit_valid
  admit_cookie next r none s = (not_logged_in, s)
  admit_cookie next r (some token) s =
      admit_valid next r (validate_session hash_token token (unix_milli r.now) s.db) s

  -- `requireAuth`
  unfoldable pub require_auth : Handler b → Handler b
  unfolding admit_cookie
  require_auth next r s = admit_cookie next r r.cookie s

module _ {b : Bucket} (argon : Argon2) (base64 : Base64) (hash_token : String → String) where
  -- `handleLogin`
  unfoldable pub handle_login_request : Handler b
  unfolding after_login
  handle_login_request r s =
      after_login s
        (handle_login b argon base64 hash_token r.ip r.token r.now r.password (s.limiter, s.db))

-- ===== src/Auth/Login.antt =====
-- The login handler: `handleLogin` of server/internal/httpapi/auth.go, and `PasswordHash`.
pub mod Accepted
mod Tests
use retainer.Prelude.{
  ℕ, ◌+◌, ◌-◌, ◌*◌, ◌/◌, String, Bool, true, false, Option, none, some, List, [], ◌∷◌, str_eq, ltb,
  if◌then◌else◌,
}
use retainer.Prelude.Text.{Text, codes}
use retainer.Schema.{Db}
use retainer.Schema.Table.{find}
use retainer.Store.{Result, ok, err}
use retainer.Auth.RateLimit.{Bucket, LoginLimiter, second, allow, record_failure, record_success}
use retainer.Auth.Session.{create_session}
use retainer.Auth.Password.{Argon2, Base64, verify_password}

-- The answers, by their status: 200 with the session's token and its end, 429 with the seconds to
-- wait, 400, 503, 500 and 401.
pub data Response : Type 0 where
  logged_in : String → ℕ → Response
  too_many_requests : ℕ → Response
  bad_request unconfigured internal_error unauthorized : Response

-- `PasswordHash`: the stored hash, or "" if there is none
unfoldable pub password_hash : Db → Text
password_hash db = elim (find (λ (c : String × Text). str_eq c.0 "password_hash") db.config) [
  | none ↦ codes ""
  | some c ↦ c.1
]

-- 1970 on the scale of the limiter's times
abbrev pub epoch : ℕ
epoch = 62135596800 * second

-- `now.UnixMilli()`
abbrev pub unix_milli : ℕ → ℕ
unix_milli now = (now - epoch) / 1000000

-- `int(wait.Seconds())`, at least 1
unfoldable pub retry_after : ℕ → ℕ
retry_after wait = if ltb (wait / second) 1 then 1 else wait / second

-- The state that a request meets: the limiter and the database
abbrev pub Server : Bucket → Type 0
Server b = LoginLimiter b × Db

module _ (b : Bucket) (argon : Argon2) (base64 : Base64) (hash_token : String → String) where
  -- The answer to what CreateSession gave
  unfoldable pub answer : Result ((String × ℕ) × Db) → Server b → Response × Server b
  answer (ok ((t, expires), db')) (l, db) = (logged_in t expires, (l, db'))
  answer (err e) s = (internal_error, s)

  -- What is done for a password that was verified, where `token` is the encoded random bytes
  unfoldable pub open_session : Option String → ℕ → Server b → Response × Server b
  open_session token now (l, db) =
      answer (create_session hash_token token (unix_milli now) db) (l, db)

  -- Behind `VerifyPassword`
  unfoldable pub settle : String → Option String → ℕ → Option Bool → Server b → Response × Server b
  unfolding open_session
  settle ip token now none s = (internal_error, s)
  settle ip token now (some false) (l, db) = (unauthorized, (record_failure b ip now l, db))
  settle ip token now (some true) (l, db) = open_session token now (record_success b ip l, db)

  unfoldable pub check : String → Option String → ℕ → Text → Text → Server b → Response × Server b
  unfolding settle
  check ip token now password [] s = (unconfigured, s)
  check ip token now password (c ∷ hash) s =
      settle ip token now (verify_password argon base64 password (c ∷ hash)) s

  -- Behind `Allow`, with the password of the body, or none where it does not decode
  unfoldable pub attempt : String → Option String → ℕ → Option Text → Server b → Response × Server b
  unfolding check
  attempt ip token now none s = (bad_request, s)
  attempt ip token now (some password) (l, db) =
      check ip token now password (password_hash db) (l, db)

  unfoldable pub admit :
      String
      → Option String
      → ℕ
      → Option Text
      → Db
      → Bool × ℕ × LoginLimiter b
      → Response × Server b
  unfolding attempt retry_after
  admit ip token now body db (true, wait, l) = attempt ip token now body (l, db)
  admit ip token now body db (false, wait, l) = (too_many_requests (retry_after wait), (l, db))

  -- `handleLogin`
  unfoldable pub handle_login :
      String → Option String → ℕ → Option Text → Server b → Response × Server b
  unfolding admit
  handle_login ip token now body (l, db) = admit ip token now body db (allow b ip now l)

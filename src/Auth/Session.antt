-- ===== src/Auth/Session.antt =====
-- Sessions: server/internal/authsvc/session.go. Times are in milliseconds since 1970. The digest of
-- a token (SHA-256 in hexadecimal digits) is a parameter, as is what the random source gives.
pub mod Lifetime
mod Tests
use retainer.Prelude.{
  ℕ, ◌+◌, ◌*◌, ◌≡◌, String, Bool, Option, none, some, List, [], ◌∷◌, ◌++◌, ltb, str_eq,
  if◌then◌else◌,
}
use retainer.Schema.{Db, SessionRow}
use retainer.Schema.Table.{find, update, delete, exists}
use retainer.Store.{Error, Result, Tx, pure, fail, query, exec, ◌>>=◌, ◌>>◌}

abbrev pub session_ttl : ℕ
session_ttl = 90 * 24 * 60 * 60 * 1000

abbrev pub token_is : String → SessionRow → Bool
token_is hash s = str_eq s.token_hash hash

abbrev pub insert_session : SessionRow → Db → Db
insert_session s db = record db { sessions = db.sessions ++ s ∷ [] }

abbrev pub touch_session : ℕ → SessionRow → SessionRow
touch_session now s = record s { last_used_at = now; expires_at = now + session_ttl }

module _ (hash_token : String → String) where
  -- `CreateSession`, given the encoded random bytes, or none where `rand.Read` fails: the token and
  -- when it expires. `token_hash` is the table's key.
  unfoldable pub create_session : Option String → ℕ → Tx (String × ℕ)
  create_session none now db = fail Error.no_randomness db
  create_session (some token) now db =
      if exists (token_is (hash_token token)) db.sessions
      then fail Error.constraint db
      else pure (token, now + session_ttl)
          (insert_session
            (record {
              token_hash = hash_token token;
              created_at = now;
              expires_at = now + session_ttl;
              last_used_at = now;
            })
            db)

  -- `ValidateSession`, from the row that the query found on
  unfoldable pub validate_found : String → ℕ → Option SessionRow → Tx (Unit {0})
  validate_found hash now none = fail Error.session_invalid
  validate_found hash now (some s) =
      if ltb s.expires_at now
      then fail Error.session_invalid
      else exec
          (λ db. record db { sessions = update (token_is hash) (touch_session now) db.sessions })

  unfoldable pub validate_session : String → ℕ → Tx (Unit {0})
  validate_session token now db =
      validate_found (hash_token token) now (find (token_is (hash_token token)) db.sessions) db

  -- `DeleteSession`
  unfoldable pub delete_session : String → Tx (Unit {0})
  delete_session token =
      exec (λ db. record db { sessions = delete (token_is (hash_token token)) db.sessions })

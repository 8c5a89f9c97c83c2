-- ===== src/Auth/Setup.antt =====
-- The password's setting: `SetPassword` of server/internal/authsvc/password.go, and `runSetPassword`
-- with `readPassword` of server/cmd/retainer/main.go, where the input is not a terminal.
pub mod Stored
mod Tests
use retainer.Prelude.{
  ℕ, ◌≡◌, String, Bool, true, false, ◌||◌, Option, none, some, List, [], ◌∷◌, ◌++◌, str_eq, ◌==◌,
  if◌then◌else◌,
}
use retainer.Prelude.Text.{Text, text_eq}
use retainer.Schema.{Db}
use retainer.Schema.Table.{find, update, exists}
use retainer.Store.{Error, Result, ok, err, Tx, fail, exec}
use retainer.Labels.{trim_space}
use retainer.Auth.Password.{Argon2, Base64, hash_password}

abbrev pub key_is : String → String × Text → Bool
key_is key c = str_eq c.0 key

abbrev pub set_value : Text → String × Text → String × Text
set_value value c = (c.0, value)

-- INSERT INTO config … ON CONFLICT(key) DO UPDATE SET value = excluded.value
unfoldable pub upsert : String → Text → Db → Db
upsert key value db =
    if exists (key_is key) db.config
    then record db { config = update (key_is key) (set_value value) db.config }
    else record db { config = db.config ++ (key, value) ∷ [] }

-- What is stored of a hash that was made
unfoldable pub store_hash : Option Text → Tx (Unit {0})
unfolding upsert
store_hash none = fail Error.no_randomness
store_hash (some hash) = exec (upsert "password_hash" hash)

-- `strings.TrimRight(line, "\r\n")`
unfoldable pub cons_line : ℕ → Text → Text
cons_line c [] = if c == 10 || c == 13 then [] else c ∷ []
cons_line c (d ∷ s) = c ∷ d ∷ s

unfoldable pub trim_newline : Text → Text
unfolding cons_line
trim_newline [] = []
trim_newline (c ∷ s) = cons_line c (trim_newline s)

-- `stdin.ReadString('\n')`: the line with its end and what follows, or none where the input ends first
unfoldable pub extend : ℕ → Option (Text × Text) → Option (Text × Text)
extend c none = none
extend c (some (line, rest)) = some (c ∷ line, rest)

unfoldable pub read_line : Text → Option (Text × Text)
unfolding extend
read_line [] = none
read_line (c ∷ s) = let rest = read_line s in if c == 10 then some (c ∷ [], s) else extend c rest

-- `readPassword`
unfoldable pub trimmed : Option (Text × Text) → Option (Text × Text)
unfolding trim_newline
trimmed none = none
trimmed (some (line, rest)) = some (trim_newline line, rest)

unfoldable pub read_password : Text → Option (Text × Text)
unfolding trimmed read_line
read_password stdin = trimmed (read_line stdin)

-- How the command ends: with a message and status 1, or with "password set"
pub data Exit : Type 0 where
  unread mismatch empty_password unset : Exit
  password_set : Exit

unfoldable pub exit_with : Result (Unit {0} × Db) → Db → Exit × Db
exit_with (ok (u, db')) db = (Exit.password_set, db')
exit_with (err e) db = (Exit.unset, db)

module _ (argon : Argon2) (base64 : Base64) where
  -- `SetPassword`, given the salt, or none where `rand.Read` fails
  unfoldable pub set_password : Text → Option Text → Tx (Unit {0})
  unfolding store_hash
  set_password password salt = store_hash (hash_password argon base64 password salt)

  -- The checks of `runSetPassword`
  unfoldable pub accept : Option Text → Text → Text → Db → Exit × Db
  unfolding set_password exit_with
  accept salt password confirm db =
      if text_eq password confirm
      then if text_eq (trim_space password) []
        then (Exit.empty_password, db)
        else exit_with (set_password password salt db) db
      else (Exit.mismatch, db)

  unfoldable pub confirm_password : Option Text → Text → Option (Text × Text) → Db → Exit × Db
  unfolding accept
  confirm_password salt password none db = (Exit.unread, db)
  confirm_password salt password (some (confirm, rest)) db = accept salt password confirm db

  unfoldable pub choose_password : Option Text → Option (Text × Text) → Db → Exit × Db
  unfolding confirm_password
  choose_password salt none db = (Exit.unread, db)
  choose_password salt (some (password, rest)) db =
      confirm_password salt password (read_password rest) db

  -- `runSetPassword` on what comes from the standard input
  unfoldable pub run_set_password : Option Text → Text → Db → Exit × Db
  unfolding choose_password read_password
  run_set_password salt stdin db = choose_password salt (read_password stdin) db

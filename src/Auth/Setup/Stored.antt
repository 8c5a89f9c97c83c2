-- ===== src/Auth/Setup/Stored.antt =====
-- What the command leaves, however it ends.
use text.Mathlib.TextPositions.{eq_refl}
use retainer.Prelude.{
  ◌≡◌, refl, sym, ap, ◌∙◌, String, Bool, false, Option, none, some, [], inl, inr, str_eq, eq_iff,
  Bool-cases, if◌then◌else◌,
}
use retainer.Prelude.Text.{Text, text_eq, text_eq_iff}
use retainer.Schema.{Db}
use retainer.Schema.Table.{
  find, exists, find-append, find-update, find-test, exists-find, find-exists,
}
use retainer.Schema.Members.{some_injective}
use retainer.Labels.{trim_space}
use retainer.Auth.Password.{Argon2, Base64, hash_password, verify_password}
use retainer.Auth.Password.Verify.{key, verify-hash}
use retainer.Auth.Login.{password_hash}
use retainer.Auth.Setup.{
  key_is, set_value, upsert, store_hash, read_password, Exit, exit_with, set_password, accept,
  confirm_password, choose_password, run_set_password,
}

find-upsert :
    (k : String) (value : Text) (d : Db)
    → find (key_is k) (upsert k value d).config ≡ some (k, value)
unfolding upsert
find-upsert k value d = elim (Bool-cases (exists (key_is k) d.config)) [
  | inl there ↦
      let (r, found) = find-exists (key_is k) d.config there in
      rw there (
        find-update (key_is k) (key_is k) (set_value value) d.config (λ r. refl)
        ∙ rw (found, find-test (key_is k) d.config r found)
            (ap (λ i. some (i, value)) ((eq_iff r.0 k).0 (find-test (key_is k) d.config r found))))
  | inr free ↦ rw free (
      find-append (key_is k) d.config (k, value)
      ∙ rw (exists-find (key_is k) d.config free, eq_refl k) refl)
]

find-upsert_other :
    (k j : String) (value : Text) (d : Db)
    → str_eq k j ≡ false
    → find (key_is j) (upsert k value d).config ≡ find (key_is j) d.config
unfolding upsert
find-upsert_other k j value d other = elim (Bool-cases (exists (key_is k) d.config)) [
  | inl there ↦ rw there (
      find-update (key_is j) (key_is k) (set_value value) d.config (λ r. refl)
      ∙ kept_by (find (key_is j) d.config) refl)
  | inr free ↦ rw free (find-append (key_is j) d.config (k, value) ∙ appended (str_eq k j) other _)
]
  where
    appended :
        (b : Bool)
        → b ≡ false
        → (o : Option (String × Text))
        → elim o [ none ↦ if b then some (k, value) else none | some s ↦ some s ] ≡ o
    appended b h none = rw h refl
    appended b h (some s) = refl

    kept_by :
        (o : Option (String × Text))
        → find (key_is j) d.config ≡ o
        → elim o [ none ↦ none | some r ↦ some (if key_is k r then set_value value r else r) ] ≡ o
    kept_by none e = refl
    kept_by (some r) e =
        let named = (eq_iff r.0 j).0 (find-test (key_is j) d.config r e) in
        elim (Bool-cases (key_is k r)) [
          | inl hit ↦ cc ((eq_iff k j).1 (sym ((eq_iff r.0 k).0 hit) ∙ named), other)
          | inr miss ↦ rw miss refl
        ]

-- What a command that ends with "password set" has read and stored
pub record PasswordSet (argon : Argon2) (base64 : Base64) (salt : Option Text) (stdin : Text)
    (d e : Db) : Type 0 where
  pub password : Text
  pub rest : Text
  pub further : Text
  pub read : read_password stdin ≡ some (password, rest)
  pub confirmed : read_password rest ≡ some (password, further)
  pub not_blank : text_eq (trim_space password) [] ≡ false
  pub salt_bytes : Text
  pub salted : salt ≡ some salt_bytes
  pub accepts :
      (other : Text)
      → verify_password argon base64 other (password_hash e)
        ≡ some (text_eq (key argon other salt_bytes) (key argon password salt_bytes))
  pub sessions : e.sessions ≡ d.sessions
  pub others :
      (k : String)
      → str_eq "password_hash" k ≡ false
      → find (key_is k) e.config ≡ find (key_is k) d.config

hash-upsert : (hash : Text) (d : Db) → password_hash (upsert "password_hash" hash d) ≡ hash
unfolding password_hash
hash-upsert hash d = rw (find-upsert "password_hash" hash d, password_hash) refl

sessions-upsert : (k : String) (value : Text) (d : Db) → (upsert k value d).sessions ≡ d.sessions
unfolding upsert
sessions-upsert k value d = elim (Bool-cases (exists (key_is k) d.config)) [
  | inl there ↦ rw there refl
  | inr free ↦ rw free refl
]

module _ (argon : Argon2) (base64 : Base64) (salt : Option Text) (stdin : Text) (d : Db) where
  -- The command has ended, with "password set" or with the database as it was.
  pub Ended : Exit × Db → Type 0
  Ended (Exit.password_set, e) = PasswordSet argon base64 salt stdin d e
  Ended (Exit.unread, e) = e ≡ d
  Ended (Exit.mismatch, e) = e ≡ d
  Ended (Exit.empty_password, e) = e ≡ d
  Ended (Exit.unset, e) = (e ≡ d) × (salt ≡ none)

  module _ (password rest : Text) (read : read_password stdin ≡ some (password, rest)) where
    module _ (further : Text) (confirmed : read_password rest ≡ some (password, further))
        (not_blank : text_eq (trim_space password) [] ≡ false) where
      -- From the hash that was made on
      hash_stored :
          (s hash : Text)
          → salt ≡ some s
          → hash_password argon base64 password (some s) ≡ some hash
          → PasswordSet argon base64 salt stdin d (upsert "password_hash" hash d)
      hash_stored s hash salted made = record {
        password = password;
        rest = rest;
        further = further;
        read = read;
        confirmed = confirmed;
        not_blank = not_blank;
        salt_bytes = s;
        salted = salted;
        accepts = λ other.
            let (encoded, same, verified, _) = verify-hash argon base64 password other s in
            ap (verify_password argon base64 other)
              (hash-upsert hash d ∙ some_injective (sym made ∙ same))
            ∙ verified;
        sessions = sessions-upsert "password_hash" hash d;
        others = λ k other. find-upsert_other "password_hash" k hash d other;
      }

      stored :
          (o : Option Text)
          → salt ≡ o
          → Ended (exit_with (set_password argon base64 password o d) d)
      unfolding Ended exit_with set_password store_hash hash_password
      stored none salted = (refl, salted)
      stored (some s) salted = hash_stored s _ salted refl

    accepted :
        (confirm further : Text)
        → read_password rest ≡ some (confirm, further)
        → Ended (accept argon base64 salt password confirm d)
    unfolding Ended accept
    accepted confirm further second = elim (Bool-cases (text_eq password confirm)) [
      | inl same ↦ elim (Bool-cases (text_eq (trim_space password) [])) [
        | inl blank ↦ rw (same, blank) refl
        | inr full ↦
            rw (same, full)
              (stored further
                (second ∙ ap (λ p. some (p, further)) (sym ((text_eq_iff password confirm).0 same)))
                full salt refl)
      ]
      | inr differ ↦ rw differ refl
    ]

    confirmed_lem :
        (o : Option (Text × Text))
        → read_password rest ≡ o
        → Ended (confirm_password argon base64 salt password o d)
    unfolding Ended confirm_password
    confirmed_lem none second = refl
    confirmed_lem (some (confirm, further)) second = accepted confirm further second

  chosen :
      (o : Option (Text × Text))
      → read_password stdin ≡ o
      → Ended (choose_password argon base64 salt o d)
  unfolding Ended choose_password
  chosen none first = refl
  chosen (some (password, rest)) first = confirmed_lem password rest first (read_password rest) refl

  -- However the command ends: with "password set", where it has read the same line twice, not only spaces, and the
  -- stored hash then accepts just the passwords whose Argon2id key is that of the line, while the
  -- sessions and the other settings stay; or with an error, and the database is as it was, where the hashing fails only
  -- for want of random bytes.
  pub run_set_password-Ended : Ended (run_set_password argon base64 salt stdin d)
  unfolding run_set_password
  run_set_password-Ended = chosen (read_password stdin) refl

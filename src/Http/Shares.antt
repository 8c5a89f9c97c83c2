-- ===== src/Http/Shares.antt =====
-- Which tables the services leave as they are, however they end.
use retainer.Prelude.{
  ℕ, ◌≡◌, refl, sym, subst, String, Bool, true, false, Option, none, some, List, [], ◌∷◌,
  Bool-cases, inl, inr, if◌then◌else◌, ltb,
}
use retainer.Prelude.Text.{Text}
use retainer.Prelude.Int.{ℤ}
use retainer.Schema.{Db, SessionRow}
use retainer.Schema.Table.{exists}
use retainer.Store.{Error, Result, ok, err, fail, exec}
use retainer.Store.Rows.{note_exists}
use retainer.Sync.{apply}
use retainer.Sync.Wire.{Mutation}
use retainer.Sync.Requests.{apply-Keeps}
use retainer.Sync.Untouched.{Untouched, Untouched-refl, Untouched-trans, Applied-Untouched}
use retainer.Purge.{purge_one, sweep}
use retainer.Purge.Sweep.{without, purge_one-without, sweep-without}
use retainer.Audio.{Upload, create_audio}
use retainer.Audio.Recording.{create_audio-free, create_audio_taken}
use retainer.Auth.RateLimit.{Bucket, LoginLimiter}
use retainer.Auth.Session.{
  token_is, create_session, validate_found, validate_session, delete_session,
}
use retainer.Auth.Password.{Argon2, Base64, verify_password}
use retainer.Auth.Login.{
  answer, open_session, settle, check, attempt, admit, handle_login, unix_milli, password_hash,
}
use retainer.Auth.RateLimit.{allow, record_success}

-- The labels and the settings of `e` are those of `d`.
pub record Shares (d e : Db) : Type 0 where
  pub labels : e.labels ≡ d.labels
  pub config : e.config ≡ d.config

pub Shares-refl : (d : Db) → Shares d d
Shares-refl d = record { labels = refl; config = refl }

pub apply-Shares :
    (clock : ℕ → ℤ) (since : ℕ) (ms : List Mutation) (d : Db) → Shares d (apply clock since ms d).1
apply-Shares clock since ms d =
    let u =
      apply-Keeps Untouched Untouched-refl Untouched-trans Applied-Untouched clock since ms d in
    record { labels = u.labels; config = u.config }

pub purge_one-Shares : (id : String) (d : Db) → Shares d (purge_one id d).1
unfolding without
purge_one-Shares id d =
    subst (λ r. Shares d r.1) (sym (purge_one-without id d))
      (record { labels = refl; config = refl })

pub sweep-Shares : (now : ℕ) (d : Db) → Shares d (sweep now d).1
unfolding without
sweep-Shares now d =
    subst (λ r. Shares d r.1) (sym (sweep-without now d)) (record { labels = refl; config = refl })

pub create_audio-Shares : (u : Upload) (now : ℤ) (d : Db) → Shares d (create_audio u now d).1
create_audio-Shares u now d = elim (Bool-cases (note_exists u.id d)) [
  | inl taken ↦ subst (λ r. Shares d r.1) (sym (create_audio_taken u now d taken)) (Shares-refl d)
  | inr free ↦
      subst (λ r. Shares d r.1) (sym (create_audio-free u now d free))
        (record { labels = refl; config = refl })
]

-- What a statement leaves, if it succeeds
unfoldable pub Leaves : {A : Type 0} → Db → Result (A × Db) → Type 0
Leaves d (ok (a, e)) = Shares d e
Leaves d (err x) = Unit

pub of_ok : {A : Type 0} {d e : Db} (a : A) → Leaves d (ok (a, e)) → Shares d e
unfolding Leaves
of_ok a h = h

-- A refusal, or a database that has those tables of `d`
refused-or :
    {A : Type 0} (c : Bool) (d : Db) (x : Error) (a : A) (e : Db)
    → Shares d e
    → Leaves d (if c then err x else ok (a, e))
unfolding Leaves
refused-or true d x a e h = tt
refused-or false d x a e h = h

-- A guard, and a statement
guarded-or :
    (c : Bool) (x : Error) (f : Db → Db) (d : Db)
    → Shares d (f d)
    → Leaves d ((if c then fail x else exec f) d)
unfolding Leaves
guarded-or true x f d h = tt
guarded-or false x f d h = h

module _ (hash_token : String → String) where
  validate_found-Leaves :
      (hash : String) (now : ℕ) (o : Option SessionRow) (d : Db)
      → Leaves d (validate_found hash_token hash now o d)
  unfolding validate_found Leaves
  validate_found-Leaves hash now none d = tt
  validate_found-Leaves hash now (some s) d =
      guarded-or (ltb s.expires_at now) Error.session_invalid _ d
        (record { labels = refl; config = refl })

  pub validate_session-Leaves :
      (token : String) (now : ℕ) (d : Db) → Leaves d (validate_session hash_token token now d)
  unfolding validate_session
  validate_session-Leaves token now d = validate_found-Leaves (hash_token token) now _ d

  create_session-Leaves :
      (token : Option String) (now : ℕ) (d : Db) → Leaves d (create_session hash_token token now d)
  unfolding create_session Leaves
  create_session-Leaves none now d = tt
  create_session-Leaves (some token) now d =
      refused-or (exists (token_is (hash_token token)) d.sessions) d Error.constraint _ _
        (record { labels = refl; config = refl })

  pub delete_session-Leaves :
      (token : String) (d : Db) → Leaves d (delete_session hash_token token d)
  unfolding delete_session Leaves
  delete_session-Leaves token d = record { labels = refl; config = refl }

  module _ (b : Bucket) (argon : Argon2) (base64 : Base64) (ip : String) (token : Option String)
      (now : ℕ) where
    answered :
        (r : Result ((String × ℕ) × Db)) (l : LoginLimiter b) (d : Db)
        → Leaves d r
        → Shares d (answer b argon base64 hash_token r (l, d)).1.1
    unfolding answer Leaves
    answered (ok ((t, expires), e)) l d h = h
    answered (err x) l d h = Shares-refl d

    settled :
        (v : Option Bool) (l : LoginLimiter b) (d : Db)
        → Shares d (settle b argon base64 hash_token ip token now v (l, d)).1.1
    unfolding settle open_session
    settled none l d = Shares-refl d
    settled (some false) l d = Shares-refl d
    settled (some true) l d =
        answered (create_session hash_token token (unix_milli now) d) (record_success b ip l) d
          (create_session-Leaves token (unix_milli now) d)

    checked :
        (password hash : Text) (l : LoginLimiter b) (d : Db)
        → Shares d (check b argon base64 hash_token ip token now password hash (l, d)).1.1
    unfolding check
    checked password [] l d = Shares-refl d
    checked password (c ∷ hash) l d = settled (verify_password argon base64 password (c ∷ hash)) l d

    attempted :
        (body : Option Text) (l : LoginLimiter b) (d : Db)
        → Shares d (attempt b argon base64 hash_token ip token now body (l, d)).1.1
    unfolding attempt
    attempted none l d = Shares-refl d
    attempted (some password) l d = checked password (password_hash d) l d

    admitted :
        (body : Option Text) (d : Db) (a : Bool × ℕ × LoginLimiter b)
        → Shares d (admit b argon base64 hash_token ip token now body d a).1.1
    unfolding admit
    admitted body d (true, wait, l) = attempted body l d
    admitted body d (false, wait, l) = Shares-refl d

    pub handle_login-Shares :
        (body : Option Text) (l : LoginLimiter b) (d : Db)
        → Shares d (handle_login b argon base64 hash_token ip token now body (l, d)).1.1
    unfolding handle_login
    handle_login-Shares body l d = admitted body d (allow b ip now l)

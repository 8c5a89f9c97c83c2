-- ===== src/Auth/Login/Accepted.antt =====
-- When a login is accepted.
use retainer.Prelude.{
  ℕ, ◌≡◌, refl, sym, ap, String, Bool, true, false, Option, none, some, [], ◌∷◌, arith,
}
use retainer.Prelude.Text.{Text}
use retainer.Schema.{Db}
use retainer.Store.{Result, ok, err}
use retainer.Auth.RateLimit.{Bucket, LoginLimiter, allow, record_success}
use retainer.Auth.Session.{create_session}
use retainer.Auth.Password.{Argon2, Base64, verify_password}
use retainer.Auth.Login.{
  Response, logged_in, password_hash, unix_milli, Server, answer, open_session, settle, check,
  attempt, admit, handle_login,
}

logged_in_injective : {t u : String} {m n : ℕ} → logged_in t m ≡ logged_in u n → (t ≡ u) × (m ≡ n)
logged_in_injective h = ground arith

module _ (b : Bucket) (argon : Argon2) (base64 : Base64) (hash_token : String → String) where
  -- What an accepted login has gone through, and what it leaves.
  pub record Accepted (ip : String) (token : Option String) (now : ℕ) (body : Option Text)
      (l : LoginLimiter b) (db : Db) (t : String) (expires : ℕ) (s : Server b) : Type 0 where
    pub admitted : (allow b ip now l).0 ≡ true
    pub password : Text
    pub sent : body ≡ some password
    pub verified : verify_password argon base64 password (password_hash db) ≡ some true
    pub reset : s.0 ≡ record_success b ip (allow b ip now l).2
    pub session : create_session hash_token token (unix_milli now) db ≡ ok ((t, expires), s.1)

  -- The answer and the state behind it, apart
  parts :
      {r q : Response} {s s' : Server b}
      → ◌≡◌ {A = Response × Server b} (r, s) (q, s')
      → (r ≡ q) × (s ≡ s')
  parts h = (ap (λ p. p.0) h, ap (λ p. p.1) h)

  module _ (ip : String) (token : Option String) (now : ℕ) (t : String) (expires : ℕ)
      (s : Server b) where
    settled :
        (v : Option Bool) (l : LoginLimiter b) (db : Db)
        → settle b argon base64 hash_token ip token now v (l, db) ≡ (logged_in t expires, s)
        → (v ≡ some true)
          × (open_session b argon base64 hash_token token now (record_success b ip l, db)
              ≡ (logged_in t expires, s))
    unfolding settle
    settled none l db h = cc (parts h).0
    settled (some false) l db h = cc (parts h).0
    settled (some true) l db h = (refl, h)

    checked :
        (password hash : Text) (l : LoginLimiter b) (db : Db)
        → check b argon base64 hash_token ip token now password hash (l, db)
          ≡ (logged_in t expires, s)
        → settle b argon base64 hash_token ip token now
            (verify_password argon base64 password hash)
            (l, db)
          ≡ (logged_in t expires, s)
    unfolding check
    checked password [] l db h = cc (parts h).0
    checked password (c ∷ hash) l db h = h

    attempted :
        (body : Option Text) (l : LoginLimiter b) (db : Db)
        → attempt b argon base64 hash_token ip token now body (l, db) ≡ (logged_in t expires, s)
        → (password : Text) × (body ≡ some password)
          × (check b argon base64 hash_token ip token now password (password_hash db) (l, db)
              ≡ (logged_in t expires, s))
    unfolding attempt
    attempted none l db h = cc (parts h).0
    attempted (some password) l db h = (password, refl, h)

    admitted_lem :
        (body : Option Text) (db : Db) (a : Bool × ℕ × LoginLimiter b)
        → admit b argon base64 hash_token ip token now body db a ≡ (logged_in t expires, s)
        → (a.0 ≡ true)
          × (attempt b argon base64 hash_token ip token now body (a.2, db)
              ≡ (logged_in t expires, s))
    unfolding admit
    admitted_lem body db (true, wait, l) h = (refl, h)
    admitted_lem body db (false, wait, l) h = cc (parts h).0

    answered :
        (r : Result ((String × ℕ) × Db)) (l : LoginLimiter b) (db : Db)
        → answer b argon base64 hash_token r (l, db) ≡ (logged_in t expires, s)
        → (s.0 ≡ l) × (r ≡ ok ((t, expires), s.1))
    unfolding answer
    answered (ok ((u, e), db')) l db h =
        let (x, y) = logged_in_injective (parts h).0 in
        (sym (ap (λ p. p.0) (parts h).1), rw (x, y, ap (λ p. p.1) (parts h).1) refl)
    answered (err x) l db h = cc (parts h).0

  pub handle_login-Accepted :
      (ip : String) (token : Option String) (now : ℕ) (body : Option Text) (l : LoginLimiter b)
      (db : Db) (t : String) (expires : ℕ) (s : Server b)
      → handle_login b argon base64 hash_token ip token now body (l, db) ≡ (logged_in t expires, s)
      → Accepted ip token now body l db t expires s
  unfolding handle_login open_session
  handle_login-Accepted ip token now body l db t expires s h =
      let (admitted, h1) = admitted_lem ip token now t expires s body db (allow b ip now l) h in
      let (password, sent, h2) =
        attempted ip token now t expires s body (allow b ip now l).2 db h1 in
      let h3 =
        checked ip token now t expires s password (password_hash db) (allow b ip now l).2 db h2 in
      let (verified, h4) =
        settled ip token now t expires s (verify_password argon base64 password (password_hash db))
          (allow b ip now l).2 db h3 in
      let (reset, session) =
        answered ip token now t expires s (create_session hash_token token (unix_milli now) db)
          (record_success b ip (allow b ip now l).2) db h4 in
      record {
        admitted = admitted;
        password = password;
        sent = sent;
        verified = verified;
        reset = reset;
        session = session;
      }

-- ===== src/Http/Visit.antt =====
-- A visit: from the login to the logout.
use retainer.Prelude.{
  ℕ, ◌+◌, ◌≡◌, ◌≤◌, refl, sym, ap, subst, ◌∙◌, String, Option, none, some, arith, Bool-cases, inl,
  inr,
}
use retainer.Schema.{Db}
use retainer.Schema.Table.{exists}
use retainer.Store.{ok}
use retainer.Store.Inversion.{ok_injective}
use retainer.Auth.RateLimit.{Bucket}
use retainer.Auth.Session.{session_ttl, token_is, create_session, validate_session}
use retainer.Auth.Session.Lifetime.{Expires, create-Expires, validate-Expires}
use retainer.Auth.Password.{Argon2, Base64}
use retainer.Auth.Login.{
  Response, logged_in, too_many_requests, bad_request, unconfigured, internal_error, unauthorized,
  unix_milli, handle_login,
}
use retainer.Auth.Login.Accepted.{handle_login-Accepted}
use retainer.Http.{HttpRequest, Cookie, App, Handler}
use retainer.Http.Session.{
  write_login, after_login, handle_login_request, admit_valid, admit_cookie, require_auth,
}

cookie_injective :
    {t u : String} {m n : ℕ} → Cookie.set_session t m ≡ Cookie.set_session u n → (t ≡ u) × (m ≡ n)
cookie_injective h = ground arith

-- Only a login that was accepted sets the cookie.
sets_cookie :
    (a : Response) (t : String) (expires : ℕ)
    → (write_login a).cookie ≡ Cookie.set_session t expires
    → a ≡ logged_in t expires
unfolding write_login
sets_cookie (logged_in u e) t expires h = let (x, y) = cookie_injective h in rw (x, y) refl
sets_cookie (too_many_requests n) t expires h = cc
sets_cookie bad_request t expires h = cc
sets_cookie unconfigured t expires h = cc
sets_cookie internal_error t expires h = cc
sets_cookie unauthorized t expires h = cc

module _ {b : Bucket} (hash_token : String → String) where
  admitted :
      (next : Handler b) (r : HttpRequest) (s : App b) (t : String) (db : Db)
      → r.cookie ≡ some t
      → validate_session hash_token t (unix_milli r.now) s.db ≡ ok (tt, db)
      → require_auth hash_token next r s ≡ next r (record s { db = db })
  unfolding require_auth admit_cookie admit_valid
  admitted next r s t db carries valid =
      ap (λ c. admit_cookie hash_token next r c s) carries
      ∙ ap (λ v. admit_valid hash_token next r v s) valid

created :
    (hash_token : String → String) (token : Option String) (now : ℕ) (d e : Db) (t : String)
    (expires : ℕ)
    → create_session hash_token token now d ≡ ok ((t, expires), e)
    → Expires hash_token t (now + session_ttl) e × (expires ≡ now + session_ttl)
unfolding create_session
created hash_token none now d e t expires h = cc
created hash_token (some u) now d e t expires h =
    elim (Bool-cases (exists (token_is (hash_token u)) d.sessions)) [
      | inl taken ↦ cc (rw taken at h)
      | inr free ↦
          let same = ok_injective (rw free at h) in
          (
            subst (λ x. Expires hash_token x (now + session_ttl) e) (ap (λ p. p.0.0) same)
                (create-Expires hash_token u now d e (t, expires) h),
            sym (ap (λ p. p.0.1) same),
          )
    ]

module _ {b : Bucket} (argon : Argon2) (base64 : Base64) (hash_token : String → String) where
  -- A login answers with a session cookie. Then a request that carries the cookie, within 90 days of the login, passes
  -- requireAuth: its handler runs, on a database in which the session lasts for 90 days from then on.
  pub login-require_auth :
      (r : HttpRequest) (s : App b) (t : String) (expires : ℕ)
      → (handle_login_request argon base64 hash_token r s).0.cookie ≡ Cookie.set_session t expires
      → (next : Handler b) (q : HttpRequest) → q.cookie ≡ some t
      → unix_milli q.now ≤ unix_milli r.now + session_ttl
      → (db : Db) × (require_auth hash_token next q
            (handle_login_request argon base64 hash_token r s).1
          ≡ next q (record ((handle_login_request argon base64 hash_token r s).1) { db = db }))
        × Expires hash_token t (unix_milli q.now + session_ttl) db
  unfolding handle_login_request after_login
  login-require_auth r s t expires sets next q carries in_time =
      let l =
        handle_login b argon base64 hash_token r.ip r.token r.now r.password (s.limiter, s.db) in
      let answered = ap (λ (a : Response). (a, l.1)) (sets_cookie l.0 t expires sets) in
      let accepted =
        handle_login-Accepted b argon base64 hash_token r.ip r.token r.now r.password s.limiter s.db
          t expires l.1 answered in
      let lasts =
        (created hash_token r.token (unix_milli r.now) s.db l.1.1 t expires accepted.session).0 in
      let (db, valid, longer) =
        validate-Expires hash_token t (unix_milli q.now) (unix_milli r.now + session_ttl) l.1.1
          lasts in_time in
      (
        db,
        admitted hash_token next q (record s { limiter = l.1.0; db = l.1.1 }) t db carries valid,
        longer,
      )

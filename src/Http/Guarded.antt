-- ===== src/Http/Guarded.antt =====
-- What a request without a session reaches.
use retainer.Prelude.{
  ◌<◌, ◌≡◌, refl, ap, ◌∙◌, String, Bool, true, false, Option, none, some, List, [], ◌∷◌, ◌++◌, All,
  lt→ltb, Option-cases, inl, inr, if◌then◌else◌,
}
use retainer.Prelude.Text.{Text}
use retainer.Schema.{SessionRow, FtsRow}
use retainer.Schema.Table.{find, exists}
use retainer.Store.{Error, err}
use retainer.Auth.RateLimit.{Bucket}
use retainer.Auth.Session.{token_is, validate_session, validate_found}
use retainer.Auth.Password.{Argon2, Base64}
use retainer.Auth.Login.{unix_milli}
use retainer.Http.{HttpRequest, HttpReply, App, Handler}
use retainer.Http.Session.{not_logged_in, require_auth, admit_cookie, admit_valid}
use retainer.Http.Router.{
  Pattern, Route, match, dispatch, router, health_pattern, login_pattern, logout_pattern,
  open_routes, session_routes,
}

-- The request has no cookie, or one whose digest is not in the table, or has expired there.
unfoldable pub Refused : {b : Bucket} → (String → String) → HttpRequest → App b → Type 0
Refused hash_token r s =
    (token : String)
    → r.cookie ≡ some token
    → (row : SessionRow) → find (token_is (hash_token token)) s.db.sessions ≡ some row
    → row.expires_at < unix_milli r.now

abbrev pub is_some {ℓ} : {A : Type ℓ} → Option A → Bool
is_some none = false
is_some (some a) = true

abbrev pub open_patterns : List Pattern
open_patterns = health_pattern ∷ login_pattern ∷ logout_pattern ∷ []

-- GET or HEAD of /health, and POST of /api/auth/login and /api/auth/logout
abbrev pub open_to : HttpRequest → Bool
open_to r = exists (λ p. is_some (match p r)) open_patterns

module _ {b : Bucket} (hash_token : String → String) where
  validate_session-Refused :
      (r : HttpRequest) (s : App b) (token : String)
      → Refused hash_token r s
      → r.cookie ≡ some token
      → validate_session hash_token token (unix_milli r.now) s.db ≡ err Error.session_invalid
  unfolding Refused validate_session validate_found
  validate_session-Refused r s token refused carries =
      elim (Option-cases (find (token_is (hash_token token)) s.db.sessions)) [
        | inl unknown ↦ rw unknown refl
        | inr (row, found) ↦
            rw (found, lt→ltb row.expires_at (unix_milli r.now) (refused token carries row found))
              refl
      ]

  pub require_auth-Refused :
      (next : Handler b) (r : HttpRequest) (s : App b)
      → Refused hash_token r s
      → require_auth hash_token next r s ≡ (not_logged_in, s)
  unfolding require_auth admit_cookie admit_valid
  require_auth-Refused next r s refused = by_cookie r.cookie refl
    where
      by_cookie :
          (c : Option String)
          → r.cookie ≡ c
          → admit_cookie hash_token next r c s ≡ (not_logged_in, s)
      by_cookie none carries = refl
      by_cookie (some token) carries =
          ap (λ v. admit_valid hash_token next r v s)
            (validate_session-Refused r s token refused carries)

  -- A route that lets no such request through
  Guards : Route b → Type 0
  Guards route =
      (id : String) (r : HttpRequest) (s : App b)
      → Refused hash_token r s
      → route.handler id r s ≡ (not_logged_in, s)

  abbrev pub any_matches : List (Route b) → HttpRequest → Bool
  any_matches routes r = exists (λ route. is_some (match route.pattern r)) routes

  dispatch-Guards :
      (unrouted : HttpRequest → HttpReply) (routes : List (Route b)) (r : HttpRequest) (s : App b)
      → All Guards routes
      → Refused hash_token r s
      → dispatch unrouted routes r s
        ≡ (if any_matches routes r then not_logged_in else unrouted r, s)
  unfolding dispatch exists Guards
  dispatch-Guards unrouted [] r s guards refused = refl
  dispatch-Guards unrouted (route ∷ routes) r s (g, guards) refused =
      elim (Option-cases (match route.pattern r)) [
        | inl misses ↦ rw (misses, dispatch) (dispatch-Guards unrouted routes r s guards refused)
        | inr (id, hits) ↦ rw (hits, dispatch) (g id r s refused)
      ]

  dispatch-skip :
      (unrouted : HttpRequest → HttpReply) (skipped routes : List (Route b)) (r : HttpRequest)
      (s : App b)
      → any_matches skipped r ≡ false
      → dispatch unrouted (skipped ++ routes) r s ≡ dispatch unrouted routes r s
  unfolding dispatch exists
  dispatch-skip unrouted [] routes r s h = refl
  dispatch-skip unrouted (route ∷ skipped) routes r s h =
      elim (Option-cases (match route.pattern r)) [
        | inl misses ↦
            let later : any_matches skipped r ≡ false = rw misses at h in
            rw (misses, dispatch) (dispatch-skip unrouted skipped routes r s later)
        | inr (id, hits) ↦ cc (rw hits at h)
      ]

module _ (b : Bucket) (argon : Argon2) (base64 : Base64) (hash_token : String → String)
    (fts_match : Text → List FtsRow → List FtsRow) where
  wrapped :
      (next : String → Handler b) (id : String) (r : HttpRequest) (s : App b)
      → Refused hash_token r s
      → require_auth hash_token (next id) r s ≡ (not_logged_in, s)
  wrapped next id r s refused = require_auth-Refused hash_token (next id) r s refused

  -- Every route behind the open ones is wrapped.
  session_routes-Guards :
      All (Guards {b = b} hash_token) (session_routes argon base64 hash_token fts_match)
  unfolding Guards
  session_routes-Guards = (
    wrapped _,
    (
      wrapped _,
      (
        wrapped _,
        (
          wrapped _,
          (
            wrapped _,
            (
              wrapped _,
              (wrapped _, (wrapped _, (wrapped _, (wrapped _, (wrapped _, (wrapped _, tt)))))),
            ),
          ),
        ),
      ),
    ),
  )

  -- A request that carries no session cookie, or one whose session is unknown or has expired, and is not a health
  -- check, a login or a logout, changes nothing: not the database, the limiter or the hub. It is answered 401,
  -- if it is for a route of the API, and else as net/http answers what is not routed.
  pub router-Refused :
      (unrouted : HttpRequest → HttpReply) (r : HttpRequest) (s : App b)
      → open_to r ≡ false
      → Refused hash_token r s
      → router argon base64 hash_token fts_match unrouted r s ≡ (
        if any_matches hash_token (session_routes {b = b} argon base64 hash_token fts_match) r
            then not_logged_in
            else unrouted r,
        s,
      )
  unfolding router exists
  router-Refused unrouted r s closed refused =
      dispatch-skip hash_token unrouted (open_routes argon base64 hash_token fts_match)
        (session_routes argon base64 hash_token fts_match) r s closed
      ∙ dispatch-Guards hash_token unrouted (session_routes argon base64 hash_token fts_match) r s
          session_routes-Guards refused

-- ===== src/Http/Router.antt =====
-- The routes: `NewRouter` of server/internal/httpapi/router.go, with the patterns of net/http's ServeMux
-- that it uses. No two of its patterns match one request, but for "/", which all others are more
-- specific than; so the order of the table does not matter.
use retainer.Prelude.{
  String, Bool, ◌&&◌, ◌||◌, Option, none, some, List, [], ◌∷◌, ◌++◌, str_eq, if◌then◌else◌,
}
use retainer.Prelude.Text.{Text}
use retainer.Schema.{FtsRow}
use retainer.Auth.RateLimit.{Bucket}
use retainer.Auth.Password.{Argon2, Base64}
use retainer.Http.{HttpRequest, HttpReply, Handler}
use retainer.Http.Session.{
  handle_health, handle_auth_status, handle_logout, handle_login_request, require_auth,
}
use retainer.Http.Notes.{
  handle_list_notes, handle_search_notes, handle_sync, handle_purge_note, handle_ws,
}
use retainer.Http.Labels.{
  handle_list_labels, handle_create_label, handle_rename_label, handle_delete_label,
}
use retainer.Http.Upload.{handle_create_audio_note, handle_get_audio}

-- A segment of a pattern: itself, or `{id}`
pub data Segment : Type 0 where
  literal : String → Segment
  wildcard : Segment

pub record Pattern : Type 0 where
  pub method : String
  pub segments : List Segment

-- `r.PathValue("id")` is in a request's path what stands for the wildcard, "" where there is none.
unfoldable pub match_segments : List Segment → List String → String → Option String
match_segments [] [] id = some id
match_segments [] (p ∷ path) id = none
match_segments (s ∷ segments) [] id = none
match_segments (literal l ∷ segments) (p ∷ path) id =
    let rest = match_segments segments path id in if str_eq l p then rest else none
match_segments (wildcard ∷ segments) (p ∷ path) id = match_segments segments path p

-- A pattern with GET takes HEAD too.
unfoldable pub match_method : String → String → Bool
match_method m method = str_eq m method || (str_eq m "GET" && str_eq method "HEAD")

unfoldable pub match : Pattern → HttpRequest → Option String
unfolding match_segments match_method
match p r = if match_method p.method r.method then match_segments p.segments r.path "" else none

pub record Route (b : Bucket) : Type 0 where
  pub pattern : Pattern
  pub handler : String → Handler b

abbrev pub get_pattern : List Segment → Pattern
get_pattern segments = record { method = "GET"; segments = segments }

abbrev pub post_pattern : List Segment → Pattern
post_pattern segments = record { method = "POST"; segments = segments }

abbrev pub api : List Segment → List Segment
api segments = literal "api" ∷ segments

abbrev pub health_pattern : Pattern
health_pattern = get_pattern (literal "health" ∷ [])

abbrev pub login_pattern : Pattern
login_pattern = post_pattern (api (literal "auth" ∷ literal "login" ∷ []))

abbrev pub logout_pattern : Pattern
logout_pattern = post_pattern (api (literal "auth" ∷ literal "logout" ∷ []))

module _ {b : Bucket} where
  -- The first route whose pattern matches, and the answer where none does
  unfoldable pub dispatch : (HttpRequest → HttpReply) → List (Route b) → Handler b
  dispatch unrouted [] r s = (unrouted r, s)
  dispatch unrouted (route ∷ routes) r s = elim (match route.pattern r) [
    | none ↦ dispatch unrouted routes r s
    | some id ↦ route.handler id r s
  ]

module _ {b : Bucket} (argon : Argon2) (base64 : Base64) (hash_token : String → String)
    (fts_match : Text → List FtsRow → List FtsRow) where
  abbrev pub guarded : Pattern → (String → Handler b) → Route b
  guarded p h = record { pattern = p; handler = λ id. require_auth hash_token (h id) }

  -- The routes without requireAuth, and those with it
  abbrev pub open_routes : List (Route b)
  open_routes =
      record { pattern = health_pattern; handler = λ id. handle_health }
      ∷ record {
        pattern = login_pattern;
        handler = λ id. handle_login_request argon base64 hash_token;
      }
      ∷ record { pattern = logout_pattern; handler = λ id. handle_logout hash_token }
      ∷ []

  abbrev pub session_routes : List (Route b)
  session_routes =
      guarded (get_pattern (api (literal "auth" ∷ literal "status" ∷ [])))
        (λ id. handle_auth_status)
      ∷ guarded (get_pattern (api (literal "notes" ∷ []))) (λ id. handle_list_notes)
      ∷ guarded (get_pattern (api (literal "notes" ∷ literal "search" ∷ [])))
          (λ id. handle_search_notes fts_match)
      ∷ guarded (post_pattern (api (literal "sync" ∷ []))) (λ id. handle_sync)
      ∷ guarded
          (record {
            method = "DELETE";
            segments = api (literal "notes" ∷ wildcard ∷ literal "purge" ∷ []);
          })
          handle_purge_note
      ∷ guarded (post_pattern (api (literal "notes" ∷ literal "audio" ∷ [])))
          (λ id. handle_create_audio_note)
      ∷ guarded (get_pattern (api (literal "notes" ∷ wildcard ∷ literal "audio" ∷ [])))
          handle_get_audio
      ∷ guarded (get_pattern (literal "ws" ∷ [])) (λ id. handle_ws)
      ∷ guarded (get_pattern (api (literal "labels" ∷ []))) (λ id. handle_list_labels)
      ∷ guarded (post_pattern (api (literal "labels" ∷ []))) (λ id. handle_create_label)
      ∷ guarded (record { method = "PATCH"; segments = api (literal "labels" ∷ wildcard ∷ []) })
          handle_rename_label
      ∷ guarded (record { method = "DELETE"; segments = api (literal "labels" ∷ wildcard ∷ []) })
          handle_delete_label
      ∷ []

  -- `NewRouter`; `unrouted` is what net/http answers a request that no other pattern matches: a
  -- static file, if a directory is configured, and else 404 or 405.
  unfoldable pub router : (HttpRequest → HttpReply) → Handler b
  unfolding dispatch
  router unrouted = dispatch unrouted (open_routes ++ session_routes)

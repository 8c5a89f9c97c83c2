-- ===== src/Http.antt =====
-- The HTTP handlers: server/internal/httpapi. A request holds what the handlers read of it: what its
-- body decodes to, as JSON of the shape that a handler asks for or as a form, and `none` where the
-- decoding fails. A handler answers, and leaves the limiter, the database and the hub.
pub mod Session
pub mod Notes
pub mod Labels
pub mod Upload
pub mod Router
pub mod Guarded
pub mod Visit
pub mod Shares
pub mod WellFormed
pub mod Invariant
pub mod Uploaded
pub mod Notified
pub mod Searched
pub mod Samples
mod Tests
use retainer.Prelude.{ℕ, String, Bool, Option, none, some, List}
use retainer.Prelude.Text.{Text}
use retainer.Prelude.Int.{ℤ}
use retainer.Schema.{Db, Note, LabelRow}
use retainer.Store.{Error}
use retainer.Sync.Wire.{Mutation}
use retainer.Sync.Pull.{Changes}
use retainer.Auth.RateLimit.{Bucket, LoginLimiter}
use retainer.Hub.{Hub}

-- A multipart form. A field that is missing reads as "". `audio` is the file's content type and its bytes,
-- `none` where they cannot be read.
pub record Form : Type 0 where
  pub id : String
  pub title : Text
  pub position : Text
  pub duration_ms : Text
  pub audio : Option (Text × Option (List ℕ))

-- `now` is on the limiter's scale; `token` is the encoded random bytes of a new session, and `uuid` a new id.
-- `pings` is whether the database answers, and `upgrades` whether the websocket handshake succeeds.
pub record HttpRequest : Type 0 where
  pub method : String
  pub path : List String
  pub cookie : Option String
  pub ip : String
  pub query : Text
  pub now : ℕ
  pub clock : ℕ → ℤ
  pub token : Option String
  pub uuid : String
  pub pings : Bool
  pub upgrades : Bool
  pub password : Option Text
  pub sync : Option (ℕ × List Mutation)
  pub name : Option Text
  pub form : Option Form

pub data Body : Type 0 where
  empty : Body
  ok_true : Body
  status_ok : Body
  logged_in_true : Body
  message : String → Body
  failure : Error → Body
  a_note : Note → Body
  all_notes : List Note → Body
  a_label : LabelRow → Body
  all_labels : List LabelRow → Body
  synced : ℕ → Changes → Body
  recording : Text → List ℕ → Body
  retry : ℕ → Body

-- The session cookie of an answer
pub data Cookie : Type 0 where
  kept : Cookie
  set_session : String → ℕ → Cookie
  cleared : Cookie

pub record HttpReply : Type 0 where
  pub status : ℕ
  pub body : Body
  pub cookie : Cookie

-- `writeJSON`
abbrev pub write_json : ℕ → Body → HttpReply
write_json status body = record { status = status; body = body; cookie = kept }

-- `writeError`
abbrev pub write_error : ℕ → Body → HttpReply
write_error status body = write_json status body

-- What the handlers share
pub record App (b : Bucket) : Type 0 where
  pub limiter : LoginLimiter b
  pub db : Db
  pub hub : Hub

abbrev pub Handler : Bucket → Type 0
Handler b = HttpRequest → App b → HttpReply × App b

-- ===== src/System.antt =====
-- The running server: `main` of server/cmd/retainer/main.go, which starts the router, the hub and
-- `Run` of server/internal/purge/sweep.go over one database. Requests, what the hub and its clients
-- do, and the sweeps come in any order.
pub mod Safe
mod Tests
use retainer.Prelude.{ℕ, String, Option, none, some, List, [], ◌∷◌}
use retainer.Prelude.Text.{Text}
use retainer.Schema.{Db, FtsRow}
use retainer.Purge.{sweep}
use retainer.Hub.{Hub, Message, handle, new_hub}
use retainer.Auth.RateLimit.{Bucket}
use retainer.Auth.Password.{Argon2, Base64}
use retainer.Http.{HttpRequest, HttpReply, App}
use retainer.Http.Router.{router}

pub data Event : Type 0 where
  requested : HttpRequest → Event
  in_hub : Message → Event
  swept : ℕ → Event

-- What `main` starts from, with the database as `Open` leaves it
abbrev pub start : (b : Bucket) → Db → App b
start b db = record { limiter = []; db = db; hub = new_hub }

-- `none` is a panic.
unfoldable pub with_hub : {b : Bucket} → App b → Option Hub → Option (App b)
with_hub s none = none
with_hub s (some h) = some (record s { hub = h })

module _ {b : Bucket} (argon : Argon2) (base64 : Base64) (hash_token : String → String)
    (fts_match : Text → List FtsRow → List FtsRow) (unrouted : HttpRequest → HttpReply) where
  unfoldable pub step : Event → App b → Option (App b)
  unfolding with_hub
  step (requested r) s = some (router argon base64 hash_token fts_match unrouted r s).1
  step (in_hub m) s = with_hub s (handle m s.hub)
  step (swept now) s = some (record s { db = (sweep now s.db).1 })

  unfoldable pub run_all : List Event → Option (App b) → Option (App b)
  unfolding step
  run_all es none = none
  run_all [] (some s) = some s
  run_all (e ∷ es) (some s) = run_all es (step e s)

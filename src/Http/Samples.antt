-- ===== src/Http/Samples.antt =====
-- A server with one session, and requests to it.
use retainer.Prelude.{ℕ, true, false, none, some, List, [], ◌∷◌, ◌+◌, ◌*◌}
use retainer.Prelude.Text.{Text, codes}
use retainer.Prelude.Int.{pos}
use retainer.Schema.{Db, FtsRow, init}
use retainer.Sync.Wire.{Mutation, string}
use retainer.Sync.Notes.{new_note}
use retainer.Auth.RateLimit.{second}
use retainer.Auth.Samples.{drops}
use retainer.Auth.Session.{insert_session}
use retainer.Auth.Login.{epoch}
use retainer.Http.{HttpRequest, HttpReply, App, Body, write_error}
use retainer.Hub.{Hub}

-- Five seconds into 1970
abbrev pub at_five : ℕ
at_five = epoch + 5 * second

abbrev pub plain : HttpRequest
plain = record {
  method = "GET";
  path = "api" ∷ "notes" ∷ [];
  cookie = none;
  ip = "10.0.0.1";
  query = [];
  now = at_five;
  clock = λ i. pos 5000;
  token = some "t2";
  uuid = "u1";
  pings = true;
  upgrades = true;
  password = none;
  sync = none;
  name = none;
  form = none;
}

-- A session that ends ten seconds into 1970
abbrev pub with_session : Db
with_session =
    insert_session
      (record { token_hash = "t"; created_at = 0; expires_at = 10000; last_used_at = 0 })
      (record init {
        notes = record (new_note "n1" (pos 0) 1) { title = codes "a" } ∷ [];
        counter = 1;
      })

-- One client is connected, and an event is pending.
abbrev pub listening : Hub
listening = record {
  clients = record { registered = true; closed = false; send = 1 ∷ [] } ∷ [];
  broadcast = 1 ∷ [];
}

abbrev pub server : App drops
server = record { limiter = []; db = with_session; hub = listening }

abbrev pub title_edit : Mutation
title_edit = record {
  entity = "note";
  id = "n1";
  note_id = "";
  label_id = "";
  field = "title";
  value = string (codes "b");
  hlc = codes "1-a";
}

abbrev pub sync_request : HttpRequest
sync_request = record plain {
  method = "POST";
  path = "api" ∷ "sync" ∷ [];
  cookie = some "t";
  sync = some (1, title_edit ∷ []);
}

-- A matcher that finds every row, and no static files
abbrev pub match_all : Text → List FtsRow → List FtsRow
match_all q rows = rows

abbrev pub not_found : HttpRequest → HttpReply
not_found r = write_error 404 (Body.message "404 page not found")

-- ===== src/Http/Notes.antt =====
-- The handlers of server/internal/httpapi on notes: notes.go, search.go, sync.go, purge.go and ws.go.
use retainer.Prelude.{ℕ, String, Bool, true, false, Option, none, some, List, [], ◌∷◌, length, ltb}
use retainer.Prelude.Text.{Text}
use retainer.Prelude.Int.{ℤ}
use retainer.Schema.{Db, Note, FtsRow}
use retainer.Store.{Result, ok, err}
use retainer.Search.{search_notes}
use retainer.Sync.{apply}
use retainer.Sync.Wire.{Mutation}
use retainer.Sync.Pull.{Changes}
use retainer.Notes.{list_notes, get}
use retainer.Purge.{purge_one}
use retainer.Hub.{register, enqueue}
use retainer.Auth.RateLimit.{Bucket}
use retainer.Http.{HttpReply, Body, App, Handler, write_json, write_error}

-- The loop of `handleSearchNotes`: an id whose note is not there is skipped.
unfoldable pub cons_found : Option Note → List Note → List Note
cons_found none rest = rest
cons_found (some n) rest = n ∷ rest

unfoldable pub collect : List String → Db → List Note
unfolding cons_found
collect [] db = []
collect (id ∷ ids) db = cons_found (get id db) (collect ids db)

module _ {b : Bucket} where
  -- `hub.Notify` with the counter that the database has
  unfoldable pub notify_counter : App b → App b
  notify_counter s = record s { hub = enqueue s.db.counter s.hub }

  -- `handleListNotes`
  unfoldable pub handle_list_notes : Handler b
  handle_list_notes r s = (write_json 200 (Body.all_notes (list_notes s.db)), s)

  unfoldable pub notify_if : Bool → ℕ → App b → App b
  notify_if true seq s = record s { hub = enqueue seq s.hub }
  notify_if false seq s = s

  -- Behind `Apply`
  unfoldable pub sync_reply : List Mutation → Result (ℕ × Changes) × Db → App b → HttpReply × App b
  unfolding notify_if
  sync_reply ms (ok (seq, changes), db') s = (
    write_json 200 (Body.synced seq changes),
    notify_if (ltb 0 (length ms)) seq (record s { db = db' }),
  )
  sync_reply ms (err e, db') s = (write_error 400 (Body.failure e), record s { db = db' })

  unfoldable pub sync_decoded : (ℕ → ℤ) → Option (ℕ × List Mutation) → App b → HttpReply × App b
  unfolding sync_reply
  sync_decoded clock none s = (write_error 400 (Body.message "invalid JSON body"), s)
  sync_decoded clock (some (since, ms)) s = sync_reply ms (apply clock since ms s.db) s

  -- `handleSync`
  unfoldable pub handle_sync : Handler b
  unfolding sync_decoded
  handle_sync r s = sync_decoded r.clock r.sync s

  unfoldable pub purge_reply : Result (Unit {0}) × Db → App b → HttpReply × App b
  unfolding notify_counter
  purge_reply (ok u, db') s = (write_json 204 Body.empty, notify_counter (record s { db = db' }))
  purge_reply (err e, db') s = (write_error 500 (Body.failure e), record s { db = db' })

  -- `handlePurgeNote`
  unfoldable pub handle_purge_note : String → Handler b
  unfolding purge_reply
  handle_purge_note id r s = purge_reply (purge_one id s.db) s

  unfoldable pub connect : Bool → App b → HttpReply × App b
  connect true s = (write_json 101 Body.empty, record s { hub = register s.hub })
  connect false s = (write_json 400 Body.empty, s)

  -- `handleWS`, whose handshake writes the answer
  unfoldable pub handle_ws : Handler b
  unfolding connect
  handle_ws r s = connect r.upgrades s

module _ {b : Bucket} (fts_match : Text → List FtsRow → List FtsRow) where
  -- `handleSearchNotes`
  unfoldable pub handle_search_notes : Handler b
  unfolding collect
  handle_search_notes r s =
      (write_json 200 (Body.all_notes (collect (search_notes fts_match r.query s.db) s.db)), s)

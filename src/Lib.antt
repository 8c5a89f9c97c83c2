-- ===== src/Lib.antt =====
-- Retainer's server: the parts of server/ that decide what the notes are, modelled and proved.
--
-- Retainer is a notes application for one user with several devices. Each device edits its own copy
-- and sends its edits, field by field, to the server, which merges them by the stamps of a hybrid
-- logical clock and answers with what the device has not seen. How the parts stand together, and
-- where they are modelled:
--
--   Fracindex  server/internal/fracindex/fracindex.go: KeyBetween is `key_between`, one round of its
--              loop is `step`, the loop is `walk`, recursion on what is left of the two neighbours.
--              Notes and items are ordered by these keys as strings.
--   Hlc        server/internal/hlc/hlc.go: Clock, String (`to_string`), Parse, Compare
--              (`compare_clock`) and Next. The stamps order the edits of a field.
--   Schema     server/migrations/*.sql and server/internal/models/models.go: a table is the list of
--              its rows (`Db`), and Schema/Table has SQL's statements on a list of rows.
--   Store      server/internal/db/db.go and database/sql: a statement of a transaction is a function
--              from the database to a result with a database, or an error (`Tx`); `transact` is
--              Begin, the body, and Commit or the deferred Rollback. Store/Rows has the statements
--              that more than one service runs, with the constraints that the schema puts on them.
--   Migrations server/internal/db/db.go: migrate and Open, over what SQLite does with a script.
--   Search     server/internal/searchsvc/searchsvc.go: ReindexNote, which every write of a searched
--              field calls, the sanitizer of queries, and Search.
--   Sync       server/internal/syncsvc/syncsvc.go: Apply is `apply`, with applyNoteMutation in
--              Sync/Notes, applyItemMutation in Sync/Items, applyNoteLabelMutation in
--              Sync/Attachments, the decoders in Sync/Wire, the stamps of a row in Sync/Clocks and
--              loadChanges in Sync/Pull. What a mutation that succeeds has done is one of three steps
--              (`NoteStep` in Sync/Notes/Step, and its like for items and attachments); Sync/Progress
--              is the order in which the database moves. Sync/Resend is about batches, Sync/Outcome
--              about how a request ends, Sync/Delta about what it is answered, and Sync/Indexed about
--              the search index; Sync/Requests has requests one after another. Sync/Registers is
--              the abstract view of the notes: a field is a register of a stamp and a value.
--   Notes      server/internal/notesvc/notesvc.go: List is `list_notes`, Get is `get`.
--   Audio      server/internal/audiosvc/audiosvc.go: Create is `create_audio`, Audio is `audio`.
--   Auth       server/internal/authsvc: ratelimit.go in Auth/RateLimit, session.go in Auth/Session,
--              password.go in Auth/Password; and handleLogin of server/internal/httpapi/auth.go, which
--              joins the three, in Auth/Login. SetPassword, and runSetPassword of
--              server/cmd/retainer/main.go, are in Auth/Setup.
--   Purge      server/internal/purge/sweep.go: PurgeOne and Sweep. The deletion of a note has the
--              references of items and attachments to it as its guard.
--   Hub        server/internal/wsserver/hub.go, and Serve, readPump and writePump of client.go as far
--              as they act on the hub. What the goroutines do is a list of messages in any order
--              (`run`); a panic of a channel is `none`. The map of the hub is a flag of each client.
--   Labels     server/internal/labelsvc/labelsvc.go: List, Create, Rename and Delete (`delete_label`).
--   Http       server/internal/httpapi: a handler is a function from a request and the shared state
--              (`App`: the limiter, the database and the hub) to an answer and a new state. Http/Session
--              has the handlers of auth.go and health.go with requireAuth, Http/Notes those on notes,
--              Http/Labels, Http/Upload, and Http/Router the table of NewRouter with its patterns.
--   System     What main of server/cmd/retainer/main.go starts: requests, the hub with its clients, and
--              the sweeps of purge.Run, as a list of events in any order.
--   Prelude    Tests on numbers, text as the list of its bytes with the order of strings.Compare,
--              and the integers over the native numbers.
--
-- Numbers: an int64 that is a time of the user is an integer, with the range test where the source
-- decodes it; a uint64 counter wraps at 2 ^ 64; server_seq, which starts at 0 and grows by one with
-- each write, is a natural number without a bound, and so is the catch-up point, since one below 0
-- selects what 0 selects. Printing a number has fuel for 20 digits, which is what 64 bits take at
-- most. Every other recursion is structural.
--
-- Not under server/, and so parameters: the token bucket of golang.org/x/time/rate, the execution of
-- SQL scripts by SQLite, the matching and ranking of FTS5, and Argon2id of golang.org/x/crypto. The digest of a session token and the
-- base64 encoding are parameters too, as are the random bytes and the wall clock. Not modelled:
-- failures of the driver and of the disk, the JSON text of field_clocks, which is the map that it
-- encodes, rows that ORDER BY leaves equal, which keep the order of the table, and spaces that take
-- more than one byte. A request is served as a whole, on one database, before the next; the single
-- connection of Open makes that so for a transaction, but not for the statements of a listing. Of HTTP,
-- the decoding of bodies, the cleaning of paths, the attributes of the cookie and the static files are
-- not modelled, nor are the frames of the websocket, signals and the shutdown, the terminal of
-- set-password, and the web client.
pub mod Prelude
pub mod Fracindex
pub mod Hlc
pub mod Schema
pub mod Store
pub mod Migrations
pub mod Search
pub mod Sync
pub mod Notes
pub mod Audio
pub mod Auth
pub mod Purge
pub mod Hub
pub mod Labels
pub mod Http
pub mod System

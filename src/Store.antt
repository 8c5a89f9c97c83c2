-- ===== src/Store.antt =====
-- Transactions and the sequence counter: server/internal/db/db.go, with database/sql's Begin,
-- Commit and deferred Rollback.
pub mod Transaction
pub mod Rows
pub mod Inversion
pub use Transaction.{
  Error, unknown_entity, unknown_field, missing_id, missing_note_id, missing_label_id, audio_kind,
  bad_json, constraint, at_mutation, not_found, name_taken, empty_name, session_invalid,
  no_randomness, Result, ok, err, Tx, pure, fail, continue, ◌>>=◌, ◌>>◌, query, exec, transact,
  lift,
}
use retainer.Prelude.{ℕ, ◌+◌}
use retainer.Schema.{Db}

-- `NextServerSeq`: the UPDATE, and the SELECT of what it left.
unfoldable pub next_server_seq : Tx ℕ
next_server_seq = do exec (λ db. record db { counter = db.counter + 1 }); query (λ db. db.counter)

-- `CurrentServerSeq`
unfoldable pub current_server_seq : Tx ℕ
current_server_seq = query (λ db. db.counter)

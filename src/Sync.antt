-- ===== src/Sync.antt =====
-- The sync endpoint's merge: server/internal/syncsvc/syncsvc.go. A batch of field edits is applied
-- in one transaction, each against the stamp that is stored for its field, and the rows that the
-- client has not seen are read back.
pub mod Wire
pub mod Clocks
pub mod Notes
pub mod Items
pub mod Attachments
pub mod Pull
pub mod Progress
pub mod Applied
pub mod Requests
pub mod Untouched
pub mod Registers
pub mod Resend
pub mod Outcome
pub mod Indexed
pub mod Delta
pub mod Samples
mod Tests
use retainer.Prelude.{
  ℕ, ◌+◌, String, Bool, true, false, Option, none, some, List, [], ◌∷◌, str_eq, if◌then◌else◌,
}
use retainer.Prelude.Int.{ℤ}
use retainer.Schema.{Db}
use retainer.Store.{
  Result, ok, err, Tx, pure, fail, query, transact, unknown_entity, at_mutation, current_server_seq,
  ◌>>=◌, ◌>>◌,
}
use retainer.Sync.Wire.{Mutation}
use retainer.Sync.Notes.{apply_note_mutation}
use retainer.Sync.Items.{apply_item_mutation}
use retainer.Sync.Attachments.{apply_note_label_mutation}
use retainer.Sync.Pull.{Changes, load_changes}

-- The `switch m.Entity` of `Apply`
pub apply_mutation : ℤ → Mutation → Tx (Unit {0})
apply_mutation now m =
    if str_eq m.entity "note"
    then apply_note_mutation now m
    else if str_eq m.entity "item"
    then apply_item_mutation m
    else if str_eq m.entity "note_label"
    then apply_note_label_mutation m
    else fail unknown_entity

-- `fmt.Errorf("mutation %d: %w", i, err)`
pub wrap_error : ℕ → Result (Unit {0} × Db) → Result (Unit {0} × Db)
wrap_error i (ok r) = ok r
wrap_error i (err e) = err (at_mutation i e)

-- The loop over the batch. `clock i` is what `time.Now()` gives at the i-th mutation.
pub apply_from : (ℕ → ℤ) → ℕ → List Mutation → Tx (Unit {0})
unfolding wrap_error
apply_from clock i [] = pure tt
apply_from clock i (m ∷ ms) = do
  (λ db. wrap_error i (apply_mutation (clock i) m db))
  apply_from clock (i + 1) ms

-- The body of the transaction
pub apply_body : (ℕ → ℤ) → ℕ → List Mutation → Tx (ℕ × Changes)
apply_body clock since_seq mutations = do
  apply_from clock 0 mutations
  changes ← load_changes since_seq
  seq ← current_server_seq
  pure (seq, changes)

-- `Apply`: the new sequence number and what changed, or an error; and the database it leaves.
unfoldable pub apply : (ℕ → ℤ) → ℕ → List Mutation → Db → Result (ℕ × Changes) × Db
unfolding apply_mutation apply_from apply_body
apply clock since_seq mutations = transact (apply_body clock since_seq mutations)

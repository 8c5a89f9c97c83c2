-- ===== src/Sync/Outcome.antt =====
-- The two ways in which a request ends.
use retainer.Prelude.{ℕ, ◌+◌, ◌≡◌, List, ◌∷◌, ◌++◌, All, length}
use retainer.Prelude.Int.{ℤ}
use retainer.Schema.{Db}
use retainer.Store.{Error, Result, ok, err, at_mutation}
use retainer.Sync.{apply_mutation, apply_from}
use retainer.Sync.Wire.{Mutation}
use retainer.Sync.Pull.{Changes}
use retainer.Sync.Applied.{answered}
use retainer.Sync.Progress.{Progress}
use retainer.Sync.Resend.{Settled}

-- The first mutation of a batch that fails, behind those that have been applied
pub record Fails (clock : ℕ → ℤ) (i : ℕ) (ms : List Mutation) (d : Db) (x : Error) : Type 0 where
  pub before : List Mutation
  pub mutation : Mutation
  pub after : List Mutation
  pub at : Db
  pub cause : Error
  pub split : ms ≡ before ++ mutation ∷ after
  pub applied : apply_from clock i before d ≡ ok (tt, at)
  pub fails : apply_mutation (clock (i + length before)) mutation at ≡ err cause
  pub reported : x ≡ at_mutation (i + length before) cause

-- How a request on `d` ends, and the database that it leaves.
pub data Outcome (clock : ℕ → ℤ) (since : ℕ) (ms : List Mutation) (d : Db)
    : Result (ℕ × Changes) × Db → Type 0 where
  accepted :
      (e : Db)
      → Progress d e
      → All (λ m. Settled m e) ms
      → Outcome clock since ms d (ok (answered since e), e)
  refused : (x : Error) → Fails clock 0 ms d x → Outcome clock since ms d (err x, d)

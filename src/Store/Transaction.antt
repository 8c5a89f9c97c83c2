-- ===== src/Store/Transaction.antt =====
-- What runs inside a transaction: a function from the database to a result and the database that
-- the statements so far have made, or an error.
use retainer.Prelude.{ℕ}
use retainer.Schema.{Db}

pub data Error : Type 0 where
  unknown_entity unknown_field missing_id missing_note_id missing_label_id : Error
  audio_kind bad_json constraint not_found name_taken empty_name session_invalid no_randomness :
      Error
  at_mutation : ℕ → Error → Error

pub data Result {ℓ} (A : Type ℓ) : Type ℓ where
  ok : A → Result A
  err : Error → Result A

abbrev pub Tx : Type 0 → Type 0
Tx A = Db → Result (A × Db)

module _ {A : Type 0} where
  abbrev pub pure : A → Tx A
  pure a db = ok (a, db)

  abbrev pub fail : Error → Tx A
  fail e db = err e

  -- A SELECT reads the database, and a constant decoding step does not.
  abbrev pub query : (Db → A) → Tx A
  query f db = ok (f db, db)

  abbrev pub lift : Result A → Tx A
  lift (ok a) db = ok (a, db)
  lift (err e) db = err e

  -- Begin, the body, and Commit; an error reaches the deferred Rollback.
  abbrev pub transact : Tx A → Db → Result A × Db
  transact m db = elim (m db) [ ok (a, db') ↦ (ok a, db') | err e ↦ (err e, db) ]

-- A statement that no constraint refuses
abbrev pub exec : (Db → Db) → Tx (Unit {0})
exec f db = ok (tt, f db)

module _ {A B : Type 0} where
  -- `if err != nil { return err }` behind a step
  abbrev pub continue : Result (A × Db) → (A → Tx B) → Result (B × Db)
  continue (ok (a, db)) f = f a db
  continue (err e) f = err e

  infixl 5 ◌>>=◌
  abbrev pub ◌>>=◌ : Tx A → (A → Tx B) → Tx B
  ◌>>=◌ m f db = continue (m db) f

module _ {B : Type 0} where
  infixl 5 ◌>>◌
  abbrev pub ◌>>◌ : Tx (Unit {0}) → Tx B → Tx B
  m >> n = m >>= λ _. n

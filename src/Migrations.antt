-- ===== src/Migrations.antt =====
-- The migration runner: `migrate` and `Open` of server/internal/db/db.go. What SQLite does with the SQL of a script
-- is a parameter.
pub mod Again
pub mod Finished
mod Tests
use retainer.Prelude.{
  ℕ, ◌≡◌, ◌↔◌, ◌⊎◌, Bool, true, false, ◌||◌, not, Option, none, some, List, [], ◌∷◌, ◌==◌,
  if◌then◌else◌,
}
use retainer.Prelude.Text.{Text, codes, text_eq}
use retainer.Prelude.Int.{ℤ, pos, negsuc, ltb_ℤ, parse_int}
use retainer.Schema.Table.{order_by}
use retainer.Store.{Result}

-- `v == w` on integers
unfoldable pub eq_ℤ : ℤ → ℤ → Bool
eq_ℤ (pos a) (pos b) = a == b
eq_ℤ (pos a) (negsuc b) = false
eq_ℤ (negsuc a) (pos b) = false
eq_ℤ (negsuc a) (negsuc b) = a == b

unfoldable pub contains : ℤ → List ℤ → Bool
unfolding eq_ℤ
contains v [] = false
contains v (w ∷ vs) = eq_ℤ v w || contains v vs

-- SQLite: the execution of a script in a transaction, whether the table schema_migrations is there, the versions in
-- it, the INSERT OR IGNORE of one, and whether `foreign_key_check` finds a violation.
pub record Sqlite : Type 1 where
  pub Database : Type 0
  pub exec_script : Text → Database → Option Database
  pub has_table : Database → Bool
  pub versions : Database → List ℤ
  pub insert_version : ℤ → Database → Option Database
  pub violated : Database → Bool

-- An entry of the embedded directory
pub record Entry : Type 0 where
  pub name : Text
  pub is_dir : Bool
  pub content : Text

pub record Migration : Type 0 where
  pub version : ℤ
  pub script : Text

pub data Failure : Type 0 where
  bad_version apply_failed record_failed violations : Failure

-- `strings.HasSuffix(name, ".sql")`
unfoldable pub is_sql : Text → Bool
is_sql [] = false
is_sql (c ∷ s) = let rest = is_sql s in if text_eq (c ∷ s) (codes ".sql") then true else rest

-- `strings.SplitN(name, "_", 2)[0]`
unfoldable pub before_underscore : Text → Text
before_underscore [] = []
before_underscore (c ∷ s) = let rest = before_underscore s in if c == b'_' then [] else c ∷ rest

unfoldable pub cons_migration : Text → Option ℤ → Option (List Migration) → Option (List Migration)
cons_migration script none rest = none
cons_migration script (some v) none = none
cons_migration script (some v) (some ms) = some (record { version = v; script = script } ∷ ms)

-- The loop over the entries, which ends at a file whose prefix is no number
unfoldable pub mig_list : List Entry → Option (List Migration)
unfolding is_sql before_underscore cons_migration
mig_list [] = some []
mig_list (e ∷ es) =
    let rest = mig_list es in
    if e.is_dir || not (is_sql e.name)
    then rest
    else cons_migration e.content (parse_int (before_underscore e.name)) rest

-- sort.Slice by version
unfoldable pub sort_migrations : List Migration → List Migration
sort_migrations ms = order_by (λ m n. ltb_ℤ m.version n.version) ms

-- The connection: the database, and whether its foreign keys are enforced
pub record Connection (sqlite : Sqlite) : Type 0 where
  pub database : sqlite.Database
  pub foreign_keys : Bool

-- How the runner ends, and the connection that it leaves
pub data Migrated (sqlite : Sqlite) : Type 0 where
  done : Connection sqlite → Migrated sqlite
  failed : Failure → Connection sqlite → Migrated sqlite

-- `applied`, which is read once, before the loop
unfoldable pub applied_versions : (sqlite : Sqlite) → sqlite.Database → List ℤ
applied_versions sqlite d = if sqlite.has_table d then sqlite.versions d else []

module _ {sqlite : Sqlite} where
  -- PRAGMA foreign_keys = OFF and ON
  abbrev pub set_foreign_keys : Bool → Connection sqlite → Connection sqlite
  set_foreign_keys on c = record c { foreign_keys = on }

  -- Behind the Commit
  unfoldable pub check_keys : sqlite.Database → Migrated sqlite
  check_keys d =
      if sqlite.violated d
      then failed Failure.violations (record { database = d; foreign_keys = false })
      else done (record { database = d; foreign_keys = true })

  unfoldable pub record_version : Option sqlite.Database → Connection sqlite → Migrated sqlite
  unfolding check_keys
  record_version none c = failed Failure.record_failed c
  record_version (some d) c = check_keys d

  unfoldable pub commit_script : ℤ → Option sqlite.Database → Connection sqlite → Migrated sqlite
  unfolding record_version
  commit_script v none c = failed Failure.apply_failed c
  commit_script v (some d) c = record_version (sqlite.insert_version v d) c

  -- The body of the loop for a migration that is pending; a failed transaction is rolled back.
  unfoldable pub apply_migration : Migration → Connection sqlite → Migrated sqlite
  unfolding commit_script
  apply_migration m c =
      commit_script m.version (sqlite.exec_script m.script c.database) (set_foreign_keys false c)

  unfoldable pub and_then :
      Migrated sqlite → (Connection sqlite → Migrated sqlite) → Migrated sqlite
  and_then (done c) next = next c
  and_then (failed x c) next = failed x c

  -- The loop over the sorted migrations
  unfoldable pub apply_pending : List ℤ → List Migration → Connection sqlite → Migrated sqlite
  unfolding apply_migration and_then
  apply_pending applied [] c = done c
  apply_pending applied (m ∷ ms) c =
      and_then (if contains m.version applied then done c else apply_migration m c)
        (apply_pending applied ms)

  unfoldable pub migrate_list : Option (List Migration) → Connection sqlite → Migrated sqlite
  unfolding apply_pending applied_versions
  migrate_list none c = failed Failure.bad_version c
  migrate_list (some ms) c =
      apply_pending (applied_versions sqlite c.database) (sort_migrations ms) c

  -- `migrate`
  unfoldable pub migrate : List Entry → Connection sqlite → Migrated sqlite
  unfolding migrate_list
  migrate entries c = migrate_list (mig_list entries) c

  -- `Open`: the connection, which enforces foreign keys from the start, or an error behind Close
  unfoldable pub opened : Migrated sqlite → Option (Connection sqlite)
  opened (done c) = some c
  opened (failed x c) = none

  unfoldable pub open_database : List Entry → sqlite.Database → Option (Connection sqlite)
  unfolding opened migrate
  open_database entries d = opened (migrate entries (record { database = d; foreign_keys = true }))

-- ===== src/Migrations/Finished.antt =====
-- What holds once the migrations have run.
use mathlib.Core.List.{Memᴰ}
use retainer.Prelude.{◌≡◌, true, some, List}
use retainer.Prelude.Int.{ℤ}
use retainer.Migrations.{Sqlite, Entry, Migration, mig_list, Connection, done, migrate}
use retainer.Migrations.Again.{Recorded}

-- What a run that succeeded leaves, from the connection `c`
pub record Finished (sqlite : Sqlite) (entries : List Entry) (c c' : Connection sqlite)
    : Type 0 where
  pub migrations : List Migration
  pub listed : mig_list entries ≡ some migrations
  pub recorded : (m : Migration) → Memᴰ m migrations → Recorded sqlite m.version c'.database
  pub keeps : (v : ℤ) → Recorded sqlite v c.database → Recorded sqlite v c'.database
  pub enforced : c.foreign_keys ≡ true → c'.foreign_keys ≡ true
  pub again : migrate entries c' ≡ done c'

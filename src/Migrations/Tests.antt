-- ===== src/Migrations/Tests.antt =====
-- A directory of two migrations on a database that keeps the scripts it has run, and a witness.
use retainer.Prelude.{true, false, some, List, [], ◌∷◌}
use retainer.Prelude.Text.{Text, codes}
use retainer.Prelude.Int.{ℤ, pos}
use retainer.Migrations.{Sqlite, Entry, Connection}
use retainer.Migrations.Finished.{Finished}

-- The scripts that were executed, the last first, and the versions
record Log : Type 0 where
  scripts : List Text
  applied : List ℤ

abbrev logging : Sqlite
logging = record {
  Database = Log;
  exec_script = λ script d. some (record d { scripts = script ∷ d.scripts });
  has_table = λ d. true;
  versions = λ d. d.applied;
  insert_version = λ v d. some (record d { applied = v ∷ d.applied });
  violated = λ d. false;
}

abbrev entries : List Entry
entries =
    record { name = codes "embed.go"; is_dir = false; content = codes "go" }
    ∷ record { name = codes "002_audio_notes.sql"; is_dir = false; content = codes "two" }
    ∷ record { name = codes "001_init.sql"; is_dir = false; content = codes "one" }
    ∷ []

abbrev fresh : Connection logging
fresh = record { database = record { scripts = []; applied = [] }; foreign_keys = true }

abbrev migrated : Connection logging
migrated = record {
  database = record { scripts = codes "two" ∷ codes "one" ∷ []; applied = pos 2 ∷ pos 1 ∷ [] };
  foreign_keys = true;
}

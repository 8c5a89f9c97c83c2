-- ===== src/Migrations/Again.antt =====
-- What a run of the migrations records, and the runs behind it.
use retainer.Prelude.{
  ◌≡◌, refl, sym, ap, subst, ◌∙◌, Bool, true, false, Option, none, some, List, [], ◌∷◌, All, arith,
  inl, inr, ◌⊎◌, Bool-cases, if◌then◌else◌,
}
use retainer.Prelude.Text.{Text}
use retainer.Prelude.Int.{ℤ}
use retainer.Migrations.{
  contains, Sqlite, Migration, Connection, Migrated, done, failed, applied_versions,
  set_foreign_keys, check_keys, record_version, commit_script, apply_migration, and_then,
  apply_pending,
}

-- The version is in the table schema_migrations.
pub record Recorded (sqlite : Sqlite) (v : ℤ) (d : sqlite.Database) : Type 0 where
  pub table : sqlite.has_table d ≡ true
  pub row : contains v (sqlite.versions d) ≡ true

-- The INSERT OR IGNORE adds its row to the rows of the table, and no script takes rows from it.
pub record Tracks (sqlite : Sqlite) : Type 0 where
  pub inserts :
      (v : ℤ) (d e : sqlite.Database) → sqlite.insert_version v d ≡ some e → Recorded sqlite v e
  pub insert_keeps :
      (v w : ℤ) (d e : sqlite.Database)
      → sqlite.insert_version v d ≡ some e
      → Recorded sqlite w d
      → Recorded sqlite w e
  pub script_keeps :
      (script : Text) (w : ℤ) (d e : sqlite.Database)
      → sqlite.exec_script script d ≡ some e
      → Recorded sqlite w d
      → Recorded sqlite w e

pub done_injective : {sqlite : Sqlite} {c d : Connection sqlite} → done c ≡ done d → c ≡ d
done_injective h = ground arith

module _ (sqlite : Sqlite) (tracks : Tracks sqlite) where
  -- What a migration that succeeds leaves
  record Step (v : ℤ) (d e : sqlite.Database) (keys : Bool) : Type 0 where
    recorded : Recorded sqlite v e
    pub keeps : (w : ℤ) → Recorded sqlite w d → Recorded sqlite w e
    consistent : sqlite.violated e ≡ false
    enforced : keys ≡ true

  checked :
      (d : sqlite.Database) (c : Connection sqlite)
      → check_keys {sqlite = sqlite} d ≡ done c
      → (sqlite.violated d ≡ false) × (c ≡ record { database = d; foreign_keys = true })
  unfolding check_keys
  checked d c h = elim (Bool-cases (sqlite.violated d)) [
    | inl bad ↦ cc (rw bad at h)
    | inr fine ↦ (fine, sym (done_injective (rw fine at h)))
  ]

  record_version-Step :
      (v : ℤ) (d d1 : sqlite.Database) (c0 c : Connection sqlite) (o : Option sqlite.Database)
      → ((w : ℤ) → Recorded sqlite w d → Recorded sqlite w d1)
      → sqlite.insert_version v d1 ≡ o
      → record_version o c0 ≡ done c
      → Step v d c.database c.foreign_keys
  unfolding record_version
  record_version-Step v d d1 c0 c none keeps inserted h = cc
  record_version-Step v d d1 c0 c (some d2) keeps inserted h =
      let (fine, same) = checked d2 c h in
      subst (λ x. Step v d x.database x.foreign_keys) (sym same)
        (record {
          recorded = tracks.inserts v d1 d2 inserted;
          keeps = λ w r. tracks.insert_keeps v w d1 d2 inserted (keeps w r);
          consistent = fine;
          enforced = refl;
        })

  apply_migration-Step :
      (m : Migration) (c c' : Connection sqlite)
      → apply_migration m c ≡ done c'
      → Step m.version c.database c'.database c'.foreign_keys
  unfolding apply_migration
  apply_migration-Step m c c' h = by_script (sqlite.exec_script m.script c.database) refl h
    where
      by_script :
          (o : Option sqlite.Database)
          → sqlite.exec_script m.script c.database ≡ o
          → commit_script m.version o (set_foreign_keys false c) ≡ done c'
          → Step m.version c.database c'.database c'.foreign_keys
      by_script none e h = cc
      by_script (some d1) e h =
          record_version-Step m.version c.database d1 (set_foreign_keys false c) c'
            (sqlite.insert_version m.version d1)
            (λ w. tracks.script_keeps m.script w c.database d1 e) refl h

  then_done :
      (r : Migrated sqlite) (next : Connection sqlite → Migrated sqlite) (c' : Connection sqlite)
      → and_then r next ≡ done c'
      → (c1 : Connection sqlite) × (r ≡ done c1) × (next c1 ≡ done c')
  unfolding and_then
  then_done (done c1) next c' h = (c1, refl, h)
  then_done (failed x c1) next c' h = cc

  -- A migration that is already applied or has been recorded
  abbrev pub Handled : List ℤ → sqlite.Database → Migration → Type 0
  Handled applied d m = (contains m.version applied ≡ true) ⊎ Recorded sqlite m.version d

  pub record Run (applied : List ℤ) (ms : List Migration) (c c' : Connection sqlite) : Type 0 where
    pub keeps : (w : ℤ) → Recorded sqlite w c.database → Recorded sqlite w c'.database
    pub handled : All (Handled applied c'.database) ms
    pub enforced : c.foreign_keys ≡ true → c'.foreign_keys ≡ true

  -- A migration, and the loop behind it
  extended :
      (applied : List ℤ) (m : Migration) (ms : List Migration) (c c1 c' : Connection sqlite)
      → ((w : ℤ) → Recorded sqlite w c.database → Recorded sqlite w c1.database)
      → Handled applied c1.database m
      → (c.foreign_keys ≡ true → c1.foreign_keys ≡ true)
      → Run applied ms c1 c'
      → Run applied (m ∷ ms) c c'
  extended applied m ms c c1 c' keeps head keys rest = record {
    keeps = λ w r. rest.keeps w (keeps w r);
    handled =
        (elim head [ inl old ↦ inl old | inr new ↦ inr (rest.keeps m.version new) ], rest.handled);
    enforced = λ on. rest.enforced (keys on);
  }

  pub apply_pending-Run :
      (applied : List ℤ) (ms : List Migration) (c c' : Connection sqlite)
      → apply_pending applied ms c ≡ done c'
      → Run applied ms c c'
  unfolding apply_pending
  apply_pending-Run applied [] c c' h =
      subst (Run applied [] c) (done_injective h)
        (record { keeps = λ w r. r; handled = tt; enforced = λ on. on })
  apply_pending-Run applied (m ∷ ms) c c' h =
      let (c1, first, later) =
        then_done (if contains m.version applied then done c else apply_migration m c)
          (apply_pending applied ms) c' h in
      let rest = apply_pending-Run applied ms c1 c' later in
      elim (Bool-cases (contains m.version applied)) [
        | inl old ↦
            let same = done_injective (rw old at first) in
            extended applied m ms c c1 c' (λ w. subst (λ x. Recorded sqlite w x.database) same)
              (inl old) (λ on. ap (λ (x : Connection sqlite). x.foreign_keys) (sym same) ∙ on) rest
        | inr new ↦
            let step = apply_migration-Step m c c1 (rw new at first) in
            extended applied m ms c c1 c' step.keeps (inr step.recorded) (λ on. step.enforced) rest
      ]

  pub skipped :
      (applied : List ℤ) (ms : List Migration) (c : Connection sqlite)
      → All (λ m. contains m.version applied ≡ true) ms
      → apply_pending applied ms c ≡ done c
  unfolding apply_pending and_then
  skipped applied [] c all = refl
  skipped applied (m ∷ ms) c (old, all) =
      ap (λ b. and_then (if b then done c else apply_migration m c) (apply_pending applied ms)) old
      ∙ skipped applied ms c all

  pub Recorded-applied_versions :
      (v : ℤ) (d : sqlite.Database)
      → Recorded sqlite v d
      → contains v (applied_versions sqlite d) ≡ true
  unfolding applied_versions
  Recorded-applied_versions v d r =
      ap (λ b. contains v (if b then sqlite.versions d else [])) r.table ∙ r.row

  pub applied_versions-Recorded :
      (v : ℤ) (d : sqlite.Database)
      → contains v (applied_versions sqlite d) ≡ true
      → Recorded sqlite v d
  unfolding applied_versions contains
  applied_versions-Recorded v d h = elim (Bool-cases (sqlite.has_table d)) [
    | inl there ↦ record { table = there; row = rw there at h }
    | inr absent ↦ cc (rw absent at h)
  ]

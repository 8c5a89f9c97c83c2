-- ===== src/Labels/Apart.antt =====
-- The settings, which the operations on labels do not write.
use retainer.Prelude.{
  ◌≡◌, refl, String, Bool, true, false, ◌||◌, Option, none, some, [], ◌∷◌, if◌then◌else◌,
}
use retainer.Prelude.Text.{Text}
use retainer.Prelude.Int.{ℤ}
use retainer.Schema.{Db, LabelRow}
use retainer.Schema.Table.{find, exists, delete}
use retainer.Store.{Error, Result, ok, err, transact, exec, fail, not_found}
use retainer.Store.Rows.{label_is}
use retainer.Labels.{
  trim_space, named, taken_by_other, insert_label, create_named, create, rename_found, rename_named,
  rename, detach_and_delete, delete_label,
}

-- The settings of what is left are those of `d`.
unfoldable pub Config : {A : Type 0} → Db → Result (A × Db) → Type 0
Config d (ok (a, e)) = e.config ≡ d.config
Config d (err x) = Unit

refused-or :
    {A : Type 0} (c : Bool) (d : Db) (x : Error) (a : A) (e : Db)
    → e.config ≡ d.config
    → Config d (if c then err x else ok (a, e))
unfolding Config
refused-or true d x a e h = tt
refused-or false d x a e h = h

create_named-Config :
    (id : String) (name : Text) (now : ℤ) (d : Db) → Config d (create_named id name now d)
unfolding create_named insert_label Config
create_named-Config id [] now d = tt
create_named-Config id (c ∷ name) now d =
    refused-or (exists (label_is id) d.labels || exists (named (c ∷ name)) d.labels) d
      Error.name_taken _ _ refl

pub create-Config : (id : String) (name : Text) (now : ℤ) (d : Db) → Config d (create id name now d)
unfolding create
create-Config id name now d = create_named-Config id (trim_space name) now d

rename_found-Config :
    (id : String) (name : Text) (o : Option LabelRow) (d : Db) → Config d (rename_found id name o d)
unfolding rename_found Config
rename_found-Config id name none d = tt
rename_found-Config id name (some l) d =
    refused-or (exists (taken_by_other id name) d.labels) d Error.name_taken _ _ refl

rename_named-Config : (id : String) (name : Text) (d : Db) → Config d (rename_named id name d)
unfolding rename_named Config
rename_named-Config id [] d = tt
rename_named-Config id (c ∷ name) d =
    rename_found-Config id (c ∷ name) (find (label_is id) d.labels) d

pub rename-Config : (id : String) (name : Text) (d : Db) → Config d (rename id name d)
unfolding rename
rename-Config id name d = rename_named-Config id (trim_space name) d

pub delete-Config : (id : String) (d : Db) → (delete_label id d).1.config ≡ d.config
unfolding delete_label detach_and_delete
delete-Config id d = left (exists (label_is id) d.labels) _ refl
  where
    left :
        (c : Bool) (detached : Db)
        → detached.config ≡ d.config
        → (transact {A = Unit}
            (λ _.
              if c
              then exec (λ e. record e { labels = delete (label_is id) e.labels }) detached
              else fail not_found detached)
            d).1.config
          ≡ d.config
    left true detached h = h
    left false detached h = refl

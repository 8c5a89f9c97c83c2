-- ===== src/Labels/Tests.antt =====
-- Labels like those of labelsvc_test.go, and witnesses.
use mathlib.Core.List.{Memᴰ}
use retainer.Prelude.{◌≡◌, refl, sym, ap, ◌∙◌, [], ◌∷◌}
use retainer.Prelude.Text.{codes, text_eq, compare_text}
use retainer.Prelude.Int.{pos}
use retainer.Schema.{Db, LabelRow, init}
use retainer.Schema.Table.{find, update, exists}
use retainer.Store.{ok, err, name_taken}
use retainer.Search.{is_space}
use retainer.Labels.{
  create, create_named, insert_label, rename, rename_named, rename_found, trim_left, trim_right,
}
use retainer.Labels.Names.{Unique, create-Unique, rename-Unique}

abbrev work : LabelRow
work = record { id = "w"; name = codes "Work"; created_at = pos 1 }

abbrev labelled : Db
labelled = record init { labels = work ∷ [] }

labelled-Unique : Unique labelled.labels
unfolding Unique
labelled-Unique l k (Memᴰ.head e) (Memᴰ.head f) same = ap (λ r. r.id) (e ∙ sym f)
labelled-Unique l k (Memᴰ.head e) (Memᴰ.tail m) same = elim m [ ]
labelled-Unique l k (Memᴰ.tail m) mk same = elim m [ ]

abbrev home : LabelRow
home = record { id = "h"; name = codes "Home"; created_at = pos 2 }

abbrev two_labels : Db
two_labels = record init { labels = work ∷ home ∷ [] }

home_created : create "h" (codes " Home ") (pos 2) labelled ≡ ok (home, two_labels)
unfolding create create_named insert_label trim_left trim_right is_space exists text_eq compare_text
home_created = refl

work_taken : rename "h" (codes "Work") two_labels ≡ err name_taken
unfolding rename rename_named rename_found trim_left trim_right is_space exists find text_eq
    compare_text
work_taken = refl

abbrev office : LabelRow
office = record work { name = codes "Office" }

abbrev renamed : Db
renamed = record init { labels = office ∷ home ∷ [] }

office_name_set : rename "w" (codes "Office") two_labels ≡ ok (office, renamed)
unfolding rename rename_named rename_found trim_left trim_right is_space exists find update text_eq
    compare_text
office_name_set = refl

rename-Unique_example : Unique renamed.labels
rename-Unique_example =
    rename-Unique "w" (codes "Office") office two_labels renamed
      (create-Unique "h" (codes " Home ") (pos 2) home labelled two_labels labelled-Unique
        home_created)
      office_name_set

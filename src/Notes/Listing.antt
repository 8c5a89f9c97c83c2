-- ===== src/Notes/Listing.antt =====
-- What the listing holds, and how it agrees with the reading of one note and with the index.
use mathlib.Core.HLevel.{¬_prop}
use mathlib.Core.List.{Memᴰ, Perm, Pairwise, map-map}
use mathlib.Core.List.Perm
use mathlib.Core.List.Pairwise
use retainer.Prelude.{
  ◌≡◌, refl, sym, ap, subst, ◌∙◌, String, Bool, true, false, Option, none, some, List, map, arith,
  inl, inr, str_eq, eq_iff, Bool-cases, Option-cases, Ordering,
}
use retainer.Prelude.Text.{Text, ◌≺◌, ◌≼◌, compare_text, ≼-of_lt, ≼-of_not_lt, ≼-trans}
use retainer.Schema.{Db, NoteRow, Note, ChecklistItem, scan_note}
use retainer.Schema.Table.{select, find, order_by, find-test}
use retainer.Schema.Members.{find-Mem, order_by-Mem, some_injective}
use retainer.Schema.Sorting.{
  order_by-perm, order_by-Pairwise, Mem-order_by, find-only, find-nowhere, find-map,
}
use retainer.Store.Rows.{note_is, find_note}
use retainer.Search.{item_before}
use retainer.Purge.Retained.{HasKeys}
use retainer.Notes.{
  scan_listed, listed_item, items_for_note, complete, note_before, list_notes, get_found, get,
}

-- `ORDER BY` a text that is read off the row
module _ {A : Type 0} (position : A → Text) where
  abbrev ascending : A → A → Bool
  ascending r s = elim (compare_text (position r) (position s)) [ Ordering.lt ↦ true | _ ↦ false ]

  ascending_lt : (r s : A) → ascending r s ≡ true → position r ≺ position s
  ascending_lt r s h = ground arith

  not_ascending : (r s : A) → ascending r s ≡ false → ¬ (position r ≺ position s)
  not_ascending r s h = ground arith

  ordered : (rows : List A) → Pairwise (λ r s. position r ≼ position s) (order_by ascending rows)
  ordered =
      order_by-Pairwise ascending (λ r s. position r ≼ position s) (λ r s. ¬_prop)
        (λ r s h. ≼-of_lt (position r) (position s) (ascending_lt r s h))
        (λ r s h. ≼-of_not_lt (position r) (position s) (not_ascending r s h))
        λ r s t. ≼-trans (position r) (position s) (position t)

-- A list of items as `itemsForNote` is to give it: those of the note that are not deleted, each as
-- often as the table has it, in ascending positions.
pub record ItemsOf (id : String) (d : Db) (items : List ChecklistItem) : Type 0 where
  pub same : Perm items (map scan_listed (select (listed_item id) d.items))
  pub sorted : Pairwise (λ (i : ChecklistItem) j. i.position ≼ j.position) items

pub items_for_note-ItemsOf : (id : String) (d : Db) → ItemsOf id d (items_for_note id d)
unfolding items_for_note scan_listed
items_for_note-ItemsOf id d = record {
  same = Perm.map scan_listed (order_by-perm item_before (select (listed_item id) d.items));
  sorted =
      Pairwise.map (λ i j. ¬_prop) scan_listed (λ i j h. h)
        (ordered (λ i. i.position) (select (listed_item id) d.items));
}

pub record Snapshot (d : Db) (notes : List Note) : Type 0 where
  pub all : Perm notes (map (λ n. complete d (scan_note n)) d.notes)
  pub sorted : Pairwise (λ (n : Note) m. m.position ≼ n.position) notes
  pub items : (n : Note) → Memᴰ n notes → ItemsOf n.id d n.items

abbrev pub has_id : String → Note → Bool
has_id id n = str_eq n.id id

find_sorted :
    (id : String) (d : Db)
    → HasKeys d
    → find (note_is id) (order_by note_before d.notes) ≡ find_note id d
find_sorted id d keys = elim (Option-cases (find_note id d)) [
  | inl absent ↦
      find-nowhere (note_is id) (order_by note_before d.notes) (λ n m.
        elim (Bool-cases (note_is id n)) [ inl hit ↦ cc (at n m hit, absent) | inr miss ↦ miss ])
      ∙ sym absent
  | inr (r, found) ↦
      find-only (note_is id) (order_by note_before d.notes) r
        (find-test (note_is id) d.notes r found)
        (order_by-Mem note_before d.notes r (find-Mem (note_is id) d.notes r found))
        (λ n m hit. some_injective (sym (at n m hit) ∙ found))
      ∙ sym found
]
  where
    at :
        (n : NoteRow)
        → Memᴰ n (order_by note_before d.notes)
        → note_is id n ≡ true
        → find_note id d ≡ some n
    at n m hit =
        subst (λ i. find_note i d ≡ some n) ((eq_iff n.id id).0 hit)
          (keys.key n (Mem-order_by note_before d.notes n m))

get_found_lem :
    (d : Db) (o : Option NoteRow)
    → get_found d o ≡ elim o [ none ↦ none | some n ↦ some (complete d (scan_note n)) ]
unfolding get_found
get_found_lem d none = refl
get_found_lem d (some n) = refl

-- Where `id` is the key of the table of notes, the note that the listing has under an id is the one that Get
-- reads, with the same items and labels, and Get finds none just where the listing has none.
pub find-list_notes :
    (id : String) (d : Db) → HasKeys d → find (has_id id) (list_notes d) ≡ get id d
unfolding list_notes get complete scan_note
find-list_notes id d keys =
    ap (find (has_id id)) (map-map (complete d) scan_note (order_by note_before d.notes))
    ∙ find-map (has_id id) (λ n. complete d (scan_note n)) (order_by note_before d.notes)
    ∙ rw (find_sorted id d keys) (sym (get_found_lem d (find_note id d)))

-- ===== src/Notes/Tests.antt =====
-- A listing of two notes, one of them a checklist, and witnesses.
use mathlib.Core.List.{Memᴰ}
use retainer.Prelude.{◌≡◌, refl, sym, subst, String, true, false, some, List, [], ◌∷◌, ◌++◌, map}
use retainer.Prelude.Text.{codes, compare_text, text_eq}
use retainer.Prelude.Int.{pos}
use retainer.Schema.{Db, NoteRow, ItemRow, Note, init, scan_note}
use retainer.Schema.Table.{find, select, delete, order_by}
use retainer.Store.{ok}
use retainer.Store.Rows.{find_note, fts_of}
use retainer.Search.{join, reindex_note}
use retainer.Sync.Notes.{new_note}
use retainer.Notes.{
  list_notes, get, get_found, complete, items_for_note, label_ids_for_note, scan_listed,
}
use retainer.Notes.Listing.{has_id, find-list_notes}
use retainer.Notes.Indexed.{shown_rows, reindex_note-get}

abbrev list_row : NoteRow
list_row = record (new_note "list" (pos 0) 1) { kind = codes "checklist"; position = codes "a" }

abbrev text_row : NoteRow
text_row = record (new_note "text" (pos 0) 2) { position = codes "b" }

abbrev item : ItemRow
item = record {
  id = "second";
  note_id = "list";
  text = codes "milk";
  checked = false;
  deleted = false;
  position = codes "V";
  field_clocks = [];
  server_seq = 3;
}

abbrev sample : Db
sample = record init {
  notes = list_row ∷ text_row ∷ [];
  items =
      item
      ∷ record item { id = "gone"; deleted = true }
      ∷ record item { id = "first"; position = codes "K" }
      ∷ [];
  note_labels =
      record {
        note_id = "list";
        label_id = "l";
        attached = true;
        hlc = codes "1-a";
        server_seq = 4;
      }
      ∷ [];
  counter = 4;
}

abbrev ids : Note → String × List String × List String
ids n = (n.id, map (λ i. i.id) n.items, n.label_ids)

listed_ids :
    map ids (list_notes sample)
    ≡ ("text", [], []) ∷ ("list", "first" ∷ "second" ∷ [], "l" ∷ []) ∷ []
unfolding list_notes complete items_for_note label_ids_for_note scan_listed scan_note order_by
    select compare_text new_note
listed_ids = refl

sample_key : (n : NoteRow) → Memᴰ n sample.notes → find_note n.id sample ≡ some n
unfolding find new_note
sample_key n (Memᴰ.head e) = subst (λ x. find_note x.id sample ≡ some x) (sym e) refl
sample_key n (Memᴰ.tail (Memᴰ.head e)) = subst (λ x. find_note x.id sample ≡ some x) (sym e) refl
sample_key n (Memᴰ.tail (Memᴰ.tail m)) = elim m [ ]

find-list_notes_example : find (has_id "list") (list_notes sample) ≡ get "list" sample
find-list_notes_example = find-list_notes "list" sample (record { key = sample_key })

reindex_note-get_example :
    reindex_note "list" sample
    ≡ ok (
      tt,
      record sample { fts = delete (fts_of "list") sample.fts ++ shown_rows (get "list" sample) },
    )
reindex_note-get_example = reindex_note-get "list" sample

-- The two items that are not deleted, a line each
indexed_text : map (λ f. f.content_blob) (shown_rows (get "list" sample)) ≡ codes "milk\nmilk" ∷ []
unfolding join text_eq get get_found find complete items_for_note scan_listed scan_note order_by
    select compare_text new_note
indexed_text = refl

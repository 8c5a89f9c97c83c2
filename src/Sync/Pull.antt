-- ===== src/Sync/Pull.antt =====
-- `loadChanges` and its three queries: the rows above a sequence number, in its order.
use retainer.Prelude.{ℕ, String, Bool, List, map, ltb}
use retainer.Schema.{Db, NoteLabelRow, Note, ChecklistItem, scan_note, scan_item}
use retainer.Schema.Table.{select, order_by}
use retainer.Store.{Tx, pure, query, ◌>>=◌}

pub record NoteLabelChange : Type 0 where
  pub note_id : String
  pub label_id : String
  pub attached : Bool
  pub server_seq : ℕ

pub record Changes : Type 0 where
  pub notes : List Note
  pub items : List ChecklistItem
  pub note_labels : List NoteLabelChange

unfoldable pub scan_note_label : NoteLabelRow → NoteLabelChange
scan_note_label l = record {
  note_id = l.note_id;
  label_id = l.label_id;
  attached = l.attached;
  server_seq = l.server_seq;
}

-- WHERE server_seq > ? ORDER BY server_seq ASC
unfoldable pub changed_since {ℓ} : {A : Type ℓ} → (A → ℕ) → ℕ → List A → List A
changed_since seq since rows =
    order_by (λ a b. ltb (seq a) (seq b)) (select (λ r. ltb since (seq r)) rows)

-- `loadChangedNotes`
unfoldable pub load_changed_notes : ℕ → Db → List Note
load_changed_notes since db = map scan_note (changed_since (λ n. n.server_seq) since db.notes)

-- `loadChangedItems`
unfoldable pub load_changed_items : ℕ → Db → List ChecklistItem
load_changed_items since db = map scan_item (changed_since (λ i. i.server_seq) since db.items)

-- `loadChangedNoteLabels`
unfoldable pub load_changed_note_labels : ℕ → Db → List NoteLabelChange
load_changed_note_labels since db =
    map scan_note_label (changed_since (λ l. l.server_seq) since db.note_labels)

-- `loadChanges`
unfoldable pub load_changes : ℕ → Tx Changes
load_changes since = do
  notes ← query (load_changed_notes since)
  items ← query (load_changed_items since)
  note_labels ← query (load_changed_note_labels since)
  pure (record { notes = notes; items = items; note_labels = note_labels })

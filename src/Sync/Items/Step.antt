-- ===== src/Sync/Items/Step.antt =====
-- What an item mutation that succeeded has done to the database: one of three things.
use retainer.Prelude.{
  ◌+◌, ◌≡◌, refl, String, Bool, true, false, inl, inr, Option, none, some, List, [], ◌∷◌, ◌++◌,
  arith, str_eq, Bool-cases, if◌then◌else◌,
}
use retainer.Schema.{Db, ItemRow}
use retainer.Schema.Table.{update}
use retainer.Store.{Result, ok, pure, missing_id, missing_note_id, next_server_seq}
use retainer.Store.Rows.{item_is, find_item, update_item}
use retainer.Store.Inversion.{bind_lift-eq-ok, if_fail-eq-ok, insert_item-eq-ok}
use retainer.Search.{reindex_note}
use retainer.Search.Reindex.{reindexed, reindex_note-eq-ok}
use retainer.Sync.Wire.{Mutation, ItemColumn, Value, item_field_columns, coerced_value}
use retainer.Sync.Clocks.{stale}
use retainer.Sync.Items.{
  apply_field_to_item, new_item, is_item_content, create_item, write_item_column, reindexed_note,
  write_item, merge_item, create_or_merge_item, apply_to_item_column, apply_item_mutation,
}

-- The checks in front of the database
pub record ItemAdmitted (m : Mutation) (c : ItemColumn) : Type 0 where
  pub column : item_field_columns m.field ≡ some c
  pub has_id : str_eq m.id "" ≡ false

-- The row that a first mutation inserts
abbrev pub first_item : Mutation → ItemRow → ItemRow
first_item m i = record i { field_clocks = (m.field, m.hlc) ∷ [] }

abbrev pub with_items : Db → List ItemRow → Db
with_items d rows = record d { counter = d.counter + 1; items = rows }

abbrev pub with_index : String → Db → Db
with_index id d = record d { fts = reindexed id d }

abbrev pub written_items : ItemColumn → Mutation → Value → Db → Db
written_items c m v d =
    with_items d (update (item_is m.id) (write_item_column c m (d.counter + 1) v) d.items)

pub data ItemStep (m : Mutation) (d e : Db) : Type 0 where
  discarded :
      (c : ItemColumn)
      → ItemAdmitted m c
      → (i : ItemRow) → find_item m.id d ≡ some i
      → stale i.field_clocks m.field m.hlc ≡ true
      → e ≡ d
      → ItemStep m d e
  created :
      (c : ItemColumn)
      → ItemAdmitted m c
      → find_item m.id d ≡ none
      → (i : ItemRow)
      → apply_field_to_item (new_item m.id m.note_id (d.counter + 1)) c m.value ≡ ok i
      → e ≡ with_index m.note_id (with_items d (d.items ++ first_item m i ∷ []))
      → ItemStep m d e
  written :
      (c : ItemColumn)
      → ItemAdmitted m c
      → (i : ItemRow) → find_item m.id d ≡ some i
      → stale i.field_clocks m.field m.hlc ≡ false
      → (v : Value) → coerced_value m.field m.value ≡ ok v
      → e ≡ (
          if is_item_content c
          then with_index (reindexed_note m i) (written_items c m v d)
          else written_items c m v d)
      → ItemStep m d e

result_db : {d e : Db} → ◌≡◌ {A = Result (Unit {0} × Db)} (ok (tt, d)) (ok (tt, e)) → e ≡ d
result_db h = ground arith

abbrev next : Db → Db
next d = record d { counter = d.counter + 1 }

module _ (m : Mutation) (d e : Db) (c : ItemColumn) (adm : ItemAdmitted m c) where
  created_step : find_item m.id d ≡ none → create_item c m d ≡ ok (tt, e) → ItemStep m d e
  unfolding create_item next_server_seq
  created_step absent h =
      let (named, h0) = if_fail-eq-ok (str_eq m.note_id "") missing_note_id _ d h in
      let blank : ItemRow = new_item m.id m.note_id (d.counter + 1) in
      let (i, decoded, h1) = bind_lift-eq-ok (apply_field_to_item blank c m.value) _ (next d) h0 in
      let (on_note, h2) = insert_item-eq-ok (reindex_note m.note_id) (next d) (first_item m i) h1 in
      created c adm absent i decoded (reindex_note-eq-ok m.note_id _ h2)

  after_write :
      (content : Bool) (id : String) (d1 : Db)
      → (if content then reindex_note id else pure tt) d1 ≡ ok (tt, e)
      → e ≡ (if content then with_index id d1 else d1)
  after_write true id d1 h = reindex_note-eq-ok id d1 h
  after_write false id d1 h = ground arith

  written_step :
      (i : ItemRow)
      → find_item m.id d ≡ some i
      → stale i.field_clocks m.field m.hlc ≡ false
      → write_item c m i d ≡ ok (tt, e)
      → ItemStep m d e
  unfolding write_item next_server_seq update_item
  written_step i found fresh h =
      let (v, decoded, h1) = bind_lift-eq-ok (coerced_value m.field m.value) _ (next d) h in
      written c adm i found fresh v decoded
        (after_write (is_item_content c) (reindexed_note m i) (written_items c m v d) h1)

  merged_step :
      (i : ItemRow) → find_item m.id d ≡ some i → merge_item c m i d ≡ ok (tt, e) → ItemStep m d e
  unfolding merge_item
  merged_step i found h = elim (Bool-cases (stale i.field_clocks m.field m.hlc)) [
    | inl old ↦ discarded c adm i found old (result_db (rw old at h))
    | inr fresh ↦ written_step i found fresh (rw fresh at h)
  ]

  found_step :
      (o : Option ItemRow)
      → find_item m.id d ≡ o
      → create_or_merge_item c m o d ≡ ok (tt, e)
      → ItemStep m d e
  unfolding create_or_merge_item
  found_step none f h = created_step f h
  found_step (some i) f h = merged_step i f h

column_step :
    (m : Mutation) (d e : Db) (o : Option ItemColumn)
    → item_field_columns m.field ≡ o
    → apply_to_item_column o m d ≡ ok (tt, e)
    → ItemStep m d e
unfolding apply_to_item_column
column_step m d e none f h = cc
column_step m d e (some c) f h =
    let (has_id, h1) = if_fail-eq-ok (str_eq m.id "") missing_id _ d h in
    found_step m d e c (record { column = f; has_id = has_id }) (find_item m.id d) refl h1

-- A mutation that succeeds has been discarded, or has created the item, or has written its field.
pub item_step : (m : Mutation) (d e : Db) → apply_item_mutation m d ≡ ok (tt, e) → ItemStep m d e
unfolding apply_item_mutation
item_step m d e h = column_step m d e (item_field_columns m.field) refl h

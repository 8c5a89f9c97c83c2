-- ===== src/Sync/Items/Settled.antt =====
-- Item mutations against a database that has their edit or a newer one.
use text.Mathlib.TextPositions.{eq_refl}
use retainer.Prelude.{
  ℕ, ◌+◌, ◌≡◌, refl, sym, ap, ◌∙◌, subst, String, Bool, true, false, some, [], ◌∷◌, ◌++◌, arith,
  str_eq, eq_iff, if◌then◌else◌,
}
use retainer.Schema.{Db, ItemRow}
use retainer.Schema.Table.{find, update, find-test, find-update, find-append}
use retainer.Store.{ok}
use retainer.Store.Rows.{item_is, find_item}
use retainer.Sync.Wire.{RawMessage, Mutation, ItemColumn, Value}
use retainer.Sync.Clocks.{stale, stale-put_self, stale_first, Advanced-put}
use retainer.Sync.Items.{
  apply_field_to_item, new_item, is_item_content, set_item_column, write_item_column,
  reindexed_note, merge_item, create_or_merge_item, apply_to_item_column, apply_item_mutation,
}
use retainer.Sync.Items.Step.{
  ItemAdmitted, ItemStep, discarded, created, written, first_item, with_items, with_index,
  written_items,
}
use retainer.Sync.Progress.{
  Kept, ItemLe, ItemLe-refl, Progress, Progress-refl, Kept-append, Kept-update, Kept-some,
  items_Progress,
}

pub record ItemSettled (m : Mutation) (d : Db) : Type 0 where
  pub column : ItemColumn
  pub admitted : ItemAdmitted m column
  pub row : ItemRow
  pub found : find_item m.id d ≡ some row
  pub old : stale row.field_clocks m.field m.hlc ≡ true

-- A settled mutation is discarded.
pub ItemSettled-apply :
    (m : Mutation) (d : Db) → ItemSettled m d → apply_item_mutation m d ≡ ok (tt, d)
unfolding apply_item_mutation apply_to_item_column create_or_merge_item merge_item
ItemSettled-apply m d s = rw (s.admitted.column, s.admitted.has_id, s.found, s.old)

-- It stays so while the stamps advance.
pub ItemSettled-Progress :
    (m : Mutation) (d e : Db) → ItemSettled m d → Progress d e → ItemSettled m e
ItemSettled-Progress m d e s p =
    let (row, found, le) =
      Kept-some ItemLe s.row (find_item m.id e)
        (subst (λ o. Kept ItemLe o (find_item m.id e)) s.found (p.items m.id)) in
    record {
      column = s.column;
      admitted = s.admitted;
      row = row;
      found = found;
      old = le.clocks m.field m.hlc s.old;
    }

id-apply_field :
    (i : ItemRow) (c : ItemColumn) (raw : RawMessage) {i' : ItemRow}
    → apply_field_to_item i c raw ≡ ok i'
    → i'.id ≡ i.id
unfolding apply_field_to_item
id-apply_field i c raw h = ground arith

pub keys-write_item_column :
    (c : ItemColumn) (m : Mutation) (seq : ℕ) (v : Value) (i : ItemRow)
    → ((write_item_column c m seq v i).id ≡ i.id)
      × (i.note_id ≡ (write_item_column c m seq v i).note_id)
unfolding write_item_column set_item_column
keys-write_item_column c m seq v i = ground arith

written_old :
    (c : ItemColumn) (m : Mutation) (seq : ℕ) (v : Value) (i : ItemRow)
    → stale (write_item_column c m seq v i).field_clocks m.field m.hlc ≡ true
unfolding write_item_column
written_old c m seq v i = stale-put_self m.field m.hlc i.field_clocks

module _ (m : Mutation) (d : Db) (c : ItemColumn) where
  -- The update keeps every item's id, and advances the stamps of the item that it writes.
  ItemLe-write :
      (seq : ℕ) (v : Value) (i : ItemRow)
      → stale i.field_clocks m.field m.hlc ≡ false
      → ItemLe i (write_item_column c m seq v i)
  unfolding write_item_column
  ItemLe-write seq v i fresh = record {
    clocks = Advanced-put m.field m.hlc i.field_clocks fresh;
    same_note = (keys-write_item_column c m seq v i).1;
  }

  same_test :
      (id : String) (seq : ℕ) (v : Value) (r : ItemRow)
      → item_is id (write_item_column c m seq v r) ≡ item_is id r
  same_test id seq v r = ap (λ i. str_eq i id) (keys-write_item_column c m seq v r).0

  -- The only row that the update writes is the one that was found.
  module _ (i : ItemRow) (found : find_item m.id d ≡ some i)
      (fresh : stale i.field_clocks m.field m.hlc ≡ false) where
    one_row : (id : String) (r : ItemRow) → find_item id d ≡ some r → item_is m.id r ≡ true → r ≡ i
    one_row id r at hit =
        let e : id ≡ m.id =
          sym ((eq_iff r.id id).0 (find-test (item_is id) d.items r at))
          ∙ (eq_iff r.id m.id).0 hit in
        let at' : find_item m.id d ≡ some r = subst (λ x. find_item x d ≡ some r) e at in
        cc (at', found)

    written-Kept :
        (seq : ℕ) (v : Value) (id : String)
        → Kept ItemLe
            (find_item id d)
            (find (item_is id) (update (item_is m.id) (write_item_column c m seq v) d.items))
    written-Kept seq v id =
        Kept-update ItemLe ItemLe-refl (item_is id) (item_is m.id) (write_item_column c m seq v)
          d.items (same_test id seq v)
          λ r at hit.
            subst (λ x. ItemLe x (write_item_column c m seq v x)) (sym (one_row id r at hit))
              (ItemLe-write seq v i fresh)

    written-found :
        (seq : ℕ) (v : Value)
        → find (item_is m.id) (update (item_is m.id) (write_item_column c m seq v) d.items)
          ≡ some (write_item_column c m seq v i)
    written-found seq v = rw (
      find-update (item_is m.id) (item_is m.id) (write_item_column c m seq v) d.items
          (same_test m.id seq v),
      found,
      find-test (item_is m.id) d.items i found,
    )

-- Reindexing leaves the rows.
indexed_Progress :
    (d e : Db) (content : Bool) (id : String)
    → Progress d e
    → Progress d (if content then with_index id e else e)
indexed_Progress d e true id p = record {
  counter = p.counter;
  notes = p.notes;
  items = p.items;
  note_labels = p.note_labels;
}
indexed_Progress d e false id p = p

find_item-indexed :
    (id : String) (content : Bool) (n : String) (e : Db)
    → find_item id (if content then with_index n e else e) ≡ find_item id e
find_item-indexed id true n e = refl
find_item-indexed id false n e = refl

-- Every item mutation that succeeds moves the database forward.
pub ItemStep-Progress : (m : Mutation) (d e : Db) → ItemStep m d e → Progress d e
ItemStep-Progress m d e (discarded c adm i found old same) =
    subst (Progress d) (sym same) (Progress-refl d)
ItemStep-Progress m d e (created c adm absent i decoded made) = subst (Progress d) (sym made) (
    indexed_Progress d (with_items d (d.items ++ first_item m i ∷ [])) true m.note_id (
      items_Progress d (with_items d (d.items ++ first_item m i ∷ [])) (omega arith) refl
        (λ id. Kept-append ItemLe ItemLe-refl (item_is id) d.items (first_item m i)) refl))
ItemStep-Progress m d e (written c adm i found fresh v decoded made) =
    subst (Progress d) (sym made) (
      indexed_Progress d (written_items c m v d) (is_item_content c) (reindexed_note m i) (
        items_Progress d (written_items c m v d) (omega arith) refl
          (written-Kept m d c i found fresh (d.counter + 1) v) refl))

-- And leaves the mutation settled.
pub ItemStep-Settled : (m : Mutation) (d e : Db) → ItemStep m d e → ItemSettled m e
unfolding new_item
ItemStep-Settled m d e (discarded c adm i found old same) =
    subst (ItemSettled m) (sym same)
      (record { column = c; admitted = adm; row = i; found = found; old = old })
ItemStep-Settled m d e (created c adm absent i decoded made) =
    subst (ItemSettled m) (sym made) (record {
      column = c;
      admitted = adm;
      row = first_item m i;
      found = rw (
        find-append (item_is m.id) d.items (first_item m i),
        absent,
        id-apply_field (new_item m.id m.note_id (d.counter + 1)) c m.value decoded,
        eq_refl m.id,
      );
      old = stale_first m.field m.hlc;
    })
ItemStep-Settled m d e (written c adm i found fresh v decoded made) =
    subst (ItemSettled m) (sym made) (record {
      column = c;
      admitted = adm;
      row = write_item_column c m (d.counter + 1) v i;
      found =
          find_item-indexed m.id (is_item_content c) (reindexed_note m i) (written_items c m v d)
          ∙ written-found m d c i found fresh (d.counter + 1) v;
      old = written_old c m (d.counter + 1) v i;
    })

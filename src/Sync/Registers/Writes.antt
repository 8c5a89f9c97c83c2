-- ===== src/Sync/Registers/Writes.antt =====
-- A register behind a mutation, and behind the column that the merge writes.
use retainer.Prelude.{
  ℕ, ◌≡◌, refl, sym, ap, subst, ◌∙◌, String, Bool, true, false, ◌&&◌, Option, none, some, arith,
  str_eq, eq_iff, inl, inr, Bool-cases, if◌then◌else◌,
}
use retainer.Prelude.Text.{Text}
use retainer.Prelude.Int.{ℤ}
use retainer.Schema.{NoteRow}
use retainer.Schema.Members.{some_injective}
use retainer.Store.{Result, ok, err}
use retainer.Sync.Wire.{Mutation, NoteColumn, Value, note_field_columns, coerced_value}
use retainer.Sync.Clocks.{lookup, put, stale_against, stale, lookup-put}
use retainer.Sync.Notes.{set_note_column, write_column}
use retainer.Sync.Registers.{
  Register, write, decode_at, write_decoded, concerns, write_one, value_at, register_of,
}
use retainer.Sync.Registers.Columns.{
  column_name, column_name_lem, coerced-decode_at, value_at-set_note_column, value_at_other,
}

-- A stale write loses, and another one wins.
pub write_decoded-stale :
    (h : Text) (v : Result Value) (r : Register)
    → stale_against r.0 h ≡ true
    → write_decoded h v r ≡ r
unfolding write_decoded write stale_against
write_decoded-stale h (ok v) (none, w) s = cc
write_decoded-stale h (ok v) (some last, w) s = rw s refl
write_decoded-stale h (err e) r s = refl

write-fresh :
    (h : Text) (v : Value) (r : Register) → stale_against r.0 h ≡ false → write h v r ≡ (some h, v)
unfolding write stale_against
write-fresh h v (none, w) s = refl
write-fresh h v (some last, w) s = rw s refl

pub value_at-write_column :
    (now : ℤ) (b c : NoteColumn) (m : Mutation) (seq : ℕ) (v : Value) (n : NoteRow)
    → value_at c (write_column now b m seq v n) ≡ value_at c (set_note_column b v n)
unfolding write_column value_at
value_at-write_column now b NoteColumn.kind m seq v n = refl
value_at-write_column now b NoteColumn.title m seq v n = refl
value_at-write_column now b NoteColumn.body m seq v n = refl
value_at-write_column now b NoteColumn.color m seq v n = refl
value_at-write_column now b NoteColumn.pinned m seq v n = refl
value_at-write_column now b NoteColumn.archived m seq v n = refl
value_at-write_column now b NoteColumn.trashed_at m seq v n = refl
value_at-write_column now b NoteColumn.position m seq v n = refl
value_at-write_column now b NoteColumn.archive_position m seq v n = refl

pub both :
    {o : Option Text} {p : Option Text} {v w : Value}
    → o ≡ p
    → v ≡ w
    → ◌≡◌ {A = Register} (o, v) (p, w)
both e f = cc (e, f)

module _ (id field : String) where
  -- The parts of a concerned mutation
  pub concerned : (m : Mutation) → concerns id field m ≡ true → (m.id ≡ id) × (m.field ≡ field)
  concerned m h = (
    (eq_iff m.id id).0 (second (str_eq m.entity "note") (str_eq m.id id) (str_eq m.field field) h),
    (eq_iff m.field field).0
        (third (str_eq m.entity "note") (str_eq m.id id) (str_eq m.field field) h),
  )
    where
      second : (x y z : Bool) → (x && (y && z)) ≡ true → y ≡ true
      second x y z h = ground arith

      third : (x y z : Bool) → (x && (y && z)) ≡ true → z ≡ true
      third x y z h = ground arith

  pub other_entity : (m : Mutation) → str_eq m.entity "note" ≡ false → concerns id field m ≡ false
  other_entity m h = rw h refl

module _ (id field : String) (c : NoteColumn) where
  pub written_hit :
      (m : Mutation) (r : Register)
      → concerns id field m ≡ true
      → write_one id field c m r ≡ write_decoded m.hlc (decode_at c m.value) r
  unfolding write_one
  written_hit m r hit = ap (λ b. if b then write_decoded m.hlc (decode_at c m.value) r else r) hit

  pub written_miss :
      (m : Mutation) (r : Register) → concerns id field m ≡ false → write_one id field c m r ≡ r
  unfolding write_one
  written_miss m r miss =
      ap (λ b. if b then write_decoded m.hlc (decode_at c m.value) r else r) miss

module _ (id field : String) (c : NoteColumn) (column : note_field_columns field ≡ some c) where
  -- The field of the mutation and the register's are the same, if their columns are.
  same_column :
      (m : Mutation) (b : NoteColumn)
      → note_field_columns m.field ≡ some b
      → b ≡ c
      → m.field ≡ field
  same_column m b at same =
      column_name_lem m.field b at ∙ ap column_name same ∙ sym (column_name_lem field c column)

  -- The register of the row that an update has written
  module _ (now : ℤ) (m : Mutation) (b : NoteColumn) (n : NoteRow) (v : Value) (seq : ℕ)
      (at : note_field_columns m.field ≡ some b) where
    pub hit_register :
        concerns id field m ≡ true
        → stale n.field_clocks m.field m.hlc ≡ false
        → coerced_value m.field m.value ≡ ok v
        → register_of field c (write_column now b m seq v n)
          ≡ write_one id field c m (register_of field c n)
    unfolding stale register_of write_column write_decoded
    hit_register hit fresh decoded =
        let (same_id, same_field) = concerned id field m hit in
        let same : b ≡ c = some_injective (sym at ∙ ap note_field_columns same_field ∙ column) in
        let value : decode_at c m.value ≡ ok v =
          sym (coerced-decode_at c m.value)
          ∙ ap (λ f. coerced_value f m.value)
              (sym (column_name_lem field c column) ∙ sym same_field)
          ∙ decoded in
        let newer : stale_against (lookup field n.field_clocks) m.hlc ≡ false =
          subst (λ f. stale_against (lookup f n.field_clocks) m.hlc ≡ false) same_field fresh in
        let stamped : lookup field (put m.field m.hlc n.field_clocks) ≡ some m.hlc =
          rw (lookup-put m.field field m.hlc n.field_clocks, (eq_iff m.field field).1 same_field)
            refl in
        let stored : value_at c (write_column now b m seq v n) ≡ v =
          value_at-write_column now b c m seq v n
          ∙ subst (λ x. value_at c (set_note_column x v n) ≡ v) (sym same)
              (value_at-set_note_column c m.value v n value) in
        both stamped stored
        ∙ sym (
            written_hit id field c m (register_of field c n) hit
            ∙ ap (λ o. write_decoded m.hlc o (register_of field c n)) value
            ∙ write-fresh m.hlc v (register_of field c n) newer)

    missed_register :
        str_eq m.field field ≡ false
        → register_of field c (write_column now b m seq v n) ≡ register_of field c n
    unfolding register_of write_column
    missed_register other =
        let apart : ¬ (b ≡ c) =
          λ same. cc ((eq_iff m.field field).1 (same_column m b at same), other) in
        both (rw (lookup-put m.field field m.hlc n.field_clocks, other) refl)
          (value_at-write_column now b c m seq v n ∙ value_at_other b c v n apart)

    -- The row that the update writes has the register that the mutation makes.
    pub row_register :
        str_eq m.entity "note" ≡ true
        → str_eq m.id id ≡ true
        → stale n.field_clocks m.field m.hlc ≡ false
        → coerced_value m.field m.value ≡ ok v
        → register_of field c (write_column now b m seq v n)
          ≡ write_one id field c m (register_of field c n)
    row_register is_note same_id fresh decoded = elim (Bool-cases (str_eq m.field field)) [
      | inl same ↦ hit_register (rw (is_note, same_id, same) refl) fresh decoded
      | inr other ↦
          missed_register other
          ∙ sym (
              written_miss id field c m (register_of field c n) (rw (is_note, same_id, other) refl))
    ]

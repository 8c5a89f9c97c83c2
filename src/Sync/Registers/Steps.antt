-- ===== src/Sync/Registers/Steps.antt =====
-- One mutation against the register of one field.
use retainer.Prelude.{
  ℕ, ◌+◌, ◌≡◌, refl, sym, ap, subst, ◌∙◌, String, true, false, Option, none, some, [], ◌∷◌, ◌++◌,
  arith, str_eq, eq_iff, inl, inr, Bool-cases, if◌then◌else◌,
}
use retainer.Prelude.Int.{ℤ}
use retainer.Schema.{Db, NoteRow}
use retainer.Schema.Table.{find-append}
use retainer.Store.{ok}
use retainer.Store.Rows.{note_is, find_note}
use retainer.Sync.Wire.{Mutation, NoteColumn, Value, note_field_columns, coerced_value}
use retainer.Sync.Clocks.{lookup, put, stale_against, stale}
use retainer.Sync.Notes.{
  set_note_column, apply_field_to_note, new_note, write_column, is_note_content,
}
use retainer.Sync.Notes.Step.{first_row, with_notes, with_index, written_rows}
use retainer.Sync.Notes.Settled.{id-apply_field}
use retainer.Sync.Registers.{
  decode_at, concerns, write_one, register_in, register_at, value_at, register_of,
}
use retainer.Sync.Registers.Writes.{
  written_hit, written_miss, both, value_at-write_column, concerned, row_register,
  write_decoded-stale,
}
use retainer.Sync.Registers.Lookups.{written_other, written_same, appended_other}
use retainer.Sync.Registers.Columns.{
  value_at-new_note, apply_field-decode_at, column_name_lem, coerced-decode_at,
}

blank_register :
    (id field : String) (now : ℤ) (seq : ℕ) (c : NoteColumn)
    → register_of field c (new_note id now seq) ≡ register_in field c none
unfolding register_of register_in new_note lookup
blank_register id field now seq c = ap (λ v. (none, v)) (value_at-new_note id now seq c)

value_at-first_row :
    (m : Mutation) (c : NoteColumn) (n : NoteRow) → value_at c (first_row m n) ≡ value_at c n
unfolding value_at
value_at-first_row m c n = ground arith

module _ (id field : String) (c : NoteColumn) (column : note_field_columns field ≡ some c) where
  abbrev pub Refines : Mutation → Db → Db → Type 0
  Refines m d e = register_at id field c e ≡ write_one id field c m (register_at id field c d)

  pub same_lookup :
      (m : Mutation) (d e : Db)
      → concerns id field m ≡ false
      → find_note id e ≡ find_note id d
      → Refines m d e
  unfolding register_at
  same_lookup m d e other same =
      ap (register_in field c) same
      ∙ sym (written_miss id field c m (register_at id field c d) other)

  at_row :
      (d : Db) (o : Option NoteRow)
      → find_note id d ≡ o
      → register_at id field c d ≡ register_in field c o
  unfolding register_at
  at_row d o at = ap (register_in field c) at

  other_note : (m : Mutation) → str_eq m.id id ≡ false → concerns id field m ≡ false
  other_note m h = ground (arith)

  pub discarded-Refines :
      (m : Mutation) (n : NoteRow) (d : Db)
      → find_note m.id d ≡ some n
      → stale n.field_clocks m.field m.hlc ≡ true
      → Refines m d d
  unfolding stale register_of register_in
  discarded-Refines m n d found old = elim (Bool-cases (concerns id field m)) [
    | inl hit ↦
        let (same_id, same_field) = concerned id field m hit in
        let at = at_row d (some n) (subst (λ i. find_note i d ≡ some n) same_id found) in
        let lost =
          subst (λ f. stale_against (lookup f n.field_clocks) m.hlc ≡ true) same_field old in
        at
        ∙ sym (
            ap (write_one id field c m) at
            ∙ written_hit id field c m (register_of field c n) hit
            ∙ write_decoded-stale m.hlc (decode_at c m.value) (register_of field c n) lost)
    | inr other ↦ same_lookup m d d other refl
  ]

  pub written-Refines :
      (now : ℤ) (m : Mutation) (b : NoteColumn) (n : NoteRow) (v : Value) (d : Db)
      → note_field_columns m.field ≡ some b
      → str_eq m.entity "note" ≡ true
      → find_note m.id d ≡ some n
      → stale n.field_clocks m.field m.hlc ≡ false
      → coerced_value m.field m.value ≡ ok v
      → Refines m d (
          if is_note_content b
          then with_index m.id (written_rows now b m v d)
          else written_rows now b m v d)
  unfolding register_in
  written-Refines now m b n v d at is_note found fresh decoded =
      elim (Bool-cases (str_eq m.id id)) [
        | inl same ↦
            let e = (eq_iff m.id id).0 same in
            at_row _ (some (write_column now b m (d.counter + 1) v n)) (
              subst
                (λ i.
                  find_note i (
                    if is_note_content b
                    then with_index m.id (written_rows now b m v d)
                    else written_rows now b m v d)
                  ≡ some (write_column now b m (d.counter + 1) v n))
                e (written_same now m b v d n found))
            ∙ row_register id field c column now m b n v (d.counter + 1) at is_note same fresh
                decoded
            ∙ sym (
                ap (write_one id field c m)
                  (at_row d (some n) (subst (λ i. find_note i d ≡ some n) e found)))
        | inr other ↦
            same_lookup m d _ (other_note m other)
              (written_other id now m b v d (find_note id d) refl other)
      ]

  -- The inserted row has the stamps and the value that the same edit of the defaults would have.
  first_register :
      (now : ℤ) (m : Mutation) (b : NoteColumn) (seq : ℕ) (v : Value)
      → register_of field c (first_row m (set_note_column b v (new_note m.id now seq)))
        ≡ register_of field c (write_column now b m seq v (new_note m.id now seq))
  unfolding register_of write_column put new_note
  first_register now m b seq v =
      let blank : NoteRow = new_note m.id now seq in
      both refl (
        value_at-first_row m c (set_note_column b v blank)
        ∙ sym (value_at-write_column now b c m seq v blank))

  blank_fresh :
      (now : ℤ) (m : Mutation) (seq : ℕ)
      → stale (new_note m.id now seq).field_clocks m.field m.hlc ≡ false
  unfolding stale new_note lookup stale_against
  blank_fresh now m seq = refl

  inserted :
      (m : Mutation) (n : NoteRow) (d : Db)
      → n.id ≡ m.id
      → find_note m.id d ≡ none
      → m.id ≡ id
      → find_note id (with_index m.id (with_notes d (d.notes ++ first_row m n ∷ [])))
        ≡ some (first_row m n)
  inserted m n d made_id absent same =
      find-append (note_is id) d.notes (first_row m n)
      ∙ rw (subst (λ i. find_note i d ≡ none) same absent, (eq_iff n.id id).1 (made_id ∙ same)) refl

  pub created-Refines :
      (now : ℤ) (m : Mutation) (b : NoteColumn) (n : NoteRow) (d : Db)
      → note_field_columns m.field ≡ some b
      → str_eq m.entity "note" ≡ true
      → find_note m.id d ≡ none
      → apply_field_to_note (new_note m.id now (d.counter + 1)) b m.value ≡ ok n
      → Refines m d (with_index m.id (with_notes d (d.notes ++ first_row m n ∷ [])))
  unfolding register_in new_note
  created-Refines now m b n d at is_note absent made =
      let blank : NoteRow = new_note m.id now (d.counter + 1) in
      let made_id : n.id ≡ m.id = id-apply_field blank b m.value made in
      let (v, decoded, row) = apply_field-decode_at blank b m.value made in
      let coerced : coerced_value m.field m.value ≡ ok v =
        ap (λ f. coerced_value f m.value) (column_name_lem m.field b at)
        ∙ coerced-decode_at b m.value
        ∙ decoded in
      elim (Bool-cases (str_eq m.id id)) [
        | inl same ↦
            at_row _ (some (first_row m n))
              (inserted m n d made_id absent ((eq_iff m.id id).0 same))
            ∙ ap (λ (x : NoteRow). register_of field c (first_row m x)) row
            ∙ first_register now m b (d.counter + 1) v
            ∙ row_register id field c column now m b blank v (d.counter + 1) at is_note same
                (blank_fresh now m (d.counter + 1)) coerced
            ∙ sym (
                ap (write_one id field c m) (
                  at_row d none (subst (λ i. find_note i d ≡ none) ((eq_iff m.id id).0 same) absent)
                  ∙ sym (blank_register m.id field now (d.counter + 1) c)))
        | inr other ↦
            same_lookup m d _ (other_note m other)
              (appended_other id (first_row m n) d (ap (λ i. str_eq i id) made_id ∙ other))
      ]

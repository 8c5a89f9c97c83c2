-- ===== src/Sync/Attachments/Step.antt =====
-- What a label mutation that succeeded has done to the database: one of three things.
use retainer.Prelude.{
  ℕ, ◌+◌, ◌≡◌, refl, Bool, true, false, not, ◌||◌, Option, none, some, List, [], ◌∷◌, ◌++◌, arith,
  str_eq, Bool-cases, inl, inr,
}
use retainer.Schema.{Db, NoteLabelRow}
use retainer.Schema.Table.{update}
use retainer.Store.{Result, ok, unknown_field, missing_label_id, next_server_seq}
use retainer.Store.Rows.{attachment_is, find_attachment, update_attachment}
use retainer.Store.Inversion.{bind_lift-eq-ok, if_fail-eq-ok, insert_attachment-eq-ok}
use retainer.Sync.Wire.{Mutation, decode_bool}
use retainer.Sync.Clocks.{not_after}
use retainer.Sync.Attachments.{
  create_attachment, write_attached, write_attachment, create_or_merge_attachment,
  apply_note_label_mutation,
}

-- The checks in front of the database
pub record LabelAdmitted (m : Mutation) (attached : Bool) : Type 0 where
  pub field_ok : not (str_eq m.field "attached") ≡ false
  pub has_ids : (str_eq m.note_id "" || str_eq m.label_id "") ≡ false
  pub decoded : decode_bool m.value ≡ ok attached

abbrev pub with_labels : Db → List NoteLabelRow → Db
with_labels d rows = record d { counter = d.counter + 1; note_labels = rows }

abbrev pub first_attachment : Mutation → Bool → ℕ → NoteLabelRow
first_attachment m attached seq = record {
  note_id = m.note_id;
  label_id = m.label_id;
  attached = attached;
  hlc = m.hlc;
  server_seq = seq;
}

pub data LabelStep (m : Mutation) (d e : Db) : Type 0 where
  discarded :
      (b : Bool)
      → LabelAdmitted m b
      → (l : NoteLabelRow) → find_attachment m.note_id m.label_id d ≡ some l
      → not_after m.hlc l.hlc ≡ true
      → e ≡ d
      → LabelStep m d e
  created :
      (b : Bool)
      → LabelAdmitted m b
      → find_attachment m.note_id m.label_id d ≡ none
      → e ≡ with_labels d (d.note_labels ++ first_attachment m b (d.counter + 1) ∷ [])
      → LabelStep m d e
  written :
      (b : Bool)
      → LabelAdmitted m b
      → (l : NoteLabelRow) → find_attachment m.note_id m.label_id d ≡ some l
      → not_after m.hlc l.hlc ≡ false
      → e
        ≡ with_labels d (
            update
              (attachment_is m.note_id m.label_id)
              (write_attached m b (d.counter + 1))
              d.note_labels)
      → LabelStep m d e

result_db : {d e : Db} → ◌≡◌ {A = Result (Unit {0} × Db)} (ok (tt, d)) (ok (tt, e)) → e ≡ d
result_db h = ground arith

module _ (m : Mutation) (d e : Db) (b : Bool) (adm : LabelAdmitted m b) where
  found_step :
      (o : Option NoteLabelRow)
      → find_attachment m.note_id m.label_id d ≡ o
      → create_or_merge_attachment m b o d ≡ ok (tt, e)
      → LabelStep m d e
  unfolding create_or_merge_attachment create_attachment write_attachment next_server_seq
      update_attachment
  found_step none f h =
      let (x, y, made) =
        insert_attachment-eq-ok (first_attachment m b (d.counter + 1))
          (record d { counter = d.counter + 1 }) e h in
      created b adm f made
  found_step (some l) f h = elim (Bool-cases (not_after m.hlc l.hlc)) [
    | inl old ↦ discarded b adm l f old (result_db (rw old at h))
    | inr fresh ↦ written b adm l f fresh (result_db (rw fresh at h))
  ]

-- A mutation that succeeds has been discarded, or has attached the label first, or has written it.
pub label_step :
    (m : Mutation) (d e : Db) → apply_note_label_mutation m d ≡ ok (tt, e) → LabelStep m d e
unfolding apply_note_label_mutation
label_step m d e h =
    let (field_ok, h1) = if_fail-eq-ok (not (str_eq m.field "attached")) unknown_field _ d h in
    let (has_ids, h2) =
      if_fail-eq-ok (str_eq m.note_id "" || str_eq m.label_id "") missing_label_id _ d h1 in
    let (b, decoded, h3) = bind_lift-eq-ok (decode_bool m.value) _ d h2 in
    found_step m d e b (record { field_ok = field_ok; has_ids = has_ids; decoded = decoded })
      (find_attachment m.note_id m.label_id d) refl h3

-- ===== src/Sync/Attachments/Settled.antt =====
-- Label mutations against a database that has their edit or a newer one.
use text.Mathlib.TextPositions.{eq_refl}
use retainer.Prelude.{ℕ, ◌+◌, ◌≡◌, refl, sym, subst, String, Bool, true, false, some, arith, eq_iff}
use retainer.Schema.{Db, NoteLabelRow}
use retainer.Schema.Table.{find, update, find-test, find-update, find-append}
use retainer.Store.{ok}
use retainer.Store.Rows.{attachment_is, find_attachment}
use retainer.Sync.Wire.{Mutation}
use retainer.Sync.Clocks.{not_after, not_after_refl, not_after_trans, not_after_total}
use retainer.Sync.Attachments.{
  write_attached, create_or_merge_attachment, apply_note_label_mutation,
}
use retainer.Sync.Progress.{
  Kept, LabelLe, LabelLe-refl, Progress, Progress-refl, Kept-append, Kept-update, Kept-some,
  labels_Progress,
}
use retainer.Sync.Attachments.Step.{
  LabelAdmitted, LabelStep, discarded, created, written, first_attachment,
}

pub record LabelSettled (m : Mutation) (d : Db) : Type 0 where
  pub attached : Bool
  pub admitted : LabelAdmitted m attached
  pub row : NoteLabelRow
  pub found : find_attachment m.note_id m.label_id d ≡ some row
  pub old : not_after m.hlc row.hlc ≡ true

-- A settled mutation is discarded.
pub LabelSettled-apply :
    (m : Mutation) (d : Db) → LabelSettled m d → apply_note_label_mutation m d ≡ ok (tt, d)
unfolding apply_note_label_mutation create_or_merge_attachment
LabelSettled-apply m d s =
    rw (s.admitted.field_ok, s.admitted.has_ids, s.admitted.decoded, s.found, s.old)

-- It stays so while the stamps advance.
pub LabelSettled-Progress :
    (m : Mutation) (d e : Db) → LabelSettled m d → Progress d e → LabelSettled m e
LabelSettled-Progress m d e s p =
    let (row, found, le) = Kept-some LabelLe s.row (find_attachment m.note_id m.label_id e) (
      subst (λ o. Kept LabelLe o (find_attachment m.note_id m.label_id e)) s.found
        (p.note_labels m.note_id m.label_id)) in
    record {
      attached = s.attached;
      admitted = s.admitted;
      row = row;
      found = found;
      old = le.newer m.hlc s.old;
    }

-- Two rows that pass the tests of one attachment's key have one key.
same_key :
    (n l a b : String) (r : NoteLabelRow)
    → attachment_is n l r ≡ true
    → attachment_is a b r ≡ true
    → (n ≡ a) × (l ≡ b)
same_key n l a b r h k =
    ground (arith, eq_iff r.note_id n, eq_iff r.note_id a, eq_iff r.label_id l, eq_iff r.label_id b)

module _ (m : Mutation) (d : Db) (b : Bool) where
  LabelLe-write :
      (seq : ℕ) (l : NoteLabelRow)
      → not_after m.hlc l.hlc ≡ false
      → LabelLe l (write_attached m b seq l)
  unfolding write_attached
  LabelLe-write seq l fresh = record {
    newer = λ h s. not_after_trans h l.hlc m.hlc s (not_after_total m.hlc l.hlc fresh);
  }

  same_test :
      (n l : String) (seq : ℕ) (r : NoteLabelRow)
      → attachment_is n l (write_attached m b seq r) ≡ attachment_is n l r
  unfolding write_attached
  same_test n l seq r = refl

  -- The only row that the update writes is the one that was found.
  module _ (row : NoteLabelRow) (found : find_attachment m.note_id m.label_id d ≡ some row)
      (fresh : not_after m.hlc row.hlc ≡ false) where
    one_row :
        (n l : String) (r : NoteLabelRow)
        → find_attachment n l d ≡ some r
        → attachment_is m.note_id m.label_id r ≡ true
        → r ≡ row
    one_row n l r at hit =
        let (p, q) =
          same_key n l m.note_id m.label_id r (find-test (attachment_is n l) d.note_labels r at)
            hit in
        let at' : find_attachment m.note_id m.label_id d ≡ some r =
          subst (λ x. find_attachment x m.label_id d ≡ some r) p
            (subst (λ x. find_attachment n x d ≡ some r) q at) in
        cc (at', found)

    written-Kept :
        (seq : ℕ) (n l : String)
        → Kept LabelLe (find_attachment n l d) (
            find
              (attachment_is n l)
              (update (attachment_is m.note_id m.label_id) (write_attached m b seq) d.note_labels))
    written-Kept seq n l =
        Kept-update LabelLe LabelLe-refl (attachment_is n l) (attachment_is m.note_id m.label_id)
          (write_attached m b seq) d.note_labels (same_test n l seq)
          λ r at hit.
            subst (λ x. LabelLe x (write_attached m b seq x)) (sym (one_row n l r at hit))
              (LabelLe-write seq row fresh)

    written-found :
        (seq : ℕ)
        → find
            (attachment_is m.note_id m.label_id)
            (update (attachment_is m.note_id m.label_id) (write_attached m b seq) d.note_labels)
          ≡ some (write_attached m b seq row)
    written-found seq = rw (
      find-update (attachment_is m.note_id m.label_id) (attachment_is m.note_id m.label_id)
          (write_attached m b seq) d.note_labels (same_test m.note_id m.label_id seq),
      found,
      find-test (attachment_is m.note_id m.label_id) d.note_labels row found,
    )

-- Every label mutation that succeeds moves the database forward.
pub LabelStep-Progress : (m : Mutation) (d e : Db) → LabelStep m d e → Progress d e
LabelStep-Progress m d e (discarded b adm l found old same) =
    subst (Progress d) (sym same) (Progress-refl d)
LabelStep-Progress m d e (created b adm absent made) = subst (Progress d) (sym made) (
    labels_Progress d _ (omega arith) refl refl (λ n l.
      Kept-append LabelLe LabelLe-refl (attachment_is n l) d.note_labels
        (first_attachment m b (d.counter + 1))))
LabelStep-Progress m d e (written b adm l found fresh made) =
    subst (Progress d) (sym made) (
      labels_Progress d _ (omega arith) refl refl
        (written-Kept m d b l found fresh (d.counter + 1)))

-- And leaves the mutation settled.
pub LabelStep-Settled : (m : Mutation) (d e : Db) → LabelStep m d e → LabelSettled m e
unfolding write_attached
LabelStep-Settled m d e (discarded b adm l found old same) =
    subst (LabelSettled m) (sym same)
      (record { attached = b; admitted = adm; row = l; found = found; old = old })
LabelStep-Settled m d e (created b adm absent made) = subst (LabelSettled m) (sym made) (record {
  attached = b;
  admitted = adm;
  row = first_attachment m b (d.counter + 1);
  found = rw (
    find-append (attachment_is m.note_id m.label_id) d.note_labels
        (first_attachment m b (d.counter + 1)),
    absent,
    eq_refl m.note_id,
    eq_refl m.label_id,
  );
  old = not_after_refl m.hlc;
})
LabelStep-Settled m d e (written b adm l found fresh made) =
    subst (LabelSettled m) (sym made) (record {
      attached = b;
      admitted = adm;
      row = write_attached m b (d.counter + 1) l;
      found = written-found m d b l found fresh (d.counter + 1);
      old = not_after_refl m.hlc;
    })

-- ===== src/Sync/Delta.antt =====
-- The rows that have changed between two databases, by their sequence numbers.
pub mod Steps
pub mod Answer
use retainer.Prelude.{
  ℕ, ◌+◌, ◌≤◌, ◌<◌, ◌≡◌, refl, String, Bool, true, false, Option, none, some, List, [], ◌∷◌, ◌++◌,
  arith, ◌⊎◌, inl, inr, sym, subst, ◌∙◌, Option-cases, Bool-cases, if◌then◌else◌,
}
use retainer.Prelude.Int.{ℤ}
use retainer.Schema.{Db, NoteRow, ItemRow, NoteLabelRow}
use retainer.Schema.Table.{find, update, find-update, find-append}
use retainer.Store.Rows.{note_is, find_note, item_is, find_item, attachment_is, find_attachment}
use retainer.Sync.Wire.{Mutation, NoteColumn, ItemColumn, Value}
use retainer.Sync.Notes.{apply_field_to_note, new_note, write_column, set_note_column}
use retainer.Sync.Notes.Step.{NoteStep, first_row, with_notes, with_index, written_rows}
use retainer.Sync.Items.{apply_field_to_item, new_item, write_item_column, set_item_column}
use retainer.Sync.Items.Step as Items
use retainer.Sync.Attachments.{write_attached}

-- A row that is looked up now is the one that was there, or has a number above `k`.
abbrev pub Newer : {A : Type 0} → (A → ℕ) → ℕ → Option A → Option A → Type 0
Newer {A = A} seq k old new = (r : A) → new ≡ some r → (old ≡ some r) ⊎ (k < seq r)

pub record Fresh (d e : Db) : Type 0 where
  pub counter : d.counter ≤ e.counter
  pub notes :
      (id : String)
      → Newer (λ (n : NoteRow). n.server_seq) d.counter (find_note id d) (find_note id e)
  pub items :
      (id : String)
      → Newer (λ (i : ItemRow). i.server_seq) d.counter (find_item id d) (find_item id e)
  pub note_labels :
      (n l : String)
      → Newer
          (λ (a : NoteLabelRow). a.server_seq)
          d.counter
          (find_attachment n l d)
          (find_attachment n l e)

some_injective : {A : Type 0} {a b : A} → some a ≡ some b → a ≡ b
some_injective h = ground arith

module _ {A : Type 0} (seq : A → ℕ) (k : ℕ) where
  pub Newer-refl : (o : Option A) → Newer seq k o o
  Newer-refl o r h = inl h

  pub Newer-trans :
      (j : ℕ) (o p q : Option A) → k ≤ j → Newer seq k o p → Newer seq j p q → Newer seq k o q
  Newer-trans j o p q le h g r e = elim (g r e) [ inl at ↦ h r at | inr above ↦ inr (omega arith) ]

  pub Newer-append :
      (q : A → Bool) (rows : List A) (r : A)
      → k < seq r
      → Newer seq k (find q rows) (find q (rows ++ r ∷ []))
  Newer-append q rows r above s h = elim (Option-cases (find q rows)) [
    | inl e ↦ elim (Bool-cases (q r)) [
      | inl hit ↦
          let at = rw (find-append q rows r, e, hit) at h in
          inr (subst (λ x. k < seq x) (some_injective at) above)
      | inr miss ↦ let at = rw (find-append q rows r, e, miss) at h in cc
    ]
    | inr (a, e) ↦ let at = rw (find-append q rows r, e) at h in inl (e ∙ at)
  ]

  pub Newer-update :
      (q p : A → Bool) (f : A → A) (rows : List A)
      → ((r : A) → q (f r) ≡ q r)
      → ((r : A) → k < seq (f r))
      → Newer seq k (find q rows) (find q (update p f rows))
  Newer-update q p f rows keeps above s h = elim (Option-cases (find q rows)) [
    | inl e ↦ let at = rw (find-update q p f rows keeps, e) at h in cc
    | inr (a, e) ↦ elim (Bool-cases (p a)) [
      | inl hit ↦
          let at = rw (find-update q p f rows keeps, e, hit) at h in
          inr (subst (λ x. k < seq x) (some_injective at) (above a))
      | inr miss ↦ let at = rw (find-update q p f rows keeps, e, miss) at h in inl (e ∙ at)
    ]
  ]

pub Fresh-refl : (d : Db) → Fresh d d
Fresh-refl d = record {
  counter = omega arith;
  notes = λ id r h. inl h;
  items = λ id r h. inl h;
  note_labels = λ n l r h. inl h;
}

pub Fresh-trans : (c d e : Db) → Fresh c d → Fresh d e → Fresh c e
Fresh-trans c d e p q = record {
  counter = omega arith;
  notes = λ id.
      Newer-trans (λ (n : NoteRow). n.server_seq) c.counter d.counter _ _ _ p.counter (p.notes id)
        (q.notes id);
  items = λ id.
      Newer-trans (λ (i : ItemRow). i.server_seq) c.counter d.counter _ _ _ p.counter (p.items id)
        (q.items id);
  note_labels = λ n l.
      Newer-trans (λ (a : NoteLabelRow). a.server_seq) c.counter d.counter _ _ _ p.counter
        (p.note_labels n l) (q.note_labels n l);
}

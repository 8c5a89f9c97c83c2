-- ===== src/Sync/Progress.antt =====
-- The order in which the database moves under sync.
use retainer.Prelude.{
  ◌≤◌, ◌≡◌, refl, String, Bool, true, Option, none, some, List, [], ◌∷◌, ◌++◌, arith, Option-cases,
  Bool-cases, inl, inr, ◌∙◌,
}
use retainer.Prelude.Text.{Text}
use retainer.Schema.{Db, NoteRow, ItemRow, NoteLabelRow}
use retainer.Schema.Table.{find, update, find-update, find-append}
use retainer.Store.Rows.{find_note, find_item, find_attachment}
use retainer.Sync.Clocks.{Advanced, not_after}

-- A row that may be there, and what a later row keeps of it
abbrev pub Kept : {A : Type 0} → (A → A → Type 0) → Option A → Option A → Type 0
Kept R none o = Unit
Kept R (some a) none = ⊥
Kept R (some a) (some b) = R a b

pub record NoteLe (a b : NoteRow) : Type 0 where
  pub clocks : Advanced a.field_clocks b.field_clocks

pub record ItemLe (a b : ItemRow) : Type 0 where
  pub clocks : Advanced a.field_clocks b.field_clocks
  pub same_note : a.note_id ≡ b.note_id

pub record LabelLe (a b : NoteLabelRow) : Type 0 where
  pub newer : (h : Text) → not_after h a.hlc ≡ true → not_after h b.hlc ≡ true

pub record Progress (d e : Db) : Type 0 where
  pub counter : d.counter ≤ e.counter
  pub notes : (id : String) → Kept NoteLe (find_note id d) (find_note id e)
  pub items : (id : String) → Kept ItemLe (find_item id d) (find_item id e)
  pub note_labels : (n l : String) → Kept LabelLe (find_attachment n l d) (find_attachment n l e)

module _ {A : Type 0} (R : A → A → Type 0) where
  pub Kept-refl : ((a : A) → R a a) → (o : Option A) → Kept R o o
  Kept-refl r none = tt
  Kept-refl r (some a) = r a

  pub Kept-trans :
      ((a b c : A) → R a b → R b c → R a c)
      → (o p q : Option A) → Kept R o p
      → Kept R p q
      → Kept R o q
  Kept-trans t none p q h k = tt
  Kept-trans t (some a) none q h k = absurd h
  Kept-trans t (some a) (some b) none h k = absurd k
  Kept-trans t (some a) (some b) (some c) h k = t a b c h k

  -- Appending a row keeps what a lookup found.
  pub Kept-append :
      ((a : A) → R a a)
      → (q : A → Bool) (rows : List A) (r : A) → Kept R (find q rows) (find q (rows ++ r ∷ []))
  Kept-append rf q rows r = elim (Option-cases (find q rows)) [
    | inl e ↦ rw e tt
    | inr (a, e) ↦ rw (find-append q rows r, e) (rf a)
  ]

  -- An update keeps it, if it relates each row that it changes to its new content.
  pub Kept-update :
      ((a : A) → R a a)
      → (q p : A → Bool) (f : A → A) (rows : List A) → ((r : A) → q (f r) ≡ q r)
      → ((r : A) → find q rows ≡ some r → p r ≡ true → R r (f r))
      → Kept R (find q rows) (find q (update p f rows))
  Kept-update rf q p f rows keeps grows = elim (Option-cases (find q rows)) [
    | inl e ↦ rw e tt
    | inr (a, e) ↦ elim (Bool-cases (p a)) [
      | inl hit ↦ rw (find-update q p f rows keeps, e, hit) (grows a e hit)
      | inr miss ↦ rw (find-update q p f rows keeps, e, miss) (rf a)
    ]
  ]

pub NoteLe-refl : (n : NoteRow) → NoteLe n n
NoteLe-refl n = record { clocks = λ f h s. s }

pub ItemLe-refl : (i : ItemRow) → ItemLe i i
ItemLe-refl i = record { clocks = λ f h s. s; same_note = refl }

pub LabelLe-refl : (l : NoteLabelRow) → LabelLe l l
LabelLe-refl l = record { newer = λ h s. s }

pub Progress-refl : (d : Db) → Progress d d
Progress-refl d = record {
  counter = omega arith;
  notes = λ id. Kept-refl NoteLe NoteLe-refl (find_note id d);
  items = λ id. Kept-refl ItemLe ItemLe-refl (find_item id d);
  note_labels = λ n l. Kept-refl LabelLe LabelLe-refl (find_attachment n l d);
}

pub Progress-trans : (c d e : Db) → Progress c d → Progress d e → Progress c e
Progress-trans c d e p q = record {
  counter = omega arith;
  notes = λ id. Kept-trans NoteLe note_trans _ _ _ (p.notes id) (q.notes id);
  items = λ id. Kept-trans ItemLe item_trans _ _ _ (p.items id) (q.items id);
  note_labels = λ n l. Kept-trans LabelLe label_trans _ _ _ (p.note_labels n l) (q.note_labels n l);
}
  where
    note_trans : (a b c : NoteRow) → NoteLe a b → NoteLe b c → NoteLe a c
    note_trans a b c h k = record { clocks = λ f s t. k.clocks f s (h.clocks f s t) }

    item_trans : (a b c : ItemRow) → ItemLe a b → ItemLe b c → ItemLe a c
    item_trans a b c h k = record {
      clocks = λ f s t. k.clocks f s (h.clocks f s t);
      same_note = h.same_note ∙ k.same_note;
    }

    label_trans : (a b c : NoteLabelRow) → LabelLe a b → LabelLe b c → LabelLe a c
    label_trans a b c h k = record { newer = λ s t. k.newer s (h.newer s t) }

pub Kept-some :
    {A : Type 0} (R : A → A → Type 0) (a : A) (o : Option A)
    → Kept R (some a) o
    → (b : A) × (o ≡ some b) × R a b
Kept-some R a none h = absurd h
Kept-some R a (some b) h = (b, refl, h)

-- A step that changes one of the three tables
module _ (d e : Db) (counts : d.counter ≤ e.counter) where
  pub notes_Progress :
      ((id : String) → Kept NoteLe (find_note id d) (find_note id e))
      → e.items ≡ d.items
      → e.note_labels ≡ d.note_labels
      → Progress d e
  notes_Progress n i l = record {
    counter = counts;
    notes = n;
    items = λ id. rw i (Kept-refl ItemLe ItemLe-refl (find_item id d));
    note_labels = λ a b. rw l (Kept-refl LabelLe LabelLe-refl (find_attachment a b d));
  }

  pub items_Progress :
      e.notes ≡ d.notes
      → ((id : String) → Kept ItemLe (find_item id d) (find_item id e))
      → e.note_labels ≡ d.note_labels
      → Progress d e
  items_Progress n i l = record {
    counter = counts;
    notes = λ id. rw n (Kept-refl NoteLe NoteLe-refl (find_note id d));
    items = i;
    note_labels = λ a b. rw l (Kept-refl LabelLe LabelLe-refl (find_attachment a b d));
  }

  pub labels_Progress :
      e.notes ≡ d.notes
      → e.items ≡ d.items
      → ((n l : String) → Kept LabelLe (find_attachment n l d) (find_attachment n l e))
      → Progress d e
  labels_Progress n i l = record {
    counter = counts;
    notes = λ id. rw n (Kept-refl NoteLe NoteLe-refl (find_note id d));
    items = λ id. rw i (Kept-refl ItemLe ItemLe-refl (find_item id d));
    note_labels = l;
  }

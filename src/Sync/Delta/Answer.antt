-- ===== src/Sync/Delta/Answer.antt =====
-- What a client is sent, against what has changed since its last sync.
use mathlib.Core.List.{Memᴰ}
use retainer.Prelude.{
  ℕ, ◌≤◌, ◌≡◌, ap, String, Bool, Option, some, List, arith, ◌⊎◌, inl, inr, sym, subst, map, lt→ltb,
}
use retainer.Prelude.Int.{ℤ}
use retainer.Schema.{Db, NoteRow, ItemRow, NoteLabelRow, scan_note, scan_item}
use retainer.Schema.Table.{find}
use retainer.Schema.Members.{find-Mem, select-Mem, order_by-Mem, map-Mem}
use retainer.Store.{ok}
use retainer.Store.Rows.{note_is, find_note, item_is, find_item, attachment_is, find_attachment}
use retainer.Sync.{apply_from, apply_body, apply}
use retainer.Sync.Wire.{Mutation}
use retainer.Sync.Pull.{
  Changes, scan_note_label, changed_since, load_changed_notes, load_changed_items,
  load_changed_note_labels,
}
use retainer.Sync.Applied.{Applied, transact-eq-ok, body-eq-ok, answered}
use retainer.Sync.Requests.{Request, serve, apply_from-Keeps, serve-Keeps}
use retainer.Sync.Delta.{Newer, Fresh, Fresh-refl, Fresh-trans}
use retainer.Sync.Delta.Steps.{NoteStep-Fresh, ItemStep-Fresh, LabelStep-Fresh}

Applied-Fresh : (now : ℤ) (m : Mutation) (d e : Db) → Applied now m d e → Fresh d e
Applied-Fresh now m d e (Applied.note is s) = NoteStep-Fresh now m d e s
Applied-Fresh now m d e (Applied.item not_note is s) = ItemStep-Fresh m d e s
Applied-Fresh now m d e (Applied.label not_note not_item is s) = LabelStep-Fresh m d e s

apply_from-Fresh :
    (clock : ℕ → ℤ) (i : ℕ) (ms : List Mutation) (d e : Db)
    → apply_from clock i ms d ≡ ok (tt, e)
    → Fresh d e
apply_from-Fresh = apply_from-Keeps Fresh Fresh-refl Fresh-trans Applied-Fresh

serve-Fresh : (qs : List Request) (d : Db) → Fresh d (serve qs d)
serve-Fresh = serve-Keeps Fresh Fresh-refl Fresh-trans Applied-Fresh

-- Every row of `e` is the one that `d` had, or is in the answer.
pub record Complete (d e : Db) (changes : Changes) : Type 0 where
  pub notes :
      (id : String) (n : NoteRow)
      → find_note id e ≡ some n
      → (find_note id d ≡ some n) ⊎ Memᴰ (scan_note n) changes.notes
  pub items :
      (id : String) (i : ItemRow)
      → find_item id e ≡ some i
      → (find_item id d ≡ some i) ⊎ Memᴰ (scan_item i) changes.items
  pub note_labels :
      (n l : String) (a : NoteLabelRow)
      → find_attachment n l e ≡ some a
      → (find_attachment n l d ≡ some a) ⊎ Memᴰ (scan_note_label a) changes.note_labels

module _ {A B : Type 0} (seq : A → ℕ) (scan : A → B) (p : A → Bool) where
  sent :
      (since k : ℕ) (old : Option A) (rows : List A) (r : A)
      → since ≤ k
      → Newer seq k old (find p rows)
      → find p rows ≡ some r
      → (old ≡ some r) ⊎ Memᴰ (scan r) (map scan (changed_since seq since rows))
  unfolding changed_since
  sent since k old rows r le newer at = elim (newer r at) [
    | inl kept ↦ inl kept
    | inr above ↦ inr (
        map-Mem scan _ r (
          order_by-Mem _ _ r
            (select-Mem _ rows r (lt→ltb since (seq r) (omega arith)) (find-Mem p rows r at))))
  ]

Fresh-Complete :
    (since : ℕ) (d e : Db) → since ≤ d.counter → Fresh d e → Complete d e (answered since e).1
unfolding load_changed_notes load_changed_items load_changed_note_labels
Fresh-Complete since d e le f = record {
  notes = λ id n at.
      sent (λ (n : NoteRow). n.server_seq) scan_note (note_is id) since d.counter _ e.notes n le
        (f.notes id) at;
  items = λ id i at.
      sent (λ (i : ItemRow). i.server_seq) scan_item (item_is id) since d.counter _ e.items i le
        (f.items id) at;
  note_labels = λ n l a at.
      sent (λ (a : NoteLabelRow). a.server_seq) scan_note_label (attachment_is n l) since d.counter
        _ e.note_labels a le (f.note_labels n l) at;
}

-- A client has seen the database `d`, up to its counter. Then any requests are served, some of
-- which may fail, and the client's own request succeeds. Its answer has the counter as it now is, and
-- every note, item and label attachment that is not as it was in `d`, with its present content.
pub apply-Complete :
    (d e : Db) (qs : List Request) (clock : ℕ → ℤ) (ms : List Mutation) (seq : ℕ)
    (changes : Changes)
    → apply clock d.counter ms (serve qs d) ≡ (ok (seq, changes), e)
    → (seq ≡ e.counter) × Complete d e changes
unfolding apply
apply-Complete d e qs clock ms seq changes h =
    let body = transact-eq-ok (apply_body clock d.counter ms (serve qs d)) (serve qs d) h in
    let (applied_all, answer) = body-eq-ok clock d.counter ms (serve qs d) e body in
    let fresh =
      Fresh-trans d (serve qs d) e (serve-Fresh qs d)
        (apply_from-Fresh clock 0 ms (serve qs d) e applied_all) in
    (
      ap (λ r. r.0) answer,
      subst (Complete d e) (sym (ap (λ r. r.1) answer))
          (Fresh-Complete d.counter d e (omega arith) fresh),
    )

-- ===== src/Purge/Sweep.antt =====
-- What a purge removes.
use retainer.Prelude.{
  ℕ, ◌≡◌, refl, sym, ap, ◌∙◌, String, Bool, false, ◌||◌, List, [], ◌∷◌, arith, str_eq, length,
}
use retainer.Schema.{Db}
use retainer.Schema.Table.{select, delete, exists}
use retainer.Store.{ok, pure, transact, continue}
use retainer.Store.Rows.{note_is, item_of, fts_of}
use retainer.Search.{delete_fts}
use retainer.Purge.{
  label_of, delete_note, purge_note, purge_one, purge_all, purge_and_count, expired_ids, sweep,
}

unfoldable pub elem : String → List String → Bool
elem id [] = false
elem id (i ∷ ids) = str_eq id i || elem id ids

-- The database without the notes of the given ids and all that belongs to them
unfoldable pub without : List String → Db → Db
without ids d = record d {
  notes = delete (λ n. elem n.id ids) d.notes;
  items = delete (λ i. elem i.note_id ids) d.items;
  note_labels = delete (λ l. elem l.note_id ids) d.note_labels;
  fts = delete (λ f. elem f.note_id ids) d.fts;
}

module _ {A : Type 0} where
  exists-delete : (p : A → Bool) (rows : List A) → exists p (delete p rows) ≡ false
  unfolding exists delete select
  exists-delete p [] = refl
  exists-delete p (r ∷ rows) = ground (arith, exists-delete p rows)

  delete-delete :
      (p q : A → Bool) (rows : List A) → delete p (delete q rows) ≡ delete (λ r. q r || p r) rows
  unfolding delete select
  delete-delete p q [] = refl
  delete-delete p q (r ∷ rows) = ground (arith, delete-delete p q rows)

  delete-none : (rows : List A) → delete (λ _. false) rows ≡ rows
  unfolding delete select
  delete-none [] = refl
  delete-none (r ∷ rows) = ap (λ l. r ∷ l) (delete-none rows)

-- The database behind one purge
purged : String → Db → Db
purged id d = record d {
  notes = delete (note_is id) d.notes;
  items = delete (item_of id) d.items;
  note_labels = delete (label_of id) d.note_labels;
  fts = delete (fts_of id) d.fts;
}

-- The references that could refuse the note's deletion are gone by then.
purge_note_lem : (id : String) (d : Db) → purge_note id d ≡ ok (tt, purged id d)
unfolding purge_note delete_note delete_fts purged
purge_note_lem id d =
    rw (exists-delete (item_of id) d.items, exists-delete (label_of id) d.note_labels) refl

without-purged :
    (id : String) (ids : List String) (d : Db) → without ids (purged id d) ≡ without (id ∷ ids) d
unfolding without purged elem
without-purged id ids d =
    rw
      (
        delete-delete (λ n. elem n.id ids) (note_is id) d.notes,
        delete-delete (λ i. elem i.note_id ids) (item_of id) d.items,
        delete-delete (λ l. elem l.note_id ids) (label_of id) d.note_labels,
        delete-delete (λ f. elem f.note_id ids) (fts_of id) d.fts,
      )
      refl

without-nil : (d : Db) → without [] d ≡ d
unfolding without elem
without-nil d =
    rw (delete-none d.notes, delete-none d.items, delete-none d.note_labels, delete-none d.fts) refl

purge_all_lem : (ids : List String) (d : Db) → purge_all ids d ≡ ok (tt, without ids d)
unfolding purge_all
purge_all_lem [] d = ap (λ e. ok (tt, e)) (sym (without-nil d))
purge_all_lem (id ∷ ids) d =
    rw (purge_note_lem id d)
      (purge_all_lem ids (purged id d) ∙ ap (λ e. ok (tt, e)) (without-purged id ids d))

purge_and_count_lem :
    (ids : List String) (d : Db) → purge_and_count ids d ≡ ok (length ids, without ids d)
unfolding purge_and_count
purge_and_count_lem ids d =
    ap (λ r. continue {A = Unit} {B = ℕ} r (λ _. pure (length ids))) (purge_all_lem ids d)

-- A sweep succeeds on any database. It answers how many notes it purged, and takes out just the notes
-- that its query found, with their items, label attachments and index rows; the
-- sequence counter stays, as does every other table.
pub sweep-without :
    (now : ℕ) (d : Db)
    → sweep now d ≡ (ok (length (expired_ids now d)), without (expired_ids now d) d)
unfolding sweep
sweep-without now d =
    ap (λ r. transact {A = ℕ} (λ _. r) d) (purge_and_count_lem (expired_ids now d) d)

-- Purging one note succeeds on any database, whether the note is there, trashed or not, and takes out the
-- note with its items, label attachments and index rows.
pub purge_one-without : (id : String) (d : Db) → purge_one id d ≡ (ok tt, without (id ∷ []) d)
unfolding purge_one
purge_one-without id d =
    ap (λ r. transact {A = Unit} (λ _. r) d) (purge_note_lem id d)
    ∙ ap (λ e. (ok tt, e)) (sym (without-nil (purged id d)) ∙ without-purged id [] d)

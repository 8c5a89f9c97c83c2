-- ===== src/Store/Inversion.antt =====
-- What a step that succeeded has done, part by part.
use retainer.Prelude.{
  ◌≡◌, refl, Bool, true, false, ◌||◌, not, ◌⊎◌, inl, inr, some, [], ◌∷◌, ◌++◌, arith, if◌then◌else◌,
}
use retainer.Prelude.{String, subst}
use retainer.Schema.{Db, NoteRow, ItemRow, NoteLabelRow}
use retainer.Schema.Table.{update, exists}
use retainer.Store.{Error, Result, ok, err, Tx, ◌>>=◌, continue, ◌>>◌, lift, fail, constraint}
use retainer.Store.Rows.{
  note_exists, valid_kind, note_is, find_note, insert_note, update_found, update_note, insert_item,
  item_is, insert_attachment, label_exists,
}

pub Result-cases :
    {A : Type 0} (r : Result A) → ((a : A) × (r ≡ ok a)) ⊎ ((e : Error) × (r ≡ err e))
Result-cases (ok a) = inl (a, refl)
Result-cases (err e) = inr (e, refl)

pub ok_injective : {A : Type 0} {a b : A} → ok a ≡ ok b → a ≡ b
ok_injective h = cc

module _ {A B : Type 0} where
  continue-eq-ok :
      (m : Result (A × Db)) (f : A → Tx B) {r : B × Db}
      → continue m f ≡ ok r
      → (a : A) × (e : Db) × (m ≡ ok (a, e)) × (f a e ≡ ok r)
  continue-eq-ok (ok (a, e)) f h = (a, e, refl, h)
  continue-eq-ok (err x) f h = cc

  -- A step and the rest
  pub bind-eq-ok :
      (m : Tx A) (f : A → Tx B) (d : Db) {r : B × Db}
      → (m >>= f) d ≡ ok r
      → (a : A) × (e : Db) × (m d ≡ ok (a, e)) × (f a e ≡ ok r)
  bind-eq-ok m f d h = continue-eq-ok (m d) f h

  -- A decoding step and the rest
  pub bind_lift-eq-ok :
      (m : Result A) (f : A → Tx B) (d : Db) {r : B × Db}
      → (lift m >>= f) d ≡ ok r
      → (a : A) × (m ≡ ok a) × (f a d ≡ ok r)
  bind_lift-eq-ok (ok a) f d h = (a, refl, h)
  bind_lift-eq-ok (err x) f d h = cc

-- A guard that fails, and one that passes
pub if_fail-eq-ok :
    {A : Type 0} (b : Bool) (x : Error) (m : Tx A) (d : Db) {r : A × Db}
    → (if b then fail x else m) d ≡ ok r
    → (b ≡ false) × (m d ≡ ok r)
if_fail-eq-ok true x m d h = cc
if_fail-eq-ok false x m d h = (refl, h)

-- A statement that a constraint may refuse, and the rest
guarded-eq-ok :
    {A : Type 0} (b : Bool) (x : Error) (d2 : Db) (k : Tx A) {r : A × Db}
    → continue (if b then err x else ok (tt, d2)) (λ (_ : Unit {0}). k) ≡ ok r
    → (b ≡ false) × (k d2 ≡ ok r)
guarded-eq-ok true x d2 k h = cc
guarded-eq-ok false x d2 k h = (refl, h)

not-true : {b : Bool} → not b ≡ false → b ≡ true
not-true h = ground arith

or_false : {a b : Bool} → (a || b) ≡ false → (a ≡ false) × (b ≡ false)
or_false h = ground arith

module _ {A : Type 0} (k : Tx A) (d : Db) {r : A × Db} where
  pub insert_note-eq-ok :
      (n : NoteRow)
      → (insert_note n >> k) d ≡ ok r
      → (valid_kind n.kind ≡ true) × (k (record d { notes = d.notes ++ n ∷ [] }) ≡ ok r)
  unfolding insert_note
  insert_note-eq-ok n h =
      let (b, rest) =
        guarded-eq-ok (note_exists n.id d || not (valid_kind n.kind)) constraint
          (record d { notes = d.notes ++ n ∷ [] }) k h in
      (not-true (or_false b).1, rest)

  pub update_note-eq-ok :
      (id : String) (f : NoteRow → NoteRow) (n : NoteRow)
      → find_note id d ≡ some n
      → (update_note id f >> k) d ≡ ok r
      → (valid_kind (f n).kind ≡ true)
        × (k (record d { notes = update (note_is id) f d.notes }) ≡ ok r)
  unfolding update_note
  update_note-eq-ok id f n found h =
      let (b, rest) =
        guarded-eq-ok (not (valid_kind (f n).kind)) constraint
          (record d { notes = update (note_is id) f d.notes }) k
          (subst (λ o. continue (update_found id f o d) (λ (_ : Unit {0}). k) ≡ ok r) found h) in
      (not-true b, rest)

  pub insert_item-eq-ok :
      (i : ItemRow)
      → (insert_item i >> k) d ≡ ok r
      → (note_exists i.note_id d ≡ true) × (k (record d { items = d.items ++ i ∷ [] }) ≡ ok r)
  unfolding insert_item
  insert_item-eq-ok i h =
      let (b, rest) =
        guarded-eq-ok (exists (item_is i.id) d.items || not (note_exists i.note_id d)) constraint
          (record d { items = d.items ++ i ∷ [] }) k h in
      (not-true (or_false b).1, rest)

guard-eq-ok :
    (b : Bool) (x : Error) (d e : Db)
    → ◌≡◌ {A = Result (Unit {0} × Db)} (if b then err x else ok (tt, d)) (ok (tt, e))
    → (b ≡ false) × (e ≡ d)
guard-eq-ok true x d e h = cc
guard-eq-ok false x d e h = (refl, ground arith)

pub insert_attachment-eq-ok :
    (l : NoteLabelRow) (d e : Db)
    → insert_attachment l d ≡ ok (tt, e)
    → (note_exists l.note_id d ≡ true)
      × (label_exists l.label_id d ≡ true)
      × (e ≡ record d { note_labels = d.note_labels ++ l ∷ [] })
unfolding insert_attachment
insert_attachment-eq-ok l d e h =
    let (b, same) =
      guard-eq-ok _ constraint (record d { note_labels = d.note_labels ++ l ∷ [] }) e h in
    let (b1, b2) = or_false b in let (b3, b4) = or_false b1 in (not-true b4, not-true b2, same)

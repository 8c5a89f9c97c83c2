-- ===== src/Sync/Resend.antt =====
-- Batches against a database that has their edits or newer ones.
use retainer.Prelude.{ℕ, ◌+◌, ◌≡◌, refl, true, false, List, [], ◌∷◌, ap, All, arith, str_eq}
use retainer.Prelude.Int.{ℤ}
use retainer.Schema.{Db}
use retainer.Store.{Result, ok, transact, continue, pure, current_server_seq, ◌>>=◌}
use retainer.Store.Inversion.{bind-eq-ok}
use retainer.Sync.{apply_mutation, wrap_error, apply_from, apply_body, apply}
use retainer.Sync.Wire.{Mutation}
use retainer.Sync.Notes.Settled.{
  NoteSettled, NoteSettled-apply, NoteSettled-Progress, NoteStep-Progress, NoteStep-Settled,
}
use retainer.Sync.Items.Settled.{
  ItemSettled, ItemSettled-apply, ItemSettled-Progress, ItemStep-Progress, ItemStep-Settled,
}
use retainer.Sync.Attachments.Settled.{
  LabelSettled, LabelSettled-apply, LabelSettled-Progress, LabelStep-Progress, LabelStep-Settled,
}
use retainer.Sync.Pull.{Changes, load_changes}
use retainer.Sync.Applied.{Applied, applied, wrap_error-eq-ok, transact-eq-ok, body-eq-ok}
use retainer.Sync.Progress.{Progress, Progress-refl, Progress-trans}

-- A mutation of each kind, whose edit or a newer one is in the database
pub data Settled (m : Mutation) (d : Db) : Type 0 where
  note : str_eq m.entity "note" ≡ true → NoteSettled m d → Settled m d
  item :
      str_eq m.entity "note" ≡ false → str_eq m.entity "item" ≡ true → ItemSettled m d → Settled m d
  label :
      str_eq m.entity "note" ≡ false
      → str_eq m.entity "item" ≡ false
      → str_eq m.entity "note_label" ≡ true
      → LabelSettled m d
      → Settled m d

Settled-apply :
    (now : ℤ) (m : Mutation) (d : Db) → Settled m d → apply_mutation now m d ≡ ok (tt, d)
unfolding apply_mutation
Settled-apply now m d (note e s) = rw e (NoteSettled-apply now m d s)
Settled-apply now m d (item e f s) = rw (e, f) (ItemSettled-apply m d s)
Settled-apply now m d (label e f g s) = rw (e, f, g) (LabelSettled-apply m d s)

pub Settled-Progress : (m : Mutation) (d e : Db) → Settled m d → Progress d e → Settled m e
Settled-Progress m d e (note x s) p = note x (NoteSettled-Progress m d e s p)
Settled-Progress m d e (item x y s) p = item x y (ItemSettled-Progress m d e s p)
Settled-Progress m d e (label x y z s) p = label x y z (LabelSettled-Progress m d e s p)

-- One mutation that succeeds: the database moves forward, and the mutation is settled.
pub Applied-Settled :
    (now : ℤ) (m : Mutation) (d e : Db) → Applied now m d e → Progress d e × Settled m e
Applied-Settled now m d e (Applied.note is s) =
    (NoteStep-Progress now m d e s, note is (NoteStep-Settled now m d e s))
Applied-Settled now m d e (Applied.item not_note is s) =
    (ItemStep-Progress m d e s, item not_note is (ItemStep-Settled m d e s))
Applied-Settled now m d e (Applied.label not_note not_item is s) =
    (LabelStep-Progress m d e s, label not_note not_item is (LabelStep-Settled m d e s))

AllSettled-Progress :
    (ms : List Mutation) (d e : Db)
    → All (λ m. Settled m d) ms
    → Progress d e
    → All (λ m. Settled m e) ms
AllSettled-Progress [] d e s p = tt
AllSettled-Progress (m ∷ ms) d e (s, ss) p =
    (Settled-Progress m d e s p, AllSettled-Progress ms d e ss p)

-- A batch that succeeds leaves all its mutations settled.
pub apply_from-Settled :
    (clock : ℕ → ℤ) (i : ℕ) (ms : List Mutation) (d e : Db)
    → apply_from clock i ms d ≡ ok (tt, e)
    → Progress d e × All (λ m. Settled m e) ms
unfolding apply_from
apply_from-Settled clock i [] d e h =
    let same : e ≡ d = ground arith in (rw same (Progress-refl d), tt)
apply_from-Settled clock i (m ∷ ms) d e h =
    let (u, d1, first, rest) =
      bind-eq-ok (λ db. wrap_error i (apply_mutation (clock i) m db)) _ d h in
    let (p, s) =
      Applied-Settled (clock i) m d d1 (applied (clock i) m d d1 (wrap_error-eq-ok i _ first)) in
    let (q, ss) = apply_from-Settled clock (i + 1) ms d1 e rest in
    (Progress-trans d d1 e p q, (Settled-Progress m d1 e s q, ss))

-- Settled mutations are passed over.
apply_from-again :
    (clock : ℕ → ℤ) (i : ℕ) (ms : List Mutation) (d : Db)
    → All (λ m. Settled m d) ms
    → apply_from clock i ms d ≡ ok (tt, d)
unfolding apply_from wrap_error
apply_from-again clock i [] d s = refl
apply_from-again clock i (m ∷ ms) d (s, ss) =
    rw (Settled-apply (clock i) m d s) (apply_from-again clock (i + 1) ms d ss)

-- What `Apply` makes of the loop's result
abbrev pub answer : ℕ → Result (Unit {0} × Db) → Db → Result (ℕ × Changes) × Db
answer since r d =
    transact
      (λ _.
        continue r
          (λ _. do changes ← load_changes since; seq ← current_server_seq; pure (seq, changes)))
      d

-- When a batch has been applied, sending it again, with any catch-up point and at any time, is the
-- same as a plain pull: it succeeds, and the database stays as it is.
pub apply_again :
    (clock clock' : ℕ → ℤ) (since since' : ℕ) (ms : List Mutation) (d e : Db) (r : ℕ × Changes)
    → apply clock since ms d ≡ (ok r, e)
    → (apply clock' since' ms e ≡ apply clock' since' [] e) × ((apply clock' since' ms e).1 ≡ e)
unfolding apply load_changes current_server_seq
apply_again clock clock' since since' ms d e r h =
    let applied =
      (body-eq-ok clock since ms d e (transact-eq-ok (apply_body clock since ms d) d h)).0 in
    let again = apply_from-again clock' 0 ms e (apply_from-Settled clock 0 ms d e applied).1 in
    (ap (λ o. answer since' o e) again, ap (λ o. (answer since' o e).1) again)

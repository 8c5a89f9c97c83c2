-- ===== src/Sync/Applied.antt =====
-- What a request that succeeded has gone through: each mutation one of the steps, and then the answer.
use retainer.Prelude.{
  ℕ, ◌≡◌, true, false, List, sym, ap, subst, arith, str_eq, Bool-cases, inl, inr,
}
use retainer.Prelude.Int.{ℤ}
use retainer.Schema.{Db}
use retainer.Store.{Result, ok, err, current_server_seq}
use retainer.Store.Inversion.{bind-eq-ok, ok_injective}
use retainer.Sync.{apply_mutation, wrap_error, apply_from, apply_body}
use retainer.Sync.Wire.{Mutation}
use retainer.Sync.Notes.Step.{NoteStep, note_step}
use retainer.Sync.Items.Step.{ItemStep, item_step}
use retainer.Sync.Attachments.Step.{LabelStep, label_step}
use retainer.Sync.Pull.{
  Changes, load_changes, load_changed_notes, load_changed_items, load_changed_note_labels,
}

-- A mutation of each kind that succeeded
pub data Applied (now : ℤ) (m : Mutation) (d e : Db) : Type 0 where
  note : str_eq m.entity "note" ≡ true → NoteStep now m d e → Applied now m d e
  item :
      str_eq m.entity "note" ≡ false
      → str_eq m.entity "item" ≡ true
      → ItemStep m d e
      → Applied now m d e
  label :
      str_eq m.entity "note" ≡ false
      → str_eq m.entity "item" ≡ false
      → str_eq m.entity "note_label" ≡ true
      → LabelStep m d e
      → Applied now m d e

pub applied :
    (now : ℤ) (m : Mutation) (d e : Db) → apply_mutation now m d ≡ ok (tt, e) → Applied now m d e
unfolding apply_mutation
applied now m d e h = elim (Bool-cases (str_eq m.entity "note")) [
  | inl n ↦ note n (note_step now m d e (rw n at h))
  | inr not_n ↦ elim (Bool-cases (str_eq m.entity "item")) [
    | inl i ↦ item not_n i (item_step m d e (rw (not_n, i) at h))
    | inr not_i ↦ elim (Bool-cases (str_eq m.entity "note_label")) [
      | inl l ↦ label not_n not_i l (label_step m d e (rw (not_n, not_i, l) at h))
      | inr not_l ↦ cc (rw (not_n, not_i, not_l) at h)
    ]
  ]
]

pub wrap_error-eq-ok :
    (i : ℕ) (r : Result (Unit {0} × Db)) {s : Unit {0} × Db} → wrap_error i r ≡ ok s → r ≡ ok s
unfolding wrap_error
wrap_error-eq-ok i (ok r) h = h
wrap_error-eq-ok i (err x) h = cc

pub transact-eq-ok :
    {A : Type 0} (r : Result (A × Db)) (d : Db) {a : A} {e : Db}
    → ◌≡◌ {A = Result A × Db} (elim r [ ok (a, db') ↦ (ok a, db') | err x ↦ (err x, d) ]) (ok a, e)
    → r ≡ ok (a, e)
transact-eq-ok (ok r) d h = ground arith
transact-eq-ok (err x) d h = cc

-- What is read back behind the batch
abbrev pub answered : ℕ → Db → ℕ × Changes
answered since e = (
  e.counter,
  record {
    notes = load_changed_notes since e;
    items = load_changed_items since e;
    note_labels = load_changed_note_labels since e;
  },
)

-- The batch of a request that succeeded has been applied before its answer was read.
pub body-eq-ok :
    (clock : ℕ → ℤ) (since : ℕ) (ms : List Mutation) (d e : Db) {r : ℕ × Changes}
    → apply_body clock since ms d ≡ ok (r, e)
    → (apply_from clock 0 ms d ≡ ok (tt, e)) × (r ≡ answered since e)
unfolding apply_body load_changes current_server_seq
body-eq-ok clock since ms d e {r} h =
    let (u, d1, applied, rest) = bind-eq-ok (apply_from clock 0 ms) _ d h in
    let both : ◌≡◌ {A = (ℕ × Changes) × Db} (answered since d1, d1) (r, e) = ok_injective rest in
    let same : e ≡ d1 = sym (ap (λ p. p.1) both) in
    (
      subst (λ x. apply_from clock 0 ms d ≡ ok (tt, x)) (sym same) applied,
      sym (subst (λ x. answered since x ≡ r) (sym same) (ap (λ p. p.0) both)),
    )

-- ===== src/Sync/Registers/Refines.antt =====
-- That the merge implements the registers: a batch, and a request.
use retainer.Prelude.{
  ℕ, ◌+◌, ◌≡◌, refl, sym, ap, subst, ◌∙◌, String, Bool, true, false, some, List, [], ◌∷◌, arith,
  str_eq, if◌then◌else◌,
}
use retainer.Prelude.Int.{ℤ}
use retainer.Schema.{Db}
use retainer.Schema.Table.{find}
use retainer.Store.{ok}
use retainer.Store.Inversion.{bind-eq-ok}
use retainer.Store.Rows.{note_is}
use retainer.Sync.{apply, apply_body, apply_mutation, wrap_error, apply_from}
use retainer.Sync.Wire.{Mutation, NoteColumn, note_field_columns}
use retainer.Sync.Notes.Step.{NoteStep, with_index}
use retainer.Sync.Items.{is_item_content, reindexed_note}
use retainer.Sync.Items.Step.{ItemStep, written_items}
use retainer.Sync.Attachments.Step.{LabelStep}
use retainer.Sync.Applied.{transact-eq-ok, body-eq-ok, Applied, applied, wrap_error-eq-ok}
use retainer.Sync.Registers.{write_all, register_at}
use retainer.Sync.Registers.Writes.{other_entity}
use retainer.Sync.Registers.Steps.{
  Refines, same_lookup, discarded-Refines, written-Refines, created-Refines,
}
use retainer.Sync.Pull.{Changes}

module _ (id field : String) (c : NoteColumn) (column : note_field_columns field ≡ some c) where
  other_table :
      (m : Mutation) (d e : Db)
      → str_eq m.entity "note" ≡ false
      → e.notes ≡ d.notes
      → Refines id field c column m d e
  other_table m d e other same =
      same_lookup id field c column m d e (other_entity id field m other)
        (ap (find (note_is id)) same)

  indexed_notes :
      (d e : Db) (content : Bool) (i : String)
      → e.notes ≡ d.notes
      → (if content then with_index i e else e).notes ≡ d.notes
  indexed_notes d e true i same = same
  indexed_notes d e false i same = same

  -- One mutation that succeeds
  Applied-Refines :
      (now : ℤ) (m : Mutation) (d e : Db) → Applied now m d e → Refines id field c column m d e
  Applied-Refines now m d e (Applied.note is (NoteStep.discarded b adm n found old same)) =
      subst (Refines id field c column m d) (sym same)
        (discarded-Refines id field c column m n d found old)
  Applied-Refines now m d e (Applied.note is (NoteStep.created b adm absent n decoded valid made)) =
      subst (Refines id field c column m d) (sym made)
        (created-Refines id field c column now m b n d adm.column is absent decoded)
  Applied-Refines now m d e
        (Applied.note is (NoteStep.written b adm n found fresh v decoded valid made)) =
      subst (Refines id field c column m d) (sym made)
        (written-Refines id field c column now m b n v d adm.column is found fresh decoded)
  Applied-Refines now m d e (Applied.item other is (ItemStep.discarded b adm i found old same)) =
      other_table m d e other (ap (λ (x : Db). x.notes) same)
  Applied-Refines now m d e (Applied.item other is (ItemStep.created b adm absent i decoded made)) =
      other_table m d e other (ap (λ (x : Db). x.notes) made)
  Applied-Refines now m d e
        (Applied.item other is (ItemStep.written b adm i found fresh v decoded made)) =
      other_table m d e other (
        ap (λ (x : Db). x.notes) made
        ∙ indexed_notes d (written_items b m v d) (is_item_content b) (reindexed_note m i) refl)
  Applied-Refines now m d e
        (Applied.label other not_item is (LabelStep.discarded b adm l found old same)) =
      other_table m d e other (ap (λ (x : Db). x.notes) same)
  Applied-Refines now m d e
        (Applied.label other not_item is (LabelStep.created b adm absent made)) =
      other_table m d e other (ap (λ (x : Db). x.notes) made)
  Applied-Refines now m d e
        (Applied.label other not_item is (LabelStep.written b adm l found fresh made)) =
      other_table m d e other (ap (λ (x : Db). x.notes) made)

  apply_from-register_at :
      (clock : ℕ → ℤ) (i : ℕ) (ms : List Mutation) (d e : Db)
      → apply_from clock i ms d ≡ ok (tt, e)
      → register_at id field c e ≡ write_all id field c ms (register_at id field c d)
  unfolding apply_from write_all
  apply_from-register_at clock i [] d e h =
      let same : e ≡ d = ground arith in ap (register_at id field c) same
  apply_from-register_at clock i (m ∷ ms) d e h =
      let (u, d1, first, rest) =
        bind-eq-ok (λ db. wrap_error i (apply_mutation (clock i) m db)) _ d h in
      apply_from-register_at clock (i + 1) ms d1 e rest
      ∙ ap (write_all id field c ms)
          (Applied-Refines (clock i) m d d1 (applied (clock i) m d d1 (wrap_error-eq-ok i _ first)))

-- When a request succeeds, each field of each note, be it there or not, holds what the register of that
-- field holds behind the writes of the request to it, in their order: of each two the one with the newer
-- stamp wins, and an equal stamp loses. Other mutations leave it as it is.
pub apply-register_at :
    (id field : String) (c : NoteColumn) (clock : ℕ → ℤ) (since : ℕ) (ms : List Mutation) (d e : Db)
    (r : ℕ × Changes)
    → note_field_columns field ≡ some c
    → apply clock since ms d ≡ (ok r, e)
    → register_at id field c e ≡ write_all id field c ms (register_at id field c d)
unfolding apply
apply-register_at id field c clock since ms d e r column h =
    apply_from-register_at id field c column clock 0 ms d e
      (body-eq-ok clock since ms d e (transact-eq-ok (apply_body clock since ms d) d h)).0

-- ===== src/Sync/Registers/Columns.antt =====
-- The fields and their columns.
use retainer.Prelude.{ℕ, ◌≡◌, ◌∙◌, refl, sym, String, some, arith, eq_iff}
use retainer.Prelude.Int.{ℤ}
use retainer.Schema.{NoteRow}
use retainer.Store.{Result, ok, err}
use retainer.Store.Inversion.{ok_injective}
use retainer.Sync.Wire.{
  RawMessage, NoteColumn, Value, a_text, a_bool, a_time, note_field_columns, as_value, decode_text,
  decode_flag, decode_time, decode_string, decode_bool, decode_nullable_int64, coerced_value,
}
use retainer.Sync.Notes.{set_note_column, apply_field_to_note, new_note, map_result}
use retainer.Sync.Registers.{decode_at, value_at, default_at}

unfoldable pub column_name : NoteColumn → String
column_name NoteColumn.kind = "kind"
column_name NoteColumn.title = "title"
column_name NoteColumn.body = "body"
column_name NoteColumn.color = "color"
column_name NoteColumn.pinned = "pinned"
column_name NoteColumn.archived = "archived"
column_name NoteColumn.trashed_at = "trashedAt"
column_name NoteColumn.position = "position"
column_name NoteColumn.archive_position = "archivePosition"

pub column_name_lem :
    (f : String) (c : NoteColumn) → note_field_columns f ≡ some c → f ≡ column_name c
unfolding note_field_columns column_name
column_name_lem f c h = ground (
  arith,
  eq_iff f "kind",
  eq_iff f "title",
  eq_iff f "body",
  eq_iff f "color",
  eq_iff f "pinned",
  eq_iff f "archived",
  eq_iff f "trashedAt",
  eq_iff f "position",
  eq_iff f "archivePosition",
)

-- Both decoders of a field agree.
pub coerced-decode_at :
    (c : NoteColumn) (raw : RawMessage) → coerced_value (column_name c) raw ≡ decode_at c raw
unfolding coerced_value column_name decode_at
coerced-decode_at NoteColumn.kind raw = refl
coerced-decode_at NoteColumn.title raw = refl
coerced-decode_at NoteColumn.body raw = refl
coerced-decode_at NoteColumn.color raw = refl
coerced-decode_at NoteColumn.pinned raw = refl
coerced-decode_at NoteColumn.archived raw = refl
coerced-decode_at NoteColumn.trashed_at raw = refl
coerced-decode_at NoteColumn.position raw = refl
coerced-decode_at NoteColumn.archive_position raw = refl

as_value-ok :
    {A : Type 0} (f : A → Value) (r : Result A) (v : Value)
    → as_value f r ≡ ok v
    → (a : A) × (v ≡ f a)
unfolding as_value
as_value-ok f (ok a) v h = (a, sym (ok_injective h))
as_value-ok f (err e) v h = cc

-- A value that was decoded for a column is what the column then has.
pub value_at-set_note_column :
    (c : NoteColumn) (raw : RawMessage) (v : Value) (n : NoteRow)
    → decode_at c raw ≡ ok v
    → value_at c (set_note_column c v n) ≡ v
unfolding decode_at value_at set_note_column decode_text decode_flag decode_time
value_at-set_note_column NoteColumn.kind raw v n h =
    let (t, e) = as_value-ok a_text (decode_string raw) v h in rw e refl
value_at-set_note_column NoteColumn.title raw v n h =
    let (t, e) = as_value-ok a_text (decode_string raw) v h in rw e refl
value_at-set_note_column NoteColumn.body raw v n h =
    let (t, e) = as_value-ok a_text (decode_string raw) v h in rw e refl
value_at-set_note_column NoteColumn.color raw v n h =
    let (t, e) = as_value-ok a_text (decode_string raw) v h in rw e refl
value_at-set_note_column NoteColumn.pinned raw v n h =
    let (t, e) = as_value-ok a_bool (decode_bool raw) v h in rw e refl
value_at-set_note_column NoteColumn.archived raw v n h =
    let (t, e) = as_value-ok a_bool (decode_bool raw) v h in rw e refl
value_at-set_note_column NoteColumn.trashed_at raw v n h =
    let (t, e) = as_value-ok a_time (decode_nullable_int64 raw) v h in rw e refl
value_at-set_note_column NoteColumn.position raw v n h =
    let (t, e) = as_value-ok a_text (decode_string raw) v h in rw e refl
value_at-set_note_column NoteColumn.archive_position raw v n h =
    let (t, e) = as_value-ok a_text (decode_string raw) v h in rw e refl

-- And the other columns have what they had.
pub value_at_other :
    (b c : NoteColumn) (v : Value) (n : NoteRow)
    → ¬ (b ≡ c)
    → value_at c (set_note_column b v n) ≡ value_at c n
unfolding value_at set_note_column
value_at_other b c v n h = ground arith

-- The values of a note that nobody has edited
pub value_at-new_note :
    (id : String) (now : ℤ) (seq : ℕ) (c : NoteColumn)
    → value_at c (new_note id now seq) ≡ default_at c
unfolding value_at new_note default_at
value_at-new_note id now seq NoteColumn.kind = refl
value_at-new_note id now seq NoteColumn.title = refl
value_at-new_note id now seq NoteColumn.body = refl
value_at-new_note id now seq NoteColumn.color = refl
value_at-new_note id now seq NoteColumn.pinned = refl
value_at-new_note id now seq NoteColumn.archived = refl
value_at-new_note id now seq NoteColumn.trashed_at = refl
value_at-new_note id now seq NoteColumn.position = refl
value_at-new_note id now seq NoteColumn.archive_position = refl

decoded_field :
    {A : Type 0} (r : Result A) (f : A → NoteRow) (g : A → Value) (b : NoteColumn) (n n' : NoteRow)
    → ((a : A) → f a ≡ set_note_column b (g a) n)
    → map_result f r ≡ ok n'
    → (v : Value) × (as_value g r ≡ ok v) × (n' ≡ set_note_column b v n)
unfolding map_result as_value
decoded_field (ok a) f g b n n' same h = (g a, refl, sym (ok_injective h) ∙ same a)
decoded_field (err x) f g b n n' same h = cc

-- `applyFieldToNote` sets the column to what the other decoder gives.
pub apply_field-decode_at :
    (n : NoteRow) (b : NoteColumn) (raw : RawMessage) {n' : NoteRow}
    → apply_field_to_note n b raw ≡ ok n'
    → (v : Value) × (decode_at b raw ≡ ok v) × (n' ≡ set_note_column b v n)
unfolding apply_field_to_note set_note_column decode_at decode_text decode_flag decode_time
apply_field-decode_at n NoteColumn.kind raw h =
    decoded_field (decode_string raw) _ a_text NoteColumn.kind n _ (λ a. refl) h
apply_field-decode_at n NoteColumn.title raw h =
    decoded_field (decode_string raw) _ a_text NoteColumn.title n _ (λ a. refl) h
apply_field-decode_at n NoteColumn.body raw h =
    decoded_field (decode_string raw) _ a_text NoteColumn.body n _ (λ a. refl) h
apply_field-decode_at n NoteColumn.color raw h =
    decoded_field (decode_string raw) _ a_text NoteColumn.color n _ (λ a. refl) h
apply_field-decode_at n NoteColumn.pinned raw h =
    decoded_field (decode_bool raw) _ a_bool NoteColumn.pinned n _ (λ a. refl) h
apply_field-decode_at n NoteColumn.archived raw h =
    decoded_field (decode_bool raw) _ a_bool NoteColumn.archived n _ (λ a. refl) h
apply_field-decode_at n NoteColumn.trashed_at raw h =
    decoded_field (decode_nullable_int64 raw) _ a_time NoteColumn.trashed_at n _ (λ a. refl) h
apply_field-decode_at n NoteColumn.position raw h =
    decoded_field (decode_string raw) _ a_text NoteColumn.position n _ (λ a. refl) h
apply_field-decode_at n NoteColumn.archive_position raw h =
    decoded_field (decode_string raw) _ a_text NoteColumn.archive_position n _ (λ a. refl) h

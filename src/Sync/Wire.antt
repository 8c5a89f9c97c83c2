-- ===== src/Sync/Wire.antt =====
-- What arrives on the wire, and how a field's value is decoded: `Mutation`, the decoders, the two
-- column tables and `coercedValue`.
use retainer.Prelude.{String, Bool, false, Option, none, some, str_eq, if◌then◌else◌}
use retainer.Prelude.Text.{Text, codes}
use retainer.Prelude.Int.{ℤ, fits_int64}
use retainer.Store.{Result, ok, err, bad_json}

-- A `json.RawMessage` by the JSON value that it holds; `absent` is the empty message of a mutation
-- without a value, `fraction` a number that is no integer, `composite` an array or an object.
pub data RawMessage : Type 0 where
  absent null fraction composite : RawMessage
  bool : Bool → RawMessage
  integer : ℤ → RawMessage
  string : Text → RawMessage

pub record Mutation : Type 0 where
  pub entity : String
  pub id : String
  pub note_id : String
  pub label_id : String
  pub field : String
  pub value : RawMessage
  pub hlc : Text

-- `decodeString`; Unmarshal leaves the zero value at a null.
unfoldable pub decode_string : RawMessage → Result Text
decode_string (string s) = ok s
decode_string null = ok (codes "")
decode_string _ = err bad_json

-- `decodeBool`
unfoldable pub decode_bool : RawMessage → Result Bool
decode_bool (bool b) = ok b
decode_bool null = ok false
decode_bool _ = err bad_json

-- `decodeNullableInt64`
unfoldable pub decode_nullable_int64 : RawMessage → Result (Option ℤ)
decode_nullable_int64 (integer n) = if fits_int64 n then ok (some n) else err bad_json
decode_nullable_int64 null = ok none
decode_nullable_int64 _ = err bad_json

pub data NoteColumn : Type 0 where
  kind title body color pinned archived trashed_at position archive_position : NoteColumn

pub data ItemColumn : Type 0 where
  text checked deleted position : ItemColumn

-- `noteFieldColumns`
unfoldable pub note_field_columns : String → Option NoteColumn
note_field_columns f =
    if str_eq f "kind"
    then some NoteColumn.kind
    else if str_eq f "title"
    then some NoteColumn.title
    else if str_eq f "body"
    then some NoteColumn.body
    else if str_eq f "color"
    then some NoteColumn.color
    else if str_eq f "pinned"
    then some NoteColumn.pinned
    else if str_eq f "archived"
    then some NoteColumn.archived
    else if str_eq f "trashedAt"
    then some NoteColumn.trashed_at
    else if str_eq f "position"
    then some NoteColumn.position
    else if str_eq f "archivePosition"
    then some NoteColumn.archive_position
    else none

-- `itemFieldColumns`
unfoldable pub item_field_columns : String → Option ItemColumn
item_field_columns f =
    if str_eq f "text"
    then some ItemColumn.text
    else if str_eq f "checked"
    then some ItemColumn.checked
    else if str_eq f "deleted"
    then some ItemColumn.deleted
    else if str_eq f "position"
    then some ItemColumn.position
    else none

-- The `any` that an UPDATE is given for a column
pub data Value : Type 0 where
  a_text : Text → Value
  a_bool : Bool → Value
  a_time : Option ℤ → Value

unfoldable pub as_value {ℓ} : {A : Type ℓ} → (A → Value) → Result A → Result Value
as_value f (ok a) = ok (f a)
as_value f (err e) = err e

-- The three results of `coercedValue`, by the type of the column
unfoldable pub decode_text : RawMessage → Result Value
decode_text raw = as_value a_text (decode_string raw)

unfoldable pub decode_flag : RawMessage → Result Value
decode_flag raw = as_value a_bool (decode_bool raw)

unfoldable pub decode_time : RawMessage → Result Value
decode_time raw = as_value a_time (decode_nullable_int64 raw)

-- `coercedValue`
unfoldable pub coerced_value : String → RawMessage → Result Value
unfolding as_value decode_text decode_flag decode_time decode_string decode_bool
    decode_nullable_int64
coerced_value field raw =
    if str_eq field "pinned"
    then decode_flag raw
    else if str_eq field "archived"
    then decode_flag raw
    else if str_eq field "checked"
    then decode_flag raw
    else if str_eq field "deleted"
    then decode_flag raw
    else if str_eq field "trashedAt"
    then decode_time raw
    else decode_text raw

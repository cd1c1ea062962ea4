-- ===== src/RowDecoder/Fields.antt =====
-- One field that is not a Boolean: `read_signed` and `decode_non_boolean`.
pub mod Bounds
use opensqlanywhere.Base.{
  ℕ, zero, suc, ◌+◌, ◌-◌, ◌^◌, List, [], ◌∷◌, Bool, true, false, not, ◌==◌, ltb, leb,
}
use opensqlanywhere.Base.{
  if◌then◌else◌, length, Outcome, ok, err, panic, ◌>>=◌, ◌>>◌, guard, assert, read,
}
use opensqlanywhere.Base.Bytes.{from_le_u16}
use opensqlanywhere.Base.Int.{ℤ, from_word}
use opensqlanywhere.RowDecoder.{
  ColumnType, ColumnDef, RowSchema, DecodeError, VariableLengthLayout, u8_length, u16_le_length,
  declared_width,
}
use opensqlanywhere.RowDecoder.{
  VariableOverflowLayout, unsupported_overflow, pointer, invalid_integer_width, overflow_value,
  invalid_overflow_pointer_width,
}
use opensqlanywhere.RowDecoder.Domains.{is_variable}
use opensqlanywhere.RowDecoder.Cursor.{take_at, from_le_bytes, is_width, read_unsigned, decode_enum}
use opensqlanywhere.RowDecoder.Values.{Value, SaDate, SaDateTime, decode_numeric_value}

-- `i32::from_le_bytes` and its kin, of the bytes that `take` gives: `width` of them, or a panic.
unfoldable pub read_word : (row : List ℕ) (cursor column width : ℕ) → Outcome DecodeError (ℤ × ℕ)
read_word row cursor column width = do
  (bytes, behind) ← take_at row cursor width column
  assert (length bytes == width)
  ok (from_word (256 ^ width) (from_le_bytes bytes), behind)

unfoldable pub read_signed : (row : List ℕ) (cursor column width : ℕ) → Outcome DecodeError (ℤ × ℕ)
read_signed row cursor column width =
    if not (is_width width)
    then err (invalid_integer_width column width)
    else read_word row cursor column width

-- The length of a variable field and whether it is the overflow mark, and the cursor behind it.
unfoldable pub short_length :
    (row : List ℕ) (cursor column : ℕ) → Outcome DecodeError ((ℕ × Bool) × ℕ)
short_length row cursor column = do
  (bytes, behind) ← take_at row cursor 1 column
  length ← read bytes 0
  ok ((length, length == 0xff), behind)

unfoldable pub wide_length :
    (row : List ℕ) (cursor column : ℕ) → Outcome DecodeError ((ℕ × Bool) × ℕ)
wide_length row cursor column = do
  (bytes, behind) ← take_at row cursor 2 column
  b0 ← read bytes 0
  b1 ← read bytes 1
  let length = from_le_u16 b0 b1
  ok ((length, length == 0xffff), behind)

unfoldable pub variable_length :
    (row : List ℕ) (cursor column width : ℕ)
    → VariableLengthLayout
    → Outcome DecodeError ((ℕ × Bool) × ℕ)
variable_length row cursor column width u8_length = short_length row cursor column
variable_length row cursor column width u16_le_length = wide_length row cursor column
variable_length row cursor column width (declared_width wide_at_or_above) =
    if leb wide_at_or_above width
    then wide_length row cursor column
    else short_length row cursor column

unfoldable pub read_overflow :
    (row : List ℕ) (cursor column : ℕ) → VariableOverflowLayout → Outcome DecodeError (Value × ℕ)
read_overflow row cursor column unsupported_overflow = err (overflow_value column)
read_overflow row cursor column (pointer width) =
    if width == 0 then err (invalid_overflow_pointer_width column) else do
      (bytes, behind) ← take_at row cursor width column
      ok (Value.overflow_pointer bytes, behind)

-- The branch of `decode_non_boolean` for a variable type.
unfoldable pub decode_variable :
    (row : List ℕ) (cursor column_index : ℕ)
    → ColumnDef
    → RowSchema
    → Outcome DecodeError (Value × ℕ)
decode_variable row cursor column_index column schema = do
  ((length, overflow), start) ←
      variable_length row cursor column_index column.width schema.variable_length_layout
  if overflow then read_overflow row start column_index schema.variable_overflow_layout else do
    (bytes, behind) ← take_at row start length column_index
    ok (Value.bytes bytes, behind)

abbrev as_integer : Outcome DecodeError (ℤ × ℕ) → Outcome DecodeError (Value × ℕ)
as_integer m = do (value, behind) ← m; ok (Value.integer value, behind)

-- The `match` of `decode_non_boolean`.
unfoldable pub decode_fixed :
    (row : List ℕ) (cursor column_index : ℕ)
    → ColumnDef
    → RowSchema
    → ColumnType
    → Outcome DecodeError (Value × ℕ)
decode_fixed row cursor i column schema ColumnType.small_int =
    as_integer (read_signed row cursor i column.width)
decode_fixed row cursor i column schema ColumnType.integer =
    as_integer (read_signed row cursor i column.width)
decode_fixed row cursor i column schema ColumnType.integer2 =
    as_integer (read_signed row cursor i column.width)
decode_fixed row cursor i column schema ColumnType.uint64 = do
  (value, behind) ← read_unsigned row cursor i column.width
  ok (Value.unsigned value, behind)
decode_fixed row cursor i column schema ColumnType.uint32 = do
  (value, behind) ← read_unsigned row cursor i column.width
  ok (Value.unsigned value, behind)
decode_fixed row cursor i column schema ColumnType.int64 = do
  guard (column.width == 8) (invalid_integer_width i column.width)
  as_integer (read_word row cursor i 8)
decode_fixed row cursor i column schema ColumnType.numeric =
    decode_numeric_value row cursor i schema.numeric_layout
decode_fixed row cursor i column schema ColumnType.enum = do
  (value, behind) ← decode_enum row cursor i column.width schema.enum_layout
  ok (Value.enum value, behind)
decode_fixed row cursor i column schema ColumnType.date = do
  (minutes, behind) ← read_word row cursor i 4
  ok (Value.date (record { raw_minutes = minutes }), behind)
decode_fixed row cursor i column schema ColumnType.date_time = do
  (minutes, next) ← read_word row cursor i 4
  (subminute_raw, behind) ← read_word row next i 4
  ok (
    Value.date_time (record {
      date = record { raw_minutes = minutes };
      minutes_since_sa_epoch = minutes;
      subminute_raw = subminute_raw;
    }),
    behind,
  )
decode_fixed row cursor i column schema ColumnType.boolean = panic
decode_fixed row cursor i column schema ColumnType.char = panic
decode_fixed row cursor i column schema ColumnType.char2 = panic
decode_fixed row cursor i column schema ColumnType.text = panic
decode_fixed row cursor i column schema ColumnType.text2 = panic

unfoldable pub decode_non_boolean :
    (row : List ℕ) (cursor column_index : ℕ)
    → ColumnDef
    → RowSchema
    → Outcome DecodeError (Value × ℕ)
decode_non_boolean row cursor column_index column schema =
    if is_variable column.column_type
    then decode_variable row cursor column_index column schema
    else decode_fixed row cursor column_index column schema column.column_type

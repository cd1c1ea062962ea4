-- ===== src/RowDecoder.antt =====
-- crates/opensqlany/src/row_decoder.rs: the columns of a row, its header, and the cursor in it.
pub mod Domains
pub mod Header
pub mod Cursor
pub mod Values
pub mod Fields
pub mod Rows
pub mod Prefix
use opensqlanywhere.Base.{
  ℕ, zero, suc, ◌+◌, ◌-◌, ◌/◌, ◌%◌, ◌^◌, List, [], ◌∷◌, Bool, true, false, not, ◌||◌, ◌==◌, ltb,
}
use opensqlanywhere.Base.{if◌then◌else◌, length, Option, none, some, bit_and}
use opensqlanywhere.Base.{Outcome, ok, err, ◌>>=◌, ◌>>◌, guard, read, slice}
use opensqlanywhere.Base.Bytes.{from_le_u16}
use Prim.Native.String.{String}

abbrev pub row_size_mask : ℕ
row_size_mask = 0x1fff

pub data ColumnType : Type 0 where
  small_int integer numeric integer2 date char char2 text text2 date_time enum uint64 uint32 :
      ColumnType
  int64 boolean : ColumnType

pub record ColumnDef : Type 0 where
  pub id : ℕ
  pub name : String
  pub column_type : ColumnType
  pub width : ℕ
  pub nullable : Bool

pub data NullBitmapLayout : Type 0 where
  msb_present lsb_present msb_null lsb_null : NullBitmapLayout

pub data NullBitmapCoverage : Type 0 where
  nullable_columns all_columns : NullBitmapCoverage

pub data RowPrefixLayout : Type 0 where
  no_prefix one_byte_carrier two_byte_carrier three_byte_carrier : RowPrefixLayout

pub data BooleanTailLayout : Type 0 where
  boolean_bytes packed_msb_first inline_bytes inline_packed_runs_msb_first : BooleanTailLayout
  inline_packed_runs_lsb_first inline_u16_le : BooleanTailLayout

pub data NumericLayout : Type 0 where
  legacy_forward enterprise_materialized_raw : NumericLayout

pub data EnumLayout : Type 0 where
  unsupported fixed_width_unsigned : EnumLayout

pub data VariableOverflowLayout : Type 0 where
  unsupported_overflow : VariableOverflowLayout
  pointer : (width : ℕ) → VariableOverflowLayout

pub data VariableLengthLayout : Type 0 where
  u8_length u16_le_length : VariableLengthLayout
  declared_width : (wide_at_or_above : ℕ) → VariableLengthLayout

pub record RowSchema : Type 0 where
  pub columns : List ColumnDef
  pub boolean_tail : BooleanTailLayout
  pub numeric_layout : NumericLayout
  pub enum_layout : EnumLayout
  pub variable_overflow_layout : VariableOverflowLayout
  pub variable_length_layout : VariableLengthLayout
  pub null_bitmap_layout : NullBitmapLayout
  pub null_bitmap_coverage : NullBitmapCoverage
  pub row_prefix_layout : RowPrefixLayout

-- `RowSchema::new`
abbrev pub default_schema : List ColumnDef → RowSchema
default_schema columns = record {
  columns = columns;
  boolean_tail = boolean_bytes;
  numeric_layout = legacy_forward;
  enum_layout = unsupported;
  variable_overflow_layout = unsupported_overflow;
  variable_length_layout = u8_length;
  null_bitmap_layout = msb_present;
  null_bitmap_coverage = nullable_columns;
  row_prefix_layout = no_prefix;
}

pub data DecodeError : Type 0 where
  missing_row_header : DecodeError
  invalid_row_size : (declared available : ℕ) → DecodeError
  unsupported_row_flags : ℕ → DecodeError
  truncated : (column needed remaining : ℕ) → DecodeError
  invalid_integer_width unsupported_enum invalid_enum_width : (column width : ℕ) → DecodeError
  overflow_value invalid_overflow_pointer_width : (column : ℕ) → DecodeError
  invalid_numeric_digit : (column digit : ℕ) → DecodeError
  invalid_boolean_byte invalid_boolean_u16 : (column value : ℕ) → DecodeError
  unsupported_numeric_marker : (column marker : ℕ) → DecodeError
  truncated_boolean_tail : (needed remaining : ℕ) → DecodeError
  trailing_data trailing_materialized_row_carrier : (remaining : ℕ) → DecodeError
  continued_materialized_row_carrier : DecodeError
  unsupported_materialized_row_carrier_flags : (flags : ℕ) → DecodeError
  prefix_ordinal_out_of_range : (ordinal column_count : ℕ) → DecodeError
  prefix_overlaps_boolean_tail : (column : ℕ) → DecodeError

abbrev pub count_nullable : List ColumnDef → ℕ
count_nullable [] = 0
count_nullable (c ∷ cs) = if c.nullable then suc (count_nullable cs) else count_nullable cs

unfoldable pub null_bitmap_bit_count : RowSchema → ℕ
null_bitmap_bit_count schema = elim schema.null_bitmap_coverage [
  | nullable_columns ↦ count_nullable schema.columns
  | all_columns ↦ length schema.columns
]

-- `0x80 >> bit_index` or `1 << bit_index`
abbrev pub mask_of : NullBitmapLayout → ℕ → ℕ
mask_of msb_present bit_index = 0x80 / 2 ^ bit_index
mask_of msb_null bit_index = 0x80 / 2 ^ bit_index
mask_of lsb_present bit_index = 2 ^ bit_index
mask_of lsb_null bit_index = 2 ^ bit_index

abbrev pub field_present : NullBitmapLayout → Bool → Bool
field_present msb_present set = set
field_present lsb_present set = set
field_present msb_null set = not set
field_present lsb_null set = not set

abbrev pub bitmap_index_of : NullBitmapCoverage → (nullable_index column_index : ℕ) → ℕ
bitmap_index_of nullable_columns nullable_index column_index = nullable_index
bitmap_index_of all_columns nullable_index column_index = column_index

-- The loop over the columns: whether each is present.
unfoldable pub presence_from :
    {E : Type 0}
    → NullBitmapLayout
    → NullBitmapCoverage
    → List ℕ
    → List ColumnDef
    → ℕ
    → ℕ
    → Outcome E (List Bool)
presence_from layout coverage null_bitmap [] nullable_index column_index = ok []
presence_from {E} layout coverage null_bitmap (c ∷ cs) nullable_index column_index =
    let bitmap_index = bitmap_index_of coverage nullable_index column_index in
    let with_bit =
      presence_from {E = E} layout coverage null_bitmap cs (suc nullable_index)
        (suc column_index) in
    let without_bit =
      presence_from {E = E} layout coverage null_bitmap cs nullable_index (suc column_index) in
    if not c.nullable then (without_bit >>= (λ more. ok (true ∷ more))) else do
      byte ← read null_bitmap (bitmap_index / 8)
      let set = not (bit_and byte (mask_of layout (bitmap_index % 8)) == 0)
      more ← with_bit
      ok (field_present layout set ∷ more)

abbrev pub prefix_len_of : RowPrefixLayout → ℕ
prefix_len_of no_prefix = 0
prefix_len_of one_byte_carrier = 1
prefix_len_of two_byte_carrier = 2
prefix_len_of three_byte_carrier = 3

pub record RowHeaderAndPresence : Type 0 where
  pub row : List ℕ
  pub declared_size : ℕ
  pub flags : ℕ
  pub null_bitmap : List ℕ
  pub cursor : ℕ
  pub present : List Bool

unfoldable pub row_header_and_presence :
    List ℕ → RowSchema → Outcome DecodeError RowHeaderAndPresence
row_header_and_presence input schema = do
  guard (not (ltb (length input) 2)) missing_row_header
  b0 ← read input 0
  b1 ← read input 1
  let raw_size = from_le_u16 b0 b1
  let declared_size = bit_and raw_size row_size_mask
  guard (not (ltb declared_size 2 || ltb (length input) declared_size))
      (invalid_row_size declared_size (length input))
  let flags = bit_and raw_size (2 ^ 16 - 1 - row_size_mask)
  guard (flags == 0) (unsupported_row_flags flags)
  row ← slice input 0 declared_size
  let prefix_len = prefix_len_of schema.row_prefix_layout
  let null_bytes = (null_bitmap_bit_count schema + 7) / 8
  guard (not (ltb (length row) (2 + prefix_len + null_bytes)))
      (truncated 0 (prefix_len + null_bytes) (length row - 2))
  null_bitmap ← slice row (2 + prefix_len) (2 + prefix_len + null_bytes)
  present ←
      presence_from schema.null_bitmap_layout schema.null_bitmap_coverage null_bitmap schema.columns
        0 0
  ok (record {
    row = row;
    declared_size = declared_size;
    flags = flags;
    null_bitmap = null_bitmap;
    cursor = 2 + prefix_len + null_bytes;
    present = present;
  })

-- ===== src/Examples/Decoding.antt =====
-- Rows, parts of rows, their carriers and numbers at concrete inputs.
use opensqlanywhere.Base.{
  false, ◌+◌, ℕ, ◌-◌, ◌<◌, ◌≡◌, ◌⊎◌, refl, List, [], ◌∷◌, ◌++◌, arith, true, ok, err, read, slice,
  index, store, Gives,
}
use opensqlanywhere.Base.Bytes.{to_le_u16}
use opensqlanywhere.Base.Int.{negsuc}
use opensqlanywhere.RowDecoder.{
  ColumnDef, ColumnType, RowSchema, default_schema, packed_msb_first, row_header_and_presence,
  presence_from, null_bitmap_bit_count, DecodeError, trailing_data,
}
use opensqlanywhere.RowDecoder.Domains.{is_boolean, is_variable}
use opensqlanywhere.RowDecoder.Cursor.{take_at}
use opensqlanywhere.RowDecoder.Values.{Value}
use opensqlanywhere.RowDecoder.Fields.{read_word, read_signed, decode_fixed, decode_non_boolean}
use opensqlanywhere.RowDecoder.Rows.{
  DecodedRow, decode_row, decode_body, decode_columns, decode_column, decode_boolean, decode_tail,
  tail_value, required_tail, decode_row_exact, decode_materialized_row_record_exact,
}
use opensqlanywhere.RowDecoder.Rows.Total.{IsRow, decode_row_exact_cases}
use opensqlanywhere.RowDecoder.Values.{Decimal, read_numeric_legacy, write_digits}
use opensqlanywhere.RowDecoder.Values.Numerics.{IsNumber, read_numeric_legacy-IsNumber}
use opensqlanywhere.RowDecoder.Rows.{is_inline_boolean_layout}
use opensqlanywhere.RowDecoder.Prefix.{
  decode_row_prefix_and_boolean_tail, prefix_body, boolean_columns, prefix_columns, prefix_column,
  prefix_boolean, push_tail,
}
use opensqlanywhere.RowDecoder.Prefix.Total.{IsPrefix, decode_row_prefix-IsPrefix}
use opensqlanywhere.RowDecoder.Rows.Carriers.{carrier-row}
use opensqlanywhere.RowSegment.Encoding.{write_plain}

abbrev column : ℕ → ColumnType → ColumnDef
column width t = record { id = 1; name = "c"; column_type = t; width = width; nullable = true }

-- A Boolean, a small integer and a Boolean, each of which may be null.
abbrev flags_and_number : RowSchema
flags_and_number =
    record (default_schema (
      column 1 ColumnType.boolean
      ∷ column 2 ColumnType.small_int
      ∷ column 1 ColumnType.boolean
      ∷ [])) { boolean_tail = packed_msb_first }

-- The first Boolean is null, the integer is -2, and the other Boolean is true.
abbrev small_row : List ℕ
small_row = 6 ∷ 0 ∷ 0x60 ∷ 0xfe ∷ 0xff ∷ 0x80 ∷ []

small_row_decoded :
    decode_row small_row flags_and_number
    ≡ ok (record {
      declared_size = 6;
      consumed_size = 6;
      flags = 0;
      values = Value.null ∷ Value.integer (negsuc 1) ∷ Value.boolean true ∷ [];
    })
unfolding decode_row decode_body row_header_and_presence presence_from null_bitmap_bit_count read
    slice index store decode_columns decode_column decode_boolean decode_tail tail_value
    required_tail is_boolean is_variable take_at read_word read_signed decode_fixed
    decode_non_boolean
small_row_decoded = refl

decode_row_exact_cases_example :
    ((e : DecodeError) × (decode_row small_row flags_and_number ≡ err e)
      × (decode_row_exact small_row flags_and_number ≡ err e))
    ⊎ ((d : DecodedRow) × (decode_row small_row flags_and_number ≡ ok d)
        × IsRow small_row flags_and_number d
        × (((d.consumed_size < d.declared_size)
              × (decode_row_exact small_row flags_and_number
                  ≡ err (trailing_data (d.declared_size - d.consumed_size))))
            ⊎ ((d.consumed_size ≡ d.declared_size)
                × (decode_row_exact small_row flags_and_number ≡ ok d))))
decode_row_exact_cases_example = decode_row_exact_cases small_row flags_and_number

carrier-row_example :
    decode_materialized_row_record_exact
      (write_plain 0 (0x60 ∷ 0xfe ∷ 0xff ∷ 0x80 ∷ []))
      flags_and_number
    ≡ decode_row_exact (to_le_u16 6 ++ (0x60 ∷ 0xfe ∷ 0xff ∷ 0x80 ∷ [])) flags_and_number
carrier-row_example = carrier-row (0x60 ∷ 0xfe ∷ 0xff ∷ 0x80 ∷ []) flags_and_number (omega arith)

decode_row_prefix-IsPrefix_example :
    Gives
      (IsPrefix small_row flags_and_number 2)
      (decode_row_prefix_and_boolean_tail small_row flags_and_number 2)
decode_row_prefix-IsPrefix_example = decode_row_prefix-IsPrefix small_row flags_and_number 2

small_prefix_decoded :
    decode_row_prefix_and_boolean_tail small_row flags_and_number 2
    ≡ ok (record {
      declared_size = 6;
      flags = 0;
      through_ordinal = 2;
      prefix_values =
          record { column_index = 1; column_id = 1; value = Value.integer (negsuc 1) } ∷ [];
      boolean_values = record { column_index = 2; column_id = 1; value = Value.boolean true } ∷ [];
      opaque_middle_len = 0;
    })
unfolding decode_row_prefix_and_boolean_tail prefix_body boolean_columns prefix_columns
    prefix_column prefix_boolean push_tail row_header_and_presence presence_from
    null_bitmap_bit_count read slice index is_inline_boolean_layout tail_value required_tail
    is_boolean is_variable take_at read_word read_signed decode_fixed decode_non_boolean
small_prefix_decoded = refl

-- The number 12.34: two digits of the base 100 with the exponent 0xbf.
abbrev number_row : List ℕ
number_row = 7 ∷ 2 ∷ 0xbf ∷ 12 ∷ 34 ∷ 9 ∷ []

number_read :
    read_numeric_legacy number_row 1 0
    ≡ ok (record { negative = false; coefficient = b'1' ∷ b'2' ∷ b'3' ∷ b'4' ∷ []; scale = 2 }, 5)
unfolding read_numeric_legacy take_at write_digits read slice
number_read = refl

read_numeric_legacy-IsNumber_example :
    (r : Decimal) × (read_numeric_legacy number_row 1 0 ≡ ok (r, 1 + 2 + 2))
    × IsNumber 0xbf (12 ∷ 34 ∷ []) r
read_numeric_legacy-IsNumber_example =
    read_numeric_legacy-IsNumber number_row 1 0 0xbf 12 (34 ∷ []) (9 ∷ []) refl (omega arith)

-- ===== src/RowDecoder/Rows.antt =====
-- `decode_row`, `decode_row_exact` and `decode_materialized_row_record_exact`.
pub mod Nulls
pub mod Runs
pub mod Packed
pub mod Columns
pub mod Total
pub mod Carriers
use opensqlanywhere.Base.{
  ℕ, zero, suc, ◌+◌, ◌-◌, ◌*◌, ◌/◌, ◌%◌, ◌^◌, List, [], ◌∷◌, ◌++◌, Bool, true, false, not, ◌&&◌,
  ◌||◌, ◌==◌, ltb, leb, bit_and,
}
use opensqlanywhere.Base.{
  if◌then◌else◌, length, replicate, drop, Outcome, ok, err, panic, ◌>>=◌, ◌>>◌, guard, map_err,
  read, slice, index, store, subtract,
}
use opensqlanywhere.Base.Bytes.{to_le_u16}
use opensqlanywhere.RowDecoder.{
  ColumnDef, RowSchema, DecodeError, BooleanTailLayout, boolean_bytes, packed_msb_first,
  inline_bytes, inline_packed_runs_msb_first, inline_packed_runs_lsb_first, inline_u16_le,
}
use opensqlanywhere.RowDecoder.{
  missing_row_header, invalid_row_size, truncated_boolean_tail, trailing_data,
  trailing_materialized_row_carrier, continued_materialized_row_carrier,
  unsupported_materialized_row_carrier_flags,
}
use opensqlanywhere.RowDecoder.{RowHeaderAndPresence, row_header_and_presence}
use opensqlanywhere.RowDecoder.Domains.{is_boolean}
use opensqlanywhere.RowDecoder.Cursor.{take_at, decode_boolean_byte, decode_boolean_u16}
use opensqlanywhere.RowDecoder.Values.{Value}
use opensqlanywhere.RowDecoder.Fields.{decode_non_boolean}
use opensqlanywhere.RowSegment.{
  RowSegment, RowSegmentError, parse_row_segment, payload, is_continued,
}

pub record DecodedRow : Type 0 where
  pub declared_size : ℕ
  pub consumed_size : ℕ
  pub flags : ℕ
  pub values : List Value

-- The variables of the loop over the columns.
pub record DecodeState : Type 0 where
  pub cursor : ℕ
  pub values : List Value
  pub bool_values : List ℕ

unfoldable pub is_inline_boolean_layout : BooleanTailLayout → Bool
is_inline_boolean_layout boolean_bytes = false
is_inline_boolean_layout packed_msb_first = false
is_inline_boolean_layout inline_bytes = true
is_inline_boolean_layout inline_packed_runs_msb_first = true
is_inline_boolean_layout inline_packed_runs_lsb_first = true
is_inline_boolean_layout inline_u16_le = true

-- The loop of `inline_boolean_run_end`, on the columns and presences from `end` on.
unfoldable pub run_end_from : {E : Type 0} → List ColumnDef → List Bool → ℕ → Outcome E ℕ
run_end_from [] present end = ok end
run_end_from (c ∷ cs) [] end = if is_boolean c.column_type then panic else ok end
run_end_from {E} (c ∷ cs) (p ∷ ps) end =
    let rest = run_end_from {E = E} cs ps (suc end) in
    if is_boolean c.column_type && p then rest else ok end

unfoldable pub inline_boolean_run_end : {E : Type 0} → RowSchema → List Bool → ℕ → Outcome E ℕ
unfolding run_end_from
inline_boolean_run_end schema present start =
    run_end_from (drop start schema.columns) (drop start present) start

unfoldable pub inline_packed_boolean_bit :
    {E : Type 0} → BooleanTailLayout → List ℕ → ℕ → Outcome E Bool
inline_packed_boolean_bit inline_packed_runs_msb_first bytes ordinal = do
  byte ← read bytes (ordinal / 8)
  ok (not (bit_and byte (0x80 / 2 ^ (ordinal % 8)) == 0))
inline_packed_boolean_bit inline_packed_runs_lsb_first bytes ordinal = do
  byte ← read bytes (ordinal / 8)
  ok (not (bit_and byte (2 ^ (ordinal % 8)) == 0))
inline_packed_boolean_bit layout bytes ordinal = panic

-- Whether the column before is a Boolean that is present, so that its run holds this one.
unfoldable pub continues_run : {E : Type 0} → RowSchema → List Bool → ℕ → Outcome E Bool
continues_run schema present zero = ok false
continues_run schema present (suc before) = do
  column ← index schema.columns before
  if is_boolean column.column_type then index present before else ok false

-- `for (offset, value) in (column_index..run_end).enumerate()`, with the rounds left.
unfoldable pub write_run :
    {E : Type 0}
    → BooleanTailLayout
    → List ℕ
    → (left offset value : ℕ) → List Value
    → Outcome E (List Value)
write_run layout bytes zero offset value values = ok values
write_run layout bytes (suc left) offset value values = do
  bit ← inline_packed_boolean_bit layout bytes offset
  written ← store values value (Value.boolean bit)
  write_run layout bytes left (suc offset) (suc value) written

-- A Boolean that is present, in a layout of inline packed runs.
unfoldable pub decode_run :
    (row : List ℕ)
    → RowSchema
    → List Bool
    → BooleanTailLayout
    → (column_index : ℕ) → DecodeState
    → Outcome DecodeError DecodeState
decode_run row schema present layout i st = do
  inside ← continues_run schema present i
  let start_run = do
    run_end ← inline_boolean_run_end schema present i
    (bytes, behind) ← take_at row st.cursor ((run_end - i + 7) / 8) i
    values ← write_run layout bytes (run_end - i) 0 i st.values
    ok (record st { cursor = behind; values = values })
  if inside then ok st else start_run

-- A Boolean that is present.
unfoldable pub decode_boolean :
    (row : List ℕ)
    → RowSchema
    → List Bool
    → BooleanTailLayout
    → (column_index : ℕ) → DecodeState
    → Outcome DecodeError DecodeState
decode_boolean row schema present inline_bytes i st = do
  (bytes, behind) ← take_at row st.cursor 1 i
  byte ← read bytes 0
  value ← decode_boolean_byte i byte
  values ← store st.values i (Value.boolean value)
  ok (record st { cursor = behind; values = values })
decode_boolean row schema present inline_u16_le i st = do
  (bytes, behind) ← take_at row st.cursor 2 i
  value ← decode_boolean_u16 i bytes
  values ← store st.values i (Value.boolean value)
  ok (record st { cursor = behind; values = values })
decode_boolean row schema present boolean_bytes i st =
    ok (record st { bool_values = st.bool_values ++ (i ∷ []) })
decode_boolean row schema present packed_msb_first i st =
    ok (record st { bool_values = st.bool_values ++ (i ∷ []) })
decode_boolean row schema present inline_packed_runs_msb_first i st =
    decode_run row schema present inline_packed_runs_msb_first i st
decode_boolean row schema present inline_packed_runs_lsb_first i st =
    decode_run row schema present inline_packed_runs_lsb_first i st

-- The body of the loop over the columns.
unfoldable pub decode_column :
    (row : List ℕ)
    → RowSchema
    → List Bool
    → (column_index : ℕ) → ColumnDef
    → DecodeState
    → Outcome DecodeError DecodeState
decode_column row schema present i column st = do
  is_present ← index present i
  let field = do
    (value, behind) ← decode_non_boolean row st.cursor i column schema
    values ← store st.values i value
    ok (record st { cursor = behind; values = values })
  if not is_present
      then ok st
      else if is_boolean column.column_type
      then decode_boolean row schema present schema.boolean_tail i st
      else field

unfoldable pub decode_columns :
    (row : List ℕ)
    → RowSchema
    → List Bool
    → (column_index : ℕ) → List ColumnDef
    → DecodeState
    → Outcome DecodeError DecodeState
decode_columns row schema present i [] st = ok st
decode_columns row schema present i (c ∷ cs) st = do
  st' ← decode_column row schema present i c st
  decode_columns row schema present (suc i) cs st'

unfoldable pub required_tail : BooleanTailLayout → ℕ → ℕ
required_tail boolean_bytes bool_count = bool_count
required_tail packed_msb_first bool_count = (bool_count + 7) / 8
required_tail inline_bytes bool_count = 0
required_tail inline_packed_runs_msb_first bool_count = 0
required_tail inline_packed_runs_lsb_first bool_count = 0
required_tail inline_u16_le bool_count = 0

-- The value of a Boolean in the tail.
unfoldable pub tail_value :
    BooleanTailLayout → (tail : List ℕ) → (ordinal column_index : ℕ) → Outcome DecodeError Bool
tail_value boolean_bytes tail ordinal column_index = do
  byte ← read tail ordinal
  decode_boolean_byte column_index byte
tail_value packed_msb_first tail ordinal column_index = do
  byte ← read tail (ordinal / 8)
  ok (not (bit_and byte (0x80 / 2 ^ (ordinal % 8)) == 0))
tail_value layout tail ordinal column_index = panic

-- The loop over the Booleans of the tail, from an ordinal on.
unfoldable pub decode_tail :
    BooleanTailLayout
    → (tail : List ℕ) → (ordinal : ℕ) → List ℕ
    → List Value
    → Outcome DecodeError (List Value)
decode_tail layout tail ordinal [] values = ok values
decode_tail layout tail ordinal (i ∷ is) values = do
  value ← tail_value layout tail ordinal i
  written ← store values i (Value.boolean value)
  decode_tail layout tail (suc ordinal) is written

-- `decode_row` behind the header and the presences.
unfoldable pub decode_body : RowSchema → RowHeaderAndPresence → Outcome DecodeError DecodedRow
decode_body schema h = do
  st ← decode_columns h.row schema h.present 0 schema.columns (record {
    cursor = h.cursor;
    values = replicate (length schema.columns) Value.null;
    bool_values = [];
  })
  let remaining = length h.row - st.cursor
  let required = required_tail schema.boolean_tail (length st.bool_values)
  guard (not (ltb remaining required)) (truncated_boolean_tail required remaining)
  tail ← slice h.row st.cursor (st.cursor + required)
  values ← decode_tail schema.boolean_tail tail 0 st.bool_values st.values
  ok (record {
    declared_size = h.declared_size;
    consumed_size = st.cursor + required;
    flags = h.flags;
    values = values;
  })

unfoldable pub decode_row : List ℕ → RowSchema → Outcome DecodeError DecodedRow
decode_row input schema = do
  guard (not (ltb (length input) 2)) missing_row_header
  h ← row_header_and_presence input schema
  decode_body schema h

unfoldable pub decode_row_exact : List ℕ → RowSchema → Outcome DecodeError DecodedRow
decode_row_exact input schema = do
  decoded ← decode_row input schema
  remaining ← subtract decoded.declared_size decoded.consumed_size
  guard (remaining == 0) (trailing_data remaining)
  ok decoded

-- The sums and conversions of lengths are on values below 2 ^ 17; `u16::try_from` is the test of
-- the size.
unfoldable pub decode_materialized_row_record_exact :
    List ℕ → RowSchema → Outcome DecodeError DecodedRow
decode_materialized_row_record_exact input schema = do
  segment ← map_err (λ (e : RowSegmentError). missing_row_header) (parse_row_segment input)
  beyond ← subtract (length input) segment.declared_len
  guard (segment.declared_len == length input) (trailing_materialized_row_carrier beyond)
  guard (not (is_continued segment)) continued_materialized_row_carrier
  guard (segment.flags == 0) (unsupported_materialized_row_carrier_flags segment.flags)
  p ← payload segment
  let size = length p + 2
  guard (ltb size (2 ^ 16)) (invalid_row_size size (length input))
  decode_row_exact (to_le_u16 size ++ p) schema

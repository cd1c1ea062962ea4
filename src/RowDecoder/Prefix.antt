-- ===== src/RowDecoder/Prefix.antt =====
-- `decode_row_prefix_and_boolean_tail`: the columns through an ordinal, and the Booleans of the tail.
pub mod Order
pub mod PutDown
pub mod State
pub mod Runs
pub mod Columns
pub mod Booleans
pub mod Total
use opensqlanywhere.Base.{
  ℕ, zero, suc, ◌+◌, ◌-◌, ◌/◌, List, [], ◌∷◌, ◌++◌, Bool, true, false, not, ◌&&◌, ◌||◌, ◌==◌, ltb,
  leb,
}
use opensqlanywhere.Base.{
  if◌then◌else◌, length, take, Outcome, ok, err, ◌>>=◌, ◌>>◌, guard, read, slice, index,
}
use opensqlanywhere.RowDecoder.{
  ColumnDef, RowSchema, DecodeError, BooleanTailLayout, boolean_bytes, packed_msb_first,
  inline_bytes, inline_packed_runs_msb_first, inline_packed_runs_lsb_first, inline_u16_le,
}
use opensqlanywhere.RowDecoder.{
  prefix_ordinal_out_of_range, prefix_overlaps_boolean_tail, truncated_boolean_tail,
  RowHeaderAndPresence, row_header_and_presence,
}
use opensqlanywhere.RowDecoder.Domains.{is_boolean}
use opensqlanywhere.RowDecoder.Cursor.{take_at, decode_boolean_byte, decode_boolean_u16}
use opensqlanywhere.RowDecoder.Values.{Value}
use opensqlanywhere.RowDecoder.Fields.{decode_non_boolean}
use opensqlanywhere.RowDecoder.Rows.{
  is_inline_boolean_layout, inline_boolean_run_end, inline_packed_boolean_bit, continues_run,
  required_tail, tail_value,
}

pub record PartialRowValue : Type 0 where
  pub column_index : ℕ
  pub column_id : ℕ
  pub value : Value

pub record PartialDecodedRow : Type 0 where
  pub declared_size : ℕ
  pub flags : ℕ
  pub through_ordinal : ℕ
  pub prefix_values : List PartialRowValue
  pub boolean_values : List PartialRowValue
  pub opaque_middle_len : ℕ

-- The variables of the loop over the columns.
pub record PrefixState : Type 0 where
  pub cursor : ℕ
  pub prefix_values : List PartialRowValue
  pub boolean_values : List PartialRowValue

abbrev pub value_of : ℕ → ColumnDef → Value → PartialRowValue
value_of i column value = record { column_index = i; column_id = column.id; value = value }

-- `filter` of the columns that are Booleans and present, with their indices.
unfoldable pub boolean_columns :
    {E : Type 0}
    → List Bool
    → (column_index : ℕ) → List ColumnDef
    → Outcome E (List (ℕ × ColumnDef))
boolean_columns present i [] = ok []
boolean_columns present i (c ∷ cs) = do
  there ← (if is_boolean c.column_type then index present i else ok false)
  more ← boolean_columns present (suc i) cs
  ok (if there then (i, c) ∷ more else more)

-- `for (offset, boolean_index) in (index..run_end).enumerate()`, with the rounds left.
unfoldable pub push_run :
    {E : Type 0}
    → RowSchema
    → (through : ℕ) → BooleanTailLayout
    → List ℕ
    → (left offset boolean_index : ℕ) → List PartialRowValue
    → Outcome E (List PartialRowValue)
push_run schema through layout bytes zero offset boolean_index values = ok values
push_run {E} schema through layout bytes (suc left) offset boolean_index values =
    let further = (do
      column ← index schema.columns boolean_index
      bit ← inline_packed_boolean_bit layout bytes offset
      push_run {E = E} schema through layout bytes left (suc offset) (suc boolean_index)
          (values ++ (value_of boolean_index column (Value.boolean bit) ∷ []))) in
    if leb through boolean_index then ok values else further

-- A Boolean that is present, in a layout of inline packed runs.
unfoldable pub prefix_run :
    (row : List ℕ)
    → RowSchema
    → (through : ℕ) → List Bool
    → BooleanTailLayout
    → (column_index : ℕ) → PrefixState
    → Outcome DecodeError PrefixState
prefix_run row schema through present layout i st = do
  inside ← continues_run schema present i
  let start_run = do
    run_end ← inline_boolean_run_end schema present i
    (bytes, behind) ← take_at row st.cursor ((run_end - i + 7) / 8) i
    values ← push_run schema through layout bytes (run_end - i) 0 i st.boolean_values
    ok (record st { cursor = behind; boolean_values = values })
  if inside then ok st else start_run

-- A Boolean that is present.
unfoldable pub prefix_boolean :
    (row : List ℕ)
    → RowSchema
    → (through : ℕ) → List Bool
    → BooleanTailLayout
    → (column_index : ℕ) → ColumnDef
    → PrefixState
    → Outcome DecodeError PrefixState
prefix_boolean row schema through present inline_bytes i column st = do
  (bytes, behind) ← take_at row st.cursor 1 i
  byte ← read bytes 0
  value ← decode_boolean_byte i byte
  ok (record st {
    cursor = behind;
    boolean_values = st.boolean_values ++ (value_of i column (Value.boolean value) ∷ []);
  })
prefix_boolean row schema through present inline_u16_le i column st = do
  (bytes, behind) ← take_at row st.cursor 2 i
  value ← decode_boolean_u16 i bytes
  ok (record st {
    cursor = behind;
    boolean_values = st.boolean_values ++ (value_of i column (Value.boolean value) ∷ []);
  })
prefix_boolean row schema through present inline_packed_runs_msb_first i column st =
    prefix_run row schema through present inline_packed_runs_msb_first i st
prefix_boolean row schema through present inline_packed_runs_lsb_first i column st =
    prefix_run row schema through present inline_packed_runs_lsb_first i st
prefix_boolean row schema through present boolean_bytes i column st = ok st
prefix_boolean row schema through present packed_msb_first i column st = ok st

-- The body of the loop over the columns.
unfoldable pub prefix_column :
    (row : List ℕ)
    → RowSchema
    → (through tail_start : ℕ) → List Bool
    → (column_index : ℕ) → ColumnDef
    → PrefixState
    → Outcome DecodeError PrefixState
prefix_column row schema through tail_start present i column st = do
  is_present ← index present i
  let pushed = λ (value : Value). st.prefix_values ++ (value_of i column value ∷ [])
  let field = do
    (value, behind) ← decode_non_boolean row st.cursor i column schema
    guard (is_inline_boolean_layout schema.boolean_tail || leb behind tail_start)
        (prefix_overlaps_boolean_tail i)
    ok (record st { cursor = behind; prefix_values = pushed value })
  if is_boolean column.column_type
      then (if is_present
          then prefix_boolean row schema through present schema.boolean_tail i column st
          else ok st)
      else if is_present
      then field
      else ok (record st { prefix_values = pushed Value.null })

unfoldable pub prefix_columns :
    (row : List ℕ)
    → RowSchema
    → (through tail_start : ℕ) → List Bool
    → (column_index : ℕ) → List ColumnDef
    → PrefixState
    → Outcome DecodeError PrefixState
prefix_columns row schema through tail_start present i [] st = ok st
prefix_columns row schema through tail_start present i (c ∷ cs) st = do
  st' ← prefix_column row schema through tail_start present i c st
  prefix_columns row schema through tail_start present (suc i) cs st'

-- The loop over the Booleans of the tail, from an ordinal on.
unfoldable pub push_tail :
    BooleanTailLayout
    → (tail : List ℕ) → (ordinal : ℕ) → List (ℕ × ColumnDef)
    → List PartialRowValue
    → Outcome DecodeError (List PartialRowValue)
push_tail layout tail ordinal [] values = ok values
push_tail layout tail ordinal ((i, column) ∷ more) values = do
  value ← tail_value layout tail ordinal i
  push_tail layout tail (suc ordinal) more
      (values ++ (value_of i column (Value.boolean value) ∷ []))

-- What follows the header and the presences.
unfoldable pub prefix_body :
    RowSchema → (through : ℕ) → RowHeaderAndPresence → Outcome DecodeError PartialDecodedRow
prefix_body schema through h = do
  booleans ← boolean_columns h.present 0 schema.columns
  let required = required_tail schema.boolean_tail (length booleans)
  guard (leb h.cursor (length h.row)) (truncated_boolean_tail required 0)
  let remaining = length h.row - h.cursor
  guard (not (ltb remaining required)) (truncated_boolean_tail required remaining)
  let tail_start = length h.row - required
  st ←
      prefix_columns h.row schema through tail_start h.present 0 (take through schema.columns)
        (record { cursor = h.cursor; prefix_values = []; boolean_values = [] })
  let from_tail = do
    tail ← slice h.row tail_start (length h.row)
    push_tail schema.boolean_tail tail 0 booleans st.boolean_values
  values ←
      (if is_inline_boolean_layout schema.boolean_tail then ok st.boolean_values else from_tail)
  guard (leb st.cursor tail_start) (prefix_overlaps_boolean_tail (through - 1))
  ok (record {
    declared_size = h.declared_size;
    flags = h.flags;
    through_ordinal = through;
    prefix_values = st.prefix_values;
    boolean_values = values;
    opaque_middle_len = tail_start - st.cursor;
  })

unfoldable pub decode_row_prefix_and_boolean_tail :
    List ℕ → RowSchema → (through_ordinal : ℕ) → Outcome DecodeError PartialDecodedRow
decode_row_prefix_and_boolean_tail input schema through_ordinal = do
  guard (not (through_ordinal == 0 || ltb (length schema.columns) through_ordinal))
      (prefix_ordinal_out_of_range through_ordinal (length schema.columns))
  h ← row_header_and_presence input schema
  prefix_body schema through_ordinal h

-- ===== src/RowDecoder/Cursor.antt =====
-- Reading scalar values at a cursor: `take`, `read_unsigned`, `decode_enum` and the two readings of a
-- Boolean. A read that fails ends the decoding, so the cursor matters in a result only.
pub mod Scalars
use opensqlanywhere.Base.{
  ℕ, zero, suc, ◌+◌, ◌-◌, ◌*◌, List, [], ◌∷◌, Bool, true, false, not, ◌||◌, ◌==◌, ltb,
}
use opensqlanywhere.Base.{
  if◌then◌else◌, length, Outcome, ok, err, ◌>>=◌, ◌>>◌, guard, assert, read, slice,
}
use opensqlanywhere.Base.Bytes.{from_le_u16}
use opensqlanywhere.RowDecoder.{
  EnumLayout, unsupported, fixed_width_unsigned, DecodeError, truncated, invalid_integer_width,
  unsupported_enum, invalid_enum_width, invalid_boolean_byte, invalid_boolean_u16,
}

-- The bytes at the cursor, and the cursor behind them.
unfoldable pub take_at : (row : List ℕ) (cursor count column : ℕ) → Outcome DecodeError (List ℕ × ℕ)
take_at row cursor count column = do
  let remaining = length row - cursor
  guard (not (ltb remaining count)) (truncated column count remaining)
  result ← slice row cursor (cursor + count)
  ok (result, cursor + count)

-- `from_le_bytes` of an unsigned integer.
abbrev pub from_le_bytes : List ℕ → ℕ
from_le_bytes [] = 0
from_le_bytes (b ∷ bs) = b + 256 * from_le_bytes bs

abbrev pub is_width : ℕ → Bool
is_width width = width == 1 || width == 2 || width == 4 || width == 8

unfoldable pub read_unsigned :
    (row : List ℕ) (cursor column width : ℕ) → Outcome DecodeError (ℕ × ℕ)
read_unsigned row cursor column width =
    if not (is_width width) then err (invalid_integer_width column width) else do
      (bytes, behind) ← take_at row cursor width column
      assert (length bytes == width)
      ok (from_le_bytes bytes, behind)

unfoldable pub decode_enum :
    (row : List ℕ) (cursor column width : ℕ) → EnumLayout → Outcome DecodeError (ℕ × ℕ)
decode_enum row cursor column width unsupported = err (unsupported_enum column width)
decode_enum row cursor column width fixed_width_unsigned =
    if is_width width
    then read_unsigned row cursor column width
    else err (invalid_enum_width column width)

unfoldable pub decode_boolean_byte : (column value : ℕ) → Outcome DecodeError Bool
decode_boolean_byte column value =
    if value == 0
    then ok false
    else if value == 1
    then ok true
    else err (invalid_boolean_byte column value)

unfoldable pub decode_boolean_u16 : (column : ℕ) → List ℕ → Outcome DecodeError Bool
decode_boolean_u16 column bytes = do
  b0 ← read bytes 0
  b1 ← read bytes 1
  let value = from_le_u16 b0 b1
  if value == 0
      then ok false
      else if value == 1
      then ok true
      else err (invalid_boolean_u16 column value)

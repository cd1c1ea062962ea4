-- ===== src/RowDecoder/Values.antt =====
-- The values of a row, and the numbers of variable length: `Decimal`, `read_numeric_legacy` and
-- `read_numeric_enterprise_materialized`.
-- A coefficient is a text of ASCII digits; it is modelled by its bytes.
pub mod Numerics
use opensqlanywhere.Base.{
  ℕ, zero, suc, ◌+◌, ◌-◌, ◌*◌, ◌/◌, ◌%◌, List, [], ◌∷◌, ◌++◌, Bool, true, false, not, ◌&&◌, ◌==◌,
  ltb, leb,
}
use opensqlanywhere.Base.{
  if◌then◌else◌, length, replicate, take, drop, Option, none, some, Outcome, ok, err, ◌>>=◌, read,
  subtract,
}
use opensqlanywhere.Base.Int.{ℤ}
use opensqlanywhere.RowDecoder.{
  NumericLayout, legacy_forward, enterprise_materialized_raw, DecodeError, invalid_numeric_digit,
}
use opensqlanywhere.RowDecoder.Cursor.{take_at}

pub record Decimal : Type 0 where
  pub negative : Bool
  pub coefficient : List ℕ
  pub scale : ℕ

pub record SaDate : Type 0 where
  pub raw_minutes : ℤ

pub record SaDateTime : Type 0 where
  pub date : SaDate
  pub minutes_since_sa_epoch : ℤ
  pub subminute_raw : ℤ

pub record EnterpriseNumericToken : Type 0 where
  pub marker : ℕ
  pub digits : List ℕ

pub data Value : Type 0 where
  null : Value
  integer : ℤ → Value
  unsigned : ℕ → Value
  decimal : Decimal → Value
  enterprise_numeric : EnterpriseNumericToken → Value
  enum : ℕ → Value
  overflow_pointer : List ℕ → Value
  bytes : List ℕ → Value
  date : SaDate → Value
  date_time : SaDateTime → Value
  boolean : Bool → Value

abbrev pub is_null : Value → Bool
is_null null = true
is_null other = false

abbrev pub bytes_are : List ℕ → List ℕ → Bool
bytes_are [] [] = true
bytes_are [] (y ∷ ys) = false
bytes_are (x ∷ xs) [] = false
bytes_are (x ∷ xs) (y ∷ ys) = x == y && bytes_are xs ys

-- `Decimal::to_plain_string`
unfoldable pub to_plain_string : {E : Type 0} → Decimal → Outcome E (List ℕ)
to_plain_string d = do
  let short = leb (length d.coefficient) d.scale
  let zeros = replicate (d.scale + 1 - length d.coefficient) b'0'
  let digits = if short then zeros ++ d.coefficient else d.coefficient
  split ← subtract (length digits) d.scale
  let out = if d.scale == 0 then digits else take split digits ++ (b'.' ∷ drop split digits)
  if d.negative && not (bytes_are d.coefficient (b'0' ∷ [])) then ok (b'-' ∷ out) else ok out

-- `to_string` of an unsigned number, with as many rounds as a number below a thousand needs.
abbrev digits_of : ℕ → ℕ → List ℕ → List ℕ
digits_of zero n out = out
digits_of (suc fuel) n out =
    let more = digits_of fuel (n / 10) ((b'0' + n % 10) ∷ out) in
    if ltb n 10 then (b'0' + n) ∷ out else more

abbrev pub to_string : ℕ → List ℕ
to_string n = digits_of 3 n []

-- `write!("{digit:02}")` for each digit, or the first digit above 99.
unfoldable pub write_digits : ℕ → List ℕ → Outcome DecodeError (List ℕ)
write_digits column [] = ok []
write_digits column (digit ∷ digits) =
    if ltb 99 digit
    then err (invalid_numeric_digit column digit)
    else do rest ← write_digits column digits; ok ((b'0' + digit / 10) ∷ (b'0' + digit % 10) ∷ rest)

-- `trim_start_matches('0')`
abbrev pub trim_zeros : List ℕ → List ℕ
trim_zeros [] = []
trim_zeros (c ∷ cs) = if c == b'0' then trim_zeros cs else c ∷ cs

abbrev pub or_zero : List ℕ → List ℕ
or_zero [] = b'0' ∷ []
or_zero (c ∷ cs) = c ∷ cs

unfoldable pub read_numeric_legacy :
    (row : List ℕ) (cursor column : ℕ) → Outcome DecodeError (Decimal × ℕ)
read_numeric_legacy row cursor column = do
  (c, after_count) ← take_at row cursor 1 column
  count ← read c 0
  (e, start) ← take_at row after_count 1 column
  exponent ← read e 0
  if count == 0
      then ok (
        record {
          negative = ltb 0x80 exponent;
          coefficient = to_string (if ltb 0x80 exponent then exponent - 0x80 else 0x80 - exponent);
          scale = 0;
        },
        start,
      )
      else do
        (digits, behind) ← take_at row start count column
        written ← write_digits column digits
        let coefficient = or_zero (trim_zeros written)
        if leb 0xc0 exponent
            then ok (
              record {
                negative = false;
                coefficient = coefficient ++ replicate ((exponent - 0xc0) * 2) b'0';
                scale = 0;
              },
              behind,
            )
            else ok (
              record { negative = false; coefficient = coefficient; scale = (0xc0 - exponent) * 2 },
              behind,
            )

-- `digits.iter().find(|digit| **digit > 99)`
abbrev pub first_bad_digit : List ℕ → Option ℕ
first_bad_digit [] = none
first_bad_digit (digit ∷ digits) = if ltb 99 digit then some digit else first_bad_digit digits

unfoldable pub read_numeric_enterprise_materialized :
    (row : List ℕ) (cursor column : ℕ) → Outcome DecodeError (Value × ℕ)
read_numeric_enterprise_materialized row cursor column = do
  (c, after_count) ← take_at row cursor 1 column
  count ← read c 0
  (m, start) ← take_at row after_count 1 column
  marker ← read m 0
  if count == 0
      then ok (Value.enterprise_numeric (record { marker = marker; digits = [] }), start)
      else do
        (digits, behind) ← take_at row start count column
        elim (first_bad_digit digits) [
          | some digit ↦ err (invalid_numeric_digit column digit)
          | none ↦
              ok (Value.enterprise_numeric (record { marker = marker; digits = digits }), behind)
        ]

unfoldable pub decode_numeric_value :
    (row : List ℕ) (cursor column : ℕ) → NumericLayout → Outcome DecodeError (Value × ℕ)
decode_numeric_value row cursor column legacy_forward = do
  (d, behind) ← read_numeric_legacy row cursor column
  ok (Value.decimal d, behind)
decode_numeric_value row cursor column enterprise_materialized_raw =
    read_numeric_enterprise_materialized row cursor column

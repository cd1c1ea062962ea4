-- ===== src/RowDecoder/Fields/Bounds.antt =====
-- Where a field's decoding leaves the cursor.
use opensqlanywhere.Base.{
  ℕ, ◌+◌, ◌-◌, ◌*◌, ◌≤◌, ◌≡◌, refl, List, [], ◌∷◌, false, ◌==◌, ltb, leb, arith, Bool-cases, inl,
  inr,
}
use opensqlanywhere.Base.{
  length, lt→ltb, drop, length-take, length-drop, Option-cases, Outcome, ok, ◌>>=◌, read, slice-ok,
  Gives, fails, gives, Gives->>=, Gives-assert, read-Gives,
}
use opensqlanywhere.RowDecoder.{
  ColumnType, ColumnDef, RowSchema, DecodeError, EnumLayout, unsupported, fixed_width_unsigned,
  NumericLayout, legacy_forward, enterprise_materialized_raw, VariableLengthLayout, u8_length,
  u16_le_length, declared_width, VariableOverflowLayout, unsupported_overflow, pointer, truncated,
}
use opensqlanywhere.RowDecoder.Domains.{is_variable, is_boolean}
use opensqlanywhere.RowDecoder.Cursor.{take_at, is_width, read_unsigned, decode_enum}
use opensqlanywhere.RowDecoder.Values.{
  Value, is_null, decode_numeric_value, read_numeric_legacy, read_numeric_enterprise_materialized,
  write_digits, first_bad_digit,
}
use opensqlanywhere.RowDecoder.Fields.{
  read_word, read_signed, short_length, wide_length, variable_length, read_overflow,
  decode_variable, decode_fixed, decode_non_boolean,
}
use native.Mathlib.Decide.{dec_lt}

-- The cursor is not moved back, and stays inside the row.
abbrev pub Moves {ℓ} : {A : Type ℓ} → List ℕ → ℕ → A × ℕ → Type 0
Moves row cursor r = (cursor ≤ r.1) × (r.1 ≤ length row)

-- A field's value is not null.
abbrev pub IsField : List ℕ → ℕ → Value × ℕ → Type 0
IsField row cursor r = (is_null r.0 ≡ false) × (cursor ≤ r.1) × (r.1 ≤ length row)

abbrev pub IsTaken : List ℕ → (cursor count : ℕ) → List ℕ × ℕ → Type 0
IsTaken row cursor count r = (length r.0 ≡ count) × (r.1 ≡ cursor + count) × (r.1 ≤ length row)

module _ (row : List ℕ) where
  pub take_at-Gives :
      (cursor count column : ℕ)
      → cursor ≤ length row
      → Gives (IsTaken row cursor count) (take_at row cursor count column)
  unfolding take_at
  take_at-Gives cursor count column h = elim (dec_lt (length row - cursor) count) [
    | yes short ↦ rw (lt→ltb _ _ short) (fails (truncated column count (length row - cursor)))
    | no room ↦
        let fits : ltb (length row - cursor) count ≡ false = ground arith in
        rw
          (fits, slice-ok {E = DecodeError} row cursor (cursor + count) (omega arith) (omega arith))
          (gives _ (
            omega (
              arith,
              length-take (cursor + count - cursor) (drop cursor row),
              length-drop cursor row,
            ),
            refl,
            omega arith,
          ))
  ]

  read_word-Gives :
      (cursor column width : ℕ)
      → cursor ≤ length row
      → Gives (Moves row cursor) (read_word row cursor column width)
  unfolding read_word
  read_word-Gives cursor column width h =
      Gives->>= (IsTaken row cursor width) (Moves row cursor) (take_at-Gives cursor width column h)
        λ r (len, at, inside).
          Gives-assert (Moves row cursor) (length r.0 == width) (ground arith)
            (gives _ (omega arith, inside))

  read_signed-Gives :
      (cursor column width : ℕ)
      → cursor ≤ length row
      → Gives (Moves row cursor) (read_signed row cursor column width)
  unfolding read_signed
  read_signed-Gives cursor column width h = elim (Bool-cases (is_width width)) [
    | inl e ↦ rw e (read_word-Gives cursor column width h)
    | inr e ↦ rw e (fails _)
  ]

  read_unsigned-Gives :
      (cursor column width : ℕ)
      → cursor ≤ length row
      → Gives (Moves row cursor) (read_unsigned row cursor column width)
  unfolding read_unsigned
  read_unsigned-Gives cursor column width h = elim (Bool-cases (is_width width)) [
    | inr e ↦ rw e (fails _)
    | inl e ↦ rw e (
        Gives->>= (IsTaken row cursor width) (Moves row cursor)
          (take_at-Gives cursor width column h)
          λ r (len, at, inside).
            Gives-assert (Moves row cursor) (length r.0 == width) (ground arith)
              (gives _ (omega arith, inside)))
  ]

  decode_enum-Gives :
      (cursor column width : ℕ) (layout : EnumLayout)
      → cursor ≤ length row
      → Gives (Moves row cursor) (decode_enum row cursor column width layout)
  unfolding decode_enum
  decode_enum-Gives cursor column width unsupported h = fails _
  decode_enum-Gives cursor column width fixed_width_unsigned h =
      elim (Bool-cases (is_width width)) [
        | inl e ↦ rw e (read_unsigned-Gives cursor column width h)
        | inr e ↦ rw e (fails _)
      ]

  short_length-Gives :
      (cursor column : ℕ)
      → cursor ≤ length row
      → Gives (Moves row cursor) (short_length row cursor column)
  unfolding short_length
  short_length-Gives cursor column h =
      Gives->>= (IsTaken row cursor 1) (Moves row cursor) (take_at-Gives cursor 1 column h)
        λ r (len, at, inside).
          Gives->>= _ (Moves row cursor) (read-Gives {E = DecodeError} r.0 0 (omega arith))
            λ v e. gives _ (omega arith, inside)

  wide_length-Gives :
      (cursor column : ℕ)
      → cursor ≤ length row
      → Gives (Moves row cursor) (wide_length row cursor column)
  unfolding wide_length
  wide_length-Gives cursor column h =
      Gives->>= (IsTaken row cursor 2) (Moves row cursor) (take_at-Gives cursor 2 column h)
        λ r (len, at, inside).
          Gives->>= _ (Moves row cursor) (read-Gives {E = DecodeError} r.0 0 (omega arith)) λ v e.
            Gives->>= _ (Moves row cursor) (read-Gives {E = DecodeError} r.0 1 (omega arith))
              λ v e. gives _ (omega arith, inside)

  variable_length-Gives :
      (cursor column width : ℕ) (layout : VariableLengthLayout)
      → cursor ≤ length row
      → Gives (Moves row cursor) (variable_length row cursor column width layout)
  unfolding variable_length
  variable_length-Gives cursor column width u8_length h = short_length-Gives cursor column h
  variable_length-Gives cursor column width u16_le_length h = wide_length-Gives cursor column h
  variable_length-Gives cursor column width (declared_width bound) h =
      elim (Bool-cases (leb bound width)) [
        | inl e ↦ rw e (wide_length-Gives cursor column h)
        | inr e ↦ rw e (short_length-Gives cursor column h)
      ]

  -- A field that is taken whole.
  taken-IsField :
      (cursor start count column : ℕ) (make : List ℕ → Value)
      → ((bs : List ℕ) → is_null (make bs) ≡ false)
      → cursor ≤ start
      → start ≤ length row
      → Gives (IsField row cursor) (take_at row start count column >>= λ r. ok (make r.0, r.1))
  taken-IsField cursor start count column make kind lo hi =
      Gives->>= (IsTaken row start count) (IsField row cursor) (take_at-Gives start count column hi)
        λ r (len, at, inside). gives _ (kind r.0, omega arith, inside)

  read_overflow-Gives :
      (cursor start column : ℕ) (layout : VariableOverflowLayout)
      → cursor ≤ start
      → start ≤ length row
      → Gives (IsField row cursor) (read_overflow row start column layout)
  unfolding read_overflow
  read_overflow-Gives cursor start column unsupported_overflow lo hi = fails _
  read_overflow-Gives cursor start column (pointer width) lo hi = elim (Bool-cases (width == 0)) [
    | inl e ↦ rw e (fails _)
    | inr e ↦
        rw e (taken-IsField cursor start width column Value.overflow_pointer (λ bs. refl) lo hi)
  ]

  decode_variable-Gives :
      (cursor i : ℕ) (column : ColumnDef) (schema : RowSchema)
      → cursor ≤ length row
      → Gives (IsField row cursor) (decode_variable row cursor i column schema)
  unfolding decode_variable
  decode_variable-Gives cursor i column schema h =
      Gives->>= (Moves row cursor) (IsField row cursor)
        (variable_length-Gives cursor i column.width schema.variable_length_layout h)
        λ r (lo, hi). elim (Bool-cases r.0.1) [
          | inl e ↦ rw e (read_overflow-Gives cursor r.1 i schema.variable_overflow_layout lo hi)
          | inr e ↦ rw e (taken-IsField cursor r.1 r.0.0 i Value.bytes (λ bs. refl) lo hi)
        ]

  -- The count and the second byte of a number, and its digits unless the count is zero.
  lead_byte :
      {B : Type 0} (cursor start column : ℕ) (P : B × ℕ → Type 0)
      (k : ℕ → ℕ → Outcome DecodeError (B × ℕ))
      → start ≤ length row
      → ((b behind : ℕ) → start ≤ behind → behind ≤ length row → Gives P (k b behind))
      → Gives P (take_at row start 1 column >>= λ r. read r.0 0 >>= λ b. k b r.1)
  lead_byte cursor start column P k hi next =
      Gives->>= (IsTaken row start 1) P (take_at-Gives start 1 column hi) λ r (len, at, inside).
        Gives->>= _ P (read-Gives {E = DecodeError} r.0 0 (omega arith))
          λ v e. next v r.1 (omega arith) inside

write_digits-Gives :
    (column : ℕ) (digits : List ℕ)
    → Gives (λ (w : List ℕ). length w ≡ 2 * length digits) (write_digits column digits)
unfolding write_digits
write_digits-Gives column [] = gives [] (omega arith)
write_digits-Gives column (d ∷ ds) = elim (Bool-cases (ltb 99 d)) [
  | inl e ↦ rw e (fails _)
  | inr e ↦ rw e (
      Gives->>= (λ (w : List ℕ). length w ≡ 2 * length ds)
        (λ (w : List ℕ). length w ≡ 2 * length (d ∷ ds)) (write_digits-Gives column ds)
        λ w same. gives _ (omega arith))
]

module _ (row : List ℕ) where
  read_numeric_legacy-Gives :
      (cursor column : ℕ)
      → cursor ≤ length row
      → Gives (Moves row cursor) (read_numeric_legacy row cursor column)
  unfolding read_numeric_legacy
  read_numeric_legacy-Gives cursor column h =
      lead_byte row cursor cursor column (Moves row cursor) _ h λ count next lo hi.
        lead_byte row cursor next column (Moves row cursor) _ hi λ exponent start lo' hi'.
          elim (Bool-cases (count == 0)) [
            | inl e ↦ rw e (gives _ (omega arith, hi'))
            | inr e ↦ rw e (
                Gives->>= (IsTaken row start count) (Moves row cursor)
                  (take_at-Gives row start count column hi')
                  λ r (len, at, inside).
                    Gives->>= _ (Moves row cursor) (write_digits-Gives column r.0) λ w same.
                      elim (Bool-cases (leb 0xc0 exponent)) [
                        | inl e' ↦ rw e' (gives _ (omega arith, inside))
                        | inr e' ↦ rw e' (gives _ (omega arith, inside))
                      ])
          ]

  enterprise-Gives :
      (cursor column : ℕ)
      → cursor ≤ length row
      → Gives (IsField row cursor) (read_numeric_enterprise_materialized row cursor column)
  unfolding read_numeric_enterprise_materialized
  enterprise-Gives cursor column h =
      lead_byte row cursor cursor column (IsField row cursor) _ h λ count next lo hi.
        lead_byte row cursor next column (IsField row cursor) _ hi λ marker start lo' hi'.
          elim (Bool-cases (count == 0)) [
            | inl e ↦ rw e (gives _ (refl, omega arith, hi'))
            | inr e ↦ rw e (
                Gives->>= (IsTaken row start count) (IsField row cursor)
                  (take_at-Gives row start count column hi')
                  λ r (len, at, inside). elim (Option-cases (first_bad_digit r.0)) [
                    | inr (d, bad) ↦ rw bad (fails _)
                    | inl good ↦ rw good (gives _ (refl, omega arith, inside))
                  ])
          ]

  -- A scalar as a field.
  as-IsField :
      {A : Type 0} (cursor : ℕ) (make : A → Value) (m : Outcome DecodeError (A × ℕ))
      → ((a : A) → is_null (make a) ≡ false)
      → Gives (Moves row cursor) m
      → Gives (IsField row cursor) (m >>= λ r. ok (make r.0, r.1))
  as-IsField cursor make m kind g =
      Gives->>= (Moves row cursor) (IsField row cursor) g λ r (lo, hi). gives _ (kind r.0, lo, hi)

  decode_numeric_value-Gives :
      (cursor column : ℕ) (layout : NumericLayout)
      → cursor ≤ length row
      → Gives (IsField row cursor) (decode_numeric_value row cursor column layout)
  unfolding decode_numeric_value
  decode_numeric_value-Gives cursor column legacy_forward h =
      as-IsField cursor Value.decimal _ (λ a. refl) (read_numeric_legacy-Gives cursor column h)
  decode_numeric_value-Gives cursor column enterprise_materialized_raw h =
      enterprise-Gives cursor column h

  decode_fixed-Gives :
      (cursor i : ℕ) (column : ColumnDef) (schema : RowSchema) (t : ColumnType)
      → cursor ≤ length row
      → is_variable t ≡ false
      → (is_boolean t) ≡ false
      → Gives (IsField row cursor) (decode_fixed row cursor i column schema t)
  unfolding decode_fixed is_variable is_boolean
  decode_fixed-Gives cursor i column schema ColumnType.small_int h v b =
      as-IsField cursor Value.integer _ (λ a. refl) (read_signed-Gives row cursor i column.width h)
  decode_fixed-Gives cursor i column schema ColumnType.integer h v b =
      as-IsField cursor Value.integer _ (λ a. refl) (read_signed-Gives row cursor i column.width h)
  decode_fixed-Gives cursor i column schema ColumnType.integer2 h v b =
      as-IsField cursor Value.integer _ (λ a. refl) (read_signed-Gives row cursor i column.width h)
  decode_fixed-Gives cursor i column schema ColumnType.uint64 h v b =
      as-IsField cursor Value.unsigned _ (λ a. refl)
        (read_unsigned-Gives row cursor i column.width h)
  decode_fixed-Gives cursor i column schema ColumnType.uint32 h v b =
      as-IsField cursor Value.unsigned _ (λ a. refl)
        (read_unsigned-Gives row cursor i column.width h)
  decode_fixed-Gives cursor i column schema ColumnType.int64 h v b =
      elim (Bool-cases (column.width == 8)) [
        | inl e ↦
            rw e (as-IsField cursor Value.integer _ (λ a. refl) (read_word-Gives row cursor i 8 h))
        | inr e ↦ rw e (fails _)
      ]
  decode_fixed-Gives cursor i column schema ColumnType.numeric h v b =
      decode_numeric_value-Gives cursor i schema.numeric_layout h
  decode_fixed-Gives cursor i column schema ColumnType.enum h v b =
      as-IsField cursor Value.enum _ (λ a. refl)
        (decode_enum-Gives row cursor i column.width schema.enum_layout h)
  decode_fixed-Gives cursor i column schema ColumnType.date h v b =
      as-IsField cursor (λ m. Value.date (record { raw_minutes = m })) _ (λ a. refl)
        (read_word-Gives row cursor i 4 h)
  decode_fixed-Gives cursor i column schema ColumnType.date_time h v b =
      Gives->>= (Moves row cursor) (IsField row cursor) (read_word-Gives row cursor i 4 h)
        λ r (lo, hi).
          Gives->>= (Moves row r.1) (IsField row cursor) (read_word-Gives row r.1 i 4 hi)
            λ s (lo', hi'). gives _ (refl, omega arith, hi')
  decode_fixed-Gives cursor i column schema ColumnType.boolean h v b = cc
  decode_fixed-Gives cursor i column schema ColumnType.char h v b = cc
  decode_fixed-Gives cursor i column schema ColumnType.char2 h v b = cc
  decode_fixed-Gives cursor i column schema ColumnType.text h v b = cc
  decode_fixed-Gives cursor i column schema ColumnType.text2 h v b = cc

  -- A field that is not a Boolean, from a cursor inside the row: no panic, a value that is not
  -- null, and a cursor that is not moved back and stays inside the row.
  pub decode_non_boolean-Gives :
      (cursor i : ℕ) (column : ColumnDef) (schema : RowSchema)
      → cursor ≤ length row
      → is_boolean column.column_type ≡ false
      → Gives (IsField row cursor) (decode_non_boolean row cursor i column schema)
  unfolding decode_non_boolean
  decode_non_boolean-Gives cursor i column schema h b =
      elim (Bool-cases (is_variable column.column_type)) [
        | inl e ↦ rw e (decode_variable-Gives row cursor i column schema h)
        | inr e ↦ rw e (decode_fixed-Gives cursor i column schema column.column_type h e b)
      ]

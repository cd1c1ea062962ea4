-- ===== src/RowDecoder/Header.antt =====
-- What `row_header_and_presence` returns on any input.
use opensqlanywhere.Base.{
  ℕ, suc, ◌+◌, ◌-◌, ◌*◌, ◌/◌, ◌%◌, ◌≤◌, ◌<◌, ◌≡◌, ◌≢◌, ◌⊎◌, inl, inr, refl, ap, ◌∙◌, List, [], ◌∷◌,
  arith, Bool, true, false, not, ◌==◌, Bool-cases, length, take, drop, length-take, length-drop,
  bit_and, ok, err, read-ok, slice, slice-ok,
}
use opensqlanywhere.Base.Bytes.{from_le_u16, byte_at}
use opensqlanywhere.RowDecoder.{
  ColumnDef, NullBitmapLayout, NullBitmapCoverage, nullable_columns, all_columns, RowSchema,
  DecodeError, missing_row_header, invalid_row_size, unsupported_row_flags, truncated,
}
use opensqlanywhere.RowDecoder.{
  count_nullable, null_bitmap_bit_count, mask_of, field_present, bitmap_index_of, presence_from,
  prefix_len_of, RowHeaderAndPresence, row_header_and_presence,
}
use native.Mathlib.Decide.{dec_lt}

-- The bit of a field in the bitmap says that the field is present.
abbrev pub says_present : NullBitmapLayout → List ℕ → ℕ → Bool
says_present layout bitmap k =
    field_present layout (not (bit_and (byte_at bitmap (k / 8)) (mask_of layout (k % 8)) == 0))

-- One presence for each column: true if the column is not nullable, and otherwise what its bit says.
pub data Presents (layout : NullBitmapLayout) (coverage : NullBitmapCoverage) (bitmap : List ℕ)
    : List ColumnDef → ℕ → ℕ → List Bool → Type 0 where
  nothing : {ni ci : ℕ} → Presents layout coverage bitmap [] ni ci []
  always :
      {c : ColumnDef} {cs : List ColumnDef} {ni ci : ℕ} {bs : List Bool}
      → c.nullable ≡ false
      → Presents layout coverage bitmap cs ni (suc ci) bs
      → Presents layout coverage bitmap (c ∷ cs) ni ci (true ∷ bs)
  by_bit :
      {c : ColumnDef} {cs : List ColumnDef} {ni ci : ℕ} {bs : List Bool}
      → c.nullable ≡ true
      → Presents layout coverage bitmap cs (suc ni) (suc ci) bs
      → Presents layout coverage bitmap
          (c ∷ cs)
          ni
          ci
          (says_present layout bitmap (bitmap_index_of coverage ni ci) ∷ bs)

pub Presents-length :
    {layout : NullBitmapLayout} {coverage : NullBitmapCoverage} {bitmap : List ℕ}
    {cs : List ColumnDef} {ni ci : ℕ} {bs : List Bool}
    → Presents layout coverage bitmap cs ni ci bs
    → length bs ≡ length cs
Presents-length nothing = refl
Presents-length (always n p) = ap suc (Presents-length p)
Presents-length (by_bit n p) = ap suc (Presents-length p)

abbrev bits_left : NullBitmapCoverage → List ColumnDef → ℕ
bits_left nullable_columns cs = count_nullable cs
bits_left all_columns cs = length cs

-- The bits of the columns that are left fit in the bitmap.
abbrev Room : NullBitmapCoverage → List ℕ → List ColumnDef → (ni ci : ℕ) → Type 0
Room coverage bitmap cs ni ci =
    bitmap_index_of coverage ni ci + bits_left coverage cs ≤ 8 * length bitmap

module _ (layout : NullBitmapLayout) (coverage : NullBitmapCoverage) (bitmap : List ℕ) where
  Room-index :
      (cov : NullBitmapCoverage) (c : ColumnDef) (cs : List ColumnDef) (ni ci : ℕ)
      → c.nullable ≡ true
      → Room cov bitmap (c ∷ cs) ni ci
      → (bitmap_index_of cov ni ci / 8 < length bitmap) × Room cov bitmap cs (suc ni) (suc ci)
  Room-index nullable_columns c cs ni ci e h = (ground arith, ground arith)
  Room-index all_columns c cs ni ci e h = (omega arith, omega arith)

  Room-skip :
      (cov : NullBitmapCoverage) (c : ColumnDef) (cs : List ColumnDef) (ni ci : ℕ)
      → c.nullable ≡ false
      → Room cov bitmap (c ∷ cs) ni ci
      → Room cov bitmap cs ni (suc ci)
  Room-skip nullable_columns c cs ni ci e h = ground arith
  Room-skip all_columns c cs ni ci e h = omega arith

  pub presence_from-Presents :
      (E : Type 0) (cs : List ColumnDef) (ni ci : ℕ)
      → Room coverage bitmap cs ni ci
      → (bs : List Bool) × (presence_from {E = E} layout coverage bitmap cs ni ci ≡ ok bs)
        × Presents layout coverage bitmap cs ni ci bs
  unfolding presence_from
  presence_from-Presents E [] ni ci h = ([], refl, nothing)
  presence_from-Presents E (c ∷ cs) ni ci h = elim (Bool-cases c.nullable) [
    | inl n ↦
        let (inside, room) = Room-index coverage c cs ni ci n h in
        let (bs, e, p) = presence_from-Presents E cs (suc ni) (suc ci) room in
        (_ ∷ bs, rw (n, read-ok {E = E} bitmap _ inside, e), by_bit n p)
    | inr n ↦
        let (bs, e, p) =
          presence_from-Presents E cs ni (suc ci) (Room-skip coverage c cs ni ci n h) in
        (true ∷ bs, rw (n, e), always n p)
  ]

-- The sizes that the two bytes of the header and the schema give.
abbrev pub raw_of : List ℕ → ℕ
raw_of input = from_le_u16 (byte_at input 0) (byte_at input 1)

abbrev pub declared_of : List ℕ → ℕ
declared_of input = bit_and (raw_of input) 0x1fff

abbrev pub null_bytes_of : RowSchema → ℕ
null_bytes_of schema = (null_bitmap_bit_count schema + 7) / 8

-- Prefix and null bitmap.
abbrev pub lead_of : RowSchema → ℕ
lead_of schema = prefix_len_of schema.row_prefix_layout + null_bytes_of schema

pub record IsHeader (input : List ℕ) (schema : RowSchema) (h : RowHeaderAndPresence) : Type 0 where
  pub same_size : h.declared_size ≡ declared_of input
  pub same_row : h.row ≡ take (declared_of input) input
  pub full : length h.row ≡ declared_of input
  pub no_flags : h.flags ≡ 0
  pub same_bitmap :
      h.null_bitmap
      ≡ take (null_bytes_of schema) (drop (2 + prefix_len_of schema.row_prefix_layout) h.row)
  pub same_cursor : h.cursor ≡ 2 + lead_of schema
  pub inside : h.cursor ≤ length h.row
  pub presents :
      Presents schema.null_bitmap_layout schema.null_bitmap_coverage h.null_bitmap schema.columns 0
        0 h.present

slice_prefix-ok :
    {E : Type 0} (xs : List ℕ) (n : ℕ) → n ≤ length xs → slice {E = E} xs 0 n ≡ ok (take n xs)
slice_prefix-ok xs n h =
    let width : n - 0 ≡ n = omega arith in
    slice-ok xs 0 n (omega arith) h ∙ ap (λ k. ok (take k xs)) width

slice_part-ok :
    {E : Type 0} (xs : List ℕ) (start n : ℕ)
    → start + n ≤ length xs
    → slice {E = E} xs start (start + n) ≡ ok (take n (drop start xs))
slice_part-ok xs start n h =
    let width : start + n - start ≡ n = omega arith in
    slice-ok xs start (start + n) (omega arith) h ∙ ap (λ k. ok (take k (drop start xs))) width

Room-at_start :
    (schema : RowSchema) (bitmap : List ℕ)
    → length bitmap ≡ null_bytes_of schema
    → Room schema.null_bitmap_coverage bitmap schema.columns 0 0
unfolding null_bitmap_bit_count
Room-at_start schema bitmap h = at schema.null_bitmap_coverage refl
  where
    at :
        (coverage : NullBitmapCoverage)
        → schema.null_bitmap_coverage ≡ coverage
        → Room coverage bitmap schema.columns 0 0
    at nullable_columns e = ground arith
    at all_columns e = ground arith

module _ (input : List ℕ) (schema : RowSchema) (two : 2 ≤ length input)
    (least : 2 ≤ declared_of input) (most : declared_of input ≤ length input)
    (plain : bit_and (raw_of input) 0xe000 ≡ 0) where
  full_row : length (take (declared_of input) input) ≡ declared_of input
  full_row = omega (arith, length-take (declared_of input) input)

  too_short :
      declared_of input < 2 + lead_of schema
      → row_header_and_presence input schema
        ≡ err (truncated 0 (lead_of schema) (declared_of input - 2))
  unfolding row_header_and_presence
  too_short h =
      rw
        (
          read-ok {E = DecodeError} input 0 (omega arith),
          read-ok {E = DecodeError} input 1 (omega arith),
          slice_prefix-ok {E = DecodeError} input (declared_of input) most,
          plain,
          full_row,
        )
        (ground arith)

  accepted :
      2 + lead_of schema ≤ declared_of input
      → (h : RowHeaderAndPresence) × (row_header_and_presence input schema ≡ ok h)
        × IsHeader input schema h
  unfolding row_header_and_presence
  accepted h =
      let (present, e, p) =
        presence_from-Presents schema.null_bitmap_layout schema.null_bitmap_coverage bitmap
          DecodeError schema.columns 0 0 room in
      (
        record {
          row = row;
          declared_size = declared_of input;
          flags = bit_and (raw_of input) 0xe000;
          null_bitmap = bitmap;
          cursor = 2 + prefix + null_bytes_of schema;
          present = present;
        },
        reads present e,
        record {
          same_size = refl;
          same_row = refl;
          full = full_row;
          no_flags = plain;
          same_bitmap = refl;
          same_cursor = omega arith;
          inside = omega (arith, full_row);
          presents = p;
        },
      )
    where
      prefix : ℕ
      prefix = prefix_len_of schema.row_prefix_layout

      row : List ℕ
      row = take (declared_of input) input

      bitmap : List ℕ
      bitmap = take (null_bytes_of schema) (drop (2 + prefix) row)

      full_bitmap : length bitmap ≡ null_bytes_of schema
      full_bitmap = omega (
        arith,
        full_row,
        length-take (null_bytes_of schema) (drop (2 + prefix) row),
        length-drop (2 + prefix) row,
      )

      room : Room schema.null_bitmap_coverage bitmap schema.columns 0 0
      room = Room-at_start schema bitmap full_bitmap

      reads :
          (present : List Bool)
          → presence_from {E = DecodeError} schema.null_bitmap_layout schema.null_bitmap_coverage
              bitmap schema.columns 0 0
            ≡ ok present
          → row_header_and_presence input schema
            ≡ ok (record {
              row = row;
              declared_size = declared_of input;
              flags = bit_and (raw_of input) 0xe000;
              null_bitmap = bitmap;
              cursor = 2 + prefix + null_bytes_of schema;
              present = present;
            })
      reads present e =
          rw
            (
              read-ok {E = DecodeError} input 0 (omega arith),
              read-ok {E = DecodeError} input 1 (omega arith),
              slice_prefix-ok {E = DecodeError} input (declared_of input) most,
              plain,
              slice_part-ok {E = DecodeError} row (2 + prefix) (null_bytes_of schema)
                  (omega (arith, full_row)),
              full_row,
              e,
            )
            (ground arith)

refused :
    (input : List ℕ) (schema : RowSchema)
    → 2 ≤ length input
    → (declared_of input < 2) ⊎ (length input < declared_of input)
    → row_header_and_presence input schema
      ≡ err (invalid_row_size (declared_of input) (length input))
unfolding row_header_and_presence
refused input schema two bad =
    rw
      (
        read-ok {E = DecodeError} input 0 (omega arith),
        read-ok {E = DecodeError} input 1 (omega arith),
      )
      (ground arith)

flagged :
    (input : List ℕ) (schema : RowSchema)
    → 2 ≤ length input
    → 2 ≤ declared_of input
    → declared_of input ≤ length input
    → 0 < bit_and (raw_of input) 0xe000
    → row_header_and_presence input schema
      ≡ err (unsupported_row_flags (bit_and (raw_of input) 0xe000))
unfolding row_header_and_presence
flagged input schema two least most set =
    rw
      (
        read-ok {E = DecodeError} input 0 (omega arith),
        read-ok {E = DecodeError} input 1 (omega arith),
      )
      (ground arith)

-- `row_header_and_presence` never panics. Fewer than two bytes are `MissingRowHeader`; a declared
-- size below two or above the input is `InvalidRowSize`; a flag is `UnsupportedRowFlags`; and a row
-- that its prefix and null bitmap do not fit in is `Truncated`. Any other input gives the row, its
-- bitmap, a cursor inside the row behind both, and for each column whether it is present: always if
-- it is not nullable, and otherwise what its bit of the bitmap says.
pub row_header_and_presence_cases :
    (input : List ℕ) (schema : RowSchema)
    → ((length input < 2) × (row_header_and_presence input schema ≡ err missing_row_header))
      ⊎ (((2 ≤ length input)
            × ((declared_of input < 2) ⊎ (length input < declared_of input))
            × (row_header_and_presence input schema
                ≡ err (invalid_row_size (declared_of input) (length input))))
          ⊎ (((2 ≤ declared_of input)
                × (declared_of input ≤ length input)
                × (bit_and (raw_of input) 0xe000 ≢ 0)
                × (row_header_and_presence input schema
                    ≡ err (unsupported_row_flags (bit_and (raw_of input) 0xe000))))
              ⊎ (((bit_and (raw_of input) 0xe000 ≡ 0)
                    × (declared_of input < 2 + lead_of schema)
                    × (row_header_and_presence input schema
                        ≡ err (truncated 0 (lead_of schema) (declared_of input - 2))))
                  ⊎ ((h : RowHeaderAndPresence) × (row_header_and_presence input schema ≡ ok h)
                      × IsHeader input schema h))))
row_header_and_presence_cases input schema = elim (dec_lt (length input) 2) [
  | yes short ↦ inl (short, unfold row_header_and_presence in ground arith)
  | no two ↦ elim (dec_lt (declared_of input) 2) [
    | yes low ↦ inr (inl (omega arith, inl low, refused input schema (omega arith) (inl low)))
    | no least ↦ elim (dec_lt (length input) (declared_of input)) [
      | yes high ↦ inr (inl (omega arith, inr high, refused input schema (omega arith) (inr high)))
      | no most ↦ elim (dec_lt 0 (bit_and (raw_of input) 0xe000)) [
        | yes set ↦ inr (
            inr (
              inl (
                omega arith,
                omega arith,
                omega arith,
                flagged input schema (omega arith) (omega arith) (omega arith) set,
              )))
        | no plain ↦ elim (dec_lt (declared_of input) (2 + lead_of schema)) [
          | yes short ↦ inr (
              inr (
                inr (
                  inl (
                    omega arith,
                    short,
                    too_short input schema (omega arith) (omega arith) (omega arith) (omega arith)
                        short,
                  ))))
          | no fits ↦ inr (
              inr (
                inr (
                  inr (
                    accepted input schema (omega arith) (omega arith) (omega arith) (omega arith)
                      (omega arith)))))
        ]
      ]
    ]
  ]
]

-- ===== src/RowDecoder/Rows/Total.antt =====
-- `decode_row` on rows of any bytes.
use native.Mathlib.Decide.{dec_lt}
use opensqlanywhere.Base.{
  Gives-weaken, Bool-cases, get_or, not, length-slice, ℕ, suc, ◌+◌, ◌-◌, ◌/◌, ◌≤◌, ◌<◌, ◌≡◌, refl,
  ◌∙◌, ap, inl, inr, ◌⊎◌, List, [], ◌∷◌, arith, Bool, true, length, length-take, Outcome, ok, err,
  All, Gives, gives, fails, Gives->>=, Gives-guard, read-Gives, slice-ok, ltb,
}
use opensqlanywhere.RowDecoder.{
  RowSchema, DecodeError, trailing_data, BooleanTailLayout, boolean_bytes, packed_msb_first,
  inline_bytes, inline_packed_runs_msb_first, inline_packed_runs_lsb_first, inline_u16_le,
  RowHeaderAndPresence, row_header_and_presence,
}
use opensqlanywhere.RowDecoder.Values.{Value, is_null}
use opensqlanywhere.RowDecoder.Rows.{
  DecodedRow, is_inline_boolean_layout, required_tail, tail_value, decode_tail, decode_body,
  decode_row, decode_row_exact,
}
use opensqlanywhere.RowDecoder.Rows.Nulls.{
  IsThere, IsKept, IsState, HasValue, Keeps, IsWritten, Filled, store-IsWritten, absent-IsKept,
  All-Among,
}
use opensqlanywhere.RowDecoder.Header.{
  lead_of, declared_of, IsHeader, Presents-length, row_header_and_presence_cases,
}
use opensqlanywhere.RowDecoder.Rows.Runs.{decode_boolean_byte-Gives}
use opensqlanywhere.RowDecoder.Rows.Columns.{decode_columns-Gives}

-- The Booleans that are left fit in the tail.
abbrev pub TailRoom : BooleanTailLayout → (ordinal count size : ℕ) → Type 0
TailRoom boolean_bytes ordinal count size = ordinal + count ≤ size
TailRoom packed_msb_first ordinal count size = (ordinal + count + 7) / 8 ≤ size
TailRoom inline_bytes ordinal count size = count ≡ 0
TailRoom inline_u16_le ordinal count size = count ≡ 0
TailRoom inline_packed_runs_msb_first ordinal count size = count ≡ 0
TailRoom inline_packed_runs_lsb_first ordinal count size = count ≡ 0

pub tail_value-Gives :
    (layout : BooleanTailLayout) (tail : List ℕ) (ordinal count i : ℕ)
    → TailRoom layout ordinal (suc count) (length tail)
    → Gives (λ (b : Bool). Unit {0}) (tail_value layout tail ordinal i)
      × TailRoom layout (suc ordinal) count (length tail)
unfolding tail_value
tail_value-Gives boolean_bytes tail ordinal count i h = (
  Gives->>= _ (λ (b : Bool). Unit {0}) (read-Gives {E = DecodeError} tail ordinal (omega arith))
      λ v same. decode_boolean_byte-Gives i v,
  omega arith,
)
tail_value-Gives packed_msb_first tail ordinal count i h = (
  Gives->>= _ (λ (b : Bool). Unit {0})
      (read-Gives {E = DecodeError} tail (ordinal / 8) (omega arith)) λ v same. gives _ tt,
  omega arith,
)
tail_value-Gives inline_bytes tail ordinal count i h = absurd (omega arith)
tail_value-Gives inline_u16_le tail ordinal count i h = absurd (omega arith)
tail_value-Gives inline_packed_runs_msb_first tail ordinal count i h = absurd (omega arith)
tail_value-Gives inline_packed_runs_lsb_first tail ordinal count i h = absurd (omega arith)

-- The values after some Booleans of the tail are written.
abbrev IsWrittenAll : List Bool → List Value → List ℕ → List Value → Type 0
IsWrittenAll present values is out = IsKept present out × Keeps values out × All (HasValue out) is

decode_tail-Gives :
    (layout : BooleanTailLayout) (tail : List ℕ) (present : List Bool) (ordinal : ℕ) (is : List ℕ)
    (values : List Value)
    → TailRoom layout ordinal (length is) (length tail)
    → All (IsThere present) is
    → IsKept present values
    → Gives (IsWrittenAll present values is) (decode_tail layout tail ordinal is values)
unfolding decode_tail
decode_tail-Gives layout tail present ordinal [] values h there kept =
    gives values (kept, (λ j was. was), tt)
decode_tail-Gives layout tail present ordinal (i ∷ is) values h there kept =
    let (g, h') = tail_value-Gives layout tail ordinal (length is) i h in
    Gives->>= _ (IsWrittenAll present values (i ∷ is)) g λ v u.
      Gives->>= (IsWritten present values i) (IsWrittenAll present values (i ∷ is))
        (store-IsWritten present values i (Value.boolean v) there.0 refl kept)
        λ written (kept', keeps, at).
          Gives-weaken (IsWrittenAll present written is) (IsWrittenAll present values (i ∷ is))
            (λ out (k, keeps', all). (k, (λ j was. keeps' j (keeps j was)), (keeps' i at, all)))
            (decode_tail-Gives layout tail present (suc ordinal) is written h' there.1 kept')

tail_room :
    (layout : BooleanTailLayout) (is : List ℕ) (size : ℕ)
    → size ≡ required_tail layout (length is)
    → (is_inline_boolean_layout layout ≡ true → is ≡ [])
    → TailRoom layout 0 (length is) size
unfolding required_tail is_inline_boolean_layout
tail_room boolean_bytes is size e q = omega arith
tail_room packed_msb_first is size e q = omega arith
tail_room inline_bytes is size e q = ap length (q refl)
tail_room inline_u16_le is size e q = ap length (q refl)
tail_room inline_packed_runs_msb_first is size e q = ap length (q refl)
tail_room inline_packed_runs_lsb_first is size e q = ap length (q refl)

-- What `decode_row` gives: the size and flags of the header, an end behind the prefix and the null
-- bitmap and inside the row, and one value for each column, null exactly if the column is absent.
pub record IsRow (input : List ℕ) (schema : RowSchema) (d : DecodedRow) : Type 0 where
  pub same_size : d.declared_size ≡ declared_of input
  pub no_flags : d.flags ≡ 0
  pub low : 2 + lead_of schema ≤ d.consumed_size
  pub high : d.consumed_size ≤ d.declared_size
  pub inside : d.declared_size ≤ length input
  pub full : length d.values ≡ length schema.columns
  pub nulls :
      (h : RowHeaderAndPresence) × (row_header_and_presence input schema ≡ ok h)
      × ((j : ℕ)
          → j < length schema.columns
          → is_null (get_or d.values j Value.null) ≡ not (get_or h.present j true))

behind_header :
    (input : List ℕ) (schema : RowSchema) (h : RowHeaderAndPresence)
    → row_header_and_presence input schema ≡ ok h
    → IsHeader input schema h
    → Gives (IsRow input schema) (decode_body schema h)
unfolding decode_body
behind_header input schema h same head =
    Gives->>=
      (IsState h.row schema.columns schema.boolean_tail h.present h.cursor (length h.present))
      (IsRow input schema)
      (decode_columns-Gives h.row schema h.present h.cursor wide 0 schema.columns _ refl
        (omega (arith, wide))
        (record {
          low = omega arith;
          high = head.inside;
          kept = absent-IsKept h.present (length schema.columns) wide;
          there = tt;
          queued = λ e. refl;
          filled = λ j lt. absurd (omega arith);
          ahead = inr tt;
        }))
      λ st s.
        let required = required_tail schema.boolean_tail (length st.bool_values) in
        Gives->>= _ (IsRow input schema)
          (Gives-guard (not (ltb (length h.row - st.cursor) required)) _)
          λ u fits.
            rw
              (slice-ok {E = DecodeError} h.row st.cursor (st.cursor + required) (omega arith)
                (room st.cursor required s.high fits))
              (Gives->>= (IsWrittenAll h.present st.values st.bool_values) (IsRow input schema)
                (decode_tail-Gives schema.boolean_tail _ h.present 0 st.bool_values st.values
                  (tail_room schema.boolean_tail st.bool_values _
                    (length-slice h.row st.cursor (st.cursor + required) (omega arith)
                        (room st.cursor required s.high fits)
                      ∙ omega arith)
                    s.queued)
                  s.there s.kept)
                λ values (kept, keeps, all). gives _ (record {
                  same_size = head.same_size;
                  no_flags = head.no_flags;
                  low = omega (arith, s.low, head.same_cursor);
                  high =
                      omega (arith, room st.cursor required s.high fits, head.full, head.same_size);
                  inside = omega (
                    arith,
                    head.same_size,
                    head.full,
                    ap length head.same_row,
                    length-take (declared_of input) input,
                  );
                  full = kept.0 ∙ wide;
                  nulls = (h, same, nulls st.values values st.bool_values s.filled kept keeps all);
                }))
  where
    wide : length h.present ≡ length schema.columns
    wide = Presents-length head.presents

    nulls :
        (values out : List Value) (queue : List ℕ)
        → Filled h.present (length h.present) values queue
        → IsKept h.present out
        → Keeps values out
        → All (HasValue out) queue
        → (j : ℕ) → j < length schema.columns
        → is_null (get_or out j Value.null) ≡ not (get_or h.present j true)
    nulls values out queue filled kept keeps all j lt =
        elim (Bool-cases (get_or h.present j true)) [
          | inr absent ↦ kept.1 j absent ∙ rw absent refl
          | inl there ↦ elim (filled j (omega (arith, wide))) [
            | inl absent ↦ cc
            | inr (inl set_already) ↦ keeps j set_already ∙ rw there refl
            | inr (inr queued) ↦ All-Among (HasValue out) j queue all queued ∙ rw there refl
          ]
        ]

    room :
        (cursor required : ℕ)
        → cursor ≤ length h.row
        → not (ltb (length h.row - cursor) required) ≡ true
        → cursor + required ≤ length h.row
    room cursor required high fits = ground arith

-- `decode_row` never panics, and never goes back over or past the row: a row that it gives has the
-- size of the header, no flags, an end behind the prefix and the null bitmap and inside the declared
-- size, which is inside the input, and one value for each column of the schema, which is null exactly
-- if the column is absent.
pub decode_row-IsRow :
    (input : List ℕ) (schema : RowSchema) → Gives (IsRow input schema) (decode_row input schema)
unfolding decode_row
decode_row-IsRow input schema =
    Gives->>= _ (IsRow input schema) (Gives-guard (not (ltb (length input) 2)) _) λ u two.
      elim (row_header_and_presence_cases input schema) [
        | inl (a, e) ↦ rw e (fails _)
        | inr (inl (a, b, e)) ↦ rw e (fails _)
        | inr (inr (inl (a, b, c, e))) ↦ rw e (fails _)
        | inr (inr (inr (inl (a, b, e)))) ↦ rw e (fails _)
        | inr (inr (inr (inr (h, e, head)))) ↦ rw e (behind_header input schema h e head)
      ]

Gives-cases :
    {A : Type 0} (P : A → Type 0) (m : Outcome DecodeError A)
    → Gives P m
    → ((e : DecodeError) × (m ≡ err e)) ⊎ ((a : A) × (m ≡ ok a) × P a)
Gives-cases P m (fails e) = inl (e, refl)
Gives-cases P m (gives a p) = inr (a, refl, p)

-- `decode_row` and `decode_row_exact` never panic, and where `decode_row` fails, `decode_row_exact`
-- returns the same error. A row that `decode_row` gives has the size of the header, no flags, an end
-- behind the prefix and the null bitmap and inside the declared size, which is inside the input, and
-- one value for each column of the schema, which is null exactly if the header says that the column is
-- absent. `decode_row_exact` returns that row if it ends at the declared size, and otherwise
-- `TrailingData` with what is left; the subtraction of the sizes never underflows.
pub decode_row_exact_cases :
    (input : List ℕ) (schema : RowSchema)
    → ((e : DecodeError) × (decode_row input schema ≡ err e)
        × (decode_row_exact input schema ≡ err e))
      ⊎ ((d : DecodedRow) × (decode_row input schema ≡ ok d)
          × IsRow input schema d
          × (((d.consumed_size < d.declared_size)
                × (decode_row_exact input schema
                    ≡ err (trailing_data (d.declared_size - d.consumed_size))))
              ⊎ ((d.consumed_size ≡ d.declared_size) × (decode_row_exact input schema ≡ ok d))))
unfolding decode_row_exact
decode_row_exact_cases input schema =
    elim (Gives-cases (IsRow input schema) (decode_row input schema)
      (decode_row-IsRow input schema)) [
        | inl (e, same) ↦ inl (e, same, rw same refl)
        | inr (d, same, row) ↦ inr (
          d,
          same,
          row,
          elim (dec_lt d.consumed_size d.declared_size) [
            | yes short ↦ inl (short, rw same (ground (arith, row.high)))
            | no whole ↦ inr (omega (arith, row.high), rw same (ground (arith, row.high)))
          ],
        )
      ]

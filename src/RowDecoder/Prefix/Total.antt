-- ===== src/RowDecoder/Prefix/Total.antt =====
-- `decode_row_prefix_and_boolean_tail` on rows of any bytes.
use opensqlanywhere.Base.{
  length-take, suc, ◌/◌, ◌++◌, ap, sym, drop, length-drop, take-length, take-append-drop, ℕ, ◌+◌,
  ◌-◌, ◌≤◌, ◌<◌, ◌≡◌, ◌⊎◌, inl, inr, refl, subst, List, [], ◌∷◌, arith, Bool, true, false, not,
  ◌||◌, ◌==◌, leb, ltb, Bool-cases, length, take, All, ok, ◌>>=◌, if◌then◌else◌, Gives, gives,
  fails, Gives->>=, Gives-weaken, Gives-guard, slice-ok, slice, leb→le,
}
use opensqlanywhere.RowDecoder.{
  ColumnDef, RowSchema, DecodeError, BooleanTailLayout, boolean_bytes, packed_msb_first,
  inline_bytes, inline_packed_runs_msb_first, inline_packed_runs_lsb_first, inline_u16_le,
  RowHeaderAndPresence, row_header_and_presence,
}
use opensqlanywhere.RowDecoder.Header.{
  lead_of, declared_of, IsHeader, Presents-length, row_header_and_presence_cases,
}
use opensqlanywhere.RowDecoder.Rows.{is_inline_boolean_layout, required_tail}
use opensqlanywhere.RowDecoder.Rows.Total.{TailRoom}
use opensqlanywhere.RowDecoder.Prefix.{
  PartialRowValue, PartialDecodedRow, push_tail, prefix_body, decode_row_prefix_and_boolean_tail,
}
use opensqlanywhere.RowDecoder.Prefix.State.{IsSource, indices, field_indices, IsState, IsOrdered}
use opensqlanywhere.RowDecoder.Prefix.Columns.{prefix_columns-Gives}
use opensqlanywhere.RowDecoder.Prefix.Order.{boolean_indices, below}
use opensqlanywhere.RowDecoder.Prefix.PutDown.{IsPutDown}
use opensqlanywhere.RowDecoder.Rows.Nulls.{is_packed}
use opensqlanywhere.RowDecoder.Prefix.Booleans.{
  numbers, AreTail, IsBooleanAt, Found, boolean_columns-Gives, Pushed, push_tail-Gives,
}

inline_or_room :
    (layout : BooleanTailLayout) (n : ℕ)
    → is_inline_boolean_layout layout ≡ false
    → TailRoom layout 0 n (required_tail layout n)
unfolding required_tail is_inline_boolean_layout
inline_or_room boolean_bytes n e = omega arith
inline_or_room packed_msb_first n e = omega arith
inline_or_room inline_bytes n e = cc
inline_or_room inline_u16_le n e = cc
inline_or_room inline_packed_runs_msb_first n e = cc
inline_or_room inline_packed_runs_lsb_first n e = cc

-- The number of bytes that some Booleans take in the tail.
abbrev pub tail_size : BooleanTailLayout → ℕ → ℕ
tail_size boolean_bytes n = n
tail_size packed_msb_first n = (n + 7) / 8
tail_size inline_bytes n = 0
tail_size inline_u16_le n = 0
tail_size inline_packed_runs_msb_first n = 0
tail_size inline_packed_runs_lsb_first n = 0

required_tail-tail_size :
    (layout : BooleanTailLayout) (n : ℕ) → required_tail layout n ≡ tail_size layout n
unfolding required_tail
required_tail-tail_size boolean_bytes n = refl
required_tail-tail_size packed_msb_first n = omega arith
required_tail-tail_size inline_bytes n = refl
required_tail-tail_size inline_u16_le n = refl
required_tail-tail_size inline_packed_runs_msb_first n = refl
required_tail-tail_size inline_packed_runs_lsb_first n = refl

-- The values of the Booleans that are present are read from the last bytes of the row.
abbrev pub IsFromTail : RowSchema → RowHeaderAndPresence → List PartialRowValue → Type 0
IsFromTail schema h values =
    let present_ones = boolean_indices h.present 0 schema.columns in
    (before : List ℕ) × (tail : List ℕ) × (h.row ≡ before ++ tail)
    × (length tail ≡ tail_size schema.boolean_tail (length present_ones))
    × AreTail schema.boolean_tail tail 0 present_ones values

-- The Booleans are inline, and the values are those of the columns through the ordinal.
abbrev pub IsInline : RowSchema → RowHeaderAndPresence → ℕ → List PartialRowValue → Type 0
IsInline schema h through values =
    (is_inline_boolean_layout schema.boolean_tail ≡ true)
    × (indices values ≡ boolean_indices h.present 0 (take through schema.columns))

length-numbers : (bs : List (ℕ × ColumnDef)) → length (numbers bs) ≡ length bs
length-numbers [] = refl
length-numbers (b ∷ bs) = ap suc (length-numbers bs)

-- What the prefix decoding gives, with the presences of the header.
pub record IsPrefix (input : List ℕ) (schema : RowSchema) (through : ℕ) (d : PartialDecodedRow)
    : Type 0 where
  pub same_size : d.declared_size ≡ declared_of input
  pub no_flags : d.flags ≡ 0
  pub ordinal : (d.through_ordinal ≡ through) × (0 < through) × (through ≤ length schema.columns)
  pub middle : 2 + lead_of schema + d.opaque_middle_len ≤ d.declared_size
  pub fields : indices d.prefix_values ≡ field_indices 0 (take through schema.columns)
  pub values :
      (h : RowHeaderAndPresence) × (row_header_and_presence input schema ≡ ok h)
      × All (IsSource schema.columns h.present through) d.prefix_values
      × All (IsSource schema.columns h.present (length schema.columns)) d.boolean_values
      × (IsInline schema h through d.boolean_values ⊎ IsFromTail schema h d.boolean_values)

weaker :
    (columns : List ColumnDef) (present : List Bool) (low high : ℕ) (vs : List PartialRowValue)
    → low ≤ high
    → All (IsSource columns present low) vs
    → All (IsSource columns present high) vs
weaker columns present low high [] h a = tt
weaker columns present low high (v ∷ vs) h ((below, id, null), a) =
    ((omega arith, id, null), weaker columns present low high vs h a)

-- In front of the columns no Boolean is put down.
IsOrdered-empty :
    (columns : List ColumnDef) (present : List Bool) (layout : BooleanTailLayout) (through : ℕ)
    (most : through ≤ length columns)
    → IsOrdered columns present layout through most 0 []
IsOrdered-empty columns present layout through most =
    elim (Bool-cases (is_inline_boolean_layout layout)) [
      | inr e ↦ inl (e, refl)
      | inl e ↦ inr (e, start (Bool-cases (is_packed layout)))
    ]
  where
    start :
        (is_packed layout ≡ true) ⊎ (is_packed layout ≡ false)
        → IsPutDown columns present layout through most 0 []
    start (inr plain) = (0, omega arith, omega arith, refl, inl (plain, refl))
    start (inl packed) = (
      0,
      omega arith,
      omega arith,
      refl,
      inr (packed, ((λ k l r. absurd (omega arith)), inr (inl refl))),
    )

module _ (input : List ℕ) (schema : RowSchema) (through : ℕ) (low : 0 < through)
    (most : through ≤ length schema.columns) (h : RowHeaderAndPresence)
    (same : row_header_and_presence input schema ≡ ok h) (head : IsHeader input schema h) where
  wide : length h.present ≡ length schema.columns
  wide = Presents-length head.presents

  abbrev Source : List PartialRowValue → Type 0
  Source out = All (IsSource schema.columns h.present (length schema.columns)) out

  AllBooleans : List PartialRowValue → Type 0
  AllBooleans out = Source out × (IsInline schema h through out ⊎ IsFromTail schema h out)

  tail_found :
      (bs : List (ℕ × ColumnDef)) (start : ℕ) (out : List PartialRowValue)
      → numbers bs ≡ boolean_indices h.present 0 schema.columns
      → start + required_tail schema.boolean_tail (length bs) ≡ length h.row
      → Pushed schema.columns h.present wide schema.boolean_tail (drop start h.row) 0 bs [] out
      → Source out × IsFromTail schema h out
  tail_found bs start out number e (new, same_out, are, sources) = (
    subst Source (sym same_out) sources,
    (
      take start h.row,
      drop start h.row,
      sym (take-append-drop start h.row),
      omega (
        arith,
        length-drop start h.row,
        ap length number,
        length-numbers bs,
        sym (ap (λ (t : List ℕ). tail_size schema.boolean_tail (length t)) number),
        required_tail-tail_size schema.boolean_tail (length bs),
        ap (tail_size schema.boolean_tail) (length-numbers bs),
      ),
      subst
          (AreTail schema.boolean_tail (drop start h.row) 0
            (boolean_indices h.present 0 schema.columns))
          (sym same_out)
          (subst (λ (t : List ℕ). AreTail schema.boolean_tail (drop start h.row) 0 t new) number
            are),
    ),
  )

  from_tail :
      (bs : List (ℕ × ColumnDef)) (values : List PartialRowValue) (tail_start : ℕ)
      → All (IsBooleanAt schema.columns h.present) bs
      → numbers bs ≡ boolean_indices h.present 0 schema.columns
      → tail_start + required_tail schema.boolean_tail (length bs) ≡ length h.row
      → Source values
      → IsOrdered schema.columns h.present schema.boolean_tail through most through values
      → Gives AllBooleans (
          if is_inline_boolean_layout schema.boolean_tail
          then ok values
          else (slice h.row tail_start (length h.row) >>= λ tail.
              push_tail schema.boolean_tail tail 0 bs values))
  unfolding AllBooleans
  from_tail bs values tail_start found number e a (inr (inline, (done, lo, hi, put, more))) =
      let at : done ≡ through = omega arith in
      rw inline (
        gives values (
          a,
          inl (inline, subst (λ (k : ℕ). indices values ≡ below schema.columns h.present k) at put),
        ))
  from_tail bs values tail_start found number e a (inl (tailed, none)) =
      let size = length-drop tail_start h.row in
      let whole : take (length h.row - tail_start) (drop tail_start h.row) ≡ drop tail_start h.row =
        take-length (length h.row - tail_start) (drop tail_start h.row) (omega arith) in
      rw
        (
          tailed,
          none,
          slice-ok {E = DecodeError} h.row tail_start (length h.row) (omega arith) (omega arith),
          whole,
        )
        (Gives-weaken
          (Pushed schema.columns h.present wide schema.boolean_tail (drop tail_start h.row) 0 bs [])
          _
          (λ out f.
            let (sources, is) = tail_found bs tail_start out number e f in (sources, inr is))
          (push_tail-Gives schema.columns h.present wide schema.boolean_tail _ 0 bs []
            (subst (TailRoom schema.boolean_tail 0 (length bs)) (omega (arith, size))
              (inline_or_room schema.boolean_tail (length bs) tailed))
            found))

  prefix_body-Gives : Gives (IsPrefix input schema through) (prefix_body schema through h)
  unfolding prefix_body AllBooleans
  prefix_body-Gives =
      Gives->>= (Found schema.columns h.present wide 0 schema.columns) Result
        (boolean_columns-Gives schema.columns h.present wide 0 schema.columns refl)
        λ bs (found, number).
          Gives->>= _ Result (Gives-guard (leb h.cursor (length h.row)) _) λ u inside.
            Gives->>= _ Result
              (Gives-guard
                (not
                  (ltb (length h.row - h.cursor) (required_tail schema.boolean_tail (length bs))))
                _)
              λ u' fits.
                let required = required_tail schema.boolean_tail (length bs) in
                let tail_start = length h.row - required in
                Gives->>=
                  (IsState h.row schema.columns h.present schema.boolean_tail h.cursor through most
                    through ([] ++ field_indices 0 (take through schema.columns)))
                  Result
                  (prefix_columns-Gives h.row schema h.present h.cursor through wide most tail_start
                    0 [] (take through schema.columns) _
                    (omega (arith, length-take through schema.columns)) refl
                    (record {
                      low = omega arith;
                      high = head.inside;
                      fields = refl;
                      prefixes = tt;
                      booleans = tt;
                      order =
                          IsOrdered-empty schema.columns h.present schema.boolean_tail through most;
                    }))
                  λ st s.
                    Gives->>= AllBooleans Result
                      (from_tail bs st.boolean_values tail_start found number (room required fits)
                        (weaker schema.columns h.present through (length schema.columns)
                          st.boolean_values most s.booleans)
                        s.order)
                      λ values (sources, enough).
                        Gives->>= _ Result (Gives-guard (leb st.cursor tail_start) _) λ u'' behind.
                          gives _ (record {
                            same_size = head.same_size;
                            no_flags = head.no_flags;
                            ordinal = (refl, low, most);
                            middle = omega (
                              arith,
                              s.low,
                              head.same_cursor,
                              head.same_size,
                              head.full,
                              leb→le st.cursor tail_start behind,
                            );
                            fields = s.fields;
                            values = (h, same, s.prefixes, sources, enough);
                          })
    where
      Result : PartialDecodedRow → Type 0
      Result d = IsPrefix input schema through d

      room :
          (required : ℕ)
          → not (ltb (length h.row - h.cursor) required) ≡ true
          → length h.row - required + required ≡ length h.row
      room required fits = ground (arith, head.inside)

-- `decode_row_prefix_and_boolean_tail` never panics. What it gives has the size of the header and no
-- flags; the ordinal is from one to the number of columns; the header, the prefix and null bitmap and
-- the opaque middle lie inside the declared size. The prefix values are those of the columns through
-- the ordinal that are not Booleans, one for each and in their order. If the Booleans are inline, the
-- Boolean values are those of the Boolean columns through the ordinal that are present, one for each
-- and in their order. Otherwise they are those of all Boolean columns that are present, one for each
-- and in their order, and the value of each is the byte or the bit of its place in the last bytes of
-- the row, of which there are as many as these columns need. Each value has the index of a column
-- (through the ordinal, for a prefix value) and that column's identifier, and is null exactly if that
-- column is absent.
pub decode_row_prefix-IsPrefix :
    (input : List ℕ) (schema : RowSchema) (through_ordinal : ℕ)
    → Gives
        (IsPrefix input schema through_ordinal)
        (decode_row_prefix_and_boolean_tail input schema through_ordinal)
unfolding decode_row_prefix_and_boolean_tail
decode_row_prefix-IsPrefix input schema through_ordinal =
    Gives->>= _ (IsPrefix input schema through_ordinal)
      (Gives-guard (not (through_ordinal == 0 || ltb (length schema.columns) through_ordinal)) _)
      λ u fits. elim (row_header_and_presence_cases input schema) [
        | inl (a, e) ↦ rw e (fails _)
        | inr (inl (a, b, e)) ↦ rw e (fails _)
        | inr (inr (inl (a, b, c, e))) ↦ rw e (fails _)
        | inr (inr (inr (inl (a, b, e)))) ↦ rw e (fails _)
        | inr (inr (inr (inr (h, e, head)))) ↦
            rw e (
              prefix_body-Gives input schema through_ordinal (ground arith) (ground arith) h e head)
      ]

-- ===== src/RowDecoder/Prefix/Columns.antt =====
-- The loop over the columns of the prefix decoding.
use opensqlanywhere.Base.{
  ◌&&◌, drop-cons, ℕ, suc, ◌+◌, ◌≤◌, ◌<◌, ◌≡◌, inl, inr, refl, ap, sym, subst, ◌∙◌, List, [], ◌∷◌,
  ◌++◌, arith, Bool, true, false, not, ◌||◌, leb, Bool-cases, length, take, drop, get_or,
  get_or-take, All-append, ok, if◌then◌else◌, read-Gives, index-ok, Gives, gives, Gives->>=,
  Gives-weaken, Gives-guard,
}
use mathlib.Core.List.{append-nil}
use opensqlanywhere.RowDecoder.{
  ColumnDef, RowSchema, DecodeError, BooleanTailLayout, boolean_bytes, packed_msb_first,
  inline_bytes, inline_packed_runs_msb_first, inline_packed_runs_lsb_first, inline_u16_le,
}
use opensqlanywhere.RowDecoder.Domains.{is_boolean}
use opensqlanywhere.RowDecoder.Values.{Value, is_null}
use opensqlanywhere.RowDecoder.Fields.Bounds.{take_at-Gives, decode_non_boolean-Gives}
use opensqlanywhere.RowDecoder.Rows.{is_inline_boolean_layout}
use opensqlanywhere.RowDecoder.Rows.Runs.{decode_boolean_byte-Gives, decode_boolean_u16-Gives}
use opensqlanywhere.RowDecoder.Rows.Nulls.{unnamed, holds_boolean, is_packed}
use opensqlanywhere.RowDecoder.Prefix.{
  PartialRowValue, PrefixState, value_of, prefix_boolean, prefix_column, prefix_columns,
}
use opensqlanywhere.RowDecoder.Prefix.State.{
  IsSource, field_indices, indices-append, joined, IsState, Order-other, Order-one, Order-tailed,
}
use opensqlanywhere.RowDecoder.Prefix.Runs.{prefix_run-Gives}

module _ (row : List ℕ) (schema : RowSchema) (present : List Bool) (start through : ℕ)
    (full : length present ≡ length schema.columns) (most : through ≤ length schema.columns) where
  abbrev Source : PartialRowValue → Type 0
  Source = IsSource schema.columns present through

  abbrev State : ℕ → List ℕ → PrefixState → Type 0
  State i n st = IsState row schema.columns present schema.boolean_tail start through most i n st

  abbrev Holds : ℕ → Bool → Type 0
  Holds i b = holds_boolean schema.columns present i ≡ b

  prefix_boolean-Gives :
      (layout : BooleanTailLayout) (i : ℕ) (n : List ℕ) (column : ColumnDef) (st : PrefixState)
      → schema.boolean_tail ≡ layout
      → i < through
      → column ≡ get_or schema.columns i unnamed
      → get_or present i true ≡ true
      → Holds i true
      → State i n st
      → Gives (State (suc i) n) (prefix_boolean row schema through present layout i column st)
  unfolding prefix_boolean is_inline_boolean_layout
  prefix_boolean-Gives inline_bytes i n column st kind below same there held s =
      Gives->>= _ (State (suc i) n) (take_at-Gives row st.cursor 1 i s.high) λ r (len, at, inside).
        Gives->>= _ (State (suc i) n) (read-Gives {E = DecodeError} r.0 0 (omega arith)) λ v e.
          Gives->>= _ (State (suc i) n) (decode_boolean_byte-Gives i v) λ value u. gives _ (record {
            low = omega (arith, s.low);
            high = inside;
            fields = s.fields;
            prefixes = s.prefixes;
            booleans =
                All-append Source st.boolean_values _ s.booleans
                  ((below, ap (λ (c : ColumnDef). c.id) same, rw there refl), tt);
            order =
                Order-one schema present through most i column value st.boolean_values below
                  (ap is_inline_boolean_layout kind) (ap is_packed kind) held s.order;
          })
  prefix_boolean-Gives inline_u16_le i n column st kind below same there held s =
      Gives->>= _ (State (suc i) n) (take_at-Gives row st.cursor 2 i s.high) λ r (len, at, inside).
        Gives->>= _ (State (suc i) n) (decode_boolean_u16-Gives i r.0 (omega arith)) λ value u.
          gives _ (record {
            low = omega (arith, s.low);
            high = inside;
            fields = s.fields;
            prefixes = s.prefixes;
            booleans =
                All-append Source st.boolean_values _ s.booleans
                  ((below, ap (λ (c : ColumnDef). c.id) same, rw there refl), tt);
            order =
                Order-one schema present through most i column value st.boolean_values below
                  (ap is_inline_boolean_layout kind) (ap is_packed kind) held s.order;
          })
  prefix_boolean-Gives boolean_bytes i n column st kind below same there held s = gives st (record {
    low = s.low;
    high = s.high;
    fields = s.fields;
    prefixes = s.prefixes;
    booleans = s.booleans;
    order =
        Order-tailed schema present through most i st.boolean_values
          (ap is_inline_boolean_layout kind) s.order;
  })
  prefix_boolean-Gives packed_msb_first i n column st kind below same there held s =
      gives st (record {
        low = s.low;
        high = s.high;
        fields = s.fields;
        prefixes = s.prefixes;
        booleans = s.booleans;
        order =
            Order-tailed schema present through most i st.boolean_values
              (ap is_inline_boolean_layout kind) s.order;
      })
  prefix_boolean-Gives inline_packed_runs_msb_first i n column st kind below same there held s =
      prefix_run-Gives row schema present start through full most _ i n st (inl refl)
        (ap is_inline_boolean_layout kind) (ap is_packed kind) below held s
  prefix_boolean-Gives inline_packed_runs_lsb_first i n column st kind below same there held s =
      prefix_run-Gives row schema present start through full most _ i n st (inr refl)
        (ap is_inline_boolean_layout kind) (ap is_packed kind) below held s

  -- One more value of the prefix.
  push_field :
      (i behind : ℕ) (n : List ℕ) (column : ColumnDef) (value : Value) (st : PrefixState)
      → i < through
      → column ≡ get_or schema.columns i unnamed
      → Holds i false
      → is_null value ≡ not (get_or present i true)
      → st.cursor ≤ behind
      → behind ≤ length row
      → State i n st
      → State (suc i) (n ++ (i ∷ [])) (record st {
        cursor = behind;
        prefix_values = st.prefix_values ++ (value_of i column value ∷ []);
      })
  push_field i behind n column value st below same other null lo hi s = record {
    low = omega (arith, s.low);
    high = hi;
    fields =
        indices-append st.prefix_values (value_of i column value ∷ [])
        ∙ ap (λ (t : List ℕ). t ++ (i ∷ [])) s.fields;
    prefixes =
        All-append Source st.prefix_values _ s.prefixes
          ((below, ap (λ (c : ColumnDef). c.id) same, null), tt);
    booleans = s.booleans;
    order = Order-other schema present through most i st.boolean_values below other s.order;
  }

  prefix_column-Gives :
      (tail_start i : ℕ) (n : List ℕ) (column : ColumnDef) (st : PrefixState)
      → i < through
      → column ≡ get_or schema.columns i unnamed
      → State i n st
      → Gives
          (State (suc i) (n ++ field_indices i (column ∷ [])))
          (prefix_column row schema through tail_start present i column st)
  unfolding prefix_column
  prefix_column-Gives tail_start i n column st below same s =
      rw (index-ok {E = DecodeError} present i true (omega arith))
        (elim (Bool-cases (is_boolean column.column_type)) [
          | inl e ↦ rw e (
              Gives-weaken (State (suc i) n) (State (suc i) (n ++ []))
                (λ st' f. subst (λ (k : List ℕ). State (suc i) k st') (sym (append-nil n)) f)
                (boolean e))
          | inr e ↦ rw e (elim (Bool-cases (get_or present i true)) [
            | inr absent ↦ rw absent (
                gives _ (
                  push_field i st.cursor n column Value.null st below same (other e)
                    (rw absent refl) (omega arith) s.high s))
            | inl there ↦ rw there (
                Gives->>= _ (State (suc i) (n ++ (i ∷ [])))
                  (decode_non_boolean-Gives row st.cursor i column schema s.high e)
                  λ r (kind, lo, hi).
                    Gives->>= _ (State (suc i) (n ++ (i ∷ [])))
                      (Gives-guard
                        (is_inline_boolean_layout schema.boolean_tail || leb r.1 tail_start) _)
                      λ u fits. gives _ (
                        push_field i r.1 n column r.0 st below same (other e) (kind ∙ rw there refl)
                          lo hi s))
          ])
        ])
    where
      here :
          (t p : Bool)
          → is_boolean column.column_type ≡ t
          → get_or present i true ≡ p
          → Holds i (t && p)
      here t p e f =
          subst (λ (c : ColumnDef). (is_boolean c.column_type && get_or present i true) ≡ (t && p))
            same (rw (e, f) refl)

      other : is_boolean column.column_type ≡ false → Holds i false
      other e = here false (get_or present i true) e refl

      boolean :
          is_boolean column.column_type ≡ true
          → Gives (State (suc i) n) (
              if get_or present i true
              then prefix_boolean row schema through present schema.boolean_tail i column st
              else ok st)
      boolean e = elim (Bool-cases (get_or present i true)) [
        | inl there ↦ rw there (
            prefix_boolean-Gives schema.boolean_tail i n column st refl below same there
              (here true true e there) s)
        | inr absent ↦ rw absent (
            gives st (record {
              low = s.low;
              high = s.high;
              fields = s.fields;
              prefixes = s.prefixes;
              booleans = s.booleans;
              order =
                  Order-other schema present through most i st.boolean_values below
                    (here true false e absent) s.order;
            }))
      ]

  pub prefix_columns-Gives :
      (tail_start i : ℕ) (n : List ℕ) (cs : List ColumnDef) (st : PrefixState)
      → i + length cs ≡ through
      → drop i (take through schema.columns) ≡ cs
      → State i n st
      → Gives
          (State through (n ++ field_indices i cs))
          (prefix_columns row schema through tail_start present i cs st)
  unfolding prefix_columns
  prefix_columns-Gives tail_start i n [] st h e s =
      let at : i ≡ through = omega arith in
      gives st (
        subst (λ (k : ℕ). State k (n ++ []) st) at
          (subst (λ (k : List ℕ). State i k st) (sym (append-nil n)) s))
  prefix_columns-Gives tail_start i n (c ∷ cs) st h e s =
      let (inside, same, behind) = drop-cons i (take through schema.columns) c cs unnamed e in
      let below : i < through = omega arith in
      let here = field_indices i (c ∷ []) in
      Gives->>= (State (suc i) (n ++ here)) (State through (n ++ field_indices i (c ∷ cs)))
        (prefix_column-Gives tail_start i n c st below
          (sym same ∙ get_or-take through i schema.columns unnamed below) s)
        λ st' s'.
          Gives-weaken (State through ((n ++ here) ++ field_indices (suc i) cs))
            (State through (n ++ field_indices i (c ∷ cs)))
            (λ final f. subst (λ (k : List ℕ). State through k final) (joined i n c cs) f)
            (prefix_columns-Gives tail_start (suc i) (n ++ here) cs st' (omega arith) behind s')

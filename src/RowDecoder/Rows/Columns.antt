-- ===== src/RowDecoder/Rows/Columns.antt =====
-- The loop over the columns of `decode_row`.
use opensqlanywhere.Base.{
  drop-cons, ap, subst, true, ℕ, suc, ◌+◌, ◌≤◌, ◌<◌, ◌≡◌, refl, inl, inr, ◌⊎◌, List, [], ◌∷◌, ◌++◌,
  arith, Bool, true, false, Bool-cases, ◌>>=◌, length, drop, get_or, Outcome, ok, All-append, Gives,
  gives, Gives->>=, index-ok, store, read-Gives,
}
use opensqlanywhere.RowDecoder.{
  ColumnDef, RowSchema, DecodeError, BooleanTailLayout, boolean_bytes, packed_msb_first,
  inline_bytes, inline_packed_runs_msb_first, inline_packed_runs_lsb_first, inline_u16_le,
}
use opensqlanywhere.RowDecoder.Domains.{is_boolean}
use opensqlanywhere.RowDecoder.Values.{Value, is_null}
use opensqlanywhere.RowDecoder.Fields.Bounds.{take_at-Gives, decode_non_boolean-Gives}
use opensqlanywhere.RowDecoder.Rows.{
  DecodeState, is_inline_boolean_layout, decode_boolean, decode_column, decode_columns,
}
use opensqlanywhere.RowDecoder.Rows.Nulls.{
  unnamed, holds_boolean, is_packed, IsThere, IsWritten, Ahead, Filled, IsState, store-IsWritten,
  Filled-suc, Filled-Keeps, Among-append_left, Among-append_last,
}
use opensqlanywhere.RowDecoder.Rows.Runs.{decode_boolean_byte-Gives, decode_boolean_u16-Gives}
use opensqlanywhere.RowDecoder.Rows.Packed.{decode_run-Gives}

module _ (row : List ℕ) (schema : RowSchema) (present : List Bool) (start : ℕ)
    (full : length present ≡ length schema.columns) where
  abbrev State : ℕ → DecodeState → Type 0
  State i st = IsState row schema.columns schema.boolean_tail present start i st

  -- What lies ahead of a column that is no Boolean of a packed run.
  past :
      (i : ℕ) (values : List Value)
      → (is_packed schema.boolean_tail ≡ false) ⊎ (holds_boolean schema.columns present i ≡ false)
      → (is_packed schema.boolean_tail ≡ false) ⊎ Ahead schema.columns present values (suc i)
  past i values (inl e) = inl e
  past i values (inr e) = inr (inl e)

  -- A value that is stored at a column that is present, with the cursor moved behind it.
  stored :
      {A : Type 0} (i behind : ℕ) (st : DecodeState) (P : A → Type 0) (make : A → Value)
      (m : Outcome DecodeError A)
      → IsThere present i
      → (is_packed schema.boolean_tail ≡ false) ⊎ (holds_boolean schema.columns present i ≡ false)
      → ((a : A) → P a → is_null (make a) ≡ false)
      → State i st
      → st.cursor ≤ behind
      → behind ≤ length row
      → Gives P m
      → Gives (State (suc i)) (
          m >>= λ a. store st.values i (make a) >>= λ values.
          ok (record st { cursor = behind; values = values }))
  stored i behind st P make m h other kind s lo hi g = Gives->>= P (State (suc i)) g λ a p.
      Gives->>= (IsWritten present st.values i) (State (suc i))
        (store-IsWritten present st.values i (make a) h (kind a p) s.kept)
        λ values (kept, keeps, here). gives _ (record {
          low = omega (arith, s.low);
          high = hi;
          kept = kept;
          there = s.there;
          queued = s.queued;
          filled =
              Filled-suc present i values st.bool_values
                (Filled-Keeps present i st.values values st.bool_values keeps s.filled)
                (inr (inl here));
          ahead = past i values other;
        })

  queue :
      (i : ℕ) (st : DecodeState)
      → is_inline_boolean_layout schema.boolean_tail ≡ false
      → is_packed schema.boolean_tail ≡ false
      → IsThere present i
      → State i st
      → State (suc i) (record st { bool_values = st.bool_values ++ (i ∷ []) })
  queue i st e other h s = record {
    low = s.low;
    high = s.high;
    kept = s.kept;
    there = All-append (IsThere present) st.bool_values (i ∷ []) s.there (h, tt);
    queued = λ e'. cc;
    filled =
        Filled-suc present i st.values (st.bool_values ++ (i ∷ [])) earlier
          (inr (inr (Among-append_last i st.bool_values)));
    ahead = inl other;
  }
    where
      earlier : Filled present i st.values (st.bool_values ++ (i ∷ []))
      earlier j lt = elim (s.filled j lt) [
        | inl absent ↦ inl absent
        | inr (inl set_already) ↦ inr (inl set_already)
        | inr (inr queued) ↦ inr (inr (Among-append_left j st.bool_values (i ∷ []) queued))
      ]

  decode_boolean-Gives :
      (layout : BooleanTailLayout) (i : ℕ) (st : DecodeState)
      → schema.boolean_tail ≡ layout
      → IsThere present i
      → holds_boolean schema.columns present i ≡ true
      → State i st
      → Gives (State (suc i)) (decode_boolean row schema present layout i st)
  unfolding decode_boolean is_inline_boolean_layout
  decode_boolean-Gives inline_bytes i st e h b s =
      Gives->>= _ (State (suc i)) (take_at-Gives row st.cursor 1 i s.high) λ r (len, at, inside).
        Gives->>= _ (State (suc i)) (read-Gives {E = DecodeError} r.0 0 (omega arith)) λ v same.
          stored i r.1 st (λ (v : Bool). Unit {0}) Value.boolean _ h (inl (ap is_packed e))
            (λ a p. refl) s (omega arith) inside (decode_boolean_byte-Gives i v)
  decode_boolean-Gives inline_u16_le i st e h b s =
      Gives->>= _ (State (suc i)) (take_at-Gives row st.cursor 2 i s.high) λ r (len, at, inside).
        stored i r.1 st (λ (v : Bool). Unit {0}) Value.boolean _ h (inl (ap is_packed e))
          (λ a p. refl) s (omega arith) inside (decode_boolean_u16-Gives i r.0 (omega arith))
  decode_boolean-Gives boolean_bytes i st e h b s =
      gives _ (queue i st (rw e refl) (ap is_packed e) h s)
  decode_boolean-Gives packed_msb_first i st e h b s =
      gives _ (queue i st (rw e refl) (ap is_packed e) h s)
  decode_boolean-Gives inline_packed_runs_msb_first i st e h b s =
      decode_run-Gives row schema present start full _ i st (inl refl) e b h.0 s
  decode_boolean-Gives inline_packed_runs_lsb_first i st e h b s =
      decode_run-Gives row schema present start full _ i st (inr refl) e b h.0 s

  -- A column that is absent is passed over.
  pass_over :
      (i : ℕ) (st : DecodeState) → get_or present i true ≡ false → State i st → State (suc i) st
  pass_over i st absent s = record {
    low = s.low;
    high = s.high;
    kept = s.kept;
    there = s.there;
    queued = s.queued;
    filled = Filled-suc present i st.values st.bool_values s.filled (inl absent);
    ahead = past i st.values (inr (ground arith));
  }

  decode_column-Gives :
      (i : ℕ) (column : ColumnDef) (st : DecodeState)
      → i < length present
      → get_or schema.columns i unnamed ≡ column
      → State i st
      → Gives (State (suc i)) (decode_column row schema present i column st)
  unfolding decode_column
  decode_column-Gives i column st h c s =
      rw (index-ok {E = DecodeError} present i true h) (elim (Bool-cases (get_or present i true)) [
        | inr absent ↦ rw absent (gives st (pass_over i st absent s))
        | inl there ↦ rw there (elim (Bool-cases (is_boolean column.column_type)) [
          | inl e ↦ rw e (
              decode_boolean-Gives schema.boolean_tail i st refl (h, there) (rw (c, e, there) refl)
                s)
          | inr e ↦ rw e (
              Gives->>= _ (State (suc i))
                (decode_non_boolean-Gives row st.cursor i column schema s.high e)
                λ r (kind, lo, hi).
                  stored i r.1 st (λ (v : Value). is_null v ≡ false) (λ (v : Value). v) (ok r.0)
                    (h, there) (inr (rw (c, e) refl)) (λ a p. p) s lo hi (gives r.0 kind))
        ])
      ])

  pub decode_columns-Gives :
      (i : ℕ) (cs : List ColumnDef) (st : DecodeState)
      → drop i schema.columns ≡ cs
      → i + length cs ≡ length present
      → State i st
      → Gives (State (length present)) (decode_columns row schema present i cs st)
  unfolding decode_columns
  decode_columns-Gives i [] st d e s = gives st (subst (λ (k : ℕ). State k st) (omega arith) s)
  decode_columns-Gives i (c ∷ cs) st d e s =
      let (inside, same, behind) = drop-cons i schema.columns c cs unnamed d in
      Gives->>= (State (suc i)) (State (length present))
        (decode_column-Gives i c st (omega arith) same s)
        λ st' s'. decode_columns-Gives (suc i) cs st' behind (omega arith) s'

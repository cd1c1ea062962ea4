-- ===== src/RowDecoder/Rows/Packed.antt =====
-- The packed runs of inline Booleans in `decode_row`.
use opensqlanywhere.Base.{
  ap, subst, ◌&&◌, true, ℕ, zero, suc, ◌+◌, ◌-◌, ◌/◌, ◌≤◌, ◌<◌, ◌≡◌, refl, ◌∙◌, sym, inl, inr, ◌⊎◌,
  Gives-weaken, List, arith, Bool, true, false, Bool-cases, length, drop, length-drop, get_or,
  get_or-drop, Gives, gives, Gives->>=, index-ok,
}
use native.Mathlib.Decide.{ℕ_discrete}
use opensqlanywhere.RowDecoder.{
  ColumnDef, RowSchema, DecodeError, BooleanTailLayout, inline_packed_runs_msb_first,
  inline_packed_runs_lsb_first,
}
use opensqlanywhere.RowDecoder.Domains.{is_boolean}
use opensqlanywhere.RowDecoder.Fields.Bounds.{take_at-Gives}
use opensqlanywhere.RowDecoder.Rows.{DecodeState, inline_boolean_run_end, continues_run, decode_run}
use opensqlanywhere.RowDecoder.Rows.Nulls.{
  unnamed, holds_boolean, is_packed, HasValue, Ahead, IsState, Filled-suc, Filled-Keeps,
}
use opensqlanywhere.RowDecoder.Rows.Runs.{Run, IsWrittenRun, run_end_from-Gives, write_run-Gives}

true_is_false : true ≡ false → ⊥
true_is_false e = cc

-- Whether the column before holds a Boolean that is present.
abbrev pub continues : List ColumnDef → List Bool → ℕ → Bool
continues columns present zero = false
continues columns present (suc before) = holds_boolean columns present before

module _ (row : List ℕ) (schema : RowSchema) (present : List Bool) (start : ℕ)
    (full : length present ≡ length schema.columns) where
  abbrev pub State : ℕ → DecodeState → Type 0
  State i st = IsState row schema.columns schema.boolean_tail present start i st

  pub continues_run-Gives :
      (i : ℕ)
      → i < length present
      → Gives {E = DecodeError}
          (λ (b : Bool). b ≡ continues schema.columns present i)
          (continues_run schema present i)
  unfolding continues_run
  continues_run-Gives zero h = gives false refl
  continues_run-Gives (suc before) h =
      rw
        (
          index-ok {E = DecodeError} schema.columns before unnamed (omega arith),
          index-ok {E = DecodeError} present before true (omega arith),
        )
        (elim (Bool-cases (is_boolean (get_or schema.columns before unnamed).column_type)) [
          | inl e ↦ rw e (gives _ (ground arith))
          | inr e ↦ rw e (gives _ (ground arith))
        ])

  pub run_end-Gives :
      (i : ℕ)
      → i < length present
      → Gives {E = DecodeError}
          (λ end.
            (i ≤ end)
            × (end ≤ length present)
            × ((k : ℕ) → k < end - i → get_or present (i + k) true ≡ true)
            × ((length present ≤ end) ⊎ (holds_boolean schema.columns present end ≡ false))
            × ((k : ℕ) → i ≤ k → k < end → holds_boolean schema.columns present k ≡ true))
          (inline_boolean_run_end schema present i)
  unfolding inline_boolean_run_end
  run_end-Gives i h =
      Gives-weaken (Run (drop i schema.columns) (drop i present) i) _
        (λ end (n, e, most, all, stop). (
          omega arith,
          omega (arith, length-drop i present),
          (λ k lt.
              sym (get_or-drop i k present true)
              ∙ second (is_boolean (get_or (drop i schema.columns) k unnamed).column_type) _
                  (all k (omega arith))),
          stopped end n e stop,
          (λ k l r.
              let at : i + (k - i) ≡ k = omega arith in
              subst (λ (t : ℕ). holds_boolean schema.columns present t ≡ true) at
                (moved (k - i) true (all (k - i) (omega arith)))),
        ))
        (run_end_from-Gives (drop i schema.columns) (drop i present) i
          (omega (arith, length-drop i schema.columns, length-drop i present)))
    where
      second : (a b : Bool) → (a && b) ≡ true → b ≡ true
      second a b e = ground arith

      -- What a column of the rest holds, by its index in the schema.
      moved :
          (n : ℕ) (b : Bool)
          → holds_boolean (drop i schema.columns) (drop i present) n ≡ b
          → holds_boolean schema.columns present (i + n) ≡ b
      moved n b other =
          subst (λ (c : ColumnDef). (is_boolean c.column_type && get_or present (i + n) true) ≡ b)
            (get_or-drop i n schema.columns unnamed)
            (subst
              (λ (p : Bool).
                (is_boolean (get_or (drop i schema.columns) n unnamed).column_type && p) ≡ b)
              (get_or-drop i n present true) other)

      stopped :
          (end n : ℕ)
          → end ≡ i + n
          → (n ≡ length (drop i present))
            ⊎ (holds_boolean (drop i schema.columns) (drop i present) n ≡ false)
          → (length present ≤ end) ⊎ (holds_boolean schema.columns present end ≡ false)
      stopped end n e (inl whole) = inl (omega (arith, length-drop i present))
      stopped end n e (inr other) = inr (
          subst (λ (t : ℕ). holds_boolean schema.columns present t ≡ false) (sym e)
            (moved n false other))

  -- A column in a run is set already, and the run goes on.
  in_run :
      (i : ℕ) (st : DecodeState)
      → continues schema.columns present i ≡ true
      → holds_boolean schema.columns present i ≡ true
      → i < length present
      → Ahead schema.columns present st.values i
      → HasValue st.values i × Ahead schema.columns present st.values (suc i)
  in_run zero st c b h a = cc
  in_run (suc before) st c b h (inl other) = cc
  in_run (suc before) st c b h (inr (e, lo, all, stop)) =
      let inside : suc before < e = before_end e lo stop in
      (
        all (suc before) (omega arith) inside,
        inr (e, inside, (λ j l r. all j (omega arith) r), stop),
      )
    where
      before_end :
          (e : ℕ)
          → suc before ≤ e
          → (length present ≤ e) ⊎ (holds_boolean schema.columns present e ≡ false)
          → suc before < e
      before_end e lo (inl last) = omega arith
      before_end e lo (inr other) = elim (ℕ_discrete (suc before) e) [
        | no differ ↦ omega arith
        | yes same ↦
            let here : holds_boolean schema.columns present (suc before) ≡ false =
              subst (λ (t : ℕ). holds_boolean schema.columns present t ≡ false) (sym same) other in
            absurd (true_is_false (sym b ∙ here))
      ]

  pub decode_run-Gives :
      (layout : BooleanTailLayout) (i : ℕ) (st : DecodeState)
      → (layout ≡ inline_packed_runs_msb_first) ⊎ (layout ≡ inline_packed_runs_lsb_first)
      → schema.boolean_tail ≡ layout
      → holds_boolean schema.columns present i ≡ true
      → i < length present
      → State i st
      → Gives (State (suc i)) (decode_run row schema present layout i st)
  unfolding decode_run
  decode_run-Gives layout i st packed same b h s =
      Gives->>= _ (State (suc i)) (continues_run-Gives i h) λ inside u. elim (Bool-cases inside) [
        | inl e ↦
            let (set_already, more) =
              in_run i st (sym u ∙ e) b h (ahead_of layout i st packed same s) in
            rw e (
              gives st (record {
                low = s.low;
                high = s.high;
                kept = s.kept;
                there = s.there;
                queued = s.queued;
                filled =
                    Filled-suc present i st.values st.bool_values s.filled (inr (inl set_already));
                ahead = inr more;
              }))
        | inr e ↦ rw e (
            Gives->>= _ (State (suc i)) (run_end-Gives i h) λ end (lo, hi, all, stop, held).
              Gives->>= _ (State (suc i)) (take_at-Gives row st.cursor ((end - i + 7) / 8) i s.high)
                λ r (len, at, inside).
                  Gives->>= (IsWrittenRun present st.values i (end - i)) (State (suc i))
                    (write_run-Gives layout r.0 present (end - i) 0 i st.values packed (omega arith)
                      (λ k lt. (omega arith, all k lt)) s.kept)
                    λ values (kept, keeps, written).
                      let here : i < end = starts i end b h lo stop in
                      gives _ (record {
                        low = omega (arith, s.low);
                        high = inside;
                        kept = kept;
                        there = s.there;
                        queued = s.queued;
                        filled =
                            Filled-suc present i values st.bool_values
                              (Filled-Keeps present i st.values values st.bool_values keeps
                                s.filled)
                              (inr (inl (written i (omega arith) (omega arith))));
                        ahead = inr (
                            inr
                              (end, here, (λ j l r. written j (omega arith) (omega arith)), stop));
                      }))
      ]
    where
      ahead_of :
          (layout : BooleanTailLayout) (i : ℕ) (st : DecodeState)
          → (layout ≡ inline_packed_runs_msb_first) ⊎ (layout ≡ inline_packed_runs_lsb_first)
          → schema.boolean_tail ≡ layout
          → State i st
          → Ahead schema.columns present st.values i
      ahead_of layout i st packed same s = elim s.ahead [
        | inr more ↦ more
        | inl other ↦ elim packed [
          | inl e ↦ absurd (true_is_false (sym (ap is_packed (same ∙ e)) ∙ other))
          | inr e ↦ absurd (true_is_false (sym (ap is_packed (same ∙ e)) ∙ other))
        ]
      ]

      starts :
          (i end : ℕ)
          → holds_boolean schema.columns present i ≡ true
          → i < length present
          → i ≤ end
          → (length present ≤ end) ⊎ (holds_boolean schema.columns present end ≡ false)
          → i < end
      starts i end b h lo (inl last) = omega arith
      starts i end b h lo (inr other) = elim (ℕ_discrete i end) [
        | no differ ↦ omega arith
        | yes same ↦
            let here : holds_boolean schema.columns present i ≡ false =
              subst (λ (t : ℕ). holds_boolean schema.columns present t ≡ false) (sym same) other in
            absurd (true_is_false (sym b ∙ here))
      ]

-- ===== src/RowDecoder/Prefix/Runs.antt =====
-- The runs of packed inline Booleans in the prefix decoding.
use opensqlanywhere.Base.{
  ℕ, zero, suc, ◌+◌, ◌-◌, ◌/◌, ◌≤◌, ◌<◌, ◌≡◌, ◌⊎◌, inl, inr, refl, ap, sym, subst, ◌∙◌, List, [],
  ◌∷◌, ◌++◌, arith, Bool, true, false, not, leb, Bool-cases, length, get_or, All, All-append,
  index-ok, Gives, gives, Gives->>=, Gives-weaken,
}
use mathlib.Core.List.{append-nil, append_assoc}
use opensqlanywhere.RowDecoder.{
  RowSchema, DecodeError, BooleanTailLayout, inline_packed_runs_msb_first,
  inline_packed_runs_lsb_first,
}
use opensqlanywhere.RowDecoder.Fields.Bounds.{take_at-Gives}
use opensqlanywhere.RowDecoder.Rows.{is_inline_boolean_layout}
use opensqlanywhere.RowDecoder.Rows.Runs.{bit-Gives}
use opensqlanywhere.RowDecoder.Rows.Nulls.{unnamed, holds_boolean, is_packed}
use opensqlanywhere.RowDecoder.Prefix.Order.{range}
use opensqlanywhere.RowDecoder.Prefix.PutDown.{IsPutDown, IsPutDown-inside, IsPutDown-run}
use native.Mathlib.Decide.{ℕ_discrete}
use opensqlanywhere.RowDecoder.Rows.Packed.{continues, continues_run-Gives, run_end-Gives}
use opensqlanywhere.RowDecoder.Prefix.{PartialRowValue, PrefixState, push_run, prefix_run}
use opensqlanywhere.RowDecoder.Prefix.State.{
  IsSource, indices, indices-append, IsState, Order-IsPutDown,
}
use opensqlanywhere.RowDecoder.Prefix.PutDown.{true_is_false}

module _ (row : List ℕ) (schema : RowSchema) (present : List Bool) (start through : ℕ)
    (full : length present ≡ length schema.columns) (most : through ≤ length schema.columns) where
  abbrev Source : PartialRowValue → Type 0
  Source = IsSource schema.columns present through

  abbrev State : ℕ → List ℕ → PrefixState → Type 0
  State i n st = IsState row schema.columns present schema.boolean_tail start through most i n st

  abbrev Holds : ℕ → Bool → Type 0
  Holds i b = holds_boolean schema.columns present i ≡ b

  -- The columns of a run that are put down, up to the ordinal.
  abbrev IsPushedRun : (left i : ℕ) → (values out : List PartialRowValue) → Type 0
  IsPushedRun left i values out =
      All Source out
      × ((n : ℕ) × (indices out ≡ indices values ++ range i n)
          × (n ≤ left)
          × (i + n ≤ through)
          × ((n ≡ left) ⊎ (i + n ≡ through)))

  -- One more column of a run.
  IsPushedRun-more :
      (left i : ℕ) (v : PartialRowValue) (values out : List PartialRowValue)
      → v.column_index ≡ i
      → IsPushedRun left (suc i) (values ++ (v ∷ [])) out
      → IsPushedRun (suc left) i values out
  IsPushedRun-more left i v values out at (sources, (n, e, inside, low, last)) = (
    sources,
    (
      suc n,
      e
          ∙ (ap (λ (t : List ℕ). t ++ range (suc i) n) (indices-append values (v ∷ []))
              ∙ (append_assoc (indices values) (v.column_index ∷ []) (range (suc i) n)
                  ∙ ap (λ (k : ℕ). indices values ++ (k ∷ range (suc i) n)) at)),
      omega arith,
      omega arith,
      ended last,
    ),
  )
    where
      ended : (n ≡ left) ⊎ (suc i + n ≡ through) → (suc n ≡ suc left) ⊎ (i + suc n ≡ through)
      ended (inl all) = inl (omega arith)
      ended (inr limit) = inr (omega arith)

  push_run-Gives :
      (layout : BooleanTailLayout) (bytes : List ℕ) (left offset i : ℕ)
      (values : List PartialRowValue)
      → (layout ≡ inline_packed_runs_msb_first) ⊎ (layout ≡ inline_packed_runs_lsb_first)
      → (offset + left + 7) / 8 ≤ length bytes
      → i + left ≤ length present
      → ((k : ℕ) → k < left → get_or present (i + k) true ≡ true)
      → i ≤ through
      → All Source values
      → Gives {E = DecodeError}
          (IsPushedRun left i values)
          (push_run schema through layout bytes left offset i values)
  unfolding push_run
  push_run-Gives layout bytes zero offset i values packed room inside there low h =
      gives values (h, (0, sym (append-nil (indices values)), omega arith, omega arith, inl refl))
  push_run-Gives layout bytes (suc left) offset i values packed room inside there low h =
      elim (Bool-cases (leb through i)) [
        | inl stop ↦ rw stop (
            gives values (
              h,
              (0, sym (append-nil (indices values)), omega arith, omega arith, inr (ground arith)),
            ))
        | inr more ↦
            rw (more, index-ok {E = DecodeError} schema.columns i unnamed (omega arith))
              (Gives->>= _ (IsPushedRun (suc left) i values)
                (bit-Gives layout bytes offset packed (omega arith))
                λ bit u.
                  Gives-weaken (IsPushedRun left (suc i) _) (IsPushedRun (suc left) i values)
                    (λ out f. IsPushedRun-more left i _ values out refl f)
                    (push_run-Gives layout bytes left (suc offset) (suc i) _ packed (omega arith)
                      (omega arith)
                      (λ k lt.
                        subst (λ (t : ℕ). get_or present t true ≡ true) (omega arith)
                          (there (suc k) (omega arith)))
                      (ground arith)
                      (All-append Source values _ h ((ground arith, refl, source bit), tt))))
      ]
    where
      source : (bit : Bool) → false ≡ not (get_or present i true)
      source bit =
          let e : get_or present (i + 0) true ≡ true = there 0 (omega arith) in
          let at : i + 0 ≡ i = omega arith in
          rw (subst (λ (t : ℕ). get_or present t true ≡ true) at e) refl

  pub prefix_run-Gives :
      (layout : BooleanTailLayout) (i : ℕ) (n : List ℕ) (st : PrefixState)
      → (layout ≡ inline_packed_runs_msb_first) ⊎ (layout ≡ inline_packed_runs_lsb_first)
      → is_inline_boolean_layout schema.boolean_tail ≡ true
      → is_packed schema.boolean_tail ≡ true
      → i < through
      → Holds i true
      → State i n st
      → Gives (State (suc i) n) (prefix_run row schema through present layout i st)
  unfolding prefix_run
  prefix_run-Gives layout i n st packed inline runs below held s =
      Gives->>= _ (State (suc i) n)
        (continues_run-Gives row schema present start full i (omega arith))
        λ inside u. elim (Bool-cases inside) [
          | inl e ↦ rw e (
              gives st (record {
                low = s.low;
                high = s.high;
                fields = s.fields;
                prefixes = s.prefixes;
                booleans = s.booleans;
                order = inr (
                  inline,
                  IsPutDown-inside schema.columns present schema.boolean_tail through most i _ below
                      runs (sym u ∙ e) held
                      (Order-IsPutDown schema present through most i _ inline s.order),
                );
              }))
          | inr e ↦ rw e (
              Gives->>= _ (State (suc i) n)
                (run_end-Gives row schema present start full i (omega arith))
                λ end (lo, hi, all, stop, holding).
                  Gives->>= _ (State (suc i) n)
                    (take_at-Gives row st.cursor ((end - i + 7) / 8) i s.high)
                    λ r (len, at, inside).
                      Gives->>= (IsPushedRun (end - i) i st.boolean_values) (State (suc i) n)
                        (push_run-Gives layout r.0 (end - i) 0 i st.boolean_values packed
                          (omega arith) (omega arith) all (omega arith) s.booleans)
                        λ values (sources, (count, same, few, low, last)). gives _ (record {
                          low = omega (arith, s.low);
                          high = inside;
                          fields = s.fields;
                          prefixes = s.prefixes;
                          booleans = sources;
                          order = inr (
                            inline,
                            subst
                                (IsPutDown schema.columns present schema.boolean_tail through most
                                  (suc i))
                                (sym same)
                                (run_put i count end (indices st.boolean_values) below runs
                                  (sym u ∙ e) held holding stop lo few low last
                                  (Order-IsPutDown schema present through most i _ inline s.order)),
                          );
                        }))
        ]
    where
      before_end :
          (i end : ℕ)
          → i < through
          → Holds i true
          → i ≤ end
          → (length present ≤ end) ⊎ Holds end false
          → i < end
      before_end i end below held lo (inl long) = omega arith
      before_end i end below held lo (inr other) = elim (ℕ_discrete i end) [
        | no differ ↦ omega arith
        | yes at ↦
            absurd (true_is_false (sym held ∙ subst (λ (t : ℕ). Holds t false) (sym at) other))
      ]

      widen :
          (end : ℕ)
          → (length present ≤ end) ⊎ Holds end false
          → (length schema.columns ≤ end) ⊎ Holds end false
      widen end (inl long) = inl (omega arith)
      widen end (inr other) = inr other

      ended :
          (i n end : ℕ)
          → i ≤ end
          → (n ≡ end - i) ⊎ (i + n ≡ through)
          → (i + n ≡ end) ⊎ (i + n ≡ through)
      ended i n end lo (inl whole) = inl (omega arith)
      ended i n end lo (inr limit) = inr limit

      some : (i n end : ℕ) → i < through → i < end → (n ≡ end - i) ⊎ (i + n ≡ through) → i < i + n
      some i n end below more (inl whole) = omega arith
      some i n end below more (inr limit) = omega arith

      run_put :
          (i n end : ℕ) (seen : List ℕ)
          → i < through
          → is_packed schema.boolean_tail ≡ true
          → continues schema.columns present i ≡ false
          → Holds i true
          → ((k : ℕ) → i ≤ k → k < end → Holds k true)
          → (length present ≤ end) ⊎ Holds end false
          → i ≤ end
          → n ≤ end - i
          → i + n ≤ through
          → (n ≡ end - i) ⊎ (i + n ≡ through)
          → IsPutDown schema.columns present schema.boolean_tail through most i seen
          → IsPutDown schema.columns present schema.boolean_tail through most
              (suc i)
              (seen ++ range i n)
      run_put i n end seen below runs begins held holding stop lo few low last put =
          let nonempty : i < end = before_end i end below held lo stop in
          IsPutDown-run schema.columns present schema.boolean_tail through most i n end seen below
            runs begins held holding (widen end stop) (omega arith) low (ended i n end lo last)
            (some i n end below nonempty last) put

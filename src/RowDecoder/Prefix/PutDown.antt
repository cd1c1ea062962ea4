-- ===== src/RowDecoder/Prefix/PutDown.antt =====
-- Which Booleans the loop of the prefix decoding has put down, in the inline layouts.
use opensqlanywhere.Base.{
  ℕ, zero, suc, ◌+◌, ◌≤◌, ◌<◌, ◌≡◌, ◌⊎◌, inl, inr, refl, ap, sym, subst, ◌∙◌, List, [], ◌∷◌, ◌++◌,
  arith, Bool, true, false, length,
}
use opensqlanywhere.RowDecoder.{ColumnDef, BooleanTailLayout}
use opensqlanywhere.RowDecoder.Rows.Nulls.{holds_boolean, is_packed}
use opensqlanywhere.RowDecoder.Rows.Packed.{continues}
use native.Mathlib.Decide.{ℕ_discrete, dec_lt}
use opensqlanywhere.RowDecoder.Prefix.Order.{range, below, below-holds, below-other, below-range}

pub true_is_false : true ≡ false → ⊥
true_is_false e = cc

-- In the inline layouts the Booleans below some column are put down: for single Booleans up to the
-- current column, and for packed runs up to the end of a run that the current column may stand in.
module _ (columns : List ColumnDef) (present : List Bool) (layout : BooleanTailLayout) (through : ℕ)
    (most : through ≤ length columns) where
  abbrev IsAhead : (i done : ℕ) → Type 0
  IsAhead i done =
      ((k : ℕ)
        → i ≤ k
        → k < done
        → (continues columns present k ≡ true) × (holds_boolean columns present k ≡ true))
      × ((done ≡ through)
          ⊎ ((continues columns present i ≡ false) ⊎ (holds_boolean columns present done ≡ false)))

  abbrev pub IsPutDown : (i : ℕ) → List ℕ → Type 0
  IsPutDown i seen =
      (done : ℕ) × (i ≤ done)
      × (done ≤ through)
      × (seen ≡ below columns present done)
      × (((is_packed layout ≡ false) × (done ≡ i)) ⊎ ((is_packed layout ≡ true) × IsAhead i done))

  -- A column that holds no Boolean.
  pub IsPutDown-other :
      (i : ℕ) (seen : List ℕ)
      → i < through
      → holds_boolean columns present i ≡ false
      → IsPutDown i seen
      → IsPutDown (suc i) seen
  IsPutDown-other i seen h e (done, lo, hi, same, inl (plain, at)) = (
    suc i,
    omega arith,
    omega arith,
    same ∙ (ap (below columns present) at ∙ sym (below-other columns present i (omega arith) e)),
    inl (plain, refl),
  )
  IsPutDown-other i seen h e (done, lo, hi, same, inr (packed, (all, stop))) =
      let at : done ≡ i = stays done lo all in
      (
        suc i,
        omega arith,
        omega arith,
        same
            ∙ (ap (below columns present) at ∙ sym (below-other columns present i (omega arith) e)),
        inr (packed, ((λ k l r. absurd (omega arith)), inr (inl e))),
      )
    where
      stays :
          (done : ℕ)
          → i ≤ done
          → ((k : ℕ)
              → i ≤ k
              → k < done
              → (continues columns present k ≡ true) × (holds_boolean columns present k ≡ true))
          → done ≡ i
      stays done lo all = elim (dec_lt i done) [
        | no level ↦ omega arith
        | yes more ↦ absurd (true_is_false (sym (all i (omega arith) more).1 ∙ e))
      ]

  -- A single Boolean.
  pub IsPutDown-one :
      (i : ℕ) (seen : List ℕ)
      → i < through
      → is_packed layout ≡ false
      → holds_boolean columns present i ≡ true
      → IsPutDown i seen
      → IsPutDown (suc i) (seen ++ (i ∷ []))
  IsPutDown-one i seen h plain e (done, lo, hi, same, inl (again, at)) = (
    suc i,
    omega arith,
    omega arith,
    ap (λ (t : List ℕ). t ++ (i ∷ [])) (same ∙ ap (below columns present) at)
        ∙ sym (below-holds columns present i (omega arith) e),
    inl (plain, refl),
  )
  IsPutDown-one i seen h plain e (done, lo, hi, same, inr (packed, more)) =
      absurd (true_is_false (sym packed ∙ plain))

  -- A Boolean of a run that is put down already.
  pub IsPutDown-inside :
      (i : ℕ) (seen : List ℕ)
      → i < through
      → is_packed layout ≡ true
      → continues columns present i ≡ true
      → holds_boolean columns present i ≡ true
      → IsPutDown i seen
      → IsPutDown (suc i) seen
  IsPutDown-inside i seen h packed c e (done, lo, hi, same, inl (plain, at)) =
      absurd (true_is_false (sym packed ∙ plain))
  IsPutDown-inside i seen h packed c e (done, lo, hi, same, inr (again, (all, stop))) =
      (done, further stop, hi, same, inr (packed, ((λ k l r. all k (omega arith) r), still stop)))
    where
      Stop : Type 0
      Stop =
          (done ≡ through)
          ⊎ ((continues columns present i ≡ false) ⊎ (holds_boolean columns present done ≡ false))

      further : Stop → suc i ≤ done
      further (inl last) = omega arith
      further (inr (inl begins)) = absurd (true_is_false (sym c ∙ begins))
      further (inr (inr other)) = elim (ℕ_discrete i done) [
        | no differ ↦ omega arith
        | yes at ↦ absurd (
            true_is_false
              (sym e ∙ subst (λ (t : ℕ). holds_boolean columns present t ≡ false) (sym at) other))
      ]

      still :
          Stop
          → (done ≡ through)
            ⊎ ((continues columns present (suc i) ≡ false)
                ⊎ (holds_boolean columns present done ≡ false))
      still (inl last) = inl last
      still (inr (inl begins)) = absurd (true_is_false (sym c ∙ begins))
      still (inr (inr other)) = inr (inr other)

  -- A Boolean that a run begins with, which is put down as far as the ordinal goes.
  pub IsPutDown-run :
      (i n end : ℕ) (seen : List ℕ)
      → i < through
      → is_packed layout ≡ true
      → continues columns present i ≡ false
      → holds_boolean columns present i ≡ true
      → ((k : ℕ) → i ≤ k → k < end → holds_boolean columns present k ≡ true)
      → (length columns ≤ end) ⊎ (holds_boolean columns present end ≡ false)
      → i + n ≤ end
      → i + n ≤ through
      → (i + n ≡ end) ⊎ (i + n ≡ through)
      → i < i + n
      → IsPutDown i seen
      → IsPutDown (suc i) (seen ++ range i n)
  IsPutDown-run i n end seen h packed c e all stop inside low last some
        (done, lo, hi, same, inl (plain, at)) =
      absurd (true_is_false (sym packed ∙ plain))
  IsPutDown-run i n end seen h packed c e all stop inside low last some
        (done, lo, hi, same, inr (again, (before, old))) =
      (
        i + n,
        omega arith,
        low,
        ap (λ (t : List ℕ). t ++ range i n) (same ∙ ap (below columns present) at)
            ∙ sym (below-range columns present i n (omega arith) (λ k l r. all k l (omega arith))),
        inr (packed, (follows, ends last stop)),
      )
    where
      at : done ≡ i
      at = elim (dec_lt i done) [
        | no level ↦ omega arith
        | yes more ↦ absurd (true_is_false (sym (before i (omega arith) more).0 ∙ c))
      ]

      follows :
          (k : ℕ)
          → suc i ≤ k
          → k < i + n
          → (continues columns present k ≡ true) × (holds_boolean columns present k ≡ true)
      follows zero l r = absurd (omega arith)
      follows (suc k) l r =
          (all k (omega arith) (omega arith), all (suc k) (omega arith) (omega arith))

      ends :
          (i + n ≡ end) ⊎ (i + n ≡ through)
          → (length columns ≤ end) ⊎ (holds_boolean columns present end ≡ false)
          → (i + n ≡ through)
            ⊎ ((continues columns present (suc i) ≡ false)
                ⊎ (holds_boolean columns present (i + n) ≡ false))
      ends (inr limit) stop = inl limit
      ends (inl whole) (inl long) = inl (omega arith)
      ends (inl whole) (inr other) =
          inr (inr (subst (λ (t : ℕ). holds_boolean columns present t ≡ false) (sym whole) other))

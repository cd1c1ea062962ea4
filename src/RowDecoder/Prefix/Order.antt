-- ===== src/RowDecoder/Prefix/Order.antt =====
-- The Booleans that are present below an index, in their order.
use opensqlanywhere.Base.{
  ℕ, zero, suc, ◌+◌, ◌≤◌, ◌<◌, ◌≡◌, inl, inr, refl, ap, sym, ◌∙◌, List, [], ◌∷◌, ◌++◌, arith, Bool,
  true, false, Bool-cases, if◌then◌else◌, length, take, get_or,
}
use mathlib.Core.List.{append-nil, append_assoc}
use opensqlanywhere.RowDecoder.{ColumnDef}
use opensqlanywhere.RowDecoder.Domains.{is_boolean}
use opensqlanywhere.RowDecoder.Rows.Nulls.{unnamed, holds_boolean}

-- The indices of the Booleans that are present, among the columns from an index on.
abbrev pub boolean_indices : List Bool → ℕ → List ColumnDef → List ℕ
boolean_indices present i [] = []
boolean_indices present i (c ∷ cs) =
    let rest = boolean_indices present (suc i) cs in
    if is_boolean c.column_type then (if get_or present i true then i ∷ rest else rest) else rest

-- The numbers from one on.
abbrev pub range : (i count : ℕ) → List ℕ
range i zero = []
range i (suc n) = i ∷ range (suc i) n

boolean_indices-one :
    (present : List Bool) (i : ℕ) (c : ColumnDef) (rest : List ColumnDef)
    → boolean_indices present i (c ∷ rest)
      ≡ boolean_indices present i (c ∷ []) ++ boolean_indices present (suc i) rest
boolean_indices-one present i c rest = elim (Bool-cases (is_boolean c.column_type)) [
  | inr e ↦ rw e refl
  | inl e ↦ elim (Bool-cases (get_or present i true)) [
    | inl f ↦ rw (e, f) refl
    | inr f ↦ rw (e, f) refl
  ]
]

boolean_indices-suc :
    (present : List Bool) (i n : ℕ) (cs : List ColumnDef)
    → n < length cs
    → boolean_indices present i (take (suc n) cs)
      ≡ boolean_indices present i (take n cs)
        ++ boolean_indices present (i + n) (get_or cs n unnamed ∷ [])
boolean_indices-suc present i n [] h = absurd (omega arith)
boolean_indices-suc present i zero (c ∷ cs) h =
    ap (λ (k : ℕ). boolean_indices present k (c ∷ [])) (omega arith)
boolean_indices-suc present i (suc n) (c ∷ cs) h =
    let last = boolean_indices present (i + suc n) (get_or cs n unnamed ∷ []) in
    let at : suc i + n ≡ i + suc n = omega arith in
    boolean_indices-one present i c (take (suc n) cs)
    ∙ (ap (λ (t : List ℕ). boolean_indices present i (c ∷ []) ++ t)
          (boolean_indices-suc present (suc i) n cs (omega arith)
            ∙ ap
                (λ (k : ℕ).
                  boolean_indices present (suc i) (take n cs)
                  ++ boolean_indices present k (get_or cs n unnamed ∷ []))
                at)
        ∙ (sym (
              append_assoc (boolean_indices present i (c ∷ []))
                (boolean_indices present (suc i) (take n cs)) last)
            ∙ ap (λ (t : List ℕ). t ++ last) (sym (boolean_indices-one present i c (take n cs)))))

zeroth : (n : ℕ) → 0 + n ≡ n
zeroth n = omega arith

moved : (i n : ℕ) → i + suc n ≡ suc i + n
moved i n = omega arith

module _ (columns : List ColumnDef) (present : List Bool) where
  -- The Booleans that are present below an index.
  abbrev pub below : ℕ → List ℕ
  below n = boolean_indices present 0 (take n columns)

  pub below-holds :
      (n : ℕ)
      → n < length columns
      → holds_boolean columns present n ≡ true
      → below (suc n) ≡ below n ++ (n ∷ [])
  below-holds n h e =
      let t : is_boolean (get_or columns n unnamed).column_type ≡ true = ground (arith, e) in
      let p : get_or present n true ≡ true = ground (arith, e) in
      boolean_indices-suc present 0 n columns h
      ∙ ap (λ (xs : List ℕ). below n ++ xs)
          (ap (λ (k : ℕ). boolean_indices present k (get_or columns n unnamed ∷ [])) (zeroth n)
            ∙ rw (t, p) refl)

  pub below-other :
      (n : ℕ)
      → n < length columns
      → holds_boolean columns present n ≡ false
      → below (suc n) ≡ below n
  below-other n h e =
      boolean_indices-suc present 0 n columns h
      ∙ (ap (λ (xs : List ℕ). below n ++ xs)
            (ap (λ (k : ℕ). boolean_indices present k (get_or columns n unnamed ∷ [])) (zeroth n)
              ∙ none)
          ∙ append-nil (below n))
    where
      none : boolean_indices present n (get_or columns n unnamed ∷ []) ≡ []
      none = elim (Bool-cases (is_boolean (get_or columns n unnamed).column_type)) [
        | inr f ↦ rw f refl
        | inl f ↦ let p : get_or present n true ≡ false = ground (arith, e, f) in rw (f, p) refl
      ]

  pub below-range :
      (i n : ℕ)
      → i + n ≤ length columns
      → ((k : ℕ) → i ≤ k → k < i + n → holds_boolean columns present k ≡ true)
      → below (i + n) ≡ below i ++ range i n
  below-range i zero h all = ap below (omega arith) ∙ sym (append-nil (below i))
  below-range i (suc n) h all =
      ap below (moved i n)
      ∙ (below-range (suc i) n (omega arith) (λ k l r. all k (omega arith) (omega arith))
          ∙ (ap (λ (t : List ℕ). t ++ range (suc i) n)
                (below-holds i (omega arith) (all i (omega arith) (omega arith)))
              ∙ append_assoc (below i) (i ∷ []) (range (suc i) n)))

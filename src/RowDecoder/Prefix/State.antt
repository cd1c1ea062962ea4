-- ===== src/RowDecoder/Prefix/State.antt =====
-- What the loop of the prefix decoding keeps, and which Booleans it has put down.
use opensqlanywhere.Base.{
  ℕ, suc, ◌≤◌, ◌<◌, ◌≡◌, ◌⊎◌, inl, inr, refl, ap, sym, subst, ◌∙◌, List, [], ◌∷◌, ◌++◌, Bool, true,
  false, not, Bool-cases, length, get_or, All, if◌then◌else◌,
}
use mathlib.Core.List.{append_assoc}
use opensqlanywhere.RowDecoder.{ColumnDef, RowSchema, BooleanTailLayout}
use opensqlanywhere.RowDecoder.Domains.{is_boolean}
use opensqlanywhere.RowDecoder.Values.{Value, is_null}
use opensqlanywhere.RowDecoder.Rows.{is_inline_boolean_layout}
use opensqlanywhere.RowDecoder.Rows.Nulls.{unnamed, holds_boolean, is_packed}
use opensqlanywhere.RowDecoder.Prefix.PutDown.{true_is_false}
use opensqlanywhere.RowDecoder.Prefix.PutDown.{IsPutDown, IsPutDown-other, IsPutDown-one}
use opensqlanywhere.RowDecoder.Prefix.{PartialRowValue, PrefixState, value_of}

-- A value of a column below a bound, with the identifier that the schema gives the column, and null
-- exactly if the column is absent.
abbrev pub IsSource : List ColumnDef → List Bool → (bound : ℕ) → PartialRowValue → Type 0
IsSource columns present bound v =
    (v.column_index < bound)
    × (v.column_id ≡ (get_or columns v.column_index unnamed).id)
    × (is_null v.value ≡ not (get_or present v.column_index true))

-- The indices of the columns that are not Booleans, among the columns from an index on.
abbrev pub field_indices : ℕ → List ColumnDef → List ℕ
field_indices i [] = []
field_indices i (c ∷ cs) =
    let rest = field_indices (suc i) cs in if is_boolean c.column_type then rest else i ∷ rest

-- The columns that some values are of.
abbrev pub indices : List PartialRowValue → List ℕ
indices [] = []
indices (v ∷ vs) = v.column_index ∷ indices vs

pub indices-append : (vs ws : List PartialRowValue) → indices (vs ++ ws) ≡ indices vs ++ indices ws
indices-append [] ws = refl
indices-append (v ∷ vs) ws = ap (λ (t : List ℕ). v.column_index ∷ t) (indices-append vs ws)

pub joined :
    (i : ℕ) (n : List ℕ) (c : ColumnDef) (cs : List ColumnDef)
    → (n ++ field_indices i (c ∷ [])) ++ field_indices (suc i) cs ≡ n ++ field_indices i (c ∷ cs)
joined i n c cs = elim (Bool-cases (is_boolean c.column_type)) [
  | inl e ↦ rw e (append_assoc n [] (field_indices (suc i) cs))
  | inr e ↦ rw e (append_assoc n (i ∷ []) (field_indices (suc i) cs))
]

-- The Booleans that the loop has put down: none if they stand in the tail.
abbrev pub IsOrdered :
    (columns : List ColumnDef) (present : List Bool) (layout : BooleanTailLayout) (through : ℕ)
    → through ≤ length columns
    → (i : ℕ) → List PartialRowValue
    → Type 0
IsOrdered columns present layout through most i values =
    ((is_inline_boolean_layout layout ≡ false) × (values ≡ []))
    ⊎ ((is_inline_boolean_layout layout ≡ true)
        × IsPutDown columns present layout through most i (indices values))

pub record IsState (row : List ℕ) (columns : List ColumnDef) (present : List Bool)
    (layout : BooleanTailLayout) (start through : ℕ) (most : through ≤ length columns) (i : ℕ)
    (seen : List ℕ) (st : PrefixState) : Type 0 where
  pub low : start ≤ st.cursor
  pub high : st.cursor ≤ length row
  pub fields : indices st.prefix_values ≡ seen
  pub prefixes : All (IsSource columns present through) st.prefix_values
  pub booleans : All (IsSource columns present through) st.boolean_values
  pub order : IsOrdered columns present layout through most i st.boolean_values

module _ (schema : RowSchema) (present : List Bool) (through : ℕ)
    (most : through ≤ length schema.columns) where
  abbrev Order : ℕ → List PartialRowValue → Type 0
  Order i values = IsOrdered schema.columns present schema.boolean_tail through most i values

  abbrev Holds : ℕ → Bool → Type 0
  Holds i b = holds_boolean schema.columns present i ≡ b

  pub Order-IsPutDown :
      (i : ℕ) (values : List PartialRowValue)
      → is_inline_boolean_layout schema.boolean_tail ≡ true
      → Order i values
      → IsPutDown schema.columns present schema.boolean_tail through most i (indices values)
  Order-IsPutDown i values e (inl (other, none)) = absurd (true_is_false (sym e ∙ other))
  Order-IsPutDown i values e (inr (same, put)) = put

  pub Order-other :
      (i : ℕ) (values : List PartialRowValue)
      → i < through
      → Holds i false
      → Order i values
      → Order (suc i) values
  Order-other i values below e (inl tailed) = inl tailed
  Order-other i values below e (inr (same, put)) = inr (
    same,
    IsPutDown-other schema.columns present schema.boolean_tail through most i (indices values) below
        e put,
  )

  pub Order-one :
      (i : ℕ) (column : ColumnDef) (b : Bool) (values : List PartialRowValue)
      → i < through
      → is_inline_boolean_layout schema.boolean_tail ≡ true
      → is_packed schema.boolean_tail ≡ false
      → Holds i true
      → Order i values
      → Order (suc i) (values ++ (value_of i column (Value.boolean b) ∷ []))
  Order-one i column b values below e plain held order = inr (
    e,
    subst (IsPutDown schema.columns present schema.boolean_tail through most (suc i))
        (sym (indices-append values (value_of i column (Value.boolean b) ∷ [])))
        (IsPutDown-one schema.columns present schema.boolean_tail through most i (indices values)
          below plain held (Order-IsPutDown i values e order)),
  )

  pub Order-tailed :
      (i : ℕ) (values : List PartialRowValue)
      → is_inline_boolean_layout schema.boolean_tail ≡ false
      → Order i values
      → Order (suc i) values
  Order-tailed i values e (inl tailed) = inl tailed
  Order-tailed i values e (inr (same, put)) = absurd (true_is_false (sym same ∙ e))

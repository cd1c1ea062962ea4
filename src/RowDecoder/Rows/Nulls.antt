-- ===== src/RowDecoder/Rows/Nulls.antt =====
-- The variables of the loop over the columns: what holds of them, and what a write keeps.
use opensqlanywhere.Base.{
  zero, suc, ◌⊎◌, inl, inr, ◌++◌, ◌∷◌, ◌&&◌, refl, ℕ, ◌≤◌, ◌<◌, ◌≡◌, ◌≢◌, ◌∙◌, ap, List, [], arith,
  Bool, true, false, length, set, get_or, subst, replicate, length-replicate, get_or-replicate, sym,
  get_or-set-other, get_or-set-same, length-set, All, Gives, gives, store, store-ok,
}
use opensqlanywhere.RowDecoder.{
  ColumnDef, ColumnType, DecodeError, BooleanTailLayout, boolean_bytes, packed_msb_first,
  inline_bytes, inline_packed_runs_msb_first, inline_packed_runs_lsb_first, inline_u16_le,
}
use opensqlanywhere.RowDecoder.Domains.{is_boolean}
use native.Mathlib.Decide.{ℕ_discrete}
use opensqlanywhere.RowDecoder.Values.{Value, is_null}
use opensqlanywhere.RowDecoder.Rows.{DecodeState, is_inline_boolean_layout}

-- A column that is absent has a null.
abbrev pub AbsentNull : List Bool → List Value → Type 0
AbsentNull present values =
    (j : ℕ) → get_or present j true ≡ false → is_null (get_or values j Value.null) ≡ true

-- A column of the schema that is present.
abbrev pub IsThere : List Bool → ℕ → Type 0
IsThere present j = (j < length present) × (get_or present j true ≡ true)

abbrev pub IsKept : List Bool → List Value → Type 0
IsKept present values = (length values ≡ length present) × AbsentNull present values

abbrev pub unnamed : ColumnDef
unnamed = record {
  id = 0;
  name = "";
  column_type = ColumnType.integer;
  width = 0;
  nullable = false;
}

-- A column that is a Boolean and present.
abbrev pub holds_boolean : List ColumnDef → List Bool → ℕ → Bool
holds_boolean columns present j =
    is_boolean (get_or columns j unnamed).column_type && get_or present j true

abbrev pub is_packed : BooleanTailLayout → Bool
is_packed boolean_bytes = false
is_packed packed_msb_first = false
is_packed inline_bytes = false
is_packed inline_u16_le = false
is_packed inline_packed_runs_msb_first = true
is_packed inline_packed_runs_lsb_first = true

-- A value that is not null, and the values that keep those of others.
abbrev pub HasValue : List Value → ℕ → Type 0
HasValue values j = is_null (get_or values j Value.null) ≡ false

abbrev pub Keeps : List Value → List Value → Type 0
Keeps values out = (j : ℕ) → HasValue values j → HasValue out j

abbrev pub Among : ℕ → List ℕ → Type 0
Among j [] = true ≡ false
Among j (x ∷ xs) = (j ≡ x) ⊎ Among j xs

-- What is already set of the run that holds the column before: up to a column that ends the run.
abbrev pub Ahead : List ColumnDef → List Bool → List Value → ℕ → Type 0
Ahead columns present values zero = Unit {0}
Ahead columns present values (suc before) =
    (holds_boolean columns present before ≡ false)
    ⊎ ((e : ℕ) × (suc before ≤ e)
        × ((j : ℕ) → suc before ≤ j → j < e → HasValue values j)
        × ((length present ≤ e) ⊎ (holds_boolean columns present e ≡ false)))

-- The columns below an index are set or queued, if they are present.
abbrev pub Filled : List Bool → ℕ → List Value → List ℕ → Type 0
Filled present i values queue =
    (j : ℕ) → j < i → (get_or present j true ≡ false) ⊎ (HasValue values j ⊎ Among j queue)

pub record IsState (row : List ℕ) (columns : List ColumnDef) (layout : BooleanTailLayout)
    (present : List Bool) (start i : ℕ) (st : DecodeState) : Type 0 where
  pub low : start ≤ st.cursor
  pub high : st.cursor ≤ length row
  pub kept : IsKept present st.values
  pub there : All (IsThere present) st.bool_values
  pub queued : is_inline_boolean_layout layout ≡ true → st.bool_values ≡ []
  pub filled : Filled present i st.values st.bool_values
  pub ahead : (is_packed layout ≡ false) ⊎ Ahead columns present st.values i

-- One more column.
pub Filled-suc :
    (present : List Bool) (i : ℕ) (values : List Value) (queue : List ℕ)
    → Filled present i values queue
    → (get_or present i true ≡ false) ⊎ (HasValue values i ⊎ Among i queue)
    → Filled present (suc i) values queue
Filled-suc present i values queue h new j lt = elim (ℕ_discrete j i) [
  | yes same ↦
      subst (λ (k : ℕ). (get_or present k true ≡ false) ⊎ (HasValue values k ⊎ Among k queue))
        (sym same) new
  | no other ↦ h j (omega arith)
]

pub Filled-Keeps :
    (present : List Bool) (i : ℕ) (values out : List Value) (queue : List ℕ)
    → Keeps values out
    → Filled present i values queue
    → Filled present i out queue
Filled-Keeps present i values out queue k h j lt = elim (h j lt) [
  | inl absent ↦ inl absent
  | inr (inl set_already) ↦ inr (inl (k j set_already))
  | inr (inr queued) ↦ inr (inr queued)
]

pub Among-append_left : (j : ℕ) (xs ys : List ℕ) → Among j xs → Among j (xs ++ ys)
Among-append_left j [] ys h = cc
Among-append_left j (x ∷ xs) ys (inl e) = inl e
Among-append_left j (x ∷ xs) ys (inr h) = inr (Among-append_left j xs ys h)

pub Among-append_last : (j : ℕ) (xs : List ℕ) → Among j (xs ++ (j ∷ []))
Among-append_last j [] = inl refl
Among-append_last j (x ∷ xs) = inr (Among-append_last j xs)

pub All-Among : (P : ℕ → Type 0) (j : ℕ) (xs : List ℕ) → All P xs → Among j xs → P j
All-Among P j [] a h = cc
All-Among P j (x ∷ xs) a (inl e) = subst P (sym e) a.0
All-Among P j (x ∷ xs) a (inr h) = All-Among P j xs a.1 h

set-AbsentNull :
    (present : List Bool) (values : List Value) (i : ℕ) (v : Value)
    → get_or present i true ≡ true
    → AbsentNull present values
    → AbsentNull present (set values i v)
set-AbsentNull present values i v at h j absent =
    ap is_null (get_or-set-other values i j v Value.null differ) ∙ h j absent
  where
    differ : i ≢ j
    differ e = cc

set-HasValue :
    (values : List Value) (i : ℕ) (v : Value)
    → i < length values
    → is_null v ≡ false
    → Keeps values (set values i v) × HasValue (set values i v) i
set-HasValue values i v h kind =
    (keeps, ap is_null (get_or-set-same values i v Value.null h) ∙ kind)
  where
    keeps : (j : ℕ) → HasValue values j → HasValue (set values i v) j
    keeps j was = elim (ℕ_discrete i j) [
      | yes same ↦
          ap is_null (
            subst (λ (k : ℕ). get_or (set values i v) k Value.null ≡ v) same
              (get_or-set-same values i v Value.null h))
          ∙ kind
      | no other ↦ ap is_null (get_or-set-other values i j v Value.null other) ∙ was
    ]

abbrev pub IsWritten : List Bool → List Value → ℕ → List Value → Type 0
IsWritten present values i out = IsKept present out × Keeps values out × HasValue out i

-- A write to a column that is present, of a value that is not null.
pub store-IsWritten :
    (present : List Bool) (values : List Value) (i : ℕ) (v : Value)
    → IsThere present i
    → is_null v ≡ false
    → IsKept present values
    → Gives {E = DecodeError} (IsWritten present values i) (store values i v)
store-IsWritten present values i v (inside, at) kind (full, h) =
    let (keeps, at_index) = set-HasValue values i v (omega arith) kind in
    rw (store-ok {E = DecodeError} values i v (omega arith)) (
      gives _
        ((length-set values i v ∙ full, set-AbsentNull present values i v at h), keeps, at_index))

-- The first state.
pub absent-IsKept :
    (present : List Bool) (n : ℕ) → length present ≡ n → IsKept present (replicate n Value.null)
absent-IsKept present n e = (
  length-replicate n Value.null ∙ sym e,
  λ j absent. ap is_null (get_or-replicate n j Value.null),
)

-- ===== src/RowDecoder/Prefix/Booleans.antt =====
-- The Booleans of the tail in the prefix decoding.
use opensqlanywhere.Base.{
  ◌/◌, ◌%◌, ◌^◌, ◌↔◌, ◌==◌, not, false, bit_and, read-ok, fails, drop-cons, ℕ, suc, ◌<◌, ◌≡◌, inl,
  inr, refl, ap, sym, ◌∙◌, List, [], ◌∷◌, ◌++◌, arith, Bool, true, Bool-cases, length, drop, get_or,
  All, if◌then◌else◌, index-ok, Gives, gives, Gives->>=, Gives-weaken,
}
use mathlib.Core.List.{append-nil, append_assoc}
use opensqlanywhere.RowDecoder.{
  ColumnDef, DecodeError, BooleanTailLayout, boolean_bytes, packed_msb_first, inline_bytes,
  inline_packed_runs_msb_first, inline_packed_runs_lsb_first, inline_u16_le,
}
use opensqlanywhere.RowDecoder.Cursor.{decode_boolean_byte}
use opensqlanywhere.RowDecoder.Rows.{tail_value}
use opensqlanywhere.RowDecoder.Domains.{is_boolean}
use opensqlanywhere.RowDecoder.Values.{Value}
use opensqlanywhere.RowDecoder.Rows.Total.{TailRoom, tail_value-Gives}
use opensqlanywhere.RowDecoder.Prefix.{PartialRowValue, value_of, boolean_columns, push_tail}
use opensqlanywhere.RowDecoder.Prefix.State.{IsSource}
use opensqlanywhere.RowDecoder.Prefix.Order.{boolean_indices}
use opensqlanywhere.RowDecoder.Rows.Nulls.{unnamed}

abbrev pub numbers : List (ℕ × ColumnDef) → List ℕ
numbers [] = []
numbers (b ∷ bs) = b.0 ∷ numbers bs

-- The Boolean of an ordinal in the tail: a byte that is 0 or 1, or the bit of a mask that is shifted
-- to the right.
abbrev pub IsTailBit : BooleanTailLayout → (tail : List ℕ) → (ordinal : ℕ) → Bool → Type 0
IsTailBit boolean_bytes tail k b = (k < length tail) × (get_or tail k 0 ≡ (if b then 1 else 0))
IsTailBit packed_msb_first tail k b =
    (k / 8 < length tail)
    × ((b ≡ false) ↔ (bit_and (get_or tail (k / 8) 0) (0x80 / 2 ^ (k % 8)) ≡ 0))
IsTailBit inline_bytes tail k b = ⊥
IsTailBit inline_u16_le tail k b = ⊥
IsTailBit inline_packed_runs_msb_first tail k b = ⊥
IsTailBit inline_packed_runs_lsb_first tail k b = ⊥

-- One value for each column of a list, in its order, with the Booleans of the tail from an ordinal on.
abbrev pub AreTail :
    BooleanTailLayout → (tail : List ℕ) → (ordinal : ℕ) → List ℕ → List PartialRowValue → Type 0
AreTail layout tail k [] [] = Unit {0}
AreTail layout tail k [] (v ∷ vs) = ⊥
AreTail layout tail k (i ∷ is) [] = ⊥
AreTail layout tail k (i ∷ is) (v ∷ vs) =
    (v.column_index ≡ i)
    × ((b : Bool) × (v.value ≡ Value.boolean b) × IsTailBit layout tail k b)
    × AreTail layout tail (suc k) is vs

tail_value-IsTailBit :
    (layout : BooleanTailLayout) (tail : List ℕ) (ordinal count i : ℕ)
    → TailRoom layout ordinal (suc count) (length tail)
    → Gives (IsTailBit layout tail ordinal) (tail_value layout tail ordinal i)
unfolding tail_value decode_boolean_byte
tail_value-IsTailBit boolean_bytes tail ordinal count i h =
    rw (read-ok {E = DecodeError} tail ordinal (omega arith)) (byte (get_or tail ordinal 0) refl)
  where
    byte :
        (v : ℕ)
        → get_or tail ordinal 0 ≡ v
        → Gives (IsTailBit boolean_bytes tail ordinal) (decode_boolean_byte i v)
    byte v same = elim (Bool-cases (v == 0)) [
      | inl e ↦ rw e (gives false (omega arith, ground (arith, same)))
      | inr e ↦ elim (Bool-cases (v == 1)) [
        | inl f ↦ rw (e, f) (gives true (omega arith, ground (arith, same)))
        | inr f ↦ rw (e, f) (fails _)
      ]
    ]
tail_value-IsTailBit packed_msb_first tail ordinal count i h =
    rw (read-ok {E = DecodeError} tail (ordinal / 8) (omega arith)) (
      gives _ (omega arith, bit (bit_and (get_or tail (ordinal / 8) 0) (0x80 / 2 ^ (ordinal % 8)))))
  where
    bit : (n : ℕ) → (not (n == 0) ≡ false) ↔ (n ≡ 0)
    bit n = (ground arith, ground arith)
tail_value-IsTailBit inline_bytes tail ordinal count i h = absurd (omega arith)
tail_value-IsTailBit inline_u16_le tail ordinal count i h = absurd (omega arith)
tail_value-IsTailBit inline_packed_runs_msb_first tail ordinal count i h = absurd (omega arith)
tail_value-IsTailBit inline_packed_runs_lsb_first tail ordinal count i h = absurd (omega arith)

-- A Boolean column with its index, which is present.
abbrev pub IsBooleanAt : List ColumnDef → List Bool → ℕ × ColumnDef → Type 0
IsBooleanAt columns present p =
    (p.0 < length columns) × (p.1 ≡ get_or columns p.0 unnamed) × (get_or present p.0 true ≡ true)

module _ (columns : List ColumnDef) (present : List Bool)
    (full : length present ≡ length columns) where
  abbrev pub Found : ℕ → List ColumnDef → List (ℕ × ColumnDef) → Type 0
  Found i cs bs = All (IsBooleanAt columns present) bs × (numbers bs ≡ boolean_indices present i cs)

  pub boolean_columns-Gives :
      (i : ℕ) (cs : List ColumnDef)
      → drop i columns ≡ cs
      → Gives {E = DecodeError} (Found i cs) (boolean_columns present i cs)
  unfolding boolean_columns
  boolean_columns-Gives i [] e = gives [] (tt, refl)
  boolean_columns-Gives i (c ∷ cs) e =
      let (inside, same, behind) = drop-cons i columns c cs unnamed e in
      let rest = boolean_columns-Gives (suc i) cs behind in
      elim (Bool-cases (is_boolean c.column_type)) [
        | inr other ↦ rw other (
            Gives->>= (Found (suc i) cs) (Found i (c ∷ cs)) rest
              λ bs f. gives bs (f.0, rw other f.1))
        | inl boolean ↦
            rw (boolean, index-ok {E = DecodeError} present i true (omega arith))
              (elim (Bool-cases (get_or present i true)) [
                | inl there ↦ rw there (
                    Gives->>= (Found (suc i) cs) (Found i (c ∷ cs)) rest λ bs f.
                      gives ((i, c) ∷ bs) (
                        ((inside, sym same, there), f.0),
                        rw (boolean, there) (ap (λ (t : List ℕ). i ∷ t) f.1),
                      ))
                | inr absent ↦ rw absent (
                    Gives->>= (Found (suc i) cs) (Found i (c ∷ cs)) rest
                      λ bs f. gives bs (f.0, rw (boolean, absent) f.1))
              ])
      ]

  -- The values of some Booleans of the tail follow those that are there.
  abbrev pub Pushed :
      BooleanTailLayout
      → (tail : List ℕ) → (ordinal : ℕ) → List (ℕ × ColumnDef)
      → (values out : List PartialRowValue) → Type 0
  Pushed layout tail ordinal bs values out =
      (new : List PartialRowValue) × (out ≡ values ++ new)
      × AreTail layout tail ordinal (numbers bs) new
      × All (IsSource columns present (length columns)) new

  pub push_tail-Gives :
      (layout : BooleanTailLayout) (tail : List ℕ) (ordinal : ℕ) (bs : List (ℕ × ColumnDef))
      (values : List PartialRowValue)
      → TailRoom layout ordinal (length bs) (length tail)
      → All (IsBooleanAt columns present) bs
      → Gives (Pushed layout tail ordinal bs values) (push_tail layout tail ordinal bs values)
  unfolding push_tail
  push_tail-Gives layout tail ordinal [] values room found =
      gives values ([], sym (append-nil values), tt, tt)
  push_tail-Gives layout tail ordinal ((i, c) ∷ bs) values room found =
      let (at, same, there) = found.0 in
      let (g, room') = tail_value-Gives layout tail ordinal (length bs) i room in
      Gives->>= (IsTailBit layout tail ordinal) (Pushed layout tail ordinal ((i, c) ∷ bs) values)
        (tail_value-IsTailBit layout tail ordinal (length bs) i room)
        λ v bit.
          let here = value_of i c (Value.boolean v) in
          Gives-weaken (Pushed layout tail (suc ordinal) bs (values ++ (here ∷ [])))
            (Pushed layout tail ordinal ((i, c) ∷ bs) values)
            (λ out (new, e, are, all). (
              here ∷ new,
              e ∙ append_assoc values (here ∷ []) new,
              (refl, (v, refl, bit), are),
              ((at, ap (λ (d : ColumnDef). d.id) same, rw there refl), all),
            ))
            (push_tail-Gives layout tail (suc ordinal) bs (values ++ (here ∷ [])) room' found.1)

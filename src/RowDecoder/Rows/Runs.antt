-- ===== src/RowDecoder/Rows/Runs.antt =====
-- The runs of inline Booleans, and the values of one Boolean.
use opensqlanywhere.Base.{
  refl, ℕ, zero, suc, ◌+◌, ◌/◌, ◌≤◌, ◌<◌, ◌≡◌, inl, inr, ◌⊎◌, subst, Gives-weaken, List, [], ◌∷◌,
  arith, Bool, true, false, Bool-cases, ◌&&◌, ◌==◌, length, Gives, gives, fails, Gives->>=,
  read-Gives,
}
use opensqlanywhere.RowDecoder.{
  ColumnDef, DecodeError, BooleanTailLayout, inline_packed_runs_msb_first,
  inline_packed_runs_lsb_first,
}
use opensqlanywhere.Base.Bytes.{from_le_u16}
use opensqlanywhere.RowDecoder.Domains.{is_boolean}
use opensqlanywhere.RowDecoder.Cursor.{decode_boolean_byte, decode_boolean_u16}
use opensqlanywhere.RowDecoder.Values.{Value}
use opensqlanywhere.RowDecoder.Rows.{run_end_from, inline_packed_boolean_bit, write_run}
use opensqlanywhere.RowDecoder.Rows.Nulls.{
  IsThere, IsKept, HasValue, Keeps, IsWritten, store-IsWritten, holds_boolean,
}
use native.Mathlib.Decide.{ℕ_discrete}

-- A run of Booleans that are present, from one of a given index up to one that is not, or the end.
abbrev pub Run : List ColumnDef → List Bool → (start end : ℕ) → Type 0
Run cs ps start end =
    (n : ℕ) × (end ≡ start + n)
    × (n ≤ length ps)
    × ((k : ℕ) → k < n → holds_boolean cs ps k ≡ true)
    × ((n ≡ length ps) ⊎ (holds_boolean cs ps n ≡ false))

longer-Run :
    (c : ColumnDef) (cs : List ColumnDef) (p : Bool) (ps : List Bool) (end last : ℕ)
    → (is_boolean c.column_type && p) ≡ true
    → Run cs ps (suc end) last
    → Run (c ∷ cs) (p ∷ ps) end last
longer-Run c cs p ps end last at (n, e, most, all, stop) =
    (suc n, omega arith, omega arith, at_index, at_end stop)
  where
    at_index : (k : ℕ) → k < suc n → holds_boolean (c ∷ cs) (p ∷ ps) k ≡ true
    at_index zero h = at
    at_index (suc k) h = all k (omega arith)

    at_end :
        (n ≡ length ps) ⊎ (holds_boolean cs ps n ≡ false)
        → (suc n ≡ length (p ∷ ps)) ⊎ (holds_boolean (c ∷ cs) (p ∷ ps) (suc n) ≡ false)
    at_end (inl whole) = inl (omega arith)
    at_end (inr other) = inr other

pub run_end_from-Gives :
    {E : Type 0} (cs : List ColumnDef) (ps : List Bool) (end : ℕ)
    → length ps ≡ length cs
    → Gives {E = E} (Run cs ps end) (run_end_from cs ps end)
unfolding run_end_from
run_end_from-Gives [] [] end e =
    gives end (0, omega arith, omega arith, (λ k h. absurd (omega arith)), inl refl)
run_end_from-Gives [] (p ∷ ps) end e = absurd (omega arith)
run_end_from-Gives (c ∷ cs) [] end e = absurd (omega arith)
run_end_from-Gives {E} (c ∷ cs) (p ∷ ps) end e = elim (Bool-cases (is_boolean c.column_type && p)) [
  | inr stop ↦
      rw stop (gives end (0, omega arith, omega arith, (λ k h. absurd (omega arith)), inr stop))
  | inl more ↦ rw more (
      Gives-weaken (Run cs ps (suc end)) (Run (c ∷ cs) (p ∷ ps) end)
        (λ last run. longer-Run c cs p ps end last more run)
        (run_end_from-Gives {E = E} cs ps (suc end) (omega arith)))
]

pub bit-Gives :
    {E : Type 0} (layout : BooleanTailLayout) (bytes : List ℕ) (ordinal : ℕ)
    → (layout ≡ inline_packed_runs_msb_first) ⊎ (layout ≡ inline_packed_runs_lsb_first)
    → ordinal / 8 < length bytes
    → Gives {E = E} (λ (b : Bool). Unit {0}) (inline_packed_boolean_bit layout bytes ordinal)
unfolding inline_packed_boolean_bit
bit-Gives {E} layout bytes ordinal (inl e) h = rw e (
    Gives->>= _ (λ (b : Bool). Unit {0}) (read-Gives {E = E} bytes (ordinal / 8) h)
      λ v same. gives _ tt)
bit-Gives {E} layout bytes ordinal (inr e) h = rw e (
    Gives->>= _ (λ (b : Bool). Unit {0}) (read-Gives {E = E} bytes (ordinal / 8) h)
      λ v same. gives _ tt)

-- The values after some columns of a run are written.
abbrev pub IsWrittenRun : List Bool → List Value → (start count : ℕ) → List Value → Type 0
IsWrittenRun present values start count out =
    IsKept present out
    × Keeps values out
    × ((j : ℕ) → start ≤ j → j < start + count → HasValue out j)

pub write_run-Gives :
    (layout : BooleanTailLayout) (bytes : List ℕ) (present : List Bool) (left offset value : ℕ)
    (values : List Value)
    → (layout ≡ inline_packed_runs_msb_first) ⊎ (layout ≡ inline_packed_runs_lsb_first)
    → (offset + left + 7) / 8 ≤ length bytes
    → ((k : ℕ) → k < left → IsThere present (value + k))
    → IsKept present values
    → Gives {E = DecodeError}
        (IsWrittenRun present values value left)
        (write_run layout bytes left offset value values)
unfolding write_run
write_run-Gives layout bytes present zero offset value values packed room there kept =
    gives values (kept, (λ j h. h), λ j lo hi. absurd (omega arith))
write_run-Gives layout bytes present (suc left) offset value values packed room there kept =
    Gives->>= _ (IsWrittenRun present values value (suc left))
      (bit-Gives layout bytes offset packed (omega arith))
      λ bit u.
        Gives->>= (IsWritten present values value) (IsWrittenRun present values value (suc left))
          (store-IsWritten present values value (Value.boolean bit)
            (subst (IsThere present) (omega arith) (there 0 (omega arith))) refl kept)
          λ written (kept', keeps, at).
            Gives-weaken (IsWrittenRun present written (suc value) left)
              (IsWrittenRun present values value (suc left))
              (λ out (k, keeps', more). (
                k,
                (λ j h. keeps' j (keeps j h)),
                λ j lo hi. run_at written out left value j (keeps' value at) more lo hi,
              ))
              (write_run-Gives layout bytes present left (suc offset) (suc value) written packed
                (omega arith)
                (λ k h. subst (IsThere present) (omega arith) (there (suc k) (omega arith))) kept')
  where
    run_at :
        (written out : List Value) (left value j : ℕ)
        → HasValue out value
        → ((j : ℕ) → suc value ≤ j → j < suc value + left → HasValue out j)
        → value ≤ j
        → j < value + suc left
        → HasValue out j
    run_at written out left value j at more lo hi = elim (ℕ_discrete value j) [
      | yes same ↦ subst (HasValue out) same at
      | no other ↦ more j (omega arith) (omega arith)
    ]

pub decode_boolean_byte-Gives :
    (column value : ℕ) → Gives (λ (b : Bool). Unit {0}) (decode_boolean_byte column value)
unfolding decode_boolean_byte
decode_boolean_byte-Gives column value = elim (Bool-cases (value == 0)) [
  | inl e ↦ rw e (gives false tt)
  | inr e ↦
      rw e (elim (Bool-cases (value == 1)) [
        | inl e' ↦ rw e' (gives true tt)
        | inr e' ↦ rw e' (fails _)
      ])
]

pub decode_boolean_u16-Gives :
    (column : ℕ) (bytes : List ℕ)
    → 1 < length bytes
    → Gives (λ (b : Bool). Unit {0}) (decode_boolean_u16 column bytes)
unfolding decode_boolean_u16
decode_boolean_u16-Gives column bytes h =
    Gives->>= _ (λ (b : Bool). Unit {0}) (read-Gives {E = DecodeError} bytes 0 (omega arith))
      λ b0 e0.
        Gives->>= _ (λ (b : Bool). Unit {0}) (read-Gives {E = DecodeError} bytes 1 (omega arith))
          λ b1 e1. elim (Bool-cases (from_le_u16 b0 b1 == 0)) [
            | inl e ↦ rw e (gives false tt)
            | inr e ↦ rw e (elim (Bool-cases (from_le_u16 b0 b1 == 1)) [
              | inl e' ↦ rw e' (gives true tt)
              | inr e' ↦ rw e' (fails _)
            ])
          ]

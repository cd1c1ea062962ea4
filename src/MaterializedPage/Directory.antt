-- ===== src/MaterializedPage/Directory.antt =====
-- Directory entries and rows of a page, in terms of the page's bytes.
use opensqlanywhere.Base.{ℕ, ◌+◌, ◌-◌, ◌*◌, ◌^◌, ◌≤◌, ◌<◌, ◌≡◌, ◌⊎◌, inl, inr, List, arith}
use opensqlanywhere.Base.{false, leb, length, take, drop, some}
use opensqlanywhere.Base.{ok, err, read, read-ok, slice-ok, length-drop, read_slice-ok, get_or-drop}
use opensqlanywhere.Base.Bytes.{from_le_u16, byte_at}
use opensqlanywhere.MaterializedPage.{MaterializedTablePage, MaterializedPageError}
use opensqlanywhere.MaterializedPage.{
  checked, get_range, get_from, directory_end, directory_entry, row_at,
}
use opensqlanywhere.MaterializedPage.{
  record_id_out_of_range, record_out_of_bounds, invalid_record_length,
}
use native.Mathlib.Decide.{dec_lt}

-- The shape of a parsed page: its length, and a directory that ends inside it.
pub record IsPage (p : MaterializedTablePage) : Type 0 where
  pub full : length p.bytes ≡ 4096
  pub directory_fits : 28 + p.record_count * 2 ≤ 4096

abbrev pub entry_of : MaterializedTablePage → ℕ → ℕ
entry_of p id = from_le_u16 (byte_at p.bytes (28 + id * 2 + 0)) (byte_at p.bytes (28 + id * 2 + 1))

-- The length that a row declares at a directory offset.
abbrev pub declared_at : MaterializedTablePage → ℕ → ℕ
declared_at p off = from_le_u16 (byte_at p.bytes (28 + off + 0)) (byte_at p.bytes (28 + off + 1))

-- A row lies behind the directory and inside the page, and holds at least its length.
pub record RowFits (p : MaterializedTablePage) (off : ℕ) : Type 0 where
  pub behind : p.record_count * 2 ≤ off
  pub holds_length : 2 ≤ declared_at p off
  pub inside : 28 + off + declared_at p off ≤ 4096

checked-some : (n : ℕ) → n < 2 ^ 64 → checked n ≡ some n
unfolding checked
checked-some n h = ground arith

get_range-some :
    (xs : List ℕ) (start n : ℕ)
    → start + n ≤ length xs
    → get_range xs start (start + n) ≡ some (take n (drop start xs))
unfolding get_range
get_range-some xs start n h =
    let width : start + n - start ≡ n = omega arith in rw width (ground arith)

get_from-some :
    (xs : List ℕ) (start : ℕ) → start ≤ length xs → get_from xs start ≡ some (drop start xs)
unfolding get_from
get_from-some xs start h = ground arith

read-drop-ok :
    {E : Type 0} (xs : List ℕ) (start i : ℕ)
    → start + i < length xs
    → read {E = E} (drop start xs) i ≡ ok (byte_at xs (start + i))
read-drop-ok xs start i h =
    rw (← get_or-drop start i xs 0)
      (read-ok (drop start xs) i (omega (arith, length-drop start xs)))

module _ (p : MaterializedTablePage) (v : IsPage p) where
  pub directory_end-ok : directory_end p ≡ ok (28 + p.record_count * 2)
  unfolding directory_end
  directory_end-ok =
      rw
        (
          checked-some (p.record_count * 2) (omega arith),
          checked-some (28 + p.record_count * 2) (omega arith),
        )
        (ground arith)

  pub directory_entry-ok :
      (id : ℕ) → id < p.record_count → directory_entry p id ≡ ok (entry_of p id)
  unfolding directory_entry
  directory_entry-ok id lt =
      let known : leb p.record_count id ≡ false = ground arith in
      rw (
        known,
        directory_end-ok,
        checked-some (id * 2) (omega arith),
        checked-some (28 + id * 2) (omega arith),
        checked-some (28 + id * 2 + 2) (omega arith),
        get_range-some p.bytes (28 + id * 2) 2 (omega arith),
        read_slice-ok p.bytes (28 + id * 2) 2 0 (omega arith) (omega arith),
        read_slice-ok p.bytes (28 + id * 2) 2 1 (omega arith) (omega arith),
      )

  pub directory_entry_out :
      (id : ℕ)
      → p.record_count ≤ id
      → directory_entry p id ≡ err (record_id_out_of_range id p.record_count)
  unfolding directory_entry
  directory_entry_out id ge = ground arith

  -- The row at a directory offset is found, or refused; it never panics.
  pub row_at-ok :
      (id off : ℕ)
      → RowFits p off
      → row_at p id off ≡ ok (28 + off, take (declared_at p off) (drop (28 + off) p.bytes))
  unfolding row_at
  row_at-ok id off r =
      let row = drop (28 + off) p.bytes in
      let len : length row ≡ 4096 - (28 + off) = omega (arith, length-drop (28 + off) p.bytes) in
      let whole : declared_at p off - 0 ≡ declared_at p off = omega arith in
      rw
        (
          directory_end-ok,
          checked-some (28 + off) (omega arith),
          get_from-some p.bytes (28 + off) (omega arith),
          read-drop-ok p.bytes (28 + off) 0 (omega arith),
          read-drop-ok p.bytes (28 + off) 1 (omega arith),
          slice-ok row 0 (declared_at p off) (omega arith) (omega arith),
          whole,
          len,
        )
        (ground arith)

  row_at_outside :
      (id off : ℕ)
      → (off < p.record_count * 2) ⊎ (4096 < 28 + off)
      → row_at p id off ≡ err (record_out_of_bounds id off)
  unfolding row_at get_from checked
  row_at_outside id off h = rw directory_end-ok (ground (arith, v.full, v.directory_fits))

  row_at_no_length :
      (id off : ℕ)
      → p.record_count * 2 ≤ off
      → 28 + off ≤ 4096
      → 4096 < 28 + off + 2
      → row_at p id off ≡ err (invalid_record_length id off 0 (4096 - (28 + off)))
  unfolding row_at
  row_at_no_length id off lo fits hi =
      let len : length (drop (28 + off) p.bytes) ≡ 4096 - (28 + off) =
        omega (arith, length-drop (28 + off) p.bytes) in
      rw
        (
          directory_end-ok,
          checked-some (28 + off) (omega arith),
          get_from-some p.bytes (28 + off) (omega arith),
          len,
        )
        (ground arith)

  row_at_bad_length :
      (id off : ℕ)
      → p.record_count * 2 ≤ off
      → 28 + off + 2 ≤ 4096
      → (declared_at p off < 2) ⊎ (4096 < 28 + off + declared_at p off)
      → row_at p id off ≡ err (invalid_record_length id off (declared_at p off) (4096 - (28 + off)))
  unfolding row_at
  row_at_bad_length id off lo fits bad =
      let len : length (drop (28 + off) p.bytes) ≡ 4096 - (28 + off) =
        omega (arith, length-drop (28 + off) p.bytes) in
      rw
        (
          directory_end-ok,
          checked-some (28 + off) (omega arith),
          get_from-some p.bytes (28 + off) (omega arith),
          read-drop-ok p.bytes (28 + off) 0 (omega arith),
          read-drop-ok p.bytes (28 + off) 1 (omega arith),
          len,
        )
        (ground arith)

  pub row_at_decide :
      (id off : ℕ) → RowFits p off ⊎ ((e : MaterializedPageError) × (row_at p id off ≡ err e))
  row_at_decide id off = elim (dec_lt (28 + off) (28 + p.record_count * 2)) [
    | yes low ↦ inr (_, row_at_outside id off (inl (omega arith)))
    | no behind ↦ elim (dec_lt 4096 (28 + off)) [
      | yes high ↦ inr (_, row_at_outside id off (inr high))
      | no below ↦ elim (dec_lt 4096 (28 + off + 2)) [
        | yes short ↦ inr (_, row_at_no_length id off (omega arith) (omega arith) short)
        | no room ↦ elim (dec_lt (declared_at p off) 2) [
          | yes small ↦ inr (_, row_at_bad_length id off (omega arith) (omega arith) (inl small))
          | no holds ↦ elim (dec_lt 4096 (28 + off + declared_at p off)) [
            | yes long ↦ inr (_, row_at_bad_length id off (omega arith) (omega arith) (inr long))
            | no inside ↦ inl (omega arith)
          ]
        ]
      ]
    ]
  ]

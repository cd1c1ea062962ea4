-- ===== src/RowDecoder/Cursor/Scalars.antt =====
-- Scalars that are read back, and readings that fail.
use opensqlanywhere.Base.{
  ◌*◌, get_or, ℕ, zero, suc, ◌+◌, ◌-◌, ◌/◌, ◌%◌, ◌^◌, ◌≤◌, ◌<◌, ◌≡◌, ◌⊎◌, inl, inr, refl, ap, sym,
  ◌∙◌, List, [], ◌∷◌, ◌++◌, arith, true, false, Bool-cases,
}
use opensqlanywhere.Base.{
  length, length-append, take, drop, length-take, length-drop, take-append, ok, err, slice-ok,
}
use opensqlanywhere.RowDecoder.{DecodeError, truncated, invalid_integer_width}
use opensqlanywhere.RowDecoder.Cursor.{take_at, from_le_bytes, is_width, read_unsigned}
use native.Mathlib.Decide.{dec_lt}
use native.Mathlib.Nat.{pow-suc, mul_assoc}

take_at-ok :
    (row : List ℕ) (cursor count column : ℕ)
    → cursor + count ≤ length row
    → take_at row cursor count column ≡ ok (take count (drop cursor row), cursor + count)
unfolding take_at
take_at-ok row cursor count column h =
    let width : cursor + count - cursor ≡ count = omega arith in
    rw (slice-ok {E = DecodeError} row cursor (cursor + count) (omega arith) h, width)
      (ground arith)

read_unsigned-ok :
    (row : List ℕ) (cursor column width : ℕ)
    → is_width width ≡ true
    → cursor + width ≤ length row
    → read_unsigned row cursor column width
      ≡ ok (from_le_bytes (take width (drop cursor row)), cursor + width)
unfolding read_unsigned
read_unsigned-ok row cursor column width good h =
    let len : length (take width (drop cursor row)) ≡ width =
      omega (arith, length-take width (drop cursor row), length-drop cursor row) in
    rw (good, take_at-ok row cursor width column h, len) (ground arith)

-- The widths of the integers of the format.
abbrev pub IsWidth : ℕ → Type 0
IsWidth width = (width ≡ 1) ⊎ (width ≡ 2) ⊎ (width ≡ 4) ⊎ (width ≡ 8)

IsWidth-cases :
    (width : ℕ)
    → (IsWidth width × (is_width width ≡ true)) ⊎ ((IsWidth width → ⊥) × (is_width width ≡ false))
IsWidth-cases width = elim (Bool-cases (is_width width)) [
  | inl e ↦ inl (ground (arith, e), e)
  | inr e ↦ inr (ground (arith, e), e)
]

-- The number whose byte of each power of 256 stands in a row as far behind the cursor.
abbrev pub little_endian : (row : List ℕ) (cursor width : ℕ) → ℕ
little_endian row cursor zero = 0
little_endian row cursor (suc n) = little_endian row cursor n + get_or row (cursor + n) 0 * 256 ^ n

little_endian-suc :
    (row : List ℕ) (cursor n : ℕ)
    → little_endian row cursor (suc n)
      ≡ get_or row cursor 0 + 256 * little_endian row (suc cursor) n
little_endian-suc row cursor zero =
    let at : cursor + 0 ≡ cursor = omega arith in rw at (omega arith)
little_endian-suc row cursor (suc n) =
    let at : suc cursor + n ≡ cursor + suc n = omega arith in
    let x = get_or row (cursor + suc n) 0 in
    let scaled : x * 256 ^ suc n ≡ 256 * (x * 256 ^ n) =
      ap (λ (t : ℕ). x * t) (pow-suc 256 n) ∙ omega (arith, mul_assoc x (256 ^ n) 256) in
    rw at (omega (arith, little_endian-suc row cursor n, scaled))

drop-at :
    (row : List ℕ) (cursor : ℕ)
    → cursor < length row
    → drop cursor row ≡ get_or row cursor 0 ∷ drop (suc cursor) row
drop-at [] cursor h = absurd (omega arith)
drop-at (x ∷ xs) zero h = refl
drop-at (x ∷ xs) (suc cursor) h = drop-at xs cursor (omega arith)

from_le_bytes-little_endian :
    (row : List ℕ) (cursor n : ℕ)
    → cursor + n ≤ length row
    → from_le_bytes (take n (drop cursor row)) ≡ little_endian row cursor n
from_le_bytes-little_endian row cursor zero h = refl
from_le_bytes-little_endian row cursor (suc n) h = rw (drop-at row cursor (omega arith)) (
    ap (λ (t : ℕ). get_or row cursor 0 + 256 * t)
      (from_le_bytes-little_endian row (suc cursor) n (omega arith))
    ∙ sym (little_endian-suc row cursor n))

-- A read within the row does not panic. A width other than 1, 2, 4 and 8 is `InvalidIntegerWidth`; a
-- row with fewer bytes left than the width is `Truncated`, with the number of bytes left; otherwise the
-- result is the sum of the bytes at the cursor, each times the power of 256 of its place, and the
-- cursor moves by the width.
pub read_unsigned_cases :
    (row : List ℕ) (cursor column width : ℕ)
    → cursor ≤ length row
    → ((IsWidth width → ⊥)
        × (read_unsigned row cursor column width ≡ err (invalid_integer_width column width)))
      ⊎ ((IsWidth width
            × (length row < cursor + width)
            × (read_unsigned row cursor column width
                ≡ err (truncated column width (length row - cursor))))
          ⊎ (IsWidth width
              × (cursor + width ≤ length row)
              × (read_unsigned row cursor column width
                  ≡ ok (little_endian row cursor width, cursor + width))))
unfolding read_unsigned
read_unsigned_cases row cursor column width h = elim (IsWidth-cases width) [
  | inr (other, bad) ↦ inl (other, rw bad refl)
  | inl (yes_width, good) ↦ elim (dec_lt (length row) (cursor + width)) [
    | yes short ↦ inr (inl (yes_width, short, rw good (unfold take_at in ground arith)))
    | no fits ↦ inr (
        inr (
          yes_width,
          omega arith,
          read_unsigned-ok row cursor column width good (omega arith)
              ∙ ap (λ (t : ℕ). ok (t, cursor + width))
                  (from_le_bytes-little_endian row cursor width (omega arith)),
        ))
  ]
]

-- The little-endian bytes of a number, of a given count.
abbrev pub to_le_bytes : ℕ → ℕ → List ℕ
to_le_bytes zero v = []
to_le_bytes (suc n) v = v % 256 ∷ to_le_bytes n (v / 256)

length-to_le_bytes : (n v : ℕ) → length (to_le_bytes n v) ≡ n
length-to_le_bytes zero v = refl
length-to_le_bytes (suc n) v = ap suc (length-to_le_bytes n (v / 256))

from_le_bytes-to_le_bytes : (n v : ℕ) → v < 256 ^ n → from_le_bytes (to_le_bytes n v) ≡ v
from_le_bytes-to_le_bytes zero v h = omega arith
from_le_bytes-to_le_bytes (suc n) v h =
    let below : v / 256 < 256 ^ n = omega (arith, pow-suc 256 n) in
    rw (from_le_bytes-to_le_bytes n (v / 256) below) (omega arith)

drop-append : (xs ys : List ℕ) → drop (length xs) (xs ++ ys) ≡ ys
drop-append [] ys = refl
drop-append (x ∷ xs) ys = drop-append xs ys

-- A number below 256 to the power of a supported width, written little-endian anywhere in a row, is
-- read back from there, with the cursor behind it.
pub read_unsigned-to_le_bytes :
    (before after : List ℕ) (column width v : ℕ)
    → is_width width ≡ true
    → v < 256 ^ width
    → read_unsigned (before ++ (to_le_bytes width v ++ after)) (length before) column width
      ≡ ok (v, length before + width)
read_unsigned-to_le_bytes before after column width v good h =
    let len = length-to_le_bytes width v in
    let all = length-append before (to_le_bytes width v ++ after) in
    let part = length-append (to_le_bytes width v) after in
    read_unsigned-ok (before ++ (to_le_bytes width v ++ after)) (length before) column width good
      (omega arith)
    ∙ ap (λ x. ok (x, length before + width)) value
  where
    value :
        from_le_bytes (take width (drop (length before) (before ++ (to_le_bytes width v ++ after))))
        ≡ v
    value =
        rw
          (
            drop-append before (to_le_bytes width v ++ after),
            take-append width (to_le_bytes width v) after (length-to_le_bytes width v),
          )
          (from_le_bytes-to_le_bytes width v h)

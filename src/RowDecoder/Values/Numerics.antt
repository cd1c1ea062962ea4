-- ===== src/RowDecoder/Values/Numerics.antt =====
-- The number that `read_numeric_legacy` reads.
use opensqlanywhere.Base.{
  ℕ, zero, suc, ◌+◌, ◌-◌, ◌*◌, ◌/◌, ◌%◌, ◌^◌, ◌≤◌, ◌<◌, ◌≡◌, ◌⊎◌, inl, inr, refl, ap, ◌∙◌, sym,
  List, [], ◌∷◌, ◌++◌, arith, false, Bool-cases, leb, ltb, leb→le, ◌==◌, length, replicate, take,
  drop, drop-drop, drop-append, take-append, length-drop, length-append, slice-ok, read, All, ok,
}
use opensqlanywhere.RowDecoder.{DecodeError}
use opensqlanywhere.RowDecoder.Cursor.{take_at}
use opensqlanywhere.RowDecoder.Values.{
  Decimal, write_digits, trim_zeros, or_zero, read_numeric_legacy,
}
use native.Mathlib.Nat.{mul-one, mul_assoc, pow-succ'}
use native.Mathlib.Decide.{dec_lt}

-- The number that decimal digits in ASCII make up, behind a number.
abbrev pub decimal_from : ℕ → List ℕ → ℕ
decimal_from n [] = n
decimal_from n (c ∷ cs) = decimal_from (n * 10 + (c - b'0')) cs

-- The number that digits of the base 100 make up, behind a number.
abbrev pub base_100_from : ℕ → List ℕ → ℕ
base_100_from n [] = n
base_100_from n (d ∷ ds) = base_100_from (n * 100 + d) ds

write_digits-decimal :
    (column : ℕ) (ds : List ℕ)
    → All (λ d. d ≤ 99) ds
    → (w : List ℕ) × (write_digits column ds ≡ ok w)
      × ((n : ℕ) → decimal_from n w ≡ base_100_from n ds)
unfolding write_digits
write_digits-decimal column [] h = ([], refl, λ n. refl)
write_digits-decimal column (d ∷ ds) h =
    let (w, e, same) = write_digits-decimal column ds h.1 in
    let small : ltb 99 d ≡ false = ground (arith, h.0) in
    (
      (b'0' + d / 10) ∷ (b'0' + d % 10) ∷ w,
      rw (small, e) refl,
      λ n. ap (λ (m : ℕ). decimal_from m w) (omega (arith, h.0)) ∙ same (n * 100 + d),
    )

trim_zeros-decimal : (cs : List ℕ) → decimal_from 0 (trim_zeros cs) ≡ decimal_from 0 cs
trim_zeros-decimal [] = refl
trim_zeros-decimal (c ∷ cs) = elim (Bool-cases (c == b'0')) [
  | inl e ↦ rw e (trim_zeros-decimal cs ∙ ap (λ (m : ℕ). decimal_from m cs) (ground arith))
  | inr e ↦ rw e refl
]

or_zero-decimal : (cs : List ℕ) → decimal_from 0 (or_zero cs) ≡ decimal_from 0 cs
or_zero-decimal [] = refl
or_zero-decimal (c ∷ cs) = refl

append-decimal :
    (cs : List ℕ) (n k : ℕ) → decimal_from n (cs ++ replicate k b'0') ≡ decimal_from n cs * 10 ^ k
append-decimal [] n zero = sym (mul-one n)
append-decimal [] n (suc k) =
    ap (λ (m : ℕ). decimal_from m (replicate k b'0')) (omega arith)
    ∙ (append-decimal [] (n * 10) k
        ∙ (mul_assoc n 10 (10 ^ k) ∙ ap (λ (m : ℕ). n * m) (sym (pow-succ' 10 k))))
append-decimal (c ∷ cs) n k = append-decimal cs _ k

-- Canonical digits: at least one, and a zero in front only if it is alone.
abbrev pub IsCanonical : List ℕ → Type 0
IsCanonical cs =
    (cs ≡ b'0' ∷ []) ⊎ ((c : ℕ) × (more : List ℕ) × (cs ≡ c ∷ more) × ((c == b'0') ≡ false))

canonical : (cs : List ℕ) → IsCanonical (or_zero (trim_zeros cs))
canonical [] = inl refl
canonical (c ∷ cs) = elim (Bool-cases (c == b'0')) [
  | inl e ↦ rw e (canonical cs)
  | inr e ↦ rw e (inr (c, cs, refl, e))
]

IsCanonical-padded :
    (cs : List ℕ) (exponent : ℕ)
    → IsCanonical cs
    → 0xc0 ≤ exponent
    → IsCanonical (cs ++ replicate ((exponent - 0xc0) * 2) b'0')
      ⊎ ((0xc0 < exponent) × (cs ≡ b'0' ∷ []))
IsCanonical-padded cs exponent (inr (c, more, e, other)) h = inl (
    inr (
      c,
      more ++ replicate ((exponent - 0xc0) * 2) b'0',
      ap (λ (t : List ℕ). t ++ replicate ((exponent - 0xc0) * 2) b'0') e,
      other,
    ))
IsCanonical-padded cs exponent (inl e) h = elim (dec_lt 0xc0 exponent) [
  | yes above ↦ inr (above, e)
  | no level ↦
      let none : (exponent - 0xc0) * 2 ≡ 0 = omega arith in
      inl (inl (ap (λ (k : ℕ). cs ++ replicate k b'0') none ∙ ap (λ (t : List ℕ). t ++ []) e))
]

-- The bytes at a cursor are taken, and the cursor is put behind them.
take_at-part :
    (row : List ℕ) (cursor column n : ℕ) (part rest : List ℕ)
    → drop cursor row ≡ part ++ rest
    → length part ≡ n
    → 0 < n
    → (take_at row cursor n column ≡ ok (part, cursor + n)) × (drop (cursor + n) row ≡ rest)
unfolding take_at
take_at-part row cursor column n part rest e size more =
    let room : cursor + n ≤ length row =
      omega (arith, ap length e, length-drop cursor row, length-append part rest) in
    let fits : ltb (length row - cursor) n ≡ false = ground arith in
    (
      rw (fits, slice-ok {E = DecodeError} row cursor (cursor + n) (omega arith) room, e)
          (ap (λ (xs : List ℕ). ok (xs, cursor + n))
            (ap (λ (k : ℕ). take k (part ++ rest)) (omega arith) ∙ take-append n part rest size)),
      sym (drop-drop n cursor row) ∙ (ap (drop n) e ∙ drop-append n part rest size),
    )

-- What a number of some digits of the base 100 is read as.
pub record IsNumber (exponent : ℕ) (digits : List ℕ) (d : Decimal) : Type 0 where
  pub positive : d.negative ≡ false
  pub canonical_digits :
      (IsCanonical d.coefficient)
      ⊎ ((0xc0 < exponent)
          × (base_100_from 0 digits ≡ 0)
          × (d.coefficient ≡ replicate (suc ((exponent - 0xc0) * 2)) b'0'))
  pub number :
      ((0xc0 ≤ exponent)
        × (d.scale ≡ 0)
        × (decimal_from 0 d.coefficient ≡ base_100_from 0 digits * 10 ^ ((exponent - 0xc0) * 2)))
      ⊎ ((exponent < 0xc0)
          × (d.scale ≡ (0xc0 - exponent) * 2)
          × (decimal_from 0 d.coefficient ≡ base_100_from 0 digits))

-- A number in a row, of one digit of the base 100 or more, none above 99, is read with the cursor
-- behind its digits, as a number that is not negative. Its coefficient is the number that the digits
-- make up, with an exponent of 0xc0 or more times 100 for each step above 0xc0 and a scale of zero;
-- with a lower exponent the scale has two decimal places for each step below. The coefficient has no
-- zero in front unless it is zero alone, with one exception: the number zero with an exponent above
-- 0xc0 is one zero and two more for each step.
pub read_numeric_legacy-IsNumber :
    (row : List ℕ) (cursor column exponent d : ℕ) (ds after : List ℕ)
    → drop cursor row ≡ length (d ∷ ds) ∷ exponent ∷ ((d ∷ ds) ++ after)
    → All (λ x. x ≤ 99) (d ∷ ds)
    → (r : Decimal) × (read_numeric_legacy row cursor column ≡ ok (r, cursor + 2 + length (d ∷ ds)))
      × IsNumber exponent (d ∷ ds) r
unfolding read_numeric_legacy read
read_numeric_legacy-IsNumber row cursor column exponent d ds after e h =
    let n = length (d ∷ ds) in
    let (first, e1) =
      take_at-part row cursor column 1 (n ∷ []) (exponent ∷ ((d ∷ ds) ++ after)) e refl
        (omega arith) in
    let (second, e2) =
      take_at-part row (cursor + 1) column 1 (exponent ∷ []) ((d ∷ ds) ++ after) e1 refl
        (omega arith) in
    let (third, e3) =
      take_at-part row (cursor + 1 + 1) column n (d ∷ ds) after e2 refl (omega arith) in
    let (w, written, same) = write_digits-decimal column (d ∷ ds) h in
    let value : decimal_from 0 (or_zero (trim_zeros w)) ≡ base_100_from 0 (d ∷ ds) =
      or_zero-decimal (trim_zeros w) ∙ (trim_zeros-decimal w ∙ same 0) in
    let coefficient = or_zero (trim_zeros w) in
    let behind : cursor + 1 + 1 + n ≡ cursor + 2 + n = omega arith in
    let some_digits : (n == 0) ≡ false = ground arith in
    elim (Bool-cases (leb 0xc0 exponent)) [
      | inl high ↦ (
        record {
          negative = false;
          coefficient = coefficient ++ replicate ((exponent - 0xc0) * 2) b'0';
          scale = 0;
        },
        rw (first, second, some_digits, third, written, high, behind) refl,
        record {
          positive = refl;
          canonical_digits =
              elim (IsCanonical-padded coefficient exponent (canonical w)
                (leb→le 0xc0 exponent high)) [
                  | inl c ↦ inl c
                  | inr (above, none) ↦ inr (
                    above,
                    sym value ∙ ap (decimal_from 0) none,
                    ap (λ (t : List ℕ). t ++ replicate ((exponent - 0xc0) * 2) b'0') none,
                  )
                ];
          number = inl (
            leb→le 0xc0 exponent high,
            refl,
            append-decimal coefficient 0 ((exponent - 0xc0) * 2)
                ∙ ap (λ (m : ℕ). m * 10 ^ ((exponent - 0xc0) * 2)) value,
          );
        },
      )
      | inr low ↦ (
        record { negative = false; coefficient = coefficient; scale = (0xc0 - exponent) * 2 },
        rw (first, second, some_digits, third, written, low, behind) refl,
        record {
          positive = refl;
          canonical_digits = inl (canonical w);
          number = inr (ground arith, refl, value);
        },
      )
    ]

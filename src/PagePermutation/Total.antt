-- ===== src/PagePermutation/Total.antt =====
-- `permute_power_of_two_in_place` on any buffer and range.
use opensqlanywhere.Base.{
  ℕ, zero, suc, ◌+◌, ◌-◌, ◌*◌, ◌/◌, ◌%◌, ◌^◌, ◌≤◌, ◌<◌, ◌≡◌, ◌≢◌, subst, sym, ◌⊎◌, inl, inr, refl,
  ap, ◌∙◌, List, arith, true, false, Bool-cases, ◌==◌, get_or-set-same, get_or-set-other, bit_or,
  length, length-set, set, get_or, take, drop, take-set, drop-set, Option, some, Outcome, ok, err,
  read-ok, store-ok,
}
use opensqlanywhere.Base.Bytes.{wrapping_add}
use opensqlanywhere.Base.Int.{ℤ, pos, negsuc, to_word}
use opensqlanywhere.PagePermutation.{
  PagePermutationError, non_power_of_two_length, invalid_active_range, is_power_of_two,
  validate_bounds, stride_of, negative_seed, permute_loop, next_in_active_range,
  permute_power_of_two_in_place,
}
use opensqlanywhere.PagePermutation.Cycle.{
  Divides, power_of_two-Divides, power_of_two-bound, position, next-Reaches, position-len, Fresh,
  position-distinct,
}
use native.Mathlib.Nat.{mod-eq_of_lt}
use native.Mathlib.Decide.{dec_lt, ℕ_discrete}

-- The bytes outside the active range are as they were.
abbrev pub IsPermuted : (start end : ℕ) → List ℕ → List ℕ → Type 0
IsPermuted start end bytes out =
    (length out ≡ length bytes)
    × (take start out ≡ take start bytes)
    × (drop (suc end) out ≡ drop (suc end) bytes)

set-IsPermuted :
    (start end : ℕ) (bytes out : List ℕ) (i v : ℕ)
    → start ≤ i
    → i ≤ end
    → IsPermuted start end (set bytes i v) out
    → IsPermuted start end bytes out
set-IsPermuted start end bytes out i v lo hi (size, front, back) = (
  size ∙ length-set bytes i v,
  front ∙ take-set bytes start i v lo,
  back ∙ drop-set bytes (suc end) i v (omega arith),
)

-- What a cycle of the active positions leaves: the byte at a position is the old byte at the next
-- one, with the seed of the round added, until the cycle is back at the start.
pub data IsShifted (increment : ℕ) (stride : ℤ) (start end : ℕ) (bytes out : List ℕ)
    : ℕ → ℕ → Type 0 where
  last :
      (current seed : ℕ)
      → next_in_active_range current stride (length bytes) start end ≡ ok start
      → get_or out current 0 ≡ wrapping_add (get_or bytes start 0) seed
      → IsShifted increment stride start end bytes out current seed
  more :
      (current next seed : ℕ)
      → next_in_active_range current stride (length bytes) start end ≡ ok next
      → next ≢ start
      → get_or out current 0 ≡ wrapping_add (get_or bytes next 0) seed
      → IsShifted increment stride start end bytes out next (wrapping_add seed increment)
      → IsShifted increment stride start end bytes out current seed

module _ (start end : ℕ) (orig : List ℕ) (inside : start < length orig) (ordered : start ≤ end)
    (low : end < length orig) (stride : ℤ) (divides : Divides (length orig) (2 ^ 64))
    (increment : ℕ) where
  abbrev len : ℕ
  len = length orig

  abbrev first : ℕ
  first = get_or orig start 0

  abbrev at : ℕ → ℕ
  at j = position start end (to_word (2 ^ 64) stride) len inside ordered low stride refl divides j

  abbrev New : ℕ → Type 0
  New j = Fresh start end (to_word (2 ^ 64) stride) len inside ordered low stride refl divides j

  apart : (i j : ℕ) → i < j → New j → at i ≢ at j
  apart =
      position-distinct start end (to_word (2 ^ 64) stride) len inside ordered low stride refl
        divides

  -- Only the positions in front of the current one are written.
  abbrev Agrees : ℕ → List ℕ → Type 0
  Agrees j bytes = (p : ℕ) → ((i : ℕ) × (i < j) × (p ≡ at i)) ⊎ (get_or bytes p 0 ≡ get_or orig p 0)

  Agrees-unwritten :
      (j m : ℕ) (bytes : List ℕ)
      → j < m
      → New m
      → Agrees j bytes
      → get_or bytes (at m) 0 ≡ get_or orig (at m) 0
  Agrees-unwritten j m bytes h new agree = elim (agree (at m)) [
    | inl (i, k, e) ↦ absurd (apart i m (omega arith) new (sym e))
    | inr e ↦ e
  ]

  Agrees-set : (j m v : ℕ) (bytes : List ℕ) → j < m → Agrees j bytes → Agrees m (set bytes (at j) v)
  Agrees-set j m v bytes h agree p = elim (ℕ_discrete (at j) p) [
    | yes same ↦ inl (j, h, sym same)
    | no differ ↦ elim (agree p) [
      | inl (i, k, e) ↦ inl (i, omega arith, e)
      | inr e ↦ inr (get_or-set-other bytes (at j) p v 0 differ ∙ e)
    ]
  ]

  New-next : (j m : ℕ) → New j → at m ≢ start → ((k : ℕ) → suc j ≤ k → k < m → at k ≢ start) → New m
  New-next j m new further skipped k l h = elim (dec_lt j k) [
    | no early ↦ new k l (omega arith)
    | yes late ↦ elim (ℕ_discrete k m) [
      | yes same ↦ subst (λ (t : ℕ). at t ≢ start) (sym same) further
      | no differ ↦ skipped k (omega arith) (omega arith)
    ]
  ]

  abbrev Kept : ℕ → List ℕ → List ℕ → Type 0
  Kept j bytes out = (i : ℕ) → i < j → get_or out (at i) 0 ≡ get_or bytes (at i) 0

  Kept-set :
      (j m v : ℕ) (bytes out : List ℕ)
      → j < m
      → New j
      → Kept m (set bytes (at j) v) out
      → Kept j bytes out
  Kept-set j m v bytes out h new kept i k =
      kept i (omega arith) ∙ get_or-set-other bytes (at j) (at i) v 0 (λ e. apart i j k new (sym e))

  abbrev Permutes : (j seed : ℕ) → List ℕ → Outcome PagePermutationError (Option (List ℕ)) → Type 0
  Permutes j seed bytes r =
      (out : List ℕ) × (r ≡ ok (some out))
      × IsPermuted start end bytes out
      × Kept j bytes out
      × IsShifted increment stride start end orig out (at j) seed

  before_end : (m : ℕ) → m ≤ len → at m ≢ start → m < len
  before_end m most further = elim (ℕ_discrete m len) [
    | no differ ↦ omega arith
    | yes same ↦ absurd (
        further (
          subst (λ (t : ℕ). at t ≡ start) (sym same)
            (position-len start end (to_word (2 ^ 64) stride) len inside ordered low stride refl
              divides)))
  ]

  permute_loop-Permutes :
      (fuel j seed : ℕ) (bytes : List ℕ)
      → j < len
      → len ≤ j + fuel
      → length bytes ≡ len
      → start ≤ at j
      → at j ≤ end
      → New j
      → Agrees j bytes
      → Permutes j seed bytes
          (permute_loop fuel bytes (at j) seed increment first stride len start end)
  unfolding permute_loop
  permute_loop-Permutes zero j seed bytes h k e lo hi new agree = absurd (omega arith)
  permute_loop-Permutes (suc fuel) j seed bytes h k e lo hi new agree =
      let (m, found, past, most, above, below, skipped) =
        next-Reaches start end (to_word (2 ^ 64) stride) len inside ordered low stride refl divides
          j h in
      let wrote = λ (v : ℕ). store-ok {E = PagePermutationError} bytes (at j) v (omega arith) in
      let written = λ (v : ℕ). get_or-set-same bytes (at j) v 0 (omega arith) in
      elim (ℕ_discrete (at m) start) [
        | yes back ↦
            let same : (at m == start) ≡ true = ground arith in
            let v = wrapping_add first seed in
            (
              set bytes (at j) v,
              rw (found, same, wrote v) refl,
              set-IsPermuted start end bytes _ (at j) v lo hi (refl, refl, refl),
              λ i l. get_or-set-other bytes (at j) (at i) v 0 (λ t. apart i j l new (sym t)),
              last (at j) seed (found ∙ ap ok back) (written v),
            )
        | no further ↦
            let differ : (at m == start) ≡ false = ground arith in
            let early : m < len = before_end m most further in
            let byte = get_or bytes (at m) 0 in
            let v = wrapping_add byte seed in
            let renew = New-next j m new further skipped in
            let (out, done, kept, old, shifted) =
              permute_loop-Permutes fuel m (wrapping_add seed increment) (set bytes (at j) v) early
                (omega arith) (length-set bytes (at j) v ∙ e) above below renew
                (Agrees-set j m v bytes (omega arith) agree) in
            (
              out,
              rw
                  (
                    found,
                    differ,
                    read-ok {E = PagePermutationError} bytes (at m) (omega arith),
                    wrote v,
                  )
                  done,
              set-IsPermuted start end bytes out (at j) v lo hi kept,
              Kept-set j m v bytes out (omega arith) new old,
              more (at j) (at m) seed found further
                  (old j (omega arith)
                    ∙ (written v
                        ∙ ap (λ t. wrapping_add t seed)
                            (Agrees-unwritten j m bytes (omega arith) renew agree)))
                  shifted,
            )
      ]

loop_at_start :
    (bytes : List ℕ) (start tail seed increment : ℕ) (stride : ℤ)
    → is_power_of_two (length bytes) ≡ true
    → start + tail < length bytes
    → (out : List ℕ) × (permute_loop
          (length bytes)
          bytes
          start
          seed
          increment
          (get_or bytes start 0)
          stride
          (length bytes)
          start
          (length bytes - 1 - tail)
        ≡ ok (some out))
      × IsPermuted start (length bytes - 1 - tail) bytes out
      × IsShifted increment stride start (length bytes - 1 - tail) bytes out start seed
loop_at_start bytes start tail seed increment stride power fits =
    let end = length bytes - 1 - tail in
    let zeroth : (start + 0 * to_word (2 ^ 64) stride) % length bytes ≡ start =
      ap (λ (t : ℕ). t % length bytes) (omega arith) ∙ mod-eq_of_lt (omega arith) in
    let (out, done, kept, old, shifted) =
      permute_loop-Permutes start end bytes (omega arith) (omega arith) (omega arith) stride
        (power_of_two-Divides (length bytes) power) increment (length bytes) 0 seed bytes
        (omega arith) (omega arith) refl (omega (arith, zeroth)) (omega (arith, zeroth))
        (λ k l h. absurd (omega arith)) (λ p. inr refl) in
    (
      out,
      subst
          (λ (t : ℕ).
            permute_loop (length bytes) bytes t seed increment (get_or bytes start 0) stride
              (length bytes) start end
            ≡ ok (some out))
          zeroth done,
      kept,
      subst (λ (t : ℕ). IsShifted increment stride start end bytes out t seed) zeroth shifted,
    )

validate_bounds-cases :
    (len start tail : ℕ)
    → ((is_power_of_two len ≡ false)
        × (validate_bounds len start tail ≡ err (non_power_of_two_length len)))
      ⊎ (((is_power_of_two len ≡ true)
            × (len ≤ start + tail)
            × (validate_bounds len start tail ≡ err (invalid_active_range len start tail)))
          ⊎ ((is_power_of_two len ≡ true)
              × (start + tail < len)
              × (validate_bounds len start tail ≡ ok tt)))
unfolding validate_bounds
validate_bounds-cases len start tail = elim (Bool-cases (is_power_of_two len)) [
  | inr e ↦ inl (e, rw e (ground arith))
  | inl e ↦ inr (elim (dec_lt (start + tail) len) [
    | yes fits ↦ inr (e, fits, rw e (ground (arith, power_of_two-bound len e)))
    | no over ↦ inl (e, omega arith, rw e (ground (arith, power_of_two-bound len e)))
  ])
]

abbrev pub increment_of : ℕ → ℕ
increment_of magnitude = bit_or (magnitude / 256 % 256) 1

abbrev raw_stride_of : ℕ → ℕ
raw_stride_of magnitude = bit_or ((magnitude / 65536 % 65536 + magnitude % 256) % 65536) 1

not_zero : (n : ℕ) → (suc n == 0) ≡ false
not_zero n = ground arith

-- What the key makes of the bytes: the key 0 keeps them, another one shifts them along the cycle,
-- with the stride, the increment and the seed taken from the bytes of the key.
abbrev pub KeyShifts : (bytes out : List ℕ) (start tail : ℕ) → ℤ → Type 0
KeyShifts bytes out start tail (pos zero) = out ≡ bytes
KeyShifts bytes out start tail (pos (suc n)) =
    IsShifted (increment_of (suc n)) (stride_of false (raw_stride_of (suc n))) start
      (length bytes - 1 - tail) bytes out start (suc n % 256)
KeyShifts bytes out start tail (negsuc n) =
    IsShifted (increment_of (suc n)) (stride_of true (raw_stride_of (suc n))) start
      (length bytes - 1 - tail) bytes out start
      (negative_seed (length bytes) start tail (increment_of (suc n)) (suc n % 256))

abbrev Accepts : List ℕ → (start tail : ℕ) → ℤ → Type 0
Accepts bytes start tail signed_key =
    (out : List ℕ) × (permute_power_of_two_in_place bytes start tail signed_key ≡ ok (some out))
    × IsPermuted start (length bytes - 1 - tail) bytes out
    × KeyShifts bytes out start tail signed_key

accepts :
    (bytes : List ℕ) (start tail : ℕ) (signed_key : ℤ)
    → is_power_of_two (length bytes) ≡ true
    → start + tail < length bytes
    → validate_bounds (length bytes) start tail ≡ ok tt
    → Accepts bytes start tail signed_key
unfolding permute_power_of_two_in_place
accepts bytes start tail (pos zero) power fits valid =
    (bytes, rw valid refl, (refl, refl, refl), refl)
accepts bytes start tail (pos (suc n)) power fits valid =
    let (out, done, kept, shifted) =
      loop_at_start bytes start tail (suc n % 256) (increment_of (suc n))
        (stride_of false (raw_stride_of (suc n))) power fits in
    (
      out,
      rw (valid, not_zero n, read-ok {E = PagePermutationError} bytes start (omega arith)) done,
      kept,
      shifted,
    )
accepts bytes start tail (negsuc n) power fits valid =
    let seed = negative_seed (length bytes) start tail (increment_of (suc n)) (suc n % 256) in
    let (out, done, kept, shifted) =
      loop_at_start bytes start tail seed (increment_of (suc n))
        (stride_of true (raw_stride_of (suc n))) power fits in
    (
      out,
      rw (valid, not_zero n, read-ok {E = PagePermutationError} bytes start (omega arith)) done,
      kept,
      shifted,
    )

-- `permute_power_of_two_in_place` always returns. A length that is not a power of two is
-- `NonPowerOfTwoLength`, and a start and tail that leave no byte `InvalidActiveRange`. Otherwise it
-- succeeds after at most as many rounds as there are bytes, never with `NoActiveCycle`, whatever the
-- key: the length and the bytes in front of the start and in the tail are as they were. With the
-- key 0 all bytes are. With another key, along the cycle of active positions that the strides make
-- from the start and back to it, each byte becomes the old byte at the next position plus the seed of
-- the round, modulo 256, and the seed grows by the increment.
pub permute_power_of_two_in_place_cases :
    (bytes : List ℕ) (start tail : ℕ) (signed_key : ℤ)
    → ((is_power_of_two (length bytes) ≡ false)
        × (permute_power_of_two_in_place bytes start tail signed_key
            ≡ err (non_power_of_two_length (length bytes))))
      ⊎ (((is_power_of_two (length bytes) ≡ true)
            × (length bytes ≤ start + tail)
            × (permute_power_of_two_in_place bytes start tail signed_key
                ≡ err (invalid_active_range (length bytes) start tail)))
          ⊎ ((is_power_of_two (length bytes) ≡ true)
              × (start + tail < length bytes)
              × ((out : List ℕ) × (permute_power_of_two_in_place bytes start tail signed_key
                    ≡ ok (some out))
                  × IsPermuted start (length bytes - 1 - tail) bytes out
                  × KeyShifts bytes out start tail signed_key)))
unfolding permute_power_of_two_in_place
permute_power_of_two_in_place_cases bytes start tail signed_key =
    elim (validate_bounds-cases (length bytes) start tail) [
      | inl (a, e) ↦ inl (a, rw e refl)
      | inr (inl (a, b, e)) ↦ inr (inl (a, b, rw e refl))
      | inr (inr (a, b, e)) ↦ inr (inr (a, b, accepts bytes start tail signed_key a b e))
    ]

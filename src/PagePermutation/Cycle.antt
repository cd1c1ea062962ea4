-- ===== src/PagePermutation/Cycle.antt =====
-- The positions that the strides visit, and `next_in_active_range`.
use opensqlanywhere.Base.{
  ◌/◌, ◌-◌, ◌≢◌, ℕ, zero, suc, ◌+◌, ◌*◌, ◌%◌, ◌^◌, ◌≤◌, ◌<◌, ◌≡◌, refl, ap, subst, ◌∙◌, sym, arith,
  true, false, Bool-cases, inl, inr, Outcome, ok,
}
use opensqlanywhere.Base.Int.{ℤ, to_word}
use opensqlanywhere.PagePermutation.{
  PagePermutationError, is_power_from, is_power_of_two, advance, is_active, next_from,
  next_in_active_range,
}
use Prim.Native.Nat.{◌∣◌}
use native.Mathlib.Nat.{
  mod-add-div, mul-sub, add-mul, mul-suc, one-mul, zero-add, dvd-mul_right, pow-succ',
  mod-mod_of_dvd, suc-mul, mul_assoc, add-mul-mod_self_left, mod-add-mod, mod-eq_of_lt,
}
use native.Mathlib.Decide.{ℕ_discrete}

-- A power of two that a `usize` holds divides the modulus of the type.
abbrev pub Divides : ℕ → ℕ → Type 0
Divides n m = (q : ℕ) × (n * q ≡ m)

power-Divides : (k d : ℕ) → Divides (2 ^ k) (2 ^ (k + d))
power-Divides zero d = (2 ^ d, one-mul (2 ^ d) ∙ ap (λ (n : ℕ). 2 ^ n) (sym (zero-add d)))
power-Divides (suc k) d =
    let (q, e) = power-Divides k d in
    (
      q,
      rw (pow-succ' 2 k, mul_assoc 2 (2 ^ k) q, e)
          (sym (pow-succ' 2 (k + d)) ∙ ap (λ (n : ℕ). 2 ^ n) (omega arith)),
    )

is_power_from-Divides :
    (left exponent n : ℕ)
    → exponent + left ≡ 64
    → is_power_from left exponent n ≡ true
    → Divides n (2 ^ 64)
unfolding is_power_from
is_power_from-Divides zero exponent n e h = cc
is_power_from-Divides (suc left) exponent n e h = elim (ℕ_discrete n (2 ^ exponent)) [
  | yes same ↦
      let (q, f) = power-Divides exponent (suc left) in
      (q, ap (λ (t : ℕ). t * q) same ∙ (f ∙ ap (λ (t : ℕ). 2 ^ t) e))
  | no differ ↦ is_power_from-Divides left (suc exponent) n (omega arith) (ground arith)
]

pub power_of_two-Divides : (n : ℕ) → is_power_of_two n ≡ true → Divides n (2 ^ 64)
unfolding is_power_of_two
power_of_two-Divides n h = is_power_from-Divides 64 0 n refl h

-- A power of two that a `usize` holds is not zero and not above the modulus of the type.
pub power_of_two-bound : (n : ℕ) → is_power_of_two n ≡ true → (0 < n) × (n ≤ 2 ^ 64)
power_of_two-bound n h = let (q, e) = power_of_two-Divides n h in product_bound n q e
  where
    product_bound : (n q : ℕ) → n * q ≡ 2 ^ 64 → (0 < n) × (n ≤ 2 ^ 64)
    product_bound zero q e = absurd (omega arith)
    product_bound (suc n) zero e = absurd (omega arith)
    product_bound (suc n) (suc q) e = (omega arith, omega (arith, mul-suc (suc n) q))

mod-Divides : (x n m : ℕ) → Divides n m → x % m % n ≡ x % n
mod-Divides x n m (q, e) = mod-mod_of_dvd n x (subst (λ (t : ℕ). n ∣ t) e (dvd-mul_right n q))

module _ (start end s len : ℕ) (inside : start < len) (ordered : start ≤ end) (low : end < len)
    (stride : ℤ) (word : to_word (2 ^ 64) stride ≡ s) (divides : Divides len (2 ^ 64)) where
  -- The position behind some strides from the start.
  abbrev pub position : ℕ → ℕ
  position j = (start + j * s) % len

  advance-position : (j : ℕ) → advance (position j) stride len ≡ position (suc j)
  unfolding advance
  advance-position j =
      mod-Divides (position j + to_word (2 ^ 64) stride) len (2 ^ 64) divides
      ∙ (ap (λ (t : ℕ). (position j + t) % len) word
          ∙ (mod-add-mod (start + j * s) len s
              ∙ ap (λ (t : ℕ). t % len) (omega (arith, suc-mul j s))))

  -- After as many strides as there are bytes, the start is reached.
  pub position-len : position len ≡ start
  position-len = add-mul-mod_self_left start len s ∙ mod-eq_of_lt inside

  abbrev pub Reaches : ℕ → Outcome PagePermutationError ℕ → Type 0
  Reaches j r =
      (m : ℕ) × (r ≡ ok (position m))
      × (j ≤ m)
      × (m ≤ len)
      × (start ≤ position m)
      × (position m ≤ end)
      × ((k : ℕ) → j ≤ k → k < m → position k ≢ start)

  next_from-Reaches :
      (left j : ℕ)
      → j ≤ len
      → len < j + left
      → Reaches j (next_from left (position j) stride len start end)
  unfolding next_from
  next_from-Reaches zero j h k = absurd (omega arith)
  next_from-Reaches (suc left) j h k = elim (Bool-cases (is_active start end (position j))) [
    | inl yes_active ↦ (
      j,
      rw yes_active refl,
      omega arith,
      h,
      ground arith,
      ground arith,
      λ k l r. absurd (omega arith),
    )
    | inr inactive ↦
        let early : j < len = before_end j h inactive in
        let (m, e, lo, hi, above, below, skipped) =
          next_from-Reaches left (suc j) (omega arith) (omega arith) in
        (
          m,
          rw (inactive, advance-position j) e,
          omega arith,
          hi,
          above,
          below,
          skips j m inactive skipped,
        )
  ]
    where
      skips :
          (j m : ℕ)
          → is_active start end (position j) ≡ false
          → ((k : ℕ) → suc j ≤ k → k < m → position k ≢ start)
          → (k : ℕ) → j ≤ k
          → k < m
          → position k ≢ start
      skips j m inactive more k l r back = elim (ℕ_discrete j k) [
        | no differ ↦ more k (omega arith) r back
        | yes same ↦
            let here : position j ≡ start = subst (λ (t : ℕ). position t ≡ start) (sym same) back in
            absurd (ground (arith, here))
      ]

      before_end : (j : ℕ) → j ≤ len → is_active start end (position j) ≡ false → j < len
      before_end j h inactive = elim (ℕ_discrete j len) [
        | no differ ↦ omega arith
        | yes same ↦
            let back : position j ≡ start =
              subst (λ (t : ℕ). position t ≡ start) (sym same) position-len in
            absurd (ground (arith, back))
      ]

  pub next-Reaches :
      (j : ℕ) → j < len → Reaches (suc j) (next_in_active_range (position j) stride len start end)
  unfolding next_in_active_range
  next-Reaches j h =
      rw (advance-position j) (next_from-Reaches len (suc j) (omega arith) (omega arith))

  -- The start is not reached again up to some stride.
  abbrev pub Fresh : ℕ → Type 0
  Fresh j = (k : ℕ) → 0 < k → k ≤ j → position k ≢ start

  position-sub : (i m : ℕ) → i ≤ m → position i ≡ position m → position (m - i) ≡ start
  position-sub i m h e =
      let a = start + i * s in
      let b = start + m * s in
      let parts : m ≡ i + (m - i) = omega arith in
      let multiple : (m - i) * s ≡ len * (b / len - a / len) = omega (
        arith,
        mod-add-div a len,
        mod-add-div b len,
        mul-sub len (b / len) (a / len),
        ap (λ (t : ℕ). t * s) parts,
        add-mul i (m - i) s,
      ) in
      ap (λ (t : ℕ). (start + t) % len) multiple
      ∙ (add-mul-mod_self_left start len (b / len - a / len) ∙ mod-eq_of_lt inside)

  -- Up to the return to the start, the positions are distinct.
  pub position-distinct : (i m : ℕ) → i < m → Fresh m → position i ≢ position m
  position-distinct i m h fresh e =
      fresh (m - i) (omega arith) (omega arith) (position-sub i m (omega arith) e)

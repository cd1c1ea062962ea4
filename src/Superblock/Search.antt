-- ===== src/Superblock/Search.antt =====
-- `memmem` of superblock.rs: occurrences of a needle.
use opensqlanywhere.Base.{
  ℕ, zero, suc, ◌+◌, ◌≤◌, ◌<◌, ◌≡◌, List, [], ◌∷◌, arith, length, take, drop,
}
use opensqlanywhere.Base.{
  Option, none, some, list_eq, list_eq_iff, length-take, length-drop, ap, ◌⊎◌, inl, inr, Bool-cases,
  refl,
}
use native.Mathlib.Decide.{dec_lt}
use native.Mathlib.Nat.{zero-add}
use opensqlanywhere.Superblock.{position, memmem}

-- `needle` stands in `h` at offset `i`.
abbrev pub OccursAt : List ℕ → List ℕ → ℕ → Type 0
OccursAt needle h i = take (length needle) (drop i h) ≡ needle

-- What an answer of a search says of the haystack.
abbrev pub IsFirst : List ℕ → List ℕ → Option ℕ → Type 0
IsFirst needle h none = (j : ℕ) → j < length h → ¬ OccursAt needle h j
IsFirst needle h (some i) =
    (i + length needle ≤ length h) × OccursAt needle h i × ((j : ℕ) → j < i → ¬ OccursAt needle h j)

too_short : (needle h : List ℕ) (j : ℕ) → length h < length needle → ¬ OccursAt needle h j
too_short needle h j lt e =
    omega (arith, ap length e, length-take (length needle) (drop j h), length-drop j h)

-- The search from offset `i` on, which has `h` left.
abbrev Found : List ℕ → List ℕ → ℕ → Type 0
Found needle h i =
    ((position needle h i ≡ none) × IsFirst needle h none)
    ⊎ ((m : ℕ) × (position needle h i ≡ some (i + m)) × IsFirst needle h (some m))

step :
    (needle : List ℕ) (x : ℕ) (xs : List ℕ) (i : ℕ)
    → length needle ≤ length (x ∷ xs)
    → ¬ OccursAt needle (x ∷ xs) 0
    → Found needle xs (suc i)
    → Found needle (x ∷ xs) i
unfolding position
step needle x xs i fits miss (inl (e, f)) =
    inl (ground (arith, list_eq_iff (take (length needle) (x ∷ xs)) needle), later)
  where
    later : IsFirst needle (x ∷ xs) none
    later zero lt = miss
    later (suc j) lt = f j (omega arith)
step needle x xs i fits miss (inr (m, e, (room, at, f))) = inr (
  suc m,
  ground (arith, list_eq_iff (take (length needle) (x ∷ xs)) needle),
  (omega arith, at, earlier),
)
  where
    earlier : (j : ℕ) → j < suc m → ¬ OccursAt needle (x ∷ xs) j
    earlier zero lt = miss
    earlier (suc j) lt = f j (omega arith)

position-Found : (needle h : List ℕ) (i : ℕ) → Found needle h i
unfolding position
position-Found needle [] i = inl (refl, λ j lt. absurd (omega arith))
position-Found needle (x ∷ xs) i = elim (dec_lt (length (x ∷ xs)) (length needle)) [
  | yes lt ↦ inl (ground arith, λ j k. too_short needle (x ∷ xs) j lt)
  | no ge ↦ elim (Bool-cases (list_eq (take (length needle) (x ∷ xs)) needle)) [
    | inl e ↦
        inr
          (0, ground arith, (omega arith, (list_eq_iff _ needle).0 e, λ j k. absurd (omega arith)))
    | inr e ↦
        step needle x xs i (omega arith) (λ o. cc (e, (list_eq_iff _ needle).1 o))
          (position-Found needle xs (suc i))
  ]
]

-- `memmem` answers with the first offset at which a needle that is not empty stands in the
-- haystack, and with none exactly if it stands nowhere.
pub memmem-IsFirst : (needle h : List ℕ) → 0 < length needle → IsFirst needle h (memmem h needle)
unfolding memmem
memmem-IsFirst needle h pos = elim (dec_lt (length h) (length needle)) [
  | yes lt ↦ rw (short lt) (λ j k. too_short needle h j lt)
  | no ge ↦ rw (long (omega arith)) (answer (position-Found needle h 0))
]
  where
    short : length h < length needle → memmem h needle ≡ none
    short lt = ground arith

    long : length needle ≤ length h → memmem h needle ≡ position needle h 0
    long ge = ground arith

    answer : Found needle h 0 → IsFirst needle h (position needle h 0)
    answer (inl (e, f)) = rw e f
    answer (inr (m, e, f)) = rw (e, zero-add) f

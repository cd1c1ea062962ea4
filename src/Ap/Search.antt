-- ===== src/Ap/Search.antt =====
-- The histograms, and the search for a largest entry.
use opensqlanywhere.Base.{
  ℕ, zero, suc, ◌+◌, ◌≤◌, ◌<◌, ◌≡◌, ◌≢◌, inl, inr, refl, ap, ◌∙◌, sym, List, [], ◌∷◌, arith, true,
  false, Bool-cases, leb, ltb, ◌==◌, if◌then◌else◌, length, get_or, length-set, length-replicate,
  get_or-replicate, get_or-set-same, get_or-set-other, some,
}
use opensqlanywhere.Ap.{
  count_in, empty_histogram, last_max_from, last_max, plain_at, plaintext_histogram, maximum, peak,
}
use native.Mathlib.Decide.{ℕ_discrete}

-- How often a value is in a list.
abbrev pub count : ℕ → List ℕ → ℕ
count v [] = 0
count v (x ∷ xs) = (if x == v then 1 else 0) + count v xs

-- The histogram after some more values.
abbrev pub tally : List ℕ → List ℕ → List ℕ
tally [] hist = hist
tally (v ∷ vs) hist = tally vs (count_in hist v)

count_in-get_or :
    (hist : List ℕ) (x v : ℕ)
    → v < length hist
    → get_or (count_in hist x) v 0 ≡ (if x == v then 1 else 0) + get_or hist v 0
count_in-get_or hist x v h = elim (ℕ_discrete x v) [
  | yes same ↦ ground (arith, get_or-set-same hist v (suc (get_or hist v 0)) 0 h)
  | no differ ↦ ground (arith, get_or-set-other hist x v (suc (get_or hist x 0)) 0 differ)
]

tally-get_or :
    (vs hist : List ℕ) (v : ℕ)
    → v < length hist
    → get_or (tally vs hist) v 0 ≡ count v vs + get_or hist v 0
tally-get_or [] hist v h = omega arith
tally-get_or (x ∷ vs) hist v h = omega (
  arith,
  tally-get_or vs (count_in hist x) v (omega (arith, length-set hist x (suc (get_or hist x 0)))),
  count_in-get_or hist x v h,
)

length-tally : (vs hist : List ℕ) → length (tally vs hist) ≡ length hist
length-tally [] hist = refl
length-tally (v ∷ vs) hist =
    length-tally vs (count_in hist v) ∙ length-set hist v (suc (get_or hist v 0))

-- The histogram of some bytes, and its entries.
abbrev pub histogram : List ℕ → List ℕ
histogram vs = tally vs empty_histogram

pub length-histogram : (vs : List ℕ) → length (histogram vs) ≡ 256
length-histogram vs = length-tally vs empty_histogram ∙ length-replicate {A = ℕ} 256 0

pub histogram-count : (vs : List ℕ) (v : ℕ) → v < 256 → get_or (histogram vs) v 0 ≡ count v vs
histogram-count vs v h = omega (
  arith,
  tally-get_or vs empty_histogram v (omega (arith, length-replicate {A = ℕ} 256 0)),
  get_or-replicate {A = ℕ} 256 v 0,
)

abbrev pub plain_from : (base step i : ℕ) → List ℕ → List ℕ
plain_from base step i [] = []
plain_from base step i (b ∷ sec) = plain_at base step i b ∷ plain_from base step (suc i) sec

plaintext_histogram-tally :
    (base step i : ℕ) (sec hist : List ℕ)
    → plaintext_histogram base step i sec hist ≡ tally (plain_from base step i sec) hist
unfolding plaintext_histogram
plaintext_histogram-tally base step i [] hist = refl
plaintext_histogram-tally base step i (b ∷ sec) hist =
    plaintext_histogram-tally base step (suc i) sec _

pub get_or-maximum : (xs : List ℕ) (i : ℕ) → get_or xs i 0 ≤ maximum xs
unfolding maximum
get_or-maximum [] i = omega arith
get_or-maximum (x ∷ xs) zero = ground arith
get_or-maximum (x ∷ xs) (suc i) = ground (arith, get_or-maximum xs i)

pub maximum-reached :
    (x : ℕ) (xs : List ℕ)
    → (i : ℕ) × (i < length (x ∷ xs)) × (get_or (x ∷ xs) i 0 ≡ maximum (x ∷ xs))
unfolding maximum
maximum-reached x [] = (0, omega arith, ground arith)
maximum-reached x (y ∷ ys) =
    let (i, lt, same) = maximum-reached y ys in
    elim (Bool-cases (ltb (maximum (y ∷ ys)) x)) [
      | inl up ↦ (0, omega arith, rw up refl)
      | inr low ↦ (suc i, omega arith, rw low same)
    ]

-- A peak is the number of the most common plaintext byte.
pub record IsPeak (plain : List ℕ) (n : ℕ) : Type 0 where
  pub most : (v : ℕ) → v < 256 → count v plain ≤ n
  pub met : (v : ℕ) × (v < 256) × (count v plain ≡ n)

histogram-IsPeak : (vs hist : List ℕ) → histogram vs ≡ hist → IsPeak vs (maximum hist)
histogram-IsPeak vs [] e = absurd (omega (arith, length-histogram vs, ap length e))
histogram-IsPeak vs (x ∷ xs) e =
    let (i, lt, same) = maximum-reached x xs in
    let inside : i < 256 = omega (arith, length-histogram vs, ap length e) in
    record {
      most = λ v h. omega (
        arith,
        histogram-count vs v h,
        get_or-maximum (x ∷ xs) v,
        ap (λ (t : List ℕ). get_or t v 0) e,
      );
      met = (
        i,
        inside,
        omega (arith, histogram-count vs i inside, ap (λ (t : List ℕ). get_or t i 0) e),
      );
    }

pub peak-IsPeak :
    (sec : List ℕ) (base step : ℕ) → IsPeak (plain_from base step 0 sec) (peak sec base step)
unfolding peak
peak-IsPeak sec base step =
    histogram-IsPeak (plain_from base step 0 sec) _
      (sym (plaintext_histogram-tally base step 0 sec empty_histogram))

last_max_from-keep :
    (xs : List ℕ) (index best value : ℕ)
    → ((j : ℕ) → j < length xs → get_or xs j 0 < value)
    → last_max_from index best value xs ≡ best
unfolding last_max_from
last_max_from-keep [] index best value h = refl
last_max_from-keep (x ∷ xs) index best value h =
    let low : leb value x ≡ false = ground (arith, h 0) in
    rw low (last_max_from-keep xs (suc index) best value (λ j lt. h (suc j) (omega arith)))

last_max_from-strict :
    (xs : List ℕ) (index best value k : ℕ)
    → k < length xs
    → value < get_or xs k 0
    → ((j : ℕ) → j < length xs → j ≢ k → get_or xs j 0 < get_or xs k 0)
    → last_max_from index best value xs ≡ index + k
unfolding last_max_from
last_max_from-strict [] index best value k lt up h = absurd (omega arith)
last_max_from-strict (x ∷ xs) index best value zero lt up h =
    let high : leb value x ≡ true = ground arith in
    rw high (
      last_max_from-keep xs (suc index) index x (λ j lt'. h (suc j) (omega arith) (omega arith))
      ∙ omega arith)
last_max_from-strict (x ∷ xs) index best value (suc k) lt up h =
    last_max_from-strict xs (suc index) _ _ k (omega arith) (ground (arith, h 0))
      (λ j lt' differ. h (suc j) (omega arith) (omega arith))
    ∙ omega arith

-- An entry that is greater than every other is found.
pub last_max-strict :
    (xs : List ℕ) (k : ℕ)
    → k < length xs
    → ((j : ℕ) → j < length xs → j ≢ k → get_or xs j 0 < get_or xs k 0)
    → last_max xs ≡ some k
unfolding last_max
last_max-strict [] k lt h = absurd (omega arith)
last_max-strict (x ∷ xs) zero lt h =
    ap some (last_max_from-keep xs 1 0 x (λ j lt'. h (suc j) (omega arith) (omega arith)))
last_max-strict (x ∷ xs) (suc k) lt h = ap some (
    last_max_from-strict xs 1 0 x k (omega arith) (h 0 (omega arith) (omega arith))
      (λ j lt' differ. h (suc j) (omega arith) (omega arith))
    ∙ omega arith)

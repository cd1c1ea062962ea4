-- ===== src/Ap/Steps.antt =====
-- `recover_step_confidence`: the search over the 256 steps.
use opensqlanywhere.Base.{
  ℕ, zero, suc, ◌+◌, ◌≤◌, ◌<◌, ◌≡◌, ◌≢◌, ◌⊎◌, inl, inr, refl, ap, ◌∙◌, sym, List, [], ◌∷◌, arith,
  Bool, true, false, Bool-cases, ltb, ◌==◌, subst, ltb→lt, lt→ltb, if◌then◌else◌,
}
use opensqlanywhere.Ap.Search.{count, plain_from, IsPeak, peak-IsPeak}
use opensqlanywhere.Ap.{plain_at, peak, StepSearch, consider, search_steps}
use opensqlanywhere.Ap.{ApSectorRecoveryConfidence, recover_step_confidence, count_zero_from}
use native.Mathlib.Decide.{dec_lt}

-- What the variables of the search hold behind the steps below `n`, of which there is one at least.
pub record IsSearch (f : ℕ → ℕ) (n : ℕ) (s : StepSearch) : Type 0 where
  pub inside : s.best_step < n
  pub reached : s.best_count ≡ f s.best_step
  pub greatest : (k : ℕ) → k < n → f k ≤ s.best_count
  pub first : (k : ℕ) → k < s.best_step → f k < s.best_count
  pub second : (k : ℕ) → k < n → k ≢ s.best_step → f k ≤ s.runner_up_count
  pub runner :
      ((n ≡ 1) × (s.runner_up_count ≡ 0))
      ⊎ ((k : ℕ) × (k < n) × (k ≢ s.best_step) × (f k ≡ s.runner_up_count))
  pub tied :
      ((s.best_peak_tied ≡ true) × (s.runner_up_count ≡ s.best_count))
      ⊎ ((s.best_peak_tied ≡ false) × (s.runner_up_count < s.best_count))

module _ (f : ℕ → ℕ) (n : ℕ) (s : StepSearch) (h : IsSearch f n s) where
  below : {P : ℕ → Type 0} → ((k : ℕ) → k < n → P k) → P n → (k : ℕ) → k < suc n → P k
  below {P} old new k lt = elim (dec_lt k n) [
    | yes early ↦ old k early
    | no late ↦ subst P (omega arith) new
  ]

  -- The step is the new best one.
  new_best :
      s.best_count < f n
      → IsSearch f (suc n) (record {
        best_step = n;
        best_count = f n;
        runner_up_count = s.best_count;
        best_peak_tied = false;
      })
  new_best up = record {
    inside = omega arith;
    reached = refl;
    greatest = below (λ k lt. omega (arith, h.greatest k lt)) (omega arith);
    first = λ k lt. omega (arith, h.greatest k lt);
    second = below (λ k lt differ. h.greatest k lt) (λ differ. absurd (differ refl));
    runner = inr (s.best_step, omega (arith, h.inside), omega (arith, h.inside), sym h.reached);
    tied = inr (refl, up);
  }

  -- The step is not better, and the runner-up is the greater of both.
  not_better :
      (r : ℕ) (t : Bool)
      → f n ≤ s.best_count
      → s.runner_up_count ≤ r
      → f n ≤ r
      → (r ≡ s.runner_up_count) ⊎ (r ≡ f n)
      → ((t ≡ true) × (r ≡ s.best_count)) ⊎ ((t ≡ false) × (r < s.best_count))
      → IsSearch f (suc n) (record s { runner_up_count = r; best_peak_tied = t })
  not_better r t low up new which tie = record {
    inside = omega (arith, h.inside);
    reached = h.reached;
    greatest = below h.greatest low;
    first = h.first;
    second = below (λ k lt differ. omega (arith, h.second k lt differ)) (λ differ. new);
    runner = elim which [
      | inr e ↦ inr (n, omega arith, omega (arith, h.inside), sym e)
      | inl e ↦ elim h.runner [
        | inl (one, none_yet) ↦ inr (n, omega arith, omega (arith, h.inside), omega arith)
        | inr (k, lt, differ, same) ↦ inr (k, omega arith, differ, same ∙ sym e)
      ]
    ];
    tied = tie;
  }

  consider-IsSearch : IsSearch f (suc n) (consider n (f n) s)
  unfolding consider
  consider-IsSearch = elim (Bool-cases (ltb s.best_count (f n))) [
    | inl up ↦ rw up (new_best (ltb→lt _ _ up))
    | inr low ↦ rw low (
        not_better _ _ (ground arith) (ground arith) (ground arith) (ground arith)
          (ground (arith, h.tied)))
  ]

search_steps-IsSearch :
    (sec : List ℕ) (base left n : ℕ) (s : StepSearch)
    → IsSearch (peak sec base) n s
    → IsSearch (peak sec base) (n + left) (search_steps sec base left n s)
unfolding search_steps
search_steps-IsSearch sec base zero n s h =
    subst (λ k. IsSearch (peak sec base) k s) (omega arith) h
search_steps-IsSearch sec base (suc left) n s h =
    subst
      (λ k.
        IsSearch (peak sec base) k
          (search_steps sec base left (suc n) (consider n (peak sec base n) s)))
      (omega arith)
      (search_steps-IsSearch sec base left (suc n) _ (consider-IsSearch (peak sec base) n s h))

-- A peak of a sector that is not empty.
peak-positive : (b : ℕ) (sec : List ℕ) (base step : ℕ) → 0 < peak (b ∷ sec) base step
peak-positive b sec base step =
    let first : ℕ = plain_at base step 0 b in
    omega (
      arith,
      (peak-IsPeak (b ∷ sec) base step).most first (omega arith),
      count_first first (plain_from base step 1 sec),
    )
  where
    count_first : (v : ℕ) (vs : List ℕ) → 0 < count v (v ∷ vs)
    count_first v vs = ground arith

abbrev unstarted : StepSearch
unstarted = record { best_step = 0; best_count = 0; runner_up_count = 0; best_peak_tied = false }

first_step : (f : ℕ → ℕ) → 0 < f 0 → IsSearch f 1 (consider 0 (f 0) unstarted)
unfolding consider
first_step f h = rw (lt→ltb 0 (f 0) h) (record {
  inside = omega arith;
  reached = refl;
  greatest = λ k lt. omega (arith, ap f (only k lt));
  first = λ k lt. absurd (omega arith);
  second = λ k lt differ. absurd (differ (omega arith));
  runner = inl (refl, refl);
  tied = inr (refl, h);
})
  where
    only : (k : ℕ) → k < 1 → k ≡ 0
    only k lt = omega arith

count_zero_from-count :
    (base step i : ℕ) (sec : List ℕ)
    → count_zero_from base step i sec ≡ count 0 (plain_from base step i sec)
unfolding count_zero_from
count_zero_from-count base step i [] = refl
count_zero_from-count base step i (b ∷ sec) =
    ap (λ (k : ℕ). (if plain_at base step i b == 0 then 1 else 0) + k)
      (count_zero_from-count base step (suc i) sec)

searched_from_start :
    (sec : List ℕ) (base left : ℕ)
    → 0 < peak sec base 0
    → IsSearch (peak sec base) (suc left) (search_steps sec base (suc left) 0 unstarted)
unfolding search_steps
searched_from_start sec base left h =
    subst
      (λ n.
        IsSearch (peak sec base) n
          (search_steps sec base left 1 (consider 0 (peak sec base 0) unstarted)))
      {x = 1 + left} (omega arith)
      (search_steps-IsSearch sec base left 1 _ (first_step (peak sec base) h))

searched :
    (b : ℕ) (sec : List ℕ) (base : ℕ)
    → IsSearch (peak (b ∷ sec) base) 256 (search_steps (b ∷ sec) base 256 0 unstarted)
searched b sec base = searched_from_start (b ∷ sec) base 255 (peak-positive b sec base 0)

-- The evidence for a step: its plaintext's most common byte is at least as frequent as that of any
-- step, and more frequent than that of any lower step.
pub record IsChoice (sec : List ℕ) (base : ℕ) (c : ApSectorRecoveryConfidence) : Type 0 where
  pub inside : c.chosen_step < 256
  pub frequency : IsPeak (plain_from base c.chosen_step 0 sec) c.best_peak
  pub greatest : (s : ℕ) → s < 256 → peak sec base s ≤ c.best_peak
  pub first : (s : ℕ) → s < c.chosen_step → peak sec base s < c.best_peak
  pub second : (s : ℕ) → s < 256 → s ≢ c.chosen_step → peak sec base s ≤ c.runner_up_peak
  pub runner : (s : ℕ) × (s < 256) × (s ≢ c.chosen_step) × (peak sec base s ≡ c.runner_up_peak)
  pub tied :
      ((c.best_peak_tied ≡ true) × (c.runner_up_peak ≡ c.best_peak))
      ⊎ ((c.best_peak_tied ≡ false) × (c.runner_up_peak < c.best_peak))
  pub zeros : c.zero_plaintext_count ≡ count 0 (plain_from base c.chosen_step 0 sec)

-- On a sector that is not empty, the step that `recover_step_confidence` chooses is below 256, and it
-- is the lowest of those whose plaintext has the most frequent most common byte; `best_peak` is how
-- often that byte is in the plaintext. `runner_up_peak` is the greatest such number among the other
-- steps, `best_peak_tied` says whether it is equal to `best_peak`, and `zero_plaintext_count` is the
-- number of zeros in the plaintext of the chosen step.
pub recover_step_confidence-IsChoice :
    (b : ℕ) (sec : List ℕ) (base sector_index : ℕ)
    → IsChoice (b ∷ sec) base (recover_step_confidence (b ∷ sec) base sector_index)
unfolding recover_step_confidence
recover_step_confidence-IsChoice b sec base sector_index = record {
  inside = s.inside;
  frequency = subst (IsPeak _) (sym s.reached) (peak-IsPeak (b ∷ sec) base _);
  greatest = s.greatest;
  first = s.first;
  second = s.second;
  runner = elim s.runner [ inl (one, none_yet) ↦ absurd (omega arith) | inr found ↦ found ];
  tied = s.tied;
  zeros = count_zero_from-count base _ 0 (b ∷ sec);
}
  where
    s : IsSearch (peak (b ∷ sec) base) 256 (search_steps (b ∷ sec) base 256 0 unstarted)
    s = searched b sec base

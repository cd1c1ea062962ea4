-- ===== src/Ap/Models/Learning.antt =====
-- `learn_bv_for_page` on a page whose plaintext is zero.
use opensqlanywhere.Base.{
  ℕ, zero, suc, ◌+◌, ◌-◌, ◌*◌, ◌%◌, ◌≤◌, ◌<◌, ◌≡◌, ◌≢◌, refl, ap, ◌∙◌, List, [], ◌∷◌, arith, true,
  length, replicate, some, ok, slice-ok, All,
}
use opensqlanywhere.Base.Bytes.{wrapping_sub, wrapping_mul}
use opensqlanywhere.Ap.{
  ap_base, empty_histogram, last_max, differences, dominant_step, candidates, recover_base,
  hits_from, is_pure, sector_start, data_end, sectors_per_page,
}
use opensqlanywhere.Ap.Streams.{fill, fill_from, mod_mul}
use opensqlanywhere.Ap.Search.{
  count, tally, histogram, histogram-count, length-histogram, last_max-strict,
}
use opensqlanywhere.Ap.Pages.{sector_of, size_of, ap_base-byte}
use opensqlanywhere.Ap.Models.{
  is_pure_ap_type, vote, winner, winner_from, bv_of_base, sector_vote, sector_votes, HashOrder,
  learn_bv_for_page,
}
use native.Mathlib.Nat.{suc-mul}
use mathlib.Core.List.Perm
use mathlib.Core.List.{Perm, Mem, mem-singleton, mem-cons_self}

module _ (s : ℕ) where
  abbrev Only : List ℕ → Type 0
  Only vs = All (λ x. x ≡ s) vs

  count-all : (vs : List ℕ) → Only vs → count s vs ≡ length vs
  count-all [] h = refl
  count-all (v ∷ vs) h = ground (arith, h.0, count-all vs h.1)

  count-none : (v : ℕ) (vs : List ℕ) → Only vs → v ≢ s → count v vs ≡ 0
  count-none v [] h differ = refl
  count-none v (x ∷ vs) h differ = ground (arith, h.0, count-none v vs h.1 differ)

  -- The most common of bytes that are all the same.
  last_max-histogram :
      (vs : List ℕ) → s < 256 → 0 < length vs → Only vs → last_max (histogram vs) ≡ some s
  last_max-histogram vs h more same =
      last_max-strict (histogram vs) s (omega (arith, length-histogram vs)) (λ j lt differ. omega (
        arith,
        histogram-count vs s h,
        histogram-count vs j (omega (arith, length-histogram vs)),
        count-all vs same,
        count-none j vs same differ,
      ))

-- The values that the loops of `dominant_step` and `recover_base` count.
abbrev steps_in : List ℕ → List ℕ
steps_in [] = []
steps_in (a ∷ []) = []
steps_in (a ∷ b ∷ sec) = wrapping_sub b a ∷ steps_in (b ∷ sec)

abbrev bases_in : (step i : ℕ) → List ℕ → List ℕ
bases_in step i [] = []
bases_in step i (b ∷ sec) = wrapping_sub b (wrapping_mul (i % 256) step) ∷ bases_in step (suc i) sec

differences-tally : (sec hist : List ℕ) → differences sec hist ≡ tally (steps_in sec) hist
unfolding differences
differences-tally [] hist = refl
differences-tally (a ∷ []) hist = refl
differences-tally (a ∷ b ∷ sec) hist = differences-tally (b ∷ sec) _

candidates-tally :
    (step i : ℕ) (sec hist : List ℕ) → candidates step i sec hist ≡ tally (bases_in step i sec) hist
unfolding candidates
candidates-tally step i [] hist = refl
candidates-tally step i (b ∷ sec) hist = candidates-tally step (suc i) sec _

module _ (base step : ℕ) (hb : base < 256) (hs : step < 256) where
  zeros_from : ℕ → ℕ → List ℕ
  zeros_from i n = fill_from base step i (replicate n 0)

  next_step : (i : ℕ) → (suc i * step) ≡ i * step + step
  next_step i = suc-mul i step

  steps_in-fill :
      (n i : ℕ)
      → Only step (steps_in (zeros_from i n)) × (length (steps_in (zeros_from i n)) ≡ n - 1)
  unfolding zeros_from
  steps_in-fill zero i = (tt, omega arith)
  steps_in-fill (suc zero) i = (tt, omega arith)
  steps_in-fill (suc (suc n)) i =
      let (same, size) = steps_in-fill (suc n) (suc i) in
      ((omega (arith, next_step i), same), omega (arith, size))

  bases_in-fill :
      (n i : ℕ)
      → Only base (bases_in step i (zeros_from i n))
        × (length (bases_in step i (zeros_from i n)) ≡ n)
  unfolding zeros_from
  bases_in-fill zero i = (tt, refl)
  bases_in-fill (suc n) i =
      let (same, size) = bases_in-fill n (suc i) in
      ((omega (arith, mod_mul i step), same), ap suc size)

  hits_from-fill : (n i : ℕ) → hits_from base step i (zeros_from i n) ≡ n
  unfolding hits_from zeros_from
  hits_from-fill zero i = refl
  hits_from-fill (suc n) i = ground (arith, hits_from-fill n (suc i), mod_mul i step)

  length-zeros_from : (n i : ℕ) → length (zeros_from i n) ≡ n
  unfolding zeros_from
  length-zeros_from zero i = refl
  length-zeros_from (suc n) i = ap suc (length-zeros_from n (suc i))

  dominant_step-fill : (n : ℕ) → dominant_step (zeros_from 0 (suc (suc n))) ≡ step
  unfolding dominant_step
  dominant_step-fill n =
      let (same, size) = steps_in-fill (suc (suc n)) 0 in
      rw
        (
          differences-tally (zeros_from 0 (suc (suc n))) empty_histogram,
          last_max-histogram step (steps_in (zeros_from 0 (suc (suc n)))) hs (omega (arith, size))
              same,
        )
        refl

  recover_base-fill : (n : ℕ) → recover_base (zeros_from 0 (suc n)) step ≡ base
  unfolding recover_base
  recover_base-fill n =
      let (same, size) = bases_in-fill (suc n) 0 in
      rw
        (
          candidates-tally step 0 (zeros_from 0 (suc n)) empty_histogram,
          last_max-histogram base (bases_in step 0 (zeros_from 0 (suc n))) hb (omega (arith, size))
              same,
        )
        refl

  is_pure-fill : (n : ℕ) → is_pure (zeros_from 0 n) base step ≡ true
  unfolding is_pure
  is_pure-fill n = ground (arith, hits_from-fill n 0, length-zeros_from n 0)

bv_of_base-ap_base : (pn si bv : ℕ) → bv < 256 → bv_of_base (ap_base pn si bv) pn si ≡ bv
unfolding bv_of_base ap_base
bv_of_base-ap_base pn si bv h = omega arith

-- The page's sector holds the fill and a plaintext of zeros.
abbrev pub IsBlank : List ℕ → (pn bv step si : ℕ) → Type 0
IsBlank bytes pn bv step si =
    sector_of bytes si ≡ fill (ap_base pn si bv) step (replicate (size_of si) 0)

size_of-two : (si : ℕ) → si < 8 → (n : ℕ) × (size_of si ≡ suc (suc n))
size_of-two si h = (size_of si - 2, ground arith)

module _ (E : Type 0) (bytes : List ℕ) (pn bv : ℕ) (step : ℕ → ℕ) (long : 4096 ≤ length bytes)
    (hv : bv < 256) (bounded : (si : ℕ) → si < 8 → step si < 256)
    (blank : (si : ℕ) → si < 8 → IsBlank bytes pn bv (step si) si) where
  sector_vote-blank : (si : ℕ) → si < 8 → sector_vote {E = E} bytes pn si ≡ ok (some bv)
  unfolding sector_vote zeros_from
  sector_vote-blank si h =
      let (n, size) = size_of-two si h in
      let base = ap_base pn si bv in
      let byte = ap_base-byte pn si bv in
      let small = bounded si h in
      rw
        (
          slice-ok {E = E} bytes (sector_start si) (data_end si) (ground arith) (ground arith),
          blank si h,
          size,
          dominant_step-fill base (step si) byte small n,
          recover_base-fill base (step si) byte small (suc n),
          is_pure-fill base (step si) byte small (suc (suc n)),
          bv_of_base-ap_base pn si bv hv,
        )
        refl

  vote_again : (n : ℕ) → vote bv ((bv, n) ∷ []) ≡ (bv, n + 1) ∷ []
  vote_again n = ground arith

  sector_votes-blank :
      (left si n : ℕ)
      → si + left ≡ 8
      → sector_votes {E = E} bytes pn left si ((bv, n) ∷ []) ≡ ok ((bv, n + left) ∷ [])
  unfolding sector_votes
  sector_votes-blank zero si n e = ap (λ (k : ℕ). ok ((bv, k) ∷ [])) (omega arith)
  sector_votes-blank (suc left) si n e =
      rw (sector_vote-blank si (omega arith), vote_again n)
        (sector_votes-blank left (suc si) (n + 1) (omega arith)
          ∙ ap (λ (k : ℕ). ok ((bv, k) ∷ [])) (omega arith))

  all_votes : sector_votes {E = E} bytes pn sectors_per_page 0 [] ≡ ok ((bv, 8) ∷ [])
  unfolding sector_votes
  all_votes = rw (sector_vote-blank 0 (omega arith)) (sector_votes-blank 7 1 1 (omega arith))

one_member : (x e : ℕ × ℕ) → Mem x (e ∷ []) → x ≡ e
one_member x e m = (mem-singleton hlevel).0 m

-- The entries of a map of one entry come in one order.
one_entry : (l : List (ℕ × ℕ)) (e : ℕ × ℕ) → Perm l (e ∷ []) → l ≡ e ∷ []
one_entry [] e p = let n = Perm.length-eq p in cc
one_entry (x ∷ []) e p = ap (λ y. y ∷ []) (one_member x e ((Perm.mem_iff p).0 mem-cons_self))
one_entry (x ∷ y ∷ l) e p = let n = Perm.length-eq p in cc

-- If the iteration of a map of votes gives its entries in some order, then `learn_bv_for_page` finds
-- the calibration byte of a page of a pure type of 4096 bytes or more whose eight sectors are stored
-- by the module's formula, each with a step of its own, from a plaintext of zeros.
pub learn_bv_for_page-blank :
    (E : Type 0) (order : HashOrder) (bytes : List ℕ) (pn bv ptype : ℕ) (step : ℕ → ℕ)
    → ((es : List (ℕ × ℕ)) → Perm (order.of_votes es) es)
    → is_pure_ap_type ptype ≡ true
    → 4096 ≤ length bytes
    → bv < 256
    → ((si : ℕ) → si < 8 → step si < 256)
    → ((si : ℕ) → si < 8 → IsBlank bytes pn bv (step si) si)
    → learn_bv_for_page {E = E} order bytes pn ptype ≡ ok (some bv)
unfolding learn_bv_for_page winner winner_from
learn_bv_for_page-blank E order bytes pn bv ptype step perm pure long hv bounded blank =
    rw
      (
        pure,
        all_votes E bytes pn bv step long hv bounded blank,
        one_entry _ (bv, 8) (perm ((bv, 8) ∷ [])),
      )
      refl

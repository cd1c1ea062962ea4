-- ===== src/Ap.antt =====
-- crates/opensqlany/src/ap.rs: the fill of one sector, and how its step and base are recovered.
-- The counters of a histogram are at most 512, so the widths of the source do not wrap.
pub mod Streams
pub mod Search
pub mod Steps
pub mod Pages
pub mod Models
use opensqlanywhere.Base.{
  ℕ, zero, suc, ◌+◌, ◌-◌, ◌*◌, ◌/◌, ◌%◌, List, [], ◌∷◌, ◌++◌, Bool, true, false, ◌==◌, ltb, leb,
  if◌then◌else◌,
}
use opensqlanywhere.Base.{
  length, get_or, set, replicate, take, drop, Outcome, ok, ◌>>=◌, ◌>>◌, slice, assert, Option, none,
  some, read,
}
use opensqlanywhere.Base.Bytes.{wrapping_add, wrapping_sub, wrapping_mul}

abbrev pub sector_size : ℕ
sector_size = 512

abbrev pub sectors_per_page : ℕ
sectors_per_page = 8

abbrev pub trailer_start : ℕ
trailer_start = 0xff0

-- `p16 / 2 * 4`, with `p16` of the page number.
abbrev pub page_bias : ℕ → ℕ
page_bias pn = pn % 16 / 2 * 4

unfoldable pub ap_base : (pn si bv : ℕ) → ℕ
ap_base pn si bv =
    wrapping_sub (wrapping_add (wrapping_add bv (pn % 256)) (si % 256)) (page_bias pn)

-- `hist[value] += 1`
abbrev pub count_in : List ℕ → ℕ → List ℕ
count_in hist value = set hist value (suc (get_or hist value 0))

abbrev pub empty_histogram : List ℕ
empty_histogram = replicate 256 0

-- `enumerate().max_by_key(value)`, from an index on: the last of the largest.
unfoldable pub last_max_from : (index best best_value : ℕ) → List ℕ → ℕ
last_max_from index best best_value [] = best
last_max_from index best best_value (v ∷ vs) =
    last_max_from (suc index) (if leb best_value v then index else best)
      (if leb best_value v then v else best_value) vs

unfoldable pub last_max : List ℕ → Option ℕ
last_max [] = none
last_max (v ∷ vs) = some (last_max_from 1 0 v vs)

abbrev pub unwrap_or : Option ℕ → ℕ → ℕ
unwrap_or none d = d
unwrap_or (some v) d = v

-- The loop over the windows of two bytes.
unfoldable pub differences : List ℕ → List ℕ → List ℕ
differences [] hist = hist
differences (a ∷ []) hist = hist
differences (a ∷ b ∷ sec) hist = differences (b ∷ sec) (count_in hist (wrapping_sub b a))

unfoldable pub dominant_step : List ℕ → ℕ
dominant_step sec = unwrap_or (last_max (differences sec empty_histogram)) 0

unfoldable pub candidates : (step i : ℕ) → List ℕ → List ℕ → List ℕ
candidates step i [] hist = hist
candidates step i (b ∷ sec) hist =
    candidates step (suc i) sec (count_in hist (wrapping_sub b (wrapping_mul (i % 256) step)))

unfoldable pub recover_base : (sec : List ℕ) (step : ℕ) → ℕ
recover_base sec step = unwrap_or (last_max (candidates step 0 sec empty_histogram)) 0

unfoldable pub hits_from : (base step i : ℕ) → List ℕ → ℕ
hits_from base step i [] = 0
hits_from base step i (b ∷ sec) =
    (if b == wrapping_add base (wrapping_mul (i % 256) step) then 1 else 0)
    + hits_from base step (suc i) sec

-- `sector_purity(sec, base, step) >= LEARN_PURITY`, where the least purity is 1: every byte is a hit.
unfoldable pub is_pure : (sec : List ℕ) (base step : ℕ) → Bool
is_pure sec base step = leb (length sec) (hits_from base step 0 sec)

-- The plaintext of the stored byte at an index.
abbrev pub plain_at : (base step i stored : ℕ) → ℕ
plain_at base step i stored = wrapping_sub (wrapping_sub stored base) (wrapping_mul (i % 256) step)

unfoldable pub plaintext_histogram : (base step i : ℕ) → List ℕ → List ℕ → List ℕ
plaintext_histogram base step i [] hist = hist
plaintext_histogram base step i (b ∷ sec) hist =
    plaintext_histogram base step (suc i) sec (count_in hist (plain_at base step i b))

-- `hist.iter().copied().max().unwrap_or(0)`
unfoldable pub maximum : List ℕ → ℕ
maximum [] = 0
maximum (v ∷ vs) = let rest = maximum vs in if ltb rest v then v else rest

unfoldable pub peak : (sec : List ℕ) (base step : ℕ) → ℕ
peak sec base step = maximum (plaintext_histogram base step 0 sec empty_histogram)

-- The variables of the loop over the steps.
pub record StepSearch : Type 0 where
  pub best_step : ℕ
  pub best_count : ℕ
  pub runner_up_count : ℕ
  pub best_peak_tied : Bool

unfoldable pub consider : (step peak : ℕ) → StepSearch → StepSearch
consider step peak s =
    if ltb s.best_count peak
    then record {
      best_step = step;
      best_count = peak;
      runner_up_count = s.best_count;
      best_peak_tied = false;
    }
    else record s {
      runner_up_count = if ltb s.runner_up_count peak then peak else s.runner_up_count;
      best_peak_tied = if peak == s.best_count then true else s.best_peak_tied;
    }

-- The loop over the steps, with the rounds left.
unfoldable pub search_steps : (sec : List ℕ) (base left step : ℕ) → StepSearch → StepSearch
search_steps sec base zero step s = s
search_steps sec base (suc left) step s =
    search_steps sec base left (suc step) (consider step (peak sec base step) s)

unfoldable pub count_zero_from : (base step i : ℕ) → List ℕ → ℕ
count_zero_from base step i [] = 0
count_zero_from base step i (b ∷ sec) =
    (if plain_at base step i b == 0 then 1 else 0) + count_zero_from base step (suc i) sec

-- A fraction is the pair of its parts.
pub record ApSectorRecoveryConfidence : Type 0 where
  pub sector_index : ℕ
  pub chosen_step : ℕ
  pub best_peak : ℕ
  pub runner_up_peak : ℕ
  pub best_peak_tied : Bool
  pub zero_plaintext_count : ℕ
  pub zero_plaintext_fraction : ℕ × ℕ
  pub plaintext_peak_fraction : ℕ × ℕ
  pub sector_byte_count : ℕ

unfoldable pub recover_step_confidence :
    (sec : List ℕ) (base sector_index : ℕ) → ApSectorRecoveryConfidence
recover_step_confidence sec base sector_index =
    let s =
      search_steps sec base 256 0
        (record { best_step = 0; best_count = 0; runner_up_count = 0; best_peak_tied = false }) in
    let zero_plaintext_count = count_zero_from base s.best_step 0 sec in
    record {
      sector_index = sector_index;
      chosen_step = s.best_step;
      best_peak = s.best_count;
      runner_up_peak = s.runner_up_count;
      best_peak_tied = s.best_peak_tied;
      zero_plaintext_count = zero_plaintext_count;
      zero_plaintext_fraction = (zero_plaintext_count, length sec);
      plaintext_peak_fraction = (s.best_count, length sec);
      sector_byte_count = length sec;
    }

-- The loop of `apply_stream`, on the bytes of the sector and of `out` from an index on.
unfoldable pub apply_stream_from : (base step i : ℕ) → List ℕ → List ℕ → List ℕ
apply_stream_from base step i [] out = out
apply_stream_from base step i (stored ∷ sec) [] = []
apply_stream_from base step i (stored ∷ sec) (o ∷ out) =
    plain_at base step i stored ∷ apply_stream_from base step (suc i) sec out

unfoldable pub apply_stream : (sec : List ℕ) (base step : ℕ) (out : List ℕ) → List ℕ
apply_stream sec base step out = apply_stream_from base step 0 sec out

-- The bounds of the part of a sector in front of the trailer.
abbrev pub sector_start : ℕ → ℕ
sector_start si = si * sector_size

abbrev pub data_end : ℕ → ℕ
data_end si = if si + 1 == sectors_per_page then trailer_start else sector_start si + sector_size

pub record ApPageRecoveryConfidence : Type 0 where
  pub page_number : ℕ
  pub bv : ℕ
  pub sectors : List ApSectorRecoveryConfidence
  pub tied_sector_count : ℕ

unfoldable pub count_tied : List ApSectorRecoveryConfidence → ℕ
count_tied [] = 0
count_tied (s ∷ ss) = (if s.best_peak_tied then 1 else 0) + count_tied ss

-- `apply_stream` on the part of `out` between two bounds.
unfoldable pub write_part : (sec : List ℕ) (base step start end : ℕ) (out : List ℕ) → List ℕ
write_part sec base step start end out =
    take start out
    ++ (apply_stream sec base step (take (end - start) (drop start out)) ++ drop end out)

-- The loop over the sectors, with the rounds left: the output, and the evidence of each sector.
unfoldable pub recover_sectors :
    {E : Type 0} (raw : List ℕ) (pn bv left si : ℕ) (out : List ℕ)
    → Outcome E (List ℕ × List ApSectorRecoveryConfidence)
recover_sectors raw pn bv zero si out = ok (out, [])
recover_sectors raw pn bv (suc left) si out = do
  sec ← slice raw (sector_start si) (data_end si)
  let base = ap_base pn si bv
  let evidence = recover_step_confidence sec base si
  let written = write_part sec base evidence.chosen_step (sector_start si) (data_end si) out
  (final, more) ← recover_sectors raw pn bv left (suc si) written
  ok (final, evidence ∷ more)

-- A method of `ApModel` that does not read the model.
unfoldable pub deobfuscate_with_bv_and_confidence :
    {E : Type 0} (raw : List ℕ) (pn bv : ℕ) → Outcome E (List ℕ × ApPageRecoveryConfidence)
deobfuscate_with_bv_and_confidence raw pn bv = do
  assert (leb 4096 (length raw))
  (out, sectors) ← recover_sectors raw pn bv sectors_per_page 0 (replicate 4096 0)
  trailer ← slice raw trailer_start 4096
  ok (
    take trailer_start out ++ trailer,
    record { page_number = pn; bv = bv; sectors = sectors; tied_sector_count = count_tied sectors },
  )

unfoldable pub deobfuscate_with_bv : {E : Type 0} (raw : List ℕ) (pn bv : ℕ) → Outcome E (List ℕ)
deobfuscate_with_bv raw pn bv = do
  (out, evidence) ← deobfuscate_with_bv_and_confidence raw pn bv
  ok out

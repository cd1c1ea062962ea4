-- ===== src/Examples/Scrambling.antt =====
-- Descrambling and permuting at concrete inputs.
use opensqlanywhere.Base.{
  ℕ, zero, suc, ◌+◌, ◌-◌, ◌≤◌, ◌<◌, ◌≡◌, ◌⊎◌, refl, List, [], ◌∷◌, arith, length, replicate, true,
  false, some, ok, err, panic,
}
use opensqlanywhere.Base.Bytes.{IsBytes}
use opensqlanywhere.Base.Int.{pos}
use opensqlanywhere.Ap.{
  ap_base, apply_stream, recover_step_confidence, deobfuscate_with_bv_and_confidence,
  ApPageRecoveryConfidence,
}
use opensqlanywhere.Ap.Streams.{fill, apply_stream_inverts}
use opensqlanywhere.Ap.Steps.{IsChoice, recover_step_confidence-IsChoice}
use opensqlanywhere.Ap.Pages.{obfuscate, IsRecovery, deobfuscate_with_bv_and_confidence_cases}
use opensqlanywhere.Ap.Models.{HashOrder, learn_bv_for_page}
use opensqlanywhere.Ap.Models.Learning.{IsBlank, learn_bv_for_page-blank}
use opensqlanywhere.PagePermutation.{
  is_power_of_two, permute_power_of_two_in_place, non_power_of_two_length, invalid_active_range,
}
use opensqlanywhere.PagePermutation.Total.{
  IsPermuted, KeyShifts, permute_power_of_two_in_place_cases,
}
use mathlib.Core.List.Perm

apply_stream_inverts_example :
    (apply_stream (fill 5 3 (200 ∷ 0 ∷ 255 ∷ [])) 5 3 (0 ∷ 0 ∷ 0 ∷ []) ≡ 200 ∷ 0 ∷ 255 ∷ [])
    × (fill 5 3 (apply_stream (200 ∷ 0 ∷ 255 ∷ []) 5 3 (0 ∷ 0 ∷ 0 ∷ [])) ≡ 200 ∷ 0 ∷ 255 ∷ [])
apply_stream_inverts_example =
    apply_stream_inverts 5 3 (200 ∷ 0 ∷ 255 ∷ []) (0 ∷ 0 ∷ 0 ∷ []) (omega arith) (omega arith) refl

recover_step_confidence-IsChoice_example :
    IsChoice (5 ∷ 8 ∷ 11 ∷ 200 ∷ []) 5 (recover_step_confidence (5 ∷ 8 ∷ 11 ∷ 200 ∷ []) 5 2)
recover_step_confidence-IsChoice_example =
    recover_step_confidence-IsChoice 5 (8 ∷ 11 ∷ 200 ∷ []) 5 2

-- A page of one byte.
replicate-IsBytes : (n v : ℕ) → v < 256 → IsBytes (replicate n v)
replicate-IsBytes zero v h = tt
replicate-IsBytes (suc n) v h = (h, replicate-IsBytes n v h)

abbrev sevens : List ℕ
sevens = replicate 4096 7

deobfuscate_with_bv_and_confidence_cases_example :
    ((length sevens < 4096) × (deobfuscate_with_bv_and_confidence {E = ℕ} sevens 17 3 ≡ panic))
    ⊎ ((4096 ≤ length sevens)
        × ((out : List ℕ) × (c : ApPageRecoveryConfidence) × (deobfuscate_with_bv_and_confidence
                {E = ℕ} sevens 17 3
              ≡ ok (out, c))
            × IsRecovery sevens 17 3 out c))
deobfuscate_with_bv_and_confidence_cases_example =
    deobfuscate_with_bv_and_confidence_cases ℕ sevens 17 3 (replicate-IsBytes 4096 7 (omega arith))

-- The iteration in the order of insertion.
abbrev in_order : HashOrder
in_order = record { of_votes = λ es. es; of_blocks = λ es. es; of_learned = λ es. es }

-- A page of zeros, stored as page 5 with the calibration byte 7 and the step 3 in every sector.
abbrev blank_page : List ℕ
blank_page = obfuscate 5 7 (3 ∷ 3 ∷ 3 ∷ 3 ∷ 3 ∷ 3 ∷ 3 ∷ 3 ∷ []) (replicate 4096 0)

sectors-IsBlank : (si : ℕ) → si < 8 → IsBlank blank_page 5 7 3 si
unfolding ap_base
sectors-IsBlank zero h = refl
sectors-IsBlank (suc zero) h = refl
sectors-IsBlank (suc (suc zero)) h = refl
sectors-IsBlank (suc (suc (suc zero))) h = refl
sectors-IsBlank (suc (suc (suc (suc zero)))) h = refl
sectors-IsBlank (suc (suc (suc (suc (suc zero))))) h = refl
sectors-IsBlank (suc (suc (suc (suc (suc (suc zero)))))) h = refl
sectors-IsBlank (suc (suc (suc (suc (suc (suc (suc zero))))))) h = refl
sectors-IsBlank (suc (suc (suc (suc (suc (suc (suc (suc n)))))))) h = absurd (omega arith)

blank_page-size : 4096 ≤ length blank_page
unfolding ap_base
blank_page-size = omega arith

learn_bv_for_page-blank_example : learn_bv_for_page {E = ℕ} in_order blank_page 5 0x40 ≡ ok (some 7)
learn_bv_for_page-blank_example =
    learn_bv_for_page-blank ℕ in_order blank_page 5 7 0x40 (λ si. 3) (λ es. Perm.refl es) refl
      blank_page-size (omega arith) (λ si h. omega arith) sectors-IsBlank

abbrev eight_bytes : List ℕ
eight_bytes = 0 ∷ 1 ∷ 2 ∷ 3 ∷ 4 ∷ 5 ∷ 6 ∷ 7 ∷ []

permute_power_of_two_in_place_cases_example :
    ((is_power_of_two (length eight_bytes) ≡ false)
      × (permute_power_of_two_in_place eight_bytes 1 2 (pos 0x10203)
          ≡ err (non_power_of_two_length (length eight_bytes))))
    ⊎ (((is_power_of_two (length eight_bytes) ≡ true)
          × (length eight_bytes ≤ 1 + 2)
          × (permute_power_of_two_in_place eight_bytes 1 2 (pos 0x10203)
              ≡ err (invalid_active_range (length eight_bytes) 1 2)))
        ⊎ ((is_power_of_two (length eight_bytes) ≡ true)
            × (1 + 2 < length eight_bytes)
            × ((out : List ℕ) × (permute_power_of_two_in_place eight_bytes 1 2 (pos 0x10203)
                  ≡ ok (some out))
                × IsPermuted 1 (length eight_bytes - 1 - 2) eight_bytes out
                × KeyShifts eight_bytes out 1 2 (pos 0x10203))))
permute_power_of_two_in_place_cases_example =
    permute_power_of_two_in_place_cases eight_bytes 1 2 (pos 0x10203)

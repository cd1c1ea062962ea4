-- ===== src/PagePermutation.antt =====
-- crates/opensqlany/src/page_permutation.rs: the permutation of the active range of a buffer.
-- A `usize` has 64 bits.
pub mod Cycle
pub mod Total
use opensqlanywhere.Base.{
  ℕ, zero, suc, ◌+◌, ◌-◌, ◌*◌, ◌/◌, ◌%◌, ◌^◌, List, [], ◌∷◌, Bool, true, false, not, ◌&&◌, ◌||◌,
  ◌==◌, ltb, leb, if◌then◌else◌, bit_or,
}
use opensqlanywhere.Base.{
  length, set, get_or, Option, none, some, Outcome, ok, err, panic, ◌>>=◌, ◌>>◌, guard, read, store,
}
use opensqlanywhere.Base.Bytes.{wrapping_add, wrapping_sub, wrapping_mul}
use opensqlanywhere.Base.Int.{ℤ, pos, negsuc, from_word, to_word}

abbrev pub page_permutation_sector_len : ℕ
page_permutation_sector_len = 512

pub data PagePermutationError : Type 0 where
  non_power_of_two_length : (len : ℕ) → PagePermutationError
  invalid_sector_length : (len : ℕ) → PagePermutationError
  invalid_active_range : (len start tail : ℕ) → PagePermutationError
  no_active_cycle : (len start tail : ℕ) → PagePermutationError

-- `is_power_of_two`: one of the powers from an exponent on, with the exponents left.
unfoldable pub is_power_from : (left exponent n : ℕ) → Bool
is_power_from zero exponent n = false
is_power_from (suc left) exponent n = n == 2 ^ exponent || is_power_from left (suc exponent) n

unfoldable pub is_power_of_two : ℕ → Bool
is_power_of_two n = is_power_from 64 0 n

unfoldable pub validate_bounds : (len start tail : ℕ) → Outcome PagePermutationError (Unit {0})
validate_bounds len start tail = do
  guard (not (len == 0 || not (is_power_of_two len))) (non_power_of_two_length len)
  guard (ltb (start + tail) (2 ^ 64)) (invalid_active_range len start tail)
  guard (not (leb len start || leb len tail || leb len (start + tail)))
      (invalid_active_range len start tail)

unfoldable pub negative_seed : (len start tail increment low8 : ℕ) → ℕ
negative_seed len start tail increment low8 =
    let boundary = start + tail in
    let factor =
      if ltb len 256
      then wrapping_add (wrapping_add (boundary % 256) 1) (len % 256)
      else (boundary + 1) % 256 in
    wrapping_sub (wrapping_mul increment factor) low8

-- `current.wrapping_add_signed(isize::from(stride)) & mask`, where the mask is that of the length,
-- which is a power of two.
unfoldable pub advance : (current : ℕ) (stride : ℤ) (len : ℕ) → ℕ
advance current stride len = (current + to_word (2 ^ 64) stride) % 2 ^ 64 % len

-- `(start..=end).contains(&candidate)`
abbrev pub is_active : (start end candidate : ℕ) → Bool
is_active start end candidate = leb start candidate && leb candidate end

-- The loop of `next_in_active_range`, with the rounds left.
unfoldable pub next_from :
    (left candidate : ℕ) (stride : ℤ) (len start end : ℕ) → Outcome PagePermutationError ℕ
next_from zero candidate stride len start end = err (no_active_cycle len start (len - 1 - end))
next_from (suc left) candidate stride len start end =
    let rest = next_from left (advance candidate stride len) stride len start end in
    if is_active start end candidate then ok candidate else rest

unfoldable pub next_in_active_range :
    (current : ℕ) (stride : ℤ) (len start end : ℕ) → Outcome PagePermutationError ℕ
next_in_active_range current stride len start end =
    next_from len (advance current stride len) stride len start end

-- The loop of `permute_power_of_two_in_place`, with fuel for its rounds; `none` is the end of the fuel.
unfoldable pub permute_loop :
    (fuel : ℕ) (bytes : List ℕ) (current seed increment first : ℕ) (stride : ℤ) (len start end : ℕ)
    → Outcome PagePermutationError (Option (List ℕ))
permute_loop zero bytes current seed increment first stride len start end = ok none
permute_loop (suc fuel) bytes current seed increment first stride len start end = do
  next ← next_in_active_range current stride len start end
  let last = (do written ← store bytes current (wrapping_add first seed); ok (some written))
  let further = (do
    byte ← read bytes next
    written ← store bytes current (wrapping_add byte seed)
    permute_loop fuel written next (wrapping_add seed increment) increment first stride len start
        end)
  if next == start then last else further

-- `signed_key.unsigned_abs()` and `signed_key < 0`
abbrev pub unsigned_abs : ℤ → ℕ
unsigned_abs (pos n) = n
unsigned_abs (negsuc n) = suc n

abbrev pub is_negative : ℤ → Bool
is_negative (pos n) = false
is_negative (negsuc n) = true

-- `raw_stride as i16`, and its `wrapping_neg` for a negative key.
unfoldable pub stride_of : (negative : Bool) (raw_stride : ℕ) → ℤ
stride_of negative raw_stride =
    from_word (2 ^ 16) (if negative then (2 ^ 16 - raw_stride) % 2 ^ 16 else raw_stride)

unfoldable pub permute_power_of_two_in_place :
    List ℕ → (start tail : ℕ) (signed_key : ℤ) → Outcome PagePermutationError (Option (List ℕ))
permute_power_of_two_in_place bytes start tail signed_key = do
  let len = length bytes
  validate_bounds len start tail
  let magnitude = unsigned_abs signed_key
  let negative = is_negative signed_key
  let low8 = magnitude % 256
  let increment = bit_or (magnitude / 256 % 256) 1
  let raw_stride = bit_or ((magnitude / 65536 % 65536 + low8) % 65536) 1
  let stride = stride_of negative raw_stride
  let seed = if negative then negative_seed len start tail increment low8 else low8
  let permuted = (do
    first ← read bytes start
    permute_loop len bytes start seed increment first stride len start (len - 1 - tail))
  if magnitude == 0 then ok (some bytes) else permuted

unfoldable pub permute_sector_in_place :
    List ℕ → (start tail : ℕ) (signed_key : ℤ) → Outcome PagePermutationError (Option (List ℕ))
permute_sector_in_place sector start tail signed_key = do
  guard (length sector == page_permutation_sector_len) (invalid_sector_length (length sector))
  permute_power_of_two_in_place sector start tail signed_key

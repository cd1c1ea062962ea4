-- ===== src/Base/Int.antt =====
-- Signed integers over the native numbers, and the two's complement reading of a word.
use Prim.Native.Nat.{ℕ, ◌+◌, ◌-◌, ◌*◌, ◌≤◌, ◌<◌}
use mathlib.Core.Path.{◌≡◌}
use native.Mathlib.Omega.{arith}
use opensqlanywhere.Base.Tests.{ltb, leb, if◌then◌else◌}

-- `negsuc n` stands for -(n + 1).
pub data ℤ : Type 0 where
  pos negsuc : ℕ → ℤ

-- The difference of two numbers.
abbrev pub minus : ℕ → ℕ → ℤ
minus a b = if leb b a then pos (a - b) else negsuc (b - a - 1)

-- A word below `modulus` as a two's complement number.
abbrev pub from_word : (modulus word : ℕ) → ℤ
from_word modulus word = if ltb (2 * word) modulus then pos word else negsuc (modulus - word - 1)

abbrev pub to_word : (modulus : ℕ) → ℤ → ℕ
to_word modulus (pos n) = n
to_word modulus (negsuc n) = modulus - n - 1

-- The integers that a word can hold.
abbrev pub InWord : (modulus : ℕ) → ℤ → Type 0
InWord modulus (pos n) = 2 * n < modulus
InWord modulus (negsuc n) = 2 * n + 2 ≤ modulus

pub from_word-to_word : (m : ℕ) (z : ℤ) → InWord m z → from_word m (to_word m z) ≡ z
from_word-to_word m (pos n) h = ground arith
from_word-to_word m (negsuc n) h = ground arith

pub to_word-lt : (m : ℕ) (z : ℤ) → InWord m z → to_word m z < m
to_word-lt m (pos n) h = omega arith
to_word-lt m (negsuc n) h = omega arith

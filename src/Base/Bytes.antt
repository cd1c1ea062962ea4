-- ===== src/Base/Bytes.antt =====
-- Bytes and little- and big-endian words as native numbers.
use opensqlanywhere.Base.Lists.{All, get_or, All-get_or}
use Prim.Native.Nat.{ℕ, ◌+◌, ◌-◌, ◌*◌, ◌/◌, ◌%◌, ◌^◌, ◌<◌}
use mathlib.Core.Path.{◌≡◌}
use mathlib.Core.List.{List, [], ◌∷◌}
use Prim.Native.Char.{code}
use Prim.Native.String.{String}
use native.Mathlib.Omega.{arith}

abbrev pub IsByte : ℕ → Type 0
IsByte b = b < 256

abbrev pub IsBytes : List ℕ → Type 0
IsBytes xs = All IsByte xs

abbrev pub byte_at : List ℕ → ℕ → ℕ
byte_at xs i = get_or xs i 0

-- `x as u8`
abbrev pub u8 : ℕ → ℕ
u8 x = x % 256

-- `a.wrapping_add(b)`, `a.wrapping_sub(b)` and `a.wrapping_mul(b)` on bytes.
abbrev pub wrapping_add : ℕ → ℕ → ℕ
wrapping_add a b = (a + b) % 256

abbrev pub wrapping_sub : ℕ → ℕ → ℕ
wrapping_sub a b = (a + 256 - b) % 256

abbrev pub wrapping_mul : ℕ → ℕ → ℕ
wrapping_mul a b = (a * b) % 256

-- `u16::from_le_bytes`, `u16::from_be_bytes` and `u32::from_le_bytes`.
abbrev pub from_le_u16 : ℕ → ℕ → ℕ
from_le_u16 a b = a + b * 256

abbrev pub from_be_u16 : ℕ → ℕ → ℕ
from_be_u16 a b = a * 256 + b

abbrev pub from_le_u32 : ℕ → ℕ → ℕ → ℕ → ℕ
from_le_u32 a b c d = a + b * 256 + c * 65536 + d * 16777216

abbrev pub to_le_u16 : ℕ → List ℕ
to_le_u16 v = v % 256 ∷ v / 256 % 256 ∷ []

abbrev pub to_le_u32 : ℕ → List ℕ
to_le_u32 v = v % 256 ∷ v / 256 % 256 ∷ v / 65536 % 256 ∷ v / 16777216 % 256 ∷ []

pub byte_at-lt : (xs : List ℕ) (i : ℕ) → IsBytes xs → byte_at xs i < 256
byte_at-lt xs i h = All-get_or IsByte xs i 0 h (omega arith)

-- The four bytes of a word are determined by the word.
pub from_le_u32_iff :
    (a b c d v : ℕ)
    → a < 256
    → b < 256
    → c < 256
    → d < 256
    → v < 2 ^ 32
    → from_le_u32 a b c d ≡ v
    → (a ≡ v % 256) × (b ≡ v / 256 % 256) × (c ≡ v / 65536 % 256) × (d ≡ v / 16777216 % 256)
from_le_u32_iff a b c d v ha hb hc hd hv e = omega arith

-- The code points of a text: its bytes, if it is ASCII.
abbrev pub bytes_of : String → List ℕ
bytes_of String.[] = []
bytes_of (String.◌∷◌ c s) = code c ∷ bytes_of s

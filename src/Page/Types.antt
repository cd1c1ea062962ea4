-- ===== src/Page/Types.antt =====
-- `PageType` of crates/opensqlany/src/page.rs.
use opensqlanywhere.Base.{ℕ, ◌-◌, ◌≡◌, ◌≢◌, ◌↔◌, ◌⊎◌, ◌&&◌, ◌==◌, leb, if◌then◌else◌, arith}
use Prim.Native.String.{String}

pub data PageType : Type 0 where
  extent alloc map header catalog bootstrap index unknown_g : PageType
  other : ℕ → PageType

-- `u8::to_ascii_uppercase`
pub to_ascii_uppercase : ℕ → ℕ
to_ascii_uppercase b = if leb b'a' b && leb b b'z' then b - 32 else b

classify : ℕ → ℕ → PageType
classify u b =
    if u == b'E'
    then extent
    else if u == b'A'
    then alloc
    else if u == b'M'
    then map
    else if u == b'H'
    then header
    else if u == b'C'
    then catalog
    else if u == b'@'
    then bootstrap
    else if u == b'I'
    then index
    else if u == b'G'
    then unknown_g
    else other b

unfoldable pub from_byte : ℕ → PageType
unfolding classify to_ascii_uppercase
from_byte b = classify (to_ascii_uppercase b) b

unfoldable pub name : PageType → String
name extent = "extent"
name alloc = "alloc"
name map = "map"
name header = "header"
name catalog = "catalog"
name bootstrap = "bootstrap"
name index = "index"
name unknown_g = "unknown_G"
name (other b) = "other"

unfoldable pub as_byte : PageType → ℕ
as_byte extent = b'E'
as_byte alloc = b'A'
as_byte map = b'M'
as_byte header = b'H'
as_byte catalog = b'C'
as_byte bootstrap = b'@'
as_byte index = b'I'
as_byte unknown_g = b'G'
as_byte (other b) = b

-- The bytes that stand for no letter of the table.
abbrev pub IsUnlisted : ℕ → Type 0
IsUnlisted b =
    (b ≢ b'E')
    × (b ≢ b'e')
    × (b ≢ b'A')
    × (b ≢ b'a')
    × (b ≢ b'M')
    × (b ≢ b'm')
    × (b ≢ b'H')
    × (b ≢ b'h')
    × (b ≢ b'C')
    × (b ≢ b'c')
    × (b ≢ b'@')
    × (b ≢ b'I')
    × (b ≢ b'i')
    × (b ≢ b'G')
    × (b ≢ b'g')

-- The table of page types: a letter of either case, `@`, or a byte that is not listed.
abbrev pub Denotes : PageType → ℕ → Type 0
Denotes extent b = (b ≡ b'E') ⊎ (b ≡ b'e')
Denotes alloc b = (b ≡ b'A') ⊎ (b ≡ b'a')
Denotes map b = (b ≡ b'M') ⊎ (b ≡ b'm')
Denotes header b = (b ≡ b'H') ⊎ (b ≡ b'h')
Denotes catalog b = (b ≡ b'C') ⊎ (b ≡ b'c')
Denotes bootstrap b = b ≡ b'@'
Denotes index b = (b ≡ b'I') ⊎ (b ≡ b'i')
Denotes unknown_g b = (b ≡ b'G') ⊎ (b ≡ b'g')
Denotes (other c) b = (b ≡ c) × IsUnlisted b

from_byte_denoted : (b : ℕ) (t : PageType) → Denotes t b → from_byte b ≡ t
unfolding from_byte
from_byte_denoted b extent h = ground (arith, h)
from_byte_denoted b alloc h = ground (arith, h)
from_byte_denoted b map h = ground (arith, h)
from_byte_denoted b header h = ground (arith, h)
from_byte_denoted b catalog h = ground (arith, h)
from_byte_denoted b bootstrap h = ground (arith, h)
from_byte_denoted b index h = ground (arith, h)
from_byte_denoted b unknown_g h = ground (arith, h)
from_byte_denoted b (other c) h = ground (arith, h)

from_byte-Denotes : (b : ℕ) (t : PageType) → from_byte b ≡ t → Denotes t b
unfolding from_byte
from_byte-Denotes b extent h = ground (arith, h)
from_byte-Denotes b alloc h = ground (arith, h)
from_byte-Denotes b map h = ground (arith, h)
from_byte-Denotes b header h = ground (arith, h)
from_byte-Denotes b catalog h = ground (arith, h)
from_byte-Denotes b bootstrap h = ground (arith, h)
from_byte-Denotes b index h = ground (arith, h)
from_byte-Denotes b unknown_g h = ground (arith, h)
from_byte-Denotes b (other c) h = ground (arith, h)

-- A byte has exactly the type that the table lists for it: each of the seven letters in either case,
-- `@`, and for every other byte the unknown type that keeps the byte. The canonical byte of a byte's
-- type has the same type again; it is the byte or its upper-case form; and a byte is either unknown,
-- when its type keeps the byte, or has the type of its upper-case form.
pub from_byte-as_byte :
    (b : ℕ)
    → ((t : PageType) → (from_byte b ≡ t) ↔ Denotes t b)
      × (from_byte (as_byte (from_byte b)) ≡ from_byte b)
      × ((as_byte (from_byte b) ≡ b) ⊎ (as_byte (from_byte b) ≡ to_ascii_uppercase b))
      × ((from_byte b ≡ other b) ⊎ (from_byte (to_ascii_uppercase b) ≡ from_byte b))
unfolding from_byte as_byte
from_byte-as_byte b =
    (λ t. (from_byte-Denotes b t, from_byte_denoted b t), ground arith, ground arith, ground arith)

-- ===== src/Superblock/Flags.antt =====
-- The variant bits of `flags_06`.
use opensqlanywhere.Base.{ℕ, ◌+◌, ◌≡◌, ◌<◌, ◌&&◌, ◌==◌, true, refl, arith, bit_and, ◌-◌, Bool}
use opensqlanywhere.Base.Tables.{passes_below, passes_below-true}
use opensqlanywhere.Superblock.{Superblock, flags_06_base, flags_06_variant_bits}

splits : ℕ → Bool
splits f =
    bit_and f (255 - flags_06_base) + bit_and f flags_06_base == f
    && bit_and (bit_and f (255 - flags_06_base)) flags_06_base == 0

splits_table : passes_below splits 256 ≡ true
unfolding passes_below splits
splits_table = refl

-- The variant bits of a flag byte share no bit with the base value, and together with the byte's
-- base bits they are the byte; so a byte that has every base bit is the base plus its variant bits.
pub flags_06_variant_bits_lem :
    (sb : Superblock)
    → sb.flags_06 < 256
    → (bit_and (flags_06_variant_bits sb) flags_06_base ≡ 0)
      × (flags_06_variant_bits sb + bit_and sb.flags_06 flags_06_base ≡ sb.flags_06)
unfolding flags_06_variant_bits splits
flags_06_variant_bits_lem sb h =
    let row : splits sb.flags_06 ≡ true = passes_below-true splits 256 sb.flags_06 h splits_table in
    (ground arith, ground arith)

-- ===== src/Superblock.antt =====
-- crates/opensqlany/src/superblock.rs: the fields of page 0.
pub mod Search
pub mod Fields
pub mod Flags
use opensqlanywhere.Base.{ℕ, zero, suc, ◌-◌, List, [], ◌∷◌, Bool, true, false, ◌||◌, ◌==◌, ltb, leb}
use opensqlanywhere.Base.{length, take, list_eq, if◌then◌else◌, Option, none, some, bit_and}
use opensqlanywhere.Base.{Outcome, ok, ◌>>=◌, ◌>>◌, assert, read}
use opensqlanywhere.Base.Bytes.{bytes_of}
use opensqlanywhere.Base.Words.{slice_u16, slice_u32}
use opensqlanywhere.Page.{page_size}

abbrev pub sa_magic : ℕ
sa_magic = 0xDA7A_BA5E

abbrev pub sa_copyright_marker : List ℕ
sa_copyright_marker = bytes_of "SAP SE, Copyright (c)2015 17.0.4."

abbrev pub flags_06_base : ℕ
flags_06_base = 0x09

pub record Superblock : Type 0 where
  pub flags_06 : ℕ
  pub current_lsn : ℕ
  pub format_major : ℕ
  pub magic : ℕ
  pub version_a : ℕ
  pub version_b : ℕ
  pub page_count_hint : ℕ
  pub sa_marker_present : Bool

-- `windows(needle.len()).position(|w| w == needle)` on what is left of the haystack, for a needle
-- that is not empty; `i` windows have been passed.
unfoldable pub position : List ℕ → List ℕ → ℕ → Option ℕ
position needle [] i = none
position needle (x ∷ xs) i =
    let rest = position needle xs (suc i) in
    if ltb (length (x ∷ xs)) (length needle)
    then none
    else if list_eq (take (length needle) (x ∷ xs)) needle
    then some i
    else rest

unfoldable pub memmem : List ℕ → List ℕ → Option ℕ
memmem haystack needle =
    if length needle == 0 || ltb (length haystack) (length needle)
    then none
    else position needle haystack 0

unfoldable pub is_some {ℓ} : {A : Type ℓ} → Option A → Bool
is_some none = false
is_some (some a) = true

unfoldable pub parse : {E : Type 0} → List ℕ → Outcome E Superblock
parse page0 = do
  assert (length page0 == page_size)
  flags_06 ← read page0 0x06
  current_lsn ← slice_u32 page0 0x08 0x0C
  format_major ← slice_u32 page0 0x10 0x14
  magic ← slice_u32 page0 0x14 0x18
  version_a ← slice_u16 page0 0x18 0x1A
  version_b ← slice_u16 page0 0x1A 0x1C
  page_count_hint ← slice_u32 page0 0x1C 0x20
  ok (record {
    flags_06 = flags_06;
    current_lsn = current_lsn;
    format_major = format_major;
    magic = magic;
    version_a = version_a;
    version_b = version_b;
    page_count_hint = page_count_hint;
    sa_marker_present = is_some (memmem page0 sa_copyright_marker);
  })

unfoldable pub magic_ok : Superblock → Bool
magic_ok sb = sb.magic == sa_magic

-- `!FLAGS_06_BASE` is 255 less the base.
unfoldable pub flags_06_variant_bits : Superblock → ℕ
flags_06_variant_bits sb = bit_and sb.flags_06 (255 - flags_06_base)

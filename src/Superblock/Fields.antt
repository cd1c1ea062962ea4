-- ===== src/Superblock/Fields.antt =====
-- What `Superblock::parse` reads from page 0.
use opensqlanywhere.Base.{ℕ, ◌<◌, ◌≡◌, ◌↔◌, List, true, arith, length, ok}
use opensqlanywhere.Base.{Option, none, some, refl}
use opensqlanywhere.Base.{read-ok}
use opensqlanywhere.Base.Bytes.{from_le_u16, from_le_u32, byte_at, byte_at-lt, IsBytes}
use opensqlanywhere.Base.Words.{slice_u16-ok, slice_u32-ok}
use opensqlanywhere.Page.{page_size}
use opensqlanywhere.Superblock.{Superblock, parse, is_some, memmem, sa_copyright_marker, magic_ok}
use opensqlanywhere.Superblock.Search.{OccursAt, IsFirst, memmem-IsFirst}

abbrev pub fields_of : List ℕ → Superblock
fields_of bs = record {
  flags_06 = byte_at bs 0x06;
  current_lsn = from_le_u32 (byte_at bs 0x08) (byte_at bs 0x09) (byte_at bs 0x0A) (byte_at bs 0x0B);
  format_major =
      from_le_u32 (byte_at bs 0x10) (byte_at bs 0x11) (byte_at bs 0x12) (byte_at bs 0x13);
  magic = from_le_u32 (byte_at bs 0x14) (byte_at bs 0x15) (byte_at bs 0x16) (byte_at bs 0x17);
  version_a = from_le_u16 (byte_at bs 0x18) (byte_at bs 0x19);
  version_b = from_le_u16 (byte_at bs 0x1A) (byte_at bs 0x1B);
  page_count_hint =
      from_le_u32 (byte_at bs 0x1C) (byte_at bs 0x1D) (byte_at bs 0x1E) (byte_at bs 0x1F);
  sa_marker_present = is_some (memmem bs sa_copyright_marker);
}

pub parse-ok :
    {E : Type 0} (bs : List ℕ) → length bs ≡ page_size → parse {E = E} bs ≡ ok (fields_of bs)
unfolding parse
parse-ok {E} bs full = rw (
  full,
  read-ok bs 0x06 (omega arith),
  slice_u32-ok bs 0x08 0x0C (omega arith) (omega arith),
  slice_u32-ok bs 0x10 0x14 (omega arith) (omega arith),
  slice_u32-ok bs 0x14 0x18 (omega arith) (omega arith),
  slice_u16-ok bs 0x18 0x1A (omega arith) (omega arith),
  slice_u16-ok bs 0x1A 0x1C (omega arith) (omega arith),
  slice_u32-ok bs 0x1C 0x20 (omega arith) (omega arith),
)

marker_iff :
    (needle bs : List ℕ)
    → 0 < length needle
    → (is_some (memmem bs needle) ≡ true) ↔ ((i : ℕ) × (i < length bs) × OccursAt needle bs i)
marker_iff needle bs pos = go (memmem bs needle) (memmem-IsFirst needle bs pos)
  where
    go :
        (o : Option ℕ)
        → IsFirst needle bs o
        → (is_some o ≡ true) ↔ ((i : ℕ) × (i < length bs) × OccursAt needle bs i)
    go none f = (λ e. unfold is_some in cc e, λ (i, lt, o). absurd (f i lt o))
    go (some i) f = (λ e. (i, omega arith, f.1), λ h. unfold is_some in refl)

-- On a page of 4096 bytes `Superblock::parse` does not panic. The magic number is accepted exactly
-- if the bytes from 0x14 are 5E BA 7A DA, and the marker flag is set exactly if the copyright text
-- stands somewhere in the page.
pub parse_checks :
    {E : Type 0} (bs : List ℕ)
    → length bs ≡ page_size
    → IsBytes bs
    → (sb : Superblock) × (parse {E = E} bs ≡ ok sb)
      × ((magic_ok sb ≡ true) ↔ (
          (byte_at bs 0x14 ≡ 0x5E)
          × (byte_at bs 0x15 ≡ 0xBA)
          × (byte_at bs 0x16 ≡ 0x7A)
          × (byte_at bs 0x17 ≡ 0xDA)))
      × ((sb.sa_marker_present ≡ true)
          ↔ ((i : ℕ) × (i < length bs) × OccursAt sa_copyright_marker bs i))
unfolding magic_ok
parse_checks bs full bytes = (
  fields_of bs,
  parse-ok bs full,
  ground (
    arith,
    byte_at-lt bs 0x14 bytes,
    byte_at-lt bs 0x15 bytes,
    byte_at-lt bs 0x16 bytes,
    byte_at-lt bs 0x17 bytes,
  ),
  marker_iff sa_copyright_marker bs (omega arith),
)

-- ===== src/Examples/Pages.antt =====
-- Pages, the superblock and page links at concrete inputs.
use opensqlanywhere.Base.{
  ℕ, zero, suc, ◌+◌, ◌<◌, ◌≤◌, ◌≡◌, ◌≢◌, ◌⊎◌, ◌↔◌, refl, List, [], ◌∷◌, ◌++◌, arith, length,
  replicate, length-replicate, true, Option, some, ok, err,
}
use opensqlanywhere.Base.Bytes.{byte_at, from_le_u32, to_le_u32, IsBytes}
use opensqlanywhere.Error.{bad_crc}
use opensqlanywhere.Page.{Page, verify_trailer, verify_crc}
use opensqlanywhere.Error.{bad_trailer}
use opensqlanywhere.Page.Types.{
  PageType, Denotes, from_byte, as_byte, other, to_ascii_uppercase, from_byte-as_byte,
}
use opensqlanywhere.Page.Checks.{IsClear, footed, verify_trailer_iff, verify_crc_cases}
use opensqlanywhere.Superblock.{Superblock, parse, magic_ok, memmem, sa_copyright_marker}
use opensqlanywhere.Superblock.Search.{OccursAt, IsFirst, memmem-IsFirst}
use opensqlanywhere.Superblock.Fields.{parse_checks}
use opensqlanywhere.PageLinks.{
  PageLinkMetadata, PageLinkWalk, absent, in_range, invalid, decode_target, find_page_link_metadata,
  walk_page_links,
}
use opensqlanywhere.PageLinks.Search.{
  IsFirstBlock, decode_target_iff, find_page_link_metadata_first,
}
use opensqlanywhere.PageLinks.Trails.{Trail, IsDistinct, walk_page_links-Trail}

abbrev zero_page : Page
zero_page = record { index = 0; bytes = replicate 4096 0 }

verify_trailer_iff_example :
    ((verify_trailer zero_page ≡ ok tt) ↔ IsClear zero_page.bytes)
    × ((verify_trailer zero_page ≡ err (bad_trailer 0)) ↔ (IsClear zero_page.bytes → ⊥))
    × ((verify_trailer zero_page ≡ ok tt) ⊎ (verify_trailer zero_page ≡ err (bad_trailer 0)))
verify_trailer_iff_example = verify_trailer_iff zero_page (length-replicate {A = ℕ} 4096 0)

-- A checksum that adds the bytes up, for a body of zeros.
abbrev sum_of : List ℕ → ℕ
sum_of [] = 0
sum_of (x ∷ xs) = x + sum_of xs

sum_of-replicate : (n : ℕ) → sum_of (replicate n 0) ≡ 0
sum_of-replicate zero = refl
sum_of-replicate (suc n) = omega (arith, sum_of-replicate n)

abbrev body : List ℕ
body = replicate 4092 0

verify_crc_cases_example :
    ((1 ∷ 0 ∷ 0 ∷ 0 ∷ [] ≡ to_le_u32 (sum_of body))
      × (verify_crc sum_of (footed 7 body 1 0 0 0) ≡ ok tt))
    ⊎ ((1 ∷ 0 ∷ 0 ∷ 0 ∷ [] ≢ to_le_u32 (sum_of body))
        × (verify_crc sum_of (footed 7 body 1 0 0 0)
            ≡ err (bad_crc 7 (from_le_u32 1 0 0 0) (sum_of body))))
verify_crc_cases_example =
    verify_crc_cases sum_of 7 body 1 0 0 0 (length-replicate {A = ℕ} 4092 0) (omega arith)
      (omega arith) (omega arith) (omega arith) (omega (arith, sum_of-replicate 4092))

from_byte-as_byte_example :
    ((t : PageType) → (from_byte b'e' ≡ t) ↔ Denotes t b'e')
    × (from_byte (as_byte (from_byte b'e')) ≡ from_byte b'e')
    × ((as_byte (from_byte b'e') ≡ b'e') ⊎ (as_byte (from_byte b'e') ≡ to_ascii_uppercase b'e'))
    × ((from_byte b'e' ≡ other b'e') ⊎ (from_byte (to_ascii_uppercase b'e') ≡ from_byte b'e'))
from_byte-as_byte_example = from_byte-as_byte b'e'

memmem-IsFirst_example :
    IsFirst (2 ∷ 3 ∷ []) (1 ∷ 2 ∷ 3 ∷ 2 ∷ 3 ∷ []) (memmem (1 ∷ 2 ∷ 3 ∷ 2 ∷ 3 ∷ []) (2 ∷ 3 ∷ []))
memmem-IsFirst_example = memmem-IsFirst (2 ∷ 3 ∷ []) (1 ∷ 2 ∷ 3 ∷ 2 ∷ 3 ∷ []) (omega arith)

zeros-IsBytes : (n : ℕ) → IsBytes (replicate n 0)
zeros-IsBytes zero = tt
zeros-IsBytes (suc n) = (omega arith, zeros-IsBytes n)

parse_checks_example :
    (sb : Superblock) × (parse {E = ℕ} zero_page.bytes ≡ ok sb)
    × ((magic_ok sb ≡ true) ↔ (
        (byte_at zero_page.bytes 0x14 ≡ 0x5E)
        × (byte_at zero_page.bytes 0x15 ≡ 0xBA)
        × (byte_at zero_page.bytes 0x16 ≡ 0x7A)
        × (byte_at zero_page.bytes 0x17 ≡ 0xDA)))
    × ((sb.sa_marker_present ≡ true)
        ↔ ((i : ℕ) × (i < length zero_page.bytes) × OccursAt sa_copyright_marker zero_page.bytes i))
parse_checks_example =
    parse_checks zero_page.bytes (length-replicate {A = ℕ} 4096 0) (zeros-IsBytes 4096)

abbrev first_superblock : Superblock
first_superblock = record {
  flags_06 = 0x2B;
  current_lsn = 0;
  format_major = 17;
  magic = 0;
  version_a = 0;
  version_b = 0;
  page_count_hint = 1;
  sa_marker_present = true;
}

abbrev flag : ℕ
flag = 1

abbrev raw : ℕ
raw = 5

decode_target_iff_example :
    ((decode_target flag raw 2 9 ≡ in_range raw)
      ↔ ((flag ≡ 1) × (raw ≡ raw) × (raw ≢ 0) × (raw < 9) × (raw ≢ 2)))
    × ((decode_target flag raw 2 9 ≡ invalid raw)
        ↔ ((flag ≡ 1) × (raw ≡ raw) × ((raw ≡ 0) ⊎ ((9 ≤ raw) ⊎ (raw ≡ 2)))))
    × ((decode_target flag raw 2 9 ≡ absent) ↔ (flag ≢ 1))
decode_target_iff_example = decode_target_iff flag raw 2 9 raw

-- A block of page 2 behind one byte, with a link to page 5.
abbrev linked : List ℕ
linked =
    9 ∷ 2 ∷ 0 ∷ 0 ∷ 0 ∷ 0 ∷ 0 ∷ 0 ∷ 0 ∷ 0 ∷ 0 ∷ 0x80 ∷ 0x3f ∷ replicate 12 0
    ++ (0xd5 ∷ 0x0b ∷ 1 ∷ 0 ∷ 0 ∷ 0 ∷ 5 ∷ 0 ∷ 0 ∷ 0 ∷ [])

find_page_link_metadata_first_example :
    (o : Option PageLinkMetadata) × (find_page_link_metadata {E = ℕ} linked 2 9 ≡ ok o)
    × IsFirstBlock linked 2 9 o
find_page_link_metadata_first_example =
    find_page_link_metadata_first ℕ linked 2 9 (omega arith) (omega arith)

-- Every page links to page 5.
abbrev to_five : ℕ → Option PageLinkMetadata
to_five p = some (record { offset = 0; link_flag = 1; target = in_range 5 })

walk_page_links-Trail_example :
    (w : PageLinkWalk) × (walk_page_links 8 to_five 2 ≡ some w)
    × Trail to_five 8 w.pages 2 w.pages w.stop
    × IsDistinct w.pages
    × (length w.pages ≤ 8)
walk_page_links-Trail_example = walk_page_links-Trail 8 to_five 2

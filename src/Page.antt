-- ===== src/Page.antt =====
-- crates/opensqlany/src/page.rs: a 4 KiB page, its trailer, its CRC footer and its type.
-- `crc32fast::hash` is a parameter: a function from the bytes of the page body to a word.
pub mod Types
pub mod Reads
pub mod Checks
use opensqlanywhere.Base.{ℕ, ◌+◌, ◌≤◌, List, [], ◌∷◌, Bool, ◌&&◌, ◌==◌, leb, length, list_eq}
use opensqlanywhere.Base.{if◌then◌else◌, Outcome, ok, err, ◌>>=◌, ◌>>◌, assert, read, slice}
use opensqlanywhere.Base.Bytes.{from_le_u32}
use opensqlanywhere.Error.{Error, bad_crc, bad_trailer}

abbrev pub page_size : ℕ
page_size = 4096

abbrev trailer_off : ℕ
trailer_off = 0xFF0

abbrev pub crc_off : ℕ
crc_off = 0xFFC

pub record Page : Type 0 where
  pub index : ℕ
  pub bytes : List ℕ

pub record PageTrailer : Type 0 where
  pub flag_ff0 : ℕ
  pub flag_ff1 : ℕ
  pub page_type_raw : ℕ
  pub zero_ff3 : ℕ
  pub lsn : ℕ
  pub zero_ff8 : List ℕ

unfoldable pub from_bytes : ℕ → List ℕ → Outcome Error Page
from_bytes index bytes = do
  assert (leb page_size (length bytes))
  view ← slice bytes 0 page_size
  ok (record { index = index; bytes = view })

unfoldable pub trailer : {E : Type 0} → Page → Outcome E PageTrailer
trailer p = do
  t ← slice p.bytes trailer_off crc_off
  t0 ← read t 0
  t1 ← read t 1
  t2 ← read t 2
  t3 ← read t 3
  t4 ← read t 4
  t5 ← read t 5
  t6 ← read t 6
  t7 ← read t 7
  t8 ← read t 8
  t9 ← read t 9
  t10 ← read t 10
  t11 ← read t 11
  ok (record {
    flag_ff0 = t0;
    flag_ff1 = t1;
    page_type_raw = t2;
    zero_ff3 = t3;
    lsn = from_le_u32 t4 t5 t6 t7;
    zero_ff8 = t8 ∷ t9 ∷ t10 ∷ t11 ∷ [];
  })

-- The log sequence number of the page's last write.
lsn : {E : Type 0} → Page → Outcome E ℕ
lsn p = do t ← trailer p; ok t.lsn

unfoldable pub stored_crc : {E : Type 0} → Page → Outcome E ℕ
stored_crc p = do
  a ← read p.bytes crc_off
  b ← read p.bytes (crc_off + 1)
  c ← read p.bytes (crc_off + 2)
  d ← read p.bytes (crc_off + 3)
  ok (from_le_u32 a b c d)

module _ (hash : List ℕ → ℕ) where
  unfoldable pub computed_crc : {E : Type 0} → Page → Outcome E ℕ
  computed_crc p = do body ← slice p.bytes 0 crc_off; ok (hash body)

  unfoldable pub verify_crc : Page → Outcome Error (Unit {0})
  verify_crc p = do
    stored ← stored_crc p
    computed ← computed_crc p
    if stored == computed then ok tt else err (bad_crc p.index stored computed)

unfoldable pub verify_trailer : Page → Outcome Error (Unit {0})
verify_trailer p = do
  t ← trailer p
  let clear = t.zero_ff3 == 0 && list_eq t.zero_ff8 (0 ∷ 0 ∷ 0 ∷ 0 ∷ [])
  if clear then ok tt else err (bad_trailer p.index)

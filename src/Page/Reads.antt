-- ===== src/Page/Reads.antt =====
-- Which bytes the accessors of `Page` read, on a view of the full page length.
use opensqlanywhere.Base.{ℕ, ◌+◌, ◌<◌, ◌≡◌, List, [], ◌∷◌, arith, length, take, drop}
use opensqlanywhere.Base.{ok, read, read-ok, slice-ok, read_slice-ok}
use opensqlanywhere.Base.Bytes.{from_le_u32, byte_at}
use opensqlanywhere.Page.{Page, PageTrailer, page_size, trailer, stored_crc, computed_crc}

abbrev pub trailer_of : List ℕ → PageTrailer
trailer_of bs = record {
  flag_ff0 = byte_at bs 0xFF0;
  flag_ff1 = byte_at bs 0xFF1;
  page_type_raw = byte_at bs 0xFF2;
  zero_ff3 = byte_at bs 0xFF3;
  lsn = from_le_u32 (byte_at bs 0xFF4) (byte_at bs 0xFF5) (byte_at bs 0xFF6) (byte_at bs 0xFF7);
  zero_ff8 = byte_at bs 0xFF8 ∷ byte_at bs 0xFF9 ∷ byte_at bs 0xFFA ∷ byte_at bs 0xFFB ∷ [];
}

abbrev pub stored_of : List ℕ → ℕ
stored_of bs =
    from_le_u32 (byte_at bs 0xFFC) (byte_at bs 0xFFD) (byte_at bs 0xFFE) (byte_at bs 0xFFF)

module _ {E : Type 0} (p : Page) (full : length p.bytes ≡ page_size) where
  abbrev trailer_read :
      (i : ℕ)
      → i < 12
      → read {E = E} (take 12 (drop 0xFF0 p.bytes)) i ≡ ok (byte_at p.bytes (0xFF0 + i))
  trailer_read i h = read_slice-ok p.bytes 0xFF0 12 i (omega arith) h

  pub trailer-ok : trailer {E = E} p ≡ ok (trailer_of p.bytes)
  unfolding trailer
  trailer-ok = rw (
    slice-ok p.bytes 0xFF0 0xFFC (omega arith) (omega arith),
    trailer_read 0 (omega arith),
    trailer_read 1 (omega arith),
    trailer_read 2 (omega arith),
    trailer_read 3 (omega arith),
    trailer_read 4 (omega arith),
    trailer_read 5 (omega arith),
    trailer_read 6 (omega arith),
    trailer_read 7 (omega arith),
    trailer_read 8 (omega arith),
    trailer_read 9 (omega arith),
    trailer_read 10 (omega arith),
    trailer_read 11 (omega arith),
  )

  pub stored_crc-ok : stored_crc {E = E} p ≡ ok (stored_of p.bytes)
  unfolding stored_crc
  stored_crc-ok = rw (
    read-ok p.bytes 0xFFC (omega arith),
    read-ok p.bytes 0xFFD (omega arith),
    read-ok p.bytes 0xFFE (omega arith),
    read-ok p.bytes 0xFFF (omega arith),
  )

  pub computed_crc-ok :
      (hash : List ℕ → ℕ) → computed_crc hash {E = E} p ≡ ok (hash (take 0xFFC p.bytes))
  unfolding computed_crc
  computed_crc-ok hash = rw (slice-ok p.bytes 0 0xFFC (omega arith) (omega arith))

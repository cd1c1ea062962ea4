-- ===== src/Error.antt =====
-- The errors of crates/opensqlany/src/error.rs.
use opensqlanywhere.Base.{ℕ}

-- `std::io::Error`: the two kinds that the crate builds itself, and whatever a reader reports,
-- told apart by an opaque number.
pub data IoError : Type 0 where
  invalid_data out_of_memory : IoError
  reader : ℕ → IoError

pub data Error : Type 0 where
  io : IoError → Error
  not_page_aligned : (size page_size : ℕ) → Error
  too_small : (size : ℕ) → Error
  page_out_of_range : (page total : ℕ) → Error
  bad_magic : (got want : ℕ) → Error
  bad_crc : (page stored computed : ℕ) → Error
  bad_trailer : (page : ℕ) → Error

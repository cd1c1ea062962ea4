-- ===== src/Store.antt =====
-- crates/opensqlany/src/store.rs: a page store over a byte buffer, its page iterator, and the
-- reading of a file into the buffer. The file is a parameter, as `Read + Seek` is in the source.
pub mod Iteration
pub mod Access
pub mod Snapshot
use opensqlanywhere.Base.{
  ℕ, zero, suc, ◌+◌, ◌*◌, ◌/◌, ◌%◌, List, [], ◌∷◌, Bool, not, ◌==◌, ltb, leb,
}
use opensqlanywhere.Base.{length, if◌then◌else◌, Option, none, some}
use opensqlanywhere.Base.{Outcome, ok, err, panic, ◌>>=◌, ◌>>◌, map_err, guard, slice}
use opensqlanywhere.Error.{IoError, invalid_data, out_of_memory, Error, io, too_small}
use opensqlanywhere.Error.{not_page_aligned, page_out_of_range, bad_magic}
use opensqlanywhere.Page.{Page, page_size}
use opensqlanywhere.Superblock
use opensqlanywhere.Superblock.{Superblock, magic_ok, sa_magic}

pub record PageStore : Type 0 where
  pub bytes : List ℕ

unfoldable pub from_bytes : List ℕ → Outcome Error PageStore
from_bytes bytes = do
  let size = length bytes
  guard (leb page_size size) (too_small size)
  guard (size % page_size == 0) (not_page_aligned size page_size)
  ok (record { bytes = bytes })

unfoldable pub page_count : PageStore → ℕ
page_count s = length s.bytes / page_size

unfoldable pub size_bytes : PageStore → ℕ
size_bytes s = length s.bytes

unfoldable pub page : PageStore → ℕ → Outcome Error Page
page s index = do
  let total = page_count s
  guard (ltb index total) (page_out_of_range index total)
  let start = index * page_size
  view ← slice s.bytes start (start + page_size)
  ok (record { index = index; bytes = view })

unfoldable pub try_superblock : PageStore → Outcome Error Superblock
try_superblock s = do page0 ← page s 0; Superblock.parse page0.bytes

unfoldable pub superblock : PageStore → Outcome Error Superblock
superblock s = do sb ← try_superblock s; guard (magic_ok sb) (bad_magic sb.magic sa_magic); ok sb

-- The iterator of `PageStore::pages`: the store and the number of the next page.
pub record PageIter : Type 0 where
  pub store : PageStore
  pub next : ℕ

unfoldable pub pages : PageStore → PageIter
pages s = record { store = s; next = 0 }

-- `Pages::next`: the page and the iterator after it. An `Err` of `page` ends the iteration.
unfoldable pub next_page : PageIter → Outcome Error (Option (Page × PageIter))
next_page it = if leb (page_count it.store) it.next then ok none else elim (page it.store it.next) [
  | ok p ↦ ok (some (p, record it { next = it.next + 1 }))
  | err e ↦ ok none
  | panic ↦ panic
]

-- A `for` loop that collects an iterator, with fuel for the calls of `next`; `none` stands for the
-- end of the fuel.
unfoldable pub collect : ℕ → PageIter → Outcome Error (Option (List Page))
collect zero it = ok none
collect (suc fuel) it = do
  step ← next_page it
  elim step [
    | none ↦ ok (some [])
    | some (p, it') ↦ do
      rest ← collect fuel it'
      elim rest [ none ↦ ok none | some ps ↦ ok (some (p ∷ ps)) ]
  ]

unfoldable pub validate_store_size : ℕ → Outcome Error (Unit {0})
validate_store_size size = do
  guard (leb page_size size) (too_small size)
  guard (size % page_size == 0) (not_page_aligned size page_size)

-- A file, as `Read + Seek` shows it: each call answers and moves the file to another state.
pub record Reader : Type 1 where
  pub File : Type 0
  pub seek_end : File → Outcome IoError (ℕ × File)
  pub seek_start : File → Outcome IoError (ℕ × File)
  pub read_exact : ℕ → File → Outcome IoError (List ℕ × File)

-- `fits` is `usize::try_from` of the platform, and `reserve` whether the allocation succeeds.
module _ (r : Reader) (fits reserve : ℕ → Bool) where
  open r use {File, seek_end, seek_start, read_exact}

  unfoldable pub read_size_stable_snapshot : File → Outcome Error (List ℕ)
  read_size_stable_snapshot f = do
    (initial_size, f1) ← map_err io (seek_end f)
    validate_store_size initial_size
    guard (fits initial_size) (io invalid_data)
    (start, f2) ← map_err io (seek_start f1)
    guard (reserve initial_size) (io out_of_memory)
    (bytes, f3) ← map_err io (read_exact initial_size f2)
    (final_size, f4) ← map_err io (seek_end f3)
    guard (final_size == initial_size) (io invalid_data)
    validate_store_size final_size
    ok bytes

  unfoldable pub open_store : File → Outcome Error PageStore
  open_store f = do bytes ← read_size_stable_snapshot f; ok (record { bytes = bytes })

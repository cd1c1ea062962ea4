-- ===== src/Examples/Stores.antt =====
-- Stores and snapshots at concrete inputs.
use opensqlanywhere.Base.{
  ◌↔◌, ℕ, suc, ◌*◌, ◌%◌, ◌<◌, ◌≤◌, ◌≡◌, ◌≢◌, ◌⊎◌, refl, List, arith, length, take, drop, replicate,
  length-replicate, true, some, ok, err, ◌∙◌, ap,
}
use opensqlanywhere.Error.{too_small, not_page_aligned, page_out_of_range, bad_magic}
use opensqlanywhere.Page.{Page, page_size}
use opensqlanywhere.Superblock.{Superblock, sa_magic}
use opensqlanywhere.Store.{
  PageStore, Reader, from_bytes, page, page_count, pages, collect, try_superblock, superblock,
  read_size_stable_snapshot, validate_store_size,
}
use opensqlanywhere.Store.Iteration.{AreNumbered, page_bytes, collect-pages}
use opensqlanywhere.Store.Access.{from_bytes_cases, page_cases, superblock_cases}
use opensqlanywhere.Store.Snapshot.{IsSnapshot, read_size_stable_snapshot_lem}

abbrev zeros : List ℕ
zeros = replicate 8192 0

abbrev two_pages : PageStore
two_pages = record { bytes = zeros }

two_pages_lem : page_count two_pages ≡ 2
unfolding page_count
two_pages_lem = omega (arith, length-replicate {A = ℕ} 8192 0)

collect-pages_example :
    (ps : List Page) × (collect (suc (page_count two_pages)) (pages two_pages) ≡ ok (some ps))
    × (length ps ≡ page_count two_pages)
    × AreNumbered 0 ps
    × (page_bytes ps ≡ zeros)
collect-pages_example = collect-pages two_pages (omega (arith, length-replicate {A = ℕ} 8192 0))

from_bytes_cases_example :
    ((length zeros < page_size) × (from_bytes zeros ≡ err (too_small (length zeros))))
    ⊎ (((page_size ≤ length zeros)
          × (length zeros % page_size ≢ 0)
          × (from_bytes zeros ≡ err (not_page_aligned (length zeros) page_size)))
        ⊎ ((s : PageStore) × (from_bytes zeros ≡ ok s)
            × (s.bytes ≡ zeros)
            × (0 < page_count s)
            × (page_count s * page_size ≡ length zeros)))
from_bytes_cases_example = from_bytes_cases zeros

page_cases_example :
    ((1 < page_count two_pages)
      × ((p : Page) × (page two_pages 1 ≡ ok p)
          × (p.index ≡ 1)
          × (length p.bytes ≡ page_size)
          × (p.bytes ≡ take page_size (drop (1 * page_size) zeros))))
    ⊎ ((page_count two_pages ≤ 1)
        × (page two_pages 1 ≡ err (page_out_of_range 1 (page_count two_pages))))
page_cases_example = page_cases two_pages 1

superblock_cases_example :
    (sb : Superblock) × (try_superblock two_pages ≡ ok sb)
    × (((sb.magic ≡ sa_magic) × (superblock two_pages ≡ ok sb))
        ⊎ ((sb.magic ≢ sa_magic) × (superblock two_pages ≡ err (bad_magic sb.magic sa_magic))))
superblock_cases_example = superblock_cases two_pages (omega (arith, two_pages_lem))

abbrev one_page : List ℕ
one_page = replicate 4096 0

-- A file of one page of zeros; its handle is the position.
abbrev zero_file : Reader
zero_file = record {
  File = ℕ;
  seek_end = λ f. ok (4096, 4096);
  seek_start = λ f. ok (0, 0);
  read_exact = λ n f. ok (replicate n 0, n);
}

reads_all : (n : ℕ) (f g : ℕ) (bs : List ℕ) → zero_file.read_exact n f ≡ ok (bs, g) → length bs ≡ n
reads_all n f g bs e =
    let same : bs ≡ replicate n 0 = cc in ap length same ∙ length-replicate {A = ℕ} n 0

taken : read_size_stable_snapshot zero_file (λ n. true) (λ n. true) 0 ≡ ok (one_page)
unfolding read_size_stable_snapshot validate_store_size
taken = refl

read_size_stable_snapshot_example :
    (read_size_stable_snapshot zero_file (λ n. true) (λ n. true) 0 ≡ ok one_page)
    ↔ IsSnapshot zero_file (λ n. true) (λ n. true) 0 one_page
read_size_stable_snapshot_example =
    read_size_stable_snapshot_lem zero_file (λ n. true) (λ n. true) reads_all 0 one_page

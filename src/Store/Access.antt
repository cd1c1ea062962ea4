-- ===== src/Store/Access.antt =====
-- Building a store, and reading one page or the superblock of it.
use opensqlanywhere.Base.{ℕ, ◌*◌, ◌%◌, ◌≤◌, ◌<◌, ◌≡◌, ◌≢◌, ◌⊎◌, List, arith, length}
use opensqlanywhere.Base.{
  take, drop, true, false, ok, err, length-take, length-drop, refl, ◌==◌, Bool-cases, inl, inr,
}
use native.Mathlib.Decide.{dec_lt}
use opensqlanywhere.Error.{too_small, not_page_aligned, page_out_of_range, bad_magic}
use opensqlanywhere.Page.{Page, page_size}
use opensqlanywhere.Superblock.{Superblock, magic_ok, sa_magic}
use opensqlanywhere.Superblock.Fields.{fields_of, parse-ok}
use opensqlanywhere.Store.{PageStore, from_bytes, page_count, page, try_superblock, superblock}
use opensqlanywhere.Store.Iteration.{page_at, page-ok}

-- A buffer below one page is `TooSmall`, any other buffer whose size is no multiple of 4096 is
-- `NotPageAligned`, with the size, and every other buffer becomes a store of those bytes, with at
-- least one page, whose pages make up the whole buffer.
pub from_bytes_cases :
    (bs : List ℕ)
    → ((length bs < page_size) × (from_bytes bs ≡ err (too_small (length bs))))
      ⊎ (((page_size ≤ length bs)
            × (length bs % page_size ≢ 0)
            × (from_bytes bs ≡ err (not_page_aligned (length bs) page_size)))
          ⊎ ((s : PageStore) × (from_bytes bs ≡ ok s)
              × (s.bytes ≡ bs)
              × (0 < page_count s)
              × (page_count s * page_size ≡ length bs)))
unfolding from_bytes page_count
from_bytes_cases bs = elim (dec_lt (length bs) page_size) [
  | yes short ↦ inl (short, ground arith)
  | no h ↦ elim (dec_lt 0 (length bs % page_size)) [
    | yes off ↦ inr (inl (omega arith, omega arith, ground arith))
    | no aligned ↦ inr (inr (record { bytes = bs }, ground arith, refl, omega arith, omega arith))
  ]
]

-- `page` never panics: below the page count it gives the page of that number, whose bytes are the
-- 4096 bytes of the store from 4096 times the number on, and from the page count on it reports the
-- number and the count.
pub page_cases :
    (s : PageStore) (k : ℕ)
    → ((k < page_count s)
        × ((p : Page) × (page s k ≡ ok p)
            × (p.index ≡ k)
            × (length p.bytes ≡ page_size)
            × (p.bytes ≡ take page_size (drop (k * page_size) s.bytes))))
      ⊎ ((page_count s ≤ k) × (page s k ≡ err (page_out_of_range k (page_count s))))
page_cases s k = elim (dec_lt k (page_count s)) [
  | yes lt ↦ inl (lt, (page_at s.bytes k, page-ok s k lt, refl, full lt, refl))
  | no ge ↦ inr (omega arith, unfold page in ground arith)
]
  where
    full : k < page_count s → length (page_at s.bytes k).bytes ≡ page_size
    full lt =
        unfold page_count in
        omega (
          arith,
          length-take page_size (drop (k * page_size) s.bytes),
          length-drop (k * page_size) s.bytes,
        )

eq-true : (a b : ℕ) → (a == b) ≡ true → a ≡ b
eq-true a b e = ground arith

eq-false : (a b : ℕ) → (a == b) ≡ false → a ≢ b
eq-false a b e = ground arith

-- The superblock of a store with at least one page: no panic; it is given if its magic number is
-- the expected one, and otherwise refused with the magic number that was read.
pub superblock_cases :
    (s : PageStore)
    → 0 < page_count s
    → (sb : Superblock) × (try_superblock s ≡ ok sb)
      × (((sb.magic ≡ sa_magic) × (superblock s ≡ ok sb))
          ⊎ ((sb.magic ≢ sa_magic) × (superblock s ≡ err (bad_magic sb.magic sa_magic))))
unfolding superblock magic_ok
superblock_cases s pos = (
  sb,
  read_it,
  elim (Bool-cases (sb.magic == sa_magic)) [
    | inl e ↦ inl (eq-true _ _ e, rw (read_it, e))
    | inr e ↦ inr (eq-false _ _ e, rw (read_it, e))
  ],
)
  where
    sb : Superblock
    sb = fields_of (take page_size s.bytes)

    full : length (take page_size s.bytes) ≡ page_size
    full = unfold page_count in omega (arith, length-take page_size s.bytes)

    read_it : try_superblock s ≡ ok (fields_of (take page_size s.bytes))
    read_it = unfold try_superblock in rw (page-ok s 0 pos) (parse-ok (take page_size s.bytes) full)

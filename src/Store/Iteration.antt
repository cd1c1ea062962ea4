-- ===== src/Store/Iteration.antt =====
-- Which pages `pages` yields.
use opensqlanywhere.Base.{ℕ, zero, suc, ◌+◌, ◌*◌, ◌≤◌, ◌<◌, ◌≡◌, refl, List, [], ◌∷◌, ◌++◌, arith}
use opensqlanywhere.Base.{length, take, drop, none, some, ok, slice-ok, drop-drop, drop-length}
use opensqlanywhere.Base.{◌-◌, ◌%◌, lt→ltb, leb, false, ap, sym, ◌∙◌}
use native.Mathlib.Numerals.{add-one}
use opensqlanywhere.Base.{length-take, length-drop, take-append-drop}
use opensqlanywhere.Page.{Page, page_size}
use opensqlanywhere.Store.{PageStore, page_count, page, PageIter, pages, next_page, collect}

abbrev pub page_at : List ℕ → ℕ → Page
page_at bs k = record { index = k; bytes = take page_size (drop (k * page_size) bs) }

room : (s : PageStore) (k : ℕ) → k < page_count s → k * page_size + page_size ≤ length s.bytes
unfolding page_count
room s k lt = omega arith

pub page-ok : (s : PageStore) (k : ℕ) → k < page_count s → page s k ≡ ok (page_at s.bytes k)
unfolding page
page-ok s k lt =
    let width : k * page_size + page_size - k * page_size ≡ page_size = omega arith in
    rw (
      lt→ltb k (page_count s) lt,
      slice-ok s.bytes (k * page_size) (k * page_size + page_size) (omega arith) (room s k lt),
      width,
    )

-- `n` pages from number `k` on.
abbrev pub pages_from : List ℕ → ℕ → ℕ → List Page
pages_from bs zero k = []
pages_from bs (suc n) k = page_at bs k ∷ pages_from bs n (suc k)

abbrev iter : PageStore → ℕ → PageIter
iter s k = record { store = s; next = k }

next_page-some :
    (s : PageStore) (k : ℕ)
    → k < page_count s
    → next_page (iter s k) ≡ ok (some (page_at s.bytes k, iter s (suc k)))
unfolding next_page
next_page-some s k lt =
    let more : leb (page_count s) k ≡ false = ground arith in rw (more, page-ok s k lt, add-one)

next_page-none : (s : PageStore) (k : ℕ) → k ≡ page_count s → next_page (iter s k) ≡ ok none
unfolding next_page
next_page-none s k e = ground arith

collect-pages_from :
    (n k : ℕ) (s : PageStore)
    → k + n ≡ page_count s
    → collect (suc n) (iter s k) ≡ ok (some (pages_from s.bytes n k))
unfolding collect
collect-pages_from zero k s e = rw (next_page-none s k (omega arith))
collect-pages_from (suc n) k s e =
    rw (next_page-some s k (omega arith)) (rw (collect-pages_from n (suc k) s (omega arith)))

-- The bytes of pages one behind another.
abbrev pub page_bytes : List Page → List ℕ
page_bytes [] = []
page_bytes (p ∷ ps) = p.bytes ++ page_bytes ps

-- Pages numbered from `k` on, each of the full length.
abbrev pub AreNumbered : ℕ → List Page → Type 0
AreNumbered k [] = Unit
AreNumbered k (p ∷ ps) = (p.index ≡ k) × (length p.bytes ≡ page_size) × AreNumbered (suc k) ps

length-pages_from : (bs : List ℕ) (n k : ℕ) → length (pages_from bs n k) ≡ n
length-pages_from bs zero k = refl
length-pages_from bs (suc n) k = ap suc (length-pages_from bs n (suc k))

pages_from-AreNumbered :
    (bs : List ℕ) (n k : ℕ) → (k + n) * page_size ≤ length bs → AreNumbered k (pages_from bs n k)
pages_from-AreNumbered bs zero k h = tt
pages_from-AreNumbered bs (suc n) k h = (
  refl,
  omega (arith, length-take page_size (drop (k * page_size) bs), length-drop (k * page_size) bs),
  pages_from-AreNumbered bs n (suc k) (omega arith),
)

page_bytes-pages_from :
    (bs : List ℕ) (n k : ℕ)
    → (k + n) * page_size ≡ length bs
    → page_bytes (pages_from bs n k) ≡ drop (k * page_size) bs
page_bytes-pages_from bs zero k h = sym (drop-length (k * page_size) bs (omega arith))
page_bytes-pages_from bs (suc n) k h =
    rw (page_bytes-pages_from bs n (suc k) (omega arith), next)
      (take-append-drop page_size (drop (k * page_size) bs))
  where
    next : drop (suc k * page_size) bs ≡ drop page_size (drop (k * page_size) bs)
    next = ap (λ (m : ℕ). drop m bs) (omega arith) ∙ sym (drop-drop page_size (k * page_size) bs)

-- Iterating over the pages of a store whose size is a multiple of the page size ends after
-- `page_count` pages and never panics. The pages are numbered 0, 1, 2 and so on, each has 4096
-- bytes, and one behind another they are the store's bytes.
pub collect-pages :
    (s : PageStore)
    → length s.bytes % page_size ≡ 0
    → (ps : List Page) × (collect (suc (page_count s)) (pages s) ≡ ok (some ps))
      × (length ps ≡ page_count s)
      × AreNumbered 0 ps
      × (page_bytes ps ≡ s.bytes)
unfolding pages
collect-pages s h = (
  pages_from s.bytes (page_count s) 0,
  collect-pages_from (page_count s) 0 s (omega arith),
  length-pages_from s.bytes (page_count s) 0,
  pages_from-AreNumbered s.bytes (page_count s) 0 (unfold page_count in omega arith),
  page_bytes-pages_from s.bytes (page_count s) 0 (unfold page_count in omega arith),
)

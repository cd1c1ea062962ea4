-- ===== src/PageLinks.antt =====
-- crates/opensqlany/src/page_links.rs: the page-link block and the walk along page links.
-- The walk's `lookup` is a function of the page: it is asked once at most for each page, since a page
-- that was seen before ends the walk.
pub mod Search
pub mod Trails
use opensqlanywhere.Base.{
  ℕ, zero, suc, ◌+◌, ◌-◌, ◌^◌, List, [], ◌∷◌, ◌++◌, Bool, true, false, not, ◌||◌, ◌==◌, ltb, leb,
}
use opensqlanywhere.Base.{length, list_eq, if◌then◌else◌, Option, none, some}
use opensqlanywhere.Base.{Outcome, ok, ◌>>=◌, read, slice}
use opensqlanywhere.Base.Bytes.{to_le_u32}
use opensqlanywhere.Base.Words.{slice_u32}

abbrev pub f32_one : List ℕ
f32_one = 0x00 ∷ 0x00 ∷ 0x80 ∷ 0x3f ∷ []

abbrev pub link_marker : List ℕ
link_marker = 0xd5 ∷ 0x0b ∷ []

abbrev pub block_min_len : ℕ
block_min_len = 34

pub data PageLinkTarget : Type 0 where
  absent : PageLinkTarget
  in_range invalid : ℕ → PageLinkTarget

pub record PageLinkMetadata : Type 0 where
  pub offset : ℕ
  pub link_flag : ℕ
  pub target : PageLinkTarget

-- `a && b` on tests that may panic: the second is made only if the first holds.
infixl 6 ◌andalso◌
abbrev pub ◌andalso◌ {ℓ} : {E : Type ℓ} → Outcome E Bool → Outcome E Bool → Outcome E Bool
a andalso b = a >>= λ t. if t then b else ok false

slice_is : {E : Type 0} → List ℕ → ℕ → ℕ → List ℕ → Outcome E Bool
slice_is xs start end expected = do s ← slice xs start end; ok (list_eq s expected)

byte_is : {E : Type 0} → List ℕ → ℕ → ℕ → Outcome E Bool
byte_is xs i expected = do b ← read xs i; ok (b == expected)

-- The test of one offset, by its negation in the source.
unfoldable pub is_block : {E : Type 0} → List ℕ → ℕ → ℕ → Outcome E Bool
unfolding slice_is byte_is
is_block plain page_number offset =
    slice_is plain offset (offset + 4) (to_le_u32 page_number)
    andalso byte_is plain (offset + 4) 0
    andalso byte_is plain (offset + 5) 0
    andalso slice_is plain (offset + 8) (offset + 12) f32_one
    andalso slice_is plain (offset + 24) (offset + 26) link_marker
    andalso slice_is plain (offset + 27) (offset + 30) (0 ∷ 0 ∷ 0 ∷ [])

unfoldable pub decode_target : (link_flag raw_target page_number page_count : ℕ) → PageLinkTarget
decode_target link_flag raw_target page_number page_count =
    if not (link_flag == 1)
    then absent
    else if raw_target == 0 || leb page_count raw_target || raw_target == page_number
    then invalid raw_target
    else in_range raw_target

unfoldable pub decode_block : {E : Type 0} → List ℕ → ℕ → ℕ → ℕ → Outcome E PageLinkMetadata
decode_block plain page_number page_count offset = do
  link_flag ← read plain (offset + 26)
  raw_target ← slice_u32 plain (offset + 30) (offset + 34)
  ok (record {
    offset = offset;
    link_flag = link_flag;
    target = decode_target link_flag raw_target page_number page_count;
  })

-- `for offset in 0..=scan_end`, with the rounds left and the next offset.
unfoldable pub scan : {E : Type 0} → List ℕ → ℕ → ℕ → ℕ → ℕ → Outcome E (Option PageLinkMetadata)
scan plain page_number page_count zero offset = ok none
scan {E} plain page_number page_count (suc left) offset = do
  let rest = scan {E = E} plain page_number page_count left (suc offset)
  found ← is_block plain page_number offset
  if not found then rest else do m ← decode_block plain page_number page_count offset; ok (some m)

unfoldable pub find_page_link_metadata :
    {E : Type 0} → List ℕ → ℕ → ℕ → Outcome E (Option PageLinkMetadata)
find_page_link_metadata plain page_number page_count =
    let scan_end = length plain - block_min_len in
    if page_count == 0 || leb page_count page_number || ltb (length plain) block_min_len
    then ok none
    else if ltb page_number (2 ^ 32)
    then scan plain page_number page_count (suc scan_end) 0
    else ok none

pub data PageLinkWalkStop : Type 0 where
  missing_metadata no_link limit_reached : PageLinkWalkStop
  invalid_target cycle : ℕ → PageLinkWalkStop

pub record PageLinkWalk : Type 0 where
  pub pages : List ℕ
  pub stop : PageLinkWalkStop

unfoldable pub contains : List ℕ → ℕ → Bool
contains [] p = false
contains (q ∷ qs) p = q == p || contains qs p

-- The loop of `walk_page_links` with fuel; `none` stands for the end of the fuel.
module _ (max_pages : ℕ) (lookup : ℕ → Option PageLinkMetadata) where
  -- Leaving by the target of the page that was just pushed, or going on by `k`.
  unfoldable pub follow :
      (List ℕ → ℕ → Option PageLinkWalk) → List ℕ → Option PageLinkTarget → Option PageLinkWalk
  follow k pages none = some (record { pages = pages; stop = missing_metadata })
  follow k pages (some absent) = some (record { pages = pages; stop = no_link })
  follow k pages (some (invalid raw)) = some (record { pages = pages; stop = invalid_target raw })
  follow k pages (some (in_range next)) = k pages next

  unfoldable pub target_at : ℕ → Option PageLinkTarget
  target_at p = elim (lookup p) [ none ↦ none | some m ↦ some m.target ]

  unfoldable pub walk_loop : ℕ → List ℕ → ℕ → Option PageLinkWalk
  unfolding target_at
  walk_loop zero pages current = none
  walk_loop (suc fuel) pages current =
      if ltb (length pages) max_pages
      then if contains pages current
        then some (record { pages = pages; stop = cycle current })
        else follow (walk_loop fuel) (pages ++ (current ∷ [])) (target_at current)
      else some (record { pages = pages; stop = limit_reached })

  -- Each round pushes a page, so one round more than `max_pages` is enough.
  unfoldable pub walk_page_links : ℕ → Option PageLinkWalk
  walk_page_links start = walk_loop (suc max_pages) [] start

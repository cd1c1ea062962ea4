-- ===== src/Slotted/Rows.antt =====
-- `SlottedPage` of crates/opensqlany/src/slotted.rs: the rows that a directory's slots address.
pub mod Bounds
pub mod Laws
pub mod Complete
use opensqlanywhere.Base.{
  ℕ, zero, suc, ◌+◌, List, [], ◌∷◌, Bool, true, false, not, ◌&&◌, ◌==◌, ltb, leb,
}
use opensqlanywhere.Base.{if◌then◌else◌, Option, none, some, Outcome, ok, ◌>>=◌, slice}
use opensqlanywhere.Page.{Page}
use opensqlanywhere.Slotted.{SlotDirectory, live, trailer_start, find_slot_directory}

pub record SlottedPage : Type 0 where
  pub page : Page
  pub directory : Option SlotDirectory

unfoldable pub parse_slotted : {E : Type 0} → Page → Outcome E SlottedPage
parse_slotted page = do
  directory ← find_slot_directory page.bytes
  ok (record { page = page; directory = directory })

-- `sort_unstable`, on numbers.
unfoldable pub insert : ℕ → List ℕ → List ℕ
insert x [] = x ∷ []
insert x (y ∷ ys) = let rest = insert x ys in if leb x y then x ∷ y ∷ ys else y ∷ rest

unfoldable pub sort_unstable : List ℕ → List ℕ
sort_unstable [] = []
sort_unstable (x ∷ xs) = insert x (sort_unstable xs)

-- The offset of a slot, which is where its row starts, and where the row ends.
pub record Bound : Type 0 where
  pub start : ℕ
  pub end : ℕ

-- `live.get(i + 1)`, or the start of the trailer.
abbrev pub next_or_trailer : List ℕ → ℕ
next_or_trailer [] = trailer_start
next_or_trailer (n ∷ ns) = n

-- `bounds`, from the live offsets in ascending order.
unfoldable pub bounds_of : List ℕ → List Bound
bounds_of [] = []
bounds_of (off ∷ rest) =
    let end = next_or_trailer rest in
    let more = bounds_of rest in
    if ltb off end && leb end trailer_start then record { start = off; end = end } ∷ more else more

-- `bounds.iter().find(..)`
unfoldable pub find_bound : List Bound → ℕ → Option Bound
find_bound [] off = none
find_bound (b ∷ bs) off = let later = find_bound bs off in if b.start == off then some b else later

pub record Row : Type 0 where
  pub slot_index : ℕ
  pub offset : ℕ
  pub bytes : List ℕ

-- The rows of the slots from an index on.
unfoldable pub rows_from : {E : Type 0} → List ℕ → List Bound → ℕ → List ℕ → Outcome E (List Row)
rows_from bytes bounds slot_index [] = ok []
rows_from {E} bytes bounds slot_index (off ∷ slots) =
    let rest = rows_from {E = E} bytes bounds (suc slot_index) slots in
    if off == 0 then rest else elim (find_bound bounds off) [
      | none ↦ rest
      | some b ↦ do
        row ← slice bytes b.start b.end
        more ← rest
        ok (record { slot_index = slot_index; offset = off; bytes = row } ∷ more)
    ]

unfoldable pub row_slots : {E : Type 0} → SlottedPage → Outcome E (List Row)
row_slots {E} sp = elim sp.directory [
  | none ↦ ok []
  | some d ↦ rows_from {E = E} sp.page.bytes (bounds_of (sort_unstable (live d.slots))) 0 d.slots
]

abbrev pub without_index : List Row → List (ℕ × List ℕ)
without_index [] = []
without_index (r ∷ rs) = (r.offset, r.bytes) ∷ without_index rs

unfoldable pub row_bytes : {E : Type 0} → SlottedPage → Outcome E (List (ℕ × List ℕ))
unfolding row_slots
row_bytes sp = do rows ← row_slots sp; ok (without_index rows)

abbrev pub all_zero : List ℕ → Bool
all_zero [] = true
all_zero (b ∷ bs) = b == 0 && all_zero bs

unfoldable pub unclassified_prefix : {E : Type 0} → SlottedPage → Outcome E (Option (List ℕ))
unclassified_prefix sp = elim sp.directory [
  | none ↦ ok none
  | some d ↦ if d.array_start == 0 then ok none else do
    prefix ← slice sp.page.bytes 0 d.array_start
    if all_zero prefix then ok none else ok (some prefix)
]

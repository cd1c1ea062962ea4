-- ===== src/Slotted.antt =====
-- crates/opensqlany/src/slotted.rs: the search for a slot directory in a page.
pub mod Runs
pub mod Scans
pub mod Best
pub mod Rows
use opensqlanywhere.Base.{
  ℕ, zero, suc, ◌+◌, ◌-◌, ◌*◌, ◌≤◌, List, [], ◌∷◌, ◌++◌, Bool, true, false, not, ◌&&◌, ◌||◌, ◌==◌,
  ltb, leb,
}
use opensqlanywhere.Base.{length, if◌then◌else◌, Option, none, some, min}
use opensqlanywhere.Base.{Outcome, ok, panic, ◌>>=◌, read}
use opensqlanywhere.Base.Bytes.{from_le_u16, from_be_u16}

abbrev pub trailer_start : ℕ
trailer_start = 0xFF0

abbrev pub search_limit : ℕ
search_limit = 0x300

abbrev pub slot_offset_min : ℕ
slot_offset_min = 0x20

abbrev pub slot_offset_max : ℕ
slot_offset_max = trailer_start

abbrev pub min_live_slots : ℕ
min_live_slots = 8

pub record SlotDirectory : Type 0 where
  pub scan_start : ℕ
  pub array_start : ℕ
  pub end : ℕ
  pub slots : List ℕ
  pub leading_zero : Bool
  pub big_endian : Bool

-- `slots.iter().filter(|&&s| s != 0)`
abbrev pub live : List ℕ → List ℕ
live [] = []
live (s ∷ ss) = if s == 0 then live ss else s ∷ live ss

unfoldable pub live_slots : SlotDirectory → List ℕ
live_slots d = live d.slots

unfoldable pub live_count : SlotDirectory → ℕ
live_count d = length (live d.slots)

unfoldable pub deleted_count : SlotDirectory → ℕ
unfolding live_count
deleted_count d = length d.slots - live_count d

-- `Iterator::min`
abbrev pub min_of : List ℕ → Option ℕ
min_of [] = none
min_of (x ∷ xs) = elim (min_of xs) [ none ↦ some x | some m ↦ some (min x m) ]

unfoldable pub min_offset : SlotDirectory → Option ℕ
min_offset d = min_of (live d.slots)

unfoldable pub u16le : {E : Type 0} → List ℕ → ℕ → Outcome E ℕ
u16le buf off = do a ← read buf off; b ← read buf (off + 1); ok (from_le_u16 a b)

unfoldable pub u16be : {E : Type 0} → List ℕ → ℕ → Outcome E ℕ
u16be buf off = do a ← read buf off; b ← read buf (off + 1); ok (from_be_u16 a b)

-- `let read_u16 = if big_endian { u16be } else { u16le }`
unfoldable pub read_u16 : {E : Type 0} → Bool → List ℕ → ℕ → Outcome E ℕ
unfolding u16le u16be
read_u16 true buf off = u16be buf off
read_u16 false buf off = u16le buf off

unfoldable pub is_slot_offset : ℕ → Bool
is_slot_offset value = leb slot_offset_min value && ltb value slot_offset_max

-- The `while` loop of `scan_from`: where it stops, and the slots. The end of the fuel is a panic too,
-- so that a scan that does not panic has had enough.
unfoldable pub collect_slots :
    {E : Type 0} → List ℕ → Bool → ℕ → ℕ → ℕ → Bool → List ℕ → Outcome E (ℕ × List ℕ)
collect_slots plain big_endian zero pos prev seen_live slots = panic
collect_slots {E} plain big_endian (suc fuel) pos prev seen_live slots =
    if not (ltb (pos + 1) search_limit) then ok (pos, slots) else do
      value ← read_u16 big_endian plain pos
      let deleted =
          collect_slots {E = E} plain big_endian fuel (pos + 2) prev seen_live (slots ++ (0 ∷ []))
      let found =
          collect_slots {E = E} plain big_endian fuel (pos + 2) value true (slots ++ (value ∷ []))
      if value == 0 && seen_live
          then deleted
          else if is_slot_offset value && ltb value prev
          then found
          else ok (pos, slots)

-- Whether a zero word and a slot offset stand at the start.
unfoldable pub has_leading_zero : {E : Type 0} → List ℕ → Bool → ℕ → Outcome E Bool
has_leading_zero plain big_endian pos = if not (ltb (pos + 3) search_limit) then ok false else do
  first ← read_u16 big_endian plain pos
  if not (first == 0)
      then ok false
      else do second ← read_u16 big_endian plain (pos + 2); ok (is_slot_offset second)

unfoldable pub scan_from : {E : Type 0} → List ℕ → ℕ → Bool → Outcome E (Option SlotDirectory)
scan_from plain start big_endian = do
  leading_zero ← has_leading_zero plain big_endian start
  let array_start = if leading_zero then start + 2 else start
  (pos, slots) ← collect_slots plain big_endian search_limit array_start 0x10000 false []
  if ltb (length (live slots)) min_live_slots then ok none else elim (min_of (live slots)) [
    | none ↦ ok none
    | some min_offset ↦
        if ltb min_offset pos
        then ok none
        else ok (
            some (record {
              scan_start = start;
              array_start = array_start;
              end = pos;
              slots = slots;
              leading_zero = leading_zero;
              big_endian = big_endian;
            }))
  ]

-- Whether a candidate replaces the best directory so far.
unfoldable pub better : SlotDirectory → Option SlotDirectory → Bool
better cand none = true
better cand (some b) =
    let cand_live = length (live cand.slots) in
    let best_live = length (live b.slots) in
    ltb best_live cand_live || cand_live == best_live && ltb (length b.slots) (length cand.slots)

unfoldable pub consider : Option SlotDirectory → Option SlotDirectory → Option SlotDirectory
consider best none = best
consider best (some cand) = if better cand best then some cand else best

-- `for start in 0..SEARCH_LIMIT`, with the rounds left and the next start.
unfoldable pub find_from :
    {E : Type 0} → List ℕ → ℕ → ℕ → Option SlotDirectory → Outcome E (Option SlotDirectory)
find_from plain zero start best = ok best
find_from plain (suc left) start best = do
  little ← scan_from plain start false
  big ← scan_from plain start true
  find_from plain left (suc start) (consider (consider best little) big)

unfoldable pub find_slot_directory : {E : Type 0} → List ℕ → Outcome E (Option SlotDirectory)
find_slot_directory plain = find_from plain search_limit 0 none

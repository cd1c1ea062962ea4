-- ===== src/Slotted/Scans.antt =====
-- `scan_from`: what a scan at one offset returns.
use opensqlanywhere.Base.{ℕ, ◌+◌, ◌*◌, ◌≤◌, ◌<◌, ◌≡◌, inl, inr, refl, List, [], ◌∷◌, arith}
use opensqlanywhere.Base.{
  Bool, false, ◌&&◌, ◌==◌, ltb, lt→ltb, if◌then◌else◌, length, Option, none, some, Option-cases,
  Outcome, ok,
}
use opensqlanywhere.Slotted.{
  SlotDirectory, search_limit, live, min_of, is_slot_offset, has_leading_zero, scan_from,
}
use opensqlanywhere.Slotted.Runs.{word_at, read_u16-ok, IsRun, collect_slots-Collected}
use native.Mathlib.Decide.{dec_lt}

abbrev pub IsAbove : ℕ → List ℕ → Type 0
IsAbove e [] = Unit
IsAbove e (s ∷ ss) = (e ≤ s) × IsAbove e ss

pub IsAbove-le : (a b : ℕ) (l : List ℕ) → a ≤ b → IsAbove b l → IsAbove a l
IsAbove-le a b [] h x = tt
IsAbove-le a b (s ∷ ss) h (x, xs) = (omega arith, IsAbove-le a b ss h xs)

IsAbove-none : (m : ℕ) (l : List ℕ) → min_of l ≡ none → IsAbove m l
IsAbove-none m [] e = tt
IsAbove-none m (s ∷ ss) e =
    absurd (elim (Option-cases (min_of ss)) [
      | inl none_below ↦ ground arith
      | inr (k, e') ↦ ground arith
    ])

min_of-IsAbove : (l : List ℕ) (m : ℕ) → min_of l ≡ some m → IsAbove m l
min_of-IsAbove [] m e = tt
min_of-IsAbove (s ∷ ss) m e = elim (Option-cases (min_of ss)) [
  | inl none_below ↦ (ground arith, IsAbove-none m ss none_below)
  | inr (k, e') ↦ (ground arith, IsAbove-le m k ss (ground arith) (min_of-IsAbove ss k e'))
]

-- Whether the scan skips a zero word before the first slot.
abbrev pub leads : Bool → List ℕ → ℕ → Bool
leads big_endian bs start =
    ltb (start + 3) search_limit
    && word_at big_endian bs start == 0
    && is_slot_offset (word_at big_endian bs (start + 2))

has_leading_zero-ok :
    {E : Type 0} (big_endian : Bool) (bs : List ℕ) (start : ℕ)
    → 0x300 ≤ length bs
    → has_leading_zero {E = E} bs big_endian start ≡ ok (leads big_endian bs start)
unfolding has_leading_zero
has_leading_zero-ok {E} big_endian bs start size = elim (dec_lt (start + 3) 0x300) [
  | no out ↦ ground arith
  | yes inside ↦
      rw
        (
          lt→ltb _ _ inside,
          read_u16-ok {E = E} big_endian bs start (omega arith),
          read_u16-ok {E = E} big_endian bs (start + 2) (omega arith),
        )
        (ground arith)
]

first_le :
    (big_endian : Bool) (bs : List ℕ) (start : ℕ)
    → start < 0x300
    → (if leads big_endian bs start then start + 2 else start) ≤ 0x300
first_le big_endian bs start h = ground arith

-- A directory that a scan at `start` has found.
pub record IsDirectory (big_endian : Bool) (bs : List ℕ) (start : ℕ) (d : SlotDirectory)
    : Type 0 where
  pub scanned : d.scan_start ≡ start
  pub order : d.big_endian ≡ big_endian
  pub leading : d.leading_zero ≡ leads big_endian bs start
  pub begins : d.array_start ≡ (if leads big_endian bs start then start + 2 else start)
  pub ends : d.end ≡ d.array_start + 2 * length d.slots
  pub run : IsRun big_endian bs d.array_start 0x10000 false d.slots
  pub enough : 8 ≤ length (live d.slots)
  pub above : IsAbove d.end (live d.slots)

-- What `scan_from` returns: no directory, or one.
pub data Scanned (E : Type 0) (big_endian : Bool) (bs : List ℕ) (start : ℕ)
    : Outcome E (Option SlotDirectory) → Type 0 where
  nothing : {o : Outcome E (Option SlotDirectory)} → o ≡ ok none → Scanned E big_endian bs start o
  found :
      {o : Outcome E (Option SlotDirectory)} (d : SlotDirectory)
      → o ≡ ok (some d)
      → IsDirectory big_endian bs start d
      → Scanned E big_endian bs start o

-- A scan that starts inside the searched prefix of a page returns, for either byte order: it does
-- not read out of range. A directory it finds starts at the start, or behind a zero word there that
-- a slot offset follows; its slots are the words from there to its end, each of them an offset in
-- range below the last live one, or a zero behind a live slot; eight of them at least are live; and
-- no live slot is inside the directory.
pub scan_from-Scanned :
    {E : Type 0} (big_endian : Bool) (bs : List ℕ) (start : ℕ)
    → 0x300 ≤ length bs
    → start < 0x300
    → Scanned E big_endian bs start (scan_from bs start big_endian)
unfolding scan_from
scan_from-Scanned {E} big_endian bs start size inside =
    let z = leads big_endian bs start in
    let first = if z then start + 2 else start in
    let c =
      collect_slots-Collected {E = E} big_endian bs size 0x300 first 0x10000 false []
        (first_le big_endian bs start inside) (omega arith) in
    rw (has_leading_zero-ok {E = E} big_endian bs start size, c.returns)
      (elim (dec_lt (length (live c.rest)) 8) [
        | yes few ↦ nothing (rw (lt→ltb _ _ few))
        | no enough ↦ elim (Option-cases (min_of (live c.rest))) [
          | inl e ↦ nothing (rw e (ground arith))
          | inr (m, e) ↦ elim (dec_lt m c.end) [
            | yes low ↦ nothing (rw (e, lt→ltb _ _ low) (ground arith))
            | no high ↦
                found
                  (record {
                    scan_start = start;
                    array_start = first;
                    end = c.end;
                    slots = c.rest;
                    leading_zero = z;
                    big_endian = big_endian;
                  })
                  (rw e (ground arith))
                  (record {
                    scanned = refl;
                    order = refl;
                    leading = refl;
                    begins = refl;
                    ends = c.ends;
                    run = c.run;
                    enough = omega arith;
                    above =
                        IsAbove-le c.end m (live c.rest) (omega arith)
                          (min_of-IsAbove (live c.rest) m e);
                  })
          ]
        ]
      ])

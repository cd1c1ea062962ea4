-- ===== src/Slotted/Best.antt =====
-- `find_slot_directory`: the best of all the scans.
use opensqlanywhere.Base.{
  ℕ, zero, suc, ◌+◌, ◌≤◌, ◌<◌, ◌≡◌, ◌⊎◌, inl, inr, refl, ◌∙◌, ap, subst, List, arith,
}
use opensqlanywhere.Base.{
  Bool, true, false, Bool-cases, length, Option, none, some, Option-cases, ok,
}
use opensqlanywhere.Slotted.{
  SlotDirectory, live, better, consider, scan_from, find_from, find_slot_directory,
}
use opensqlanywhere.Slotted.Scans.{IsDirectory, Scanned, nothing, found, scan_from-Scanned}
use native.Mathlib.Decide.{dec_lt}

-- No more live slots, or as many and no more slots.
abbrev pub IsAtMost : SlotDirectory → SlotDirectory → Type 0
IsAtMost a b =
    (length (live a.slots) < length (live b.slots))
    ⊎ ((length (live a.slots) ≡ length (live b.slots)) × (length a.slots ≤ length b.slots))

IsAtMost-trans : (a b c : SlotDirectory) → IsAtMost a b → IsAtMost b c → IsAtMost a c
IsAtMost-trans a b c (inl h) (inl k) = inl (omega arith)
IsAtMost-trans a b c (inl h) (inr (k, l)) = inl (omega arith)
IsAtMost-trans a b c (inr (h, l)) (inl k) = inl (omega arith)
IsAtMost-trans a b c (inr (h, l)) (inr (k, m)) = inr (omega arith, omega arith)

better-IsAtMost :
    (c b : SlotDirectory)
    → ((better c (some b) ≡ true) × IsAtMost b c) ⊎ ((better c (some b) ≡ false) × IsAtMost c b)
unfolding better
better-IsAtMost c b = elim (dec_lt (length (live b.slots)) (length (live c.slots))) [
  | yes more ↦ inl (ground arith, inl more)
  | no h ↦ elim (dec_lt (length (live c.slots)) (length (live b.slots))) [
    | yes fewer ↦ inr (ground arith, inl fewer)
    | no same ↦ elim (dec_lt (length b.slots) (length c.slots)) [
      | yes longer ↦ inl (ground arith, inr (omega arith, omega arith))
      | no shorter ↦ inr (ground arith, inr (omega arith, omega arith))
    ]
  ]
]

-- A directory is at most the one that was chosen.
abbrev pub IsTopped : Option SlotDirectory → SlotDirectory → Type 0
IsTopped best d = (b : SlotDirectory) × (best ≡ some b) × IsAtMost d b

consider-keeps :
    (best cand : Option SlotDirectory) (d : SlotDirectory)
    → IsTopped best d
    → IsTopped (consider best cand) d
unfolding consider
consider-keeps best none d t = t
consider-keeps best (some c) d (b, e, h) = elim (better-IsAtMost c b) [
  | inl (k, l) ↦ (c, rw (e, k) refl, IsAtMost-trans d b c h l)
  | inr (k, l) ↦ (b, rw (e, k) refl, h)
]

consider-takes :
    (best : Option SlotDirectory) (d : SlotDirectory) → IsTopped (consider best (some d)) d
unfolding consider
consider-takes none d = (d, unfold better in refl, inr (refl, omega arith))
consider-takes (some b) d = elim (better-IsAtMost d b) [
  | inl (k, l) ↦ (d, rw k refl, inr (refl, omega arith))
  | inr (k, l) ↦ (b, rw k refl, l)
]

consider-from :
    (best cand : Option SlotDirectory) (d : SlotDirectory)
    → consider best cand ≡ some d
    → (best ≡ some d) ⊎ (cand ≡ some d)
unfolding consider
consider-from best none d e = inl e
consider-from best (some c) d e = elim (Bool-cases (better c best)) [
  | inl k ↦ inr (ground arith)
  | inr k ↦ inl (ground arith)
]

-- The best directory of the scans at the starts below `n`.
record IsBest (E : Type 0) (bs : List ℕ) (n : ℕ) (best : Option SlotDirectory) : Type 0 where
  from :
      (d : SlotDirectory)
      → best ≡ some d
      → (k : ℕ) × (be : Bool) × (k < n) × (scan_from {E = E} bs k be ≡ ok (some d))
  tops :
      (k : ℕ) (be : Bool) (d : SlotDirectory)
      → k < n
      → scan_from {E = E} bs k be ≡ ok (some d)
      → IsTopped best d

module _ (E : Type 0) (bs : List ℕ) where
  round :
      (n : ℕ) (best little big : Option SlotDirectory)
      → scan_from {E = E} bs n false ≡ ok little
      → scan_from {E = E} bs n true ≡ ok big
      → IsBest E bs n best
      → IsBest E bs (suc n) (consider (consider best little) big)
  round n best little big l b i = record { from = from; tops = tops }
    where
      from :
          (d : SlotDirectory)
          → consider (consider best little) big ≡ some d
          → (k : ℕ) × (be : Bool) × (k < suc n) × (scan_from {E = E} bs k be ≡ ok (some d))
      from d e = elim (consider-from (consider best little) big d e) [
        | inr e' ↦ (n, true, omega arith, b ∙ ap ok e')
        | inl e' ↦ elim (consider-from best little d e') [
          | inr e'' ↦ (n, false, omega arith, l ∙ ap ok e'')
          | inl e'' ↦ let (k, be, h, s) = i.from d e'' in (k, be, omega arith, s)
        ]
      ]

      tops :
          (k : ℕ) (be : Bool) (d : SlotDirectory)
          → k < suc n
          → scan_from {E = E} bs k be ≡ ok (some d)
          → IsTopped (consider (consider best little) big) d
      tops k be d h s = elim (dec_lt k n) [
        | yes below ↦ consider-keeps _ big d (consider-keeps best little d (i.tops k be d below s))
        | no last ↦ at_n k be (omega arith) s
      ]
        where
          at_n :
              (k : ℕ) (be : Bool)
              → k ≡ n
              → scan_from {E = E} bs k be ≡ ok (some d)
              → IsTopped (consider (consider best little) big) d
          at_n k false e s =
              let little_is : little ≡ some d = cc in
              rw little_is (consider-keeps _ big d (consider-takes best d))
          at_n k true e s = let big_is : big ≡ some d = cc in rw big_is (consider-takes _ d)

  scan_ok :
      (k : ℕ) (be : Bool)
      → 0x300 ≤ length bs
      → k < 0x300
      → (o : Option SlotDirectory) × (scan_from {E = E} bs k be ≡ ok o)
  scan_ok k be size h = elim (scan_from-Scanned {E = E} be bs k size h) [
    | nothing e ↦ (none, e)
    | found d e i ↦ (some d, e)
  ]

  find_from-IsBest :
      (left start : ℕ) (best : Option SlotDirectory)
      → 0x300 ≤ length bs
      → left + start ≡ 0x300
      → IsBest E bs start best
      → (o : Option SlotDirectory) × (find_from {E = E} bs left start best ≡ ok o)
        × IsBest E bs 0x300 o
  unfolding find_from
  find_from-IsBest zero start best size h i =
      (best, refl, subst (λ n. IsBest E bs n best) (omega arith) i)
  find_from-IsBest (suc left) start best size h i =
      let (little, l) = scan_ok start false size (omega arith) in
      let (big, b) = scan_ok start true size (omega arith) in
      let (o, e, i') =
        find_from-IsBest left (suc start) (consider (consider best little) big) size (omega arith)
          (round start best little big l b i) in
      (o, rw (l, b) e, i')

  found_all :
      0x300 ≤ length bs
      → (o : Option SlotDirectory) × (find_slot_directory {E = E} bs ≡ ok o) × IsBest E bs 0x300 o
  unfolding find_slot_directory
  found_all size =
      find_from-IsBest 0x300 0 none size refl
        (record { from = λ d h. absurd (ground arith); tops = λ k be d h. absurd (omega arith) })

  -- The search of a page that is not shorter than the searched prefix returns, without reading out
  -- of range. A directory it returns is one that the scan at some start in one of the byte orders
  -- returned, and has the form that `IsDirectory` says: its slots are the words from its start to
  -- its end, each of them an offset in range below the last live one, or a zero behind a live slot;
  -- eight of them at least are live; and no live slot is inside the directory.
  pub find_slot_directory-IsDirectory :
      0x300 ≤ length bs
      → (find_slot_directory {E = E} bs ≡ ok none)
        ⊎ ((d : SlotDirectory) × (k : ℕ) × (be : Bool) × (find_slot_directory {E = E} bs
              ≡ ok (some d))
            × (scan_from {E = E} bs k be ≡ ok (some d))
            × IsDirectory be bs k d)
  find_slot_directory-IsDirectory size =
      let (o, e, i) = found_all size in
      elim (Option-cases o) [
        | inl h ↦ inl (e ∙ ap ok h)
        | inr (d, h) ↦
            let (k, be, below, s) = i.from d h in
            inr (
              d,
              k,
              be,
              e ∙ ap ok h,
              s,
              is_directory d k be s (scan_from-Scanned {E = E} be bs k size below),
            )
      ]
    where
      is_directory :
          (d : SlotDirectory) (k : ℕ) (be : Bool)
          → scan_from {E = E} bs k be ≡ ok (some d)
          → Scanned E be bs k (scan_from bs k be)
          → IsDirectory be bs k d
      is_directory d k be s (nothing e) = absurd (ground arith)
      is_directory d k be s (found d' e i) =
          let same : d' ≡ d = cc in subst (IsDirectory be bs k) same i

  -- In a page that is not shorter than the searched prefix, where the scan at a start of that prefix
  -- returns a directory in either byte order, the search returns a directory too, and the scan's has
  -- fewer live slots than it, or as many and no more slots.
  pub find_slot_directory_best :
      (k : ℕ) (be : Bool) (d : SlotDirectory)
      → 0x300 ≤ length bs
      → k < 0x300
      → scan_from {E = E} bs k be ≡ ok (some d)
      → (b : SlotDirectory) × (find_slot_directory {E = E} bs ≡ ok (some b)) × IsAtMost d b
  find_slot_directory_best k be d size h s =
      let (o, e, i) = found_all size in
      let (b, same, l) = i.tops k be d h s in (b, e ∙ ap ok same, l)

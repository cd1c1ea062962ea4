-- ===== src/Slotted/Rows/Laws.antt =====
-- What `row_slots` returns.
use opensqlanywhere.Base.{
  ℕ, zero, suc, ◌-◌, ◌≤◌, ◌<◌, ◌≡◌, ◌≢◌, ◌⊎◌, inl, inr, refl, ◌∙◌, sym, ap, subst, List, [], ◌∷◌,
  arith, false, ◌==◌, Bool-cases, All, none, some, Option-cases, ok, slice, slice-ok, length, take,
  drop, get_or,
}
use opensqlanywhere.Slotted.{SlotDirectory, live}
use opensqlanywhere.Slotted.Rows.{
  SlottedPage, sort_unstable, Bound, bounds_of, find_bound, Row, rows_from, row_slots,
}
use opensqlanywhere.Slotted.Rows.Bounds.{
  IsBound, sort_unstable-IsSorted, All-sort_unstable, bounds_of-IsBound, find_bound-found,
}

-- A row of the slots of a directory: the offset of its slot, and the page's bytes from there to an
-- end before the trailer, with no live offset in between.
pub record IsRow (bytes slots : List ℕ) (r : Row) : Type 0 where
  pub live_slot : r.offset ≢ 0
  pub at_index : get_or slots r.slot_index 0 ≡ r.offset
  pub end : ℕ
  pub filled : r.offset < end
  pub before_trailer : end ≤ 0xFF0
  pub alone : All (λ y. (y ≤ r.offset) ⊎ (end ≤ y)) (live slots)
  pub same_bytes : r.bytes ≡ take (end - r.offset) (drop r.offset bytes)

get_or-drop_head : (i : ℕ) (l ss : List ℕ) (x : ℕ) → drop i l ≡ x ∷ ss → x ≡ get_or l i 0
get_or-drop_head zero l ss x e = rw e refl
get_or-drop_head (suc i) [] ss x e = cc
get_or-drop_head (suc i) (y ∷ ys) ss x e = get_or-drop_head i ys ss x e

drop-tail : (i : ℕ) (l ss : List ℕ) (x : ℕ) → drop i l ≡ x ∷ ss → drop (suc i) l ≡ ss
drop-tail zero l ss x e = rw e refl
drop-tail (suc i) [] ss x e = cc
drop-tail (suc i) (y ∷ ys) ss x e = drop-tail i ys ss x e

module _ {E : Type 0} (bytes all : List ℕ) (bounds : List Bound) (size : 0xFF0 ≤ length bytes)
    (bounded : All (IsBound (sort_unstable (live all))) bounds) where
  row :
      (i off : ℕ) (slots : List ℕ) (b : Bound)
      → drop i all ≡ off ∷ slots
      → (off == 0) ≡ false
      → find_bound bounds off ≡ some b
      → (slice {E = E} bytes b.start b.end ≡ ok (take (b.end - off) (drop off bytes)))
        × IsRow bytes all
            (record { slot_index = i; offset = off; bytes = take (b.end - off) (drop off bytes) })
  row i off slots b at nz e =
      let (k, same) =
        find_bound-found (IsBound (sort_unstable (live all))) bounds off b bounded e in
      let kept = k.filled in
      let inside = k.inside in
      (
        slice-ok {E = E} bytes b.start b.end (omega arith) (omega arith)
            ∙ ap (λ o. ok (take (b.end - o) (drop o bytes))) same,
        record {
          live_slot = ground arith;
          at_index = sym (get_or-drop_head i all slots off at);
          end = b.end;
          filled = omega arith;
          before_trailer = inside;
          alone =
              All-sort_unstable (λ y. (y ≤ off) ⊎ (b.end ≤ y)) (live all)
                (subst (λ o. All (λ y. (y ≤ o) ⊎ (b.end ≤ y)) (sort_unstable (live all))) same
                  k.alone);
          same_bytes = refl;
        },
      )

  rows_from-IsRow :
      (i : ℕ) (slots : List ℕ)
      → drop i all ≡ slots
      → (rows : List Row) × (rows_from {E = E} bytes bounds i slots ≡ ok rows)
        × All (IsRow bytes all) rows
  unfolding rows_from
  rows_from-IsRow i [] at = ([], refl, tt)
  rows_from-IsRow i (off ∷ slots) at =
      let (more, e, rest) = rows_from-IsRow (suc i) slots (drop-tail i all slots off at) in
      elim (Bool-cases (off == 0)) [
        | inl z ↦ (more, rw (z, e), rest)
        | inr nz ↦ elim (Option-cases (find_bound bounds off)) [
          | inl n ↦ (more, rw (nz, n, e), rest)
          | inr (b, f) ↦
              let (cut, is_row) = row i off slots b at nz f in
              (_ ∷ more, rw (nz, f, cut, e), (is_row, rest))
        ]
      ]

-- In a page with bytes up to its trailer, `row_slots` returns, whatever the directory: no slice is out
-- of range. Without a directory there are no rows. Each row of a directory has the index and the
-- offset of a slot that is not zero, and the page's bytes from that offset to an end that does not
-- pass the start of the trailer; no live slot points behind the row's start and before its end.
pub row_slots-IsRow :
    {E : Type 0} (sp : SlottedPage)
    → 0xFF0 ≤ length sp.page.bytes
    → ((sp.directory ≡ none) × (row_slots {E = E} sp ≡ ok []))
      ⊎ ((d : SlotDirectory) × (sp.directory ≡ some d)
          × ((rows : List Row) × (row_slots {E = E} sp ≡ ok rows)
              × All (IsRow sp.page.bytes d.slots) rows))
unfolding row_slots
row_slots-IsRow {E} sp size = elim (Option-cases sp.directory) [
  | inl e ↦ inl (e, rw e refl)
  | inr (d, e) ↦
      let l = sort_unstable (live d.slots) in
      let (rows, e', all) =
        rows_from-IsRow {E = E} sp.page.bytes d.slots (bounds_of l) size
          (bounds_of-IsBound l (sort_unstable-IsSorted (live d.slots))) 0 d.slots refl in
      inr (d, e, (rows, rw e e', all))
]

-- ===== src/Slotted/Rows/Complete.antt =====
-- The rows of the live slots of a directory that the search found.
use opensqlanywhere.Base.{
  ℕ, suc, ◌+◌, ◌-◌, ◌≤◌, ◌<◌, ◌≡◌, ◌≢◌, inl, inr, refl, ◌∙◌, sym, ap, subst, List, [], ◌∷◌, arith,
  Bool, true, false, ◌&&◌, ◌==◌, ltb, leb, Bool-cases, All, Option, none, some, Outcome, ok,
  slice-ok, length, take, drop,
}
use opensqlanywhere.Slotted.{SlotDirectory, live, find_slot_directory}
use opensqlanywhere.Slotted.Runs.{IsRun}
use opensqlanywhere.Slotted.Best.{find_slot_directory-IsDirectory}
use opensqlanywhere.Slotted.Rows.{
  SlottedPage, parse_slotted, insert, sort_unstable, Bound, next_or_trailer, bounds_of, find_bound,
  Row, rows_from, row_slots,
}
use opensqlanywhere.Slotted.Rows.Bounds.{
  IsSorted, IsBound, sort_unstable-IsSorted, All-sort_unstable, bounds_of-IsBound, find_bound-found,
}
use opensqlanywhere.Page.{Page, page_size}

-- The bounds hold one for the offset.
abbrev HasBound : List Bound → ℕ → Type 0
HasBound bs off = (b : Bound) × (find_bound bs off ≡ some b)

lift : (c : Bound) (bs : List Bound) (off : ℕ) → HasBound bs off → HasBound (c ∷ bs) off
unfolding find_bound
lift c bs off (b, e) = elim (Bool-cases (c.start == off)) [
  | inl t ↦ (c, rw t refl)
  | inr t ↦ (b, rw t e)
]

lift-All :
    (c : Bound) (bs : List Bound) (l : List ℕ) → All (HasBound bs) l → All (HasBound (c ∷ bs)) l
lift-All c bs [] h = tt
lift-All c bs (x ∷ xs) (h, hs) = (lift c bs x h, lift-All c bs xs hs)

-- An offset that gets no bound of its own is the next one too.
same_as_next :
    (x : ℕ) (xs : List ℕ) (bs : List Bound)
    → IsSorted (x ∷ xs)
    → All (λ s. s < 0xFF0) (x ∷ xs)
    → (ltb x (next_or_trailer xs) && leb (next_or_trailer xs) 0xFF0) ≡ false
    → All (HasBound bs) xs
    → HasBound bs x
same_as_next x [] bs s (b, u) e h = absurd (ground arith)
same_as_next x (n ∷ ns) bs ((a, ab), s) (b, (c, u)) e (h, hs) =
    let same : n ≡ x = ground arith in subst (HasBound bs) same h

bounds_kept :
    (x : ℕ) (xs : List ℕ)
    → (ltb x (next_or_trailer xs) && leb (next_or_trailer xs) 0xFF0) ≡ true
    → bounds_of (x ∷ xs) ≡ record { start = x; end = next_or_trailer xs } ∷ bounds_of xs
unfolding bounds_of
bounds_kept x xs e = rw e refl

bounds_dropped :
    (x : ℕ) (xs : List ℕ)
    → (ltb x (next_or_trailer xs) && leb (next_or_trailer xs) 0xFF0) ≡ false
    → bounds_of (x ∷ xs) ≡ bounds_of xs
unfolding bounds_of
bounds_dropped x xs e = rw e refl

found_at_head : (x e : ℕ) (bs : List Bound) → HasBound (record { start = x; end = e } ∷ bs) x
unfolding find_bound
found_at_head x e bs = (record { start = x; end = e }, ground arith)

All-HasBound : (l : List ℕ) → IsSorted l → All (λ s. s < 0xFF0) l → All (HasBound (bounds_of l)) l
All-HasBound [] s u = tt
All-HasBound (x ∷ xs) (a, s) (b, u) =
    let rest = All-HasBound xs s u in
    elim (Bool-cases (ltb x (next_or_trailer xs) && leb (next_or_trailer xs) 0xFF0)) [
      | inl e ↦
          subst (λ bs. All (HasBound bs) (x ∷ xs)) (sym (bounds_kept x xs e))
            (found_at_head x (next_or_trailer xs) (bounds_of xs), lift-All _ (bounds_of xs) xs rest)
      | inr e ↦
          subst (λ bs. All (HasBound bs) (x ∷ xs)) (sym (bounds_dropped x xs e))
            (same_as_next x xs (bounds_of xs) (a, s) (b, u) e rest, rest)
    ]

All-below_insert :
    (n x : ℕ) (l : List ℕ) → x < n → All (λ s. s < n) l → All (λ s. s < n) (insert x l)
unfolding insert
All-below_insert n x [] h k = (h, tt)
All-below_insert n x (y ∷ ys) h (k, ks) = elim (Bool-cases (leb x y)) [
  | inl e ↦ rw e (h, (k, ks))
  | inr e ↦ rw e (k, All-below_insert n x ys h ks)
]

All-below_sort : (n : ℕ) (l : List ℕ) → All (λ s. s < n) l → All (λ s. s < n) (sort_unstable l)
unfolding sort_unstable
All-below_sort n [] h = tt
All-below_sort n (x ∷ xs) (h, hs) =
    All-below_insert n x (sort_unstable xs) h (All-below_sort n xs hs)

abbrev pub offsets : List Row → List ℕ
offsets [] = []
offsets (r ∷ rs) = r.offset ∷ offsets rs

run_below :
    (be : Bool) (bs : List ℕ) (pos prev : ℕ) (seen : Bool) (slots : List ℕ)
    → IsRun be bs pos prev seen slots
    → All (λ s. s < 0xFF0) (live slots)
run_below be bs pos prev seen [] r = tt
run_below be bs pos prev seen (s ∷ ss) (e, inl ((z, t), r)) =
    rw z (run_below be bs (pos + 2) prev seen ss r)
run_below be bs pos prev seen (s ∷ ss) (e, inr ((lo, hi, lt), r)) =
    let live_one : (s == 0) ≡ false = ground arith in
    rw live_one (hi, run_below be bs (pos + 2) s true ss r)

rest_zero :
    (P : ℕ → Type 0) (off : ℕ) (slots : List ℕ)
    → (off == 0) ≡ true
    → All P (live (off ∷ slots))
    → All P (live slots)
rest_zero P off slots z = rw z (λ h. h)

rest_live :
    (P : ℕ → Type 0) (off : ℕ) (slots : List ℕ)
    → (off == 0) ≡ false
    → All P (live (off ∷ slots))
    → P off × All P (live slots)
rest_live P off slots nz = rw nz (λ h. h)

module _ {E : Type 0} (bytes : List ℕ) (bounds : List Bound) (l : List ℕ)
    (size : 0xFF0 ≤ length bytes) (bounded : All (IsBound l) bounds) where
  rows_from-offsets :
      (i : ℕ) (slots : List ℕ)
      → All (HasBound bounds) (live slots)
      → (rows : List Row) × (rows_from {E = E} bytes bounds i slots ≡ ok rows)
        × (offsets rows ≡ live slots)
  unfolding rows_from
  rows_from-offsets i [] h = ([], refl, refl)
  rows_from-offsets i (off ∷ slots) h = elim (Bool-cases (off == 0)) [
    | inl z ↦
        let (rows, e, o) =
          rows_from-offsets (suc i) slots (rest_zero (HasBound bounds) off slots z h) in
        (rows, rw (z, e), rw z o)
    | inr nz ↦
        let ((b, f), more) = rest_live (HasBound bounds) off slots nz h in
        let (rows, e, o) = rows_from-offsets (suc i) slots more in
        let (k, same) = find_bound-found (IsBound l) bounds off b bounded f in
        let filled = k.filled in
        let inside = k.inside in
        let cut = slice-ok {E = E} bytes b.start b.end (omega arith) (omega arith) in
        (
          record {
            slot_index = i;
            offset = off;
            bytes = take (b.end - b.start) (drop b.start bytes);
          }
              ∷ rows,
          rw (nz, f, cut, e),
          rw nz (ap (λ t. off ∷ t) o),
        )
  ]

rows_of :
    {E : Type 0} (sp : SlottedPage) (d : SlotDirectory)
    → sp.directory ≡ some d
    → 0xFF0 ≤ length sp.page.bytes
    → All (λ s. s < 0xFF0) (live d.slots)
    → (rows : List Row) × (row_slots {E = E} sp ≡ ok rows) × (offsets rows ≡ live d.slots)
unfolding row_slots
rows_of {E} sp d found size below =
    let l = sort_unstable (live d.slots) in
    let sorted = sort_unstable-IsSorted (live d.slots) in
    let has = All-HasBound l sorted (All-below_sort 0xFF0 (live d.slots) below) in
    let (rows, e, o) =
      rows_from-offsets {E = E} sp.page.bytes (bounds_of l) l size (bounds_of-IsBound l sorted) 0
        d.slots (All-sort_unstable (HasBound (bounds_of l)) (live d.slots) has) in
    (rows, rw found e, o)

parsed_page :
    {E : Type 0} (page : Page) (sp : SlottedPage) (o : Option SlotDirectory)
    → find_slot_directory {E = E} page.bytes ≡ ok o
    → parse_slotted {E = E} page ≡ ok sp
    → sp ≡ record { page = page; directory = o }
unfolding parse_slotted
parsed_page {E} page sp o e parsed = ok-injective E _ _ (sym parsed ∙ rw e refl)
  where
    ok-injective :
        (E : Type 0) (a b : SlottedPage) → ◌≡◌ {A = Outcome E SlottedPage} (ok a) (ok b) → a ≡ b
    ok-injective E a b h = cc

-- If a page of 4096 bytes is parsed and a directory is found, `row_slots` gives exactly one row for each
-- live slot of the directory, in the order of the slots.
pub row_slots_complete :
    {E : Type 0} (page : Page) (sp : SlottedPage) (d : SlotDirectory)
    → length page.bytes ≡ page_size
    → parse_slotted {E = E} page ≡ ok sp
    → sp.directory ≡ some d
    → (rows : List Row) × (row_slots {E = E} sp ≡ ok rows) × (offsets rows ≡ live d.slots)
row_slots_complete {E} page sp d size parsed found =
    elim (find_slot_directory-IsDirectory E page.bytes (omega arith)) [
      | inl e ↦
          let same = ap (λ z. z.directory) (parsed_page {E = E} page sp none e parsed) in
          absurd (none-ne-some d (sym same ∙ found))
      | inr (d', k, be, e, s, i) ↦
          let same = parsed_page {E = E} page sp (some d') e parsed in
          let same_d = some-injective d' d (sym (ap (λ z. z.directory) same) ∙ found) in
          rows_of {E = E} sp d found (size_of same) (
            subst (λ z. All (λ s. s < 0xFF0) (live z.slots)) same_d
              (run_below be page.bytes _ _ _ d'.slots i.run))
    ]
  where
    none-ne-some : (d : SlotDirectory) → none ≢ some d
    none-ne-some d h = cc

    some-injective : (a b : SlotDirectory) → some a ≡ some b → a ≡ b
    some-injective a b h = cc

    size_of :
        {o : Option SlotDirectory}
        → sp ≡ record { page = page; directory = o }
        → 0xFF0 ≤ length sp.page.bytes
    size_of same = rw (ap (λ z. z.page) same) (omega arith)

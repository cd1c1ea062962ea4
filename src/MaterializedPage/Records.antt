-- ===== src/MaterializedPage/Records.antt =====
-- `MaterializedTablePage::parse`: the validation of every record.
use opensqlanywhere.Base.{
  ℕ, zero, suc, ◌+◌, ◌*◌, ◌≤◌, ◌<◌, ◌≡◌, ◌≢◌, ◌⊎◌, inl, inr, refl, List, arith,
}
use opensqlanywhere.Base.{length, Outcome, ok, err, panic, ◌>>=◌, ◌>>◌, read-ok}
use opensqlanywhere.Base.Bytes.{from_le_u16, from_le_u32, byte_at}
use opensqlanywhere.MaterializedPage.{MaterializedTablePage, MaterializedPageError}
use opensqlanywhere.MaterializedPage.{directory_end, validate_records, parse}
use opensqlanywhere.MaterializedPage.{checked}
use opensqlanywhere.MaterializedPage.Directory.{
  IsPage, RowFits, entry_of, directory_entry-ok, row_at-ok, row_at_decide, directory_end-ok,
}
use opensqlanywhere.MaterializedPage.{directory_out_of_bounds, invalid_page_length, wrong_page_type}
use native.Mathlib.Decide.{ℕ_discrete, dec_lt}

-- The directory entry is zero, or its row fits.
abbrev pub EntryFits : MaterializedTablePage → ℕ → Type 0
EntryFits p id = (entry_of p id ≡ 0) ⊎ RowFits p (entry_of p id)

abbrev pub page_of : List ℕ → MaterializedTablePage
page_of bs = record {
  bytes = bs;
  key = from_le_u32 (byte_at bs 0) (byte_at bs 1) (byte_at bs 2) (byte_at bs 3);
  record_count = from_le_u16 (byte_at bs 0x16) (byte_at bs 0x17);
}

-- One round of the validation.
round_inv :
    (p : MaterializedTablePage) (v : IsPage p) (left id : ℕ)
    → id < p.record_count
    → validate_records p (suc left) id ≡ ok tt
    → EntryFits p id × (validate_records p left (suc id) ≡ ok tt)
unfolding validate_records
round_inv p v left id lt e = elim (row_at_decide p v id (entry_of p id)) [
  | inl r ↦
      (inr r, ground (arith, directory_entry-ok p v id lt, row_at-ok p v id (entry_of p id) r))
  | inr (x, bad) ↦ ground (arith, directory_entry-ok p v id lt)
]

validate-EntryFits :
    (p : MaterializedTablePage) (v : IsPage p) (left id j : ℕ)
    → id + left ≤ p.record_count
    → validate_records p left id ≡ ok tt
    → id ≤ j
    → j < id + left
    → EntryFits p j
validate-EntryFits p v zero id j b e lo hi = absurd (omega arith)
validate-EntryFits p v (suc left) id j b e lo hi =
    let (here, rest) = round_inv p v left id (omega arith) e in
    elim (ℕ_discrete id j) [
      | yes same ↦ rw (← same) here
      | no other ↦
          validate-EntryFits p v left (suc id) j (omega arith) rest (omega arith) (omega arith)
    ]

validate-ne-panic :
    (p : MaterializedTablePage) (v : IsPage p) (left id : ℕ)
    → id + left ≤ p.record_count
    → validate_records p left id ≢ panic
unfolding validate_records
validate-ne-panic p v zero id b = λ e. cc
validate-ne-panic p v (suc left) id b = elim (row_at_decide p v id (entry_of p id)) [
  | inl r ↦ ground (
    arith,
    directory_entry-ok p v id,
    row_at-ok p v id (entry_of p id) r,
    validate-ne-panic p v left (suc id),
  )
  | inr (x, bad) ↦
      ground (arith, directory_entry-ok p v id, bad, validate-ne-panic p v left (suc id))
]

directory_end_decide :
    (p : MaterializedTablePage)
    → length p.bytes ≡ 4096
    → IsPage p ⊎ (directory_end p ≡ err (directory_out_of_bounds p.record_count))
unfolding directory_end checked
directory_end_decide p full = elim (dec_lt 4096 (28 + p.record_count * 2)) [
  | yes over ↦ inr (rw full (ground arith))
  | no fits ↦ inl (omega arith)
]

-- Past the length and the type byte.
pub parse_checked :
    (bs : List ℕ)
    → length bs ≡ 4096
    → byte_at bs 0x10 ≡ 4
    → parse bs ≡ (
        directory_end (page_of bs) >>= λ _.
        validate_records (page_of bs) (page_of bs).record_count 0 >> ok (page_of bs))
unfolding parse
parse_checked bs full type4 = rw (
  full,
  read-ok bs 0x10 (omega arith),
  read-ok bs 0 (omega arith),
  read-ok bs 1 (omega arith),
  read-ok bs 2 (omega arith),
  read-ok bs 3 (omega arith),
  read-ok bs 0x16 (omega arith),
  read-ok bs 0x17 (omega arith),
  type4,
)

abbrev pub Accepts : List ℕ → Type 0
Accepts bs =
    (length bs ≡ 4096)
    × (byte_at bs 0x10 ≡ 4)
    × IsPage (page_of bs)
    × ((id : ℕ) → id < (page_of bs).record_count → EntryFits (page_of bs) id)

pub parse_decide :
    (bs : List ℕ)
    → (Accepts bs × (parse bs ≡ ok (page_of bs)))
      ⊎ ((e : MaterializedPageError) × (parse bs ≡ err e))
parse_decide bs = elim (ℕ_discrete (length bs) 4096) [
  | no n ↦ inr (invalid_page_length (length bs), unfold parse in ground arith)
  | yes full ↦ elim (ℕ_discrete (byte_at bs 0x10) 4) [
    | no n ↦ inr (
      wrong_page_type (byte_at bs 0x10),
      unfold parse in rw (full, read-ok bs 0x10 (omega arith)) (ground arith),
    )
    | yes type4 ↦ elim (directory_end_decide (page_of bs) full) [
      | inr bad ↦
          inr (
            directory_out_of_bounds (page_of bs).record_count,
            rw (parse_checked bs full type4, bad),
          )
      | inl v ↦ go full type4 v (validate_records (page_of bs) (page_of bs).record_count 0) refl
    ]
  ]
]
  where
    go :
        length bs ≡ 4096
        → byte_at bs 0x10 ≡ 4
        → IsPage (page_of bs)
        → (o : Outcome MaterializedPageError (Unit {0}))
        → validate_records (page_of bs) (page_of bs).record_count 0 ≡ o
        → (Accepts bs × (parse bs ≡ ok (page_of bs)))
          ⊎ ((e : MaterializedPageError) × (parse bs ≡ err e))
    go full type4 v (ok u) e = inl (
      (
        full,
        type4,
        v,
        λ id lt.
            validate-EntryFits (page_of bs) v (page_of bs).record_count 0 id (omega arith) e
              (omega arith) (omega arith),
      ),
      rw (parse_checked bs full type4, directory_end-ok (page_of bs) v, e),
    )
    go full type4 v (err x) e =
        inr (x, rw (parse_checked bs full type4, directory_end-ok (page_of bs) v, e))
    go full type4 v panic e =
        absurd (validate-ne-panic (page_of bs) v (page_of bs).record_count 0 (omega arith) e)

-- `MaterializedTablePage::parse` never panics, on any bytes.
pub parse-ne-panic : (bs : List ℕ) → parse bs ≢ panic
parse-ne-panic bs = elim (parse_decide bs) [
  | inl (a, e) ↦ rw e (λ p. cc)
  | inr (x, e) ↦ rw e (λ p. cc)
]

-- ===== src/MaterializedPage/Selection.antt =====
-- Selecting a record of a parsed page.
use opensqlanywhere.Base.{
  ℕ, zero, suc, ◌+◌, ◌*◌, ◌≤◌, ◌<◌, ◌≡◌, ◌≢◌, ◌↔◌, ◌⊎◌, inl, inr, refl, List, arith,
}
use opensqlanywhere.Base.{length, take, drop, ok, err, length-take, length-drop}
use native.Mathlib.Decide.{dec_lt}
use opensqlanywhere.MaterializedPage.{MaterializedTablePage, MaterializedRowRecord}
use opensqlanywhere.MaterializedPage.{validate_records, parse, select_record, missing_record}
use opensqlanywhere.MaterializedPage.{record_id_out_of_range}
use opensqlanywhere.MaterializedPage.Directory.{IsPage, RowFits, entry_of, declared_at}
use opensqlanywhere.MaterializedPage.Directory.{
  directory_entry-ok, directory_entry_out, row_at-ok, directory_end-ok,
}
use opensqlanywhere.MaterializedPage.Records.{
  EntryFits, page_of, Accepts, parse_decide, parse_checked,
}

validate-ok :
    (p : MaterializedTablePage) (v : IsPage p) (left id : ℕ)
    → id + left ≤ p.record_count
    → ((j : ℕ) → j < p.record_count → EntryFits p j)
    → validate_records p left id ≡ ok tt
unfolding validate_records
validate-ok p v zero id b fits = refl
validate-ok p v (suc left) id b fits =
    let rest = validate-ok p v left (suc id) (omega arith) fits in
    elim (fits id (omega arith)) [
      | inl z ↦ rw (directory_entry-ok p v id (omega arith), z, rest)
      | inr r ↦ ground (arith, directory_entry-ok p v id, row_at-ok p v id (entry_of p id) r, rest)
    ]

-- `parse` accepts exactly the pages of 4096 bytes with type byte 4 whose directory ends inside the
-- page and whose entries are zero or address a row that lies behind the directory, inside the page
-- and holds its own length; the page then has the key and the count of the bytes.
pub parse_iff :
    (bs : List ℕ) (p : MaterializedTablePage) → (parse bs ≡ ok p) ↔ (Accepts bs × (p ≡ page_of bs))
parse_iff bs p = (forward, backward)
  where
    forward : parse bs ≡ ok p → Accepts bs × (p ≡ page_of bs)
    forward e = elim (parse_decide bs) [ inl (a, e') ↦ (a, cc) | inr (x, e') ↦ cc ]

    backward : Accepts bs × (p ≡ page_of bs) → parse bs ≡ ok p
    backward ((full, type4, v, fits), same) = rw (
      parse_checked bs full type4,
      directory_end-ok (page_of bs) v,
      validate-ok (page_of bs) v (page_of bs).record_count 0 (omega arith) fits,
      same,
    )

-- A record that `record` returns: where it lies, and what it holds.
pub record IsRecord (p : MaterializedTablePage) (id : ℕ) (r : MaterializedRowRecord) : Type 0 where
  pub same_id : r.record_id ≡ id
  pub same_entry : r.directory_offset ≡ entry_of p id
  pub same_offset : r.byte_offset ≡ 28 + entry_of p id
  pub behind_directory : 28 + p.record_count * 2 ≤ r.byte_offset
  pub inside_page : r.byte_offset + length r.bytes ≤ 4096
  pub same_bytes : r.bytes ≡ take (declared_at p (entry_of p id)) (drop r.byte_offset p.bytes)
  pub same_length : length r.bytes ≡ declared_at p (entry_of p id)
  pub holds_length : 2 ≤ length r.bytes

select-IsRecord :
    (p : MaterializedTablePage) (v : IsPage p) (id : ℕ)
    → id < p.record_count
    → entry_of p id ≢ 0
    → RowFits p (entry_of p id)
    → (r : MaterializedRowRecord) × (select_record p id ≡ ok r) × IsRecord p id r
unfolding select_record
select-IsRecord p v id lt nz fits =
    let off = entry_of p id in
    let row = take (declared_at p off) (drop (28 + off) p.bytes) in
    let len : length row ≡ declared_at p off = omega (
      arith,
      v.full,
      fits.inside,
      length-take (declared_at p off) (drop (28 + off) p.bytes),
      length-drop (28 + off) p.bytes,
    ) in
    (
      record { record_id = id; directory_offset = off; byte_offset = 28 + off; bytes = row },
      ground (arith, directory_entry-ok p v id lt, row_at-ok p v id off fits),
      record {
        same_id = refl;
        same_entry = refl;
        same_offset = refl;
        behind_directory = omega (arith, fits.behind);
        inside_page = rw len fits.inside;
        same_bytes = refl;
        same_length = len;
        holds_length = rw len fits.holds_length;
      },
    )

-- On a page that `parse` accepted, selecting a record never panics and never finds a malformed row:
-- an identifier from the count on is out of range, a zero entry is a missing record, and any other
-- identifier below the count gives its record.
pub select_record_cases :
    (bs : List ℕ) (p : MaterializedTablePage) (id : ℕ)
    → parse bs ≡ ok p
    → ((p.record_count ≤ id)
        × (select_record p id ≡ err (record_id_out_of_range id p.record_count)))
      ⊎ (((id < p.record_count)
            × (entry_of p id ≡ 0)
            × (select_record p id ≡ err (missing_record id)))
          ⊎ ((id < p.record_count)
              × (entry_of p id ≢ 0)
              × ((r : MaterializedRowRecord) × (select_record p id ≡ ok r) × IsRecord p id r)))
unfolding select_record
select_record_cases bs p id e = elim (dec_lt id p.record_count) [
  | no ge ↦ inl (omega arith, rw (directory_entry_out p v id (omega arith)))
  | yes lt ↦ elim (dec_lt 0 (entry_of p id)) [
    | no z ↦ inr (inl (lt, omega arith, zero_entry lt (omega arith)))
    | yes nz ↦ inr (
        inr (
          lt,
          omega arith,
          elim (fits id lt) [
            | inl z ↦ absurd (omega arith)
            | inr r ↦ select-IsRecord p v id lt (omega arith) r
          ],
        ))
  ]
]
  where
    a : Accepts bs × (p ≡ page_of bs)
    a = (parse_iff bs p).0 e

    v : IsPage p
    v = rw (a.1) (a.0.2)

    fits : (j : ℕ) → j < p.record_count → EntryFits p j
    fits = rw (a.1) (a.0.3)

    zero_entry :
        id < p.record_count → entry_of p id ≡ 0 → select_record p id ≡ err (missing_record id)
    zero_entry lt z = rw (directory_entry-ok p v id lt, z)

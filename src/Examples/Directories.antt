-- ===== src/Examples/Directories.antt =====
-- Materialized pages and slot directories at concrete inputs.
use opensqlanywhere.Base.{
  ℕ, ◌<◌, ◌≤◌, ◌≡◌, ◌≢◌, ◌⊎◌, ◌↔◌, refl, List, [], ◌∷◌, ◌++◌, arith, replicate, Bool, false, none,
  some, ok, err, panic, read, slice,
}
use opensqlanywhere.MaterializedPage.{
  MaterializedRowRecord, parse, select_record, missing_record, record_id_out_of_range, row_at,
  directory_entry, directory_end, validate_records, checked, get_range, get_from,
}
use opensqlanywhere.MaterializedPage.Directory.{entry_of}
use opensqlanywhere.MaterializedPage.Records.{page_of, Accepts, parse-ne-panic}
use opensqlanywhere.MaterializedPage.Selection.{IsRecord, parse_iff, select_record_cases}
use opensqlanywhere.Slotted.{
  SlotDirectory, scan_from, find_slot_directory, collect_slots, has_leading_zero, read_u16, u16le,
  u16be, is_slot_offset,
}
use opensqlanywhere.Slotted.Scans.{IsDirectory}
use opensqlanywhere.Slotted.Best.{
  IsAtMost, find_slot_directory-IsDirectory, find_slot_directory_best,
}

-- A page of two records: a row of three bytes behind the directory, and none.
abbrev page_bytes : List ℕ
page_bytes =
    1 ∷ 0 ∷ 0 ∷ 0 ∷ replicate 12 0
    ++ (4
        ∷ 0
        ∷ 0
        ∷ 0
        ∷ 0
        ∷ 0
        ∷ 2
        ∷ 0
        ∷ 0
        ∷ 0
        ∷ 0
        ∷ 0
        ∷ 4
        ∷ 0
        ∷ 0
        ∷ 0
        ∷ 3
        ∷ 0
        ∷ 0
        ∷ replicate 4061 0)

parsed : parse page_bytes ≡ ok (page_of page_bytes)
unfolding parse read slice directory_end directory_entry row_at validate_records checked get_range
    get_from
parsed = refl

parse_iff_example :
    (parse page_bytes ≡ ok (page_of page_bytes))
    ↔ (Accepts page_bytes × (page_of page_bytes ≡ page_of page_bytes))
parse_iff_example = parse_iff page_bytes (page_of page_bytes)

parse-ne-panic_example : parse (4 ∷ 4 ∷ []) ≢ panic
parse-ne-panic_example = parse-ne-panic (4 ∷ 4 ∷ [])

select_record_cases_example :
    ((2 ≤ 0) × (select_record (page_of page_bytes) 0 ≡ err (record_id_out_of_range 0 2)))
    ⊎ (((0 < 2)
          × (entry_of (page_of page_bytes) 0 ≡ 0)
          × (select_record (page_of page_bytes) 0 ≡ err (missing_record 0)))
        ⊎ ((0 < 2)
            × (entry_of (page_of page_bytes) 0 ≢ 0)
            × ((r : MaterializedRowRecord) × (select_record (page_of page_bytes) 0 ≡ ok r)
                × IsRecord (page_of page_bytes) 0 r)))
select_record_cases_example = select_record_cases page_bytes (page_of page_bytes) 0 parsed

-- Eight slots that fall from 0x308 to 0x301, little-endian, and zeros.
abbrev slotted : List ℕ
slotted = 8 ∷ 3 ∷ 7 ∷ 3 ∷ 6 ∷ 3 ∷ 5 ∷ 3 ∷ 4 ∷ 3 ∷ 3 ∷ 3 ∷ 2 ∷ 3 ∷ 1 ∷ 3 ∷ 1 ∷ 0 ∷ replicate 750 0

abbrev directory : SlotDirectory
directory = record {
  scan_start = 0;
  array_start = 0;
  end = 16;
  slots = 0x308 ∷ 0x307 ∷ 0x306 ∷ 0x305 ∷ 0x304 ∷ 0x303 ∷ 0x302 ∷ 0x301 ∷ [];
  leading_zero = false;
  big_endian = false;
}

scanned : scan_from {E = ℕ} slotted 0 false ≡ ok (some directory)
unfolding scan_from has_leading_zero collect_slots read_u16 u16le u16be is_slot_offset read
scanned = refl

find_slot_directory-IsDirectory_example :
    (find_slot_directory {E = ℕ} slotted ≡ ok none)
    ⊎ ((d : SlotDirectory) × (k : ℕ) × (be : Bool) × (find_slot_directory {E = ℕ} slotted
          ≡ ok (some d))
        × (scan_from {E = ℕ} slotted k be ≡ ok (some d))
        × IsDirectory be slotted k d)
find_slot_directory-IsDirectory_example = find_slot_directory-IsDirectory ℕ slotted (omega arith)

find_slot_directory_best_example :
    (b : SlotDirectory) × (find_slot_directory {E = ℕ} slotted ≡ ok (some b)) × IsAtMost directory b
find_slot_directory_best_example =
    find_slot_directory_best ℕ slotted 0 false directory (omega arith) (omega arith) scanned

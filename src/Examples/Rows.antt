-- ===== src/Examples/Rows.antt =====
-- Rows of a slotted page, row headers and scalars at concrete inputs.
use opensqlanywhere.Page.{Page}
use opensqlanywhere.Slotted.Rows.{parse_slotted}
use opensqlanywhere.Slotted.Rows.Complete.{offsets, row_slots_complete}
use opensqlanywhere.Base.{
  ℕ, ◌+◌, ◌-◌, ◌<◌, ◌≤◌, ◌≡◌, ◌≢◌, ◌⊎◌, ◌↔◌, refl, List, [], ◌∷◌, ◌++◌, arith, All, length,
  length-replicate, replicate, true, false, none, some, ok, err, bit_and, read, slice,
}
use opensqlanywhere.Slotted.{
  SlotDirectory, live, find_slot_directory, find_from, consider, better, scan_from,
  has_leading_zero, collect_slots, read_u16, u16le, u16be, is_slot_offset,
}
use opensqlanywhere.Slotted.Rows.{
  SlottedPage, Row, row_slots, rows_from, bounds_of, find_bound, insert, sort_unstable,
}
use opensqlanywhere.Slotted.Rows.Laws.{IsRow, row_slots-IsRow}
use opensqlanywhere.RowDecoder.{
  integer, date, RowSchema, default_schema, RowHeaderAndPresence, row_header_and_presence,
  presence_from, null_bitmap_bit_count, missing_row_header, invalid_row_size, unsupported_row_flags,
  truncated, invalid_integer_width,
}
use opensqlanywhere.RowDecoder.Domains.{domain_id, from_domain_id, from_domain_id_iff}
use opensqlanywhere.RowDecoder.Header.{
  raw_of, declared_of, lead_of, IsHeader, row_header_and_presence_cases,
}
use opensqlanywhere.RowDecoder.Cursor.{read_unsigned}
use opensqlanywhere.RowDecoder.Cursor.Scalars.{
  IsWidth, little_endian, to_le_bytes, read_unsigned_cases, read_unsigned-to_le_bytes,
}

-- A directory of two live slots with a deleted one between them.
abbrev two_rows : SlotDirectory
two_rows = record {
  scan_start = 0;
  array_start = 0;
  end = 6;
  slots = 0xF00 ∷ 0 ∷ 0xE00 ∷ [];
  leading_zero = false;
  big_endian = false;
}

abbrev slotted_page : SlottedPage
slotted_page = record {
  page = record { index = 1; bytes = replicate 4096 0 };
  directory = some two_rows;
}

rows_found :
    row_slots {E = ℕ} slotted_page
    ≡ ok (
        record { slot_index = 0; offset = 0xF00; bytes = replicate 0xF0 0 }
        ∷ record { slot_index = 2; offset = 0xE00; bytes = replicate 0x100 0 }
        ∷ [])
unfolding row_slots rows_from bounds_of find_bound insert sort_unstable slice
rows_found = refl

row_slots-IsRow_example :
    ((slotted_page.directory ≡ none) × (row_slots {E = ℕ} slotted_page ≡ ok []))
    ⊎ ((d : SlotDirectory) × (slotted_page.directory ≡ some d)
        × ((rows : List Row) × (row_slots {E = ℕ} slotted_page ≡ ok rows)
            × All (IsRow slotted_page.page.bytes d.slots) rows))
row_slots-IsRow_example =
    row_slots-IsRow slotted_page (omega (arith, length-replicate {A = ℕ} 4096 0))

abbrev six : ℕ
six = 6

from_domain_id_iff_example : (from_domain_id six ≡ some date) ↔ (six ≡ domain_id date)
from_domain_id_iff_example = from_domain_id_iff six date

abbrev schema : RowSchema
schema = default_schema (
    record { id = 1; name = "a"; column_type = integer; width = 4; nullable = false }
    ∷ record { id = 2; name = "b"; column_type = date; width = 4; nullable = true }
    ∷ [])

abbrev sample_row : List ℕ
sample_row = 7 ∷ 0 ∷ 0x80 ∷ 1 ∷ 2 ∷ 3 ∷ 4 ∷ []

header_found :
    row_header_and_presence sample_row schema
    ≡ ok (record {
      row = sample_row;
      declared_size = 7;
      flags = 0;
      null_bitmap = 0x80 ∷ [];
      cursor = 3;
      present = true ∷ true ∷ [];
    })
unfolding row_header_and_presence presence_from null_bitmap_bit_count read slice
header_found = refl

row_header_and_presence_cases_example :
    ((length sample_row < 2) × (row_header_and_presence sample_row schema ≡ err missing_row_header))
    ⊎ (((2 ≤ length sample_row)
          × ((declared_of sample_row < 2) ⊎ (length sample_row < declared_of sample_row))
          × (row_header_and_presence sample_row schema
              ≡ err (invalid_row_size (declared_of sample_row) (length sample_row))))
        ⊎ (((2 ≤ declared_of sample_row)
              × (declared_of sample_row ≤ length sample_row)
              × (bit_and (raw_of sample_row) 0xe000 ≢ 0)
              × (row_header_and_presence sample_row schema
                  ≡ err (unsupported_row_flags (bit_and (raw_of sample_row) 0xe000))))
            ⊎ (((bit_and (raw_of sample_row) 0xe000 ≡ 0)
                  × (declared_of sample_row < 2 + lead_of schema)
                  × (row_header_and_presence sample_row schema
                      ≡ err (truncated 0 (lead_of schema) (declared_of sample_row - 2))))
                ⊎ ((h : RowHeaderAndPresence) × (row_header_and_presence sample_row schema ≡ ok h)
                    × IsHeader sample_row schema h))))
row_header_and_presence_cases_example = row_header_and_presence_cases sample_row schema

read_unsigned_cases_example :
    ((IsWidth 4 → ⊥) × (read_unsigned sample_row 3 0 4 ≡ err (invalid_integer_width 0 4)))
    ⊎ ((IsWidth 4
          × (length sample_row < 3 + 4)
          × (read_unsigned sample_row 3 0 4 ≡ err (truncated 0 4 (length sample_row - 3))))
        ⊎ (IsWidth 4
            × (3 + 4 ≤ length sample_row)
            × (read_unsigned sample_row 3 0 4 ≡ ok (little_endian sample_row 3 4, 3 + 4))))
read_unsigned_cases_example = read_unsigned_cases sample_row 3 0 4 (omega arith)

read_unsigned-to_le_bytes_example :
    read_unsigned (sample_row ++ (to_le_bytes 4 70000 ++ (9 ∷ []))) (length sample_row) 1 4
    ≡ ok (70000, length sample_row + 4)
read_unsigned-to_le_bytes_example =
    read_unsigned-to_le_bytes sample_row (9 ∷ []) 1 4 70000 refl (omega arith)

-- A page with eight descending slots at its start.
abbrev eight_slots : Page
eight_slots = record {
  index = 2;
  bytes = 8 ∷ 3 ∷ 7 ∷ 3 ∷ 6 ∷ 3 ∷ 5 ∷ 3 ∷ 4 ∷ 3 ∷ 3 ∷ 3 ∷ 2 ∷ 3 ∷ 1 ∷ 3 ∷ 1 ∷ 0 ∷ replicate 4078 0;
}

abbrev eight_directory : SlotDirectory
eight_directory = record {
  scan_start = 0;
  array_start = 0;
  end = 16;
  slots = 0x308 ∷ 0x307 ∷ 0x306 ∷ 0x305 ∷ 0x304 ∷ 0x303 ∷ 0x302 ∷ 0x301 ∷ [];
  leading_zero = false;
  big_endian = false;
}

abbrev eight_rows : SlottedPage
eight_rows = record { page = eight_slots; directory = some eight_directory }

eight_parsed : parse_slotted {E = ℕ} eight_slots ≡ ok eight_rows
unfolding parse_slotted find_slot_directory find_from consider better scan_from has_leading_zero
    collect_slots read_u16 u16le u16be is_slot_offset read
eight_parsed = refl

row_slots_complete_example :
    (rows : List Row) × (row_slots {E = ℕ} eight_rows ≡ ok rows)
    × (offsets rows ≡ live eight_directory.slots)
row_slots_complete_example =
    row_slots_complete {E = ℕ} eight_slots eight_rows eight_directory
      (omega (arith, length-replicate {A = ℕ} 4078 0)) eight_parsed refl

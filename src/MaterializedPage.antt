-- ===== src/MaterializedPage.antt =====
-- crates/opensqlany/src/materialized_page.rs: the record directory of a materialized type-4 page.
-- The `checked_mul` and `checked_add` of the source are on `usize` and on values from `u16`, which
-- cannot overflow 64 bits; `checked` writes the test out.
pub mod Directory
pub mod Records
pub mod Selection
use opensqlanywhere.Base.{
  ℕ, zero, suc, ◌+◌, ◌-◌, ◌*◌, ◌^◌, ◌≤◌, List, [], ◌∷◌, Bool, not, ◌||◌, ◌==◌, ltb, leb,
}
use opensqlanywhere.Base.{length, take, drop, if◌then◌else◌, Option, none, some}
use opensqlanywhere.Base.{Outcome, ok, err, ◌>>=◌, ◌>>◌, guard, ok_or, read, slice}
use opensqlanywhere.Base.Bytes.{from_le_u16, from_le_u32}
use opensqlanywhere.RowSegment.{RowSegment, RowSegmentError, parse_row_segment}

abbrev pub materialized_table_page_len : ℕ
materialized_table_page_len = 4096

abbrev pub materialized_table_page_type : ℕ
materialized_table_page_type = 4

abbrev pub page_type_offset : ℕ
page_type_offset = 0x10

abbrev pub record_count_offset : ℕ
record_count_offset = 0x16

abbrev pub directory_offset_of_page : ℕ
directory_offset_of_page = 0x1c

abbrev pub directory_entry_len : ℕ
directory_entry_len = 2

pub record MaterializedTablePage : Type 0 where
  pub bytes : List ℕ
  pub key : ℕ
  pub record_count : ℕ

pub record MaterializedRowRecord : Type 0 where
  pub record_id : ℕ
  pub directory_offset : ℕ
  pub byte_offset : ℕ
  pub bytes : List ℕ

pub data MaterializedPageError : Type 0 where
  invalid_page_length : (actual : ℕ) → MaterializedPageError
  wrong_page_type : (actual : ℕ) → MaterializedPageError
  directory_out_of_bounds : (record_count : ℕ) → MaterializedPageError
  record_id_out_of_range : (record_id record_count : ℕ) → MaterializedPageError
  missing_record : (record_id : ℕ) → MaterializedPageError
  record_out_of_bounds : (record_id directory_offset : ℕ) → MaterializedPageError
  invalid_record_length :
      (record_id directory_offset declared available : ℕ) → MaterializedPageError

-- A sum or product of `usize`, `None` on overflow.
unfoldable pub checked : ℕ → Option ℕ
checked n = if ltb n (2 ^ 64) then some n else none

-- `xs.get(start..end)` and `xs.get(start..)`
unfoldable pub get_range : List ℕ → ℕ → ℕ → Option (List ℕ)
get_range xs start end =
    if leb start end
    then if leb end (length xs) then some (take (end - start) (drop start xs)) else none
    else none

unfoldable pub get_from : List ℕ → ℕ → Option (List ℕ)
get_from xs start = if leb start (length xs) then some (drop start xs) else none

unfoldable pub directory_end : MaterializedTablePage → Outcome MaterializedPageError ℕ
directory_end p = do
  let overflow = directory_out_of_bounds p.record_count
  bytes ← ok_or (checked (p.record_count * directory_entry_len)) overflow
  end ← ok_or (checked (directory_offset_of_page + bytes)) overflow
  guard (not (ltb (length p.bytes) end)) overflow
  ok end

unfoldable pub directory_entry : MaterializedTablePage → ℕ → Outcome MaterializedPageError ℕ
directory_entry p record_id = do
  let out_of_range = record_id_out_of_range record_id p.record_count
  guard (not (leb p.record_count record_id)) out_of_range
  directory_end p
  index ← ok_or (checked (record_id * directory_entry_len)) out_of_range
  entry ← ok_or (checked (directory_offset_of_page + index)) out_of_range
  end ← ok_or (checked (entry + directory_entry_len)) out_of_range
  bytes ← ok_or (get_range p.bytes entry end) out_of_range
  b0 ← read bytes 0
  b1 ← read bytes 1
  ok (from_le_u16 b0 b1)

-- The byte offset of a row and its bytes.
unfoldable pub row_at : MaterializedTablePage → ℕ → ℕ → Outcome MaterializedPageError (ℕ × List ℕ)
row_at p record_id directory_offset = do
  let outside = record_out_of_bounds record_id directory_offset
  dir_end ← directory_end p
  start ← ok_or (checked (directory_offset_of_page + directory_offset)) outside
  guard (not (ltb start dir_end)) outside
  record_bytes ← ok_or (get_from p.bytes start) outside
  let available = length record_bytes
  guard (not (ltb available 2)) (invalid_record_length record_id directory_offset 0 available)
  b0 ← read record_bytes 0
  b1 ← read record_bytes 1
  let declared = from_le_u16 b0 b1
  guard (not (ltb declared 2 || ltb available declared))
      (invalid_record_length record_id directory_offset declared available)
  row ← slice record_bytes 0 declared
  ok (start, row)

-- `for record_id in 0..record_count`, with the rounds left and the next identifier.
unfoldable pub validate_records :
    MaterializedTablePage → ℕ → ℕ → Outcome MaterializedPageError (Unit {0})
validate_records p zero record_id = ok tt
validate_records p (suc left) record_id = do
  let rest = validate_records p left (suc record_id)
  offset ← directory_entry p record_id
  if offset == 0 then rest else do row_at p record_id offset; rest

unfoldable pub parse : List ℕ → Outcome MaterializedPageError MaterializedTablePage
parse bytes = do
  guard (length bytes == materialized_table_page_len) (invalid_page_length (length bytes))
  page_type ← read bytes page_type_offset
  guard (page_type == materialized_table_page_type) (wrong_page_type page_type)
  k0 ← read bytes 0
  k1 ← read bytes 1
  k2 ← read bytes 2
  k3 ← read bytes 3
  c0 ← read bytes record_count_offset
  c1 ← read bytes (record_count_offset + 1)
  let page : MaterializedTablePage = record {
    bytes = bytes;
    key = from_le_u32 k0 k1 k2 k3;
    record_count = from_le_u16 c0 c1;
  }
  directory_end page
  validate_records page page.record_count 0
  ok page

-- `MaterializedTablePage::record`
unfoldable pub select_record :
    MaterializedTablePage → ℕ → Outcome MaterializedPageError MaterializedRowRecord
select_record p record_id = do
  offset ← directory_entry p record_id
  guard (not (offset == 0)) (missing_record record_id)
  (byte_offset, bytes) ← row_at p record_id offset
  ok (record {
    record_id = record_id;
    directory_offset = offset;
    byte_offset = byte_offset;
    bytes = bytes;
  })

unfoldable pub as_row_segment : MaterializedRowRecord → Outcome RowSegmentError RowSegment
as_row_segment r = parse_row_segment r.bytes

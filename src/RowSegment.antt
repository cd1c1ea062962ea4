-- ===== src/RowSegment.antt =====
-- crates/opensqlany/src/row_segment.rs: one physical row segment.
pub mod Parsing
pub mod Encoding
pub mod Chain
use opensqlanywhere.Base.{ℕ, ◌+◌, ◌-◌, ◌≤◌, List, Bool, true, false, not, ◌||◌, ◌==◌, ltb, length}
use opensqlanywhere.Base.{if◌then◌else◌, Option, none, some, bit_and}
use opensqlanywhere.Base.{Outcome, ok, err, ◌>>=◌, ◌>>◌, guard, read, slice}
use opensqlanywhere.Base.Bytes.{from_le_u16, from_le_u32}

abbrev pub row_segment_continued : ℕ
row_segment_continued = 0x04

abbrev pub row_segment_header_len : ℕ
row_segment_header_len = 3

abbrev pub continued_row_segment_header_len : ℕ
continued_row_segment_header_len = 9

pub record ContinuationTarget : Type 0 where
  pub resolver_key : ℕ
  pub record_id : ℕ

-- `ContinuationTarget::from_le_bytes`
target_from_le_bytes : {E : Type 0} → List ℕ → Outcome E ContinuationTarget
target_from_le_bytes bytes = do
  b0 ← read bytes 0
  b1 ← read bytes 1
  b2 ← read bytes 2
  b3 ← read bytes 3
  b4 ← read bytes 4
  b5 ← read bytes 5
  ok (record { resolver_key = from_le_u32 b0 b1 b2 b3; record_id = from_le_u16 b4 b5 })

pub record RowSegment : Type 0 where
  pub declared_len : ℕ
  pub flags : ℕ
  pub next_target : Option ContinuationTarget
  pub bytes : List ℕ

pub data RowSegmentError : Type 0 where
  missing_header : (available : ℕ) → RowSegmentError
  invalid_length : (declared header_len available : ℕ) → RowSegmentError

target_is_some : Option ContinuationTarget → Bool
target_is_some none = false
target_is_some (some t) = true

unfoldable pub is_continued : RowSegment → Bool
unfolding target_is_some
is_continued s = target_is_some s.next_target

unfoldable pub header_len : RowSegment → ℕ
unfolding is_continued
header_len s = if is_continued s then continued_row_segment_header_len else row_segment_header_len

-- `&self.bytes[self.header_len()..]`
unfoldable pub payload : {E : Type 0} → RowSegment → Outcome E (List ℕ)
unfolding header_len
payload s = slice s.bytes (header_len s) (length s.bytes)

-- `continued.then(|| …)`
next_target_of : {E : Type 0} → Bool → List ℕ → Outcome E (Option ContinuationTarget)
next_target_of false input = ok none
next_target_of true input = do
  bytes ← slice input 3 9
  target ← target_from_le_bytes bytes
  ok (some target)

unfoldable pub parse_row_segment : List ℕ → Outcome RowSegmentError RowSegment
unfolding next_target_of target_from_le_bytes
parse_row_segment input = do
  guard (not (ltb (length input) row_segment_header_len)) (missing_header (length input))
  b0 ← read input 0
  b1 ← read input 1
  let declared_len = from_le_u16 b0 b1
  flags ← read input 2
  let continued = not (bit_and flags row_segment_continued == 0)
  let header_len = if continued then continued_row_segment_header_len else row_segment_header_len
  let bad = ltb declared_len header_len || ltb (length input) declared_len
  guard (not bad) (invalid_length declared_len header_len (length input))
  next_target ← next_target_of continued input
  bytes ← slice input 0 declared_len
  ok (record {
    declared_len = declared_len;
    flags = flags;
    next_target = next_target;
    bytes = bytes;
  })

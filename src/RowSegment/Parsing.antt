-- ===== src/RowSegment/Parsing.antt =====
-- `parse_row_segment` on every input.
use opensqlanywhere.Base.{
  ℕ, ◌+◌, ◌-◌, ◌≤◌, ◌<◌, ◌≡◌, ◌⊎◌, refl, List, Bool, true, false, not, arith,
}
use opensqlanywhere.Base.{length, take, drop, ◌==◌, if◌then◌else◌, none, some}
use opensqlanywhere.Base.{bit_and, ok, err, read, read-ok, slice-ok, read_slice-ok}
use opensqlanywhere.Base.{inl, inr, take-length, length-take, length-drop}
use opensqlanywhere.Base.Bytes.{from_le_u16, from_le_u32, byte_at}
use native.Mathlib.Decide.{dec_lt}
use opensqlanywhere.RowSegment.{RowSegment, ContinuationTarget, RowSegmentError, missing_header}
use opensqlanywhere.RowSegment.{invalid_length, row_segment_continued, target_from_le_bytes}
use opensqlanywhere.RowSegment.{next_target_of, parse_row_segment, payload, header_len}
use opensqlanywhere.RowSegment.{is_continued}

-- The continuation bit of a flag byte, and the header length that it selects.
abbrev pub continued : ℕ → Bool
continued flags = not (bit_and flags row_segment_continued == 0)

abbrev pub header_of : ℕ → ℕ
header_of flags = if continued flags then 9 else 3

-- The length that the first two bytes declare.
abbrev pub declared_of : List ℕ → ℕ
declared_of input = from_le_u16 (byte_at input 0) (byte_at input 1)

abbrev pub target_of : List ℕ → ContinuationTarget
target_of input = record {
  resolver_key =
      from_le_u32 (byte_at input 3) (byte_at input 4) (byte_at input 5) (byte_at input 6);
  record_id = from_le_u16 (byte_at input 7) (byte_at input 8);
}

abbrev pub segment_of : List ℕ → RowSegment
segment_of input = record {
  declared_len = declared_of input;
  flags = byte_at input 2;
  next_target = if continued (byte_at input 2) then some (target_of input) else none;
  bytes = take (declared_of input) input;
}

next_target_of-ok :
    {E : Type 0} (c : Bool) (input : List ℕ)
    → (if c then 9 else 3) ≤ length input
    → next_target_of {E = E} c input ≡ ok (if c then some (target_of input) else none)
unfolding next_target_of target_from_le_bytes
next_target_of-ok false input h = refl
next_target_of-ok {E} true input h = rw (
  slice-ok input 3 9 (omega arith) h,
  part 0 (omega arith),
  part 1 (omega arith),
  part 2 (omega arith),
  part 3 (omega arith),
  part 4 (omega arith),
  part 5 (omega arith),
)
  where
    part : (i : ℕ) → i < 6 → read {E = E} (take 6 (drop 3 input)) i ≡ ok (byte_at input (3 + i))
    part i lt = read_slice-ok input 3 6 i (omega arith) lt

-- Whether a declared length fits between the header and the end of the input.
abbrev pub Fits : List ℕ → Type 0
Fits input = (header_of (byte_at input 2) ≤ declared_of input) × (declared_of input ≤ length input)

pub parse-ok :
    (input : List ℕ)
    → 3 ≤ length input
    → Fits input
    → parse_row_segment input ≡ ok (segment_of input)
unfolding parse_row_segment
parse-ok input h (lo, hi) =
    rw
      (
        read-ok input 0 (omega arith),
        read-ok input 1 (omega arith),
        read-ok input 2 (omega arith),
        next_target_of-ok (continued (byte_at input 2)) input (omega arith),
        slice-ok input 0 (declared_of input) (omega arith) hi,
        whole,
      )
      (ground arith)
  where
    whole : declared_of input - 0 ≡ declared_of input
    whole = omega arith

parse_short :
    (input : List ℕ)
    → length input < 3
    → parse_row_segment input ≡ err (missing_header (length input))
unfolding parse_row_segment
parse_short input h = ground arith

parse_bad :
    (input : List ℕ)
    → 3 ≤ length input
    → (declared_of input < header_of (byte_at input 2)) ⊎ (length input < declared_of input)
    → parse_row_segment input
      ≡ err (invalid_length (declared_of input) (header_of (byte_at input 2)) (length input))
unfolding parse_row_segment
parse_bad input h bad =
    rw (read-ok input 0 (omega arith), read-ok input 1 (omega arith), read-ok input 2 (omega arith))
      (ground arith)

is_continued-segment :
    (input : List ℕ) → is_continued (segment_of input) ≡ continued (byte_at input 2)
unfolding is_continued
is_continued-segment input = ground arith

header_len-segment : (input : List ℕ) → header_len (segment_of input) ≡ header_of (byte_at input 2)
unfolding header_len
header_len-segment input = ground arith

-- The payload of a parsed segment is what stands behind its header.
pub payload-ok :
    {E : Type 0} (input : List ℕ)
    → Fits input
    → payload {E = E} (segment_of input)
      ≡ ok (drop (header_of (byte_at input 2)) (take (declared_of input) input))
unfolding payload
payload-ok input (lo, hi) =
    let h = header_of (byte_at input 2) in
    let len : length (take (declared_of input) input) ≡ declared_of input =
      omega (arith, length-take (declared_of input) input) in
    rw (
      header_len-segment input,
      slice-ok (take (declared_of input) input) h (length (take (declared_of input) input))
          (omega arith) (omega arith),
      take-length (length (take (declared_of input) input) - h)
          (drop h (take (declared_of input) input))
          (omega (arith, length-drop h (take (declared_of input) input))),
    )

-- An input is refused, or its declared prefix is the segment.
pub parse_decide :
    (input : List ℕ)
    → ((e : RowSegmentError) × (parse_row_segment input ≡ err e))
      ⊎ (Fits input × (parse_row_segment input ≡ ok (segment_of input)))
parse_decide input = elim (dec_lt (length input) 3) [
  | yes short ↦ inl (missing_header (length input), parse_short input short)
  | no long ↦ elim (dec_lt (declared_of input) (header_of (byte_at input 2))) [
    | yes low ↦ inl (bad_length, parse_bad input (omega arith) (inl low))
    | no room ↦ elim (dec_lt (length input) (declared_of input)) [
      | yes high ↦ inl (bad_length, parse_bad input (omega arith) (inr high))
      | no inside ↦
          let fits : Fits input = (omega arith, omega arith) in
          inr (fits, parse-ok input (omega arith) fits)
    ]
  ]
]
  where
    bad_length : RowSegmentError
    bad_length = invalid_length (declared_of input) (header_of (byte_at input 2)) (length input)

-- `parse_row_segment` never panics. Fewer than three bytes are `MissingHeader`. A declared length
-- that is below the header length of the continuation bit, or above the input, is
-- `InvalidLength` with the three lengths. Any other input is accepted: the segment is the declared
-- prefix of the input, it has a target exactly if the continuation bit is set, and its payload is
-- that prefix behind the header.
pub parse_row_segment_cases :
    (input : List ℕ)
    → ((length input < 3) × (parse_row_segment input ≡ err (missing_header (length input))))
      ⊎ (((3 ≤ length input)
            × ((declared_of input < header_of (byte_at input 2))
                ⊎ (length input < declared_of input))
            × (parse_row_segment input
                ≡ err (
                    invalid_length
                      (declared_of input)
                      (header_of (byte_at input 2))
                      (length input))))
          ⊎ ((3 ≤ length input)
              × Fits input
              × ((s : RowSegment) × (parse_row_segment input ≡ ok s)
                  × (s.declared_len ≡ length s.bytes)
                  × (s.bytes ≡ take (declared_of input) input)
                  × (is_continued s ≡ continued (byte_at input 2))
                  × (payload {E = RowSegmentError} s
                      ≡ ok (drop (header_of (byte_at input 2)) s.bytes)))))
parse_row_segment_cases input = elim (dec_lt (length input) 3) [
  | yes short ↦ inl (short, parse_short input short)
  | no h ↦ elim (dec_lt (declared_of input) (header_of (byte_at input 2))) [
    | yes low ↦ inr (inl (omega arith, inl low, parse_bad input (omega arith) (inl low)))
    | no l ↦ elim (dec_lt (length input) (declared_of input)) [
      | yes high ↦ inr (inl (omega arith, inr high, parse_bad input (omega arith) (inr high)))
      | no f ↦ inr (
          inr (
            omega arith,
            (omega arith, omega arith),
            accepted (omega arith) (omega arith, omega arith),
          ))
    ]
  ]
]
  where
    accepted :
        3 ≤ length input
        → Fits input
        → (s : RowSegment) × (parse_row_segment input ≡ ok s)
          × (s.declared_len ≡ length s.bytes)
          × (s.bytes ≡ take (declared_of input) input)
          × (is_continued s ≡ continued (byte_at input 2))
          × (payload {E = RowSegmentError} s ≡ ok (drop (header_of (byte_at input 2)) s.bytes))
    accepted h f = (
      segment_of input,
      parse-ok input h f,
      omega (arith, length-take (declared_of input) input),
      refl,
      is_continued-segment input,
      payload-ok input f,
    )

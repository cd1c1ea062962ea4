-- ===== src/Examples/Segments.antt =====
-- Row segments and chains at concrete inputs.
use opensqlanywhere.Base.{
  ℕ, ◌<◌, ◌≤◌, ◌≡◌, ◌≢◌, ◌⊎◌, refl, List, [], ◌∷◌, ◌++◌, arith, length, take, drop, none, some,
  Outcome, ok, err, panic, read, slice, if◌then◌else◌, ◌==◌,
}
use opensqlanywhere.Base.Bytes.{byte_at}
use opensqlanywhere.RowSegment.{
  ContinuationTarget, RowSegment, RowSegmentError, parse_row_segment, payload, missing_header,
  invalid_length, is_continued,
}
use opensqlanywhere.RowSegment.Parsing.{
  continued, declared_of, header_of, Fits, parse_row_segment_cases,
}
use opensqlanywhere.RowSegment.Encoding.{
  write_plain, write_continued, Holds, parse-write_plain, parse-write_continued,
}
use opensqlanywhere.RowSegment.Chain.{
  RowSegmentChain, RowSegmentChainError, RowSegmentChainSegment, RowSegmentChainLimits, loop, step,
  follow, proceed, start, saturating_add, contains, walk_row_segment_chain, cycle, payload_limit,
}
use opensqlanywhere.RowSegment.Chain.Spec.{Reads, Chained, last, link, AreFresh, payload_sum}
use opensqlanywhere.RowSegment.Chain.Sound.{walk_row_segment_chain-Chained}
use opensqlanywhere.RowSegment.Chain.Complete.{walk_row_segment_chain_complete}
use opensqlanywhere.RowSegment.Chain.Total.{
  walk_row_segment_chain_total, walk_row_segment_chain-ne-panic,
}

abbrev target_of_key : ℕ → ContinuationTarget
target_of_key k = record { resolver_key = k; record_id = 1 }

-- Key 2 leads to a last segment, key 3 back to itself.
abbrev stored : ContinuationTarget → Outcome ℕ (List ℕ)
stored t =
    if t.resolver_key == 2
    then ok (write_plain 0 (7 ∷ 8 ∷ []))
    else ok (write_continued 4 (target_of_key 3) (9 ∷ []))

abbrev limits : RowSegmentChainLimits
limits = record { max_segments = 4; max_total_payload_bytes = 3 }

abbrev first_bytes : List ℕ
first_bytes = write_continued 4 (target_of_key 2) (9 ∷ [])

abbrev first_segment : RowSegmentChainSegment
first_segment = record { target = target_of_key 1; flags = 4; declared_len = 10; payload = 9 ∷ [] }

abbrev last_segment : RowSegmentChainSegment
last_segment = record {
  target = target_of_key 2;
  flags = 0;
  declared_len = 5;
  payload = 7 ∷ 8 ∷ [];
}

abbrev chain : RowSegmentChain
chain = record { segments = first_segment ∷ last_segment ∷ []; total_payload_bytes = 3 }

walked : walk_row_segment_chain stored limits (target_of_key 1) first_bytes ≡ some (ok chain)
unfolding walk_row_segment_chain loop step follow proceed start contains parse_row_segment payload
    read slice saturating_add
walked = refl

cycle_found :
    walk_row_segment_chain stored limits (target_of_key 1) (write_continued 4 (target_of_key 3) [])
    ≡ some (err (cycle (target_of_key 3)))
unfolding walk_row_segment_chain loop step follow proceed start contains parse_row_segment payload
    read slice saturating_add
cycle_found = refl

too_much :
    walk_row_segment_chain stored limits
      (target_of_key 1)
      (write_continued 4 (target_of_key 2) (9 ∷ 9 ∷ []))
    ≡ some (err (payload_limit 3 4))
unfolding walk_row_segment_chain loop step follow proceed start contains parse_row_segment payload
    read slice saturating_add
too_much = refl

stored-ne-panic : (t : ContinuationTarget) → stored t ≢ panic
stored-ne-panic t = ground arith

chain_fresh : AreFresh [] (first_segment ∷ last_segment ∷ [])
unfolding contains
chain_fresh = (refl, (refl, tt))

first-Reads : Reads (target_of_key 1) first_bytes first_segment (some (target_of_key 2))
unfolding parse_row_segment payload read slice
first-Reads = record {
  segment = record {
    declared_len = 10;
    flags = 4;
    next_target = some (target_of_key 2);
    bytes = first_bytes;
  };
  parses = refl;
  exact = refl;
  holds = refl;
  same_target = refl;
  same_flags = refl;
  same_len = refl;
  names_next = refl;
}

last-Reads : Reads (target_of_key 2) (write_plain 0 (7 ∷ 8 ∷ [])) last_segment none
unfolding parse_row_segment payload read slice
last-Reads = record {
  segment = record {
    declared_len = 5;
    flags = 0;
    next_target = none;
    bytes = write_plain 0 (7 ∷ 8 ∷ []);
  };
  parses = refl;
  exact = refl;
  holds = refl;
  same_target = refl;
  same_flags = refl;
  same_len = refl;
  names_next = refl;
}

chain-Chained : Chained stored (target_of_key 1) first_bytes (first_segment ∷ last_segment ∷ [])
chain-Chained = link first-Reads refl (last last-Reads)

walk_row_segment_chain-Chained_example :
    Chained stored (target_of_key 1) first_bytes chain.segments
    × AreFresh [] chain.segments
    × (chain.total_payload_bytes ≡ payload_sum chain.segments)
    × (length chain.segments ≤ limits.max_segments)
    × (chain.total_payload_bytes ≤ limits.max_total_payload_bytes)
walk_row_segment_chain-Chained_example =
    walk_row_segment_chain-Chained stored limits (target_of_key 1) first_bytes chain walked

walk_row_segment_chain_complete_example :
    walk_row_segment_chain stored limits (target_of_key 1) first_bytes ≡ some (ok chain)
unfolding contains
walk_row_segment_chain_complete_example =
    walk_row_segment_chain_complete stored limits (target_of_key 1) first_bytes
      (first_segment ∷ last_segment ∷ []) chain-Chained chain_fresh (ground arith) (ground arith)

walk_row_segment_chain_total_example :
    (o : Outcome (RowSegmentChainError ℕ) RowSegmentChain) × (walk_row_segment_chain stored limits
        (target_of_key 1)
        (write_continued 4 (target_of_key 3) [])
      ≡ some o)
walk_row_segment_chain_total_example =
    walk_row_segment_chain_total stored limits (target_of_key 1)
      (write_continued 4 (target_of_key 3) [])

walk_row_segment_chain-ne-panic_example :
    walk_row_segment_chain stored limits (target_of_key 1) first_bytes ≢ some panic
walk_row_segment_chain-ne-panic_example =
    walk_row_segment_chain-ne-panic stored limits (target_of_key 1) first_bytes stored-ne-panic

-- A segment that declares five bytes, four of which are there.
abbrev cut_short : List ℕ
cut_short = 5 ∷ 0 ∷ 0 ∷ 1 ∷ []

parse_row_segment_cases_example :
    ((length cut_short < 3)
      × (parse_row_segment cut_short ≡ err (missing_header (length cut_short))))
    ⊎ (((3 ≤ length cut_short)
          × ((declared_of cut_short < header_of (byte_at cut_short 2))
              ⊎ (length cut_short < declared_of cut_short))
          × (parse_row_segment cut_short
              ≡ err (
                  invalid_length
                    (declared_of cut_short)
                    (header_of (byte_at cut_short 2))
                    (length cut_short))))
        ⊎ ((3 ≤ length cut_short)
            × Fits cut_short
            × ((s : RowSegment) × (parse_row_segment cut_short ≡ ok s)
                × (s.declared_len ≡ length s.bytes)
                × (s.bytes ≡ take (declared_of cut_short) cut_short)
                × (is_continued s ≡ continued (byte_at cut_short 2))
                × (payload {E = RowSegmentError} s
                    ≡ ok (drop (header_of (byte_at cut_short 2)) s.bytes)))))
parse_row_segment_cases_example = parse_row_segment_cases cut_short

parse-write_plain_example : Holds (write_plain 2 (7 ∷ 8 ∷ []) ++ (1 ∷ [])) 2 none (7 ∷ 8 ∷ [])
parse-write_plain_example = parse-write_plain 2 (7 ∷ 8 ∷ []) (1 ∷ []) refl (omega arith)

parse-write_continued_example :
    Holds
      (write_continued 6 (target_of_key 300) (7 ∷ []) ++ [])
      6
      (some (target_of_key 300))
      (7 ∷ [])
parse-write_continued_example =
    parse-write_continued 6 (target_of_key 300) (7 ∷ []) [] refl (omega arith) (omega arith)
      (omega arith)

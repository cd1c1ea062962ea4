-- ===== src/RowSegment/Encoding.antt =====
-- Segments written by the layout that the module's comments state, and read back.
use opensqlanywhere.Base.{ℕ, suc, ◌+◌, ◌/◌, ◌%◌, ◌^◌, ◌<◌, ◌≡◌, refl, ap, ◌∙◌, List, ◌∷◌, ◌++◌}
use opensqlanywhere.Base.{true, false, arith, length, take, drop, Option, none, some, ok}
use opensqlanywhere.Base.{length-append, take-append}
use opensqlanywhere.RowSegment.{RowSegment, ContinuationTarget, RowSegmentError, parse_row_segment}
use opensqlanywhere.RowSegment.{payload}
use opensqlanywhere.RowSegment.Parsing.{
  continued, header_of, declared_of, segment_of, target_of, parse-ok, payload-ok, Fits,
}

-- `[u16 length][flags][payload]`, and the same with `[u32 key][u16 record]` behind the flags.
abbrev pub write_plain : ℕ → List ℕ → List ℕ
write_plain flags p = let len = 3 + length p in len % 256 ∷ len / 256 % 256 ∷ flags ∷ p

abbrev pub write_continued : ℕ → ContinuationTarget → List ℕ → List ℕ
write_continued flags t p =
    let len = 9 + length p in
    len % 256
    ∷ len / 256 % 256
    ∷ flags
    ∷ t.resolver_key % 256
    ∷ t.resolver_key / 256 % 256
    ∷ t.resolver_key / 65536 % 256
    ∷ t.resolver_key / 16777216 % 256
    ∷ t.record_id % 256
    ∷ t.record_id / 256 % 256
    ∷ p

-- What the parser is to find in an input: a segment with these flags, target and payload.
abbrev pub Holds : List ℕ → ℕ → Option ContinuationTarget → List ℕ → Type 0
Holds input flags t p =
    (s : RowSegment) × (parse_row_segment input ≡ ok s)
    × (s.flags ≡ flags)
    × (s.next_target ≡ t)
    × (payload {E = RowSegmentError} s ≡ ok p)

-- A plain segment of at most 65535 bytes is read back, whatever follows it.
pub parse-write_plain :
    (flags : ℕ) (p rest : List ℕ)
    → continued flags ≡ false
    → 3 + length p < 65536
    → Holds (write_plain flags p ++ rest) flags none p
parse-write_plain flags p rest c h = (
  segment_of input,
  parse-ok input (omega arith) fits,
  refl,
  rw c,
  payload-ok input fits ∙ ap ok behind,
)
  where
    input : List ℕ
    input = write_plain flags p ++ rest

    declared : declared_of input ≡ suc (suc (suc (length p)))
    declared = omega arith

    fits : Fits input
    fits = (rw c (omega arith), omega (arith, length-append p rest))

    behind : drop (header_of flags) (take (declared_of input) input) ≡ p
    behind = rw (c, declared) (take-append (length p) p rest refl)

-- A continued segment of at most 65535 bytes is read back, whatever follows it, with its target.
pub parse-write_continued :
    (flags : ℕ) (t : ContinuationTarget) (p rest : List ℕ)
    → continued flags ≡ true
    → t.resolver_key < 2 ^ 32
    → t.record_id < 2 ^ 16
    → 9 + length p < 65536
    → Holds (write_continued flags t p ++ rest) flags (some t) p
parse-write_continued flags t p rest c hk hr h = (
  segment_of input,
  parse-ok input (omega arith) fits,
  refl,
  rw c target,
  payload-ok input fits ∙ ap ok behind,
)
  where
    input : List ℕ
    input = write_continued flags t p ++ rest

    declared : declared_of input ≡ suc (suc (suc (suc (suc (suc (suc (suc (suc (length p)))))))))
    declared = omega arith

    fits : Fits input
    fits = (rw c (omega arith), omega (arith, length-append p rest))

    target : some (target_of input) ≡ some t
    target = ground arith

    behind : drop (header_of flags) (take (declared_of input) input) ≡ p
    behind = rw (c, declared) (take-append (length p) p rest refl)

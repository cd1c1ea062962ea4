-- ===== src/RowSegment/Chain/Spec.antt =====
-- Chains as a relation: what it is for segments to continue one another, with no walk and no limits.
use opensqlanywhere.Base.{ℕ, ◌+◌, ◌≡◌, List, [], ◌∷◌, false, length, Option, none, some}
use opensqlanywhere.Base.{Outcome, ok}
use opensqlanywhere.RowSegment.{
  RowSegment, RowSegmentError, ContinuationTarget, parse_row_segment, payload,
}
use opensqlanywhere.RowSegment.Chain.{RowSegmentChainSegment, contains}

-- The bytes are exactly one segment; `seg` is its copy, and `next` the target that it names.
pub record Reads (t : ContinuationTarget) (bs : List ℕ) (seg : RowSegmentChainSegment)
    (next : Option ContinuationTarget) : Type 0 where
  pub segment : RowSegment
  pub parses : parse_row_segment bs ≡ ok segment
  pub exact : segment.declared_len ≡ length bs
  pub holds : payload {E = RowSegmentError} segment ≡ ok seg.payload
  pub same_target : seg.target ≡ t
  pub same_flags : seg.flags ≡ segment.flags
  pub same_len : seg.declared_len ≡ segment.declared_len
  pub names_next : segment.next_target ≡ next

-- From the segment at `t` with bytes `bs`, the segments follow one another up to one that is not
-- continued; each further one is what the resolver gives for the target before it.
pub data Chained {E : Type 0} (resolve : ContinuationTarget → Outcome E (List ℕ))
    : ContinuationTarget → List ℕ → List RowSegmentChainSegment → Type 0 where
  last :
      {t : ContinuationTarget} {bs : List ℕ} {seg : RowSegmentChainSegment}
      → Reads t bs seg none
      → Chained resolve t bs (seg ∷ [])
  link :
      {t u : ContinuationTarget} {bs cs : List ℕ} {seg : RowSegmentChainSegment}
      {more : List RowSegmentChainSegment}
      → Reads t bs seg (some u)
      → resolve u ≡ ok cs
      → Chained resolve u cs more
      → Chained resolve t bs (seg ∷ more)

-- No target of the list was visited before.
abbrev pub AreFresh : List ContinuationTarget → List RowSegmentChainSegment → Type 0
AreFresh visited [] = Unit
AreFresh visited (s ∷ ss) = (contains visited s.target ≡ false) × AreFresh (s.target ∷ visited) ss

abbrev pub payload_sum : List RowSegmentChainSegment → ℕ
payload_sum [] = 0
payload_sum (s ∷ ss) = length s.payload + payload_sum ss

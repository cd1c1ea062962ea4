-- ===== src/RowSegment/Chain/Complete.antt =====
-- `walk_row_segment_chain` on a chain within the limits.
use opensqlanywhere.Base.{
  ℕ, zero, suc, ◌+◌, ◌≤◌, ◌<◌, ◌≡◌, refl, ap, ◌∙◌, List, [], ◌∷◌, ◌++◌, arith,
}
use opensqlanywhere.Base.{false, length, length-append, none, some, Outcome, ok}
use opensqlanywhere.RowSegment.{ContinuationTarget}
use opensqlanywhere.RowSegment.Chain.{
  RowSegmentChain, RowSegmentChainSegment, RowSegmentChainLimits, WalkState, contains, follow,
  proceed, loop, start, walk_row_segment_chain,
}
use opensqlanywhere.RowSegment.Chain.Spec.{Reads, Chained, last, link, AreFresh, payload_sum}
use opensqlanywhere.RowSegment.Chain.Rounds.{pushed, step-Reads}
use mathlib.Core.List.{append_assoc}
use mathlib.Core.Path.{subst}
use native.Mathlib.Nat.{add_assoc, zero-add}

abbrev rest_of : List RowSegmentChainSegment → List RowSegmentChainSegment
rest_of [] = []
rest_of (s ∷ ss) = ss

Chained-first :
    {E : Type 0} {resolve : ContinuationTarget → Outcome E (List ℕ)} {t : ContinuationTarget}
    {bs : List ℕ} {segs : List RowSegmentChainSegment}
    → Chained resolve t bs segs
    → (seg : RowSegmentChainSegment) × (segs ≡ seg ∷ rest_of segs) × (seg.target ≡ t)
Chained-first (last {seg = s} r) = (s, refl, r.same_target)
Chained-first (link {seg = s} r e c) = (s, refl, r.same_target)

module _ {E : Type 0} (resolve : ContinuationTarget → Outcome E (List ℕ))
    (limits : RowSegmentChainLimits) where
  abbrev finished : WalkState → List RowSegmentChainSegment → RowSegmentChain
  finished st segs = record {
    segments = st.segments ++ segs;
    total_payload_bytes = st.total_payload_bytes + payload_sum segs;
  }

  step_last :
      (st : WalkState) (seg : RowSegmentChainSegment)
      → Reads st.target st.bytes seg none
      → length st.segments < limits.max_segments
      → st.total_payload_bytes + length seg.payload ≤ limits.max_total_payload_bytes
      → (fuel : ℕ) → loop resolve limits (suc fuel) st ≡ some (ok (finished st (seg ∷ [])))
  unfolding loop proceed follow
  step_last st seg r few small fuel =
      rw (step-Reads resolve limits st seg none r (few, omega arith)) (ground arith)

  step_link :
      (st : WalkState) (seg : RowSegmentChainSegment) (u : ContinuationTarget) (cs : List ℕ)
      → Reads st.target st.bytes seg (some u)
      → resolve u ≡ ok cs
      → contains st.visited u ≡ false
      → length st.segments + 1 < limits.max_segments
      → st.total_payload_bytes + length seg.payload ≤ limits.max_total_payload_bytes
      → (fuel : ℕ)
      → loop resolve limits (suc fuel) st
        ≡ loop resolve limits fuel
            (record (pushed st seg) { visited = u ∷ st.visited; target = u; bytes = cs })
  unfolding loop proceed follow
  step_link st seg u cs r answer new few small fuel =
      rw (step-Reads resolve limits st seg (some u) r (omega arith, omega arith), answer, new)
        (ground (arith, length-append st.segments (seg ∷ [])))

  finished-link :
      (st : WalkState) (seg : RowSegmentChainSegment) (u : ContinuationTarget) (cs : List ℕ)
      (more : List RowSegmentChainSegment)
      → finished (record (pushed st seg) { visited = u ∷ st.visited; target = u; bytes = cs }) more
        ≡ finished st (seg ∷ more)
  finished-link st seg u cs more = ground (
    arith,
    append_assoc st.segments (seg ∷ []) more,
    add_assoc st.total_payload_bytes (length seg.payload) (payload_sum more),
  )

  loop-Chained :
      {t : ContinuationTarget} {bs : List ℕ} {segs : List RowSegmentChainSegment}
      → Chained resolve t bs segs
      → (fuel : ℕ) (st : WalkState) → st.target ≡ t
      → st.bytes ≡ bs
      → length segs ≤ fuel
      → length st.segments + length segs ≤ limits.max_segments
      → st.total_payload_bytes + payload_sum segs ≤ limits.max_total_payload_bytes
      → AreFresh st.visited (rest_of segs)
      → loop resolve limits fuel st ≡ some (ok (finished st segs))
  loop-Chained c zero st et eb fuel_ok few small fresh =
      let (seg, shape, first) = Chained-first c in absurd (omega (arith, ap length shape))
  loop-Chained (last {seg = seg} r) (suc fuel) st et eb fuel_ok few small fresh =
      step_last st seg (rw (et, eb) r) (omega arith) (omega arith) fuel
  loop-Chained (link {u = u} {cs = cs} {seg = seg} {more = more} r e c) (suc fuel) st et eb fuel_ok
        few small fresh =
      let (seg', shape, first) = Chained-first c in
      let (new, fresh') = subst (λ m. AreFresh st.visited m) shape fresh in
      let st' : WalkState = record (pushed st seg) {
        visited = u ∷ st.visited;
        target = u;
        bytes = cs;
      } in
      let below : length st.segments + 1 < limits.max_segments = omega (arith, ap length shape) in
      let len : length st'.segments ≡ length st.segments + 1 =
        length-append st.segments (seg ∷ []) in
      let tail_fresh : AreFresh st'.visited (rest_of more) =
        subst (λ v. AreFresh (v ∷ st.visited) (rest_of more)) first fresh' in
      step_link st seg u cs (rw (et, eb) r) e (rw first at new) below (omega arith) fuel
      ∙ loop-Chained c fuel st' refl refl (omega arith) (omega arith) (omega arith) tail_fresh
      ∙ ap (λ k. some (ok k)) (finished-link st seg u cs more)

  -- A chain whose targets are distinct and that keeps the limits is what the walk returns, with the
  -- sum of its payload lengths.
  pub walk_row_segment_chain_complete :
      (t : ContinuationTarget) (bs : List ℕ) (segs : List RowSegmentChainSegment)
      → Chained resolve t bs segs
      → AreFresh [] segs
      → length segs ≤ limits.max_segments
      → payload_sum segs ≤ limits.max_total_payload_bytes
      → walk_row_segment_chain resolve limits t bs
        ≡ some (ok (record { segments = segs; total_payload_bytes = payload_sum segs }))
  unfolding walk_row_segment_chain
  walk_row_segment_chain_complete t bs segs c fresh few small =
      let (seg, shape, first) = Chained-first c in
      let (new, fresh') = subst (λ m. AreFresh [] m) shape fresh in
      let tail_fresh : AreFresh (t ∷ []) (rest_of segs) =
        subst (λ v. AreFresh (v ∷ []) (rest_of segs)) first fresh' in
      loop-Chained c (suc limits.max_segments) (start resolve limits t bs) refl refl (omega arith)
        (omega arith) (omega arith) tail_fresh
      ∙ rw zero-add

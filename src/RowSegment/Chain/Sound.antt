-- ===== src/RowSegment/Chain/Sound.antt =====
-- What a successful `walk_row_segment_chain` has collected.
use opensqlanywhere.Base.{ℕ, zero, suc, ◌+◌, ◌≤◌, ◌≡◌, refl, ◌∙◌, List, [], ◌∷◌, ◌++◌, arith}
use opensqlanywhere.Base.{length, length-append, some, Outcome, ok, err, panic}
use opensqlanywhere.RowSegment.{ContinuationTarget}
use opensqlanywhere.RowSegment.Chain.{
  RowSegmentChain, RowSegmentChainSegment, RowSegmentChainError, RowSegmentChainLimits, WalkState,
  Step, done, again, contains, step, proceed, loop, start, walk_row_segment_chain,
}
use opensqlanywhere.RowSegment.Chain.Spec.{Chained, last, link, AreFresh, payload_sum}
use opensqlanywhere.RowSegment.Chain.Rounds.{pushed, Ends, GoesOn, step-Ends, step-GoesOn}
use mathlib.Core.List.{append_assoc}
use mathlib.Core.Path.{subst}

module _ {E : Type 0} (resolve : ContinuationTarget → Outcome E (List ℕ))
    (limits : RowSegmentChainLimits) where
  -- What the walk from `st` has added when it ends with `c`.
  record IsSound (st : WalkState) (c : RowSegmentChain) : Type 0 where
    seg : RowSegmentChainSegment
    more : List RowSegmentChainSegment
    added : c.segments ≡ st.segments ++ (seg ∷ more)
    chained : Chained resolve st.target st.bytes (seg ∷ more)
    total : c.total_payload_bytes ≡ st.total_payload_bytes + payload_sum (seg ∷ more)
    few : length c.segments ≤ limits.max_segments
    small : c.total_payload_bytes ≤ limits.max_total_payload_bytes
    fresh : AreFresh st.visited more
    first : seg.target ≡ st.target

  Ends-IsSound :
      (st : WalkState) (c : RowSegmentChain)
      → st.total_payload_bytes ≤ limits.max_total_payload_bytes
      → Ends resolve limits st c
      → IsSound st c
  Ends-IsSound st c h (seg, reads, room, segs, tot) = record {
    seg = seg;
    more = [];
    added = segs;
    chained = last reads;
    total = omega arith;
    few = rw segs (omega (arith, length-append st.segments (seg ∷ [])));
    small = omega arith;
    fresh = tt;
    first = reads.same_target;
  }

  GoesOn-IsSound :
      (st st' : WalkState) (c : RowSegmentChain)
      → st.total_payload_bytes ≤ limits.max_total_payload_bytes
      → GoesOn resolve limits st st'
      → (st'.total_payload_bytes ≤ limits.max_total_payload_bytes → IsSound st' c)
      → IsSound st c
  GoesOn-IsSound st st' c h (seg, t, bs, reads, room, new, below, answer, eq) later =
      let next : WalkState = record (pushed st seg) {
        visited = t ∷ st.visited;
        target = t;
        bytes = bs;
      } in
      let s : IsSound next c =
        subst (λ (w : WalkState). IsSound w c) eq (later (rw eq (omega arith))) in
      record {
        seg = seg;
        more = s.seg ∷ s.more;
        added = s.added ∙ append_assoc st.segments (seg ∷ []) (s.seg ∷ s.more);
        chained = link reads answer s.chained;
        total = omega (arith, s.total);
        few = s.few;
        small = s.small;
        fresh = rw s.first (new, s.fresh);
        first = reads.same_target;
      }

  loop-IsSound :
      (fuel : ℕ) (st : WalkState) (c : RowSegmentChain)
      → st.total_payload_bytes ≤ limits.max_total_payload_bytes
      → loop resolve limits fuel st ≡ some (ok c)
      → IsSound st c
  unfolding loop proceed
  loop-IsSound zero st c h e = cc
  loop-IsSound (suc fuel) st c h e =
      go (λ s b. loop-IsSound fuel s c b) (step resolve limits st) refl e
    where
      go :
          ((s : WalkState)
            → s.total_payload_bytes ≤ limits.max_total_payload_bytes
            → loop resolve limits fuel s ≡ some (ok c)
            → IsSound s c)
          → (o : Outcome (RowSegmentChainError E) Step) → step resolve limits st ≡ o
          → proceed resolve limits (loop resolve limits fuel) o ≡ some (ok c)
          → IsSound st c
      go ih (ok (done d)) eo p =
          let same : d ≡ c = cc p in
          Ends-IsSound st c h (rw same at (step-Ends resolve limits st d eo))
      go ih (ok (again st')) eo p =
          GoesOn-IsSound st st' c h (step-GoesOn resolve limits st st' eo) (λ b. ih st' b p)
      go ih (err x) eo p = cc p
      go ih panic eo p = cc p

  -- If the walk succeeds, its segments are a chain from the initial target and bytes, each exactly
  -- one segment and each further one the resolver's answer for the target before it; no target
  -- occurs twice, the total is the sum of the payload lengths, and both limits are kept.
  pub walk_row_segment_chain-Chained :
      (t : ContinuationTarget) (bs : List ℕ) (c : RowSegmentChain)
      → walk_row_segment_chain resolve limits t bs ≡ some (ok c)
      → Chained resolve t bs c.segments
        × AreFresh [] c.segments
        × (c.total_payload_bytes ≡ payload_sum c.segments)
        × (length c.segments ≤ limits.max_segments)
        × (c.total_payload_bytes ≤ limits.max_total_payload_bytes)
  unfolding walk_row_segment_chain contains
  walk_row_segment_chain-Chained t bs c e =
      let s : IsSound (start resolve limits t bs) c =
        loop-IsSound (suc limits.max_segments) (start resolve limits t bs) c (omega arith) e in
      (
        rw s.added s.chained,
        rw s.added (refl, rw s.first s.fresh),
        rw s.added (omega (arith, s.total)),
        s.few,
        s.small,
      )

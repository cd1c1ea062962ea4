-- ===== src/RowSegment/Chain/Total.antt =====
-- `walk_row_segment_chain`: its fuel, and its panics.
use opensqlanywhere.Base.{
  ℕ, zero, suc, ◌+◌, ◌≤◌, ◌<◌, ◌≡◌, ◌≢◌, refl, ap, ◌∙◌, inl, inr, List, [], ◌∷◌, arith, length,
  length-append,
}
use opensqlanywhere.Base.{none, some, Option-cases, Outcome, ok, err, panic}
use opensqlanywhere.RowSegment.{ContinuationTarget}
use opensqlanywhere.RowSegment.Parsing.{parse_decide, payload-ok, target_of}
use opensqlanywhere.RowSegment.Chain.{
  RowSegmentChain, RowSegmentChainError, RowSegmentChainLimits, WalkState, Step, done, again, step,
  follow, proceed, loop, start, walk_row_segment_chain,
}
use opensqlanywhere.RowSegment.Chain.Rounds.{step-GoesOn}

module _ {E : Type 0} (resolve : ContinuationTarget → Outcome E (List ℕ))
    (limits : RowSegmentChainLimits) where
  -- Each round that goes on has pushed a segment and is below the limit.
  grows :
      (st st' : WalkState)
      → step resolve limits st ≡ ok (again st')
      → (length st'.segments ≡ length st.segments + 1)
        × (length st.segments + 1 < limits.max_segments)
  grows st st' e =
      let (seg, t, bs, reads, room, fresh, more, r, eq) = step-GoesOn resolve limits st st' e in
      (ap (λ (s : WalkState). length s.segments) eq ∙ length-append st.segments (seg ∷ []), more)

  loop-ne-none :
      (fuel : ℕ) (st : WalkState)
      → length st.segments ≤ limits.max_segments
      → limits.max_segments < fuel + length st.segments
      → loop resolve limits fuel st ≢ none
  unfolding loop proceed
  loop-ne-none zero st b h = absurd (omega arith)
  loop-ne-none (suc fuel) st b h = go (loop-ne-none fuel) (step resolve limits st) refl
    where
      go :
          ((s : WalkState)
            → length s.segments ≤ limits.max_segments
            → limits.max_segments < fuel + length s.segments
            → loop resolve limits fuel s ≢ none)
          → (o : Outcome (RowSegmentChainError E) Step) → step resolve limits st ≡ o
          → proceed resolve limits (loop resolve limits fuel) o ≢ none
      go ih (ok (done c)) e = λ p. cc
      go ih (ok (again st')) e =
          let (len, below) = grows st st' e in ih st' (omega arith) (omega arith)
      go ih (err x) e = λ p. cc
      go ih panic e = λ p. cc

  step-ne-panic :
      ((t : ContinuationTarget) → resolve t ≢ panic)
      → (st : WalkState) → step resolve limits st ≢ panic
  unfolding step follow
  step-ne-panic h st = elim (parse_decide st.bytes) [
    | inl (e, p) ↦ rw p (ground arith)
    | inr (fits, p) ↦ rw (p, payload-ok st.bytes fits) (ground (arith, h (target_of st.bytes)))
  ]

  loop-ne-panic :
      ((t : ContinuationTarget) → resolve t ≢ panic)
      → (fuel : ℕ) (st : WalkState) → loop resolve limits fuel st ≢ some panic
  unfolding loop proceed
  loop-ne-panic h zero st = λ p. cc
  loop-ne-panic h (suc fuel) st = go (loop-ne-panic h fuel) (step resolve limits st) refl
    where
      go :
          ((s : WalkState) → loop resolve limits fuel s ≢ some panic)
          → (o : Outcome (RowSegmentChainError E) Step) → step resolve limits st ≡ o
          → proceed resolve limits (loop resolve limits fuel) o ≢ some panic
      go ih (ok (done c)) e = λ p. cc
      go ih (ok (again st')) e = ih st'
      go ih (err x) e = λ p. cc
      go ih panic e = absurd (step-ne-panic h st e)

  -- The walk ends within its fuel, whatever the resolver and the limits are.
  pub walk_row_segment_chain_total :
      (initial_target : ContinuationTarget) (initial_bytes : List ℕ)
      → (o : Outcome (RowSegmentChainError E) RowSegmentChain) × (walk_row_segment_chain resolve
            limits initial_target initial_bytes
          ≡ some o)
  unfolding walk_row_segment_chain
  walk_row_segment_chain_total t bs =
      elim (Option-cases
        (loop resolve limits (suc limits.max_segments) (start resolve limits t bs))) [
          | inl e ↦ absurd (
              loop-ne-none (suc limits.max_segments) (start resolve limits t bs) (omega arith)
                (omega arith) e)
          | inr found ↦ found
        ]

  -- If the resolver does not panic, the walk does not, on any bytes and under any limits.
  pub walk_row_segment_chain-ne-panic :
      (initial_target : ContinuationTarget) (initial_bytes : List ℕ)
      → ((t : ContinuationTarget) → resolve t ≢ panic)
      → walk_row_segment_chain resolve limits initial_target initial_bytes ≢ some panic
  unfolding walk_row_segment_chain
  walk_row_segment_chain-ne-panic t bs h =
      loop-ne-panic h (suc limits.max_segments) (start resolve limits t bs)

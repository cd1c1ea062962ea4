-- ===== src/RowSegment/Chain/Rounds.antt =====
-- One round of the walk, inverted: what a round that succeeds has read and checked.
use opensqlanywhere.Base.{ℕ, ◌+◌, ◌-◌, ◌≤◌, ◌<◌, ◌≡◌, refl, List, [], ◌∷◌, ◌++◌, false, not, arith}
use opensqlanywhere.Base.{
  length-append, ltb, leb, ◌==◌, length, Option, none, some, slice, Outcome, ok, guard, map_err,
  >>=-eq-ok, map_err-eq-ok,
}
use opensqlanywhere.RowSegment.{RowSegment, ContinuationTarget, parse_row_segment, payload}
use opensqlanywhere.RowSegment.Chain.{
  RowSegmentChainSegment, RowSegmentChainError, RowSegmentChainLimits, RowSegmentChain, WalkState,
  Step, done, again, contains, follow, step, segment_limit, saturating_add, invalid_segment,
  trailing_bytes, payload_limit, cycle, resolver,
}
use opensqlanywhere.RowSegment.Chain.Spec.{Reads}

-- The state after a segment is pushed.
abbrev pub pushed : WalkState → RowSegmentChainSegment → WalkState
pushed st seg = record st {
  segments = st.segments ++ (seg ∷ []);
  total_payload_bytes = st.total_payload_bytes + length seg.payload;
}

-- The payload does not depend on the error type at which it is read.
payload_any :
    {E F : Type 0} (s : RowSegment) (p : List ℕ)
    → payload {E = E} s ≡ ok p
    → payload {E = F} s ≡ ok p
unfolding payload slice
payload_any s p e = ground arith

module _ {E : Type 0} (resolve : ContinuationTarget → Outcome E (List ℕ))
    (limits : RowSegmentChainLimits) where
  abbrev pub Room : WalkState → RowSegmentChainSegment → Type 0
  Room st seg =
      (length st.segments < limits.max_segments)
      × (length seg.payload ≤ limits.max_total_payload_bytes - st.total_payload_bytes)

  pub step-Reads :
      (st : WalkState) (seg : RowSegmentChainSegment) (next : Option ContinuationTarget)
      → Reads st.target st.bytes seg next
      → Room st seg
      → step resolve limits st ≡ follow resolve limits (pushed st seg) next
  unfolding step
  step-Reads st seg next r room =
      rw
        (
          r.parses,
          payload_any {F = RowSegmentChainError E} r.segment seg.payload r.holds,
          r.names_next,
        )
        (ground arith)

  pub step-inv :
      (st : WalkState) (out : Step)
      → step resolve limits st ≡ ok out
      → (seg : RowSegmentChainSegment) × (next : Option ContinuationTarget) × Reads st.target
          st.bytes seg next
        × Room st seg
        × (follow resolve limits (pushed st seg) next ≡ ok out)
  unfolding step
  step-inv st out e =
      let n = length st.segments in
      let at_limit = segment_limit limits.max_segments (saturating_add n 1) in
      let (u1, g1, k1) = >>=-eq-ok (guard (ltb n limits.max_segments) at_limit) _ e in
      let bad = invalid_segment st.target n in
      let (s, e2, k2) = >>=-eq-ok (map_err bad (parse_row_segment st.bytes)) _ k1 in
      let len = length st.bytes in
      let longer = trailing_bytes st.target n s.declared_len len in
      let (u2, g2, k3) = >>=-eq-ok (guard (s.declared_len == len) longer) _ k2 in
      let (p, e3, k4) = >>=-eq-ok (payload s) _ k3 in
      let left = limits.max_total_payload_bytes - st.total_payload_bytes in
      let tried = saturating_add st.total_payload_bytes (length p) in
      let over = payload_limit limits.max_total_payload_bytes tried in
      let (u3, g3, k5) = >>=-eq-ok (guard (leb (length p) left) over) _ k4 in
      let parses = map_err-eq-ok bad _ e2 in
      (
        record { target = st.target; flags = s.flags; declared_len = s.declared_len; payload = p },
        s.next_target,
        record {
          segment = s;
          parses = parses;
          exact = ground arith;
          holds = payload_any s p e3;
          same_target = refl;
          same_flags = refl;
          same_len = refl;
          names_next = refl;
        },
        (ground arith, ground arith),
        k5,
      )

  pub follow-some_inv :
      (st : WalkState) (t : ContinuationTarget) (out : Step)
      → follow resolve limits st (some t) ≡ ok out
      → (contains st.visited t ≡ false)
        × (length st.segments < limits.max_segments)
        × ((bs : List ℕ) × (resolve t ≡ ok bs)
            × (out ≡ again (record st { visited = t ∷ st.visited; target = t; bytes = bs })))
  unfolding follow
  follow-some_inv st t out e =
      let n = length st.segments in
      let at_limit = segment_limit limits.max_segments (saturating_add n 1) in
      let (u1, g1, k1) = >>=-eq-ok (guard (not (contains st.visited t)) (cycle t)) _ e in
      let (u2, g2, k2) = >>=-eq-ok (guard (ltb n limits.max_segments) at_limit) _ k1 in
      let (bs, e3, k3) = >>=-eq-ok (map_err (resolver t) (resolve t)) _ k2 in
      (ground arith, ground arith, (bs, map_err-eq-ok (resolver t) _ e3, cc k3))

  -- A round that ends the walk, and one that goes on.
  abbrev pub Ends : WalkState → RowSegmentChain → Type 0
  Ends st c =
      (seg : RowSegmentChainSegment) × Reads st.target st.bytes seg none
      × Room st seg
      × (c.segments ≡ st.segments ++ (seg ∷ []))
      × (c.total_payload_bytes ≡ st.total_payload_bytes + length seg.payload)

  abbrev pub GoesOn : WalkState → WalkState → Type 0
  GoesOn st st' =
      (seg : RowSegmentChainSegment) × (t : ContinuationTarget) × (bs : List ℕ) × Reads st.target
        st.bytes seg (some t)
      × Room st seg
      × (contains st.visited t ≡ false)
      × (length st.segments + 1 < limits.max_segments)
      × (resolve t ≡ ok bs)
      × (st' ≡ record (pushed st seg) { visited = t ∷ st.visited; target = t; bytes = bs })

  pub step-Ends :
      (st : WalkState) (c : RowSegmentChain) → step resolve limits st ≡ ok (done c) → Ends st c
  unfolding follow
  step-Ends st c e =
      let (seg, next, reads, room, f) = step-inv st (done c) e in go seg next reads room f
    where
      go :
          (seg : RowSegmentChainSegment) (next : Option ContinuationTarget)
          → Reads st.target st.bytes seg next
          → Room st seg
          → follow resolve limits (pushed st seg) next ≡ ok (done c)
          → Ends st c
      go seg none reads room f = (seg, reads, room, ground arith, ground arith)
      go seg (some t) reads room f = cc ((follow-some_inv (pushed st seg) t (done c) f).2.2)

  pub step-GoesOn : (st st' : WalkState) → step resolve limits st ≡ ok (again st') → GoesOn st st'
  unfolding follow
  step-GoesOn st st' e =
      let (seg, next, reads, room, f) = step-inv st (again st') e in go seg next reads room f
    where
      go :
          (seg : RowSegmentChainSegment) (next : Option ContinuationTarget)
          → Reads st.target st.bytes seg next
          → Room st seg
          → follow resolve limits (pushed st seg) next ≡ ok (again st')
          → GoesOn st st'
      go seg none reads room f = cc f
      go seg (some t) reads room f =
          let (fresh, more, (bs, r, eq)) = follow-some_inv (pushed st seg) t (again st') f in
          (
            seg,
            t,
            bs,
            reads,
            room,
            fresh,
            omega (arith, length-append st.segments (seg ∷ [])),
            r,
            cc eq,
          )

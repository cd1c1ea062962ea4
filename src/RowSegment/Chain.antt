-- ===== src/RowSegment/Chain.antt =====
-- `walk_row_segment_chain` of crates/opensqlany/src/row_segment.rs.
-- The resolver is a function of the target: the walk asks it for each target once at most, since a
-- target that was seen before ends the walk, so a resolver that keeps a state answers no more than
-- such a function.
pub mod Spec
pub mod Rounds
pub mod Total
pub mod Sound
pub mod Complete
use opensqlanywhere.Base.{
  ℕ, zero, suc, ◌+◌, ◌-◌, ◌^◌, min, List, [], ◌∷◌, ◌++◌, Bool, true, false, not, ◌&&◌,
}
use opensqlanywhere.Base.{◌||◌, ◌==◌, ltb, leb, length, Option, none, some}
use opensqlanywhere.Base.{Outcome, ok, err, panic, ◌>>=◌, ◌>>◌, guard, map_err}
use opensqlanywhere.RowSegment.{
  RowSegment, RowSegmentError, ContinuationTarget, parse_row_segment, payload,
}

pub record RowSegmentChainLimits : Type 0 where
  pub max_segments : ℕ
  pub max_total_payload_bytes : ℕ

pub record RowSegmentChainSegment : Type 0 where
  pub target : ContinuationTarget
  pub flags : ℕ
  pub declared_len : ℕ
  pub payload : List ℕ

pub record RowSegmentChain : Type 0 where
  pub segments : List RowSegmentChainSegment
  pub total_payload_bytes : ℕ

pub data RowSegmentChainError (E : Type 0) : Type 0 where
  invalid_segment :
      (target : ContinuationTarget) (segment_index : ℕ) (source : RowSegmentError)
      → RowSegmentChainError E
  trailing_bytes :
      (target : ContinuationTarget) (segment_index declared_len available : ℕ)
      → RowSegmentChainError E
  resolver : (target : ContinuationTarget) (source : E) → RowSegmentChainError E
  segment_limit : (max_segments attempted_segments : ℕ) → RowSegmentChainError E
  payload_limit :
      (max_total_payload_bytes attempted_total_payload_bytes : ℕ) → RowSegmentChainError E
  cycle : (target : ContinuationTarget) → RowSegmentChainError E

-- `usize::saturating_add`
unfoldable pub saturating_add : ℕ → ℕ → ℕ
saturating_add a b = min (a + b) (2 ^ 64 - 1)

target_eq : ContinuationTarget → ContinuationTarget → Bool
target_eq a b = a.resolver_key == b.resolver_key && a.record_id == b.record_id

-- Membership in the set of visited targets.
unfoldable pub contains : List ContinuationTarget → ContinuationTarget → Bool
unfolding target_eq
contains [] t = false
contains (v ∷ vs) t = target_eq v t || contains vs t

-- The variables of the loop.
pub record WalkState : Type 0 where
  pub visited : List ContinuationTarget
  pub segments : List RowSegmentChainSegment
  pub total_payload_bytes : ℕ
  pub target : ContinuationTarget
  pub bytes : List ℕ

pub data Step : Type 0 where
  done : RowSegmentChain → Step
  again : WalkState → Step

module _ {E : Type 0} (resolve : ContinuationTarget → Outcome E (List ℕ))
    (limits : RowSegmentChainLimits) where
  -- From the segment that was just pushed to the next round.
  unfoldable pub follow :
      WalkState → Option ContinuationTarget → Outcome (RowSegmentChainError E) Step
  follow st none =
      ok (done (record { segments = st.segments; total_payload_bytes = st.total_payload_bytes }))
  follow st (some next_target) = do
    guard (not (contains st.visited next_target)) (cycle next_target)
    let visited = next_target ∷ st.visited
    let count = length st.segments
    guard (ltb count limits.max_segments)
        (segment_limit limits.max_segments (saturating_add count 1))
    resolved ← map_err (resolver next_target) (resolve next_target)
    ok (again (record st { visited = visited; target = next_target; bytes = resolved }))

  -- The body of the loop.
  unfoldable pub step : WalkState → Outcome (RowSegmentChainError E) Step
  step st = do
    let segment_index = length st.segments
    guard (ltb segment_index limits.max_segments)
        (segment_limit limits.max_segments (saturating_add segment_index 1))
    segment ← map_err (invalid_segment st.target segment_index) (parse_row_segment st.bytes)
    guard (segment.declared_len == length st.bytes)
        (trailing_bytes st.target segment_index segment.declared_len (length st.bytes))
    p ← payload segment
    let attempted = saturating_add st.total_payload_bytes (length p)
    guard (leb (length p) (limits.max_total_payload_bytes - st.total_payload_bytes))
        (payload_limit limits.max_total_payload_bytes attempted)
    let pushed : RowSegmentChainSegment = record {
      target = st.target;
      flags = segment.flags;
      declared_len = segment.declared_len;
      payload = p;
    }
    follow
        (record st {
          segments = st.segments ++ (pushed ∷ []);
          total_payload_bytes = st.total_payload_bytes + length p;
        })
        segment.next_target

  -- Leaving the loop, or going on by `k`.
  unfoldable pub proceed :
      (WalkState → Option (Outcome (RowSegmentChainError E) RowSegmentChain))
      → Outcome (RowSegmentChainError E) Step
      → Option (Outcome (RowSegmentChainError E) RowSegmentChain)
  proceed k (ok (done c)) = some (ok c)
  proceed k (ok (again st)) = k st
  proceed k (err e) = some (err e)
  proceed k panic = some panic

  -- The loop with fuel; `none` stands for the end of the fuel.
  unfoldable pub loop : ℕ → WalkState → Option (Outcome (RowSegmentChainError E) RowSegmentChain)
  loop zero st = none
  loop (suc fuel) st = proceed (loop fuel) (step st)

  unfoldable pub start : ContinuationTarget → List ℕ → WalkState
  start initial_target initial_bytes = record {
    visited = initial_target ∷ [];
    segments = [];
    total_payload_bytes = 0;
    target = initial_target;
    bytes = initial_bytes;
  }

  -- Each round pushes a segment, so one round more than `max_segments` is enough.
  unfoldable pub walk_row_segment_chain :
      ContinuationTarget → List ℕ → Option (Outcome (RowSegmentChainError E) RowSegmentChain)
  unfolding start
  walk_row_segment_chain initial_target initial_bytes =
      loop (suc limits.max_segments) (start initial_target initial_bytes)

-- ===== src/Ap/Models.antt =====
-- crates/opensqlany/src/ap.rs: the calibration byte of a page or a block, and `ApModel`.
-- A hash map is the list of its entries. The order in which a map is iterated is unspecified, and is
-- a parameter.
pub mod Learning
use opensqlanywhere.Base.{
  ℕ, zero, suc, ◌+◌, ◌-◌, ◌*◌, ◌/◌, ◌%◌, min, List, [], ◌∷◌, ◌++◌, Bool, true, false, ◌||◌, ◌==◌,
  ltb, leb, if◌then◌else◌, Option, none, some,
}
use opensqlanywhere.Base.{
  length, get_or, replicate, take, drop, Outcome, ok, err, panic, ◌>>=◌, ◌>>◌, slice, read,
}
use opensqlanywhere.Base.Bytes.{wrapping_add, wrapping_sub, wrapping_mul}
use opensqlanywhere.Error.{Error}
use opensqlanywhere.Page.{Page, trailer}
use opensqlanywhere.Store.{PageStore, page_count, pages, collect}
use opensqlanywhere.Store
use opensqlanywhere.Ap.{
  page_bias, empty_histogram, count_in, last_max, unwrap_or, dominant_step, recover_base, is_pure,
  sector_start, sector_size, data_end, trailer_start, sectors_per_page, ApPageRecoveryConfidence,
  deobfuscate_with_bv_and_confidence, deobfuscate_with_bv,
}

-- `PURE_AP_TYPES.contains(&ptype)`
abbrev pub is_pure_ap_type : ℕ → Bool
is_pure_ap_type ptype = ptype == 0x40 || ptype == 0x43 || ptype == 0x48 || ptype == 0x4d

-- `*votes.entry(value).or_default() += 1`
abbrev pub vote : ℕ → List (ℕ × ℕ) → List (ℕ × ℕ)
vote value [] = (value, 1) ∷ []
vote value ((v, n) ∷ votes) =
    let rest = vote value votes in if v == value then (v, n + 1) ∷ votes else (v, n) ∷ rest

-- `max_by_key` of the numbers of votes: the last of the largest, in the order of iteration.
unfoldable pub winner_from : ℕ × ℕ → List (ℕ × ℕ) → ℕ
winner_from best [] = best.0
winner_from best (e ∷ es) = winner_from (if leb best.1 e.1 then e else best) es

unfoldable pub winner : List (ℕ × ℕ) → Option ℕ
winner [] = none
winner (e ∷ es) = some (winner_from e es)

-- The inverse of the base formula.
unfoldable pub bv_of_base : (base pn si : ℕ) → ℕ
bv_of_base base pn si =
    wrapping_add (wrapping_sub (wrapping_sub base (pn % 256)) (si % 256)) (page_bias pn)

-- The body of the loop over the sectors: what a sector votes for, if it is pure.
unfoldable pub sector_vote : {E : Type 0} (bytes : List ℕ) (pn si : ℕ) → Outcome E (Option ℕ)
sector_vote bytes pn si = do
  sec ← slice bytes (sector_start si) (data_end si)
  let step = dominant_step sec
  let base = recover_base sec step
  ok (if is_pure sec base step then some (bv_of_base base pn si) else none)

abbrev pub vote_for : Option ℕ → List (ℕ × ℕ) → List (ℕ × ℕ)
vote_for none votes = votes
vote_for (some bv) votes = vote bv votes

-- The loop over the sectors, with the rounds left.
unfoldable pub sector_votes :
    {E : Type 0} (bytes : List ℕ) (pn left si : ℕ) → List (ℕ × ℕ) → Outcome E (List (ℕ × ℕ))
sector_votes bytes pn zero si votes = ok votes
sector_votes bytes pn (suc left) si votes = do
  v ← sector_vote bytes pn si
  sector_votes bytes pn left (suc si) (vote_for v votes)

-- The iteration orders of the hash maps of votes, of blocks and of the learned bytes.
pub record HashOrder : Type 0 where
  pub of_votes : List (ℕ × ℕ) → List (ℕ × ℕ)
  pub of_blocks : List (ℕ × List (ℕ × ℕ)) → List (ℕ × List (ℕ × ℕ))
  pub of_learned : List (ℕ × ℕ) → List (ℕ × ℕ)

unfoldable pub learn_bv_for_page :
    {E : Type 0} → HashOrder → (bytes : List ℕ) (pn ptype : ℕ) → Outcome E (Option ℕ)
learn_bv_for_page order bytes pn ptype =
    if is_pure_ap_type ptype
    then (do
      votes ← sector_votes bytes pn sectors_per_page 0 []
      ok (winner (order.of_votes votes)))
    else ok none

pub record ApModel : Type 0 where
  pub bv_map : List (ℕ × ℕ)
  pub bv0 : ℕ

-- `votes.entry(bi).or_default()`, and the votes that replace it.
abbrev pub votes_of : ℕ → List (ℕ × List (ℕ × ℕ)) → List (ℕ × ℕ)
votes_of bi [] = []
votes_of bi ((b, v) ∷ blocks) = let rest = votes_of bi blocks in if b == bi then v else rest

abbrev pub put_votes : ℕ → List (ℕ × ℕ) → List (ℕ × List (ℕ × ℕ)) → List (ℕ × List (ℕ × ℕ))
put_votes bi new [] = (bi, new) ∷ []
put_votes bi new ((b, v) ∷ blocks) =
    let rest = put_votes bi new blocks in if b == bi then (b, new) ∷ blocks else (b, v) ∷ rest

-- The sectors of a page of a pure type, with the entry of a block made by its first vote.
unfoldable pub block_votes :
    {E : Type 0} (bytes : List ℕ) (pn left si : ℕ)
    → List (ℕ × List (ℕ × ℕ))
    → Outcome E (List (ℕ × List (ℕ × ℕ)))
block_votes bytes pn zero si blocks = ok blocks
block_votes bytes pn (suc left) si blocks = do
  v ← sector_vote bytes pn si
  block_votes bytes pn left (suc si) (elim v [
    | none ↦ blocks
    | some bv ↦ put_votes (pn / 16) (vote bv (votes_of (pn / 16) blocks)) blocks
  ])

unfoldable pub learn_pages :
    {E : Type 0} → List Page → List (ℕ × List (ℕ × ℕ)) → Outcome E (List (ℕ × List (ℕ × ℕ)))
learn_pages [] blocks = ok blocks
learn_pages {E} (p ∷ ps) blocks = do
  t ← trailer p
  let sectors = block_votes {E = E} p.bytes p.index sectors_per_page 0 blocks
  voted ← (if is_pure_ap_type t.page_type_raw then sectors else ok blocks)
  learn_pages ps voted

-- `bv_map.insert` for each block with a vote, in the order of iteration; a block comes once.
unfoldable pub learned_bytes : HashOrder → List (ℕ × List (ℕ × ℕ)) → List (ℕ × ℕ)
learned_bytes order [] = []
learned_bytes order ((bi, ctr) ∷ blocks) =
    let rest = learned_bytes order blocks in
    elim (winner (order.of_votes ctr)) [ none ↦ rest | some bv ↦ (bi, bv) ∷ rest ]

-- `bv_map.get(&bi)`
unfoldable pub learned : ℕ → List (ℕ × ℕ) → Option ℕ
learned bi [] = none
learned bi ((b, bv) ∷ more) = let rest = learned bi more in if b == bi then some bv else rest

-- `bv_map.values().copied().next()`
unfoldable pub any_learned : List (ℕ × ℕ) → Option ℕ
any_learned [] = none
any_learned (e ∷ es) = some e.1

-- The iteration over the pages ends after `page_count` pages, so the fuel is enough.
unfoldable pub learn : HashOrder → PageStore → Outcome Error ApModel
learn order store = do
  all ← collect (suc (page_count store)) (pages store)
  elim all [
    | none ↦ panic
    | some ps ↦ do
      votes ← learn_pages ps []
      let bv_map = learned_bytes order (order.of_blocks votes)
      let bv0 = unwrap_or (learned 0 bv_map) (unwrap_or (any_learned (order.of_learned bv_map)) 0)
      ok (record { bv_map = bv_map; bv0 = bv0 })
  ]

unfoldable pub bv_at : ApModel → ℕ → ℕ
bv_at m bi = unwrap_or (learned bi m.bv_map) m.bv0

unfoldable pub deobfuscate : {E : Type 0} → ApModel → (raw : List ℕ) (pn : ℕ) → Outcome E (List ℕ)
deobfuscate m raw pn = deobfuscate_with_bv raw pn (bv_at m (pn / 16))

unfoldable pub learned_block_count : ApModel → ℕ
learned_block_count m = length m.bv_map

unfoldable pub shifted_histogram : (offset step i : ℕ) → List ℕ → List ℕ → List ℕ
shifted_histogram offset step i [] hist = hist
shifted_histogram offset step i (b ∷ sec) hist =
    shifted_histogram offset step (suc i) sec
      (count_in hist (wrapping_sub (wrapping_sub b offset) (wrapping_mul (i % 256) step)))

abbrev pub pointwise : (ℕ → ℕ → ℕ) → List ℕ → List ℕ → List ℕ
pointwise f [] ys = []
pointwise f (x ∷ xs) [] = x ∷ xs
pointwise f (x ∷ xs) (y ∷ ys) = f x y ∷ pointwise f xs ys

-- The loop over the steps, with the rounds left: the largest entry for each byte.
unfoldable pub step_bv_max : (sec : List ℕ) (offset left step : ℕ) → List ℕ → List ℕ
step_bv_max sec offset zero step best = best
step_bv_max sec offset (suc left) step best = step_bv_max sec offset left (suc step) (
    pointwise (λ b h. if ltb b h then h else b) best
      (shifted_histogram offset step 0 sec empty_histogram))

-- The loop over the first seven sectors, with the rounds left.
unfoldable pub score_sectors :
    {E : Type 0} (bytes : List ℕ) (pn left si : ℕ) → List ℕ → Outcome E (List ℕ)
score_sectors bytes pn zero si scores = ok scores
score_sectors bytes pn (suc left) si scores = do
  let off = si * sector_size
  sec ← slice bytes off (off + sector_size)
  let offset = wrapping_sub (wrapping_add (pn % 256) (si % 256)) (page_bias pn)
  let best = step_bv_max sec offset 256 0 empty_histogram
  score_sectors bytes pn left (suc si) (pointwise (λ a b. a + b) scores best)

unfoldable pub score_bv_candidates :
    {E : Type 0} (bytes : List ℕ) (pn : ℕ) → List ℕ → Outcome E (List ℕ)
score_bv_candidates bytes pn scores = score_sectors bytes pn 7 0 scores

-- The loop over the sampled pages, with the rounds left. A page that is an `Err` is passed over.
unfoldable pub score_pages : {E : Type 0} → PageStore → (left pn : ℕ) → List ℕ → Outcome E (List ℕ)
score_pages store zero pn scores = ok scores
score_pages {E} store (suc left) pn scores = do
  scored ← elim (Store.page store pn) [
    | ok p ↦ score_bv_candidates {E = E} p.bytes pn scores
    | err e ↦ ok scores
    | panic ↦ panic
  ]
  score_pages store left (suc pn) scored

-- The block is one whose pages have numbers below 2 ^ 64.
unfoldable pub recover_bv_for_block : {E : Type 0} → ApModel → PageStore → (bi : ℕ) → Outcome E ℕ
recover_bv_for_block {E} m store bi =
    let page_start = bi * 16 in
    let page_end = min (page_start + 16) (page_count store) in
    let sample_end = min page_end (page_start + 3) in
    let scan = (do
      scores ← score_pages {E = E} store (sample_end - page_start) page_start empty_histogram
      ok (unwrap_or (last_max scores) m.bv0)) in
    if leb (page_count store) page_start then ok m.bv0 else scan

unfoldable pub recover_bv_for_page : {E : Type 0} → ApModel → PageStore → (pn : ℕ) → Outcome E ℕ
recover_bv_for_page {E} m store pn = elim (Store.page store pn) [
  | ok p ↦ do
    scores ← score_bv_candidates {E = E} p.bytes pn empty_histogram
    ok (unwrap_or (last_max scores) m.bv0)
  | err e ↦ ok m.bv0
  | panic ↦ panic
]

unfoldable pub deobfuscate_with_store_and_confidence :
    {E : Type 0}
    → HashOrder
    → ApModel
    → (raw : List ℕ) (pn : ℕ) → PageStore
    → Outcome E (List ℕ × ApPageRecoveryConfidence)
deobfuscate_with_store_and_confidence {E} order m raw pn store = do
  ptype ← read raw (trailer_start + 2)
  direct ← learn_bv_for_page order raw pn ptype
  bv ← elim direct [ some bv ↦ ok bv | none ↦ recover_bv_for_page {E = E} m store pn ]
  deobfuscate_with_bv_and_confidence raw pn bv

unfoldable pub deobfuscate_with_store :
    {E : Type 0} → HashOrder → ApModel → (raw : List ℕ) (pn : ℕ) → PageStore → Outcome E (List ℕ)
deobfuscate_with_store order m raw pn store = do
  (out, evidence) ← deobfuscate_with_store_and_confidence order m raw pn store
  ok out

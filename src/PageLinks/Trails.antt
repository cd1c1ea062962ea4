-- ===== src/PageLinks/Trails.antt =====
-- `walk_page_links`: the pages visited and the reason for stopping.
use opensqlanywhere.Base.{
  ℕ, zero, suc, ◌+◌, ◌≤◌, ◌<◌, ◌≡◌, refl, ◌∙◌, sym, subst, List, [], ◌∷◌, ◌++◌, arith,
}
use opensqlanywhere.Base.{
  true, false, ◌||◌, ◌==◌, lt→ltb, Bool-cases, inl, inr, length, length-append, Option, none, some,
  Option-cases,
}
use opensqlanywhere.PageLinks.{
  PageLinkTarget, absent, in_range, invalid, PageLinkMetadata, PageLinkWalkStop, PageLinkWalk,
}
use opensqlanywhere.PageLinks.{
  missing_metadata, no_link, limit_reached, invalid_target, cycle, contains, follow, target_at,
  walk_loop, walk_page_links,
}
use mathlib.Core.List.{append_assoc, append-nil}
use native.Mathlib.Decide.{dec_lt}

-- The pages from a page on follow the links, and the stop fits where they end. `all` are the pages
-- of the whole walk.
pub data Trail (lookup : ℕ → Option PageLinkMetadata) (max_pages : ℕ) (all : List ℕ)
    : ℕ → List ℕ → PageLinkWalkStop → Type 0 where
  limit : {p : ℕ} → length all ≡ max_pages → Trail lookup max_pages all p [] limit_reached
  seen : {p : ℕ} → contains all p ≡ true → Trail lookup max_pages all p [] (cycle p)
  missing : {p : ℕ} → lookup p ≡ none → Trail lookup max_pages all p (p ∷ []) missing_metadata
  ends :
      {p : ℕ} {m : PageLinkMetadata}
      → lookup p ≡ some m
      → m.target ≡ absent
      → Trail lookup max_pages all p (p ∷ []) no_link
  refused :
      {p raw : ℕ} {m : PageLinkMetadata}
      → lookup p ≡ some m
      → m.target ≡ invalid raw
      → Trail lookup max_pages all p (p ∷ []) (invalid_target raw)
  link :
      {p q : ℕ} {m : PageLinkMetadata} {ps : List ℕ} {stop : PageLinkWalkStop}
      → lookup p ≡ some m
      → m.target ≡ in_range q
      → Trail lookup max_pages all q ps stop
      → Trail lookup max_pages all p (p ∷ ps) stop

abbrev pub IsDistinct : List ℕ → Type 0
IsDistinct [] = Unit
IsDistinct (p ∷ ps) = (contains ps p ≡ false) × IsDistinct ps

contains-append : (ps : List ℕ) (q p : ℕ) → contains (ps ++ (q ∷ [])) p ≡ (contains ps p || q == p)
unfolding contains
contains-append [] q p = ground arith
contains-append (x ∷ ps) q p = ground (arith, contains-append ps q p)

IsDistinct-append :
    (ps : List ℕ) (q : ℕ) → IsDistinct ps → contains ps q ≡ false → IsDistinct (ps ++ (q ∷ []))
unfolding contains
IsDistinct-append [] q d e = (refl, tt)
IsDistinct-append (p ∷ ps) q (new, d) e =
    (ground (arith, contains-append ps q p), IsDistinct-append ps q d (ground arith))

-- What the walk from a page has added when it ends, if `before` were visited earlier.
record IsWalked (max_pages : ℕ) (lookup : ℕ → Option PageLinkMetadata) (before : List ℕ)
    (current : ℕ) (o : Option PageLinkWalk) : Type 0 where
  w : PageLinkWalk
  returns : o ≡ some w
  rest : List ℕ
  added : w.pages ≡ before ++ rest
  trail : Trail lookup max_pages w.pages current rest w.stop
  distinct : IsDistinct w.pages
  few : length w.pages ≤ max_pages

module _ (max_pages : ℕ) (lookup : ℕ → Option PageLinkMetadata) where
  stops :
      (before : List ℕ) (current : ℕ) (rest : List ℕ) (stop : PageLinkWalkStop)
      (o : Option PageLinkWalk)
      → o ≡ some (record { pages = before ++ rest; stop = stop })
      → Trail lookup max_pages (before ++ rest) current rest stop
      → IsDistinct (before ++ rest)
      → length (before ++ rest) ≤ max_pages
      → IsWalked max_pages lookup before current o
  stops before current rest stop o e t d f = record {
    w = record { pages = before ++ rest; stop = stop };
    returns = e;
    rest = rest;
    added = refl;
    trail = t;
    distinct = d;
    few = f;
  }

  goes_on :
      (before : List ℕ) (current next : ℕ) (m : PageLinkMetadata) (o : Option PageLinkWalk)
      → lookup current ≡ some m
      → m.target ≡ in_range next
      → IsWalked max_pages lookup (before ++ (current ∷ [])) next o
      → IsWalked max_pages lookup before current o
  goes_on before current next m o e et s = record {
    w = s.w;
    returns = s.returns;
    rest = current ∷ s.rest;
    added = s.added ∙ append_assoc before (current ∷ []) s.rest;
    trail = link e et s.trail;
    distinct = s.distinct;
    few = s.few;
  }

  -- The rest of a round, once the current page is pushed.
  module _ (k : List ℕ → ℕ → Option PageLinkWalk) (before : List ℕ) (current : ℕ)
      (distinct : IsDistinct (before ++ (current ∷ [])))
      (few : length (before ++ (current ∷ [])) ≤ max_pages)
      (later : (next : ℕ)
        → IsWalked max_pages lookup
            (before ++ (current ∷ []))
            next
            (k (before ++ (current ∷ [])) next)) where
    follow-IsWalked :
        (m : PageLinkMetadata) (t : PageLinkTarget)
        → lookup current ≡ some m
        → m.target ≡ t
        → IsWalked max_pages lookup before current
            (follow max_pages lookup k (before ++ (current ∷ [])) (some t))
    unfolding follow
    follow-IsWalked m absent e et =
        stops before current (current ∷ []) no_link _ refl (ends e et) distinct few
    follow-IsWalked m (invalid raw) e et =
        stops before current (current ∷ []) (invalid_target raw) _ refl (refused e et) distinct few
    follow-IsWalked m (in_range next) e et = goes_on before current next m _ e et (later next)

    pushed-IsWalked :
        IsWalked max_pages lookup before current (
          follow max_pages lookup k (before ++ (current ∷ [])) (target_at max_pages lookup current))
    unfolding target_at
    pushed-IsWalked = elim (Option-cases (lookup current)) [
      | inl e ↦
          rw (e, target_at)
            (unfold follow in
              stops before current (current ∷ []) missing_metadata _ refl (missing e) distinct few)
      | inr (m, e) ↦ rw (e, target_at) (follow-IsWalked m m.target e refl)
    ]

  walk_loop-IsWalked :
      (fuel : ℕ) (before : List ℕ) (current : ℕ)
      → IsDistinct before
      → length before ≤ max_pages
      → max_pages < fuel + length before
      → IsWalked max_pages lookup before current (walk_loop max_pages lookup fuel before current)
  unfolding walk_loop
  walk_loop-IsWalked zero before current d b h = absurd (omega arith)
  walk_loop-IsWalked (suc fuel) before current d b h = elim (dec_lt (length before) max_pages) [
    | no full ↦
        stops before current [] limit_reached _ (rw append-nil (ground arith))
          (limit (rw append-nil (omega arith))) (rw append-nil d) (rw append-nil b)
    | yes room ↦ elim (Bool-cases (contains before current)) [
      | inl old ↦
          stops before current [] (cycle current) _ (rw append-nil (ground arith))
            (seen (rw append-nil old)) (rw append-nil d) (rw append-nil b)
      | inr new ↦
          let distinct = IsDistinct-append before current d new in
          let len = length-append before (current ∷ []) in
          let later = λ (next : ℕ).
            walk_loop-IsWalked fuel (before ++ (current ∷ [])) next distinct (omega arith)
              (omega arith) in
          rw (lt→ltb _ _ room, new)
            (pushed-IsWalked (walk_loop max_pages lookup fuel) before current distinct (omega arith)
              later)
    ]
  ]

  -- The walk ends within its fuel. Its pages are distinct and at most `max_pages`; from the start
  -- page on each links to the next by an in-range target; and the stop says where they end: at a
  -- page with no metadata, with no link or with an invalid target, before a page that is among
  -- them, or at the limit.
  pub walk_page_links-Trail :
      (start : ℕ)
      → (w : PageLinkWalk) × (walk_page_links max_pages lookup start ≡ some w)
        × Trail lookup max_pages w.pages start w.pages w.stop
        × IsDistinct w.pages
        × (length w.pages ≤ max_pages)
  unfolding walk_page_links
  walk_page_links-Trail start =
      let s = walk_loop-IsWalked (suc max_pages) [] start tt (omega arith) (omega arith) in
      (
        s.w,
        s.returns,
        subst (λ ps. Trail lookup max_pages s.w.pages start ps s.w.stop) (sym s.added) s.trail,
        s.distinct,
        s.few,
      )

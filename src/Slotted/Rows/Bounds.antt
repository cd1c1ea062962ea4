-- ===== src/Slotted/Rows/Bounds.antt =====
-- The bounds of the rows of a page, from the sorted live offsets.
use opensqlanywhere.Base.{
  ℕ, ◌≤◌, ◌<◌, ◌≡◌, ◌⊎◌, inl, inr, subst, List, [], ◌∷◌, arith, true, false, ◌&&◌, ◌==◌, ltb, leb,
  Bool-cases, leb→le, All, if◌then◌else◌, some,
}
use opensqlanywhere.Slotted.Scans.{IsAbove, IsAbove-le}
use opensqlanywhere.Slotted.Rows.{
  insert, sort_unstable, Bound, next_or_trailer, bounds_of, find_bound,
}

abbrev pub IsSorted : List ℕ → Type 0
IsSorted [] = Unit
IsSorted (x ∷ xs) = IsAbove x xs × IsSorted xs

IsAbove-insert : (a x : ℕ) (l : List ℕ) → a ≤ x → IsAbove a l → IsAbove a (insert x l)
unfolding insert
IsAbove-insert a x [] h h' = (h, tt)
IsAbove-insert a x (y ∷ ys) h (k, ks) = elim (Bool-cases (leb x y)) [
  | inl e ↦ rw e (h, (k, ks))
  | inr e ↦ rw e (k, IsAbove-insert a x ys h ks)
]

leb-ge : (x y : ℕ) → leb x y ≡ false → y ≤ x
leb-ge x y e = ground arith

insert-IsSorted : (x : ℕ) (l : List ℕ) → IsSorted l → IsSorted (insert x l)
unfolding insert
insert-IsSorted x [] s = (tt, tt)
insert-IsSorted x (y ∷ ys) (a, s) = elim (Bool-cases (leb x y)) [
  | inl e ↦ let le = leb→le x y e in rw e ((le, IsAbove-le x y ys le a), (a, s))
  | inr e ↦
      let le : y ≤ x = leb-ge x y e in rw e (IsAbove-insert y x ys le a, insert-IsSorted x ys s)
]

pub sort_unstable-IsSorted : (l : List ℕ) → IsSorted (sort_unstable l)
unfolding sort_unstable
sort_unstable-IsSorted [] = tt
sort_unstable-IsSorted (x ∷ xs) = insert-IsSorted x (sort_unstable xs) (sort_unstable-IsSorted xs)

-- The bound is a row's inside the page, and the offsets of a list are not inside it.
abbrev pub IsOutside : Bound → ℕ → Type 0
IsOutside b y = (y ≤ b.start) ⊎ (b.end ≤ y)

All-insert : (P : ℕ → Type 0) (x : ℕ) (l : List ℕ) → All P (insert x l) → P x × All P l
unfolding insert
All-insert P x [] h = h
All-insert P x (y ∷ ys) h = elim (Bool-cases (leb x y)) [
  | inl e ↦ at_head e h
  | inr e ↦ let (p, ps) = at_tail e h in let (q, qs) = All-insert P x ys ps in (q, (p, qs))
]
  where
    at_head :
        leb x y ≡ true
        → All P (if leb x y then x ∷ y ∷ ys else y ∷ insert x ys)
        → All P (x ∷ y ∷ ys)
    at_head e = rw e (λ a. a)

    at_tail :
        leb x y ≡ false
        → All P (if leb x y then x ∷ y ∷ ys else y ∷ insert x ys)
        → All P (y ∷ insert x ys)
    at_tail e = rw e (λ a. a)

pub All-sort_unstable : (P : ℕ → Type 0) (l : List ℕ) → All P (sort_unstable l) → All P l
unfolding sort_unstable
All-sort_unstable P [] h = tt
All-sort_unstable P (x ∷ xs) h =
    let (p, ps) = All-insert P x (sort_unstable xs) h in (p, All-sort_unstable P xs ps)

-- A row lies before the trailer, and no live offset is inside it.
pub record IsBound (l : List ℕ) (b : Bound) : Type 0 where
  pub filled : b.start < b.end
  pub inside : b.end ≤ 0xFF0
  pub alone : All (IsOutside b) l

All-IsOutside : (b : Bound) (l : List ℕ) → IsAbove b.end l → All (IsOutside b) l
All-IsOutside b [] h = tt
All-IsOutside b (y ∷ ys) (h, hs) = (inr h, All-IsOutside b ys hs)

next-IsAbove : (l : List ℕ) → IsSorted l → IsAbove (next_or_trailer l) l
next-IsAbove [] s = tt
next-IsAbove (n ∷ ns) (a, s) = (omega arith, a)

bounds_above : (x : ℕ) (l : List ℕ) → IsAbove x l → All (λ b. x ≤ b.start) (bounds_of l)
unfolding bounds_of
bounds_above x [] h = tt
bounds_above x (y ∷ ys) (h, hs) =
    elim (Bool-cases (ltb y (next_or_trailer ys) && leb (next_or_trailer ys) 0xFF0)) [
      | inl e ↦ rw e (h, bounds_above x ys hs)
      | inr e ↦ rw e (bounds_above x ys hs)
    ]

widen :
    (x : ℕ) (l : List ℕ) (bs : List Bound)
    → All (λ b. x ≤ b.start) bs
    → All (IsBound l) bs
    → All (IsBound (x ∷ l)) bs
widen x l [] h k = tt
widen x l (b ∷ bs) (h, hs) (k, ks) =
    (record { filled = k.filled; inside = k.inside; alone = (inl h, k.alone) }, widen x l bs hs ks)

pub bounds_of-IsBound : (l : List ℕ) → IsSorted l → All (IsBound l) (bounds_of l)
unfolding bounds_of
bounds_of-IsBound [] s = tt
bounds_of-IsBound (x ∷ xs) (a, s) =
    let rest = widen x xs (bounds_of xs) (bounds_above x xs a) (bounds_of-IsBound xs s) in
    elim (Bool-cases (ltb x (next_or_trailer xs) && leb (next_or_trailer xs) 0xFF0)) [
      | inl e ↦ rw e (
        record {
          filled = ground arith;
          inside = ground arith;
          alone = (inl (omega arith), All-IsOutside _ xs (next-IsAbove xs s));
        },
        rest,
      )
      | inr e ↦ rw e rest
    ]

pub find_bound-found :
    (P : Bound → Type 0) (bs : List Bound) (off : ℕ) (b : Bound)
    → All P bs
    → find_bound bs off ≡ some b
    → P b × (b.start ≡ off)
unfolding find_bound
find_bound-found P [] off b h e = cc
find_bound-found P (c ∷ cs) off b (h, hs) e = elim (Bool-cases (c.start == off)) [
  | inl t ↦
      let same : c ≡ b = ground arith in subst (λ z. P z × (z.start ≡ off)) same (h, ground arith)
  | inr t ↦ find_bound-found P cs off b hs (ground arith)
]

-- ===== src/Base/Fallible.antt =====
-- What a call of a Rust function comes to: a value, an `Err`, or a panic.
-- A panic stands for an index or slice out of range, a failed `assert!` and an `unwrap` of `None`.
-- A function with no `Err` of its own is generic in `E`.
use Prim.Native.Nat.{ℕ, ◌+◌, ◌-◌, ◌≤◌, ◌<◌}
use mathlib.Core.Path.{◌≡◌, refl, ◌∙◌}
use mathlib.Core.Bool.{Bool, true, false, ◌&&◌}
use mathlib.Core.Option.{Option, none, some}
use mathlib.Core.List.{List}
use native.Mathlib.Omega.{arith}
use opensqlanywhere.Base.Tests.{ltb, leb, if◌then◌else◌}
use opensqlanywhere.Base.Lists.{length, set, get_elem?, get_or, take, drop, get_elem?-eq-get_or}
use opensqlanywhere.Base.Lists.{length-take, length-drop, get_or-take, get_or-drop}

pub data Outcome {ℓ κ} (E : Type ℓ) (A : Type κ) : Type (ℓ ⊔ κ) where
  ok : A → Outcome E A
  err : E → Outcome E A
  panic : Outcome E A

-- Rust's `?`, and the propagation of a panic.
infixl 5 ◌>>=◌ ◌>>◌
abbrev pub ◌>>=◌ {ℓ κ μ} :
    {E : Type ℓ} {A : Type κ} {B : Type μ} → Outcome E A → (A → Outcome E B) → Outcome E B
panic >>= next = panic
err failure >>= next = err failure
ok v >>= next = next v

abbrev pub ◌>>◌ {ℓ κ μ} :
    {E : Type ℓ} {A : Type κ} {B : Type μ} → Outcome E A → Outcome E B → Outcome E B
first >> second = first >>= λ ignored. second

abbrev pub map_err {ℓ κ μ} :
    {E : Type ℓ} {F : Type κ} {A : Type μ} → (E → F) → Outcome E A → Outcome F A
map_err f (ok a) = ok a
map_err f (err e) = err (f e)
map_err f panic = panic

-- `if !test { return Err(e) }`
abbrev pub guard {ℓ} : {E : Type ℓ} → Bool → E → Outcome E (Unit {0})
guard false failure = err failure
guard true failure = ok tt

-- `assert!(test)`
abbrev pub assert {ℓ} : {E : Type ℓ} → Bool → Outcome E (Unit {0})
assert true = ok tt
assert false = panic

abbrev pub ok_or {ℓ κ} : {E : Type ℓ} {A : Type κ} → Option A → E → Outcome E A
ok_or none e = err e
ok_or (some a) e = ok a

-- A computation succeeds only if its first part does, and then the rest from that part's value.
pub >>=-eq-ok {ℓ κ μ} :
    {E : Type ℓ} {A : Type κ} {B : Type μ} (first : Outcome E A) (then_do : A → Outcome E B) {r : B}
    → (first >>= then_do) ≡ ok r
    → (v : A) × (first ≡ ok v) × (then_do v ≡ ok r)
>>=-eq-ok panic then_do same = cc
>>=-eq-ok (err failure) then_do same = cc
>>=-eq-ok (ok v) then_do same = (v, refl, same)

pub map_err-eq-ok {ℓ κ μ} :
    {E : Type ℓ} {F : Type κ} {A : Type μ} (g : E → F) (m : Outcome E A) {a : A}
    → map_err g m ≡ ok a
    → m ≡ ok a
map_err-eq-ok g (ok a) h = cc
map_err-eq-ok g (err e) h = cc
map_err-eq-ok g panic h = cc

-- A computation that gives a value with the property, or an error, and does not panic.
pub data Gives {ℓ κ μ} {E : Type ℓ} {A : Type κ} (P : A → Type μ)
    : Outcome E A → Type (ℓ ⊔ κ ⊔ μ) where
  fails : (e : E) → Gives P (err e)
  gives : (a : A) → P a → Gives P (ok a)

pub Gives->>= {ℓ κ μ ν ξ} :
    {E : Type ℓ} {A : Type κ} {B : Type μ} (P : A → Type ν) (Q : B → Type ξ) {m : Outcome E A}
    {f : A → Outcome E B}
    → Gives P m
    → ((a : A) → P a → Gives Q (f a))
    → Gives Q (m >>= f)
Gives->>= P Q (fails e) k = fails e
Gives->>= P Q (gives a p) k = k a p

pub Gives-weaken {ℓ κ μ ν} :
    {E : Type ℓ} {A : Type κ} (P : A → Type μ) (Q : A → Type ν) {m : Outcome E A}
    → ((a : A) → P a → Q a)
    → Gives P m
    → Gives Q m
Gives-weaken P Q k (fails e) = fails e
Gives-weaken P Q k (gives a p) = gives a (k a p)

pub Gives-guard {ℓ} : {E : Type ℓ} (b : Bool) (e : E) → Gives {E = E} (λ u. b ≡ true) (guard b e)
Gives-guard true e = gives tt refl
Gives-guard false e = fails e

pub Gives-assert {ℓ κ μ} :
    {E : Type ℓ} {B : Type κ} (Q : B → Type μ) (b : Bool) {m : Outcome E B}
    → b ≡ true
    → Gives Q m
    → Gives Q (assert b >> m)
Gives-assert Q b e g = rw e g

module _ {ℓ} {A : Type ℓ} {E : Type 0} where
  -- `xs[i]`, on a list of any type.
  unfoldable pub index : List A → ℕ → Outcome E A
  index xs i = elim (get_elem? xs i) [ none ↦ panic | some x ↦ ok x ]

  -- `xs[i] = v`
  unfoldable pub store : List A → ℕ → A → Outcome E (List A)
  store xs i v = if ltb i (length xs) then ok (set xs i v) else panic

  pub index-ok : (xs : List A) (i : ℕ) (d : A) → i < length xs → index xs i ≡ ok (get_or xs i d)
  unfolding index
  index-ok xs i d h = ground (arith, get_elem?-eq-get_or xs i d)

  pub store-ok : (xs : List A) (i : ℕ) (v : A) → i < length xs → store xs i v ≡ ok (set xs i v)
  unfolding store
  store-ok xs i v h = ground arith

-- `a - b` on unsigned integers: a panic where it is negative.
abbrev pub subtract {ℓ} : {E : Type ℓ} → ℕ → ℕ → Outcome E ℕ
subtract a b = if leb b a then ok (a - b) else panic

module _ {E : Type 0} where
  -- `xs[i]`
  unfoldable pub read : List ℕ → ℕ → Outcome E ℕ
  read xs i = elim (get_elem? xs i) [ none ↦ panic | some x ↦ ok x ]

  -- `&xs[start..end]`
  unfoldable pub slice : List ℕ → ℕ → ℕ → Outcome E (List ℕ)
  slice xs start end =
      if leb start end && leb end (length xs)
      then ok (take (end - start) (drop start xs))
      else panic

  pub read-ok : (xs : List ℕ) (i : ℕ) → i < length xs → read xs i ≡ ok (get_or xs i 0)
  unfolding read
  read-ok xs i h = ground (arith, get_elem?-eq-get_or xs i 0)

  pub read-Gives :
      (xs : List ℕ) (i : ℕ) → i < length xs → Gives {E = E} (λ v. v ≡ get_or xs i 0) (read xs i)
  read-Gives xs i h = rw (read-ok xs i h) (gives _ refl)

  pub slice-ok :
      (xs : List ℕ) (start end : ℕ)
      → start ≤ end
      → end ≤ length xs
      → slice xs start end ≡ ok (take (end - start) (drop start xs))
  unfolding slice
  slice-ok xs start end h k = ground arith

pub length-slice :
    (xs : List ℕ) (start end : ℕ)
    → start ≤ end
    → end ≤ length xs
    → length (take (end - start) (drop start xs)) ≡ end - start
length-slice xs start end h k =
    omega (arith, length-take (end - start) (drop start xs), length-drop start xs)

-- The byte of a slice is the byte of the list behind its start.
pub get_or-slice :
    (xs : List ℕ) (start n i : ℕ)
    → i < n
    → get_or (take n (drop start xs)) i 0 ≡ get_or xs (start + i) 0
get_or-slice xs start n i h = get_or-take n i (drop start xs) 0 h ∙ get_or-drop start i xs 0

module _ {E : Type 0} where
  -- An index into a slice reads the list behind the slice's start.
  pub read_slice-ok :
      (xs : List ℕ) (start n i : ℕ)
      → start + n ≤ length xs
      → i < n
      → read {E = E} (take n (drop start xs)) i ≡ ok (get_or xs (start + i) 0)
  read_slice-ok xs start n i h k = rw (← get_or-slice xs start n i k) (
      read-ok (take n (drop start xs)) i
        (omega (arith, length-take n (drop start xs), length-drop start xs)))

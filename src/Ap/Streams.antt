-- ===== src/Ap/Streams.antt =====
-- The fill of a sector, and `apply_stream`.
use opensqlanywhere.Base.{
  ℕ, suc, ◌+◌, ◌*◌, ◌/◌, ◌%◌, ◌<◌, ◌≡◌, refl, ap, ap₂, List, [], ◌∷◌, arith, length, All,
}
use native.Mathlib.Nat.{add-mul, mul_assoc}
use opensqlanywhere.Base.Bytes.{IsByte}
use opensqlanywhere.Ap.{plain_at, apply_stream_from, apply_stream}

-- `stored[i] = (fill(pn, si, i) + plaintext[i]) mod 256`, with
-- `fill(pn, si, i) = (base(pn, si) + i * step(pn, si)) mod 256`, from an index on.
abbrev pub fill_from : (base step i : ℕ) → List ℕ → List ℕ
fill_from base step i [] = []
fill_from base step i (p ∷ plain) =
    ((base + i * step) % 256 + p) % 256 ∷ fill_from base step (suc i) plain

pub mod_mul : (i step : ℕ) → (i % 256 * step) % 256 ≡ (i * step) % 256
mod_mul i step =
    let parts : i ≡ 256 * (i / 256) + i % 256 = omega arith in
    omega (
      arith,
      ap (λ (n : ℕ). n * step) parts,
      add-mul (256 * (i / 256)) (i % 256) step,
      mul_assoc 256 (i / 256) step,
    )

plain_at-fill :
    (base step i p : ℕ)
    → base < 256
    → p < 256
    → plain_at base step i (((base + i * step) % 256 + p) % 256) ≡ p
plain_at-fill base step i p h k = omega (arith, mod_mul i step)

pub fill-plain_at :
    (base step i s : ℕ)
    → base < 256
    → s < 256
    → ((base + i * step) % 256 + plain_at base step i s) % 256 ≡ s
fill-plain_at base step i s h k = omega (arith, mod_mul i step)

apply_stream_from-fill_from :
    (base step i : ℕ) (plain out : List ℕ)
    → base < 256
    → All IsByte plain
    → length out ≡ length plain
    → apply_stream_from base step i (fill_from base step i plain) out ≡ plain
unfolding apply_stream_from
apply_stream_from-fill_from base step i [] [] h k e = refl
apply_stream_from-fill_from base step i [] (o ∷ out) h k e = absurd (omega arith)
apply_stream_from-fill_from base step i (p ∷ plain) [] h k e = absurd (omega arith)
apply_stream_from-fill_from base step i (p ∷ plain) (o ∷ out) h k e =
    ap₂ ◌∷◌ (plain_at-fill base step i p h k.0)
      (apply_stream_from-fill_from base step (suc i) plain out h k.1 (omega arith))

fill_from-apply_stream_from :
    (base step i : ℕ) (sec out : List ℕ)
    → base < 256
    → All IsByte sec
    → length out ≡ length sec
    → fill_from base step i (apply_stream_from base step i sec out) ≡ sec
unfolding apply_stream_from
fill_from-apply_stream_from base step i [] [] h k e = refl
fill_from-apply_stream_from base step i [] (o ∷ out) h k e = absurd (omega arith)
fill_from-apply_stream_from base step i (s ∷ sec) [] h k e = absurd (omega arith)
fill_from-apply_stream_from base step i (s ∷ sec) (o ∷ out) h k e =
    ap₂ ◌∷◌ (fill-plain_at base step i s h k.0)
      (fill_from-apply_stream_from base step (suc i) sec out h k.1 (omega arith))

pub length-apply_stream_from :
    (base step i : ℕ) (sec out : List ℕ)
    → length (apply_stream_from base step i sec out) ≡ length out
unfolding apply_stream_from
length-apply_stream_from base step i [] out = refl
length-apply_stream_from base step i (s ∷ sec) [] = refl
length-apply_stream_from base step i (s ∷ sec) (o ∷ out) =
    ap suc (length-apply_stream_from base step (suc i) sec out)

abbrev pub fill : (base step : ℕ) → List ℕ → List ℕ
fill base step plain = fill_from base step 0 plain

-- For a base that is a byte and an output of the sector's length, `apply_stream` inverts the fill of
-- the module's formula on both sides: the stored bytes of a plaintext give the plaintext back, and
-- the result for any stored bytes is stored as these bytes.
pub apply_stream_inverts :
    (base step : ℕ) (sec out : List ℕ)
    → base < 256
    → All IsByte sec
    → length out ≡ length sec
    → (apply_stream (fill base step sec) base step out ≡ sec)
      × (fill base step (apply_stream sec base step out) ≡ sec)
unfolding apply_stream
apply_stream_inverts base step sec out h k e = (
  apply_stream_from-fill_from base step 0 sec out h k e,
  fill_from-apply_stream_from base step 0 sec out h k e,
)

-- ===== src/Base/Words.antt =====
-- `u16::from_le_bytes(xs[a..b].try_into().unwrap())` and its 32-bit form: a slice of another length
-- than the word's panics.
use opensqlanywhere.Base.Tests.{◌==◌}
use opensqlanywhere.Base.Lists.{length, take, drop}
use opensqlanywhere.Base.Fallible.{Outcome, ok, ◌>>=◌, ◌>>◌, assert, read, slice, slice-ok}
use opensqlanywhere.Base.Fallible.{read_slice-ok, length-slice}
use opensqlanywhere.Base.Bytes.{from_le_u16, from_le_u32, byte_at}
use Prim.Native.Nat.{ℕ, ◌+◌, ◌-◌, ◌≤◌, ◌<◌}
use mathlib.Core.Path.{◌≡◌}
use mathlib.Core.List.{List}
use native.Mathlib.Omega.{arith}

module _ {E : Type 0} where
  unfoldable pub slice_u16 : List ℕ → ℕ → ℕ → Outcome E ℕ
  slice_u16 xs start end = do
    s ← slice xs start end
    assert (length s == 2)
    a ← read s 0
    b ← read s 1
    ok (from_le_u16 a b)

  unfoldable pub slice_u32 : List ℕ → ℕ → ℕ → Outcome E ℕ
  slice_u32 xs start end = do
    s ← slice xs start end
    assert (length s == 4)
    a ← read s 0
    b ← read s 1
    c ← read s 2
    d ← read s 3
    ok (from_le_u32 a b c d)

  read_part :
      (xs : List ℕ) (start n i : ℕ)
      → start + n ≤ length xs
      → i < n
      → read {E = E} (take n (drop start xs)) i ≡ ok (byte_at xs (start + i))
  read_part xs start n i h k = read_slice-ok xs start n i h k

  width_ok :
      (xs : List ℕ) (start end n : ℕ)
      → end ≡ start + n
      → end ≤ length xs
      → assert {E = E} (length (take (end - start) (drop start xs)) == n) ≡ ok tt
  width_ok xs start end n e h = ground (arith, length-slice xs start end)

  pub slice_u16-ok :
      (xs : List ℕ) (start end : ℕ)
      → end ≡ start + 2
      → end ≤ length xs
      → slice_u16 xs start end ≡ ok (from_le_u16 (byte_at xs (start + 0)) (byte_at xs (start + 1)))
  unfolding slice_u16
  slice_u16-ok xs start end e h =
      let two : end - start ≡ 2 = omega arith in
      rw (
        slice-ok xs start end (omega arith) h,
        width_ok xs start end 2 e h,
        two,
        read_part xs start 2 0 (omega arith) (omega arith),
        read_part xs start 2 1 (omega arith) (omega arith),
      )

  pub slice_u32-ok :
      (xs : List ℕ) (start end : ℕ)
      → end ≡ start + 4
      → end ≤ length xs
      → slice_u32 xs start end
        ≡ ok (
            from_le_u32
              (byte_at xs (start + 0))
              (byte_at xs (start + 1))
              (byte_at xs (start + 2))
              (byte_at xs (start + 3)))
  unfolding slice_u32
  slice_u32-ok xs start end e h =
      let four : end - start ≡ 4 = omega arith in
      rw (
        slice-ok xs start end (omega arith) h,
        width_ok xs start end 4 e h,
        four,
        read_part xs start 4 0 (omega arith) (omega arith),
        read_part xs start 4 1 (omega arith) (omega arith),
        read_part xs start 4 2 (omega arith) (omega arith),
        read_part xs start 4 3 (omega arith) (omega arith),
      )

-- ===== src/Store/Snapshot.antt =====
-- `read_size_stable_snapshot`: what was read when it succeeds.
use opensqlanywhere.Base.{ℕ, ◌≡◌, ◌↔◌, refl, ap, sym, ◌∙◌, List, Bool, true, ◌==◌, arith, length}
use opensqlanywhere.Base.{ok, map_err, guard, >>=-eq-ok, map_err-eq-ok}
use opensqlanywhere.Error.{io, invalid_data, out_of_memory}
use opensqlanywhere.Store.{from_bytes, Reader, validate_store_size}
use opensqlanywhere.Store.{read_size_stable_snapshot}

module _ (r : Reader) (fits reserve : ℕ → Bool) where
  open r use {File, seek_end, seek_start, read_exact}

  -- A size at the end, the bytes of that size from the start, and the same size again at the end,
  -- each read from the file as the step before left it.
  abbrev pub IsSnapshot : File → List ℕ → Type 0
  IsSnapshot f bs =
      (start : ℕ) × (f1 : File) × (f2 : File) × (f3 : File) × (f4 : File) × (seek_end f
        ≡ ok (length bs, f1))
      × (seek_start f1 ≡ ok (start, f2))
      × (read_exact (length bs) f2 ≡ ok (bs, f3))
      × (seek_end f3 ≡ ok (length bs, f4))
      × (fits (length bs) ≡ true)
      × (reserve (length bs) ≡ true)
      × (from_bytes bs ≡ ok (record { bytes = bs }))

  valid_store :
      (bs : List ℕ)
      → validate_store_size (length bs) ≡ ok tt
      → from_bytes bs ≡ ok (record { bytes = bs })
  unfolding from_bytes validate_store_size
  valid_store bs valid = ground arith

  store_valid :
      (bs : List ℕ)
      → from_bytes bs ≡ ok (record { bytes = bs })
      → validate_store_size (length bs) ≡ ok tt
  unfolding from_bytes validate_store_size
  store_valid bs valid = ground arith

  finish :
      ((n : ℕ) (f g : File) (bs : List ℕ) → read_exact n f ≡ ok (bs, g) → length bs ≡ n)
      → (f f1 f2 f3 f4 : File) (start n m : ℕ) (xs bs : List ℕ) → seek_end f ≡ ok (n, f1)
      → validate_store_size n ≡ ok tt
      → fits n ≡ true
      → seek_start f1 ≡ ok (start, f2)
      → reserve n ≡ true
      → read_exact n f2 ≡ ok (xs, f3)
      → seek_end f3 ≡ ok (m, f4)
      → m ≡ n
      → xs ≡ bs
      → IsSnapshot f bs
  finish fills f f1 f2 f3 f4 start n m xs bs e1 valid fit e2 room e3 e4 equal same =
      let len : length bs ≡ n = ap length (sym same) ∙ fills n f2 f3 xs e3 in
      (
        start,
        f1,
        f2,
        f3,
        f4,
        rw len e1,
        e2,
        rw (len, sym same) e3,
        rw (len, sym equal) e4,
        rw len fit,
        rw len room,
        valid_store bs (rw len valid),
      )

  taken :
      ((n : ℕ) (f g : File) (bs : List ℕ) → read_exact n f ≡ ok (bs, g) → length bs ≡ n)
      → (f : File) (bs : List ℕ) → read_size_stable_snapshot r fits reserve f ≡ ok bs
      → IsSnapshot f bs
  unfolding read_size_stable_snapshot
  taken fills f bs e =
      let ((n, f1), e1, k1) = >>=-eq-ok (map_err io (seek_end f)) _ e in
      let (u1, valid, k2) = >>=-eq-ok (validate_store_size n) _ k1 in
      let (u2, e3, k3) = >>=-eq-ok (guard (fits n) (io invalid_data)) _ k2 in
      let ((z, f2), e4, k4) = >>=-eq-ok (map_err io (seek_start f1)) _ k3 in
      let (u3, e5, k5) = >>=-eq-ok (guard (reserve n) (io out_of_memory)) _ k4 in
      let ((xs, f3), e6, k6) = >>=-eq-ok (map_err io (read_exact n f2)) _ k5 in
      let ((m, f4), e7, k7) = >>=-eq-ok (map_err io (seek_end f3)) _ k6 in
      let (u4, same, k8) = >>=-eq-ok (guard (m == n) (io invalid_data)) _ k7 in
      let (u5, e9, k9) = >>=-eq-ok (validate_store_size m) _ k8 in
      finish fills f f1 f2 f3 f4 z n m xs bs (map_err-eq-ok io _ e1) valid (ground (arith, e3))
        (map_err-eq-ok io _ e4) (ground (arith, e5)) (map_err-eq-ok io _ e6) (map_err-eq-ok io _ e7)
        (ground (arith, same)) (cc k9)

  retaken :
      (f : File) (bs : List ℕ)
      → IsSnapshot f bs
      → read_size_stable_snapshot r fits reserve f ≡ ok bs
  unfolding read_size_stable_snapshot
  retaken f bs (start, f1, f2, f3, f4, e1, e2, e3, e4, fit, room, store) =
      let same : (length bs == length bs) ≡ true = ground arith in
      rw (e1, store_valid bs store, fit, e2, room, e3, e4, same) (rw (store_valid bs store) refl)

  -- If `read_exact` fills its buffer, a snapshot of a file is taken exactly if the steps from the file
  -- on report its size at the end, go to the start, read that many bytes, and report the same size at
  -- the end again, the size fits the memory's index and can be reserved, and the bytes are accepted as
  -- a page store; the snapshot is these bytes.
  pub read_size_stable_snapshot_lem :
      ((n : ℕ) (f g : File) (bs : List ℕ) → read_exact n f ≡ ok (bs, g) → length bs ≡ n)
      → (f : File) (bs : List ℕ)
      → (read_size_stable_snapshot r fits reserve f ≡ ok bs) ↔ IsSnapshot f bs
  read_size_stable_snapshot_lem fills f bs = (taken fills f bs, retaken f bs)

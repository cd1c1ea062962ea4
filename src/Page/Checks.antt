-- ===== src/Page/Checks.antt =====
-- What the two checks of a page accept.
use opensqlanywhere.Base.{
  ℕ, ◌<◌, ◌≡◌, ◌↔◌, ◌^◌, ◌==◌, if◌then◌else◌, false, list_eq, list_eq_iff, Bool-cases, ◌⊎◌, inl,
  inr, take-append, length-append, get_or-append_right, ◌≢◌, List, [], ◌∷◌, ◌++◌, arith, length,
}
use opensqlanywhere.Base.{ok, err}
use opensqlanywhere.Base.Bytes.{from_le_u32, to_le_u32, byte_at}
use opensqlanywhere.Page.{Page, page_size, crc_off, verify_crc, verify_trailer}
use opensqlanywhere.Page.Reads.{stored_of, trailer-ok, stored_crc-ok, computed_crc-ok}
use opensqlanywhere.Error.{bad_crc, bad_trailer}

-- The bytes of the trailer that are reserved as zero.
abbrev pub IsClear : List ℕ → Type 0
IsClear bytes =
    (byte_at bytes 0xFF3 ≡ 0)
    × (byte_at bytes 0xFF8 ≡ 0)
    × (byte_at bytes 0xFF9 ≡ 0)
    × (byte_at bytes 0xFFA ≡ 0)
    × (byte_at bytes 0xFFB ≡ 0)

-- On a full page `verify_trailer` never panics: it accepts exactly the pages whose byte 0xFF3 and
-- whose bytes 0xFF8 to 0xFFB are zero, and gives every other page `BadTrailer` with its number.
pub verify_trailer_iff :
    (p : Page)
    → length p.bytes ≡ page_size
    → ((verify_trailer p ≡ ok tt) ↔ IsClear p.bytes)
      × ((verify_trailer p ≡ err (bad_trailer p.index)) ↔ (IsClear p.bytes → ⊥))
      × ((verify_trailer p ≡ ok tt) ⊎ (verify_trailer p ≡ err (bad_trailer p.index)))
unfolding verify_trailer list_eq
verify_trailer_iff p full =
    rw (trailer-ok p full)
      ((ground arith, ground arith), (ground arith, ground arith), ground arith)

-- A page of a body and a footer of four bytes.
abbrev pub footed : ℕ → List ℕ → (a b c d : ℕ) → Page
footed i body a b c d = record { index = i; bytes = body ++ (a ∷ b ∷ c ∷ d ∷ []) }

module _ (i : ℕ) (body : List ℕ) (a b c d : ℕ) (h : length body ≡ crc_off) where
  abbrev foot : List ℕ
  foot = a ∷ b ∷ c ∷ d ∷ []

  stored_of-footed : stored_of (body ++ foot) ≡ from_le_u32 a b c d
  stored_of-footed = omega (
    arith,
    get_or-append_right body foot 0xFFC 0 0 h,
    get_or-append_right body foot 0xFFC 1 0 h,
    get_or-append_right body foot 0xFFC 2 0 h,
    get_or-append_right body foot 0xFFC 3 0 h,
  )

  verify_crc-footed :
      (hash : List ℕ → ℕ)
      → verify_crc hash (footed i body a b c d) ≡ (
          if from_le_u32 a b c d == hash body
          then ok tt
          else err (bad_crc i (from_le_u32 a b c d) (hash body)))
  unfolding verify_crc
  verify_crc-footed hash = rw (
    stored_crc-ok (footed i body a b c d) full,
    computed_crc-ok (footed i body a b c d) full hash,
    take-append crc_off body foot h,
    stored_of-footed,
  )
    where
      full : length (body ++ foot) ≡ 4096
      full = omega (arith, length-append body foot)

list_eq-ne : (xs ys : List ℕ) → list_eq xs ys ≡ false → xs ≢ ys
list_eq-ne xs ys e same = cc (e, (list_eq_iff xs ys).1 same)

verify_crc_iff :
    (hash : List ℕ → ℕ) (i : ℕ) (body : List ℕ) (a b c d : ℕ)
    → length body ≡ crc_off
    → a < 256
    → b < 256
    → c < 256
    → d < 256
    → hash body < 2 ^ 32
    → ((verify_crc hash (footed i body a b c d) ≡ ok tt)
        ↔ (a ∷ b ∷ c ∷ d ∷ [] ≡ to_le_u32 (hash body)))
      × (a ∷ b ∷ c ∷ d ∷ [] ≢ to_le_u32 (hash body)
          → verify_crc hash (footed i body a b c d)
            ≡ err (bad_crc i (from_le_u32 a b c d) (hash body)))
verify_crc_iff hash i body a b c d h ha hb hc hd hw =
    rw (verify_crc-footed i body a b c d h hash) ((ground arith, ground arith), ground arith)

-- A page of a body of 0xFFC bytes and four footer bytes passes `verify_crc` if the footer is the
-- little-endian checksum of the body, and otherwise gets `BadCrc` with the page's number, the
-- footer read as a word and the checksum. The checksum function is any whose values are 32-bit
-- words.
pub verify_crc_cases :
    (hash : List ℕ → ℕ) (i : ℕ) (body : List ℕ) (a b c d : ℕ)
    → length body ≡ crc_off
    → a < 256
    → b < 256
    → c < 256
    → d < 256
    → hash body < 2 ^ 32
    → ((a ∷ b ∷ c ∷ d ∷ [] ≡ to_le_u32 (hash body))
        × (verify_crc hash (footed i body a b c d) ≡ ok tt))
      ⊎ ((a ∷ b ∷ c ∷ d ∷ [] ≢ to_le_u32 (hash body))
          × (verify_crc hash (footed i body a b c d)
              ≡ err (bad_crc i (from_le_u32 a b c d) (hash body))))
verify_crc_cases hash i body a b c d h ha hb hc hd hw =
    let (passes, fails) = verify_crc_iff hash i body a b c d h ha hb hc hd hw in
    elim (Bool-cases (list_eq (a ∷ b ∷ c ∷ d ∷ []) (to_le_u32 (hash body)))) [
      | inl e ↦ let same = (list_eq_iff _ _).0 e in inl (same, passes.1 same)
      | inr e ↦ let differ = list_eq-ne _ _ e in inr (differ, fails differ)
    ]

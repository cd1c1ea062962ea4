-- ===== src/PageLinks/Search.antt =====
-- `find_page_link_metadata`: the block test at an offset, and the search.
use opensqlanywhere.Base.{
  ℕ, zero, suc, ◌+◌, ◌-◌, ◌^◌, ◌≤◌, ◌<◌, ◌≡◌, ◌≢◌, ◌↔◌, ◌⊎◌, inl, inr, refl, ◌∙◌, List, [], ◌∷◌,
  arith,
}
use opensqlanywhere.Base.{Bool, true, false, ◌&&◌, ◌==◌, list_eq, list_eq_iff, Bool-cases}
use opensqlanywhere.Base.{length, take, drop, Option, none, some, ok, read-ok, slice-ok}
use opensqlanywhere.Base.Bytes.{byte_at, to_le_u32, from_le_u32}
use opensqlanywhere.Base.Words.{slice_u32-ok}
use native.Mathlib.Decide.{ℕ_discrete, dec_lt}
use opensqlanywhere.PageLinks.{f32_one, link_marker, absent, in_range, invalid, PageLinkMetadata}
use opensqlanywhere.PageLinks.{is_block, decode_target, decode_block, scan, find_page_link_metadata}

abbrev pub part : List ℕ → ℕ → ℕ → List ℕ
part xs start end = take (end - start) (drop start xs)

-- A page-link block of page `n` at an offset: the page number, two zero bytes, 1.0, the marker and
-- three zero bytes, at their places.
pub record IsBlockAt (xs : List ℕ) (n o : ℕ) : Type 0 where
  pub number : part xs o (o + 4) ≡ to_le_u32 n
  pub zero_4 : byte_at xs (o + 4) ≡ 0
  pub zero_5 : byte_at xs (o + 5) ≡ 0
  pub one : part xs (o + 8) (o + 12) ≡ f32_one
  pub marker : part xs (o + 24) (o + 26) ≡ link_marker
  pub zeros : part xs (o + 27) (o + 30) ≡ 0 ∷ 0 ∷ 0 ∷ []

abbrev block_test : List ℕ → ℕ → ℕ → Bool
block_test xs n o =
    list_eq (part xs o (o + 4)) (to_le_u32 n)
    && (byte_at xs (o + 4) == 0
        && (byte_at xs (o + 5) == 0
            && (list_eq (part xs (o + 8) (o + 12)) f32_one
                && (list_eq (part xs (o + 24) (o + 26)) link_marker
                    && list_eq (part xs (o + 27) (o + 30)) (0 ∷ 0 ∷ 0 ∷ [])))))

is_block-ok :
    {E : Type 0} (xs : List ℕ) (n o : ℕ)
    → o + 34 ≤ length xs
    → is_block {E = E} xs n o ≡ ok (block_test xs n o)
unfolding is_block
is_block-ok xs n o h =
    rw
      (
        slice-ok xs o (o + 4) (omega arith) (omega arith),
        read-ok xs (o + 4) (omega arith),
        read-ok xs (o + 5) (omega arith),
        slice-ok xs (o + 8) (o + 12) (omega arith) (omega arith),
        slice-ok xs (o + 24) (o + 26) (omega arith) (omega arith),
        slice-ok xs (o + 27) (o + 30) (omega arith) (omega arith),
      )
      (ground arith)

block_test_iff : (xs : List ℕ) (n o : ℕ) → (block_test xs n o ≡ true) ↔ IsBlockAt xs n o
block_test_iff xs n o = ground (
  arith,
  list_eq_iff (part xs o (o + 4)) (to_le_u32 n),
  list_eq_iff (part xs (o + 8) (o + 12)) f32_one,
  list_eq_iff (part xs (o + 24) (o + 26)) link_marker,
  list_eq_iff (part xs (o + 27) (o + 30)) (0 ∷ 0 ∷ 0 ∷ []),
)

-- What the block at an offset says.
abbrev pub raw_target_at : List ℕ → ℕ → ℕ
raw_target_at xs o =
    from_le_u32 (byte_at xs (o + 30 + 0)) (byte_at xs (o + 30 + 1)) (byte_at xs (o + 30 + 2))
      (byte_at xs (o + 30 + 3))

abbrev pub metadata_at : List ℕ → ℕ → ℕ → ℕ → PageLinkMetadata
metadata_at xs n count o = record {
  offset = o;
  link_flag = byte_at xs (o + 26);
  target = decode_target (byte_at xs (o + 26)) (raw_target_at xs o) n count;
}

decode_block-ok :
    {E : Type 0} (xs : List ℕ) (n count o : ℕ)
    → o + 34 ≤ length xs
    → decode_block {E = E} xs n count o ≡ ok (metadata_at xs n count o)
unfolding decode_block
decode_block-ok xs n count o h = rw (
  read-ok xs (o + 26) (omega arith),
  slice_u32-ok xs (o + 30) (o + 34) (omega arith) (omega arith),
)

-- A link is followed only if its flag is one and its target is a page of the store other than page
-- zero and the page itself; with the flag set any other target is invalid, and both keep the word.
pub decode_target_iff :
    (flag raw n count t : ℕ)
    → ((decode_target flag raw n count ≡ in_range t)
        ↔ ((flag ≡ 1) × (t ≡ raw) × (raw ≢ 0) × (raw < count) × (raw ≢ n)))
      × ((decode_target flag raw n count ≡ invalid t)
          ↔ ((flag ≡ 1) × (t ≡ raw) × ((raw ≡ 0) ⊎ ((count ≤ raw) ⊎ (raw ≡ n)))))
      × ((decode_target flag raw n count ≡ absent) ↔ (flag ≢ 1))
unfolding decode_target
decode_target_iff flag raw n count t =
    ((ground arith, ground arith), (ground arith, ground arith), (ground arith, ground arith))

-- The scan from an offset on.
abbrev Scanned : (E : Type 0) → List ℕ → ℕ → ℕ → ℕ → ℕ → Type 0
Scanned E xs n count left o =
    ((scan {E = E} xs n count left o ≡ ok none)
      × ((j : ℕ) → o ≤ j → j < o + left → ¬ IsBlockAt xs n j))
    ⊎ ((k : ℕ) × (scan {E = E} xs n count left o ≡ ok (some (metadata_at xs n count k)))
        × (o ≤ k)
        × (k < o + left)
        × IsBlockAt xs n k
        × ((j : ℕ) → o ≤ j → j < k → ¬ IsBlockAt xs n j))

scan-Scanned :
    (E : Type 0) (xs : List ℕ) (n count left o : ℕ)
    → (left ≡ 0) ⊎ (o + left + 33 ≤ length xs)
    → Scanned E xs n count left o
unfolding scan
scan-Scanned E xs n count zero o h = inl (refl, λ j lo hi. absurd (omega arith))
scan-Scanned E xs n count (suc left) o h = elim (Bool-cases (block_test xs n o)) [
  | inl hit ↦ inr (
    o,
    rw (is_block-ok xs n o (omega arith), hit, decode_block-ok xs n count o (omega arith)),
    omega arith,
    omega arith,
    (block_test_iff xs n o).0 hit,
    λ j lo hi. absurd (omega arith),
  )
  | inr miss ↦ go miss (scan-Scanned E xs n count left (suc o) (omega arith))
]
  where
    skip :
        block_test xs n o ≡ false
        → scan {E = E} xs n count (suc left) o ≡ scan {E = E} xs n count left (suc o)
    skip miss = rw (is_block-ok xs n o (omega arith), miss)

    not_here :
        block_test xs n o ≡ false
        → (j : ℕ) → o ≤ j
        → ((suc o ≤ j) → ¬ IsBlockAt xs n j)
        → ¬ IsBlockAt xs n j
    not_here miss j lo later b = elim (ℕ_discrete o j) [
      | yes same ↦ cc (miss, (block_test_iff xs n o).1 (rw same b))
      | no other ↦ later (omega arith) b
    ]

    go :
        block_test xs n o ≡ false
        → Scanned E xs n count left (suc o)
        → Scanned E xs n count (suc left) o
    go miss (inl (e, none_there)) =
        inl (skip miss ∙ e, λ j lo hi. not_here miss j lo (λ l. none_there j l (omega arith)))
    go miss (inr (k, e, lo, hi, b, first)) = inr (
      k,
      skip miss ∙ e,
      omega arith,
      omega arith,
      b,
      λ j l h'. not_here miss j l (λ l'. first j l' h'),
    )

-- What an answer says of the bytes: with none there is no block at any offset, and otherwise the
-- answer describes the block with the least offset.
abbrev pub IsFirstBlock : List ℕ → ℕ → ℕ → Option PageLinkMetadata → Type 0
IsFirstBlock xs n count none = (j : ℕ) → j + 34 ≤ length xs → ¬ IsBlockAt xs n j
IsFirstBlock xs n count (some m) =
    (m ≡ metadata_at xs n count m.offset)
    × (m.offset + 34 ≤ length xs)
    × IsBlockAt xs n m.offset
    × ((j : ℕ) → j < m.offset → ¬ IsBlockAt xs n j)

-- On any bytes, for a page of the store whose number is a 32-bit word, the search does not panic and
-- answers with the first block of that page, or with none if there is none.
pub find_page_link_metadata_first :
    (E : Type 0) (xs : List ℕ) (n count : ℕ)
    → n < count
    → n < 2 ^ 32
    → (o : Option PageLinkMetadata) × (find_page_link_metadata {E = E} xs n count ≡ ok o)
      × IsFirstBlock xs n count o
unfolding find_page_link_metadata
find_page_link_metadata_first E xs n count lt word = elim (dec_lt (length xs) 34) [
  | yes short ↦ (none, ground arith, λ j h. absurd (omega arith))
  | no long ↦
      go (omega arith) (scan-Scanned E xs n count (suc (length xs - 34)) 0 (inr (omega arith)))
]
  where
    enters :
        34 ≤ length xs
        → find_page_link_metadata {E = E} xs n count
          ≡ scan {E = E} xs n count (suc (length xs - 34)) 0
    enters h = ground arith

    go :
        34 ≤ length xs
        → Scanned E xs n count (suc (length xs - 34)) 0
        → (o : Option PageLinkMetadata) × (find_page_link_metadata {E = E} xs n count ≡ ok o)
          × IsFirstBlock xs n count o
    go h (inl (e, none_there)) =
        (none, enters h ∙ e, λ j l. none_there j (omega arith) (omega arith))
    go h (inr (k, e, lo, hi, b, first)) = (
      some (metadata_at xs n count k),
      enters h ∙ e,
      (refl, omega arith, b, λ j l. first j (omega arith) l),
    )

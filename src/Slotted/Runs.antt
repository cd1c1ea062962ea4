-- ===== src/Slotted/Runs.antt =====
-- The run of words that the scan's loop accepts.
use opensqlanywhere.Base.{
  ℕ, zero, suc, ◌+◌, ◌*◌, ◌≤◌, ◌<◌, ◌≡◌, ◌⊎◌, inl, inr, refl, ◌∙◌, sym, ap, List, [], ◌∷◌, ◌++◌,
  arith,
}
use opensqlanywhere.Base.{
  Bool, true, false, ◌&&◌, ◌==◌, ltb, lt→ltb, Bool-cases, length, Outcome, ok, read-ok,
}
use opensqlanywhere.Base.Bytes.{from_le_u16, from_be_u16, byte_at}
use opensqlanywhere.Slotted.{read_u16, is_slot_offset, collect_slots}
use mathlib.Core.List.{append_assoc, append-nil}
use native.Mathlib.Decide.{dec_lt}

-- The word at an offset in the chosen byte order.
pub word_at : Bool → List ℕ → ℕ → ℕ
word_at true bs pos = from_be_u16 (byte_at bs pos) (byte_at bs (pos + 1))
word_at false bs pos = from_le_u16 (byte_at bs pos) (byte_at bs (pos + 1))

pub read_u16-ok :
    {E : Type 0} (big_endian : Bool) (bs : List ℕ) (pos : ℕ)
    → pos + 1 < length bs
    → read_u16 {E = E} big_endian bs pos ≡ ok (word_at big_endian bs pos)
unfolding read_u16 word_at
read_u16-ok true bs pos h = rw (read-ok bs pos (omega arith), read-ok bs (pos + 1) h)
read_u16-ok false bs pos h = rw (read-ok bs pos (omega arith), read-ok bs (pos + 1) h)

-- A word that continues a run: a zero behind a live slot, or an offset in range below the last one.
abbrev pub IsDeleted : ℕ → Bool → Type 0
IsDeleted value seen = (value ≡ 0) × (seen ≡ true)

abbrev pub IsLive : ℕ → ℕ → Type 0
IsLive value prev = (0x20 ≤ value) × (value < 0xFF0) × (value < prev)

-- The slots are the words from `pos` on, each of which continues the run.
abbrev pub IsRun : Bool → List ℕ → ℕ → ℕ → Bool → List ℕ → Type 0
IsRun big_endian bs pos prev seen [] = Unit
IsRun big_endian bs pos prev seen (s ∷ ss) =
    (s ≡ word_at big_endian bs pos)
    × ((IsDeleted s seen × IsRun big_endian bs (pos + 2) prev seen ss)
        ⊎ (IsLive s prev × IsRun big_endian bs (pos + 2) s true ss))

-- What the loop returns: the slots so far and a run behind them.
pub record Collected (E : Type 0) (big_endian : Bool) (bs : List ℕ) (pos prev : ℕ) (seen : Bool)
    (slots : List ℕ) (o : Outcome E (ℕ × List ℕ)) : Type 0 where
  pub rest : List ℕ
  pub end : ℕ
  pub returns : o ≡ ok (end, slots ++ rest)
  pub ends : end ≡ pos + 2 * length rest
  pub run : IsRun big_endian bs pos prev seen rest

is_live_lem : (value prev : ℕ) → (is_slot_offset value && ltb value prev) ≡ true → IsLive value prev
unfolding is_slot_offset
is_live_lem value prev h = (ground arith, ground arith, ground arith)

module _ {E : Type 0} (big_endian : Bool) (bs : List ℕ) where
  stops :
      (pos prev : ℕ) (seen : Bool) (slots : List ℕ) (o : Outcome E (ℕ × List ℕ))
      → o ≡ ok (pos, slots)
      → Collected E big_endian bs pos prev seen slots o
  stops pos prev seen slots o e = record {
    rest = [];
    end = pos;
    returns = rw append-nil e;
    ends = omega arith;
    run = tt;
  }

  deletes :
      (pos prev : ℕ) (seen : Bool) (slots : List ℕ) (o : Outcome E (ℕ × List ℕ))
      → word_at big_endian bs pos ≡ 0
      → seen ≡ true
      → Collected E big_endian bs (pos + 2) prev seen (slots ++ (0 ∷ [])) o
      → Collected E big_endian bs pos prev seen slots o
  deletes pos prev seen slots o w e c = record {
    rest = 0 ∷ c.rest;
    end = c.end;
    returns = c.returns ∙ ap (λ l. ok (c.end, l)) (append_assoc slots (0 ∷ []) c.rest);
    ends = ends_lem;
    run = (sym w, inl ((refl, e), c.run));
  }
    where
      ends_lem : c.end ≡ pos + 2 * length (0 ∷ c.rest)
      ends_lem = let h = c.ends in omega arith

  finds :
      (pos prev : ℕ) (seen : Bool) (slots : List ℕ) (o : Outcome E (ℕ × List ℕ))
      → IsLive (word_at big_endian bs pos) prev
      → Collected E big_endian bs
          (pos + 2)
          (word_at big_endian bs pos)
          true
          (slots ++ (word_at big_endian bs pos ∷ []))
          o
      → Collected E big_endian bs pos prev seen slots o
  finds pos prev seen slots o l c = record {
    rest = word_at big_endian bs pos ∷ c.rest;
    end = c.end;
    returns =
        c.returns
        ∙ ap (λ l. ok (c.end, l)) (append_assoc slots (word_at big_endian bs pos ∷ []) c.rest);
    ends = ends_lem;
    run = (refl, inr (l, c.run));
  }
    where
      ends_lem : c.end ≡ pos + 2 * length (word_at big_endian bs pos ∷ c.rest)
      ends_lem = let h = c.ends in omega arith

  module _ (size : 0x300 ≤ length bs) where
    -- The loop returns, within its fuel, the end of the longest run from `pos` and its words.
    pub collect_slots-Collected :
        (fuel pos prev : ℕ) (seen : Bool) (slots : List ℕ)
        → pos ≤ 0x300
        → 0x300 < pos + 2 * fuel
        → Collected E big_endian bs pos prev seen slots
            (collect_slots bs big_endian fuel pos prev seen slots)
    unfolding collect_slots
    collect_slots-Collected zero pos prev seen slots b h = absurd (omega arith)
    collect_slots-Collected (suc fuel) pos prev seen slots b h = elim (dec_lt (pos + 1) 0x300) [
      | no out ↦ stops pos prev seen slots _ (ground arith)
      | yes inside ↦
          let w = word_at big_endian bs pos in
          elim (Bool-cases (w == 0 && seen)) [
            | inl gone ↦
                rw (lt→ltb _ _ inside, read_u16-ok {E = E} big_endian bs pos (omega arith), gone)
                  (deletes pos prev seen slots _ (ground arith) (ground arith) (
                    collect_slots-Collected fuel (pos + 2) prev seen (slots ++ (0 ∷ []))
                      (omega arith) (omega arith)))
            | inr kept ↦ elim (Bool-cases (is_slot_offset w && ltb w prev)) [
              | inl found ↦
                  rw
                    (
                      lt→ltb _ _ inside,
                      read_u16-ok {E = E} big_endian bs pos (omega arith),
                      kept,
                      found,
                    )
                    (finds pos prev seen slots _ (is_live_lem w prev found) (
                      collect_slots-Collected fuel (pos + 2) w true (slots ++ (w ∷ []))
                        (omega arith) (omega arith)))
              | inr other ↦
                  rw
                    (
                      lt→ltb _ _ inside,
                      read_u16-ok {E = E} big_endian bs pos (omega arith),
                      kept,
                      other,
                    )
                    (stops pos prev seen slots _ refl)
            ]
          ]
    ]

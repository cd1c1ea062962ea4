-- ===== src/Ap/Pages.antt =====
-- `deobfuscate_with_bv_and_confidence` on a page.
use opensqlanywhere.Base.{
  ℕ, zero, suc, ◌+◌, ◌-◌, ◌*◌, ◌≤◌, ◌<◌, ◌≡◌, ◌⊎◌, inl, inr, refl, ap, ap₂, ◌∙◌, sym, min, List, [],
  ◌∷◌, ◌++◌, true, false, arith, leb, length, take, drop, take-length, replicate, All-take,
  All-drop, ok, panic, slice-ok, length-take, length-drop, length-append, length-replicate,
  take-append, drop-append, drop-drop,
}
use opensqlanywhere.Base.Bytes.{IsByte, IsBytes}
use opensqlanywhere.Ap.{
  ap_base, trailer_start, sector_start, data_end, apply_stream, write_part, recover_sectors,
  recover_step_confidence, ApSectorRecoveryConfidence, ApPageRecoveryConfidence, count_tied,
  deobfuscate_with_bv_and_confidence,
}
use opensqlanywhere.Ap.Streams.{fill, apply_stream_inverts, length-apply_stream_from}
use mathlib.Core.List.{append_assoc}
use native.Mathlib.Decide.{dec_lt}

-- The steps that the evidence reports.
abbrev pub steps_of : List ApSectorRecoveryConfidence → List ℕ
steps_of [] = []
steps_of (c ∷ cs) = c.chosen_step ∷ steps_of cs

-- The stored bytes of the sectors from one on, from the plaintext of these, by the module's formula.
abbrev pub obfuscate_from : (pn bv si : ℕ) → List ℕ → List ℕ → List ℕ
obfuscate_from pn bv si [] plain = []
obfuscate_from pn bv si (step ∷ steps) plain =
    let n = data_end si - sector_start si in
    fill (ap_base pn si bv) step (take n plain)
    ++ obfuscate_from pn bv (suc si) steps (drop n plain)

-- The stored bytes of a page: its sectors, and its trailer as it is.
abbrev pub obfuscate : (pn bv : ℕ) → List ℕ → List ℕ → List ℕ
obfuscate pn bv steps page =
    obfuscate_from pn bv 0 steps (take trailer_start page) ++ drop trailer_start page

-- Where the sectors from one on begin, and the trailer behind them.
abbrev begin : ℕ → ℕ
begin si = min (512 * si) 0xff0

suc-add : (m n : ℕ) → suc m + n ≡ suc (m + n)
suc-add m n = omega arith

take-split :
    {A : Type 0} (n m : ℕ) (xs : List A) → take (n + m) xs ≡ take n xs ++ take m (drop n xs)
take-split zero m xs = ap (λ (k : ℕ). take k xs) (omega arith)
take-split (suc n) zero [] = take-length (suc n + 0) [] (omega arith)
take-split (suc n) (suc m) [] = take-length (suc n + suc m) [] (omega arith)
take-split (suc n) m (x ∷ xs) = rw suc-add (ap (λ t. x ∷ t) (take-split n m xs))

pub ap_base-byte : (pn si bv : ℕ) → ap_base pn si bv < 256
unfolding ap_base
ap_base-byte pn si bv = omega arith

write_part-append :
    (sec : List ℕ) (base step start end : ℕ) (done zeros : List ℕ)
    → length done ≡ start
    → start ≤ end
    → write_part sec base step start end (done ++ zeros)
      ≡ (done ++ apply_stream sec base step (take (end - start) zeros)) ++ drop (end - start) zeros
unfolding write_part
write_part-append sec base step start end done zeros e h =
    rw (take-append start done zeros e, drop-append start done zeros e, behind, append_assoc) refl
  where
    behind : drop end (done ++ zeros) ≡ drop (end - start) zeros
    behind =
        ap (λ (k : ℕ). drop k (done ++ zeros)) (omega arith)
        ∙ (sym (drop-drop (end - start) start (done ++ zeros))
            ∙ ap (drop (end - start)) (drop-append start done zeros e))

-- A sector of the page in front of the trailer, its evidence and its plaintext.
abbrev pub size_of : ℕ → ℕ
size_of si = data_end si - sector_start si

abbrev pub sector_of : List ℕ → ℕ → List ℕ
sector_of raw si = take (size_of si) (drop (sector_start si) raw)

abbrev evidence_of : List ℕ → (pn bv si : ℕ) → ApSectorRecoveryConfidence
evidence_of raw pn bv si = recover_step_confidence (sector_of raw si) (ap_base pn si bv) si

abbrev plain_of : List ℕ → (pn bv si : ℕ) → List ℕ → List ℕ
plain_of raw pn bv si zeros =
    apply_stream (sector_of raw si) (ap_base pn si bv) (evidence_of raw pn bv si).chosen_step
      (take (size_of si) zeros)

-- What the rounds from a sector on give, when the output in front of it is `done`.
record Recovered (E : Type 0) (raw : List ℕ) (pn bv left si : ℕ) (done zeros : List ℕ)
    : Type 0 where
  body : List ℕ
  last : List ℕ
  more : List ApSectorRecoveryConfidence
  returned :
      recover_sectors {E = E} raw pn bv left si (done ++ zeros) ≡ ok (done ++ (body ++ last), more)
  body_size : length body ≡ 0xff0 - begin si
  last_size : length last ≡ 16
  number : length more ≡ left
  stored :
      obfuscate_from pn bv si (steps_of more) body ≡ take (0xff0 - begin si) (drop (begin si) raw)

starts : (si : ℕ) → si < 8 → sector_start si ≡ begin si
starts si h = omega arith

ends : (si : ℕ) → si < 8 → (data_end si ≡ begin (suc si)) × (begin si ≤ begin (suc si))
ends si h = ground arith

module _ (raw : List ℕ) (long : 4096 ≤ length raw) (si : ℕ) (inside : si < 8) where
  sector-size : length (sector_of raw si) ≡ size_of si
  sector-size = omega (
    arith,
    ends si inside,
    length-take (size_of si) (drop (sector_start si) raw),
    length-drop (sector_start si) raw,
  )

  sector-split :
      sector_of raw si ++ take (0xff0 - begin (suc si)) (drop (begin (suc si)) raw)
      ≡ take (0xff0 - begin si) (drop (begin si) raw)
  sector-split =
      ap₂ (λ xs ys. xs ++ take rest ys)
        (ap (λ (b : ℕ). take (size_of si) (drop b raw)) (starts si inside)) behind
      ∙ (sym (take-split (size_of si) rest (drop (begin si) raw))
          ∙ ap (λ (k : ℕ). take k (drop (begin si) raw))
              (omega (arith, ends si inside, starts si inside)))
    where
      rest : ℕ
      rest = 0xff0 - begin (suc si)

      behind : drop (begin (suc si)) raw ≡ drop (size_of si) (drop (begin si) raw)
      behind =
          ap (λ (k : ℕ). drop k raw) (omega (arith, ends si inside, starts si inside))
          ∙ sym (drop-drop (size_of si) (begin si) raw)

  module _ (E : Type 0) (pn bv left : ℕ) (bytes : IsBytes raw) (done zeros : List ℕ)
      (h : length done ≡ begin si) (k : length zeros ≡ 4096 - begin si) where
    room : length (take (size_of si) zeros) ≡ size_of si
    room = omega (arith, ends si inside, length-take (size_of si) zeros)

    plain-size : length (plain_of raw pn bv si zeros) ≡ size_of si
    unfolding apply_stream
    plain-size = length-apply_stream_from _ _ 0 (sector_of raw si) (take (size_of si) zeros) ∙ room

    done-size : length (done ++ plain_of raw pn bv si zeros) ≡ begin (suc si)
    done-size =
        omega (arith, ends si inside, length-append done (plain_of raw pn bv si zeros), plain-size)

    zeros-size : length (drop (size_of si) zeros) ≡ 4096 - begin (suc si)
    zeros-size = omega (arith, ends si inside, length-drop (size_of si) zeros)

    sector-returned :
        (r : Recovered E raw pn bv left
          (suc si)
          (done ++ plain_of raw pn bv si zeros)
          (drop (size_of si) zeros))
        → recover_sectors {E = E} raw pn bv (suc left) si (done ++ zeros)
          ≡ ok (
            done ++ ((plain_of raw pn bv si zeros ++ r.body) ++ r.last),
            evidence_of raw pn bv si ∷ r.more,
          )
    unfolding recover_sectors
    sector-returned r =
        rw
          (
            slice-ok {E = E} raw (sector_start si) (data_end si) (omega (arith, ends si inside))
                (omega (arith, ends si inside)),
            write_part-append (sector_of raw si) (ap_base pn si bv)
                (evidence_of raw pn bv si).chosen_step (sector_start si) (data_end si) done zeros
                (omega (arith, starts si inside)) (omega (arith, ends si inside)),
            r.returned,
            append_assoc done (plain_of raw pn bv si zeros) (r.body ++ r.last),
            append_assoc (plain_of raw pn bv si zeros) r.body r.last,
          )
          refl

    sector-stored :
        (r : Recovered E raw pn bv left
          (suc si)
          (done ++ plain_of raw pn bv si zeros)
          (drop (size_of si) zeros))
        → obfuscate_from pn bv si
            (steps_of (evidence_of raw pn bv si ∷ r.more))
            (plain_of raw pn bv si zeros ++ r.body)
          ≡ take (0xff0 - begin si) (drop (begin si) raw)
    sector-stored r =
        let plain = plain_of raw pn bv si zeros in
        rw
          (
            take-append (size_of si) plain r.body plain-size,
            drop-append (size_of si) plain r.body plain-size,
            r.stored,
            (apply_stream_inverts (ap_base pn si bv) (evidence_of raw pn bv si).chosen_step
                (sector_of raw si) (take (size_of si) zeros) (ap_base-byte pn si bv)
                (All-take IsByte (size_of si) _ (All-drop IsByte (sector_start si) raw bytes))
                (room ∙ sym sector-size)).1,
          )
          sector-split

module _ (E : Type 0) (raw : List ℕ) (pn bv : ℕ) (long : 4096 ≤ length raw)
    (bytes : IsBytes raw) where
  rounds :
      (left si : ℕ) (done zeros : List ℕ)
      → si + left ≡ 8
      → length done ≡ begin si
      → length zeros ≡ 4096 - begin si
      → Recovered E raw pn bv left si done zeros
  unfolding recover_sectors
  rounds zero si done zeros e h k = record {
    body = [];
    last = zeros;
    more = [];
    returned = refl;
    body_size = omega arith;
    last_size = omega arith;
    number = refl;
    stored = ap (λ (n : ℕ). take n (drop (begin si) raw)) {x = 0} (omega arith);
  }
  rounds (suc left) si done zeros e h k =
      let inside : si < 8 = omega arith in
      let r =
        rounds left (suc si) (done ++ plain_of raw pn bv si zeros) (drop (size_of si) zeros)
          (omega arith) (done-size raw long si inside E pn bv left bytes done zeros h k)
          (zeros-size raw long si inside E pn bv left bytes done zeros h k) in
      record {
        body = plain_of raw pn bv si zeros ++ r.body;
        last = r.last;
        more = evidence_of raw pn bv si ∷ r.more;
        returned = sector-returned raw long si inside E pn bv left bytes done zeros h k r;
        body_size = omega (
          arith,
          ends si inside,
          length-append (plain_of raw pn bv si zeros) r.body,
          plain-size raw long si inside E pn bv left bytes done zeros h k,
          r.body_size,
        );
        last_size = r.last_size;
        number = ap suc r.number;
        stored = sector-stored raw long si inside E pn bv left bytes done zeros h k r;
      }

le→leb : (a b : ℕ) → a ≤ b → leb a b ≡ true
le→leb a b h = ground arith

lt→leb_false : (a b : ℕ) → b < a → leb a b ≡ false
lt→leb_false a b h = ground arith

-- What a page's evidence and plaintext are for its stored bytes.
pub record IsRecovery (raw : List ℕ) (pn bv : ℕ) (out : List ℕ) (c : ApPageRecoveryConfidence)
    : Type 0 where
  pub size : length out ≡ 4096
  pub stored : obfuscate pn bv (steps_of c.sectors) out ≡ take 4096 raw
  pub trailer : drop trailer_start out ≡ take 16 (drop trailer_start raw)
  pub sectors : length c.sectors ≡ 8
  pub same_page : (c.page_number ≡ pn) × (c.bv ≡ bv)

recovered :
    (E : Type 0) (raw : List ℕ) (pn bv : ℕ)
    → 4096 ≤ length raw
    → Recovered E raw pn bv 8 0 [] (replicate 4096 0)
    → (out : List ℕ) × (c : ApPageRecoveryConfidence) × (deobfuscate_with_bv_and_confidence {E = E}
          raw pn bv
        ≡ ok (out, c))
      × IsRecovery raw pn bv out c
unfolding deobfuscate_with_bv_and_confidence
recovered E raw pn bv long r =
    let trailer = take 16 (drop trailer_start raw) in
    let front : take trailer_start (r.body ++ r.last) ≡ r.body =
      take-append trailer_start r.body r.last r.body_size in
    (
      r.body ++ trailer,
      record { page_number = pn; bv = bv; sectors = r.more; tied_sector_count = count_tied r.more },
      rw
          (
            le→leb 4096 (length raw) long,
            r.returned,
            slice-ok {E = E} raw trailer_start 4096 (omega arith) long,
            front,
          )
          refl,
      record {
        size = omega (
          arith,
          length-append r.body trailer,
          r.body_size,
          length-take 16 (drop trailer_start raw),
          length-drop trailer_start raw,
        );
        stored =
            rw
              (
                take-append trailer_start r.body trailer r.body_size,
                drop-append trailer_start r.body trailer r.body_size,
                r.stored,
              )
              (sym (take-split 0xff0 16 raw));
        trailer = drop-append trailer_start r.body trailer r.body_size;
        sectors = r.number;
        same_page = (refl, refl);
      },
    )

refused :
    (E : Type 0) (raw : List ℕ) (pn bv : ℕ)
    → length raw < 4096
    → deobfuscate_with_bv_and_confidence {E = E} raw pn bv ≡ panic
unfolding deobfuscate_with_bv_and_confidence
refused E raw pn bv short = rw (lt→leb_false 4096 (length raw) short) refl

-- `deobfuscate_with_bv_and_confidence` panics on a buffer of fewer than 4096 bytes. On any other it
-- returns 4096 bytes, with the trailer as it was, and evidence for eight sectors; and nothing is lost:
-- the module's formula, with the steps that the evidence reports, stores these bytes as the first 4096
-- of the buffer.
pub deobfuscate_with_bv_and_confidence_cases :
    (E : Type 0) (raw : List ℕ) (pn bv : ℕ)
    → IsBytes raw
    → ((length raw < 4096) × (deobfuscate_with_bv_and_confidence {E = E} raw pn bv ≡ panic))
      ⊎ ((4096 ≤ length raw)
          × ((out : List ℕ) × (c : ApPageRecoveryConfidence) × (deobfuscate_with_bv_and_confidence
                  {E = E} raw pn bv
                ≡ ok (out, c))
              × IsRecovery raw pn bv out c))
deobfuscate_with_bv_and_confidence_cases E raw pn bv bytes = elim (dec_lt (length raw) 4096) [
  | yes short ↦ inl (short, refused E raw pn bv short)
  | no long ↦
      let enough : 4096 ≤ length raw = omega arith in
      inr (
        enough,
        recovered E raw pn bv enough (
            rounds E raw pn bv enough bytes 8 0 [] (replicate 4096 0) (omega arith) refl
              (length-replicate {A = ℕ} 4096 0)),
      )
]

-- ===== src/Proto/Framing/Search.antt =====
-- The search for a header among any bytes.
use networkio.Base.{
  subst, subst, Bool-cases, ltb_cases, ℕ, zero, suc, ◌+◌, ◌<◌, ◌≤◌, ◌≡◌, ◌⊎◌, inl, inr, refl, sym,
  ap, ◌∙◌, true, false, List, Option, some, then_eq, if_eq, if_not_eq, arith, length, take, drop,
  drop-drop, le→ltb_false, length-drop,
}
use networkio.Memory.Fifo
use networkio.Memory.Fifo.{FifoBuffer, contents}
use networkio.Memory.Fifo.Laws.{IsValid, size-length, peek_lem, pop_front_lem}
use networkio.Proto.Framing.{PktHeader, header_of, is_valid_pkt_header, scan}

-- The header that the bytes from index `k` on would be.
abbrev pub header_at : List ℕ → ℕ → PktHeader
header_at bs k = header_of (take 12 (drop k bs))

-- How the search in `bs` ends: at the first index where there is a valid header and a byte behind
-- it, with the header taken, or with the last bytes, twelve at most, and no header.
pub record FirstHeader (bs : List ℕ) (out : Option (PktHeader × FifoBuffer)) : Type 0 where
  pub skipped : ℕ
  pub header : PktHeader
  pub buffer : FifoBuffer
  pub runs : out ≡ some (header, buffer)
  pub valid : IsValid buffer
  pub none_before : (j : ℕ) → j < skipped → is_valid_pkt_header (header_at bs j) ≡ false
  pub ends :
      (is_valid_pkt_header (header_at bs skipped) ≡ true)
        × (header ≡ header_at bs skipped)
        × (contents buffer ≡ drop (skipped + 12) bs)
        × (0 < length (contents buffer))
      ⊎ (header.magic ≡ 0) × (length (contents buffer) ≤ 12) × (contents buffer ≡ drop skipped bs)

ends_short :
    (h : PktHeader) (f : FifoBuffer)
    → IsValid f
    → h.magic ≡ 0
    → Fifo.size f ≤ 12
    → FirstHeader (contents f) (some (h, f))
ends_short h f v z le = record {
  skipped = 0;
  header = h;
  buffer = f;
  runs = refl;
  valid = v;
  none_before = λ j lt. absurd (omega arith);
  ends = inr (z, omega (arith, size-length f v), refl);
}

drop_at : (bs : List ℕ) (k : ℕ) → drop k (drop 1 bs) ≡ drop (suc k) bs
drop_at bs k = let e : 1 + k ≡ suc k = omega arith in drop-drop k 1 bs ∙ ap (λ m. drop m bs) e

same_end :
    {bs : List ℕ} {out out' : Option (PktHeader × FifoBuffer)}
    → out ≡ out'
    → FirstHeader bs out'
    → FirstHeader bs out
same_end {bs} e r = subst (FirstHeader bs) (sym e) r

-- A byte that starts no header is skipped.
skip_one :
    (bs rest : List ℕ) (out : Option (PktHeader × FifoBuffer))
    → rest ≡ drop 1 bs
    → is_valid_pkt_header (header_at bs 0) ≡ false
    → FirstHeader rest out
    → FirstHeader bs out
skip_one bs rest out same bad found = record {
  skipped = suc r.skipped;
  header = r.header;
  buffer = r.buffer;
  runs = r.runs;
  valid = r.valid;
  none_before = before;
  ends = elim r.ends [
    | inl (good, e, c, some_left) ↦ inl (
      ap (λ t. is_valid_pkt_header (header_of (take 12 t))) (sym (drop_at bs r.skipped)) ∙ good,
      e ∙ ap (λ t. header_of (take 12 t)) (drop_at bs r.skipped),
      c ∙ drop_at bs (r.skipped + 12) ∙ ap (λ m. drop m bs) carried,
      some_left,
    )
    | inr (z, le, c) ↦ inr (z, le, c ∙ drop_at bs r.skipped)
  ];
}
  where
    r : FirstHeader (drop 1 bs) out
    r = subst (λ t. FirstHeader t out) same found

    carried : suc (r.skipped + 12) ≡ suc r.skipped + 12
    carried = omega arith

    before : (j : ℕ) → j < suc r.skipped → is_valid_pkt_header (header_at bs j) ≡ false
    before zero lt = bad
    before (suc j) lt =
        ap (λ t. is_valid_pkt_header (header_of (take 12 t))) (sym (drop_at bs j))
        ∙ r.none_before j (omega arith)

-- The search in a valid buffer ends within as many rounds as there are bytes, whatever they are,
-- and no step of it is undefined: it finds the first valid header with a byte behind it, skips the
-- bytes before it, and otherwise keeps the last twelve bytes at most.
pub scan_finds_first :
    (junk : ℕ → ℕ) (rounds : ℕ) (h : PktHeader) (f : FifoBuffer)
    → IsValid f
    → h.magic ≡ 0
    → Fifo.size f ≤ rounds
    → FirstHeader (contents f) (scan junk rounds h f)
unfolding scan
scan_finds_first junk zero h f v z le =
    same_end (if_not_eq _ (le→ltb_false 12 (Fifo.size f) (omega arith)) refl)
      (ends_short h f v z (omega arith))
scan_finds_first junk (suc rounds) h f v z le = elim (ltb_cases 12 (Fifo.size f)) [
  | inr (t, few) ↦ same_end (if_not_eq _ t refl) (ends_short h f v z few)
  | inl (t, many) ↦
      let shown = peek_lem f 12 v (omega arith) in
      elim (Bool-cases (is_valid_pkt_header (header_at (contents f) 0))) [
        | inl good ↦
            let (f', e, v', c) = pop_front_lem junk f 12 v in
            same_end (if_eq _ t (then_eq _ shown (if_eq _ good (then_eq _ e refl)))) (record {
              skipped = 0;
              header = header_at (contents f) 0;
              buffer = f';
              runs = refl;
              valid = v';
              none_before = λ j lt. absurd (omega arith);
              ends = inl (
                good,
                refl,
                c,
                omega (arith, ap length c, length-drop 12 (contents f), size-length f v),
              );
            })
        | inr bad ↦
            let (f', e, v', c) = pop_front_lem junk f 1 v in
            let more =
              scan_finds_first junk rounds (record (header_at (contents f) 0) { magic = 0 }) f' v'
                refl
                (omega (
                  arith,
                  ap length c,
                  length-drop 1 (contents f),
                  size-length f v,
                  size-length f' v',
                )) in
            same_end (if_eq _ t (then_eq _ shown (if_not_eq _ bad (then_eq _ e refl))))
              (skip_one (contents f) (contents f') _ c bad more)
      ]
]

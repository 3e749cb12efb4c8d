-- ===== src/Proto/Framing/Header.antt =====
-- The header of a frame, as it is sent and read.
use networkio.Base.{
  append-nil, [], ℕ, ◌^◌, ◌<◌, ◌≡◌, refl, sym, ap, ◌∙◌, true, List, ◌++◌, arith, length, drop,
  length-append, append_assoc, take-prefix, drop-prefix, drop-drop, ==_iff,
}
use networkio.Hash.{fnv1a}
use networkio.Hash.Laws.{fnv1a-lt}
use networkio.Proto.Wire.{to_bytes, length-to_bytes, of_bytes-to_bytes}
use networkio.Proto.Framing.{
  PktHeader, pkt_header_magic, hashed_bytes, header_bytes, header_of, is_valid_pkt_header,
}

-- The header that `process` makes for a payload of `n` bytes.
unfoldable pub header_for : ℕ → PktHeader
header_for n = record {
  magic = pkt_header_magic;
  pkt_size = n;
  hash = fnv1a (hashed_bytes pkt_header_magic n);
}

-- A frame: the header and the payload.
abbrev pub frame : List ℕ → List ℕ
frame bs = header_bytes (header_for (length bs)) ++ bs

pub length-header_bytes : (h : PktHeader) → length (header_bytes h) ≡ 12
unfolding header_bytes
length-header_bytes h = omega (
  arith,
  length-append (hashed_bytes h.magic h.pkt_size) (to_bytes 4 h.hash),
  length-append (to_bytes 4 h.magic) (to_bytes 4 h.pkt_size),
  length-to_bytes 4 h.magic,
  length-to_bytes 4 h.pkt_size,
  length-to_bytes 4 h.hash,
)

-- A header whose fields are `uint32_t` is read back as it was written, whatever follows it.
pub header_of-header_bytes :
    (h : PktHeader) (rest : List ℕ)
    → h.magic < 2 ^ 32
    → h.pkt_size < 2 ^ 32
    → h.hash < 2 ^ 32
    → header_of (header_bytes h ++ rest) ≡ h
unfolding header_of header_bytes
header_of-header_bytes h rest lm ln lh = rw (
  whole,
  take-prefix 4 a (b ++ (c ++ rest)) (length-to_bytes 4 h.magic),
  drop-prefix 4 a (b ++ (c ++ rest)) (length-to_bytes 4 h.magic),
  take-prefix 4 b (c ++ rest) (length-to_bytes 4 h.pkt_size),
  third,
  take-prefix 4 c rest (length-to_bytes 4 h.hash),
  of_bytes-to_bytes 4 h.magic (omega arith),
  of_bytes-to_bytes 4 h.pkt_size (omega arith),
  of_bytes-to_bytes 4 h.hash (omega arith),
)
  where
    a : List ℕ
    a = to_bytes 4 h.magic

    b : List ℕ
    b = to_bytes 4 h.pkt_size

    c : List ℕ
    c = to_bytes 4 h.hash

    whole : ((a ++ b) ++ c) ++ rest ≡ a ++ (b ++ (c ++ rest))
    whole = append_assoc (a ++ b) c rest ∙ append_assoc a b (c ++ rest)

    third : drop 8 (a ++ (b ++ (c ++ rest))) ≡ c ++ rest
    third =
        sym (drop-drop 4 4 (a ++ (b ++ (c ++ rest))))
        ∙ ap (drop 4) (drop-prefix 4 a (b ++ (c ++ rest)) (length-to_bytes 4 h.magic))
        ∙ drop-prefix 4 b (c ++ rest) (length-to_bytes 4 h.pkt_size)

pub header_for-valid : (n : ℕ) → is_valid_pkt_header (header_for n) ≡ true
unfolding header_for is_valid_pkt_header
header_for-valid n =
    rw
      ((==_iff (fnv1a (hashed_bytes pkt_header_magic n))
          (fnv1a (hashed_bytes pkt_header_magic n))).1
        refl)
      refl

pub header_of-frame :
    (n : ℕ) (rest : List ℕ)
    → n < 2 ^ 32
    → header_of (header_bytes (header_for n) ++ rest) ≡ header_for n
unfolding header_for
header_of-frame n rest h =
    header_of-header_bytes (header_for n) rest (omega arith) h
      (fnv1a-lt (hashed_bytes pkt_header_magic n))

pub header_back : (n : ℕ) → n < 2 ^ 32 → header_of (header_bytes (header_for n)) ≡ header_for n
header_back n h =
    ap header_of (sym (append-nil (header_bytes (header_for n)))) ∙ header_of-frame n [] h

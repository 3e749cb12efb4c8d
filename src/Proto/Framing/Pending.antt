-- ===== src/Proto/Framing/Pending.antt =====
-- The bytes that `read_packet` has received and not yet returned.
use networkio.Base.{
  ℕ, ◌^◌, ◌<◌, ◌≤◌, ◌≡◌, refl, sym, ap, ◌∙◌, false, ◌&&◌, List, ◌++◌, Option, some, if_not_eq,
  arith, length, drop, leb, ◌==◌, lt→leb_false, length-append, append_assoc, drop-prefix,
}
use networkio.Memory.Fifo
use networkio.Memory.Fifo.{FifoBuffer, contents}
use networkio.Memory.Fifo.Laws.{IsValid, size-length}
use networkio.Proto.Framing.{
  PktHeader, pkt_header_magic, header_of, header_bytes, scan, read_header,
}
use networkio.Proto.Framing.Header.{header_for, header_of-frame, length-header_bytes}
use networkio.Proto.Framing.Receive.{Found, read_header-Found, read_header_waits}

-- The bytes received that are in no packet yet: those of a header that has been removed count.
pub data Pending (h : PktHeader) (f : FifoBuffer) (q : List ℕ) : Type 0 where
  searching : h.magic ≡ 0 → IsValid f → contents f ≡ q → Pending h f q
  found :
      (n : ℕ)
      → h ≡ header_for n
      → 0 < n
      → n < 2 ^ 32
      → IsValid f
      → header_bytes (header_for n) ++ contents f ≡ q
      → Pending h f q

pub Pending-IsValid : {h : PktHeader} {f : FifoBuffer} {q : List ℕ} → Pending h f q → IsValid f
Pending-IsValid (searching z v e) = v
Pending-IsValid (found n e some_size lim v c) = v

pub Pending-bound :
    {h : PktHeader} {f : FifoBuffer} {q : List ℕ} → Pending h f q → length (contents f) ≤ length q
Pending-bound (searching z v e) = omega (arith, ap length e)
Pending-bound {f} (found n e some_size lim v c) =
    omega (arith, ap length c, length-append (header_bytes (header_for n)) (contents f))

-- Bytes that come behind the buffer come behind all that are pending.
pub Pending-more :
    {h : PktHeader} {f f' : FifoBuffer} {q : List ℕ} (bs : List ℕ)
    → Pending h f q
    → IsValid f'
    → contents f' ≡ contents f ++ bs
    → Pending h f' (q ++ bs)
Pending-more bs (searching z v e) v' c = searching z v' (c ∙ ap (λ t. t ++ bs) e)
Pending-more {f} bs (found n e some_size lim v c) v' c' = found n e some_size lim v' (
    ap (◌++◌ (header_bytes (header_for n))) c'
    ∙ sym (append_assoc (header_bytes (header_for n)) (contents f) bs)
    ∙ ap (λ t. t ++ bs) c)

-- A header says where the payload is.
same_tail :
    (m n : ℕ) (c tail : List ℕ)
    → header_bytes (header_for m) ++ c ≡ header_bytes (header_for n) ++ tail
    → m < 2 ^ 32
    → n < 2 ^ 32
    → (m ≡ n) × (c ≡ tail)
unfolding header_for
same_tail m n c tail e lm ln = (
  ap (λ h. h.pkt_size) (sym (header_of-frame m c lm) ∙ ap header_of e ∙ header_of-frame n tail ln),
  sym (drop-prefix 12 (header_bytes (header_for m)) c (length-header_bytes (header_for m)))
      ∙ ap (drop 12) e
      ∙ drop-prefix 12 (header_bytes (header_for n)) tail (length-header_bytes (header_for n)),
)

-- The header is found, now or in an earlier call, once a byte of the payload is there.
pub ready :
    (junk : ℕ → ℕ) {h : PktHeader} {f : FifoBuffer} {q : List ℕ} (n : ℕ) (tail : List ℕ)
    → Pending h f q
    → q ≡ header_bytes (header_for n) ++ tail
    → 0 < length tail
    → n < 2 ^ 32
    → Found n tail (read_header junk h f)
unfolding read_header header_for
ready junk {h} {f} n tail (searching z v e) d some_tail lim =
    read_header-Found junk n h f tail z v (e ∙ d) some_tail lim
ready junk {h} {f} n tail (found m e some_size lm v c) d some_tail lim =
    let (same, rest) = same_tail m n (contents f) tail (c ∙ d) lm lim in
    record {
      buffer = f;
      runs =
          ap (λ k. read_header junk k f) (e ∙ ap header_for same)
          ∙ if_not_eq (scan junk (Fifo.size f) (header_for n) f) refl refl;
      valid = v;
      left = rest;
    }

-- Bytes that are pending and less than a frame: no more than a header, or a part of a payload.
pub data Short (q : List ℕ) : Type 0 where
  few : length q ≤ 12 → Short q
  part :
      (n : ℕ) (tail : List ℕ)
      → q ≡ header_bytes (header_for n) ++ tail
      → 0 < length tail
      → length tail < n
      → n < 2 ^ 32
      → Short q

-- What `read_header` leaves of less than a frame: a header and a buffer that make no packet yet.
pub record Waiting (q : List ℕ) (out : Option (PktHeader × FifoBuffer)) : Type 0 where
  pub header : PktHeader
  pub buffer : FifoBuffer
  pub runs : out ≡ some (header, buffer)
  pub pending : Pending header buffer q
  pub short : (header.magic == pkt_header_magic && leb header.pkt_size (Fifo.size buffer)) ≡ false

not_yet :
    {h : PktHeader} {f : FifoBuffer} {q : List ℕ}
    → Pending h f q
    → length q ≤ 12
    → (h.magic == pkt_header_magic && leb h.pkt_size (Fifo.size f)) ≡ false
unfolding header_for
not_yet {h} {f} (searching z v e) le =
    ap (λ m. m == pkt_header_magic && leb h.pkt_size (Fifo.size f)) z
not_yet {h} {f} (found n e some_size lim v c) le =
    ap (λ k. k.magic == pkt_header_magic && leb k.pkt_size (Fifo.size f)) e
    ∙ lt→leb_false n (Fifo.size f) (
        omega (
          arith,
          size-length f v,
          ap length c,
          length-append (header_bytes (header_for n)) (contents f),
          length-header_bytes (header_for n),
        ))

pub waiting :
    (junk : ℕ → ℕ) {h : PktHeader} {f : FifoBuffer} {q : List ℕ}
    → Pending h f q
    → Short q
    → Waiting q (read_header junk h f)
unfolding header_for
waiting junk {h} {f} p (few le) = record {
  header = h;
  buffer = f;
  runs = read_header_waits junk h f (Pending-IsValid p) (omega (arith, Pending-bound p));
  pending = p;
  short = not_yet p le;
}
waiting junk {h} {f} p (part n tail e some_tail lt lim) =
    let r = ready junk n tail p e some_tail lim in
    record {
      header = header_for n;
      buffer = r.buffer;
      runs = r.runs;
      pending =
          found n refl (omega arith) lim r.valid
            (ap (◌++◌ (header_bytes (header_for n))) r.left ∙ sym e);
      short =
          lt→leb_false n (Fifo.size r.buffer)
            (omega (arith, size-length r.buffer r.valid, ap length r.left));
    }

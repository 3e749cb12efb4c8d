-- ===== src/Proto/Framing/Receive.antt =====
-- The steps of `read_packet`: the header, the payload, and a read of the connection.
use networkio.Base.{
  inl, inr, eq_cases, if_eq, if_not_eq, ℕ, ◌+◌, ◌^◌, ◌<◌, ◌≤◌, ◌≡◌, refl, ap, ◌∙◌, true, not, ◌&&◌,
  List, [], ◌++◌, Option, none, some, then_eq, arith, length, take, drop, min, suc, zero, lt→ltb,
  le→ltb_false, length-append, append-nil, take-prefix, ==_iff, drop-prefix, take_all, drop_all,
  length-take,
}
use networkio.Base.Int.{int32_limit}
use networkio.Interfaces.{ClientOps}
use networkio.Memory.Block.{malloc, length-malloc}
use networkio.Memory.Fifo
use networkio.Memory.Fifo.{FifoBuffer, contents}
use networkio.Memory.Fifo.Laws.{
  IsValid, size-length, size_eq, peek_lem, pop_front_lem, pop_front_into_lem, push_back_lem,
}
use networkio.Memory.Shared
use networkio.Memory.Shared.{Buffer}
use networkio.Proto.Packet.{Packet, of_buffer}
use networkio.Proto.Packet.State.{Reads}
use networkio.Proto.Packet.Start.{of_buffer-Reads}
use networkio.Proto.Framing.{
  received, PktHeader, PacketProto, header_bytes, scan, read_header, take_packet, fetch,
  net_max_message, is_frame,
}
use networkio.Proto.Framing.Header.{header_for, header_for-valid, header_back, length-header_bytes}

-- What `read_header` finds in front of a payload: the header, which it removes.
pub record Found (n : ℕ) (tail : List ℕ) (out : Option (PktHeader × FifoBuffer)) : Type 0 where
  pub buffer : FifoBuffer
  pub runs : out ≡ some (header_for n, buffer)
  pub valid : IsValid buffer
  pub left : contents buffer ≡ tail

-- The search ends in its first round if a header is there.
scan-Found :
    (junk : ℕ → ℕ) (rounds n : ℕ) (h : PktHeader) (f : FifoBuffer) (tail : List ℕ)
    → IsValid f
    → contents f ≡ header_bytes (header_for n) ++ tail
    → 0 < length tail
    → n < 2 ^ 32
    → Found n tail (scan junk (suc rounds) h f)
unfolding scan
scan-Found junk rounds n h f tail v e some_tail lim =
    let size : Fifo.size f ≡ 12 + length tail = omega (
      arith,
      size-length f v,
      ap length e,
      length-append (header_bytes (header_for n)) tail,
      length-header_bytes (header_for n),
    ) in
    let (f', runs, v', c) = pop_front_lem junk f 12 v in
    record {
      buffer = f';
      runs = rw (lt→ltb 12 (Fifo.size f) (omega arith)) (
          then_eq _
            (peek_lem f 12 v (omega arith)
              ∙ ap (λ b. some (take 12 b)) e
              ∙ ap some (
                  take-prefix 12 (header_bytes (header_for n)) tail
                    (length-header_bytes (header_for n))))
            (rw (header_back n lim, header_for-valid n, runs) refl));
      valid = v';
      left =
          c
          ∙ ap (drop 12) e
          ∙ drop-prefix 12 (header_bytes (header_for n)) tail (length-header_bytes (header_for n));
    }

-- So `read_header` finds the header and removes it, if a byte at least follows it.
pub read_header-Found :
    (junk : ℕ → ℕ) (n : ℕ) (h : PktHeader) (f : FifoBuffer) (tail : List ℕ)
    → h.magic ≡ 0
    → IsValid f
    → contents f ≡ header_bytes (header_for n) ++ tail
    → 0 < length tail
    → n < 2 ^ 32
    → Found n tail (read_header junk h f)
unfolding read_header
read_header-Found junk n h f tail z v e some_tail lim =
    let size : Fifo.size f ≡ suc (11 + length tail) = omega (
      arith,
      size-length f v,
      ap length e,
      length-append (header_bytes (header_for n)) tail,
      length-header_bytes (header_for n),
    ) in
    rw ((==_iff h.magic 0).1 z, size)
      (scan-Found junk (11 + length tail) n h f tail v e some_tail lim)

-- `take_packet` takes a packet of the next `n` bytes.
pub take_packet_lem :
    (junk : ℕ → ℕ) (n : ℕ) (f : FifoBuffer)
    → IsValid f
    → n ≤ length (contents f)
    → n < 2 ^ 32
    → (packet : Packet) × (buf : Buffer) × (f' : FifoBuffer) × (take_packet junk n f
        ≡ some (packet, f'))
      × Reads packet buf 0 [] (take n (contents f))
      × IsValid f'
      × (contents f' ≡ drop n (contents f))
unfolding take_packet Shared.make Shared.bytes_at
take_packet_lem junk n f v h lim =
    let (f', runs, v', c) =
      pop_front_into_lem junk f (malloc junk n) n v (omega (arith, length-malloc junk n)) in
    (
      of_buffer b none,
      b,
      f',
      then_eq _ runs (ap (λ t. some (of_buffer (record b { m_buffer = t }) none, f')) taken),
      of_buffer-Reads b none (omega (arith, length-take n (contents f))),
      v',
      c,
    )
  where
    b : Buffer
    b = record { m_buffer = take n (contents f); m_begin = 0; m_offset = 0; m_size = n; block = 0 }

    taken :
        take n (contents f) ++ drop (min n f.m_buffer_size) (malloc junk n) ≡ take n (contents f)
    taken =
        ap (◌++◌ (take n (contents f))) (
          drop_all (min n f.m_buffer_size) (malloc junk n)
            (omega (arith, length-malloc junk n, size_eq f v)))
        ∙ append-nil (take n (contents f))

scan_waits :
    (junk : ℕ → ℕ) (rounds : ℕ) (h : PktHeader) (f : FifoBuffer)
    → Fifo.size f ≤ 12
    → scan junk rounds h f ≡ some (h, f)
unfolding scan
scan_waits junk zero h f le = rw (le→ltb_false 12 (Fifo.size f) le) refl
scan_waits junk (suc rounds) h f le = rw (le→ltb_false 12 (Fifo.size f) le) refl

-- A search for a header ends at once if there are no more bytes than a header has.
pub read_header_waits :
    (junk : ℕ → ℕ) (h : PktHeader) (f : FifoBuffer)
    → IsValid f
    → length (contents f) ≤ 12
    → read_header junk h f ≡ some (h, f)
unfolding read_header
read_header_waits junk h f v le = elim (eq_cases h.magic 0) [
  | inl (t, _) ↦ if_eq _ t (scan_waits junk (Fifo.size f) h f (omega (arith, size-length f v)))
  | inr (t, _) ↦ if_not_eq _ t refl
]

-- A read of a stream puts the bytes behind those that are there.
pub fetch_stream :
    (junk : ℕ → ℕ) {S : Type 0} (ops : ClientOps S) (p : PacketProto S) (s s' : S) (bs : List ℕ)
    → ops.read_raw s net_max_message ≡ (some bs, s')
    → ops.is_stream s' ≡ true
    → IsValid p.m_in_buffer
    → length (contents p.m_in_buffer) + length bs < int32_limit
    → (f : FifoBuffer) × (fetch junk ops p s
        ≡ some (record p { m_client = some s'; m_in_buffer = f }))
      × IsValid f
      × (contents f ≡ contents p.m_in_buffer ++ bs)
unfolding fetch received
fetch_stream junk ops p s s' bs e stream v lim =
    let (f, runs, v', c) =
      push_back_lem junk p.m_in_buffer bs (length bs) v (omega arith)
        (omega (arith, size_eq p.m_in_buffer v)) in
    (
      f,
      ap (λ r. received junk ops p r.0 r.1) e
          ∙ if_not_eq _ (ap (λ t. not t && not (is_frame bs)) stream) (then_eq _ runs refl),
      v',
      c ∙ ap (◌++◌ (contents p.m_in_buffer)) (take_all (length bs) bs (omega arith)),
    )

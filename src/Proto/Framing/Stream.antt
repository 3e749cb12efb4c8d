-- ===== src/Proto/Framing/Stream.antt =====
-- `read_packet` over a stream: one call, for each state of the search.
use networkio.Base.{
  if◌then◌else◌, ℕ, ◌+◌, ◌^◌, ◌<◌, ◌≤◌, ◌≡◌, refl, ap, ◌∙◌, subst, true, false, ◌&&◌, List, [],
  ◌++◌, Option, none, some, then_eq, if_eq, if_not_eq, arith, length, take, drop, leb, ◌==◌, le→leb,
  length-append, append_assoc, take-prefix, drop-prefix,
}
use networkio.Base.Int.{int32_limit}
use networkio.Interfaces.{ClientOps}
use networkio.Memory.Fifo
use networkio.Memory.Fifo.{FifoBuffer, contents}
use networkio.Memory.Fifo.Laws.{IsValid, size-length}
use networkio.Memory.Shared.{Buffer}
use networkio.Proto.Packet.{Packet}
use networkio.Proto.Packet.State.{Reads}
use networkio.Proto.Framing.{
  PktHeader, PacketProto, pkt_header_magic, header_bytes, read_header, fetch, net_max_message,
  read_connected, read_packet,
}
use networkio.Proto.Framing.Header.{frame, header_for}
use networkio.Proto.Framing.Receive.{take_packet_lem, fetch_stream}
use networkio.Proto.Framing.Pending.{
  Pending, searching, Short, Pending-IsValid, Pending-bound, Pending-more, ready, waiting,
}

-- The state behind a call that has changed the header and the buffer.
abbrev pub searched : {S : Type 0} → PacketProto S → PktHeader → FifoBuffer → PacketProto S
searched p h f = record p { m_in_pkt_header = h; m_in_buffer = f }

module _ (junk : ℕ → ℕ) {S : Type 0} (ops : ClientOps S) where
  -- With a header and the whole payload behind it, a call returns the packet.
  connected_delivers :
      (p : PacketProto S) (s : S) (n : ℕ) (f : FifoBuffer)
      → read_header junk p.m_in_pkt_header p.m_in_buffer ≡ some (header_for n, f)
      → IsValid f
      → n ≤ length (contents f)
      → n < 2 ^ 32
      → (packet : Packet) × (buf : Buffer) × (f' : FifoBuffer) × (read_connected junk ops p s
          ≡ some (some packet, searched p (record (header_for n) { magic = 0 }) f'))
        × Reads packet buf 0 [] (take n (contents f))
        × IsValid f'
        × (contents f' ≡ drop n (contents f))
  unfolding read_connected header_for
  connected_delivers p s n f e v le lim =
      let (packet, buf, f', runs, r, v', c) = take_packet_lem junk n f v le lim in
      (
        packet,
        buf,
        f',
        then_eq _ e (
            if_eq _ (le→leb n (Fifo.size f) (omega (arith, size-length f v)))
              (then_eq _ runs refl)),
        r,
        v',
        c,
      )

  -- Otherwise it reads the connection once.
  connected_waits :
      (p : PacketProto S) (s : S) (h : PktHeader) (f : FifoBuffer)
      → read_header junk p.m_in_pkt_header p.m_in_buffer ≡ some (h, f)
      → (h.magic == pkt_header_magic && leb h.pkt_size (Fifo.size f)) ≡ false
      → {p' : PacketProto S} → fetch junk ops (searched p h f) s ≡ some p'
      → read_connected junk ops p s ≡ some (none, p')
  unfolding read_connected
  connected_waits p s h f e short {p'} runs = then_eq _ e (if_not_eq _ short (then_eq _ runs refl))

  connection :
      (p : PacketProto S) {s : S} {out : Option (Option Packet × PacketProto S)}
      → p.m_client ≡ some s
      → ops.is_connected s ≡ true
      → read_connected junk ops p s ≡ out
      → read_packet junk ops p ≡ out
  unfolding read_packet
  connection p {s} c on e =
      ap
        (λ m. elim m [
          | none ↦ some (none, p)
          | some t ↦ if ops.is_connected t then read_connected junk ops p t else some (none, p)
        ])
        c
      ∙ if_eq _ on e

  -- A call over a stream that has one frame at least, and a byte behind its header, returns a
  -- packet of the frame's payload, unread. The bytes behind the frame stay pending, and the
  -- connection is not read.
  pub read_packet_delivers :
      (p : PacketProto S) (s : S) (bs rest : List ℕ)
      → p.m_client ≡ some s
      → ops.is_connected s ≡ true
      → Pending p.m_in_pkt_header p.m_in_buffer (frame bs ++ rest)
      → 0 < length (bs ++ rest)
      → length bs < 2 ^ 32
      → (packet : Packet) × (buf : Buffer) × (h : PktHeader) × (f : FifoBuffer) × (read_packet junk
            ops p
          ≡ some (some packet, searched p h f))
        × Reads packet buf 0 [] bs
        × Pending h f rest
  unfolding read_packet
  read_packet_delivers p s bs rest c on pend some_bytes lim =
      let n = length bs in
      let r =
        ready junk n (bs ++ rest) pend (append_assoc (header_bytes (header_for n)) bs rest)
          some_bytes lim in
      let (packet, buf, f', runs, reads, v, left) =
        connected_delivers p s n r.buffer r.runs r.valid
          (omega (arith, ap length r.left, length-append bs rest)) lim in
      (
        packet,
        buf,
        record (header_for n) { magic = 0 },
        f',
        connection p c on runs,
        subst (λ t. Reads packet buf 0 [] t) (ap (take n) r.left ∙ take-prefix n bs rest refl)
            reads,
        searching refl v (left ∙ ap (drop n) r.left ∙ drop-prefix n bs rest refl),
      )

  -- `read_packet` over a stream, where the pending bytes are less than a header or less than the
  -- frame that they begin, returns no packet. It reads the connection once and keeps what has come
  -- behind the bytes that were pending, as long as both are fewer than 2^31 bytes together.
  pub read_packet_waits :
      (p : PacketProto S) (s s' : S) (q bs : List ℕ)
      → p.m_client ≡ some s
      → ops.is_connected s ≡ true
      → Pending p.m_in_pkt_header p.m_in_buffer q
      → Short q
      → ops.read_raw s net_max_message ≡ (some bs, s')
      → ops.is_stream s' ≡ true
      → length q + length bs < int32_limit
      → (h : PktHeader) × (f : FifoBuffer) × (read_packet junk ops p
          ≡ some (none, record (searched p h f) { m_client = some s' }))
        × Pending h f (q ++ bs)
  unfolding read_packet
  read_packet_waits p s s' q bs c on pend short got stream lim =
      let w = waiting junk pend short in
      let (f, runs, v, left) =
        fetch_stream junk ops (searched p w.header w.buffer) s s' bs got stream
          (Pending-IsValid w.pending) (omega (arith, Pending-bound w.pending)) in
      (
        w.header,
        f,
        connection p c on (connected_waits p s w.header w.buffer w.runs w.short runs),
        Pending-more bs w.pending v left,
      )

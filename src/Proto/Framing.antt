-- ===== src/Proto/Framing.antt =====
-- library/src/proto/packet_proto.cpp and its header: packets in frames, over a connection. Each
-- of the two directions holds its mutex from the first access of its members on, so a call of
-- `read_packet` or of `process` is one step.
pub mod Header
pub mod Receive
pub mod Pending
pub mod Stream
pub mod Reassembly
pub mod Search
pub mod Send
pub mod Order
pub mod Enqueue
mod Tests
pub mod SinkTests
use networkio.Base.{
  ℕ, zero, suc, ◌+◌, ◌-◌, ◌^◌, Bool, true, false, ◌&&◌, List, [], ◌∷◌, ◌++◌, Option, none, some,
  ltb, leb, ◌==◌, if◌then◌else◌, ◌>>=◌, length, take, drop, not,
}
use networkio.Base.Int.{u32, pos}
use networkio.Interfaces.{ClientOps}
use networkio.Hash.{fnv1a}
use networkio.Memory.Block.{memcpy}
use networkio.Memory.Fifo
use networkio.Memory.Fifo.{FifoBuffer}
use networkio.Memory.Shared
use networkio.Memory.Shared.{Buffer}
use networkio.Proto.Wire.{to_bytes, of_bytes}
use networkio.Proto.Packet
use networkio.Proto.Packet.{Packet}

abbrev pub pkt_header_magic : ℕ
pkt_header_magic = 0xff

-- `NET_MAX_MESSAGE` of library/inc/networkio/socket/socket.h
abbrev pub net_max_message : ℕ
net_max_message = 262160 + 0x4000

-- `pkt_header_t`, of 12 bytes
pub record PktHeader : Type 0 where
  pub magic : ℕ
  pub pkt_size : ℕ
  pub hash : ℕ

-- The bytes of its part `header`, which the hash is taken of, and of the whole.
abbrev pub hashed_bytes : ℕ → ℕ → List ℕ
hashed_bytes magic pkt_size = to_bytes 4 magic ++ to_bytes 4 pkt_size

unfoldable pub header_bytes : PktHeader → List ℕ
header_bytes h = hashed_bytes h.magic h.pkt_size ++ to_bytes 4 h.hash

unfoldable pub header_of : List ℕ → PktHeader
header_of bs = record {
  magic = of_bytes (take 4 bs);
  pkt_size = of_bytes (take 4 (drop 4 bs));
  hash = of_bytes (take 4 (drop 8 bs));
}

unfoldable pub is_valid_pkt_header : PktHeader → Bool
is_valid_pkt_header h =
    h.magic == pkt_header_magic && fnv1a (hashed_bytes h.magic h.pkt_size) == h.hash

-- `m_client` is the connection, which is given to the constructor.
pub record PacketProto (S : Type 0) : Type 0 where
  pub m_client : Option S
  pub m_in_pkt_header : PktHeader
  pub m_in_buffer : FifoBuffer
  pub m_out_pkt_data : List Packet
  pub m_out_buffer : Option Buffer
  pub m_out_data_sent : ℕ

-- The constructor sets the magic number alone, and leaves `size` and `hash` as they are.
unfoldable pub init : {S : Type 0} → Option S → ℕ → ℕ → PacketProto S
init client size hash = record {
  m_client = client;
  m_in_pkt_header = record { magic = 0; pkt_size = size; hash = hash };
  m_in_buffer = Fifo.empty;
  m_out_pkt_data = [];
  m_out_buffer = none;
  m_out_data_sent = 0;
}

-- The loop that looks for a header, for the rounds that are left: each takes a byte at least, so
-- as many as there are bytes are enough.
unfoldable pub scan : (ℕ → ℕ) → ℕ → PktHeader → FifoBuffer → Option (PktHeader × FifoBuffer)
scan junk zero h f = if ltb 12 (Fifo.size f) then none else some (h, f)
scan junk (suc rounds) h f =
    if ltb 12 (Fifo.size f)
    then (do
      bs ← Fifo.peek f 12
      let h' = header_of bs
      if is_valid_pkt_header h'
          then (do (n, f') ← Fifo.pop_front junk f (pos 12); some (h', f'))
          else (do
            (n, f') ← Fifo.pop_front junk f (pos 1)
            scan junk rounds (record h' { magic = 0 }) f'))
    else some (h, f)

unfoldable pub read_header : (ℕ → ℕ) → PktHeader → FifoBuffer → Option (PktHeader × FifoBuffer)
read_header junk h f = if h.magic == 0 then scan junk (Fifo.size f) h f else some (h, f)

-- What a datagram has to be: one frame.
unfoldable pub is_frame : List ℕ → Bool
is_frame bs =
    leb 12 (length bs)
    && (is_valid_pkt_header (header_of bs) && (header_of bs).pkt_size == length bs - 12)

-- The packet of `pkt_size` bytes at the front of the buffer.
unfoldable pub take_packet : (ℕ → ℕ) → ℕ → FifoBuffer → Option (Packet × FifoBuffer)
take_packet junk pkt_size f = do
  let buf = Shared.make junk pkt_size
  (n, bytes, f') ← Fifo.pop_front_into junk f buf.m_buffer (pos pkt_size)
  some (Packet.of_buffer (record buf { m_buffer = bytes }) none, f')

-- The frame of the packet that is next, built once.
unfoldable pub build_frame : (ℕ → ℕ) → Packet → Option Buffer
build_frame junk packet = do
  n ← Packet.size packet
  body ← packet.m_buffer
  let out = Shared.make junk (u32 (12 + n))
  let hash = fnv1a (hashed_bytes pkt_header_magic n)
  let header = header_bytes (record { magic = pkt_header_magic; pkt_size = n; hash = hash })
  bytes ← memcpy out.m_buffer 0 header 0 12
  bytes' ← memcpy bytes 12 (Shared.bytes_at body) 0 n
  some (record out { m_buffer = bytes' })

module _ (junk : ℕ → ℕ) {S : Type 0} (ops : ClientOps S) where
  -- What `read_packet` does with the result of `read_raw`, for the connection that it leaves.
  unfoldable pub received : PacketProto S → Option (List ℕ) → S → Option (PacketProto S)
  received p none s = some (record p { m_client = some (ops.close s) })
  received p (some bs) s =
      if not (ops.is_stream s) && not (is_frame bs)
      then some (record p { m_client = some s })
      else (do
        f ← Fifo.push_back junk p.m_in_buffer bs (pos (length bs))
        some (record p { m_client = some s; m_in_buffer = f }))

  -- The last part of `read_packet`: one read of the connection.
  unfoldable pub fetch : PacketProto S → S → Option (PacketProto S)
  fetch p s = let (got, s') = ops.read_raw s net_max_message in received p got s'

  unfoldable pub read_connected : PacketProto S → S → Option (Option Packet × PacketProto S)
  read_connected p s = do
    (h, f) ← read_header junk p.m_in_pkt_header p.m_in_buffer
    let p' = record p { m_in_pkt_header = h; m_in_buffer = f }
    if h.magic == pkt_header_magic && leb h.pkt_size (Fifo.size f)
        then (do
          (packet, f') ← take_packet junk h.pkt_size f
          some (
            some packet,
            record p' { m_in_pkt_header = record h { magic = 0 }; m_in_buffer = f' },
          ))
        else (do p'' ← fetch p' s; some (none, p''))

  unfoldable pub read_packet : PacketProto S → Option (Option Packet × PacketProto S)
  read_packet p = elim p.m_client [
    | none ↦ some (none, p)
    | some s ↦ if ops.is_connected s then read_connected p s else some (none, p)
  ]

  unfoldable pub next_frame_in :
      Option Buffer → List Packet → PacketProto S → Option (PacketProto S)
  next_frame_in (some b) packets p = some p
  next_frame_in none [] p = none
  next_frame_in none (packet ∷ packets) p = do
    b ← build_frame junk packet
    some (record p { m_out_buffer = some b; m_out_data_sent = 0 })

  -- The fetching of the packet that is next, if no frame has been begun.
  unfoldable pub next_frame : PacketProto S → Option (PacketProto S)
  next_frame p = next_frame_in p.m_out_buffer p.m_out_pkt_data p

  -- What has been sent, by the bytes that `write_raw` took.
  unfoldable pub sent_bytes : PacketProto S → Buffer → S → ℕ → PacketProto S
  sent_bytes p b s n =
      let total = u32 (p.m_out_data_sent + n) in
      if total == Shared.size b
      then record p {
        m_client = some s;
        m_out_pkt_data = drop 1 p.m_out_pkt_data;
        m_out_buffer = none;
        m_out_data_sent = 0;
      }
      else if not (ops.is_stream s)
      then record p { m_client = some s; m_out_data_sent = 0 }
      else record p { m_client = some s; m_out_data_sent = total }

  -- What `process` does with the result of `write_raw`, for the connection that it leaves.
  unfoldable pub written : PacketProto S → Buffer → Option ℕ → S → Option (Bool × PacketProto S)
  written p b none s = some (false, record p { m_client = some (ops.close s) })
  written p b (some n) s = some (true, sent_bytes p b s n)

  unfoldable pub send : PacketProto S → S → Option (Bool × PacketProto S)
  send p s = do
    b ← p.m_out_buffer
    let left = u32 (Shared.size b + 2 ^ 32 - p.m_out_data_sent)
    let (took, s') = ops.write_raw s (take left (drop p.m_out_data_sent (Shared.bytes_at b)))
    written p b took s'

  unfoldable pub process_in : List Packet → PacketProto S → S → Option (Bool × PacketProto S)
  process_in [] p s = some (true, p)
  process_in (packet ∷ packets) p s = do p' ← next_frame p; send p' s

  unfoldable pub process_connected : PacketProto S → S → Option (Bool × PacketProto S)
  process_connected p s = process_in p.m_out_pkt_data p s

  -- `process`, which does not ask whether there is a connection.
  unfoldable pub process : PacketProto S → Option (Bool × PacketProto S)
  process p = elim p.m_client [
    | none ↦ none
    | some s ↦ if ops.is_connected s then process_connected p s else some (false, p)
  ]

  unfoldable pub write_packet : PacketProto S → Packet → Option (Bool × PacketProto S)
  write_packet p packet = elim p.m_client [
    | none ↦ some (false, p)
    | some s ↦
        if ops.is_connected s
        then process (record p { m_out_pkt_data = p.m_out_pkt_data ++ packet ∷ [] })
        else some (false, p)
  ]

-- ===== src/Proto/Framing/SinkTests.antt =====
-- The theorems on sending, over a connection that takes five bytes at a time, and the one on the
-- search at concrete bytes.
use networkio.Base.{
  ◌<◌, ℕ, ◌≡◌, refl, ap, true, List, [], ◌∷◌, ◌++◌, none, some, arith, length, take, min, replicate,
}
use networkio.Interfaces.{ClientOps, SinkLaws, StreamWrite}
use networkio.Memory.Block.{live}
use networkio.Memory.Fifo
use networkio.Memory.Fifo.{FifoBuffer, contents}
use networkio.Memory.Shared.{Buffer}
use networkio.Proto.Packet.{Packet}
use networkio.Proto.Packet.State.{Writes}
use networkio.Proto.Framing.{PacketProto, write_packet, scan}
use networkio.Proto.Framing.Header.{frame}
use networkio.Proto.Framing.Reassembly.{frames}
use networkio.Proto.Framing.Search.{FirstHeader, scan_finds_first}
use networkio.Proto.Framing.Send.{idle, Sends}
use networkio.Proto.Framing.Enqueue.{write_packet_keeps_order}

abbrev junk : ℕ → ℕ
junk i = 0xcd

-- The state is the bytes that have been taken.
abbrev pub sink : ClientOps (List ℕ)
sink = record {
  is_connected = λ s. true;
  is_stream = λ s. true;
  read_raw = λ s n. (some [], s);
  write_raw = λ s bs. (some (min 5 (length bs)), s ++ take (min 5 (length bs)) bs);
  close = λ s. s;
}

abbrev pub Taken : List ℕ → List ℕ → Type 0
Taken s bs = s ≡ bs

sink_writes :
    (s taken bs : List ℕ) → 0 < length bs → Taken s taken → StreamWrite sink Taken s taken bs
sink_writes s taken bs h e = record {
  count = min 5 (length bs);
  after = s ++ take (min 5 (length bs)) bs;
  took = refl;
  fits = omega arith;
  takes = ap (λ t. t ++ take (min 5 (length bs)) bs) e;
}

pub sink_laws : SinkLaws sink Taken
sink_laws = record {
  connected = λ s taken t. refl;
  stream = λ s taken t. refl;
  writes = sink_writes;
}

abbrev pub storage : Buffer
storage = record {
  m_buffer = 7 ∷ 8 ∷ 0xcd ∷ 0xcd ∷ [];
  m_begin = 0;
  m_offset = 0;
  m_size = 4;
  block = 0;
}

abbrev pub packet : Packet
packet = record {
  m_buffer = some storage;
  m_read_pointer = some (record { block = 0; offs = 0 });
  m_write_pointer = some (record { block = 0; offs = 2 });
  m_address = replicate 16 0;
}

pub packet-Writes : Writes packet storage 0 (7 ∷ 8 ∷ [])
packet-Writes = record {
  has = refl;
  valid = omega arith;
  begins = refl;
  write_at = refl;
  upper = omega arith;
  payload = refl;
}

abbrev pub queue : PacketProto (List ℕ)
queue = record {
  m_client = some [];
  m_in_pkt_header = record { magic = 0; pkt_size = 0; hash = 0 };
  m_in_buffer = Fifo.empty;
  m_out_pkt_data = packet ∷ [];
  m_out_buffer = none;
  m_out_data_sent = 0;
}

pub queue-Sends : Sends Taken queue (frames ((7 ∷ 8 ∷ []) ∷ []))
queue-Sends = record {
  client = [];
  taken = [];
  out = frames ((7 ∷ 8 ∷ []) ∷ []);
  bss = (7 ∷ 8 ∷ []) ∷ [];
  has = refl;
  written = ((storage, 0, packet-Writes, omega arith), tt);
  queued = idle refl refl;
  takes = refl;
  together = refl;
}

write_packet_keeps_order_example :
    (p : PacketProto (List ℕ)) × (write_packet junk sink queue packet ≡ some (true, p))
    × Sends Taken p (frames ((7 ∷ 8 ∷ []) ∷ []) ++ frame (7 ∷ 8 ∷ []))
write_packet_keeps_order_example =
    write_packet_keeps_order junk sink Taken sink_laws queue (frames ((7 ∷ 8 ∷ []) ∷ []))
      queue-Sends packet-Writes (omega arith)

-- Two stray bytes, a header for two bytes, and one of these.
abbrev stray : FifoBuffer
stray = record {
  m_buffer = live (1 ∷ 255 ∷ 255 ∷ 0 ∷ 0 ∷ 0 ∷ 2 ∷ 0 ∷ 0 ∷ 0 ∷ 164 ∷ 29 ∷ 30 ∷ 108 ∷ 7 ∷ []);
  m_buffer_size = 15;
}

scan_finds_first_example :
    FirstHeader (contents stray) (scan junk 15 (record { magic = 0; pkt_size = 0; hash = 0 }) stray)
unfolding Fifo.size
scan_finds_first_example =
    scan_finds_first junk 15 (record { magic = 0; pkt_size = 0; hash = 0 }) stray (omega arith) refl
      (omega arith)

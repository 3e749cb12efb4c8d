-- ===== src/Proto/Framing/Tests.antt =====
-- The theorems on `packet_proto` over a connection that gives the chunks of a list.
use networkio.Base.{
  ◌≤◌, ℕ, ◌+◌, ◌<◌, ◌^◌, ◌≡◌, refl, sym, ap, true, List, [], ◌∷◌, ◌++◌, Option, none, some, arith,
  length,
}
use networkio.Hash.{mix, fnv1a, fnv1a_from}
use networkio.Interfaces.{ClientOps, StreamLaws, StreamRead}
use networkio.Memory.Block.{live}
use networkio.Memory.Fifo.{FifoBuffer}
use networkio.Memory.Fifo
use networkio.Proto.Wire.{to_bytes}
use networkio.Proto.Framing.{PktHeader, PacketProto, header_bytes, net_max_message, read_packet}
use networkio.Proto.Framing.Header.{frame, header_for}
use networkio.Proto.Framing.Pending.{Pending, searching, few}
use networkio.Proto.Framing.Stream.{searched, read_packet_waits}
use networkio.Proto.Framing.Reassembly.{NoneEmpty, Expects, frames, read_all, stream_reassembles}

abbrev junk : ℕ → ℕ
junk i = 0xcd

abbrev next_chunk : List (List ℕ) → Option (List ℕ) × List (List ℕ)
next_chunk [] = (some [], [])
next_chunk (c ∷ cs) = (some c, cs)

-- The state is the chunks that are to come.
abbrev script : ClientOps (List (List ℕ))
script = record {
  is_connected = λ s. true;
  is_stream = λ s. true;
  read_raw = λ s n. next_chunk s;
  write_raw = λ s bs. (some (length bs), s);
  close = λ s. [];
}

abbrev joined : List (List ℕ) → List ℕ
joined [] = []
joined (c ∷ cs) = c ++ joined cs

abbrev Carries : List (List ℕ) → List ℕ → Type 0
Carries s q = (joined s ≡ q) × NoneEmpty s

script_reads :
    (s : List (List ℕ)) (q : List ℕ) → Carries s q → StreamRead script Carries s net_max_message q
script_reads [] q (e, full) = record {
  chunk = [];
  rest = q;
  after = [];
  got = refl;
  split = refl;
  progress = λ some_q. omega (arith, ap length e);
  carries = (e, full);
}
script_reads (c ∷ cs) q (e, (one, full)) = record {
  chunk = c;
  rest = joined cs;
  after = cs;
  got = refl;
  split = sym e;
  progress = λ some_q. one;
  carries = (refl, full);
}

script_laws : StreamLaws script Carries net_max_message
script_laws = record { connected = λ s q c. refl; stream = λ s q c. refl; reads = script_reads }

-- Two payloads, cut in the middle of the first header and of the second payload.
abbrev sent : List (List ℕ)
sent = (7 ∷ 8 ∷ []) ∷ (9 ∷ 10 ∷ 11 ∷ []) ∷ []

abbrev chunks : List (List ℕ)
chunks =
    (255 ∷ 0 ∷ 0 ∷ 0 ∷ 2 ∷ [])
    ∷ (0 ∷ 0 ∷ 0 ∷ 164 ∷ 29 ∷ 30 ∷ 108 ∷ 7 ∷ 8 ∷ 255 ∷ 0 ∷ 0 ∷ 0 ∷ 3 ∷ 0 ∷ 0 ∷ 0 ∷ 55 ∷ 31 ∷ [])
    ∷ (30 ∷ 109 ∷ 9 ∷ [])
    ∷ (10 ∷ 11 ∷ [])
    ∷ []

chunks_bytes : joined chunks ≡ frames sent
unfolding header_bytes header_for fnv1a fnv1a_from mix to_bytes
chunks_bytes = refl

abbrev start : PacketProto (List (List ℕ))
start = record {
  m_client = some chunks;
  m_in_pkt_header = record { magic = 0; pkt_size = 0; hash = 0 };
  m_in_buffer = Fifo.empty;
  m_out_pkt_data = [];
  m_out_buffer = none;
  m_out_data_sent = 0;
}

start_expects : Expects Carries start sent
start_expects = record {
  client = chunks;
  q = [];
  more = joined chunks;
  has = refl;
  pending = searching refl (omega arith) refl;
  carries = (refl, omega arith);
  bytes = chunks_bytes;
}

stream_reassembles_example :
    (p : PacketProto (List (List ℕ))) × (read_all junk script 40 start ≡ some (sent, p))
    × Expects Carries p []
unfolding start_expects
stream_reassembles_example =
    stream_reassembles junk script Carries script_laws 40 start sent start_expects (omega arith)
      sent_small (omega (arith, calls))
  where
    sent_small : length (frames sent) < 2 ^ 31
    sent_small = omega (arith, ap length chunks_bytes)

    calls : length (joined chunks) + 2 ≤ 40
    calls = omega arith

-- One frame, and a byte of the next.
abbrev one_frame : PacketProto (List (List ℕ))
one_frame = record start {
  m_in_buffer = record {
    m_buffer = live (255 ∷ 0 ∷ 0 ∷ 0 ∷ 2 ∷ 0 ∷ 0 ∷ 0 ∷ 164 ∷ 29 ∷ 30 ∷ 108 ∷ 7 ∷ 8 ∷ 255 ∷ []);
    m_buffer_size = 15;
  };
}

one_frame-Pending :
    Pending one_frame.m_in_pkt_header one_frame.m_in_buffer (frame (7 ∷ 8 ∷ []) ++ 255 ∷ [])
unfolding header_bytes header_for fnv1a fnv1a_from mix to_bytes
one_frame-Pending = searching refl (omega arith) refl

read_packet_waits_example :
    (h : PktHeader) × (f : FifoBuffer) × (read_packet junk script start
      ≡ some (none, record (searched start h f) { m_client = some (next_chunk chunks).1 }))
    × Pending h f (255 ∷ 0 ∷ 0 ∷ 0 ∷ 2 ∷ [])
read_packet_waits_example =
    read_packet_waits junk script start chunks (next_chunk chunks).1 [] (255 ∷ 0 ∷ 0 ∷ 0 ∷ 2 ∷ [])
      refl refl (searching refl (omega arith) refl) (few (omega arith)) refl refl (omega arith)

-- ===== src/Mux/Client/Tests.antt =====
-- The theorems on calls, for a callback that keeps the number of the endpoint's function.
use networkio.Base.{ℕ, ◌≡◌, refl, List, [], ◌∷◌, ◌++◌, Option, some, true, arith, replicate}
use networkio.Base.Int.{pos}
use networkio.Memory.Shared.{Buffer}
use networkio.Proto.Wire.{to_bytes}
use networkio.Proto.Packet.{Packet}
use networkio.Proto.Packet.State.{Reads}
use networkio.Proto.Framing.{PacketProto}
use networkio.Proto.Framing.Header.{frame}
use networkio.Proto.Framing.Reassembly.{frames}
use networkio.Proto.Framing.Send.{Sends}
use networkio.Proto.Framing.SinkTests.{
  sink, Taken, sink_laws, packet, packet-Writes, queue, queue-Sends,
}
use networkio.Mux.Client.{Client, call, dispatch}
use networkio.Mux.Client.Calls.{message, call-Sends, dispatch_delivers}

abbrev junk : ℕ → ℕ
junk i = 0xcd

abbrev run_event : ℕ → Client (List ℕ) → Option (Client (List ℕ))
run_event f c = some c

abbrev run_endpoint : ℕ → Client (List ℕ) → Packet → Option (Client (List ℕ))
run_endpoint f c p = some (record c { m_disconnect_time = f })

abbrev client : Client (List ℕ)
client = record {
  m_proto = some queue;
  m_connection_state = pos 1;
  m_disconnect_time = 0;
  m_sent_tp = 0;
  m_events = λ e. 0;
  m_endpoints = (9, 4) ∷ (300, 5) ∷ [];
}

call-Sends_example :
    (p : PacketProto (List ℕ)) × (call junk sink run_event run_endpoint 55 client 300 packet
      ≡ some (true, record client { m_proto = some p; m_sent_tp = 55 }))
    × Sends Taken p (frames ((7 ∷ 8 ∷ []) ∷ []) ++ frame (message 300 (7 ∷ 8 ∷ [])))
call-Sends_example =
    call-Sends junk sink run_event run_endpoint 55 Taken client queue (frames ((7 ∷ 8 ∷ []) ∷ []))
      300 sink_laws refl refl queue-Sends packet-Writes (omega arith)

-- A message for endpoint 300, in a buffer of its size.
abbrev inbox : Buffer
inbox = record {
  m_buffer = 44 ∷ 1 ∷ 0 ∷ 0 ∷ 7 ∷ 8 ∷ [];
  m_begin = 0;
  m_offset = 0;
  m_size = 6;
  block = 0;
}

abbrev arrived : Packet
arrived = record {
  m_buffer = some inbox;
  m_read_pointer = some (record { block = 0; offs = 0 });
  m_write_pointer = some (record { block = 0; offs = 6 });
  m_address = replicate 16 0;
}

arrived-Reads : Reads arrived inbox 0 [] (message 300 (7 ∷ 8 ∷ []))
unfolding to_bytes
arrived-Reads = record {
  writes = record {
    has = refl;
    valid = omega arith;
    begins = refl;
    write_at = refl;
    upper = omega arith;
    payload = refl;
  };
  read_at = refl;
}

dispatch_delivers_example :
    (p : Packet) × (b : Buffer) × (dispatch junk sink run_event run_endpoint client arrived
      ≡ some (record client { m_disconnect_time = 5 }))
    × Reads p b 4 [] (7 ∷ 8 ∷ [])
dispatch_delivers_example =
    dispatch_delivers junk sink run_event run_endpoint client 300 (7 ∷ 8 ∷ []) arrived-Reads
      (omega arith) (omega arith) (omega arith)

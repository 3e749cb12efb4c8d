-- ===== src/Mux/Server.antt =====
-- library/src/mux/mux_server.cpp and its header: a server of the clients that call its endpoints.
pub mod Laws
use networkio.Base.{
  ℕ, zero, suc, Bool, true, false, ◌&&◌, not, List, [], ◌∷◌, Option, none, some, ◌==◌,
  if◌then◌else◌, ◌>>=◌,
}
use networkio.Base.Int.{ℤ, pos, negsuc}
use networkio.Interfaces.{ClientOps}
use networkio.Memory.Fifo
use networkio.Mux.Client.{
  EventType, connect, disconnect, reconnect, Client, callback, mux_heartbeat, check_heartbeat,
  endpoint as client_endpoint,
}
use networkio.Proto.Framing
use networkio.Proto.Framing.{PacketProto, read_packet}
use networkio.Proto.Packet.{Packet, read, read_bytesleft, set_start}

-- A callback is the number of a function, 0 for none.
pub record Server : Type 0 where
  pub m_events : EventType → ℕ
  pub m_endpoints : List (ℕ × ℕ)

abbrev pub same_event : EventType → EventType → Bool
same_event connect connect = true
same_event disconnect disconnect = true
same_event reconnect reconnect = true
same_event a b = false

unfoldable pub event : Server → EventType → ℕ → Server
event v evt func = record v { m_events = λ e. if same_event e evt then func else v.m_events e }

unfoldable pub endpoint : Server → ℕ → ℕ → Server
endpoint v e func = record v { m_endpoints = (e, func) ∷ v.m_endpoints }

abbrev pub only_disconnect : ℕ → EventType → ℕ
only_disconnect f connect = 0
only_disconnect f disconnect = f
only_disconnect f reconnect = 0

-- `run_event` and `run_endpoint` call a function, `relay` is the function that relays the disconnect
-- event of a client to the server, and `fresh_proto` is a new `packet_proto` of a connection.
module _ (junk : ℕ → ℕ) {S : Type 0} (ops : ClientOps S)
    (run_event : ℕ → Client S → Option (Client S))
    (run_endpoint : ℕ → Client S → Packet → Option (Client S)) (relay : ℕ)
    (fresh_proto : S → PacketProto S) where
  unfoldable pub fire : Server → EventType → Client S → Option (Client S)
  fire v evt c = if v.m_events evt == 0 then some c else run_event (v.m_events evt) c

  -- The client for a connection that has been accepted at the time `now`.
  unfoldable pub accepted : Server → S → ℕ → Option (Client S)
  accepted v s now = fire v connect (record {
    m_proto = some (fresh_proto s);
    m_connection_state = pos 1;
    m_disconnect_time = now;
    m_sent_tp = 0;
    m_events = only_disconnect relay;
    m_endpoints = [];
  })

  -- One packet, once its endpoint has been read.
  unfoldable pub dispatch_to : Server → Client S → ℕ → Packet → Option (Client S)
  dispatch_to v c e p =
      if e == mux_heartbeat
      then some c
      else (read_bytesleft p >>= λ left.
          if left == 0
          then some c
          else if callback v.m_endpoints e == 0
          then some c
          else (set_start p >>= λ p'. run_endpoint (callback v.m_endpoints e) c p'))

  unfoldable pub dispatch : Server → Client S → Packet → Option (Client S)
  dispatch v c packet = read packet 4 >>= λ (e, p). dispatch_to v c e p

  -- The loop over the packets that have arrived: `none` is undefined behaviour, or a loop that still
  -- goes on after so many rounds.
  unfoldable pub receive_all : ℕ → Server → Client S → Option (Client S)
  receive_all zero v c = none
  receive_all (suc rounds) v c = c.m_proto >>= λ p. read_packet junk ops p >>= λ (packet, p').
      let c' = record c { m_proto = some p' } in
      elim packet [ none ↦ some c' | some k ↦ dispatch v c' k >>= λ c''. receive_all rounds v c'' ]

  -- What follows `process` of the protocol.
  unfoldable pub processed : ℕ → Server → Client S → ℕ → Bool → Option (Bool × Client S)
  processed rounds v c now false = fire v disconnect c >>= λ c'. some (false, c')
  processed rounds v c now true =
      receive_all rounds v c >>= λ c'. check_heartbeat junk ops run_event run_endpoint now c'

  unfoldable pub process_client : ℕ → Server → Client S → ℕ → Option (Bool × Client S)
  process_client rounds v c now = elim c.m_proto [
    | none ↦ some (false, c)
    | some p ↦ Framing.process junk ops p >>= λ (ok, p').
        processed rounds v (record c { m_proto = some p' }) now ok
  ]

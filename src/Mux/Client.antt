-- ===== src/Mux/Client.antt =====
-- library/src/mux/mux_client.cpp and its header: a client that calls endpoints of the other side,
-- and has endpoints of its own. `call` and the loop's body of `process` are one step each.
pub mod Calls
mod Tests
use networkio.Base.{
  ℕ, ◌+◌, Bool, true, false, ◌&&◌, not, List, [], ◌∷◌, Option, none, some, ltb, ◌==◌, if◌then◌else◌,
  ◌>>=◌,
}
use networkio.Base.Int.{ℤ, pos, negsuc, is_positive}
use networkio.Interfaces.{ClientOps}
use networkio.Memory.Shared
use networkio.Proto.Packet
use networkio.Proto.Packet.{Packet, read, write, write_data, read_bytesleft, set_start}
use networkio.Proto.Framing.{PacketProto, read_packet, write_packet}

-- `MUX_HEARTBEAT`
abbrev pub mux_heartbeat : ℕ
mux_heartbeat = 0xFFFFFFFF

pub data EventType : Type 0 where
  connect : EventType
  disconnect : EventType
  reconnect : EventType

-- A callback is the number of a function, 0 for none. `m_client` is the connection of `m_proto`,
-- which is null before there is one. Points in time are milliseconds.
pub record Client (S : Type 0) : Type 0 where
  pub m_proto : Option (PacketProto S)
  pub m_connection_state : ℤ
  pub m_disconnect_time : ℕ
  pub m_sent_tp : ℕ
  pub m_events : EventType → ℕ
  pub m_endpoints : List (ℕ × ℕ)

-- The callback that is registered for an endpoint, 0 for none.
abbrev pub callback : List (ℕ × ℕ) → ℕ → ℕ
callback [] endpoint = 0
callback ((e, f) ∷ rest) endpoint = if e == endpoint then f else callback rest endpoint

-- `endpoint`, which overwrites.
unfoldable pub endpoint : {S : Type 0} → Client S → ℕ → ℕ → Client S
endpoint c e func = record c { m_endpoints = (e, func) ∷ c.m_endpoints }

abbrev pub is_one : ℤ → Bool
is_one (pos n) = n == 1
is_one (negsuc n) = false

unfoldable pub is_connected : {S : Type 0} → Client S → Bool
is_connected c = is_one c.m_connection_state

-- The packet that `call` sends: the endpoint, and the bytes of the packet it is given.
unfoldable pub call_packet : (ℕ → ℕ) → ℕ → Packet → Option Packet
call_packet junk endpoint packet = do
  op ← Packet.make junk none
  op' ← write junk op 4 endpoint
  n ← Packet.size packet
  body ← packet.m_buffer
  write_data junk op' (Shared.bytes_at body) n

-- The packet that `check_heartbeat` sends.
unfoldable pub heartbeat_packet : (ℕ → ℕ) → Option Packet
heartbeat_packet junk = do hb ← Packet.make junk none; write junk hb 4 mux_heartbeat

-- `run_event` and `run_endpoint` are the callbacks, which may call the client's methods.
module _ (junk : ℕ → ℕ) {S : Type 0} (ops : ClientOps S)
    (run_event : ℕ → Client S → Option (Client S))
    (run_endpoint : ℕ → Client S → Packet → Option (Client S)) where
  unfoldable pub fire : EventType → Client S → Option (Client S)
  fire evt c = if c.m_events evt == 0 then some c else run_event (c.m_events evt) c

  abbrev pub close_proto : Option (PacketProto S) → Option (Option (PacketProto S))
  close_proto none = none
  close_proto (some p) = elim p.m_client [
    | none ↦ none
    | some s ↦ some (some (record p { m_client = some (ops.close s) }))
  ]

  -- `handle_disconnect` at the time `now`
  unfoldable pub handle_disconnect : ℕ → Client S → Option (Client S)
  handle_disconnect now c =
      if is_positive c.m_connection_state
      then (do
        c' ← fire disconnect c
        p ← close_proto c'.m_proto
        some (record c' { m_proto = p; m_disconnect_time = now; m_connection_state = negsuc 0 }))
      else some (record c { m_connection_state = negsuc 0 })

  -- A packet is written, and the time kept, or the connection given up.
  unfoldable pub write_at : ℕ → Client S → PacketProto S → Packet → Option (Bool × Client S)
  write_at now c p packet = do
    (ok, p') ← write_packet junk ops p packet
    if ok
        then some (true, record c { m_proto = some p'; m_sent_tp = now })
        else (do c' ← handle_disconnect now (record c { m_proto = some p' }); some (false, c'))

  unfoldable pub call_in :
      Option (PacketProto S) → ℕ → Client S → ℕ → Packet → Option (Bool × Client S)
  call_in none now c endpoint packet = some (false, c)
  call_in (some p) now c endpoint packet = do
    op ← call_packet junk endpoint packet
    write_at now c p op

  -- `call` at the time `now`
  unfoldable pub call : ℕ → Client S → ℕ → Packet → Option (Bool × Client S)
  call now c endpoint packet =
      if is_connected c then call_in c.m_proto now c endpoint packet else some (false, c)

  -- `check_heartbeat` at the time `now`: a heartbeat after a second without a packet sent.
  unfoldable pub check_heartbeat : ℕ → Client S → Option (Bool × Client S)
  check_heartbeat now c =
      if ltb (c.m_sent_tp + 1000) now
      then (do hb ← heartbeat_packet junk; p ← c.m_proto; write_at now c p hb)
      else some (true, c)

  -- What `process` does with a packet that has been received, once its endpoint has been read.
  unfoldable pub dispatch_to : Client S → ℕ → Packet → Option (Client S)
  dispatch_to c endpoint p = if endpoint == mux_heartbeat then some c else (do
    left ← read_bytesleft p
    if left == 0
        then some c
        else if callback c.m_endpoints endpoint == 0
        then some c
        else (do p' ← set_start p; run_endpoint (callback c.m_endpoints endpoint) c p'))

  unfoldable pub dispatch : Client S → Packet → Option (Client S)
  dispatch c packet = do (endpoint, p) ← read packet 4; dispatch_to c endpoint p

  -- One round of the loop of `process`, and whether there is another.
  unfoldable pub receive : Client S → Option (Bool × Client S)
  receive c = do
    p ← c.m_proto
    (packet, p') ← read_packet junk ops p
    elim packet [
      | none ↦ some (false, record c { m_proto = some p' })
      | some k ↦ do c' ← dispatch (record c { m_proto = some p' }) k; some (true, c')
    ]

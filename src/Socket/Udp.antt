-- ===== src/Socket/Udp.antt =====
-- library/src/socket/udp.cpp and its header on Linux: a server that keeps a client with a buffer
-- for each address it has heard of, and a client of its own socket. A method of the server holds
-- `m_mutex` from its first access of the lists on, so a method is one step.
pub mod Laws
pub mod Clients
mod Tests
use networkio.Base.{
  ℕ, zero, suc, ◌+◌, ◌-◌, Bool, true, false, ◌&&◌, not, List, [], ◌∷◌, ◌++◌, Option, none, some,
  ltb, leb, ◌==◌, if◌then◌else◌, length, take, ◌>>=◌, get_elem?,
}
use networkio.Base.Int.{ℤ, pos, negsuc, is_positive}
use networkio.Memory.Fifo
use networkio.Memory.Fifo.{FifoBuffer, push_back, pop_front_into}
use networkio.Socket.{Socket, fresh, can_recv, can_send, set_blocking, set_nopipe, install}
use networkio.Socket as Base
use networkio.Socket.System.{Os, inet_dgram, inet_addr, again}
use networkio.Socket.Address.{Sockaddr, inet, sockaddr_cmp}
use networkio.Socket.Tcp.{is_open, port_of}
use networkio.Text.{tokenize}
use networkio.Text.Numbers.{atoi}

-- NET_MAX_MESSAGE
abbrev pub net_max_message : ℕ
net_max_message = 278544

-- An address and a port.
abbrev pub Peer : Type 0
Peer = ℕ × ℕ

-- `m_server` is not null just in the clients that a server makes, which have `m_should_recv` false.
pub record UdpClient : Type 0 where
  pub base : Socket
  pub m_addr : Peer
  pub m_connected : Bool
  pub m_should_recv : Bool
  pub m_buffer : FifoBuffer

-- `m_clients` is the store of the clients, which all live as long as the server; a pointer to one
-- is its position, in `m_new_clients` too.
pub record Server : Type 0 where
  pub base : Socket
  pub m_clients : List (Peer × UdpClient)
  pub m_new_clients : List (Peer × ℕ)

-- `udp_client(server, sockfd, addr)`: the descriptor is the server's own.
unfoldable pub make_client : Option ℕ → Peer → UdpClient
make_client sockfd addr = record {
  base = record fresh { m_sockfd = sockfd };
  m_addr = addr;
  m_connected = true;
  m_should_recv = false;
  m_buffer = Fifo.empty;
}

abbrev pub is_zero : ℤ → Bool
is_zero (pos n) = n == 0
is_zero (negsuc n) = false

unfoldable pub same_peer : Peer → Peer → Bool
same_peer (a, p) (b, q) = is_zero (sockaddr_cmp (inet a p) (inet b q))

-- `udp_client::_recv`
unfoldable pub client_recv : (ℕ → ℕ) → UdpClient → List ℕ → Option UdpClient
client_recv junk c buf = do
  b ← push_back junk c.m_buffer buf (pos (length buf))
  some (record c { m_buffer = b })

-- The loop over `m_clients`: whether the address is new, and the clients.
unfoldable pub deliver :
    (ℕ → ℕ) → List (Peer × UdpClient) → Peer → List ℕ → Option (Bool × List (Peer × UdpClient))
deliver junk [] addr buf = some (true, [])
deliver junk ((a, c) ∷ rest) addr buf = do
  (is_new, rest') ← deliver junk rest addr buf
  c' ← if same_peer a addr then client_recv junk c buf else some c
  some (is_new && not (same_peer a addr), (a, c') ∷ rest')

-- What `_recv` does with a datagram.
unfoldable pub receive : (ℕ → ℕ) → Server → List ℕ → Peer → Option Server
receive junk v buf addr = do
  (is_new, clients) ← deliver junk v.m_clients addr buf
  some (
      if is_new
      then record v {
        m_clients = clients ++ (addr, make_client v.base.m_sockfd addr) ∷ [];
        m_new_clients = v.m_new_clients ++ (addr, length clients) ∷ [];
      }
      else record v { m_clients = clients })

-- One client of the store changed.
abbrev pub replace : List (Peer × UdpClient) → ℕ → UdpClient → List (Peer × UdpClient)
replace [] i c = []
replace ((a, _) ∷ rest) zero c = (a, c) ∷ rest
replace (x ∷ rest) (suc i) c = x ∷ replace rest i c

module _ {W : Type 0} (os : Os W) (junk : ℕ → ℕ) where
  unfoldable pub create_socket : Socket → W → Bool × Socket × W
  create_socket s w =
      if is_open s
      then (false, s, w)
      else (let (fd, w') = os.socket w inet_dgram in install os s fd w')

  unfoldable pub bind : Server → W → ℕ → Bool × Server × W
  bind v w port =
      let (_, s₁, w₁) = create_socket v.base w in
      if is_open s₁
      then (let (_, s₂, w₂) = set_blocking os s₁ w₁ true in
          let (ok, w₃) = os.bind w₂ s₂.m_sockfd (inet_addr 0 port) in
          if ok
          then (let (_, s₃, w₄) = set_blocking os s₂ w₃ s₁.m_blocking in
              (true, record v { base = s₃ }, w₄))
          else (false, record v { base = s₂ }, w₃))
      else (false, record v { base = s₁ }, w₁)

  -- What `_recv` does with the answer of `recvfrom`: a failed call, and a datagram that fills the
  -- block, are dropped.
  unfoldable pub handle : Server → Option (List ℕ × ℕ × ℕ) → Option Server
  handle v none = some v
  handle v (some (buf, addr, port)) =
      if leb net_max_message (length buf) then some v else receive junk v buf (addr, port)

  -- `udp_server::_recv`
  unfoldable pub server_recv : Server → W → Option (Server × W)
  server_recv v w =
      let (ready, w₁) = can_recv os v.base w in
      if is_positive ready
      then (let (rcvd, w₂) = os.recvfrom w₁ v.base.m_sockfd net_max_message in
          handle v rcvd >>= λ v'. some (v', w₂))
      else some (v, w₁)

  -- The front of `m_new_clients`.
  unfoldable pub next_client : Server → Option (Peer × ℕ) × Server
  next_client v = elim v.m_new_clients [
    | [] ↦ (none, v)
    | x ∷ rest ↦ (some x, record v { m_new_clients = rest })
  ]

  unfoldable pub accept : Server → W → Option (Option (Peer × ℕ) × Server × W)
  accept v w =
      if is_open v.base
      then (do (v₁, w₁) ← server_recv v w; let r = next_client v₁; some (r.0, r.1, w₁))
      else some (none, v, w)

  -- `connect` with an address: the empty datagram that stands for a connection.
  unfoldable pub connect_to : UdpClient → W → ℕ → ℕ → Option (Bool × UdpClient × W)
  connect_to c w addr port =
      let (_, s₁, w₁) = set_blocking os c.base w true in
      let (sent, w₂) = os.sendto w₁ s₁.m_sockfd [] (inet_addr addr port) in
      elim sent [
        | none ↦ some (false, record c { base = s₁ }, w₂)
        | some n ↦ do
          let r = set_blocking os s₁ w₂ c.base.m_blocking
          buffer ← Fifo.clear c.m_buffer
          some (
            true,
            record c { base = r.1; m_addr = (addr, port); m_connected = true; m_buffer = buffer },
            r.2,
          )
      ]

  -- `none` is the undefined result of `atoi` out of range, or of the buffer's `clear`.
  unfoldable pub connect_found : UdpClient → W → Option ℕ → Option ℤ → Option (Bool × UdpClient × W)
  connect_found c w none port = some (false, c, w)
  connect_found c w (some addr) none = none
  connect_found c w (some addr) (some port) = connect_to c w addr (port_of port)

  unfoldable pub connect_tokens : UdpClient → W → List (List ℕ) → Option (Bool × UdpClient × W)
  connect_tokens c w (host ∷ port ∷ []) =
      let (found, w₁) = os.resolve w host in connect_found c w₁ found (atoi port)
  connect_tokens c w tokens = some (false, c, w)

  unfoldable pub connect : UdpClient → W → List ℕ → Option (Bool × UdpClient × W)
  connect c w addr =
      let (_, s, w₁) = create_socket c.base w in
      if is_open s
      then connect_tokens (record c { base = s }) w₁ (tokenize addr 58)
      else some (false, record c { base = s }, w₁)

  -- `udp_client::close`
  unfoldable pub close : UdpClient → W → Bool × UdpClient × W
  close c w =
      let (ok, s, w') = Base.close os c.base w in
      (ok, record c { base = s; m_connected = false }, w')

  -- `~udp_client` and then `~udp_socket`, which closes the descriptor whoever made it.
  unfoldable pub destroy : UdpClient → W → W
  destroy c w =
      let (_, s, w₁) = if c.m_should_recv then Base.close os c.base w else (false, c.base, w) in
      let (_, _, w₂) = Base.close os s w₁ in w₂

  -- `read_raw` of a client with a socket of its own: one datagram.
  unfoldable pub read_own : UdpClient → W → ℕ → Option (List ℕ) × W
  read_own c w size =
      let (ready, w₁) = can_recv os c.base w in
      if is_positive ready
      then (let (rcvd, w₂) = os.recvfrom w₁ c.base.m_sockfd size in
          elim rcvd [
            | none ↦
                if not c.base.m_blocking && os.errno w₂ == again then (some [], w₂) else (none, w₂)
            | some (buf, addr, port) ↦
                if leb net_max_message (length buf) then (none, w₂) else (some buf, w₂)
          ])
      else (some [], w₁)

  -- `read_raw` of the server's client at a position into a block: the server receives first.
  unfoldable pub read_accepted : Server → W → ℕ → List ℕ → ℕ → Option (ℕ × List ℕ × Server × W)
  read_accepted v w i dst size = do
    (v₁, w₁) ← server_recv v w
    (addr, c) ← get_elem? v₁.m_clients i
    (n, dst', b) ← pop_front_into junk c.m_buffer dst (pos size)
    some (n, dst', record v₁ { m_clients = replace v₁.m_clients i (record c { m_buffer = b }) }, w₁)

  -- `write_raw`: what `sendto` gives, and 0 where the socket does not take anything now.
  unfoldable pub write_raw : UdpClient → W → List ℕ → Option ℕ × W
  write_raw c w buf =
      let (ready, w₁) = can_send os c.base w in
      if is_positive ready
      then (let (addr, port) = c.m_addr in
          let (sent, w₂) = os.sendto w₁ c.base.m_sockfd buf (inet_addr addr port) in
          elim sent [
            | none ↦
                if not c.base.m_blocking && os.errno w₂ == again then (some 0, w₂) else (none, w₂)
            | some n ↦ (some n, w₂)
          ])
      else (some 0, w₁)

-- ===== src/Socket/Tcp.antt =====
-- library/src/socket/tcp.cpp and its header on Linux: the server and the client of a stream over
-- TCP.
pub mod Rounds
pub mod Outcomes
pub mod Promises
pub mod Stream
pub mod Sink
pub mod Lifecycle
mod Tests
use networkio.Base.{
  ℕ, zero, suc, ◌+◌, ◌-◌, ◌%◌, ◌^◌, Bool, true, false, ◌&&◌, not, List, [], ◌∷◌, ◌++◌, Option, none,
  some, ltb, ◌==◌, if◌then◌else◌, length, drop,
}
use networkio.Base.Int.{ℤ, pos, negsuc, is_positive}
use networkio.Interfaces.{ClientOps}
use networkio.Socket.{
  Socket, Client, fresh, flags, can_recv, can_send, set_blocking, set_nopipe, install,
}
use networkio.Socket as Base
use networkio.Socket.System.{Os, inet_stream, inet_addr, again}
use networkio.Text.{tokenize}
use networkio.Text.Numbers.{stoi}

abbrev pub with_base : Client → Socket → Client
with_base c s = record c { base = s }

abbrev pub is_open : Socket → Bool
is_open s = elim s.m_sockfd [ none ↦ false | some fd ↦ true ]

-- `htons` of an `int`
abbrev pub port_of : ℤ → ℕ
port_of (pos n) = n % 2 ^ 16
port_of (negsuc n) = 2 ^ 16 - 1 - n % 2 ^ 16

-- What one round of a loop of reading or writing finds: the loop stops with what it has, it fails,
-- or it has moved some more.
pub data Round (A W : Type 0) : Type 0 where
  partial : W → Round A W
  failed : W → Round A W
  moved : A → W → Round A W

-- What a loop does with one round, by what the round finds.
abbrev pub read_on :
    {W : Type 0}
    → (Client → W → ℕ → List ℕ → Option (List ℕ) × Client × W)
    → Client
    → ℕ
    → List ℕ
    → Round (List ℕ) W
    → Option (List ℕ) × Client × W
read_on loop c left got (partial w) = (some got, c, w)
read_on loop c left got (failed w) = (none, record c { m_connected = false }, w)
read_on loop c left got (moved bs w) = loop c w (left - length bs) (got ++ bs)

abbrev pub write_on :
    {W : Type 0}
    → (Client → W → List ℕ → ℕ → Option ℕ × Client × W)
    → Client
    → List ℕ
    → ℕ
    → Round ℕ W
    → Option ℕ × Client × W
write_on loop c buf sent (partial w) = (some sent, c, w)
write_on loop c buf sent (failed w) = (none, record c { m_connected = false }, w)
write_on loop c buf sent (moved n w) = loop c w (drop n buf) (sent + n)

-- `tcp_client::is_connected`
unfoldable pub is_connected : Client → Bool
is_connected c = is_open c.base && c.m_connected

module _ {W : Type 0} (os : Os W) where
  unfoldable pub create_socket : Socket → W → Bool × Socket × W
  create_socket s w =
      if is_open s
      then (false, s, w)
      else (let (fd, w') = os.socket w inet_stream in
          install os s fd (elim fd [ none ↦ w' | some k ↦ os.set_nodelay w' (some k) ]))

  -- `bind` and `listen` on an open socket.
  unfoldable pub listen_on : Socket → W → ℕ → Bool × W
  listen_on s w port =
      let (bound, w₁) = os.bind w s.m_sockfd (inet_addr 0 port) in
      if bound then os.listen w₁ s.m_sockfd else (false, w₁)

  unfoldable pub bind : Socket → W → ℕ → Bool × Socket × W
  bind s w port =
      let (_, s₁, w₁) = create_socket s w in
      if is_open s₁
      then (let (_, s₂, w₂) = set_blocking os s₁ w₁ true in
          let (ok, w₃) = listen_on s₂ w₂ port in
          if ok
          then (let (_, s₃, w₄) = set_blocking os s₂ w₃ s₁.m_blocking in (true, s₃, w₄))
          else (false, s₂, w₃))
      else (false, s₁, w₁)

  unfoldable pub close : Client → W → Bool × Client × W
  close c w =
      let (ok, s, w') = Base.close os c.base w in (ok, record { base = s; m_connected = false }, w')

  -- The client that `accept` makes for a descriptor, with the server's options. The destructor of
  -- one that is dropped closes it.
  unfoldable pub accepted : Socket → ℕ → W → Option Client × W
  accepted s fd w =
      let (ok, s₁, w₁) = set_blocking os (record fresh { m_sockfd = some fd }) w s.m_blocking in
      let (ok', s₂) = set_nopipe s₁ s.m_nopipe in
      if ok && ok'
      then (some (record { base = s₂; m_connected = true }), w₁)
      else (let (_, _, w₂) = close (record { base = s₁; m_connected = true }) w₁ in (none, w₂))

  unfoldable pub accept : Socket → W → Option Client × W
  accept s w =
      let (ready, w₁) = can_recv os s w in
      if is_positive ready
      then (let (got, w₂) = os.accept w₁ s.m_sockfd in
          elim got [ none ↦ (none, w₂) | some (fd, addr, port) ↦ accepted s fd w₂ ])
      else (none, w₁)

  -- `::connect` in blocking mode.
  unfoldable pub connect_to : Client → W → ℕ → ℕ → Bool × Client × W
  connect_to c w addr port =
      let (_, s₁, w₁) = set_blocking os c.base w true in
      let (ok, w₂) = os.connect w₁ s₁.m_sockfd (inet_addr addr port) in
      if ok
      then (let (_, s₂, w₃) = set_blocking os s₁ w₂ c.base.m_blocking in
          (true, record { base = s₂; m_connected = true }, w₃))
      else (false, with_base c s₁, w₂)

  -- With the address of the host and the number of the port, if there are any. `none` is the
  -- exception of `std::stoi`.
  unfoldable pub connect_found : Client → W → Option ℕ → Option ℤ → Option (Bool × Client × W)
  connect_found c w none port = some (false, c, w)
  connect_found c w (some addr) none = none
  connect_found c w (some addr) (some port) = some (connect_to c w addr (port_of port))

  -- The tokens of the address: a host and a port.
  unfoldable pub connect_tokens : Client → W → List (List ℕ) → Option (Bool × Client × W)
  connect_tokens c w (host ∷ port ∷ []) =
      let (found, w₁) = os.resolve w host in connect_found c w₁ found (stoi port)
  connect_tokens c w tokens = some (false, c, w)

  unfoldable pub connect : Client → W → List ℕ → Option (Bool × Client × W)
  connect c w addr =
      let (_, s, w₁) = create_socket c.base w in
      if is_open s
      then connect_tokens (with_base c s) w₁ (tokenize addr 58)
      else some (false, with_base c s, w₁)

  -- A failure in mode `blocking`, or a count of 0: only EAGAIN on a socket that does not block, and
  -- a count of 0 without an error, leave the connection up.
  abbrev pub after_none : {A : Type 0} → Bool → W → Round A W
  after_none blocking w = if not blocking && os.errno w == again then partial w else failed w

  abbrev pub after_zero : {A : Type 0} → W → Round A W
  after_zero w = if os.errno w == 0 then partial w else failed w

  -- One round of the loop of `read_raw`, for the bytes that are left to read.
  unfoldable pub read_round : Socket → W → ℕ → Round (List ℕ) W
  read_round s w left =
      let (ready, w₁) = can_recv os s w in
      if is_positive ready
      then (let (rcvd, w₂) = os.recv w₁ s.m_sockfd left (flags s) in
          elim rcvd [
            | none ↦ after_none s.m_blocking w₂
            | some bs ↦ if length bs == 0 then after_zero w₂ else moved bs w₂
          ])
      else partial w₁

  -- The loop, for the rounds that are left, of which each reads a byte at least.
  unfoldable pub read_loop : ℕ → Client → W → ℕ → List ℕ → Option (List ℕ) × Client × W
  read_loop zero c w left got = (some got, c, w)
  read_loop (suc rounds) c w left got = elim (left == 0) [
    | true ↦ (some got, c, w)
    | false ↦ read_on (read_loop rounds) c left got (read_round c.base w left)
  ]

  unfoldable pub read_raw : Client → W → ℕ → Option (List ℕ) × Client × W
  read_raw c w len = if is_connected c then read_loop len c w len [] else (none, c, w)

  -- One round of the loop of `write_raw`, for the bytes that are left to write.
  unfoldable pub write_round : Socket → W → List ℕ → Round ℕ W
  write_round s w buf =
      let (ready, w₁) = can_send os s w in
      if is_positive ready
      then (let (sent, w₂) = os.send w₁ s.m_sockfd buf (flags s) in
          elim sent [
            | none ↦ after_none s.m_blocking w₂
            | some n ↦ if n == 0 then after_zero w₂ else moved n w₂
          ])
      else partial w₁

  unfoldable pub write_loop : ℕ → Client → W → List ℕ → ℕ → Option ℕ × Client × W
  write_loop zero c w buf sent = (some sent, c, w)
  write_loop (suc rounds) c w buf sent = elim (length buf == 0) [
    | true ↦ (some sent, c, w)
    | false ↦ write_on (write_loop rounds) c buf sent (write_round c.base w buf)
  ]

  unfoldable pub write_raw : Client → W → List ℕ → Option ℕ × Client × W
  write_raw c w buf = if is_connected c then write_loop (length buf) c w buf 0 else (none, c, w)

  -- `write_raw_blocked`, which polls until the socket takes bytes: `none` is more polling than the
  -- rounds allow.
  unfoldable pub write_raw_blocked : ℕ → Client → W → List ℕ → Option (Bool × Client × W)
  write_raw_blocked zero c w buf = if length buf == 0 then some (true, c, w) else none
  write_raw_blocked (suc rounds) c w buf = elim (length buf == 0) [
    | true ↦ some (true, c, w)
    | false ↦
        let (ready, w₁) = can_send os c.base w in
        elim (is_positive ready) [
          | false ↦ write_raw_blocked rounds c w₁ buf
          | true ↦
              let (sent, w₂) = os.send w₁ c.base.m_sockfd buf (flags c.base) in
              elim sent [
                | none ↦ some (false, record c { m_connected = false }, w₂)
                | some zero ↦ some (false, record c { m_connected = false }, w₂)
                | some (suc n) ↦ write_raw_blocked rounds c w₂ (drop (suc n) buf)
              ]
        ]
  ]

  -- The interface that the protocols use.
  unfoldable pub ops : ClientOps (Client × W)
  ops = record {
    is_connected = λ (c, w). is_connected c;
    is_stream = λ (c, w). true;
    read_raw = λ (c, w) len. let (r, c', w') = read_raw c w len in (r, (c', w'));
    write_raw = λ (c, w) bs. let (r, c', w') = write_raw c w bs in (r, (c', w'));
    close = λ (c, w). let (_, c', w') = close c w in (c', w');
  }

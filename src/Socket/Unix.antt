-- ===== src/Socket/Unix.antt =====
-- library/src/socket/unix.cpp and its header: the server and the client of a stream over a Unix
-- domain socket, which read and write with one call of the system.
pub mod Laws
pub mod Stream
mod Tests
use networkio.Base.{
  ℕ, zero, suc, ◌+◌, ◌-◌, Bool, true, false, ◌&&◌, not, List, [], ◌∷◌, ◌++◌, Option, none, some,
  ltb, ◌==◌, if◌then◌else◌, length, take,
}
use networkio.Base.Int.{ℤ, pos, negsuc, is_positive}
use networkio.Interfaces.{ClientOps}
use networkio.Socket.{
  Socket, Client, fresh, flags, can_recv, can_send, set_blocking, set_nopipe, install,
}
use networkio.Socket as Base
use networkio.Socket.System.{Os, unix_stream, unix_path, again}
use networkio.Socket.Tcp.{is_open, with_base, Round, partial, failed, moved}
use networkio.Text.{tokenize}
use networkio.Text.Numbers.{to_string}

-- `m_path` is the server's file.
pub record Server : Type 0 where
  pub base : Socket
  pub m_path : List ℕ

-- "/tmp/networkio_" and ".sock" around a name
abbrev pub path_prefix : List ℕ
path_prefix =
    47 ∷ 116 ∷ 109 ∷ 112 ∷ 47 ∷ 110 ∷ 101 ∷ 116 ∷ 119 ∷ 111 ∷ 114 ∷ 107 ∷ 105 ∷ 111 ∷ 95 ∷ []

abbrev pub path_suffix : List ℕ
path_suffix = 46 ∷ 115 ∷ 111 ∷ 99 ∷ 107 ∷ []

unfoldable pub socket_path : List ℕ → List ℕ
socket_path name = path_prefix ++ (name ++ path_suffix)

-- What `strncpy` puts of a path in `sun_path`, which has 108 bytes with its NUL.
unfoldable pub sun_path : List ℕ → List ℕ
sun_path path = take 107 path

-- `unix_client::is_connected`, which does not look at the descriptor.
unfoldable pub is_connected : Client → Bool
is_connected c = c.m_connected

module _ {W : Type 0} (os : Os W) where
  -- `unix_server::close`
  unfoldable pub close_server : Server → W → Bool × Server × W
  close_server v w =
      let (_, s, w') = Base.close os v.base w in
      (true, record v { base = s }, os.unlink w' v.m_path)

  -- `unix_client::close`
  unfoldable pub close : Client → W → Bool × Client × W
  close c w =
      let (ok, s, w') = Base.close os c.base w in (ok, record { base = s; m_connected = false }, w')

  unfoldable pub new_socket : Socket → W → Bool × Socket × W
  new_socket s w = let (fd, w') = os.socket w unix_stream in install os s fd w'

  -- `create_socket`, which closes an open socket by the virtual `close`: of a client, and of a
  -- server.
  unfoldable pub create_client : Client → W → Bool × Client × W
  create_client c w =
      let (_, c₁, w₁) = if is_open c.base then close c w else (false, c, w) in
      let (ok, s, w₂) = new_socket c₁.base w₁ in (ok, with_base c₁ s, w₂)

  unfoldable pub create_server : Server → W → Bool × Server × W
  create_server v w =
      let (_, v₁, w₁) = if is_open v.base then close_server v w else (false, v, w) in
      let (ok, s, w₂) = new_socket v₁.base w₁ in (ok, record v₁ { base = s }, w₂)

  -- `bind` and `listen` on an open socket.
  unfoldable pub listen_on : Socket → W → List ℕ → Bool × W
  listen_on s w path =
      let (bound, w₁) = os.bind w s.m_sockfd (unix_path (sun_path path)) in
      if bound then os.listen w₁ s.m_sockfd else (false, w₁)

  unfoldable pub bind : Server → W → ℕ → Bool × Server × W
  bind v w port =
      let (_, v₁, w₁) = create_server v w in
      let s₁ = v₁.base in
      if is_open s₁
      then (let path = socket_path (to_string port) in
          let (_, s₂, w₂) = set_blocking os s₁ (os.unlink w₁ path) true in
          let (ok, w₃) = listen_on s₂ w₂ path in
          if ok
          then (let (_, s₃, w₄) = set_blocking os s₂ w₃ s₁.m_blocking in
              (true, record { base = s₃; m_path = path }, w₄))
          else (false, record { base = s₂; m_path = path }, w₃))
      else (false, v₁, w₁)

  -- The client that `accept` makes for a descriptor. The destructor of one that is dropped closes
  -- it.
  unfoldable pub accepted : Socket → ℕ → W → Option Client × W
  accepted s fd w =
      let (ok, s₁, w₁) = set_blocking os (record fresh { m_sockfd = some fd }) w s.m_blocking in
      let (ok', s₂) = set_nopipe s₁ s.m_nopipe in
      if ok && ok'
      then (some (record { base = s₂; m_connected = true }), w₁)
      else (let (_, _, w₂) = close (record { base = s₁; m_connected = true }) w₁ in (none, w₂))

  unfoldable pub accept : Server → W → Option Client × W
  accept v w =
      let (ready, w₁) = can_recv os v.base w in
      if is_positive ready
      then (let (got, w₂) = os.accept w₁ v.base.m_sockfd in
          elim got [ none ↦ (none, w₂) | some (fd, addr, port) ↦ accepted v.base fd w₂ ])
      else (none, w₁)

  -- `connect` on an open socket, which is closed where the connection fails.
  unfoldable pub connect_to : Client → W → List ℕ → Bool × Client × W
  connect_to c w path =
      let (_, s₁, w₁) = set_blocking os c.base w true in
      let (ok, w₂) = os.connect w₁ s₁.m_sockfd (unix_path (sun_path path)) in
      if ok
      then (let (_, s₂, w₃) = set_blocking os s₁ w₂ c.base.m_blocking in
          (true, record { base = s₂; m_connected = true }, w₃))
      else (let (_, c', w₃) = close (with_base c s₁) w₂ in (false, c', w₃))

  -- The tokens of the address, of which the first is not looked at.
  unfoldable pub connect_tokens : Client → W → List (List ℕ) → Bool × Client × W
  connect_tokens c w (host ∷ name ∷ []) = connect_to c w (socket_path name)
  connect_tokens c w tokens = (false, c, w)

  unfoldable pub connect : Client → W → List ℕ → Bool × Client × W
  connect c w addr =
      let (_, c₁, w₁) = create_client c w in
      if is_open c₁.base then connect_tokens c₁ w₁ (tokenize addr 58) else (false, c₁, w₁)

  -- A failed call: EAGAIN on a socket that does not block gives 0, all else the connection up.
  abbrev pub after_none : {A : Type 0} → A → Client → W → Option A × Client × W
  after_none zero_of c w =
      if not c.base.m_blocking && os.errno w == again
      then (some zero_of, c, w)
      else (none, record c { m_connected = false }, w)

  unfoldable pub read_raw : Client → W → ℕ → Option (List ℕ) × Client × W
  read_raw c w size =
      if is_connected c
      then (let (ready, w₁) = can_recv os c.base w in
          if is_positive ready
          then (let (rcvd, w₂) = os.recv w₁ c.base.m_sockfd size (flags c.base) in
              elim rcvd [
                | none ↦ after_none [] c w₂
                | some bs ↦ if length bs == 0 then (none, c, w₂) else (some bs, c, w₂)
              ])
          else (some [], c, w₁))
      else (none, c, w)

  unfoldable pub write_raw : Client → W → List ℕ → Option ℕ × Client × W
  write_raw c w buffer =
      if is_connected c
      then (let (ready, w₁) = can_send os c.base w in
          if is_positive ready
          then (let (sent, w₂) = os.send w₁ c.base.m_sockfd buffer (flags c.base) in
              elim sent [
                | none ↦ after_none 0 c w₂
                | some n ↦ if n == 0 then (none, c, w₂) else (some n, c, w₂)
              ])
          else (some 0, c, w₁))
      else (none, c, w)

  -- The interface that the protocols use.
  unfoldable pub ops : ClientOps (Client × W)
  ops = record {
    is_connected = λ (c, w). is_connected c;
    is_stream = λ (c, w). true;
    read_raw = λ (c, w) len. let (r, c', w') = read_raw c w len in (r, (c', w'));
    write_raw = λ (c, w) bs. let (r, c', w') = write_raw c w bs in (r, (c', w'));
    close = λ (c, w). let (_, c', w') = close c w in (c', w');
  }

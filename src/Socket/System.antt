-- ===== src/Socket/System.antt =====
-- The operating system's calls that library/src/socket makes, as a parameter: `W` is the state of the
-- system and of the peers. A descriptor is `none` for INVALID_SOCKET, a failed call gives `none` or
-- `false`.
use networkio.Base.{ℕ, Bool, List, Option}

pub data Domain : Type 0 where
  inet_stream : Domain
  inet_dgram : Domain
  unix_stream : Domain

-- `sockaddr_in` in host order, and the path of a `sockaddr_un`.
pub data Address : Type 0 where
  inet_addr : ℕ → ℕ → Address
  unix_path : List ℕ → Address

pub record Os (W : Type 0) : Type 0 where
  pub socket : W → Domain → Option ℕ × W
  pub set_nodelay : W → Option ℕ → W
  -- the two calls of `fcntl` that set O_NONBLOCK or clear it
  pub set_nonblock : W → Option ℕ → Bool → Bool × W
  pub bind : W → Option ℕ → Address → Bool × W
  pub listen : W → Option ℕ → Bool × W
  pub accept : W → Option ℕ → Option (ℕ × ℕ × ℕ) × W
  pub connect : W → Option ℕ → Address → Bool × W
  -- `select` on one descriptor with no waiting: whether the descriptor is in the set afterwards
  pub select_read : W → Option ℕ → Option Bool × W
  pub select_write : W → Option ℕ → Option Bool × W
  -- `recv` of at most a number of bytes with flags
  pub recv : W → Option ℕ → ℕ → ℕ → Option (List ℕ) × W
  pub send : W → Option ℕ → List ℕ → ℕ → Option ℕ × W
  pub recvfrom : W → Option ℕ → ℕ → Option (List ℕ × ℕ × ℕ) × W
  pub sendto : W → Option ℕ → List ℕ → Address → Option ℕ × W
  pub errno : W → ℕ
  pub shutdown : W → ℕ → W
  pub close : W → ℕ → W
  pub unlink : W → List ℕ → W
  -- `gethostbyname_safe`: the address of a host
  pub resolve : W → List ℕ → Option ℕ × W

-- EAGAIN, which is EWOULDBLOCK too
abbrev pub again : ℕ
again = 11

-- MSG_NOSIGNAL
abbrev pub msg_nosignal : ℕ
msg_nosignal = 0x4000

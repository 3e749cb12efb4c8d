-- ===== src/Socket.antt =====
-- library/src/socket/socket.cpp and library/inc/networkio/socket/socket.h on Linux: the descriptor
-- that every socket has, and its options. The children model the kinds of sockets.
pub mod System
pub mod Address
pub mod Tcp
pub mod Unix
pub mod Udp
pub mod Concurrent
pub mod Pipe
use networkio.Base.{ℕ, ◌≡◌, Bool, true, false, not, Option, none, some, if◌then◌else◌}
use networkio.Base.Int.{ℤ, pos, negsuc}
use networkio.Socket.System.{Os, msg_nosignal}

pub record Socket : Type 0 where
  pub m_sockfd : Option ℕ
  pub m_blocking : Bool
  pub m_nopipe : Bool

abbrev pub fresh : Socket
fresh = record { m_sockfd = none; m_blocking = true; m_nopipe = false }

-- `tcp_client` and `unix_client` have these members.
pub record Client : Type 0 where
  pub base : Socket
  pub m_connected : Bool

-- What `select` and FD_ISSET say.
abbrev pub selected : Option Bool → ℤ
selected none = negsuc 0
selected (some true) = pos 1
selected (some false) = pos 0

-- `_flags`
unfoldable pub flags : Socket → ℕ
flags s = if s.m_nopipe then msg_nosignal else 0

unfoldable pub set_nopipe : Socket → Bool → Bool × Socket
set_nopipe s nopipe = (true, record s { m_nopipe = nopipe })

module _ {W : Type 0} (os : Os W) where
  unfoldable pub can_recv : Socket → W → ℤ × W
  can_recv s w = elim s.m_sockfd [
    | none ↦ (negsuc 0, w)
    | some fd ↦ let (r, w') = os.select_read w (some fd) in (selected r, w')
  ]

  unfoldable pub can_send : Socket → W → ℤ × W
  can_send s w = elim s.m_sockfd [
    | none ↦ (negsuc 0, w)
    | some fd ↦ let (r, w') = os.select_write w (some fd) in (selected r, w')
  ]

  unfoldable pub set_blocking : Socket → W → Bool → Bool × Socket × W
  set_blocking s w blocking = elim s.m_sockfd [
    | none ↦ (true, record s { m_blocking = blocking }, w)
    | some fd ↦
        let (ok, w') = os.set_nonblock w (some fd) (not blocking) in
        if ok then (true, record s { m_blocking = blocking }, w') else (false, s, w')
  ]

  unfoldable pub close : Socket → W → Bool × Socket × W
  close s w = elim s.m_sockfd [
    | none ↦ (false, s, w)
    | some fd ↦ (true, record s { m_sockfd = none }, os.close (os.shutdown w fd) fd)
  ]

  -- What the three `create_socket` do with the descriptor they get: `tune` sets its own options.
  unfoldable pub install : Socket → Option ℕ → W → Bool × Socket × W
  install s none w = (false, record s { m_sockfd = none }, w)
  install s (some fd) w =
      let (_, s', w') = set_blocking (record s { m_sockfd = some fd }) w s.m_blocking in
      let (_, s'') = set_nopipe s' s'.m_nopipe in (true, s'', w')

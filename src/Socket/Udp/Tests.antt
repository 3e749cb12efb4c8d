-- ===== src/Socket/Udp/Tests.antt =====
-- The theorems of the UDP server at a server with one client.
use networkio.Base.{ℕ, ◌≡◌, refl, true, false, [], ◌∷◌, some, arith}
use networkio.Memory.Block.{live}
use networkio.Socket.{can_recv, fresh}
use networkio.Socket.Pipe.{Pipe, pipe}
use networkio.Socket.Udp.{Peer, UdpClient, Server, receive, server_recv, read_accepted}
use networkio.Socket.Udp.Laws.{IsValid, view, receive-IsValid}
use networkio.Socket.Udp.Clients.{read_accepted_takes}

abbrev junk : ℕ → ℕ
junk i = 0xcd

abbrev first : Peer
first = (1, 80)

abbrev second : Peer
second = (2, 81)

-- Three bytes wait for the first peer.
abbrev udp_client : UdpClient
udp_client = record {
  base = record fresh { m_sockfd = some 3 };
  m_addr = first;
  m_connected = true;
  m_should_recv = false;
  m_buffer = record { m_buffer = live (1 ∷ 2 ∷ 3 ∷ []); m_buffer_size = 3 };
}

abbrev udp_server : Server
udp_server = record {
  base = record fresh { m_sockfd = some 3 };
  m_clients = (first, udp_client) ∷ [];
  m_new_clients = [];
}

udp_server-IsValid : IsValid udp_server
udp_server-IsValid = omega arith

receive-IsValid_example :
    (v' : Server) × (receive junk udp_server (7 ∷ []) second ≡ some v')
    × IsValid v'
    × (view v'.m_clients ≡ (first, 1 ∷ 2 ∷ 3 ∷ []) ∷ (second, []) ∷ [])
    × (v'.m_new_clients ≡ (second, 1) ∷ [])
receive-IsValid_example =
    receive-IsValid junk udp_server (7 ∷ []) second udp_server-IsValid (omega arith)

-- Nothing has arrived.
abbrev quiet : Pipe
quiet = record { arrived = []; taken = [] }

quiet_recv : server_recv pipe junk udp_server quiet ≡ some (udp_server, quiet)
unfolding server_recv can_recv
quiet_recv = refl

read_accepted_takes_example :
    (v' : Server) × (read_accepted pipe junk udp_server quiet 0 (0 ∷ 0 ∷ []) 2
      ≡ some (2, 1 ∷ 2 ∷ [], v', quiet))
    × (view v'.m_clients ≡ (first, 3 ∷ []) ∷ [])
    × (v'.m_new_clients ≡ [])
read_accepted_takes_example =
    read_accepted_takes pipe junk udp_server udp_server quiet quiet 0 first (1 ∷ 2 ∷ 3 ∷ [])
      (0 ∷ 0 ∷ []) 2 quiet_recv udp_server-IsValid refl (omega arith)

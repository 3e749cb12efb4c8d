-- ===== src/Socket/Udp/Clients.antt =====
-- The clients of a UDP server of library/src/socket/udp.cpp once they are accepted: what they read, and
-- what closing one does.
use networkio.Base.{
  ℕ, zero, suc, ◌≤◌, ◌≡◌, refl, ap, ap₂, ◌∙◌, true, false, List, [], ◌∷◌, ◌++◌, some, length, arith,
  then_eq, take, drop, min, get_elem?,
}
use networkio.Memory.Fifo.{contents}
use networkio.Memory.Fifo.Laws.{pop_front_into_lem, size_eq}
use networkio.Memory.Fifo.Laws as FifoLaws
use networkio.Socket as Base
use networkio.Socket.System.{Os}
use networkio.Socket.Udp.{
  destroy, Peer, UdpClient, Server, make_client, server_recv, read_accepted, replace, close,
}
use networkio.Socket.Udp.Laws.{view, AllValid, IsValid}

-- The waiting bytes with those of one client replaced.
abbrev pub set_at : List (Peer × List ℕ) → ℕ → List ℕ → List (Peer × List ℕ)
set_at [] i q = []
set_at ((a, _) ∷ rest) zero q = (a, q) ∷ rest
set_at (x ∷ rest) (suc i) q = x ∷ set_at rest i q

view-replace :
    (l : List (Peer × UdpClient)) (i : ℕ) (c : UdpClient)
    → view (replace l i c) ≡ set_at (view l) i (contents c.m_buffer)
view-replace [] i c = refl
view-replace ((a, d) ∷ l) zero c = refl
view-replace ((a, d) ∷ l) (suc i) c = ap (◌∷◌ (a, contents d.m_buffer)) (view-replace l i c)

-- The client at a position of which the view shows the waiting bytes.
client_at :
    (l : List (Peer × UdpClient)) (i : ℕ) (addr : Peer) (q : List ℕ)
    → AllValid l
    → get_elem? (view l) i ≡ some (addr, q)
    → (c : UdpClient) × (get_elem? l i ≡ some (addr, c))
      × FifoLaws.IsValid c.m_buffer
      × (contents c.m_buffer ≡ q)
client_at [] i addr q v e = absurd (cc e)
client_at ((a, c) ∷ l) zero addr q (h, v) e = (c, cc e, h, cc e)
client_at ((a, c) ∷ l) (suc i) addr q (h, v) e = client_at l i addr q v e

module _ {W : Type 0} (os : Os W) (junk : ℕ → ℕ) where
  -- `read_raw` of an accepted client lets the server receive, and then gives the bytes that wait for
  -- the client from the front on, as many as asked for or all; the rest stay, and the bytes of the
  -- other clients are what they were.
  pub read_accepted_takes :
      (v v₁ : Server) (w w₁ : W) (i : ℕ) (addr : Peer) (q dst : List ℕ) (size : ℕ)
      → server_recv os junk v w ≡ some (v₁, w₁)
      → IsValid v₁
      → get_elem? (view v₁.m_clients) i ≡ some (addr, q)
      → size ≤ length dst
      → (v' : Server) × (read_accepted os junk v w i dst size
          ≡ some (min size (length q), take size q ++ drop (min size (length q)) dst, v', w₁))
        × (view v'.m_clients ≡ set_at (view v₁.m_clients) i (drop size q))
        × (v'.m_new_clients ≡ v₁.m_new_clients)
  unfolding read_accepted
  read_accepted_takes v v₁ w w₁ i addr q dst size e (d, a) at h =
      let (c, has, valid, same) = client_at v₁.m_clients i addr q a at in
      let (b, popped, valid', rest) = pop_front_into_lem junk c.m_buffer dst size valid h in
      let l : c.m_buffer.m_buffer_size ≡ length q = size_eq c.m_buffer valid ∙ ap length same in
      let c' = record c { m_buffer = b } in
      let v' = record v₁ { m_clients = replace v₁.m_clients i c' } in
      (
        v',
        then_eq _ e (
            then_eq _ has (
              then_eq _ popped (
                ap₂ (λ n t. some (n, t ++ drop n dst, v', w₁)) (ap (min size) l)
                  (ap (take size) same)))),
        view-replace v₁.m_clients i c'
            ∙ ap (set_at (view v₁.m_clients) i) (rest ∙ ap (drop size) same),
        refl,
      )

  -- The `close` of a client that the server made shuts the server's own descriptor down and closes
  -- it, while the server keeps it: so the other clients of the server are cut off as well. The
  -- destructors do the same.
  pub close_shares :
      (v : Server) (fd : ℕ) (addr : Peer) (w : W)
      → v.base.m_sockfd ≡ some fd
      → let (ok, c', w') = close os junk (make_client v.base.m_sockfd addr) w in
        (ok ≡ true)
        × (w' ≡ os.close (os.shutdown w fd) fd)
        × (c'.m_connected ≡ false)
        × (destroy os junk (make_client v.base.m_sockfd addr) w ≡ os.close (os.shutdown w fd) fd)
  unfolding close destroy Base.close make_client
  close_shares v fd addr w e = ground (arith, e)

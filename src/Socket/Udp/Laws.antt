-- ===== src/Socket/Udp/Laws.antt =====
-- The clients of the UDP server of library/src/socket/udp.cpp, seen as the bytes that are waiting for
-- each address.
use networkio.Base.{
  ℕ, suc, ◌+◌, ◌<◌, ◌≡◌, refl, ap, ◌∙◌, sym, subst, Bool, true, false, ◌&&◌, not, List, [], ◌∷◌,
  ◌++◌, some, ◌==◌, if◌then◌else◌, length, arith, then_eq, Bool-cases, inl, inr, if_eq, if_not_eq,
  take_all,
}
use networkio.Base.Int.{int32_limit}
use networkio.Memory.Fifo.{contents}
use networkio.Memory.Fifo.Laws.{push_back_lem}
use networkio.Memory.Fifo.Laws as FifoLaws
use networkio.Socket.Address.{sockaddr_cmp, same_family_cmp}
use networkio.Socket.Udp.{
  Peer, UdpClient, Server, make_client, same_peer, client_recv, deliver, receive,
}

-- Equal numbers, and equal ports.
abbrev pub is_peer : Peer → Peer → Bool
is_peer (a, p) (b, q) = a == b && p == q

same_peer_eq : (x y : Peer) → same_peer x y ≡ is_peer x y
unfolding same_peer sockaddr_cmp same_family_cmp
same_peer_eq (a, p) (b, q) = ground arith

is_peer_sym : (x y : Peer) → is_peer x y ≡ is_peer y x
is_peer_sym (a, p) (b, q) = ground arith

-- What the clients hold, by their addresses.
abbrev pub view : List (Peer × UdpClient) → List (Peer × List ℕ)
view [] = []
view ((a, c) ∷ rest) = (a, contents c.m_buffer) ∷ view rest

-- A datagram goes behind the bytes that wait for its address, and one of a new address opens an
-- empty line of waiting bytes at the end.
abbrev pub append_to : List (Peer × List ℕ) → Peer → List ℕ → List (Peer × List ℕ)
append_to [] addr buf = (addr, []) ∷ []
append_to ((a, q) ∷ rest) addr buf =
    if is_peer a addr then (a, q ++ buf) ∷ rest else (a, q) ∷ append_to rest addr buf

abbrev pub is_known : List (Peer × List ℕ) → Peer → Bool
is_known [] addr = false
is_known ((a, q) ∷ rest) addr = if is_peer a addr then true else is_known rest addr

abbrev pub keys : List (Peer × UdpClient) → List Peer
keys [] = []
keys ((a, c) ∷ rest) = a ∷ keys rest

abbrev pub Absent : Peer → List Peer → Type 0
Absent x [] = Unit {0}
Absent x (a ∷ rest) = (is_peer a x ≡ false) × Absent x rest

abbrev pub IsDistinct : List Peer → Type 0
IsDistinct [] = Unit {0}
IsDistinct (a ∷ rest) = Absent a rest × IsDistinct rest

abbrev pub AllValid : List (Peer × UdpClient) → Type 0
AllValid [] = Unit {0}
AllValid ((a, c) ∷ rest) = FifoLaws.IsValid c.m_buffer × AllValid rest

-- Each buffer can take some more bytes.
abbrev pub HasRoom : ℕ → List (Peer × UdpClient) → Type 0
HasRoom n [] = Unit {0}
HasRoom n ((a, c) ∷ rest) = (c.m_buffer.m_buffer_size + n < int32_limit) × HasRoom n rest

-- No two clients have one address, and each buffer is one.
abbrev pub IsValid : Server → Type 0
IsValid v = IsDistinct (keys v.m_clients) × AllValid v.m_clients

IsDistinct-append :
    (ks : List Peer) (x : Peer) → IsDistinct ks → Absent x ks → IsDistinct (ks ++ x ∷ [])
IsDistinct-append [] x d a = (tt, tt)
IsDistinct-append (k ∷ ks) x (gone, d) (off, a) = (behind ks gone, IsDistinct-append ks x d a)
  where
    behind : (l : List Peer) → Absent k l → Absent k (l ++ x ∷ [])
    behind [] n = (is_peer_sym x k ∙ off, tt)
    behind (y ∷ ys) (m, n) = (m, behind ys n)

keys-append :
    (l : List (Peer × UdpClient)) (a : Peer) (c : UdpClient)
    → keys (l ++ (a, c) ∷ []) ≡ keys l ++ a ∷ []
keys-append [] a c = refl
keys-append (x ∷ l) a c = ap (◌∷◌ x.0) (keys-append l a c)

AllValid-append :
    (l : List (Peer × UdpClient)) (a : Peer) (c : UdpClient)
    → AllValid l
    → FifoLaws.IsValid c.m_buffer
    → AllValid (l ++ (a, c) ∷ [])
AllValid-append [] a c v k = (k, tt)
AllValid-append (x ∷ l) a c (h, v) k = (h, AllValid-append l a c v k)

client_recv_lem :
    (junk : ℕ → ℕ) (c : UdpClient) (buf : List ℕ)
    → FifoLaws.IsValid c.m_buffer
    → c.m_buffer.m_buffer_size + length buf < int32_limit
    → (c' : UdpClient) × (client_recv junk c buf ≡ some c')
      × FifoLaws.IsValid c'.m_buffer
      × (contents c'.m_buffer ≡ contents c.m_buffer ++ buf)
unfolding client_recv
client_recv_lem junk c buf v lim =
    let (b, e, v', t) = push_back_lem junk c.m_buffer buf (length buf) v (omega arith) lim in
    (
      record c { m_buffer = b },
      then_eq _ e refl,
      v',
      t ∙ ap (λ l. contents c.m_buffer ++ l) (take_all (length buf) buf (omega arith)),
    )

deliver-Absent :
    (junk : ℕ → ℕ) (l : List (Peer × UdpClient)) (addr : Peer) (buf : List ℕ)
    → Absent addr (keys l)
    → deliver junk l addr buf ≡ some (true, l)
unfolding deliver
deliver-Absent junk [] addr buf h = refl
deliver-Absent junk ((a, c) ∷ l) addr buf (gone, h) =
    let off : same_peer a addr ≡ false = same_peer_eq a addr ∙ gone in
    then_eq _ (deliver-Absent junk l addr buf h)
      (then_eq _ (if_not_eq _ off refl) (ap (λ b. some (true && not b, (a, c) ∷ l)) off))

-- The clients after a datagram, the new one among them if there is one.
abbrev with_new : Bool → List (Peer × UdpClient) → Peer → UdpClient → List (Peer × UdpClient)
with_new is_new l addr c = if is_new then l ++ (addr, c) ∷ [] else l

record Delivered (junk : ℕ → ℕ) (l : List (Peer × UdpClient)) (addr : Peer) (buf : List ℕ)
    : Type 0 where
  is_new : Bool
  clients : List (Peer × UdpClient)
  ran : deliver junk l addr buf ≡ some (is_new, clients)
  same_keys : keys clients ≡ keys l
  valid : AllValid clients
  missing : is_new ≡ true → Absent addr (keys l)
  known : is_new ≡ not (is_known (view l) addr)
  seen :
      (c : UdpClient)
      → contents c.m_buffer ≡ []
      → view (with_new is_new clients addr c) ≡ append_to (view l) addr buf

view_behind :
    (is_new : Bool) (a : Peer) (c₁ c : UdpClient) (l : List (Peer × UdpClient)) (addr : Peer)
    → view (with_new is_new ((a, c₁) ∷ l) addr c)
      ≡ (a, contents c₁.m_buffer) ∷ view (with_new is_new l addr c)
view_behind true a c₁ c l addr = refl
view_behind false a c₁ c l addr = refl

and_true : (b : Bool) → (b && not false) ≡ b
and_true true = refl
and_true false = refl

deliver_lem :
    (junk : ℕ → ℕ) (l : List (Peer × UdpClient)) (addr : Peer) (buf : List ℕ)
    → IsDistinct (keys l)
    → AllValid l
    → HasRoom (length buf) l
    → Delivered junk l addr buf
unfolding deliver
deliver_lem junk [] addr buf d v r = record {
  is_new = true;
  clients = [];
  ran = refl;
  same_keys = refl;
  valid = tt;
  missing = λ e. tt;
  known = refl;
  seen = λ c e. ap (λ q. (addr, q) ∷ []) e;
}
deliver_lem junk ((a, c) ∷ l) addr buf (gone, d) (v, vs) (room, rooms) =
    elim (Bool-cases (is_peer a addr)) [
      | inr off ↦
          let off' = same_peer_eq a addr ∙ off in
          let x = deliver_lem junk l addr buf d vs rooms in
          record {
            is_new = x.is_new;
            clients = (a, c) ∷ x.clients;
            ran = then_eq _ x.ran (
                then_eq _ (if_not_eq _ off' refl) (
                  ap (λ b. some (x.is_new && not b, (a, c) ∷ x.clients)) off'
                  ∙ ap (λ b. some (b, (a, c) ∷ x.clients)) (and_true x.is_new)));
            same_keys = ap (◌∷◌ a) x.same_keys;
            valid = (v, x.valid);
            missing = λ e. (off, x.missing e);
            known = x.known ∙ sym (ap not (if_not_eq _ off refl));
            seen = λ n e.
                view_behind x.is_new a c n x.clients addr
                ∙ ap (◌∷◌ (a, contents c.m_buffer)) (x.seen n e)
                ∙ sym (if_not_eq _ off refl);
          }
      | inl on ↦
          let on' = same_peer_eq a addr ∙ on in
          let (c', e, v', t) = client_recv_lem junk c buf v room in
          record {
            is_new = false;
            clients = (a, c') ∷ l;
            ran =
                then_eq _ (deliver-Absent junk l addr buf (elsewhere on (keys l) gone))
                  (then_eq _ (if_eq _ on' e) (ap (λ b. some (true && not b, (a, c') ∷ l)) on'));
            same_keys = refl;
            valid = (v', vs);
            missing = λ e. absurd (cc e);
            known = sym (ap not (if_eq _ on refl));
            seen = λ n e. ap (λ q. (a, q) ∷ view l) t ∙ sym (if_eq _ on refl);
          }
    ]
  where
    elsewhere : is_peer a addr ≡ true → (ks : List Peer) → Absent a ks → Absent addr ks
    elsewhere on [] h = tt
    elsewhere on (k ∷ ks) (m, h) = (ground (arith, m, on), elsewhere on ks h)

length-keys : (l : List (Peer × UdpClient)) → length (keys l) ≡ length l
length-keys [] = refl
length-keys (x ∷ l) = ap suc (length-keys l)

not_known : (b k : Bool) → b ≡ not k → k ≡ not b
not_known b k e = ground (arith, e)

-- A datagram that the server receives, where no two clients have one address and each buffer has
-- room for it: it goes behind the bytes that wait for its address, and no other buffer changes. Of
-- an address that the server does not know it makes a client with an empty buffer, which `accept`
-- is to give last; the datagram's own bytes are dropped. The addresses stay distinct.
pub receive-IsValid :
    (junk : ℕ → ℕ) (v : Server) (buf : List ℕ) (addr : Peer)
    → IsValid v
    → HasRoom (length buf) v.m_clients
    → (v' : Server) × (receive junk v buf addr ≡ some v')
      × IsValid v'
      × (view v'.m_clients ≡ append_to (view v.m_clients) addr buf)
      × (v'.m_new_clients ≡ (
          if is_known (view v.m_clients) addr
          then v.m_new_clients
          else v.m_new_clients ++ (addr, length v.m_clients) ∷ []))
unfolding receive make_client
receive-IsValid junk v buf addr (d, a) room =
    let x = deliver_lem junk v.m_clients addr buf d a room in
    let c = make_client v.base.m_sockfd addr in
    let known = not_known x.is_new (is_known (view v.m_clients) addr) x.known in
    let as_many : length x.clients ≡ length v.m_clients =
      sym (length-keys x.clients) ∙ ap length x.same_keys ∙ length-keys v.m_clients in
    elim (Bool-cases x.is_new) [
      | inl e ↦ (
        record v {
          m_clients = x.clients ++ (addr, c) ∷ [];
          m_new_clients = v.m_new_clients ++ (addr, length x.clients) ∷ [];
        },
        then_eq _ x.ran (ap some (if_eq _ e refl)),
        (
          subst IsDistinct
              (ap (λ k. k ++ addr ∷ []) (sym x.same_keys) ∙ sym (keys-append x.clients addr c))
              (IsDistinct-append (keys v.m_clients) addr d (x.missing e)),
          AllValid-append x.clients addr c x.valid refl,
        ),
        sym (ap view (if_eq _ e refl)) ∙ x.seen c refl,
        ap (λ n. v.m_new_clients ++ (addr, n) ∷ []) as_many
            ∙ sym (if_not_eq _ (known ∙ ap not e) refl),
      )
      | inr e ↦ (
        record v { m_clients = x.clients },
        then_eq _ x.ran (ap some (if_not_eq _ e refl)),
        (subst IsDistinct (sym x.same_keys) d, x.valid),
        sym (ap view (if_not_eq _ e refl)) ∙ x.seen c refl,
        sym (if_eq _ (known ∙ ap not e) refl),
      )
    ]

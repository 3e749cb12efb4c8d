-- ===== src/Socket/Tcp/Promises.antt =====
-- What the operating system promises of a stream socket, and what one round of the loops of
-- library/src/socket/tcp.cpp then does.
use networkio.Base.{
  ℕ, ◌≤◌, ◌<◌, ◌≡◌, Bool, true, false, List, ◌++◌, Option, none, some, ◌⊎◌, ltb, length, take, drop,
  arith,
}
use networkio.Socket.{selected, Socket, Client, flags, can_recv, can_send}
use networkio.Socket.System.{Os, again}
use networkio.Socket.Tcp.{partial, moved, read_round, write_round, is_connected}

-- What the system promises of a stream socket that is read from: it delivers the bytes `q` that
-- have arrived in order, and `select` finds it readable while there are any.
pub record Receives {W : Type 0} (os : Os W) (fd : ℕ) (Carries : W → List ℕ → Type 0) : Type 0 where
  pub selects :
      (w : W) (q : List ℕ)
      → Carries w q
      → (w' : W) × (os.select_read w (some fd) ≡ (some (ltb 0 (length q)), w')) × Carries w' q
  pub receives :
      (w : W) (q : List ℕ) (len fl : ℕ)
      → Carries w q
      → 0 < len
      → 0 < length q
      → (n : ℕ) × (w' : W) × (os.recv w (some fd) len fl ≡ (some (take n q), w'))
        × (0 < n)
        × (n ≤ len)
        × (n ≤ length q)
        × Carries w' (drop n q)

-- What it promises of one that is written to and has taken the bytes `t`: `send` takes some more,
-- from the front on, or it says EAGAIN, which a socket that blocks never gets.
pub record Sends {W : Type 0} (os : Os W) (fd : ℕ) (blocking : Bool) (Taken : W → List ℕ → Type 0)
    : Type 0 where
  pub selects :
      (w : W) (t : List ℕ)
      → Taken w t
      → (b : Bool) × (w' : W) × (os.select_write w (some fd) ≡ (some b, w')) × Taken w' t
  pub sends :
      (w : W) (t bs : List ℕ) (fl : ℕ)
      → Taken w t
      → 0 < length bs
      → ((n : ℕ) × (w' : W) × (os.send w (some fd) bs fl ≡ (some n, w'))
          × (0 < n)
          × (n ≤ length bs)
          × Taken w' (t ++ take n bs))
        ⊎ ((w' : W) × (os.send w (some fd) bs fl ≡ (none, w'))
            × (os.errno w' ≡ again)
            × (blocking ≡ false)
            × Taken w' t)

abbrev pub IsOn : ℕ → Bool → Client → Type 0
IsOn fd blocking c =
    (c.base.m_sockfd ≡ some fd) × (c.base.m_blocking ≡ blocking) × (c.m_connected ≡ true)

module _ {W : Type 0} (os : Os W) (fd : ℕ) where
  pub IsOn-connected : (b : Bool) (c : Client) → IsOn fd b c → is_connected c ≡ true
  unfolding is_connected
  IsOn-connected b c (e, m, k) = ground arith

  pub can_recv_eq :
      (s : Socket) (w w' : W) (r : Option Bool)
      → s.m_sockfd ≡ some fd
      → os.select_read w (some fd) ≡ (r, w')
      → can_recv os s w ≡ (selected r, w')
  unfolding can_recv
  can_recv_eq s w w' r on e = ground arith

  pub can_send_eq :
      (s : Socket) (w w' : W) (r : Option Bool)
      → s.m_sockfd ≡ some fd
      → os.select_write w (some fd) ≡ (r, w')
      → can_send os s w ≡ (selected r, w')
  unfolding can_send
  can_send_eq s w w' r on e = ground arith

  pub read_round_quiet :
      (s : Socket) (w w' : W) (left : ℕ)
      → s.m_sockfd ≡ some fd
      → os.select_read w (some fd) ≡ (some false, w')
      → read_round os s w left ≡ partial w'
  unfolding read_round
  read_round_quiet s w w' left on e = ground (arith, can_recv_eq s w w' (some false) on e)

  pub read_round-moved :
      (s : Socket) (w w' w'' : W) (left : ℕ) (bs : List ℕ)
      → s.m_sockfd ≡ some fd
      → os.select_read w (some fd) ≡ (some true, w')
      → os.recv w' (some fd) left (flags s) ≡ (some bs, w'')
      → 0 < length bs
      → read_round os s w left ≡ moved bs w''
  unfolding read_round
  read_round-moved s w w' w'' left bs on e r h = ground (arith, can_recv_eq s w w' (some true) on e)

  pub write_round_quiet :
      (s : Socket) (w w' : W) (buf : List ℕ)
      → s.m_sockfd ≡ some fd
      → os.select_write w (some fd) ≡ (some false, w')
      → write_round os s w buf ≡ partial w'
  unfolding write_round
  write_round_quiet s w w' buf on e = ground (arith, can_send_eq s w w' (some false) on e)

  pub write_round-moved :
      (s : Socket) (w w' w'' : W) (buf : List ℕ) (n : ℕ)
      → s.m_sockfd ≡ some fd
      → os.select_write w (some fd) ≡ (some true, w')
      → os.send w' (some fd) buf (flags s) ≡ (some n, w'')
      → 0 < n
      → write_round os s w buf ≡ moved n w''
  unfolding write_round
  write_round-moved s w w' w'' buf n on e r h = ground (arith, can_send_eq s w w' (some true) on e)

  pub write_round-again :
      (s : Socket) (w w' w'' : W) (buf : List ℕ)
      → s.m_sockfd ≡ some fd
      → s.m_blocking ≡ false
      → os.select_write w (some fd) ≡ (some true, w')
      → os.send w' (some fd) buf (flags s) ≡ (none, w'')
      → os.errno w'' ≡ again
      → write_round os s w buf ≡ partial w''
  unfolding write_round
  write_round-again s w w' w'' buf on m e r h = ground (arith, can_send_eq s w w' (some true) on e)

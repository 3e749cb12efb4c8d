-- ===== src/Socket/Unix/Laws.antt =====
-- A Unix domain client of library/src/socket/unix.cpp: what connecting and one call of reading or
-- writing leave of it, and the stream that it is over a system that keeps its promises.
use networkio.Base.{
  if◌then◌else◌, ℕ, ◌<◌, ◌≡◌, Bool, true, false, List, [], ◌∷◌, none, some, inl, inr, length, arith,
  Bool-cases,
}
use networkio.Socket.{Client, Socket, flags, can_recv, can_send, set_blocking, set_nopipe, install}
use networkio.Socket as Base
use networkio.Socket.System.{unix_path, Os, again}
use networkio.Socket.Tcp.{is_open}
use networkio.Socket.Tcp.Promises.{IsOn, can_recv_eq, can_send_eq}
use networkio.Socket.Tcp.Lifecycle.{SetsModes, set_blocking_ok}
use networkio.Socket.Unix.{
  sun_path, socket_path, tokenize, is_connected, create_client, new_socket, connect_to,
  connect_tokens, connect, close, read_raw, write_raw,
}

-- A client that is connected has an open descriptor.
abbrev pub IsSound : Client → Type 0
IsSound c = c.m_connected ≡ true → is_open c.base ≡ true

module _ {W : Type 0} (os : Os W) where
  create_client_lem :
      (c : Client) (w : W)
      → IsSound c
      → let (ok, c', w') = create_client os c w in
        (c'.m_connected ≡ false)
        × (ok ≡ is_open c'.base)
        × (c'.base.m_blocking ≡ c.base.m_blocking)
        × (c'.base.m_nopipe ≡ c.base.m_nopipe)
  unfolding create_client new_socket close Base.close install set_blocking set_nopipe
  create_client_lem c w sound = ground arith

  connect_to_lem :
      (c : Client) (w : W) (path : List ℕ)
      → SetsModes os
      → let (ok, c', w') = connect_to os c w path in
        (c'.m_connected ≡ ok)
        × (is_open c'.base ≡ (if ok then is_open c.base else false))
        × (ok ≡ true → c'.base.m_blocking ≡ c.base.m_blocking)
  unfolding connect_to close Base.close
  connect_to_lem c w path sets =
      let (_, s₁, w₁) = set_blocking os c.base w true in
      let (ok, w₂) = os.connect w₁ s₁.m_sockfd (unix_path (sun_path path)) in
      ground (
        arith,
        set_blocking_ok os c.base w true sets,
        set_blocking_ok os s₁ w₂ c.base.m_blocking sets,
      )

  connect_tokens_lem :
      (c : Client) (w : W) (tokens : List (List ℕ))
      → SetsModes os
      → c.m_connected ≡ false
      → is_open c.base ≡ true
      → let (ok, c', w') = connect_tokens os c w tokens in
        (c'.m_connected ≡ ok)
        × (ok ≡ true → (is_open c'.base ≡ true) × (c'.base.m_blocking ≡ c.base.m_blocking))
  unfolding connect_tokens
  connect_tokens_lem c w [] sets down up = (down, λ e. absurd (cc e))
  connect_tokens_lem c w (host ∷ []) sets down up = (down, λ e. absurd (cc e))
  connect_tokens_lem c w (host ∷ name ∷ x ∷ xs) sets down up = (down, λ e. absurd (cc e))
  connect_tokens_lem c w (host ∷ name ∷ []) sets down up =
      ground (arith, connect_to_lem c w (socket_path name) sets)

  -- `connect` of a Unix domain client whose `m_connected` has a descriptor behind it, where each
  -- `fcntl` succeeds: the client is connected afterwards just if it says true, and then it has a
  -- descriptor and the mode it was in, whether or not it was connected before.
  pub connect-IsSound :
      (c : Client) (w : W) (addr : List ℕ)
      → SetsModes os
      → IsSound c
      → let (ok, c', w') = connect os c w addr in
        (is_connected c' ≡ ok)
        × (ok ≡ true → (is_open c'.base ≡ true) × (c'.base.m_blocking ≡ c.base.m_blocking))
  unfolding connect is_connected
  connect-IsSound c w addr sets sound =
      let (down, ok_open, mode, pipe) = create_client_lem c w sound in
      let (_, c₁, w₁) = create_client os c w in
      elim (Bool-cases (is_open c₁.base)) [
        | inl e ↦ ground (arith, connect_tokens_lem c₁ w₁ (tokenize addr 58) sets down e)
        | inr e ↦ ground arith
      ]

  -- `read_raw` and `write_raw` keep the descriptor, and give the connection up only where they give
  -- -1. The end of the stream, a `recv` of no bytes, gives -1 and yet leaves the client connected.
  pub read_raw_keeps :
      (c : Client) (w : W) (size : ℕ)
      → let (r, c', w') = read_raw os c w size in
        (c'.base ≡ c.base) × (c'.m_connected ≡ false → c.m_connected ≡ true → r ≡ none)
  unfolding read_raw is_connected
  read_raw_keeps c w size = ground arith

  pub write_raw_keeps :
      (c : Client) (w : W) (buffer : List ℕ)
      → let (r, c', w') = write_raw os c w buffer in
        (c'.base ≡ c.base) × (c'.m_connected ≡ false → c.m_connected ≡ true → r ≡ none)
  unfolding write_raw is_connected
  write_raw_keeps c w buffer = ground arith

module _ {W : Type 0} (os : Os W) (fd : ℕ) (b : Bool) where
  -- Of a stream whose other end is closed, which `select` finds readable and of which `recv` gives no
  -- bytes, `read_raw` of a connected client gives -1, and the client stays connected: so does each
  -- `read_raw` to follow.
  pub read_raw_end :
      (c : Client) (w w₁ w₂ : W) (size : ℕ)
      → IsOn fd b c
      → os.select_read w (some fd) ≡ (some true, w₁)
      → os.recv w₁ (some fd) size (flags c.base) ≡ (some [], w₂)
      → (read_raw os c w size ≡ (none, c, w₂)) × (is_connected c ≡ true)
  unfolding read_raw is_connected
  read_raw_end c w w₁ w₂ size (on, mode, up) sel end =
      ground (arith, can_recv_eq os fd c.base w w₁ (some true) on sel)

  pub read_raw_eq :
      (c : Client) (w w₁ w₂ : W) (size : ℕ) (bs : List ℕ)
      → IsOn fd b c
      → os.select_read w (some fd) ≡ (some true, w₁)
      → os.recv w₁ (some fd) size (flags c.base) ≡ (some bs, w₂)
      → 0 < length bs
      → read_raw os c w size ≡ (some bs, c, w₂)
  unfolding read_raw is_connected
  read_raw_eq c w w₁ w₂ size bs (on, mode, up) sel got h =
      ground (arith, can_recv_eq os fd c.base w w₁ (some true) on sel)

  pub read_raw_quiet :
      (c : Client) (w w₁ : W) (size : ℕ)
      → IsOn fd b c
      → os.select_read w (some fd) ≡ (some false, w₁)
      → read_raw os c w size ≡ (some [], c, w₁)
  unfolding read_raw is_connected
  read_raw_quiet c w w₁ size (on, mode, up) sel =
      ground (arith, can_recv_eq os fd c.base w w₁ (some false) on sel)

  pub write_raw_eq :
      (c : Client) (w w₁ w₂ : W) (buffer : List ℕ) (n : ℕ)
      → IsOn fd b c
      → os.select_write w (some fd) ≡ (some true, w₁)
      → os.send w₁ (some fd) buffer (flags c.base) ≡ (some n, w₂)
      → 0 < n
      → write_raw os c w buffer ≡ (some n, c, w₂)
  unfolding write_raw is_connected
  write_raw_eq c w w₁ w₂ buffer n (on, mode, up) sel sent h =
      ground (arith, can_send_eq os fd c.base w w₁ (some true) on sel)

  pub write_raw_again :
      (c : Client) (w w₁ w₂ : W) (buffer : List ℕ)
      → IsOn fd false c
      → os.select_write w (some fd) ≡ (some true, w₁)
      → os.send w₁ (some fd) buffer (flags c.base) ≡ (none, w₂)
      → os.errno w₂ ≡ again
      → write_raw os c w buffer ≡ (some 0, c, w₂)
  unfolding write_raw is_connected
  write_raw_again c w w₁ w₂ buffer (on, mode, up) sel sent er =
      ground (arith, can_send_eq os fd c.base w w₁ (some true) on sel)

  pub write_raw_quiet :
      (c : Client) (w w₁ : W) (buffer : List ℕ)
      → IsOn fd b c
      → os.select_write w (some fd) ≡ (some false, w₁)
      → write_raw os c w buffer ≡ (some 0, c, w₁)
  unfolding write_raw is_connected
  write_raw_quiet c w w₁ buffer (on, mode, up) sel =
      ground (arith, can_send_eq os fd c.base w w₁ (some false) on sel)

-- ===== src/Socket/Tcp/Lifecycle.antt =====
-- How a TCP socket is opened, connected and closed by library/src/socket/tcp.cpp, and what that
-- leaves of its options.
use networkio.Base.{
  subst, ◌∷◌, not, ℕ, ◌≡◌, refl, ◌∙◌, sym, Bool, true, false, List, Option, none, some, inl, inr,
  arith, if_eq, if_not_eq, Bool-cases, [],
}
use networkio.Socket.{ℤ, Socket, Client, set_blocking, set_nopipe, install, can_recv}
use networkio.Socket as Base
use networkio.Socket.System.{inet_addr, Os}
use networkio.Socket.Tcp.{
  connect_found, stoi, tokenize, port_of, is_open, is_connected, create_socket, bind, listen_on,
  accepted, accept, connect, connect_tokens, connect_to, close, with_base,
}

module _ {W : Type 0} (os : Os W) where
  -- Every `fcntl` succeeds.
  abbrev pub SetsModes : Type 0
  SetsModes =
      (w : W) (fd : Option ℕ) (b : Bool) → let (ok, w') = os.set_nonblock w fd b in ok ≡ true

  -- `set_blocking` changes the mode that the socket keeps when it says so, and nothing otherwise.
  pub set_blocking_lem :
      (s : Socket) (w : W) (b : Bool)
      → let (ok, s', w') = set_blocking os s w b in
        s' ≡ (elim ok [ true ↦ record s { m_blocking = b } | false ↦ s ])
  unfolding set_blocking
  set_blocking_lem s w b = ground arith

  pub set_blocking_ok :
      (s : Socket) (w : W) (b : Bool)
      → SetsModes
      → let (ok, s', w') = set_blocking os s w b in s' ≡ record s { m_blocking = b }
  unfolding set_blocking
  set_blocking_ok s w b sets = ground (arith, sets w s.m_sockfd (not b))

  -- `close` says whether there was an open descriptor, and leaves a client that is not connected, in
  -- the mode it was in; closing that client again says false, changes nothing, and makes no call of
  -- the system.
  pub close-close :
      (c : Client) (w : W)
      → let (ok, c', w') = close os c w in
        (ok ≡ is_open c.base)
        × (is_connected c' ≡ false)
        × (c'.base.m_blocking ≡ c.base.m_blocking)
        × (close os c' w' ≡ (false, c', w'))
  unfolding close Base.close is_connected
  close-close c w = ground arith

  pub accepted_lem :
      (s : Socket) (fd : ℕ) (w w' : W) (c : Client)
      → accepted os s fd w ≡ (some c, w')
      → (c.base.m_sockfd ≡ some fd)
        × (c.m_connected ≡ true)
        × (c.base.m_blocking ≡ s.m_blocking)
        × (c.base.m_nopipe ≡ s.m_nopipe)
  unfolding accepted set_blocking set_nopipe
  accepted_lem s fd w w' c e = ground arith

  -- `accept` gives a client that is connected over the descriptor that the system accepted, in the
  -- mode of the server and with its `m_nopipe`; and it gives none of a server that is closed or
  -- that `select` does not find readable, where the system is asked for no connection.
  pub accept-IsConnected :
      (s : Socket) (w w' : W) (c : Client)
      → accept os s w ≡ (some c, w')
      → (is_open s ≡ true)
        × (is_connected c ≡ true)
        × (c.base.m_blocking ≡ s.m_blocking)
        × (c.base.m_nopipe ≡ s.m_nopipe)
  unfolding accept can_recv is_connected accepted set_blocking set_nopipe
  accept-IsConnected s w w' c e = ground arith

  pub create_socket_lem :
      (s : Socket) (w : W)
      → let (ok, s', w') = create_socket os s w in
        (s'.m_blocking ≡ s.m_blocking)
        × (s'.m_nopipe ≡ s.m_nopipe)
        × (is_open s ≡ true → (ok ≡ false) × (s' ≡ s) × (w' ≡ w))
        × (is_open s ≡ false → ok ≡ is_open s')
  unfolding create_socket install set_blocking set_nopipe
  create_socket_lem s w = ground arith

  pub connect_to_lem :
      (c : Client) (w : W) (addr port : ℕ)
      → SetsModes
      → is_open c.base ≡ true
      → let (ok, c', w') = connect_to os c w addr port in
        (c'.base.m_sockfd ≡ c.base.m_sockfd)
        × (ok ≡ true → (is_connected c' ≡ true) × (c'.base.m_blocking ≡ c.base.m_blocking))
        × (ok ≡ false → (c'.m_connected ≡ c.m_connected) × (c'.base.m_blocking ≡ true))
  unfolding connect_to is_connected
  connect_to_lem c w addr port sets h =
      let (_, s₁, w₁) = set_blocking os c.base w true in
      let (ok, w₂) = os.connect w₁ s₁.m_sockfd (inet_addr addr port) in
      ground
        (arith, set_blocking_ok c.base w true sets, set_blocking_ok s₁ w₂ c.base.m_blocking sets)

  -- `bind`, where each `fcntl` succeeds: when it says true the socket is open and in the mode it was
  -- in; when it says false and the socket is open, it is left in blocking mode. `m_nopipe` is kept.
  pub bind_modes :
      (s : Socket) (w : W) (port : ℕ)
      → SetsModes
      → let (ok, s', w') = bind os s w port in
        (s'.m_nopipe ≡ s.m_nopipe)
        × (ok ≡ true → (is_open s' ≡ true) × (s'.m_blocking ≡ s.m_blocking))
        × (ok ≡ false → is_open s' ≡ true → s'.m_blocking ≡ true)
  unfolding bind
  bind_modes s w port sets =
      let (_, s₁, w₁) = create_socket os s w in
      let (_, s₂, w₂) = set_blocking os s₁ w₁ true in
      let (ok, w₃) = listen_on os s₂ w₂ port in
      ground (
        arith,
        create_socket_lem s w,
        set_blocking_ok s₁ w₁ true sets,
        set_blocking_ok s₂ w₃ s₁.m_blocking sets,
      )

  -- What a connecting client is afterwards.
  abbrev pub Connects : Client → Option (Bool × Client × W) → Type 0
  Connects c none = Unit {0}
  Connects c (some (ok, c', w')) =
      (ok ≡ true → (is_connected c' ≡ true) × (c'.base.m_blocking ≡ c.base.m_blocking))
      × (ok ≡ false → c'.m_connected ≡ c.m_connected)

  connect_found-Connects :
      (c : Client) (w : W) (found : Option ℕ) (port : Option ℤ)
      → SetsModes
      → is_open c.base ≡ true
      → Connects c (connect_found os c w found port)
  unfolding connect_found
  connect_found-Connects c w none port sets h = (λ e. absurd (cc e), λ e. refl)
  connect_found-Connects c w (some addr) none sets h = tt
  connect_found-Connects c w (some addr) (some p) sets h =
      let (_, yes_lem, no_lem) = connect_to_lem c w addr (port_of p) sets h in
      (yes_lem, λ e. let (same, _) = no_lem e in same)

  connect_tokens-Connects :
      (c : Client) (w : W) (tokens : List (List ℕ))
      → SetsModes
      → is_open c.base ≡ true
      → Connects c (connect_tokens os c w tokens)
  unfolding connect_tokens
  connect_tokens-Connects c w [] sets h = (λ e. absurd (cc e), λ e. refl)
  connect_tokens-Connects c w (host ∷ []) sets h = (λ e. absurd (cc e), λ e. refl)
  connect_tokens-Connects c w (host ∷ port ∷ x ∷ xs) sets h = (λ e. absurd (cc e), λ e. refl)
  connect_tokens-Connects c w (host ∷ port ∷ []) sets h =
      let (found, w₁) = os.resolve w host in connect_found-Connects c w₁ found (stoi port) sets h

  Connects-from :
      (c c₁ : Client) (r : Option (Bool × Client × W))
      → c₁.base.m_blocking ≡ c.base.m_blocking
      → c₁.m_connected ≡ c.m_connected
      → Connects c₁ r
      → Connects c r
  Connects-from c c₁ none mode up h = tt
  Connects-from c c₁ (some (ok, c', w')) mode up (yes_lem, no_lem) =
      (λ e. let (a, b) = yes_lem e in (a, b ∙ mode), λ e. no_lem e ∙ up)

  -- `connect`, where each `fcntl` succeeds: when it says true the client is connected and in the
  -- mode it was in; when it says false the flag `m_connected` is what it was.
  pub connect-Connects :
      (c : Client) (w : W) (addr : List ℕ) → SetsModes → Connects c (connect os c w addr)
  unfolding connect
  connect-Connects c w addr sets =
      let (_, s, w₁) = create_socket os c.base w in
      let tokens = tokenize addr 58 in
      let c₁ = with_base c s in
      elim (Bool-cases (is_open s)) [
        | inl e ↦ subst (Connects c) (sym (if_eq (some (false, c₁, w₁)) e refl)) (
            let (mode, _, _, _) = create_socket_lem c.base w in
            Connects-from c c₁ (connect_tokens os c₁ w₁ tokens) mode refl
              (connect_tokens-Connects c₁ w₁ tokens sets e))
        | inr e ↦
            subst (Connects c) (sym (if_not_eq (connect_tokens os c₁ w₁ tokens) e refl))
              (λ e. absurd (cc e), λ e. refl)
      ]

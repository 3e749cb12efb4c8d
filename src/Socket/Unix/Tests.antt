-- ===== src/Socket/Unix/Tests.antt =====
-- The theorems of the Unix domain sockets at a concrete system.
use networkio.Base.{ℕ, ◌≡◌, refl, true, false, List, [], ◌∷◌}
use networkio.Socket.{Client, fresh}
use networkio.Socket.Pipe.{pipe, full}
use networkio.Socket.Tcp.{is_open}
use networkio.Socket.Tcp.Lifecycle.{SetsModes}
use networkio.Socket.Unix.{connect, is_connected}
use networkio.Socket.Unix.Laws.{IsSound, connect-IsSound}

abbrev closed_client : Client
closed_client = record { base = fresh; m_connected = false }

-- The address "a:1".
abbrev address : List ℕ
address = 97 ∷ 58 ∷ 49 ∷ []

unix_pipe-SetsModes : SetsModes pipe
unix_pipe-SetsModes = λ w fd b. refl

closed_client-IsSound : IsSound closed_client
closed_client-IsSound = λ e. absurd (cc e)

connect-IsSound_example :
    let (ok, c', w') = connect pipe closed_client full address in
    (is_connected c' ≡ ok) × (ok ≡ true → (is_open c'.base ≡ true) × (c'.base.m_blocking ≡ true))
connect-IsSound_example =
    connect-IsSound pipe closed_client full address unix_pipe-SetsModes closed_client-IsSound

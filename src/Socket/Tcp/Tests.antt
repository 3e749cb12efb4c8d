-- ===== src/Socket/Tcp/Tests.antt =====
-- Runs of a TCP socket, and its theorems at a concrete system.
use networkio.Base.{ℕ, ◌≡◌, refl, true, false, List, [], ◌∷◌, none, some, arith}
use networkio.Interfaces.{SinkLaws}
use networkio.Socket.{can_send, can_recv, Client, fresh}
use networkio.Socket.Pipe.{pipe, Pipe, Carries, Taken, pipe-Receives, pipe-Sends, client, full}
use networkio.Socket.Tcp.{
  read_round, write_round, read_raw, write_raw, is_connected, read_loop, write_loop, ops, connect,
}
use networkio.Socket.Tcp.Promises.{IsOn}
use networkio.Socket.Tcp.Rounds.{write_loop_enough}
use networkio.Socket.Tcp.Outcomes.{Settles, raw-Settles}
use networkio.Socket.Tcp.Stream.{read_raw_takes}
use networkio.Socket.Tcp.Sink.{tcp-SinkLaws}
use networkio.Socket.Tcp.Lifecycle.{Connects, connect-Connects, SetsModes}

-- Four bytes come in two rounds, and leave the fifth.
read_four :
    read_raw pipe client full 4
    ≡ (some (1 ∷ 2 ∷ 3 ∷ 4 ∷ []), client, record full { arrived = 5 ∷ [] })
unfolding read_raw is_connected read_loop read_round can_recv
read_four = refl

-- Three bytes go in two rounds.
write_three :
    write_raw pipe client full (7 ∷ 8 ∷ 6 ∷ [])
    ≡ (some 3, client, record full { taken = 9 ∷ 7 ∷ 8 ∷ 6 ∷ [] })
unfolding write_raw is_connected write_loop write_round can_send
write_three = refl

client-IsOn : IsOn 3 true client
client-IsOn = (refl, refl, refl)

read_raw_takes_example :
    (w' : Pipe) × (read_raw pipe client full 4 ≡ (some (1 ∷ 2 ∷ 3 ∷ 4 ∷ []), client, w'))
    × Carries w' (5 ∷ [])
read_raw_takes_example =
    read_raw_takes pipe 3 Carries pipe-Receives true client full 4 (1 ∷ 2 ∷ 3 ∷ 4 ∷ 5 ∷ [])
      client-IsOn refl

tcp-SinkLaws_example : SinkLaws (ops pipe) (λ (c, w) t. IsOn 3 true c × Taken w t)
tcp-SinkLaws_example = tcp-SinkLaws pipe 3 true Taken pipe-Sends

write_loop_enough_example :
    write_loop pipe 3 client full (7 ∷ 8 ∷ 6 ∷ []) 0
    ≡ write_loop pipe 9 client full (7 ∷ 8 ∷ 6 ∷ []) 0
write_loop_enough_example =
    write_loop_enough pipe 3 9 client full (7 ∷ 8 ∷ 6 ∷ []) 0 (omega arith) (omega arith)

raw-Settles_example :
    (is_connected client ≡ true
      → Settles pipe client (read_raw pipe client full 4)
        × Settles pipe client (write_raw pipe client full (7 ∷ [])))
    × (is_connected client ≡ false
        → (read_raw pipe client full 4 ≡ (none, client, full))
          × (write_raw pipe client full (7 ∷ []) ≡ (none, client, full)))
raw-Settles_example = raw-Settles pipe client full 4 (7 ∷ [])

pipe-SetsModes : SetsModes pipe
pipe-SetsModes = λ w fd b. refl

abbrev closed_client : Client
closed_client = record { base = fresh; m_connected = false }

-- The address "a:80".
abbrev address : List ℕ
address = 97 ∷ 58 ∷ 56 ∷ 48 ∷ []

connect-Connects_example : Connects pipe closed_client (connect pipe closed_client full address)
connect-Connects_example = connect-Connects pipe closed_client full address pipe-SetsModes

-- ===== src/Http/Server/Tests.antt =====
-- The server and its handler at concrete requests and responses.
use networkio.Base.{
  if◌then◌else◌, ℕ, ◌+◌, ◌-◌, ◌≡◌, ◌≤◌, ◌<◌, ◌⊎◌, refl, true, List, [], ◌∷◌, ◌++◌, Option, none,
  some, arith, take,
}
use networkio.Http.Request as Requests
use networkio.Http.Server.{
  Endpoint, Endpoints, Server, Connection, fresh_connection, lookup, handle_request_get,
}
use networkio.Http.Server.Handler.{Handler, send, finish}
use networkio.Http.Server.Laws.{get_reads_below, ok_text, pending, IsSending, send-IsSending}
use networkio.Socket.{Client}
use networkio.Socket.Pipe.{pipe, Pipe, Taken, pipe-Sends, client, full}
use networkio.Socket.Tcp.{ops}
use networkio.Socket.Tcp.Promises.{IsOn}
use networkio.Socket.Tcp.Sink.{tcp-SinkLaws}
use networkio.Text.{eq_text}

-- The file "f/../x" has the bytes 7 and 8, and there is no other.
abbrev files : List ℕ → Option (List ℕ)
files f = if eq_text f (102 ∷ 47 ∷ 46 ∷ 46 ∷ 47 ∷ 120 ∷ []) then some (7 ∷ 8 ∷ []) else none

-- Each function leaves the connection as it is.
abbrev run : ℕ → Connection → Option Connection
run f c = some c

-- The directory "s" with the folder "f".
abbrev shared : Endpoint
shared = record { m_get = 0; m_post = 0; m_folder = 102 ∷ [] }

abbrev endpoints : Endpoints
endpoints = (47 ∷ 115 ∷ [], some shared) ∷ []

abbrev server : Server
server = record { m_default_endpoint = none; m_endpoints = endpoints }

-- A GET of "/s/../x", which reads the file "f/../x".
abbrev upwards : Connection
upwards = record fresh_connection {
  m_request = record Requests.make { m_uri = 47 ∷ 115 ∷ 47 ∷ 46 ∷ 46 ∷ 47 ∷ 120 ∷ [] };
}

shared_found : lookup endpoints (47 ∷ 115 ∷ []) ≡ (some shared, endpoints)
unfolding lookup eq_text
shared_found = refl

-- It reads the file "f/../x".
get_reads_below_example :
    (fields : List ℕ) × (handle_request_get files run server upwards
      ≡ some (ok_text upwards.m_response fields (7 ∷ 8 ∷ []), server))
unfolding eq_text
get_reads_below_example =
    get_reads_below files run server upwards (115 ∷ []) (46 ∷ 46 ∷ []) ((120 ∷ []) ∷ []) shared
      endpoints (7 ∷ 8 ∷ []) (omega arith) refl shared_found (omega arith) refl (omega arith)

-- Two bytes of a response of three are still to be sent, over a TCP connection.
abbrev handler : Handler (Client × Pipe)
handler = record {
  m_client = (client, full);
  m_proto = record { m_client = none; m_out_string = [] };
  m_keep_alive = true;
  m_request_count = 0;
  m_request = [];
  m_request_complete = true;
  m_request_tp = 0;
  m_response = 4 ∷ 5 ∷ 6 ∷ [];
  m_response_sent = 1;
  m_response_bytes_left = 2;
}

abbrev Sunk : Client × Pipe → List ℕ → Type 0
Sunk (c, w) t = IsOn 3 true c × Taken w t

-- The two bytes.
abbrev two_left : List ℕ
two_left = 5 ∷ 6 ∷ []

send-IsSending_example :
    (n : ℕ) × (s : Client × Pipe) × (n ≤ 2)
    × Sunk s ((9 ∷ []) ++ take n two_left)
    × (let h' = record handler {
      m_client = s;
      m_response_sent = 1 + n;
      m_response_bytes_left = 2 - n;
    } in
        ((n < 2)
          × (send files run (ops pipe) handler ≡ (true, h'))
          × IsSending files run (ops pipe) Sunk (tcp-SinkLaws pipe 3 true Taken pipe-Sends) h'
          × (take n two_left
                ++ pending files run (ops pipe) Sunk (tcp-SinkLaws pipe 3 true Taken pipe-Sends) h'
              ≡ two_left))
        ⊎ ((take n two_left ≡ two_left)
            × (send files run (ops pipe) handler ≡ finish files run (ops pipe) h')))
send-IsSending_example =
    send-IsSending files run (ops pipe) Sunk (tcp-SinkLaws pipe 3 true Taken pipe-Sends) handler
      (9 ∷ []) (omega arith, refl) ((refl, refl, refl), refl)

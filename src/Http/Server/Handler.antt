-- ===== src/Http/Server/Handler.antt =====
-- `server_handler` of library/src/http/http_server.cpp: the connection of a client of the server, from
-- its request to the end of the response.
use networkio.Base.{
  ◌*◌, ℕ, ◌+◌, ◌-◌, Bool, true, false, not, List, [], ◌++◌, Option, none, some, ltb, leb, ◌==◌,
  if◌then◌else◌, length, take, drop, map, ◌>>=◌,
}
use networkio.Http.Parser.{
  ParserStatus, parse_success, parse_error, parse_error_again, Fields, field, set_field,
}
use networkio.Http.Request.{Request, get_type}
use networkio.Http.Request as Requests
use networkio.Http.Response as Responses
use networkio.Http.Server.{
  Server, Connection, fresh_connection, connection_key, keep_alive, timeout_text, max_text,
  post_type, handle_request_get, handle_request_post,
}
use networkio.Http.Url.{to_lower}
use networkio.Interfaces.{ClientOps}
use networkio.Proto.StringProto
use networkio.Proto.StringProto.{StringProto}
use networkio.Text.{eq_text}
use networkio.Text.Numbers.{to_string as number_text}

-- `m_response_sent` is how far `m_response_buf` has moved in the response. Points in time are
-- milliseconds, `m_keep_alive_timeout` is in seconds; it and `m_keep_alive_max` have the values 5
-- and 1000 throughout.
pub record Handler (S : Type 0) : Type 0 where
  pub m_client : S
  pub m_proto : StringProto S
  pub m_keep_alive : Bool
  pub m_request_count : ℕ
  pub m_request : List ℕ
  pub m_request_complete : Bool
  pub m_request_tp : ℕ
  pub m_response : List ℕ
  pub m_response_sent : ℕ
  pub m_response_bytes_left : ℕ

-- `server_handler(sv, cl)`. `m_request_tp` is the epoch of the clock.
unfoldable pub make : {S : Type 0} → S → Handler S
make cl = record {
  m_client = cl;
  m_proto = record { m_client = some cl; m_out_string = [] };
  m_keep_alive = false;
  m_request_count = 0;
  m_request = [];
  m_request_complete = false;
  m_request_tp = 0;
  m_response = [];
  m_response_sent = 0;
  m_response_bytes_left = 0;
}

-- `server::accept_client`, by what the server's socket accepts.
unfoldable pub accept_client :
    {V S : Type 0} → (V → Option S × V) → Option V → Option (Option (Handler S) × Option V)
accept_client accept none = none
accept_client accept (some v) =
    let (got, v') = accept v in some (elim got [ none ↦ none | some cl ↦ some (make cl) ], some v')

abbrev pub m_keep_alive_timeout : ℕ
m_keep_alive_timeout = 5

abbrev pub m_keep_alive_max : ℕ
m_keep_alive_max = 1000

-- `sizeof(buf)`
abbrev pub buf_size : ℕ
buf_size = 0x4000

unfoldable pub check_timeout : {S : Type 0} → Handler S → ℕ → Bool
check_timeout h now =
    if h.m_keep_alive then not (ltb (h.m_request_tp + m_keep_alive_timeout * 1000) now) else true

-- The connection's fields of the response.
abbrev pub connection_fields : Bool → List ℕ → Fields → Fields
connection_fields keep connection fs =
    let fs' = set_field fs connection_key connection in
    if keep
    then set_field fs' keep_alive (
        timeout_text
        ++ (number_text m_keep_alive_timeout ++ (max_text ++ number_text m_keep_alive_max)))
    else fs'

module _ (files : List ℕ → Option (List ℕ)) (run : ℕ → Connection → Option Connection) {S : Type 0}
    (ops : ClientOps S) where
  abbrev pub with_text :
      Handler S → Option (List ℕ × Server) → Option (ParserStatus × Handler S × Server)
  with_text h none = none
  with_text h (some (text, v)) = some (parse_success, record h { m_response = text }, v)

  abbrev pub by_type : Handler S → Server → Connection → Option (ParserStatus × Handler S × Server)
  by_type h v conn =
      if eq_text conn.m_request.m_type get_type
      then with_text h (handle_request_get files run v conn)
      else if eq_text conn.m_request.m_type post_type
      then with_text h (handle_request_post files run v conn)
      else some (parse_error, h, v)

  -- A request that has been read as a whole.
  unfoldable pub handle_parsed :
      Handler S → Server → Request → Option (ParserStatus × Handler S × Server)
  handle_parsed h v req =
      let (val, fs) = field req.base.m_header_fields connection_key in
      let connection = map to_lower val in
      let keep = eq_text connection keep_alive in
      let r = fresh_connection.m_response in
      by_type (record h { m_keep_alive = keep }) v
        (record {
          m_request = Requests.with_fields req fs;
          m_response =
              Responses.with_fields r (connection_fields keep connection r.base.m_header_fields);
        })

  -- `handle_request`: `none` is an exception, or a function that does not return.
  unfoldable pub handle_request : Handler S → Server → Option (ParserStatus × Handler S × Server)
  handle_request h v =
      Requests.from_string fresh_connection.m_request h.m_request >>= λ (status, req). elim status [
        | parse_success ↦ handle_parsed h v req
        | parse_error ↦ some (parse_error, h, v)
        | parse_error_again ↦ some (parse_error_again, h, v)
      ]

  abbrev pub closed : Handler S → Handler S
  closed h = record h { m_client = ops.close h.m_client }

  -- The end of a response: the connection is closed, or made ready for another request.
  unfoldable pub finish : Handler S → Bool × Handler S
  finish h =
      if not h.m_keep_alive
      then (false, closed h)
      else (let h' = record h { m_request_count = h.m_request_count + 1 } in
          if leb m_keep_alive_max h'.m_request_count
          then (false, closed h')
          else (true, record h' { m_request = []; m_request_complete = false; m_response = [] }))

  -- What follows the `write_raw` of the response.
  unfoldable pub written : Handler S → Option ℕ → S → Bool × Handler S
  written h none s = (false, closed (record h { m_client = s }))
  written h (some n) s =
      let h' = record h {
        m_client = s;
        m_response_sent = h.m_response_sent + n;
        m_response_bytes_left = h.m_response_bytes_left - n;
      } in
      if h'.m_response_bytes_left == 0 then finish h' else (true, h')

  -- `write_raw` of what is left of the response.
  unfoldable pub send : Handler S → Bool × Handler S
  send h =
      let (sent, s) =
        ops.write_raw h.m_client
          (take h.m_response_bytes_left (drop h.m_response_sent h.m_response)) in
      written h sent s

  -- What follows `handle_request`.
  unfoldable pub answered : ParserStatus → Handler S → Server → Bool × Handler S × Server
  answered parse_error h v = (false, closed h, v)
  answered parse_error_again h v = (true, h, v)
  answered parse_success h v =
      let (more, h') = send (record h {
        m_request_complete = true;
        m_response_sent = 0;
        m_response_bytes_left = length h.m_response;
      }) in
      (more, h', v)

  -- Bytes that have been received at the time `now`.
  unfoldable pub received : Handler S → Server → ℕ → List ℕ → Option (Bool × Handler S × Server)
  received h v now bs =
      if length bs == 0
      then some (true, h, v)
      else (let h' = record h { m_request_tp = now; m_request = h.m_request ++ bs } in
          handle_request h' v >>= λ (status, h'', v'). some (answered status h'' v'))

  -- The loop of reading leaves `process`, or ends after its first round.
  unfoldable pub read_request : Handler S → Server → ℕ → Option (Bool × Handler S × Server)
  read_request h v now =
      let (rcvd, s) = ops.read_raw h.m_client buf_size in
      let h₁ = record h { m_client = s } in
      elim rcvd [ none ↦ some (false, closed h₁, v) | some bs ↦ received h₁ v now bs ]

  -- `process` at the time `now`
  unfoldable pub process : Handler S → Server → ℕ → Option (Bool × Handler S × Server)
  process h v now =
      if not (check_timeout h now)
      then some (false, closed h, v)
      else (let (ok, p) = StringProto.process ops h.m_proto in
          let h₁ = record h { m_proto = p } in
          if not ok
          then some (false, h₁, v)
          else if h₁.m_request_complete
          then (let (more, h₂) = send h₁ in some (more, h₂, v))
          else read_request h₁ v now)

-- ===== src/Http/Client.antt =====
-- library/src/http/http_client.cpp and its header: a client that sends a request and waits for the
-- response.
pub mod Laws
mod Tests
use networkio.Base.{
  ℕ, zero, suc, ◌-◌, ◌+◌, Bool, true, false, ◌&&◌, not, List, [], ◌∷◌, ◌++◌, Option, none, some,
  ltb, leb, ◌==◌, if◌then◌else◌, length, take, drop, ◌>>=◌,
}
use networkio.Base.Int.{ℤ, pos, negsuc}
use networkio.Http.Parser.{
  ParserStatus, parse_success, parse_error, parse_error_again, field, set_field,
}
use networkio.Http.Request.{Request, slash, set_type, set_uri, params_from}
use networkio.Http.Request as Requests
use networkio.Http.Response.{Response}
use networkio.Http.Response as Responses
use networkio.Interfaces.{ClientOps}
use networkio.Text.{tokenize, tokenize_at, find_char, eq_text, replace_all}
use networkio.Text.Numbers.{Stoi, number, invalid_argument, out_of_range, stoi_result, int_text}

-- Texts of the source, by their characters.
abbrev pub scheme_end : List ℕ
scheme_end = 58 ∷ 47 ∷ 47 ∷ []

abbrev pub http : List ℕ
http = 104 ∷ 116 ∷ 116 ∷ 112 ∷ []

abbrev pub get_word : List ℕ
get_word = 103 ∷ 101 ∷ 116 ∷ []

abbrev pub host_key : List ℕ
host_key = 104 ∷ 111 ∷ 115 ∷ 116 ∷ []

abbrev pub agent_key : List ℕ
agent_key = 117 ∷ 115 ∷ 101 ∷ 114 ∷ 45 ∷ 97 ∷ 103 ∷ 101 ∷ 110 ∷ 116 ∷ []

abbrev pub agent : List ℕ
agent =
    77 ∷ 111 ∷ 122 ∷ 105 ∷ 108 ∷ 108 ∷ 97 ∷ 47 ∷ 53 ∷ 46 ∷ 48 ∷ 32 ∷ 40 ∷ 87 ∷ 105 ∷ 110 ∷ 100 ∷ 111
    ∷ 119 ∷ 115 ∷ 59 ∷ 32 ∷ 85 ∷ 59 ∷ 32 ∷ 87 ∷ 105 ∷ 110 ∷ 100 ∷ 111 ∷ 119 ∷ 115 ∷ 32 ∷ 78 ∷ 84
    ∷ 32 ∷ 54 ∷ 46 ∷ 49 ∷ 59 ∷ 32 ∷ 101 ∷ 110 ∷ 45 ∷ 85 ∷ 83 ∷ 59 ∷ 32 ∷ 114 ∷ 118 ∷ 58 ∷ 49 ∷ 46
    ∷ 57 ∷ 46 ∷ 49 ∷ 46 ∷ 53 ∷ 41 ∷ 32 ∷ 71 ∷ 101 ∷ 99 ∷ 107 ∷ 111 ∷ 47 ∷ 50 ∷ 48 ∷ 48 ∷ 57 ∷ 49
    ∷ 49 ∷ 48 ∷ 50 ∷ 32 ∷ 70 ∷ 105 ∷ 114 ∷ 101 ∷ 102 ∷ 111 ∷ 120 ∷ 47 ∷ 51 ∷ 46 ∷ 53 ∷ 46 ∷ 53 ∷ 32
    ∷ 40 ∷ 46 ∷ 78 ∷ 69 ∷ 84 ∷ 32 ∷ 67 ∷ 76 ∷ 82 ∷ 32 ∷ 51 ∷ 46 ∷ 53 ∷ 46 ∷ 51 ∷ 48 ∷ 55 ∷ 50 ∷ 57
    ∷ 41 ∷ []

abbrev pub connection_key : List ℕ
connection_key = 99 ∷ 111 ∷ 110 ∷ 110 ∷ 101 ∷ 99 ∷ 116 ∷ 105 ∷ 111 ∷ 110 ∷ []

abbrev pub close_word : List ℕ
close_word = 99 ∷ 108 ∷ 111 ∷ 115 ∷ 101 ∷ []

abbrev pub location : List ℕ
location = 108 ∷ 111 ∷ 99 ∷ 97 ∷ 116 ∷ 105 ∷ 111 ∷ 110 ∷ []

abbrev pub http_scheme : List ℕ
http_scheme = 104 ∷ 116 ∷ 116 ∷ 112 ∷ 58 ∷ 47 ∷ 47 ∷ []

abbrev pub https_scheme : List ℕ
https_scheme = 104 ∷ 116 ∷ 116 ∷ 112 ∷ 115 ∷ 58 ∷ 47 ∷ 47 ∷ []

-- What `build_request` gives: the address and the request, or false.
abbrev pub Built : Type 0
Built = Option (List ℕ × Request)

-- The port of the scheme, and what follows the scheme; `none` where the URL has more than one.
unfoldable pub scheme_of : List ℕ → List (List ℕ) → Option (ℤ × List ℕ)
scheme_of url (scheme ∷ host ∷ []) = some (pos (if eq_text scheme http then 80 else 443), host)
scheme_of url (a ∷ b ∷ c ∷ more) = none
scheme_of url tokens = some (pos 443, url)

-- What stands in front of a character, and from it on.
unfoldable pub split_at : ℕ → List ℕ → List ℕ × Option (List ℕ)
split_at c s = elim (find_char c s) [ none ↦ (s, none) | some i ↦ (take i s, some (drop i s)) ]

-- A host with a port. The outer `none` is the exception invalid_argument, which is not caught.
unfoldable pub host_of : List ℕ → ℤ → List (List ℕ) → Option (Option (List ℕ × ℤ))
host_of hostname port (host ∷ number_text ∷ []) = elim (stoi_result number_text) [
  | number n ↦ some (some (host, n))
  | invalid_argument ↦ none
  | out_of_range ↦ some none
]
host_of hostname port tokens = some (some (hostname, port))

-- The request for a host and a URI.
unfoldable pub request_for : Request → List ℕ → List ℕ → Request
request_for req hostname uri =
    let (path, params) = split_at 63 uri in
    let req₁ : Request = elim params [
      | none ↦ req
      | some ps ↦ record req {
        m_get_params = params_from req.m_get_params (tokenize (drop 1 ps) 38);
      }
    ] in
    let req₂ = set_uri (set_type req₁ get_word) path in
    Requests.with_fields req₂ (
      set_field (set_field (set_field req₂.base.m_header_fields host_key hostname) agent_key agent)
        connection_key close_word)

unfoldable pub build_for : Request → List ℕ → ℤ → Option (List ℕ × ℤ) → Option Built
build_for req uri port none = some none
build_for req uri port (some (hostname, p)) =
    some (some (hostname ++ (58 ∷ int_text p), request_for req hostname uri))

unfoldable pub build_request : List ℕ → Option Built
build_request url = tokenize_at url scheme_end >>= λ tokens. elim (scheme_of url tokens) [
  | none ↦ some none
  | some (port, host) ↦
      let (hostname, path) = split_at 47 host in
      let uri : List ℕ = elim path [ none ↦ slash | some p ↦ p ] in
      host_of hostname port (tokenize hostname 58) >>= build_for Requests.make uri port
]

-- What comes of one request: an empty response, a connection that is lost, or a response.
pub data Exchange (S : Type 0) : Type 0 where
  failed : S → Exchange S
  lost : S → Exchange S
  got : Response → S → Exchange S

-- `ops` is the client's connection; `connect` and the options are its too. `timed_out` is the clock
-- against `m_timeout`.
module _ {S : Type 0} (ops : ClientOps S) (connect : S → List ℕ → Bool × S) (set_options : S → S)
    (timed_out : S → Bool) where
  -- The loop of sending: `none` is a connection that still takes nothing after so many rounds.
  unfoldable pub transmit : ℕ → S → List ℕ → Option (Bool × S)
  transmit zero s header = if length header == 0 then some (true, s) else none
  transmit (suc rounds) s header = elim (length header == 0) [
    | true ↦ some (true, s)
    | false ↦
        let (sent, s') = ops.write_raw s header in
        elim sent [
          | none ↦ some (false, ops.close s')
          | some n ↦ transmit rounds s' (drop n header)
        ]
  ]

  -- What the parsing of the bytes so far means for the loop of waiting: `none` is to wait on.
  unfoldable pub parsed : S → ParserStatus → Response → Option (Exchange S)
  parsed s parse_error resp = some (failed (ops.close s))
  parsed s parse_error_again resp = none
  parsed s parse_success resp = some (got resp (ops.close s))

  -- The loop of waiting: `none` is a wait that goes on, or an exception of the parser.
  unfoldable pub await : ℕ → S → List ℕ → Response → Option (Exchange S)
  await zero s respstr resp = none
  await (suc rounds) s respstr resp = elim (timed_out s) [
    | true ↦ some (failed (ops.close s))
    | false ↦
        let (rcvd, s') = ops.read_raw s 0x4000 in
        elim rcvd [
          | none ↦ some (lost (ops.close s'))
          | some [] ↦ await rounds s' respstr resp
          | some (b ∷ bs) ↦ Responses.from_string resp (respstr ++ b ∷ bs) >>= λ (status, resp').
              elim (parsed s' status resp') [
                | some e ↦ some e
                | none ↦ await rounds s' (respstr ++ b ∷ bs) resp'
              ]
        ]
  ]

  -- One request and its response, with so many rounds for each loop.
  unfoldable pub exchange : ℕ → S → List ℕ → Request → Option (Exchange S)
  exchange rounds s address request =
      let (ok, s₁) = connect (set_options s) address in
      if ok
      then (transmit rounds s₁ (Requests.to_string request) >>= λ (sent, s₂).
          let answer = await rounds s₂ [] (Responses.make (pos 404)) in
          if sent then answer else some (failed s₂))
      else some (failed s₁)

  -- A status from 300 to 399.
  abbrev pub is_redirect : ℤ → Bool
  is_redirect (pos n) = leb 300 n && ltb n 400
  is_redirect (negsuc n) = false

  -- The URL of a redirection that is to be followed, and the response, in which the location is
  -- looked up.
  unfoldable pub redirect_of : ℕ → ℕ → Response → Option (Option (List ℕ) × Response)
  redirect_of follow redirects resp =
      let (url, fs) = field resp.base.m_header_fields location in
      let resp' = Responses.with_fields resp fs in
      if is_redirect resp.m_status && ltb redirects follow
      then (if length url == 0
          then some (none, resp')
          else replace_all url http_scheme https_scheme >>= λ u. some (some u, resp'))
      else some (none, resp)

  -- `process_request` with `m_follow_redirects`, for so many requests at most: `none` is one more
  -- request. `redirects++` gives the number that it was, so the number of redirections that is
  -- passed on is the same.
  unfoldable pub process_request : ℕ → ℕ → ℕ → S → List ℕ → Request → ℕ → Option (Response × S)
  process_request zero rounds follow s address request redirects = none
  process_request (suc depth) rounds follow s address request redirects =
      exchange rounds s address request >>= λ e. elim e [
        | failed s' ↦ some (Responses.make (pos 404), s')
        | lost s' ↦ process_request depth rounds follow s' address request redirects
        | got resp s' ↦ redirect_of follow redirects resp >>= λ (redirect, resp'). elim redirect [
          | none ↦ some (resp', s')
          | some url ↦ build_request url >>= λ built. elim built [
            | none ↦ some (resp', s')
            | some (address', request') ↦
                process_request depth rounds follow s' address' request' redirects
          ]
        ]
      ]

  -- `request_sync`
  unfoldable pub request_sync : ℕ → ℕ → ℕ → S → List ℕ → Option (Response × S)
  request_sync depth rounds follow s url = build_request url >>= λ built. elim built [
    | none ↦ some (Responses.make (pos 404), s)
    | some (address, request) ↦ process_request depth rounds follow s address request 0
  ]

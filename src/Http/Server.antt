-- ===== src/Http/Server.antt =====
-- `endpoint` and `server` of library/src/http/http_server.cpp and its header, and what
-- `server_handler` answers to a request. Child modules model the handler as a state machine.
pub mod Handler
pub mod Paths
pub mod Laws
mod Tests
use networkio.Base.{
  ℕ, Bool, true, false, List, [], ◌∷◌, ◌++◌, Option, none, some, ltb, ◌==◌, if◌then◌else◌, length,
  map, ◌>>=◌,
}
use networkio.Base.Int.{ℤ, pos, negsuc}
use networkio.Http.Url.{to_lower}
use networkio.Http.Parser.{
  ParserStatus, parse_success, parse_error, parse_error_again, field, set_field,
}
use networkio.Http.Request.{Request, get_type}
use networkio.Http.Request as Requests
use networkio.Http.Response.{Response, set_file}
use networkio.Http.Response as Responses
use networkio.Text.{tokenize, eq_text}
use networkio.Text.Numbers.{int_text}

-- A function is a number, 0 for none.
pub record Endpoint : Type 0 where
  pub m_get : ℕ
  pub m_post : ℕ
  pub m_folder : List ℕ

abbrev pub fresh_endpoint : Endpoint
fresh_endpoint = record { m_get = 0; m_post = 0; m_folder = [] }

-- `get`, `post` and `folder` of an endpoint, with what is set.
unfoldable pub set_get : Endpoint → ℕ → Endpoint
set_get e func = record e { m_get = func }

unfoldable pub set_post : Endpoint → ℕ → Endpoint
set_post e func = record e { m_post = func }

unfoldable pub set_folder : Endpoint → List ℕ → Endpoint
set_folder e folder = record e { m_folder = folder }

-- `unordered_map` of pointers: a lookup by `[]` puts a null pointer where the key is missing.
abbrev pub Endpoints : Type 0
Endpoints = List (List ℕ × Option Endpoint)

unfoldable pub lookup : Endpoints → List ℕ → Option Endpoint × Endpoints
lookup [] key = (none, (key, none) ∷ [])
lookup ((k, e) ∷ rest) key =
    let (found, rest') = lookup rest key in
    if eq_text k key then (e, (k, e) ∷ rest) else (found, (k, e) ∷ rest')

unfoldable pub assign : Endpoints → List ℕ → Endpoint → Endpoints
assign [] key x = (key, some x) ∷ []
assign ((k, e) ∷ rest) key x =
    let rest' = assign rest key x in if eq_text k key then (k, some x) ∷ rest else (k, e) ∷ rest'

pub record Server : Type 0 where
  pub m_default_endpoint : Option Endpoint
  pub m_endpoints : Endpoints

-- `endpoint_default` and `endpoint`: the endpoint that is to be changed, which is made where it is
-- missing, and its key, none for the default.
unfoldable pub endpoint_default : Server → Endpoint × Server
endpoint_default v = elim v.m_default_endpoint [
  | none ↦ (fresh_endpoint, record v { m_default_endpoint = some fresh_endpoint })
  | some e ↦ (e, v)
]

-- A `/` in front.
abbrev pub rooted : List ℕ → List ℕ
rooted [] = []
rooted (c ∷ cs) = if c == 47 then c ∷ cs else 47 ∷ c ∷ cs

unfoldable pub endpoint : Server → List ℕ → Endpoint × Server
endpoint v name =
    if length name == 0
    then endpoint_default v
    else (let (found, es) = lookup v.m_endpoints (rooted name) in
        elim found [
          | some e ↦ (e, record v { m_endpoints = es })
          | none ↦
              (fresh_endpoint, record v { m_endpoints = assign es (rooted name) fresh_endpoint })
        ])

-- `connection`
pub record Connection : Type 0 where
  pub m_request : Request
  pub m_response : Response

abbrev pub fresh_connection : Connection
fresh_connection = record { m_request = Requests.make; m_response = Responses.make (pos 404) }

-- What stands behind the `/` of each token.
unfoldable pub joined : List (List ℕ) → List ℕ
joined [] = []
joined (t ∷ ts) = 47 ∷ t ++ joined ts

abbrev pub folder_of : Option Endpoint → List ℕ
folder_of none = []
folder_of (some e) = e.m_folder

-- The loop over the directories of a URI: the folder of the first that has one, and the path in it.
-- The last token is not looked up.
unfoldable pub find_folder : Endpoints → List ℕ → List (List ℕ) → (List ℕ × List ℕ) × Endpoints
find_folder es u [] = (([], []), es)
find_folder es u (t ∷ []) = (([], []), es)
find_folder es u (t ∷ t' ∷ ts) =
    let (e, es') = lookup es (u ++ 47 ∷ t) in
    let rest = find_folder es' (u ++ 47 ∷ t) (t' ∷ ts) in
    if length (folder_of e) == 0 then rest else ((folder_of e, joined (t' ∷ ts)), es')

-- The endpoint whose function is called: the default one where the URI has none, or none for the
-- method.
abbrev pub function_of : (Endpoint → ℕ) → Option Endpoint → Option Endpoint → ℕ
function_of method none none = 0
function_of method none (some d) = method d
function_of method (some e) d =
    if method e == 0 then elim d [ none ↦ 0 | some d' ↦ method d' ] else method e

-- "keep-alive" and the other texts of the header, by their characters.
abbrev pub post_type : List ℕ
post_type = 80 ∷ 79 ∷ 83 ∷ 84 ∷ []

abbrev pub connection_key : List ℕ
connection_key = 99 ∷ 111 ∷ 110 ∷ 110 ∷ 101 ∷ 99 ∷ 116 ∷ 105 ∷ 111 ∷ 110 ∷ []

abbrev pub keep_alive : List ℕ
keep_alive = 107 ∷ 101 ∷ 101 ∷ 112 ∷ 45 ∷ 97 ∷ 108 ∷ 105 ∷ 118 ∷ 101 ∷ []

abbrev pub timeout_text : List ℕ
timeout_text = 116 ∷ 105 ∷ 109 ∷ 101 ∷ 111 ∷ 117 ∷ 116 ∷ 61 ∷ []

abbrev pub max_text : List ℕ
max_text = 44 ∷ 32 ∷ 109 ∷ 97 ∷ 120 ∷ 61 ∷ []

-- `files` are the files that can be read, and `run` calls a function of an endpoint.
module _ (files : List ℕ → Option (List ℕ)) (run : ℕ → Connection → Option Connection) where
  -- The function of an endpoint, or the response as it is: `none` is a function that does not return.
  unfoldable pub respond : Connection → ℕ → Option (List ℕ × Connection)
  respond conn f = (if f == 0 then some conn else run f conn) >>= λ c.
      let (text, r) = Responses.to_string c.m_response in some (text, record c { m_response = r })

  -- A GET with a folder and the path in it, or an empty folder: the file, or else the function of the
  -- URI's endpoint.
  unfoldable pub get_from :
      Server → Connection → List ℕ → List ℕ → Endpoints → Option (List ℕ × Server)
  get_from v conn folder path es =
      let (ok, r) = set_file files conn.m_response (folder ++ path) in
      let conn' = if length folder == 0 then conn else record conn { m_response = r } in
      if (if length folder == 0 then false else ok)
      then (let (text, _) = Responses.to_string r in some (text, record v { m_endpoints = es }))
      else (let (e, es') = lookup es conn.m_request.m_uri in
          respond conn' (function_of (λ e. e.m_get) e v.m_default_endpoint) >>= λ (text, _).
          some (text, record v { m_endpoints = es' }))

  -- `handle_request_get`: the response's text, and the map of endpoints.
  unfoldable pub handle_request_get : Server → Connection → Option (List ℕ × Server)
  handle_request_get v conn =
      let (found, es) = find_folder v.m_endpoints [] (tokenize conn.m_request.m_uri 47) in
      let (folder, path) = found in get_from v conn folder path es

  unfoldable pub handle_request_post : Server → Connection → Option (List ℕ × Server)
  handle_request_post v conn =
      let (e, es) = lookup v.m_endpoints conn.m_request.m_uri in
      respond conn (function_of (λ e. e.m_post) e v.m_default_endpoint) >>= λ (text, _).
      some (text, record v { m_endpoints = es })

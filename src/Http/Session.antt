-- ===== src/Http/Session.antt =====
-- library/src/http/http_session_store.cpp and its header: the sessions of the clients of a server.
-- The user data of a session is not modelled here.
pub mod Laws
mod Tests
use networkio.Base.{
  ℕ, zero, suc, Bool, true, false, ◌||◌, not, List, [], ◌∷◌, Option, none, some, ◌==◌,
  if◌then◌else◌, length,
}
use networkio.Http.Cookie.{Cookie}
use networkio.Http.Cookie as Cookies
use networkio.Http.Parser.{field}
use networkio.Http.Request.{slash}
use networkio.Http.Response.{set_named}
use networkio.Http.Server.{Connection}
use networkio.Text.{eq_text}

-- `session`, by its id.
abbrev pub Session : Type 0
Session = List ℕ

unfoldable pub is_valid : Session → Bool
is_valid sid = not (length sid == 0)

-- `m_sessions`: a lookup by `[]` puts a null pointer where the key is missing.
abbrev pub Sessions : Type 0
Sessions = List (List ℕ × Option Session)

unfoldable pub find_session : Sessions → List ℕ → Option Session
find_session [] key = none
find_session ((k, s) ∷ rest) key = if eq_text k key then s else find_session rest key

unfoldable pub touch : Sessions → List ℕ → Sessions
touch [] key = (key, none) ∷ []
touch ((k, s) ∷ rest) key = if eq_text k key then (k, s) ∷ rest else (k, s) ∷ touch rest key

unfoldable pub store : Sessions → List ℕ → Session → Sessions
store [] key x = (key, some x) ∷ []
store ((k, s) ∷ rest) key x =
    if eq_text k key then (k, some x) ∷ rest else (k, s) ∷ store rest key x

-- Texts of the source, by their characters.
abbrev pub session_key : List ℕ
session_key = 115 ∷ 101 ∷ 115 ∷ 115 ∷ 105 ∷ 111 ∷ 110 ∷ 95 ∷ 105 ∷ 100 ∷ []

abbrev pub implement_me : List ℕ
implement_me = 105 ∷ 109 ∷ 112 ∷ 108 ∷ 101 ∷ 109 ∷ 101 ∷ 110 ∷ 116 ∷ 95 ∷ 109 ∷ 101 ∷ []

-- `generate_session_id`
abbrev pub generate_session_id : List ℕ
generate_session_id = implement_me

abbrev pub is_free : Option Session → Bool
is_free none = true
is_free (some s) = not (is_valid s)

-- The search for a free id, which holds the lock: `none` is a search that still goes on after so many
-- rounds.
unfoldable pub search : ℕ → Sessions → Option (Session × Sessions)
search zero ss = none
search (suc rounds) ss =
    let rest = search rounds (touch ss generate_session_id) in
    if is_free (find_session ss generate_session_id)
    then some (generate_session_id, touch ss generate_session_id)
    else rest

abbrev pub named : List (List ℕ × Cookie) → List ℕ → Cookie
named [] key = Cookies.make
named ((k, c) ∷ rest) key = if eq_text k key then c else named rest key

-- The cookie of the new session.
abbrev pub with_cookie : Connection → Session → Connection
with_cookie conn sid =
    let cookies = conn.m_response.m_cookies in
    record conn {
      m_response = record conn.m_response {
        m_cookies = set_named cookies session_key (record (named cookies session_key) {
          m_name = session_key;
          m_value = sid;
          m_http_only = true;
          m_path = slash;
        });
      };
    }

-- The cookie of a request.
abbrev pub cookie_of : Connection → List ℕ
cookie_of conn = let (sid, _) = field conn.m_request.m_cookies session_key in sid

abbrev pub looked_up : Connection → Connection
looked_up conn =
    let (_, cs) = field conn.m_request.m_cookies session_key in
    record conn { m_request = record conn.m_request { m_cookies = cs } }

-- `get`, with so many rounds for the search.
unfoldable pub get : ℕ → Sessions → Connection → Option (Session × Sessions × Connection)
get rounds ss conn =
    let sid = cookie_of conn in
    let ss₁ = touch ss sid in
    if is_free (find_session ss sid)
    then elim (search rounds ss₁) [
      | none ↦ none
      | some (s, ss₂) ↦ some (s, store ss₂ s s, with_cookie (looked_up conn) s)
    ]
    else elim (find_session ss sid) [ none ↦ none | some s ↦ some (s, ss₁, looked_up conn) ]

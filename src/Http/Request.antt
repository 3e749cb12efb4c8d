-- ===== src/Http/Request.antt =====
-- library/src/http/http_request.cpp and its header: the request line, the parameters and the cookies
-- of a request.
use networkio.Base.{
  ◌-◌, ℕ, List, [], ◌∷◌, ◌++◌, Option, none, some, ltb, ◌==◌, if◌then◌else◌, length, map, ◌>>=◌,
}
use networkio.Base.Int.{pos, negsuc}
use networkio.Http.Url.{c_string, url_decode, between}
use networkio.Http.Parser.{
  ParserStatus, parse_success, parse_error, parse_error_again, Parser, Fields, set_field, field,
  header_from_string, header_to_string, empty,
}
use networkio.Text.{tokenize, strip_all, eq_text}
use networkio.Text.Numbers.{Stoi, number, invalid_argument, out_of_range, stoi_result}

pub record Request : Type 0 where
  pub base : Parser
  pub m_type : List ℕ
  pub m_uri : List ℕ
  pub m_get_params : Fields
  pub m_proto : List ℕ
  pub m_version : List ℕ
  pub m_cookies : Fields

-- The texts that the source compares with, by their characters.
abbrev pub get_type : List ℕ
get_type = 71 ∷ 69 ∷ 84 ∷ []

abbrev pub slash : List ℕ
slash = 47 ∷ []

abbrev pub http_proto : List ℕ
http_proto = 72 ∷ 84 ∷ 84 ∷ 80 ∷ []

abbrev pub version_1_1 : List ℕ
version_1_1 = 49 ∷ 46 ∷ 49 ∷ []

abbrev pub content_length : List ℕ
content_length =
    99 ∷ 111 ∷ 110 ∷ 116 ∷ 101 ∷ 110 ∷ 116 ∷ 45 ∷ 108 ∷ 101 ∷ 110 ∷ 103 ∷ 116 ∷ 104 ∷ []

abbrev pub content_type : List ℕ
content_type = 99 ∷ 111 ∷ 110 ∷ 116 ∷ 101 ∷ 110 ∷ 116 ∷ 45 ∷ 116 ∷ 121 ∷ 112 ∷ 101 ∷ []

abbrev pub form_type : List ℕ
form_type =
    97 ∷ 112 ∷ 112 ∷ 108 ∷ 105 ∷ 99 ∷ 97 ∷ 116 ∷ 105 ∷ 111 ∷ 110 ∷ 47 ∷ 120 ∷ 45 ∷ 119 ∷ 119 ∷ 119
    ∷ 45 ∷ 102 ∷ 111 ∷ 114 ∷ 109 ∷ 45 ∷ 117 ∷ 114 ∷ 108 ∷ 101 ∷ 110 ∷ 99 ∷ 111 ∷ 100 ∷ 101 ∷ 100
    ∷ []

abbrev pub cookie_key : List ℕ
cookie_key = 99 ∷ 111 ∷ 111 ∷ 107 ∷ 105 ∷ 101 ∷ []

abbrev pub separators : List ℕ
separators =
    32 ∷ 9 ∷ 40 ∷ 41 ∷ 60 ∷ 62 ∷ 64 ∷ 44 ∷ 59 ∷ 58 ∷ 92 ∷ 34 ∷ 47 ∷ 91 ∷ 93 ∷ 63 ∷ 61 ∷ 123 ∷ 125
    ∷ []

-- `request()`
abbrev pub make : Request
make = record {
  base = empty;
  m_type = get_type;
  m_uri = slash;
  m_get_params = [];
  m_proto = http_proto;
  m_version = version_1_1;
  m_cookies = [];
}

unfoldable pub update_header : Request → Request
update_header r = record r {
  base = record r.base {
    m_header = r.m_type ++ (32 ∷ r.m_uri ++ (32 ∷ r.m_proto ++ (47 ∷ r.m_version)));
  };
}

-- `toupper`
abbrev pub to_upper : ℕ → ℕ
to_upper c = if between 97 122 c then c - 32 else c

unfoldable pub set_type : Request → List ℕ → Request
set_type r type = update_header (record r { m_type = map to_upper type })

unfoldable pub set_uri : Request → List ℕ → Request
set_uri r uri = update_header (record r { m_uri = uri })

unfoldable pub set_proto : Request → List ℕ → Request
set_proto r proto = update_header (record r { m_proto = proto })

unfoldable pub to_string : Request → List ℕ
to_string r = header_to_string r.base

-- One pair of `parse_get_params`, by its tokens.
abbrev pub add_pair : Fields → List (List ℕ) → Fields
add_pair res (key ∷ val ∷ []) = set_field res key val
add_pair res tokens = res

unfoldable pub params_from : Fields → List (List ℕ) → Fields
params_from res [] = res
params_from res (pair ∷ pairs) = params_from (add_pair res (tokenize pair 61)) pairs

unfoldable pub parse_get_params : List ℕ → Fields
parse_get_params s = params_from [] (tokenize s 38)

-- One cookie of `parse_cookies`, by its tokens.
unfoldable pub add_cookie : Fields → List (List ℕ) → Option Fields
add_cookie r (name ∷ val ∷ []) =
    strip_all name separators >>= λ key. some (set_field r key (url_decode (c_string val)))
add_cookie r tokens = some r

unfoldable pub cookies_from : Fields → List (List ℕ) → Option Fields
cookies_from r [] = some r
cookies_from r (cookie ∷ cookies) =
    add_cookie r (tokenize cookie 61) >>= λ r'. cookies_from r' cookies

unfoldable pub parse_cookies : List ℕ → Option Fields
parse_cookies s = cookies_from [] (tokenize s 59)

-- A lookup of a field of the header.
abbrev pub with_fields : Request → Fields → Request
with_fields r fs = record r { base = record r.base { m_header_fields = fs } }

-- The type, and the URI with its parameters.
abbrev pub get_uri : Request → List ℕ → List (List ℕ) → Request
get_uri r uri [] = record r { m_uri = uri; m_get_params = [] }
get_uri r uri (path ∷ []) = record r { m_uri = path }
get_uri r uri (path ∷ params ∷ more) = record r {
  m_uri = path;
  m_get_params = parse_get_params params;
}

unfoldable pub read_uri : Request → List ℕ → List ℕ → Request
read_uri r type token =
    let uri = url_decode (c_string token) in
    if eq_text type get_type
    then get_uri (record r { m_type = type }) uri (tokenize uri 63)
    else record r { m_type = type; m_uri = uri; m_get_params = [] }

-- The cookies, if there is such a field.
unfoldable pub read_cookies : Request → Option (ParserStatus × Request)
read_cookies r =
    let (val, fs) = field r.base.m_header_fields cookie_key in
    if length val == 0
    then some (parse_success, with_fields r fs)
    else parse_cookies val >>= λ cs.
        some (parse_success, record (with_fields r fs) { m_cookies = cs })

-- The parameters of a form, which stand in the body.
unfoldable pub read_form : Request → Option (ParserStatus × Request)
read_form r =
    let (val, fs) = field r.base.m_header_fields content_type in
    read_cookies (
      if eq_text val form_type
      then record (with_fields r fs) { m_get_params = parse_get_params r.base.m_body }
      else with_fields r fs)

-- The length that the header gives against that of the body: `none` is the exception
-- invalid_argument, which is not caught.
unfoldable pub read_length : Request → Stoi → Option (ParserStatus × Request)
read_length r (number (pos n)) =
    if ltb (length r.base.m_body) n then some (parse_error_again, r) else read_form r
read_length r (number (negsuc n)) = read_form r
read_length r invalid_argument = none
read_length r out_of_range = read_form r

unfoldable pub check_length : Request → Option (ParserStatus × Request)
check_length r =
    let (val, fs) = field r.base.m_header_fields content_length in
    if length val == 0
    then read_form (with_fields r fs)
    else read_length (with_fields r fs) (stoi_result val)

unfoldable pub read_proto : Request → List (List ℕ) → Option (ParserStatus × Request)
read_proto r (proto ∷ version ∷ []) =
    check_length (record r { m_proto = proto; m_version = version })
read_proto r tokens = some (parse_error, r)

unfoldable pub read_line : Request → List (List ℕ) → Option (ParserStatus × Request)
read_line r (type ∷ uri ∷ proto ∷ more) = read_proto (read_uri r type uri) (tokenize proto 47)
read_line r tokens = some (parse_error, r)

-- What follows the parsing of the header.
unfoldable pub read_header : Request → ParserStatus → Parser → Option (ParserStatus × Request)
read_header r parse_success p = read_line (record r { base = p }) (tokenize p.m_header 32)
read_header r parse_error p = some (parse_error, record r { base = p })
read_header r parse_error_again p = some (parse_error_again, record r { base = p })

-- `from_string`: `none` is an exception.
unfoldable pub from_string : Request → List ℕ → Option (ParserStatus × Request)
from_string r req = header_from_string r.base req >>= λ (status, p). read_header r status p

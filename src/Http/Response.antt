-- ===== src/Http/Response.antt =====
-- `response` of library/src/http/http_response.cpp and its header.
pub mod Laws
mod Tests
use networkio.Base.{
  ℕ, ◌+◌, ◌-◌, ◌^◌, Bool, true, false, ◌&&◌, List, [], ◌∷◌, ◌++◌, Option, none, some, ltb, ◌==◌,
  if◌then◌else◌, length, ◌>>=◌,
}
use networkio.Base.Int.{ℤ, pos, negsuc}
use networkio.Http.Status.{status_code_to_str, resolve_content_type, text_html}
use networkio.Http.Cookie.{Cookie}
use networkio.Http.Cookie as Cookies
use networkio.Http.Parser.{
  ParserStatus, parse_success, parse_error, parse_error_again, Parser, Fields, set_field, field,
  header_from_string, header_to_string, empty,
}
use networkio.Http.Request.{http_proto, version_1_1, content_length, content_type}
use networkio.Text.{tokenize, eq_text}
use networkio.Text.Numbers.{
  Stoi, number, invalid_argument, out_of_range, stoi_result, to_string as number_text, int_text,
}

pub record Response : Type 0 where
  pub base : Parser
  pub m_proto : List ℕ
  pub m_version : List ℕ
  pub m_status : ℤ
  pub m_status_str : List ℕ
  pub m_cookies : List (List ℕ × Cookie)

-- Texts of the source, by their characters.
abbrev pub server_key : List ℕ
server_key = 115 ∷ 101 ∷ 114 ∷ 118 ∷ 101 ∷ 114 ∷ []

abbrev pub apache : List ℕ
apache = 97 ∷ 112 ∷ 97 ∷ 99 ∷ 104 ∷ 101 ∷ []

abbrev pub zero_text : List ℕ
zero_text = 48 ∷ []

abbrev pub set_cookie : List ℕ
set_cookie = 115 ∷ 101 ∷ 116 ∷ 45 ∷ 99 ∷ 111 ∷ 111 ∷ 107 ∷ 105 ∷ 101 ∷ []

unfoldable pub set_status : Response → ℤ → Response
set_status r s = record r { m_status = s; m_status_str = status_code_to_str s }

abbrev pub with_fields : Response → Fields → Response
with_fields r fs = record r { base = record r.base { m_header_fields = fs } }

unfoldable pub set_body : Response → List ℕ → Response
set_body r s =
    let r₁ = set_status r (pos 200) in
    record r₁ {
      base = record r₁.base {
        m_header_fields = set_field r₁.base.m_header_fields content_length (number_text (length s));
        m_body = s;
      };
    }

-- `response(status)`, and with a body.
unfoldable pub make : ℤ → Response
make status =
    set_status
      (record {
        base = record empty {
          m_header_fields =
              set_field (set_field (set_field [] server_key apache) content_type text_html)
                content_length zero_text;
        };
        m_proto = http_proto;
        m_version = version_1_1;
        m_status = status;
        m_status_str = [];
        m_cookies = [];
      })
      status

unfoldable pub make_body : List ℕ → Response
make_body body = set_body (make (pos 200)) body

-- The files, by their names: `none` is a file that cannot be opened, whose size `tellg` gives as -1.
-- No file changes during a call.
unfoldable pub file_getsize : (List ℕ → Option (List ℕ)) → List ℕ → ℕ
file_getsize files f = elim (files f) [ none ↦ 2 ^ 64 - 1 | some bs ↦ length bs ]

-- The bytes that are read into the buffer.
unfoldable pub file_read : (List ℕ → Option (List ℕ)) → List ℕ → ℕ → Option (List ℕ)
file_read files f size = if size == file_getsize files f then files f else none

abbrev pub not_found : Response → Response
not_found r = let r₁ = set_status r (pos 404) in record r₁ { base = record r₁.base { m_body = [] } }

abbrev pub file_found : Response → List ℕ → List ℕ → Response
file_found r f bs =
    let r₁ = set_status r (pos 200) in
    record r₁ {
      base = record r₁.base {
        m_header_fields = set_field r₁.base.m_header_fields content_type (resolve_content_type f);
        m_body = bs;
      };
    }

unfoldable pub set_file : (List ℕ → Option (List ℕ)) → Response → List ℕ → Bool × Response
set_file files r f =
    let size = file_getsize files f in
    if size == 0 then (false, not_found r) else elim (file_read files f size) [
      | none ↦ (false, not_found r)
      | some bs ↦ (true, file_found r f bs)
    ]

abbrev pub set_named : List (List ℕ × Cookie) → List ℕ → Cookie → List (List ℕ × Cookie)
set_named [] key c = (key, c) ∷ []
set_named ((k, v) ∷ rest) key c =
    if eq_text k key then (k, c) ∷ rest else (k, v) ∷ set_named rest key c

-- The cookie of the header, kept if it can be read.
unfoldable pub read_cookie : Response → Option (ParserStatus × Response)
read_cookie r =
    let (val, fs) = field r.base.m_header_fields set_cookie in
    let r₁ = with_fields r fs in
    if length val == 0
    then some (parse_success, r₁)
    else Cookies.from_string Cookies.make val >>= λ (ok, c). some (
      parse_success,
      if ok then record r₁ { m_cookies = set_named r₁.m_cookies c.m_name c } else r₁,
    )

-- `none` is the exception invalid_argument, which is not caught.
unfoldable pub read_length : Response → Stoi → Option (ParserStatus × Response)
read_length r (number (pos n)) =
    if ltb (length r.base.m_body) n then some (parse_error_again, r) else read_cookie r
read_length r (number (negsuc n)) = read_cookie r
read_length r invalid_argument = none
read_length r out_of_range = read_cookie r

unfoldable pub check_length : Response → Option (ParserStatus × Response)
check_length r =
    let (val, fs) = field r.base.m_header_fields content_length in
    if length val == 0
    then read_cookie (with_fields r fs)
    else read_length (with_fields r fs) (stoi_result val)

-- The words of the status, a blank between them.
abbrev pub spaced : List ℕ → List (List ℕ) → List ℕ
spaced s [] = s
spaced s (w ∷ ws) = spaced (s ++ 32 ∷ w) ws

unfoldable pub read_status :
    Response → Stoi → List ℕ → List (List ℕ) → Option (ParserStatus × Response)
read_status r (number n) word words =
    check_length (record r { m_status = n; m_status_str = spaced word words })
read_status r invalid_argument word words = none
read_status r out_of_range word words = some (parse_error, r)

unfoldable pub read_proto :
    Response → List (List ℕ) → List ℕ → List ℕ → List (List ℕ) → Option (ParserStatus × Response)
read_proto r (proto ∷ version ∷ []) code word words =
    read_status (record r { m_proto = proto; m_version = version }) (stoi_result code) word words
read_proto r tokens code word words = some (parse_error, r)

unfoldable pub read_line : Response → List (List ℕ) → Option (ParserStatus × Response)
read_line r (proto ∷ code ∷ word ∷ words) = read_proto r (tokenize proto 47) code word words
read_line r tokens = some (parse_error, r)

unfoldable pub read_header : Response → ParserStatus → Parser → Option (ParserStatus × Response)
read_header r parse_success p = read_line (record r { base = p }) (tokenize p.m_header 32)
read_header r parse_error p = some (parse_error, record r { base = p })
read_header r parse_error_again p = some (parse_error_again, record r { base = p })

-- `from_string`: `none` is an exception.
unfoldable pub from_string : Response → List ℕ → Option (ParserStatus × Response)
from_string r resp = header_from_string r.base resp >>= λ (status, p). read_header r status p

-- Each cookie overwrites the one before.
unfoldable pub cookie_fields : List (List ℕ × Cookie) → Fields → Fields
cookie_fields [] fs = fs
cookie_fields ((k, c) ∷ rest) fs =
    cookie_fields rest (set_field fs set_cookie (Cookies.to_string c))

-- The response as `to_string` leaves it, and the text.
unfoldable pub to_string : Response → List ℕ × Response
to_string r =
    let p = record r.base {
      m_header =
          r.m_proto
          ++ (47 ∷ r.m_version
              ++ (32 ∷ int_text r.m_status ++ (32 ∷ status_code_to_str r.m_status)));
      m_header_fields = cookie_fields r.m_cookies r.base.m_header_fields;
    } in
    (header_to_string p, record r { base = p })

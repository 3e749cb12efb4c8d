-- ===== src/Http/Parser.antt =====
-- library/src/http/http_parser.cpp and its header: the header and the body of a message.
pub mod Laws
pub mod Lookups
mod Tests
use networkio.Base.{
  ℕ, ◌+◌, Bool, true, false, List, [], ◌∷◌, ◌++◌, Option, none, some, ltb, if◌then◌else◌, length,
  take, drop, map, ◌>>=◌,
}
use networkio.Http.Url.{to_lower}
use networkio.Text.{cut_at, find_char, tokenize_at, eq_text}

-- `parser_status`
pub data ParserStatus : Type 0 where
  parse_success : ParserStatus
  parse_error : ParserStatus
  parse_error_again : ParserStatus

-- An `unordered_map` of strings, as the list of its pairs. The order in which it is walked through,
-- which the standard leaves open, is taken to be that of the insertions.
abbrev pub Fields : Type 0
Fields = List (List ℕ × List ℕ)

-- `m[key] = val`
unfoldable pub set_field : Fields → List ℕ → List ℕ → Fields
set_field [] key val = (key, val) ∷ []
set_field ((k, v) ∷ rest) key val =
    if eq_text k key then (k, val) ∷ rest else (k, v) ∷ set_field rest key val

unfoldable pub find_field : Fields → List ℕ → Option (List ℕ)
find_field [] key = none
find_field ((k, v) ∷ rest) key = if eq_text k key then some v else find_field rest key

-- `m[key]`, which puts an empty string in the map where the key is missing.
unfoldable pub field : Fields → List ℕ → List ℕ × Fields
field fs key = elim (find_field fs key) [ none ↦ ([], set_field fs key []) | some v ↦ (v, fs) ]

pub record Parser : Type 0 where
  pub m_header : List ℕ
  pub m_header_fields : Fields
  pub m_body : List ℕ

abbrev pub empty : Parser
empty = record { m_header = []; m_header_fields = []; m_body = [] }

abbrev pub crlf : List ℕ
crlf = 13 ∷ 10 ∷ []

-- `s.substr(n)`: `none` is the exception out_of_range.
unfoldable pub substr_from : List ℕ → ℕ → Option (List ℕ)
substr_from s n = if ltb (length s) n then none else some (drop n s)

-- The lines behind the first, up to one without a colon: `none` is an exception.
unfoldable pub parse_fields : List (List ℕ) → Fields → Option Fields
parse_fields [] fs = some fs
parse_fields (l ∷ lines) fs = elim (find_char 58 l) [
  | none ↦ some fs
  | some d ↦ substr_from l (d + 2) >>= λ val.
      parse_fields lines (set_field fs (map to_lower (take d l)) val)
]

-- The first line, and the others; there is always a first.
unfoldable pub parse_lines : Parser → List ℕ → List (List ℕ) → Option (ParserStatus × Parser)
parse_lines p body [] = some (parse_error_again, record p { m_body = body })
parse_lines p body (first ∷ lines) = do
  fs ← parse_fields lines p.m_header_fields
  some (parse_success, record { m_header = first; m_header_fields = fs; m_body = body })

-- `header_from_string`: `none` is the exception out_of_range.
unfoldable pub header_from_string : Parser → List ℕ → Option (ParserStatus × Parser)
header_from_string p http = elim (cut_at (13 ∷ 10 ∷ 13 ∷ 10 ∷ []) http) [
  | none ↦ some (parse_error_again, p)
  | some (header, body) ↦ tokenize_at header crlf >>= parse_lines p body
]

unfoldable pub fields_text : Fields → List ℕ
fields_text [] = []
fields_text ((k, v) ∷ rest) = k ++ (58 ∷ 32 ∷ v ++ (crlf ++ fields_text rest))

unfoldable pub header_to_string : Parser → List ℕ
header_to_string p = p.m_header ++ (crlf ++ (fields_text p.m_header_fields ++ (crlf ++ p.m_body)))

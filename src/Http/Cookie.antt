-- ===== src/Http/Cookie.antt =====
-- `response_cookie` of library/src/http/http_response.cpp and its header: a cookie of a response.
pub mod Laws
mod Tests
use networkio.Base.{
  ℕ, ◌-◌, Bool, true, false, ◌&&◌, List, [], ◌∷◌, ◌++◌, Option, none, some, ltb, ◌==◌,
  if◌then◌else◌, length, map, take, drop, get_elem?, ◌>>=◌,
}
use networkio.Base.Int.{ℤ, pos, negsuc}
use networkio.Http.Url.{c_string, url_decode, url_encode, to_lower}
use networkio.Http.Request.{separators}
use networkio.Text.{tokenize, strip_all, eq_text}
use networkio.Text.Numbers.{Stoi, number, invalid_argument, out_of_range, stoi_result, int_text}

pub record Cookie : Type 0 where
  pub m_name : List ℕ
  pub m_value : List ℕ
  pub m_expire_date : List ℕ
  pub m_max_age : ℤ
  pub m_domain : List ℕ
  pub m_path : List ℕ
  pub m_secure : Bool
  pub m_http_only : Bool
  pub m_same_site : List ℕ
  pub m_version : ℤ

abbrev pub make : Cookie
make = record {
  m_name = [];
  m_value = [];
  m_expire_date = [];
  m_max_age = negsuc 0;
  m_domain = [];
  m_path = [];
  m_secure = false;
  m_http_only = false;
  m_same_site = [];
  m_version = pos 0;
}

-- The texts that the source uses, by their characters.
abbrev pub expires : List ℕ
expires = 101 ∷ 120 ∷ 112 ∷ 105 ∷ 114 ∷ 101 ∷ 115 ∷ []

abbrev pub max_age : List ℕ
max_age = 109 ∷ 97 ∷ 120 ∷ 45 ∷ 97 ∷ 103 ∷ 101 ∷ []

abbrev pub domain : List ℕ
domain = 100 ∷ 111 ∷ 109 ∷ 97 ∷ 105 ∷ 110 ∷ []

abbrev pub path : List ℕ
path = 112 ∷ 97 ∷ 116 ∷ 104 ∷ []

abbrev pub secure : List ℕ
secure = 115 ∷ 101 ∷ 99 ∷ 117 ∷ 114 ∷ 101 ∷ []

abbrev pub http_only : List ℕ
http_only = 104 ∷ 116 ∷ 116 ∷ 112 ∷ 111 ∷ 110 ∷ 108 ∷ 121 ∷ []

abbrev pub same_site : List ℕ
same_site = 115 ∷ 97 ∷ 109 ∷ 101 ∷ 115 ∷ 105 ∷ 116 ∷ 101 ∷ []

abbrev pub version : List ℕ
version = 118 ∷ 101 ∷ 114 ∷ 115 ∷ 105 ∷ 111 ∷ 110 ∷ []

abbrev pub semi_expires : List ℕ
semi_expires = 59 ∷ 69 ∷ 120 ∷ 112 ∷ 105 ∷ 114 ∷ 101 ∷ 115 ∷ 61 ∷ []

abbrev pub semi_max_age : List ℕ
semi_max_age = 59 ∷ 77 ∷ 97 ∷ 120 ∷ 45 ∷ 65 ∷ 103 ∷ 101 ∷ 61 ∷ []

abbrev pub semi_domain : List ℕ
semi_domain = 59 ∷ 68 ∷ 111 ∷ 109 ∷ 97 ∷ 105 ∷ 110 ∷ 61 ∷ []

abbrev pub semi_path : List ℕ
semi_path = 59 ∷ 80 ∷ 97 ∷ 116 ∷ 104 ∷ 61 ∷ []

abbrev pub semi_secure : List ℕ
semi_secure = 59 ∷ 83 ∷ 101 ∷ 99 ∷ 117 ∷ 114 ∷ 101 ∷ []

abbrev pub semi_http_only : List ℕ
semi_http_only = 59 ∷ 72 ∷ 116 ∷ 116 ∷ 112 ∷ 79 ∷ 110 ∷ 108 ∷ 121 ∷ []

abbrev pub semi_same_site : List ℕ
semi_same_site = 59 ∷ 83 ∷ 97 ∷ 109 ∷ 101 ∷ 83 ∷ 105 ∷ 116 ∷ 101 ∷ 61 ∷ []

-- A text of more than two characters between two `"`, and the text between them.
unfoldable pub is_quoted : List ℕ → Bool
is_quoted val = ltb 2 (length val) && elim (get_elem? val 0) [
  | none ↦ false
  | some a ↦ a == 34 && elim (get_elem? val (length val - 1)) [ none ↦ false | some b ↦ b == 34 ]
]

abbrev pub unquoted : List ℕ → List ℕ
unquoted val = take (length val - 2) (drop 1 val)

-- The first flag, by its tokens: the name and the value. `none` is the reading of a token that is
-- not there.
unfoldable pub read_name : Cookie → List (List ℕ) → Option (Bool × Cookie)
read_name c [] = some (false, c)
read_name c (name ∷ []) = none
read_name c (name ∷ val ∷ more) = strip_all name separators >>= λ key. some (
  true,
  record c {
    m_name = key;
    m_value = if is_quoted val then unquoted val else url_decode (c_string val);
  },
)

-- A flag that wants a value.
abbrev pub with_value :
    Cookie → Option (List ℕ) → (List ℕ → Option (Bool × Cookie)) → Option (Bool × Cookie)
with_value c none f = some (false, c)
with_value c (some v) f = f v

-- A number: `none` is the exception invalid_argument, which is not caught.
abbrev pub with_number : Cookie → Stoi → (ℤ → Cookie) → Option (Bool × Cookie)
with_number c (number n) f = some (true, f n)
with_number c out_of_range f = some (true, c)
with_number c invalid_argument f = none

-- Another flag, by its key in lower case and its value.
unfoldable pub read_attribute : Cookie → List ℕ → Option (List ℕ) → Option (Bool × Cookie)
read_attribute c key val =
    if eq_text key expires
    then with_value c val (λ v. some (true, record c { m_expire_date = v }))
    else if eq_text key max_age
    then with_value c val (λ v. with_number c (stoi_result v) (λ n. record c { m_max_age = n }))
    else if eq_text key domain
    then with_value c val (λ v. some (true, record c { m_domain = v }))
    else if eq_text key path
    then with_value c val (λ v. some (true, record c { m_path = v }))
    else if eq_text key secure
    then some (true, record c { m_secure = true })
    else if eq_text key http_only
    then some (true, record c { m_http_only = true })
    else if eq_text key same_site
    then with_value c val (λ v. some (true, c))
    else if eq_text key version
    then with_value c val (λ v. with_number c (stoi_result v) (λ n. record c { m_version = n }))
    else some (true, c)

unfoldable pub read_flag : Cookie → List (List ℕ) → Option (Bool × Cookie)
read_flag c [] = some (false, c)
read_flag c (name ∷ more) =
    strip_all name separators >>= λ key. read_attribute c (map to_lower key) (get_elem? more 0)

-- The flags behind the first: the loop ends at one that is wrong.
unfoldable pub read_flags : Cookie → List (List ℕ) → Option (Bool × Cookie)
read_flags c [] = some (true, c)
read_flags c (flag ∷ flags) = read_flag c (tokenize flag 61) >>= λ (ok, c').
    let rest = read_flags c' flags in if ok then rest else some (false, c')

abbrev pub is_one : ℤ → Bool
is_one (pos n) = n == 1
is_one (negsuc n) = false

-- The check of the version.
unfoldable pub check_version : Cookie → Bool × Cookie
check_version c =
    if is_one c.m_version
    then (if is_quoted c.m_value
        then (true, record c { m_value = unquoted c.m_value })
        else (false, c))
    else (true, record c { m_value = url_decode (c_string c.m_value) })

unfoldable pub read_all : Cookie → List (List ℕ) → Option (Bool × Cookie)
read_all c [] = some (true, c)
read_all c (flag ∷ flags) = read_name c (tokenize flag 61) >>= λ (ok, c').
    let rest = read_flags c' flags in if ok then rest else some (false, c')

-- `from_string`: `none` is an exception, or the reading of a token that is not there.
unfoldable pub from_string : Cookie → List ℕ → Option (Bool × Cookie)
from_string c s =
    read_all c (tokenize s 59) >>= λ (ok, c'). some (if ok then check_version c' else (false, c'))

-- A flag with its value, left out where the value is empty.
abbrev pub optional : List ℕ → List ℕ → List ℕ
optional name [] = []
optional name (x ∷ xs) = name ++ (x ∷ xs)

abbrev pub age_text : ℤ → List ℕ
age_text (pos n) = semi_max_age ++ int_text (pos n)
age_text (negsuc n) = []

unfoldable pub to_string : Cookie → List ℕ
to_string c =
    c.m_name
    ++ (61 ∷ url_encode (c_string c.m_value)
        ++ (optional semi_expires c.m_expire_date
            ++ (age_text c.m_max_age
                ++ (optional semi_domain c.m_domain
                    ++ (optional semi_path c.m_path
                        ++ ((if c.m_secure then semi_secure else [])
                            ++ ((if c.m_http_only then semi_http_only else [])
                                ++ optional semi_same_site c.m_same_site)))))))

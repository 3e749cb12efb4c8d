-- ===== src/Http/Cookie/Tests.antt =====
-- Cookies printed and read.
use networkio.Text.{tokenize, pieces, strip_all, strip, strip_from, find_char, eq_text}
use networkio.Text.Numbers.{stoi_result, signed_digits, skip_space, digits_from, is_digit, is_space}
use networkio.Base.{ℕ, ◌≡◌, refl, true, false, List, [], ◌∷◌, some, arith}
use networkio.Base.Int.{pos}
use networkio.Http.Url.{from_hex, hex_pair, decode_from, url_decode}
use networkio.Http.Cookie.{
  tokenize, is_quoted, check_version, read_attribute, read_flag, read_flags, read_name, read_all,
  make, from_string, to_string,
}
use networkio.Http.Cookie.Laws.{IsName, from_string-to_string}

-- The name "n", and the value "%41", of which the decoding makes "A".
abbrev name : List ℕ
name = 110 ∷ []

abbrev value : List ℕ
value = 37 ∷ 52 ∷ 49 ∷ []

value_decoded : url_decode value ≡ 65 ∷ []
unfolding url_decode decode_from hex_pair from_hex
value_decoded = refl

name-IsName : IsName name
name-IsName = omega arith

from_string-to_string_example :
    from_string make (to_string (record make { m_name = name; m_value = value }))
    ≡ some (true, record make { m_name = name; m_value = url_decode value })
from_string-to_string_example =
    from_string-to_string name value name-IsName (omega arith) (omega arith) (omega arith)

-- The cookie `name="value with spaces";Max-Age=3600;Path=/;Version=1`, which the source gives as an
-- example, and which is refused.
abbrev quoted_text : List ℕ
quoted_text =
    110 ∷ 97 ∷ 109 ∷ 101 ∷ 61 ∷ 34 ∷ 118 ∷ 97 ∷ 108 ∷ 117 ∷ 101 ∷ 32 ∷ 119 ∷ 105 ∷ 116 ∷ 104 ∷ 32
    ∷ 115 ∷ 112 ∷ 97 ∷ 99 ∷ 101 ∷ 115 ∷ 34 ∷ 59 ∷ 77 ∷ 97 ∷ 120 ∷ 45 ∷ 65 ∷ 103 ∷ 101 ∷ 61 ∷ 51 ∷ 54
    ∷ 48 ∷ 48 ∷ 59 ∷ 80 ∷ 97 ∷ 116 ∷ 104 ∷ 61 ∷ 47 ∷ 59 ∷ 86 ∷ 101 ∷ 114 ∷ 115 ∷ 105 ∷ 111 ∷ 110
    ∷ 61 ∷ 49 ∷ []

abbrev long_name : List ℕ
long_name = 110 ∷ 97 ∷ 109 ∷ 101 ∷ []

abbrev long_value : List ℕ
long_value =
    118 ∷ 97 ∷ 108 ∷ 117 ∷ 101 ∷ 32 ∷ 119 ∷ 105 ∷ 116 ∷ 104 ∷ 32 ∷ 115 ∷ 112 ∷ 97 ∷ 99 ∷ 101 ∷ 115
    ∷ []

refused :
    from_string make quoted_text
    ≡ some (
      false,
      record make {
        m_name = long_name;
        m_value = long_value;
        m_max_age = pos 3600;
        m_path = 47 ∷ [];
        m_version = pos 1;
      },
    )
unfolding from_string read_all read_name read_flags read_flag read_attribute check_version is_quoted
    tokenize pieces strip_all strip strip_from find_char eq_text stoi_result signed_digits
    skip_space digits_from is_digit is_space
refused = refl

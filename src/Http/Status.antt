-- ===== src/Http/Status.antt =====
-- library/inc/networkio/http/http_status.h: the names of the status codes, and content types by file
-- name.
pub mod Laws
mod Tests
use networkio.Base.{
  ℕ, Bool, true, false, ◌&&◌, List, [], ◌∷◌, ◌++◌, Option, none, some, ◌==◌, if◌then◌else◌,
}
use networkio.Base.Int.{ℤ, pos, negsuc}
use networkio.Text.{eq_text}

-- `status_codes`, up to the entry that ends it; each name is given by its characters.
abbrev pub status_codes : List (ℕ × List ℕ)
status_codes =
    (100, 67 ∷ 111 ∷ 110 ∷ 116 ∷ 105 ∷ 110 ∷ 117 ∷ 101 ∷ [])
    ∷ (
      101,
      83 ∷ 119 ∷ 105 ∷ 116 ∷ 99 ∷ 104 ∷ 105 ∷ 110 ∷ 103 ∷ 32 ∷ 80 ∷ 114 ∷ 111 ∷ 116 ∷ 111 ∷ 99 ∷ 111
          ∷ 108 ∷ 115 ∷ [],
    )
    ∷ (200, 79 ∷ 75 ∷ [])
    ∷ (201, 67 ∷ 114 ∷ 101 ∷ 97 ∷ 116 ∷ 101 ∷ 100 ∷ [])
    ∷ (202, 65 ∷ 99 ∷ 99 ∷ 101 ∷ 112 ∷ 116 ∷ 101 ∷ 100 ∷ [])
    ∷ (
      203,
      78 ∷ 111 ∷ 110 ∷ 45 ∷ 65 ∷ 117 ∷ 116 ∷ 104 ∷ 111 ∷ 114 ∷ 105 ∷ 116 ∷ 97 ∷ 116 ∷ 105 ∷ 118
          ∷ 101 ∷ 32 ∷ 73 ∷ 110 ∷ 102 ∷ 111 ∷ 114 ∷ 109 ∷ 97 ∷ 116 ∷ 105 ∷ 111 ∷ 110 ∷ [],
    )
    ∷ (204, 78 ∷ 111 ∷ 32 ∷ 67 ∷ 111 ∷ 110 ∷ 116 ∷ 101 ∷ 110 ∷ 116 ∷ [])
    ∷ (205, 82 ∷ 101 ∷ 115 ∷ 101 ∷ 116 ∷ 32 ∷ 67 ∷ 111 ∷ 110 ∷ 116 ∷ 101 ∷ 110 ∷ 116 ∷ [])
    ∷ (206, 80 ∷ 97 ∷ 114 ∷ 116 ∷ 105 ∷ 97 ∷ 108 ∷ 32 ∷ 67 ∷ 111 ∷ 110 ∷ 116 ∷ 101 ∷ 110 ∷ 116 ∷ [])
    ∷ (
      300,
      77 ∷ 117 ∷ 108 ∷ 116 ∷ 105 ∷ 112 ∷ 108 ∷ 101 ∷ 32 ∷ 67 ∷ 104 ∷ 111 ∷ 105 ∷ 99 ∷ 101 ∷ 115
          ∷ [],
    )
    ∷ (302, 70 ∷ 111 ∷ 117 ∷ 110 ∷ 100 ∷ [])
    ∷ (303, 83 ∷ 101 ∷ 101 ∷ 32 ∷ 79 ∷ 116 ∷ 104 ∷ 101 ∷ 114 ∷ [])
    ∷ (304, 78 ∷ 111 ∷ 116 ∷ 32 ∷ 77 ∷ 111 ∷ 100 ∷ 105 ∷ 102 ∷ 105 ∷ 101 ∷ 100 ∷ [])
    ∷ (305, 85 ∷ 115 ∷ 101 ∷ 32 ∷ 80 ∷ 114 ∷ 111 ∷ 120 ∷ 121 ∷ [])
    ∷ (400, 66 ∷ 97 ∷ 100 ∷ 32 ∷ 82 ∷ 101 ∷ 113 ∷ 117 ∷ 101 ∷ 115 ∷ 116 ∷ [])
    ∷ (401, 85 ∷ 110 ∷ 97 ∷ 117 ∷ 116 ∷ 104 ∷ 111 ∷ 114 ∷ 105 ∷ 122 ∷ 101 ∷ 100 ∷ [])
    ∷ (
      402,
      80 ∷ 97 ∷ 121 ∷ 109 ∷ 101 ∷ 110 ∷ 116 ∷ 32 ∷ 82 ∷ 101 ∷ 113 ∷ 117 ∷ 105 ∷ 114 ∷ 101 ∷ 100
          ∷ [],
    )
    ∷ (403, 70 ∷ 111 ∷ 114 ∷ 98 ∷ 105 ∷ 100 ∷ 100 ∷ 101 ∷ 110 ∷ [])
    ∷ (404, 78 ∷ 111 ∷ 116 ∷ 32 ∷ 70 ∷ 111 ∷ 117 ∷ 110 ∷ 100 ∷ [])
    ∷ (
      405,
      77 ∷ 101 ∷ 116 ∷ 104 ∷ 111 ∷ 100 ∷ 32 ∷ 78 ∷ 111 ∷ 116 ∷ 32 ∷ 65 ∷ 108 ∷ 108 ∷ 111 ∷ 119 ∷ 101
          ∷ 100 ∷ [],
    )
    ∷ (406, 78 ∷ 111 ∷ 116 ∷ 32 ∷ 65 ∷ 99 ∷ 99 ∷ 101 ∷ 112 ∷ 116 ∷ 97 ∷ 98 ∷ 108 ∷ 101 ∷ [])
    ∷ (
      407,
      80 ∷ 114 ∷ 111 ∷ 120 ∷ 121 ∷ 32 ∷ 65 ∷ 117 ∷ 116 ∷ 104 ∷ 101 ∷ 110 ∷ 116 ∷ 105 ∷ 99 ∷ 97 ∷ 116
          ∷ 105 ∷ 111 ∷ 110 ∷ 32 ∷ 82 ∷ 101 ∷ 113 ∷ 117 ∷ 105 ∷ 114 ∷ 101 ∷ 100 ∷ [],
    )
    ∷ (
      408,
      82 ∷ 101 ∷ 113 ∷ 117 ∷ 101 ∷ 115 ∷ 116 ∷ 32 ∷ 84 ∷ 105 ∷ 109 ∷ 101 ∷ 111 ∷ 117 ∷ 116 ∷ [],
    )
    ∷ (409, 67 ∷ 111 ∷ 110 ∷ 102 ∷ 108 ∷ 105 ∷ 99 ∷ 116 ∷ [])
    ∷ (410, 71 ∷ 111 ∷ 110 ∷ 101 ∷ [])
    ∷ (
      411,
      76 ∷ 101 ∷ 110 ∷ 103 ∷ 116 ∷ 104 ∷ 32 ∷ 82 ∷ 101 ∷ 113 ∷ 117 ∷ 105 ∷ 114 ∷ 101 ∷ 100 ∷ [],
    )
    ∷ (
      412,
      80 ∷ 114 ∷ 101 ∷ 99 ∷ 111 ∷ 110 ∷ 100 ∷ 105 ∷ 116 ∷ 105 ∷ 111 ∷ 110 ∷ 32 ∷ 70 ∷ 97 ∷ 105 ∷ 108
          ∷ 101 ∷ 100 ∷ [],
    )
    ∷ (
      413,
      82 ∷ 101 ∷ 113 ∷ 117 ∷ 101 ∷ 115 ∷ 116 ∷ 32 ∷ 69 ∷ 110 ∷ 116 ∷ 105 ∷ 116 ∷ 121 ∷ 32 ∷ 84 ∷ 111
          ∷ 111 ∷ 32 ∷ 76 ∷ 97 ∷ 114 ∷ 103 ∷ 101 ∷ [],
    )
    ∷ (
      414,
      82 ∷ 101 ∷ 113 ∷ 117 ∷ 101 ∷ 115 ∷ 116 ∷ 45 ∷ 85 ∷ 82 ∷ 73 ∷ 32 ∷ 84 ∷ 111 ∷ 111 ∷ 32 ∷ 76
          ∷ 111 ∷ 110 ∷ 103 ∷ [],
    )
    ∷ (
      415,
      85 ∷ 110 ∷ 115 ∷ 117 ∷ 112 ∷ 112 ∷ 111 ∷ 114 ∷ 116 ∷ 101 ∷ 100 ∷ 32 ∷ 77 ∷ 101 ∷ 100 ∷ 105
          ∷ 97 ∷ 32 ∷ 84 ∷ 121 ∷ 112 ∷ 101 ∷ [],
    )
    ∷ (
      416,
      82 ∷ 101 ∷ 113 ∷ 117 ∷ 101 ∷ 115 ∷ 116 ∷ 101 ∷ 100 ∷ 32 ∷ 82 ∷ 97 ∷ 110 ∷ 103 ∷ 101 ∷ 32 ∷ 78
          ∷ 111 ∷ 116 ∷ 32 ∷ 83 ∷ 97 ∷ 116 ∷ 105 ∷ 115 ∷ 102 ∷ 105 ∷ 97 ∷ 98 ∷ 108 ∷ 101 ∷ [],
    )
    ∷ (
      417,
      69 ∷ 120 ∷ 112 ∷ 101 ∷ 99 ∷ 116 ∷ 97 ∷ 116 ∷ 105 ∷ 111 ∷ 110 ∷ 32 ∷ 70 ∷ 97 ∷ 105 ∷ 108 ∷ 101
          ∷ 100 ∷ [],
    )
    ∷ (
      500,
      73 ∷ 110 ∷ 116 ∷ 101 ∷ 114 ∷ 110 ∷ 97 ∷ 108 ∷ 32 ∷ 83 ∷ 101 ∷ 114 ∷ 118 ∷ 101 ∷ 114 ∷ 32 ∷ 69
          ∷ 114 ∷ 114 ∷ 111 ∷ 114 ∷ [],
    )
    ∷ (
      501,
      78 ∷ 111 ∷ 116 ∷ 32 ∷ 73 ∷ 109 ∷ 112 ∷ 108 ∷ 101 ∷ 109 ∷ 101 ∷ 110 ∷ 116 ∷ 101 ∷ 100 ∷ [],
    )
    ∷ (502, 66 ∷ 97 ∷ 100 ∷ 32 ∷ 71 ∷ 97 ∷ 116 ∷ 101 ∷ 119 ∷ 97 ∷ 121 ∷ [])
    ∷ (
      503,
      83 ∷ 101 ∷ 114 ∷ 118 ∷ 105 ∷ 99 ∷ 101 ∷ 32 ∷ 85 ∷ 110 ∷ 97 ∷ 118 ∷ 97 ∷ 105 ∷ 108 ∷ 97 ∷ 98
          ∷ 108 ∷ 101 ∷ [],
    )
    ∷ (504, 71 ∷ 97 ∷ 116 ∷ 101 ∷ 119 ∷ 97 ∷ 121 ∷ 32 ∷ 84 ∷ 105 ∷ 109 ∷ 101 ∷ 111 ∷ 117 ∷ 116 ∷ [])
    ∷ (
      505,
      72 ∷ 84 ∷ 84 ∷ 80 ∷ 32 ∷ 86 ∷ 101 ∷ 114 ∷ 115 ∷ 105 ∷ 111 ∷ 110 ∷ 32 ∷ 78 ∷ 111 ∷ 116 ∷ 32
          ∷ 83 ∷ 117 ∷ 112 ∷ 112 ∷ 111 ∷ 114 ∷ 116 ∷ 101 ∷ 100 ∷ [],
    )
    ∷ []

abbrev pub unknown : List ℕ
unknown = 85 ∷ 110 ∷ 107 ∷ 110 ∷ 111 ∷ 119 ∷ 110 ∷ []

-- The loop of `status_code_to_str`.
unfoldable pub name_of : List (ℕ × List ℕ) → ℤ → List ℕ
name_of [] code = unknown
name_of ((c, name) ∷ rest) (pos code) = if c == code then name else name_of rest (pos code)
name_of ((c, name) ∷ rest) (negsuc n) = name_of rest (negsuc n)

unfoldable pub status_code_to_str : ℤ → List ℕ
status_code_to_str code = name_of status_codes code

-- The loop of `status_str_to_code`.
unfoldable pub code_of : List (ℕ × List ℕ) → List ℕ → ℤ
code_of [] name = negsuc 0
code_of ((c, n) ∷ rest) name = if eq_text n name then pos c else code_of rest name

unfoldable pub status_str_to_code : List ℕ → ℤ
status_str_to_code name = code_of status_codes name

-- What follows the last `.`, or the whole name if it has none: the position behind `npos` is 0.
unfoldable pub extension_from : List ℕ → List ℕ → List ℕ
extension_from ext [] = ext
extension_from ext (c ∷ cs) = extension_from (if c == 46 then cs else ext) cs

unfoldable pub extension : List ℕ → List ℕ
extension filename = extension_from filename filename

abbrev pub png : List ℕ
png = 112 ∷ 110 ∷ 103 ∷ []

abbrev pub jpg : List ℕ
jpg = 106 ∷ 112 ∷ 103 ∷ []

abbrev pub jpeg : List ℕ
jpeg = 106 ∷ 112 ∷ 101 ∷ 103 ∷ []

abbrev pub ico : List ℕ
ico = 105 ∷ 99 ∷ 111 ∷ []

abbrev pub css : List ℕ
css = 99 ∷ 115 ∷ 115 ∷ []

abbrev pub htm : List ℕ
htm = 104 ∷ 116 ∷ 109 ∷ []

abbrev pub html : List ℕ
html = 104 ∷ 116 ∷ 109 ∷ 108 ∷ []

abbrev pub image_png : List ℕ
image_png = 105 ∷ 109 ∷ 97 ∷ 103 ∷ 101 ∷ 47 ∷ 112 ∷ 110 ∷ 103 ∷ []

abbrev pub image_jpeg : List ℕ
image_jpeg = 105 ∷ 109 ∷ 97 ∷ 103 ∷ 101 ∷ 47 ∷ 106 ∷ 112 ∷ 101 ∷ 103 ∷ []

abbrev pub image_icon : List ℕ
image_icon = 105 ∷ 109 ∷ 97 ∷ 103 ∷ 101 ∷ 47 ∷ 120 ∷ 45 ∷ 105 ∷ 99 ∷ 111 ∷ 110 ∷ []

abbrev pub text_css : List ℕ
text_css = 116 ∷ 101 ∷ 120 ∷ 116 ∷ 47 ∷ 99 ∷ 115 ∷ 115 ∷ []

abbrev pub text_html : List ℕ
text_html = 116 ∷ 101 ∷ 120 ∷ 116 ∷ 47 ∷ 104 ∷ 116 ∷ 109 ∷ 108 ∷ []

abbrev pub text_plain : List ℕ
text_plain = 116 ∷ 101 ∷ 120 ∷ 116 ∷ 47 ∷ 112 ∷ 108 ∷ 97 ∷ 105 ∷ 110 ∷ []

unfoldable pub resolve_content_type : List ℕ → List ℕ
resolve_content_type filename =
    let ext = extension filename in
    if eq_text ext png
    then image_png
    else if eq_text ext jpg
    then image_jpeg
    else if eq_text ext jpeg
    then image_jpeg
    else if eq_text ext ico
    then image_icon
    else if eq_text ext css
    then text_css
    else if eq_text ext htm
    then text_html
    else if eq_text ext html
    then text_html
    else text_plain

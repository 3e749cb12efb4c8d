-- ===== src/Http/Response/Tests.antt =====
-- Files of a response.
use networkio.Base.{ℕ, ◌≡◌, refl, List, [], ◌∷◌, Option, some}
use networkio.Base.Int.{pos}
use networkio.Http.Parser.{find_field}
use networkio.Http.Request.{content_length}
use networkio.Http.Response.{make, set_file, server_key, zero_text}
use networkio.Http.Response.Laws.{Serves, set_file_declares}
use networkio.Text.{eq_text}

-- Each file has the bytes 7 and 8.
abbrev files : List ℕ → Option (List ℕ)
files f = some (7 ∷ 8 ∷ [])

set_file_declares_example :
    Serves server_key (make (pos 404)) [] (some (7 ∷ 8 ∷ [])) (set_file files (make (pos 404)) [])
    × (find_field (set_file files (make (pos 500)) []).1.base.m_header_fields content_length
        ≡ some zero_text)
unfolding eq_text
set_file_declares_example = set_file_declares files (make (pos 404)) [] server_key (pos 500) refl

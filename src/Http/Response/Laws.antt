-- ===== src/Http/Response/Laws.antt =====
-- The length that a response of library/src/http/http_response.cpp declares, against its body.
use networkio.Base.{
  ℕ, ◌<◌, ◌≡◌, ◌∙◌, refl, sym, subst, Bool, true, false, List, [], ◌∷◌, Option, none, some, length,
  arith,
}
use networkio.Base.Int.{ℤ, pos}
use networkio.Http.Parser.{find_field, set_field}
use networkio.Http.Request.{content_length, content_type}
use networkio.Http.Response.{
  Response, set_status, set_body, set_file, file_getsize, file_read, not_found, file_found, make,
  zero_text,
}
use networkio.Http.Parser.Lookups.{find_field-same, find_field-other}
use networkio.Http.Status.{resolve_content_type}
use networkio.Text.{eq_text}
use networkio.Text.Numbers.{to_string as number_text}

-- `set_body` sets the status to 200, whatever it was, and declares the length of the body.
pub set_body_declares :
    (r : Response) (s : List ℕ)
    → ((set_body r s).m_status ≡ pos 200)
      × ((set_body r s).base.m_body ≡ s)
      × (find_field (set_body r s).base.m_header_fields content_length
          ≡ some (number_text (length s)))
unfolding set_body set_status
set_body_declares r s =
    (refl, refl, find_field-same r.base.m_header_fields content_length (number_text (length s)))

pub set_file_found :
    (files : List ℕ → Option (List ℕ)) (r : Response) (f bs : List ℕ)
    → files f ≡ some bs
    → 0 < length bs
    → set_file files r f ≡ (true, file_found r f bs)
unfolding set_file file_getsize file_read
set_file_found files r f bs e some_left = ground (arith, e)

set_file_missing :
    (files : List ℕ → Option (List ℕ)) (r : Response) (f : List ℕ)
    → files f ≡ none
    → set_file files r f ≡ (false, not_found r)
unfolding set_file file_getsize file_read
set_file_missing files r f e = ground (arith, e)

set_file_empty :
    (files : List ℕ → Option (List ℕ)) (r : Response) (f : List ℕ)
    → files f ≡ some []
    → set_file files r f ≡ (false, not_found r)
unfolding set_file file_getsize file_read
set_file_empty files r f e = ground (arith, e)

-- The outcome of a file that cannot be served, and of one with the bytes `bs`: `key` is a field
-- that is not the content type.
abbrev pub Refused : List ℕ → Response → Bool × Response → Type 0
Refused key r (ok, r') =
    (ok ≡ false)
    × (r'.m_status ≡ pos 404)
    × (r'.base.m_body ≡ [])
    × (find_field r'.base.m_header_fields key ≡ find_field r.base.m_header_fields key)
    × (find_field r'.base.m_header_fields content_type
        ≡ find_field r.base.m_header_fields content_type)

abbrev pub Accepted : List ℕ → Response → List ℕ → List ℕ → Bool × Response → Type 0
Accepted key r f bs (ok, r') =
    (ok ≡ true)
    × (r'.m_status ≡ pos 200)
    × (r'.base.m_body ≡ bs)
    × (find_field r'.base.m_header_fields key ≡ find_field r.base.m_header_fields key)
    × (find_field r'.base.m_header_fields content_type ≡ some (resolve_content_type f))

-- The outcome by what the file is.
abbrev pub Serves : List ℕ → Response → List ℕ → Option (List ℕ) → Bool × Response → Type 0
Serves key r f none out = Refused key r out
Serves key r f (some []) out = Refused key r out
Serves key r f (some (b ∷ bs)) out = Accepted key r f (b ∷ bs) out

not_found-Refused : (key : List ℕ) (r : Response) → Refused key r (false, not_found r)
unfolding set_status
not_found-Refused key r = (refl, refl, refl, refl, refl)

pub set_file-Accepted :
    (files : List ℕ → Option (List ℕ)) (r : Response) (f key bs : List ℕ)
    → eq_text content_type key ≡ false
    → files f ≡ some bs
    → 0 < length bs
    → Accepted key r f bs (set_file files r f)
unfolding set_status
set_file-Accepted files r f key bs ne e some_left =
    subst (Accepted key r f bs) (sym (set_file_found files r f bs e some_left)) (
      refl,
      refl,
      refl,
      find_field-other (set_status r (pos 200)).base.m_header_fields content_type
          (resolve_content_type f) key ne,
      find_field-same (set_status r (pos 200)).base.m_header_fields content_type
          (resolve_content_type f),
    )

set_file-Serves :
    (files : List ℕ → Option (List ℕ)) (r : Response) (f key : List ℕ) (o : Option (List ℕ))
    → eq_text content_type key ≡ false
    → files f ≡ o
    → Serves key r f o (set_file files r f)
set_file-Serves files r f key none ne e =
    subst (Refused key r) (sym (set_file_missing files r f e)) (not_found-Refused key r)
set_file-Serves files r f key (some []) ne e =
    subst (Refused key r) (sym (set_file_empty files r f e)) (not_found-Refused key r)
set_file-Serves files r f key (some (b ∷ bs)) ne e =
    set_file-Accepted files r f key (b ∷ bs) ne e (omega arith)

-- The length that a response declares, if it has been made and nothing else.
make_declares :
    (status : ℤ) → find_field (make status).base.m_header_fields content_length ≡ some zero_text
unfolding make set_status set_field find_field eq_text
make_declares status = refl

Serves-length :
    (files : List ℕ → Option (List ℕ)) (r : Response) (f : List ℕ) (o : Option (List ℕ))
    → Serves content_length r f o (set_file files r f)
    → find_field (set_file files r f).1.base.m_header_fields content_length
      ≡ find_field r.base.m_header_fields content_length
Serves-length files r f none (_, _, _, same, _) = same
Serves-length files r f (some []) (_, _, _, same, _) = same
Serves-length files r f (some (b ∷ bs)) (_, _, _, same, _) = same

-- `set_file` of a file that is there and is not empty gives true, status 200, the file's bytes as the
-- body and the content type that the file's name stands for. Of any other file it gives false, status
-- 404 and an empty body, and leaves the content type. Every other field stays what it was in both
-- cases, so a response that has just been made declares the length 0 whatever the file holds.
pub set_file_declares :
    (files : List ℕ → Option (List ℕ)) (r : Response) (f key : List ℕ) (status : ℤ)
    → eq_text content_type key ≡ false
    → Serves key r f (files f) (set_file files r f)
      × (find_field (set_file files (make status) f).1.base.m_header_fields content_length
          ≡ some zero_text)
unfolding eq_text
set_file_declares files r f key status ne = (
  set_file-Serves files r f key (files f) ne refl,
  Serves-length files (make status) f (files f)
        (set_file-Serves files (make status) f content_length (files f) refl refl)
      ∙ make_declares status,
)

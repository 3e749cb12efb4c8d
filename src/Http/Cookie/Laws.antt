-- ===== src/Http/Cookie/Laws.antt =====
-- A cookie that `response_cookie::to_string` of library/src/http/http_response.cpp prints, read again by
-- `from_string`.
use networkio.Base.{
  ℕ, zero, suc, ◌<◌, ◌≡◌, refl, ap, ◌∙◌, sym, true, false, List, [], ◌∷◌, ◌++◌, none, some,
  ==_false, if◌then◌else◌, if_not_eq, length, arith, then_eq, append-nil, length-append, ◌>>=◌,
}
use networkio.Http.Url.{url_encode, url_decode, c_string}
use networkio.Http.Url.Laws.{IsText, url_decode-url_encode}
use networkio.Http.Cookie.{
  Cookie, make, from_string, to_string, read_name, read_all, read_flags, check_version, is_quoted,
}
use networkio.Http.Url.Characters.{
  IsUnused-quote, IsUnused-nul, IsUnused-semicolon, IsUnused-equals, url_encode-Free, c_string-Free,
  IsText-Free,
}
use networkio.Text.Laws.{Free, Free-append, pieces-Free, pieces_last, pieces_next}
use networkio.Http.Request.{separators}
use networkio.Text.{erase_at, tokenize, pieces, find_char, strip, strip_from, strip_all}

tokenize_one : (c : ℕ) (xs : List ℕ) → Free c xs → 0 < length xs → tokenize xs c ≡ xs ∷ []
unfolding tokenize
tokenize_one c xs f h =
    ap (pieces c []) (sym (append-nil xs)) ∙ pieces-Free c [] xs [] f ∙ pieces_last c xs h

tokenize_two :
    (c : ℕ) (xs ys : List ℕ)
    → Free c xs
    → Free c ys
    → 0 < length xs
    → 0 < length ys
    → tokenize (xs ++ c ∷ ys) c ≡ xs ∷ ys ∷ []
unfolding tokenize
tokenize_two c xs ys f g h k =
    pieces-Free c [] xs (c ∷ ys) f
    ∙ pieces_next c xs ys h
    ∙ ap (◌∷◌ xs)
        (ap (pieces c []) (sym (append-nil ys)) ∙ pieces-Free c [] ys [] g ∙ pieces_last c ys k)

-- None of the characters stands in the text.
abbrev pub FreeOf : List ℕ → List ℕ → Type 0
FreeOf [] s = Unit {0}
FreeOf (c ∷ cs) s = Free c s × FreeOf cs s

find_char-Free : (c : ℕ) (s : List ℕ) → Free c s → find_char c s ≡ none
unfolding find_char
find_char-Free c [] f = refl
find_char-Free c (x ∷ s) (n, f) =
    if_not_eq _ (==_false x c n)
      (ap (λ o. elim o [ none ↦ none | some i ↦ some (suc i) ]) (find_char-Free c s f))

strip-Free : (rounds : ℕ) (c : ℕ) (s : List ℕ) → Free c s → strip_from rounds s c ≡ some s
unfolding strip_from
strip-Free zero c s f = ap (λ o. elim o [ none ↦ some s | some i ↦ none ]) (find_char-Free c s f)
strip-Free (suc n) c s f =
    ap (λ o. elim o [ none ↦ some s | some i ↦ strip_from n (erase_at i s) c ])
      (find_char-Free c s f)

strip_all_free : (s cs : List ℕ) → FreeOf cs s → strip_all s cs ≡ some s
unfolding strip_all strip
strip_all_free s [] f = refl
strip_all_free s (c ∷ cs) (f, fs) =
    ap (λ o. elim o [ none ↦ none | some r ↦ strip_all r cs ]) (strip-Free (length s) c s f)
    ∙ strip_all_free s cs fs

is_quoted-Free : (s : List ℕ) → Free 34 s → is_quoted s ≡ false
unfolding is_quoted
is_quoted-Free [] f = refl
is_quoted-Free (x ∷ s) (n, f) = ground (arith, n)

some_enc : (v : List ℕ) → 0 < length v → 0 < length (url_encode v)
unfolding url_encode
some_enc [] h = h
some_enc (x ∷ v) h = ground arith

-- The name of a cookie: no separator, and no `;` or `=`, which stand among the separators too.
abbrev pub IsName : List ℕ → Type 0
IsName name = Free 59 name × Free 61 name × FreeOf separators name

abbrev named : List ℕ → List ℕ → Cookie
named name v = record make { m_name = name; m_value = v }

printed : (name v : List ℕ) → IsText v → to_string (named name v) ≡ name ++ 61 ∷ url_encode v
unfolding to_string
printed name v t =
    ap (λ l. name ++ l) (append-nil (61 ∷ url_encode (c_string v)))
    ∙ ap (λ l. name ++ 61 ∷ url_encode l) (c_string-Free v (IsText-Free v t))

read_pair :
    (name v : List ℕ)
    → FreeOf separators name
    → IsText v
    → read_name make (name ∷ url_encode v ∷ []) ≡ some (true, named name v)
unfolding read_name
read_pair name v seps t =
    let enc = url_encode v in
    let plain : is_quoted enc ≡ false =
      is_quoted-Free enc (url_encode-Free 34 v (IsUnused-quote)) in
    then_eq _ (strip_all_free name separators seps) (
      ap (λ l. some (true, named name l))
        (if_not_eq _ plain (
          ap url_decode (c_string-Free enc (url_encode-Free 0 v (IsUnused-nul)))
          ∙ url_decode-url_encode v t)))

read_printed :
    (name v : List ℕ)
    → Free 59 name
    → Free 61 name
    → FreeOf separators name
    → IsText v
    → 0 < length name
    → 0 < length v
    → from_string make (name ++ 61 ∷ url_encode v) ≡ some (true, named name (url_decode v))
unfolding from_string read_all read_flags check_version
read_printed name v semi eq seps t some_name some_v =
    let enc = url_encode v in
    let one : tokenize (name ++ 61 ∷ enc) 59 ≡ (name ++ 61 ∷ enc) ∷ [] =
      tokenize_one 59 (name ++ 61 ∷ enc)
        (Free-append 59 name (61 ∷ enc) semi
          (omega arith, url_encode-Free 59 v (IsUnused-semicolon)))
        (omega (arith, length-append name (61 ∷ enc))) in
    let two : tokenize (name ++ 61 ∷ enc) 61 ≡ name ∷ enc ∷ [] =
      tokenize_two 61 name enc eq (url_encode-Free 61 v (IsUnused-equals)) some_name
        (some_enc v some_v) in
    ap (λ l. read_all make l >>= λ (ok, c'). some (if ok then check_version c' else (false, c')))
      one
    ∙ then_eq _ (then_eq _ (ap (read_name make) two ∙ read_pair name v seps t) refl)
        (ap (λ l. some (true, named name (url_decode l))) (c_string-Free v (IsText-Free v t)))

-- A cookie with a name and a value and nothing else, the name not empty and without any of the
-- separators, the value a text that is not empty, printed and read again, has its name; its value
-- is decoded once more than it was encoded, so the value comes back just where decoding leaves it
-- as it is.
pub from_string-to_string :
    (name v : List ℕ)
    → IsName name
    → IsText v
    → 0 < length name
    → 0 < length v
    → from_string make (to_string (record make { m_name = name; m_value = v }))
      ≡ some (true, record make { m_name = name; m_value = url_decode v })
from_string-to_string name v (semi, eq, seps) t some_name some_v =
    ap (from_string make) (printed name v t) ∙ read_printed name v semi eq seps t some_name some_v

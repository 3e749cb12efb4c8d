-- ===== src/Http/Status/Laws.antt =====
-- The lookups of library/inc/networkio/http/http_status.h, by code and by name.
use networkio.Base.{
  ℕ, ◌≡◌, refl, ap, ◌∙◌, ◌⊎◌, inl, inr, Bool, true, false, not, List, [], ◌∷◌, ◌==◌, eq_cases,
  if_eq, if_not_eq, Bool-cases, if◌then◌else◌,
}
use networkio.Base.Int.{ℤ, pos, negsuc}
use networkio.Text.{eq_text}
use networkio.Text.Laws.{eq_text_same}
use networkio.Http.Status.{
  status_codes, unknown, name_of, code_of, status_code_to_str, status_str_to_code,
}

-- A name is none of a table's, nor "Unknown".
abbrev differs : List ℕ → List (ℕ × List ℕ) → Bool
differs n [] = not (eq_text n unknown)
differs n ((c, m) ∷ rest) = if eq_text n m then false else differs n rest

abbrev distinct : List (ℕ × List ℕ) → Bool
distinct [] = true
distinct ((c, n) ∷ rest) = if differs n rest then distinct rest else false

status_codes-distinct : distinct status_codes ≡ true
unfolding eq_text
status_codes-distinct = refl

if_true : (b c : Bool) → (if b then c else false) ≡ true → (b ≡ true) × (c ≡ true)
if_true true c e = (refl, e)
if_true false c e = (cc e, cc e)

if_false : (b c : Bool) → (if b then false else c) ≡ true → (b ≡ false) × (c ≡ true)
if_false false c e = (refl, e)
if_false true c e = (cc e, cc e)

not-true : (b : Bool) → not b ≡ true → b ≡ false
not-true true e = cc e
not-true false e = refl

differs-name_of :
    (n : List ℕ) (t : List (ℕ × List ℕ)) (code : ℤ)
    → differs n t ≡ true
    → eq_text n (name_of t code) ≡ false
unfolding name_of
differs-name_of n [] code d = not-true (eq_text n unknown) d
differs-name_of n ((c, m) ∷ rest) (negsuc k) d =
    let (_, d') = if_false (eq_text n m) (differs n rest) d in differs-name_of n rest (negsuc k) d'
differs-name_of n ((c, m) ∷ rest) (pos k) d =
    let (here, d') = if_false (eq_text n m) (differs n rest) d in
    elim (Bool-cases (c == k)) [
      | inl e ↦ ap (eq_text n) (if_eq (name_of rest (pos k)) e refl) ∙ here
      | inr e ↦ ap (eq_text n) (if_not_eq m e refl) ∙ differs-name_of n rest (pos k) d'
    ]

-- The codes that have a name.
abbrev pub named_codes : List ℕ
named_codes =
    100 ∷ 101 ∷ 200 ∷ 201 ∷ 202 ∷ 203 ∷ 204 ∷ 205 ∷ 206 ∷ 300 ∷ 302 ∷ 303 ∷ 304 ∷ 305 ∷ 400 ∷ 401
    ∷ 402 ∷ 403 ∷ 404 ∷ 405 ∷ 406 ∷ 407 ∷ 408 ∷ 409 ∷ 410 ∷ 411 ∷ 412 ∷ 413 ∷ 414 ∷ 415 ∷ 416 ∷ 417
    ∷ 500 ∷ 501 ∷ 502 ∷ 503 ∷ 504 ∷ 505 ∷ []

abbrev pub is_among : List ℕ → ℤ → Bool
is_among codes (negsuc k) = false
is_among [] (pos k) = false
is_among (c ∷ codes) (pos k) = if c == k then true else is_among codes (pos k)

abbrev codes_of : List (ℕ × List ℕ) → List ℕ
codes_of [] = []
codes_of ((c, n) ∷ rest) = c ∷ codes_of rest

-- What the lookup of a code's name gives: the code, of a code that has a name of its own, and -1 of
-- any other code.
abbrev Answers : List (ℕ × List ℕ) → ℤ → Type 0
Answers t code =
    ((is_among (codes_of t) code ≡ true)
      × (eq_text (name_of t code) unknown ≡ false)
      × (code_of t (name_of t code) ≡ code))
    ⊎ ((is_among (codes_of t) code ≡ false)
        × (name_of t code ≡ unknown)
        × (code_of t (name_of t code) ≡ negsuc 0))

differs-unknown :
    (n : List ℕ) (t : List (ℕ × List ℕ)) → differs n t ≡ true → eq_text n unknown ≡ false
differs-unknown n [] d = not-true (eq_text n unknown) d
differs-unknown n ((c, m) ∷ rest) d =
    let (_, d') = if_false (eq_text n m) (differs n rest) d in differs-unknown n rest d'

-- The lookup behind an entry of another code.
code_of-behind :
    (c : ℕ) (n : List ℕ) (rest : List (ℕ × List ℕ)) (name : List ℕ) (r : ℤ)
    → eq_text n name ≡ false
    → code_of rest name ≡ r
    → code_of ((c, n) ∷ rest) name ≡ r
unfolding code_of
code_of-behind c n rest name r off e = if_not_eq _ off e

name_of-Answers : (t : List (ℕ × List ℕ)) (code : ℤ) → distinct t ≡ true → Answers t code
unfolding name_of code_of
name_of-Answers [] (pos k) d = inr (refl, refl, refl)
name_of-Answers [] (negsuc k) d = inr (refl, refl, refl)
name_of-Answers ((c, n) ∷ rest) (negsuc k) d =
    let (off, d') = if_true (differs n rest) (distinct rest) d in
    let here = differs-name_of n rest (negsuc k) off in
    elim (name_of-Answers rest (negsuc k) d') [
      | inl (a, _, _) ↦ cc a
      | inr (a, u, b) ↦
          inr (refl, u, code_of-behind c n rest (name_of rest (negsuc k)) (negsuc 0) here b)
    ]
name_of-Answers ((c, n) ∷ rest) (pos k) d =
    let (off, d') = if_true (differs n rest) (distinct rest) d in
    let here = differs-name_of n rest (pos k) off in
    elim (eq_cases c k) [
      | inl (t, same) ↦
          let it : (if c == k then n else name_of rest (pos k)) ≡ n = if_eq _ t refl in
          inl (
            if_eq _ t refl,
            ap (λ m. eq_text m unknown) it ∙ differs-unknown n rest off,
            ap (code_of ((c, n) ∷ rest)) it ∙ if_eq (code_of rest n) (eq_text_same n) (ap pos same),
          )
      | inr (t, _) ↦
          let it : (if c == k then n else name_of rest (pos k)) ≡ name_of rest (pos k) =
            if_not_eq _ t refl in
          elim (name_of-Answers rest (pos k) d') [
            | inl (a, u, b) ↦ inl (
              if_not_eq _ t a,
              ap (λ m. eq_text m unknown) it ∙ u,
              ap (code_of ((c, n) ∷ rest)) it
                  ∙ code_of-behind c n rest (name_of rest (pos k)) (pos k) here b,
            )
            | inr (a, u, b) ↦ inr (
              if_not_eq _ t a,
              it ∙ u,
              ap (code_of ((c, n) ∷ rest)) it
                  ∙ code_of-behind c n rest (name_of rest (pos k)) (negsuc 0) here b,
            )
          ]
    ]

-- Of the codes 100, 101, 200 to 206, 300, 302 to 305, 400 to 417 and 500 to 505, and of no other,
-- `status_code_to_str` gives a name that is not "Unknown", and `status_str_to_code` of that name
-- gives the code again. The name of any other code is "Unknown", and `status_str_to_code` of it
-- gives -1.
pub status_str_to_code-status_code_to_str :
    (code : ℤ)
    → ((is_among named_codes code ≡ true)
        × (eq_text (status_code_to_str code) unknown ≡ false)
        × (status_str_to_code (status_code_to_str code) ≡ code))
      ⊎ ((is_among named_codes code ≡ false)
          × (status_code_to_str code ≡ unknown)
          × (status_str_to_code (status_code_to_str code) ≡ negsuc 0))
unfolding status_str_to_code status_code_to_str
status_str_to_code-status_code_to_str code = name_of-Answers status_codes code status_codes-distinct

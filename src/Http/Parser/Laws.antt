-- ===== src/Http/Parser/Laws.antt =====
-- The header of a message that `header_to_string` of library/src/http/http_parser.cpp prints is read
-- again by `header_from_string`.
pub mod Lines
use networkio.Base.{
  ℕ, zero, suc, ◌+◌, ◌-◌, ◌≤◌, ◌<◌, ◌≡◌, ◌≢◌, refl, ap, ap₂, ◌∙◌, sym, subst, Bool, true, false,
  List, [], ◌∷◌, ◌++◌, Option, none, some, ltb, ◌==◌, ==_false, if◌then◌else◌, if_eq, if_not_eq,
  length, take, drop, map, arith, then_eq, append_assoc, append-nil, take_append, drop-drop,
  drop_append, length-append, le→ltb_false, ◌>>=◌, eq_cases, inl, inr,
}
use networkio.Http.Url.{to_lower}
use networkio.Text.{cut_at, find_char, tokenize_at, eq_text}
use networkio.Http.Parser.{
  parse_error_again, Fields, set_field, Parser, parse_success, crlf, substr_from, parse_fields,
  parse_lines, header_from_string, fields_text, header_to_string,
}
use networkio.Http.Parser.Laws.Lines.{lines_text, AreLines, cut_lines, tokenize_lines}
use networkio.Text.Laws.{Free, Free-append}

-- The line of a field.
abbrev line : List ℕ × List ℕ → List ℕ
line (k, v) = k ++ (58 ∷ 32 ∷ v)

abbrev lines : Fields → List (List ℕ)
lines [] = []
lines (f ∷ fs) = line f ∷ lines fs

-- The key is in lower case, without a colon, and neither it nor the value has a carriage return.
abbrev pub IsField : List ℕ × List ℕ → Type 0
IsField (k, v) = Free 13 k × Free 58 k × (map to_lower k ≡ k) × Free 13 v

abbrev pub AreFields : Fields → Type 0
AreFields [] = Unit {0}
AreFields (f ∷ fs) = IsField f × AreFields fs

abbrev pub IsFresh : List ℕ → Fields → Type 0
IsFresh key [] = Unit {0}
IsFresh key ((k, v) ∷ rest) = (eq_text k key ≡ false) × IsFresh key rest

-- No key stands twice: each is fresh in what stands before it.
abbrev pub AllFresh : Fields → Fields → Type 0
AllFresh seen [] = Unit {0}
AllFresh seen ((k, v) ∷ rest) = IsFresh k seen × AllFresh (seen ++ (k, v) ∷ []) rest

lines-AreLines : (fs : Fields) → AreFields fs → AreLines (lines fs)
lines-AreLines [] a = tt
lines-AreLines ((k, v) ∷ fs) ((f, g, l, h), a) = (
  Free-append 13 k (58 ∷ 32 ∷ v) f (omega arith, (omega arith, h)),
  omega (arith, length-append k (58 ∷ 32 ∷ v)),
  lines-AreLines fs a,
)

fields_text-lines :
    (fs : Fields) (z : List ℕ)
    → crlf ++ (fields_text fs ++ z) ≡ lines_text (lines fs) ++ (crlf ++ z)
unfolding fields_text
fields_text-lines [] z = refl
fields_text-lines ((k, v) ∷ fs) z =
    ap (λ t. 13 ∷ 10 ∷ t)
      (append_assoc k (58 ∷ 32 ∷ v ++ (crlf ++ fields_text fs)) z
        ∙ ap (λ t. k ++ (58 ∷ 32 ∷ t)) (append_assoc v (crlf ++ fields_text fs) z)
        ∙ ap (λ t. k ++ (58 ∷ 32 ∷ v ++ t)) (fields_text-lines fs z)
        ∙ sym (append_assoc k (58 ∷ 32 ∷ v) (lines_text (lines fs) ++ (crlf ++ z))))
    ∙ ap (λ t. 13 ∷ 10 ∷ t) (sym (append_assoc (line (k, v)) (lines_text (lines fs)) (crlf ++ z)))

find_colon : (k rest : List ℕ) → Free 58 k → find_char 58 (k ++ 58 ∷ rest) ≡ some (length k)
unfolding find_char
find_colon [] rest f = refl
find_colon (x ∷ k) rest (n, f) =
    if_not_eq _ (==_false x 58 n)
      (ap (λ o. elim o [ none ↦ none | some i ↦ some (suc i) ]) (find_colon k rest f))

set_field_fresh : (fs : Fields) (k v : List ℕ) → IsFresh k fs → set_field fs k v ≡ fs ++ (k, v) ∷ []
unfolding set_field
set_field_fresh [] k v f = refl
set_field_fresh ((a, b) ∷ fs) k v (n, f) =
    if_not_eq _ n (ap (◌∷◌ (a, b)) (set_field_fresh fs k v f))

value_of : (k v : List ℕ) → substr_from (line (k, v)) (length k + 2) ≡ some v
unfolding substr_from
value_of k v =
    if_not_eq _
      (le→ltb_false (length (line (k, v))) (length k + 2)
        (omega (arith, length-append k (58 ∷ 32 ∷ v))))
      (ap some
        (sym (drop-drop 2 (length k) (line (k, v))) ∙ ap (drop 2) (drop_append k (58 ∷ 32 ∷ v))))

parse_fields-lines :
    (fs seen : Fields)
    → AreFields fs
    → AllFresh seen fs
    → parse_fields (lines fs) seen ≡ some (seen ++ fs)
unfolding parse_fields
parse_fields-lines [] seen a f = ap some (sym (append-nil seen))
parse_fields-lines ((k, v) ∷ fs) seen ((c, d, low, e), a) (f, g) =
    ap
      (λ o. elim o [
        | none ↦ some seen
        | some d ↦ substr_from (line (k, v)) (d + 2) >>= λ val.
            parse_fields (lines fs) (set_field seen (map to_lower (take d (line (k, v)))) val)
      ])
      (find_colon k (32 ∷ v) d)
    ∙ then_eq _ (value_of k v) (
        ap (parse_fields (lines fs)) (
          ap (λ t. set_field seen (map to_lower t) v) (take_append k (58 ∷ 32 ∷ v))
          ∙ ap (λ t. set_field seen t v) low
          ∙ set_field_fresh seen k v f)
        ∙ parse_fields-lines fs (seen ++ (k, v) ∷ []) a g
        ∙ ap some (append_assoc seen ((k, v) ∷ []) fs))

-- `header_from_string` of what `header_to_string` prints gives the header, the fields and the body
-- back, whatever the body holds. The first line and the fields have no carriage
-- return, the keys are different, in lower case and without a colon, and the parser that reads has
-- no fields yet.
pub header_from_string-header_to_string :
    (p q : Parser)
    → Free 13 p.m_header
    → AreFields p.m_header_fields
    → AllFresh [] p.m_header_fields
    → q.m_header_fields ≡ []
    → header_from_string q (header_to_string p) ≡ some (parse_success, p)
unfolding header_from_string header_to_string parse_lines
header_from_string-header_to_string p q f a g e =
    let ls = lines p.m_header_fields in
    let are = lines-AreLines p.m_header_fields a in
    ap
      (λ o. elim o [
        | none ↦ some (parse_error_again, q)
        | some (header, body) ↦ tokenize_at header crlf >>= parse_lines q body
      ])
      (ap (cut_at (13 ∷ 10 ∷ 13 ∷ 10 ∷ []))
          (ap (◌++◌ p.m_header) (fields_text-lines p.m_header_fields (crlf ++ p.m_body)))
        ∙ cut_lines p.m_header p.m_body ls f are)
    ∙ then_eq _ (tokenize_lines p.m_header ls f are)
        (then_eq _ (ap (parse_fields ls) e ∙ parse_fields-lines p.m_header_fields [] a g) refl)

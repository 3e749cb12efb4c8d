-- ===== src/Http/Url/Laws.antt =====
-- `url_decode` of what `url_encode` gives, and of texts that are cut short.
use networkio.Base.{
  ◌++◌, append-nil, ℕ, zero, suc, ◌*◌, ◌/◌, ◌%◌, ◌≤◌, ◌<◌, ◌≡◌, ◌≢◌, refl, sym, ap, ap₂, ◌∙◌, Bool,
  true, false, ◌&&◌, List, [], ◌∷◌, ◌==◌, ==_false, inl, inr, eq_cases, Bool-cases, if_eq,
  if_not_eq, arith, length, if◌then◌else◌,
}
use networkio.Http.Url.{
  from_hex, to_hex, is_plain, url_encode, hex_pair, decode_from, c_string, url_decode,
}

-- A text of bytes that are not 0.
abbrev pub IsText : List ℕ → Type 0
IsText [] = Unit {0}
IsText (c ∷ cs) = (0 < c) × (c < 256) × IsText cs

-- Whether each byte below `k` is the value of its two hex digits.
pairs : ℕ → Bool
pairs zero = true
pairs (suc k) = pairs k && hex_pair (to_hex (k / 16)) (to_hex (k % 16)) == k

pairs_at : (k c : ℕ) → pairs k ≡ true → c < k → hex_pair (to_hex (c / 16)) (to_hex (c % 16)) ≡ c
unfolding pairs
pairs_at zero c h lt = absurd (omega arith)
pairs_at (suc k) c h lt = elim (eq_cases c k) [
  | inl (_, same) ↦ rw same (ground arith)
  | inr (_, other) ↦ pairs_at k c (ground arith) (omega arith)
]

all_pairs : pairs 256 ≡ true
unfolding pairs hex_pair to_hex from_hex
all_pairs = refl

-- A character that is neither `%` nor `+` stands for itself.
decode_plain : (c : ℕ) (cs : List ℕ) → c ≢ 37 → c ≢ 43 → decode_from (c ∷ cs) ≡ c ∷ decode_from cs
unfolding decode_from
decode_plain c [] p q = if_not_eq _ (==_false c 37 p) (if_not_eq _ (==_false c 43 q) refl)
decode_plain c (a ∷ []) p q = if_not_eq _ (==_false c 37 p) (if_not_eq _ (==_false c 43 q) refl)
decode_plain c (a ∷ b ∷ cs) p q = if_not_eq _ (==_false c 37 p) (if_not_eq _ (==_false c 43 q) refl)

decode_plus : (cs : List ℕ) → decode_from (43 ∷ cs) ≡ 32 ∷ decode_from cs
unfolding decode_from
decode_plus [] = refl
decode_plus (a ∷ []) = refl
decode_plus (a ∷ b ∷ cs) = refl

decode_hex : (a b : ℕ) (cs : List ℕ) → decode_from (37 ∷ a ∷ b ∷ cs) ≡ hex_pair a b ∷ decode_from cs
unfolding decode_from
decode_hex a b cs = refl

not_plain : (c d : ℕ) → is_plain c ≡ true → is_plain d ≡ false → c ≢ d
not_plain c d p q e = cc

-- What has been encoded is decoded up to its end, whatever follows.
decode-encode :
    (cs tail : List ℕ) → IsText cs → decode_from (url_encode cs ++ tail) ≡ cs ++ decode_from tail
unfolding url_encode is_plain
decode-encode [] tail t = refl
decode-encode (c ∷ cs) tail (some_c, small, t) = elim (Bool-cases (is_plain c)) [
  | inl plain ↦
      ap (λ l. decode_from (l ++ tail)) (if_eq _ plain refl)
      ∙ decode_plain c (url_encode cs ++ tail) (not_plain c 37 plain refl)
          (not_plain c 43 plain refl)
      ∙ ap (◌∷◌ c) (decode-encode cs tail t)
  | inr coded ↦ ap (λ l. decode_from (l ++ tail)) (if_not_eq _ coded refl) ∙ elim (eq_cases c 32) [
    | inl (s, space) ↦
        ap (λ l. decode_from (l ++ tail)) (if_eq _ s refl)
        ∙ decode_plus (url_encode cs ++ tail)
        ∙ ap₂ ◌∷◌ (sym space) (decode-encode cs tail t)
    | inr (s, _) ↦
        ap (λ l. decode_from (l ++ tail)) (if_not_eq _ s refl)
        ∙ decode_hex (to_hex (c / 16)) (to_hex (c % 16)) (url_encode cs ++ tail)
        ∙ ap₂ ◌∷◌ (pairs_at 256 c all_pairs small) (decode-encode cs tail t)
  ]
]

-- A string ends where a 0 stands first.
c_string_text : (cs rest : List ℕ) → IsText cs → c_string (cs ++ 0 ∷ rest) ≡ cs
c_string_text [] rest t = refl
c_string_text (c ∷ cs) rest (some_c, small, t) =
    if_not_eq _ (==_false c 0 (omega arith)) (ap (◌∷◌ c) (c_string_text cs rest t))

c_string_whole : (cs : List ℕ) → IsText cs → c_string cs ≡ cs
c_string_whole [] t = refl
c_string_whole (c ∷ cs) (some_c, small, t) =
    if_not_eq _ (==_false c 0 (omega arith)) (ap (◌∷◌ c) (c_string_whole cs t))

-- A text of bytes that are not 0 is the same after `url_encode` and `url_decode`.
pub url_decode-url_encode : (cs : List ℕ) → IsText cs → url_decode (url_encode cs) ≡ cs
unfolding url_decode decode_from
url_decode-url_encode cs t =
    ap (λ l. c_string (decode_from l)) (sym (append-nil (url_encode cs)))
    ∙ ap c_string (decode-encode cs [] t ∙ append-nil cs)
    ∙ c_string_whole cs t

-- Each `%` of the text has the two characters of its escape in the text.
abbrev pub is_whole : List ℕ → Bool
is_whole [] = true
is_whole (c ∷ []) = if c == 37 then false else true
is_whole (c ∷ a ∷ []) = if c == 37 then false else is_whole (a ∷ [])
is_whole (c ∷ a ∷ b ∷ cs) =
    let escape = is_whole cs in let rest = is_whole (a ∷ b ∷ cs) in if c == 37 then escape else rest

-- A character that is no `%` is decoded by itself.
decode_one :
    (c : ℕ) (cs : List ℕ)
    → c ≢ 37
    → decode_from (c ∷ cs) ≡ (if c == 43 then 32 else c) ∷ decode_from cs
decode_one c cs p = elim (eq_cases c 43) [
  | inl (t, plus) ↦
      ap (λ x. decode_from (x ∷ cs)) plus
      ∙ decode_plus cs
      ∙ ap (λ x. x ∷ decode_from cs) (sym (if_eq _ t refl))
  | inr (t, other) ↦
      decode_plain c cs p other ∙ ap (λ x. x ∷ decode_from cs) (sym (if_not_eq _ t refl))
]

decode_step :
    (c : ℕ) (xs t : List ℕ)
    → c ≢ 37
    → decode_from (xs ++ t) ≡ decode_from xs ++ decode_from t
    → decode_from (c ∷ (xs ++ t)) ≡ decode_from (c ∷ xs) ++ decode_from t
decode_step c xs t p e =
    decode_one c (xs ++ t) p
    ∙ ap (◌∷◌ (if c == 43 then 32 else c)) e
    ∙ ap (λ l. l ++ decode_from t) (sym (decode_one c xs p))

if_then_false : (b c : Bool) → b ≡ true → (if b then false else c) ≡ true → false ≡ true
if_then_false true c e h = h
if_then_false false c e h = e

-- A whole text is decoded up to its end, whatever follows.
decode-append :
    (p t : List ℕ) → is_whole p ≡ true → decode_from (p ++ t) ≡ decode_from p ++ decode_from t
unfolding decode_from
decode-append [] t h = refl
decode-append (c ∷ []) t h = elim (eq_cases c 37) [
  | inl (e, _) ↦ let f = if_then_false (c == 37) true e h in cc f
  | inr (_, other) ↦ decode_step c [] t other refl
]
decode-append (c ∷ a ∷ []) t h = elim (eq_cases c 37) [
  | inl (e, _) ↦ let f = if_then_false (c == 37) (is_whole (a ∷ [])) e h in cc f
  | inr (e, other) ↦
      decode_step c (a ∷ []) t other (decode-append (a ∷ []) t (sym (if_not_eq _ e refl) ∙ h))
]
decode-append (c ∷ a ∷ b ∷ cs) t h = elim (eq_cases c 37) [
  | inl (e, same) ↦
      ap (λ x. decode_from (x ∷ a ∷ b ∷ (cs ++ t))) same
      ∙ ap (◌∷◌ (hex_pair a b)) (decode-append cs t (sym (if_eq _ e refl) ∙ h))
      ∙ ap (λ x. decode_from (x ∷ a ∷ b ∷ cs) ++ decode_from t) (sym same)
  | inr (e, other) ↦
      decode_step c (a ∷ b ∷ cs) t other
        (decode-append (a ∷ b ∷ cs) t (sym (if_not_eq _ e refl) ∙ h))
]

-- A 0 ends a string, whatever stands in front of it.
pub c_string_end : (xs ys : List ℕ) → c_string (xs ++ 0 ∷ ys) ≡ c_string xs
c_string_end [] ys = refl
c_string_end (x ∷ xs) ys = ap (λ l. if x == 0 then [] else x ∷ l) (c_string_end xs ys)

-- A `%00` ends the decoded text: what stands in front of it is decoded, if each `%` in it has its
-- escape in it, and what follows is lost.
pub url_decode_truncates :
    (p rest : List ℕ) → is_whole p ≡ true → url_decode (p ++ 37 ∷ 48 ∷ 48 ∷ rest) ≡ url_decode p
unfolding url_decode hex_pair from_hex decode_from
url_decode_truncates p rest h =
    ap c_string (decode-append p (37 ∷ 48 ∷ 48 ∷ rest) h)
    ∙ c_string_end (decode_from p) (decode_from rest)

pub length-url_encode : (cs : List ℕ) → length (url_encode cs) ≤ length cs * 3
unfolding url_encode
length-url_encode [] = omega arith
length-url_encode (c ∷ cs) =
    let rest = length-url_encode cs in
    elim (Bool-cases (is_plain c)) [
      | inl t ↦ rw t (omega arith)
      | inr t ↦ rw t (elim (eq_cases c 32) [
        | inl (u, _) ↦ rw u (omega arith)
        | inr (u, _) ↦ rw u (omega arith)
      ])
    ]

pub length-decode_from : (cs : List ℕ) → length (decode_from cs) ≤ length cs
unfolding decode_from
length-decode_from [] = omega arith
length-decode_from (c ∷ []) = ground arith
length-decode_from (c ∷ a ∷ []) = ground (arith, length-decode_from (a ∷ []))
length-decode_from (c ∷ a ∷ b ∷ cs) =
    ground (arith, length-decode_from cs, length-decode_from (a ∷ b ∷ cs))

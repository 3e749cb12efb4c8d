-- ===== src/Text/Tokens.antt =====
-- What `tokenize` at a string makes of a string.
use networkio.Base.{
  drop-prefix, length-append, ◌≤◌, ◌≢◌, subst, eq_cases, ℕ, zero, suc, ◌<◌, ◌≡◌, refl, sym, ap, ap₂,
  ◌∙◌, true, false, ◌&&◌, List, [], ◌∷◌, ◌++◌, Option, none, some, inl, inr, Bool-cases, if_eq,
  if_not_eq, ==_false, arith, length, drop, append_assoc, append-nil, length-drop,
}
use networkio.Text.{starts_with, tokens_from, tokenize_at}

-- The strings one behind the other, with the delimiter between them.
abbrev pub join : List ℕ → List (List ℕ) → List ℕ
join d [] = []
join d (t ∷ []) = t
join d (t ∷ u ∷ us) = t ++ (d ++ join d (u ∷ us))

starts_with_lem : (d s : List ℕ) → starts_with d s ≡ true → s ≡ d ++ drop (length d) s
unfolding starts_with
starts_with_lem [] s h = refl
starts_with_lem (d ∷ ds) [] h = cc
starts_with_lem (d ∷ ds) (x ∷ xs) h = elim (eq_cases d x) [
  | inl (t, e) ↦
      ap₂ ◌∷◌ (sym e) (starts_with_lem ds xs (sym (ap (λ b. b && starts_with ds xs) t) ∙ h))
  | inr (t, _) ↦ let f : false ≡ true = sym (ap (λ b. b && starts_with ds xs) t) ∙ h in cc
]

starts_with-append : (d b : List ℕ) → starts_with d (d ++ b) ≡ true
unfolding starts_with
starts_with-append [] b = refl
starts_with-append (d ∷ ds) b = ground (arith, starts_with-append ds b)

-- No occurrence of the delimiter in the string begins in its first `n` characters.
abbrev pub NoneBefore : List ℕ → ℕ → List ℕ → Type 0
NoneBefore d n s = (a b : List ℕ) → s ≡ a ++ (d ++ b) → n ≤ length a

-- How a string falls into tokens at a delimiter: each token but the last ends where the first
-- occurrence of the delimiter begins, and the last one has no occurrence.
pub data Cuts (d : List ℕ) : List ℕ → List (List ℕ) → Type 0 where
  last : (s : List ℕ) → ((a b : List ℕ) → s ≢ a ++ (d ++ b)) → Cuts d s (s ∷ [])
  cut :
      (t s : List ℕ) (ts : List (List ℕ))
      → NoneBefore d (length t) (t ++ (d ++ s))
      → Cuts d s ts
      → Cuts d (t ++ (d ++ s)) (t ∷ ts)

-- The tokens of a result that is not empty.
record Result (d text : List ℕ) (out : Option (List (List ℕ))) : Type 0 where
  first : List ℕ
  more : List (List ℕ)
  runs : out ≡ some (first ∷ more)
  cuts : Cuts d text (first ∷ more)
  joined : join d (first ∷ more) ≡ text

-- Where the delimiter does not begin, the search goes on behind one more character.
NoneBefore-next :
    (d token : List ℕ) (x : ℕ) (xs : List ℕ)
    → starts_with d (x ∷ xs) ≡ false
    → NoneBefore d (length token) (token ++ x ∷ xs)
    → NoneBefore d (length (token ++ x ∷ [])) ((token ++ x ∷ []) ++ xs)
NoneBefore-next d token x xs other off a b e =
    let e' : token ++ x ∷ xs ≡ a ++ (d ++ b) = sym (append_assoc token (x ∷ []) xs) ∙ e in
    let here : length token ≤ length a = off a b e' in
    elim (eq_cases (length a) (length token)) [
      | inl (_, same) ↦
          let rest : x ∷ xs ≡ d ++ b =
            sym (drop-prefix (length token) token (x ∷ xs) refl)
            ∙ ap (drop (length token)) e'
            ∙ drop-prefix (length token) a (d ++ b) same in
          let f : false ≡ true = sym other ∙ ap (starts_with d) rest ∙ starts_with-append d b in
          cc f
      | inr (_, more) ↦ omega (arith, length-append token (x ∷ []))
    ]

tokens_from-Result :
    (rounds : ℕ) (d token s : List ℕ)
    → 0 < length d
    → length s < rounds
    → NoneBefore d (length token) (token ++ s)
    → Result d (token ++ s) (tokens_from rounds d token s)
unfolding tokens_from
tokens_from-Result zero d token s some_d lt off = absurd (omega arith)
tokens_from-Result (suc rounds) d token [] some_d lt off = record {
  first = token;
  more = [];
  runs = refl;
  cuts =
      subst (λ l. Cuts d l (token ∷ [])) (sym (append-nil token))
        (last token (λ a b e. absurd (
          omega (
            arith,
            off a b (append-nil token ∙ e),
            ap length e,
            length-append a (d ++ b),
            length-append d b,
          ))));
  joined = sym (append-nil token);
}
tokens_from-Result (suc rounds) d token (x ∷ xs) some_d lt off =
    elim (Bool-cases (starts_with d (x ∷ xs))) [
      | inl here ↦
          let s = drop (length d) (x ∷ xs) in
          let whole : x ∷ xs ≡ d ++ s = starts_with_lem d (x ∷ xs) here in
          let r =
            tokens_from-Result rounds d [] s some_d (omega (arith, length-drop (length d) (x ∷ xs)))
              (λ a b e. omega arith) in
          record {
            first = token;
            more = r.first ∷ r.more;
            runs =
                if_eq _ here
                  (ap (λ o. elim o [ none ↦ none | some res ↦ some (token ∷ res) ]) r.runs);
            cuts =
                subst (λ l. Cuts d (token ++ l) (token ∷ r.first ∷ r.more)) (sym whole)
                  (cut token s (r.first ∷ r.more)
                    (subst (λ l. NoneBefore d (length token) (token ++ l)) whole off) r.cuts);
            joined = ap (λ t. token ++ (d ++ t)) r.joined ∙ ap (◌++◌ token) (sym whole);
          }
      | inr other ↦
          let r =
            tokens_from-Result rounds d (token ++ x ∷ []) xs some_d (omega arith)
              (NoneBefore-next d token x xs other off) in
          let same : (token ++ x ∷ []) ++ xs ≡ token ++ x ∷ xs = append_assoc token (x ∷ []) xs in
          record {
            first = r.first;
            more = r.more;
            runs = if_not_eq _ other r.runs;
            cuts = subst (λ l. Cuts d l (r.first ∷ r.more)) same r.cuts;
            joined = r.joined ∙ same;
          }
    ]

-- `tokenize` at a string that is not empty ends. Each of its tokens but the last ends where the
-- first occurrence of the string in what is left begins, and what is left is behind that
-- occurrence; the last token has no occurrence. So the tokens with the string between them are the
-- text.
pub tokenize_at_joins :
    (str delimiter : List ℕ)
    → 0 < length delimiter
    → (tokens : List (List ℕ)) × (tokenize_at str delimiter ≡ some tokens)
      × Cuts delimiter str tokens
      × (join delimiter tokens ≡ str)
unfolding tokenize_at
tokenize_at_joins str delimiter h =
    let r =
      tokens_from-Result (suc (length str)) delimiter [] str h (omega arith)
        (λ a b e. omega arith) in
    (
      r.first ∷ r.more,
      if_not_eq _ (==_false (length delimiter) 0 (omega arith)) r.runs,
      r.cuts,
      r.joined,
    )

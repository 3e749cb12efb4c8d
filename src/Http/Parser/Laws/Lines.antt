-- ===== src/Http/Parser/Laws/Lines.antt =====
-- Lines of a text that end in carriage return and line feed, as `header_from_string` of
-- library/src/http/http_parser.cpp cuts them.
use networkio.Base.{
  ℕ, zero, suc, ◌<◌, ◌≡◌, ◌≢◌, refl, ap, ◌∙◌, sym, true, false, List, [], ◌∷◌, ◌++◌, Option, none,
  some, ◌&&◌, ==_false, if_eq, if_not_eq, length, arith, append_assoc, append-nil,
}
use networkio.Text.{cut_at, starts_with, tokens_from, tokenize_at}
use networkio.Text.Laws.{Free}

-- Each line behind a line end.
abbrev pub lines_text : List (List ℕ) → List ℕ
lines_text [] = []
lines_text (l ∷ ls) = 13 ∷ 10 ∷ (l ++ lines_text ls)

-- The lines are not empty, and have no carriage return.
abbrev pub AreLines : List (List ℕ) → Type 0
AreLines [] = Unit {0}
AreLines (l ∷ ls) = Free 13 l × (0 < length l) × AreLines ls

abbrev blank_line : List ℕ
blank_line = 13 ∷ 10 ∷ 13 ∷ 10 ∷ []

starts_not : (x : ℕ) (ds s : List ℕ) → x ≢ 13 → starts_with (13 ∷ ds) (x ∷ s) ≡ false
unfolding starts_with
starts_not x ds s n = ap (λ b. b && starts_with ds s) (==_false 13 x (λ e. n (sym e)))

abbrev behind : ℕ → Option (List ℕ × List ℕ) → Option (List ℕ × List ℕ)
behind x o = elim o [ none ↦ none | some (a, b) ↦ some (x ∷ a, b) ]

cut-Free :
    (l s a b : List ℕ)
    → Free 13 l
    → cut_at blank_line s ≡ some (a, b)
    → cut_at blank_line (l ++ s) ≡ some (l ++ a, b)
unfolding cut_at
cut-Free [] s a b f e = e
cut-Free (x ∷ l) s a b (n, f) e =
    if_not_eq _ (starts_not x (10 ∷ 13 ∷ 10 ∷ []) (l ++ s) n) (ap (behind x) (cut-Free l s a b f e))

not_blank : (x : ℕ) (s : List ℕ) → x ≢ 13 → starts_with blank_line (13 ∷ 10 ∷ x ∷ s) ≡ false
unfolding starts_with
not_blank x s n = starts_not x (10 ∷ []) s n

starts_line : (s : List ℕ) → starts_with (13 ∷ 10 ∷ []) (13 ∷ 10 ∷ s) ≡ true
unfolding starts_with
starts_line s = refl

cut_blank : (body : List ℕ) → cut_at blank_line (13 ∷ 10 ∷ 13 ∷ 10 ∷ body) ≡ some ([], body)
unfolding cut_at starts_with
cut_blank body = refl

-- A line end in front of a text that does not begin with another one.
cut_end :
    (x : ℕ) (s a b : List ℕ)
    → x ≢ 13
    → cut_at blank_line (x ∷ s) ≡ some (a, b)
    → cut_at blank_line (13 ∷ 10 ∷ x ∷ s) ≡ some (13 ∷ 10 ∷ a, b)
unfolding cut_at
cut_end x s a b n e = if_not_eq _ (not_blank x s n) (
    ap (behind 13)
      (if_not_eq _ (starts_not 10 (10 ∷ 13 ∷ 10 ∷ []) (x ∷ s) (omega arith)) (ap (behind 10) e)))

cut_rest :
    (body : List ℕ) (ls : List (List ℕ))
    → AreLines ls
    → cut_at blank_line (lines_text ls ++ (13 ∷ 10 ∷ 13 ∷ 10 ∷ body)) ≡ some (lines_text ls, body)
cut_rest body [] a = cut_blank body
cut_rest body ([] ∷ ls) (f, some_l, a) = absurd (omega arith)
cut_rest body ((x ∷ l) ∷ ls) ((n, f), some_l, a) =
    let z = 13 ∷ 10 ∷ 13 ∷ 10 ∷ body in
    cut_end x ((l ++ lines_text ls) ++ z) (x ∷ (l ++ lines_text ls)) body n (
      ap (λ t. cut_at blank_line (x ∷ t)) (append_assoc l (lines_text ls) z)
      ∙ cut-Free (x ∷ l) (lines_text ls ++ z) (lines_text ls) body (n, f) (cut_rest body ls a))

-- The first blank line is the one behind the lines.
pub cut_lines :
    (h body : List ℕ) (ls : List (List ℕ))
    → Free 13 h
    → AreLines ls
    → cut_at blank_line (h ++ (lines_text ls ++ (13 ∷ 10 ∷ 13 ∷ 10 ∷ body)))
      ≡ some (h ++ lines_text ls, body)
cut_lines h body ls f a =
    cut-Free h (lines_text ls ++ (13 ∷ 10 ∷ 13 ∷ 10 ∷ body)) (lines_text ls) body f
      (cut_rest body ls a)

-- The tokens are the lines, with the token that has been begun in front of the first.
tokens_lines :
    (rounds : ℕ) (token l : List ℕ) (ls : List (List ℕ))
    → Free 13 l
    → AreLines ls
    → length (l ++ lines_text ls) < rounds
    → tokens_from rounds (13 ∷ 10 ∷ []) token (l ++ lines_text ls) ≡ some ((token ++ l) ∷ ls)
unfolding tokens_from
tokens_lines zero token l ls f a lt = absurd (omega arith)
tokens_lines (suc rounds) token [] [] f a lt = ap (λ t. some (t ∷ [])) (sym (append-nil token))
tokens_lines (suc rounds) token [] (l ∷ ls) f (g, some_l, a) lt =
    if_eq _ (starts_line (l ++ lines_text ls)) (
      ap (λ o. elim o [ none ↦ none | some res ↦ some (token ∷ res) ])
        (tokens_lines rounds [] l ls g a (omega arith))
      ∙ ap (λ t. some (t ∷ l ∷ ls)) (sym (append-nil token)))
tokens_lines (suc rounds) token (x ∷ l) ls (n, f) a lt =
    if_not_eq _ (starts_not x (10 ∷ []) (l ++ lines_text ls) n) (
      tokens_lines rounds (token ++ x ∷ []) l ls f a (omega arith)
      ∙ ap (λ t. some (t ∷ ls)) (append_assoc token (x ∷ []) l))

pub tokenize_lines :
    (l : List ℕ) (ls : List (List ℕ))
    → Free 13 l
    → AreLines ls
    → tokenize_at (l ++ lines_text ls) (13 ∷ 10 ∷ []) ≡ some (l ∷ ls)
unfolding tokenize_at
tokenize_lines l ls f a = tokens_lines (suc (length (l ++ lines_text ls))) [] l ls f a (omega arith)

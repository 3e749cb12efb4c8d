-- ===== src/Text/Laws.antt =====
-- What `strip` and `tokenize` make of a string.
use networkio.Base.{
  ==_false, ◌≢◌, false, true, ◌&&◌, ◌⊎◌, ℕ, zero, suc, ◌+◌, ◌≤◌, ◌<◌, ◌≡◌, refl, sym, ap, ap₂, ◌∙◌,
  subst, List, [], ◌∷◌, ◌++◌, none, some, inl, inr, eq_cases, if_eq, if_not_eq, if◌then◌else◌, ◌==◌,
  arith, length, append_assoc, append-nil,
}
use networkio.Text.{eq_text, find_char, erase_at, strip_from, strip, strip_all, pieces, tokenize}

-- The string without the characters `c`.
abbrev pub without : ℕ → List ℕ → List ℕ
without c [] = []
without c (x ∷ xs) = if x == c then without c xs else x ∷ without c xs

-- Without all of the characters `cs`.
abbrev pub without_all : List ℕ → List ℕ → List ℕ
without_all [] s = s
without_all (c ∷ cs) s = without_all cs (without c s)

-- What `find` tells of the string: the character is not there, or it can be erased once more.
find_cases :
    (c : ℕ) (s : List ℕ)
    → ((find_char c s ≡ none) × (without c s ≡ s))
      ⊎ ((i : ℕ) × (find_char c s ≡ some i)
          × (length (erase_at i s) + 1 ≡ length s)
          × (without c (erase_at i s) ≡ without c s))
unfolding find_char
find_cases c [] = inl (refl, refl)
find_cases c (x ∷ xs) = elim (eq_cases x c) [
  | inl (t, _) ↦ inr (0, if_eq _ t refl, omega arith, sym (if_eq _ t refl))
  | inr (t, _) ↦ elim (find_cases c xs) [
    | inl (e, w) ↦ inl (
      if_not_eq _ t (ap (λ o. elim o [ none ↦ none | some i ↦ some (suc i) ]) e),
      if_not_eq _ t (ap (◌∷◌ x) w),
    )
    | inr (i, e, l, w) ↦ inr (
      suc i,
      if_not_eq _ t (ap (λ o. elim o [ none ↦ none | some i ↦ some (suc i) ]) e),
      omega (arith, l),
      if_not_eq _ t (ap (◌∷◌ x) w) ∙ sym (if_not_eq _ t refl),
    )
  ]
]

strip_from-without :
    (rounds : ℕ) (s : List ℕ) (c : ℕ)
    → length s ≤ rounds
    → strip_from rounds s c ≡ some (without c s)
unfolding strip_from
strip_from-without zero s c le = elim (find_cases c s) [
  | inl (e, w) ↦ ap (λ o. elim o [ none ↦ some s | some i ↦ none ]) e ∙ ap some (sym w)
  | inr (i, e, l, w) ↦ absurd (omega (arith, l))
]
strip_from-without (suc rounds) s c le = elim (find_cases c s) [
  | inl (e, w) ↦
      ap (λ o. elim o [ none ↦ some s | some i ↦ strip_from rounds (erase_at i s) c ]) e
      ∙ ap some (sym w)
  | inr (i, e, l, w) ↦
      ap (λ o. elim o [ none ↦ some s | some i ↦ strip_from rounds (erase_at i s) c ]) e
      ∙ strip_from-without rounds (erase_at i s) c (omega (arith, l))
      ∙ ap some w
]

strip-without : (s : List ℕ) (c : ℕ) → strip s c ≡ some (without c s)
unfolding strip
strip-without s c = strip_from-without (length s) s c (omega arith)

-- The loops of `strip` end within as many rounds as there are characters, and `strip_all` leaves
-- the string without each of the characters given, the others in their order.
pub strip_all-without : (s cs : List ℕ) → strip_all s cs ≡ some (without_all cs s)
unfolding strip_all
strip_all-without s [] = refl
strip_all-without s (c ∷ cs) =
    ap (λ o. elim o [ none ↦ none | some r ↦ strip_all r cs ]) (strip-without s c)
    ∙ strip_all-without (without c s) cs

-- The character does not stand in the text.
abbrev pub Free : ℕ → List ℕ → Type 0
Free c [] = Unit {0}
Free c (x ∷ xs) = (x ≢ c) × Free c xs

pub Free-append : (c : ℕ) (xs ys : List ℕ) → Free c xs → Free c ys → Free c (xs ++ ys)
Free-append c [] ys f g = g
Free-append c (x ∷ xs) ys (n, f) g = (n, Free-append c xs ys f g)

-- How a string falls into tokens at a character: a token is not empty and does not have the
-- character, and ends where the character or the end of the string stands.
pub data Splits (c : ℕ) : List ℕ → List (List ℕ) → Type 0 where
  ends : Splits c [] []
  gap : (s : List ℕ) (ts : List (List ℕ)) → Splits c s ts → Splits c (c ∷ s) ts
  last : (t : List ℕ) → 0 < length t → Free c t → Splits c t (t ∷ [])
  cut :
      (t s : List ℕ) (ts : List (List ℕ))
      → 0 < length t
      → Free c t
      → Splits c s ts
      → Splits c (t ++ c ∷ s) (t ∷ ts)

-- Tokens of a text that begins without the separator.
pub pieces-Free :
    (c : ℕ) (item xs s : List ℕ) → Free c xs → pieces c item (xs ++ s) ≡ pieces c (item ++ xs) s
unfolding pieces
pieces-Free c item [] s f = ap (λ t. pieces c t s) (sym (append-nil item))
pieces-Free c item (x ∷ xs) s (n, f) =
    if_not_eq _ (==_false x c n) (
      pieces-Free c (item ++ x ∷ []) xs s f
      ∙ ap (λ t. pieces c t s) (append_assoc item (x ∷ []) xs))

pub pieces_last : (c : ℕ) (item : List ℕ) → 0 < length item → pieces c item [] ≡ item ∷ []
unfolding pieces
pieces_last c item h = if_not_eq _ (==_false (length item) 0 (λ e. absurd (omega arith))) refl

pub pieces_next :
    (c : ℕ) (item s : List ℕ) → 0 < length item → pieces c item (c ∷ s) ≡ item ∷ pieces c [] s
unfolding pieces
pieces_next c item s h =
    let same : (c == c) ≡ true = ground arith in
    if_eq _ same (if_not_eq _ (==_false (length item) 0 (λ e. absurd (omega arith))) refl)

pub pieces_gap : (c : ℕ) (s : List ℕ) → pieces c [] (c ∷ s) ≡ pieces c [] s
unfolding pieces
pieces_gap c s = let same : (c == c) ≡ true = ground arith in if_eq _ same refl

pieces_on :
    (c : ℕ) (item s : List ℕ) (x : ℕ)
    → (x == c) ≡ false
    → pieces c item (x ∷ s) ≡ pieces c (item ++ x ∷ []) s
unfolding pieces
pieces_on c item s x t = if_not_eq _ t refl

pieces_end :
    (c : ℕ) (item xs : List ℕ)
    → Free c item
    → Splits c xs (pieces c [] xs)
    → Splits c (item ++ c ∷ xs) (pieces c item (c ∷ xs))
pieces_end c [] xs f r =
    subst (Splits c (c ∷ xs)) (sym (pieces_gap c xs)) (gap xs (pieces c [] xs) r)
pieces_end c (a ∷ item) xs f r =
    subst (Splits c ((a ∷ item) ++ c ∷ xs)) (sym (pieces_next c (a ∷ item) xs (omega arith)))
      (cut (a ∷ item) xs (pieces c [] xs) (omega arith) f r)

pieces-Splits : (c : ℕ) (item s : List ℕ) → Free c item → Splits c (item ++ s) (pieces c item s)
unfolding pieces
pieces-Splits c [] [] f = ends
pieces-Splits c (a ∷ item) [] f =
    subst (Splits c ((a ∷ item) ++ [])) (sym (pieces_last c (a ∷ item) (omega arith))) (
      subst (λ l. Splits c l ((a ∷ item) ∷ [])) (sym (append-nil (a ∷ item)))
        (last (a ∷ item) (omega arith) f))
pieces-Splits c item (x ∷ xs) f = elim (eq_cases x c) [
  | inl (_, same) ↦
      subst (λ y. Splits c (item ++ y ∷ xs) (pieces c item (y ∷ xs))) (sym same)
        (pieces_end c item xs f (pieces-Splits c [] xs tt))
  | inr (t, other) ↦ subst (Splits c (item ++ x ∷ xs)) (sym (pieces_on c item xs x t)) (
      subst (λ l. Splits c l (pieces c (item ++ x ∷ []) xs)) (append_assoc item (x ∷ []) xs)
        (pieces-Splits c (item ++ x ∷ []) xs (Free-append c item (x ∷ []) f (other, tt))))
]

-- `tokenize` at a character gives the longest parts of the string that do not have the character,
-- in order and each once: no token is empty, and a token ends just where the character stands, or
-- at the end of the string.
pub tokenize-Splits : (str : List ℕ) (c : ℕ) → Splits c str (tokenize str c)
unfolding tokenize
tokenize-Splits str c = pieces-Splits c [] str tt

pub eq_text_same : (xs : List ℕ) → eq_text xs xs ≡ true
unfolding eq_text
eq_text_same [] = refl
eq_text_same (x ∷ xs) = ground (arith, eq_text_same xs)

pub eq_text→eq : (xs ys : List ℕ) → eq_text xs ys ≡ true → xs ≡ ys
unfolding eq_text
eq_text→eq [] [] e = refl
eq_text→eq [] (y ∷ ys) e = cc e
eq_text→eq (x ∷ xs) [] e = cc e
eq_text→eq (x ∷ xs) (y ∷ ys) e = elim (eq_cases x y) [
  | inl (t, same) ↦ ap₂ ◌∷◌ same (eq_text→eq xs ys (sym (ap (λ b. b && eq_text xs ys) t) ∙ e))
  | inr (t, _) ↦ let f : false ≡ true = sym (ap (λ b. b && eq_text xs ys) t) ∙ e in cc f
]

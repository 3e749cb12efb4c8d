-- ===== src/Http/Server/Paths.antt =====
-- The URI of a request of library/src/http/http_server.cpp as its parts.
use networkio.Base.{ℕ, ◌<◌, ◌≡◌, refl, ap, ◌∙◌, List, [], ◌∷◌, ◌++◌, length}
use networkio.Http.Server.{joined}
use networkio.Text.{tokenize, pieces}
use networkio.Text.Laws.{Free, pieces-Free, pieces_last, pieces_next, pieces_gap}

-- A path of these parts: a `/` in front of each.
abbrev pub spelled : List (List ℕ) → List ℕ
spelled [] = []
spelled (t ∷ ts) = 47 ∷ (t ++ spelled ts)

-- The parts are not empty, and have no `/`. They may be `..`.
abbrev pub AreParts : List (List ℕ) → Type 0
AreParts [] = Unit {0}
AreParts (t ∷ ts) = (0 < length t) × Free 47 t × AreParts ts

pub joined-spelled : (ts : List (List ℕ)) → joined ts ≡ spelled ts
unfolding joined
joined-spelled [] = refl
joined-spelled (t ∷ ts) = ap (λ l. 47 ∷ (t ++ l)) (joined-spelled ts)

pieces-spelled :
    (item : List ℕ) (ts : List (List ℕ))
    → 0 < length item
    → AreParts ts
    → pieces 47 item (spelled ts) ≡ item ∷ ts
pieces-spelled item [] h a = pieces_last 47 item h
pieces-spelled item (t ∷ ts) h (k, f, a) =
    pieces_next 47 item (t ++ spelled ts) h
    ∙ ap (◌∷◌ item) (pieces-Free 47 [] t (spelled ts) f ∙ pieces-spelled t ts k a)

pub tokenize-spelled :
    (t : List ℕ) (ts : List (List ℕ)) → AreParts (t ∷ ts) → tokenize (spelled (t ∷ ts)) 47 ≡ t ∷ ts
unfolding tokenize
tokenize-spelled t ts (k, f, a) =
    pieces_gap 47 (t ++ spelled ts) ∙ pieces-Free 47 [] t (spelled ts) f ∙ pieces-spelled t ts k a

-- ===== src/Text/Tests.antt =====
-- The theorems on strings at concrete ones.
use networkio.Base.{ℕ, List, arith, ◌≡◌, [], ◌∷◌, some, refl}
use networkio.Text.{tokenize_at, strip_all, tokenize, pieces}
use networkio.Text.Tokens.{join, Cuts, tokenize_at_joins}
use networkio.Text.Laws.{Splits, strip_all-without, tokenize-Splits}

-- "a,b,," without "," and "b"
strip_all-without_example : strip_all (97 ∷ 44 ∷ 98 ∷ 44 ∷ 44 ∷ []) (44 ∷ 98 ∷ []) ≡ some (97 ∷ [])
strip_all-without_example = strip_all-without (97 ∷ 44 ∷ 98 ∷ 44 ∷ 44 ∷ []) (44 ∷ 98 ∷ [])

tokenize_runs : tokenize (44 ∷ 97 ∷ 98 ∷ 44 ∷ 44 ∷ 99 ∷ []) 44 ≡ (97 ∷ 98 ∷ []) ∷ (99 ∷ []) ∷ []
unfolding tokenize pieces
tokenize_runs = refl

tokenize-Splits_example : Splits 44 (97 ∷ 44 ∷ 98 ∷ []) (tokenize (97 ∷ 44 ∷ 98 ∷ []) 44)
tokenize-Splits_example = tokenize-Splits (97 ∷ 44 ∷ 98 ∷ []) 44

-- "a, b" at ", "
tokenize_at_joins_example :
    (tokens : List (List ℕ)) × (tokenize_at (97 ∷ 44 ∷ 32 ∷ 98 ∷ []) (44 ∷ 32 ∷ []) ≡ some tokens)
    × Cuts (44 ∷ 32 ∷ []) (97 ∷ 44 ∷ 32 ∷ 98 ∷ []) tokens
    × (join (44 ∷ 32 ∷ []) tokens ≡ 97 ∷ 44 ∷ 32 ∷ 98 ∷ [])
tokenize_at_joins_example = tokenize_at_joins (97 ∷ 44 ∷ 32 ∷ 98 ∷ []) (44 ∷ 32 ∷ []) (omega arith)

-- ===== src/Text.antt =====
-- library/src/stringutil.cpp: functions on strings. A string is the list of its characters.
pub mod Laws
pub mod Tokens
pub mod Numbers
mod Tests
use networkio.Base.{
  ℕ, zero, suc, Bool, true, false, ◌&&◌, ◌||◌, not, List, [], ◌∷◌, ◌++◌, Option, none, some, leb,
  ltb, ◌==◌, if◌then◌else◌, length, take, drop,
}

-- `std::string::find` of a character
unfoldable pub find_char : ℕ → List ℕ → Option ℕ
find_char c [] = none
find_char c (x ∷ xs) =
    if x == c then some 0 else elim (find_char c xs) [ none ↦ none | some i ↦ some (suc i) ]

-- `std::string::erase` of one character
abbrev pub erase_at : ℕ → List ℕ → List ℕ
erase_at i s = take i s ++ drop (suc i) s

-- The loop of `strip`, for the rounds that are left: each erases a character.
unfoldable pub strip_from : ℕ → List ℕ → ℕ → Option (List ℕ)
strip_from zero s c = elim (find_char c s) [ none ↦ some s | some i ↦ none ]
strip_from (suc rounds) s c = elim (find_char c s) [
  | none ↦ some s
  | some i ↦ strip_from rounds (erase_at i s) c
]

unfoldable pub strip : List ℕ → ℕ → Option (List ℕ)
strip s c = strip_from (length s) s c

unfoldable pub strip_all : List ℕ → List ℕ → Option (List ℕ)
strip_all s [] = some s
strip_all s (c ∷ cs) = elim (strip s c) [ none ↦ none | some r ↦ strip_all r cs ]

-- `filter_ip` of a `char`, which is negative from 128 on.
unfoldable pub filter_ip : ℕ → Bool
filter_ip c = not (ltb c 128 && ((leb 48 c && leb c 57) || c == 46))

-- The pieces that `std::getline` gives, without the empty ones: `item` is the piece that has been
-- begun.
unfoldable pub pieces : ℕ → List ℕ → List ℕ → List (List ℕ)
pieces c item [] = if length item == 0 then [] else item ∷ []
pieces c item (x ∷ xs) =
    if x == c
    then (if length item == 0 then pieces c [] xs else item ∷ pieces c [] xs)
    else pieces c (item ++ x ∷ []) xs

-- `tokenize(str, char)`
unfoldable pub tokenize : List ℕ → ℕ → List (List ℕ)
tokenize str c = pieces c [] str

unfoldable pub starts_with : List ℕ → List ℕ → Bool
starts_with [] s = true
starts_with (d ∷ ds) [] = false
starts_with (d ∷ ds) (x ∷ xs) = d == x && starts_with ds xs

-- The loop of `tokenize` at a string, character by character for the rounds that are left: `token`
-- is what lies between `pos_start` and where `find` looks.
unfoldable pub tokens_from : ℕ → List ℕ → List ℕ → List ℕ → Option (List (List ℕ))
tokens_from zero delimiter token s = none
tokens_from (suc rounds) delimiter token [] = some (token ∷ [])
tokens_from (suc rounds) delimiter token (x ∷ xs) =
    let after = tokens_from rounds delimiter [] (drop (length delimiter) (x ∷ xs)) in
    let on = tokens_from rounds delimiter (token ++ x ∷ []) xs in
    if starts_with delimiter (x ∷ xs)
    then elim after [ none ↦ none | some res ↦ some (token ∷ res) ]
    else on

-- `tokenize(str, delimiter)`: `none` is a loop without end, which an empty delimiter gives.
unfoldable pub tokenize_at : List ℕ → List ℕ → Option (List (List ℕ))
tokenize_at str delimiter =
    if length delimiter == 0 then none else tokens_from (suc (length str)) delimiter [] str

-- `==` of two strings
unfoldable pub eq_text : List ℕ → List ℕ → Bool
eq_text [] [] = true
eq_text [] (y ∷ ys) = false
eq_text (x ∷ xs) [] = false
eq_text (x ∷ xs) (y ∷ ys) = x == y && eq_text xs ys

-- `std::string::find` of a string: what stands before its first occurrence, and what follows it.
unfoldable pub cut_at : List ℕ → List ℕ → Option (List ℕ × List ℕ)
cut_at d [] = if starts_with d [] then some ([], []) else none
cut_at d (x ∷ xs) =
    if starts_with d (x ∷ xs)
    then some ([], drop (length d) (x ∷ xs))
    else elim (cut_at d xs) [ none ↦ none | some (a, b) ↦ some (x ∷ a, b) ]

-- The loop of `replace_all`, character by character for the rounds that are left: what has been
-- replaced is not searched again.
unfoldable pub replace_from : ℕ → List ℕ → List ℕ → List ℕ → Option (List ℕ)
replace_from zero old new s = none
replace_from (suc rounds) old new [] = some []
replace_from (suc rounds) old new (x ∷ xs) =
    let after = replace_from rounds old new (drop (length old) (x ∷ xs)) in
    let on = replace_from rounds old new xs in
    if starts_with old (x ∷ xs)
    then elim after [ none ↦ none | some r ↦ some (new ++ r) ]
    else elim on [ none ↦ none | some r ↦ some (x ∷ r) ]

unfoldable pub replace_all : List ℕ → List ℕ → List ℕ → Option (List ℕ)
replace_all str old new =
    if length old == 0 then some [] else replace_from (suc (length str)) old new str

-- `insert` of a `std::map`, in the order of the insertions: a key that is there keeps its value.
unfoldable pub insert_pair : List (List ℕ × List ℕ) → List ℕ → List ℕ → List (List ℕ × List ℕ)
insert_pair [] key val = (key, val) ∷ []
insert_pair ((k, v) ∷ rest) key val =
    if eq_text k key then (k, v) ∷ rest else (k, v) ∷ insert_pair rest key val

-- One entry of `tojson`, by its tokens.
abbrev pub add_entry : List (List ℕ × List ℕ) → List (List ℕ) → List (List ℕ × List ℕ)
add_entry r (key ∷ val ∷ more) = insert_pair r key val
add_entry r tokens = r

unfoldable pub entries_from : List (List ℕ × List ℕ) → List (List ℕ) → List (List ℕ × List ℕ)
entries_from r [] = r
entries_from r (entry ∷ entries) = entries_from (add_entry r (tokenize entry 58)) entries

-- `tojson`: line ends, quotes, blanks, tabs and braces are stripped first.
unfoldable pub tojson : List ℕ → Option (List (List ℕ × List ℕ))
tojson s = elim (strip_all s (10 ∷ 13 ∷ 34 ∷ 32 ∷ 9 ∷ 123 ∷ 125 ∷ [])) [
  | none ↦ none
  | some s2 ↦ some (entries_from [] (tokenize s2 44))
]

-- ===== src/Text/Numbers.antt =====
-- `std::stoi` and `atoi` of the standard library, as the program calls them: an `int` has 32 bits.
use networkio.Base.{
  ℕ, ◌+◌, ◌-◌, ◌*◌, ◌^◌, Bool, ◌&&◌, ◌||◌, List, [], ◌∷◌, Option, none, some, ◌==◌, leb,
  if◌then◌else◌, ◌/◌, ◌%◌, zero, suc, ◌++◌,
}
use networkio.Base.Int.{ℤ, pos, negsuc}

unfoldable pub is_digit : ℕ → Bool
is_digit c = leb 48 c && leb c 57

-- `isspace` in the C locale
unfoldable pub is_space : ℕ → Bool
is_space c = c == 32 || (leb 9 c && leb c 13)

unfoldable pub skip_space : List ℕ → List ℕ
skip_space [] = []
skip_space (c ∷ cs) = if is_space c then skip_space cs else c ∷ cs

-- The number that the digits in front spell, after those that were read; `none` without any.
unfoldable pub digits_from : Option ℕ → List ℕ → Option ℕ
digits_from n [] = n
digits_from n (c ∷ cs) =
    if is_digit c
    then digits_from (some (elim n [ none ↦ c - 48 | some k ↦ k * 10 + (c - 48) ])) cs
    else n

abbrev pub negated : ℕ → ℤ
negated zero = pos 0
negated (suc n) = negsuc n

unfoldable pub signed_digits : List ℕ → Option ℤ
signed_digits [] = none
signed_digits (c ∷ cs) =
    if c == 45
    then elim (digits_from none cs) [ none ↦ none | some n ↦ some (negated n) ]
    else if c == 43
    then elim (digits_from none cs) [ none ↦ none | some n ↦ some (pos n) ]
    else elim (digits_from none (c ∷ cs)) [ none ↦ none | some n ↦ some (pos n) ]

abbrev pub in_int : ℤ → Bool
in_int (pos n) = leb (n + 1) (2 ^ 31)
in_int (negsuc n) = leb (n + 1) (2 ^ 31)

-- `std::stoi`: the number, or the exception.
pub data Stoi : Type 0 where
  number : ℤ → Stoi
  invalid_argument : Stoi
  out_of_range : Stoi

unfoldable pub stoi_result : List ℕ → Stoi
stoi_result s = elim (signed_digits (skip_space s)) [
  | none ↦ invalid_argument
  | some z ↦ if in_int z then number z else out_of_range
]

-- The same, `none` being either exception.
unfoldable pub stoi : List ℕ → Option ℤ
stoi s = elim (stoi_result s) [ number z ↦ some z | invalid_argument ↦ none | out_of_range ↦ none ]

-- `atoi`, which gives 0 where there is no number; where the number is no `int` it is undefined.
unfoldable pub atoi : List ℕ → Option ℤ
atoi s = elim (signed_digits (skip_space s)) [
  | none ↦ some (pos 0)
  | some z ↦ if in_int z then some z else none
]

-- The digits of a number, which `std::to_string` gives, for a number of that many digits at most.
unfoldable pub digits_of : ℕ → ℕ → List ℕ
digits_of zero n = []
digits_of (suc k) n = if leb n 9 then (48 + n) ∷ [] else digits_of k (n / 10) ++ (48 + n % 10) ∷ []

-- `std::to_string` of a number below 10 ^ 20
unfoldable pub to_string : ℕ → List ℕ
to_string n = digits_of 20 n

-- `std::to_string` of an `int`
unfoldable pub int_text : ℤ → List ℕ
int_text (pos n) = to_string n
int_text (negsuc n) = 45 ∷ to_string (n + 1)

-- ===== src/Http/Url.antt =====
-- library/inc/networkio/http/http_url.h: text in URLs. A `char` is the number of its byte, and the
-- character classes are those of the "C" locale.
pub mod Laws
pub mod Characters
pub mod Blocks
mod Tests
use Prim.Native.Nat.{bit_or}
use networkio.Base.{
  ℕ, suc, ◌+◌, ◌-◌, ◌*◌, ◌/◌, ◌%◌, Bool, ◌&&◌, ◌||◌, List, [], ◌∷◌, ◌++◌, Option, none, some, leb,
  ltb, ◌==◌, if◌then◌else◌, ◌>>=◌, length, take, drop,
}
use networkio.Memory.Block.{malloc}

abbrev pub between : ℕ → ℕ → ℕ → Bool
between lo hi c = leb lo c && leb c hi

-- `isdigit`, `isalnum` and `tolower`
abbrev pub is_digit : ℕ → Bool
is_digit c = between 48 57 c

abbrev pub is_alnum : ℕ → Bool
is_alnum c = is_digit c || (between 65 90 c || between 97 122 c)

abbrev pub to_lower : ℕ → ℕ
to_lower c = if between 65 90 c then c + 32 else c

-- A hex character's value as a `char`; what is no hex digit gives some other value.
unfoldable pub from_hex : ℕ → ℕ
from_hex ch = if is_digit ch then ch - 48 else (to_lower ch + 256 - 97 + 10) % 256

-- The entry of "0123456789abcdef" for the low four bits.
unfoldable pub to_hex : ℕ → ℕ
to_hex code = let d = code % 16 in if leb d 9 then 48 + d else 87 + d

-- The characters that stand for themselves.
unfoldable pub is_plain : ℕ → Bool
is_plain c = is_alnum c || (c == 45 || (c == 95 || (c == 46 || c == 126)))

-- The loop of `url_encode`, for a text without 0.
unfoldable pub url_encode : List ℕ → List ℕ
url_encode [] = []
url_encode (c ∷ cs) =
    let rest = url_encode cs in
    if is_plain c
    then c ∷ rest
    else if c == 32
    then 43 ∷ rest
    else 37 ∷ to_hex (c / 16) ∷ to_hex (c % 16) ∷ rest

-- The byte that two hex characters stand for.
unfoldable pub hex_pair : ℕ → ℕ → ℕ
hex_pair a b = bit_or (from_hex a * 16 % 256) (from_hex b)

-- The loop of `url_decode`, for a text without 0. A `%` with fewer than two characters behind it is
-- left out.
unfoldable pub decode_from : List ℕ → List ℕ
decode_from [] = []
decode_from (c ∷ []) = if c == 37 then [] else if c == 43 then 32 ∷ [] else c ∷ []
decode_from (c ∷ a ∷ []) =
    let rest = decode_from (a ∷ []) in
    if c == 37 then rest else if c == 43 then 32 ∷ rest else c ∷ rest
decode_from (c ∷ a ∷ b ∷ cs) =
    let pair = hex_pair a b ∷ decode_from cs in
    let rest = decode_from (a ∷ b ∷ cs) in
    if c == 37 then pair else if c == 43 then 32 ∷ rest else c ∷ rest

-- The result is a `std::string` of the buffer, which ends at its first 0.
abbrev pub c_string : List ℕ → List ℕ
c_string [] = []
c_string (c ∷ cs) = if c == 0 then [] else c ∷ c_string cs

unfoldable pub url_decode : List ℕ → List ℕ
url_decode cs = c_string (decode_from cs)

-- `*pbuf++ = x` for each of the bytes, from an index of the block on: `none` is a write outside it.
unfoldable pub put_all : List ℕ → ℕ → List ℕ → Option (List ℕ)
put_all b n [] = some b
put_all b n (x ∷ xs) =
    let rest = put_all (take n b ++ x ∷ drop (suc n) b) (suc n) xs in
    if ltb n (length b) then rest else none

-- What the two functions allocate for a text.
abbrev pub encode_size : List ℕ → ℕ
encode_size cs = length cs * 3 + 1

abbrev pub decode_size : List ℕ → ℕ
decode_size cs = length cs + 1

-- The two functions with their blocks: the bytes of the loop and a 0 are written one after the other,
-- and the result is the string that the block then holds. `none` is a write outside the block.
unfoldable pub encoded : (ℕ → ℕ) → List ℕ → Option (List ℕ)
encoded junk cs =
    put_all (malloc junk (encode_size cs)) 0 (url_encode cs ++ 0 ∷ []) >>= λ b. some (c_string b)

unfoldable pub decoded : (ℕ → ℕ) → List ℕ → Option (List ℕ)
decoded junk cs =
    put_all (malloc junk (decode_size cs)) 0 (decode_from cs ++ 0 ∷ []) >>= λ b. some (c_string b)

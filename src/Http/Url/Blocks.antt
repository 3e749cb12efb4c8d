-- ===== src/Http/Url/Blocks.antt =====
-- The blocks that `url_encode` and `url_decode` of library/inc/networkio/http/http_url.h write to.
use networkio.Base.{
  ℕ, suc, ◌≤◌, ◌≡◌, refl, ap, ◌∙◌, sym, List, [], ◌∷◌, ◌++◌, some, if_eq, arith, length, take, drop,
  then_eq, append_assoc, length-append, lt→ltb, ap₂, take-prefix, drop-prefix,
}
use networkio.Http.Url.Characters.{IsUnused-nul, c_string-Free, url_encode-Free}
use networkio.Http.Url.{
  url_encode, url_decode, decode_from, c_string, put_all, encode_size, decode_size, encoded,
  decoded,
}
use networkio.Http.Url.Laws.{length-url_encode, length-decode_from, c_string_end}
use networkio.Memory.Block.{malloc, length-malloc}

-- Bytes that fit behind the front of a block are put there, one after the other.
put_all_lem :
    (front rest xs : List ℕ)
    → length xs ≤ length rest
    → put_all (front ++ rest) (length front) xs ≡ some (front ++ (xs ++ drop (length xs) rest))
unfolding put_all
put_all_lem front rest [] h = refl
put_all_lem front [] (x ∷ xs) h = absurd (omega arith)
put_all_lem front (r ∷ rest) (x ∷ xs) h =
    let n = length front in
    let behind : drop (suc n) (front ++ r ∷ rest) ≡ rest =
      ap (drop (suc n)) (sym (append_assoc front (r ∷ []) rest))
      ∙ drop-prefix (suc n) (front ++ r ∷ []) rest (omega (arith, length-append front (r ∷ []))) in
    let block : take n (front ++ r ∷ rest) ++ x ∷ drop (suc n) (front ++ r ∷ rest)
        ≡ (front ++ x ∷ []) ++ rest =
      ap₂ (λ u v. u ++ x ∷ v) (take-prefix n front (r ∷ rest) refl) behind
      ∙ sym (append_assoc front (x ∷ []) rest) in
    let next : suc n ≡ length (front ++ x ∷ []) = omega (arith, length-append front (x ∷ [])) in
    if_eq _ (lt→ltb n (length (front ++ r ∷ rest)) (omega (arith, length-append front (r ∷ rest))))
      (ap₂ (λ b k. put_all b k xs) block next
        ∙ put_all_lem (front ++ x ∷ []) rest xs (omega arith)
        ∙ ap some (append_assoc front (x ∷ []) (xs ++ drop (length xs) rest)))

-- What is written with a 0 behind it is the string of the block.
c_string_written : (xs rest : List ℕ) → c_string ((xs ++ 0 ∷ []) ++ rest) ≡ c_string xs
c_string_written xs rest = ap c_string (append_assoc xs (0 ∷ []) rest) ∙ c_string_end xs rest

-- `url_encode` and `url_decode` write no byte outside the block that they allocate, whatever the text
-- and whatever the block held, and the string that the block then holds is the text encoded and the
-- text decoded up to the first 0.
pub blocks_suffice :
    (junk : ℕ → ℕ) (cs : List ℕ)
    → (encoded junk cs ≡ some (url_encode cs)) × (decoded junk cs ≡ some (url_decode cs))
unfolding encoded decoded url_decode
blocks_suffice junk cs =
    let e = url_encode cs ++ 0 ∷ [] in
    let d = decode_from cs ++ 0 ∷ [] in
    let eb = malloc junk (encode_size cs) in
    let db = malloc junk (decode_size cs) in
    (
      then_eq _
          (put_all_lem [] eb e (
            omega (
              arith,
              length-append (url_encode cs) (0 ∷ []),
              length-malloc junk (encode_size cs),
              length-url_encode cs,
            )))
          (ap some (
            c_string_written (url_encode cs) (drop (length e) eb)
            ∙ c_string-Free (url_encode cs) (url_encode-Free 0 cs IsUnused-nul))),
      then_eq _
          (put_all_lem [] db d (
            omega (
              arith,
              length-append (decode_from cs) (0 ∷ []),
              length-malloc junk (decode_size cs),
              length-decode_from cs,
            )))
          (ap some (c_string_written (decode_from cs) (drop (length d) db))),
    )

-- ===== src/Http/Url/Tests.antt =====
-- The theorems on URLs at concrete texts.
use networkio.Base.{some, ◌++◌, ◌≡◌, refl, [], ◌∷◌, arith}
use networkio.Http.Url.{url_encode, url_decode, encoded, decoded}
use networkio.Http.Url.Laws.{url_decode-url_encode, url_decode_truncates}
use networkio.Http.Url.Blocks.{blocks_suffice}

-- "a b%" and a byte that is not ASCII
url_decode-url_encode_example :
    url_decode (url_encode (97 ∷ 32 ∷ 98 ∷ 37 ∷ 228 ∷ [])) ≡ 97 ∷ 32 ∷ 98 ∷ 37 ∷ 228 ∷ []
url_decode-url_encode_example = url_decode-url_encode (97 ∷ 32 ∷ 98 ∷ 37 ∷ 228 ∷ []) (omega arith)

-- "%2fa=%00b"
url_decode_truncates_example :
    url_decode ((37 ∷ 50 ∷ 102 ∷ 97 ∷ 61 ∷ []) ++ 37 ∷ 48 ∷ 48 ∷ 98 ∷ [])
    ≡ url_decode (37 ∷ 50 ∷ 102 ∷ 97 ∷ 61 ∷ [])
url_decode_truncates_example = url_decode_truncates (37 ∷ 50 ∷ 102 ∷ 97 ∷ 61 ∷ []) (98 ∷ []) refl

blocks_suffice_example :
    (encoded (λ n. 7) (97 ∷ 32 ∷ 37 ∷ []) ≡ some (url_encode (97 ∷ 32 ∷ 37 ∷ [])))
    × (decoded (λ n. 7) (97 ∷ 32 ∷ 37 ∷ []) ≡ some (url_decode (97 ∷ 32 ∷ 37 ∷ [])))
blocks_suffice_example = blocks_suffice (λ n. 7) (97 ∷ 32 ∷ 37 ∷ [])

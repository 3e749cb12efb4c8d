-- ===== src/Hash/Tests.antt =====
-- The theorems on the hash functions at concrete texts.
use networkio.Base.{◌≡◌, [], ◌∷◌, arith}
use networkio.Hash.{fnv1a, fnv1a_ring, fnv1a_ct, fnv1a_bias}
use networkio.Hash.Laws.{fnv1a_agree}

fnv1a_agree_example :
    (fnv1a (104 ∷ 105 ∷ []) ≡ fnv1a_ct (104 ∷ 105 ∷ []) fnv1a_bias)
    × (fnv1a (104 ∷ 105 ∷ []) ≡ fnv1a_ring (104 ∷ 105 ∷ []) fnv1a_bias)
fnv1a_agree_example = fnv1a_agree 104 (105 ∷ []) (omega arith)

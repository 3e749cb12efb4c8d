-- ===== src/Hash/Laws.antt =====
-- Where the three hash functions agree, and what the hash does not see.
use networkio.Base.{
  zero, ◌-◌, ◌&&◌, not, suc, Bool, true, ℕ, ◌+◌, ◌≤◌, ◌<◌, ◌^◌, ◌≡◌, ◌≢◌, refl, sym, List, [], ◌∷◌,
  arith, ◌==◌, if◌then◌else◌, eq_cases, inl, inr,
}
use networkio.Hash.{mix, fnv1a_from, fnv1a, fnv1a_ring, fnv1a_ct, char_to_u32, fnv1a_bias}

-- Text of ASCII characters, none of them 0.
abbrev pub IsAscii : List ℕ → Type 0
IsAscii [] = Unit {0}
IsAscii (c ∷ cs) = (0 < c) × (c < 128) × IsAscii cs

ct_from : (cs : List ℕ) (h : ℕ) → IsAscii cs → fnv1a_ct cs h ≡ fnv1a_from h cs
unfolding fnv1a_ct fnv1a_from char_to_u32
ct_from [] h a = refl
ct_from (c ∷ cs) h (p, q, r) = ground (arith, ct_from cs (mix h c) r)

-- The three ways to hash a text that is not empty give one value, if it is ASCII and has no 0: an
-- endpoint that is named by `HASH` at compile time is found by the hash of its name at run time.
pub fnv1a_agree :
    (c : ℕ) (cs : List ℕ)
    → IsAscii (c ∷ cs)
    → (fnv1a (c ∷ cs) ≡ fnv1a_ct (c ∷ cs) fnv1a_bias)
      × (fnv1a (c ∷ cs) ≡ fnv1a_ring (c ∷ cs) fnv1a_bias)
unfolding fnv1a fnv1a_ring
fnv1a_agree c cs a = (sym (ct_from (c ∷ cs) fnv1a_bias a), refl)

-- The hash of a text is a `uint32_t`.
pub fnv1a_from-lt : (cs : List ℕ) (h : ℕ) → h < 2 ^ 32 → fnv1a_from h cs < 2 ^ 32
unfolding fnv1a_from mix
fnv1a_from-lt [] h lt = lt
fnv1a_from-lt (c ∷ cs) h lt = fnv1a_from-lt cs _ (ground arith)

pub fnv1a-lt : (cs : List ℕ) → fnv1a cs < 2 ^ 32
unfolding fnv1a
fnv1a-lt [] = omega arith
fnv1a-lt (c ∷ cs) = fnv1a_from-lt (c ∷ cs) fnv1a_bias (omega arith)

-- The bytes that the hash depends on.
abbrev pub nonzero : List ℕ → List ℕ
nonzero [] = []
nonzero (c ∷ cs) = if c == 0 then nonzero cs else c ∷ nonzero cs

-- A byte that is 0 does not count, wherever it stands.
pub fnv1a_from-nonzero : (cs : List ℕ) (h : ℕ) → fnv1a_from h cs ≡ fnv1a_from h (nonzero cs)
unfolding fnv1a_from
fnv1a_from-nonzero [] h = refl
fnv1a_from-nonzero (c ∷ cs) h = elim (eq_cases c 0) [
  | inl (t, _) ↦ rw t (fnv1a_from-nonzero cs h)
  | inr (t, _) ↦ rw (t, fnv1a_from, t) (fnv1a_from-nonzero cs (mix h c))
]

-- Whether the two hashes of each text of one byte in `128 .. 128 + k - 1` differ.
apart : ℕ → Bool
apart zero = true
apart (suc k) = apart k && not (fnv1a_ct ((128 + k) ∷ []) fnv1a_bias == fnv1a ((128 + k) ∷ []))

apart_at :
    (k d c : ℕ)
    → apart k ≡ true
    → d + 1 ≤ k
    → c ≡ 128 + d
    → fnv1a_ct (c ∷ []) fnv1a_bias ≢ fnv1a (c ∷ [])
unfolding apart
apart_at zero d c h le e = absurd (omega arith)
apart_at (suc k) d c h le e = elim (eq_cases d k) [
  | inl (_, same) ↦ rw (e, same) (ground arith)
  | inr (_, other) ↦ apart_at k d c (ground arith) (omega arith) e
]

all_apart : apart 128 ≡ true
unfolding apart fnv1a_ct fnv1a fnv1a_from mix char_to_u32
all_apart = refl

-- A text of one byte that is not ASCII has one value by `HASH` and another by `fnv1a`: the first
-- extends the sign of the `char`.
pub fnv1a_ct_high_byte : (c : ℕ) → 128 ≤ c → c < 256 → fnv1a_ct (c ∷ []) fnv1a_bias ≢ fnv1a (c ∷ [])
fnv1a_ct_high_byte c lo hi = apart_at 128 (c - 128) c all_apart (omega arith) (omega arith)

-- ===== src/Hash.antt =====
-- library/inc/networkio/fnv1a.h: the hash of headers and of endpoint names.
pub mod Laws
mod Tests
use networkio.Base.{ℕ, ◌+◌, ◌-◌, ◌*◌, ◌%◌, ◌^◌, List, [], ◌∷◌, ltb, ◌==◌, if◌then◌else◌}
use networkio.Base.Int.{u32}
use Prim.Native.Nat.{bit_xor}

abbrev pub fnv1a_prime : ℕ
fnv1a_prime = 16777619

abbrev pub fnv1a_bias : ℕ
fnv1a_bias = 2166136261

-- `out ^= c; out *= FNV1A_PRIME;`
unfoldable pub mix : ℕ → ℕ → ℕ
mix out c = u32 (bit_xor out c * fnv1a_prime)

-- The loop of `fnv1a` and of `fnv1a_ring`: bytes that are 0 are passed over.
unfoldable pub fnv1a_from : ℕ → List ℕ → ℕ
fnv1a_from out [] = out
fnv1a_from out (c ∷ cs) = fnv1a_from (if c == 0 then out else mix out c) cs

-- `fnv1a(const void *, size_t)`; `len == 0` gives `hash32_t{}`.
unfoldable pub fnv1a : List ℕ → ℕ
fnv1a [] = 0
fnv1a (c ∷ cs) = fnv1a_from fnv1a_bias (c ∷ cs)

unfoldable pub fnv1a_ring : List ℕ → ℕ → ℕ
fnv1a_ring str hash = fnv1a_from hash str

-- A `char` as an `int`, and that as a `uint32_t`; `char` is signed on the x86 targets.
unfoldable pub char_to_u32 : ℕ → ℕ
char_to_u32 c = if ltb c 128 then c else c + 2 ^ 32 - 256

-- `fnv1a_ct`, and so `HASH(str)`: up to the first byte that is 0.
unfoldable pub fnv1a_ct : List ℕ → ℕ → ℕ
fnv1a_ct [] start = start
fnv1a_ct (c ∷ cs) start =
    let rest = fnv1a_ct cs (mix start (char_to_u32 c)) in if c == 0 then start else rest

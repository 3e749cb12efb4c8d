-- ===== src/Memory/Block.antt =====
-- What the buffers use of the C library: `malloc`, `realloc`, `free` and `memcpy`, on blocks
-- of bytes. A call that leaves its block, or uses a freed one, is undefined and gives `none`.
use networkio.Base.{
  ℕ, zero, suc, ◌+◌, ◌-◌, ◌≤◌, ◌≡◌, refl, ap, ◌∙◌, List, [], ◌∷◌, ◌++◌, Option, none, some, ◌&&◌,
  arith, leb, if◌then◌else◌, length, take, drop, length-append, length-take, length-drop, le→leb,
  append-nil, drop_all, take_all, take_append, ap₂,
}

-- A `uint8_t *` that the buffer owns.
pub data Ptr : Type 0 where
  null : Ptr
  live : List ℕ → Ptr
  freed : Ptr

-- `junk` says which bytes a block holds that nobody has written yet.
unfoldable pub malloc : (ℕ → ℕ) → ℕ → List ℕ
malloc junk zero = []
malloc junk (suc n) = malloc junk n ++ junk n ∷ []

-- The old bytes, then as many new ones as the block grows by.
unfoldable pub realloc : (ℕ → ℕ) → List ℕ → ℕ → List ℕ
realloc junk b n = take n b ++ malloc junk (n - length b)

-- `n` bytes of `src`, from index `s` on.
abbrev pub slice : List ℕ → ℕ → ℕ → List ℕ
slice src s n = take n (drop s src)

-- `dst` with the bytes `bs` written from index `d` on.
abbrev pub overwrite : List ℕ → ℕ → List ℕ → List ℕ
overwrite dst d bs = take d dst ++ (bs ++ drop (d + length bs) dst)

-- `memcpy(dst + d, src + s, n)`: the destination block afterwards.
unfoldable pub memcpy : List ℕ → ℕ → List ℕ → ℕ → ℕ → Option (List ℕ)
memcpy dst d src s n =
    if leb (d + n) (length dst) && leb (s + n) (length src)
    then some (overwrite dst d (slice src s n))
    else none

pub length-malloc : (junk : ℕ → ℕ) (n : ℕ) → length (malloc junk n) ≡ n
unfolding malloc
length-malloc junk zero = refl
length-malloc junk (suc n) =
    omega (arith, length-append (malloc junk n) (junk n ∷ []), length-malloc junk n)

pub length-realloc :
    (junk : ℕ → ℕ) (b : List ℕ) (n : ℕ) → length b ≤ n → length (realloc junk b n) ≡ n
unfolding realloc
length-realloc junk b n h = omega (
  arith,
  length-append (take n b) (malloc junk (n - length b)),
  length-take n b,
  length-malloc junk (n - length b),
)

pub realloc_grow :
    (junk : ℕ → ℕ) (b : List ℕ) (n : ℕ)
    → length b ≤ n
    → realloc junk b n ≡ b ++ malloc junk (n - length b)
unfolding realloc
realloc_grow junk b n h = rw (take_all n b h)

pub memcpy_eq :
    (dst : List ℕ) (d : ℕ) (src : List ℕ) (s n : ℕ)
    → d + n ≤ length dst
    → s + n ≤ length src
    → memcpy dst d src s n ≡ some (overwrite dst d (slice src s n))
unfolding memcpy
memcpy_eq dst d src s n h k = rw (le→leb _ _ h, le→leb _ _ k)

pub length-slice : (src : List ℕ) (s n : ℕ) → s + n ≤ length src → length (slice src s n) ≡ n
length-slice src s n h = omega (arith, length-take n (drop s src), length-drop s src)

pub length-overwrite :
    (dst : List ℕ) (d : ℕ) (bs : List ℕ)
    → d + length bs ≤ length dst
    → length (overwrite dst d bs) ≡ length dst
length-overwrite dst d bs h = omega (
  arith,
  length-append (take d dst) (bs ++ drop (d + length bs) dst),
  length-append bs (drop (d + length bs) dst),
  length-take d dst,
  length-drop (d + length bs) dst,
)

-- A copy that fills the whole destination leaves the bytes copied, whatever was there.
pub memcpy_whole :
    (dst src : List ℕ) (s n : ℕ)
    → length dst ≡ n
    → s + n ≤ length src
    → memcpy dst 0 src s n ≡ some (slice src s n)
memcpy_whole dst src s n e h =
    memcpy_eq dst 0 src s n (omega arith) h
    ∙ ap some (
        ap (λ t. slice src s n ++ t)
          (drop_all (0 + length (slice src s n)) dst (omega (arith, length-slice src s n h)))
        ∙ append-nil _)

-- A copy to the front of the destination.
pub memcpy_front :
    (dst src : List ℕ) (s n : ℕ)
    → n ≤ length dst
    → s + n ≤ length src
    → memcpy dst 0 src s n ≡ some (slice src s n ++ drop n dst)
memcpy_front dst src s n h k =
    memcpy_eq dst 0 src s n (omega arith) k
    ∙ ap (λ m. some (slice src s n ++ drop m dst)) (omega (arith, length-slice src s n k))

-- A copy behind the old bytes of a block that has grown by as much.
pub memcpy_append :
    (junk : ℕ → ℕ) (b src : List ℕ) (d n total : ℕ)
    → length b ≡ d
    → total ≡ d + n
    → n ≤ length src
    → memcpy (realloc junk b total) d src 0 n ≡ some (b ++ take n src)
memcpy_append junk b src d n total e t h = rw (realloc_grow junk b total (omega arith)) (
    memcpy_eq (b ++ rest) d src 0 n (omega (arith, length-append b rest, grown)) (omega arith)
    ∙ ap some (
        ap₂ ◌++◌ front (
          ap (λ t. take n src ++ t)
            (drop_all _ (b ++ rest) (omega (arith, length-append b rest, grown, length-take n src)))
          ∙ append-nil _)))
  where
    rest : List ℕ
    rest = malloc junk (total - length b)

    grown : length rest ≡ total - length b
    grown = length-malloc junk (total - length b)

    front : take d (b ++ rest) ≡ b
    front = rw (← e) (take_append b rest)

-- ===== src/Memory/Slices.antt =====
-- Parts of a block, element by element.
use networkio.Base.{
  ℕ, ◌+◌, ◌-◌, ◌≤◌, ◌≡◌, ap, List, ◌++◌, none, arith, ltb, if◌then◌else◌, length, take, drop,
  get_elem?, length-append, length-take, get_elem?-append, get_elem?-take, get_elem?-drop,
  get_elem?-past, list_ext,
}
use networkio.Memory.Block.{slice, overwrite, length-slice}

pub get_elem?-overwrite :
    (dst : List ℕ) (d : ℕ) (bs : List ℕ) (i : ℕ)
    → d + length bs ≤ length dst
    → get_elem? (overwrite dst d bs) i ≡ (
        if ltb i d
        then get_elem? dst i
        else if ltb i (d + length bs)
        then get_elem? bs (i - d)
        else get_elem? dst i)
get_elem?-overwrite dst d bs i h = ground (
  arith,
  get_elem?-append (take d dst) (bs ++ drop (d + length bs) dst) i,
  get_elem?-append bs (drop (d + length bs) dst) (i - length (take d dst)),
  get_elem?-take d dst i,
  get_elem?-drop (d + length bs) dst (i - length (take d dst) - length bs),
  length-take d dst,
)

pub get_elem?-slice :
    (src : List ℕ) (s n i : ℕ)
    → get_elem? (slice src s n) i ≡ (if ltb i n then get_elem? src (s + i) else none)
get_elem?-slice src s n i = ground (arith, get_elem?-take n (drop s src) i, get_elem?-drop s src i)

-- A slice behind another one.
pub slice_part :
    (b : List ℕ) (o : ℕ) (xs ys zs : List ℕ)
    → slice b o (length (xs ++ (ys ++ zs))) ≡ xs ++ (ys ++ zs)
    → slice b (o + length xs) (length ys) ≡ ys
slice_part b o xs ys zs h = list_ext _ _ λ i. at i
  where
    at : (i : ℕ) → get_elem? (slice b (o + length xs) (length ys)) i ≡ get_elem? ys i
    at i =
        let n = length (xs ++ (ys ++ zs)) in
        let j = length xs + i in
        rw
          (
            get_elem?-take (length ys) (drop (o + length xs) b) i,
            get_elem?-drop (o + length xs) b i,
          )
          (ground (
            arith,
            ap (λ t. get_elem? t j) h,
            get_elem?-take n (drop o b) j,
            get_elem?-drop o b j,
            get_elem?-append xs (ys ++ zs) j,
            get_elem?-append ys zs (j - length xs),
            get_elem?-past ys i,
            length-append xs (ys ++ zs),
            length-append ys zs,
          ))

-- Bytes written where a slice ends lengthen it.
pub slice-overwrite :
    (b : List ℕ) (o n : ℕ) (bs : List ℕ)
    → o + n + length bs ≤ length b
    → slice (overwrite b (o + n) bs) o (n + length bs) ≡ slice b o n ++ bs
slice-overwrite b o n bs h = list_ext _ _ λ i. at i
  where
    at :
        (i : ℕ)
        → get_elem? (slice (overwrite b (o + n) bs) o (n + length bs)) i
          ≡ get_elem? (slice b o n ++ bs) i
    at i =
        rw
          (
            get_elem?-slice (overwrite b (o + n) bs) o (n + length bs) i,
            get_elem?-overwrite b (o + n) bs (o + i) h,
            get_elem?-append (slice b o n) bs i,
            get_elem?-slice b o n i,
            length-slice b o n (omega arith),
          )
          (ground (arith, get_elem?-past bs (i - n)))

-- ===== src/Memory/Ring/Window.antt =====
-- The bytes that a ring holds, as a window of its block, and what a copy into the block does to it.
use networkio.Base.{
  ap, take_all, sym, ap₂, ◌∙◌, ◌<◌, take-take, take-append_le, take-append_ge, ℕ, ◌+◌, ◌-◌, ◌≤◌,
  ◌≡◌, List, ◌++◌, none, arith, ltb, if◌then◌else◌, length, take, drop, get_elem?, length-append,
  length-take, length-drop, get_elem?-append, get_elem?-take, get_elem?-drop, get_elem?-past,
  list_ext,
}
use networkio.Memory.Slices.{get_elem?-overwrite}
use networkio.Memory.Block.{slice, overwrite, length-overwrite}

-- `n` bytes of `b` from index `r` on, going round at its end.
abbrev pub window : List ℕ → ℕ → ℕ → List ℕ
window b r n = take n (drop r b ++ take r b)

pub get_elem?-window :
    (b : List ℕ) (r n i : ℕ)
    → r ≤ length b
    → n ≤ length b
    → get_elem? (window b r n) i ≡ (
        if ltb i n
        then (if ltb (r + i) (length b)
            then get_elem? b (r + i)
            else get_elem? b (r + i - length b))
        else none)
get_elem?-window b r n i h k = ground (
  arith,
  get_elem?-take n (drop r b ++ take r b) i,
  get_elem?-append (drop r b) (take r b) i,
  get_elem?-drop r b i,
  get_elem?-take r b (i - length (drop r b)),
  length-drop r b,
)

pub length-window : (b : List ℕ) (r n : ℕ) → r ≤ length b → n ≤ length b → length (window b r n) ≡ n
length-window b r n h k = omega (
  arith,
  length-take n (drop r b ++ take r b),
  length-append (drop r b) (take r b),
  length-drop r b,
  length-take r b,
)

-- A copy of bytes to where the window ends, before the end of the block.
pub window-write :
    (b : List ℕ) (r n : ℕ) (bs : List ℕ)
    → r + n + length bs ≤ length b
    → window (overwrite b (r + n) bs) r (n + length bs) ≡ window b r n ++ bs
window-write b r n bs h = list_ext _ _ λ i. at i
  where
    at :
        (i : ℕ)
        → get_elem? (window (overwrite b (r + n) bs) r (n + length bs)) i
          ≡ get_elem? (window b r n ++ bs) i
    at i =
        rw
          (
            get_elem?-window (overwrite b (r + n) bs) r (n + length bs) i
                (omega (arith, length-overwrite b (r + n) bs h))
                (omega (arith, length-overwrite b (r + n) bs h)),
            length-overwrite b (r + n) bs h,
            get_elem?-append (window b r n) bs i,
            get_elem?-window b r n i (omega arith) (omega arith),
            length-window b r n (omega arith) (omega arith),
            get_elem?-overwrite b (r + n) bs (r + i) h,
          )
          (ground (arith, get_elem?-past bs (i - n)))

-- A copy of bytes to where a window ends that has gone round, short of its start.
pub window-write_round :
    (b : List ℕ) (r n w : ℕ) (bs : List ℕ)
    → r ≤ length b
    → r + n ≡ w + length b
    → w + length bs ≤ r
    → window (overwrite b w bs) r (n + length bs) ≡ window b r n ++ bs
window-write_round b r n w bs hr e h = list_ext _ _ λ i. at i
  where
    hw : w + length bs ≤ length b
    hw = omega arith

    at :
        (i : ℕ)
        → get_elem? (window (overwrite b w bs) r (n + length bs)) i
          ≡ get_elem? (window b r n ++ bs) i
    at i =
        rw
          (
            get_elem?-window (overwrite b w bs) r (n + length bs) i
                (omega (arith, length-overwrite b w bs hw))
                (omega (arith, length-overwrite b w bs hw)),
            length-overwrite b w bs hw,
            get_elem?-append (window b r n) bs i,
            get_elem?-window b r n i (omega arith) (omega arith),
            length-window b r n (omega arith) (omega arith),
            get_elem?-overwrite b w bs (r + i) hw,
            get_elem?-overwrite b w bs (r + i - length b) hw,
          )
          (ground (arith, get_elem?-past bs (i - n)))

-- The front of a window, and what is left of it.
pub take-window : (b : List ℕ) (r n k : ℕ) → k ≤ n → take k (window b r n) ≡ window b r k
take-window b r n k h = take-take k n (drop r b ++ take r b) h

pub drop-window :
    (b : List ℕ) (r n k : ℕ)
    → r + k < length b
    → k ≤ n
    → n ≤ length b
    → drop k (window b r n) ≡ window b (r + k) (n - k)
drop-window b r n k h le hn = list_ext _ _ λ i. at i
  where
    at : (i : ℕ) → get_elem? (drop k (window b r n)) i ≡ get_elem? (window b (r + k) (n - k)) i
    at i =
        rw
          (
            get_elem?-drop k (window b r n) i,
            get_elem?-window b r n (k + i) (omega arith) (omega arith),
            get_elem?-window b (r + k) (n - k) i (omega arith) (omega arith),
          )
          (ground (arith, get_elem?-past b (r + k + i)))

pub drop-window_round :
    (b : List ℕ) (r n k s : ℕ)
    → r ≤ length b
    → r + k ≡ s + length b
    → k ≤ n
    → n ≤ length b
    → drop k (window b r n) ≡ window b s (n - k)
drop-window_round b r n k s hr e le hn = list_ext _ _ λ i. at i
  where
    at : (i : ℕ) → get_elem? (drop k (window b r n)) i ≡ get_elem? (window b s (n - k)) i
    at i =
        rw
          (
            get_elem?-drop k (window b r n) i,
            get_elem?-window b r n (k + i) (omega arith) (omega arith),
            get_elem?-window b s (n - k) i (omega arith) (omega arith),
          )
          (ground arith)

-- A window that does not go round is one slice, and one that does is two.
pub window-slice : (b : List ℕ) (r n : ℕ) → r + n ≤ length b → window b r n ≡ slice b r n
window-slice b r n h = take-append_le n (drop r b) (take r b) (omega (arith, length-drop r b))

pub window_two_slices :
    (b : List ℕ) (r n s : ℕ)
    → r ≤ length b
    → r + n ≡ s + length b
    → s ≤ r
    → window b r n ≡ slice b r (length b - r) ++ slice b 0 s
window_two_slices b r n s hr e h =
    take-append_ge n (drop r b) (take r b) (omega (arith, length-drop r b))
    ∙ ap₂ ◌++◌ (sym (take_all (length b - r) (drop r b) (omega (arith, length-drop r b))))
        (ap (λ m. take m (take r b)) (omega (arith, length-drop r b)) ∙ take-take s r b h)

-- Two slices that follow one another are one.
pub slice-append :
    (src : List ℕ) (m n : ℕ)
    → m ≤ n
    → n ≤ length src
    → slice src 0 m ++ slice src m (n - m) ≡ take n src
slice-append src m n h k = list_ext _ _ λ i. at i
  where
    at : (i : ℕ) → get_elem? (slice src 0 m ++ slice src m (n - m)) i ≡ get_elem? (take n src) i
    at i =
        rw
          (
            get_elem?-append (slice src 0 m) (slice src m (n - m)) i,
            get_elem?-take n src i,
            get_elem?-take m src i,
            get_elem?-take (n - m) (drop m src) (i - length (take m src)),
            get_elem?-drop m src (i - length (take m src)),
            length-take m src,
          )
          (ground arith)

-- Two copies to the front of a block, one behind the other.
pub overwrite_twice :
    (dst xs bs : List ℕ)
    → length xs + length bs ≤ length dst
    → overwrite (overwrite dst 0 xs) (length xs) bs ≡ (xs ++ bs) ++ drop (length xs + length bs) dst
overwrite_twice dst xs bs h = list_ext _ _ λ i. at i
  where
    l : length (overwrite dst 0 xs) ≡ length dst
    l = length-overwrite dst 0 xs (omega arith)

    at :
        (i : ℕ)
        → get_elem? (overwrite (overwrite dst 0 xs) (length xs) bs) i
          ≡ get_elem? ((xs ++ bs) ++ drop (length xs + length bs) dst) i
    at i =
        rw
          (
            get_elem?-overwrite (overwrite dst 0 xs) (length xs) bs i (omega (arith, l)),
            get_elem?-overwrite dst 0 xs i (omega arith),
            get_elem?-append (xs ++ bs) (drop (length xs + length bs) dst) i,
            get_elem?-append xs bs i,
            get_elem?-drop (length xs + length bs) dst (i - length (xs ++ bs)),
            length-append xs bs,
          )
          (ground arith)

-- ===== src/Memory/Fifo/Laws.antt =====
-- What each method of `fifo_buffer` does to a valid buffer.
use networkio.Base.{
  ℕ, zero, suc, le→leb, lt→leb_false, take-min, drop-min, sym, append-nil, leb_cases, inl, inr, ◌+◌,
  ◌-◌, ◌≤◌, ◌<◌, ◌≡◌, refl, ap, ◌∙◌, none, some, List, [], ◌++◌, arith, length, take, drop, min,
  length-drop, length-append, length-take, take_all, drop_all,
}
use networkio.Base.Int.{pos, negsuc, int32_limit, add_int32_eq}
use networkio.Memory.Block.{
  Ptr, null, live, freed, malloc, memcpy_whole, memcpy_append, memcpy_front, length-malloc,
}
use networkio.Memory.Fifo.{
  FifoBuffer, empty, push_back, pop_front, pop_front_into, peek, size, clear, contents,
  append_block, block_bytes, inner_pop_front, front_block, peek_block, clear_block, free_block,
  shrink_block,
}

-- The block is null and nothing is held, or it is live and holds as many bytes as counted.
abbrev pub IsBlock : Ptr → ℕ → Type 0
IsBlock null n = n ≡ 0
IsBlock (live b) n = (length b ≡ n) × (0 < n) × (n < int32_limit)
IsBlock freed n = ⊥

abbrev pub IsValid : FifoBuffer → Type 0
IsValid f = IsBlock f.m_buffer f.m_buffer_size

block_size : (p : Ptr) (n : ℕ) → IsBlock p n → n ≡ length (block_bytes p)
block_size null n v = v
block_size (live b) n v = sym v.0
block_size freed n v = absurd v

pub size_eq : (f : FifoBuffer) → IsValid f → f.m_buffer_size ≡ length (contents f)
size_eq f v = block_size f.m_buffer f.m_buffer_size v

-- `push_back` of a count that is positive.
append_block_lem :
    (junk : ℕ → ℕ) (p : Ptr) (n : ℕ) (bs : List ℕ) (k : ℕ)
    → IsBlock p n
    → 0 < k
    → k ≤ length bs
    → n + k < int32_limit
    → (f : FifoBuffer) × (append_block junk p n bs k ≡ some f)
      × (f.m_buffer_size ≡ n + k)
      × IsValid f
      × (contents f ≡ block_bytes p ++ take k bs)
unfolding append_block
append_block_lem junk null n bs k v h le lim = (
  record { m_buffer = live (take k bs); m_buffer_size = k },
  rw (memcpy_whole (malloc junk k) bs 0 k (length-malloc junk k) (omega arith)),
  omega arith,
  (omega (arith, length-take k bs), h, omega arith),
  refl,
)
append_block_lem junk (live b) n bs k (e, p, q) h le lim = (
  record { m_buffer = live (b ++ take k bs); m_buffer_size = n + k },
  rw (add_int32_eq n k lim, memcpy_append junk b bs n k (n + k) e refl le),
  refl,
  (omega (arith, length-take k bs, length-append b (take k bs)), omega arith, lim),
  refl,
)
append_block_lem junk freed n bs k v h le lim = absurd v

-- Bytes pushed are held behind those that were there, as long as their number fits `int32_t`.
pub push_back_lem :
    (junk : ℕ → ℕ) (f : FifoBuffer) (bs : List ℕ) (k : ℕ)
    → IsValid f
    → k ≤ length bs
    → f.m_buffer_size + k < int32_limit
    → (f' : FifoBuffer) × (push_back junk f bs (pos k) ≡ some f')
      × IsValid f'
      × (contents f' ≡ contents f ++ take k bs)
unfolding push_back
push_back_lem junk f bs zero v h lim = (f, refl, v, sym (append-nil _))
push_back_lem junk f bs (suc k) v h lim =
    let (f', e, n, v', c) =
      append_block_lem junk f.m_buffer f.m_buffer_size bs (suc k) v (omega arith) h lim in
    (f', ground (arith, e), v', c)

pub size-length : (f : FifoBuffer) → IsValid f → size f ≡ length (contents f)
unfolding size
size-length f v = block_size f.m_buffer f.m_buffer_size v

-- The block that stays when `r` bytes of `b` go.
shrink_block_lem :
    (junk : ℕ → ℕ) (b : List ℕ) (n r : ℕ)
    → length b ≡ n
    → r ≤ n
    → shrink_block junk (live b) n r
      ≡ some (record { m_buffer = live (drop r b); m_buffer_size = n - r })
unfolding shrink_block
shrink_block_lem junk b n r e le =
    rw (memcpy_whole (malloc junk (n - r)) b r (n - r) (length-malloc junk (n - r)) (omega arith)) (
      ap (λ t. some (record { m_buffer = live t; m_buffer_size = n - r }))
        (take_all (n - r) (drop r b) (omega (arith, length-drop r b))))

inner_pop_front_lem :
    (junk : ℕ → ℕ) (p : Ptr) (n k : ℕ)
    → IsBlock p n
    → 0 < k
    → (f : FifoBuffer) × (inner_pop_front junk (record { m_buffer = p; m_buffer_size = n }) k
        ≡ some (min k n, f))
      × IsValid f
      × (contents f ≡ drop k (block_bytes p))
unfolding inner_pop_front free_block
inner_pop_front_lem junk null n k v h = (
  record { m_buffer = null; m_buffer_size = n },
  ground arith,
  v,
  sym (drop_all k [] (omega arith)),
)
inner_pop_front_lem junk (live b) n k (e, p, q) h = elim (leb_cases n k) [
  | inl (_, le) ↦ (empty, ground arith, refl, sym (drop_all k b (omega arith)))
  | inr (_, lt) ↦ (
    record { m_buffer = live (drop k b); m_buffer_size = n - k },
    ground (arith, shrink_block_lem junk b n k e),
    omega (arith, length-drop k b),
    refl,
  )
]
inner_pop_front_lem junk freed n k v h = absurd v

-- `pop_front` drops as many bytes as asked for, or all, and returns their number.
pub pop_front_lem :
    (junk : ℕ → ℕ) (f : FifoBuffer) (k : ℕ)
    → IsValid f
    → (f' : FifoBuffer) × (pop_front junk f (pos k) ≡ some (min k f.m_buffer_size, f'))
      × IsValid f'
      × (contents f' ≡ drop k (contents f))
unfolding pop_front
pop_front_lem junk f zero v = (f, ground arith, v, refl)
pop_front_lem junk f (suc k) v =
    let (f', e, v', c) =
      inner_pop_front_lem junk f.m_buffer f.m_buffer_size (suc k) v (omega arith) in
    (f', ground (arith, e), v', c)

front_block_lem :
    (p : Ptr) (n : ℕ) (dst : List ℕ) (r : ℕ)
    → IsBlock p n
    → 0 < r
    → r ≤ n
    → r ≤ length dst
    → front_block p dst r ≡ some (take r (block_bytes p) ++ drop r dst)
unfolding front_block
front_block_lem null n dst r v h le fits = absurd (omega arith)
front_block_lem (live b) n dst r v h le fits = memcpy_front dst b 0 r fits (omega arith)
front_block_lem freed n dst r v h le fits = absurd v

-- `pop_front` into a block puts those bytes at its front, and leaves the rest of it.
pub pop_front_into_lem :
    (junk : ℕ → ℕ) (f : FifoBuffer) (dst : List ℕ) (k : ℕ)
    → IsValid f
    → k ≤ length dst
    → (f' : FifoBuffer) × (pop_front_into junk f dst (pos k)
        ≡ some (min k f.m_buffer_size, take k (contents f) ++ drop (min k f.m_buffer_size) dst, f'))
      × IsValid f'
      × (contents f' ≡ drop k (contents f))
unfolding pop_front_into
pop_front_into_lem junk f dst k v h = elim (leb_cases (min k f.m_buffer_size) 0) [
  | inl (_, le) ↦ (
    f,
    ground (arith, sym (take-min k f.m_buffer_size (contents f) (sym (size_eq f v)))),
    v,
    ground (arith, sym (drop-min k f.m_buffer_size (contents f) (sym (size_eq f v)))),
  )
  | inr (_, lt) ↦
      let r = min k f.m_buffer_size in
      let (f', e, v', c) = inner_pop_front_lem junk f.m_buffer f.m_buffer_size r v lt in
      let read =
        front_block_lem f.m_buffer f.m_buffer_size dst r v lt (omega arith) (omega arith) in
      (
        f',
        ground (arith, e, read, take-min k f.m_buffer_size (contents f) (sym (size_eq f v))),
        v',
        c ∙ drop-min k f.m_buffer_size (contents f) (sym (size_eq f v)),
      )
]

-- Neither takes anything for a count that is not positive.
pub pop_front_negative :
    (junk : ℕ → ℕ) (f : FifoBuffer) (bs dst : List ℕ) (k : ℕ)
    → (push_back junk f bs (negsuc k) ≡ some f)
      × (pop_front junk f (negsuc k) ≡ some (0, f))
      × (pop_front_into junk f dst (negsuc k) ≡ some (0, dst, f))
unfolding push_back pop_front pop_front_into
pop_front_negative junk f bs dst k = (refl, refl, refl)

peek_block_lem :
    (p : Ptr) (n k : ℕ) → IsBlock p n → k ≤ n → peek_block p k ≡ some (take k (block_bytes p))
unfolding peek_block
peek_block_lem null n zero v h = refl
peek_block_lem null n (suc k) v h = absurd (omega arith)
peek_block_lem (live b) n k (e, _, _) h = rw (le→leb k (length b) (omega arith))
peek_block_lem freed n k v h = absurd v

peek_block_short : (p : Ptr) (n k : ℕ) → IsBlock p n → 0 < n → n < k → peek_block p k ≡ none
unfolding peek_block
peek_block_short null n k v h lt = absurd (omega arith)
peek_block_short (live b) n k (e, _, _) h lt = rw (lt→leb_false k (length b) (omega arith))
peek_block_short freed n k v h lt = absurd v

clear_live :
    (p : Ptr) (n : ℕ)
    → IsBlock p n
    → 0 < n
    → clear_block p n ≡ some (record { m_buffer = freed; m_buffer_size = 0 })
unfolding clear_block
clear_live null n v h = absurd (omega arith)
clear_live (live b) n v h = refl
clear_live freed n v h = absurd v

-- `peek` shows the front of the buffer and keeps it, if the buffer holds that many bytes.
pub peek_lem :
    (f : FifoBuffer) (n : ℕ) → IsValid f → n ≤ size f → peek f n ≡ some (take n (contents f))
unfolding peek size
peek_lem f n v h = peek_block_lem f.m_buffer f.m_buffer_size n v h

-- It reads past the end of the block otherwise, unless nothing is held.
pub peek_short : (f : FifoBuffer) (n : ℕ) → IsValid f → 0 < size f → size f < n → peek f n ≡ none
unfolding peek size
peek_short f n v p h = peek_block_short f.m_buffer f.m_buffer_size n v p h

-- `clear` of a buffer that holds bytes leaves a pointer to a freed block. The buffer then counts
-- 0 bytes, and the next `push_back` of any bytes, like the next `clear`, uses the freed block.
pub clear_dangles :
    (junk : ℕ → ℕ) (f : FifoBuffer) (bs : List ℕ) (k : ℕ)
    → IsValid f
    → 0 < size f
    → (f' : FifoBuffer) × (clear f ≡ some f')
      × (size f' ≡ 0)
      × (push_back junk f' bs (pos (suc k)) ≡ none)
      × (clear f' ≡ none)
unfolding clear clear_block size push_back append_block
clear_dangles junk f bs k v p = (
  record { m_buffer = freed; m_buffer_size = 0 },
  clear_live f.m_buffer f.m_buffer_size v p,
  refl,
  ground arith,
  refl,
)

-- ===== src/Memory/Ring/Growth.antt =====
-- `push_back` of `ring_buffer` where `_ensure_capacity` has to grow the block.
use networkio.Base.{
  ◌>>=◌, refl, ◌∙◌, ap, ℕ, ◌+◌, ◌-◌, ◌≤◌, ◌<◌, ◌≡◌, List, ◌++◌, none, some, Option, arith, length,
  take, append-nil, take-append_le, lt→ltb, take-append_le, append-nil,
}
use networkio.Base.Int.{int32_limit, pos, add_int32, add_int32_eq}
use networkio.Memory.Block.{
  live, malloc, realloc, realloc_grow, length-malloc, length-realloc, realloc_grow,
}
use networkio.Memory.Ring.{
  RingBuffer, empty, push_back, copy_in, ensure_capacity, grow_block, bytes_left,
}
use networkio.Memory.Ring.Window.{window}
use networkio.Memory.Ring.Laws.{IsRing, copy_in-Pushed, contents}

push_back_grown :
    (junk : ℕ → ℕ) (r : RingBuffer) (buf : List ℕ) (k : ℕ) (out : Option RingBuffer)
    → bytes_left r < k
    → ensure_capacity junk r (k - bytes_left r) ≡ out
    → push_back junk r buf (pos k) ≡ (out >>= λ r'. copy_in r' buf k)
unfolding push_back
push_back_grown junk r buf k out h e = rw (lt→ltb (bytes_left r) k h, e)

-- What `_ensure_capacity` makes of a ring that has a block.
abbrev grown : (ℕ → ℕ) → List ℕ → RingBuffer → ℕ → RingBuffer
grown junk b r s = record r {
  m_buffer = live (realloc junk b (r.m_buffer_size + s));
  m_buffer_size = r.m_buffer_size + s;
  m_write_offs = r.m_write_offs + r.m_buffer_size;
}

ensure_capacity_live :
    (junk : ℕ → ℕ) (b : List ℕ) (r : RingBuffer) (s : ℕ)
    → r.m_buffer ≡ live b
    → r.m_buffer_size + s < int32_limit
    → r.m_write_offs + r.m_buffer_size < int32_limit
    → ensure_capacity junk r s ≡ some (grown junk b r s)
unfolding ensure_capacity grow_block
ensure_capacity_live junk b r s p h k =
    rw (
      p,
      grow_block,
      add_int32_eq r.m_buffer_size s h,
      add_int32_eq r.m_write_offs r.m_buffer_size k,
    )

-- The ring grows as it should if it has no block yet.
pub push_back_first :
    (junk : ℕ → ℕ) (buf : List ℕ) (k : ℕ)
    → 0 < k
    → k ≤ length buf
    → k < int32_limit
    → (b : List ℕ) × (r : RingBuffer) × (push_back junk empty buf (pos k) ≡ some r)
      × (r.m_buffer ≡ live b)
      × IsRing b r
      × (contents r ≡ take k buf)
unfolding ensure_capacity grow_block
push_back_first junk buf k h le lim =
    let out = copy_in-Pushed (malloc junk k) fresh buf k refl valid le (omega arith) in
    (
      out.block,
      out.ring,
      push_back_grown junk empty buf k (some fresh) (omega arith) grows ∙ out.runs,
      out.is_live,
      out.valid,
      rw out.is_live out.holds,
    )
  where
    fresh : RingBuffer
    fresh = record empty { m_buffer = live (malloc junk k); m_buffer_size = k }

    valid : IsRing (malloc junk k) fresh
    valid = omega (arith, length-malloc junk k)

    grows : ensure_capacity junk empty (k - 0) ≡ some fresh
    grows =
        ap (λ m. some (record empty { m_buffer = live (malloc junk m); m_buffer_size = m }))
          (omega arith)

window-realloc :
    (junk : ℕ → ℕ) (b : List ℕ) (m n : ℕ)
    → length b ≤ m
    → n ≤ length b
    → window (realloc junk b m) 0 n ≡ window b 0 n
window-realloc junk b m n h le =
    rw (realloc_grow junk b m h, append-nil b, append-nil (b ++ malloc junk (m - length b)))
      (take-append_le n b (malloc junk (m - length b)) le)

-- A ring whose block is full, and read from its start, grows as it should.
pub push_back_full :
    (junk : ℕ → ℕ) (b : List ℕ) (r : RingBuffer) (buf : List ℕ) (k : ℕ)
    → r.m_buffer ≡ live b
    → IsRing b r
    → r.m_read_offs ≡ 0
    → r.m_bytes_written ≡ r.m_buffer_size
    → 0 < k
    → k ≤ length buf
    → r.m_buffer_size + k < int32_limit
    → (b' : List ℕ) × (r' : RingBuffer) × (push_back junk r buf (pos k) ≡ some r')
      × (r'.m_buffer ≡ live b')
      × IsRing b' r'
      × (contents r' ≡ contents r ++ take k buf)
push_back_full junk b r buf k p v start full h le lim =
    let out = copy_in-Pushed block (grown junk b r s) buf k refl valid le (omega arith) in
    (
      out.block,
      out.ring,
      push_back_grown junk r buf k (some (grown junk b r s)) (omega arith)
            (ensure_capacity_live junk b r s p (omega arith) (omega arith))
          ∙ out.runs,
      out.is_live,
      out.valid,
      rw (out.is_live, p) (out.holds ∙ ap (λ t. t ++ take k buf) kept),
    )
  where
    s : ℕ
    s = k - bytes_left r

    block : List ℕ
    block = realloc junk b (r.m_buffer_size + s)

    valid : IsRing block (grown junk b r s)
    valid = omega (arith, length-realloc junk b (r.m_buffer_size + s) (omega arith))

    kept : window block r.m_read_offs r.m_bytes_written ≡ window b r.m_read_offs r.m_bytes_written
    kept =
        rw start (
          window-realloc junk b (r.m_buffer_size + s) r.m_bytes_written (omega arith) (omega arith))

-- A ring that holds bytes without going round, or none, and has not room for `k` more, adds the
-- old size of the block to its write offset when it grows. That is behind the new end, for every
-- `k` that is less than the read offset and the old size together: the copy is then undefined.
pub push_back_overruns :
    (junk : ℕ → ℕ) (b : List ℕ) (r : RingBuffer) (buf : List ℕ) (k : ℕ)
    → r.m_buffer ≡ live b
    → IsRing b r
    → r.m_read_offs + r.m_bytes_written < r.m_buffer_size
    → r.m_buffer_size < r.m_bytes_written + k
    → k < r.m_read_offs + r.m_buffer_size
    → push_back junk r buf (pos k) ≡ none
unfolding ensure_capacity grow_block copy_in add_int32
push_back_overruns junk b r buf k p v open_end big small =
    push_back_grown junk r buf k (ensure_capacity junk r (k - bytes_left r)) (omega arith) refl
    ∙ rw p (ground arith)

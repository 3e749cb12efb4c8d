-- ===== src/Memory/Ring.antt =====
-- library/src/memory/ring_buffer.cpp and its header: a ring of bytes in one block. Each method
-- holds `m_mutex` throughout, so a method is one step.
pub mod Window
pub mod Laws
pub mod Growth
pub mod Takes
pub mod Pops
pub mod Refine
mod Tests
use networkio.Base.{
  ℕ, ◌+◌, ◌-◌, ◌%◌, List, Option, none, some, ltb, ◌==◌, if◌then◌else◌, ◌>>=◌, replicate, min,
}
use networkio.Base.Int.{ℤ, pos, negsuc, add_int32}
use networkio.Memory.Block.{Ptr, null, live, freed, malloc, realloc, memcpy}

-- All five are never negative, and `m_write_offs` may come to lie behind the block.
pub record RingBuffer : Type 0 where
  pub m_buffer : Ptr
  pub m_buffer_size : ℕ
  pub m_read_offs : ℕ
  pub m_write_offs : ℕ
  pub m_bytes_written : ℕ

abbrev pub empty : RingBuffer
empty = record {
  m_buffer = null;
  m_buffer_size = 0;
  m_read_offs = 0;
  m_write_offs = 0;
  m_bytes_written = 0;
}

-- `_bytes_left`
abbrev pub bytes_left : RingBuffer → ℕ
bytes_left r = r.m_buffer_size - r.m_bytes_written

-- `_ensure_capacity`, by the block
unfoldable pub grow_block : (ℕ → ℕ) → Ptr → RingBuffer → ℕ → Option RingBuffer
grow_block junk null r size =
    some (record r { m_buffer = live (malloc junk size); m_buffer_size = size })
grow_block junk (live b) r size = do
  total ← add_int32 r.m_buffer_size size
  write_offs ← add_int32 r.m_write_offs r.m_buffer_size
  some (record r {
    m_buffer = live (realloc junk b total);
    m_buffer_size = total;
    m_write_offs = write_offs;
  })
grow_block junk freed r size = none

unfoldable pub ensure_capacity : (ℕ → ℕ) → RingBuffer → ℕ → Option RingBuffer
ensure_capacity junk r size = grow_block junk r.m_buffer r size

-- `ring_buffer(int32_t)`, for a size that is not negative
unfoldable pub init : (ℕ → ℕ) → ℕ → Option RingBuffer
init junk initial_size = ensure_capacity junk empty initial_size

-- `memcpy` into the block, and out of it. No byte is moved through a null pointer.
unfoldable pub write_block : Ptr → ℕ → List ℕ → ℕ → ℕ → Option Ptr
write_block (live b) d src s n = do b' ← memcpy b d src s n; some (live b')
write_block p d src s n = if n == 0 then some p else none

unfoldable pub read_block : Ptr → List ℕ → ℕ → ℕ → ℕ → Option (List ℕ)
read_block (live b) dst d s n = memcpy dst d b s n
read_block p dst d s n = if n == 0 then some dst else none

-- `push_back` behind the call of `_ensure_capacity`. A negative `_buf_bytes_left` is less than
-- `size`, and becomes the count of a `memcpy`, as a `size_t`.
unfoldable pub copy_in : RingBuffer → List ℕ → ℕ → Option RingBuffer
copy_in r buf size =
    if ltb r.m_buffer_size r.m_write_offs
    then none
    else let left = r.m_buffer_size - r.m_write_offs in
      if ltb size left
      then (do
        p ← write_block r.m_buffer r.m_write_offs buf 0 size
        some (record r {
          m_buffer = p;
          m_write_offs = r.m_write_offs + size;
          m_bytes_written = r.m_bytes_written + size;
        }))
      else if ltb left size
      then (do
        p ← write_block r.m_buffer r.m_write_offs buf 0 left
        p' ← write_block p 0 buf left (size - left)
        some (record r {
          m_buffer = p';
          m_write_offs = size - left;
          m_bytes_written = r.m_bytes_written + size;
        }))
      else (do
        p ← write_block r.m_buffer r.m_write_offs buf 0 size
        some (record r {
          m_buffer = p;
          m_write_offs = 0;
          m_bytes_written = r.m_bytes_written + size;
        }))

-- A negative `size` is never more than the bytes left, and becomes the count of a `memcpy`.
unfoldable pub push_back : (ℕ → ℕ) → RingBuffer → List ℕ → ℤ → Option RingBuffer
push_back junk r buf (negsuc k) = none
push_back junk r buf (pos size) = do
  r' ← (if ltb (bytes_left r) size then ensure_capacity junk r (size - bytes_left r) else some r)
  copy_in r' buf size

-- `_pop_front`: the count, the destination block afterwards, the buffer.
unfoldable pub inner_pop_front : RingBuffer → List ℕ → ℕ → Option (ℕ × List ℕ × RingBuffer)
inner_pop_front r dst size =
    let rcvd = min size r.m_bytes_written in
    if rcvd == 0
    then some (0, dst, r)
    else if ltb r.m_buffer_size r.m_read_offs
    then none
    else let left = r.m_buffer_size - r.m_read_offs in
      let bytes_written = r.m_bytes_written - rcvd in
      if ltb rcvd left
      then (do
        dst' ← read_block r.m_buffer dst 0 r.m_read_offs rcvd
        some (
          rcvd,
          dst',
          record r { m_read_offs = r.m_read_offs + rcvd; m_bytes_written = bytes_written },
        ))
      else if ltb left rcvd
      then (do
        dst' ← read_block r.m_buffer dst 0 r.m_read_offs left
        dst'' ← read_block r.m_buffer dst' left 0 (rcvd - left)
        some (rcvd, dst'', record r { m_read_offs = rcvd - left; m_bytes_written = bytes_written }))
      else (do
        dst' ← read_block r.m_buffer dst 0 r.m_read_offs rcvd
        some (rcvd, dst', record r { m_read_offs = 0; m_bytes_written = bytes_written }))

-- `pop_front(uint8_t *, int32_t)`
unfoldable pub pop_front_into : RingBuffer → List ℕ → ℤ → Option (ℕ × List ℕ × RingBuffer)
pop_front_into r dst (negsuc k) = some (0, dst, r)
pop_front_into r dst (pos size) = inner_pop_front r dst size

-- `pop_front(int32_t)`
unfoldable pub pop_front : RingBuffer → ℤ → Option (ℕ × RingBuffer)
pop_front r (negsuc k) = some (0, r)
pop_front r (pos size) =
    let rcvd = min size r.m_bytes_written in
    if rcvd == 0 then some (0, r) else (do
      sum ← add_int32 r.m_read_offs rcvd
      some (
        rcvd,
        record r {
          m_read_offs = sum % r.m_buffer_size;
          m_bytes_written = r.m_bytes_written - rcvd;
        },
      ))

-- `peek<T>` with `n` for `sizeof(T)`: it restores the read offset, and not the count.
unfoldable pub peek : RingBuffer → ℕ → Option (List ℕ × RingBuffer)
peek r n = do
  (rcvd, bs, r') ← inner_pop_front r (replicate n 0) n
  some (bs, record r' { m_read_offs = r.m_read_offs })

unfoldable pub size : RingBuffer → ℕ
size r = r.m_bytes_written

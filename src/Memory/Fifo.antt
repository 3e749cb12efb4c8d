-- ===== src/Memory/Fifo.antt =====
-- library/src/memory/fifo_buffer.cpp and its header: a FIFO of bytes in one block that is
-- reallocated on every change. Each method holds `m_mutex` from its first access of a member to
-- its return, so a method is one step.
pub mod Laws
pub mod Refine
mod Tests
use networkio.Base.{
  ℕ, ◌-◌, ◌≡◌, refl, List, [], Option, none, some, ◌==◌, if◌then◌else◌, ◌>>=◌, leb, length, take,
  replicate, min,
}
use networkio.Base.Int.{ℤ, pos, negsuc, add_int32}
use networkio.Memory.Block.{Ptr, null, live, freed, malloc, realloc, slice, memcpy}

-- `m_buffer_size` is an `int32_t` that is never negative.
pub record FifoBuffer : Type 0 where
  pub m_buffer : Ptr
  pub m_buffer_size : ℕ

abbrev pub empty : FifoBuffer
empty = record { m_buffer = null; m_buffer_size = 0 }

-- The two branches of `push_back`, by the block.
unfoldable pub append_block : (ℕ → ℕ) → Ptr → ℕ → List ℕ → ℕ → Option FifoBuffer
append_block junk null old buf size = do
  b ← memcpy (malloc junk size) 0 buf 0 size
  some (record { m_buffer = live b; m_buffer_size = size })
append_block junk (live b) old buf size = do
  total ← add_int32 old size
  b' ← memcpy (realloc junk b total) old buf 0 size
  some (record { m_buffer = live b'; m_buffer_size = total })
append_block junk freed old buf size = none

-- `buf` is the block that the argument points to, from the pointer on.
unfoldable pub push_back : (ℕ → ℕ) → FifoBuffer → List ℕ → ℤ → Option FifoBuffer
push_back junk f buf (negsuc k) = some f
push_back junk f buf (pos size) =
    if size == 0 then some f else append_block junk f.m_buffer f.m_buffer_size buf size

-- `_pop_front`'s copy of the bytes that stay.
unfoldable pub shrink_block : (ℕ → ℕ) → Ptr → ℕ → ℕ → Option FifoBuffer
shrink_block junk (live b) size rcvd = do
  let new_buffer_size = size - rcvd
  b' ← memcpy (malloc junk new_buffer_size) 0 b rcvd new_buffer_size
  some (record { m_buffer = live b'; m_buffer_size = new_buffer_size })
shrink_block junk p size rcvd = none

-- `free` of a null pointer does nothing; of a freed block it is undefined.
unfoldable pub free_block : Ptr → Option Ptr
free_block null = some null
free_block (live b) = some freed
free_block freed = none

-- `_pop_front`, which its callers reach with a positive size only.
unfoldable pub inner_pop_front : (ℕ → ℕ) → FifoBuffer → ℕ → Option (ℕ × FifoBuffer)
inner_pop_front junk f size =
    let rcvd = min size f.m_buffer_size in
    if rcvd == 0
    then some (0, f)
    else if rcvd == f.m_buffer_size
    then (do p ← free_block f.m_buffer; some (rcvd, empty))
    else (do f' ← shrink_block junk f.m_buffer f.m_buffer_size rcvd; some (rcvd, f'))

-- The reading of `n` bytes from the front of the block.
unfoldable pub front_block : Ptr → List ℕ → ℕ → Option (List ℕ)
front_block (live b) dst n = memcpy dst 0 b 0 n
front_block p dst n = none

-- `pop_front(uint8_t *, int32_t)`: the count, the destination block afterwards, the buffer.
unfoldable pub pop_front_into : (ℕ → ℕ) → FifoBuffer → List ℕ → ℤ → Option (ℕ × List ℕ × FifoBuffer)
pop_front_into junk f dst (negsuc k) = some (0, dst, f)
pop_front_into junk f dst (pos size) =
    if size == 0
    then some (0, dst, f)
    else let rcvd = min size f.m_buffer_size in
      if rcvd == 0 then some (0, dst, f) else (do
        dst' ← front_block f.m_buffer dst rcvd
        (n, f') ← inner_pop_front junk f rcvd
        some (n, dst', f'))

-- `pop_front(int32_t)`
unfoldable pub pop_front : (ℕ → ℕ) → FifoBuffer → ℤ → Option (ℕ × FifoBuffer)
pop_front junk f (negsuc k) = some (0, f)
pop_front junk f (pos size) = if size == 0 then some (0, f) else inner_pop_front junk f size

-- `peek<T>` with `n` for `sizeof(T)`: the object's bytes. It reads them whatever the block holds.
unfoldable pub peek_block : Ptr → ℕ → Option (List ℕ)
peek_block null n = some (replicate n 0)
peek_block (live b) n = if leb n (length b) then some (take n b) else none
peek_block freed n = none

unfoldable pub peek : FifoBuffer → ℕ → Option (List ℕ)
peek f n = peek_block f.m_buffer n

unfoldable pub size : FifoBuffer → ℕ
size f = f.m_buffer_size

-- `clear` frees the block and keeps the pointer to it.
unfoldable pub clear_block : Ptr → ℕ → Option FifoBuffer
clear_block null n = some (record { m_buffer = null; m_buffer_size = n })
clear_block (live b) n = some (record { m_buffer = freed; m_buffer_size = 0 })
clear_block freed n = none

unfoldable pub clear : FifoBuffer → Option FifoBuffer
clear f = clear_block f.m_buffer f.m_buffer_size

-- The bytes held, oldest first.
abbrev pub block_bytes : Ptr → List ℕ
block_bytes null = []
block_bytes (live b) = b
block_bytes freed = []

abbrev pub contents : FifoBuffer → List ℕ
contents f = block_bytes f.m_buffer

-- ===== src/Memory/Shared.antt =====
-- library/src/memory/shared_buffer.cpp and its header: the class `buffer`, a block with an
-- offset to the first byte that is shown. A `shared_buffer` is a `shared_ptr` to one.
pub mod Laws
mod Tests
use networkio.Base.{
  take, leb, ℕ, zero, suc, ◌+◌, ◌-◌, ◌/◌, ◌%◌, ◌^◌, List, [], ◌∷◌, ◌++◌, Option, none, some, ltb,
  if◌then◌else◌, ◌>>=◌, ◌==◌, length, drop,
}
use networkio.Base.Int.{u32}
use networkio.Memory.Block.{malloc, realloc, memcpy}

-- `m_buffer` is never null once the object is built. `m_begin` is its index into the block, and
-- `block` numbers the blocks that `realloc` has made: a pointer into an earlier one is dangling.
pub record Buffer : Type 0 where
  pub m_buffer : List ℕ
  pub m_begin : ℕ
  pub m_offset : ℕ
  pub m_size : ℕ
  pub block : ℕ

-- `buffer(uint32_t)`
unfoldable pub make : (ℕ → ℕ) → ℕ → Buffer
make junk size = record {
  m_buffer = malloc junk size;
  m_begin = 0;
  m_offset = 0;
  m_size = size;
  block = 0;
}

-- `buffer(const buffer &)`
unfoldable pub copy : (ℕ → ℕ) → Buffer → Option Buffer
copy junk o = do
  b ← memcpy (malloc junk o.m_size) 0 o.m_buffer 0 o.m_size
  some (record {
    m_buffer = b;
    m_begin = o.m_offset;
    m_offset = o.m_offset;
    m_size = o.m_size;
    block = 0;
  })

-- `data`: the bytes of the block from `m_begin` on.
unfoldable pub bytes_at : Buffer → List ℕ
bytes_at b = drop b.m_begin b.m_buffer

-- `m_size - m_offset` on `uint32_t`
unfoldable pub size : Buffer → ℕ
size b = u32 (b.m_size + 2 ^ 32 - b.m_offset)

-- The count grows by `size`, on `uint32_t` both where `realloc` gets it and where it is kept.
unfoldable pub ensure_capacity : (ℕ → ℕ) → Buffer → ℕ → Buffer
ensure_capacity junk b size = record {
  m_buffer = realloc junk b.m_buffer (u32 (b.m_size + size));
  m_begin = b.m_offset;
  m_offset = b.m_offset;
  m_size = u32 (b.m_size + size);
  block = b.block + 1;
}

unfoldable pub set_offset : Buffer → ℕ → Buffer
set_offset b offset =
    if ltb offset b.m_size then record b { m_begin = offset; m_offset = offset } else b

-- `ss << std::hex << (unsigned int)c`: the digits of a byte, with no leading zero.
unfoldable pub hex_digit : ℕ → ℕ
hex_digit d = if ltb d 10 then d + b'0' else d - 10 + b'a'

unfoldable pub hex_byte : ℕ → List ℕ
hex_byte c = if ltb c 16 then hex_digit c ∷ [] else hex_digit (c / 16) ∷ hex_digit (c % 16) ∷ []

-- The loop of `to_string`, from index `i`, for the `n` rounds that are left.
unfoldable pub hex_from : List ℕ → List ℕ
hex_from [] = []
hex_from (c ∷ cs) = hex_byte c ++ hex_from cs

-- `to_string`; it reads `size()` bytes from `m_begin` on.
unfoldable pub to_string : Buffer → Option (List ℕ)
to_string b =
    if leb (size b) (length (bytes_at b))
    then some (hex_from (take (size b) (bytes_at b)))
    else none

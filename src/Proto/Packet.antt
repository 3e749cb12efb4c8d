-- ===== src/Proto/Packet.antt =====
-- library/src/proto/packet.cpp and library/inc/networkio/proto/packet.h: a packet is a buffer with
-- a read and a write pointer into it.
pub mod State
pub mod Reading
pub mod Room
pub mod Writing
pub mod Fields
pub mod Start
mod Tests
use networkio.Base.{
  ℕ, ◌+◌, ◌-◌, ◌^◌, List, [], Option, none, some, ltb, ◌==◌, if◌then◌else◌, ◌>>=◌, length,
  replicate,
}
use networkio.Base.Int.{u32}
use networkio.Memory.Block.{memcpy}
use networkio.Memory.Shared
use networkio.Memory.Shared.{Buffer}
use networkio.Proto.Wire.{to_bytes, of_bytes}

-- A pointer into the block that a buffer had when the pointer was set. `realloc` makes another
-- block, and pointers into the old one may no longer be used.
pub record Pointer : Type 0 where
  pub block : ℕ
  pub offs : ℕ

-- Each packet here owns its buffer: no two packets of the library share one.
pub record Packet : Type 0 where
  pub m_buffer : Option Buffer
  pub m_read_pointer : Option Pointer
  pub m_write_pointer : Option Pointer
  pub m_address : List ℕ

-- `m_buffer->data()`
abbrev pub data_pointer : Buffer → Pointer
data_pointer b = record { block = b.block; offs = b.m_begin }

-- The index in the block that a pointer stands for.
unfoldable pub index : Buffer → Option Pointer → Option ℕ
index b none = none
index b (some p) = if p.block == b.block then some p.offs else none

-- `(uint32_t)(p - m_buffer->data())`
unfoldable pub distance : Buffer → Option Pointer → Option ℕ
distance b p = do i ← index b p; some (u32 (i + 2 ^ 32 - b.m_begin))

-- `memcpy(&m_address, address, sizeof(SOCKADDR_IN))`, or zeros
abbrev pub address_bytes : Option (List ℕ) → List ℕ
address_bytes none = replicate 16 0
address_bytes (some a) = a

unfoldable pub size_of : Option Buffer → Option Pointer → Option ℕ
size_of none w = some 0
size_of (some b) none = some 0
size_of (some b) (some w) = distance b (some w)

unfoldable pub size : Packet → Option ℕ
size p = size_of p.m_buffer p.m_write_pointer

unfoldable pub begin_read_in : Option Buffer → Packet → Packet
begin_read_in none p = p
begin_read_in (some b) p = record p { m_read_pointer = some (data_pointer b) }

unfoldable pub begin_read : Packet → Packet
begin_read p = begin_read_in p.m_buffer p

unfoldable pub set_start_in : Option Buffer → Option Pointer → Packet → Option Packet
set_start_in none r p = some p
set_start_in (some b) none p = some p
set_start_in (some b) (some r) p = do
  offset ← distance b (some r)
  some (begin_read (record p { m_buffer = some (Shared.set_offset b offset) }))

unfoldable pub set_start : Packet → Option Packet
set_start p = set_start_in p.m_buffer p.m_read_pointer p

unfoldable pub bytesleft_in : Option Buffer → Option Pointer → Packet → Option ℕ
bytesleft_in none r p = some 0
bytesleft_in (some b) none p = some 0
bytesleft_in (some b) (some r) p = do
  whole ← size p
  at ← distance b (some r)
  some (u32 (whole + 2 ^ 32 - at))

unfoldable pub read_bytesleft : Packet → Option ℕ
read_bytesleft p = bytesleft_in p.m_buffer p.m_read_pointer p

-- `memcpy` from the read pointer, and its advance. Without a buffer no byte is read.
unfoldable pub read_bytes : Option Buffer → Packet → ℕ → Option (List ℕ × Packet)
read_bytes none p n = some ([], p)
read_bytes (some b) p n = do
  at ← index b p.m_read_pointer
  bs ← memcpy (replicate n 0) 0 b.m_buffer at n
  some (bs, record p { m_read_pointer = some (record { block = b.block; offs = at + n }) })

-- `read_data`: the bytes that it puts into the caller's buffer, or `none` for a return of `false`.
unfoldable pub read_data : Packet → ℕ → Option (Option (List ℕ) × Packet)
read_data p n = do
  left ← read_bytesleft p
  if ltb left n
      then some (none, p)
      else (do (bs, p') ← read_bytes p.m_buffer p n; some (some bs, p'))

-- `read<T>` with `n` for `sizeof(T)`, as an unsigned number; `{}` is 0.
abbrev pub value_of : Option (List ℕ) → ℕ
value_of none = 0
value_of (some bs) = of_bytes bs

unfoldable pub read : Packet → ℕ → Option (ℕ × Packet)
read p n = do (bs, p') ← read_data p n; some (value_of bs, p')

abbrev pub string_of : Option (List ℕ) → List ℕ
string_of none = []
string_of (some bs) = bs

-- `read_string` behind its length.
unfoldable pub string_body : Packet → ℕ → Option (List ℕ × Packet)
string_body p len =
    if len == 0 then some ([], p) else (do (bs, p') ← read_data p len; some (string_of bs, p'))

unfoldable pub read_string : Packet → Option (List ℕ × Packet)
read_string p = do (len, p') ← read p 4; string_body p' len

-- `memcpy` to the write pointer, and its advance.
unfoldable pub write_bytes : Option Buffer → Packet → List ℕ → ℕ → Option Packet
write_bytes none p bs n = none
write_bytes (some b) p bs n = do
  at ← index b p.m_write_pointer
  bytes ← memcpy b.m_buffer at bs 0 n
  some (record p {
    m_buffer = some (record b { m_buffer = bytes });
    m_write_pointer = some (record { block = b.block; offs = at + n });
  })

module _ (junk : ℕ → ℕ) where
  unfoldable pub ensure_capacity_in : Option Buffer → Packet → ℕ → Option Packet
  ensure_capacity_in none p n =
      let b = Shared.make junk n in
      some (record p {
        m_buffer = some b;
        m_read_pointer = some (data_pointer b);
        m_write_pointer = some (data_pointer b);
      })
  ensure_capacity_in (some b) p n = do
    used ← distance b p.m_write_pointer
    if ltb (u32 (Shared.size b + 2 ^ 32 - used)) n
        then (do
          old_size ← size p
          let b' = Shared.ensure_capacity junk b n
          some (record p {
            m_buffer = some b';
            m_write_pointer = some (record { block = b'.block; offs = b'.m_begin + old_size });
          }))
        else some p

  unfoldable pub ensure_capacity : Packet → ℕ → Option Packet
  ensure_capacity p n = ensure_capacity_in p.m_buffer p n

  -- `packet(SOCKADDR_IN *)`
  unfoldable pub make : Option (List ℕ) → Option Packet
  make address =
      ensure_capacity
        (record {
          m_buffer = none;
          m_read_pointer = none;
          m_write_pointer = none;
          m_address = address_bytes address;
        })
        4096

  -- `packet(const packet &)`
  unfoldable pub copy_in : Option Buffer → Packet → Option Packet
  copy_in none p = some (record p { m_read_pointer = none; m_write_pointer = none })
  copy_in (some b) p = do
    b' ← Shared.copy junk b
    some (record p {
      m_buffer = some b';
      m_read_pointer = some (data_pointer b');
      m_write_pointer = some (record { block = b'.block; offs = b'.m_begin + Shared.size b' });
    })

  unfoldable pub copy : Packet → Option Packet
  copy p = copy_in p.m_buffer p

  unfoldable pub write_data : Packet → List ℕ → ℕ → Option Packet
  write_data p bs n = do p' ← ensure_capacity p n; write_bytes p'.m_buffer p' bs n

  -- `write<T>` with `n` for `sizeof(T)`
  unfoldable pub write : Packet → ℕ → ℕ → Option Packet
  write p n v = write_data p (to_bytes n v) n

  unfoldable pub write_string : Packet → List ℕ → Option Packet
  write_string p str = do p' ← write p 4 (u32 (length str)); write_data p' str (u32 (length str))

-- `packet(shared_buffer, SOCKADDR_IN *)`
unfoldable pub of_buffer : Buffer → Option (List ℕ) → Packet
of_buffer b address = record {
  m_buffer = some b;
  m_read_pointer = some (data_pointer b);
  m_write_pointer = some (record { block = b.block; offs = b.m_begin + Shared.size b });
  m_address = address_bytes address;
}

abbrev pub to_string_in : Option Buffer → Option (List ℕ)
to_string_in none = some []
to_string_in (some b) = Shared.to_string b

unfoldable pub to_string : Packet → Option (List ℕ)
to_string p = to_string_in p.m_buffer

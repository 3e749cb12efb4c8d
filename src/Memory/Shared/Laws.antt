-- ===== src/Memory/Shared/Laws.antt =====
-- The invariant of `buffer`, which every constructor and method keeps.
use networkio.Base.{
  ℕ, ◌+◌, ◌-◌, ◌≤◌, ◌<◌, ◌^◌, ◌≡◌, ◌∙◌, refl, ap, ◌++◌, some, arith, length, drop, length-drop,
  take_all, drop-append_le, lt→ltb, le→leb,
}
use networkio.Base.Int.{u32}
use networkio.Memory.Block.{
  malloc, realloc, length-malloc, length-realloc, memcpy_whole, realloc_grow,
}
use networkio.Memory.Shared.{
  Buffer, make, copy, bytes_at, size, ensure_capacity, set_offset, hex_from, to_string,
}

pub record IsBuffer (b : Buffer) : Type 0 where
  pub storage : length b.m_buffer ≡ b.m_size
  pub begins : b.m_begin ≡ b.m_offset
  pub inside : b.m_offset ≤ b.m_size
  pub small : b.m_size < 2 ^ 32

pub make-IsBuffer : (junk : ℕ → ℕ) (n : ℕ) → n < 2 ^ 32 → IsBuffer (make junk n)
unfolding make
make-IsBuffer junk n h = ground (arith, length-malloc junk n)

-- The count of `size` is the number of bytes from `data` to the end of the block.
pub size-length : (b : Buffer) → IsBuffer b → size b ≡ length (bytes_at b)
unfolding size bytes_at
size-length b v = omega (arith, length-drop b.m_begin b.m_buffer)

pub size_eq : (b : Buffer) → IsBuffer b → size b ≡ b.m_size - b.m_offset
unfolding size
size_eq b v = omega arith

-- A copy has the same bytes in a block of its own, with the same offset.
pub copy_lem :
    (junk : ℕ → ℕ) (o : Buffer)
    → IsBuffer o
    → copy junk o ≡ some (record o { m_begin = o.m_offset; block = 0 })
unfolding copy
copy_lem junk o v =
    rw
      (memcpy_whole (malloc junk o.m_size) o.m_buffer 0 o.m_size (length-malloc junk o.m_size)
        (omega arith))
      (ap
        (λ t. some (record {
          m_buffer = t;
          m_begin = o.m_offset;
          m_offset = o.m_offset;
          m_size = o.m_size;
          block = 0;
        }))
        (take_all o.m_size o.m_buffer (omega arith)))

-- `ensure_capacity` keeps the bytes, and adds `n` behind them.
pub ensure_capacity_lem :
    (junk : ℕ → ℕ) (b : Buffer) (n : ℕ)
    → IsBuffer b
    → b.m_size + n < 2 ^ 32
    → let b' = ensure_capacity junk b n in
      IsBuffer b'
      × (b'.m_buffer ≡ b.m_buffer ++ malloc junk n)
      × (bytes_at b' ≡ bytes_at b ++ malloc junk n)
      × (size b' ≡ size b + n)
unfolding ensure_capacity bytes_at size
ensure_capacity_lem junk b n v h = (
  omega (arith, length-realloc junk b.m_buffer (u32 (b.m_size + n)) (omega arith)),
  grown,
  rw (grown, v.begins) (drop-append_le b.m_offset b.m_buffer (malloc junk n) (omega arith)),
  omega arith,
)
  where
    grown : realloc junk b.m_buffer (u32 (b.m_size + n)) ≡ b.m_buffer ++ malloc junk n
    grown =
        realloc_grow junk b.m_buffer (u32 (b.m_size + n)) (omega arith)
        ∙ ap (λ m. b.m_buffer ++ malloc junk m) (omega arith)

-- `set_offset` to an index in the block shows the bytes from there on, and changes nothing else.
pub set_offset_lem :
    (b : Buffer) (o : ℕ)
    → IsBuffer b
    → o < b.m_size
    → IsBuffer (set_offset b o) × (bytes_at (set_offset b o) ≡ drop o b.m_buffer)
unfolding set_offset bytes_at
set_offset_lem b o v h = rw (lt→ltb o b.m_size h) (omega arith, refl)

-- An index behind the block is ignored.
pub set_offset_past : (b : Buffer) (o : ℕ) → b.m_size ≤ o → set_offset b o ≡ b
unfolding set_offset
set_offset_past b o h = ground arith

-- `to_string` reads inside the block, and shows the bytes from `data` on.
pub to_string_lem : (b : Buffer) → IsBuffer b → to_string b ≡ some (hex_from (bytes_at b))
unfolding to_string
to_string_lem b v = rw (
  size-length b v,
  le→leb (length (bytes_at b)) (length (bytes_at b)) (omega arith),
  take_all (length (bytes_at b)) (bytes_at b) (omega arith),
)

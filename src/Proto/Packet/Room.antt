-- ===== src/Proto/Packet/Room.antt =====
-- `ensure_capacity` of `packet`, and the copy of `write_data` into room that is there.
use networkio.Base.{
  length-take, ℕ, ◌+◌, ◌-◌, ◌≤◌, ◌<◌, ◌^◌, ◌≡◌, refl, ◌∙◌, ap, sym, List, ◌++◌, some, arith, length,
  length-append, drop-append_le, take-append_le, length-drop, take, drop, lt→ltb, le→ltb_false,
}
use networkio.Base.Int.{u32}
use networkio.Memory.Block.{slice, overwrite, memcpy_eq, length-overwrite, malloc}
use networkio.Memory.Slices.{slice-overwrite}
use networkio.Memory.Shared
use networkio.Memory.Shared.{Buffer}
use networkio.Memory.Shared.Laws.{IsBuffer, make-IsBuffer}
use networkio.Proto.Packet.{write_bytes, Packet, distance, ensure_capacity, ensure_capacity_in}
use networkio.Proto.Packet.State.{Writes, pointed, distance_eq, size_eq}

pub written :
    {p : Packet} {buf : Buffer} {o : ℕ} {bs : List ℕ}
    → Writes p buf o bs
    → distance buf p.m_write_pointer ≡ some (length bs)
written {p} {buf} {o} {bs} w =
    distance_eq buf p.m_write_pointer (o + length bs) (length bs) w.write_at (omega arith)
      (omega arith)

-- Bytes copied to the write pointer, into room that is there.
pub write_bytes_lem :
    {p : Packet} {buf : Buffer} {o : ℕ} {bs : List ℕ} (xs : List ℕ) (n : ℕ)
    → Writes p buf o bs
    → n ≤ length xs
    → o + length bs + n ≤ buf.m_size
    → (p' : Packet) × (buf' : Buffer) × (write_bytes p.m_buffer p xs n ≡ some p')
      × Writes p' buf' o (bs ++ take n xs)
      × (buf'.block ≡ buf.block)
      × (p'.m_read_pointer ≡ p.m_read_pointer)
      × (buf'.m_size ≡ buf.m_size)
unfolding write_bytes
write_bytes_lem {p} {buf} {o} {bs} xs n w h room = (
  record p {
    m_buffer = some buf';
    m_write_pointer = some (record { block = buf.block; offs = o + length bs + n });
  },
  buf',
  ap (λ b. write_bytes b p xs n) w.has
      ∙ rw (
        pointed buf p.m_write_pointer (o + length bs) w.write_at,
        memcpy_eq buf.m_buffer (o + length bs) xs 0 n (omega arith) (omega arith),
      ),
  record {
    has = refl;
    valid = record {
      storage =
          length-overwrite buf.m_buffer (o + length bs) (take n xs)
            (omega (arith, taken, w.valid.storage))
          ∙ w.valid.storage;
      begins = w.valid.begins;
      inside = w.valid.inside;
      small = w.valid.small;
    };
    begins = w.begins;
    write_at =
        ap (λ m. some (record { block = buf.block; offs = m }))
          (omega (arith, length-append bs (take n xs), taken));
    upper = omega (arith, length-append bs (take n xs), taken);
    payload =
        ap (slice buf'.m_buffer o) (length-append bs (take n xs))
        ∙ slice-overwrite buf.m_buffer o (length bs) (take n xs)
            (omega (arith, taken, w.valid.storage))
        ∙ ap (λ t. t ++ take n xs) w.payload;
  },
  refl,
  refl,
  refl,
)
  where
    taken : length (take n xs) ≡ n
    taken = omega (arith, length-take n xs)

    buf' : Buffer
    buf' = record buf { m_buffer = overwrite buf.m_buffer (o + length bs) (take n xs) }

-- `ensure_capacity` does nothing if the room is there, and otherwise moves the bytes to a block
-- that has it.
pub ensure_room :
    (junk : ℕ → ℕ) {p : Packet} {buf : Buffer} {o : ℕ} {bs : List ℕ} (n : ℕ)
    → Writes p buf o bs
    → o + length bs + n ≤ buf.m_size
    → ensure_capacity junk p n ≡ some p
unfolding ensure_capacity ensure_capacity_in
ensure_room junk {p} {buf} {o} {bs} n w room =
    ap (λ b. ensure_capacity_in junk b p n) w.has
    ∙ rw (
      written w,
      Shared.Laws.size_eq buf w.valid,
      le→ltb_false (u32 (buf.m_size - buf.m_offset + 2 ^ 32 - length bs)) n (omega arith),
    )

pub ensure_grows :
    (junk : ℕ → ℕ) {p : Packet} {buf : Buffer} {o : ℕ} {bs : List ℕ} (n : ℕ)
    → Writes p buf o bs
    → buf.m_size < o + length bs + n
    → buf.m_size + n < 2 ^ 32
    → (p' : Packet) × (buf' : Buffer) × (ensure_capacity junk p n ≡ some p')
      × Writes p' buf' o bs
      × (o + length bs + n ≤ buf'.m_size)
      × (buf'.block ≡ buf.block + 1)
      × (p'.m_read_pointer ≡ p.m_read_pointer)
      × (buf'.m_size ≡ buf.m_size + n)
unfolding ensure_capacity ensure_capacity_in Shared.ensure_capacity
ensure_grows junk {p} {buf} {o} {bs} n w full lim = (
  record p {
    m_buffer = some buf';
    m_write_pointer = some (record { block = buf'.block; offs = buf'.m_begin + length bs });
  },
  buf',
  ap (λ b. ensure_capacity_in junk b p n) w.has
      ∙ rw (
        written w,
        Shared.Laws.size_eq buf w.valid,
        lt→ltb (u32 (buf.m_size - buf.m_offset + 2 ^ 32 - length bs)) n (omega arith),
        size_eq w,
      ),
  record {
    has = refl;
    valid = laws.0;
    begins = begins;
    write_at = ap (λ m. some (record { block = buf.block + 1; offs = m + length bs })) begins;
    upper = omega arith;
    payload = kept;
  },
  omega arith,
  refl,
  refl,
  omega arith,
)
  where
    buf' : Buffer
    buf' = Shared.ensure_capacity junk buf n

    laws :
        IsBuffer buf'
        × (buf'.m_buffer ≡ buf.m_buffer ++ malloc junk n)
        × (Shared.bytes_at buf' ≡ Shared.bytes_at buf ++ malloc junk n)
        × (Shared.size buf' ≡ Shared.size buf + n)
    laws = Shared.Laws.ensure_capacity_lem junk buf n w.valid lim

    begins : buf'.m_begin ≡ o
    begins = sym w.valid.begins ∙ w.begins

    kept : slice buf'.m_buffer o (length bs) ≡ bs
    kept =
        ap (λ t. slice t o (length bs)) laws.1
        ∙ rw (drop-append_le o buf.m_buffer (malloc junk n) (omega arith)) (
            take-append_le (length bs) (drop o buf.m_buffer) (malloc junk n)
              (omega (arith, length-drop o buf.m_buffer))
            ∙ w.payload)

-- ===== src/Proto/Packet/Writing.antt =====
-- `write_data` of `packet`: what has been written and read behind it.
use networkio.Base.{
  inr, inl, leb_cases, length-take, ℕ, ◌+◌, ◌≤◌, ◌<◌, ◌^◌, ◌≡◌, ◌∙◌, ap, subst, sym, List, ◌++◌,
  some, none, arith, length, append_assoc, length-append, take,
}
use networkio.Memory.Shared.{Buffer}
use networkio.Proto.Packet.{write_data, Packet, size, read_bytesleft}
use networkio.Proto.Packet.State.{Writes, Reads, size_eq, stranded}
use networkio.Proto.Packet.Room.{write_bytes_lem, ensure_room, ensure_grows}

-- `write_data` puts the bytes behind those that are there, also when it has to grow the buffer.
-- The room behind them does not get larger.
pub write_data-Writes :
    (junk : ℕ → ℕ) {p : Packet} {buf : Buffer} {o : ℕ} {bs : List ℕ} (xs : List ℕ) (n : ℕ)
    → Writes p buf o bs
    → n ≤ length xs
    → buf.m_size + n < 2 ^ 32
    → (p' : Packet) × (buf' : Buffer) × (write_data junk p xs n ≡ some p')
      × Writes p' buf' o (bs ++ take n xs)
      × (buf'.m_size + length bs ≤ buf.m_size + length (bs ++ take n xs))
unfolding write_data
write_data-Writes junk {p} {buf} {o} {bs} xs n w h lim =
    elim (leb_cases (o + length bs + n) buf.m_size) [
      | inl (_, room) ↦
          let (p', buf', e, w', same, _, size) = write_bytes_lem xs n w h room in
          (
            p',
            buf',
            rw (ensure_room junk n w room, e),
            w',
            omega (arith, length-append bs (take n xs), length-take n xs),
          )
      | inr (_, full) ↦
          let (p₁, buf₁, e₁, w₁, room, _, _, m) = ensure_grows junk n w full lim in
          let (p', buf', e, w', same, _, size) = write_bytes_lem xs n w₁ h room in
          (p', buf', rw (e₁, e), w', omega (arith, length-append bs (take n xs), length-take n xs))
    ]

-- Where the room is there, what has been read stays read, and the bytes are there to be read.
pub write_data-Reads :
    (junk : ℕ → ℕ) {p : Packet} {buf : Buffer} {o : ℕ} {xs ys : List ℕ} (zs : List ℕ) (n : ℕ)
    → Reads p buf o xs ys
    → n ≤ length zs
    → o + length (xs ++ ys) + n ≤ buf.m_size
    → (p' : Packet) × (buf' : Buffer) × (write_data junk p zs n ≡ some p')
      × Reads p' buf' o xs (ys ++ take n zs)
unfolding write_data
write_data-Reads junk {p} {buf} {o} {xs} {ys} zs n r h room =
    let (p', buf', e, w', same, kept, size) = write_bytes_lem zs n r.writes h room in
    (
      p',
      buf',
      rw (ensure_room junk n r.writes room, e),
      record {
        writes = subst (Writes p' buf' o) (append_assoc xs ys (take n zs)) w';
        read_at =
            kept
            ∙ r.read_at
            ∙ ap (λ k. some (record { block = k; offs = o + length xs })) (sym same);
      },
    )

-- `write_data` of more than the packet's block has room for: the bytes are written, but the read
-- pointer is left in the block that `realloc` has given back, and the next `read_bytesleft`, and so
-- every read, uses it.
pub write_data_strands_reader :
    (junk : ℕ → ℕ) {p : Packet} {buf : Buffer} {o : ℕ} {xs ys : List ℕ} (zs : List ℕ) (n : ℕ)
    → Reads p buf o xs ys
    → n ≤ length zs
    → buf.m_size < o + length (xs ++ ys) + n
    → buf.m_size + n < 2 ^ 32
    → (p' : Packet) × (write_data junk p zs n ≡ some p')
      × (size p' ≡ some (length (xs ++ ys) + n))
      × (read_bytesleft p' ≡ none)
unfolding write_data
write_data_strands_reader junk {p} {buf} {o} {xs} {ys} zs n r h full lim =
    let (p₁, buf₁, e₁, w₁, room, b₁, r₁, m) = ensure_grows junk n r.writes full lim in
    let (p', buf', e, w', same, kept, size) = write_bytes_lem zs n w₁ h room in
    (
      p',
      rw (e₁, e),
      size_eq w' ∙ ap some (omega (arith, length-append (xs ++ ys) (take n zs), length-take n zs)),
      stranded (record { block = buf.block; offs = o + length xs }) w' (kept ∙ r₁ ∙ r.read_at)
          (omega arith),
    )

-- ===== src/Proto/Packet/Reading.antt =====
-- `read_data` of `packet`.
use networkio.Base.{
  ℕ, ◌+◌, ◌<◌, ◌≡◌, refl, ◌∙◌, ap, subst, sym, List, ◌++◌, some, none, arith, length, append_assoc,
  length-append, replicate, length-replicate, lt→ltb, le→ltb_false,
}
use networkio.Memory.Block.{memcpy, memcpy_whole}
use networkio.Memory.Slices.{slice_part}
use networkio.Memory.Shared.{Buffer}
use networkio.Proto.Packet.{Packet, read_bytes, read_data}
use networkio.Proto.Packet.State.{Writes, Reads, pointed, bytesleft_eq, Writes-same}

read_bytes_lem :
    {p : Packet} {buf : Buffer} {o : ℕ} {xs ys zs : List ℕ}
    → Reads p buf o xs (ys ++ zs)
    → (p' : Packet) × (read_bytes p.m_buffer p (length ys) ≡ some (ys, p'))
      × Reads p' buf o (xs ++ ys) zs
unfolding read_bytes
read_bytes_lem {p} {buf} {o} {xs} {ys} {zs} r = (
  after,
  ap (λ b. read_bytes b p (length ys)) w.has
      ∙ rw (pointed buf p.m_read_pointer (o + length xs) r.read_at, copied),
  record {
    writes = subst (Writes after buf o) (sym (append_assoc xs ys zs)) (Writes-same refl refl w);
    read_at =
        ap (λ n. some (record { block = buf.block; offs = n }))
          (omega (arith, length-append xs ys));
  },
)
  where
    w : Writes p buf o (xs ++ (ys ++ zs))
    w = r.writes

    after : Packet
    after = record p {
      m_read_pointer = some (record { block = buf.block; offs = o + length xs + length ys });
    }

    copied : memcpy (replicate (length ys) 0) 0 buf.m_buffer (o + length xs) (length ys) ≡ some ys
    copied =
        memcpy_whole (replicate (length ys) 0) buf.m_buffer (o + length xs) (length ys)
          (length-replicate {A = ℕ} (length ys) 0)
          (omega
            (arith, w.upper, w.valid.storage, length-append xs (ys ++ zs), length-append ys zs))
        ∙ ap some (slice_part buf.m_buffer o xs ys zs w.payload)

-- `read_data` of bytes that are there puts them out, and moves the read pointer past them.
pub read_data-Reads :
    {p : Packet} {buf : Buffer} {o : ℕ} {xs ys zs : List ℕ}
    → Reads p buf o xs (ys ++ zs)
    → (p' : Packet) × (read_data p (length ys) ≡ some (some ys, p')) × Reads p' buf o (xs ++ ys) zs
unfolding read_data
read_data-Reads {p} {buf} {o} {xs} {ys} {zs} r =
    let (p', e, r') = read_bytes_lem r in
    (
      p',
      rw (
        bytesleft_eq r,
        le→ltb_false (length (ys ++ zs)) (length ys) (omega (arith, length-append ys zs)),
        e,
      ),
      r',
    )

-- `read_data` of more bytes than are left returns false, and reads none.
pub read_data_short :
    {p : Packet} {buf : Buffer} {o : ℕ} {xs ys : List ℕ} (n : ℕ)
    → Reads p buf o xs ys
    → length ys < n
    → read_data p n ≡ some (none, p)
unfolding read_data
read_data_short {p} {buf} {o} {xs} {ys} n r h = rw (bytesleft_eq r, lt→ltb (length ys) n h)

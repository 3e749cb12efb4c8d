-- ===== src/Proto/Packet/Start.antt =====
-- `set_start`, and the constructors of `packet` that take a buffer or another packet.
use networkio.Base.{
  ◌>>=◌, ℕ, ◌+◌, ◌-◌, ◌≤◌, ◌<◌, ◌≡◌, refl, ◌∙◌, ap, ap₂, subst, sym, List, [], ◌++◌, Option, some,
  arith, length, drop, take, length-append, length-drop, append-nil, take_all, then_eq, lt→ltb,
}
use networkio.Memory.Block.{slice}
use networkio.Memory.Slices.{slice_part}
use networkio.Memory.Shared
use networkio.Memory.Shared.{Buffer}
use networkio.Memory.Shared.Laws
use networkio.Memory.Shared.Laws.{IsBuffer}
use networkio.Proto.Packet.{
  Packet, size_of, data_pointer, distance, size, set_start, set_start_in, begin_read, begin_read_in,
  read_bytesleft, bytesleft_in, copy, copy_in, of_buffer,
}
use networkio.Proto.Packet.State.{Writes, Reads, distance_eq, size_eq, bytesleft_eq}

-- The buffer behind `set_offset`, and the packet behind `set_start`.
abbrev started : Buffer → ℕ → Buffer
started b n = record b { m_begin = n; m_offset = n }

abbrev restarted : Packet → Buffer → ℕ → Packet
restarted p b n = record p {
  m_buffer = some (started b n);
  m_read_pointer = some (data_pointer (started b n));
}

set_start_runs :
    {p : Packet} {buf : Buffer} {o : ℕ} {xs ys : List ℕ}
    → Reads p buf o xs ys
    → length xs < buf.m_size
    → set_start p ≡ some (restarted p buf (length xs))
unfolding set_start set_start_in begin_read begin_read_in Shared.set_offset
set_start_runs {p} {buf} {o} {xs} {ys} r h =
    ap₂ (λ b q. set_start_in b q p) r.writes.has r.read_at
    ∙ then_eq _
        (distance_eq buf (some (record { block = buf.block; offs = o + length xs })) (o + length xs)
          (length xs) refl (omega (arith, r.writes.begins)) (omega (arith, r.writes.valid.small)))
        (rw (lt→ltb (length xs) buf.m_size h))

started-IsBuffer : {b : Buffer} (n : ℕ) → IsBuffer b → n ≤ b.m_size → IsBuffer (started b n)
started-IsBuffer n v h = omega arith

-- In a packet that starts at its block's first byte, `set_start` leaves what has not been read:
-- later reads begin there, and so does the packet.
pub set_start-Reads :
    {p : Packet} {buf : Buffer} {xs ys : List ℕ}
    → Reads p buf 0 xs ys
    → length xs < buf.m_size
    → (p' : Packet) × (buf' : Buffer) × (set_start p ≡ some p') × Reads p' buf' (length xs) [] ys
set_start-Reads {p} {buf} {xs} {ys} r h = (
  restarted p buf (length xs),
  started buf (length xs),
  set_start_runs r h,
  record {
    writes = record {
      has = refl;
      valid = started-IsBuffer (length xs) r.writes.valid (omega arith);
      begins = refl;
      write_at =
          r.writes.write_at
          ∙ ap (λ n. some (record { block = buf.block; offs = n }))
              (omega (arith, length-append xs ys));
      upper = omega (arith, length-append xs ys, r.writes.upper);
      payload = shown;
    };
    read_at = ap (λ n. some (record { block = buf.block; offs = n })) (omega arith);
  },
)
  where
    shown : slice buf.m_buffer (length xs) (length ys) ≡ ys
    shown =
        ap (λ n. slice buf.m_buffer n (length ys)) (omega arith)
        ∙ slice_part buf.m_buffer 0 xs ys [] (
            subst (λ t. slice buf.m_buffer 0 (length (xs ++ t)) ≡ xs ++ t) (sym (append-nil ys))
              r.writes.payload)

-- The offset that `set_start` passes on counts from where the packet starts, and `set_offset` takes
-- it from where the block does. So a second `set_start` goes back: in a packet that starts behind
-- `o` bytes of its block, `read_bytesleft` is afterwards `o` more than it was before.
pub set_start_again :
    {p : Packet} {buf : Buffer} {o : ℕ} {xs ys : List ℕ}
    → Reads p buf o xs ys
    → length xs < buf.m_size
    → (read_bytesleft p ≡ some (length ys))
      × ((set_start p >>= read_bytesleft) ≡ some (o + length ys))
unfolding read_bytesleft bytesleft_in size size_of
set_start_again {p} {buf} {o} {xs} {ys} r h = (
  bytesleft_eq r,
  then_eq _ (set_start_runs r h)
      (then_eq _ whole (then_eq _ at (ap some (omega (arith, length-append xs ys))))),
)
  where
    b : Buffer
    b = started buf (length xs)

    whole : size (restarted p buf (length xs)) ≡ some (o + length ys)
    whole =
        ap (size_of (some b)) r.writes.write_at
        ∙ distance_eq b (some (record { block = buf.block; offs = o + length (xs ++ ys) }))
            (o + length (xs ++ ys)) (o + length ys) refl (omega (arith, length-append xs ys))
            (omega (arith, length-append xs ys, r.writes.upper, r.writes.valid.small))

    at : distance b (some (data_pointer b)) ≡ some 0
    at = distance_eq b (some (data_pointer b)) (length xs) 0 refl (omega arith) (omega arith)

-- `packet(shared_buffer)` shows all of the buffer, unread.
pub of_buffer-Reads :
    (b : Buffer) (address : Option (List ℕ))
    → IsBuffer b
    → Reads (of_buffer b address) b b.m_begin [] (Shared.bytes_at b)
unfolding of_buffer Shared.bytes_at
of_buffer-Reads b address v = record {
  writes = record {
    has = refl;
    valid = v;
    begins = refl;
    write_at =
        ap (λ n. some (record { block = b.block; offs = b.m_begin + n }))
          (Shared.Laws.size-length b v);
    upper = omega (arith, length-drop b.m_begin b.m_buffer);
    payload =
        take_all (length (drop b.m_begin b.m_buffer)) (drop b.m_begin b.m_buffer) (omega arith);
  };
  read_at = ap (λ n. some (record { block = b.block; offs = n })) (omega arith);
}

-- A copy of a packet is unread, and takes the room behind the bytes that were written for bytes
-- of the packet: it holds all that the block does from the packet's start on.
pub copy_pads :
    (junk : ℕ → ℕ) {p : Packet} {buf : Buffer} {o : ℕ} {bs : List ℕ}
    → Writes p buf o bs
    → (q : Packet) × (b : Buffer) × (copy junk p ≡ some q)
      × Reads q b o [] (Shared.bytes_at buf)
      × (take (length bs) (Shared.bytes_at buf) ≡ bs)
      × (size p ≡ some (length bs))
      × (size q ≡ some (length bs + (buf.m_size - (o + length bs))))
unfolding copy copy_in Shared.bytes_at Shared.size
copy_pads junk {p} {buf} {o} {bs} w = (
  q,
  b,
  ap (λ m. copy_in junk m p) w.has ∙ then_eq _ (Shared.Laws.copy_lem junk buf w.valid) refl,
  all,
  rw w.begins w.payload,
  size_eq w,
  size_eq all.writes ∙ ap some (omega (arith, length-drop buf.m_begin buf.m_buffer)),
)
  where
    b : Buffer
    b = record buf { m_begin = buf.m_offset; block = 0 }

    q : Packet
    q = record p {
      m_buffer = some b;
      m_read_pointer = some (data_pointer b);
      m_write_pointer = some (record { block = b.block; offs = b.m_begin + Shared.size b });
    }

    begins : buf.m_offset ≡ o
    begins = sym w.valid.begins ∙ w.begins

    valid : IsBuffer b
    valid = omega arith

    shown : length (drop buf.m_begin buf.m_buffer) ≡ buf.m_size - o
    shown = omega (arith, length-drop buf.m_begin buf.m_buffer)

    all : Reads q b o [] (drop buf.m_begin buf.m_buffer)
    all = record {
      writes = record {
        has = refl;
        valid = valid;
        begins = begins;
        write_at =
            ap₂ (λ m n. some (record { block = 0; offs = m + n })) begins
              (Shared.Laws.size_eq b valid ∙ omega (arith, shown));
        upper = omega (arith, shown);
        payload =
            ap₂ (λ m n. take m (drop n buf.m_buffer)) refl (sym w.begins)
            ∙ take_all (length (drop buf.m_begin buf.m_buffer)) (drop buf.m_begin buf.m_buffer)
                (omega arith);
      };
      read_at = ap (λ n. some (record { block = 0; offs = n })) (omega arith);
    }

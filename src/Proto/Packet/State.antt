-- ===== src/Proto/Packet/State.antt =====
-- The states that a packet goes through: what has been written, and how far it has been read.
use networkio.Base.{
  ℕ, ◌+◌, ◌≤◌, ◌<◌, ◌^◌, ◌≡◌, ◌≢◌, refl, ◌∙◌, ap₂, subst, ap, sym, List, [], ◌++◌, Option, some,
  none, arith, length, length-append, ==_iff,
}
use networkio.Memory.Block.{slice}
use networkio.Memory.Shared
use networkio.Memory.Shared.{Buffer}
use networkio.Memory.Shared.Laws.{IsBuffer, make-IsBuffer}
use networkio.Proto.Packet.{
  Packet, Pointer, data_pointer, address_bytes, index, distance, size, size_of, make,
  ensure_capacity, ensure_capacity_in, begin_read, begin_read_in, read_bytesleft, bytesleft_in,
}

-- The packet shows its buffer from index `o` on, and `bs` has been written there.
pub record Writes (p : Packet) (buf : Buffer) (o : ℕ) (bs : List ℕ) : Type 0 where
  pub has : p.m_buffer ≡ some buf
  pub valid : IsBuffer buf
  pub begins : buf.m_begin ≡ o
  pub write_at : p.m_write_pointer ≡ some (record { block = buf.block; offs = o + length bs })
  pub upper : o + length bs ≤ buf.m_size
  pub payload : slice buf.m_buffer o (length bs) ≡ bs

-- Moreover `xs` has been read, and `ys` has not.
pub record Reads (p : Packet) (buf : Buffer) (o : ℕ) (xs ys : List ℕ) : Type 0 where
  pub writes : Writes p buf o (xs ++ ys)
  pub read_at : p.m_read_pointer ≡ some (record { block = buf.block; offs = o + length xs })

index_eq : (b : Buffer) (o : ℕ) → index b (some (record { block = b.block; offs = o })) ≡ some o
unfolding index
index_eq b o = rw ((==_iff b.block b.block).1 refl)

pub pointed :
    (b : Buffer) (q : Option Pointer) (o : ℕ)
    → q ≡ some (record { block = b.block; offs = o })
    → index b q ≡ some o
pointed b q o e = rw (e, index_eq b o)

pub distance_eq :
    (b : Buffer) (q : Option Pointer) (o n : ℕ)
    → q ≡ some (record { block = b.block; offs = o })
    → b.m_begin + n ≡ o
    → n < 2 ^ 32
    → distance b q ≡ some n
unfolding distance
distance_eq b q o n e h lim = rw (pointed b q o e) (ap some (omega arith))

-- `size` is the number of bytes written.
pub size_eq :
    {p : Packet} {buf : Buffer} {o : ℕ} {bs : List ℕ}
    → Writes p buf o bs
    → size p ≡ some (length bs)
unfolding size size_of
size_eq {p} {buf} {o} {bs} w =
    rw (w.has, w.write_at, size_of)
      (distance_eq buf (some (record { block = buf.block; offs = o + length bs })) (o + length bs)
        (length bs) refl (omega arith) (omega arith))

-- `read_bytesleft` is the number of bytes that have not been read.
pub bytesleft_eq :
    {p : Packet} {buf : Buffer} {o : ℕ} {xs ys : List ℕ}
    → Reads p buf o xs ys
    → read_bytesleft p ≡ some (length ys)
unfolding read_bytesleft bytesleft_in
bytesleft_eq {p} {buf} {o} {xs} {ys} r =
    ap₂ (λ b q. bytesleft_in b q p) w.has r.read_at
    ∙ rw
        (
          size_eq w,
          distance_eq buf (some at) (o + length xs) (length xs) refl (omega arith)
              (omega (arith, length-append xs ys)),
        )
        (ap some (omega (arith, length-append xs ys, w.upper, w.valid.small)))
  where
    w : Writes p buf o (xs ++ ys)
    w = r.writes

    at : Pointer
    at = record { block = buf.block; offs = o + length xs }

-- Other fields may change.
pub Writes-same :
    {p q : Packet} {buf : Buffer} {o : ℕ} {bs : List ℕ}
    → q.m_buffer ≡ p.m_buffer
    → q.m_write_pointer ≡ p.m_write_pointer
    → Writes p buf o bs
    → Writes q buf o bs
Writes-same e f w = record {
  has = e ∙ w.has;
  valid = w.valid;
  begins = w.begins;
  write_at = f ∙ w.write_at;
  upper = w.upper;
  payload = w.payload;
}

-- `begin_read` goes back to the start.
pub begin_read-Reads :
    {p : Packet} {buf : Buffer} {o : ℕ} {bs : List ℕ}
    → Writes p buf o bs
    → Reads (begin_read p) buf o [] bs
unfolding begin_read begin_read_in
begin_read-Reads {p} {buf} {o} {bs} w =
    subst (λ q. Reads q buf o [] bs) (sym (ap (λ b. begin_read_in b p) w.has)) back
  where
    back : Reads (record p { m_read_pointer = some (data_pointer buf) }) buf o [] bs
    back = record {
      writes = Writes-same refl refl w;
      read_at = ap (λ n. some (record { block = buf.block; offs = n })) (omega arith);
    }

-- A packet begins empty, with 4096 bytes of room.
pub make-Reads :
    (junk : ℕ → ℕ) (address : Option (List ℕ))
    → (p : Packet) × (b : Buffer) × (make junk address ≡ some p)
      × Reads p b 0 [] []
      × (b.m_size ≡ 4096)
unfolding make ensure_capacity ensure_capacity_in Shared.make
make-Reads junk address = (
  record {
    m_buffer = some b;
    m_read_pointer = some (data_pointer b);
    m_write_pointer = some (data_pointer b);
    m_address = address_bytes address;
  },
  b,
  refl,
  record {
    writes = record {
      has = refl;
      valid = make-IsBuffer junk 4096 (omega arith);
      begins = begins;
      write_at = at;
      upper = omega arith;
      payload = refl;
    };
    read_at = at;
  },
  refl,
)
  where
    b : Buffer
    b = Shared.make junk 4096

    begins : b.m_begin ≡ 0
    begins = refl

    at : (some (data_pointer b)) ≡ some (record { block = b.block; offs = 0 + 0 })
    at = refl

dangling : (b : Buffer) (q : Pointer) → q.block ≢ b.block → distance b (some q) ≡ none
unfolding distance index
dangling b q h = ground arith

-- With a read pointer into an earlier block there is no `read_bytesleft`.
pub stranded :
    {p : Packet} {buf : Buffer} {o : ℕ} {bs : List ℕ} (q : Pointer)
    → Writes p buf o bs
    → p.m_read_pointer ≡ some q
    → q.block ≢ buf.block
    → read_bytesleft p ≡ none
unfolding read_bytesleft bytesleft_in
stranded {p} {buf} q w e h =
    ap₂ (λ b r. bytesleft_in b r p) w.has e ∙ rw (size_eq w, dangling buf q h)

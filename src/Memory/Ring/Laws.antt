-- ===== src/Memory/Ring/Laws.antt =====
-- The invariant of `ring_buffer`, and `push_back` of bytes that fit.
use networkio.Base.{
  le→ltb_false, refl, sym, ◌∙◌, ap, append_assoc, ◌∙◌, sym, ap, ◌>>=◌, length-take, Option, ℕ, ◌+◌,
  ◌-◌, ◌≤◌, ◌<◌, ◌≡◌, ◌⊎◌, inl, inr, List, [], ◌++◌, some, arith, length, take, ltb_cases,
}
use networkio.Base.Int.{int32_limit, pos}
use networkio.Memory.Block.{
  Ptr, null, live, freed, slice, overwrite, memcpy_eq, length-overwrite, length-slice,
}
use networkio.Memory.Ring.{RingBuffer, copy_in, write_block, push_back}
use networkio.Memory.Ring.Window.{window, window-write, window-write_round, slice-append}

-- The offsets lie in the block, and the write offset is where the bytes that are held end.
pub record IsRing (b : List ℕ) (r : RingBuffer) : Type 0 where
  pub storage : length b ≡ r.m_buffer_size
  pub positive : 0 < r.m_buffer_size
  pub small : r.m_buffer_size < int32_limit
  pub read_in : r.m_read_offs < r.m_buffer_size
  pub write_in : r.m_write_offs < r.m_buffer_size
  pub held : r.m_bytes_written ≤ r.m_buffer_size
  pub ends :
      (r.m_write_offs ≡ r.m_read_offs + r.m_bytes_written)
      ⊎ (r.m_write_offs + r.m_buffer_size ≡ r.m_read_offs + r.m_bytes_written)

abbrev pub ring_bytes : Ptr → RingBuffer → List ℕ
ring_bytes null r = []
ring_bytes (live b) r = window b r.m_read_offs r.m_bytes_written
ring_bytes freed r = []

-- The bytes held, oldest first.
abbrev pub contents : RingBuffer → List ℕ
contents r = ring_bytes r.m_buffer r

-- What a copy of the bytes `bs` into the ring leaves.
pub record Pushed (b : List ℕ) (r : RingBuffer) (bs : List ℕ) (out : Option RingBuffer)
    : Type 0 where
  pub block : List ℕ
  pub ring : RingBuffer
  pub runs : out ≡ some ring
  pub is_live : ring.m_buffer ≡ live block
  pub valid : IsRing block ring
  pub same_size : ring.m_buffer_size ≡ r.m_buffer_size
  pub holds :
      window block ring.m_read_offs ring.m_bytes_written
      ≡ window b r.m_read_offs r.m_bytes_written ++ bs

write_live :
    (b : List ℕ) (d : ℕ) (src : List ℕ) (s n : ℕ)
    → d + n ≤ length b
    → s + n ≤ length src
    → write_block (live b) d src s n ≡ some (live (overwrite b d (slice src s n)))
unfolding write_block
write_live b d src s n h k = rw (memcpy_eq b d src s n h k)

-- One `memcpy` of `k` bytes to the write offset.
window_extended :
    (b : List ℕ) (r : RingBuffer) (bs : List ℕ)
    → IsRing b r
    → r.m_bytes_written + length bs ≤ r.m_buffer_size
    → r.m_write_offs + length bs ≤ r.m_buffer_size
    → window (overwrite b r.m_write_offs bs) r.m_read_offs (r.m_bytes_written + length bs)
      ≡ window b r.m_read_offs r.m_bytes_written ++ bs
window_extended b r bs v fits h = elim v.ends [
  | inl e ↦ rw e (window-write b r.m_read_offs r.m_bytes_written bs (omega arith))
  | inr e ↦
      window-write_round b r.m_read_offs r.m_bytes_written r.m_write_offs bs (omega arith)
        (omega arith) (omega arith)
]

taken : (buf : List ℕ) (k : ℕ) → k ≤ length buf → length (take k buf) ≡ k
taken buf k h = omega (arith, length-take k buf)

copied_before_end :
    (b : List ℕ) (r : RingBuffer) (buf : List ℕ) (k w : ℕ)
    → r.m_buffer ≡ live b
    → IsRing b r
    → k ≤ length buf
    → r.m_bytes_written + k ≤ r.m_buffer_size
    → r.m_write_offs + k ≤ r.m_buffer_size
    → ((w ≡ r.m_write_offs + k) × (w < r.m_buffer_size))
      ⊎ ((w ≡ 0) × (r.m_write_offs + k ≡ r.m_buffer_size))
    → Pushed b r (take k buf) (do
      p ← write_block r.m_buffer r.m_write_offs buf 0 k
      some (record r { m_buffer = p; m_write_offs = w; m_bytes_written = r.m_bytes_written + k }))
copied_before_end b r buf k w p v h fits le e = record {
  block = overwrite b r.m_write_offs (take k buf);
  ring = record r {
    m_buffer = live (overwrite b r.m_write_offs (take k buf));
    m_write_offs = w;
    m_bytes_written = r.m_bytes_written + k;
  };
  runs = rw (p, write_live b r.m_write_offs buf 0 k (omega arith) (omega arith));
  is_live = refl;
  valid = ground (arith, length-take k buf, length-overwrite b r.m_write_offs (take k buf));
  same_size = refl;
  holds =
      ap
        (λ m.
          window (overwrite b r.m_write_offs (take k buf)) r.m_read_offs (r.m_bytes_written + m))
        (sym (taken buf k h))
      ∙ window_extended b r (take k buf) v (omega (arith, taken buf k h))
          (omega (arith, taken buf k h));
}

-- Two `memcpy`s, to the end of the block and to its start.
copied_round :
    (b : List ℕ) (r : RingBuffer) (buf : List ℕ) (k left : ℕ)
    → r.m_buffer ≡ live b
    → IsRing b r
    → k ≤ length buf
    → r.m_bytes_written + k ≤ r.m_buffer_size
    → left ≡ r.m_buffer_size - r.m_write_offs
    → left < k
    → Pushed b r (take k buf) (do
      p ← write_block r.m_buffer r.m_write_offs buf 0 left
      p' ← write_block p 0 buf left (k - left)
      some (record r {
        m_buffer = p';
        m_write_offs = k - left;
        m_bytes_written = r.m_bytes_written + k;
      }))
copied_round b r buf k left p v h fits e lt = record {
  block = b2;
  ring = record r {
    m_buffer = live b2;
    m_write_offs = k - left;
    m_bytes_written = r.m_bytes_written + k;
  };
  runs = rw (
    p,
    write_live b r.m_write_offs buf 0 left (omega arith) (omega arith),
    write_live b1 0 buf left (k - left) (omega (arith, l1)) (omega arith),
  );
  is_live = refl;
  valid = ground (arith, l1, l2, nowrap);
  same_size = refl;
  holds =
      ap (window b2 r.m_read_offs) (omega (arith, n2))
      ∙ window-write_round b1 r.m_read_offs (r.m_bytes_written + left) 0 bs2 (omega (arith, l1))
          (omega (arith, l1, nowrap)) (omega (arith, n2, nowrap))
      ∙ ap (λ t. t ++ bs2) first
      ∙ append_assoc (window b r.m_read_offs r.m_bytes_written) bs1 bs2
      ∙ ap (◌++◌ (window b r.m_read_offs r.m_bytes_written))
          (slice-append buf left k (omega arith) h);
}
  where
    bs1 : List ℕ
    bs1 = take left buf

    bs2 : List ℕ
    bs2 = slice buf left (k - left)

    n1 : length bs1 ≡ left
    n1 = taken buf left (omega arith)

    n2 : length bs2 ≡ k - left
    n2 = length-slice buf left (k - left) (omega arith)

    b1 : List ℕ
    b1 = overwrite b r.m_write_offs bs1

    b2 : List ℕ
    b2 = overwrite b1 0 bs2

    l1 : length b1 ≡ r.m_buffer_size
    l1 = omega (arith, length-overwrite b r.m_write_offs bs1 (omega (arith, n1)), n1)

    l2 : length b2 ≡ r.m_buffer_size
    l2 = omega (arith, length-overwrite b1 0 bs2 (omega (arith, n2, l1)), l1)

    nowrap : r.m_write_offs ≡ r.m_read_offs + r.m_bytes_written
    nowrap = omega arith

    first :
        window b1 r.m_read_offs (r.m_bytes_written + left)
        ≡ window b r.m_read_offs r.m_bytes_written ++ bs1
    first =
        ap (λ m. window b1 r.m_read_offs (r.m_bytes_written + m)) (sym n1)
        ∙ window_extended b r bs1 v (omega (arith, n1)) (omega (arith, n1))

-- Bytes that fit are copied behind those that are held.
pub copy_in-Pushed :
    (b : List ℕ) (r : RingBuffer) (buf : List ℕ) (k : ℕ)
    → r.m_buffer ≡ live b
    → IsRing b r
    → k ≤ length buf
    → r.m_bytes_written + k ≤ r.m_buffer_size
    → Pushed b r (take k buf) (copy_in r buf k)
unfolding copy_in
copy_in-Pushed b r buf k p v h fits =
    rw (le→ltb_false r.m_buffer_size r.m_write_offs (omega arith)) (elim (ltb_cases k left) [
      | inl (t, lt) ↦ rw t (
          copied_before_end b r buf k (r.m_write_offs + k) p v h fits (omega arith)
            (inl (refl, omega arith)))
      | inr (t, le) ↦ elim (ltb_cases left k) [
        | inl (t', lt) ↦ rw (t, t') (copied_round b r buf k left p v h fits refl lt)
        | inr (t', le') ↦
            rw (t, t')
              (copied_before_end b r buf k 0 p v h fits (omega arith) (inr (refl, omega arith)))
      ]
    ])
  where
    left : ℕ
    left = r.m_buffer_size - r.m_write_offs

-- `push_back` of bytes that fit the ring.
pub push_back-Pushed :
    (junk : ℕ → ℕ) (b : List ℕ) (r : RingBuffer) (buf : List ℕ) (k : ℕ)
    → r.m_buffer ≡ live b
    → IsRing b r
    → k ≤ length buf
    → r.m_bytes_written + k ≤ r.m_buffer_size
    → Pushed b r (take k buf) (push_back junk r buf (pos k))
unfolding push_back
push_back-Pushed junk b r buf k p v h fits =
    rw (le→ltb_false (r.m_buffer_size - r.m_bytes_written) k (omega arith))
      (copy_in-Pushed b r buf k p v h fits)

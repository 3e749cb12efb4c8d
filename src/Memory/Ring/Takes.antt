-- ===== src/Memory/Ring/Takes.antt =====
-- `_pop_front` of the ring: the bytes that it shows, and the offsets behind it.
use networkio.Base.{
  refl, sym, ◌∙◌, ap, ap₂, ◌>>=◌, ℕ, ◌+◌, ◌-◌, ◌≤◌, ◌<◌, ◌≡◌, ◌⊎◌, inl, inr, List, ◌++◌, Option,
  some, arith, length, take, drop, min, ltb_cases, le→ltb_false, eq_cases,
}
use networkio.Memory.Block.{
  Ptr, live, slice, overwrite, memcpy_eq, memcpy_front, length-overwrite, length-slice,
}
use networkio.Memory.Ring.{RingBuffer, inner_pop_front, read_block}
use networkio.Memory.Ring.Window.{
  window, window-slice, window_two_slices, drop-window, drop-window_round, take-window,
  overwrite_twice,
}
use networkio.Memory.Ring.Laws.{IsRing}

read_live :
    (ptr : Ptr) (b dst : List ℕ) (d s n : ℕ)
    → ptr ≡ live b
    → d + n ≤ length dst
    → s + n ≤ length b
    → read_block ptr dst d s n ≡ some (overwrite dst d (slice b s n))
unfolding read_block
read_live ptr b dst d s n p h k = rw p (memcpy_eq dst d b s n h k)

-- The ring behind a read of `q` bytes, for the offset `s` that it leaves.
abbrev pub moved : RingBuffer → ℕ → ℕ → RingBuffer
moved r s q = record r { m_read_offs = s; m_bytes_written = r.m_bytes_written - q }

-- `s` is `q` bytes on from the read offset, round the block.
abbrev pub IsNext : RingBuffer → ℕ → ℕ → Type 0
IsNext r q s =
    ((s ≡ r.m_read_offs + q) × (s < r.m_buffer_size))
    ⊎ ((r.m_read_offs + q ≡ s + r.m_buffer_size) × (s < r.m_buffer_size))

pub moved-IsRing :
    (b : List ℕ) (r : RingBuffer) (q s : ℕ)
    → IsRing b r
    → q ≤ r.m_bytes_written
    → IsNext r q s
    → IsRing b (moved r s q)
moved-IsRing b r q s v h n = ground arith

pub moved_drops :
    (b : List ℕ) (r : RingBuffer) (q s : ℕ)
    → IsRing b r
    → q ≤ r.m_bytes_written
    → IsNext r q s
    → window b s (r.m_bytes_written - q) ≡ drop q (window b r.m_read_offs r.m_bytes_written)
moved_drops b r q s v h (inl (e, lt)) =
    rw e (sym (drop-window b r.m_read_offs r.m_bytes_written q (omega arith) h (omega arith)))
moved_drops b r q s v h (inr (e, lt)) = sym (
    drop-window_round b r.m_read_offs r.m_bytes_written q s (omega arith) (omega arith) h
      (omega arith))

-- What a read of `q` bytes into `dst` leaves.
pub record Popped (b : List ℕ) (r : RingBuffer) (dst : List ℕ) (q : ℕ)
    (out : Option (ℕ × List ℕ × RingBuffer)) : Type 0 where
  pub offs : ℕ
  pub next : IsNext r q offs
  pub runs :
      out
      ≡ some (q, take q (window b r.m_read_offs r.m_bytes_written) ++ drop q dst, moved r offs q)

read_front :
    (ptr : Ptr) (b dst : List ℕ) (s n : ℕ)
    → ptr ≡ live b
    → n ≤ length dst
    → s + n ≤ length b
    → read_block ptr dst 0 s n ≡ some (slice b s n ++ drop n dst)
unfolding read_block
read_front ptr b dst s n p h k = rw p (memcpy_front dst b s n h k)

shown :
    (b : List ℕ) (r : RingBuffer) (q : ℕ)
    → IsRing b r
    → q ≤ r.m_bytes_written
    → r.m_read_offs + q ≤ r.m_buffer_size
    → take q (window b r.m_read_offs r.m_bytes_written) ≡ slice b r.m_read_offs q
shown b r q v h le =
    take-window b r.m_read_offs r.m_bytes_written q h ∙ window-slice b r.m_read_offs q (omega arith)

shown_round :
    (b : List ℕ) (r : RingBuffer) (q left : ℕ)
    → IsRing b r
    → q ≤ r.m_bytes_written
    → left ≡ r.m_buffer_size - r.m_read_offs
    → left < q
    → take q (window b r.m_read_offs r.m_bytes_written)
      ≡ slice b r.m_read_offs left ++ slice b 0 (q - left)
shown_round b r q left v h e lt =
    take-window b r.m_read_offs r.m_bytes_written q h
    ∙ window_two_slices b r.m_read_offs q (q - left) (omega arith) (omega arith) (omega arith)
    ∙ ap (λ m. slice b r.m_read_offs m ++ slice b 0 (q - left)) (omega arith)

read_before_end :
    (b : List ℕ) (r : RingBuffer) (dst : List ℕ) (q s : ℕ)
    → r.m_buffer ≡ live b
    → IsRing b r
    → q ≤ r.m_bytes_written
    → q ≤ length dst
    → r.m_read_offs + q ≤ r.m_buffer_size
    → IsNext r q s
    → Popped b r dst q
        (do dst' ← read_block r.m_buffer dst 0 r.m_read_offs q; some (q, dst', moved r s q))
read_before_end b r dst q s p v h fits le e = record {
  offs = s;
  next = e;
  runs =
      rw (read_front r.m_buffer b dst r.m_read_offs q p fits (omega arith))
        (ap (λ t. some (q, t ++ drop q dst, moved r s q)) (sym (shown b r q v h le)));
}

read_round :
    (b : List ℕ) (r : RingBuffer) (dst : List ℕ) (q left : ℕ)
    → r.m_buffer ≡ live b
    → IsRing b r
    → q ≤ r.m_bytes_written
    → q ≤ length dst
    → left ≡ r.m_buffer_size - r.m_read_offs
    → left < q
    → Popped b r dst q (do
      dst' ← read_block r.m_buffer dst 0 r.m_read_offs left
      dst'' ← read_block r.m_buffer dst' left 0 (q - left)
      some (q, dst'', moved r (q - left) q))
read_round b r dst q left p v h fits e lt = record {
  offs = q - left;
  next = inr (omega arith, omega arith);
  runs =
      rw
        (
          read_live r.m_buffer b dst 0 r.m_read_offs left p (omega arith) (omega arith),
          read_live r.m_buffer b (overwrite dst 0 front) left 0 (q - left) p (omega (arith, l))
              (omega arith),
        )
        (ap (λ t. some (q, t, moved r (q - left) q)) whole);
}
  where
    front : List ℕ
    front = slice b r.m_read_offs left

    back : List ℕ
    back = slice b 0 (q - left)

    n : length front ≡ left
    n = length-slice b r.m_read_offs left (omega arith)

    m : length back ≡ q - left
    m = length-slice b 0 (q - left) (omega arith)

    l : length (overwrite dst 0 front) ≡ length dst
    l = length-overwrite dst 0 front (omega (arith, n))

    whole :
        overwrite (overwrite dst 0 front) left back
        ≡ take q (window b r.m_read_offs r.m_bytes_written) ++ drop q dst
    whole =
        ap (λ k. overwrite (overwrite dst 0 front) k back) (sym n)
        ∙ overwrite_twice dst front back (omega (arith, n, m))
        ∙ ap₂ (λ t k. t ++ drop k dst) (sym (shown_round b r q left v h e lt)) (omega (arith, n, m))

-- `_pop_front` takes the first `size` bytes, or all, and puts them at the front of the block.
pub inner_pop_front_lem :
    (b : List ℕ) (r : RingBuffer) (dst : List ℕ) (size : ℕ)
    → r.m_buffer ≡ live b
    → IsRing b r
    → size ≤ length dst
    → Popped b r dst (min size r.m_bytes_written) (inner_pop_front r dst size)
unfolding inner_pop_front
inner_pop_front_lem b r dst size p v fits = elim (eq_cases q 0) [
  | inl (t, z) ↦ record {
    offs = r.m_read_offs;
    next = inl (omega arith, v.read_in);
    runs = rw (t, z) (ap (λ m. some (0, dst, record r { m_bytes_written = m })) (omega arith));
  }
  | inr (t₀, nz) ↦
      rw (t₀, le→ltb_false r.m_buffer_size r.m_read_offs (omega arith))
        (elim (ltb_cases q left) [
          | inl (t, lt) ↦ rw t (
              read_before_end b r dst q (r.m_read_offs + q) p v (omega arith) (omega arith)
                (omega arith) (inl (refl, omega arith)))
          | inr (t, le) ↦ elim (ltb_cases left q) [
            | inl (t', lt) ↦
                rw (t, t') (read_round b r dst q left p v (omega arith) (omega arith) refl lt)
            | inr (t', le') ↦
                rw (t, t')
                  (read_before_end b r dst q 0 p v (omega arith) (omega arith) (omega arith)
                    (inr (omega arith, v.positive)))
          ]
        ])
]
  where
    q : ℕ
    q = min size r.m_bytes_written

    left : ℕ
    left = r.m_buffer_size - r.m_read_offs

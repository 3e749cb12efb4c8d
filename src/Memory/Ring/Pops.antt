-- ===== src/Memory/Ring/Pops.antt =====
-- `pop_front(int32_t)` and `peek` of `ring_buffer`.
use networkio.Base.{
  append-nil, drop_all, ◌∙◌, ap, ℕ, ◌+◌, ◌-◌, ◌≤◌, ◌<◌, ◌≡◌, inl, inr, List, ◌++◌, some, arith,
  take, drop, min, ltb_cases, eq_cases, replicate, length-replicate, ◌%◌, ◌==◌, if◌then◌else◌,
}
use native.Mathlib.Nat.{mod-eq_of_lt, mod-eq-sub-mod}
use networkio.Base.Int.{int32_limit, pos, add_int32_eq}
use networkio.Memory.Block.{live}
use networkio.Memory.Ring.{RingBuffer, pop_front, peek}
use networkio.Memory.Ring.Window.{window}
use networkio.Memory.Ring.Laws.{IsRing}
use networkio.Memory.Ring.Takes.{moved, IsNext, moved-IsRing, moved_drops, inner_pop_front_lem}

-- The ring behind a read is valid, and holds what is left.
pub Popped-IsRing :
    (b : List ℕ) (r : RingBuffer) (q s : ℕ)
    → IsRing b r
    → q ≤ r.m_bytes_written
    → IsNext r q s
    → IsRing b (moved r s q)
      × (window b s (r.m_bytes_written - q) ≡ drop q (window b r.m_read_offs r.m_bytes_written))
Popped-IsRing b r q s v h n = (moved-IsRing b r q s v h n, moved_drops b r q s v h n)

next_offs : RingBuffer → ℕ → ℕ
next_offs r q = if q == 0 then r.m_read_offs else (r.m_read_offs + q) % r.m_buffer_size

next_offs-IsNext :
    (b : List ℕ) (r : RingBuffer) (q : ℕ)
    → IsRing b r
    → q ≤ r.m_bytes_written
    → IsNext r q (next_offs r q)
unfolding next_offs
next_offs-IsNext b r q v h = elim (eq_cases q 0) [
  | inl (t, z) ↦ rw t (inl (omega arith, v.read_in))
  | inr (t, nz) ↦ rw t (elim (ltb_cases (r.m_read_offs + q) r.m_buffer_size) [
    | inl (_, lt) ↦ inl (mod-eq_of_lt lt, rw (mod-eq_of_lt lt) lt)
    | inr (_, le) ↦ rw (mod-eq-sub-mod le, mod-eq_of_lt (less le)) (inr (omega arith, less le))
  ])
]
  where
    less :
        r.m_buffer_size ≤ r.m_read_offs + q → r.m_read_offs + q - r.m_buffer_size < r.m_buffer_size
    less le = omega arith

-- `pop_front(int32_t)` drops as many bytes, unless the sum of the offset and the count overflows.
pub pop_front_lem :
    (b : List ℕ) (r : RingBuffer) (size : ℕ)
    → r.m_buffer ≡ live b
    → IsRing b r
    → r.m_read_offs + r.m_bytes_written < int32_limit
    → let q = min size r.m_bytes_written in
      (s : ℕ) × IsNext r q s × (pop_front r (pos size) ≡ some (q, moved r s q))
unfolding pop_front next_offs
pop_front_lem b r size p v h =
    let q = min size r.m_bytes_written in
    (
      next_offs r q,
      next_offs-IsNext b r q v (omega arith),
      elim (eq_cases q 0) [
        | inl (t, z) ↦
            rw (t, z) (ap (λ m. some (0, record r { m_bytes_written = m })) (omega arith))
        | inr (t, nz) ↦ rw (t, add_int32_eq r.m_read_offs q (omega arith))
      ],
    )

-- `peek` of `n` bytes, at least one and fewer than the block has, shows the first `n` bytes of a
-- valid ring that holds as many, and leaves the offsets alone. It also takes them off the count, as
-- `pop_front` would: the ring then counts `n` bytes fewer, and is not valid, since its write offset
-- is not where the bytes that it counts end.
pub peek_consumes :
    (b : List ℕ) (r : RingBuffer) (n : ℕ)
    → r.m_buffer ≡ live b
    → IsRing b r
    → 0 < n
    → n ≤ r.m_bytes_written
    → n < r.m_buffer_size
    → (peek r n
        ≡ some (
          take n (window b r.m_read_offs r.m_bytes_written),
          record r { m_bytes_written = r.m_bytes_written - n },
        ))
      × ¬ IsRing b (record r { m_bytes_written = r.m_bytes_written - n })
unfolding peek
peek_consumes b r n p v h le part =
    let out =
      inner_pop_front_lem b r (replicate n 0) n p v (omega (arith, length-replicate {A = ℕ} n 0)) in
    let e : min n r.m_bytes_written ≡ n = omega arith in
    (
      rw out.runs (
          rw e
            (ap (λ t. some (t, record r { m_bytes_written = r.m_bytes_written - n })) none_left)),
      λ w. omega arith,
    )
  where
    none_left :
        take n (window b r.m_read_offs r.m_bytes_written) ++ drop n (replicate n 0)
        ≡ take n (window b r.m_read_offs r.m_bytes_written)
    none_left =
        ap (◌++◌ (take n (window b r.m_read_offs r.m_bytes_written)))
          (drop_all n (replicate n 0) (omega (arith, length-replicate {A = ℕ} n 0)))
        ∙ append-nil _

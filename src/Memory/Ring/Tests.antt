-- ===== src/Memory/Ring/Tests.antt =====
-- Runs of `ring_buffer`, and its theorems at concrete rings.
use networkio.Base.{ℕ, ◌≡◌, refl, List, [], ◌∷◌, none, some, arith}
use networkio.Base.Int.{pos, add_int32}
use networkio.Memory.Block.{live, memcpy}
use networkio.Memory.Ring.{
  RingBuffer, push_back, copy_in, write_block, pop_front, pop_front_into, inner_pop_front,
  read_block, peek, size,
}
use networkio.Memory.Queue
use networkio.Memory.Queue.{Call, push, pop, skip, count, Reply, done, number, bytes}
use networkio.Memory.Ring.Laws.{IsRing}
use networkio.Memory.Ring.Growth.{push_back_overruns}
use networkio.Memory.Ring.Pops.{peek_consumes}
use networkio.Memory.Ring.Refine.{call, Holds, run, ring_run_refines}

abbrev junk : ℕ → ℕ
junk i = 0xcd

-- Four bytes of storage, 8 and 9 round its end.
abbrev storage : List ℕ
storage = 9 ∷ 0 ∷ 0 ∷ 8 ∷ []

abbrev round : RingBuffer
round = record {
  m_buffer = live storage;
  m_buffer_size = 4;
  m_read_offs = 3;
  m_write_offs = 1;
  m_bytes_written = 2;
}

round-Holds : Holds 4 round (8 ∷ 9 ∷ [])
round-Holds = record {
  block = storage;
  is_live = refl;
  valid = omega arith;
  capacity = refl;
  held_bytes = refl;
}

abbrev calls : List Call
calls = push (1 ∷ 2 ∷ []) ∷ pop 1 ∷ skip 1 ∷ count ∷ pop 9 ∷ []

round_runs :
    run junk round calls
    ≡ some (done ∷ bytes (8 ∷ []) ∷ number 1 ∷ number 2 ∷ bytes (1 ∷ 2 ∷ []) ∷ [])
unfolding run call push_back copy_in write_block memcpy pop_front_into inner_pop_front read_block
    pop_front add_int32 size
round_runs = refl

ring_run_refines_example : run junk round calls ≡ some (Queue.run (8 ∷ 9 ∷ []) calls)
ring_run_refines_example =
    ring_run_refines junk 4 round (8 ∷ 9 ∷ []) calls round-Holds (omega arith) (omega arith)
      (omega arith)

-- Half full, from the start of the storage.
abbrev half : RingBuffer
half = record {
  m_buffer = live storage;
  m_buffer_size = 4;
  m_read_offs = 0;
  m_write_offs = 2;
  m_bytes_written = 2;
}

-- Three bytes are one more than fit, and fewer than the storage holds.
push_back_overruns_example : push_back junk half (5 ∷ 6 ∷ 7 ∷ []) (pos 3) ≡ none
push_back_overruns_example =
    push_back_overruns junk storage half (5 ∷ 6 ∷ 7 ∷ []) 3 refl (omega arith) (omega arith)
      (omega arith) (omega arith)

abbrev full : RingBuffer
full = record {
  m_buffer = live storage;
  m_buffer_size = 4;
  m_read_offs = 0;
  m_write_offs = 0;
  m_bytes_written = 4;
}

peek_consumes_example :
    (peek round 1 ≡ some (8 ∷ [], record round { m_bytes_written = 1 }))
    × ¬ IsRing storage (record round { m_bytes_written = 1 })
peek_consumes_example =
    peek_consumes storage round 1 refl (omega arith) (omega arith) (omega arith) (omega arith)

-- ===== src/Memory/Fifo/Tests.antt =====
-- Runs of `fifo_buffer`, and its theorems at concrete buffers.
use networkio.Base.{ℕ, ◌≡◌, refl, List, [], ◌∷◌, none, some, arith}
use networkio.Base.Int.{pos}
use networkio.Memory.Block.{live, memcpy, malloc}
use networkio.Memory.Fifo.{
  FifoBuffer, push_back, pop_front_into, inner_pop_front, front_block, shrink_block, size, clear,
}
use networkio.Memory.Queue
use networkio.Memory.Queue.{Call, push, pop, skip, look, count, Reply, done, number, bytes}
use networkio.Memory.Fifo.Laws.{IsValid, clear_dangles}
use networkio.Memory.Fifo.Refine.{run, fifo_run_refines}

abbrev junk : ℕ → ℕ
junk i = 0xcd

abbrev three : FifoBuffer
three = record { m_buffer = live (1 ∷ 2 ∷ 3 ∷ []); m_buffer_size = 3 }

three-IsValid : IsValid three
three-IsValid = omega arith

abbrev calls : List Call
calls =
    push (4 ∷ 5 ∷ [])
    ∷ look 2
    ∷ pop 3
    ∷ count
    ∷ look 9
    ∷ skip 9
    ∷ count
    ∷ push (6 ∷ [])
    ∷ pop 4
    ∷ []

abbrev replies : List Reply
replies =
    done
    ∷ bytes (1 ∷ 2 ∷ [])
    ∷ bytes (1 ∷ 2 ∷ 3 ∷ [])
    ∷ number 2
    ∷ done
    ∷ number 2
    ∷ number 0
    ∷ done
    ∷ bytes (6 ∷ [])
    ∷ []

queue_runs : Queue.run (1 ∷ 2 ∷ 3 ∷ []) calls ≡ replies
unfolding Queue.run Queue.step
queue_runs = refl

pop_some :
    pop_front_into junk three (7 ∷ 8 ∷ 9 ∷ []) (pos 2)
    ≡ some (2, 1 ∷ 2 ∷ 9 ∷ [], record { m_buffer = live (3 ∷ []); m_buffer_size = 1 })
unfolding pop_front_into inner_pop_front front_block shrink_block memcpy malloc
pop_some = refl

fifo_run_refines_example : run junk three calls ≡ some (Queue.run (1 ∷ 2 ∷ 3 ∷ []) calls)
fifo_run_refines_example = fifo_run_refines junk three calls three-IsValid (omega arith)

clear_dangles_example :
    (f : FifoBuffer) × (clear three ≡ some f)
    × (size f ≡ 0)
    × (push_back junk f (9 ∷ []) (pos 1) ≡ none)
    × (clear f ≡ none)
unfolding size
clear_dangles_example = clear_dangles junk three (9 ∷ []) 0 three-IsValid (omega arith)

-- ===== src/Socket/Concurrent/Tests.antt =====
-- The concurrent server with handlers that are numbers: each counts down, and is dropped at 0.
use networkio.Base.{ℕ, ◌-◌, ◌≡◌, refl, Bool, true, false, List, [], ◌∷◌, Option, some, ltb}
use networkio.Socket.Concurrent.{process_all, process_round, Server, make, process}
use networkio.Socket.Concurrent.Laws.{Turns, kept, process-Turns}
use networkio.Socket.Concurrent.Threads.{
  works, shuts, next, Steps, advance, Pool, looping, returned, here, Loops, all_returned,
  joins_never,
}

-- The state is the number of the next handler, which has that many turns.
abbrev accept_number : ℕ → Option ℕ × ℕ
accept_number x = (some x, x)

abbrev count_down : ℕ → ℕ → Bool × ℕ × ℕ
count_down h x = (ltb 1 h, h - 1, x)

abbrev server : Server ℕ ℕ
server = record (make 0) { m_clients = 1 ∷ 2 ∷ [] }

-- The first handler is done, the second and the new one go on.
process_once :
    process accept_number count_down server 3 ≡ (true, record server { m_clients = 1 ∷ 2 ∷ [] }, 3)
unfolding process process_round process_all
process_once = refl

process-Turns_example :
    (outs : List (Bool × ℕ)) × (x' : ℕ) × Turns accept_number count_down (1 ∷ 2 ∷ 3 ∷ []) 3 outs x'
    × (process accept_number count_down server 3
        ≡ (true, record server { m_clients = kept outs }, x'))
process-Turns_example = process-Turns accept_number count_down server 3 refl

abbrev pool : Pool ℕ ℕ
pool = record {
  workers = returned ∷ looping [] ∷ [];
  m_threads_active = true;
  joining = false;
  state = 3;
}

-- `shutdown` clears the flag, and the thread goes on with the handler that it accepts.
abbrev shut : Pool ℕ ℕ
shut = record pool { m_threads_active = false; joining = true }

abbrev gone_on : Pool ℕ ℕ
gone_on = record shut { workers = returned ∷ looping (2 ∷ []) ∷ [] }

works_on : advance accept_number count_down false (looping []) 3 ≡ (looping (2 ∷ []), 3)
unfolding advance process_round process_all
works_on = refl

shut_and_on : Steps accept_number count_down pool gone_on
shut_and_on = next pool shut gone_on (shuts pool shut refl) (
    next shut gone_on gone_on
      (works shut gone_on 1 (looping []) (looping (2 ∷ [])) 3 refl works_on refl) (here gone_on))

joins_never_example :
    Loops accept_number count_down gone_on 1 × (all_returned gone_on.workers ≡ false)
joins_never_example = joins_never accept_number count_down pool gone_on 1 ([], refl) shut_and_on

-- ===== src/Socket/Concurrent.antt =====
-- library/src/socket/concurrent_server.cpp and its header: a server that holds a list of handlers and
-- processes each in turn, in the caller's thread or in threads of its own. MANY_CONNECTIONS is
-- defined, so each thread has a list of its own.
pub mod Laws
pub mod Threads
mod Tests
use networkio.Base.{
  ◌>>=◌, ◌+◌, ℕ, zero, suc, Bool, true, false, ◌&&◌, not, List, [], ◌∷◌, ◌++◌, Option, none, some,
  ltb, ◌==◌, if◌then◌else◌, replicate, length,
}
use networkio.Interfaces.{ServerOps}

-- `V` is a listening socket. The number of the threads in `m_threadpool` is kept, and where each of
-- them stands is in Concurrent/Threads.
pub record Server (V H : Type 0) : Type 0 where
  pub m_sleep : ℕ
  pub m_threads : ℕ
  pub m_server : Option V
  pub m_clients : List H
  pub m_threads_active : Bool
  pub m_threadpool : ℕ

-- `concurrent_server(sv)`
abbrev pub make : {V H : Type 0} → V → Server V H
make v = record {
  m_sleep = 0;
  m_threads = 0;
  m_server = some v;
  m_clients = [];
  m_threads_active = false;
  m_threadpool = 0;
}

unfoldable pub set_sleep : {V H : Type 0} → Server V H → ℕ → Bool × Server V H
set_sleep s sleep = (true, record s { m_sleep = sleep })

unfoldable pub set_threads : {V H : Type 0} → Server V H → ℕ → Bool × Server V H
set_threads s threads = (true, record s { m_threads = threads })

-- `start`, which uses `m_server` without a test for null: `none` is its use when it is null.
unfoldable pub start : {V H : Type 0} → ServerOps V → Server V H → ℕ → Option (Bool × Server V H)
start ops s port = elim s.m_server [
  | none ↦ none
  | some v ↦
      let (ok, v₁) = ops.bind v port in
      if ok
      then (let v₂ = ops.set_nopipe (ops.set_blocking v₁ false) true in
          some (
            true,
            record s {
              m_server = some v₂;
              m_threads_active = true;
              m_threadpool = s.m_threadpool + s.m_threads;
            },
          ))
      else some (false, record s { m_server = some v₁ })
]

-- `shutdown` once each thread of the pool has been joined.
unfoldable pub shutdown_joined : {V H : Type 0} → ServerOps V → Server V H → Server V H × Option V
shutdown_joined ops s = (
  record s { m_threads_active = false; m_threadpool = 0; m_clients = []; m_server = none },
  elim s.m_server [ none ↦ none | some v ↦ some (ops.close v) ],
)

-- The virtual `accept_client` and `process_client`, over the state `X` of all that they reach: a
-- handler that is processed is kept, or dropped.
module _ {X H : Type 0} (accept_client : X → Option H × X)
    (process_client : H → X → Bool × H × X) where
  -- The loop over the handlers, which erases those that are done.
  unfoldable pub process_all : List H → X → List H × X
  process_all [] x = ([], x)
  process_all (h ∷ hs) x =
      let (keep, h', x₁) = process_client h x in
      let (hs', x₂) = process_all hs x₁ in (if keep then h' ∷ hs' else hs', x₂)

  -- A handler that is accepted goes behind the others, and each is then processed.
  unfoldable pub process_round : List H → X → List H × X
  process_round hs x =
      let (got, x₁) = accept_client x in
      process_all (elim got [ none ↦ hs | some h ↦ hs ++ h ∷ [] ]) x₁

  unfoldable pub process : {V : Type 0} → Server V H → X → Bool × Server V H × X
  process s x =
      if ltb 0 s.m_threads
      then (true, s, x)
      else (let (hs, x') = process_round s.m_clients x in (true, record s { m_clients = hs }, x'))

  -- The loop of `run` once the server is started: `none` is a loop that still goes on after so many
  -- rounds.
  unfoldable pub run_loop : {V : Type 0} → ℕ → Server V H → X → Option Bool
  run_loop zero s x = none
  run_loop (suc rounds) s x =
      let (more, s', x') = process s x in
      elim more [ false ↦ some true | true ↦ run_loop rounds s' x' ]

  -- `run`: `start`, and then the loop.
  unfoldable pub run : {V : Type 0} → ServerOps V → ℕ → Server V H → X → ℕ → Option Bool
  run ops rounds s x port =
      start ops s port >>= λ (ok, s'). if ok then run_loop rounds s' x else some false

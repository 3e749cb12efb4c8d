-- ===== src/Memory/Fifo/Refine.antt =====
-- `fifo_buffer` as the queue of its bytes.
use networkio.Base.{
  ℕ, ◌+◌, ◌<◌, ◌≡◌, refl, ◌∙◌, List, [], ◌∷◌, ◌++◌, Option, some, arith, leb, if◌then◌else◌, ◌>>=◌,
  length, take, replicate, length-replicate, leb_cases, inl, inr, ap, take_all, sym,
}
use networkio.Base.Int.{pos, int32_limit}
use networkio.Memory.Fifo.{FifoBuffer, push_back, pop_front, pop_front_into, peek, size, contents}
use networkio.Memory.Queue
use networkio.Memory.Queue.{
  taken, length-step, Call, push, pop, skip, look, count, Reply, done, number, bytes, pushed,
  pushed_by,
}
use networkio.Memory.Fifo.Laws.{
  IsValid, size_eq, push_back_lem, pop_front_lem, pop_front_into_lem, peek_lem, size-length,
}

-- One call on the buffer. `pop` reads into a block of `n` bytes and keeps those that were read.
unfoldable pub call : (ℕ → ℕ) → FifoBuffer → Call → Option (Reply × FifoBuffer)
call junk f (push bs) = do f' ← push_back junk f bs (pos (length bs)); some (done, f')
call junk f (pop n) = do
  (got, dst, f') ← pop_front_into junk f (replicate n 0) (pos n)
  some (bytes (take got dst), f')
call junk f (skip n) = do (got, f') ← pop_front junk f (pos n); some (number got, f')
call junk f (look n) =
    if leb n (size f) then (do bs ← peek f n; some (bytes bs, f)) else some (done, f)
call junk f count = some (number (size f), f)

unfoldable pub run : (ℕ → ℕ) → FifoBuffer → List Call → Option (List Reply)
run junk f [] = some []
run junk f (c ∷ cs) = do (r, f') ← call junk f c; rs ← run junk f' cs; some (r ∷ rs)

-- Each call does to the buffer what it does to the queue of its bytes.
record Refines (junk : ℕ → ℕ) (f : FifoBuffer) (c : Call) : Type 0 where
  after : FifoBuffer
  runs : call junk f c ≡ some ((Queue.step (contents f) c).0, after)
  valid : IsValid after
  holds : contents after ≡ (Queue.step (contents f) c).1

call-Refines :
    (junk : ℕ → ℕ) (f : FifoBuffer) (c : Call)
    → IsValid f
    → length (contents f) + pushed_by c < int32_limit
    → Refines junk f c
unfolding call Queue.step
call-Refines junk f (push bs) v h =
    let (f', e, v', c) =
      push_back_lem junk f bs (length bs) v (omega arith) (omega (arith, size_eq f v)) in
    record {
      after = f';
      runs = rw e;
      valid = v';
      holds = c ∙ ap (◌++◌ _) (take_all _ bs (omega arith));
    }
call-Refines junk f (pop n) v h =
    let (f', e, v', c) =
      pop_front_into_lem junk f (replicate n 0) n v (omega (arith, length-replicate {A = ℕ} n 0)) in
    let t =
      taken n f.m_buffer_size (contents f) (replicate n 0) (sym (size_eq f v))
        (length-replicate {A = ℕ} n 0) in
    record { after = f'; runs = rw (e, t); valid = v'; holds = c }
call-Refines junk f (skip n) v h =
    let (f', e, v', c) = pop_front_lem junk f n v in
    record { after = f'; runs = rw (e, size_eq f v); valid = v'; holds = c }
call-Refines junk f (look n) v h = record {
  after = f;
  valid = v;
  holds = refl;
  runs = elim (leb_cases n (size f)) [
    | inl (t, le) ↦ ground (arith, peek_lem f n v le, size-length f v)
    | inr (t, lt) ↦ ground (arith, size-length f v)
  ];
}
call-Refines junk f count v h = record {
  after = f;
  runs = rw (size-length f v);
  valid = v;
  holds = refl;
}

-- No sequence of calls of `push_back` and of the two `pop_front`, with sizes that are not negative
-- and blocks of those sizes, of `size`, and of `peek` where `size` says that as many bytes are held,
-- tells a valid buffer from the queue of its bytes, and none of them is undefined, as long as the
-- bytes that are held and all that are pushed stay below 2^31. `clear`, and a `peek` of more bytes
-- than are held, are not among the calls.
pub fifo_run_refines :
    (junk : ℕ → ℕ) (f : FifoBuffer) (cs : List Call)
    → IsValid f
    → length (contents f) + pushed cs < int32_limit
    → run junk f cs ≡ some (Queue.run (contents f) cs)
unfolding run Queue.run
fifo_run_refines junk f [] v h = refl
fifo_run_refines junk f (c ∷ cs) v h =
    let s = call-Refines junk f c v (omega arith) in
    let later =
      fifo_run_refines junk s.after cs s.valid
        (omega (arith, ap length s.holds, length-step (contents f) c)) in
    rw (s.runs, later, s.holds)

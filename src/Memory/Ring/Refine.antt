-- ===== src/Memory/Ring/Refine.antt =====
-- `ring_buffer` between two growths as the queue of its bytes.
use networkio.Base.{
  ◌>>=◌, refl, ◌∙◌, ap, ap₂, ℕ, ◌+◌, ◌≤◌, ◌^◌, ◌≡◌, List, [], ◌∷◌, ◌++◌, none, some, Option, arith,
  length, take, drop, min, replicate, length-replicate, take-min, drop-min, take_all,
}
use networkio.Base.Int.{pos}
use networkio.Memory.Block.{live}
use networkio.Memory.Queue
use networkio.Memory.Queue.{
  taken, Call, push, pop, skip, look, count, Reply, done, number, bytes, pushed, pushed_by,
  length-step,
}
use networkio.Memory.Ring.{RingBuffer, push_back, pop_front, pop_front_into, size}
use networkio.Memory.Ring.Window.{window, length-window}
use networkio.Memory.Ring.Laws.{IsRing, push_back-Pushed}
use networkio.Memory.Ring.Takes.{inner_pop_front_lem, moved, IsNext}
use networkio.Memory.Ring.Pops.{pop_front_lem, Popped-IsRing}

-- The calls that this class shares with a queue: all but `look`, since `peek` takes bytes away.
unfoldable pub call : (ℕ → ℕ) → RingBuffer → Call → Option (Reply × RingBuffer)
call junk r (push bs) = do r' ← push_back junk r bs (pos (length bs)); some (done, r')
call junk r (pop n) = do
  (got, dst, r') ← pop_front_into r (replicate n 0) (pos n)
  some (bytes (take got dst), r')
call junk r (skip n) = do (got, r') ← pop_front r (pos n); some (number got, r')
call junk r (look n) = none
call junk r count = some (number (size r), r)

unfoldable pub run : (ℕ → ℕ) → RingBuffer → List Call → Option (List Reply)
run junk r [] = some []
run junk r (c ∷ cs) = do (a, r') ← call junk r c; rest ← run junk r' cs; some (a ∷ rest)

abbrev pub NoLook : List Call → Type 0
NoLook [] = Unit {0}
NoLook (look n ∷ cs) = ⊥
NoLook (push bs ∷ cs) = NoLook cs
NoLook (pop n ∷ cs) = NoLook cs
NoLook (skip n ∷ cs) = NoLook cs
NoLook (count ∷ cs) = NoLook cs

split-NoLook : (c : Call) (cs : List Call) → NoLook (c ∷ cs) → NoLook (c ∷ []) × NoLook cs
split-NoLook (push bs) cs h = (tt, h)
split-NoLook (pop n) cs h = (tt, h)
split-NoLook (skip n) cs h = (tt, h)
split-NoLook (look n) cs h = absurd h
split-NoLook count cs h = (tt, h)

-- A valid ring of `room` bytes of storage that holds the bytes `q`.
pub record Holds (room : ℕ) (r : RingBuffer) (q : List ℕ) : Type 0 where
  pub block : List ℕ
  pub is_live : r.m_buffer ≡ live block
  pub valid : IsRing block r
  pub capacity : r.m_buffer_size ≡ room
  pub held_bytes : window block r.m_read_offs r.m_bytes_written ≡ q

record Refines (junk : ℕ → ℕ) (room : ℕ) (r : RingBuffer) (q : List ℕ) (c : Call) : Type 0 where
  after : RingBuffer
  runs : call junk r c ≡ some ((Queue.step q c).0, after)
  holds : Holds room after (Queue.step q c).1

length-held :
    {room : ℕ} {r : RingBuffer} {q : List ℕ} → Holds room r q → length q ≡ r.m_bytes_written
length-held {room} {r} {q} h = omega (
  arith,
  ap length h.held_bytes,
  length-window h.block r.m_read_offs r.m_bytes_written
      (omega (arith, h.valid.storage, h.valid.read_in))
      (omega (arith, h.valid.storage, h.valid.held)),
)

-- A read leaves a ring that holds the rest.
moved-Holds :
    {room : ℕ} {r : RingBuffer} {q : List ℕ} (n s : ℕ)
    → Holds room r q
    → IsNext r (min n r.m_bytes_written) s
    → Holds room (moved r s (min n r.m_bytes_written)) (drop n q)
moved-Holds {room} {r} {q} n s h next =
    let (v, e) = Popped-IsRing h.block r (min n r.m_bytes_written) s h.valid (omega arith) next in
    record {
      block = h.block;
      is_live = h.is_live;
      valid = v;
      capacity = h.capacity;
      held_bytes =
          e
          ∙ ap (drop (min n r.m_bytes_written)) h.held_bytes
          ∙ drop-min n r.m_bytes_written q (length-held h);
    }

read_bytes :
    {room : ℕ} {r : RingBuffer} {q : List ℕ} (n : ℕ) (h : Holds room r q)
    → let m = min n r.m_bytes_written in
      take m (take m (window h.block r.m_read_offs r.m_bytes_written) ++ drop m (replicate n 0))
      ≡ take n q
read_bytes {room} {r} {q} n h =
    rw (h.held_bytes, take-min n r.m_bytes_written q (length-held h))
      (taken n r.m_bytes_written q (replicate n 0) (length-held h) (length-replicate {A = ℕ} n 0))

call-Refines :
    (junk : ℕ → ℕ) (room : ℕ) (r : RingBuffer) (q : List ℕ) (c : Call)
    → Holds room r q
    → room ≤ 2 ^ 30
    → NoLook (c ∷ [])
    → length q + pushed_by c ≤ room
    → Refines junk room r q c
unfolding call Queue.step pop_front_into size
call-Refines junk room r q (push bs) h small nl fits =
    let out =
      push_back-Pushed junk h.block r bs (length bs) h.is_live h.valid (omega arith)
        (omega (arith, length-held h, h.capacity)) in
    record {
      after = out.ring;
      runs = rw out.runs;
      holds = record {
        block = out.block;
        is_live = out.is_live;
        valid = out.valid;
        capacity = out.same_size ∙ h.capacity;
        held_bytes = out.holds ∙ ap₂ ◌++◌ h.held_bytes (take_all (length bs) bs (omega arith));
      };
    }
call-Refines junk room r q (pop n) h small nl fits =
    let out =
      inner_pop_front_lem h.block r (replicate n 0) n h.is_live h.valid
        (omega (arith, length-replicate {A = ℕ} n 0)) in
    record {
      after = moved r out.offs (min n r.m_bytes_written);
      runs =
          rw out.runs
            (ap (λ t. some (bytes t, moved r out.offs (min n r.m_bytes_written))) (read_bytes n h));
      holds = moved-Holds n out.offs h out.next;
    }
call-Refines junk room r q (skip n) h small nl fits =
    let (s, next, e) =
      pop_front_lem h.block r n h.is_live h.valid
        (omega (arith, h.valid.read_in, h.valid.held, h.capacity)) in
    record {
      after = moved r s (min n r.m_bytes_written);
      runs = rw (e, length-held h);
      holds = moved-Holds n s h next;
    }
call-Refines junk room r q (look n) h small nl fits = absurd nl
call-Refines junk room r q count h small nl fits = record {
  after = r;
  runs = rw (length-held h, size);
  holds = h;
}

-- No sequence of calls without `peek` tells a valid ring from the queue of its bytes, and none is
-- undefined, as long as the bytes that are held and all that are pushed fit its storage, and that
-- is 2^30 bytes at most.
pub ring_run_refines :
    (junk : ℕ → ℕ) (room : ℕ) (r : RingBuffer) (q : List ℕ) (cs : List Call)
    → Holds room r q
    → room ≤ 2 ^ 30
    → NoLook cs
    → length q + pushed cs ≤ room
    → run junk r cs ≡ some (Queue.run q cs)
unfolding run Queue.run
ring_run_refines junk room r q [] h small nl fits = refl
ring_run_refines junk room r q (c ∷ cs) h small nl fits =
    let (one, more) = split-NoLook c cs nl in
    let s = call-Refines junk room r q c h small one (omega arith) in
    rw (
      s.runs,
      ring_run_refines junk room s.after (Queue.step q c).1 cs s.holds small more
          (omega (arith, length-step q c)),
    )

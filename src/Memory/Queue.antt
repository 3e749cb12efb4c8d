-- ===== src/Memory/Queue.antt =====
-- What a client may expect of `fifo_buffer` and `ring_buffer`: a queue of bytes, with the calls
-- that the two classes share, in order.
use networkio.Base.{
  length-take, ◌≡◌, sym, ◌∙◌, ap, take_append, length-drop, length-append, arith, ◌≤◌, ℕ, ◌+◌, List,
  [], ◌∷◌, ◌++◌, leb, if◌then◌else◌, length, take, drop, min,
}

-- `look` is a `peek` that the client makes only after it has tested `size`.
pub data Call : Type 0 where
  push : List ℕ → Call
  pop : ℕ → Call
  skip : ℕ → Call
  look : ℕ → Call
  count : Call

pub data Reply : Type 0 where
  done : Reply
  number : ℕ → Reply
  bytes : List ℕ → Reply

unfoldable pub step : List ℕ → Call → Reply × List ℕ
step q (push bs) = (done, q ++ bs)
step q (pop n) = (bytes (take n q), drop n q)
step q (skip n) = (number (min n (length q)), drop n q)
step q (look n) = (if leb n (length q) then bytes (take n q) else done, q)
step q count = (number (length q), q)

unfoldable pub run : List ℕ → List Call → List Reply
run q [] = []
run q (c ∷ cs) = let (r, q') = step q c in r ∷ run q' cs

abbrev pub pushed_by : Call → ℕ
pushed_by (push bs) = length bs
pushed_by (pop n) = 0
pushed_by (skip n) = 0
pushed_by (look n) = 0
pushed_by count = 0

-- How many bytes the calls push.
abbrev pub pushed : List Call → ℕ
pushed [] = 0
pushed (c ∷ cs) = pushed_by c + pushed cs

-- A call lengthens the queue by what it pushes at most.
pub length-step : (q : List ℕ) (c : Call) → length (step q c).1 ≤ length q + pushed_by c
unfolding step
length-step q (push bs) = omega (arith, length-append q bs)
length-step q (pop n) = omega (arith, length-drop n q)
length-step q (skip n) = omega (arith, length-drop n q)
length-step q (look n) = omega arith
length-step q count = omega arith

-- What a client keeps of the block that a read has filled.
pub taken :
    (n m : ℕ) (q dst : List ℕ)
    → length q ≡ m
    → length dst ≡ n
    → take (min n m) (take n q ++ drop (min n m) dst) ≡ take n q
taken n m q dst e k =
    let l : length (take n q) ≡ min n m = omega (arith, length-take n q) in
    ap (λ j. take j (take n q ++ drop (min n m) dst)) (sym l)
    ∙ take_append (take n q) (drop (min n m) dst)

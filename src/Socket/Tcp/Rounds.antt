-- ===== src/Socket/Tcp/Rounds.antt =====
-- The loops of `read_raw` and `write_raw` of library/src/socket/tcp.cpp: how they end, whatever the
-- operating system answers.
use networkio.Base.{
  ℕ, zero, suc, ◌+◌, ◌-◌, ◌≤◌, ◌<◌, ◌≡◌, refl, ◌∙◌, sym, List, ◌++◌, Option, some, inl, inr,
  eq_cases, length, drop, arith, length-drop,
}
use networkio.Socket.{Socket, Client}
use networkio.Socket.System.{Os}
use networkio.Socket.Tcp.{
  Round, partial, failed, moved, read_round, write_round, read_loop, write_loop, read_on, write_on,
}

module _ {W : Type 0} (os : Os W) where
  pub read_loop_end :
      (rounds : ℕ) (c : Client) (w : W) (left : ℕ) (got : List ℕ)
      → left ≡ 0
      → read_loop os rounds c w left got ≡ (some got, c, w)
  unfolding read_loop
  read_loop_end zero c w left got e = refl
  read_loop_end (suc rounds) c w left got e = ground arith

  pub read_loop_on :
      (rounds : ℕ) (c : Client) (w : W) (left : ℕ) (got : List ℕ)
      → 0 < left
      → read_loop os (suc rounds) c w left got
        ≡ read_on (read_loop os rounds) c left got (read_round os c.base w left)
  unfolding read_loop
  read_loop_on rounds c w left got h = ground arith

  pub write_loop_end :
      (rounds : ℕ) (c : Client) (w : W) (buf : List ℕ) (sent : ℕ)
      → length buf ≡ 0
      → write_loop os rounds c w buf sent ≡ (some sent, c, w)
  unfolding write_loop
  write_loop_end zero c w buf sent e = refl
  write_loop_end (suc rounds) c w buf sent e = ground arith

  pub write_loop_on :
      (rounds : ℕ) (c : Client) (w : W) (buf : List ℕ) (sent : ℕ)
      → 0 < length buf
      → write_loop os (suc rounds) c w buf sent
        ≡ write_on (write_loop os rounds) c buf sent (write_round os c.base w buf)
  unfolding write_loop
  write_loop_on rounds c w buf sent h = ground arith

  -- A round that moves anything moves a byte at least.
  abbrev pub Moves : Round (List ℕ) W → Type 0
  Moves (partial w) = Unit {0}
  Moves (failed w) = Unit {0}
  Moves (moved bs w) = 0 < length bs

  abbrev pub Counts : Round ℕ W → Type 0
  Counts (partial w) = Unit {0}
  Counts (failed w) = Unit {0}
  Counts (moved n w) = 0 < n

  pub read_round-Moves : (s : Socket) (w : W) (left : ℕ) → Moves (read_round os s w left)
  unfolding read_round
  read_round-Moves s w left = ground arith

  pub write_round-Counts : (s : Socket) (w : W) (buf : List ℕ) → Counts (write_round os s w buf)
  unfolding write_round
  write_round-Counts s w buf = ground arith

  read_on_agree :
      (f g : Client → W → ℕ → List ℕ → Option (List ℕ) × Client × W) (c : Client) (left : ℕ)
      (got : List ℕ) (r : Round (List ℕ) W)
      → Moves r
      → ((bs : List ℕ) (w : W)
          → 0 < length bs
          → f c w (left - length bs) (got ++ bs) ≡ g c w (left - length bs) (got ++ bs))
      → read_on f c left got r ≡ read_on g c left got r
  read_on_agree f g c left got (partial w) m h = refl
  read_on_agree f g c left got (failed w) m h = refl
  read_on_agree f g c left got (moved bs w) m h = h bs w m

  write_on_agree :
      (f g : Client → W → List ℕ → ℕ → Option ℕ × Client × W) (c : Client) (buf : List ℕ) (sent : ℕ)
      (r : Round ℕ W)
      → Counts r
      → ((n : ℕ) (w : W) → 0 < n → f c w (drop n buf) (sent + n) ≡ g c w (drop n buf) (sent + n))
      → write_on f c buf sent r ≡ write_on g c buf sent r
  write_on_agree f g c buf sent (partial w) m h = refl
  write_on_agree f g c buf sent (failed w) m h = refl
  write_on_agree f g c buf sent (moved n w) m h = h n w m

  -- With a round for each byte that is wanted, the loop of `read_raw` ends by itself: it gives the
  -- same with any number of rounds from there on, whatever the operating system answers.
  pub read_loop_enough :
      (a b : ℕ) (c : Client) (w : W) (left : ℕ) (got : List ℕ)
      → left ≤ a
      → left ≤ b
      → read_loop os a c w left got ≡ read_loop os b c w left got
  read_loop_enough zero b c w left got h k =
      read_loop_end zero c w left got (omega arith)
      ∙ sym (read_loop_end b c w left got (omega arith))
  read_loop_enough (suc a) zero c w left got h k =
      read_loop_end (suc a) c w left got (omega arith)
      ∙ sym (read_loop_end zero c w left got (omega arith))
  read_loop_enough (suc a) (suc b) c w left got h k = elim (eq_cases left 0) [
    | inl (_, e) ↦ read_loop_end (suc a) c w left got e ∙ sym (read_loop_end (suc b) c w left got e)
    | inr (_, ne) ↦
        read_loop_on a c w left got (omega arith)
        ∙ read_on_agree (read_loop os a) (read_loop os b) c left got (read_round os c.base w left)
            (read_round-Moves c.base w left)
            (λ bs w' m.
              read_loop_enough a b c w' (left - length bs) (got ++ bs) (omega arith) (omega arith))
        ∙ sym (read_loop_on b c w left got (omega arith))
  ]

  -- With a round for each byte that is to be written, the loop of `write_raw` ends by itself: it
  -- gives the same with any number of rounds from there on, whatever the operating system answers.
  pub write_loop_enough :
      (a b : ℕ) (c : Client) (w : W) (buf : List ℕ) (sent : ℕ)
      → length buf ≤ a
      → length buf ≤ b
      → write_loop os a c w buf sent ≡ write_loop os b c w buf sent
  write_loop_enough zero b c w buf sent h k =
      write_loop_end zero c w buf sent (omega arith)
      ∙ sym (write_loop_end b c w buf sent (omega arith))
  write_loop_enough (suc a) zero c w buf sent h k =
      write_loop_end (suc a) c w buf sent (omega arith)
      ∙ sym (write_loop_end zero c w buf sent (omega arith))
  write_loop_enough (suc a) (suc b) c w buf sent h k = elim (eq_cases (length buf) 0) [
    | inl (_, e) ↦
        write_loop_end (suc a) c w buf sent e ∙ sym (write_loop_end (suc b) c w buf sent e)
    | inr (_, ne) ↦
        write_loop_on a c w buf sent (omega arith)
        ∙ write_on_agree (write_loop os a) (write_loop os b) c buf sent
            (write_round os c.base w buf) (write_round-Counts c.base w buf)
            (λ n w' m.
              write_loop_enough a b c w' (drop n buf) (sent + n) (omega (arith, length-drop n buf))
                (omega (arith, length-drop n buf)))
        ∙ sym (write_loop_on b c w buf sent (omega arith))
  ]

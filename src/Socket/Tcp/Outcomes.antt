-- ===== src/Socket/Tcp/Outcomes.antt =====
-- What `read_raw` and `write_raw` of library/src/socket/tcp.cpp leave of a client, whatever the
-- operating system answers.
use networkio.Base.{
  if_not_eq, if_eq, subst, ℕ, zero, suc, ◌+◌, ◌-◌, ◌≡◌, refl, sym, true, false, List, [], ◌++◌,
  Option, none, some, ◌==◌, length, drop,
}
use networkio.Socket.{Client}
use networkio.Socket.System.{Os}
use networkio.Socket.Tcp.{
  Round, partial, failed, moved, read_round, write_round, read_loop, write_loop, read_raw,
  write_raw, read_on, write_on, is_connected,
}

module _ {W : Type 0} (os : Os W) where
  -- What is left of a client by an operation: it failed and gave the connection up, or it gave a
  -- result and changed nothing.
  abbrev pub Settles : {A : Type 0} → Client → Option A × Client × W → Type 0
  Settles c (none, c', w') = (c'.base ≡ c.base) × (c'.m_connected ≡ false)
  Settles c (some a, c', w') = c' ≡ c

  read_on-Settles :
      (f : Client → W → ℕ → List ℕ → Option (List ℕ) × Client × W) (c : Client) (left : ℕ)
      (got : List ℕ) (r : Round (List ℕ) W)
      → ((bs : List ℕ) (w : W) → Settles c (f c w (left - length bs) (got ++ bs)))
      → Settles c (read_on f c left got r)
  read_on-Settles f c left got (partial w) h = refl
  read_on-Settles f c left got (failed w) h = (refl, refl)
  read_on-Settles f c left got (moved bs w) h = h bs w

  write_on-Settles :
      (f : Client → W → List ℕ → ℕ → Option ℕ × Client × W) (c : Client) (buf : List ℕ) (sent : ℕ)
      (r : Round ℕ W)
      → ((n : ℕ) (w : W) → Settles c (f c w (drop n buf) (sent + n)))
      → Settles c (write_on f c buf sent r)
  write_on-Settles f c buf sent (partial w) h = refl
  write_on-Settles f c buf sent (failed w) h = (refl, refl)
  write_on-Settles f c buf sent (moved n w) h = h n w

  read_loop-Settles :
      (rounds : ℕ) (c : Client) (w : W) (left : ℕ) (got : List ℕ)
      → Settles c (read_loop os rounds c w left got)
  unfolding read_loop
  read_loop-Settles zero c w left got = refl
  read_loop-Settles (suc rounds) c w left got =
      elim (left == 0)
        as (λ b. Settles {A = List ℕ} c (elim b [
          | true ↦ (some got, c, w)
          | false ↦ read_on (read_loop os rounds) c left got (read_round os c.base w left)
        ])) [
          | true ↦ refl
          | false ↦
              read_on-Settles (read_loop os rounds) c left got (read_round os c.base w left)
                (λ bs w'. read_loop-Settles rounds c w' (left - length bs) (got ++ bs))
        ]

  write_loop-Settles :
      (rounds : ℕ) (c : Client) (w : W) (buf : List ℕ) (sent : ℕ)
      → Settles c (write_loop os rounds c w buf sent)
  unfolding write_loop
  write_loop-Settles zero c w buf sent = refl
  write_loop-Settles (suc rounds) c w buf sent =
      elim (length buf == 0)
        as (λ b. Settles {A = ℕ} c (elim b [
          | true ↦ (some sent, c, w)
          | false ↦ write_on (write_loop os rounds) c buf sent (write_round os c.base w buf)
        ])) [
          | true ↦ refl
          | false ↦
              write_on-Settles (write_loop os rounds) c buf sent (write_round os c.base w buf)
                (λ n w'. write_loop-Settles rounds c w' (drop n buf) (sent + n))
        ]

  -- `read_raw` and `write_raw` of a connected client give a count and leave the client as it was,
  -- or give -1 and leave it disconnected with its descriptor open, whatever the operating system
  -- answers. Of a client that is not connected both give -1, and no call of the system is made.
  pub raw-Settles :
      (c : Client) (w : W) (len : ℕ) (buf : List ℕ)
      → (is_connected c ≡ true → Settles c (read_raw os c w len) × Settles c (write_raw os c w buf))
        × (is_connected c ≡ false
            → (read_raw os c w len ≡ (none, c, w)) × (write_raw os c w buf ≡ (none, c, w)))
  unfolding read_raw write_raw
  raw-Settles c w len buf = (
    λ e. (
      subst (Settles c) (sym (if_eq _ e refl)) (read_loop-Settles len c w len []),
      subst (Settles c) (sym (if_eq _ e refl)) (write_loop-Settles (length buf) c w buf 0),
    ),
    λ e. (if_not_eq _ e refl, if_not_eq _ e refl),
  )

-- ===== src/Socket/Tcp/Sink.antt =====
-- `write_raw` of library/src/socket/tcp.cpp as a sink of the packet protocol, over a system that keeps
-- its promises.
use networkio.Base.{
  take_twice, ℕ, zero, suc, ◌+◌, ◌≤◌, ◌<◌, ◌≡◌, refl, ap, ◌∙◌, sym, subst, Bool, List, ◌++◌, some,
  ◌⊎◌, inl, inr, eq_cases, length, take, drop, arith, if_eq, length-drop, append_assoc, append-nil,
  Bool-cases,
}
use networkio.Interfaces.{SinkLaws}
use networkio.Socket.{Client, flags}
use networkio.Socket.System.{Os}
use networkio.Socket.Tcp.{partial, moved, write_round, write_loop, write_raw, write_on, ops}
use networkio.Socket.Tcp.Rounds.{write_loop_end, write_loop_on}
use networkio.Socket.Tcp.Promises.{
  Sends, IsOn, IsOn-connected, write_round_quiet, write_round-moved, write_round-again,
}

-- Two cuts, one behind the other.

module _ {W : Type 0} (os : Os W) (fd : ℕ) (b : Bool) (Taken : W → List ℕ → Type 0)
    (r : Sends os fd b Taken) where
  abbrev Writes : Client → W → List ℕ → List ℕ → Type 0
  Writes c w buf t =
      ((w' : W) × (write_round os c.base w buf ≡ partial w') × Taken w' t)
      ⊎ ((n : ℕ) × (w' : W) × (write_round os c.base w buf ≡ moved n w')
          × (0 < n)
          × (n ≤ length buf)
          × Taken w' (t ++ take n buf))

  write_round-Writes :
      (c : Client) (w : W) (buf t : List ℕ)
      → IsOn fd b c
      → 0 < length buf
      → Taken w t
      → Writes c w buf t
  write_round-Writes c w buf t (on, mode, up) h k =
      let (ready, w₁, sel, k₁) = r.selects w t k in
      elim (Bool-cases ready) [
        | inr e ↦
            inl
              (w₁, write_round_quiet os fd c.base w w₁ buf on (sel ∙ ap (λ b. (some b, w₁)) e), k₁)
        | inl e ↦
            let sel' = sel ∙ ap (λ b. (some b, w₁)) e in
            elim (r.sends w₁ t buf (flags c.base) k₁ h) [
              | inl (n, w₂, sd, pos_n, le, k₂) ↦ inr (
                n,
                w₂,
                write_round-moved os fd c.base w w₁ w₂ buf n on sel' sd pos_n,
                pos_n,
                le,
                k₂,
              )
              | inr (w₂, sd, er, nb, k₂) ↦
                  inl (w₂, write_round-again os fd c.base w w₁ w₂ buf on (mode ∙ nb) sel' sd er, k₂)
            ]
      ]

  write_loop_lem :
      (rounds : ℕ) (c : Client) (w : W) (buf : List ℕ) (sent : ℕ) (t : List ℕ)
      → IsOn fd b c
      → length buf ≤ rounds
      → Taken w t
      → (n : ℕ) × (w' : W) × (write_loop os rounds c w buf sent ≡ (some (sent + n), c, w'))
        × (n ≤ length buf)
        × Taken w' (t ++ take n buf)
  write_loop_lem zero c w buf sent t on h k = (
    0,
    w,
    write_loop_end os zero c w buf sent (omega arith) ∙ ap (λ i. (some i, c, w)) (omega arith),
    omega arith,
    subst (Taken w) (sym (append-nil t)) k,
  )
  write_loop_lem (suc rounds) c w buf sent t on h k = elim (eq_cases (length buf) 0) [
    | inl (_, z) ↦ (
      0,
      w,
      write_loop_end os (suc rounds) c w buf sent z ∙ ap (λ i. (some i, c, w)) (omega arith),
      omega arith,
      subst (Taken w) (sym (append-nil t)) k,
    )
    | inr (_, nz) ↦ elim (write_round-Writes c w buf t on (omega arith) k) [
      | inl (w', e, k') ↦ (
        0,
        w',
        write_loop_on os rounds c w buf sent (omega arith)
            ∙ ap (write_on (write_loop os rounds) c buf sent) e
            ∙ ap (λ i. (some i, c, w')) (omega arith),
        omega arith,
        subst (Taken w') (sym (append-nil t)) k',
      )
      | inr (n, w', e, pos_n, le, k') ↦
          let (m, w'', e', le', k'') =
            write_loop_lem rounds c w' (drop n buf) (sent + n) (t ++ take n buf) on
              (omega (arith, length-drop n buf)) k' in
          (
            n + m,
            w'',
            write_loop_on os rounds c w buf sent (omega arith)
                ∙ ap (write_on (write_loop os rounds) c buf sent) e
                ∙ e'
                ∙ ap (λ i. (some i, c, w'')) (omega arith),
            omega (arith, length-drop n buf),
            subst (Taken w'')
                (append_assoc t (take n buf) (take m (drop n buf))
                  ∙ ap (◌++◌ t) (take_twice n m (n + m) buf refl))
                k'',
          )
    ]
  ]

  -- `write_raw` of a connected client gives a count of at most the bytes it is given, and the
  -- system has taken just that many of them, from the front on and in order, behind what it had
  -- taken; the client is unchanged.
  pub write_raw_takes :
      (c : Client) (w : W) (buf t : List ℕ)
      → IsOn fd b c
      → Taken w t
      → (n : ℕ) × (w' : W) × (write_raw os c w buf ≡ (some n, c, w'))
        × (n ≤ length buf)
        × Taken w' (t ++ take n buf)
  unfolding write_raw
  write_raw_takes c w buf t on k =
      let (n, w', e, le, k') = write_loop_lem (length buf) c w buf 0 t on (omega arith) k in
      (
        n,
        w',
        if_eq _ (IsOn-connected os fd b c on) (e ∙ ap (λ i. (some i, c, w')) (omega arith)),
        le,
        k',
      )

  -- A connected TCP client with the descriptor `fd` is a sink for the packet protocol.
  pub tcp-SinkLaws : SinkLaws (ops os) (λ (c, w) t. IsOn fd b c × Taken w t)
  unfolding ops
  tcp-SinkLaws = record {
    connected = λ (c, w) t (on, k). IsOn-connected os fd b c on;
    stream = λ s t h. refl;
    writes = λ (c, w) t bs h (on, k).
        let (n, w', e, le, k') = write_raw_takes c w bs t on k in
        record {
          count = n;
          after = (c, w');
          took = ap (λ (r, c', w'). (r, (c', w'))) e;
          fits = le;
          takes = (on, k');
        };
  }

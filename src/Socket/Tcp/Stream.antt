-- ===== src/Socket/Tcp/Stream.antt =====
-- `read_raw` of library/src/socket/tcp.cpp as a stream of the packet protocol, over a system that keeps
-- its promises.
use networkio.Base.{
  take_twice, ℕ, zero, suc, ◌+◌, ◌-◌, ◌≤◌, ◌<◌, ◌≡◌, refl, ap, ◌∙◌, sym, subst, Bool, List, [],
  ◌++◌, some, ◌⊎◌, inl, inr, eq_cases, length, take, drop, arith, if_eq, length-drop, length-take,
  append_assoc, append-nil, take-append-drop, drop-drop, ltb_cases, length-zero,
}
use networkio.Interfaces.{StreamLaws}
use networkio.Socket.{Client, flags}
use networkio.Socket.System.{Os}
use networkio.Socket.Tcp.{partial, moved, read_round, read_loop, read_raw, read_on, ops}
use networkio.Socket.Tcp.Rounds.{read_loop_end, read_loop_on}
use networkio.Socket.Tcp.Promises.{
  Receives, IsOn, IsOn-connected, read_round_quiet, read_round-moved,
}

module _ {W : Type 0} (os : Os W) (fd : ℕ) (Carries : W → List ℕ → Type 0)
    (r : Receives os fd Carries) where
  abbrev Reads : Client → W → ℕ → List ℕ → Type 0
  Reads c w left q =
      ((w' : W) × (read_round os c.base w left ≡ partial w') × (length q ≤ 0) × Carries w' q)
      ⊎ ((n : ℕ) × (w' : W) × (read_round os c.base w left ≡ moved (take n q) w')
          × (0 < n)
          × (n ≤ left)
          × (n ≤ length q)
          × Carries w' (drop n q))

  read_round-Reads :
      (b : Bool) (c : Client) (w : W) (left : ℕ) (q : List ℕ)
      → IsOn fd b c
      → 0 < left
      → Carries w q
      → Reads c w left q
  read_round-Reads b c w left q (on, mode, up) h k =
      let (w₁, sel, k₁) = r.selects w q k in
      elim (ltb_cases 0 (length q)) [
        | inr (e, empty) ↦ inl (
          w₁,
          read_round_quiet os fd c.base w w₁ left on (sel ∙ ap (λ b. (some b, w₁)) e),
          empty,
          k₁,
        )
        | inl (e, some_left) ↦
            let (n, w₂, rc, pos_n, le, lq, k₂) =
              r.receives w₁ q left (flags c.base) k₁ h some_left in
            inr (
              n,
              w₂,
              read_round-moved os fd c.base w w₁ w₂ left (take n q) on
                  (sel ∙ ap (λ b. (some b, w₁)) e) rc (omega (arith, length-take n q)),
              pos_n,
              le,
              lq,
              k₂,
            )
      ]

  read_loop_lem :
      (b : Bool) (rounds : ℕ) (c : Client) (w : W) (left : ℕ) (got q : List ℕ)
      → IsOn fd b c
      → left ≤ rounds
      → Carries w q
      → (w' : W) × (read_loop os rounds c w left got ≡ (some (got ++ take left q), c, w'))
        × Carries w' (drop left q)
  read_loop_lem b zero c w left got q on h k =
      let z : left ≡ 0 = omega arith in
      (
        w,
        read_loop_end os zero c w left got z
            ∙ ap (λ t. (some t, c, w)) (sym (append-nil got) ∙ ap (λ i. got ++ take i q) (sym z)),
        subst (λ i. Carries w (drop i q)) (sym z) k,
      )
  read_loop_lem b (suc rounds) c w left got q on h k = elim (eq_cases left 0) [
    | inl (_, z) ↦ (
      w,
      read_loop_end os (suc rounds) c w left got z
          ∙ ap (λ t. (some t, c, w)) (sym (append-nil got) ∙ ap (λ i. got ++ take i q) (sym z)),
      subst (λ i. Carries w (drop i q)) (sym z) k,
    )
    | inr (_, nz) ↦ elim (read_round-Reads b c w left q on (omega arith) k) [
      | inl (w', e, empty, k') ↦
          let none_left : q ≡ [] = length-zero q empty in
          let nothing : take left q ≡ [] =
            length-zero (take left q) (omega (arith, length-take left q)) in
          let rest : drop left q ≡ q =
            length-zero (drop left q) (omega (arith, length-drop left q)) ∙ sym none_left in
          (
            w',
            read_loop_on os rounds c w left got (omega arith)
                ∙ ap (read_on (read_loop os rounds) c left got) e
                ∙ ap (λ t. (some t, c, w')) (sym (append-nil got) ∙ ap (◌++◌ got) (sym nothing)),
            subst (Carries w') (sym rest) k',
          )
      | inr (n, w', e, pos_n, le, lq, k') ↦
          let m = left - length (take n q) in
          let l : n + m ≡ left = omega (arith, length-take n q) in
          let (w'', e', k'') =
            read_loop_lem b rounds c w' m (got ++ take n q) (drop n q) on (omega arith) k' in
          (
            w'',
            read_loop_on os rounds c w left got (omega arith)
                ∙ ap (read_on (read_loop os rounds) c left got) e
                ∙ e'
                ∙ ap (λ t. (some t, c, w''))
                    (append_assoc got (take n q) (take m (drop n q))
                      ∙ ap (◌++◌ got) (take_twice n m left q l)),
            subst (Carries w'') (drop-drop m n q ∙ ap (λ i. drop i q) l) k'',
          )
    ]
  ]

  -- `read_raw` of a connected client gives the bytes that have arrived, from the front on, as many
  -- as are asked for or all of them, and leaves the rest to come; the client is unchanged.
  pub read_raw_takes :
      (b : Bool) (c : Client) (w : W) (len : ℕ) (q : List ℕ)
      → IsOn fd b c
      → Carries w q
      → (w' : W) × (read_raw os c w len ≡ (some (take len q), c, w')) × Carries w' (drop len q)
  unfolding read_raw
  read_raw_takes b c w len q on k =
      let (w', e, k') = read_loop_lem b len c w len [] q on (omega arith) k in
      (w', if_eq _ (IsOn-connected os fd b c on) e, k')

  -- A connected TCP client with the descriptor `fd` is a stream for the packet protocol.
  pub tcp-StreamLaws :
      (b : Bool) (len : ℕ)
      → 0 < len
      → StreamLaws (ops os) (λ (c, w) q. IsOn fd b c × Carries w q) len
  unfolding ops
  tcp-StreamLaws b len h = record {
    connected = λ (c, w) q (on, k). IsOn-connected os fd b c on;
    stream = λ s q x. refl;
    reads = λ (c, w) q (on, k).
        let (w', e, k') = read_raw_takes b c w len q on k in
        record {
          chunk = take len q;
          rest = drop len q;
          after = (c, w');
          got = ap (λ (r, c', w'). (r, (c', w'))) e;
          split = sym (take-append-drop len q);
          progress = λ some_left. omega (arith, length-take len q);
          carries = (on, k');
        };
  }

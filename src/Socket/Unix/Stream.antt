-- ===== src/Socket/Unix/Stream.antt =====
-- The Unix domain client of library/src/socket/unix.cpp as a stream of the packet protocol, over a
-- system that keeps its promises.
use networkio.Base.{
  ℕ, ◌<◌, refl, ap, ◌∙◌, sym, subst, Bool, List, [], some, inl, inr, length, take, drop, arith,
  length-take, take-append-drop, append-nil, Bool-cases, ltb_cases,
}
use networkio.Interfaces.{StreamRead, StreamLaws, StreamWrite, SinkLaws}
use networkio.Socket.{Client, flags}
use networkio.Socket.System.{Os}
use networkio.Socket.Tcp.Promises.{Receives, Sends, IsOn}
use networkio.Socket.Unix.{is_connected, ops}
use networkio.Socket.Unix.Laws.{
  read_raw_eq, read_raw_quiet, write_raw_eq, write_raw_again, write_raw_quiet,
}

-- A result, and the state together.
abbrev paired : {A W : Type 0} → A × Client × W → A × (Client × W)
paired (r, c, w) = (r, (c, w))

module _ {W : Type 0} (os : Os W) (fd : ℕ) (b : Bool) (Carries : W → List ℕ → Type 0)
    (r : Receives os fd Carries) where
  unix_read :
      (c : Client) (w : W) (len : ℕ) (q : List ℕ)
      → 0 < len
      → IsOn fd b c
      → Carries w q
      → StreamRead (ops os) (λ (c, w) q. IsOn fd b c × Carries w q) (c, w) len q
  unfolding ops
  unix_read c w len q h on k =
      let (w₁, sel, k₁) = r.selects w q k in
      elim (ltb_cases 0 (length q)) [
        | inr (e, empty) ↦ record {
          chunk = [];
          rest = q;
          after = (c, w₁);
          got = ap paired (read_raw_quiet os fd b c w w₁ len on (sel ∙ ap (λ b. (some b, w₁)) e));
          split = refl;
          progress = λ some_left. absurd (omega arith);
          carries = (on, k₁);
        }
        | inl (e, some_left) ↦
            let (n, w₂, rc, pos_n, le, lq, k₂) =
              r.receives w₁ q len (flags c.base) k₁ h some_left in
            record {
              chunk = take n q;
              rest = drop n q;
              after = (c, w₂);
              got = ap paired (
                  read_raw_eq os fd b c w w₁ w₂ len (take n q) on (sel ∙ ap (λ b. (some b, w₁)) e)
                    rc (omega (arith, length-take n q)));
              split = sym (take-append-drop n q);
              progress = λ x. omega (arith, length-take n q);
              carries = (on, k₂);
            }
      ]

  -- A connected Unix domain client with the descriptor `fd` is a stream for the packet protocol.
  pub unix-StreamLaws :
      (len : ℕ) → 0 < len → StreamLaws (ops os) (λ (c, w) q. IsOn fd b c × Carries w q) len
  unfolding ops is_connected
  unix-StreamLaws len h = record {
    connected = λ (c, w) q ((_, _, up), k). up;
    stream = λ s q x. refl;
    reads = λ (c, w) q (on, k). unix_read c w len q h on k;
  }

module _ {W : Type 0} (os : Os W) (fd : ℕ) (b : Bool) (Taken : W → List ℕ → Type 0)
    (r : Sends os fd b Taken) where
  abbrev Sunk : Client × W → List ℕ → Type 0
  Sunk (c, w) t = IsOn fd b c × Taken w t

  unix_write :
      (c : Client) (w : W) (t bs : List ℕ)
      → 0 < length bs
      → IsOn fd b c
      → Taken w t
      → StreamWrite (ops os) Sunk (c, w) t bs
  unfolding ops
  unix_write c w t bs h on k =
      let (on_fd, mode, up) = on in
      let (ready, w₁, sel, k₁) = r.selects w t k in
      elim (Bool-cases ready) [
        | inr e ↦ record {
          count = 0;
          after = (c, w₁);
          took = ap paired (write_raw_quiet os fd b c w w₁ bs on (sel ∙ ap (λ b. (some b, w₁)) e));
          fits = omega arith;
          takes = (on, subst (Taken w₁) (sym (append-nil t)) k₁);
        }
        | inl e ↦
            let sel' = sel ∙ ap (λ b. (some b, w₁)) e in
            elim (r.sends w₁ t bs (flags c.base) k₁ h) [
              | inl (n, w₂, sd, pos_n, le, k₂) ↦ record {
                count = n;
                after = (c, w₂);
                took = ap paired (write_raw_eq os fd b c w w₁ w₂ bs n on sel' sd pos_n);
                fits = le;
                takes = (on, k₂);
              }
              | inr (w₂, sd, er, nb, k₂) ↦ record {
                count = 0;
                after = (c, w₂);
                took =
                    ap paired
                      (write_raw_again os fd b c w w₁ w₂ bs (on_fd, mode ∙ nb, up) sel' sd er);
                fits = omega arith;
                takes = (on, subst (Taken w₂) (sym (append-nil t)) k₂);
              }
            ]
      ]

  -- A connected Unix domain client with the descriptor `fd` is a sink for the packet protocol.
  pub unix-SinkLaws : SinkLaws (ops os) Sunk
  unfolding ops is_connected
  unix-SinkLaws = record {
    connected = λ (c, w) t ((_, _, up), k). up;
    stream = λ s t h. refl;
    writes = λ (c, w) t bs h (on, k). unix_write c w t bs h on k;
  }

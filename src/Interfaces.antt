-- ===== src/Interfaces.antt =====
-- library/inc/networkio/interfaces/client.h: what `packet_proto` asks of a connection. The classes of
-- library/src/socket and library/src/tls implement it over sockets.
use networkio.Base.{◌≤◌, take, ℕ, ◌<◌, ◌≡◌, Bool, true, List, ◌++◌, Option, some, length}

-- `S` is the state of the connection and of the peer behind it. A negative count is `none`.
pub record ClientOps (S : Type 0) : Type 0 where
  pub is_connected : S → Bool
  pub is_stream : S → Bool
  -- `read_raw(buf, len)`: the bytes received
  pub read_raw : S → ℕ → Option (List ℕ) × S
  -- `write_raw(buf, len)` of the bytes given: how many were taken
  pub write_raw : S → List ℕ → Option ℕ × S
  pub close : S → S

-- One `read_raw` of `len` bytes at most of a stream that carries the bytes `q`: it gives some of
-- them, from the front on, and one at least while there are any.
pub record StreamRead {S : Type 0} (ops : ClientOps S) (Carries : S → List ℕ → Type 0) (s : S)
    (len : ℕ) (q : List ℕ) : Type 0 where
  pub chunk : List ℕ
  pub rest : List ℕ
  pub after : S
  pub got : ops.read_raw s len ≡ (some chunk, after)
  pub split : q ≡ chunk ++ rest
  pub progress : 0 < length q → 0 < length chunk
  pub carries : Carries after rest

-- What a stream socket promises: it stays connected, and delivers its bytes in order.
pub record StreamLaws {S : Type 0} (ops : ClientOps S) (Carries : S → List ℕ → Type 0) (len : ℕ)
    : Type 0 where
  pub connected : (s : S) (q : List ℕ) → Carries s q → ops.is_connected s ≡ true
  pub stream : (s : S) (q : List ℕ) → Carries s q → ops.is_stream s ≡ true
  pub reads : (s : S) (q : List ℕ) → Carries s q → StreamRead ops Carries s len q

-- One `write_raw` of the bytes `bs` to a stream that has taken `taken`: it takes some, from the
-- front on.
pub record StreamWrite {S : Type 0} (ops : ClientOps S) (Taken : S → List ℕ → Type 0) (s : S)
    (taken bs : List ℕ) : Type 0 where
  pub count : ℕ
  pub after : S
  pub took : ops.write_raw s bs ≡ (some count, after)
  pub fits : count ≤ length bs
  pub takes : Taken after (taken ++ take count bs)

-- What a stream socket that is written to promises, while it stays connected, of a `write_raw` of
-- any bytes at all.
pub record SinkLaws {S : Type 0} (ops : ClientOps S) (Taken : S → List ℕ → Type 0) : Type 0 where
  pub connected : (s : S) (taken : List ℕ) → Taken s taken → ops.is_connected s ≡ true
  pub stream : (s : S) (taken : List ℕ) → Taken s taken → ops.is_stream s ≡ true
  pub writes :
      (s : S) (taken bs : List ℕ) → 0 < length bs → Taken s taken → StreamWrite ops Taken s taken bs

-- library/inc/networkio/interfaces/server.h: what `concurrent_server` asks of a listening socket,
-- whose state is `V`.
pub record ServerOps (V : Type 0) : Type 0 where
  pub bind : V → ℕ → Bool × V
  pub set_blocking : V → Bool → V
  pub set_nopipe : V → Bool → V
  pub close : V → V

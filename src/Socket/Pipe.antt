-- ===== src/Socket/Pipe.antt =====
-- A system with one descriptor, 3, over which some bytes have arrived and some have been taken, for
-- the tests of the sockets: a call moves two bytes at most.
use networkio.Base.{
  ℕ, ◌≡◌, refl, ap, true, List, [], ◌∷◌, ◌++◌, some, ltb, length, take, drop, arith, inl, min,
}
use networkio.Socket.{Client, fresh}
use networkio.Socket.System.{Os}
use networkio.Socket.Tcp.Promises.{Receives, Sends}

pub record Pipe : Type 0 where
  pub arrived : List ℕ
  pub taken : List ℕ

abbrev pub pipe : Os Pipe
pipe = record {
  socket = λ w d. (some 3, w);
  set_nodelay = λ w fd. w;
  set_nonblock = λ w fd b. (true, w);
  bind = λ w fd a. (true, w);
  listen = λ w fd. (true, w);
  accept = λ w fd. (some (3, 0x7F000001, 80), w);
  connect = λ w fd a. (true, w);
  select_read = λ w fd. (some (ltb 0 (length w.arrived)), w);
  select_write = λ w fd. (some true, w);
  recv = λ w fd n fl.
      let k = min (min n 2) (length w.arrived) in
      (some (take k w.arrived), record w { arrived = drop k w.arrived });
  send = λ w fd bs fl.
      let k = min 2 (length bs) in (some k, record w { taken = w.taken ++ take k bs });
  recvfrom = λ w fd n. (some (w.arrived, 0x7F000001, 80), record w { arrived = [] });
  sendto = λ w fd bs a. (some (length bs), record w { taken = w.taken ++ bs });
  errno = λ w. 0;
  shutdown = λ w fd. w;
  close = λ w fd. w;
  unlink = λ w path. w;
  resolve = λ w host. (some 0x7F000001, w);
}

abbrev pub Carries : Pipe → List ℕ → Type 0
Carries w q = w.arrived ≡ q

abbrev pub Taken : Pipe → List ℕ → Type 0
Taken w t = w.taken ≡ t

pub pipe-Receives : Receives pipe 3 Carries
pipe-Receives = record {
  selects = λ w q e. (w, ap (λ t. (some (ltb 0 (length t)), w)) e, e);
  receives = λ w q len fl e h some_left.
      let n = min (min len 2) (length w.arrived) in
      let m : length w.arrived ≡ length q = ap length e in
      (
        n,
        record w { arrived = drop n w.arrived },
        ap (λ t. (some (take n t), record w { arrived = drop n w.arrived })) e,
        omega arith,
        omega arith,
        omega arith,
        ap (drop n) e,
      );
}

pub pipe-Sends : Sends pipe 3 true Taken
pipe-Sends = record {
  selects = λ w t e. (true, w, refl, e);
  sends = λ w t bs fl e h.
      let n = min 2 (length bs) in
      inl (
        n,
        record w { taken = w.taken ++ take n bs },
        refl,
        omega arith,
        omega arith,
        ap (λ l. l ++ take n bs) e,
      );
}

-- A client of that descriptor, and bytes on both sides.
abbrev pub client : Client
client = record { base = record fresh { m_sockfd = some 3 }; m_connected = true }

abbrev pub full : Pipe
full = record { arrived = 1 ∷ 2 ∷ 3 ∷ 4 ∷ 5 ∷ []; taken = 9 ∷ [] }

-- ===== src/Mux/Server/Laws.antt =====
-- A client of the server of library/src/mux/mux_server.cpp whose connection is gone, and the packets
-- for its endpoints.
use networkio.Base.{
  ℕ, ◌≡◌, ◌≢◌, refl, ap, ◌∙◌, Bool, false, Option, none, some, ◌==◌, then_eq, if_eq, if_not_eq,
  if◌then◌else◌, arith, ==_false, ◌>>=◌,
}
use networkio.Interfaces.{ClientOps}
use networkio.Mux.Client.{disconnect, Client, callback, mux_heartbeat}
use networkio.Mux.Server.{Server, fire, dispatch_to, endpoint, processed, process_client}
use networkio.Proto.Framing
use networkio.Proto.Framing.{PacketProto}
use networkio.Proto.Packet.{Packet, read_bytesleft, set_start}

module _ (junk : ℕ → ℕ) {S : Type 0} (ops : ClientOps S)
    (run_event : ℕ → Client S → Option (Client S))
    (run_endpoint : ℕ → Client S → Packet → Option (Client S)) (relay : ℕ)
    (fresh_proto : S → PacketProto S) where
  -- `process_client` of a client whose protocol says that the connection is gone calls the server's
  -- disconnect event, if there is one, and says false, so that the server drops the client. It takes
  -- nothing from the client, which it leaves in the state of a connected one unless the event does
  -- otherwise.
  pub process_client_gone :
      (rounds : ℕ) (v : Server) (c : Client S) (now : ℕ) (p p' : PacketProto S)
      → c.m_proto ≡ some p
      → Framing.process junk ops p ≡ some (false, p')
      → let c' = record c { m_proto = some p' } in
        (v.m_events disconnect ≡ 0
          → process_client junk ops run_event run_endpoint relay fresh_proto rounds v c now
            ≡ some (false, c'))
        × ((c'' : Client S)
            → v.m_events disconnect ≢ 0
            → run_event (v.m_events disconnect) c' ≡ some c''
            → process_client junk ops run_event run_endpoint relay fresh_proto rounds v c now
              ≡ some (false, c''))
  unfolding process_client processed fire
  process_client_gone rounds v c now p p' has gone =
      let c' = record c { m_proto = some p' } in
      let ran =
        λ (r : Option (Bool × Client S))
            (e : processed junk ops run_event run_endpoint relay fresh_proto rounds v c' now false
              ≡ r).
          ap
            (λ m. elim m [
              | none ↦ some (false, c)
              | some p ↦ Framing.process junk ops p >>= λ (ok, p').
                  processed junk ops run_event run_endpoint relay fresh_proto rounds v
                    (record c { m_proto = some p' }) now ok
            ])
            has
          ∙ then_eq _ gone e in
      (
        λ z. ran (some (false, c')) (then_eq _ (if_eq _ (ap (λ n. n == 0) z) refl) refl),
        λ c'' nz run.
            ran (some (false, c''))
              (then_eq _ (if_not_eq _ (==_false (v.m_events disconnect) 0 nz) run) refl),
      )

  -- An endpoint that has been registered is the one that a packet for it reaches, whatever was
  -- registered for it before: a packet with a byte left behind the endpoint is set back to its start
  -- and given to the function.
  pub dispatch_to-endpoint :
      (v : Server) (c : Client S) (e func left : ℕ) (p p' : Packet)
      → e ≢ mux_heartbeat
      → func ≢ 0
      → left ≢ 0
      → read_bytesleft p ≡ some left
      → set_start p ≡ some p'
      → dispatch_to junk ops run_event run_endpoint relay fresh_proto (endpoint v e func) c e p
        ≡ run_endpoint func c p'
  unfolding dispatch_to endpoint
  dispatch_to-endpoint v c e func left p p' ne nf nl has starts =
      let own : (if e == e then func else callback v.m_endpoints e) ≡ func = ground arith in
      if_not_eq _ (==_false e mux_heartbeat ne) (
        then_eq _ has (
          if_not_eq _ (==_false left 0 nl) (
            if_not_eq _ (ap (λ f. f == 0) own ∙ ==_false func 0 nf)
              (then_eq _ starts (ap (λ f. run_endpoint f c p') own)))))

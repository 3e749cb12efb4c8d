-- ===== src/Mux/Client/Calls.antt =====
-- What `call` sends, and what the other side's `process` does with it.
use networkio.Base.{
  ==_false, ==_iff, ℕ, ◌+◌, ◌^◌, ◌<◌, ◌≡◌, ◌≢◌, ◌⊎◌, inl, inr, refl, ap, ap₂, ◌∙◌, subst, true,
  List, [], ◌++◌, Option, none, some, then_eq, if_eq, if_not_eq, eq_cases, arith, length, take,
  drop, length-append, length-drop, take_all,
}
use networkio.Base.Int.{pos}
use networkio.Interfaces.{ClientOps, SinkLaws}
use networkio.Memory.Shared
use networkio.Memory.Shared.{Buffer}
use networkio.Proto.Wire.{to_bytes, length-to_bytes}
use networkio.Proto.Packet.{Packet, write}
use networkio.Proto.Packet.State.{Writes, Reads, size_eq, make-Reads, bytesleft_eq}
use networkio.Proto.Packet.Writing.{write_data-Writes}
use networkio.Proto.Packet.Fields.{read-Reads}
use networkio.Proto.Packet.Start.{set_start-Reads}
use networkio.Proto.Framing.{PacketProto}
use networkio.Proto.Framing.Header.{frame}
use networkio.Proto.Framing.Send.{Sends}
use networkio.Proto.Framing.Enqueue.{write_packet_keeps_order}
use networkio.Mux.Client.{
  is_one, Client, mux_heartbeat, callback, dispatch_to, is_connected, call_packet, write_at,
  call_in, call, dispatch,
}

-- The payload of a call: the endpoint, and the bytes of the packet.
abbrev pub message : ℕ → List ℕ → List ℕ
message e bs = to_bytes 4 e ++ bs

-- `call` builds a packet of the endpoint and of all that was written to the packet given.
pub call_packet_lem :
    (junk : ℕ → ℕ) (e : ℕ) {packet : Packet} {body : Buffer} {o : ℕ} {bs : List ℕ}
    → Writes packet body o bs
    → length bs + 4100 < 2 ^ 32
    → (op : Packet) × (buf : Buffer) × (call_packet junk e packet ≡ some op)
      × Writes op buf 0 (message e bs)
unfolding call_packet write Shared.bytes_at
call_packet_lem junk e {packet} {body} {o} {bs} w lim =
    let (new, b, made, r, m) = make-Reads junk none in
    let four = length-to_bytes 4 e in
    let (p₁, b₁, e₁, w₁, s₁) =
      write_data-Writes junk (to_bytes 4 e) 4 r.writes (omega (arith, four)) (omega arith) in
    let (p₂, b₂, e₂, w₂, _) =
      write_data-Writes junk (drop body.m_begin body.m_buffer) (length bs) w₁
        (omega (arith, length-drop body.m_begin body.m_buffer, w.upper, w.valid.storage, w.begins))
        (omega (arith, s₁, four, m, ap length (take_all 4 (to_bytes 4 e) (omega (arith, four))))) in
    (
      p₂,
      b₂,
      then_eq _ made (then_eq _ e₁ (then_eq _ (size_eq w) (then_eq _ w.has e₂))),
      subst (Writes p₂ b₂ 0)
          (ap₂ ◌++◌ (take_all 4 (to_bytes 4 e) (omega (arith, four)))
            (ap (λ k. take (length bs) (drop k body.m_buffer)) w.begins ∙ w.payload))
          w₂,
    )

module _ (junk : ℕ → ℕ) {S : Type 0} (ops : ClientOps S)
    (run_event : ℕ → Client S → Option (Client S))
    (run_endpoint : ℕ → Client S → Packet → Option (Client S)) where
  -- A message for an endpoint that has a callback, with a byte at least behind the endpoint, is
  -- given to the callback as a packet that starts behind the endpoint: it holds the bytes of the
  -- caller's packet, unread.
  pub dispatch_delivers :
      (c : Client S) {packet : Packet} {buf : Buffer} (e : ℕ) (bs : List ℕ)
      → Reads packet buf 0 [] (message e bs)
      → e < mux_heartbeat
      → 0 < length bs
      → callback c.m_endpoints e ≢ 0
      → (p : Packet) × (b : Buffer) × (dispatch junk ops run_event run_endpoint c packet
          ≡ run_endpoint (callback c.m_endpoints e) c p)
        × Reads p b 4 [] bs
  unfolding dispatch dispatch_to
  dispatch_delivers c {packet} {buf} e bs r lt some_bytes there =
      let four = length-to_bytes 4 e in
      let (p₁, e₁, r₁) = read-Reads 4 e r (omega arith) in
      let room : length (to_bytes 4 e) < buf.m_size =
        omega (arith, r.writes.upper, length-append (to_bytes 4 e) bs) in
      let (p₂, b₂, e₂, r₂) = set_start-Reads r₁ room in
      (
        p₂,
        b₂,
        then_eq _ e₁ (
            if_not_eq _ (==_false e mux_heartbeat (omega arith)) (
              then_eq _ (bytesleft_eq r₁) (
                if_not_eq _ (==_false (length bs) 0 (omega arith)) (
                  if_not_eq _ (==_false (callback c.m_endpoints e) 0 there) (then_eq _ e₂ refl))))),
        subst (λ n. Reads p₂ b₂ n [] bs) four r₂,
      )

  -- A message for no endpoint with a callback changes nothing, and neither does one without a byte
  -- behind the endpoint, or a heartbeat.
  pub dispatch_ignores :
      (c : Client S) {packet : Packet} {buf : Buffer} (e : ℕ) (bs : List ℕ)
      → Reads packet buf 0 [] (message e bs)
      → e < 2 ^ 32
      → (e ≡ mux_heartbeat) ⊎ (length bs ≡ 0) ⊎ (callback c.m_endpoints e ≡ 0)
      → dispatch junk ops run_event run_endpoint c packet ≡ some c
  unfolding dispatch dispatch_to
  dispatch_ignores c e bs r lt why =
      let (p₁, e₁, r₁) = read-Reads 4 e r (omega arith) in
      then_eq _ e₁ (elim (eq_cases e mux_heartbeat) [
        | inl (t, _) ↦ if_eq _ t refl
        | inr (t, other) ↦ if_not_eq _ t (
            then_eq _ (bytesleft_eq r₁) (elim (eq_cases (length bs) 0) [
              | inl (u, _) ↦ if_eq _ u refl
              | inr (u, some_bytes) ↦ if_not_eq _ u (
                  if_eq _
                    ((==_iff (callback c.m_endpoints e) 0).1 (elim why [
                      | inl beat ↦ absurd (other beat)
                      | inr (inl no_bytes) ↦ absurd (some_bytes no_bytes)
                      | inr (inr missing) ↦ missing
                    ]))
                    refl)
            ]))
      ])

  -- `call` of a client that is connected over a stream returns true, and puts one frame behind
  -- all that was taken or queued before: its payload is the endpoint and what was written to the
  -- packet given, which has fewer than 2^32 - 4100 bytes.
  pub call-Sends :
      (now : ℕ) (Taken : S → List ℕ → Type 0) (c : Client S) (p : PacketProto S) (total : List ℕ)
      (e : ℕ) {packet : Packet} {body : Buffer} {o : ℕ} {bs : List ℕ}
      → SinkLaws ops Taken
      → c.m_connection_state ≡ pos 1
      → c.m_proto ≡ some p
      → Sends Taken p total
      → Writes packet body o bs
      → length bs + 4100 < 2 ^ 32
      → (p' : PacketProto S) × (call junk ops run_event run_endpoint now c e packet
          ≡ some (true, record c { m_proto = some p'; m_sent_tp = now }))
        × Sends Taken p' (total ++ frame (message e bs))
  unfolding call is_connected call_in write_at
  call-Sends now Taken c p total e {packet} {body} {o} {bs} laws on has s w lim =
      let (op, buf, made, w') = call_packet_lem junk e w lim in
      let (p', runs, s') =
        write_packet_keeps_order junk ops Taken laws p total s w'
          (omega (arith, length-append (to_bytes 4 e) bs, length-to_bytes 4 e)) in
      (
        p',
        if_eq _ (ap is_one on) (
            ap (λ m. call_in junk ops run_event run_endpoint m now c e packet) has
            ∙ then_eq _ made (then_eq _ runs refl)),
        s',
      )

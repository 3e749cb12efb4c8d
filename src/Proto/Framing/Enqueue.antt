-- ===== src/Proto/Framing/Enqueue.antt =====
-- `write_packet` over a stream.
use networkio.Base.{
  ℕ, ◌+◌, ◌^◌, ◌<◌, ◌≡◌, sym, ap, ◌∙◌, true, false, List, [], ◌∷◌, ◌++◌, none, some, if_eq,
  if◌then◌else◌, length, drop, append_assoc, append-nil,
}
use networkio.Interfaces.{ClientOps, SinkLaws}
use networkio.Memory.Shared.{Buffer}
use networkio.Proto.Packet.{Packet}
use networkio.Proto.Packet.State.{Writes}
use networkio.Proto.Framing.{PacketProto, process, write_packet}
use networkio.Proto.Framing.Header.{frame}
use networkio.Proto.Framing.Reassembly.{frames}
use networkio.Proto.Framing.Send.{AllWritten, Queued, idle, begun, Sends}
use networkio.Proto.Framing.Order.{process_keeps_order}

frames-append : (bss : List (List ℕ)) (b : List ℕ) → frames (bss ++ b ∷ []) ≡ frames bss ++ frame b
frames-append [] b = append-nil (frame b)
frames-append (a ∷ bss) b =
    ap (◌++◌ (frame a)) (frames-append bss b) ∙ sym (append_assoc (frame a) (frames bss) (frame b))

AllWritten-append :
    (packets : List Packet) (bss : List (List ℕ)) {packet : Packet} {body : Buffer} {o : ℕ}
    {b : List ℕ}
    → AllWritten packets bss
    → Writes packet body o b
    → 12 + length b < 2 ^ 32
    → AllWritten (packets ++ packet ∷ []) (bss ++ b ∷ [])
AllWritten-append [] [] {packet} {body} {o} {b} all w lim = ((body, o, w, lim), tt)
AllWritten-append [] (a ∷ bss) all w lim = absurd all
AllWritten-append (p ∷ packets) [] all w lim = absurd all
AllWritten-append (p ∷ packets) (a ∷ bss) (one, more) w lim =
    (one, AllWritten-append packets bss more w lim)

abbrev enqueued : {S : Type 0} → PacketProto S → Packet → PacketProto S
enqueued p packet = record p { m_out_pkt_data = p.m_out_pkt_data ++ packet ∷ [] }

Queued-append :
    {S : Type 0} {p : PacketProto S} {bss : List (List ℕ)} {out : List ℕ} (packet : Packet)
    (b : List ℕ)
    → Queued p bss out
    → Queued (enqueued p packet) (bss ++ b ∷ []) (out ++ frame b)
Queued-append {bss} packet b (idle n e) =
    idle n (ap (λ t. t ++ frame b) e ∙ sym (frames-append bss b))
Queued-append {p} packet b (begun buf bs rest has same bytes size lt e) =
    begun buf bs (rest ++ b ∷ []) has (ap (λ t. t ++ b ∷ []) same) bytes size lt (
      ap (λ t. t ++ frame b) e
      ∙ append_assoc (drop p.m_out_data_sent (frame bs)) (frames rest) (frame b)
      ∙ ap (◌++◌ (drop p.m_out_data_sent (frame bs))) (sym (frames-append rest b)))

module _ (junk : ℕ → ℕ) {S : Type 0} (ops : ClientOps S) (Taken : S → List ℕ → Type 0)
    (laws : SinkLaws ops Taken) where
  -- `write_packet` over a stream returns true, and puts the frame of the packet's payload behind
  -- all bytes that were taken or queued before: what the stream gets is the frames of the packets
  -- in the order of the calls. The frame has fewer than 2^32 bytes.
  pub write_packet_keeps_order :
      (p : PacketProto S) (total : List ℕ) {packet : Packet} {body : Buffer} {o : ℕ} {bs : List ℕ}
      → Sends Taken p total
      → Writes packet body o bs
      → 12 + length bs < 2 ^ 32
      → (p' : PacketProto S) × (write_packet junk ops p packet ≡ some (true, p'))
        × Sends Taken p' (total ++ frame bs)
  unfolding write_packet
  write_packet_keeps_order p total {packet} {body} {o} {bs} x w lim =
      let (p', e, y) =
        process_keeps_order junk ops Taken laws (enqueued p packet) (total ++ frame bs) (record {
          client = x.client;
          taken = x.taken;
          out = x.out ++ frame bs;
          bss = x.bss ++ bs ∷ [];
          has = x.has;
          written = AllWritten-append p.m_out_pkt_data x.bss x.written w lim;
          queued = Queued-append packet bs x.queued;
          takes = x.takes;
          together =
              sym (append_assoc x.taken x.out (frame bs)) ∙ ap (λ t. t ++ frame bs) x.together;
        }) in
      (
        p',
        ap
              (λ m. elim m [
                | none ↦ some (false, p)
                | some s ↦
                    if ops.is_connected s
                    then process junk ops (enqueued p packet)
                    else some (false, p)
              ])
              x.has
            ∙ if_eq _ (laws.connected x.client x.taken x.takes) e,
        y,
      )

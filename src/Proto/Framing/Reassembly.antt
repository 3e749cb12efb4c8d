-- ===== src/Proto/Framing/Reassembly.antt =====
-- Packets read from a stream, however the stream cuts their frames.
use networkio.Base.{
  ℕ, zero, suc, ◌+◌, ◌^◌, ◌<◌, ◌≤◌, ◌≡◌, inl, inr, refl, sym, ap, ◌∙◌, subst, List, [], ◌∷◌, ◌++◌,
  Option, none, some, ◌>>=◌, then_eq, arith, length, drop, leb_cases, length-append, length-drop,
  append_assoc, append-nil, split_prefix,
}
use networkio.Base.Int.{int32_limit}
use networkio.Interfaces.{ClientOps, StreamLaws}
use networkio.Memory.Shared.{Buffer}
use networkio.Proto.Packet.{Packet, read_bytesleft, read_data, string_of}
use networkio.Proto.Packet.State.{Reads, bytesleft_eq}
use networkio.Proto.Packet.Reading.{read_data-Reads}
use networkio.Proto.Framing.{PacketProto, header_bytes, net_max_message, read_packet}
use networkio.Proto.Framing.Header.{frame, header_for, length-header_bytes}
use networkio.Proto.Framing.Pending.{Pending, Short, few, part}
use networkio.Proto.Framing.Stream.{read_packet_delivers, read_packet_waits}

-- All bytes of a packet that have not been read, by `read_bytesleft` and `read_data`.
pub payload : Packet → Option (List ℕ)
payload p = do left ← read_bytesleft p; (bs, p') ← read_data p left; some (string_of bs)

payload_eq : {p : Packet} {buf : Buffer} {bs : List ℕ} → Reads p buf 0 [] bs → payload p ≡ some bs
unfolding payload
payload_eq {p} {buf} {bs} r =
    let (p', e, r') =
      read_data-Reads {ys = bs} {zs = []} (subst (Reads p buf 0 []) (sym (append-nil bs)) r) in
    then_eq _ (bytesleft_eq r) (then_eq _ e refl)

payloads : Option Packet → Option (List (List ℕ))
payloads none = some []
payloads (some p) = do bs ← payload p; some (bs ∷ [])

-- The payloads that a number of calls of `read_packet` return, in order.
pub read_all :
    (ℕ → ℕ)
    → {S : Type 0} → ClientOps S
    → ℕ
    → PacketProto S
    → Option (List (List ℕ) × PacketProto S)
read_all junk ops zero p = some ([], p)
read_all junk ops (suc n) p = do
  (packet, p') ← read_packet junk ops p
  now ← payloads packet
  (later, p'') ← read_all junk ops n p'
  some (now ++ later, p'')

-- The frames of payloads, one behind the other.
abbrev pub frames : List (List ℕ) → List ℕ
frames [] = []
frames (b ∷ bs) = frame b ++ frames bs

abbrev pub NoneEmpty : List (List ℕ) → Type 0
NoneEmpty [] = Unit {0}
NoneEmpty (b ∷ bs) = (0 < length b) × NoneEmpty bs

pub length-frame : (b : List ℕ) → length (frame b) ≡ 12 + length b
length-frame b = omega (
  arith,
  length-append (header_bytes (header_for (length b))) b,
  length-header_bytes (header_for (length b)),
)

-- A connection over which the payloads `bss` are still to come: `q` of their frames' bytes are
-- pending, and `more` are on the way.
pub record Expects {S : Type 0} (Carries : S → List ℕ → Type 0) (p : PacketProto S)
    (bss : List (List ℕ)) : Type 0 where
  pub client : S
  pub q : List ℕ
  pub more : List ℕ
  pub has : p.m_client ≡ some client
  pub pending : Pending p.m_in_pkt_header p.m_in_buffer q
  pub carries : Carries client more
  pub bytes : q ++ more ≡ frames bss

-- A call that finds less than a frame.
cut-Short :
    (q more b rest : List ℕ)
    → q ++ more ≡ frame b ++ rest
    → length q < 12 + length b
    → length b < 2 ^ 32
    → Short q
cut-Short q more b rest e lt lim = elim (leb_cases (length q) 12) [
  | inl (_, le) ↦ few le
  | inr (_, over) ↦
      let h = header_bytes (header_for (length b)) in
      let hl = length-header_bytes (header_for (length b)) in
      let (cut, _) =
        split_prefix q more h (b ++ rest) (e ∙ append_assoc h b rest) (omega (arith, hl)) in
      part (length b) (drop (length h) q) cut (omega (arith, hl, length-drop (length h) q))
        (omega (arith, hl, length-drop (length h) q)) lim
]

module _ (junk : ℕ → ℕ) {S : Type 0} (ops : ClientOps S) (Carries : S → List ℕ → Type 0)
    (laws : StreamLaws ops Carries net_max_message) where
  wait_step :
      (p : PacketProto S) (bss : List (List ℕ)) (x : Expects Carries p bss)
      → Short x.q
      → length (frames bss) < int32_limit
      → (p' : PacketProto S) × (read_packet junk ops p ≡ some (none, p'))
        × (y : Expects Carries p' bss) × (length y.more ≤ length x.more)
        × (0 < length x.more → length y.more < length x.more)
  wait_step p bss x short lim =
      let r = laws.reads x.client x.more x.carries in
      let total = ap length r.split ∙ length-append r.chunk r.rest in
      let (h, f, runs, pend) =
        read_packet_waits junk ops p x.client r.after x.q r.chunk x.has
          (laws.connected x.client x.more x.carries) x.pending short r.got
          (laws.stream r.after r.rest r.carries)
          (omega (arith, total, ap length x.bytes, length-append x.q x.more)) in
      (
        _,
        runs,
        record {
          client = r.after;
          q = x.q ++ r.chunk;
          more = r.rest;
          has = refl;
          pending = pend;
          carries = r.carries;
          bytes = append_assoc x.q r.chunk r.rest ∙ ap (◌++◌ x.q) (sym r.split) ∙ x.bytes;
        },
        omega (arith, total),
        λ some_more. omega (arith, total, r.progress some_more),
      )

  deliver_step :
      (p : PacketProto S) (b : List ℕ) (bss : List (List ℕ)) (x : Expects Carries p (b ∷ bss))
      → 12 + length b ≤ length x.q
      → 0 < length b
      → length b < 2 ^ 32
      → (packet : Packet) × (p' : PacketProto S) × (read_packet junk ops p ≡ some (some packet, p'))
        × (payload packet ≡ some b)
        × (y : Expects Carries p' bss) × (y.more ≡ x.more)
  deliver_step p b bss x le some_bytes lim =
      let (cut, later) =
        split_prefix x.q x.more (frame b) (frames bss) x.bytes (omega (arith, length-frame b)) in
      let rest = drop (length (frame b)) x.q in
      let (packet, buf, h, f, runs, reads, pend) =
        read_packet_delivers junk ops p x.client b rest x.has
          (laws.connected x.client x.more x.carries)
          (subst (Pending p.m_in_pkt_header p.m_in_buffer) cut x.pending)
          (omega (arith, length-append b rest)) lim in
      (
        packet,
        _,
        runs,
        payload_eq reads,
        record {
          client = x.client;
          q = rest;
          more = x.more;
          has = x.has;
          pending = pend;
          carries = x.carries;
          bytes = later;
        },
        refl,
      )

  -- `read_packet` over a stream returns the payloads that were sent, in order and each once,
  -- however the stream cuts their frames, and leaves nothing pending. It takes as many calls at
  -- most as bytes are on the way and packets to come. The payloads are not empty, and all their
  -- frames together have fewer than 2^31 bytes.
  pub stream_reassembles :
      (n : ℕ) (p : PacketProto S) (bss : List (List ℕ)) (x : Expects Carries p bss)
      → NoneEmpty bss
      → length (frames bss) < int32_limit
      → length x.more + length bss ≤ n
      → (p' : PacketProto S) × (read_all junk ops n p ≡ some (bss, p')) × Expects Carries p' []
  unfolding read_all payloads
  stream_reassembles zero p [] x full lim le = (p, refl, x)
  stream_reassembles zero p (b ∷ bss) x full lim le = absurd (omega arith)
  stream_reassembles (suc n) p [] x full lim le =
      let (p₁, e, y, fewer, _) =
        wait_step p [] x (few (omega (arith, ap length x.bytes, length-append x.q x.more))) lim in
      let (p', e', z) =
        stream_reassembles n p₁ [] y full lim
          (omega (arith, ap length x.bytes, length-append x.q x.more)) in
      (p', then_eq _ e (then_eq _ e' refl), z)
  stream_reassembles (suc n) p (b ∷ bss) x (one, full) lim le =
      elim (leb_cases (12 + length b) (length x.q)) [
        | inl (_, whole) ↦
            let (packet, p₁, e, pay, y, same) =
              deliver_step p b bss x whole one (omega (arith, lb)) in
            let (p', e', z) =
              stream_reassembles n p₁ bss y full (omega (arith, lb))
                (omega (arith, ap length same)) in
            (p', then_eq _ e (then_eq _ (then_eq _ pay refl) (then_eq _ e' refl)), z)
        | inr (_, part_of) ↦
            let (p₁, e, y, _, fewer) =
              wait_step p (b ∷ bss) x
                (cut-Short x.q x.more b (frames bss) x.bytes part_of (omega (arith, lb))) lim in
            let some_more : 0 < length x.more =
              omega (arith, lb, ap length x.bytes, length-append x.q x.more) in
            let (p', e', z) =
              stream_reassembles n p₁ (b ∷ bss) y (one, full) lim
                (omega (arith, fewer some_more)) in
            (p', then_eq _ e (then_eq _ e' refl), z)
      ]
    where
      lb : length (frame b ++ frames bss) ≡ 12 + length b + length (frames bss)
      lb = omega (arith, length-append (frame b) (frames bss), length-frame b)

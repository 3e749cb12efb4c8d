-- ===== src/Proto/Framing/Send.antt =====
-- `process` and `write_packet` over a stream.
use networkio.Base.{
  ℕ, ◌+◌, ◌^◌, ◌<◌, ◌≤◌, ◌≡◌, refl, ap, ap₂, ◌∙◌, List, [], ◌∷◌, ◌++◌, none, some, then_eq, arith,
  length, take, drop, length-append, length-drop, length-take, append-nil, take_all, drop_all,
  take-prefix,
}
use networkio.Base.Int.{u32}
use networkio.Memory.Block.{malloc, length-malloc, memcpy, memcpy_eq, memcpy_front}
use networkio.Memory.Shared
use networkio.Memory.Shared.{Buffer}
use networkio.Proto.Packet.{Packet}
use networkio.Proto.Packet.State.{Writes, size_eq}
use networkio.Proto.Framing.{PacketProto, header_bytes, build_frame}
use networkio.Proto.Framing.Header.{frame, header_for, length-header_bytes}
use networkio.Proto.Framing.Reassembly.{frames}

-- A header in a new block, and a payload behind it.
copied_header :
    (m header : List ℕ) (n : ℕ)
    → length header ≡ 12
    → length m ≡ 12 + n
    → memcpy m 0 header 0 12 ≡ some (header ++ drop 12 m)
copied_header m header n h e =
    memcpy_front m header 0 12 (omega arith) (omega arith)
    ∙ ap (λ t. some (t ++ drop 12 m)) (take_all 12 header (omega arith))

copied_payload :
    (m header src bs : List ℕ) (n : ℕ)
    → length header ≡ 12
    → length m ≡ 12 + n
    → n ≤ length src
    → take n src ≡ bs
    → memcpy (header ++ drop 12 m) 12 src 0 n ≡ some (header ++ bs)
copied_payload m header src bs n h e le same =
    memcpy_eq (header ++ drop 12 m) 12 src 0 n
      (omega (arith, length-append header (drop 12 m), length-drop 12 m)) (omega arith)
    ∙ ap some (ap₂ ◌++◌ (take-prefix 12 header (drop 12 m) h) back)
  where
    back : take n src ++ drop (12 + length (take n src)) (header ++ drop 12 m) ≡ bs
    back =
        ap (◌++◌ (take n src)) (
          drop_all (12 + length (take n src)) (header ++ drop 12 m)
            (omega (arith, length-append header (drop 12 m), length-drop 12 m, length-take n src)))
        ∙ append-nil (take n src)
        ∙ same

-- `process` puts the frame of the packet's payload in a buffer of its size.
pub build_frame_lem :
    (junk : ℕ → ℕ) {packet : Packet} {body : Buffer} {o : ℕ} {bs : List ℕ}
    → Writes packet body o bs
    → 12 + length bs < 2 ^ 32
    → (b : Buffer) × (build_frame junk packet ≡ some b)
      × (Shared.bytes_at b ≡ frame bs)
      × (Shared.size b ≡ 12 + length bs)
unfolding build_frame Shared.make Shared.bytes_at Shared.size header_for
build_frame_lem junk {packet} {body} {o} {bs} w lim = (
  record { m_buffer = frame bs; m_begin = 0; m_offset = 0; m_size = u32 (12 + n); block = 0 },
  then_eq _ (size_eq w) (
      then_eq _ w.has (
        then_eq _ (copied_header m h n hl ml)
          (then_eq _ (copied_payload m h (Shared.bytes_at body) bs n hl ml le shown) refl))),
  refl,
  omega arith,
)
  where
    n : ℕ
    n = length bs

    m : List ℕ
    m = malloc junk (u32 (12 + n))

    h : List ℕ
    h = header_bytes (header_for n)

    hl : length h ≡ 12
    hl = length-header_bytes (header_for n)

    ml : length m ≡ 12 + n
    ml = omega (arith, length-malloc junk (u32 (12 + n)))

    le : n ≤ length (drop body.m_begin body.m_buffer)
    le = omega (arith, length-drop body.m_begin body.m_buffer, w.upper, w.valid.storage, w.begins)

    shown : take n (drop body.m_begin body.m_buffer) ≡ bs
    shown = ap (λ k. take n (drop k body.m_buffer)) w.begins ∙ w.payload

-- Packets that hold payloads, each with its frame less than 2^32 bytes.
abbrev pub AllWritten : List Packet → List (List ℕ) → Type 0
AllWritten [] [] = Unit {0}
AllWritten [] (b ∷ bss) = ⊥
AllWritten (p ∷ ps) [] = ⊥
AllWritten (p ∷ ps) (b ∷ bss) =
    ((body : Buffer) × (o : ℕ) × Writes p body o b × (12 + length b < 2 ^ 32)) × AllWritten ps bss

-- The bytes that are still to be sent: of the frame that has been begun, and of the packets.
pub data Queued {S : Type 0} (p : PacketProto S) (bss : List (List ℕ)) (out : List ℕ) : Type 0 where
  idle : p.m_out_buffer ≡ none → out ≡ frames bss → Queued p bss out
  begun :
      (b : Buffer) (bs : List ℕ) (rest : List (List ℕ))
      → p.m_out_buffer ≡ some b
      → bss ≡ bs ∷ rest
      → Shared.bytes_at b ≡ frame bs
      → Shared.size b ≡ 12 + length bs
      → p.m_out_data_sent < 12 + length bs
      → out ≡ drop p.m_out_data_sent (frame bs) ++ frames rest
      → Queued p bss out

-- The connection has taken a part of `total`, and the queue holds the rest.
pub record Sends {S : Type 0} (Taken : S → List ℕ → Type 0) (p : PacketProto S) (total : List ℕ)
    : Type 0 where
  pub client : S
  pub taken : List ℕ
  pub out : List ℕ
  pub bss : List (List ℕ)
  pub has : p.m_client ≡ some client
  pub written : AllWritten p.m_out_pkt_data bss
  pub queued : Queued p bss out
  pub takes : Taken client taken
  pub together : taken ++ out ≡ total

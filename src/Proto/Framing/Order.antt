-- ===== src/Proto/Framing/Order.antt =====
-- The order of the bytes that `process` and `write_packet` give to a stream.
use networkio.Base.{
  ℕ, ◌+◌, ◌-◌, ◌^◌, ◌<◌, ◌≤◌, ◌≡◌, inl, inr, refl, sym, ap, ap₂, ◌∙◌, subst, true, false, not, List,
  [], ◌∷◌, ◌++◌, none, some, then_eq, if_eq, if_not_eq, if◌then◌else◌, eq_cases, arith, length,
  take, drop, length-drop, append_assoc, take_all, take-append-drop, drop-drop,
}
use networkio.Base.Int.{u32}
use networkio.Interfaces.{ClientOps, SinkLaws, StreamWrite}
use networkio.Memory.Shared
use networkio.Memory.Shared.{Buffer}
use networkio.Proto.Packet.{Packet}
use networkio.Proto.Framing.{
  next_frame_in, process_in, PacketProto, next_frame, sent_bytes, written, send, process_connected,
  process,
}
use networkio.Proto.Framing.Header.{frame}
use networkio.Proto.Framing.Reassembly.{frames, length-frame}
use networkio.Proto.Framing.Send.{build_frame_lem, AllWritten, Queued, idle, begun, Sends}

module _ (junk : ℕ → ℕ) {S : Type 0} (ops : ClientOps S) (Taken : S → List ℕ → Type 0)
    (laws : SinkLaws ops Taken) where
  -- One `write_raw` of what is left of a frame.
  send_step :
      (p : PacketProto S) (s : S) (taken total : List ℕ) (b : Buffer) (bs : List ℕ)
      (rest : List (List ℕ)) (packet : Packet) (packets : List Packet)
      → Taken s taken
      → p.m_out_buffer ≡ some b
      → Shared.bytes_at b ≡ frame bs
      → Shared.size b ≡ 12 + length bs
      → p.m_out_data_sent < 12 + length bs
      → p.m_out_pkt_data ≡ packet ∷ packets
      → AllWritten (packet ∷ packets) (bs ∷ rest)
      → taken ++ (drop p.m_out_data_sent (frame bs) ++ frames rest) ≡ total
      → (p' : PacketProto S) × (send junk ops p s ≡ some (true, p')) × Sends Taken p' total
  unfolding send written sent_bytes
  send_step p s taken total b bs rest packet packets t has bytes size lt pks (one, more) all =
      elim (eq_cases (u32 (k + w.count)) (Shared.size b)) [
        | inl (e, whole) ↦ (
          _,
          runs ∙ ap (λ q. some (true, q)) (if_eq _ e refl),
          record {
            client = w.after;
            taken = taken ++ take w.count xs;
            out = frames rest;
            bss = rest;
            has = refl;
            written = subst (λ l. AllWritten (drop 1 l) rest) (sym pks) more;
            queued = idle refl refl;
            takes = w.takes;
            together =
                ap (λ l. (taken ++ l) ++ frames rest)
                  (take_all w.count xs (omega (arith, xs_length, some_left)))
                ∙ append_assoc taken xs (frames rest)
                ∙ all;
          },
        )
        | inr (e, part) ↦ (
          _,
          runs
              ∙ ap (λ q. some (true, q))
                  (if_not_eq _ e (
                    if_not_eq _ (ap not (laws.stream w.after (taken ++ take w.count xs) w.takes))
                      refl)),
          record {
            client = w.after;
            taken = taken ++ take w.count xs;
            out = drop (u32 (k + w.count)) (frame bs) ++ frames rest;
            bss = bs ∷ rest;
            has = refl;
            written = subst (λ l. AllWritten l (bs ∷ rest)) (sym pks) (one, more);
            queued = begun b bs rest has refl bytes size (omega (arith, some_left)) refl;
            takes = w.takes;
            together =
                append_assoc taken (take w.count xs)
                  (drop (u32 (k + w.count)) (frame bs) ++ frames rest)
                ∙ ap (◌++◌ taken) (
                    sym (
                      append_assoc (take w.count xs) (drop (u32 (k + w.count)) (frame bs))
                        (frames rest))
                    ∙ ap (λ l. l ++ frames rest) rejoined)
                ∙ all;
          },
        )
      ]
    where
      k : ℕ
      k = p.m_out_data_sent

      xs : List ℕ
      xs = drop k (frame bs)

      xs_length : length xs ≡ 12 + length bs - k
      xs_length = omega (arith, length-drop k (frame bs), length-frame bs)

      w : StreamWrite ops Taken s taken xs
      w = laws.writes s taken xs (omega (arith, lt, xs_length)) t

      lim : 12 + length bs < 2 ^ 32
      lim = one.3

      some_left : k + w.count ≤ 12 + length bs
      some_left = omega (arith, w.fits, xs_length)

      rejoined : take w.count xs ++ drop (u32 (k + w.count)) (frame bs) ≡ xs
      rejoined =
          let e : u32 (k + w.count) ≡ k + w.count = omega (arith, some_left) in
          ap (λ n. take w.count xs ++ drop n (frame bs)) e
          ∙ ap (◌++◌ (take w.count xs)) (sym (drop-drop w.count k (frame bs)))
          ∙ take-append-drop w.count xs

      handed : take (u32 (Shared.size b + 2 ^ 32 - k)) (drop k (Shared.bytes_at b)) ≡ xs
      handed =
          ap (λ l. take (u32 (Shared.size b + 2 ^ 32 - k)) (drop k l)) bytes
          ∙ take_all (u32 (Shared.size b + 2 ^ 32 - k)) xs (omega (arith, xs_length))

      runs : send junk ops p s ≡ some (true, sent_bytes junk ops p b w.after w.count)
      runs =
          then_eq _ has
            (ap (λ r. written junk ops p b r.0 r.1) (ap (ops.write_raw s) handed ∙ w.took))

  process_step :
      (p : PacketProto S) (total : List ℕ) (x : Sends Taken p total)
      → (packets : List Packet) (bss : List (List ℕ)) → p.m_out_pkt_data ≡ packets
      → x.bss ≡ bss
      → AllWritten packets bss
      → Queued p bss x.out
      → (p' : PacketProto S) × (process_connected junk ops p x.client ≡ some (true, p'))
        × Sends Taken p' total
  unfolding process_connected process_in next_frame next_frame_in
  process_step p total x [] [] e c w q = (p, ap (λ l. process_in junk ops l p x.client) e, x)
  process_step p total x [] (bs ∷ rest) e c w q = absurd w
  process_step p total x (packet ∷ packets) [] e c w q = absurd w
  process_step p total x (packet ∷ packets) (bs ∷ rest) e c ((body, o, w, lim), more) (idle n out) =
      let (b, built, bytes, size) = build_frame_lem junk w lim in
      let begin = record p { m_out_buffer = some b; m_out_data_sent = 0 } in
      let (p', runs, y) =
        send_step begin x.client x.taken total b bs rest packet packets x.takes refl bytes size
          (omega arith) e ((body, o, w, lim), more) (ap (◌++◌ x.taken) (sym out) ∙ x.together) in
      (
        p',
        ap (λ l. process_in junk ops l p x.client) e
            ∙ then_eq _ (ap₂ (λ m l. next_frame_in junk ops m l p) n e ∙ then_eq _ built refl) runs,
        y,
      )
  process_step p total x (packet ∷ packets) (bs ∷ rest) e c w
        (begun b bs' rest' has same bytes size lt out) =
      let (p', runs, y) =
        send_step p x.client x.taken total b bs' rest' packet packets x.takes has bytes size lt e
          (subst (AllWritten (packet ∷ packets)) same w)
          (ap (◌++◌ x.taken) (sym out) ∙ x.together) in
      (
        p',
        ap (λ l. process_in junk ops l p x.client) e
            ∙ then_eq _ (ap (λ m. next_frame_in junk ops m p.m_out_pkt_data p) has) runs,
        y,
      )

  -- `process` over a stream is never undefined and returns true. The bytes that the connection has
  -- taken before and after, and those that are still queued, are together the same, in order.
  pub process_keeps_order :
      (p : PacketProto S) (total : List ℕ)
      → Sends Taken p total
      → (p' : PacketProto S) × (process junk ops p ≡ some (true, p')) × Sends Taken p' total
  unfolding process
  process_keeps_order p total x =
      let (p', e, y) = process_step p total x p.m_out_pkt_data x.bss refl refl x.written x.queued in
      (
        p',
        ap
              (λ m. elim m [
                | none ↦ none
                | some s ↦
                    if ops.is_connected s then process_connected junk ops p s else some (false, p)
              ])
              x.has
            ∙ if_eq _ (laws.connected x.client x.taken x.takes) e,
        y,
      )

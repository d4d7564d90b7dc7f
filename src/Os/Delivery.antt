-- ===== src/Os/Delivery.antt =====
-- `receive_packet` on a stream whose next bytes are a packet's frame.
use embedded_comm_reliabilit.Common.{
  ℕ, ◌≡◌, ◌⊎◌, refl, sym, ap, ◌∙◌, List, ◌++◌, length, take, drop, continue_with, of_outcome,
  Outcome, ok, throw, running, arith, append_assoc, inl, inr, length-append, append_split,
  take-append-drop, length-take, length-drop,
}
use embedded_comm_reliabilit.Protocol.{Packet, header_size}
use embedded_comm_reliabilit.Protocol.Error.{Errno, Exception}
use embedded_comm_reliabilit.Protocol.Codec.{decode_packet}
use embedded_comm_reliabilit.Protocol.Codec.RoundTrip.{IsFrameOf}
use embedded_comm_reliabilit.Os.{Os}
use embedded_comm_reliabilit.Os.Stream.{Policy, recv_exact, receive_packet}
use embedded_comm_reliabilit.Os.Laws.{StreamLaws}
use embedded_comm_reliabilit.Os.Receiving.{
  Received, Fails, Reaches, Reaches-Fails, full, short, broken, unfinished, recv_exact-Received,
}
use embedded_comm_reliabilit.Os.Framing.{read_body, read_payload}

module _ (os : Os) (laws : StreamLaws os) (policy : Policy) (rounds fd : ℕ) (p : Packet)
    (frame rest : List ℕ) (f : IsFrameOf p frame) where
  -- The packet is returned and the rest of the stream is left; or a call of `recv` on the way from `w`
  -- has failed, not with EINTR, and its `errno` is thrown; or the call has not returned.
  abbrev pub Gives : os.World → Outcome Exception Packet × os.World → Type 0
  Gives w r =
      ((r.0 ≡ ok p) × (laws.pending r.1 fd ≡ rest))
      ⊎ ((e : Errno) × (r.0 ≡ throw (policy.on_recv_errno e)) × Fails os fd w e r.1)
      ⊎ (r.0 ≡ running)

  abbrev head : List ℕ
  head = take header_size frame

  abbrev tail : List ℕ
  tail = drop header_size frame

  length-head : length head ≡ header_size
  length-head = omega (arith, f.size, length-take header_size frame)

  length-tail : length tail ≡ length p.payload
  length-tail = omega (arith, f.size, length-drop header_size frame)

  payload-Gives :
      (w v : os.World) (stream : List ℕ)
      → Reaches os fd w v
      → stream ≡ tail ++ rest
      → (r : Outcome Exception (List ℕ) × os.World)
      → Received os laws policy fd (length p.payload) stream v r
      → Gives w (continue_with r (λ payload. of_outcome (decode_packet head payload)))
  payload-Gives w v stream go s r (full bs u l t more) =
      let cut = append_split bs tail (l ∙ sym length-tail) (sym t ∙ s) in
      inl (ap (decode_packet head) cut.0 ∙ f.decoded, cut.1)
  payload-Gives w v stream go s r (short bs u l t) =
      absurd (omega (arith, length-tail, length-append tail rest, ap length (sym t ∙ s)))
  payload-Gives w v stream go s r (broken x bs u l t f) = inr (inl (x, refl, Reaches-Fails go f))
  payload-Gives w v stream go s r (unfinished u) = inr (inr refl)

  header-Gives :
      (w : os.World) (stream : List ℕ)
      → stream ≡ frame ++ rest
      → (r : Outcome Exception (List ℕ) × os.World)
      → Received os laws policy fd header_size stream w r
      → Gives w (continue_with r (read_body os laws policy rounds fd))
  unfolding read_body read_payload
  header-Gives w stream s r (full bs v l t go) =
      let whole =
        ap (λ x. x ++ rest) (sym (take-append-drop header_size frame))
        ∙ append_assoc head tail rest in
      let cut = append_split bs head (l ∙ sym length-head) (sym t ∙ s ∙ whole) in
      rw (cut.0, f.announced)
        (payload-Gives w v (laws.pending v fd) go cut.1 _
          (recv_exact-Received os laws policy rounds fd (length p.payload) v))
  header-Gives w stream s r (short bs v l t) =
      absurd (omega (arith, f.size, length-append frame rest, ap length (sym t ∙ s)))
  header-Gives w stream s r (broken x bs v l t f) = inr (inl (x, refl, f))
  header-Gives w stream s r (unfinished v) = inr (inr refl)

  -- Over a kernel that keeps the laws of streams, if the next bytes of the stream are a packet's frame,
  -- in whatever pieces they arrive, receive_packet returns that packet and leaves what follows; or a
  -- call of `recv` that it made has failed, not with EINTR, and it throws that `errno`; or its rounds
  -- have run out.
  pub receive_packet-Gives :
      (w : os.World)
      → laws.pending w fd ≡ frame ++ rest
      → Gives w (receive_packet os policy rounds fd w)
  unfolding receive_packet read_body read_payload
  receive_packet-Gives w s =
      header-Gives w (laws.pending w fd) s (recv_exact os policy rounds fd header_size w)
        (recv_exact-Received os laws policy rounds fd header_size w)

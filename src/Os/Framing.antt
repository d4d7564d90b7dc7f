-- ===== src/Os/Framing.antt =====
-- `receive_packet` of the stream programs: the frames that it takes off the stream.
use embedded_comm_reliabilit.Common.{
  ℕ, ◌<◌, ◌≡◌, sym, ap, ◌∙◌, List, ◌++◌, continue_with, of_outcome, Outcome, ok, append_assoc, inl,
  inr, append-All, IsBytes, Outcome-cases, M, ◌>>=◌,
}
use embedded_comm_reliabilit.Protocol.{Packet, header_size}
use embedded_comm_reliabilit.Protocol.Error.{Exception}
use embedded_comm_reliabilit.Protocol.Codec.{encode_packet, get_payload_length, decode_packet}
use embedded_comm_reliabilit.Protocol.Codec.RoundTrip.{IsPacket}
use embedded_comm_reliabilit.Protocol.Codec.Canonical.{encode_packet-decode_packet}
use embedded_comm_reliabilit.Os.{Os}
use embedded_comm_reliabilit.Os.Stream.{Policy, recv_exact, receive_packet}
use embedded_comm_reliabilit.Os.Laws.{StreamLaws}
use embedded_comm_reliabilit.Os.Receiving.{
  Received, full, short, broken, unfinished, recv_exact-Received,
}

module _ (os : Os) (laws : StreamLaws os) (policy : Policy) (rounds fd : ℕ) where
  unfoldable pub read_payload : List ℕ → ℕ → M os.World Exception Packet
  read_payload header n = do
    payload ← recv_exact os policy rounds fd n
    of_outcome (decode_packet header payload)

  unfoldable pub read_body : List ℕ → M os.World Exception Packet
  read_body header = do n ← of_outcome (get_payload_length header); read_payload header n

  module _ (stream : List ℕ) where
    -- A packet that is returned was the next frame of the stream, which has moved on past it.
    abbrev pub Took : Outcome Exception Packet × os.World → Type 0
    Took r =
        (p : Packet)
        → r.0 ≡ ok p
        → (frame : List ℕ) × (encode_packet p ≡ ok frame)
          × IsPacket p
          × (stream ≡ frame ++ laws.pending r.1 fd)

    payload-Took :
        (header : List ℕ) (n : ℕ) (w : os.World)
        → IsBytes header
        → stream ≡ header ++ laws.pending w fd
        → (r : Outcome Exception (List ℕ) × os.World)
        → Received os laws policy fd n (laws.pending w fd) w r
        → Took (continue_with r (λ payload. of_outcome (decode_packet header payload)))
    payload-Took header n w hb s r (full bs v l t go) p e =
        let pb =
          (append-All (λ b. b < 256) bs (laws.pending v fd)
            (rw t at (laws.pending_bytes w fd))).0 in
        let back = encode_packet-decode_packet header bs p hb pb e in
        (
          header ++ bs,
          back.0,
          back.1,
          s ∙ ap (◌++◌ header) t ∙ sym (append_assoc header bs (laws.pending v fd)),
        )
    payload-Took header n w hb s r (short bs v l t) p e = cc
    payload-Took header n w hb s r (broken x bs v l t f) p e = cc
    payload-Took header n w hb s r (unfinished v) p e = cc

    body-Took :
        (header : List ℕ) (w : os.World)
        → IsBytes header
        → stream ≡ header ++ laws.pending w fd
        → Took (read_body header w)
    unfolding read_body read_payload
    body-Took header w hb s = elim (Outcome-cases (get_payload_length header)) [
      | inl (n, e) ↦
          rw e (payload-Took header n w hb s _ (recv_exact-Received os laws policy rounds fd n w))
      | inr (inl (x, e)) ↦ rw e (λ p q. cc)
      | inr (inr e) ↦ rw e (λ p q. cc)
    ]

    header-Took :
        (w : os.World) (r : Outcome Exception (List ℕ) × os.World)
        → IsBytes stream
        → Received os laws policy fd header_size stream w r
        → Took (continue_with r read_body)
    header-Took w r sb (full bs v l t go) =
        body-Took bs v (append-All (λ b. b < 256) bs (laws.pending v fd) (rw t at sb)).0 t
    header-Took w r sb (short bs v l t) = λ p e. cc
    header-Took w r sb (broken x bs v l t f) = λ p e. cc
    header-Took w r sb (unfinished v) = λ p e. cc

  -- A packet that receive_packet returns is well formed, its frame was at the front of the stream,
  -- and what follows the frame is still to come.
  pub receive_packet-Took :
      (w : os.World) → Took (laws.pending w fd) (receive_packet os policy rounds fd w)
  unfolding receive_packet read_body read_payload
  receive_packet-Took w =
      header-Took (laws.pending w fd) w (recv_exact os policy rounds fd header_size w)
        (laws.pending_bytes w fd) (recv_exact-Received os laws policy rounds fd header_size w)

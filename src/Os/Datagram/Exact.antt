-- ===== src/Os/Datagram/Exact.antt =====
-- The datagrams that udp/sender.cpp and udp/receiver.cpp accept.
use embedded_comm_reliabilit.Common.{
  ℕ, ◌+◌, ◌≤◌, ◌<◌, ◌≡◌, refl, sym, ap, ◌∙◌, false, Bool-cases, inl, inr, List, length, take, drop,
  ltb, ◌==◌, arith, ok, ok_inj, Outcome-cases, take-length_append, ◌++◌, IsBytes, All-take,
  All-drop, take-append-drop, length-drop, eq→==, ==→eq, take-all,
}
use embedded_comm_reliabilit.Protocol.{Packet, max_payload_size}
use embedded_comm_reliabilit.Protocol.Codec.{encode_packet, get_payload_length, decode_packet}
use embedded_comm_reliabilit.Protocol.Codec.RoundTrip.{
  IsPacket, IsFrameOf, frame_with, checksum, encode_packet_lem, decode_packet-encode_packet,
}
use embedded_comm_reliabilit.Protocol.Codec.Canonical.{encode_packet-decode_packet}
use embedded_comm_reliabilit.Protocol.Codec.Corruption.{length-frame}
use embedded_comm_reliabilit.Os.{Os, Sys, done, Address}
use embedded_comm_reliabilit.Os.Datagram.{
  decode_datagram, received_datagram, receive_datagram, receive_buffer_size,
}

not_short : (n m : ℕ) → m ≤ n → ltb n m ≡ false
not_short n m h = ground arith

decode_datagram-frame : (p : Packet) (f : List ℕ) → IsFrameOf p f → decode_datagram f ≡ ok p
unfolding decode_datagram
decode_datagram-frame p f v =
    rw
      (
        not_short (length f) 16 (omega (arith, v.size)),
        v.announced,
        eq→== (length f) (16 + length p.payload) v.size,
        take-all (length p.payload) (drop 16 f) (ap length (sym v.tail)),
      )
      v.decoded

-- The datagram of a well-formed packet is accepted and gives the packet back.
pub decode_datagram-encode_packet :
    (p : Packet) (bytes : List ℕ)
    → IsPacket p
    → encode_packet p ≡ ok bytes
    → decode_datagram bytes ≡ ok p
decode_datagram-encode_packet p bytes v e =
    let same : frame_with (checksum p) p ≡ bytes =
      ok_inj _ bytes (sym (encode_packet_lem p v.payload_fits) ∙ e) in
    rw (← same) (decode_datagram-frame p _ (decode_packet-encode_packet p v))

accepted :
    (p : Packet) (bytes : List ℕ) (n : ℕ)
    → IsBytes bytes
    → length bytes ≡ 16 + n
    → decode_packet (take 16 bytes) (take n (drop 16 bytes)) ≡ ok p
    → (encode_packet p ≡ ok bytes) × IsPacket p
accepted p bytes n b size e =
    let whole : take n (drop 16 bytes) ≡ drop 16 bytes =
      take-all n (drop 16 bytes) (omega (arith, length-drop 16 bytes)) in
    let back =
      encode_packet-decode_packet (take 16 bytes) (drop 16 bytes) p
        (All-take (λ x. x < 256) 16 bytes b) (All-drop (λ x. x < 256) 16 bytes b) (rw whole at e) in
    (back.0 ∙ ap ok (take-append-drop 16 bytes), back.1)

encode_packet-decode_datagram :
    (p : Packet) (bytes : List ℕ)
    → IsBytes bytes
    → decode_datagram bytes ≡ ok p
    → (encode_packet p ≡ ok bytes) × IsPacket p
unfolding decode_datagram
encode_packet-decode_datagram p bytes b e = elim (Bool-cases (ltb (length bytes) 16)) [
  | inl short ↦ let f = rw short at e in cc
  | inr long ↦ elim (Outcome-cases (get_payload_length (take 16 bytes))) [
    | inr (inl (x, threw)) ↦ let f = rw (long, threw) at e in cc
    | inr (inr stuck) ↦ let f = rw (long, stuck) at e in cc
    | inl (n, announced) ↦ elim (Bool-cases (length bytes == 16 + n)) [
      | inr wrong ↦ let f = rw (long, announced, wrong) at e in cc
      | inl fits ↦
          accepted p bytes n b (==→eq (length bytes) (16 + n) fits)
            (rw (long, announced, fits) at e)
    ]
  ]
]

received-decoded :
    {W : Type 0} (r : Sys (List ℕ × Address)) (w : W) (bytes : List ℕ) (a b : Address) (p : Packet)
    → r ≡ done (bytes, a)
    → (received_datagram r w).0 ≡ ok (p, b)
    → decode_datagram bytes ≡ ok p
unfolding received_datagram
received-decoded r w bytes a b p e f = elim (Outcome-cases (decode_datagram bytes)) [
  | inl (q, g) ↦
      let same : (q, a) ≡ (p, b) = ok_inj (q, a) (p, b) (rw (e, g) at f) in
      g ∙ ap (λ x. ok (x.0)) same
  | inr (inl (x, g)) ↦ let k = rw (e, g) at f in cc
  | inr (inr g) ↦ let k = rw (e, g) at f in cc
]

-- `recvfrom` answers with the datagram's first 1040 bytes and drops the rest, as POSIX documents of a
-- call without MSG_TRUNC.
abbrev pub Arrives : (os : Os) → ℕ → os.World → List ℕ → Address → Type 0
Arrives os fd w datagram a =
    (os.recvfrom fd receive_buffer_size w).0 ≡ done (take receive_buffer_size datagram, a)

module _ (os : Os) (fd : ℕ) (w : os.World) (datagram : List ℕ) (a : Address)
    (arrives : Arrives os fd w datagram a) where
  -- If receive_packet returns a packet for a datagram of which `recvfrom` gives the first 1040 bytes,
  -- then those bytes, the whole datagram if it is no longer, are exactly the packet's frame, and the
  -- packet is well formed.
  pub encode_packet-receive_datagram :
      (p : Packet) (b : Address)
      → IsBytes datagram
      → (receive_datagram os fd w).0 ≡ ok (p, b)
      → (encode_packet p ≡ ok (take receive_buffer_size datagram)) × IsPacket p
  unfolding receive_datagram
  encode_packet-receive_datagram p b bytes e =
      encode_packet-decode_datagram p (take receive_buffer_size datagram)
        (All-take (λ x. x < 256) receive_buffer_size datagram bytes)
        (received-decoded (os.recvfrom fd receive_buffer_size w).0
          (os.recvfrom fd receive_buffer_size w).1 (take receive_buffer_size datagram) a b p arrives
          e)

module _ (os : Os) (fd : ℕ) (w : os.World) (a : Address) (p : Packet) (extra : List ℕ) where
  -- A datagram that begins with the frame of a well-formed packet of 1024 payload bytes, and of which
  -- `recvfrom` gives the first 1040 bytes, is accepted as that packet, whatever follows the frame.
  pub receive_datagram-truncated :
      IsPacket p
      → length p.payload ≡ max_payload_size
      → Arrives os fd w (frame_with (checksum p) p ++ extra) a
      → (receive_datagram os fd w).0 ≡ ok (p, a)
  unfolding receive_datagram received_datagram
  receive_datagram-truncated v full arrives =
      let frame = frame_with (checksum p) p in
      let cut : take receive_buffer_size (frame ++ extra) ≡ frame =
        ap (λ n. take n (frame ++ extra)) {x = receive_buffer_size} {y = length frame}
          (omega (arith, length-frame p))
        ∙ take-length_append frame extra in
      rw
        (arrives, cut, decode_datagram-encode_packet p frame v (encode_packet_lem p v.payload_fits))
        refl

-- ===== src/Protocol/Codec/Canonical.antt =====
-- decode_packet of protocol/codec.cpp, followed by encode_packet.
use embedded_comm_reliabilit.Common.{
  ℕ, ◌+◌, ◌*◌, ◌^◌, ◌≤◌, ◌<◌, ◌≡◌, refl, sym, ap, ◌∙◌, List, [], ◌∷◌, ◌++◌, length, arith, ok,
  IsBytes,
}
use embedded_comm_reliabilit.Protocol.{
  of_byte, Packet, max_payload_size, magic_value, version_value, header_size,
}
use embedded_comm_reliabilit.Protocol.Codec.{encode_packet, decode_packet}
use embedded_comm_reliabilit.Protocol.Codec.RoundTrip.{
  IsPacket, frame_with, checksum, word, encode_packet_lem, of_byte-IsType, to_byte-of_byte,
}

-- The fields of a header of 16 bytes.
pub record Header : Type 0 where
  pub m0 : ℕ
  pub m1 : ℕ
  pub version : ℕ
  pub type : ℕ
  pub s0 : ℕ
  pub s1 : ℕ
  pub s2 : ℕ
  pub s3 : ℕ
  pub n0 : ℕ
  pub n1 : ℕ
  pub n2 : ℕ
  pub n3 : ℕ
  pub c0 : ℕ
  pub c1 : ℕ
  pub c2 : ℕ
  pub c3 : ℕ

unfoldable pub bytes_of : Header → List ℕ
bytes_of h =
    h.m0 ∷ h.m1 ∷ h.version ∷ h.type ∷ h.s0 ∷ h.s1 ∷ h.s2 ∷ h.s3 ∷ h.n0 ∷ h.n1 ∷ h.n2 ∷ h.n3 ∷ h.c0
    ∷ h.c1 ∷ h.c2 ∷ h.c3 ∷ []

pub header_split : (bs : List ℕ) → length bs ≡ header_size → (h : Header) × (bs ≡ bytes_of h)
unfolding bytes_of
header_split (a ∷ b ∷ c ∷ d ∷ e ∷ f ∷ g ∷ h ∷ i ∷ j ∷ k ∷ l ∷ m ∷ n ∷ o ∷ p ∷ []) eq = (
  record {
    m0 = a;
    m1 = b;
    version = c;
    type = d;
    s0 = e;
    s1 = f;
    s2 = g;
    s3 = h;
    n0 = i;
    n1 = j;
    n2 = k;
    n3 = l;
    c0 = m;
    c1 = n;
    c2 = o;
    c3 = p;
  },
  refl,
)
header_split _ eq = absurd (omega arith)

abbrev pub word_of : ℕ → ℕ → ℕ → ℕ → ℕ
word_of a b c d = a * 2 ^ 24 + b * 2 ^ 16 + c * 2 ^ 8 + d

word-word_of :
    (a b c d : ℕ) (rest : List ℕ)
    → a < 256
    → b < 256
    → c < 256
    → d < 256
    → word (word_of a b c d) rest ≡ a ∷ b ∷ c ∷ d ∷ rest
word-word_of a b c d rest p q r s = ground arith

module _ (h : Header) (payload : List ℕ) where
  abbrev sequence_of : ℕ
  sequence_of = word_of h.s0 h.s1 h.s2 h.s3

  abbrev length_of : ℕ
  length_of = word_of h.n0 h.n1 h.n2 h.n3

  abbrev crc_of : ℕ
  crc_of = word_of h.c0 h.c1 h.c2 h.c3

  abbrev packet_of : Packet
  packet_of = record { type = of_byte h.type; sequence = sequence_of; payload = payload }

  -- What decode_packet has checked of a packet that it returns.
  pub record Accepted (p : Packet) : Type 0 where
    pub magic_fits : h.m0 * 2 ^ 8 + h.m1 ≡ magic_value
    pub version_fits : h.version ≡ version_value
    pub length_fits : length_of ≡ length payload
    pub size_fits : length payload ≤ max_payload_size
    pub crc_fits : crc_of ≡ checksum packet_of
    pub result : p ≡ packet_of

  pub decode_packet-Accepted : (p : Packet) → decode_packet (bytes_of h) payload ≡ ok p → Accepted p
  unfolding decode_packet bytes_of checksum
  decode_packet-Accepted p e = ground arith

decode_packet-size :
    (header payload : List ℕ) (p : Packet)
    → decode_packet header payload ≡ ok p
    → length header ≡ header_size
unfolding decode_packet
decode_packet-size header payload p e = ground arith

module _ (h : Header) (payload : List ℕ) (hb : IsBytes (bytes_of h)) (pb : IsBytes payload) where
  Accepted-IsPacket : {p : Packet} → Accepted h payload p → IsPacket p
  unfolding bytes_of
  Accepted-IsPacket {p} a = rw a.result (record {
    type_fits = of_byte-IsType h.type hb.1.1.1.0;
    sequence_fits = omega arith;
    payload_fits = a.size_fits;
    payload_bytes = pb;
  })

  Accepted-frame :
      {p : Packet} → Accepted h payload p → frame_with (checksum p) p ≡ bytes_of h ++ payload
  unfolding bytes_of frame_with
  Accepted-frame {p} a = rw a.result (
      rw (← a.crc_fits, ← a.length_fits, to_byte-of_byte h.type)
        (rw
          (
            word-word_of h.c0 h.c1 h.c2 h.c3 payload (omega arith) (omega arith) (omega arith)
                (omega arith),
            word-word_of h.n0 h.n1 h.n2 h.n3 (h.c0 ∷ h.c1 ∷ h.c2 ∷ h.c3 ∷ payload) (omega arith)
                (omega arith) (omega arith) (omega arith),
            word-word_of h.s0 h.s1 h.s2 h.s3
                (h.n0 ∷ h.n1 ∷ h.n2 ∷ h.n3 ∷ h.c0 ∷ h.c1 ∷ h.c2 ∷ h.c3 ∷ payload) (omega arith)
                (omega arith) (omega arith) (omega arith),
          )
          (ground arith)))

-- decode_packet is sound: what it accepts is, byte for byte, the frame that encode_packet makes of
-- the packet that it returns, and that packet is well formed.
pub encode_packet-decode_packet :
    (header payload : List ℕ) (p : Packet)
    → IsBytes header
    → IsBytes payload
    → decode_packet header payload ≡ ok p
    → (encode_packet p ≡ ok (header ++ payload)) × IsPacket p × (p.payload ≡ payload)
encode_packet-decode_packet header payload p hb pb e =
    let (h, split) = header_split header (decode_packet-size header payload p e) in
    let hb' : IsBytes (bytes_of h) = rw (← split) hb in
    let a = decode_packet-Accepted h payload p (rw (← split) e) in
    let v = Accepted-IsPacket h payload hb' pb a in
    (
      encode_packet_lem p v.payload_fits
          ∙ ap ok (Accepted-frame h payload hb' pb a ∙ ap (λ t. t ++ payload) (sym split)),
      v,
      ap (λ q. q.payload) a.result,
    )

-- ===== src/Protocol/Codec/RoundTrip.antt =====
-- encode_packet of protocol/codec.cpp, followed by get_payload_length and decode_packet.
use embedded_comm_reliabilit.Common.{
  ℕ, Bool, not, eq→==, true, false, ltb, ◌==◌, if◌then◌else◌, ◌+◌, ◌*◌, ◌/◌, ◌%◌, ◌^◌, ◌≤◌, ◌<◌,
  ◌≡◌, ◌⊎◌, ◌↔◌, refl, List, ◌∷◌, length, take, drop, arith, ok, IsBytes,
}
use embedded_comm_reliabilit.Protocol.{
  MessageType, data_message, ack, heartbeat, heartbeat_ack, other, to_byte, of_byte, Packet,
  max_payload_size, magic_value, version_value, header_size,
}
use embedded_comm_reliabilit.Protocol.Error.{fail, crc_mismatch, payload_too_large}
use embedded_comm_reliabilit.Protocol.Crc32.{crc32}
use embedded_comm_reliabilit.Protocol.Crc32.Injective.{crc32-lt}
use embedded_comm_reliabilit.Protocol.Codec.{
  make_crc_input, encode_packet, decode_packet, get_payload_length,
}

-- The values that a `MessageType` object can have.
abbrev pub IsType : MessageType → Type 0
IsType (other b) = (b < 256) × ((b ≡ 0) ⊎ (4 < b))
IsType _ = Unit {0}

pub record IsPacket (p : Packet) : Type 0 where
  pub type_fits : IsType p.type
  pub sequence_fits : p.sequence < 2 ^ 32
  pub payload_fits : length p.payload ≤ max_payload_size
  pub payload_bytes : IsBytes p.payload

pub of_byte-to_byte : (t : MessageType) → IsType t → of_byte (to_byte t) ≡ t
unfolding of_byte to_byte
of_byte-to_byte data_message h = refl
of_byte-to_byte ack h = refl
of_byte-to_byte heartbeat h = refl
of_byte-to_byte heartbeat_ack h = refl
of_byte-to_byte (other b) h = ground arith

pub to_byte-of_byte : (b : ℕ) → to_byte (of_byte b) ≡ b
unfolding of_byte to_byte
to_byte-of_byte b = ground arith

pub of_byte-IsType : (b : ℕ) → b < 256 → IsType (of_byte b)
unfolding of_byte
of_byte-IsType b h = ground arith

pub to_byte-lt : (t : MessageType) → IsType t → to_byte t < 256
unfolding to_byte
to_byte-lt data_message h = omega arith
to_byte-lt ack h = omega arith
to_byte-lt heartbeat h = omega arith
to_byte-lt heartbeat_ack h = omega arith
to_byte-lt (other b) h = h.0

abbrev pub crc_input : MessageType → ℕ → ℕ → List ℕ → List ℕ
crc_input t sequence len payload = make_crc_input magic_value version_value t sequence len payload

-- A 32-bit word in network byte order, in front of other bytes.
abbrev pub word : ℕ → List ℕ → List ℕ
word v rest = (v / 2 ^ 24 % 256) ∷ (v / 2 ^ 16 % 256) ∷ (v / 2 ^ 8 % 256) ∷ (v % 256) ∷ rest

-- The frame of a packet, its checksum left as a number.
unfoldable pub frame_with : ℕ → Packet → List ℕ
frame_with crc p =
    0xAA
    ∷ 0x55
    ∷ 1
    ∷ to_byte p.type
    ∷ word p.sequence (word (length p.payload) (word crc p.payload))

unfoldable pub checksum : Packet → ℕ
checksum p = crc32 (crc_input p.type p.sequence (length p.payload) p.payload)

pub word-IsBytes : (v : ℕ) (rest : List ℕ) → IsBytes rest → IsBytes (word v rest)
word-IsBytes v rest h = (omega arith, (omega arith, (omega arith, (omega arith, h))))

pub crc_input-IsBytes :
    (t : MessageType) (sequence len : ℕ) (payload : List ℕ)
    → IsType t
    → IsBytes payload
    → IsBytes (crc_input t sequence len payload)
unfolding make_crc_input
crc_input-IsBytes t sequence len payload h bytes =
    let tail = word-IsBytes sequence (word len payload) (word-IsBytes len payload bytes) in
    (omega arith, (omega arith, (omega arith, (to_byte-lt t h, tail))))

pub checksum-lt : (p : Packet) → IsPacket p → checksum p < 2 ^ 32
unfolding checksum
checksum-lt p v =
    crc32-lt (crc_input p.type p.sequence (length p.payload) p.payload)
      (crc_input-IsBytes p.type p.sequence (length p.payload) p.payload v.type_fits v.payload_bytes)

not-ltb : (a b : ℕ) → b ≤ a → ltb a b ≡ false
not-ltb a b h = ground arith

pub encode_packet_lem :
    (p : Packet)
    → length p.payload ≤ max_payload_size
    → encode_packet p ≡ ok (frame_with (checksum p) p)
unfolding encode_packet frame_with checksum
encode_packet_lem p h =
    rw (not-ltb max_payload_size (length p.payload) h) (rw (small (length p.payload) h) refl)
  where
    small : (n : ℕ) → n ≤ max_payload_size → n % 2 ^ 32 ≡ n
    small n h = omega arith

pub u32_back :
    (v : ℕ)
    → v < 2 ^ 32
    → v / 2 ^ 24 % 256 * 2 ^ 24 + v / 2 ^ 16 % 256 * 2 ^ 16 + v / 2 ^ 8 % 256 * 2 ^ 8 + v % 256 ≡ v
u32_back v h = omega arith

if_not : {A : Type 0} (b : Bool) (x y : A) → (if not b then y else x) ≡ (if b then x else y)
if_not true x y = refl
if_not false x y = refl

module _ (p : Packet) (crc : ℕ) (v : IsPacket p) where
  pub get_payload_length-frame :
      get_payload_length (take header_size (frame_with crc p)) ≡ ok (length p.payload)
  unfolding get_payload_length frame_with
  get_payload_length-frame =
      rw (u32_back (length p.payload) (omega (arith, v.payload_fits)))
        (rw (not-ltb max_payload_size (length p.payload) v.payload_fits) refl)

  -- A frame with any checksum field decodes to its packet, or the checksum is found wrong.
  pub decode_packet-frame :
      crc < 2 ^ 32
      → decode_packet (take header_size (frame_with crc p)) (drop header_size (frame_with crc p))
        ≡ (if crc == checksum p then ok p else fail crc_mismatch)
  unfolding decode_packet frame_with checksum
  decode_packet-frame h =
      rw
        (
          u32_back (length p.payload) (omega (arith, v.payload_fits)),
          u32_back p.sequence v.sequence_fits,
          u32_back crc h,
          of_byte-to_byte p.type v.type_fits,
          eq→== (length p.payload) (length p.payload) refl,
          not-ltb max_payload_size (length p.payload) v.payload_fits,
        )
        (if_not (crc == checksum p) (ok p) (fail crc_mismatch))

-- What encode_packet promises of a well-formed packet: it returns, the header announces the
-- payload's length, and header and payload decode to the packet.
pub record IsFrameOf (p : Packet) (frame : List ℕ) : Type 0 where
  pub encoded : encode_packet p ≡ ok frame
  pub size : length frame ≡ header_size + length p.payload
  pub announced : get_payload_length (take header_size frame) ≡ ok (length p.payload)
  pub tail : drop header_size frame ≡ p.payload
  pub decoded : decode_packet (take header_size frame) (drop header_size frame) ≡ ok p

-- A packet with a `uint32_t` sequence and at most 1024 payload bytes is encoded, and decodes to
-- itself.
pub decode_packet-encode_packet :
    (p : Packet) → IsPacket p → IsFrameOf p (frame_with (checksum p) p)
decode_packet-encode_packet p v = record {
  encoded = encode_packet_lem p v.payload_fits;
  size = unfold frame_with in omega arith;
  announced = get_payload_length-frame p (checksum p) v;
  tail = unfold frame_with in refl;
  decoded =
      rw
        (
          decode_packet-frame p (checksum p) v (checksum-lt p v),
          eq→== (checksum p) (checksum p) refl,
        )
        refl;
}

-- encode_packet throws, and only "payload too large", exactly when the payload is longer than 1024.
pub encode_packet_too_large :
    (p : Packet)
    → (encode_packet p ≡ fail payload_too_large) ↔ (max_payload_size < length p.payload)
unfolding encode_packet
encode_packet_too_large p = ground arith

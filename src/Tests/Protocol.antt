-- ===== src/Tests/Protocol.antt =====
-- protocol/ on concrete packets.
use embedded_comm_reliabilit.Common.{ℕ, ◌≡◌, ◌≢◌, refl, List, [], ◌∷◌, ◌++◌, take, drop, arith, ok}
use embedded_comm_reliabilit.Protocol.{Packet, data_message, header_size}
use embedded_comm_reliabilit.Protocol.Error.{fail, crc_mismatch, Message}
use embedded_comm_reliabilit.Protocol.Crc32.{crc32, crc_loop, crc_bits, crc_bit}
use embedded_comm_reliabilit.Protocol.Crc32.Injective.{crc32_detects_byte}
use embedded_comm_reliabilit.Protocol.Codec.{encode_packet, decode_packet}
use embedded_comm_reliabilit.Protocol.Codec.RoundTrip.{
  IsPacket, IsFrameOf, frame_with, checksum, decode_packet-encode_packet,
}
use embedded_comm_reliabilit.Protocol.Codec.Canonical.{encode_packet-decode_packet}
use embedded_comm_reliabilit.Protocol.Codec.Corruption.{decode_packet_corrupted}

abbrev pub greeting : Packet
greeting = record { type = data_message; sequence = 1; payload = b'h' ∷ b'i' ∷ [] }

abbrev pub greeting_header : List ℕ
greeting_header = 170 ∷ 85 ∷ 1 ∷ 1 ∷ 0 ∷ 0 ∷ 0 ∷ 1 ∷ 0 ∷ 0 ∷ 0 ∷ 2 ∷ 63 ∷ 172 ∷ 196 ∷ 34 ∷ []

abbrev pub greeting_frame : List ℕ
greeting_frame = greeting_header ++ b'h' ∷ b'i' ∷ []

pub greeting-IsPacket : IsPacket greeting
greeting-IsPacket = record {
  type_fits = tt;
  sequence_fits = omega arith;
  payload_fits = omega arith;
  payload_bytes = omega arith;
}

check_value : crc32 (b'1' ∷ b'2' ∷ b'3' ∷ b'4' ∷ b'5' ∷ b'6' ∷ b'7' ∷ b'8' ∷ b'9' ∷ []) ≡ 0xCBF43926
unfolding crc32 crc_loop crc_bits crc_bit
check_value = refl

pub greeting_encoded : encode_packet greeting ≡ ok greeting_frame
unfolding encode_packet crc32 crc_loop crc_bits crc_bit
greeting_encoded = refl

greeting_decoded : decode_packet greeting_header (b'h' ∷ b'i' ∷ []) ≡ ok greeting
unfolding decode_packet crc32 crc_loop crc_bits crc_bit
greeting_decoded = refl

changed_payload : decode_packet greeting_header (b'h' ∷ b'o' ∷ []) ≡ fail crc_mismatch
unfolding decode_packet crc32 crc_loop crc_bits crc_bit
changed_payload = refl

decode_packet-encode_packet_example : IsFrameOf greeting (frame_with (checksum greeting) greeting)
decode_packet-encode_packet_example = decode_packet-encode_packet greeting greeting-IsPacket

encode_packet-decode_packet_example :
    (encode_packet greeting ≡ ok greeting_frame)
    × IsPacket greeting
    × (greeting.payload ≡ b'h' ∷ b'i' ∷ [])
encode_packet-decode_packet_example =
    encode_packet-decode_packet greeting_header (b'h' ∷ b'i' ∷ []) greeting (omega arith)
      (omega arith) greeting_decoded

decode_packet_corrupted_example :
    (m : Message) × (decode_packet
        (take header_size (greeting_header ++ b'h' ∷ b'o' ∷ []))
        (drop header_size (greeting_header ++ b'h' ∷ b'o' ∷ []))
      ≡ fail m)
decode_packet_corrupted_example =
    decode_packet_corrupted greeting greeting-IsPacket (greeting_header ++ b'h' ∷ []) b'i' b'o' []
      greeting_encoded (omega arith) (λ e. omega arith)

crc32_detects_byte_example : crc32 (1 ∷ 2 ∷ 3 ∷ []) ≢ crc32 (1 ∷ 130 ∷ 3 ∷ [])
crc32_detects_byte_example =
    crc32_detects_byte (1 ∷ []) 2 130 (3 ∷ []) (omega arith) (omega arith) (omega arith)
      (omega arith) (λ e. omega arith)

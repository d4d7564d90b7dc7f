-- ===== src/Protocol/Codec.antt =====
-- protocol/codec.cpp. A pointer with a size is the list of the bytes that it covers; `htons` and
-- `htonl`, followed by a copy of the object's bytes, lay a word out most significant byte first.
pub mod RoundTrip
pub mod Canonical
pub mod Corruption
use embedded_comm_reliabilit.Common.{
  ℕ, ◌+◌, ◌*◌, ◌/◌, ◌%◌, ◌^◌, List, [], ◌∷◌, ◌++◌, length, drop, ltb, ◌==◌, not, if◌then◌else◌,
  Outcome, ok,
}
use embedded_comm_reliabilit.Protocol.{
  magic_value, version_value, max_payload_size, header_size, MessageType, to_byte, of_byte, Packet,
}
use embedded_comm_reliabilit.Protocol.Crc32.{crc32}
use embedded_comm_reliabilit.Protocol.Error.{
  Exception, fail, payload_too_large, invalid_header_size, invalid_magic,
  unsupported_protocol_version, payload_length_mismatch, crc_mismatch,
}

unfoldable pub append_u16 : List ℕ → ℕ → List ℕ
append_u16 buffer value = buffer ++ (value / 2 ^ 8 % 256) ∷ (value % 256) ∷ []

unfoldable pub append_u32 : List ℕ → ℕ → List ℕ
append_u32 buffer value =
    buffer
    ++ (value / 2 ^ 24 % 256) ∷ (value / 2 ^ 16 % 256) ∷ (value / 2 ^ 8 % 256) ∷ (value % 256) ∷ []

-- The reads at a pointer; the callers have checked that the bytes are there.
unfoldable pub read_u8 : List ℕ → ℕ
read_u8 [] = 0
read_u8 (a ∷ _) = a

unfoldable pub read_u16 : List ℕ → ℕ
read_u16 (a ∷ b ∷ _) = a * 2 ^ 8 + b
read_u16 _ = 0

unfoldable pub read_u32 : List ℕ → ℕ
read_u32 (a ∷ b ∷ c ∷ d ∷ _) = a * 2 ^ 24 + b * 2 ^ 16 + c * 2 ^ 8 + d
read_u32 _ = 0

-- `buffer.push_back(byte)`
unfoldable pub push_back : List ℕ → ℕ → List ℕ
push_back buffer byte = buffer ++ byte ∷ []

unfoldable pub make_crc_input : ℕ → ℕ → MessageType → ℕ → ℕ → List ℕ → List ℕ
unfolding append_u16 append_u32 push_back to_byte
make_crc_input magic version type sequence payload_length payload =
    let buffer = append_u16 [] magic in
    let buffer = push_back (push_back buffer version) (to_byte type) in
    let buffer = append_u32 (append_u32 buffer sequence) payload_length in buffer ++ payload

unfoldable pub encode_packet : Packet → Outcome Exception (List ℕ)
unfolding make_crc_input append_u16 append_u32 push_back to_byte
encode_packet packet =
    if ltb max_payload_size (length packet.payload)
    then fail payload_too_large
    else let payload_length = length packet.payload % 2 ^ 32 in
      let checksum = crc32 (
        make_crc_input magic_value version_value packet.type packet.sequence payload_length
          packet.payload) in
      let buffer = append_u16 [] magic_value in
      let buffer = push_back (push_back buffer version_value) (to_byte packet.type) in
      let buffer = append_u32 (append_u32 buffer packet.sequence) payload_length in
      ok (append_u32 buffer checksum ++ packet.payload)

unfoldable pub get_payload_length : List ℕ → Outcome Exception ℕ
unfolding read_u8 read_u16 read_u32
get_payload_length header =
    if not (length header == header_size)
    then fail invalid_header_size
    else if not (read_u16 header == magic_value)
    then fail invalid_magic
    else if not (read_u8 (drop 2 header) == version_value)
    then fail unsupported_protocol_version
    else let payload_length = read_u32 (drop 8 header) in
      if ltb max_payload_size payload_length then fail payload_too_large else ok payload_length

unfoldable pub decode_packet : List ℕ → List ℕ → Outcome Exception Packet
unfolding read_u8 read_u16 read_u32 of_byte make_crc_input
decode_packet header payload =
    let magic = read_u16 header in
    let version = read_u8 (drop 2 header) in
    let type = of_byte (read_u8 (drop 3 header)) in
    let sequence = read_u32 (drop 4 header) in
    let payload_length = read_u32 (drop 8 header) in
    let received_crc = read_u32 (drop 12 header) in
    let calculated_crc =
      crc32 (make_crc_input magic version type sequence payload_length payload) in
    if not (length header == header_size)
    then fail invalid_header_size
    else if not (magic == magic_value)
    then fail invalid_magic
    else if not (version == version_value)
    then fail unsupported_protocol_version
    else if not (payload_length == length payload)
    then fail payload_length_mismatch
    else if ltb max_payload_size payload_length
    then fail payload_too_large
    else if not (received_crc == calculated_crc)
    then fail crc_mismatch
    else ok (record { type = type; sequence = sequence; payload = payload })

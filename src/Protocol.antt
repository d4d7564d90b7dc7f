-- ===== src/Protocol.antt =====
-- protocol/packet.hpp: the constants, the message types and the packet.
pub mod Error
pub mod Crc32
pub mod Codec
use embedded_comm_reliabilit.Common.{ℕ, List, ◌==◌, if◌then◌else◌}

abbrev pub magic_value : ℕ
magic_value = 0xAA55

abbrev pub version_value : ℕ
version_value = 1

abbrev pub max_payload_size : ℕ
max_payload_size = 1024

abbrev pub header_size : ℕ
header_size = 16

-- `enum class MessageType : uint8_t`. A value of it may be any byte: `other` is one that no
-- enumerator names.
pub data MessageType : Type 0 where
  data_message ack heartbeat heartbeat_ack : MessageType
  other : ℕ → MessageType

-- `static_cast<uint8_t>(type)`
unfoldable pub to_byte : MessageType → ℕ
to_byte data_message = 1
to_byte ack = 2
to_byte heartbeat = 3
to_byte heartbeat_ack = 4
to_byte (other b) = b

-- `static_cast<MessageType>(byte)`
unfoldable pub of_byte : ℕ → MessageType
of_byte b =
    if b == 1
    then data_message
    else if b == 2
    then ack
    else if b == 3
    then heartbeat
    else if b == 4
    then heartbeat_ack
    else other b

pub record Packet : Type 0 where
  pub type : MessageType
  pub sequence : ℕ
  pub payload : List ℕ

-- ===== src/Os/Datagram.antt =====
-- `send_packet` and `receive_packet` of udp/sender.cpp and udp/receiver.cpp: one packet is one
-- datagram. Of the receive buffer the model keeps the bytes that `recvfrom` wrote: the code reads no
-- others.
pub mod Exact
use embedded_comm_reliabilit.Common.{
  ℕ, ◌+◌, List, length, take, drop, ltb, ◌==◌, not, if◌then◌else◌, Outcome, ok, throw, running, M,
  ◌>>-◌,
}
use embedded_comm_reliabilit.Protocol.{Packet, header_size, max_payload_size}
use embedded_comm_reliabilit.Protocol.Codec.{encode_packet, get_payload_length, decode_packet}
use embedded_comm_reliabilit.Protocol.Error.{
  Errno, Exception, fail, sendto_failed, recvfrom_failed, partial_datagram_send,
  datagram_smaller_than_header, datagram_size_mismatch,
}
use embedded_comm_reliabilit.Os.{Os, Sys, done, failed, Address}

abbrev pub receive_buffer_size : ℕ
receive_buffer_size = header_size + max_payload_size

-- What the code makes of a datagram.
unfoldable pub decode_datagram : List ℕ → Outcome Exception Packet
decode_datagram buffer =
    if ltb (length buffer) header_size
    then fail datagram_smaller_than_header
    else (get_payload_length (take header_size buffer) >>- λ payload_length.
        if not (length buffer == header_size + payload_length)
        then fail datagram_size_mismatch
        else decode_packet (take header_size buffer)
            (take payload_length (drop header_size buffer)))

-- The packet with the sender's address.
unfoldable pub received_datagram :
    {W : Type 0} → Sys (List ℕ × Address) → M W Exception (Packet × Address)
received_datagram (failed e) w = (fail (recvfrom_failed e), w)
received_datagram (done (buffer, address)) w =
    (decode_datagram buffer >>- λ packet. ok (packet, address), w)

-- The checks behind `sendto`, for a datagram of `size` bytes.
unfoldable pub sent_datagram : {W : Type 0} → ℕ → Sys ℕ → M W Exception (Unit {0})
sent_datagram size (failed e) w = (fail (sendto_failed e), w)
sent_datagram size (done sent) w =
    (if not (sent == size) then fail partial_datagram_send else ok tt, w)

unfoldable pub send_encoded :
    (os : Os) → ℕ → Address → Outcome Exception (List ℕ) → M os.World Exception (Unit {0})
send_encoded os fd destination (ok encoded) w =
    let (sent, w') = os.sendto fd encoded destination w in sent_datagram (length encoded) sent w'
send_encoded os fd destination (throw e) w = (throw e, w)
send_encoded os fd destination running w = (running, w)

module _ (os : Os) where
  unfoldable pub receive_datagram : ℕ → M os.World Exception (Packet × Address)
  receive_datagram fd w =
      let (received, w') = os.recvfrom fd receive_buffer_size w in received_datagram received w'

  unfoldable pub send_datagram : ℕ → Packet → Address → M os.World Exception (Unit {0})
  send_datagram fd packet destination = send_encoded os fd destination (encode_packet packet)

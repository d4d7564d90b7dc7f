-- ===== src/Tests/Udp.antt =====
-- The datagram programs over the kernel of the tests.
use embedded_comm_reliabilit.Common.{
  ℕ, zero, suc, ap, take, length, IsBytes, ◌++◌, ◌≡◌, refl, [], ◌∷◌, arith, ok, List, insert,
  contains,
}
use embedded_comm_reliabilit.Protocol.Codec.{encode_packet, get_payload_length, decode_packet}
use embedded_comm_reliabilit.Protocol.Crc32.{crc32, crc_loop, crc_bits, crc_bit}
use embedded_comm_reliabilit.Protocol.Codec.RoundTrip.{IsPacket, frame_with, checksum}
use embedded_comm_reliabilit.Protocol.{Packet, data_message}
use embedded_comm_reliabilit.Os.{Os, done}
use embedded_comm_reliabilit.Os.Datagram.{
  decode_datagram, received_datagram, sent_datagram, send_encoded, receive_datagram, send_datagram,
}
use embedded_comm_reliabilit.Os.Datagram.Exact.{
  decode_datagram-encode_packet, encode_packet-receive_datagram, receive_datagram-truncated,
}
use embedded_comm_reliabilit.UdpReceiver
use embedded_comm_reliabilit.UdpReceiver.{advance}
use embedded_comm_reliabilit.UdpReceiver.Advance.{IsNext, advance_lem}
use embedded_comm_reliabilit.UdpReceiver.Next.{Tracks, main-Tracks}
use embedded_comm_reliabilit.UdpSender
use embedded_comm_reliabilit.UdpSender.{
  Sender, sent_data, received_ack, is_ack, is_empty, receive_packet, send_packet, print, now, poll,
  judge_ack, judge_in_time, take_ack, on_poll, wait_turn, wait_loop, wait_for_ack, after_wait,
  attempts, send_data_with_retry, parse_mode, send_messages, create_receiver_address, opened,
  open_socket, close_socket, receiver_address, out_of_order_mode, run_sender, exit_code,
}
use embedded_comm_reliabilit.UdpSender.Acknowledged.{Waited, wait_for_ack-Waited}
use embedded_comm_reliabilit.UdpSender.Retry.{Sent, send_data_with_retry-Sent, Tells, main-Tells}
use embedded_comm_reliabilit.Tests.Kernel.{Wire, wire}
use embedded_comm_reliabilit.Tests.Protocol.{
  greeting, greeting_frame, greeting-IsPacket, greeting_encoded,
}

-- A kernel whose next datagram is `bytes`.
abbrev datagram : List ℕ → Wire
datagram bytes = record { incoming = bytes; outgoing = []; signals = 0; clock = 0; clients = 0 }

-- The ACK of sequence 1.
abbrev first_ack : List ℕ
first_ack = 170 ∷ 85 ∷ 1 ∷ 2 ∷ 0 ∷ 0 ∷ 0 ∷ 1 ∷ 0 ∷ 0 ∷ 0 ∷ 0 ∷ 28 ∷ 169 ∷ 129 ∷ 120 ∷ []

abbrev waiting : Sender wire
waiting = record { world = datagram first_ack; completed_sequences = []; output = [] }

ack_comes : (UdpSender.main wire 3 [] (datagram first_ack)).0 ≡ ok 0
unfolding UdpSender.main is_ack is_empty receive_packet send_packet print now poll judge_ack
    judge_in_time take_ack on_poll wait_turn wait_loop wait_for_ack after_wait attempts
    send_data_with_retry parse_mode send_messages create_receiver_address opened open_socket
    close_socket receiver_address out_of_order_mode run_sender exit_code insert contains
    decode_datagram received_datagram sent_datagram send_encoded receive_datagram send_datagram
    encode_packet get_payload_length decode_packet crc32 crc_loop crc_bits crc_bit
ack_comes = refl

decode_datagram-encode_packet_example : decode_datagram greeting_frame ≡ ok greeting
decode_datagram-encode_packet_example =
    decode_datagram-encode_packet greeting greeting_frame greeting-IsPacket greeting_encoded

greeting_accepted :
    (receive_datagram wire 4 (datagram greeting_frame)).0
    ≡ ok (greeting, record { ip = 1; port = 9 })
unfolding receive_datagram received_datagram decode_datagram get_payload_length decode_packet crc32
    crc_loop crc_bits crc_bit
greeting_accepted = refl

encode_packet-receive_datagram_example :
    (encode_packet greeting ≡ ok greeting_frame) × IsPacket greeting
encode_packet-receive_datagram_example =
    encode_packet-receive_datagram wire 4 (datagram greeting_frame) greeting_frame
      (record { ip = 1; port = 9 }) refl greeting (record { ip = 1; port = 9 }) (omega arith)
      greeting_accepted

-- A kernel that hands over its bytes as they are, and a packet that fills the receive buffer.
abbrev plain : Os
plain = record wire {
  recvfrom = λ fd n w. (done (take n w.incoming, record { ip = 1; port = 9 }), w);
}

abbrev sevens : ℕ → List ℕ
sevens zero = []
sevens (suc n) = 7 ∷ sevens n

sevens-IsBytes : (n : ℕ) → IsBytes (sevens n)
sevens-IsBytes zero = tt
sevens-IsBytes (suc n) = (omega arith, sevens-IsBytes n)

length-sevens : (n : ℕ) → length (sevens n) ≡ n
length-sevens zero = refl
length-sevens (suc n) = ap suc (length-sevens n)

abbrev full : Packet
full = record { type = data_message; sequence = 5; payload = sevens 1024 }

full-IsPacket : IsPacket full
full-IsPacket = record {
  type_fits = tt;
  sequence_fits = omega arith;
  payload_fits = omega (arith, length-sevens 1024);
  payload_bytes = sevens-IsBytes 1024;
}

receive_datagram-truncated_example :
    (receive_datagram plain 4 (datagram (frame_with (checksum full) full ++ 1 ∷ 2 ∷ []))).0
    ≡ ok (full, record { ip = 1; port = 9 })
receive_datagram-truncated_example =
    receive_datagram-truncated plain 4 (datagram (frame_with (checksum full) full ++ 1 ∷ 2 ∷ []))
      (record { ip = 1; port = 9 }) full (1 ∷ 2 ∷ []) full-IsPacket (length-sevens 1024) refl

advance_lem_example : IsNext (2 ∷ 5 ∷ 1 ∷ []) (advance 4 (2 ∷ 5 ∷ 1 ∷ []) 1)
advance_lem_example =
    advance_lem (2 ∷ 5 ∷ 1 ∷ []) 1 (omega arith) (omega arith) (λ x p q. absurd (omega arith))

main-Tracks_example : Tracks (UdpReceiver.main wire 5 [] (datagram greeting_frame)).1
main-Tracks_example = main-Tracks wire 5 [] (datagram greeting_frame) (omega arith)

wait_for_ack-Waited_example : Waited 1 waiting (UdpSender.wait_for_ack wire 3 4 1 waiting)
wait_for_ack-Waited_example = wait_for_ack-Waited wire 3 4 1 waiting

send_data_with_retry-Sent_example :
    Sent 4
      (1 ∷ [])
      waiting
      (send_data_with_retry wire 3 4 (record { ip = 1; port = 6000 }) 1 (b'h' ∷ []) waiting)
send_data_with_retry-Sent_example =
    send_data_with_retry-Sent wire 3 4 (record { ip = 1; port = 6000 }) 1 (b'h' ∷ []) waiting

main-Tells_example :
    Tells wire [] (datagram first_ack) (UdpSender.main wire 3 [] (datagram first_ack))
main-Tells_example = main-Tells wire 3 [] (datagram first_ack)

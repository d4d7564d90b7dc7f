-- ===== src/Tests/Stream.antt =====
-- send_all, recv_exact and receive_packet over the kernel of the tests.
use embedded_comm_reliabilit.Common.{◌≡◌, ◌≢◌, refl, [], ◌∷◌, ◌++◌, arith, running}
use embedded_comm_reliabilit.Protocol.{to_byte}
use embedded_comm_reliabilit.Protocol.Codec.{make_crc_input}
use embedded_comm_reliabilit.Protocol.Crc32.{crc32, crc_loop, crc_bits, crc_bit}
use embedded_comm_reliabilit.Protocol.Codec.RoundTrip.{
  IsFrameOf, frame_with, checksum, decode_packet-encode_packet,
}
use embedded_comm_reliabilit.Os.Stream.{
  send_all, recv_exact, receive_packet, send_loop, send_next, recv_loop, recv_next,
}
use embedded_comm_reliabilit.Os.Sending.{Sends, send_all-Sends, send_all-ends}
use embedded_comm_reliabilit.Os.Receiving.{Received, recv_exact-Received, recv_exact-ends}
use embedded_comm_reliabilit.Os.Framing.{Took, receive_packet-Took}
use embedded_comm_reliabilit.Os.Delivery.{Gives, receive_packet-Gives}
use embedded_comm_reliabilit.Os.Ending.{receive_packet-ends}
use embedded_comm_reliabilit.TcpReceiver.{policy}
use embedded_comm_reliabilit.Tests.Kernel.{Wire, wire, wire_laws}
use embedded_comm_reliabilit.Tests.Protocol.{greeting, greeting_frame, greeting-IsPacket}

abbrev arriving : Wire
arriving = record {
  incoming = greeting_frame ++ 1 ∷ 2 ∷ [];
  outgoing = [];
  signals = 2;
  clock = 0;
  clients = 1;
}

-- Sixteen bytes arrive in six pieces, after two interruptions.
header_arrives : (recv_exact wire policy 9 7 16 arriving).1.incoming ≡ b'h' ∷ b'i' ∷ 1 ∷ 2 ∷ []
unfolding recv_exact recv_loop recv_next
header_arrives = refl

rounds_run_out : (recv_exact wire policy 8 7 16 arriving).0 ≡ running
unfolding recv_exact recv_loop recv_next
rounds_run_out = refl

frame_goes_out : (send_all wire policy 20 7 greeting_frame arriving).1.outgoing ≡ greeting_frame
unfolding send_all send_loop send_next
frame_goes_out = refl

send_all-Sends_example :
    Sends wire wire_laws policy 40 7 greeting_frame arriving
      (send_all wire policy 40 7 greeting_frame arriving)
send_all-Sends_example = send_all-Sends wire wire_laws policy 40 7 greeting_frame arriving

send_all-ends_example : (send_all wire policy 30 7 greeting_frame arriving).0 ≢ running
send_all-ends_example =
    send_all-ends wire wire_laws policy 30 7 greeting_frame arriving (omega arith)

recv_exact-Received_example :
    Received wire wire_laws policy 7 16
      (greeting_frame ++ 1 ∷ 2 ∷ [])
      arriving
      (recv_exact wire policy 40 7 16 arriving)
recv_exact-Received_example = recv_exact-Received wire wire_laws policy 40 7 16 arriving

recv_exact-ends_example : (recv_exact wire policy 19 7 16 arriving).0 ≢ running
recv_exact-ends_example = recv_exact-ends wire wire_laws policy 19 7 16 arriving (omega arith)

receive_packet-Took_example :
    Took wire wire_laws policy 40 7
      (greeting_frame ++ 1 ∷ 2 ∷ [])
      (receive_packet wire policy 40 7 arriving)
receive_packet-Took_example = receive_packet-Took wire wire_laws policy 40 7 arriving

greeting_IsFrameOf : IsFrameOf greeting greeting_frame
unfolding frame_with checksum to_byte make_crc_input crc32 crc_loop crc_bits crc_bit
greeting_IsFrameOf = decode_packet-encode_packet greeting greeting-IsPacket

receive_packet-Gives_example :
    Gives wire wire_laws policy 40 7 greeting greeting_frame
      (1 ∷ 2 ∷ [])
      greeting_IsFrameOf
      arriving
      (receive_packet wire policy 40 7 arriving)
receive_packet-Gives_example =
    receive_packet-Gives wire wire_laws policy 40 7 greeting greeting_frame (1 ∷ 2 ∷ [])
      greeting_IsFrameOf arriving refl

receive_packet-ends_example : (receive_packet wire policy 1050 7 arriving).0 ≢ running
receive_packet-ends_example =
    receive_packet-ends wire wire_laws policy 1050 7 arriving (omega arith)

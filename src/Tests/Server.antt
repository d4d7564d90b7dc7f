-- ===== src/Tests/Server.antt =====
-- The servers over the kernel of the tests.
use embedded_comm_reliabilit.Common.{◌≡◌, refl, [], ◌∷◌, ◌++◌, insert, contains}
use embedded_comm_reliabilit.Protocol.Error.{accept_failed, econnreset, runtime_error}
use embedded_comm_reliabilit.Protocol.Crc32.{crc32, crc_loop, crc_bits, crc_bit}
use embedded_comm_reliabilit.Protocol.Codec.{encode_packet, get_payload_length, decode_packet}
use embedded_comm_reliabilit.Os.Stream.{
  send_all, recv_exact, receive_packet, send_packet, send_loop, send_next, recv_loop, recv_next,
}
use embedded_comm_reliabilit.TcpReceiver
use embedded_comm_reliabilit.TcpReceiver.{
  listening, sender_connected, sender_disconnected, waiting_for_connection, received_data,
  duplicate_data, sent_ack, receiver_error, print, process_data, send_reply, receive, on_data,
  on_heartbeat, dispatch, serve_packet, session_next, session, close_client, serve_client,
  accept_next, accept_loop, create_server_socket, open_server, close_server, run_server, exit_code,
  or_close, open_stream_socket,
}
use embedded_comm_reliabilit.TcpReceiver.Once.{HandlesOnce, main-HandlesOnce}
use embedded_comm_reliabilit.Tests.Kernel.{Wire, wire}
use embedded_comm_reliabilit.Tests.Protocol.{greeting_frame}

-- One client sends the same DATA twice and leaves.
abbrev twice : Wire
twice = record {
  incoming = greeting_frame ++ greeting_frame;
  outgoing = [];
  signals = 0;
  clock = 0;
  clients = 1;
}

tcp_duplicate :
    (TcpReceiver.main wire 40 2 3 twice).1.output
    ≡ receiver_error (runtime_error (accept_failed econnreset))
      ∷ waiting_for_connection
      ∷ sender_disconnected
      ∷ sent_ack 1
      ∷ duplicate_data 1
      ∷ sent_ack 1
      ∷ received_data 1 (b'h' ∷ b'i' ∷ [])
      ∷ sender_connected
      ∷ listening
      ∷ []
unfolding TcpReceiver.main print process_data send_reply receive on_data on_heartbeat dispatch
    serve_packet session_next session close_client serve_client accept_next accept_loop
    create_server_socket open_server close_server run_server exit_code or_close open_stream_socket
    insert contains crc32 crc_loop crc_bits crc_bit encode_packet get_payload_length decode_packet
    send_all recv_exact receive_packet send_packet send_loop send_next recv_loop recv_next
tcp_duplicate = refl

main-HandlesOnce_example : HandlesOnce (TcpReceiver.main wire 40 2 3 twice).1
main-HandlesOnce_example = main-HandlesOnce wire 40 2 3 twice

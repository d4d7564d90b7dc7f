-- ===== src/Tests/Client.antt =====
-- The TCP client over the kernel of the tests.
use embedded_comm_reliabilit.Common.{◌≡◌, refl, List, ℕ, [], ◌∷◌, ◌++◌, ok}
use embedded_comm_reliabilit.Protocol.{ack}
use embedded_comm_reliabilit.Protocol.Codec.{encode_packet, get_payload_length, decode_packet}
use embedded_comm_reliabilit.Protocol.Crc32.{crc32, crc_loop, crc_bits, crc_bit}
use embedded_comm_reliabilit.Os.Stream
use embedded_comm_reliabilit.Os.Stream.{send_all, send_loop, send_next}
use embedded_comm_reliabilit.TcpSender
use embedded_comm_reliabilit.TcpSender.{
  Sender, has, emplace, is_response, is_empty, print, now, judge_response, judge_in_time,
  response_read, wait_turn, wait_loop, wait_from, wait_for_response, recv_next, poll_next,
  recv_turn, recv_loop, recv_exact,
}
use embedded_comm_reliabilit.TcpSender.Connection.{
  opened, connected_or_closed, connect_to, connect_to_receiver, sleep, try_again, attempted,
  connect_attempts, connect_with_retry,
}
use embedded_comm_reliabilit.TcpSender.Run
use embedded_comm_reliabilit.TcpSender.Run.{
  after_wait, data_attempts, heartbeat_waited, try_heartbeat, catch_lost, close, resent,
  reconnected, reconnect_if, beat, beats, closed, run_sender, exit_code,
}
use embedded_comm_reliabilit.TcpSender.Steps.{Steps, Took, wait_for_response-Steps}
use embedded_comm_reliabilit.TcpSender.Exit.{Tells, main-Tells_responses}
use embedded_comm_reliabilit.Tests.Kernel.{Wire, wire}

-- The ACK of sequence 1 and the answers to the heartbeats 2, 3 and 4.
abbrev responses : List ℕ
responses =
    (170 ∷ 85 ∷ 1 ∷ 2 ∷ 0 ∷ 0 ∷ 0 ∷ 1 ∷ 0 ∷ 0 ∷ 0 ∷ 0 ∷ 28 ∷ 169 ∷ 129 ∷ 120 ∷ [])
    ++ (170 ∷ 85 ∷ 1 ∷ 4 ∷ 0 ∷ 0 ∷ 0 ∷ 2 ∷ 0 ∷ 0 ∷ 0 ∷ 0 ∷ 40 ∷ 19 ∷ 130 ∷ 34 ∷ [])
    ++ (170 ∷ 85 ∷ 1 ∷ 4 ∷ 0 ∷ 0 ∷ 0 ∷ 3 ∷ 0 ∷ 0 ∷ 0 ∷ 0 ∷ 21 ∷ 115 ∷ 171 ∷ 146 ∷ [])
    ++ 170 ∷ 85 ∷ 1 ∷ 4 ∷ 0 ∷ 0 ∷ 0 ∷ 4 ∷ 0 ∷ 0 ∷ 0 ∷ 0 ∷ 167 ∷ 83 ∷ 119 ∷ 130 ∷ []

abbrev answering : Wire
answering = record { incoming = responses; outgoing = []; signals = 1; clock = 0; clients = 0 }

abbrev waiting : Sender wire
waiting = record { world = answering; completed = []; output = [] }

client_succeeds : (Run.main wire 20 answering).0 ≡ ok 0
unfolding Run.main after_wait data_attempts heartbeat_waited try_heartbeat catch_lost close resent
    reconnected reconnect_if beat beats closed run_sender exit_code opened connected_or_closed
    connect_to connect_to_receiver sleep try_again attempted connect_attempts connect_with_retry has
    emplace is_response is_empty print now judge_response judge_in_time response_read wait_turn
    wait_loop wait_from wait_for_response recv_next poll_next recv_turn recv_loop recv_exact
    TcpSender.receive_packet TcpSender.send_packet Stream.send_packet send_all send_loop send_next
    encode_packet get_payload_length decode_packet crc32 crc_loop crc_bits crc_bit
client_succeeds = refl

wait_for_response-Steps_example :
    Steps 0 (Took wire 20 ack 1) waiting (wait_for_response wire 20 7 ack 1 1000 waiting)
wait_for_response-Steps_example = wait_for_response-Steps wire 20 7 ack 1 1000 waiting

main-Tells_responses_example : Tells wire 20 (Run.main wire 20 answering)
main-Tells_responses_example = main-Tells_responses wire 20 answering

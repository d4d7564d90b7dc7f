-- ===== src/FaultInjector.antt =====
-- fault_injector/tcp_proxy.cpp: the proxy between a TCP sender and the receiver, with the fault of
-- the mode that it was started in.
pub mod Server
pub mod Trace
pub mod OneFault
pub mod Connection
pub mod Runs
pub mod Corruption
use Prim.Native.String.{String}
use text.Mathlib.Text.{◌==◌ as text_eq}
use Prim.Native.Nat.{bit_xor}
use embedded_comm_reliabilit.Common.{
  ℕ, zero, suc, Bool, true, false, not, ◌&&◌, ◌||◌, List, [], ◌∷◌, ◌++◌, length, leb, if◌then◌else◌,
  Outcome, ok, throw, running, M, continue_with, ◌>>=◌, ◌>>◌, of_outcome,
}
use embedded_comm_reliabilit.Protocol.{
  Packet, MessageType, data_message, ack, heartbeat, heartbeat_ack, other, header_size,
}
use embedded_comm_reliabilit.Protocol.Codec.{encode_packet}
use embedded_comm_reliabilit.Protocol.Error.{
  Errno, eintr, Message, Exception, fail, runtime_error, connection_lost, peer_disconnected,
  response_timeout, send_failed, recv_failed, connection_closed_while_sending, peer_closed,
  socket_failed, setsockopt_failed, bind_failed, listen_failed, accept_failed, connect_failed,
  poll_failed, invalid_server_ip_address, unknown_mode, cannot_corrupt_packet_without_payload,
  forced_disconnect_injected, sender_connection_closed, receiver_connection_closed,
}
use embedded_comm_reliabilit.Os.{Os, Sys, done, failed, Address, Revents}
use embedded_comm_reliabilit.Os.Stream
use embedded_comm_reliabilit.Os.Stream.{Policy}

abbrev pub listen_port : ℕ
listen_port = 5000

abbrev pub receiver_ip : String
receiver_ip = "127.0.0.1"

abbrev pub receiver_port : ℕ
receiver_port = 5001

abbrev pub backlog : ℕ
backlog = 5

abbrev pub ack_delay_ms : ℕ
ack_delay_ms = 700

pub data FaultMode : Type 0 where
  no_fault drop_ack delay_ack corrupt_data disconnect : FaultMode

-- What `send_all` and `recv_exact` throw.
abbrev pub policy : Policy
policy = record {
  on_send_errno = λ e. runtime_error (send_failed e);
  on_send_zero = peer_disconnected connection_closed_while_sending;
  on_recv_errno = λ e. runtime_error (recv_failed e);
  on_recv_end = peer_disconnected peer_closed;
}

unfoldable pub message_type_name : MessageType → String
message_type_name data_message = "DATA"
message_type_name ack = "ACK"
message_type_name heartbeat = "HEARTBEAT"
message_type_name heartbeat_ack = "HEARTBEAT_ACK"
message_type_name (other b) = "UNKNOWN"

unfoldable pub fault_mode_name : FaultMode → String
fault_mode_name no_fault = "none"
fault_mode_name drop_ack = "drop-ack"
fault_mode_name delay_ack = "delay-ack"
fault_mode_name corrupt_data = "corrupt-data"
fault_mode_name disconnect = "disconnect"

-- `argv` without the program's name.
unfoldable pub parse_fault_mode : List String → Outcome Exception FaultMode
parse_fault_mode [] = ok no_fault
parse_fault_mode (mode ∷ _) =
    if text_eq mode "none"
    then ok no_fault
    else if text_eq mode "drop-ack"
    then ok drop_ack
    else if text_eq mode "delay-ack"
    then ok delay_ack
    else if text_eq mode "corrupt-data"
    then ok corrupt_data
    else if text_eq mode "disconnect"
    then ok disconnect
    else fail (unknown_mode mode)

-- `encoded[kHeaderSize] ^= 0xFF`
unfoldable pub flip_byte : ℕ → List ℕ → List ℕ
flip_byte n [] = []
flip_byte zero (b ∷ bs) = bit_xor b 0xFF ∷ bs
flip_byte (suc n) (b ∷ bs) = b ∷ flip_byte n bs

unfoldable pub corrupt_frame : List ℕ → Outcome Exception (List ℕ)
corrupt_frame encoded =
    if leb (length encoded) header_size
    then fail cannot_corrupt_packet_without_payload
    else ok (flip_byte header_size encoded)

-- What the proxy prints.
pub data Line : Type 0 where
  listening sender_connected receiver_connected waiting_for_sender : Line
  fault_mode_is : String → Line
  -- The faults.
  corrupted_data disconnected_heartbeat dropped_ack delayed_ack : ℕ → Line
  -- A packet passed on, by its type's name and its sequence.
  to_receiver to_sender : String → ℕ → Line
  connection_closed connection_error injector_error : Exception → Line

-- The variables of `main`, with what has been printed, the newest line first.
pub record Proxy (os : Os) : Type 0 where
  pub world : os.World
  pub fault_applied : Bool
  pub output : List Line

module _ (os : Os) (rounds : ℕ) where
  abbrev pub R : Type 0 → Type 0
  R A = M (Proxy os) Exception A

  abbrev pub call :
      {A : Type 0} → Outcome Exception A × os.World → Proxy os → Outcome Exception A × Proxy os
  call (r, w) s = (r, record s { world = w })

  unfoldable pub print : Line → R (Unit {0})
  print l s = (ok tt, record s { output = l ∷ s.output })

  unfoldable pub send_packet : ℕ → Packet → R (Unit {0})
  send_packet fd packet s = call (Stream.send_packet os policy rounds fd packet s.world) s

  unfoldable pub receive_packet : ℕ → R Packet
  receive_packet fd s = call (Stream.receive_packet os policy rounds fd s.world) s

  unfoldable pub send_corrupted : ℕ → Packet → M os.World Exception (Unit {0})
  send_corrupted fd packet = do
    encoded ← of_outcome (encode_packet packet)
    frame ← of_outcome (corrupt_frame encoded)
    Stream.send_all os policy rounds fd frame

  unfoldable pub send_corrupted_packet : ℕ → Packet → R (Unit {0})
  send_corrupted_packet fd packet s = call (send_corrupted fd packet s.world) s

  unfoldable pub set_fault_applied : R (Unit {0})
  set_fault_applied s = (ok tt, record s { fault_applied = true })

  unfoldable pub shutdown : ℕ → R (Unit {0})
  shutdown fd s = (ok tt, record s { world = os.shutdown fd s.world })

  unfoldable pub sleep : ℕ → R (Unit {0})
  sleep ms s = (ok tt, record s { world = os.sleep ms s.world })

  -- The branches for a packet of the sender; the result tells whether the round ends there
  -- (`continue`).
  unfoldable pub inject_corruption : ℕ → Packet → R Bool
  inject_corruption receiver_fd packet = do
    print (corrupted_data packet.sequence)
    send_corrupted_packet receiver_fd packet
    set_fault_applied
    λ s. (ok true, s)

  unfoldable pub inject_disconnect : ℕ → ℕ → Packet → R Bool
  inject_disconnect sender_fd receiver_fd packet = do
    print (disconnected_heartbeat packet.sequence)
    set_fault_applied
    shutdown sender_fd
    shutdown receiver_fd
    λ s. (throw (peer_disconnected forced_disconnect_injected), s)

  unfoldable pub pass_to_receiver : ℕ → Packet → R Bool
  pass_to_receiver receiver_fd packet = do
    print (to_receiver (message_type_name packet.type) packet.sequence)
    send_packet receiver_fd packet
    λ s. (ok false, s)

  unfoldable pub on_sender_packet : MessageType → FaultMode → Bool → ℕ → ℕ → Packet → R Bool
  on_sender_packet data_message corrupt_data false sender_fd receiver_fd packet =
      inject_corruption receiver_fd packet
  on_sender_packet heartbeat disconnect false sender_fd receiver_fd packet =
      inject_disconnect sender_fd receiver_fd packet
  on_sender_packet _ _ _ sender_fd receiver_fd packet = pass_to_receiver receiver_fd packet

  unfoldable pub judge_sender_packet : FaultMode → ℕ → ℕ → Packet → R Bool
  judge_sender_packet mode sender_fd receiver_fd packet s =
      on_sender_packet packet.type mode s.fault_applied sender_fd receiver_fd packet s

  unfoldable pub from_sender : FaultMode → ℕ → ℕ → R Bool
  from_sender mode sender_fd receiver_fd = do
    packet ← receive_packet sender_fd
    judge_sender_packet mode sender_fd receiver_fd packet

  unfoldable pub pass_to_sender : ℕ → Packet → R Bool
  pass_to_sender sender_fd packet = do
    print (to_sender (message_type_name packet.type) packet.sequence)
    send_packet sender_fd packet
    λ s. (ok false, s)

  unfoldable pub inject_drop : Packet → R Bool
  inject_drop packet = do print (dropped_ack packet.sequence); set_fault_applied; λ s. (ok true, s)

  unfoldable pub inject_delay : ℕ → Packet → R Bool
  inject_delay sender_fd packet = do
    print (delayed_ack packet.sequence)
    sleep ack_delay_ms
    set_fault_applied
    pass_to_sender sender_fd packet

  unfoldable pub on_receiver_packet : MessageType → FaultMode → Bool → ℕ → Packet → R Bool
  on_receiver_packet ack drop_ack false sender_fd packet = inject_drop packet
  on_receiver_packet ack delay_ack false sender_fd packet = inject_delay sender_fd packet
  on_receiver_packet _ _ _ sender_fd packet = pass_to_sender sender_fd packet

  unfoldable pub judge_receiver_packet : FaultMode → ℕ → Packet → R Bool
  judge_receiver_packet mode sender_fd packet s =
      on_receiver_packet packet.type mode s.fault_applied sender_fd packet s

  unfoldable pub from_receiver : FaultMode → ℕ → ℕ → R Bool
  from_receiver mode sender_fd receiver_fd = do
    packet ← receive_packet receiver_fd
    judge_receiver_packet mode sender_fd packet

  abbrev pub hung_up : Revents → Bool
  hung_up events = events.pollerr || events.pollhup || events.pollnval

  unfoldable pub check_hangup : Revents → Revents → R Bool
  check_hangup sender receiver s =
      if hung_up sender
      then (throw (peer_disconnected sender_connection_closed), s)
      else if hung_up receiver
      then (throw (peer_disconnected receiver_connection_closed), s)
      else (ok false, s)

  -- `if (...) { body }`: the next part follows unless the body has said `continue`.
  unfoldable pub when : Bool → R Bool → R Bool
  when false body s = (ok false, s)
  when true body s = body s

  unfoldable pub unless_ended : R Bool → Bool → R Bool
  unless_ended next true s = (ok true, s)
  unless_ended next false s = next s

  -- The part of a round behind `poll`.
  unfoldable pub relay_ready : FaultMode → ℕ → ℕ → Revents → Revents → R Bool
  relay_ready mode sender_fd receiver_fd sender receiver s =
      continue_with (when sender.pollin (from_sender mode sender_fd receiver_fd) s) (
        unless_ended (λ t.
          continue_with (when receiver.pollin (from_receiver mode sender_fd receiver_fd) t)
            (unless_ended (check_hangup sender receiver))))

  unfoldable pub on_poll :
      (R (Unit {0})) → FaultMode → ℕ → ℕ → Sys (Revents × Revents) → R (Unit {0})
  on_poll next mode sender_fd receiver_fd (failed eintr) s = next s
  on_poll next mode sender_fd receiver_fd (failed e) s = (fail (poll_failed e), s)
  on_poll next mode sender_fd receiver_fd (done (sender, receiver)) s =
      continue_with (relay_ready mode sender_fd receiver_fd sender receiver s) (λ _. next)

  -- The loop, for at most `turns` calls of `poll`. An interrupted `poll` is called again, as in the
  -- inner loop of the source.
  unfoldable pub relay_connection : ℕ → FaultMode → ℕ → ℕ → R (Unit {0})
  relay_connection zero mode sender_fd receiver_fd s = (running, s)
  relay_connection (suc turns) mode sender_fd receiver_fd s =
      let (r, w) = os.poll_two sender_fd receiver_fd s.world in
      on_poll (relay_connection turns mode sender_fd receiver_fd) mode sender_fd receiver_fd r
        (record s { world = w })

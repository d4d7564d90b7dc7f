-- ===== src/TcpReceiver.antt =====
-- tcp/receiver.cpp: the server that answers DATA by ACK and HEARTBEAT by HEARTBEAT_ACK.
pub mod Once
use embedded_comm_reliabilit.Common.{
  ℕ, zero, suc, Bool, true, false, List, [], ◌∷◌, if◌then◌else◌, Outcome, ok, throw, running, M,
  continue_with, ◌>>=◌, ◌>>◌, pure, raise, suspend, contains, insert, Option, none, some,
}
use embedded_comm_reliabilit.Protocol.{
  Packet, MessageType, data_message, ack, heartbeat, heartbeat_ack, other,
}
use embedded_comm_reliabilit.Protocol.Error.{
  Errno, eintr, Message, Exception, runtime_error, connection_lost, peer_disconnected,
  response_timeout, send_failed, recv_failed, connection_closed_while_sending, peer_closed,
  socket_failed, setsockopt_failed, bind_failed, listen_failed, accept_failed,
  unexpected_packet_type,
}
use embedded_comm_reliabilit.Os.{Os, Sys, done, failed, Address}
use embedded_comm_reliabilit.Os.Stream.{Policy, send_packet, receive_packet}

abbrev pub server_port : ℕ
server_port = 5001

abbrev pub backlog : ℕ
backlog = 5

-- `send_all` and `recv_exact` throw `std::runtime_error`, but for a `PeerDisconnected` at the end of
-- the stream.
abbrev pub policy : Policy
policy = record {
  on_send_errno = λ e. runtime_error (send_failed e);
  on_send_zero = runtime_error connection_closed_while_sending;
  on_recv_errno = λ e. runtime_error (recv_failed e);
  on_recv_end = peer_disconnected peer_closed;
}

-- What the server prints.
pub data Line : Type 0 where
  listening sender_connected sender_disconnected waiting_for_connection : Line
  received_data : ℕ → List ℕ → Line
  duplicate_data sent_ack received_heartbeat sent_heartbeat_ack : ℕ → Line
  receiver_error : Exception → Line

-- The variables of `main`, with what it has printed, the newest line first.
pub record Receiver (os : Os) : Type 0 where
  pub world : os.World
  pub processed_sequences : List ℕ
  pub output : List Line

-- The loops may make `rounds` rounds in one call of `send_all` or `recv_exact`.
module _ (os : Os) (rounds : ℕ) where
  abbrev pub R : Type 0 → Type 0
  R A = M (Receiver os) Exception A

  -- A call that changes the kernel's state alone.
  abbrev pub call :
      {A : Type 0}
      → Outcome Exception A × os.World
      → Receiver os
      → Outcome Exception A × Receiver os
  call (r, w) s = (r, record s { world = w })

  unfoldable pub print : Line → R (Unit {0})
  print l s = (ok tt, record s { output = l ∷ s.output })

  abbrev pub reply : MessageType → ℕ → Packet
  reply t sequence = record { type = t; sequence = sequence; payload = [] }

  unfoldable pub send_reply : ℕ → MessageType → ℕ → R (Unit {0})
  send_reply client_fd t sequence s =
      call (send_packet os policy rounds client_fd (reply t sequence) s.world) s

  unfoldable pub receive : ℕ → R Packet
  receive client_fd s = call (receive_packet os policy rounds client_fd s.world) s

  -- The first part of the branch for DATA: a sequence seen before is reported and not handled.
  unfoldable pub process_data : Packet → R (Unit {0})
  unfolding print
  process_data packet s =
      let duplicate = contains s.processed_sequences packet.sequence in
      if duplicate then print (duplicate_data packet.sequence) s else (
        ok tt,
        record s {
          processed_sequences = insert s.processed_sequences packet.sequence;
          output = received_data packet.sequence packet.payload ∷ s.output;
        },
      )

  unfoldable pub on_data : ℕ → Packet → R (Unit {0})
  on_data client_fd packet = do
    process_data packet
    send_reply client_fd ack packet.sequence
    print (sent_ack packet.sequence)

  unfoldable pub on_heartbeat : ℕ → Packet → R (Unit {0})
  on_heartbeat client_fd packet = do
    print (received_heartbeat packet.sequence)
    send_reply client_fd heartbeat_ack packet.sequence
    print (sent_heartbeat_ack packet.sequence)

  unfoldable pub dispatch : MessageType → ℕ → Packet → R (Unit {0})
  dispatch data_message client_fd packet = on_data client_fd packet
  dispatch heartbeat client_fd packet = on_heartbeat client_fd packet
  dispatch _ client_fd packet = raise (runtime_error unexpected_packet_type)

  -- The body of the `try` block.
  unfoldable pub serve_packet : ℕ → R (Unit {0})
  serve_packet client_fd = do packet ← receive client_fd; dispatch packet.type client_fd packet

  -- The `catch` of the inner loop, and its next turn.
  unfoldable pub session_next :
      R (Unit {0})
      → Outcome Exception (Unit {0}) × Receiver os
      → Outcome Exception (Unit {0}) × Receiver os
  unfolding print
  session_next next (ok _, s) = next s
  session_next next (throw (peer_disconnected m), s) = print sender_disconnected s
  session_next next (throw e, s) = (throw e, s)
  session_next next (running, s) = (running, s)

  -- The inner loop, for at most `turns` packets.
  unfoldable pub session : ℕ → ℕ → R (Unit {0})
  session zero client_fd s = (running, s)
  session (suc turns) client_fd s =
      session_next (session turns client_fd) (serve_packet client_fd s)

  unfoldable pub close_client : ℕ → R (Unit {0})
  close_client client_fd s = (ok tt, record s { world = os.close client_fd s.world })

  unfoldable pub serve_client : ℕ → ℕ → R (Unit {0})
  serve_client turns client_fd = do
    print sender_connected
    session turns client_fd
    close_client client_fd
    print waiting_for_connection

  unfoldable pub accept_next : ℕ → R (Unit {0}) → Sys ℕ → R (Unit {0})
  accept_next turns next (failed eintr) s = next s
  accept_next turns next (failed e) s = (throw (runtime_error (accept_failed e)), s)
  accept_next turns next (done client_fd) s =
      continue_with (serve_client turns client_fd s) (λ _. next)

  -- The outer loop, for at most as many calls of `accept`.
  unfoldable pub accept_loop : ℕ → ℕ → ℕ → R (Unit {0})
  accept_loop zero turns server_fd s = (running, s)
  accept_loop (suc accepts) turns server_fd s =
      let (client, w) = os.accept server_fd s.world in
      accept_next turns (accept_loop accepts turns server_fd) client (record s { world = w })

  -- A system call whose failure closes the socket and throws.
  unfoldable pub or_close :
      ℕ → (Errno → Message) → Sys (Unit {0}) × os.World → Outcome Exception (Unit {0}) × os.World
  or_close fd message (done _, w) = (ok tt, w)
  or_close fd message (failed e, w) = (throw (runtime_error (message e)), os.close fd w)

  abbrev any_address : Address
  any_address = record { ip = 0; port = server_port }

  unfoldable pub open_stream_socket : M os.World Exception ℕ
  open_stream_socket w = elim (os.socket_stream w).0 [
    | done fd ↦ (ok fd, (os.socket_stream w).1)
    | failed e ↦ (throw (runtime_error (socket_failed e)), (os.socket_stream w).1)
  ]

  unfoldable pub create_server_socket : M os.World Exception ℕ
  unfolding or_close open_stream_socket
  create_server_socket = do
    fd ← open_stream_socket
    λ w. or_close fd setsockopt_failed (os.set_reuse_address fd w)
    λ w. or_close fd bind_failed (os.bind fd any_address w)
    λ w. or_close fd listen_failed (os.listen fd backlog w)
    pure fd

  unfoldable pub open_server : R ℕ
  open_server s = call (create_server_socket s.world) s

  unfoldable pub close_server : ℕ → R ℕ
  close_server server_fd s = (ok 0, record s { world = os.close server_fd s.world })

  unfoldable pub run_server : ℕ → ℕ → R ℕ
  run_server accepts turns = do
    server_fd ← open_server
    print listening
    accept_loop accepts turns server_fd
    close_server server_fd

  -- The handler of `main`; its classes are all derived from `std::exception`, but for
  -- `ResponseTimeout`, which no call here throws.
  unfoldable pub exit_code : Outcome Exception ℕ × Receiver os → Outcome Exception ℕ × Receiver os
  exit_code (throw response_timeout, s) = (throw response_timeout, s)
  exit_code (throw e, s) = (ok 1, record s { output = receiver_error e ∷ s.output })
  exit_code (r, s) = (r, s)

  abbrev pub boot : os.World → Receiver os
  boot w = record { world = w; processed_sequences = []; output = [] }

  unfoldable pub main : ℕ → ℕ → os.World → Outcome Exception ℕ × Receiver os
  main accepts turns w = exit_code (run_server accepts turns (boot w))

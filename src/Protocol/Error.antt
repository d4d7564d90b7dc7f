-- ===== src/Protocol/Error.antt =====
-- What the programs throw. A `std::runtime_error` is told apart by its message, an `errno` in the
-- message by its value.
use Prim.Native.String.{String}
use embedded_comm_reliabilit.Common.{ℕ, Outcome, ok, throw, running, ◌≡◌, ◌⊎◌, inl, inr, refl}

-- `errno` after a failed system call.
pub data Errno : Type 0 where
  eintr eagain ewouldblock epipe econnreset : Errno
  other_errno : ℕ → Errno

pub data Message : Type 0 where
  -- protocol/codec.cpp
  payload_too_large invalid_header_size invalid_magic unsupported_protocol_version : Message
  payload_length_mismatch crc_mismatch : Message
  -- the stream programs
  send_failed recv_failed poll_failed : Errno → Message
  socket_failed setsockopt_failed bind_failed listen_failed accept_failed : Errno → Message
  connect_failed connection_errno : Errno → Message
  connection_closed_while_sending connection_error_while_waiting peer_closed : Message
  partial_response_deadline_exceeded invalid_response_packet : Message
  unexpected_response_type_or_sequence invalid_server_ip_address reconnect_failed : Message
  ack_retry_limit_exceeded heartbeat_failed_after_reconnect unexpected_packet_type : Message
  -- the datagram programs
  sendto_failed recvfrom_failed : Errno → Message
  partial_datagram_send datagram_smaller_than_header datagram_size_mismatch : Message
  socket_error_while_waiting expected_empty_ack ack_sequence_mismatch : Message
  expected_data_packet : Message
  -- fault_injector/tcp_proxy.cpp
  cannot_corrupt_packet_without_payload forced_disconnect_injected : Message
  sender_connection_closed receiver_connection_closed : Message
  -- the command lines
  unknown_mode : String → Message

-- The classes of the objects thrown. `connection_lost` and `peer_disconnected` derive from
-- `std::runtime_error`; `response_timeout` is no `std::exception`.
pub data Exception : Type 0 where
  runtime_error connection_lost peer_disconnected : Message → Exception
  response_timeout : Exception

abbrev pub fail : {A : Type 0} → Message → Outcome Exception A
fail m = throw (runtime_error m)

-- A call that returns or throws a `std::runtime_error`.
abbrev pub Settles : {A : Type 0} → Outcome Exception A → Type 0
Settles (ok a) = Unit {0}
Settles (throw (runtime_error m)) = Unit {0}
Settles (throw e) = ⊥
Settles running = ⊥

pub Settles-cases :
    {A : Type 0} (r : Outcome Exception A)
    → Settles r
    → ((a : A) × (r ≡ ok a)) ⊎ ((m : Message) × (r ≡ fail m))
Settles-cases (ok a) h = inl (a, refl)
Settles-cases (throw (runtime_error m)) h = inr (m, refl)
Settles-cases (throw (connection_lost m)) h = absurd h
Settles-cases (throw (peer_disconnected m)) h = absurd h
Settles-cases (throw response_timeout) h = absurd h
Settles-cases running h = absurd h

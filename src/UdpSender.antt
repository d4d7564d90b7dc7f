-- ===== src/UdpSender.antt =====
-- udp/sender.cpp: the datagram client, with one absolute deadline for each wait.
pub mod Acknowledged
pub mod Heard
pub mod Confirmed
pub mod Retry
use Prim.Native.String.{String}
use text.Mathlib.Text.{◌==◌ as text_eq}
use embedded_comm_reliabilit.Common.{
  ℕ, zero, suc, ◌+◌, ◌-◌, ◌*◌, ◌/◌, Bool, true, false, not, ◌&&◌, ◌||◌, List, [], ◌∷◌, ltb, leb,
  ◌==◌, if◌then◌else◌, Outcome, ok, throw, running, M, continue_with, ◌>>=◌, ◌>>-◌, ◌>>◌, pure,
  raise, contains, insert, Option, none, some, bytes_of_text,
}
use embedded_comm_reliabilit.Protocol.{Packet, MessageType, data_message, ack, other}
use embedded_comm_reliabilit.Protocol.Error.{
  Errno, eintr, Message, Exception, fail, runtime_error, response_timeout, socket_failed,
  poll_failed, socket_error_while_waiting, expected_empty_ack, ack_sequence_mismatch,
  ack_retry_limit_exceeded, unknown_mode, invalid_server_ip_address,
}
use embedded_comm_reliabilit.Os.{Os, Sys, done, failed, Address, Revents}
use embedded_comm_reliabilit.Os.Datagram.{receive_datagram, send_datagram}

abbrev pub receiver_ip : String
receiver_ip = "127.0.0.1"

abbrev pub receiver_port : ℕ
receiver_port = 6000

abbrev pub ack_timeout_ms : ℕ
ack_timeout_ms = 1000

abbrev pub max_retries : ℕ
max_retries = 3

-- The clock counts nanoseconds.
abbrev pub ns_per_ms : ℕ
ns_per_ms = 1_000_000

-- What the client prints.
pub data Line : Type 0 where
  test_mode_out_of_order : Line
  -- The sequence, the attempt and the payload.
  sent_data : ℕ → ℕ → List ℕ → Line
  received_ack ack_timeout ignored_stale_ack : ℕ → Line
  sender_error : Exception → Line

-- The variables that outlive a call, with what has been printed, the newest line first.
pub record Sender (os : Os) : Type 0 where
  pub world : os.World
  pub completed_sequences : List ℕ
  pub output : List Line

unfoldable pub is_ack : MessageType → Bool
is_ack ack = true
is_ack _ = false

unfoldable pub is_empty : List ℕ → Bool
is_empty [] = true
is_empty (_ ∷ _) = false

module _ (os : Os) where
  abbrev pub R : Type 0 → Type 0
  R A = M (Sender os) Exception A

  unfoldable pub print : Line → R (Unit {0})
  print l s = (ok tt, record s { output = l ∷ s.output })

  unfoldable pub now : R ℕ
  now s = let (t, w) = os.now s.world in (ok t, record s { world = w })

  unfoldable pub poll : ℕ → ℕ → R (Sys (Option Revents))
  poll fd timeout_ms s =
      let (r, w) = os.poll_one fd timeout_ms s.world in (ok r, record s { world = w })

  unfoldable pub receive_packet : ℕ → R Packet
  receive_packet fd s =
      let (r, w) = receive_datagram os fd s.world in
      (r >>- λ received. ok received.0, record s { world = w })

  unfoldable pub send_packet : ℕ → Packet → Address → R (Unit {0})
  send_packet fd packet destination s =
      let (r, w) = send_datagram os fd packet destination s.world in (r, record s { world = w })

  -- What a packet means that came in time; `next` goes on waiting.
  unfoldable pub judge_ack : R Bool → ℕ → Packet → R Bool
  unfolding print
  judge_ack next expected_sequence packet s =
      let stale : Outcome Exception Bool × Sender os =
        continue_with (print (ignored_stale_ack packet.sequence) s) (λ _. next) in
      if not (is_ack packet.type) || not (is_empty packet.payload)
      then (fail expected_empty_ack, s)
      else if packet.sequence == expected_sequence
      then (
        ok true,
        record s { completed_sequences = insert s.completed_sequences packet.sequence },
      )
      else if contains s.completed_sequences packet.sequence
      then stale
      else (fail ack_sequence_mismatch, s)

  -- After `receive_packet`: an ACK that comes at the deadline or later is too late.
  unfoldable pub judge_in_time : R Bool → ℕ → ℕ → Packet → ℕ → R Bool
  judge_in_time next deadline expected_sequence packet time s =
      let judged = judge_ack next expected_sequence packet s in
      if leb deadline time then (ok false, s) else judged

  unfoldable pub take_ack : R Bool → ℕ → ℕ → ℕ → R Bool
  take_ack next deadline fd expected_sequence = do
    packet ← receive_packet fd
    time ← now
    judge_in_time next deadline expected_sequence packet time

  -- What follows `poll`.
  unfoldable pub on_poll : R Bool → ℕ → ℕ → ℕ → Sys (Option Revents) → R Bool
  on_poll next deadline fd expected_sequence (failed eintr) s = next s
  on_poll next deadline fd expected_sequence (failed e) s = (fail (poll_failed e), s)
  on_poll next deadline fd expected_sequence (done none) s = (ok false, s)
  on_poll next deadline fd expected_sequence (done (some events)) s =
      let again = next s in
      let taken = take_ack next deadline fd expected_sequence s in
      if events.pollerr || events.pollnval
      then (fail socket_error_while_waiting, s)
      else if not events.pollin
      then again
      else taken

  -- One turn of the loop, from the time that it has read.
  unfoldable pub wait_turn : R Bool → ℕ → ℕ → ℕ → ℕ → R Bool
  wait_turn next deadline fd expected_sequence time s =
      let remaining = deadline - time in
      let waited =
        continue_with (poll fd ((remaining + (ns_per_ms - 1)) / ns_per_ms) s)
          (on_poll next deadline fd expected_sequence) in
      if leb deadline time then (ok false, s) else waited

  -- The loop of `wait_for_ack`, for at most `rounds` turns.
  unfoldable pub wait_loop : ℕ → ℕ → ℕ → ℕ → R Bool
  wait_loop zero deadline fd expected_sequence s = (running, s)
  wait_loop (suc rounds) deadline fd expected_sequence s =
      continue_with (now s)
        (wait_turn (wait_loop rounds deadline fd expected_sequence) deadline fd expected_sequence)

  unfoldable pub wait_for_ack : ℕ → ℕ → ℕ → R Bool
  wait_for_ack rounds fd expected_sequence = do
    start ← now
    wait_loop rounds (start + ack_timeout_ms * ns_per_ms) fd expected_sequence

  -- What follows `wait_for_ack`: `next` is the next attempt.
  unfoldable pub after_wait : R (Unit {0}) → ℕ → Bool → R (Unit {0})
  after_wait next sequence true = print (received_ack sequence)
  after_wait next sequence false = do print (ack_timeout sequence); next

  abbrev pub data_packet : ℕ → List ℕ → Packet
  data_packet sequence message = record {
    type = data_message;
    sequence = sequence;
    payload = message;
  }

  -- The attempts that are left, and the number of the next.
  unfoldable pub attempts : ℕ → ℕ → ℕ → ℕ → Address → ℕ → List ℕ → R (Unit {0})
  attempts zero attempt rounds fd address sequence message s = (fail ack_retry_limit_exceeded, s)
  attempts (suc left) attempt rounds fd address sequence message s =
      continue_with (send_packet fd (data_packet sequence message) address s) (λ _ t.
        continue_with (print (sent_data sequence attempt message) t) (λ _ u.
          continue_with (wait_for_ack rounds fd sequence u)
            (after_wait (attempts left (attempt + 1) rounds fd address sequence message) sequence)))

  unfoldable pub send_data_with_retry : ℕ → ℕ → Address → ℕ → List ℕ → R (Unit {0})
  send_data_with_retry = attempts (max_retries + 1) 1

  -- `argv` without the program's name; the result is `out_of_order`.
  unfoldable pub parse_mode : List String → Outcome Exception Bool
  parse_mode [] = ok false
  parse_mode (mode ∷ _) = if text_eq mode "out-of-order" then ok true else fail (unknown_mode mode)

  -- The messages of a mode, in the order in which they are sent.
  unfoldable pub send_messages : ℕ → ℕ → Address → Bool → R (Unit {0})
  send_messages rounds fd address true = do
    print test_mode_out_of_order
    send_data_with_retry rounds fd address 1 (bytes_of_text "message-1")
    send_data_with_retry rounds fd address 3 (bytes_of_text "message-3")
    send_data_with_retry rounds fd address 2 (bytes_of_text "message-2")
  send_messages rounds fd address false =
      send_data_with_retry rounds fd address 1 (bytes_of_text "hello udp")

  unfoldable pub create_receiver_address : Outcome Exception Address
  create_receiver_address = elim (os.inet_pton receiver_ip) [
    | some ip ↦ ok (record { ip = ip; port = receiver_port })
    | none ↦ fail invalid_server_ip_address
  ]

  unfoldable pub opened : Sys ℕ → Outcome Exception ℕ
  opened (done fd) = ok fd
  opened (failed e) = fail (socket_failed e)

  unfoldable pub open_socket : R ℕ
  open_socket s = let (r, w) = os.socket_dgram s.world in (opened r, record s { world = w })

  unfoldable pub close_socket : ℕ → R ℕ
  close_socket fd s = (ok 0, record s { world = os.close fd s.world })

  unfoldable pub receiver_address : R Address
  receiver_address s = (create_receiver_address, s)

  unfoldable pub out_of_order_mode : List String → R Bool
  out_of_order_mode arguments s = (parse_mode arguments, s)

  unfoldable pub run_sender : ℕ → List String → R ℕ
  run_sender rounds arguments = do
    out_of_order ← out_of_order_mode arguments
    fd ← open_socket
    address ← receiver_address
    send_messages rounds fd address out_of_order
    close_socket fd

  -- The handler of `main`, for the classes derived from `std::exception`.
  unfoldable pub exit_code : Outcome Exception ℕ × Sender os → Outcome Exception ℕ × Sender os
  exit_code (throw response_timeout, s) = (throw response_timeout, s)
  exit_code (throw e, s) = (ok 1, record s { output = sender_error e ∷ s.output })
  exit_code (r, s) = (r, s)

  abbrev pub boot : os.World → Sender os
  boot w = record { world = w; completed_sequences = []; output = [] }

  unfoldable pub main : ℕ → List String → os.World → Outcome Exception ℕ × Sender os
  main rounds arguments w = exit_code (run_sender rounds arguments (boot w))

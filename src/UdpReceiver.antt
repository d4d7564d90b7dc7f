-- ===== src/UdpReceiver.antt =====
-- udp/receiver.cpp: the datagram server and its three modes.
pub mod Advance
pub mod Next
use Prim.Native.String.{String}
use text.Mathlib.Text.{◌==◌ as text_eq}
use embedded_comm_reliabilit.Common.{
  ℕ, zero, suc, ◌+◌, ◌%◌, ◌^◌, Bool, true, false, not, ◌&&◌, ◌||◌, List, [], ◌∷◌, ◌++◌, length, ltb,
  leb, if◌then◌else◌, Outcome, ok, throw, running, M, continue_with, ◌>>=◌, ◌>>◌, pure, raise,
  contains, insert,
}
use embedded_comm_reliabilit.Protocol.{Packet, MessageType, data_message, ack, other}
use embedded_comm_reliabilit.Protocol.Error.{
  Message, Exception, fail, runtime_error, connection_lost, peer_disconnected, response_timeout,
  socket_failed, bind_failed, expected_data_packet, unknown_mode,
}
use embedded_comm_reliabilit.Os.{Os, Sys, done, failed, Address}
use embedded_comm_reliabilit.Os.Datagram.{receive_datagram, send_datagram}

abbrev pub server_port : ℕ
server_port = 6000

pub record Mode : Type 0 where
  pub drop_first_ack : Bool
  pub out_of_order : Bool

-- `argv` without the program's name.
unfoldable pub parse_mode : List String → Outcome Exception Mode
parse_mode [] = ok (record { drop_first_ack = false; out_of_order = false })
parse_mode (mode ∷ _) =
    if text_eq mode "drop-first-ack"
    then ok (record { drop_first_ack = true; out_of_order = false })
    else if text_eq mode "out-of-order"
    then ok (record { drop_first_ack = false; out_of_order = true })
    else fail (unknown_mode mode)

-- What the server prints.
pub data Line : Type 0 where
  listening test_mode_drop_first_ack test_mode_out_of_order : Line
  duplicate_data ack_dropped_on_purpose sent_ack : ℕ → Line
  -- The sequence, and the one expected.
  out_of_order_data : ℕ → ℕ → Line
  received_data : ℕ → List ℕ → Line
  receiver_error : Exception → Line

-- The variables of `main`, with what it has printed, the newest line first.
pub record Receiver (os : Os) : Type 0 where
  pub world : os.World
  pub processed_sequences : List ℕ
  pub expected_sequence : ℕ
  -- An `int`, by the 32 bits of its two's complement. What C++ leaves undefined, an overflow past
  -- 2 ^ 31 - 1, wraps here.
  pub unique_received : ℕ
  pub ack_dropped : Bool
  pub output : List Line

-- `while (processed.find(expected) != end) ++expected;` on a `uint32_t`, with at most `rounds` steps.
unfoldable pub advance : ℕ → List ℕ → ℕ → ℕ
advance zero processed expected = expected
advance (suc rounds) processed expected =
    let rest = advance rounds processed ((expected + 1) % 2 ^ 32) in
    if contains processed expected then rest else expected

module _ (os : Os) where
  abbrev pub R : Type 0 → Type 0
  R A = M (Receiver os) Exception A

  abbrev pub call :
      {A : Type 0}
      → Outcome Exception A × os.World
      → Receiver os
      → Outcome Exception A × Receiver os
  call (r, w) s = (r, record s { world = w })

  unfoldable pub print : Line → R (Unit {0})
  print l s = (ok tt, record s { output = l ∷ s.output })

  unfoldable pub receive_packet : ℕ → R (Packet × Address)
  receive_packet fd s = call (receive_datagram os fd s.world) s

  unfoldable pub send_packet : ℕ → Packet → Address → R (Unit {0})
  send_packet fd packet destination s = call (send_datagram os fd packet destination s.world) s

  abbrev pub ack_of : ℕ → Packet
  ack_of sequence = record { type = ack; sequence = sequence; payload = [] }

  -- The lines that a new DATA prints, the newest first.
  abbrev pub report : Packet → ℕ → List Line → List Line
  report packet expected output =
      received_data packet.sequence packet.payload
      ∷ (if ltb expected packet.sequence
          then out_of_order_data packet.sequence expected ∷ output
          else output)

  -- Every member of the set is passed at most once, so its size gives rounds enough.
  unfoldable pub process_data : Packet → Bool → Receiver os → Receiver os
  process_data packet true s = record s { output = duplicate_data packet.sequence ∷ s.output }
  process_data packet false s =
      let processed = insert s.processed_sequences packet.sequence in
      record s {
        processed_sequences = processed;
        expected_sequence = advance (suc (length processed)) processed s.expected_sequence;
        unique_received = (s.unique_received + 1) % 2 ^ 32;
        output = report packet s.expected_sequence s.output;
      }

  -- Whether the loop ends after an ACK; an `int` of 2 ^ 31 or more is negative.
  unfoldable pub stops : Mode → Bool → ℕ → Bool
  stops mode duplicate unique =
      (mode.out_of_order && leb 3 unique && ltb unique (2 ^ 31))
      || (mode.drop_first_ack && duplicate)
      || (not mode.drop_first_ack && not mode.out_of_order)

  -- The ACK, or its loss on purpose; the result tells whether the loop ends.
  unfoldable pub acknowledge : Mode → ℕ → Packet → Address → Bool → R Bool
  unfolding print
  acknowledge mode fd packet address duplicate s =
      let dropped : Outcome Exception Bool × Receiver os = (
        ok false,
        record s { ack_dropped = true; output = ack_dropped_on_purpose packet.sequence ∷ s.output },
      ) in
      let sent : Outcome Exception Bool × Receiver os =
        continue_with (send_packet fd (ack_of packet.sequence) address s) (λ _ t. (
          ok (stops mode duplicate t.unique_received),
          record t { output = sent_ack packet.sequence ∷ t.output },
        )) in
      if mode.drop_first_ack && not s.ack_dropped then dropped else sent

  unfoldable pub on_data : Mode → ℕ → Packet → Address → R Bool
  on_data mode fd packet address s =
      let duplicate = contains s.processed_sequences packet.sequence in
      acknowledge mode fd packet address duplicate (process_data packet duplicate s)

  unfoldable pub on_packet : MessageType → Mode → ℕ → Packet → Address → R Bool
  on_packet data_message mode fd packet address = on_data mode fd packet address
  on_packet _ mode fd packet address = raise (runtime_error expected_data_packet)

  -- One turn of the loop.
  unfoldable pub turn : Mode → ℕ → R Bool
  turn mode fd = do
    (packet, address) ← receive_packet fd
    on_packet packet.type mode fd packet address

  unfoldable pub turn_next : R (Unit {0}) → Bool → R (Unit {0})
  turn_next next true s = (ok tt, s)
  turn_next next false s = next s

  -- The loop, for at most `turns` datagrams.
  unfoldable pub serve : ℕ → Mode → ℕ → R (Unit {0})
  serve zero mode fd s = (running, s)
  serve (suc turns) mode fd s = continue_with (turn mode fd s) (turn_next (serve turns mode fd))

  abbrev any_address : Address
  any_address = record { ip = 0; port = server_port }

  unfoldable pub bound_socket : ℕ → Sys (Unit {0}) × os.World → Outcome Exception ℕ × os.World
  bound_socket fd (done _, w) = (ok fd, w)
  bound_socket fd (failed e, w) = (fail (bind_failed e), os.close fd w)

  unfoldable pub opened_socket : Sys ℕ × os.World → Outcome Exception ℕ × os.World
  opened_socket (done fd, w) = bound_socket fd (os.bind fd any_address w)
  opened_socket (failed e, w) = (fail (socket_failed e), w)

  unfoldable pub create_socket : M os.World Exception ℕ
  create_socket w = opened_socket (os.socket_dgram w)

  unfoldable pub open_socket : R ℕ
  open_socket s = call (create_socket s.world) s

  abbrev pub banner : Mode → List Line
  banner mode = if mode.out_of_order then test_mode_out_of_order ∷ drop_lines else drop_lines
    where
      drop_lines : List Line
      drop_lines =
          if mode.drop_first_ack then test_mode_drop_first_ack ∷ listening ∷ [] else listening ∷ []

  unfoldable pub print_banner : Mode → R (Unit {0})
  print_banner mode s = (ok tt, record s { output = banner mode ++ s.output })

  unfoldable pub close_socket : ℕ → R ℕ
  close_socket fd s = (ok 0, record s { world = os.close fd s.world })

  unfoldable pub run_receiver : ℕ → Mode → R ℕ
  run_receiver turns mode = do
    fd ← open_socket
    print_banner mode
    serve turns mode fd
    close_socket fd

  -- The handler of `main`, for the classes derived from `std::exception`.
  unfoldable pub exit_code : Outcome Exception ℕ × Receiver os → Outcome Exception ℕ × Receiver os
  exit_code (throw response_timeout, s) = (throw response_timeout, s)
  exit_code (throw e, s) = (ok 1, record s { output = receiver_error e ∷ s.output })
  exit_code (r, s) = (r, s)

  abbrev pub boot : os.World → Receiver os
  boot w = record {
    world = w;
    processed_sequences = [];
    expected_sequence = 1;
    unique_received = 0;
    ack_dropped = false;
    output = [];
  }

  unfoldable pub run_mode : ℕ → Outcome Exception Mode → R ℕ
  run_mode turns (ok mode) s = run_receiver turns mode s
  run_mode turns (throw e) s = (throw e, s)
  run_mode turns running s = (running, s)

  unfoldable pub main : ℕ → List String → os.World → Outcome Exception ℕ × Receiver os
  main turns arguments w = exit_code (run_mode turns (parse_mode arguments) (boot w))

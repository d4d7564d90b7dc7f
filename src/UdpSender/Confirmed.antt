-- ===== src/UdpSender/Confirmed.antt =====
-- The ACKs behind the completed sequences of udp/sender.cpp, over the waits and the whole run.
use Prim.Native.String.{String}
use embedded_comm_reliabilit.Common.{
  ℕ, zero, suc, ◌+◌, ◌*◌, ◌≡◌, refl, Bool, true, false, not, ◌||◌, Bool-cases, inl, inr, List, [],
  contains, leb, ◌==◌, Outcome, ok, throw, running, Option, none, some, bytes_of_text,
}
use embedded_comm_reliabilit.Protocol.{Packet}
use embedded_comm_reliabilit.Protocol.Error.{eintr, Exception, response_timeout}
use embedded_comm_reliabilit.Os.{Os, Address, Sys, done, failed, Revents}
use embedded_comm_reliabilit.UdpSender.Heard.{
  here, Confirmed, Heard, Confirmed-bind, print-Confirmed, now-Confirmed, poll-Confirmed,
  receive_packet-Confirmed, receive_packet-Heard, send_packet-Confirmed, taken, moved, opened,
  closed,
}
use embedded_comm_reliabilit.UdpSender.{
  Sender, sent_data, print, now, poll, receive_packet, send_packet, judge_ack, judge_in_time,
  take_ack, on_poll, wait_turn, wait_loop, wait_for_ack, after_wait, attempts, send_data_with_retry,
  is_ack, is_empty, ignored_stale_ack, ack_timeout, received_ack, data_packet, max_retries,
  ack_timeout_ms, ns_per_ms, send_messages, test_mode_out_of_order, open_socket, close_socket,
  receiver_address, out_of_order_mode, run_sender, exit_code, boot, main,
}

module _ (os : Os) (start : os.World) where
  module _ (next : Sender os → Outcome Exception Bool × Sender os) (q : ℕ)
      (ih : (t : Sender os) → Confirmed os start t → Confirmed os start (next t).1) where
    judge_ack-Confirmed :
        (p : Packet) (s : Sender os)
        → Confirmed os start s
        → Heard os start p
        → Confirmed os start (judge_ack os next q p s).1
    unfolding judge_ack
    judge_ack-Confirmed p s i h =
        elim (Bool-cases (not (is_ack p.type) || not (is_empty p.payload))) [
          | inl bad ↦ rw bad i
          | inr good ↦ rw good (elim (Bool-cases (p.sequence == q)) [
            | inl mine ↦ rw mine (taken os start p s i h good)
            | inr another ↦
                rw another (elim (Bool-cases (contains s.completed_sequences p.sequence)) [
                  | inl old ↦
                      rw old (ih _ (print-Confirmed os start (ignored_stale_ack p.sequence) s i))
                  | inr unknown ↦ rw unknown i
                ])
          ])
        ]

    judge_in_time-Confirmed :
        (deadline : ℕ) (p : Packet) (time : ℕ) (s : Sender os)
        → Confirmed os start s
        → Heard os start p
        → Confirmed os start (judge_in_time os next deadline q p time s).1
    unfolding judge_in_time
    judge_in_time-Confirmed deadline p time s i h = elim (Bool-cases (leb deadline time)) [
      | inl late ↦ rw late i
      | inr early ↦ rw early (judge_ack-Confirmed p s i h)
    ]

    take_ack-Confirmed :
        (deadline fd : ℕ) (s : Sender os)
        → Confirmed os start s
        → Confirmed os start (take_ack os next deadline fd q s).1
    unfolding take_ack
    take_ack-Confirmed deadline fd s i =
        Confirmed-bind os start (receive_packet os fd s) _
          (receive_packet-Confirmed os start fd s i)
          λ p t e k.
            let heard = receive_packet-Heard os start fd s p t i e in
            Confirmed-bind os start (now os t) _ (now-Confirmed os start t k)
              λ time u _ m. judge_in_time-Confirmed deadline p time u m heard

    on_poll-Confirmed :
        (deadline fd : ℕ) (r : Sys (Option Revents)) (s : Sender os)
        → Confirmed os start s
        → Confirmed os start (on_poll os next deadline fd q r s).1
    unfolding on_poll
    on_poll-Confirmed deadline fd (failed eintr) s i = ih s i
    on_poll-Confirmed deadline fd (failed e) s i = i
    on_poll-Confirmed deadline fd (done none) s i = i
    on_poll-Confirmed deadline fd (done (some events)) s i =
        elim (Bool-cases (events.pollerr || events.pollnval)) [
          | inl bad ↦ rw bad i
          | inr fine ↦ rw fine (elim (Bool-cases events.pollin) [
            | inl ready ↦ rw ready (take_ack-Confirmed deadline fd s i)
            | inr idle ↦ rw idle (ih s i)
          ])
        ]

    wait_turn-Confirmed :
        (deadline fd time : ℕ) (s : Sender os)
        → Confirmed os start s
        → Confirmed os start (wait_turn os next deadline fd q time s).1
    unfolding wait_turn
    wait_turn-Confirmed deadline fd time s i = elim (Bool-cases (leb deadline time)) [
      | inl over ↦ rw over i
      | inr left ↦ rw left (
          Confirmed-bind os start (poll os fd _ s) _ (poll-Confirmed os start fd _ s i)
            λ r t _ k. on_poll-Confirmed deadline fd r t k)
    ]

  wait_loop-Confirmed :
      (rounds deadline fd q : ℕ) (s : Sender os)
      → Confirmed os start s
      → Confirmed os start (wait_loop os rounds deadline fd q s).1
  unfolding wait_loop
  wait_loop-Confirmed zero deadline fd q s i = i
  wait_loop-Confirmed (suc rounds) deadline fd q s i =
      Confirmed-bind os start (now os s) _ (now-Confirmed os start s i) λ time t _ k.
        wait_turn-Confirmed (wait_loop os rounds deadline fd q) q
          (wait_loop-Confirmed rounds deadline fd q) deadline fd time t k

  wait_for_ack-Confirmed :
      (rounds fd q : ℕ) (s : Sender os)
      → Confirmed os start s
      → Confirmed os start (wait_for_ack os rounds fd q s).1
  unfolding wait_for_ack
  wait_for_ack-Confirmed rounds fd q s i =
      Confirmed-bind os start (now os s) _ (now-Confirmed os start s i)
        λ time t _ k. wait_loop-Confirmed rounds (time + ack_timeout_ms * ns_per_ms) fd q t k

  after_wait-Confirmed :
      (next : Sender os → Outcome Exception (Unit {0}) × Sender os) (q : ℕ) (b : Bool)
      (s : Sender os)
      → ((t : Sender os) → Confirmed os start t → Confirmed os start (next t).1)
      → Confirmed os start s
      → Confirmed os start (after_wait os next q b s).1
  unfolding after_wait
  after_wait-Confirmed next q true s ih i = print-Confirmed os start (received_ack q) s i
  after_wait-Confirmed next q false s ih i =
      Confirmed-bind os start (print os (ack_timeout q) s) _
        (print-Confirmed os start (ack_timeout q) s i) λ _ t _ k. ih t k

  attempts-Confirmed :
      (left attempt rounds fd : ℕ) (a : Address) (q : ℕ) (m : List ℕ) (s : Sender os)
      → Confirmed os start s
      → Confirmed os start (attempts os left attempt rounds fd a q m s).1
  unfolding attempts
  attempts-Confirmed zero attempt rounds fd a q m s i = i
  attempts-Confirmed (suc left) attempt rounds fd a q m s i =
      Confirmed-bind os start (send_packet os fd (data_packet os q m) a s) _
        (send_packet-Confirmed os start fd (data_packet os q m) a s i)
        λ _ t _ k.
          Confirmed-bind os start (print os (sent_data q attempt m) t) _
            (print-Confirmed os start (sent_data q attempt m) t k)
            λ _ u _ l.
              Confirmed-bind os start (wait_for_ack os rounds fd q u) _
                (wait_for_ack-Confirmed rounds fd q u l)
                λ b v _ n.
                  after_wait-Confirmed (attempts os left (attempt + 1) rounds fd a q m) q b v
                    (attempts-Confirmed left (attempt + 1) rounds fd a q m) n

  send_data_with_retry-Confirmed :
      (rounds fd : ℕ) (a : Address) (q : ℕ) (m : List ℕ) (s : Sender os)
      → Confirmed os start s
      → Confirmed os start (send_data_with_retry os rounds fd a q m s).1
  unfolding send_data_with_retry
  send_data_with_retry-Confirmed rounds fd a q m s i =
      attempts-Confirmed (max_retries + 1) 1 rounds fd a q m s i

  send_messages-Confirmed :
      (rounds fd : ℕ) (a : Address) (mode : Bool) (s : Sender os)
      → Confirmed os start s
      → Confirmed os start (send_messages os rounds fd a mode s).1
  unfolding send_messages
  send_messages-Confirmed rounds fd a true s i =
      Confirmed-bind os start (print os test_mode_out_of_order s) _
        (print-Confirmed os start test_mode_out_of_order s i)
        λ _ t _ k.
          Confirmed-bind os start
            (send_data_with_retry os rounds fd a 1 (bytes_of_text "message-1") t) _
            (send_data_with_retry-Confirmed rounds fd a 1 (bytes_of_text "message-1") t k)
            λ _ u _ l.
              Confirmed-bind os start
                (send_data_with_retry os rounds fd a 3 (bytes_of_text "message-3") u) _
                (send_data_with_retry-Confirmed rounds fd a 3 (bytes_of_text "message-3") u l)
                λ _ v _ m.
                  send_data_with_retry-Confirmed rounds fd a 2 (bytes_of_text "message-2") v m
  send_messages-Confirmed rounds fd a false s i =
      send_data_with_retry-Confirmed rounds fd a 1 (bytes_of_text "hello udp") s i

  open_socket-Confirmed :
      (s : Sender os) → Confirmed os start s → Confirmed os start (open_socket os s).1
  unfolding open_socket
  open_socket-Confirmed s i = moved os start s _ s.output (opened s.world _ i.visited refl) i

  close_socket-Confirmed :
      (fd : ℕ) (s : Sender os) → Confirmed os start s → Confirmed os start (close_socket os fd s).1
  unfolding close_socket
  close_socket-Confirmed fd s i = moved os start s _ s.output (closed fd s.world _ i.visited refl) i

  out_of_order_mode-Confirmed :
      (arguments : List String) (s : Sender os)
      → Confirmed os start s
      → Confirmed os start (out_of_order_mode os arguments s).1
  unfolding out_of_order_mode
  out_of_order_mode-Confirmed arguments s i = i

  receiver_address-Confirmed :
      (s : Sender os) → Confirmed os start s → Confirmed os start (receiver_address os s).1
  unfolding receiver_address
  receiver_address-Confirmed s i = i

  run_sender-Confirmed :
      (rounds : ℕ) (arguments : List String) (s : Sender os)
      → Confirmed os start s
      → Confirmed os start (run_sender os rounds arguments s).1
  unfolding run_sender
  run_sender-Confirmed rounds arguments s i =
      Confirmed-bind os start (out_of_order_mode os arguments s) _
        (out_of_order_mode-Confirmed arguments s i)
        λ mode t _ k.
          Confirmed-bind os start (open_socket os t) _ (open_socket-Confirmed t k) λ fd u _ l.
            Confirmed-bind os start (receiver_address os u) _ (receiver_address-Confirmed u l)
              λ a v _ m.
                Confirmed-bind os start (send_messages os rounds fd a mode v) _
                  (send_messages-Confirmed rounds fd a mode v m)
                  λ _ x _ n. close_socket-Confirmed fd x n

  exit_code-Confirmed :
      (r : Outcome Exception ℕ × Sender os)
      → Confirmed os start r.1
      → Confirmed os start (exit_code os r).1
  unfolding exit_code
  exit_code-Confirmed (throw response_timeout, s) i = i
  exit_code-Confirmed (throw x, s) i = moved os start s s.world _ i.visited i
  exit_code-Confirmed (ok n, s) i = i
  exit_code-Confirmed (running, s) i = i

contains-nil : (q : ℕ) → contains [] q ≡ true → ⊥
unfolding contains
contains-nil q k = cc

module _ (os : Os) where
  -- Each sequence that a run has completed was acknowledged: `recvfrom` answered, in a state that the
  -- run has been through, with a datagram that holds an empty ACK of that sequence.
  pub main-Confirmed :
      (rounds : ℕ) (arguments : List String) (w : os.World)
      → Confirmed os w (main os rounds arguments w).1
  unfolding main
  main-Confirmed rounds arguments w =
      exit_code-Confirmed os w (run_sender os rounds arguments (boot os w)) (
        run_sender-Confirmed os w rounds arguments (boot os w)
          (record { visited = here; acked = λ q k. absurd (contains-nil q k) }))

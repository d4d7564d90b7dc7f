-- ===== src/TcpSender/Run.antt =====
-- `main` of tcp/sender.cpp: one DATA with retries, then heartbeats, with a new connection when one is
-- lost.
use embedded_comm_reliabilit.Common.{
  ℕ, zero, suc, ◌+◌, Bool, true, false, Outcome, ok, throw, running, continue_with, List, [], ◌∷◌,
  bytes_of_text,
}
use embedded_comm_reliabilit.Protocol.{Packet, data_message, ack, heartbeat, heartbeat_ack}
use embedded_comm_reliabilit.Protocol.Error.{
  Exception, fail, connection_lost, response_timeout, ack_retry_limit_exceeded,
  heartbeat_failed_after_reconnect,
}
use embedded_comm_reliabilit.Os.{Os}
use embedded_comm_reliabilit.TcpSender.{
  Sender, R, print, send_packet, wait_for_response, sent_data, received_ack, ack_timeout,
  sent_heartbeat, heartbeat_timeout, connection_lost_during_heartbeat, reconnecting,
  resent_heartbeat, received_heartbeat_ack, sender_error,
}
use embedded_comm_reliabilit.TcpSender.Connection.{connect_with_retry, sleep}

abbrev pub ack_timeout_ms : ℕ
ack_timeout_ms = 1000

abbrev pub max_retries : ℕ
max_retries = 3

abbrev pub heartbeat_interval_sec : ℕ
heartbeat_interval_sec = 2

abbrev pub heartbeat_timeout_ms : ℕ
heartbeat_timeout_ms = 1000

abbrev pub heartbeat_count : ℕ
heartbeat_count = 3

abbrev pub message : List ℕ
message = bytes_of_text "hello embedded"

abbrev pub data_packet : Packet
data_packet = record { type = data_message; sequence = 1; payload = message }

abbrev pub heartbeat_packet : ℕ → Packet
heartbeat_packet q = record { type = heartbeat; sequence = q; payload = [] }

module _ (os : Os) (rounds : ℕ) where
  -- What follows the wait for the ACK.
  unfoldable pub after_wait : R os rounds (Unit {0}) → Bool → R os rounds (Unit {0})
  after_wait next true s = print os rounds (received_ack 1) s
  after_wait next false s = continue_with (print os rounds (ack_timeout 1) s) (λ _. next)

  -- The attempts that are left, and the number of the next.
  unfoldable pub data_attempts : ℕ → ℕ → ℕ → R os rounds (Unit {0})
  data_attempts zero attempt fd s = (fail ack_retry_limit_exceeded, s)
  data_attempts (suc left) attempt fd s =
      continue_with (send_packet os rounds fd data_packet s) (λ _ t.
        continue_with (print os rounds (sent_data 1 attempt message) t) (λ _ u.
          continue_with (wait_for_response os rounds fd ack 1 ack_timeout_ms u)
            (after_wait (data_attempts left (attempt + 1) fd))))

  -- The result tells whether a new connection is required.
  unfoldable pub heartbeat_waited : ℕ → Bool → R os rounds Bool
  heartbeat_waited q true s = (ok false, s)
  heartbeat_waited q false s =
      continue_with (print os rounds (heartbeat_timeout q) s) (λ _ t. (ok true, t))

  unfoldable pub try_heartbeat : ℕ → ℕ → ℕ → R os rounds Bool
  try_heartbeat fd q count s =
      continue_with (send_packet os rounds fd (heartbeat_packet q) s) (λ _ t.
        continue_with (print os rounds (sent_heartbeat q count) t) (λ _ u.
          continue_with (wait_for_response os rounds fd heartbeat_ack q heartbeat_timeout_ms u)
            (heartbeat_waited q)))

  -- The `catch` for ConnectionLost.
  unfoldable pub catch_lost :
      ℕ → Outcome Exception Bool × Sender os → Outcome Exception Bool × Sender os
  catch_lost q (throw (connection_lost m), s) =
      continue_with (print os rounds (connection_lost_during_heartbeat q (connection_lost m)) s)
        (λ _ t. (ok true, t))
  catch_lost q (throw e, s) = (throw e, s)
  catch_lost q (ok b, s) = (ok b, s)
  catch_lost q (running, s) = (running, s)

  unfoldable pub close : ℕ → R os rounds (Unit {0})
  close fd s = (ok tt, record s { world = os.close fd s.world })

  unfoldable pub resent : ℕ → Bool → R os rounds ℕ
  resent fd true s = (ok fd, s)
  resent fd false s = (fail heartbeat_failed_after_reconnect, s)

  unfoldable pub reconnected : ℕ → ℕ → R os rounds ℕ
  reconnected q fd s = continue_with (send_packet os rounds fd (heartbeat_packet q) s) (λ _ t.
      continue_with (print os rounds (resent_heartbeat q) t) (λ _ u.
        continue_with (wait_for_response os rounds fd heartbeat_ack q heartbeat_timeout_ms u)
          (resent fd)))

  -- The descriptor in use afterwards.
  unfoldable pub reconnect_if : ℕ → ℕ → Bool → R os rounds ℕ
  reconnect_if fd q false s = (ok fd, s)
  reconnect_if fd q true s = continue_with (close fd s) (λ _ t.
      continue_with (print os rounds reconnecting t)
        (λ _ u. continue_with (connect_with_retry os rounds u) (reconnected q)))

  -- One heartbeat.
  unfoldable pub beat : ℕ → ℕ → ℕ → R os rounds ℕ
  beat fd q count s = continue_with (sleep os rounds heartbeat_interval_sec s) (λ _ t.
      continue_with (catch_lost q (try_heartbeat fd q count t)) (λ required u.
        continue_with (reconnect_if fd q required u) (λ fd' v.
          continue_with (print os rounds (received_heartbeat_ack q) v) (λ _ w. (ok fd', w)))))

  -- The heartbeats that are left, the descriptor, the sequence and the number of the next.
  unfoldable pub beats : ℕ → ℕ → ℕ → ℕ → R os rounds ℕ
  beats zero fd q count s = (ok fd, s)
  beats (suc left) fd q count s =
      continue_with (beat fd q count s) (λ fd'. beats left fd' (q + 1) (count + 1))

  unfoldable pub closed : ℕ → R os rounds ℕ
  closed fd s = continue_with (close fd s) (λ _ t. (ok 0, t))

  unfoldable pub run_sender : R os rounds ℕ
  run_sender s = continue_with (connect_with_retry os rounds s) (λ fd t.
      continue_with (data_attempts (max_retries + 1) 1 fd t)
        (λ _ u. continue_with (beats heartbeat_count fd 2 1 u) closed))

  -- The handler of `main`, for the classes derived from `std::exception`.
  unfoldable pub exit_code : Outcome Exception ℕ × Sender os → Outcome Exception ℕ × Sender os
  exit_code (throw response_timeout, s) = (throw response_timeout, s)
  exit_code (throw e, s) = (ok 1, record s { output = sender_error e ∷ s.output })
  exit_code (ok n, s) = (ok n, s)
  exit_code (running, s) = (running, s)

  abbrev pub boot : os.World → Sender os
  boot w = record { world = w; completed = []; output = [] }

  unfoldable pub main : os.World → Outcome Exception ℕ × Sender os
  main w = exit_code (run_sender (boot w))

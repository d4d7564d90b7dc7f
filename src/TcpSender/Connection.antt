-- ===== src/TcpSender/Connection.antt =====
-- connect_to_receiver and connect_with_retry of tcp/sender.cpp.
use Prim.Native.String.{String}
use embedded_comm_reliabilit.Common.{
  ℕ, zero, suc, ◌+◌, ◌*◌, Outcome, ok, throw, running, M, continue_with, Option, none, some, ◌==◌,
  if◌then◌else◌,
}
use embedded_comm_reliabilit.Protocol.Error.{
  Exception, fail, response_timeout, socket_failed, connect_failed, invalid_server_ip_address,
  reconnect_failed,
}
use embedded_comm_reliabilit.Os.{Os, Sys, done, failed}
use embedded_comm_reliabilit.TcpSender.{R, print, connected, connect_failed_line}

abbrev pub server_ip : String
server_ip = "127.0.0.1"

abbrev pub server_port : ℕ
server_port = 5000

abbrev pub reconnect_delay_sec : ℕ
reconnect_delay_sec = 2

abbrev pub max_reconnect_attempts : ℕ
max_reconnect_attempts = 3

module _ (os : Os) where
  unfoldable pub opened : Sys ℕ × os.World → Outcome Exception ℕ × os.World
  opened (done fd, w) = (ok fd, w)
  opened (failed e, w) = (fail (socket_failed e), w)

  unfoldable pub connected_or_closed :
      ℕ → Sys (Unit {0}) × os.World → Outcome Exception ℕ × os.World
  connected_or_closed fd (done _, w) = (ok fd, w)
  connected_or_closed fd (failed e, w) = (fail (connect_failed e), os.close fd w)

  unfoldable pub connect_to : ℕ → Option ℕ → M os.World Exception ℕ
  connect_to fd none w = (fail invalid_server_ip_address, os.close fd w)
  connect_to fd (some ip) w =
      connected_or_closed fd (os.connect fd (record { ip = ip; port = server_port }) w)

  unfoldable pub connect_to_receiver : M os.World Exception ℕ
  connect_to_receiver w =
      continue_with (opened (os.socket_stream w)) (λ fd. connect_to fd (os.inet_pton server_ip))

module _ (os : Os) (rounds : ℕ) where
  unfoldable pub sleep : ℕ → R os rounds (Unit {0})
  sleep seconds s = (ok tt, record s { world = os.sleep (seconds * 1000) s.world })

  -- What follows a failed attempt: `next` is the next attempt.
  unfoldable pub try_again : R os rounds ℕ → ℕ → Exception → R os rounds ℕ
  try_again next attempt e s =
      let later = continue_with (sleep reconnect_delay_sec s) (λ _. next) in
      if attempt == max_reconnect_attempts then (throw e, s) else later

  -- What follows connect_to_receiver; the handler is for `std::exception`.
  unfoldable pub attempted : R os rounds ℕ → ℕ → Outcome Exception ℕ → R os rounds ℕ
  attempted next attempt (ok fd) s =
      continue_with (print os rounds (connected attempt) s) (λ _ t. (ok fd, t))
  attempted next attempt (throw response_timeout) s = (throw response_timeout, s)
  attempted next attempt (throw e) s =
      continue_with (print os rounds (connect_failed_line attempt e) s)
        (λ _. try_again next attempt e)
  attempted next attempt running s = (running, s)

  -- The attempts that are left, and the number of the next.
  unfoldable pub connect_attempts : ℕ → ℕ → R os rounds ℕ
  connect_attempts zero attempt s = (fail reconnect_failed, s)
  connect_attempts (suc left) attempt s =
      let (r, w) = connect_to_receiver os s.world in
      attempted (connect_attempts left (attempt + 1)) attempt r (record s { world = w })

  unfoldable pub connect_with_retry : R os rounds ℕ
  connect_with_retry = connect_attempts max_reconnect_attempts 1

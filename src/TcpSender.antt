-- ===== src/TcpSender.antt =====
-- tcp/sender.cpp, up to wait_for_response: the waits of the TCP client, each with one absolute
-- deadline, and the set of the responses that it has taken.
pub mod Connection
pub mod Run
pub mod Steps
pub mod Exit
use embedded_comm_reliabilit.Common.{
  ℕ, zero, suc, ◌+◌, ◌-◌, ◌*◌, ◌/◌, Bool, true, false, not, ◌&&◌, ◌||◌, List, [], ◌∷◌, ◌++◌, length,
  ltb, leb, ◌==◌, if◌then◌else◌, Outcome, ok, throw, running, M, continue_with, ◌>>=◌, of_outcome,
  Option, none, some,
}
use embedded_comm_reliabilit.Protocol.{
  Packet, MessageType, ack, heartbeat_ack, other, to_byte, header_size,
}
use embedded_comm_reliabilit.Protocol.Codec.{get_payload_length, decode_packet}
use embedded_comm_reliabilit.Protocol.Error.{
  Errno, eintr, eagain, ewouldblock, epipe, econnreset, Message, Exception, fail, runtime_error,
  connection_lost, response_timeout, send_failed, recv_failed, poll_failed, connection_errno,
  connection_closed_while_sending, connection_error_while_waiting, peer_closed,
  partial_response_deadline_exceeded, invalid_response_packet, unexpected_response_type_or_sequence,
}
use embedded_comm_reliabilit.Os.{Os, Sys, done, failed, Revents}
use embedded_comm_reliabilit.Os.Stream
use embedded_comm_reliabilit.Os.Stream.{Policy}

-- The clock counts nanoseconds.
abbrev pub ns_per_ms : ℕ
ns_per_ms = 1_000_000

-- What `send_all` throws for an `errno`.
unfoldable pub send_error : Errno → Exception
send_error epipe = connection_lost (connection_errno epipe)
send_error econnreset = connection_lost (connection_errno econnreset)
send_error e = runtime_error (send_failed e)

-- `recv_exact` of this program is its own, below; the fields for it repeat what it throws.
abbrev pub policy : Policy
policy = record {
  on_send_errno = send_error;
  on_send_zero = connection_lost connection_closed_while_sending;
  on_recv_errno = λ e. runtime_error (recv_failed e);
  on_recv_end = connection_lost peer_closed;
}

-- What the client prints; an attempt or a count comes second.
pub data Line : Type 0 where
  connected : ℕ → Line
  connect_failed_line : ℕ → Exception → Line
  sent_data : ℕ → ℕ → List ℕ → Line
  sent_heartbeat : ℕ → ℕ → Line
  received_ack ack_timeout ignored_stale_response heartbeat_timeout : ℕ → Line
  connection_lost_during_heartbeat : ℕ → Exception → Line
  reconnecting : Line
  resent_heartbeat received_heartbeat_ack : ℕ → Line
  sender_error : Exception → Line

-- `completed_responses`, and what has been printed, the newest line first.
pub record Sender (os : Os) : Type 0 where
  pub world : os.World
  pub completed : List (MessageType × ℕ)
  pub output : List Line

-- The bytes of a frame that have been received, by reference in the source.
pub record Reading (os : Os) : Type 0 where
  pub world : os.World
  pub frame_bytes : ℕ

-- `==` on `protocol::MessageType`
abbrev pub same_type : MessageType → MessageType → Bool
same_type t u = to_byte t == to_byte u

-- `completed.count({type, sequence}) != 0`
unfoldable pub has : List (MessageType × ℕ) → MessageType → ℕ → Bool
has [] t q = false
has ((u, p) ∷ rs) t q = same_type u t && p == q || has rs t q

-- `completed.emplace(type, sequence)`
unfoldable pub emplace : List (MessageType × ℕ) → MessageType → ℕ → List (MessageType × ℕ)
emplace rs t q = if has rs t q then rs else (t, q) ∷ rs

unfoldable pub is_response : MessageType → Bool
is_response ack = true
is_response heartbeat_ack = true
is_response _ = false

unfoldable pub is_empty : List ℕ → Bool
is_empty [] = true
is_empty (_ ∷ _) = false

module _ (os : Os) where
  abbrev pub Rd : Type 0 → Type 0
  Rd A = M (Reading os) Exception A

  -- What follows one `recv`.
  unfoldable pub recv_next : (List ℕ → Rd (List ℕ)) → List ℕ → Sys (List ℕ) → Rd (List ℕ)
  recv_next next buffer (failed eintr) s = next buffer s
  recv_next next buffer (failed eagain) s = next buffer s
  recv_next next buffer (failed ewouldblock) s = next buffer s
  recv_next next buffer (failed econnreset) s =
      (throw (connection_lost (connection_errno econnreset)), s)
  recv_next next buffer (failed e) s = (fail (recv_failed e), s)
  recv_next next buffer (done []) s = (throw (connection_lost peer_closed), s)
  recv_next next buffer (done (b ∷ bs)) s =
      next (buffer ++ b ∷ bs) (record s { frame_bytes = s.frame_bytes + suc (length bs) })

  -- What follows `poll`.
  unfoldable pub poll_next :
      (List ℕ → Rd (List ℕ)) → ℕ → ℕ → List ℕ → Sys (Option Revents) → Rd (List ℕ)
  poll_next next fd size buffer (failed eintr) s = next buffer s
  poll_next next fd size buffer (failed e) s = (fail (poll_failed e), s)
  poll_next next fd size buffer (done none) s = (throw response_timeout, s)
  poll_next next fd size buffer (done (some events)) s =
      let again = next buffer s in
      let (r, w) = os.recv_dontwait fd (size - length buffer) s.world in
      let taken = recv_next next buffer r (record s { world = w }) in
      if events.pollerr || events.pollnval
      then (throw (connection_lost connection_error_while_waiting), s)
      else if not events.pollin
      then if events.pollhup then (throw (connection_lost peer_closed), s) else again
      else taken

  -- One turn of the loop, from the time that it has read.
  unfoldable pub recv_turn : (List ℕ → Rd (List ℕ)) → ℕ → ℕ → ℕ → List ℕ → ℕ → Rd (List ℕ)
  recv_turn next deadline fd size buffer time s =
      let remaining = deadline - time in
      let (r, w) = os.poll_one fd ((remaining + (ns_per_ms - 1)) / ns_per_ms) s.world in
      let body = poll_next next fd size buffer r (record s { world = w }) in
      if leb deadline time then (throw response_timeout, s) else body

  unfoldable pub recv_loop : ℕ → ℕ → ℕ → ℕ → List ℕ → Rd (List ℕ)
  recv_loop zero deadline fd size buffer s = (running, s)
  recv_loop (suc rounds) deadline fd size buffer s =
      let (time, w) = os.now s.world in
      let body =
        recv_turn (recv_loop rounds deadline fd size) deadline fd size buffer time
          (record s { world = w }) in
      if ltb (length buffer) size then body else (ok buffer, s)

  unfoldable pub recv_exact : ℕ → ℕ → ℕ → ℕ → Rd (List ℕ)
  recv_exact rounds deadline fd size = recv_loop rounds deadline fd size []

  unfoldable pub receive_packet : ℕ → ℕ → ℕ → Rd Packet
  receive_packet rounds deadline fd = do
    header ← recv_exact rounds deadline fd header_size
    payload_length ← of_outcome (get_payload_length header)
    payload ← recv_exact rounds deadline fd payload_length
    of_outcome (decode_packet header payload)

module _ (os : Os) (rounds : ℕ) where
  abbrev pub R : Type 0 → Type 0
  R A = M (Sender os) Exception A

  unfoldable pub print : Line → R (Unit {0})
  print l s = (ok tt, record s { output = l ∷ s.output })

  unfoldable pub now : R ℕ
  now s = let (t, w) = os.now s.world in (ok t, record s { world = w })

  unfoldable pub send_packet : ℕ → Packet → R (Unit {0})
  send_packet fd packet s =
      let (r, w) = Stream.send_packet os policy rounds fd packet s.world in
      (r, record s { world = w })

  unfoldable pub judge_response : R Bool → MessageType → ℕ → Packet → R Bool
  unfolding print
  judge_response next t q p s =
      let stale = continue_with (print (ignored_stale_response p.sequence) s) (λ _. next) in
      if not (is_response p.type) || not (is_empty p.payload)
      then (fail invalid_response_packet, s)
      else if same_type p.type t && p.sequence == q
      then (ok true, record s { completed = emplace s.completed p.type p.sequence })
      else if has s.completed p.type p.sequence
      then stale
      else (fail unexpected_response_type_or_sequence, s)

  -- A complete frame that comes at the deadline or later is too late.
  unfoldable pub judge_in_time : R Bool → ℕ → MessageType → ℕ → Packet → ℕ → R Bool
  judge_in_time next deadline t q p time s =
      let judged = judge_response next t q p s in
      if leb deadline time then (ok false, s) else judged

  -- The `catch`: inside a frame the connection is discarded.
  unfoldable pub response_read :
      R Bool → ℕ → ℕ → MessageType → ℕ → Outcome Exception Packet → ℕ → R Bool
  response_read next deadline fd t q (ok p) n s =
      continue_with (now s) (judge_in_time next deadline t q p)
  response_read next deadline fd t q (throw response_timeout) zero s = (ok false, s)
  response_read next deadline fd t q (throw response_timeout) (suc n) s = (
    fail partial_response_deadline_exceeded,
    record s { world = os.close fd (os.shutdown fd s.world) },
  )
  response_read next deadline fd t q (throw e) n s = (throw e, s)
  response_read next deadline fd t q running n s = (running, s)

  unfoldable pub wait_turn : R Bool → ℕ → ℕ → MessageType → ℕ → ℕ → R Bool
  wait_turn next deadline fd t q time s =
      let (r, reading) =
        receive_packet os rounds deadline fd (record { world = s.world; frame_bytes = 0 }) in
      let body =
        response_read next deadline fd t q r reading.frame_bytes
          (record s { world = reading.world }) in
      if ltb time deadline then body else (ok false, s)

  unfoldable pub wait_loop : ℕ → ℕ → ℕ → MessageType → ℕ → R Bool
  wait_loop zero deadline fd t q s = (running, s)
  wait_loop (suc turns) deadline fd t q s =
      continue_with (now s) (wait_turn (wait_loop turns deadline fd t q) deadline fd t q)

  unfoldable pub wait_from : ℕ → MessageType → ℕ → ℕ → ℕ → R Bool
  wait_from fd t q timeout_ms start = wait_loop rounds (start + timeout_ms * ns_per_ms) fd t q

  unfoldable pub wait_for_response : ℕ → MessageType → ℕ → ℕ → R Bool
  wait_for_response fd t q timeout_ms s = continue_with (now s) (wait_from fd t q timeout_ms)

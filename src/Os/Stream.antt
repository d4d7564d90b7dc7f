-- ===== src/Os/Stream.antt =====
-- The loops `send_all` and `recv_exact`, with `send_packet` and `receive_packet`, which tcp/receiver.cpp
-- and fault_injector/tcp_proxy.cpp each write out; tcp/sender.cpp has the same `send_all` and
-- `send_packet`. They differ only in what they throw. A loop takes the number of rounds that it may
-- make; `running` says that it wants more.
use embedded_comm_reliabilit.Common.{
  ℕ, zero, suc, ◌+◌, ◌-◌, List, [], ◌∷◌, ◌++◌, length, drop, ltb, if◌then◌else◌, ok, throw, M,
  suspend, ◌>>=◌, of_outcome,
}
use embedded_comm_reliabilit.Protocol.{Packet, header_size}
use embedded_comm_reliabilit.Protocol.Codec.{encode_packet, get_payload_length, decode_packet}
use embedded_comm_reliabilit.Protocol.Error.{Errno, eintr, Exception}
use embedded_comm_reliabilit.Os.{Os, Sys, done, failed}

-- What a program throws when a stream call fails, or moves no byte.
pub record Policy : Type 0 where
  pub on_send_errno : Errno → Exception
  pub on_send_zero : Exception
  pub on_recv_errno : Errno → Exception
  pub on_recv_end : Exception

-- What follows one `send`: `next` goes round the loop again with a new `total_sent`.
unfoldable pub send_next :
    {W : Type 0} → Policy → (ℕ → M W Exception (Unit {0})) → ℕ → Sys ℕ → M W Exception (Unit {0})
send_next policy next total_sent (failed eintr) w = next total_sent w
send_next policy next total_sent (failed e) w = (throw (policy.on_send_errno e), w)
send_next policy next total_sent (done zero) w = (throw policy.on_send_zero, w)
send_next policy next total_sent (done (suc n)) w = next (total_sent + suc n) w

-- What follows one `recv`; `buffer` holds what has been received, `total_received` is its length.
unfoldable pub recv_next :
    {W : Type 0}
    → Policy
    → (List ℕ → M W Exception (List ℕ))
    → List ℕ
    → Sys (List ℕ)
    → M W Exception (List ℕ)
recv_next policy next buffer (failed eintr) w = next buffer w
recv_next policy next buffer (failed e) w = (throw (policy.on_recv_errno e), w)
recv_next policy next buffer (done []) w = (throw policy.on_recv_end, w)
recv_next policy next buffer (done (b ∷ bs)) w = next (buffer ++ b ∷ bs) w

module _ (os : Os) (policy : Policy) where
  open os use {World, send, recv}

  unfoldable pub send_loop : ℕ → ℕ → List ℕ → ℕ → M World Exception (Unit {0})
  send_loop zero fd buffer total_sent w = suspend w
  send_loop (suc rounds) fd buffer total_sent w =
      let (sent, w') = send fd (drop total_sent buffer) w in
      let body = send_next policy (send_loop rounds fd buffer) total_sent sent w' in
      if ltb total_sent (length buffer) then body else (ok tt, w)

  unfoldable pub send_all : ℕ → ℕ → List ℕ → M World Exception (Unit {0})
  send_all rounds fd buffer = send_loop rounds fd buffer 0

  unfoldable pub recv_loop : ℕ → ℕ → ℕ → List ℕ → M World Exception (List ℕ)
  recv_loop zero fd size buffer w = suspend w
  recv_loop (suc rounds) fd size buffer w =
      let (received, w') = recv fd (size - length buffer) w in
      let body = recv_next policy (recv_loop rounds fd size) buffer received w' in
      if ltb (length buffer) size then body else (ok buffer, w)

  unfoldable pub recv_exact : ℕ → ℕ → ℕ → M World Exception (List ℕ)
  recv_exact rounds fd size = recv_loop rounds fd size []

  unfoldable pub send_packet : ℕ → ℕ → Packet → M World Exception (Unit {0})
  send_packet rounds fd packet = do
    encoded ← of_outcome (encode_packet packet)
    send_all rounds fd encoded

  unfoldable pub receive_packet : ℕ → ℕ → M World Exception Packet
  receive_packet rounds fd = do
    header ← recv_exact rounds fd header_size
    payload_length ← of_outcome (get_payload_length header)
    payload ← recv_exact rounds fd payload_length
    of_outcome (decode_packet header payload)

-- ===== src/Os.antt =====
-- The system calls of the programs. The kernel is not part of the repository, so it is a parameter:
-- a type of states and, for each call, a function to the call's result and the next state. The
-- clients, the network and the clock are in the state too.
pub mod Stream
pub mod Laws
pub mod Sending
pub mod Receiving
pub mod Framing
pub mod Delivery
pub mod Ending
pub mod Datagram
use Prim.Native.String.{String}
use embedded_comm_reliabilit.Common.{ℕ, List, Bool, Option}
use embedded_comm_reliabilit.Protocol.Error.{Errno}

-- What a call returns; `failed` is -1 with its `errno`.
pub data Sys (A : Type 0) : Type 0 where
  done : A → Sys A
  failed : Errno → Sys A

-- `pollfd::revents`
pub record Revents : Type 0 where
  pub pollin : Bool
  pub pollerr : Bool
  pub pollhup : Bool
  pub pollnval : Bool

-- `sockaddr_in`
pub record Address : Type 0 where
  pub ip : ℕ
  pub port : ℕ

pub record Os : Type 1 where
  pub World : Type 0
  -- The bytes offered; the count accepted.
  pub send : ℕ → List ℕ → World → Sys ℕ × World
  -- At most so many bytes; none at the end of the stream.
  pub recv : ℕ → ℕ → World → Sys (List ℕ) × World
  -- `recv` with MSG_DONTWAIT
  pub recv_dontwait : ℕ → ℕ → World → Sys (List ℕ) × World
  pub sendto : ℕ → List ℕ → Address → World → Sys ℕ × World
  pub recvfrom : ℕ → ℕ → World → Sys (List ℕ × Address) × World
  -- One descriptor, with a timeout in milliseconds; `none` when it has run out.
  pub poll_one : ℕ → ℕ → World → Sys (Option Revents) × World
  -- Two descriptors, with no timeout.
  pub poll_two : ℕ → ℕ → World → Sys (Revents × Revents) × World
  -- `steady_clock::now()`, in nanoseconds
  pub now : World → ℕ × World
  -- `this_thread::sleep_for`, in milliseconds
  pub sleep : ℕ → World → World
  pub socket_stream : World → Sys ℕ × World
  pub socket_dgram : World → Sys ℕ × World
  pub set_reuse_address : ℕ → World → Sys (Unit {0}) × World
  pub bind : ℕ → Address → World → Sys (Unit {0}) × World
  pub listen : ℕ → ℕ → World → Sys (Unit {0}) × World
  pub accept : ℕ → World → Sys ℕ × World
  pub connect : ℕ → Address → World → Sys (Unit {0}) × World
  -- The IPv4 address of a dotted text; `none` unless the call returns 1.
  pub inet_pton : String → Option ℕ
  pub shutdown : ℕ → World → World
  pub close : ℕ → World → World

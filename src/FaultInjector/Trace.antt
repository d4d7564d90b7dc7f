-- ===== src/FaultInjector/Trace.antt =====
-- What fault_injector/tcp_proxy.cpp does with the packets that it receives, as a history of the kernel's
-- states: each packet received is handled by exactly one event.
use embedded_comm_reliabilit.Common.{
  ℕ, suc, ◌≡◌, ◌≢◌, Bool, true, false, List, [], ◌∷◌, Outcome, ok, All,
}
use embedded_comm_reliabilit.Protocol.{Packet, data_message, ack, heartbeat}
use embedded_comm_reliabilit.Protocol.Codec.{encode_packet}
use embedded_comm_reliabilit.Protocol.Error.{Errno, Exception}
use embedded_comm_reliabilit.Os.{Os, done, failed}
use embedded_comm_reliabilit.Os.Stream
use embedded_comm_reliabilit.FaultInjector.{
  Proxy, Line, FaultMode, drop_ack, delay_ack, corrupt_data, disconnect, policy, corrupted_data,
  disconnected_heartbeat, dropped_ack, delayed_ack, to_receiver, to_sender, message_type_name,
  corrupt_frame, send_corrupted, ack_delay_ms,
}
use embedded_comm_reliabilit.FaultInjector.Server.{connect_to_receiver, create_listen_socket}

pub data Event : Type 0 where
  -- A packet of the sender, passed to the receiver, and one of the receiver, passed to the sender.
  passed_on passed_back : Packet → Event
  -- The faults; sending a damaged frame can fail.
  corrupted corruption_failed disconnected dropped delayed : Packet → Event

module _ (os : Os) (rounds : ℕ) (start : os.World) where
  -- The packets received and what was done with them, the newest first, up to a state of the kernel;
  -- `a` is the descriptor of the sender and `b` that of the receiver.
  pub data Trace : ℕ → ℕ → List Event → os.World → Type 0 where
    begun : (a b : ℕ) → Trace a b [] start
    -- No packet is received or sent.
    opened :
        (a b : ℕ) (es : List Event) (v w : os.World)
        → Trace a b es v
        → (create_listen_socket os v).1 ≡ w
        → Trace a b es w
    not_accepted :
        (a b listen_fd : ℕ) (e : Errno) (es : List Event) (v w : os.World)
        → Trace a b es v
        → os.accept listen_fd v ≡ (failed e, w)
        → Trace a b es w
    accepted :
        (a b listen_fd fd : ℕ) (es : List Event) (v w : os.World)
        → Trace a b es v
        → os.accept listen_fd v ≡ (done fd, w)
        → Trace fd b es w
    not_connected :
        (a b : ℕ) (x : Outcome Exception ℕ) (es : List Event) (v w : os.World)
        → Trace a b es v
        → connect_to_receiver os v ≡ (x, w)
        → ((fd : ℕ) → x ≢ ok fd)
        → Trace a b es w
    connected :
        (a b fd : ℕ) (es : List Event) (v w : os.World)
        → Trace a b es v
        → connect_to_receiver os v ≡ (ok fd, w)
        → Trace a fd es w
    polled :
        (a b : ℕ) (es : List Event) (v w : os.World)
        → Trace a b es v
        → (os.poll_two a b v).1 ≡ w
        → Trace a b es w
    closed :
        (a b fd : ℕ) (es : List Event) (v w : os.World)
        → Trace a b es v
        → os.close fd v ≡ w
        → Trace a b es w
    not_received :
        (a b fd : ℕ) (x : Outcome Exception Packet) (es : List Event) (v w : os.World)
        → Trace a b es v
        → Stream.receive_packet os policy rounds fd v ≡ (x, w)
        → ((p : Packet) → x ≢ ok p)
        → Trace a b es w
    -- A packet of the sender.
    pass_on :
        (a b : ℕ) (p : Packet) (es : List Event) (v u w : os.World)
        → Trace a b es v
        → Stream.receive_packet os policy rounds a v ≡ (ok p, u)
        → (Stream.send_packet os policy rounds b p u).1 ≡ w
        → Trace a b (passed_on p ∷ es) w
    corrupt :
        (a b : ℕ) (p : Packet) (bytes frame : List ℕ) (es : List Event) (v u w : os.World)
        → Trace a b es v
        → Stream.receive_packet os policy rounds a v ≡ (ok p, u)
        → encode_packet p ≡ ok bytes
        → corrupt_frame bytes ≡ ok frame
        → Stream.send_all os policy rounds b frame u ≡ (ok tt, w)
        → Trace a b (corrupted p ∷ es) w
    fail_to_corrupt :
        (a b : ℕ) (p : Packet) (x : Outcome Exception (Unit {0})) (es : List Event)
        (v u w : os.World)
        → Trace a b es v
        → Stream.receive_packet os policy rounds a v ≡ (ok p, u)
        → send_corrupted os rounds b p u ≡ (x, w)
        → x ≢ ok tt
        → Trace a b (corruption_failed p ∷ es) w
    cut :
        (a b : ℕ) (p : Packet) (es : List Event) (v u w : os.World)
        → Trace a b es v
        → Stream.receive_packet os policy rounds a v ≡ (ok p, u)
        → os.shutdown b (os.shutdown a u) ≡ w
        → Trace a b (disconnected p ∷ es) w
    -- A packet of the receiver.
    pass_back :
        (a b : ℕ) (p : Packet) (es : List Event) (v u w : os.World)
        → Trace a b es v
        → Stream.receive_packet os policy rounds b v ≡ (ok p, u)
        → (Stream.send_packet os policy rounds a p u).1 ≡ w
        → Trace a b (passed_back p ∷ es) w
    drop :
        (a b : ℕ) (p : Packet) (es : List Event) (v w : os.World)
        → Trace a b es v
        → Stream.receive_packet os policy rounds b v ≡ (ok p, w)
        → Trace a b (dropped p ∷ es) w
    delay :
        (a b : ℕ) (p : Packet) (es : List Event) (v u w : os.World)
        → Trace a b es v
        → Stream.receive_packet os policy rounds b v ≡ (ok p, u)
        → (Stream.send_packet os policy rounds a p (os.sleep ack_delay_ms u)).1 ≡ w
        → Trace a b (delayed p ∷ es) w

-- An event that the mode allows.
abbrev pub IsOfMode : FaultMode → Event → Type 0
IsOfMode mode (passed_on p) = Unit {0}
IsOfMode mode (passed_back p) = Unit {0}
IsOfMode mode (corrupted p) = (mode ≡ corrupt_data) × (p.type ≡ data_message)
IsOfMode mode (corruption_failed p) = (mode ≡ corrupt_data) × (p.type ≡ data_message)
IsOfMode mode (disconnected p) = (mode ≡ disconnect) × (p.type ≡ heartbeat)
IsOfMode mode (dropped p) = (mode ≡ drop_ack) × (p.type ≡ ack)
IsOfMode mode (delayed p) = (mode ≡ delay_ack) × (p.type ≡ ack)

-- The faults that were applied.
abbrev pub faults : List Event → ℕ
faults [] = 0
faults (passed_on p ∷ es) = faults es
faults (passed_back p ∷ es) = faults es
faults (corruption_failed p ∷ es) = faults es
faults (_ ∷ es) = suc (faults es)

-- The lines that tell of packets.
abbrev pub packet_lines : List Line → List Line
packet_lines [] = []
packet_lines (corrupted_data q ∷ ls) = corrupted_data q ∷ packet_lines ls
packet_lines (disconnected_heartbeat q ∷ ls) = disconnected_heartbeat q ∷ packet_lines ls
packet_lines (dropped_ack q ∷ ls) = dropped_ack q ∷ packet_lines ls
packet_lines (delayed_ack q ∷ ls) = delayed_ack q ∷ packet_lines ls
packet_lines (to_receiver name q ∷ ls) = to_receiver name q ∷ packet_lines ls
packet_lines (to_sender name q ∷ ls) = to_sender name q ∷ packet_lines ls
packet_lines (_ ∷ ls) = packet_lines ls

-- The lines that an event prints.
abbrev pub lines_of : List Event → List Line
lines_of [] = []
lines_of (passed_on p ∷ es) = to_receiver (message_type_name p.type) p.sequence ∷ lines_of es
lines_of (passed_back p ∷ es) = to_sender (message_type_name p.type) p.sequence ∷ lines_of es
lines_of (corrupted p ∷ es) = corrupted_data p.sequence ∷ lines_of es
lines_of (corruption_failed p ∷ es) = corrupted_data p.sequence ∷ lines_of es
lines_of (disconnected p ∷ es) = disconnected_heartbeat p.sequence ∷ lines_of es
lines_of (dropped p ∷ es) = dropped_ack p.sequence ∷ lines_of es
lines_of (delayed p ∷ es) =
    to_sender (message_type_name p.type) p.sequence ∷ delayed_ack p.sequence ∷ lines_of es

abbrev pub as_number : Bool → ℕ
as_number true = 1
as_number false = 0

-- The state of the proxy that began in `start` in a mode: some history led to the kernel's state, its
-- faults are of the mode, `fault_applied` counts them, and the lines tell of its events.
pub record Obeys (os : Os) (rounds : ℕ) (start : os.World) (mode : FaultMode) (a b : ℕ)
    (s : Proxy os) : Type 0 where
  pub events : List Event
  pub trace : Trace os rounds start a b events s.world
  pub of_mode : All (IsOfMode mode) events
  pub applied : faults events ≡ as_number s.fault_applied
  pub printed : packet_lines s.output ≡ lines_of events

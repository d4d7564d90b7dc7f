-- ===== src/UdpSender/Heard.antt =====
-- What `recvfrom` has answered in the states that a run of udp/sender.cpp has been through, and its
-- single steps.
use embedded_comm_reliabilit.Common.{
  ℕ, ◌≡◌, refl, ap, ◌∙◌, true, false, not, ◌||◌, inl, inr, ◌⊎◌, List, [], ◌∷◌, contains, insert,
  length, arith, ok_inj, Outcome, ok, throw, running, continue_with, Outcome-cases,
}
use embedded_comm_reliabilit.Protocol.{
  Packet, MessageType, data_message, ack, heartbeat, heartbeat_ack, other,
}
use embedded_comm_reliabilit.Protocol.Error.{Exception}
use embedded_comm_reliabilit.Os.{Os, Address, Sys, done, failed}
use embedded_comm_reliabilit.Os.Datagram.{
  decode_datagram, received_datagram, receive_datagram, receive_buffer_size, sent_datagram,
  send_encoded, send_datagram,
}
use embedded_comm_reliabilit.Protocol.Codec.{encode_packet}
use embedded_comm_reliabilit.UdpSender.{
  Sender, Line, print, now, poll, receive_packet, send_packet, is_ack, is_empty,
}

module _ (os : Os) (start : os.World) where
  -- The states that the system calls of a run lead to.
  pub data Visits : os.World → Type 0 where
    here : Visits start
    received :
        (fd : ℕ) (v w : os.World)
        → Visits v
        → (os.recvfrom fd receive_buffer_size v).1 ≡ w
        → Visits w
    sent :
        (fd : ℕ) (bytes : List ℕ) (a : Address) (v w : os.World)
        → Visits v
        → (os.sendto fd bytes a v).1 ≡ w
        → Visits w
    polled : (fd ms : ℕ) (v w : os.World) → Visits v → (os.poll_one fd ms v).1 ≡ w → Visits w
    timed : (v w : os.World) → Visits v → (os.now v).1 ≡ w → Visits w
    opened : (v w : os.World) → Visits v → (os.socket_dgram v).1 ≡ w → Visits w
    closed : (fd : ℕ) (v w : os.World) → Visits v → os.close fd v ≡ w → Visits w

  -- In a state of the run `recvfrom` has answered with a datagram that holds the packet.
  pub record Heard (p : Packet) : Type 0 where
    pub fd : ℕ
    pub before : os.World
    pub visited : Visits before
    pub bytes : List ℕ
    pub address : Address
    pub answer : (os.recvfrom fd receive_buffer_size before).0 ≡ done (bytes, address)
    pub decoded : decode_datagram bytes ≡ ok p

  abbrev pub empty_ack : ℕ → Packet
  empty_ack q = record { type = ack; sequence = q; payload = [] }

  -- Each completed sequence was acknowledged by an empty ACK that has been heard.
  pub record Confirmed (s : Sender os) : Type 0 where
    pub visited : Visits s.world
    pub acked : (q : ℕ) → contains s.completed_sequences q ≡ true → Heard (empty_ack q)

  packet_ext :
      (t u : MessageType) (m n : ℕ) (xs ys : List ℕ)
      → t ≡ u
      → m ≡ n
      → xs ≡ ys
      → ◌≡◌ {A = Packet}
          (record { type = t; sequence = m; payload = xs })
          (record { type = u; sequence = n; payload = ys })
  packet_ext t u m n xs ys e f g = rw (e, f, g) refl

  is_ack→eq : (t : MessageType) → is_ack t ≡ true → t ≡ ack
  unfolding is_ack
  is_ack→eq ack e = refl
  is_ack→eq data_message e = cc
  is_ack→eq heartbeat e = cc
  is_ack→eq heartbeat_ack e = cc
  is_ack→eq (other b) e = cc

  is_empty→eq : (xs : List ℕ) → is_empty xs ≡ true → xs ≡ []
  unfolding is_empty
  is_empty→eq [] e = refl
  is_empty→eq (x ∷ xs) e = cc

  contains-insert_cases :
      (ys : List ℕ) (x z : ℕ) → contains (insert ys x) z ≡ true → (x ≡ z) ⊎ (contains ys z ≡ true)
  unfolding insert contains
  contains-insert_cases ys x z h = ground arith

  received_cases :
      (r : Sys (List ℕ × Address)) (w : os.World) (p : Packet) (b : Address)
      → (received_datagram r w).0 ≡ ok (p, b)
      → (bytes : List ℕ) × (a : Address) × (r ≡ done (bytes, a)) × (decode_datagram bytes ≡ ok p)
  unfolding received_datagram
  received_cases (failed e) w p b f = cc
  received_cases (done (bytes, a)) w p b f = elim (Outcome-cases (decode_datagram bytes)) [
    | inl (q, g) ↦
        let same : (q, a) ≡ (p, b) = ok_inj (q, a) (p, b) (rw g at f) in
        (bytes, a, refl, g ∙ ap (λ x. ok (x.0)) same)
    | inr (inl (x, g)) ↦ let k = rw g at f in cc
    | inr (inr g) ↦ let k = rw g at f in cc
  ]

  pub moved :
      (s : Sender os) (w : os.World) (l : List Line)
      → Visits w
      → Confirmed s
      → Confirmed (record { world = w; completed_sequences = s.completed_sequences; output = l })
  moved s w l v i = record { visited = v; acked = i.acked }

  pub Confirmed-bind :
      {A B : Type 0} (r : Outcome Exception A × Sender os)
      (f : A → Sender os → Outcome Exception B × Sender os)
      → Confirmed r.1
      → ((a : A) (t : Sender os) → r ≡ (ok a, t) → Confirmed t → Confirmed (f a t).1)
      → Confirmed (continue_with r f).1
  Confirmed-bind (ok a, t) f i h = h a t refl i
  Confirmed-bind (throw x, t) f i h = i
  Confirmed-bind (running, t) f i h = i

  pub print-Confirmed : (l : Line) (s : Sender os) → Confirmed s → Confirmed (print os l s).1
  unfolding print
  print-Confirmed l s i = moved s s.world (l ∷ s.output) i.visited i

  pub now-Confirmed : (s : Sender os) → Confirmed s → Confirmed (now os s).1
  unfolding now
  now-Confirmed s i = moved s _ s.output (timed s.world _ i.visited refl) i

  pub poll-Confirmed : (fd ms : ℕ) (s : Sender os) → Confirmed s → Confirmed (poll os fd ms s).1
  unfolding poll
  poll-Confirmed fd ms s i = moved s _ s.output (polled fd ms s.world _ i.visited refl) i

  after_receive :
      (r : Sys (List ℕ × Address) × os.World) → Visits r.1 → Visits (received_datagram r.0 r.1).1
  unfolding received_datagram
  after_receive (failed e, w) v = v
  after_receive (done (bytes, a), w) v = v

  pub receive_packet-Confirmed :
      (fd : ℕ) (s : Sender os) → Confirmed s → Confirmed (receive_packet os fd s).1
  unfolding receive_packet receive_datagram
  receive_packet-Confirmed fd s i =
      moved s _ s.output
        (after_receive (os.recvfrom fd receive_buffer_size s.world)
          (received fd s.world _ i.visited refl))
        i

  pub receive_packet-Heard :
      (fd : ℕ) (s : Sender os) (p : Packet) (t : Sender os)
      → Confirmed s
      → receive_packet os fd s ≡ (ok p, t)
      → Heard p
  unfolding receive_packet receive_datagram
  receive_packet-Heard fd s p t i e =
      let r = os.recvfrom fd receive_buffer_size s.world in
      elim (Outcome-cases (received_datagram r.0 r.1).0) [
        | inl ((q, b), g) ↦
            let same : q ≡ p = ok_inj {E = Exception} q p (rw g at (ap (λ x. x.0) e)) in
            let (bytes, a, answer, decoded) = received_cases r.0 r.1 q b g in
            record {
              fd = fd;
              before = s.world;
              visited = i.visited;
              bytes = bytes;
              address = a;
              answer = answer;
              decoded = decoded ∙ ap ok same;
            }
        | inr (inl (x, g)) ↦ let k = rw g at (ap (λ x. x.0) e) in cc
        | inr (inr g) ↦ let k = rw g at (ap (λ x. x.0) e) in cc
      ]

  after_sent : (n : ℕ) (r : Sys ℕ) (w : os.World) → Visits w → Visits (sent_datagram n r w).1
  unfolding sent_datagram
  after_sent n (failed e) w v = v
  after_sent n (done m) w v = v

  after_send :
      (fd : ℕ) (a : Address) (r : Outcome Exception (List ℕ)) (w : os.World)
      → Visits w
      → Visits (send_encoded os fd a r w).1
  unfolding send_encoded
  after_send fd a (ok bytes) w v = after_sent (length bytes) _ _ (sent fd bytes a w _ v refl)
  after_send fd a (throw x) w v = v
  after_send fd a running w v = v

  pub send_packet-Confirmed :
      (fd : ℕ) (p : Packet) (a : Address) (s : Sender os)
      → Confirmed s
      → Confirmed (send_packet os fd p a s).1
  unfolding send_packet send_datagram
  send_packet-Confirmed fd p a s i =
      moved s _ s.output (after_send fd a (encode_packet p) s.world i.visited) i

  pub taken :
      (p : Packet) (s : Sender os)
      → Confirmed s
      → Heard p
      → (not (is_ack p.type) || not (is_empty p.payload)) ≡ false
      → Confirmed (record s { completed_sequences = insert s.completed_sequences p.sequence })
  taken p s i h good =
      let a : is_ack p.type ≡ true = ground arith in
      let b : is_empty p.payload ≡ true = ground arith in
      record {
        visited = i.visited;
        acked = λ z k. elim (contains-insert_cases s.completed_sequences p.sequence z k) [
          | inr old ↦ i.acked z old
          | inl new ↦ record {
            fd = h.fd;
            before = h.before;
            visited = h.visited;
            bytes = h.bytes;
            address = h.address;
            answer = h.answer;
            decoded =
                h.decoded
                ∙ ap ok (
                    packet_ext p.type ack p.sequence z p.payload [] (is_ack→eq p.type a) new
                      (is_empty→eq p.payload b));
          }
        ];
      }

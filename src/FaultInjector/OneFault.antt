-- ===== src/FaultInjector/OneFault.antt =====
-- One packet in the relay of fault_injector/tcp_proxy.cpp: it is passed on, or the fault of the mode is
-- made.
use embedded_comm_reliabilit.Common.{
  ℕ, suc, ◌≡◌, ◌≢◌, refl, ap, ◌∙◌, Bool, true, false, List, ◌∷◌, inl, inr, Outcome, ok, throw,
  running, Outcome-cases, continue_with, continue_with-post,
}
use embedded_comm_reliabilit.Protocol.{Packet, MessageType, data_message, ack, heartbeat}
use embedded_comm_reliabilit.Protocol.Codec.{encode_packet}
use embedded_comm_reliabilit.Protocol.Error.{Exception}
use embedded_comm_reliabilit.Os.{Os}
use embedded_comm_reliabilit.Os.Stream
use embedded_comm_reliabilit.FaultInjector.{
  Proxy, FaultMode, corrupted_data, dropped_ack, delayed_ack, disconnected_heartbeat, to_receiver,
  to_sender, drop_ack, delay_ack, corrupt_data, disconnect, policy, print, send_packet,
  receive_packet, set_fault_applied, shutdown, sleep, send_corrupted, send_corrupted_packet,
  corrupt_frame, inject_corruption, inject_disconnect, pass_to_receiver, on_sender_packet,
  judge_sender_packet, from_sender, pass_to_sender, inject_drop, inject_delay, on_receiver_packet,
  judge_receiver_packet, from_receiver, message_type_name,
}
use embedded_comm_reliabilit.FaultInjector.Trace.{
  Trace, not_received, pass_on, corrupt, fail_to_corrupt, cut, pass_back, drop, delay, Event,
  passed_on, passed_back, corrupted, corruption_failed, disconnected, dropped, delayed, Obeys,
  as_number,
}

module _ (os : Os) (rounds : ℕ) (start : os.World) (a b : ℕ) where
  -- The state after `p` has been received from a descriptor in the state `s`.
  abbrev Holds : ℕ → Packet → Proxy os → os.World → Type 0
  Holds fd p s u = Stream.receive_packet os policy rounds fd s.world ≡ (ok p, u)

  abbrev Keeps : FaultMode → Proxy os → Type 0
  Keeps mode = Obeys os rounds start mode a b

  pass_to_receiver-Obeys :
      (mode : FaultMode) (p : Packet) (s : Proxy os) (u : os.World)
      → Keeps mode s
      → Holds a p s u
      → Keeps mode (pass_to_receiver os rounds b p (record s { world = u })).1
  unfolding pass_to_receiver print send_packet
  pass_to_receiver-Obeys mode p s u i e =
      continue_with-post (Keeps mode) (Keeps mode) _ (_, _)
        (record {
          events = passed_on p ∷ i.events;
          trace = pass_on a b p i.events s.world u _ i.trace e refl;
          of_mode = (tt, i.of_mode);
          applied = i.applied;
          printed = ap (◌∷◌ (to_receiver (message_type_name p.type) p.sequence)) i.printed;
        })
        (λ t k. k) λ _ t k. k

  pass_to_sender-Obeys :
      (mode : FaultMode) (p : Packet) (s : Proxy os) (u : os.World)
      → Keeps mode s
      → Holds b p s u
      → Keeps mode (pass_to_sender os rounds a p (record s { world = u })).1
  unfolding pass_to_sender print send_packet
  pass_to_sender-Obeys mode p s u i e =
      continue_with-post (Keeps mode) (Keeps mode) _ (_, _)
        (record {
          events = passed_back p ∷ i.events;
          trace = pass_back a b p i.events s.world u _ i.trace e refl;
          of_mode = (tt, i.of_mode);
          applied = i.applied;
          printed = ap (◌∷◌ (to_sender (message_type_name p.type) p.sequence)) i.printed;
        })
        (λ t k. k) λ _ t k. k

  inject_drop-Obeys :
      (p : Packet) (s : Proxy os) (u : os.World)
      → p.type ≡ ack
      → s.fault_applied ≡ false
      → Keeps drop_ack s
      → Holds b p s u
      → Keeps drop_ack (inject_drop os rounds p (record s { world = u })).1
  unfolding inject_drop print set_fault_applied
  inject_drop-Obeys p s u t f i e = record {
    events = dropped p ∷ i.events;
    trace = drop a b p i.events s.world u i.trace e;
    of_mode = ((refl, t), i.of_mode);
    applied = ap suc (i.applied ∙ ap as_number f);
    printed = ap (◌∷◌ (dropped_ack p.sequence)) i.printed;
  }

  inject_disconnect-Obeys :
      (p : Packet) (s : Proxy os) (u : os.World)
      → p.type ≡ heartbeat
      → s.fault_applied ≡ false
      → Keeps disconnect s
      → Holds a p s u
      → Keeps disconnect (inject_disconnect os rounds a b p (record s { world = u })).1
  unfolding inject_disconnect print set_fault_applied shutdown
  inject_disconnect-Obeys p s u t f i e = record {
    events = disconnected p ∷ i.events;
    trace = cut a b p i.events s.world u _ i.trace e refl;
    of_mode = ((refl, t), i.of_mode);
    applied = ap suc (i.applied ∙ ap as_number f);
    printed = ap (◌∷◌ (disconnected_heartbeat p.sequence)) i.printed;
  }

  inject_delay-Obeys :
      (p : Packet) (s : Proxy os) (u : os.World)
      → p.type ≡ ack
      → s.fault_applied ≡ false
      → Keeps delay_ack s
      → Holds b p s u
      → Keeps delay_ack (inject_delay os rounds a p (record s { world = u })).1
  unfolding inject_delay print set_fault_applied sleep pass_to_sender send_packet
  inject_delay-Obeys p s u t f i e =
      continue_with-post (Keeps delay_ack) (Keeps delay_ack) _ (_, _)
        (record {
          events = delayed p ∷ i.events;
          trace = delay a b p i.events s.world u _ i.trace e refl;
          of_mode = ((refl, t), i.of_mode);
          applied = ap suc (i.applied ∙ ap as_number f);
          printed =
              ap
                (λ ls.
                  to_sender (message_type_name p.type) p.sequence ∷ delayed_ack p.sequence ∷ ls)
                i.printed;
        })
        (λ v k. k) λ _ v k. k

  -- The history when the damaged frame has been sent.
  corruption_trace :
      (p : Packet) (es : List Event) (v u w : os.World)
      → Trace os rounds start a b es v
      → Stream.receive_packet os policy rounds a v ≡ (ok p, u)
      → send_corrupted os rounds b p u ≡ (ok tt, w)
      → Trace os rounds start a b (corrupted p ∷ es) w
  unfolding send_corrupted
  corruption_trace p es v u w t e f = elim (Outcome-cases (encode_packet p)) [
    | inr (inl (x, g)) ↦ let k = rw g at f in cc
    | inr (inr g) ↦ let k = rw g at f in cc
    | inl (bytes, g) ↦ elim (Outcome-cases (corrupt_frame bytes)) [
      | inr (inl (x, h)) ↦ let k = rw (g, h) at f in cc
      | inr (inr h) ↦ let k = rw (g, h) at f in cc
      | inl (frame, h) ↦ corrupt a b p bytes frame es v u w t e g h (rw (g, h) at f)
    ]
  ]

  sent_corrupted-Obeys :
      (p : Packet) (s : Proxy os) (u : os.World) (r : Outcome Exception (Unit {0}) × os.World)
      → p.type ≡ data_message
      → s.fault_applied ≡ false
      → Keeps corrupt_data s
      → Holds a p s u
      → send_corrupted os rounds b p u ≡ r
      → Keeps corrupt_data
          (continue_with
            (
              r.0,
              record {
                world = r.1;
                fault_applied = s.fault_applied;
                output = corrupted_data p.sequence ∷ s.output;
              },
            )
            (λ _ v. (ok true, record v { fault_applied = true }))).1
  sent_corrupted-Obeys p s u (ok _, w) t f i e g = record {
    events = corrupted p ∷ i.events;
    trace = corruption_trace p i.events s.world u w i.trace e g;
    of_mode = ((refl, t), i.of_mode);
    applied = ap suc (i.applied ∙ ap as_number f);
    printed = ap (◌∷◌ (corrupted_data p.sequence)) i.printed;
  }
  sent_corrupted-Obeys p s u (throw x, w) t f i e g = record {
    events = corruption_failed p ∷ i.events;
    trace = fail_to_corrupt a b p (throw x) i.events s.world u w i.trace e g (λ k. cc);
    of_mode = ((refl, t), i.of_mode);
    applied = i.applied;
    printed = ap (◌∷◌ (corrupted_data p.sequence)) i.printed;
  }
  sent_corrupted-Obeys p s u (running, w) t f i e g = record {
    events = corruption_failed p ∷ i.events;
    trace = fail_to_corrupt a b p running i.events s.world u w i.trace e g (λ k. cc);
    of_mode = ((refl, t), i.of_mode);
    applied = i.applied;
    printed = ap (◌∷◌ (corrupted_data p.sequence)) i.printed;
  }

  inject_corruption-Obeys :
      (p : Packet) (s : Proxy os) (u : os.World)
      → p.type ≡ data_message
      → s.fault_applied ≡ false
      → Keeps corrupt_data s
      → Holds a p s u
      → Keeps corrupt_data (inject_corruption os rounds b p (record s { world = u })).1
  unfolding inject_corruption print send_corrupted_packet set_fault_applied
  inject_corruption-Obeys p s u t f i e =
      sent_corrupted-Obeys p s u (send_corrupted os rounds b p u) t f i e refl

  on_sender_packet-Obeys :
      (t : MessageType) (mode : FaultMode) (f : Bool) (p : Packet) (s : Proxy os) (u : os.World)
      → p.type ≡ t
      → s.fault_applied ≡ f
      → Keeps mode s
      → Holds a p s u
      → Keeps mode (on_sender_packet os rounds t mode f a b p (record s { world = u })).1
  unfolding on_sender_packet
  on_sender_packet-Obeys data_message corrupt_data false p s u t f i e =
      inject_corruption-Obeys p s u t f i e
  on_sender_packet-Obeys heartbeat disconnect false p s u t f i e =
      inject_disconnect-Obeys p s u t f i e
  on_sender_packet-Obeys _ mode _ p s u t f i e = pass_to_receiver-Obeys mode p s u i e

  on_receiver_packet-Obeys :
      (t : MessageType) (mode : FaultMode) (f : Bool) (p : Packet) (s : Proxy os) (u : os.World)
      → p.type ≡ t
      → s.fault_applied ≡ f
      → Keeps mode s
      → Holds b p s u
      → Keeps mode (on_receiver_packet os rounds t mode f a p (record s { world = u })).1
  unfolding on_receiver_packet
  on_receiver_packet-Obeys ack drop_ack false p s u t f i e = inject_drop-Obeys p s u t f i e
  on_receiver_packet-Obeys ack delay_ack false p s u t f i e = inject_delay-Obeys p s u t f i e
  on_receiver_packet-Obeys _ mode _ p s u t f i e = pass_to_sender-Obeys mode p s u i e

  -- A call of receive_packet that has returned no packet.
  nothing_received :
      (mode : FaultMode) (fd : ℕ) (s : Proxy os) (x : Outcome Exception Packet) (w : os.World)
      → Keeps mode s
      → Stream.receive_packet os policy rounds fd s.world ≡ (x, w)
      → ((p : Packet) → x ≢ ok p)
      → Keeps mode (record s { world = w })
  nothing_received mode fd s x w i e n = record {
    events = i.events;
    trace = not_received a b fd x i.events s.world w i.trace e n;
    of_mode = i.of_mode;
    applied = i.applied;
    printed = i.printed;
  }

  -- What follows a call of receive_packet that ended in `r`.
  after_receive :
      (mode : FaultMode) (fd : ℕ) (s : Proxy os)
      (f : Packet → Proxy os → Outcome Exception Bool × Proxy os)
      (r : Outcome Exception Packet × os.World)
      → Keeps mode s
      → Stream.receive_packet os policy rounds fd s.world ≡ r
      → ((p : Packet) (u : os.World) → Holds fd p s u → Keeps mode (f p (record s { world = u })).1)
      → Keeps mode (continue_with (r.0, record s { world = r.1 }) f).1
  after_receive mode fd s f (ok p, u) i e h = h p u e
  after_receive mode fd s f (throw x, u) i e h =
      nothing_received mode fd s (throw x) u i e (λ p k. cc)
  after_receive mode fd s f (running, u) i e h =
      nothing_received mode fd s running u i e (λ p k. cc)

  pub from_sender-Obeys :
      (mode : FaultMode) (s : Proxy os)
      → Keeps mode s
      → Keeps mode (from_sender os rounds mode a b s).1
  unfolding from_sender receive_packet judge_sender_packet
  from_sender-Obeys mode s i =
      after_receive mode a s _ (Stream.receive_packet os policy rounds a s.world) i refl
        λ p u e. on_sender_packet-Obeys p.type mode s.fault_applied p s u refl refl i e

  pub from_receiver-Obeys :
      (mode : FaultMode) (s : Proxy os)
      → Keeps mode s
      → Keeps mode (from_receiver os rounds mode a b s).1
  unfolding from_receiver receive_packet judge_receiver_packet
  from_receiver-Obeys mode s i =
      after_receive mode b s _ (Stream.receive_packet os policy rounds b s.world) i refl
        λ p u e. on_receiver_packet-Obeys p.type mode s.fault_applied p s u refl refl i e

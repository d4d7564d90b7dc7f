-- ===== src/UdpSender/Acknowledged.antt =====
-- wait_for_ack of udp/sender.cpp and the set of completed sequences.
use embedded_comm_reliabilit.Common.{
  ℕ, zero, suc, ◌+◌, ◌*◌, ◌≡◌, ◌≢◌, refl, Bool, true, false, not, ◌||◌, Bool-cases, inl, inr, List,
  [], ◌∷◌, contains, arith, leb, ◌==◌, ==→eq, contains-insert, contains-insert_of_mem, Outcome, ok,
  throw, running, continue_with, Option, none, some,
}
use embedded_comm_reliabilit.Protocol.{Packet}
use embedded_comm_reliabilit.Protocol.Error.{eintr, Exception, fail}
use embedded_comm_reliabilit.Protocol.Error.{
  expected_empty_ack, ack_sequence_mismatch, poll_failed, socket_error_while_waiting,
}
use embedded_comm_reliabilit.Os.{Os, Address, Sys, done, failed, Revents}
use embedded_comm_reliabilit.UdpSender.{
  Sender, Line, sent_data, now, poll, receive_packet, send_packet, judge_ack, judge_in_time,
  take_ack, on_poll, wait_turn, wait_loop, wait_for_ack, is_ack, is_empty, ignored_stale_ack,
  ack_timeout_ms, ns_per_ms,
}

-- How many DATA have been printed as sent.
abbrev pub sent_count : List Line → ℕ
sent_count [] = 0
sent_count (sent_data q n payload ∷ ls) = suc (sent_count ls)
sent_count (_ ∷ ls) = sent_count ls

module _ {os : Os} where
  -- From `s` to `t` no sequence has been taken out of the completed ones, and `n` DATA were sent.
  pub record Grows (n : ℕ) (s t : Sender os) : Type 0 where
    pub keeps :
        (x : ℕ) → contains s.completed_sequences x ≡ true → contains t.completed_sequences x ≡ true
    pub sends : sent_count t.output ≡ sent_count s.output + n

  Grows-trans :
      {a b c : ℕ} {s t u : Sender os} → a + b ≡ c → Grows a s t → Grows b t u → Grows c s u
  Grows-trans e g h = record {
    keeps = λ x k. h.keeps x (g.keeps x k);
    sends = omega (arith, g.sends, h.sends);
  }

  Grows-refl : (s : Sender os) → Grows 0 s s
  Grows-refl s = record { keeps = λ x k. k; sends = omega arith }

  -- A wait for the ACK of `q` that ends in `r`.
  pub record Waited (q : ℕ) (s : Sender os) (r : Outcome Exception Bool × Sender os) : Type 0 where
    pub grows : Grows 0 s r.1
    pub acked : r.0 ≡ ok true → contains r.1.completed_sequences q ≡ true

  Waited-after :
      {q : ℕ} {s t : Sender os} {r : Outcome Exception Bool × Sender os}
      → Grows 0 s t
      → Waited q t r
      → Waited q s r
  Waited-after g w = record { grows = Grows-trans refl g w.grows; acked = w.acked }

  Waited-bind :
      {A : Type 0} {q : ℕ} (s : Sender os) (r : Outcome Exception A × Sender os)
      (f : A → Sender os → Outcome Exception Bool × Sender os)
      → Grows 0 s r.1
      → ((a : A) (t : Sender os) → Waited q t (f a t))
      → Waited q s (continue_with r f)
  Waited-bind s (ok a, t) f g h = Waited-after g (h a t)
  Waited-bind s (throw e, t) f g h = record { grows = g; acked = λ p. cc }
  Waited-bind s (running, t) f g h = record { grows = g; acked = λ p. cc }

module _ (os : Os) where
  receive_packet-Grows : (fd : ℕ) (s : Sender os) → Grows 0 s (receive_packet os fd s).1
  unfolding receive_packet
  receive_packet-Grows fd s = record { keeps = λ x k. k; sends = omega arith }

  pub send_packet-Grows :
      (fd : ℕ) (p : Packet) (a : Address) (s : Sender os) → Grows 0 s (send_packet os fd p a s).1
  unfolding send_packet
  send_packet-Grows fd p a s = record { keeps = λ x k. k; sends = omega arith }

  now-Grows : (s : Sender os) → Grows 0 s (now os s).1
  unfolding now
  now-Grows s = record { keeps = λ x k. k; sends = omega arith }

  poll-Grows : (fd ms : ℕ) (s : Sender os) → Grows 0 s (poll os fd ms s).1
  unfolding poll
  poll-Grows fd ms s = record { keeps = λ x k. k; sends = omega arith }

  stopped : (q : ℕ) (s : Sender os) (r : Outcome Exception Bool) → r ≢ ok true → Waited q s (r, s)
  stopped q s r h = record { grows = Grows-refl s; acked = λ p. absurd (h p) }

  module _ (next : Sender os → Outcome Exception Bool × Sender os) (q : ℕ)
      (ih : (t : Sender os) → Waited q t (next t)) where
    judge_ack-Waited : (p : Packet) (s : Sender os) → Waited q s (judge_ack os next q p s)
    unfolding judge_ack
    judge_ack-Waited p s = elim (Bool-cases (not (is_ack p.type) || not (is_empty p.payload))) [
      | inl bad ↦ rw bad (stopped q s (fail expected_empty_ack) (λ e. cc))
      | inr good ↦ rw good (elim (Bool-cases (p.sequence == q)) [
        | inl mine ↦ rw mine (record {
          grows = record {
            keeps = contains-insert_of_mem s.completed_sequences p.sequence;
            sends = omega arith;
          };
          acked = λ e.
              rw (← ==→eq p.sequence q mine) (contains-insert s.completed_sequences p.sequence);
        })
        | inr other ↦ rw other (elim (Bool-cases (contains s.completed_sequences p.sequence)) [
          | inl old ↦ rw old (
              Waited-after (record { keeps = λ x k. k; sends = omega arith })
                (ih (record s { output = ignored_stale_ack p.sequence ∷ s.output })))
          | inr unknown ↦ rw unknown (stopped q s (fail ack_sequence_mismatch) (λ e. cc))
        ])
      ])
    ]

    judge_in_time-Waited :
        (deadline : ℕ) (p : Packet) (time : ℕ) (s : Sender os)
        → Waited q s (judge_in_time os next deadline q p time s)
    unfolding judge_in_time
    judge_in_time-Waited deadline p time s = elim (Bool-cases (leb deadline time)) [
      | inl late ↦ rw late (stopped q s (ok false) (λ e. cc))
      | inr early ↦ rw early (judge_ack-Waited p s)
    ]

    take_ack-Waited :
        (deadline fd : ℕ) (s : Sender os) → Waited q s (take_ack os next deadline fd q s)
    unfolding take_ack
    take_ack-Waited deadline fd s =
        Waited-bind s (receive_packet os fd s) _ (receive_packet-Grows fd s) λ p t.
          Waited-bind t (now os t) _ (now-Grows t) λ time u. judge_in_time-Waited deadline p time u

    on_poll-Waited :
        (deadline fd : ℕ) (r : Sys (Option Revents)) (s : Sender os)
        → Waited q s (on_poll os next deadline fd q r s)
    unfolding on_poll
    on_poll-Waited deadline fd (failed eintr) s = ih s
    on_poll-Waited deadline fd (failed e) s = stopped q s (fail (poll_failed e)) (λ p. cc)
    on_poll-Waited deadline fd (done none) s = stopped q s (ok false) (λ p. cc)
    on_poll-Waited deadline fd (done (some events)) s =
        elim (Bool-cases (events.pollerr || events.pollnval)) [
          | inl bad ↦ rw bad (stopped q s (fail socket_error_while_waiting) (λ p. cc))
          | inr fine ↦ rw fine (elim (Bool-cases events.pollin) [
            | inl ready ↦ rw ready (take_ack-Waited deadline fd s)
            | inr idle ↦ rw idle (ih s)
          ])
        ]

    wait_turn-Waited :
        (deadline fd time : ℕ) (s : Sender os) → Waited q s (wait_turn os next deadline fd q time s)
    unfolding wait_turn
    wait_turn-Waited deadline fd time s = elim (Bool-cases (leb deadline time)) [
      | inl over ↦ rw over (stopped q s (ok false) (λ p. cc))
      | inr left ↦ rw left (
          Waited-bind s (poll os fd _ s) _ (poll-Grows fd _ s)
            λ r t. on_poll-Waited deadline fd r t)
    ]

  wait_loop-Waited :
      (rounds deadline fd q : ℕ) (s : Sender os) → Waited q s (wait_loop os rounds deadline fd q s)
  unfolding wait_loop
  wait_loop-Waited zero deadline fd q s = stopped q s running (λ p. cc)
  wait_loop-Waited (suc rounds) deadline fd q s = Waited-bind s (now os s) _ (now-Grows s) λ time t.
      wait_turn-Waited (wait_loop os rounds deadline fd q) q (wait_loop-Waited rounds deadline fd q)
        deadline fd time t

  -- wait_for_ack forgets no completed sequence and prints no DATA as sent, and if it returns true the
  -- awaited sequence is among the completed ones.
  pub wait_for_ack-Waited :
      (rounds fd q : ℕ) (s : Sender os) → Waited q s (wait_for_ack os rounds fd q s)
  unfolding wait_for_ack
  wait_for_ack-Waited rounds fd q s =
      Waited-bind s (now os s) _ (now-Grows s)
        λ start t. wait_loop-Waited rounds (start + ack_timeout_ms * ns_per_ms) fd q t

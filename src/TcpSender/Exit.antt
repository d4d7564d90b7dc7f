-- ===== src/TcpSender/Exit.antt =====
-- connect_with_retry and `main` of tcp/sender.cpp, as steps, and the exit code.
use embedded_comm_reliabilit.Common.{
  ℕ, zero, suc, ◌+◌, ◌≤◌, ◌≡◌, refl, ok_inj, Bool, true, false, Bool-cases, inl, inr, arith, ◌==◌,
  Outcome, ok, throw, running, continue_with,
}
use embedded_comm_reliabilit.Protocol.{MessageType, ack, heartbeat_ack}
use embedded_comm_reliabilit.Protocol.Error.{
  Exception, runtime_error, connection_lost, peer_disconnected, response_timeout,
  ack_retry_limit_exceeded, heartbeat_failed_after_reconnect, reconnect_failed,
}
use embedded_comm_reliabilit.Os.{Os}
use embedded_comm_reliabilit.TcpSender.{
  Sender, has, print, send_packet, wait_for_response, sent_data, ack_timeout, sent_heartbeat,
  heartbeat_timeout, reconnecting, resent_heartbeat, received_heartbeat_ack, connected,
  connect_failed_line,
}
use embedded_comm_reliabilit.TcpSender.Connection.{
  connect_with_retry, connect_attempts, attempted, try_again, sleep, max_reconnect_attempts,
  reconnect_delay_sec,
}
use embedded_comm_reliabilit.TcpSender.Run.{
  message, data_packet, heartbeat_packet, ack_timeout_ms, heartbeat_timeout_ms, after_wait,
  data_attempts, heartbeat_waited, try_heartbeat, catch_lost, close, resent, reconnected,
  reconnect_if, beat, beats, closed, run_sender, exit_code, boot, main, heartbeat_interval_sec,
}
use embedded_comm_reliabilit.TcpSender.Steps.{
  sent_count, Steps, Steps-bind, Steps-and, returned, thrown, suspended, moved, Any, Took,
  print-Steps, send_packet-Steps, wait_for_response-Steps,
}

module _ (os : Os) (rounds : ℕ) where
  sleep-Steps : (n : ℕ) (s : Sender os) → Steps 0 Any s (sleep os rounds n s)
  unfolding sleep
  sleep-Steps n s = record { keeps = λ t q k. k; sends = omega arith; after = λ a e. tt }

  close-Steps : (fd : ℕ) (s : Sender os) → Steps 0 Any s (close os rounds fd s)
  unfolding close
  close-Steps fd s = record { keeps = λ t q k. k; sends = omega arith; after = λ a e. tt }

  try_again-Steps :
      (next : Sender os → Outcome Exception ℕ × Sender os) (attempt : ℕ) (x : Exception)
      (s : Sender os)
      → ((t : Sender os) → Steps 0 Any t (next t))
      → Steps 0 Any s (try_again os rounds next attempt x s)
  unfolding try_again
  try_again-Steps next attempt x s ih = elim (Bool-cases (attempt == max_reconnect_attempts)) [
    | inl last ↦ rw last (thrown 0 x s)
    | inr more ↦ rw more (
        Steps-bind s (sleep os rounds reconnect_delay_sec s) _ refl
          (sleep-Steps reconnect_delay_sec s) λ _ t _. ih t)
  ]

  failed_attempt :
      (next : Sender os → Outcome Exception ℕ × Sender os) (attempt : ℕ) (x : Exception)
      (s : Sender os)
      → ((t : Sender os) → Steps 0 Any t (next t))
      → Steps 0 Any s (
          continue_with
            (print os rounds (connect_failed_line attempt x) s)
            (λ _. try_again os rounds next attempt x))
  failed_attempt next attempt x s ih =
      Steps-bind s (print os rounds (connect_failed_line attempt x) s) _ refl
        (print-Steps os rounds 0 (connect_failed_line attempt x) s (omega arith))
        λ _ t _. try_again-Steps next attempt x t ih

  attempted-Steps :
      (next : Sender os → Outcome Exception ℕ × Sender os) (attempt : ℕ) (r : Outcome Exception ℕ)
      (s : Sender os)
      → ((t : Sender os) → Steps 0 Any t (next t))
      → Steps 0 Any s (attempted os rounds next attempt r s)
  unfolding attempted
  attempted-Steps next attempt (ok fd) s ih =
      Steps-bind s (print os rounds (connected attempt) s) _ refl
        (print-Steps os rounds 0 (connected attempt) s (omega arith)) λ _ t _. returned 0 fd t tt
  attempted-Steps next attempt (throw response_timeout) s ih = thrown 0 response_timeout s
  attempted-Steps next attempt (throw (runtime_error m)) s ih =
      failed_attempt next attempt (runtime_error m) s ih
  attempted-Steps next attempt (throw (connection_lost m)) s ih =
      failed_attempt next attempt (connection_lost m) s ih
  attempted-Steps next attempt (throw (peer_disconnected m)) s ih =
      failed_attempt next attempt (peer_disconnected m) s ih
  attempted-Steps next attempt running s ih = suspended 0 s

  connect_attempts-Steps :
      (left attempt : ℕ) (s : Sender os) → Steps 0 Any s (connect_attempts os rounds left attempt s)
  unfolding connect_attempts
  connect_attempts-Steps zero attempt s = thrown 0 (runtime_error reconnect_failed) s
  connect_attempts-Steps (suc left) attempt s = moved s _ (
      attempted-Steps (connect_attempts os rounds left (attempt + 1)) attempt _ _
        (connect_attempts-Steps left (attempt + 1)))

  connect_with_retry-Steps : (s : Sender os) → Steps 0 Any s (connect_with_retry os rounds s)
  unfolding connect_with_retry
  connect_with_retry-Steps s = connect_attempts-Steps max_reconnect_attempts 1 s

  -- A response taken, whatever was returned.
  abbrev pub Has : {A : Type 0} → MessageType → ℕ → A → Sender os → Type 0
  Has t q a v = has v.completed t q ≡ true

  after_wait-Steps :
      (next : Sender os → Outcome Exception (Unit {0}) × Sender os) (left : ℕ) (b : Bool)
      (s : Sender os)
      → ((t : Sender os) → Steps left (Has ack 1) t (next t))
      → Took os rounds ack 1 b s
      → Steps left (Has ack 1) s (after_wait os rounds next b s)
  unfolding after_wait print
  after_wait-Steps next left true s ih h = record {
    keeps = λ t q k. k;
    sends = omega arith;
    after = λ a e. h refl;
  }
  after_wait-Steps next left false s ih h =
      Steps-bind {n = left} s (print os rounds (ack_timeout 1) s) _ (omega arith)
        (print-Steps os rounds 0 (ack_timeout 1) s (omega arith)) λ _ t _. ih t

  data_attempts-Steps :
      (left attempt fd : ℕ) (s : Sender os)
      → Steps left (Has ack 1) s (data_attempts os rounds left attempt fd s)
  unfolding data_attempts
  data_attempts-Steps zero attempt fd s = thrown 0 (runtime_error ack_retry_limit_exceeded) s
  data_attempts-Steps (suc left) attempt fd s =
      Steps-bind {n = suc left} s (send_packet os rounds fd data_packet s) _ (omega arith)
        (send_packet-Steps os rounds fd data_packet s)
        λ _ t _.
          Steps-bind {n = left} t (print os rounds (sent_data 1 attempt message) t) _ (omega arith)
            (print-Steps os rounds 1 (sent_data 1 attempt message) t (omega arith))
            λ _ u _.
              Steps-bind {n = left} u (wait_for_response os rounds fd ack 1 ack_timeout_ms u) _
                (omega arith) (wait_for_response-Steps os rounds fd ack 1 ack_timeout_ms u)
                λ b v h.
                  after_wait-Steps (data_attempts os rounds left (attempt + 1) fd) left b v
                    (data_attempts-Steps left (attempt + 1) fd) h

  -- No new connection is required only if the heartbeat was answered.
  abbrev Answered : ℕ → Bool → Sender os → Type 0
  Answered q b v = b ≡ false → has v.completed heartbeat_ack q ≡ true

  heartbeat_waited-Steps :
      (q : ℕ) (b : Bool) (s : Sender os)
      → Took os rounds heartbeat_ack q b s
      → Steps 0 (Answered q) s (heartbeat_waited os rounds q b s)
  unfolding heartbeat_waited
  heartbeat_waited-Steps q true s h = returned 0 false s (λ e. h refl)
  heartbeat_waited-Steps q false s h =
      Steps-bind s (print os rounds (heartbeat_timeout q) s) _ refl
        (print-Steps os rounds 0 (heartbeat_timeout q) s (omega arith))
        λ _ t _. returned 0 true t (λ e. cc)

  try_heartbeat-Steps :
      (fd q count : ℕ) (s : Sender os)
      → Steps 0 (Answered q) s (try_heartbeat os rounds fd q count s)
  unfolding try_heartbeat
  try_heartbeat-Steps fd q count s =
      Steps-bind s (send_packet os rounds fd (heartbeat_packet q) s) _ refl
        (send_packet-Steps os rounds fd (heartbeat_packet q) s)
        λ _ t _.
          Steps-bind t (print os rounds (sent_heartbeat q count) t) _ refl
            (print-Steps os rounds 0 (sent_heartbeat q count) t (omega arith))
            λ _ u _.
              Steps-bind u (wait_for_response os rounds fd heartbeat_ack q heartbeat_timeout_ms u) _
                refl (wait_for_response-Steps os rounds fd heartbeat_ack q heartbeat_timeout_ms u)
                λ b v h. heartbeat_waited-Steps q b v h

  catch_lost-Steps :
      (q : ℕ) (s : Sender os) (r : Outcome Exception Bool × Sender os)
      → Steps 0 (Answered q) s r
      → Steps 0 (Answered q) s (catch_lost os rounds q r)
  unfolding catch_lost print
  catch_lost-Steps q s (throw (connection_lost m), t) g = record {
    keeps = g.keeps;
    sends = g.sends;
    after = λ b e k. absurd (caught b e k);
  }
    where
      caught : (b : Bool) → ◌≡◌ {A = Outcome Exception Bool} (ok true) (ok b) → b ≡ false → ⊥
      caught b e k = let same = ok_inj {E = Exception} true b e in cc
  catch_lost-Steps q s (throw (runtime_error m), t) g = g
  catch_lost-Steps q s (throw (peer_disconnected m), t) g = g
  catch_lost-Steps q s (throw response_timeout, t) g = g
  catch_lost-Steps q s (ok b, t) g = g
  catch_lost-Steps q s (running, t) g = g

  resent-Steps :
      (fd q : ℕ) (b : Bool) (s : Sender os)
      → Took os rounds heartbeat_ack q b s
      → Steps 0 (Has heartbeat_ack q) s (resent os rounds fd b s)
  unfolding resent
  resent-Steps fd q true s h = returned 0 fd s (h refl)
  resent-Steps fd q false s h = thrown 0 (runtime_error heartbeat_failed_after_reconnect) s

  reconnected-Steps :
      (q fd : ℕ) (s : Sender os) → Steps 0 (Has heartbeat_ack q) s (reconnected os rounds q fd s)
  unfolding reconnected
  reconnected-Steps q fd s =
      Steps-bind s (send_packet os rounds fd (heartbeat_packet q) s) _ refl
        (send_packet-Steps os rounds fd (heartbeat_packet q) s)
        λ _ t _.
          Steps-bind t (print os rounds (resent_heartbeat q) t) _ refl
            (print-Steps os rounds 0 (resent_heartbeat q) t (omega arith))
            λ _ u _.
              Steps-bind u (wait_for_response os rounds fd heartbeat_ack q heartbeat_timeout_ms u) _
                refl (wait_for_response-Steps os rounds fd heartbeat_ack q heartbeat_timeout_ms u)
                λ b v h. resent-Steps fd q b v h

  reconnect_if-Steps :
      (fd q : ℕ) (b : Bool) (s : Sender os)
      → Answered q b s
      → Steps 0 (Has heartbeat_ack q) s (reconnect_if os rounds fd q b s)
  unfolding reconnect_if
  reconnect_if-Steps fd q false s h = returned 0 fd s (h refl)
  reconnect_if-Steps fd q true s h =
      Steps-bind s (close os rounds fd s) _ refl (close-Steps fd s) λ _ t _.
        Steps-bind t (print os rounds reconnecting t) _ refl
          (print-Steps os rounds 0 reconnecting t (omega arith))
          λ _ u _.
            Steps-bind u (connect_with_retry os rounds u) _ refl (connect_with_retry-Steps u)
              λ fd' v _. reconnected-Steps q fd' v

  answered_line-Steps :
      (fd q : ℕ) (s : Sender os)
      → Has heartbeat_ack q fd s
      → Steps 0
          (Has heartbeat_ack q)
          s
          (continue_with (print os rounds (received_heartbeat_ack q) s) (λ _ w. (ok fd, w)))
  unfolding print
  answered_line-Steps fd q s h = record {
    keeps = λ t p k. k;
    sends = omega arith;
    after = λ a e. h;
  }

  beat-Steps :
      (fd q count : ℕ) (s : Sender os)
      → Steps 0 (Has heartbeat_ack q) s (beat os rounds fd q count s)
  unfolding beat
  beat-Steps fd q count s =
      Steps-bind s (sleep os rounds heartbeat_interval_sec s) _ refl
        (sleep-Steps heartbeat_interval_sec s)
        λ _ t _.
          Steps-bind t (catch_lost os rounds q (try_heartbeat os rounds fd q count t)) _ refl
            (catch_lost-Steps q t _ (try_heartbeat-Steps fd q count t))
            λ required u h.
              Steps-bind u (reconnect_if os rounds fd q required u) _ refl
                (reconnect_if-Steps fd q required u h) λ fd' v k. answered_line-Steps fd' q v k

  -- So many heartbeats from a sequence on have been answered.
  abbrev pub AllAnswered : ℕ → ℕ → Sender os → Type 0
  AllAnswered zero q v = Unit {0}
  AllAnswered (suc n) q v = AllAnswered n (q + 1) v × (has v.completed heartbeat_ack q ≡ true)

  beats-Steps :
      (left fd q count : ℕ) (s : Sender os)
      → Steps 0 (λ _ v. AllAnswered left q v) s (beats os rounds left fd q count s)
  unfolding beats
  beats-Steps zero fd q count s = returned 0 fd s tt
  beats-Steps (suc left) fd q count s =
      Steps-bind s (beat os rounds fd q count s) _ refl (beat-Steps fd q count s)
        λ fd' t h. Steps-and heartbeat_ack q h (beats-Steps left fd' (q + 1) (count + 1) t)

  -- The exit of a run that has done all that it should.
  abbrev pub Complete : {A : Type 0} → A → Sender os → Type 0
  Complete a v = AllAnswered 3 2 v × (has v.completed ack 1 ≡ true)

  closed-Steps :
      (fd : ℕ) (s : Sender os) → Complete fd s → Steps 0 Complete s (closed os rounds fd s)
  unfolding closed close
  closed-Steps fd s h = record { keeps = λ t q k. k; sends = omega arith; after = λ a e. h }

  run_sender-Steps : (s : Sender os) → Steps 4 Complete s (run_sender os rounds s)
  unfolding run_sender
  run_sender-Steps s =
      Steps-bind {n = 4} s (connect_with_retry os rounds s) _ (omega arith)
        (connect_with_retry-Steps s)
        λ fd t _.
          Steps-bind {n = 0} t (data_attempts os rounds 4 1 fd t) _ (omega arith)
            (data_attempts-Steps 4 1 fd t)
            λ _ u acked.
              Steps-bind u (beats os rounds 3 fd 2 1 u) _ refl
                (Steps-and ack 1 acked (beats-Steps 3 fd 2 1 u)) λ fd' v h. closed-Steps fd' v h

  -- What the exit code of the program tells.
  pub record Tells (r : Outcome Exception ℕ × Sender os) : Type 0 where
    pub success : r.0 ≡ ok 0 → Complete tt r.1
    pub bounded : sent_count r.1.output ≤ 4

  one_ne_zero : ◌≡◌ {A = Outcome Exception ℕ} (ok 1) (ok 0) → ⊥
  one_ne_zero p = let e = ok_inj {E = Exception} 1 0 p in omega arith

  exit_code-Tells :
      (s : Sender os) (r : Outcome Exception ℕ × Sender os)
      → sent_count s.output ≡ 0
      → Steps 4 Complete s r
      → Tells (exit_code os rounds r)
  unfolding exit_code
  exit_code-Tells s (throw response_timeout, t) z g = record {
    success = λ p. cc;
    bounded = omega (arith, g.sends);
  }
  exit_code-Tells s (throw x, t) z g = record {
    success = λ p. absurd (one_ne_zero p);
    bounded = omega (arith, g.sends);
  }
  exit_code-Tells s (ok n, t) z g = record {
    success = λ p. g.after n refl;
    bounded = omega (arith, g.sends);
  }
  exit_code-Tells s (running, t) z g = record {
    success = λ p. cc;
    bounded = omega (arith, g.sends);
  }

  -- If the program exits with 0, the ACK of the DATA and the answers to the three heartbeats, of the
  -- sequences 2, 3 and 4, are among the completed responses, over whatever connections; and however it
  -- ends, at most four DATA are printed as sent.
  pub main-Tells_responses : (w : os.World) → Tells (main os rounds w)
  unfolding main
  main-Tells_responses w =
      exit_code-Tells (boot os rounds w) _ refl (run_sender-Steps (boot os rounds w))

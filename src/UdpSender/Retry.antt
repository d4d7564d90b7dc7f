-- ===== src/UdpSender/Retry.antt =====
-- The attempts of send_data_with_retry of udp/sender.cpp, and its `main`.
use Prim.Native.String.{String}
use embedded_comm_reliabilit.Common.{
  ℕ, zero, suc, ◌+◌, ◌≤◌, ◌≡◌, ◌≢◌, refl, ap, ◌∙◌, Bool, true, false, inl, inr, List, [], ◌∷◌, ◌++◌,
  contains, arith, All, All-append, append-nil, ok_inj, All-contains_mono, Outcome, ok, throw,
  running, continue_with, Outcome-cases, bytes_of_text,
}
use embedded_comm_reliabilit.Protocol.Error.{Exception, response_timeout}
use embedded_comm_reliabilit.Os.{Os, Address}
use embedded_comm_reliabilit.UdpSender.{test_mode_out_of_order}
use embedded_comm_reliabilit.UdpSender.{
  Sender, Line, sent_data, print, send_packet, wait_for_ack, after_wait, attempts,
  send_data_with_retry, ack_timeout, data_packet, send_messages, out_of_order_mode, open_socket,
  receiver_address, close_socket, run_sender, exit_code, main, boot, parse_mode,
}
use embedded_comm_reliabilit.UdpSender.Heard.{Confirmed, Heard, empty_ack}
use embedded_comm_reliabilit.UdpSender.Confirmed.{main-Confirmed}
use embedded_comm_reliabilit.UdpSender.Acknowledged.{
  sent_count, Grows, wait_for_ack-Waited, send_packet-Grows,
}

module _ {os : Os} where
  -- From `s`, a call that ends in `r` has sent at most `n` DATA; if it returned, every sequence of `qs` is completed.
  pub record Sent {A : Type 0} (n : ℕ) (qs : List ℕ) (s : Sender os)
      (r : Outcome Exception A × Sender os) : Type 0 where
    pub keeps :
        (x : ℕ)
        → contains s.completed_sequences x ≡ true
        → contains r.1.completed_sequences x ≡ true
    pub bounded : sent_count r.1.output ≤ sent_count s.output + n
    pub acked : (a : A) → r.0 ≡ ok a → All (λ q. contains r.1.completed_sequences q ≡ true) qs

  Sent-bind :
      {A B : Type 0} {m n k : ℕ} {ps qs : List ℕ} (s : Sender os)
      (r : Outcome Exception A × Sender os) (f : A → Sender os → Outcome Exception B × Sender os)
      → m + n ≡ k
      → Sent m ps s r
      → ((a : A) (t : Sender os) → r ≡ (ok a, t) → Sent n qs t (f a t))
      → Sent k (ps ++ qs) s (continue_with r f)
  Sent-bind {ps} {qs} s (ok a, t) f e g h =
      let rest = h a t refl in
      record {
        keeps = λ x k. rest.keeps x (g.keeps x k);
        bounded = omega (arith, g.bounded, rest.bounded);
        acked = λ b k.
            All-append (λ q. contains (continue_with (ok a, t) f).1.completed_sequences q ≡ true) ps
              qs
              (All-contains_mono t.completed_sequences (f a t).1.completed_sequences ps rest.keeps
                (g.acked a refl))
              (rest.acked b k);
      }
  Sent-bind s (throw x, t) f e g h = record {
    keeps = g.keeps;
    bounded = omega (arith, g.bounded);
    acked = λ b k. cc;
  }
  Sent-bind s (running, t) f e g h = record {
    keeps = g.keeps;
    bounded = omega (arith, g.bounded);
    acked = λ b k. cc;
  }

  Sent-of_Grows :
      {A : Type 0} (s : Sender os) (r : Outcome Exception A × Sender os)
      → Grows 0 s r.1
      → Sent 0 [] s r
  Sent-of_Grows s r g = record {
    keeps = g.keeps;
    bounded = omega (arith, g.sends);
    acked = λ a e. tt;
  }

module _ (os : Os) where
  print-Sent :
      (n : ℕ) (l : Line) (s : Sender os)
      → sent_count (l ∷ s.output) ≡ sent_count s.output + n
      → Sent n [] s (print os l s)
  unfolding print
  print-Sent n l s e = record { keeps = λ x k. k; bounded = omega arith; acked = λ a p. tt }

  -- The wait has returned `b`, and `next` is the next attempt.
  after_wait-Sent :
      (next : Sender os → Outcome Exception (Unit {0}) × Sender os) (left q : ℕ) (b : Bool)
      (t : Sender os)
      → ((u : Sender os) → Sent left (q ∷ []) u (next u))
      → (b ≡ true → contains t.completed_sequences q ≡ true)
      → Sent left (q ∷ []) t (after_wait os next q b t)
  unfolding after_wait print
  after_wait-Sent next left q true t ih h = record {
    keeps = λ x k. k;
    bounded = omega arith;
    acked = λ a p. (h refl, tt);
  }
  after_wait-Sent next left q false t ih h =
      Sent-bind t (print os (ack_timeout q) t) _ (omega arith)
        (print-Sent 0 (ack_timeout q) t (omega arith)) λ _ u e. ih u

  wait-knows :
      (rounds fd q : ℕ) (u : Sender os) (b : Bool) (v : Sender os)
      → wait_for_ack os rounds fd q u ≡ (ok b, v)
      → b ≡ true
      → contains v.completed_sequences q ≡ true
  wait-knows rounds fd q u b v e k =
      let known : (wait_for_ack os rounds fd q u).0 ≡ ok true
          → contains (wait_for_ack os rounds fd q u).1.completed_sequences q ≡ true =
        (wait_for_ack-Waited os rounds fd q u).acked in
      let moved : contains (wait_for_ack os rounds fd q u).1.completed_sequences q ≡ true =
        known (ap (λ r. r.0) e ∙ ap ok k) in
      rw (ap (λ r. r.1) e) at moved

  attempts-Sent :
      (left attempt rounds fd : ℕ) (a : Address) (q : ℕ) (message : List ℕ) (s : Sender os)
      → Sent left (q ∷ []) s (attempts os left attempt rounds fd a q message s)
  unfolding attempts
  attempts-Sent zero attempt rounds fd a q message s = record {
    keeps = λ x k. k;
    bounded = omega arith;
    acked = λ b p. cc;
  }
  attempts-Sent (suc left) attempt rounds fd a q message s =
      Sent-bind {n = suc left} s (send_packet os fd (data_packet os q message) a s) _ (omega arith)
        (Sent-of_Grows s _ (send_packet-Grows os fd (data_packet os q message) a s))
        λ _ t _.
          Sent-bind {n = left} t (print os (sent_data q attempt message) t) _ (omega arith)
            (print-Sent 1 (sent_data q attempt message) t (omega arith))
            λ _ u _.
              let w = wait_for_ack-Waited os rounds fd q u in
              Sent-bind {n = left} u (wait_for_ack os rounds fd q u) _ (omega arith)
                (Sent-of_Grows u _ w.grows)
                λ b v e.
                  after_wait-Sent (attempts os left (attempt + 1) rounds fd a q message) left q b v
                    (attempts-Sent left (attempt + 1) rounds fd a q message)
                    (wait-knows rounds fd q u b v e)

  -- send_data_with_retry prints its DATA as sent at most four times, forgets no completed sequence, and
  -- returns only when its own is among the completed ones.
  pub send_data_with_retry-Sent :
      (rounds fd : ℕ) (a : Address) (q : ℕ) (message : List ℕ) (s : Sender os)
      → Sent 4 (q ∷ []) s (send_data_with_retry os rounds fd a q message s)
  unfolding send_data_with_retry
  send_data_with_retry-Sent rounds fd a q message s = attempts-Sent 4 1 rounds fd a q message s

  -- The sequences that a run must complete, and the DATA that it may send.
  abbrev pub expected : Bool → List ℕ
  expected true = 1 ∷ 3 ∷ 2 ∷ []
  expected false = 1 ∷ []

  abbrev pub allowance : Bool → ℕ
  allowance true = 12
  allowance false = 4

  send_messages-Sent :
      (rounds fd : ℕ) (a : Address) (mode : Bool) (s : Sender os)
      → Sent (allowance mode) (expected mode) s (send_messages os rounds fd a mode s)
  unfolding send_messages
  send_messages-Sent rounds fd a true s =
      Sent-bind {n = 12} s (print os test_mode_out_of_order s) _ (omega arith)
        (print-Sent 0 test_mode_out_of_order s (omega arith))
        λ _ t _.
          Sent-bind {n = 8} t (send_data_with_retry os rounds fd a 1 (bytes_of_text "message-1") t)
            _ (omega arith) (send_data_with_retry-Sent rounds fd a 1 (bytes_of_text "message-1") t)
            λ _ u _.
              Sent-bind {n = 4} u
                (send_data_with_retry os rounds fd a 3 (bytes_of_text "message-3") u) _
                (omega arith)
                (send_data_with_retry-Sent rounds fd a 3 (bytes_of_text "message-3") u)
                λ _ v _. send_data_with_retry-Sent rounds fd a 2 (bytes_of_text "message-2") v
  send_messages-Sent rounds fd a false s =
      send_data_with_retry-Sent rounds fd a 1 (bytes_of_text "hello udp") s

  open_socket-Sent : (s : Sender os) → Sent 0 [] s (open_socket os s)
  unfolding open_socket
  open_socket-Sent s = record { keeps = λ x k. k; bounded = omega arith; acked = λ a e. tt }

  receiver_address-Sent : (s : Sender os) → Sent 0 [] s (receiver_address os s)
  unfolding receiver_address
  receiver_address-Sent s = record { keeps = λ x k. k; bounded = omega arith; acked = λ a e. tt }

  close_socket-Sent : (fd : ℕ) (s : Sender os) → Sent 0 [] s (close_socket os fd s)
  unfolding close_socket
  close_socket-Sent fd s = record { keeps = λ x k. k; bounded = omega arith; acked = λ a e. tt }

  run_sender-Sent :
      (rounds : ℕ) (arguments : List String) (mode : Bool) (s : Sender os)
      → parse_mode os arguments ≡ ok mode
      → Sent (allowance mode) (expected mode) s (run_sender os rounds arguments s)
  unfolding run_sender out_of_order_mode
  run_sender-Sent rounds arguments mode s e = rw e (
      rw (← append-nil (expected mode)) (
        Sent-bind {n = allowance mode} s (open_socket os s) _ (omega arith) (open_socket-Sent s)
          λ fd t _.
            Sent-bind {n = allowance mode} t (receiver_address os t) _ (omega arith)
              (receiver_address-Sent t)
              λ a u _.
                Sent-bind {n = 0} u (send_messages os rounds fd a mode u) _ (omega arith)
                  (send_messages-Sent rounds fd a mode u) λ _ v _. close_socket-Sent fd v))

  -- What the exit code of the program tells of the completed sequences.
  record Completes (arguments : List String) (r : Outcome Exception ℕ × Sender os) : Type 0 where
    pub success :
        r.0 ≡ ok 0
        → (mode : Bool) × (parse_mode os arguments ≡ ok mode)
          × All (λ q. contains r.1.completed_sequences q ≡ true) (expected mode)
    pub bounded : sent_count r.1.output ≤ 12

  allowance-le : (mode : Bool) → allowance mode ≤ 12
  allowance-le true = omega arith
  allowance-le false = omega arith

  one_ne_zero : ◌≡◌ {A = Outcome Exception ℕ} (ok 1) (ok 0) → ⊥
  one_ne_zero p = let e = ok_inj {E = Exception} 1 0 p in omega arith

  parse_mode_returns : (arguments : List String) → parse_mode os arguments ≢ running
  unfolding parse_mode
  parse_mode_returns [] e = cc
  parse_mode_returns (mode ∷ rest) e = ground arith

  refused :
      (rounds : ℕ) (arguments : List String) (x : Exception) (s : Sender os)
      → parse_mode os arguments ≡ throw x
      → run_sender os rounds arguments s ≡ (throw x, s)
  unfolding run_sender out_of_order_mode
  refused rounds arguments x s e = rw e refl

  exit_code-Completes :
      (arguments : List String) (mode : Bool) (s : Sender os)
      → sent_count s.output ≡ 0
      → parse_mode os arguments ≡ ok mode
      → (r : Outcome Exception ℕ × Sender os) → Sent (allowance mode) (expected mode) s r
      → Completes arguments (exit_code os r)
  unfolding exit_code
  exit_code-Completes arguments mode s z e (ok n, t) g = record {
    success = λ p. (mode, e, g.acked n refl);
    bounded = omega (arith, g.bounded, allowance-le mode);
  }
  exit_code-Completes arguments mode s z e (throw response_timeout, t) g = record {
    success = λ p. cc;
    bounded = omega (arith, g.bounded, allowance-le mode);
  }
  exit_code-Completes arguments mode s z e (throw x, t) g = record {
    success = λ p. absurd (one_ne_zero p);
    bounded = omega (arith, g.bounded, allowance-le mode);
  }
  exit_code-Completes arguments mode s z e (running, t) g = record {
    success = λ p. cc;
    bounded = omega (arith, g.bounded, allowance-le mode);
  }

  exit_code-Completes_refused :
      (arguments : List String) (x : Exception) (s : Sender os)
      → sent_count s.output ≡ 0
      → Completes arguments (exit_code os (throw x, s))
  unfolding exit_code
  exit_code-Completes_refused arguments response_timeout s z = record {
    success = λ p. cc;
    bounded = omega arith;
  }
  exit_code-Completes_refused arguments x s z = record {
    success = λ p. absurd (one_ne_zero p);
    bounded = omega arith;
  }

  parsed :
      (rounds : ℕ) (arguments : List String) (s : Sender os)
      → sent_count s.output ≡ 0
      → Completes arguments (exit_code os (run_sender os rounds arguments s))
  parsed rounds arguments s z = elim (Outcome-cases (parse_mode os arguments)) [
    | inl (mode, e) ↦
        exit_code-Completes arguments mode s z e (run_sender os rounds arguments s)
          (run_sender-Sent rounds arguments mode s e)
    | inr (inl (x, e)) ↦
        rw (refused rounds arguments x s e) (exit_code-Completes_refused arguments x s z)
    | inr (inr e) ↦ absurd (parse_mode_returns arguments e)
  ]

  All-acked :
      (w : os.World) (s : Sender os) (qs : List ℕ)
      → Confirmed os w s
      → All (λ q. contains s.completed_sequences q ≡ true) qs
      → All (λ q. Heard os w (empty_ack os w q)) qs
  All-acked w s [] i h = tt
  All-acked w s (q ∷ qs) i h = (i.acked q h.0, All-acked w s qs i h.1)

  -- What the exit code of a run from `w` tells.
  pub record Tells (arguments : List String) (w : os.World) (r : Outcome Exception ℕ × Sender os)
      : Type 0 where
    pub success :
        r.0 ≡ ok 0
        → (mode : Bool) × (parse_mode os arguments ≡ ok mode)
          × All (λ q. contains r.1.completed_sequences q ≡ true) (expected mode)
          × All (λ q. Heard os w (empty_ack os w q)) (expected mode)
    pub bounded : sent_count r.1.output ≤ 12

  -- If the program exits with 0, its arguments name a mode and each message of the mode is completed
  -- and has been acknowledged: 1, 3 and 2 in the mode "out-of-order", and 1 without arguments. That is,
  -- in a state that the run has been through, `recvfrom` answered with a datagram that holds an empty
  -- ACK of the sequence. However the program ends, at most twelve DATA are printed as sent.
  pub main-Tells :
      (rounds : ℕ) (arguments : List String) (w : os.World)
      → Tells arguments w (main os rounds arguments w)
  main-Tells rounds arguments w =
      let told : Completes arguments (main os rounds arguments w) =
        unfold main in parsed rounds arguments (boot os w) refl in
      record {
        success = λ e.
            let (mode, parses, all) = told.success e in
            (
              mode,
              parses,
              all,
              All-acked w _ (expected mode) (main-Confirmed os rounds arguments w) all,
            );
        bounded = told.bounded;
      }

-- ===== src/FaultInjector/Connection.antt =====
-- The history of packets of fault_injector/tcp_proxy.cpp over a round of the relay and a connection.
use embedded_comm_reliabilit.Common.{
  ℕ, zero, suc, ◌≡◌, refl, ◌∙◌, Bool, true, false, Bool-cases, inl, inr, List, ◌∷◌, Outcome, ok,
  throw, running, continue_with-post,
}
use embedded_comm_reliabilit.Protocol.Error.{
  eintr, Exception, runtime_error, connection_lost, peer_disconnected, response_timeout,
}
use embedded_comm_reliabilit.Os.{Os, Sys, done, failed, Revents}
use embedded_comm_reliabilit.FaultInjector.{
  Proxy, Line, FaultMode, print, from_sender, from_receiver, check_hangup, hung_up, when,
  unless_ended, relay_ready, on_poll, relay_connection, receiver_connected, connection_closed,
  connection_error,
}
use embedded_comm_reliabilit.FaultInjector.Server.{report, close, relay}
use embedded_comm_reliabilit.FaultInjector.Trace.{Trace, polled, closed, packet_lines, Obeys}
use embedded_comm_reliabilit.FaultInjector.OneFault.{from_sender-Obeys, from_receiver-Obeys}

module _ (os : Os) (rounds : ℕ) (start : os.World) (mode : FaultMode) where
  -- A step of the kernel alone, and lines that tell of no packet.
  pub moved :
      {a b c d : ℕ} (s : Proxy os) (w : os.World) (ls : List Line)
      (i : Obeys os rounds start mode a b s)
      → Trace os rounds start c d i.events w
      → packet_lines ls ≡ packet_lines s.output
      → Obeys os rounds start mode c d
          (record { world = w; fault_applied = s.fault_applied; output = ls })
  moved s w ls i t e = record {
    events = i.events;
    trace = t;
    of_mode = i.of_mode;
    applied = i.applied;
    printed = e ∙ i.printed;
  }

  pub print-Obeys :
      {a b : ℕ} (l : Line) (s : Proxy os)
      → packet_lines (l ∷ s.output) ≡ packet_lines s.output
      → Obeys os rounds start mode a b s
      → Obeys os rounds start mode a b (print os rounds l s).1
  unfolding print
  print-Obeys l s e i = moved s s.world (l ∷ s.output) i i.trace e

  pub close-Obeys :
      {a b : ℕ} (fd : ℕ) (s : Proxy os)
      → Obeys os rounds start mode a b s
      → Obeys os rounds start mode a b (close os rounds fd s).1
  unfolding close
  close-Obeys {a} {b} fd s i =
      moved s _ s.output i (closed a b fd i.events s.world _ i.trace refl) refl

module _ (os : Os) (rounds : ℕ) (start : os.World) (mode : FaultMode)
    (sender_fd receiver_fd : ℕ) where
  abbrev Keeps : Proxy os → Type 0
  Keeps = Obeys os rounds start mode sender_fd receiver_fd

  check_hangup-Obeys :
      (x y : Revents) (s : Proxy os) → Keeps s → Keeps (check_hangup os rounds x y s).1
  unfolding check_hangup
  check_hangup-Obeys x y s i = elim (Bool-cases (hung_up os rounds x)) [
    | inl e ↦ rw e i
    | inr e ↦ rw e (elim (Bool-cases (hung_up os rounds y)) [ inl f ↦ rw f i | inr f ↦ rw f i ])
  ]

  when-Obeys :
      (t : Bool) (body : Proxy os → Outcome Exception Bool × Proxy os) (s : Proxy os)
      → Keeps s
      → Keeps (body s).1
      → Keeps (when os rounds t body s).1
  unfolding when
  when-Obeys false body s i h = i
  when-Obeys true body s i h = h

  unless_ended-Obeys :
      (next : Proxy os → Outcome Exception Bool × Proxy os) (t : Bool) (s : Proxy os)
      → Keeps s
      → Keeps (next s).1
      → Keeps (unless_ended os rounds next t s).1
  unfolding unless_ended
  unless_ended-Obeys next true s i h = i
  unless_ended-Obeys next false s i h = h

  relay_ready-Obeys :
      (x y : Revents) (s : Proxy os)
      → Keeps s
      → Keeps (relay_ready os rounds mode sender_fd receiver_fd x y s).1
  unfolding relay_ready
  relay_ready-Obeys x y s i =
      continue_with-post Keeps Keeps _
        (when os rounds x.pollin (from_sender os rounds mode sender_fd receiver_fd) s)
        (when-Obeys x.pollin _ s i
          (from_sender-Obeys os rounds start sender_fd receiver_fd mode s i))
        (λ t k. k)
        λ c t k. unless_ended-Obeys _ c t k (
          continue_with-post Keeps Keeps _
            (when os rounds y.pollin (from_receiver os rounds mode sender_fd receiver_fd) t)
            (when-Obeys y.pollin _ t k
              (from_receiver-Obeys os rounds start sender_fd receiver_fd mode t k))
            (λ u m. m) λ d u m. unless_ended-Obeys _ d u m (check_hangup-Obeys x y u m))

  on_poll-Obeys :
      (next : Proxy os → Outcome Exception (Unit {0}) × Proxy os) (r : Sys (Revents × Revents))
      (s : Proxy os)
      → ((t : Proxy os) → Keeps t → Keeps (next t).1)
      → Keeps s
      → Keeps (on_poll os rounds next mode sender_fd receiver_fd r s).1
  unfolding on_poll
  on_poll-Obeys next (failed eintr) s h i = h s i
  on_poll-Obeys next (failed e) s h i = i
  on_poll-Obeys next (done (x, y)) s h i =
      continue_with-post Keeps Keeps _ (relay_ready os rounds mode sender_fd receiver_fd x y s)
        (relay_ready-Obeys x y s i) (λ t k. k) λ _ t k. h t k

  relay_connection-Obeys :
      (turns : ℕ) (s : Proxy os)
      → Keeps s
      → Keeps (relay_connection os rounds turns mode sender_fd receiver_fd s).1
  unfolding relay_connection
  relay_connection-Obeys zero s i = i
  relay_connection-Obeys (suc turns) s i =
      on_poll-Obeys (relay_connection os rounds turns mode sender_fd receiver_fd) _ _
        (relay_connection-Obeys turns)
        (moved os rounds start mode s _ s.output i
          (polled sender_fd receiver_fd i.events s.world _ i.trace refl) refl)

  pub report-Obeys :
      (r : Outcome Exception (Unit {0}) × Proxy os) → Keeps r.1 → Keeps (report os rounds r).1
  unfolding report
  report-Obeys (throw (peer_disconnected m), s) i =
      print-Obeys os rounds start mode (connection_closed (peer_disconnected m)) s refl i
  report-Obeys (throw response_timeout, s) i = i
  report-Obeys (throw (runtime_error m), s) i =
      print-Obeys os rounds start mode (connection_error (runtime_error m)) s refl i
  report-Obeys (throw (connection_lost m), s) i =
      print-Obeys os rounds start mode (connection_error (connection_lost m)) s refl i
  report-Obeys (ok x, s) i = i
  report-Obeys (running, s) i = i

  pub relay-Obeys :
      (turns : ℕ) (s : Proxy os)
      → Keeps s
      → Keeps (relay os rounds turns mode sender_fd receiver_fd s).1
  unfolding relay
  relay-Obeys turns s i =
      continue_with-post Keeps Keeps _ (print os rounds receiver_connected s)
        (print-Obeys os rounds start mode receiver_connected s refl i) (λ t k. k)
        λ _ t k. relay_connection-Obeys turns t k

-- ===== src/FaultInjector/Runs.antt =====
-- The history of packets of fault_injector/tcp_proxy.cpp over all connections and a whole run.
use Prim.Native.String.{String}
use embedded_comm_reliabilit.Common.{
  ℕ, zero, suc, ◌≡◌, refl, List, [], ◌∷◌, Outcome, ok, throw, running, continue_with-post,
}
use embedded_comm_reliabilit.Protocol.Error.{eintr, Exception, response_timeout}
use embedded_comm_reliabilit.Os.{Os, Sys, done, failed}
use embedded_comm_reliabilit.FaultInjector.{
  Proxy, FaultMode, print, parse_fault_mode, fault_mode_name, sender_connected, waiting_for_sender,
  fault_mode_is, injector_error, listening,
}
use embedded_comm_reliabilit.FaultInjector.Server.{
  report, close, relay, linked, link, serve_sender, accept_next, accept_loop, fault_mode,
  open_listen_socket, started, run_proxy, exit_code, boot, main, connect_to_receiver,
}
use embedded_comm_reliabilit.FaultInjector.Trace.{
  begun, opened, not_accepted, accepted, not_connected, connected, Obeys,
}
use embedded_comm_reliabilit.FaultInjector.Connection.{
  moved, print-Obeys, close-Obeys, report-Obeys, relay-Obeys,
}

module _ (os : Os) (rounds : ℕ) (start : os.World) (mode : FaultMode) where
  -- The invariant, whatever the last descriptors were.
  abbrev pub Proceeds : Proxy os → Type 0
  Proceeds s = (a : ℕ) × (b : ℕ) × Obeys os rounds start mode a b s

  -- A connection to the receiver, or none, for an accepted sender.
  linked-Proceeds :
      (turns sender_fd b : ℕ) (r : Outcome Exception ℕ × os.World) (s : Proxy os)
      → Obeys os rounds start mode sender_fd b s
      → connect_to_receiver os s.world ≡ r
      → Proceeds (linked os rounds turns mode sender_fd r.0 (record s { world = r.1 })).1
  unfolding linked
  linked-Proceeds turns sender_fd b (ok fd, w) s i e =
      let j =
        moved os rounds start mode s w s.output i
          (connected sender_fd b fd i.events s.world w i.trace e) refl in
      let Keeps : Proxy os → Type 0 = Obeys os rounds start mode sender_fd fd in
      (
        sender_fd,
        fd,
        continue_with-post Keeps Keeps _
            (report os rounds (relay os rounds turns mode sender_fd fd (record s { world = w })))
            (report-Obeys os rounds start mode sender_fd fd _
              (relay-Obeys os rounds start mode sender_fd fd turns _ j))
            (λ t k. k)
            λ _ t k.
              continue_with-post Keeps Keeps _ (close os rounds sender_fd t)
                (close-Obeys os rounds start mode sender_fd t k) (λ u m. m)
                λ _ u m. close-Obeys os rounds start mode fd u m,
      )
  linked-Proceeds turns sender_fd b (throw x, w) s i e =
      let j =
        moved os rounds start mode s w s.output i
          (not_connected sender_fd b (throw x) i.events s.world w i.trace e (λ fd k. cc)) refl in
      let Keeps : Proxy os → Type 0 = Obeys os rounds start mode sender_fd b in
      (
        sender_fd,
        b,
        continue_with-post Keeps Keeps _ (report os rounds (throw x, record s { world = w }))
            (report-Obeys os rounds start mode sender_fd b (throw x, record s { world = w }) j)
            (λ t k. k) λ _ t k. close-Obeys os rounds start mode sender_fd t k,
      )
  linked-Proceeds turns sender_fd b (running, w) s i e = (
    sender_fd,
    b,
    moved os rounds start mode s w s.output i
        (not_connected sender_fd b running i.events s.world w i.trace e (λ fd k. cc)) refl,
  )

  link-Proceeds :
      (turns sender_fd b : ℕ) (s : Proxy os)
      → Obeys os rounds start mode sender_fd b s
      → Proceeds (link os rounds turns mode sender_fd s).1
  unfolding link
  link-Proceeds turns sender_fd b s i =
      linked-Proceeds turns sender_fd b (connect_to_receiver os s.world) s i refl

  serve_sender-Proceeds :
      (turns sender_fd b : ℕ) (s : Proxy os)
      → Obeys os rounds start mode sender_fd b s
      → Proceeds (serve_sender os rounds turns mode sender_fd s).1
  unfolding serve_sender
  serve_sender-Proceeds turns sender_fd b s i =
      let Keeps : Proxy os → Type 0 = Obeys os rounds start mode sender_fd b in
      continue_with-post Keeps Proceeds _ (print os rounds sender_connected s)
        (print-Obeys os rounds start mode sender_connected s refl i) (λ t k. (sender_fd, b, k))
        λ _ t k.
          continue_with-post Proceeds Proceeds _ (link os rounds turns mode sender_fd t)
            (link-Proceeds turns sender_fd b t k) (λ u m. m)
            λ _ u m. (m.0, m.1, print-Obeys os rounds start mode waiting_for_sender u refl m.2)

  accept_next-Proceeds :
      (turns listen_fd a b : ℕ) (next : Proxy os → Outcome Exception (Unit {0}) × Proxy os)
      (c : Sys ℕ × os.World) (s : Proxy os)
      → ((t : Proxy os) → Proceeds t → Proceeds (next t).1)
      → Obeys os rounds start mode a b s
      → os.accept listen_fd s.world ≡ c
      → Proceeds (accept_next os rounds turns mode next c.0 (record s { world = c.1 })).1
  unfolding accept_next
  accept_next-Proceeds turns listen_fd a b next (failed eintr, w) s h i e = h _ (
    a,
    b,
    moved os rounds start mode s w s.output i
        (not_accepted a b listen_fd eintr i.events s.world w i.trace e) refl,
  )
  accept_next-Proceeds turns listen_fd a b next (failed x, w) s h i e = (
    a,
    b,
    moved os rounds start mode s w s.output i
        (not_accepted a b listen_fd x i.events s.world w i.trace e) refl,
  )
  accept_next-Proceeds turns listen_fd a b next (done fd, w) s h i e =
      continue_with-post Proceeds Proceeds _
        (serve_sender os rounds turns mode fd (record s { world = w }))
        (serve_sender-Proceeds turns fd b _ (
          moved os rounds start mode s w s.output i
            (accepted a b listen_fd fd i.events s.world w i.trace e) refl))
        (λ t k. k) λ _ t k. h t k

  accept_loop-Proceeds :
      (accepts turns listen_fd : ℕ) (s : Proxy os)
      → Proceeds s
      → Proceeds (accept_loop os rounds accepts turns mode listen_fd s).1
  unfolding accept_loop
  accept_loop-Proceeds zero turns listen_fd s i = i
  accept_loop-Proceeds (suc accepts) turns listen_fd s (a, b, i) =
      accept_next-Proceeds turns listen_fd a b (accept_loop os rounds accepts turns mode listen_fd)
        (os.accept listen_fd s.world) s (accept_loop-Proceeds accepts turns listen_fd) i refl

  open_listen_socket-Proceeds :
      (s : Proxy os) → Proceeds s → Proceeds (open_listen_socket os rounds s).1
  unfolding open_listen_socket
  open_listen_socket-Proceeds s (a, b, i) = (
    a,
    b,
    moved os rounds start mode s _ s.output i (opened a b i.events s.world _ i.trace refl) refl,
  )

  started-Proceeds :
      (accepts turns : ℕ) (s : Proxy os)
      → Proceeds s
      → Proceeds (started os rounds accepts turns mode s).1
  unfolding started
  started-Proceeds accepts turns s i =
      continue_with-post Proceeds Proceeds _ (open_listen_socket os rounds s)
        (open_listen_socket-Proceeds s i) (λ t k. k)
        λ fd t k.
          continue_with-post Proceeds Proceeds _ (print os rounds listening t)
            (k.0, k.1, print-Obeys os rounds start mode listening t refl k.2) (λ u m. m)
            λ _ u m.
              continue_with-post Proceeds Proceeds _
                (print os rounds (fault_mode_is (fault_mode_name mode)) u)
                (
                  m.0,
                  m.1,
                  print-Obeys os rounds start mode (fault_mode_is (fault_mode_name mode)) u refl
                      m.2,
                )
                (λ v n. n) λ _ v n. accept_loop-Proceeds accepts turns fd v n

  exit_code-Proceeds :
      (r : Outcome Exception (Unit {0}) × Proxy os)
      → Proceeds r.1
      → Proceeds (exit_code os rounds r).1
  unfolding exit_code
  exit_code-Proceeds (throw response_timeout, s) i = i
  exit_code-Proceeds (throw x, s) (a, b, i) =
      (a, b, moved os rounds start mode s s.world (injector_error x ∷ s.output) i i.trace refl)
  exit_code-Proceeds (ok x, s) i = i
  exit_code-Proceeds (running, s) i = i

module _ (os : Os) (rounds : ℕ) (mode : FaultMode) where
  -- Over a whole run whose arguments name the mode, all senders together, some history of the packets
  -- received leads to the state of the kernel. Each packet received from one side is passed on to the
  -- other, unchanged, or is subject to a fault of the mode: a DATA is sent with a damaged frame, an ACK
  -- is dropped or comes late, or a HEARTBEAT ends the connection. The faults applied are one if
  -- `fault_applied` is set and none otherwise, and what is printed of packets tells exactly of the
  -- history; a corruption that could not be sent is printed too and does not count.
  pub main-Proceeds :
      (accepts turns : ℕ) (arguments : List String) (w : os.World)
      → parse_fault_mode arguments ≡ ok mode
      → Proceeds os rounds w mode (main os rounds accepts turns arguments w).1
  unfolding main run_proxy fault_mode
  main-Proceeds accepts turns arguments w e = rw e (
      exit_code-Proceeds os rounds w mode _ (
        started-Proceeds os rounds w mode accepts turns (boot os rounds w) (
          0,
          0,
          record { events = []; trace = begun 0 0; of_mode = tt; applied = refl; printed = refl },
        )))

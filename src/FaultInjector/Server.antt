-- ===== src/FaultInjector/Server.antt =====
-- The sockets and `main` of fault_injector/tcp_proxy.cpp: one sender after another, each joined to
-- the receiver by a connection of its own.
use Prim.Native.String.{String}
use embedded_comm_reliabilit.Common.{
  ℕ, zero, suc, false, List, [], ◌∷◌, Outcome, ok, throw, running, M, continue_with, ◌>>=◌, ◌>>◌,
  Option, none, some, pure,
}
use embedded_comm_reliabilit.Protocol.Error.{
  Errno, eintr, Message, Exception, fail, peer_disconnected, response_timeout, socket_failed,
  setsockopt_failed, bind_failed, listen_failed, accept_failed, connect_failed,
  invalid_server_ip_address,
}
use embedded_comm_reliabilit.Os.{Os, Sys, done, failed}
use embedded_comm_reliabilit.FaultInjector.{
  Proxy, R, FaultMode, listen_port, receiver_ip, receiver_port, backlog, call, print,
  relay_connection, parse_fault_mode, fault_mode_name, listening, sender_connected,
  receiver_connected, waiting_for_sender, fault_mode_is, connection_closed, connection_error,
  injector_error,
}

module _ (os : Os) where
  -- A system call whose failure closes the socket and throws.
  unfoldable pub or_close :
      ℕ → (Errno → Message) → Sys (Unit {0}) × os.World → Outcome Exception (Unit {0}) × os.World
  or_close fd message (done _, w) = (ok tt, w)
  or_close fd message (failed e, w) = (fail (message e), os.close fd w)

  unfoldable pub opened : Sys ℕ × os.World → Outcome Exception ℕ × os.World
  opened (done fd, w) = (ok fd, w)
  opened (failed e, w) = (fail (socket_failed e), w)

  unfoldable pub stream_socket : M os.World Exception ℕ
  stream_socket w = opened (os.socket_stream w)

  unfoldable pub create_listen_socket : M os.World Exception ℕ
  create_listen_socket = do
    fd ← stream_socket
    λ w. or_close fd setsockopt_failed (os.set_reuse_address fd w)
    λ w. or_close fd bind_failed (os.bind fd (record { ip = 0; port = listen_port }) w)
    λ w. or_close fd listen_failed (os.listen fd backlog w)
    pure fd

  unfoldable pub connect_to : ℕ → Option ℕ → M os.World Exception (Unit {0})
  connect_to fd none w = (fail invalid_server_ip_address, os.close fd w)
  connect_to fd (some ip) w =
      or_close fd connect_failed (os.connect fd (record { ip = ip; port = receiver_port }) w)

  unfoldable pub connect_to_receiver : M os.World Exception ℕ
  connect_to_receiver = do fd ← stream_socket; connect_to fd (os.inet_pton receiver_ip); pure fd

module _ (os : Os) (rounds : ℕ) where
  -- The two handlers around a connection.
  unfoldable pub report :
      Outcome Exception (Unit {0}) × Proxy os → Outcome Exception (Unit {0}) × Proxy os
  report (throw (peer_disconnected m), s) =
      print os rounds (connection_closed (peer_disconnected m)) s
  report (throw response_timeout, s) = (throw response_timeout, s)
  report (throw e, s) = print os rounds (connection_error e) s
  report (r, s) = (r, s)

  unfoldable pub close : ℕ → R os rounds (Unit {0})
  close fd s = (ok tt, record s { world = os.close fd s.world })

  unfoldable pub relay : ℕ → FaultMode → ℕ → ℕ → R os rounds (Unit {0})
  relay turns mode sender_fd receiver_fd = do
    print os rounds receiver_connected
    relay_connection os rounds turns mode sender_fd receiver_fd

  -- The `try` block and what follows it; `receiver_fd` is -1 if there is no connection.
  unfoldable pub linked : ℕ → FaultMode → ℕ → Outcome Exception ℕ → R os rounds (Unit {0})
  linked turns mode sender_fd (ok receiver_fd) s =
      continue_with (report (relay turns mode sender_fd receiver_fd s))
        λ _ t. continue_with (close sender_fd t) λ _. close receiver_fd
  linked turns mode sender_fd (throw e) s = continue_with (report (throw e, s)) λ _. close sender_fd
  linked turns mode sender_fd running s = (running, s)

  unfoldable pub link : ℕ → FaultMode → ℕ → R os rounds (Unit {0})
  link turns mode sender_fd s =
      let (r, w) = connect_to_receiver os s.world in
      linked turns mode sender_fd r (record s { world = w })

  unfoldable pub serve_sender : ℕ → FaultMode → ℕ → R os rounds (Unit {0})
  serve_sender turns mode sender_fd = do
    print os rounds sender_connected
    link turns mode sender_fd
    print os rounds waiting_for_sender

  unfoldable pub accept_next :
      ℕ → FaultMode → R os rounds (Unit {0}) → Sys ℕ → R os rounds (Unit {0})
  accept_next turns mode next (failed eintr) s = next s
  accept_next turns mode next (failed e) s = (fail (accept_failed e), s)
  accept_next turns mode next (done sender_fd) s =
      continue_with (serve_sender turns mode sender_fd s) λ _. next

  -- The loop of `main`, for at most as many calls of `accept`.
  unfoldable pub accept_loop : ℕ → ℕ → FaultMode → ℕ → R os rounds (Unit {0})
  accept_loop zero turns mode listen_fd s = (running, s)
  accept_loop (suc accepts) turns mode listen_fd s =
      let (c, w) = os.accept listen_fd s.world in
      accept_next turns mode (accept_loop accepts turns mode listen_fd) c (record s { world = w })

  unfoldable pub fault_mode : List String → R os rounds FaultMode
  fault_mode arguments s = (parse_fault_mode arguments, s)

  unfoldable pub open_listen_socket : R os rounds ℕ
  open_listen_socket s = call os rounds (create_listen_socket os s.world) s

  -- `main` behind the mode.
  unfoldable pub started : ℕ → ℕ → FaultMode → R os rounds (Unit {0})
  started accepts turns mode = do
    listen_fd ← open_listen_socket
    print os rounds listening
    print os rounds (fault_mode_is (fault_mode_name mode))
    accept_loop accepts turns mode listen_fd

  unfoldable pub run_proxy : ℕ → ℕ → List String → R os rounds (Unit {0})
  run_proxy accepts turns arguments = do mode ← fault_mode arguments; started accepts turns mode

  -- The handler of `main`, for the classes derived from `std::exception`. The loop never ends by
  -- itself, so `return 0` is not reached.
  unfoldable pub exit_code :
      Outcome Exception (Unit {0}) × Proxy os → Outcome Exception ℕ × Proxy os
  exit_code (throw response_timeout, s) = (throw response_timeout, s)
  exit_code (throw e, s) = (ok 1, record s { output = injector_error e ∷ s.output })
  exit_code (ok _, s) = (ok 0, s)
  exit_code (running, s) = (running, s)

  abbrev pub boot : os.World → Proxy os
  boot w = record { world = w; fault_applied = false; output = [] }

  unfoldable pub main : ℕ → ℕ → List String → os.World → Outcome Exception ℕ × Proxy os
  main accepts turns arguments w = exit_code (run_proxy accepts turns arguments (boot w))

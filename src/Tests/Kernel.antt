-- ===== src/Tests/Kernel.antt =====
-- A kernel for tests: one stream of bytes to receive, delivered three at a time; `send` accepts five
-- bytes at a time; the next few calls are interrupted by signals; the clock ticks at each look.
use embedded_comm_reliabilit.Common.{
  ℕ, zero, suc, ◌+◌, ◌%◌, ◌≤◌, ◌<◌, ◌≡◌, refl, min, List, [], ◌∷◌, ◌++◌, length, take, drop, arith,
  IsBytes, true, false, some, take-append-drop, length-take,
}
use embedded_comm_reliabilit.Protocol.Error.{Errno, eintr, econnreset}
use embedded_comm_reliabilit.Os.{Os, Sys, done, failed, Revents}
use embedded_comm_reliabilit.Os.Laws.{StreamLaws}

pub record Wire : Type 0 where
  pub incoming : List ℕ
  pub outgoing : List ℕ
  pub signals : ℕ
  pub clock : ℕ
  pub clients : ℕ

abbrev pub to_bytes : List ℕ → List ℕ
to_bytes [] = []
to_bytes (b ∷ bs) = (b % 256) ∷ to_bytes bs

pub to_bytes-IsBytes : (bs : List ℕ) → IsBytes (to_bytes bs)
to_bytes-IsBytes [] = tt
to_bytes-IsBytes (b ∷ bs) = (omega arith, to_bytes-IsBytes bs)

to_bytes-drop : (n : ℕ) (bs : List ℕ) → to_bytes (drop n bs) ≡ drop n (to_bytes bs)
to_bytes-drop zero bs = refl
to_bytes-drop (suc n) [] = refl
to_bytes-drop (suc n) (b ∷ bs) = to_bytes-drop n bs

take-eq_nil : (n : ℕ) (bs : List ℕ) → 0 < n → take n bs ≡ [] → bs ≡ []
take-eq_nil zero bs h e = absurd (omega arith)
take-eq_nil (suc n) [] h e = refl
take-eq_nil (suc n) (b ∷ bs) h e = cc

abbrev pub interrupted : {A : Type 0} → ℕ → Wire → Sys A × Wire → Sys A × Wire
interrupted zero w r = r
interrupted (suc n) w r = (failed eintr, record w { signals = n })

abbrev pub wire_send : ℕ → List ℕ → Wire → Sys ℕ × Wire
wire_send fd bs w =
    interrupted w.signals w
      (done (min 5 (length bs)), record w { outgoing = w.outgoing ++ take (min 5 (length bs)) bs })

abbrev pub wire_recv : ℕ → ℕ → Wire → Sys (List ℕ) × Wire
wire_recv fd n w =
    interrupted w.signals w (
      done (take (min 3 n) (to_bytes w.incoming)),
      record w { incoming = drop (min 3 n) w.incoming },
    )

abbrev pub readable : Revents
readable = record { pollin = true; pollerr = false; pollhup = false; pollnval = false }

-- `accept` gives descriptor 7 as often as there are clients, and fails after that.
abbrev pub wire_accept : ℕ → Wire → Sys ℕ × Wire
wire_accept zero w = (failed econnreset, w)
wire_accept (suc n) w = (done 7, record w { clients = n })

abbrev pub wire : Os
wire = record {
  World = Wire;
  send = wire_send;
  recv = wire_recv;
  recv_dontwait = wire_recv;
  sendto = λ fd bs address w. (done (length bs), record w { outgoing = w.outgoing ++ bs });
  recvfrom = λ fd n w. (
    done (take n (to_bytes w.incoming), record { ip = 1; port = 9 }),
    record w { incoming = [] },
  );
  poll_one = λ fd timeout w. (done (some readable), w);
  poll_two = λ fd fd' w. (done (readable, readable), w);
  now = λ w. (w.clock, record w { clock = w.clock + 1 });
  sleep = λ ms w. record w { clock = w.clock + ms };
  socket_stream = λ w. (done 3, w);
  socket_dgram = λ w. (done 4, w);
  set_reuse_address = λ fd w. (done tt, w);
  bind = λ fd address w. (done tt, w);
  listen = λ fd n w. (done tt, w);
  accept = λ fd w. wire_accept w.clients w;
  connect = λ fd address w. (done tt, w);
  inet_pton = λ text. some 1;
  shutdown = λ fd w. w;
  close = λ fd w. w;
}

module _ (fd : ℕ) (bs : List ℕ) (w : Wire) where
  pub wire_send_bound : (n : ℕ) → (wire_send fd bs w).0 ≡ done n → n ≤ length bs
  wire_send_bound n e = ground arith

  pub wire_send_accepts :
      (n : ℕ)
      → (wire_send fd bs w).0 ≡ done n
      → (wire_send fd bs w).1.outgoing ≡ w.outgoing ++ take n bs
  wire_send_accepts n e = ground arith

  pub wire_send_refuses :
      (x : Errno) → (wire_send fd bs w).0 ≡ failed x → (wire_send fd bs w).1.outgoing ≡ w.outgoing
  wire_send_refuses x e = ground arith

  pub wire_send_interrupts : (wire_send fd bs w).1.signals ≤ w.signals
  wire_send_interrupts = ground arith

  pub wire_send_interrupted :
      (wire_send fd bs w).0 ≡ failed eintr → (wire_send fd bs w).1.signals < w.signals
  wire_send_interrupted e = ground arith

module _ (fd size : ℕ) (w : Wire) where
  pub wire_recv_bound : (bs : List ℕ) → (wire_recv fd size w).0 ≡ done bs → length bs ≤ size
  wire_recv_bound bs e = ground (arith, length-take (min 3 size) (to_bytes w.incoming))

  pub wire_recv_delivers :
      (bs : List ℕ)
      → (wire_recv fd size w).0 ≡ done bs
      → to_bytes w.incoming ≡ bs ++ to_bytes (wire_recv fd size w).1.incoming
  wire_recv_delivers bs e = ground (
    arith,
    take-append-drop (min 3 size) (to_bytes w.incoming),
    to_bytes-drop (min 3 size) w.incoming,
  )

  pub wire_recv_end : 0 < size → (wire_recv fd size w).0 ≡ done [] → to_bytes w.incoming ≡ []
  wire_recv_end h e = take-eq_nil (min 3 size) (to_bytes w.incoming) (omega arith) (ground arith)

  pub wire_recv_refuses :
      (x : Errno)
      → (wire_recv fd size w).0 ≡ failed x
      → to_bytes (wire_recv fd size w).1.incoming ≡ to_bytes w.incoming
  wire_recv_refuses x e = ground arith

  pub wire_recv_interrupts : (wire_recv fd size w).1.signals ≤ w.signals
  wire_recv_interrupts = ground arith

  pub wire_recv_interrupted :
      (wire_recv fd size w).0 ≡ failed eintr → (wire_recv fd size w).1.signals < w.signals
  wire_recv_interrupted e = ground arith

abbrev pub wire_laws : StreamLaws wire
wire_laws = record {
  sent = λ w fd. w.outgoing;
  pending = λ w fd. to_bytes w.incoming;
  interrupts = λ w. w.signals;
  pending_bytes = λ w fd. to_bytes-IsBytes w.incoming;
  send_bound = wire_send_bound;
  send_accepts = wire_send_accepts;
  send_refuses = wire_send_refuses;
  send_interrupts = wire_send_interrupts;
  send_interrupted = wire_send_interrupted;
  recv_bound = wire_recv_bound;
  recv_delivers = wire_recv_delivers;
  recv_end = wire_recv_end;
  recv_refuses = wire_recv_refuses;
  recv_interrupts = wire_recv_interrupts;
  recv_interrupted = wire_recv_interrupted;
}

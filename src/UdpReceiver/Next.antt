-- ===== src/UdpReceiver/Next.antt =====
-- The variables of `main` in udp/receiver.cpp and what it prints.
use Prim.Native.String.{String}
use embedded_comm_reliabilit.Common.{
  ◌++◌, ℕ, zero, suc, ◌+◌, ◌^◌, ◌<◌, ◌≡◌, refl, sym, ap, ◌∙◌, Bool, true, false, not, ◌&&◌,
  Bool-cases, inl, inr, List, [], ◌∷◌, length, contains, insert, arith, Distinct, insert-Distinct,
  insert-new, contains-insert_of_mem, Outcome, ok, throw, running, continue_with-post,
}
use embedded_comm_reliabilit.Protocol.{Packet, MessageType, data_message}
use embedded_comm_reliabilit.Protocol.Error.{
  Exception, response_timeout, runtime_error, connection_lost, peer_disconnected,
}
use embedded_comm_reliabilit.Os.{Os, Address}
use embedded_comm_reliabilit.UdpReceiver.{
  Receiver, Line, Mode, received_data, report, process_data, acknowledge, on_data, on_packet, turn,
  turn_next, serve, send_packet, receive_packet, ack_of, open_socket, print_banner, close_socket,
  run_receiver, run_mode, exit_code, main, boot, parse_mode, banner,
}
use embedded_comm_reliabilit.UdpReceiver.Advance.{IsNext, advance_lem}

-- The sequences printed as received, the newest first.
abbrev pub handled : List Line → List ℕ
handled [] = []
handled (received_data q payload ∷ ls) = q ∷ handled ls
handled (_ ∷ ls) = handled ls

module _ {os : Os} where
  pub record Tracks (s : Receiver os) : Type 0 where
    pub recorded : handled s.output ≡ s.processed_sequences
    pub once : Distinct s.processed_sequences
    pub counted : s.unique_received ≡ length s.processed_sequences
    pub next : IsNext s.processed_sequences s.expected_sequence

  -- The invariant, in a state that may handle `left` more datagrams without an overflow of a counter.
  abbrev pub Room : ℕ → Receiver os → Type 0
  Room left s = Tracks s × (length s.processed_sequences + left < 2 ^ 31)

module _ (os : Os) where
  handled-report :
      (p : Packet) (e : ℕ) (ls : List Line) → handled (report os p e ls) ≡ p.sequence ∷ handled ls
  handled-report p e ls = ground arith

  process_data-Tracks :
      (left : ℕ) (p : Packet) (s : Receiver os)
      → Room (suc left) s
      → Room left (process_data os p (contains s.processed_sequences p.sequence) s)
  unfolding process_data
  process_data-Tracks left p s (i, room) =
      elim (Bool-cases (contains s.processed_sequences p.sequence)) [
        | inl old ↦ rw old (
          record { recorded = i.recorded; once = i.once; counted = i.counted; next = i.next },
          omega arith,
        )
        | inr new ↦
            let grown = ap length (insert-new s.processed_sequences p.sequence new) in
            rw new (
              record {
                recorded =
                    handled-report p s.expected_sequence s.output
                    ∙ ap (◌∷◌ p.sequence) i.recorded
                    ∙ sym (insert-new s.processed_sequences p.sequence new);
                once = insert-Distinct s.processed_sequences p.sequence i.once;
                counted = omega (arith, i.counted);
                next =
                    advance_lem (insert s.processed_sequences p.sequence) s.expected_sequence
                      (omega arith) i.next.positive
                      (λ x q r.
                        contains-insert_of_mem s.processed_sequences p.sequence x
                          (i.next.complete x q r));
              },
              omega arith,
            )
      ]

  send_packet-Tracks :
      (left fd : ℕ) (p : Packet) (a : Address) (s : Receiver os)
      → Room left s
      → Room left (send_packet os fd p a s).1
  unfolding send_packet
  send_packet-Tracks left fd p a s (i, room) =
      (record { recorded = i.recorded; once = i.once; counted = i.counted; next = i.next }, room)

  receive_packet-Tracks :
      (left fd : ℕ) (s : Receiver os) → Room left s → Room left (receive_packet os fd s).1
  unfolding receive_packet
  receive_packet-Tracks left fd s (i, room) =
      (record { recorded = i.recorded; once = i.once; counted = i.counted; next = i.next }, room)

  acknowledge-Tracks :
      (left : ℕ) (mode : Mode) (fd : ℕ) (p : Packet) (a : Address) (d : Bool) (s : Receiver os)
      → Room left s
      → Room left (acknowledge os mode fd p a d s).1
  unfolding acknowledge
  acknowledge-Tracks left mode fd p a d s (i, room) =
      elim (Bool-cases (mode.drop_first_ack && not s.ack_dropped)) [
        | inl drops ↦ rw drops (
          record { recorded = i.recorded; once = i.once; counted = i.counted; next = i.next },
          room,
        )
        | inr sends ↦ rw sends (
            continue_with-post (Room left) (Room left) _
              (send_packet os fd (ack_of os p.sequence) a s)
              (send_packet-Tracks left fd (ack_of os p.sequence) a s (i, room)) (λ t k. k)
              λ _ t k. (
                record {
                  recorded = k.0.recorded;
                  once = k.0.once;
                  counted = k.0.counted;
                  next = k.0.next;
                },
                k.1,
              ))
      ]

  weaken : (left : ℕ) (s : Receiver os) → Room (suc left) s → Room left s
  weaken left s (i, room) = (i, omega arith)

  on_packet-Tracks :
      (left : ℕ) (t : MessageType) (mode : Mode) (fd : ℕ) (p : Packet) (a : Address)
      (s : Receiver os)
      → Room (suc left) s
      → Room left (on_packet os t mode fd p a s).1
  unfolding on_packet on_data
  on_packet-Tracks left data_message mode fd p a s k =
      acknowledge-Tracks left mode fd p a (contains s.processed_sequences p.sequence)
        (process_data os p (contains s.processed_sequences p.sequence) s)
        (process_data-Tracks left p s k)
  on_packet-Tracks left _ mode fd p a s k = weaken left s k

  turn-Tracks :
      (left : ℕ) (mode : Mode) (fd : ℕ) (s : Receiver os)
      → Room (suc left) s
      → Room left (turn os mode fd s).1
  unfolding turn
  turn-Tracks left mode fd s k =
      continue_with-post (Room (suc left)) (Room left) _ (receive_packet os fd s)
        (receive_packet-Tracks (suc left) fd s k) (weaken left)
        λ r t l. on_packet-Tracks left r.0.type mode fd r.0 r.1 t l

  turn_next-Tracks :
      (next : Receiver os → Outcome Exception (Unit {0}) × Receiver os) (b : Bool) (s : Receiver os)
      → Tracks s
      → Tracks (next s).1
      → Tracks (turn_next os next b s).1
  unfolding turn_next
  turn_next-Tracks next true s i h = i
  turn_next-Tracks next false s i h = h

  serve-Tracks :
      (turns : ℕ) (mode : Mode) (fd : ℕ) (s : Receiver os)
      → Room turns s
      → Tracks (serve os turns mode fd s).1
  unfolding serve
  serve-Tracks zero mode fd s k = k.0
  serve-Tracks (suc turns) mode fd s k =
      continue_with-post (Room turns) Tracks _ (turn os mode fd s) (turn-Tracks turns mode fd s k)
        (λ t l. l.0)
        λ b t l. turn_next-Tracks (serve os turns mode fd) b t l.0 (serve-Tracks turns mode fd t l)

  open_socket-Tracks : (left : ℕ) (s : Receiver os) → Room left s → Room left (open_socket os s).1
  unfolding open_socket
  open_socket-Tracks left s (i, room) =
      (record { recorded = i.recorded; once = i.once; counted = i.counted; next = i.next }, room)

  print_banner-Tracks :
      (left : ℕ) (mode : Mode) (s : Receiver os)
      → Room left s
      → Room left (print_banner os mode s).1
  unfolding print_banner
  print_banner-Tracks left mode s (i, room) = (
    record {
      recorded = quiet mode.out_of_order mode.drop_first_ack s.output ∙ i.recorded;
      once = i.once;
      counted = i.counted;
      next = i.next;
    },
    room,
  )
    where
      quiet :
          (a b : Bool) (ls : List Line)
          → handled (banner os (record { drop_first_ack = b; out_of_order = a }) ++ ls) ≡ handled ls
      quiet true true ls = refl
      quiet true false ls = refl
      quiet false true ls = refl
      quiet false false ls = refl

  close_socket-Tracks : (fd : ℕ) (s : Receiver os) → Tracks s → Tracks (close_socket os fd s).1
  unfolding close_socket
  close_socket-Tracks fd s i = record {
    recorded = i.recorded;
    once = i.once;
    counted = i.counted;
    next = i.next;
  }

  run_receiver-Tracks :
      (turns : ℕ) (mode : Mode) (s : Receiver os)
      → Room turns s
      → Tracks (run_receiver os turns mode s).1
  unfolding run_receiver
  run_receiver-Tracks turns mode s k =
      continue_with-post (Room turns) Tracks _ (open_socket os s) (open_socket-Tracks turns s k)
        (λ t l. l.0)
        λ fd t l.
          continue_with-post (Room turns) Tracks _ (print_banner os mode t)
            (print_banner-Tracks turns mode t l) (λ u m. m.0)
            λ _ u m.
              continue_with-post Tracks Tracks _ (serve os turns mode fd u)
                (serve-Tracks turns mode fd u m) (λ v n. n) λ _ v n. close_socket-Tracks fd v n

  run_mode-Tracks :
      (turns : ℕ) (m : Outcome Exception Mode) (s : Receiver os)
      → Room turns s
      → Tracks (run_mode os turns m s).1
  unfolding run_mode
  run_mode-Tracks turns (ok mode) s k = run_receiver-Tracks turns mode s k
  run_mode-Tracks turns (throw e) s k = k.0
  run_mode-Tracks turns running s k = k.0

  exit_code-Tracks :
      (r : Outcome Exception ℕ × Receiver os) → Tracks r.1 → Tracks (exit_code os r).1
  unfolding exit_code
  exit_code-Tracks (throw response_timeout, s) i = i
  exit_code-Tracks (throw (runtime_error m), s) i = record {
    recorded = i.recorded;
    once = i.once;
    counted = i.counted;
    next = i.next;
  }
  exit_code-Tracks (throw (connection_lost m), s) i = record {
    recorded = i.recorded;
    once = i.once;
    counted = i.counted;
    next = i.next;
  }
  exit_code-Tracks (throw (peer_disconnected m), s) i = record {
    recorded = i.recorded;
    once = i.once;
    counted = i.counted;
    next = i.next;
  }
  exit_code-Tracks (ok n, s) i = i
  exit_code-Tracks (running, s) i = i

  -- In every mode, for fewer than 2 ^ 31 datagrams, lost, repeated or out of order: the sequences
  -- printed as received are those in `processed_sequences`, each once; `unique_received` is their
  -- number, without an overflow; and `expected_sequence` is the least sequence from 1 on that is not
  -- among them.
  pub main-Tracks :
      (turns : ℕ) (arguments : List String) (w : os.World)
      → turns < 2 ^ 31
      → Tracks (main os turns arguments w).1
  unfolding main
  main-Tracks turns arguments w h =
      exit_code-Tracks (run_mode os turns (parse_mode arguments) (boot os w))
        (run_mode-Tracks turns (parse_mode arguments) (boot os w) (started, omega arith))
    where
      started : Tracks (boot os w)
      started = record {
        recorded = refl;
        once = tt;
        counted = refl;
        next = record {
          positive = omega arith;
          complete = λ x p q. absurd (omega arith);
          missing = unfold contains in refl;
        };
      }

-- ===== src/TcpReceiver/Once.antt =====
-- The DATA that `main` of tcp/receiver.cpp prints and acknowledges, over all connections.
use embedded_comm_reliabilit.Common.{
  ℕ, zero, suc, true, ◌≡◌, refl, sym, ap, inl, inr, List, [], ◌∷◌, Outcome, ok, throw, running,
  contains, insert, Distinct, contains-insert, contains-insert_of_mem, insert-Distinct, insert-new,
  All-contains_mono, continue_with-post, ◌∙◌, All, Bool-cases,
}
use embedded_comm_reliabilit.Protocol.{
  Packet, MessageType, data_message, ack, heartbeat, heartbeat_ack,
}
use embedded_comm_reliabilit.Protocol.Error.{
  eintr, Exception, runtime_error, connection_lost, peer_disconnected, response_timeout,
}
use embedded_comm_reliabilit.Os.{Os, Sys, done, failed}
use embedded_comm_reliabilit.TcpReceiver.{
  Receiver, Line, received_data, sent_ack, listening, sender_connected, sender_disconnected,
  waiting_for_connection, received_heartbeat, sent_heartbeat_ack, print, process_data, send_reply,
  receive, on_data, on_heartbeat, dispatch, serve_packet, session_next, session, close_client,
  serve_client, accept_next, accept_loop, open_server, close_server, run_server, exit_code, boot,
  main,
}

-- The sequences of the DATA that the server has printed as received, the newest first.
abbrev pub handled : List Line → List ℕ
handled [] = []
handled (received_data q payload ∷ ls) = q ∷ handled ls
handled (_ ∷ ls) = handled ls

-- The sequences whose ACK it has printed as sent.
abbrev pub acked : List Line → List ℕ
acked [] = []
acked (sent_ack q ∷ ls) = q ∷ acked ls
acked (_ ∷ ls) = acked ls

module _ {os : Os} where
  pub record HandlesOnce (s : Receiver os) : Type 0 where
    pub recorded : handled s.output ≡ s.processed_sequences
    pub once : Distinct s.processed_sequences
    pub known : All (λ q. contains s.processed_sequences q ≡ true) (acked s.output)

module _ (os : Os) (rounds : ℕ) where
  -- A line that is neither DATA nor ACK changes nothing that the invariant speaks of.
  abbrev IsNeutral : Line → Type 0
  IsNeutral (received_data q payload) = ⊥
  IsNeutral (sent_ack q) = ⊥
  IsNeutral _ = Unit {0}

  neutral-handled : (l : Line) (ls : List Line) → IsNeutral l → handled (l ∷ ls) ≡ handled ls
  neutral-handled listening ls n = refl
  neutral-handled (received_data q payload) ls n = absurd n
  neutral-handled (sent_ack q) ls n = absurd n
  neutral-handled _ ls n = refl

  neutral-acked : (l : Line) (ls : List Line) → IsNeutral l → acked (l ∷ ls) ≡ acked ls
  neutral-acked listening ls n = refl
  neutral-acked (received_data q payload) ls n = absurd n
  neutral-acked (sent_ack q) ls n = absurd n
  neutral-acked _ ls n = refl

  print-HandlesOnce :
      (l : Line) (s : Receiver os)
      → IsNeutral l
      → HandlesOnce s
      → HandlesOnce (print os rounds l s).1
  unfolding print
  print-HandlesOnce l s n i = record {
    recorded = neutral-handled l s.output n ∙ i.recorded;
    once = i.once;
    known = rw (neutral-acked l s.output n) i.known;
  }

  abbrev Knows : ℕ → Receiver os → Type 0
  Knows q s = HandlesOnce s × (contains s.processed_sequences q ≡ true)

  process_data-Knows :
      (p : Packet) (s : Receiver os)
      → HandlesOnce s
      → Knows p.sequence (process_data os rounds p s).1
  unfolding process_data
  process_data-Knows p s i = elim (Bool-cases (contains s.processed_sequences p.sequence)) [
    | inl old ↦ rw old (record { recorded = i.recorded; once = i.once; known = i.known }, old)
    | inr new ↦ rw new (
      record {
        recorded =
            ap (◌∷◌ p.sequence) i.recorded ∙ sym (insert-new s.processed_sequences p.sequence new);
        once = insert-Distinct s.processed_sequences p.sequence i.once;
        known =
            All-contains_mono s.processed_sequences (insert s.processed_sequences p.sequence)
              (acked s.output) (contains-insert_of_mem s.processed_sequences p.sequence) i.known;
      },
      contains-insert s.processed_sequences p.sequence,
    )
  ]

  send_reply-Knows :
      (q fd : ℕ) (t : MessageType) (n : ℕ) (s : Receiver os)
      → Knows q s
      → Knows q (send_reply os rounds fd t n s).1
  unfolding send_reply
  send_reply-Knows q fd t n s k =
      (record { recorded = k.0.recorded; once = k.0.once; known = k.0.known }, k.1)

  send_reply-HandlesOnce :
      (fd : ℕ) (t : MessageType) (n : ℕ) (s : Receiver os)
      → HandlesOnce s
      → HandlesOnce (send_reply os rounds fd t n s).1
  unfolding send_reply
  send_reply-HandlesOnce fd t n s i = record {
    recorded = i.recorded;
    once = i.once;
    known = i.known;
  }

  print_ack-HandlesOnce :
      (q : ℕ) (s : Receiver os) → Knows q s → HandlesOnce (print os rounds (sent_ack q) s).1
  unfolding print
  print_ack-HandlesOnce q s k = record {
    recorded = k.0.recorded;
    once = k.0.once;
    known = (k.1, k.0.known);
  }

  on_data-HandlesOnce :
      (fd : ℕ) (p : Packet) (s : Receiver os)
      → HandlesOnce s
      → HandlesOnce (on_data os rounds fd p s).1
  unfolding on_data
  on_data-HandlesOnce fd p s i =
      continue_with-post (Knows p.sequence) HandlesOnce _ (process_data os rounds p s)
        (process_data-Knows p s i) (λ t k. k.0)
        λ _ t k.
          continue_with-post (Knows p.sequence) HandlesOnce _
            (send_reply os rounds fd ack p.sequence t)
            (send_reply-Knows p.sequence fd ack p.sequence t k) (λ u l. l.0)
            λ _ u l. print_ack-HandlesOnce p.sequence u l

  on_heartbeat-HandlesOnce :
      (fd : ℕ) (p : Packet) (s : Receiver os)
      → HandlesOnce s
      → HandlesOnce (on_heartbeat os rounds fd p s).1
  unfolding on_heartbeat
  on_heartbeat-HandlesOnce fd p s i =
      continue_with-post HandlesOnce HandlesOnce _
        (print os rounds (received_heartbeat p.sequence) s)
        (print-HandlesOnce (received_heartbeat p.sequence) s tt i) (λ t k. k)
        λ _ t k.
          continue_with-post HandlesOnce HandlesOnce _
            (send_reply os rounds fd heartbeat_ack p.sequence t)
            (send_reply-HandlesOnce fd heartbeat_ack p.sequence t k) (λ u l. l)
            λ _ u l. print-HandlesOnce (sent_heartbeat_ack p.sequence) u tt l

  dispatch-HandlesOnce :
      (t : MessageType) (fd : ℕ) (p : Packet) (s : Receiver os)
      → HandlesOnce s
      → HandlesOnce (dispatch os rounds t fd p s).1
  unfolding dispatch
  dispatch-HandlesOnce data_message fd p s i = on_data-HandlesOnce fd p s i
  dispatch-HandlesOnce heartbeat fd p s i = on_heartbeat-HandlesOnce fd p s i
  dispatch-HandlesOnce _ fd p s i = i

  receive-HandlesOnce :
      (fd : ℕ) (s : Receiver os) → HandlesOnce s → HandlesOnce (receive os rounds fd s).1
  unfolding receive
  receive-HandlesOnce fd s i = record { recorded = i.recorded; once = i.once; known = i.known }

  serve_packet-HandlesOnce :
      (fd : ℕ) (s : Receiver os) → HandlesOnce s → HandlesOnce (serve_packet os rounds fd s).1
  unfolding serve_packet
  serve_packet-HandlesOnce fd s i =
      continue_with-post HandlesOnce HandlesOnce _ (receive os rounds fd s)
        (receive-HandlesOnce fd s i) (λ t k. k) λ p t k. dispatch-HandlesOnce p.type fd p t k

  session_next-HandlesOnce :
      (next : Receiver os → Outcome Exception (Unit {0}) × Receiver os)
      (r : Outcome Exception (Unit {0}) × Receiver os)
      → ((s : Receiver os) → HandlesOnce s → HandlesOnce (next s).1)
      → HandlesOnce r.1
      → HandlesOnce (session_next os rounds next r).1
  unfolding session_next
  session_next-HandlesOnce next (ok a, s) h i = h s i
  session_next-HandlesOnce next (throw (peer_disconnected m), s) h i =
      print-HandlesOnce sender_disconnected s tt i
  session_next-HandlesOnce next (throw e, s) h i = i
  session_next-HandlesOnce next (running, s) h i = i

  session-HandlesOnce :
      (turns fd : ℕ) (s : Receiver os)
      → HandlesOnce s
      → HandlesOnce (session os rounds turns fd s).1
  unfolding session
  session-HandlesOnce zero fd s i = i
  session-HandlesOnce (suc turns) fd s i =
      session_next-HandlesOnce (session os rounds turns fd) (serve_packet os rounds fd s)
        (session-HandlesOnce turns fd) (serve_packet-HandlesOnce fd s i)

  close_client-HandlesOnce :
      (fd : ℕ) (s : Receiver os) → HandlesOnce s → HandlesOnce (close_client os rounds fd s).1
  unfolding close_client
  close_client-HandlesOnce fd s i = record { recorded = i.recorded; once = i.once; known = i.known }

  serve_client-HandlesOnce :
      (turns fd : ℕ) (s : Receiver os)
      → HandlesOnce s
      → HandlesOnce (serve_client os rounds turns fd s).1
  unfolding serve_client
  serve_client-HandlesOnce turns fd s i =
      continue_with-post HandlesOnce HandlesOnce _ (print os rounds sender_connected s)
        (print-HandlesOnce sender_connected s tt i) (λ t k. k)
        λ _ t k.
          continue_with-post HandlesOnce HandlesOnce _ (session os rounds turns fd t)
            (session-HandlesOnce turns fd t k) (λ u l. l)
            λ _ u l.
              continue_with-post HandlesOnce HandlesOnce _ (close_client os rounds fd u)
                (close_client-HandlesOnce fd u l) (λ v m. m)
                λ _ v m. print-HandlesOnce waiting_for_connection v tt m

  accept_next-HandlesOnce :
      (turns : ℕ) (next : Receiver os → Outcome Exception (Unit {0}) × Receiver os) (c : Sys ℕ)
      (s : Receiver os)
      → ((t : Receiver os) → HandlesOnce t → HandlesOnce (next t).1)
      → HandlesOnce s
      → HandlesOnce (accept_next os rounds turns next c s).1
  unfolding accept_next
  accept_next-HandlesOnce turns next (failed eintr) s h i = h s i
  accept_next-HandlesOnce turns next (failed e) s h i = i
  accept_next-HandlesOnce turns next (done fd) s h i =
      continue_with-post HandlesOnce HandlesOnce _ (serve_client os rounds turns fd s)
        (serve_client-HandlesOnce turns fd s i) (λ t k. k) λ _ t k. h t k

  accept_loop-HandlesOnce :
      (accepts turns fd : ℕ) (s : Receiver os)
      → HandlesOnce s
      → HandlesOnce (accept_loop os rounds accepts turns fd s).1
  unfolding accept_loop
  accept_loop-HandlesOnce zero turns fd s i = i
  accept_loop-HandlesOnce (suc accepts) turns fd s i =
      accept_next-HandlesOnce turns (accept_loop os rounds accepts turns fd)
        (os.accept fd s.world).0 (record s { world = (os.accept fd s.world).1 })
        (accept_loop-HandlesOnce accepts turns fd)
        (record { recorded = i.recorded; once = i.once; known = i.known })

  exit_code-HandlesOnce :
      (r : Outcome Exception ℕ × Receiver os)
      → HandlesOnce r.1
      → HandlesOnce (exit_code os rounds r).1
  unfolding exit_code
  exit_code-HandlesOnce (throw response_timeout, s) i = i
  exit_code-HandlesOnce (throw (runtime_error m), s) i = record {
    recorded = i.recorded;
    once = i.once;
    known = i.known;
  }
  exit_code-HandlesOnce (throw (connection_lost m), s) i = record {
    recorded = i.recorded;
    once = i.once;
    known = i.known;
  }
  exit_code-HandlesOnce (throw (peer_disconnected m), s) i = record {
    recorded = i.recorded;
    once = i.once;
    known = i.known;
  }
  exit_code-HandlesOnce (ok n, s) i = i
  exit_code-HandlesOnce (running, s) i = i

  open_server-HandlesOnce :
      (s : Receiver os) → HandlesOnce s → HandlesOnce (open_server os rounds s).1
  unfolding open_server
  open_server-HandlesOnce s i = record { recorded = i.recorded; once = i.once; known = i.known }

  close_server-HandlesOnce :
      (fd : ℕ) (s : Receiver os) → HandlesOnce s → HandlesOnce (close_server os rounds fd s).1
  unfolding close_server
  close_server-HandlesOnce fd s i = record { recorded = i.recorded; once = i.once; known = i.known }

  run_server-HandlesOnce :
      (accepts turns : ℕ) (s : Receiver os)
      → HandlesOnce s
      → HandlesOnce (run_server os rounds accepts turns s).1
  unfolding run_server
  run_server-HandlesOnce accepts turns s i =
      continue_with-post HandlesOnce HandlesOnce _ (open_server os rounds s)
        (open_server-HandlesOnce s i) (λ t k. k)
        λ fd t k.
          continue_with-post HandlesOnce HandlesOnce _ (print os rounds listening t)
            (print-HandlesOnce listening t tt k) (λ u l. l)
            λ _ u l.
              continue_with-post HandlesOnce HandlesOnce _
                (accept_loop os rounds accepts turns fd u)
                (accept_loop-HandlesOnce accepts turns fd u l) (λ v m. m)
                λ _ v m. close_server-HandlesOnce fd v m

  -- However long the server runs and whatever connections come, fail and come again: the sequences
  -- printed as received are those in `processed_sequences`, each once, and every sequence
  -- whose ACK is printed as sent is among them.
  pub main-HandlesOnce :
      (accepts turns : ℕ) (w : os.World) → HandlesOnce (main os rounds accepts turns w).1
  unfolding main
  main-HandlesOnce accepts turns w =
      exit_code-HandlesOnce (run_server os rounds accepts turns (boot os rounds w)) (
        run_server-HandlesOnce accepts turns (boot os rounds w)
          (record { recorded = refl; once = tt; known = tt }))

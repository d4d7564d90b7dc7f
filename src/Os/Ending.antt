-- ===== src/Os/Ending.antt =====
-- The rounds that `receive_packet` of the stream programs needs.
use embedded_comm_reliabilit.Common.{
  ℕ, zero, suc, ◌+◌, ◌-◌, ◌≤◌, ◌<◌, ◌≡◌, ◌≢◌, refl, Bool-cases, inl, inr, List, [], ◌∷◌, ◌++◌,
  length, ltb, arith, Outcome, ok, throw, running, continue_with, M,
}
use embedded_comm_reliabilit.Protocol.{header_size, max_payload_size}
use embedded_comm_reliabilit.Protocol.Codec.{get_payload_length, decode_packet}
use embedded_comm_reliabilit.Protocol.Error.{eintr, Exception}
use embedded_comm_reliabilit.Os.{Os, Sys, done, failed}
use embedded_comm_reliabilit.Os.Stream.{Policy, recv_next, recv_loop, recv_exact, receive_packet}
use embedded_comm_reliabilit.Os.Laws.{StreamLaws}
use embedded_comm_reliabilit.Os.Receiving.{recv_exact-ends}

get_payload_length-le : (h : List ℕ) (n : ℕ) → get_payload_length h ≡ ok n → n ≤ max_payload_size
unfolding get_payload_length
get_payload_length-le h n e = ground arith

module _ (os : Os) (laws : StreamLaws os) (policy : Policy) (fd size bound : ℕ) where
  recv_next-interrupts :
      (next : List ℕ → os.World → Outcome Exception (List ℕ) × os.World) (buffer : List ℕ)
      (r : Sys (List ℕ)) (w : os.World)
      → laws.interrupts w ≤ bound
      → ((b : List ℕ) (v : os.World)
          → laws.interrupts v ≤ bound
          → laws.interrupts (next b v).1 ≤ bound)
      → laws.interrupts (recv_next policy next buffer r w).1 ≤ bound
  unfolding recv_next
  recv_next-interrupts next buffer (failed eintr) w h ih = ih buffer w h
  recv_next-interrupts next buffer (failed e) w h ih = h
  recv_next-interrupts next buffer (done []) w h ih = h
  recv_next-interrupts next buffer (done (b ∷ bs)) w h ih = ih (buffer ++ b ∷ bs) w h

  recv_loop-interrupts :
      (rounds : ℕ) (buffer : List ℕ) (w : os.World)
      → laws.interrupts w ≤ bound
      → laws.interrupts (recv_loop os policy rounds fd size buffer w).1 ≤ bound
  unfolding recv_loop
  recv_loop-interrupts zero buffer w h = h
  recv_loop-interrupts (suc rounds) buffer w h = elim (Bool-cases (ltb (length buffer) size)) [
    | inl more ↦ rw more (
        recv_next-interrupts (recv_loop os policy rounds fd size) buffer _ _
          (omega (arith, laws.recv_interrupts fd (size - length buffer) w))
          (recv_loop-interrupts rounds))
    | inr all ↦ rw all h
  ]

  recv_exact-interrupts :
      (rounds : ℕ) (w : os.World)
      → laws.interrupts w ≤ bound
      → laws.interrupts (recv_exact os policy rounds fd size w).1 ≤ bound
  unfolding recv_exact
  recv_exact-interrupts rounds w h = recv_loop-interrupts rounds [] w h

-- A call that does not run on, before one that does not.
continue_with-ends :
    {S A B : Type 0} (r : Outcome Exception A × S) (f : A → M S Exception B)
    → r.0 ≢ running
    → ((a : A) → r.0 ≡ ok a → (f a r.1).0 ≢ running)
    → (continue_with r f).0 ≢ running
continue_with-ends (ok a, s) f h k = k a refl
continue_with-ends (throw e, s) f h k = λ p. cc
continue_with-ends (running, s) f h k = absurd (h refl)

get_payload_length-returns : (h : List ℕ) → get_payload_length h ≢ running
unfolding get_payload_length
get_payload_length-returns h e = ground arith

decode_packet-returns : (h p : List ℕ) → decode_packet h p ≢ running
unfolding decode_packet
decode_packet-returns h p e = ground arith

module _ (os : Os) (laws : StreamLaws os) (policy : Policy) (rounds fd : ℕ) (w : os.World)
    (enough : header_size + max_payload_size + laws.interrupts w < rounds) where
  -- Over a kernel that keeps the laws of streams, receive_packet ends when it may make more rounds
  -- than the largest frame has bytes and interruptions are to come.
  pub receive_packet-ends : (receive_packet os policy rounds fd w).0 ≢ running
  unfolding receive_packet
  receive_packet-ends =
      continue_with-ends (recv_exact os policy rounds fd header_size w) _
        (recv_exact-ends os laws policy rounds fd header_size w (omega arith))
        λ header _.
          continue_with-ends
            (get_payload_length header, (recv_exact os policy rounds fd header_size w).1) _
            (get_payload_length-returns header)
            λ n e.
              continue_with-ends
                (recv_exact os policy rounds fd n (recv_exact os policy rounds fd header_size w).1)
                _
                (recv_exact-ends os laws policy rounds fd n _ (
                  omega (
                    arith,
                    get_payload_length-le header n e,
                    recv_exact-interrupts os laws policy fd header_size (laws.interrupts w) rounds w
                        (omega arith),
                  )))
                λ payload _. decode_packet-returns header payload

-- ===== src/Os/Sending.antt =====
-- `send_all` of the stream programs, for a kernel that accepts as much as it likes.
use embedded_comm_reliabilit.Common.{
  ℕ, zero, suc, ◌+◌, ◌-◌, ◌≤◌, ◌<◌, ◌≡◌, refl, sym, ap, ◌∙◌, Bool-cases, List, [], ◌++◌, length,
  take, drop, ltb, Outcome, ok, running, arith, take-all, ◌≢◌, length-drop, take-add, append_assoc,
  append-nil, inl, inr, ltb→lt, not-ltb→eq,
}
use embedded_comm_reliabilit.Protocol.Error.{eintr, Exception}
use embedded_comm_reliabilit.Os.{Os, Sys, done, failed}
use embedded_comm_reliabilit.Os.Stream.{Policy, send_next, send_loop, send_all}
use embedded_comm_reliabilit.Os.Laws.{StreamLaws}

module _ (os : Os) (laws : StreamLaws os) (policy : Policy) (fd : ℕ) (buffer base : List ℕ) where
  -- `sent` has grown by the first `count` bytes of the buffer, all of them if the call returned.
  pub record Delivered (result : Outcome Exception (Unit {0}) × os.World) : Type 0 where
    pub count : ℕ
    pub within : count ≤ length buffer
    pub grown : laws.sent result.1 fd ≡ base ++ take count buffer
    pub whole : result.0 ≡ ok tt → count ≡ length buffer

  abbrev offered : ℕ → os.World → Sys ℕ
  offered total w = (os.send fd (drop total buffer) w).0

  abbrev after : ℕ → os.World → os.World
  after total w = (os.send fd (drop total buffer) w).1

  send_next-Delivered :
      (next : ℕ → os.World → Outcome Exception (Unit {0}) × os.World) (total : ℕ) (w : os.World)
      (r : Sys ℕ)
      → offered total w ≡ r
      → total < length buffer
      → laws.sent w fd ≡ base ++ take total buffer
      → ((t : ℕ) (v : os.World)
          → t ≤ length buffer
          → laws.sent v fd ≡ base ++ take t buffer
          → Delivered (next t v))
      → Delivered (send_next policy next total r (after total w))
  unfolding send_next
  send_next-Delivered next total w (failed eintr) e h s ih =
      ih total (after total w) (omega arith)
        (laws.send_refuses fd (drop total buffer) w eintr e ∙ s)
  send_next-Delivered next total w (failed x) e h s ih = record {
    count = total;
    within = omega arith;
    grown = laws.send_refuses fd (drop total buffer) w x e ∙ s;
    whole = λ p. cc;
  }
  send_next-Delivered next total w (done zero) e h s ih = record {
    count = total;
    within = omega arith;
    grown = laws.send_accepts fd (drop total buffer) w 0 e ∙ append-nil (laws.sent w fd) ∙ s;
    whole = λ p. cc;
  }
  send_next-Delivered next total w (done (suc n)) e h s ih =
      ih (total + suc n) (after total w)
        (omega
          (arith, laws.send_bound fd (drop total buffer) w (suc n) e, length-drop total buffer))
        (laws.send_accepts fd (drop total buffer) w (suc n) e
          ∙ ap (λ t. t ++ take (suc n) (drop total buffer)) s
          ∙ append_assoc base (take total buffer) (take (suc n) (drop total buffer))
          ∙ ap (◌++◌ base) (sym (take-add total (suc n) (total + suc n) buffer refl)))

  send_loop-Delivered :
      (rounds total : ℕ) (w : os.World)
      → total ≤ length buffer
      → laws.sent w fd ≡ base ++ take total buffer
      → Delivered (send_loop os policy rounds fd buffer total w)
  unfolding send_loop
  send_loop-Delivered zero total w h e = record {
    count = total;
    within = h;
    grown = e;
    whole = λ p. cc;
  }
  send_loop-Delivered (suc rounds) total w h e = elim (Bool-cases (ltb total (length buffer))) [
    | inl more ↦ rw more (
        send_next-Delivered (send_loop os policy rounds fd buffer) total w (offered total w) refl
          (ltb→lt total (length buffer) more) e (send_loop-Delivered rounds))
    | inr done_all ↦ rw done_all (record {
      count = total;
      within = h;
      grown = e;
      whole = λ p. not-ltb→eq total (length buffer) h done_all;
    })
  ]

  -- With a round for each byte and each interruption, and one more, the loop ends.
  abbrev Ends : Outcome Exception (Unit {0}) × os.World → Type 0
  Ends result = result.0 ≢ running

  send_next-Ends :
      (next : ℕ → os.World → Outcome Exception (Unit {0}) × os.World) (total fuel : ℕ)
      (w : os.World) (r : Sys ℕ)
      → offered total w ≡ r
      → total < length buffer
      → length buffer - total + laws.interrupts w ≤ fuel
      → ((t : ℕ) (v : os.World)
          → t ≤ length buffer
          → length buffer - t + laws.interrupts v < fuel
          → Ends (next t v))
      → Ends (send_next policy next total r (after total w))
  unfolding send_next
  send_next-Ends next total fuel w (failed eintr) e h f ih =
      ih total (after total w) (omega arith)
        (omega (arith, laws.send_interrupted fd (drop total buffer) w e))
  send_next-Ends next total fuel w (failed x) e h f ih = λ p. cc
  send_next-Ends next total fuel w (done zero) e h f ih = λ p. cc
  send_next-Ends next total fuel w (done (suc n)) e h f ih =
      ih (total + suc n) (after total w)
        (omega
          (arith, laws.send_bound fd (drop total buffer) w (suc n) e, length-drop total buffer))
        (omega (
          arith,
          laws.send_interrupts fd (drop total buffer) w,
          laws.send_bound fd (drop total buffer) w (suc n) e,
          length-drop total buffer,
        ))

  send_loop-Ends :
      (rounds total : ℕ) (w : os.World)
      → total ≤ length buffer
      → length buffer - total + laws.interrupts w < rounds
      → Ends (send_loop os policy rounds fd buffer total w)
  unfolding send_loop
  send_loop-Ends zero total w h f = absurd (omega arith)
  send_loop-Ends (suc rounds) total w h f = elim (Bool-cases (ltb total (length buffer))) [
    | inl more ↦ rw more (
        send_next-Ends (send_loop os policy rounds fd buffer) total rounds w (offered total w) refl
          (ltb→lt total (length buffer) more) (omega arith) (send_loop-Ends rounds))
    | inr done_all ↦ rw done_all (λ p. cc)
  ]

module _ (os : Os) (laws : StreamLaws os) (policy : Policy) where
  pub record Sends (rounds fd : ℕ) (buffer : List ℕ) (w : os.World)
      (result : Outcome Exception (Unit {0}) × os.World) : Type 0 where
    pub count : ℕ
    pub within : count ≤ length buffer
    pub grown : laws.sent result.1 fd ≡ laws.sent w fd ++ take count buffer
    pub whole : result.0 ≡ ok tt → laws.sent result.1 fd ≡ laws.sent w fd ++ buffer

  -- Over a kernel that keeps the laws of streams, `send_all` has had the first bytes of the buffer
  -- accepted, in order and each once; all of them if it returns.
  pub send_all-Sends :
      (rounds fd : ℕ) (buffer : List ℕ) (w : os.World)
      → Sends rounds fd buffer w (send_all os policy rounds fd buffer w)
  unfolding send_all
  send_all-Sends rounds fd buffer w = record {
    count = d.count;
    within = d.within;
    grown = d.grown;
    whole = λ p. d.grown ∙ ap (◌++◌ (laws.sent w fd)) (take-all d.count buffer (d.whole p));
  }
    where
      d :
          Delivered os laws policy fd buffer
            (laws.sent w fd)
            (send_all os policy rounds fd buffer w)
      d =
          send_loop-Delivered os laws policy fd buffer (laws.sent w fd) rounds 0 w (omega arith)
            (sym (append-nil (laws.sent w fd)))

  -- Over such a kernel, `send_all` ends when it may make more rounds than there are bytes and
  -- interruptions to come.
  pub send_all-ends :
      (rounds fd : ℕ) (buffer : List ℕ) (w : os.World)
      → length buffer + laws.interrupts w < rounds
      → (send_all os policy rounds fd buffer w).0 ≢ running
  unfolding send_all
  send_all-ends rounds fd buffer w h =
      send_loop-Ends os laws policy fd buffer [] rounds 0 w (omega arith) (omega arith)

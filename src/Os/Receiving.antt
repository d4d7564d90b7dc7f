-- ===== src/Os/Receiving.antt =====
-- `recv_exact` of the stream programs, for a kernel that delivers the stream in pieces of any size.
use embedded_comm_reliabilit.Common.{
  ℕ, zero, suc, ◌+◌, ◌-◌, ◌≤◌, ◌<◌, ◌≡◌, ◌≢◌, refl, sym, ap, ◌∙◌, Bool-cases, List, [], ◌∷◌, ◌++◌,
  length, ltb, Outcome, ok, throw, running, arith, append_assoc, append-nil, inl, inr, ltb→lt,
  not-ltb→le, length-append,
}
use embedded_comm_reliabilit.Protocol.Error.{Errno, eintr, Exception}
use embedded_comm_reliabilit.Os.{Os, Sys, done, failed}
use embedded_comm_reliabilit.Os.Stream.{Policy, recv_next, recv_loop, recv_exact}
use embedded_comm_reliabilit.Os.Laws.{StreamLaws}

module _ (os : Os) (fd : ℕ) (start : os.World) where
  -- The states that calls of `recv` on the descriptor lead to.
  pub data Reaches : os.World → Type 0 where
    here : Reaches start
    another : (size : ℕ) (v w : os.World) → Reaches v → (os.recv fd size v).1 ≡ w → Reaches w

  -- A call of `recv` on the way from `start` fails with an `errno` that no signal causes, and `w` is the
  -- state that it leaves.
  pub record Fails (e : Errno) (w : os.World) : Type 0 where
    pub size : ℕ
    pub before : os.World
    pub reached : Reaches before
    pub failed_with : (os.recv fd size before).0 ≡ failed e
    pub left : (os.recv fd size before).1 ≡ w
    pub not_eintr : e ≢ eintr

pub Reaches-trans :
    {os : Os} {fd : ℕ} {a b c : os.World}
    → Reaches os fd a b
    → Reaches os fd b c
    → Reaches os fd a c
Reaches-trans r here = r
Reaches-trans r (another size v w q e) = another size v w (Reaches-trans r q) e

pub Reaches-Fails :
    {os : Os} {fd : ℕ} {a b : os.World} {e : Errno} {w : os.World}
    → Reaches os fd a b
    → Fails os fd b e w
    → Fails os fd a e w
Reaches-Fails r f = record {
  size = f.size;
  before = f.before;
  reached = Reaches-trans r f.reached;
  failed_with = f.failed_with;
  left = f.left;
  not_eintr = f.not_eintr;
}

module _ (os : Os) (laws : StreamLaws os) (policy : Policy) (fd size : ℕ) (stream : List ℕ)
    (start : os.World) where
  -- How a call of `recv_exact` that begins in `start` may end, `stream` being what was to come before
  -- it. It ends badly only at the end of the stream or where a call of `recv` has failed.
  pub data Received : Outcome Exception (List ℕ) × os.World → Type 0 where
    full :
        (bs : List ℕ) (w : os.World)
        → length bs ≡ size
        → stream ≡ bs ++ laws.pending w fd
        → Reaches os fd start w
        → Received (ok bs, w)
    short :
        (bs : List ℕ) (w : os.World)
        → length bs < size
        → stream ≡ bs
        → Received (throw policy.on_recv_end, w)
    broken :
        (e : Errno) (bs : List ℕ) (w : os.World)
        → length bs < size
        → stream ≡ bs ++ laws.pending w fd
        → Fails os fd start e w
        → Received (throw (policy.on_recv_errno e), w)
    unfinished : (w : os.World) → Received (running, w)

  abbrev answer : List ℕ → os.World → Sys (List ℕ)
  answer buffer w = (os.recv fd (size - length buffer) w).0

  abbrev after : List ℕ → os.World → os.World
  after buffer w = (os.recv fd (size - length buffer) w).1

  recv_next-Received :
      (next : List ℕ → os.World → Outcome Exception (List ℕ) × os.World) (buffer : List ℕ)
      (w : os.World) (r : Sys (List ℕ))
      → answer buffer w ≡ r
      → length buffer < size
      → stream ≡ buffer ++ laws.pending w fd
      → ((b : List ℕ) (v : os.World)
          → length b ≤ size
          → stream ≡ b ++ laws.pending v fd
          → Reaches os fd start v
          → Received (next b v))
      → Reaches os fd start w
      → Received (recv_next policy next buffer r (after buffer w))
  unfolding recv_next
  recv_next-Received next buffer w (failed eintr) e h s ih go =
      ih buffer (after buffer w) (omega arith)
        (s ∙ ap (◌++◌ buffer) (sym (laws.recv_refuses fd (size - length buffer) w eintr e)))
        (another (size - length buffer) w _ go refl)
  recv_next-Received next buffer w (failed x) e h s ih go =
      broken x buffer (after buffer w) h
        (s ∙ ap (◌++◌ buffer) (sym (laws.recv_refuses fd (size - length buffer) w x e)))
        (record {
          size = size - length buffer;
          before = w;
          reached = go;
          failed_with = e;
          left = refl;
          not_eintr = λ k. cc;
        })
  recv_next-Received next buffer w (done []) e h s ih go = short buffer (after buffer w) h (
      s
      ∙ ap (◌++◌ buffer) (laws.recv_end fd (size - length buffer) w (omega arith) e)
      ∙ append-nil buffer)
  recv_next-Received next buffer w (done (b ∷ bs)) e h s ih go =
      ih (buffer ++ b ∷ bs) (after buffer w)
        (omega (
          arith,
          length-append buffer (b ∷ bs),
          laws.recv_bound fd (size - length buffer) w (b ∷ bs) e,
        ))
        (s
          ∙ ap (◌++◌ buffer) (laws.recv_delivers fd (size - length buffer) w (b ∷ bs) e)
          ∙ sym (append_assoc buffer (b ∷ bs) (laws.pending (after buffer w) fd)))
        (another (size - length buffer) w _ go refl)

  recv_loop-Received :
      (rounds : ℕ) (buffer : List ℕ) (w : os.World)
      → length buffer ≤ size
      → stream ≡ buffer ++ laws.pending w fd
      → Reaches os fd start w
      → Received (recv_loop os policy rounds fd size buffer w)
  unfolding recv_loop
  recv_loop-Received zero buffer w h s go = unfinished w
  recv_loop-Received (suc rounds) buffer w h s go = elim (Bool-cases (ltb (length buffer) size)) [
    | inl more ↦ rw more (
        recv_next-Received (recv_loop os policy rounds fd size) buffer w (answer buffer w) refl
          (ltb→lt (length buffer) size more) s (recv_loop-Received rounds) go)
    | inr done_all ↦
        rw done_all (full buffer w (omega (arith, not-ltb→le (length buffer) size done_all)) s go)
  ]

  recv_next-Ends :
      (next : List ℕ → os.World → Outcome Exception (List ℕ) × os.World) (buffer : List ℕ)
      (fuel : ℕ) (w : os.World) (r : Sys (List ℕ))
      → answer buffer w ≡ r
      → length buffer < size
      → size - length buffer + laws.interrupts w ≤ fuel
      → ((b : List ℕ) (v : os.World)
          → length b ≤ size
          → size - length b + laws.interrupts v < fuel
          → (next b v).0 ≢ running)
      → (recv_next policy next buffer r (after buffer w)).0 ≢ running
  unfolding recv_next
  recv_next-Ends next buffer fuel w (failed eintr) e h f ih =
      ih buffer (after buffer w) (omega arith)
        (omega (arith, laws.recv_interrupted fd (size - length buffer) w e))
  recv_next-Ends next buffer fuel w (failed x) e h f ih = λ p. cc
  recv_next-Ends next buffer fuel w (done []) e h f ih = λ p. cc
  recv_next-Ends next buffer fuel w (done (b ∷ bs)) e h f ih =
      let grown = length-append buffer (b ∷ bs) in
      let bound = laws.recv_bound fd (size - length buffer) w (b ∷ bs) e in
      ih (buffer ++ b ∷ bs) (after buffer w) (omega arith)
        (omega (arith, laws.recv_interrupts fd (size - length buffer) w))

  recv_loop-Ends :
      (rounds : ℕ) (buffer : List ℕ) (w : os.World)
      → length buffer ≤ size
      → size - length buffer + laws.interrupts w < rounds
      → (recv_loop os policy rounds fd size buffer w).0 ≢ running
  unfolding recv_loop
  recv_loop-Ends zero buffer w h f = absurd (omega arith)
  recv_loop-Ends (suc rounds) buffer w h f = elim (Bool-cases (ltb (length buffer) size)) [
    | inl more ↦ rw more (
        recv_next-Ends (recv_loop os policy rounds fd size) buffer rounds w (answer buffer w) refl
          (ltb→lt (length buffer) size more) (omega arith) (recv_loop-Ends rounds))
    | inr done_all ↦ rw done_all (λ p. cc)
  ]

module _ (os : Os) (laws : StreamLaws os) (policy : Policy) (rounds fd size : ℕ)
    (w : os.World) where
  -- Over a kernel that keeps the laws of streams, `recv_exact` returns exactly the next `size` bytes of
  -- the stream, however they arrive, and leaves the rest; or it throws because the stream has ended
  -- with fewer; or it throws the `errno` with which its last call of `recv` failed, other than EINTR,
  -- with fewer taken; or its rounds have run out.
  pub recv_exact-Received :
      Received os laws policy fd size (laws.pending w fd) w (recv_exact os policy rounds fd size w)
  unfolding recv_exact
  recv_exact-Received =
      recv_loop-Received os laws policy fd size (laws.pending w fd) w rounds [] w (omega arith) refl
        here

  -- Over such a kernel, `recv_exact` ends when it may make more rounds than there are bytes wanted and
  -- interruptions to come.
  pub recv_exact-ends :
      size + laws.interrupts w < rounds → (recv_exact os policy rounds fd size w).0 ≢ running
  unfolding recv_exact
  recv_exact-ends h =
      recv_loop-Ends os laws policy fd size (laws.pending w fd) w rounds [] w (omega arith)
        (omega arith)

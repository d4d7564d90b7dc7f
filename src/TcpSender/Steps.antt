-- ===== src/TcpSender/Steps.antt =====
-- The steps of tcp/sender.cpp up to wait_for_response: which responses they have taken, and how many
-- DATA they have sent.
use embedded_comm_reliabilit.Common.{
  ℕ, zero, suc, ◌+◌, ◌≤◌, ◌≡◌, refl, Bool, true, false, not, ◌&&◌, ◌||◌, Bool-cases, inl, inr, List,
  [], ◌∷◌, arith, leb, ltb, ok_inj, ◌==◌, ==→eq, Outcome, ok, throw, running, continue_with,
}
use mathlib.Core.Path.{subst}
use embedded_comm_reliabilit.Protocol.{Packet, MessageType, to_byte}
use embedded_comm_reliabilit.Protocol.Error.{
  Exception, runtime_error, connection_lost, peer_disconnected, response_timeout,
  invalid_response_packet, unexpected_response_type_or_sequence,
}
use embedded_comm_reliabilit.Os.{Os}
use embedded_comm_reliabilit.TcpSender.{
  Sender, Line, sent_data, has, emplace, same_type, is_response, is_empty, print, now, send_packet,
  judge_response, judge_in_time, response_read, wait_turn, wait_loop, wait_from, wait_for_response,
  ignored_stale_response,
}

-- How many DATA have been printed as sent.
abbrev pub sent_count : List Line → ℕ
sent_count [] = 0
sent_count (sent_data q n payload ∷ ls) = suc (sent_count ls)
sent_count (_ ∷ ls) = sent_count ls

has-same :
    (rs : List (MessageType × ℕ)) (t u : MessageType) (p q : ℕ)
    → to_byte t ≡ to_byte u
    → p ≡ q
    → has rs t p ≡ has rs u q
unfolding has
has-same [] t u p q e f = refl
has-same ((v, x) ∷ rs) t u p q e f = rw (has-same rs t u p q e f, e, f) refl

has-emplace :
    (rs : List (MessageType × ℕ)) (t : MessageType) (q : ℕ) → has (emplace rs t q) t q ≡ true
unfolding has emplace
has-emplace rs t q = ground arith

has-emplace_of_mem :
    (rs : List (MessageType × ℕ)) (t u : MessageType) (p q : ℕ)
    → has rs u q ≡ true
    → has (emplace rs t p) u q ≡ true
unfolding has emplace
has-emplace_of_mem rs t u p q h = ground arith

taken :
    (rs : List (MessageType × ℕ)) (t u : MessageType) (p q : ℕ)
    → (same_type t u && p == q) ≡ true
    → has (emplace rs t p) u q ≡ true
taken rs t u p q h =
    let e : (to_byte t == to_byte u) ≡ true = ground arith in
    let f : (p == q) ≡ true = ground arith in
    rw (← has-same (emplace rs t p) t u p q (==→eq (to_byte t) (to_byte u) e) (==→eq p q f))
      (has-emplace rs t p)

module _ {os : Os} where
  -- A step from `s` that ends in `r`: the responses taken stay taken, at most `n` DATA are sent, and
  -- `post` holds if it returns.
  pub record Steps {A : Type 0} (n : ℕ) (post : A → Sender os → Type 0) (s : Sender os)
      (r : Outcome Exception A × Sender os) : Type 0 where
    pub keeps :
        (t : MessageType) (q : ℕ) → has s.completed t q ≡ true → has r.1.completed t q ≡ true
    pub sends : sent_count r.1.output ≤ sent_count s.output + n
    pub after : (a : A) → r.0 ≡ ok a → post a r.1

  pub Steps-bind :
      {A B : Type 0} {m n k : ℕ} {P : A → Sender os → Type 0} {Q : B → Sender os → Type 0}
      (s : Sender os) (r : Outcome Exception A × Sender os)
      (f : A → Sender os → Outcome Exception B × Sender os)
      → m + n ≡ k
      → Steps m P s r
      → ((a : A) (t : Sender os) → P a t → Steps n Q t (f a t))
      → Steps k Q s (continue_with r f)
  Steps-bind s (ok a, t) f e g h =
      let rest = h a t (g.after a refl) in
      record {
        keeps = λ u q k. rest.keeps u q (g.keeps u q k);
        sends = omega (arith, g.sends, rest.sends);
        after = rest.after;
      }
  Steps-bind s (throw x, t) f e g h = record {
    keeps = g.keeps;
    sends = omega (arith, g.sends);
    after = λ b p. cc;
  }
  Steps-bind s (running, t) f e g h = record {
    keeps = g.keeps;
    sends = omega (arith, g.sends);
    after = λ b p. cc;
  }

  -- A response taken before a step is taken after it.
  pub Steps-and :
      {A : Type 0} {n : ℕ} {Q : A → Sender os → Type 0} {s : Sender os}
      {r : Outcome Exception A × Sender os} (t : MessageType) (q : ℕ)
      → has s.completed t q ≡ true
      → Steps n Q s r
      → Steps n (λ a v. Q a v × (has v.completed t q ≡ true)) s r
  Steps-and t q h g = record {
    keeps = g.keeps;
    sends = g.sends;
    after = λ a e. (g.after a e, g.keeps t q h);
  }

  pub returned :
      {A : Type 0} {P : A → Sender os → Type 0} (n : ℕ) (a : A) (s : Sender os)
      → P a s
      → Steps n P s (ok a, s)
  returned {P} n a s h = record {
    keeps = λ t q k. k;
    sends = omega arith;
    after = λ b e. subst (λ x. P x s) (ok_inj a b e) h;
  }

  pub thrown :
      {A : Type 0} {P : A → Sender os → Type 0} (n : ℕ) (x : Exception) (s : Sender os)
      → Steps n P s (throw x, s)
  thrown n x s = record { keeps = λ t q k. k; sends = omega arith; after = λ b e. cc }

  pub suspended :
      {A : Type 0} {P : A → Sender os → Type 0} (n : ℕ) (s : Sender os) → Steps n P s (running, s)
  suspended n s = record { keeps = λ t q k. k; sends = omega arith; after = λ b e. cc }

  -- A step that changes the kernel's state alone before another.
  pub moved :
      {A : Type 0} {n : ℕ} {P : A → Sender os → Type 0} (s : Sender os) (w : os.World)
      {r : Outcome Exception A × Sender os}
      → Steps n P (record s { world = w }) r
      → Steps n P s r
  moved s w g = record { keeps = g.keeps; sends = g.sends; after = g.after }

-- Nothing is said of the state afterwards.
abbrev pub Any : {os : Os} {A : Type 0} → A → Sender os → Type 0
Any a s = Unit {0}

module _ (os : Os) (rounds : ℕ) where
  pub print-Steps :
      (n : ℕ) (l : Line) (s : Sender os)
      → sent_count (l ∷ s.output) ≤ sent_count s.output + n
      → Steps n Any s (print os rounds l s)
  unfolding print
  print-Steps n l s h = record { keeps = λ t q k. k; sends = h; after = λ a e. tt }

  now-Steps : (s : Sender os) → Steps 0 Any s (now os rounds s)
  unfolding now
  now-Steps s = record { keeps = λ t q k. k; sends = omega arith; after = λ a e. tt }

  pub send_packet-Steps :
      (fd : ℕ) (p : Packet) (s : Sender os) → Steps 0 Any s (send_packet os rounds fd p s)
  unfolding send_packet
  send_packet-Steps fd p s = record { keeps = λ t q k. k; sends = omega arith; after = λ a e. tt }

  -- A wait that returns true has taken the response.
  abbrev pub Took : MessageType → ℕ → Bool → Sender os → Type 0
  Took t q b v = b ≡ true → has v.completed t q ≡ true

  module _ (next : Sender os → Outcome Exception Bool × Sender os) (t : MessageType) (q : ℕ)
      (ih : (s : Sender os) → Steps 0 (Took t q) s (next s)) where
    judge_response-Steps :
        (p : Packet) (s : Sender os) → Steps 0 (Took t q) s (judge_response os rounds next t q p s)
    unfolding judge_response
    judge_response-Steps p s =
        elim (Bool-cases (not (is_response p.type) || not (is_empty p.payload))) [
          | inl bad ↦ rw bad (thrown 0 (runtime_error invalid_response_packet) s)
          | inr good ↦ rw good (elim (Bool-cases (same_type p.type t && p.sequence == q)) [
            | inl mine ↦ rw mine (record {
              keeps = λ u x. has-emplace_of_mem s.completed p.type u p.sequence x;
              sends = omega arith;
              after = λ a e k. taken s.completed p.type t p.sequence q mine;
            })
            | inr other ↦ rw other (elim (Bool-cases (has s.completed p.type p.sequence)) [
              | inl old ↦ rw old (
                  Steps-bind s (print os rounds (ignored_stale_response p.sequence) s) _
                    (omega arith)
                    (print-Steps 0 (ignored_stale_response p.sequence) s (omega arith))
                    λ _ u _. ih u)
              | inr unknown ↦
                  rw unknown (thrown 0 (runtime_error unexpected_response_type_or_sequence) s)
            ])
          ])
        ]

    judge_in_time-Steps :
        (deadline : ℕ) (p : Packet) (time : ℕ) (s : Sender os)
        → Steps 0 (Took t q) s (judge_in_time os rounds next deadline t q p time s)
    unfolding judge_in_time
    judge_in_time-Steps deadline p time s = elim (Bool-cases (leb deadline time)) [
      | inl late ↦ rw late (returned 0 false s (λ e. cc))
      | inr early ↦ rw early (judge_response-Steps p s)
    ]

    response_read-Steps :
        (deadline fd : ℕ) (r : Outcome Exception Packet) (n : ℕ) (s : Sender os)
        → Steps 0 (Took t q) s (response_read os rounds next deadline fd t q r n s)
    unfolding response_read
    response_read-Steps deadline fd (ok p) n s =
        Steps-bind s (now os rounds s) _ refl (now-Steps s)
          λ time u _. judge_in_time-Steps deadline p time u
    response_read-Steps deadline fd (throw response_timeout) zero s = returned 0 false s (λ e. cc)
    response_read-Steps deadline fd (throw response_timeout) (suc n) s = moved s _ (thrown 0 _ _)
    response_read-Steps deadline fd (throw (runtime_error m)) n s = thrown 0 (runtime_error m) s
    response_read-Steps deadline fd (throw (connection_lost m)) n s = thrown 0 (connection_lost m) s
    response_read-Steps deadline fd (throw (peer_disconnected m)) n s =
        thrown 0 (peer_disconnected m) s
    response_read-Steps deadline fd running n s = suspended 0 s

    wait_turn-Steps :
        (deadline fd time : ℕ) (s : Sender os)
        → Steps 0 (Took t q) s (wait_turn os rounds next deadline fd t q time s)
    unfolding wait_turn
    wait_turn-Steps deadline fd time s = elim (Bool-cases (ltb time deadline)) [
      | inl early ↦ rw early (moved s _ (response_read-Steps deadline fd _ _ _))
      | inr over ↦ rw over (returned 0 false s (λ e. cc))
    ]

  wait_loop-Steps :
      (turns deadline fd : ℕ) (t : MessageType) (q : ℕ) (s : Sender os)
      → Steps 0 (Took t q) s (wait_loop os rounds turns deadline fd t q s)
  unfolding wait_loop
  wait_loop-Steps zero deadline fd t q s = suspended 0 s
  wait_loop-Steps (suc turns) deadline fd t q s =
      Steps-bind s (now os rounds s) _ refl (now-Steps s) λ time u _.
        wait_turn-Steps (wait_loop os rounds turns deadline fd t q) t q
          (wait_loop-Steps turns deadline fd t q) deadline fd time u

  wait_from-Steps :
      (fd : ℕ) (t : MessageType) (q ms start : ℕ) (s : Sender os)
      → Steps 0 (Took t q) s (wait_from os rounds fd t q ms start s)
  unfolding wait_from
  wait_from-Steps fd t q ms start s = wait_loop-Steps rounds _ fd t q s

  -- wait_for_response forgets no response, prints no DATA as sent, and if it returns true it has
  -- recorded the response of the type and the sequence awaited.
  pub wait_for_response-Steps :
      (fd : ℕ) (t : MessageType) (q ms : ℕ) (s : Sender os)
      → Steps 0 (Took t q) s (wait_for_response os rounds fd t q ms s)
  unfolding wait_for_response
  wait_for_response-Steps fd t q ms s =
      Steps-bind s (now os rounds s) _ refl (now-Steps s)
        λ start u _. wait_from-Steps fd t q ms start u

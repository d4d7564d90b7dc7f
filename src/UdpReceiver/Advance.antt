-- ===== src/UdpReceiver/Advance.antt =====
-- The loop of udp/receiver.cpp that moves `expected_sequence` past the sequences already seen.
use embedded_comm_reliabilit.Common.{
  ℕ, zero, suc, ◌+◌, ◌%◌, ◌^◌, ◌≤◌, ◌<◌, ◌≡◌, ap, true, false, Bool-cases, inl, inr, List, [], ◌∷◌,
  length, ltb, contains, arith, if◌then◌else◌,
}
use native.Mathlib.Decide.{dec_lt}
use embedded_comm_reliabilit.UdpReceiver.{advance}

-- How many members are below `e`, and how many are not.
below : ℕ → List ℕ → ℕ
below e [] = 0
below e (x ∷ xs) = (if ltb x e then 1 else 0) + below e xs

above : ℕ → List ℕ → ℕ
above e [] = 0
above e (x ∷ xs) = (if ltb x e then 0 else 1) + above e xs

below-add-above : (e : ℕ) (xs : List ℕ) → below e xs + above e xs ≡ length xs
unfolding below above
below-add-above e [] = omega arith
below-add-above e (x ∷ xs) = ground (arith, below-add-above e xs)

below_mono : (e : ℕ) (xs : List ℕ) → below e xs ≤ below (e + 1) xs
unfolding below
below_mono e [] = omega arith
below_mono e (x ∷ xs) = ground (arith, below_mono e xs)

below-lt : (e : ℕ) (xs : List ℕ) → contains xs e ≡ true → below e xs < below (e + 1) xs
unfolding below contains
below-lt e [] h = cc
below-lt e (x ∷ xs) h = ground (arith, below-lt e xs, below_mono e xs)

-- Every sequence from 1 up to `e` is in the set.
abbrev pub IsComplete : List ℕ → ℕ → Type 0
IsComplete xs e = (x : ℕ) → 1 ≤ x → x < e → contains xs x ≡ true

le-below : (e : ℕ) (xs : List ℕ) → IsComplete xs e → e ≤ below e xs + 1
le-below zero xs h = omega arith
le-below (suc zero) xs h = omega arith
le-below (suc (suc e)) xs h =
    let ih = le-below (suc e) xs (λ x p q. h x p (omega arith)) in
    let more = below-lt (suc e) xs (h (suc e) (omega arith) (omega arith)) in
    let same : below (suc e + 1) xs ≡ below (suc (suc e)) xs =
      ap (λ t. below t xs) {y = suc (suc e)} (omega arith) in
    omega arith

IsComplete-suc :
    (e : ℕ) (xs : List ℕ) → IsComplete xs e → contains xs e ≡ true → IsComplete xs (e + 1)
IsComplete-suc e xs c present x p q = elim (dec_lt x e) [
  | yes r ↦ c x p r
  | no r ↦ let same : x ≡ e = omega arith in rw same present
]

-- `e` is the least sequence from 1 on that is not in the set.
pub record IsNext (xs : List ℕ) (e : ℕ) : Type 0 where
  pub positive : 1 ≤ e
  pub complete : IsComplete xs e
  pub missing : contains xs e ≡ false

advance-IsNext :
    (rounds e : ℕ) (xs : List ℕ)
    → above e xs < rounds
    → length xs + 1 < 2 ^ 32
    → 1 ≤ e
    → IsComplete xs e
    → IsNext xs (advance rounds xs e)
unfolding advance
advance-IsNext zero e xs h bound p c = absurd (omega arith)
advance-IsNext (suc rounds) e xs h bound p c = elim (Bool-cases (contains xs e)) [
  | inr absent ↦ rw absent (record { positive = p; complete = c; missing = absent })
  | inl present ↦
      let step = below-lt e xs present in
      let small : (e + 1) % 2 ^ 32 ≡ e + 1 =
        omega (arith, le-below e xs c, below-add-above (e + 1) xs) in
      rw present (
        rw small (
          advance-IsNext rounds (e + 1) xs
            (omega (arith, below-add-above e xs, below-add-above (e + 1) xs)) bound (omega arith)
            (IsComplete-suc e xs c present)))
]

-- For a set of fewer than 2 ^ 32 - 1 members that has every sequence from 1 up to the counter, a round
-- for each member and one more lead the counter to the least sequence from 1 on that is not in the set.
pub advance_lem :
    (xs : List ℕ) (e : ℕ)
    → length xs + 1 < 2 ^ 32
    → 1 ≤ e
    → IsComplete xs e
    → IsNext xs (advance (suc (length xs)) xs e)
advance_lem xs e bound p c =
    advance-IsNext (suc (length xs)) e xs (omega (arith, below-add-above e xs)) bound p c

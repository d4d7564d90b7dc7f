-- ===== src/Common/Sets.antt =====
-- `std::unordered_set<uint32_t>` as a list of its members, the newest first.
use Prim.Native.Nat.{ℕ}
use mathlib.Core.Path.{◌≡◌, refl}
use mathlib.Core.Bool.{Bool, true, false, ◌||◌}
use mathlib.Core.List.{List, [], ◌∷◌}
use native.Mathlib.Omega.{arith}
use embedded_comm_reliabilit.Common.Lists.{All}
use embedded_comm_reliabilit.Common.Tests.{◌==◌, if◌then◌else◌}

-- `set.find(x) != set.end()`, and `set.count(x) != 0`
unfoldable pub contains : List ℕ → ℕ → Bool
contains [] x = false
contains (y ∷ ys) x = y == x || contains ys x

-- `set.insert(x)`
unfoldable pub insert : List ℕ → ℕ → List ℕ
unfolding contains
insert ys x = if contains ys x then ys else x ∷ ys

abbrev pub Distinct : List ℕ → Type 0
Distinct [] = Unit {0}
Distinct (x ∷ xs) = (contains xs x ≡ false) × Distinct xs

pub contains-insert : (ys : List ℕ) (x : ℕ) → contains (insert ys x) x ≡ true
unfolding insert
contains-insert ys x = ground arith

pub contains-insert_of_mem :
    (ys : List ℕ) (x z : ℕ) → contains ys z ≡ true → contains (insert ys x) z ≡ true
unfolding insert
contains-insert_of_mem ys x z h = ground arith

pub insert-Distinct : (ys : List ℕ) (x : ℕ) → Distinct ys → Distinct (insert ys x)
unfolding insert
insert-Distinct ys x h = ground arith

pub insert-new : (ys : List ℕ) (x : ℕ) → contains ys x ≡ false → insert ys x ≡ x ∷ ys
unfolding insert
insert-new ys x h = rw h refl

-- What all of a list satisfies stays so when the set grows.
pub All-contains_mono :
    (p q xs : List ℕ)
    → ((x : ℕ) → contains p x ≡ true → contains q x ≡ true)
    → All (λ x. contains p x ≡ true) xs
    → All (λ x. contains q x ≡ true) xs
All-contains_mono p q [] h k = tt
All-contains_mono p q (x ∷ xs) h k = (h x k.0, All-contains_mono p q xs h k.1)

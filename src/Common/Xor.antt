-- ===== src/Common/Xor.antt =====
-- Laws of `^` on words of any width, from the recursion on binary digits that it stands for.
use Prim.Native.Nat.{
  ℕ, zero, suc, ◌+◌, ◌*◌, ◌/◌, ◌%◌, ◌^◌, ◌≤◌, ◌<◌, bit_and, bit_xor, digits, differ,
  bit_xor-bitwise, bit_and-bitwise, min,
}
use mathlib.Core.Path.{◌≡◌, refl, ap}
use native.Mathlib.Nat.{pow-suc}
use native.Mathlib.Omega.{arith}

module _ (z : ℕ → ℕ) (f : ℕ → ℕ → ℕ) where
  -- Rounds beyond the number's size change nothing.
  digits_rounds : (n m a b : ℕ) → a ≤ n → a ≤ m → digits z f n a b ≡ digits z f m a b
  digits_rounds zero zero a b p q = refl
  digits_rounds zero (suc m) zero b p q = refl
  digits_rounds (suc n) zero zero b p q = refl
  digits_rounds (suc n) (suc m) zero b p q = refl
  digits_rounds zero (suc m) (suc a) b p q = absurd (omega arith)
  digits_rounds (suc n) zero (suc a) b p q = absurd (omega arith)
  digits_rounds (suc n) (suc m) (suc a) b p q =
      ap (λ t. t * 2 + f (suc a % 2) (b % 2))
        (digits_rounds n m (suc a / 2) (b / 2) (omega arith) (omega arith))

  digits_unfold :
      (a b : ℕ)
      → digits z f (suc a) (suc a) b
        ≡ digits z f (suc a / 2) (suc a / 2) (b / 2) * 2 + f (suc a % 2) (b % 2)
  digits_unfold a b =
      ap (λ t. t * 2 + f (suc a % 2) (b % 2))
        (digits_rounds a (suc a / 2) (suc a / 2) (b / 2) (omega arith) (omega arith))

differ_bits : (x y : ℕ) → x < 2 → y < 2 → differ x y ≡ (x + y) % 2
differ_bits zero y p q = omega arith
differ_bits (suc zero) zero p q = refl
differ_bits (suc zero) (suc zero) p q = refl
differ_bits (suc zero) (suc (suc y)) p q = absurd (omega arith)
differ_bits (suc (suc x)) y p q = absurd (omega arith)

-- The lowest digit of `a ^ b`, and the rest.
pub xor_step : (a b : ℕ) → bit_xor a b ≡ bit_xor (a / 2) (b / 2) * 2 + (a + b) % 2
xor_step zero b = simp bit_xor-bitwise (omega arith)
xor_step (suc a) b = simp bit_xor-bitwise (
    omega (
      arith,
      digits_unfold (λ t. t) differ a b,
      differ_bits (suc a % 2) (b % 2) (omega arith) (omega arith),
    ))

and_step : (a b : ℕ) → bit_and a b ≡ bit_and (a / 2) (b / 2) * 2 + min (a % 2) (b % 2)
and_step zero b = simp bit_and-bitwise (omega arith)
and_step (suc a) b = simp bit_and-bitwise (digits_unfold (λ t. zero) min a b)

and_zero_within : (n a : ℕ) → a ≤ n → bit_and a 0 ≡ 0
and_zero_within n zero h = refl
and_zero_within zero (suc a) h = absurd (omega arith)
and_zero_within (suc n) (suc a) h =
    omega (arith, and_step (suc a) 0, and_zero_within n (suc a / 2) (omega arith))

-- `a & 1` is the parity.
pub bit_and_one : (a : ℕ) → bit_and a 1 ≡ a % 2
bit_and_one a = omega (arith, and_step a 1, and_zero_within (a / 2) (a / 2) (omega arith))

-- `^` stays within the width of its arguments.
pub bit_xor-lt : (n a b : ℕ) → a < 2 ^ n → b < 2 ^ n → bit_xor a b < 2 ^ n
bit_xor-lt zero a b p q = omega (arith, xor_step a b, ap₂_zero a b (omega arith) (omega arith))
  where
    ap₂_zero : (a b : ℕ) → a ≡ 0 → b ≡ 0 → bit_xor a b ≡ 0
    ap₂_zero a b p q = rw (p, q)
bit_xor-lt (suc n) a b p q = omega (
  arith,
  xor_step a b,
  pow-suc 2 n,
  bit_xor-lt n (a / 2) (b / 2) (omega (arith, pow-suc 2 n)) (omega (arith, pow-suc 2 n)),
)

-- `^` with the same word twice gives the first word back.
pub bit_xor-cancel : (n a b : ℕ) → a < 2 ^ n → b < 2 ^ n → bit_xor (bit_xor a b) b ≡ a
bit_xor-cancel zero a b p q = omega (arith, nought a b (omega arith) (omega arith))
  where
    nought : (a b : ℕ) → a ≡ 0 → b ≡ 0 → bit_xor (bit_xor a b) b ≡ 0
    nought a b p q = rw (p, q)
bit_xor-cancel (suc n) a b p q = omega (
  arith,
  xor_step (bit_xor a b) b,
  xor_step a b,
  half_of_xor,
  pow-suc 2 n,
  bit_xor-cancel n (a / 2) (b / 2) (omega (arith, pow-suc 2 n)) (omega (arith, pow-suc 2 n)),
)
  where
    half_of_xor : bit_xor (bit_xor a b / 2) (b / 2) ≡ bit_xor (bit_xor (a / 2) (b / 2)) (b / 2)
    half_of_xor = ap (λ t. bit_xor t (b / 2)) (omega (arith, xor_step a b))

-- A digit above the width of `a` is `b`'s own.
pub le-bit_xor_high : (n a b : ℕ) → a < 2 ^ n → 2 ^ n ≤ b → b < 2 ^ suc n → 2 ^ n ≤ bit_xor a b
le-bit_xor_high zero a b p q r =
    let e : b ≡ 1 = omega (arith, pow-suc 2 0) in
    let d : a ≡ 0 = omega arith in rw (e, d) (omega arith)
le-bit_xor_high (suc n) a b p q r = omega (
  arith,
  xor_step a b,
  pow-suc 2 n,
  le-bit_xor_high n (a / 2) (b / 2) (omega (arith, pow-suc 2 n)) (omega (arith, pow-suc 2 n))
      (omega (arith, pow-suc 2 n, pow-suc 2 (suc n))),
)

bit_xor_comm_within : (n a b : ℕ) → a ≤ n → b ≤ n → bit_xor a b ≡ bit_xor b a
bit_xor_comm_within zero a b p q = let e : a ≡ b = omega arith in rw e refl
bit_xor_comm_within (suc n) a b p q = omega (
  arith,
  xor_step a b,
  xor_step b a,
  bit_xor_comm_within n (a / 2) (b / 2) (omega arith) (omega arith),
)

pub bit_xor_comm : (a b : ℕ) → bit_xor a b ≡ bit_xor b a
bit_xor_comm a b = bit_xor_comm_within (a + b) a b (omega arith) (omega arith)

-- ===== src/Protocol/Crc32/Injective.antt =====
-- crc32 of protocol/crc32.cpp as a function of its register and of each byte.
use Prim.Native.Nat.{◌^◌}
use embedded_comm_reliabilit.Common.{
  ℕ, zero, suc, ◌/◌, ◌<◌, ◌≡◌, ◌≢◌, ap, sym, ◌∙◌, bit_xor, List, [], ◌∷◌, ◌++◌, arith, IsBytes,
}
use embedded_comm_reliabilit.Common.Xor.{
  bit_and_one, bit_xor-lt, bit_xor-cancel, le-bit_xor_high, bit_xor_comm,
}
use embedded_comm_reliabilit.Protocol.Crc32.{crc_bit, crc_bits, crc_loop, crc32}

pub crc_bit-lt : (c : ℕ) → c < 2 ^ 32 → crc_bit c < 2 ^ 32
unfolding crc_bit
crc_bit-lt c h = ground (arith, bit_xor-lt 32 (c / 2) 0xEDB88320 (omega arith) (omega arith))

xor_inj : (a b k : ℕ) → a < 2 ^ 32 → b < 2 ^ 32 → k < 2 ^ 32 → bit_xor a k ≡ bit_xor b k → a ≡ b
xor_inj a b k p q r e =
    sym (bit_xor-cancel 32 a k p r) ∙ ap (λ t. bit_xor t k) e ∙ bit_xor-cancel 32 b k q r

-- The polynomial has its top digit set, so the result tells which branch was taken.
crc_bit_inj : (c d : ℕ) → c < 2 ^ 32 → d < 2 ^ 32 → crc_bit c ≡ crc_bit d → c ≡ d
unfolding crc_bit
crc_bit_inj c d p q e = ground (
  arith,
  bit_and_one c,
  bit_and_one d,
  le-bit_xor_high 31 (c / 2) 0xEDB88320 (omega arith) (omega arith) (omega arith),
  le-bit_xor_high 31 (d / 2) 0xEDB88320 (omega arith) (omega arith) (omega arith),
  xor_inj (c / 2) (d / 2) 0xEDB88320 (omega arith) (omega arith) (omega arith),
)

pub crc_bits-lt : (k c : ℕ) → c < 2 ^ 32 → crc_bits k c < 2 ^ 32
unfolding crc_bits
crc_bits-lt zero c h = h
crc_bits-lt (suc k) c h = crc_bits-lt k (crc_bit c) (crc_bit-lt c h)

crc_bits_inj : (k c d : ℕ) → c < 2 ^ 32 → d < 2 ^ 32 → crc_bits k c ≡ crc_bits k d → c ≡ d
unfolding crc_bits
crc_bits_inj zero c d p q e = e
crc_bits_inj (suc k) c d p q e =
    crc_bit_inj c d p q (crc_bits_inj k (crc_bit c) (crc_bit d) (crc_bit-lt c p) (crc_bit-lt d q) e)

abbrev fold_byte : ℕ → ℕ → ℕ
fold_byte c b = crc_bits 8 (bit_xor c b)

fold_byte-lt : (c b : ℕ) → c < 2 ^ 32 → b < 256 → fold_byte c b < 2 ^ 32
fold_byte-lt c b p q = crc_bits-lt 8 (bit_xor c b) (bit_xor-lt 32 c b p (omega arith))

fold_byte_inj :
    (c d b : ℕ) → c < 2 ^ 32 → d < 2 ^ 32 → b < 256 → fold_byte c b ≡ fold_byte d b → c ≡ d
fold_byte_inj c d b p q r e = xor_inj c d b p q (omega arith) (
    crc_bits_inj 8 (bit_xor c b) (bit_xor d b) (bit_xor-lt 32 c b p (omega arith))
      (bit_xor-lt 32 d b q (omega arith)) e)

fold_byte_inj_byte :
    (c x y : ℕ) → c < 2 ^ 32 → x < 256 → y < 256 → fold_byte c x ≡ fold_byte c y → x ≡ y
fold_byte_inj_byte c x y p q r e = xor_inj x y c (omega arith) (omega arith) p (
    bit_xor_comm x c
    ∙ crc_bits_inj 8 (bit_xor c x) (bit_xor c y) (bit_xor-lt 32 c x p (omega arith))
        (bit_xor-lt 32 c y p (omega arith)) e
    ∙ bit_xor_comm c y)

pub crc_loop-lt : (c : ℕ) (bs : List ℕ) → c < 2 ^ 32 → IsBytes bs → crc_loop c bs < 2 ^ 32
unfolding crc_loop
crc_loop-lt c [] h bytes = h
crc_loop-lt c (b ∷ bs) h bytes = crc_loop-lt (fold_byte c b) bs (fold_byte-lt c b h bytes.0) bytes.1

-- The checksum is a `uint32_t`.
pub crc32-lt : (bs : List ℕ) → IsBytes bs → crc32 bs < 2 ^ 32
unfolding crc32
crc32-lt bs bytes =
    bit_xor-lt 32 (crc_loop 0xFFFFFFFF bs) 0xFFFFFFFF
      (crc_loop-lt 0xFFFFFFFF bs (omega arith) bytes) (omega arith)

crc_loop_inj :
    (c d : ℕ) (bs : List ℕ)
    → c < 2 ^ 32
    → d < 2 ^ 32
    → IsBytes bs
    → crc_loop c bs ≡ crc_loop d bs
    → c ≡ d
unfolding crc_loop
crc_loop_inj c d [] p q bytes e = e
crc_loop_inj c d (b ∷ bs) p q bytes e = fold_byte_inj c d b p q bytes.0 (
    crc_loop_inj (fold_byte c b) (fold_byte d b) bs (fold_byte-lt c b p bytes.0)
      (fold_byte-lt d b q bytes.0) bytes.1 e)

crc_loop_byte :
    (c : ℕ) (xs : List ℕ) (x y : ℕ) (ys : List ℕ)
    → c < 2 ^ 32
    → IsBytes xs
    → x < 256
    → y < 256
    → IsBytes ys
    → crc_loop c (xs ++ x ∷ ys) ≡ crc_loop c (xs ++ y ∷ ys)
    → x ≡ y
unfolding crc_loop
crc_loop_byte c [] x y ys h hx px py hy e = fold_byte_inj_byte c x y h px py (
    crc_loop_inj (fold_byte c x) (fold_byte c y) ys (fold_byte-lt c x h px) (fold_byte-lt c y h py)
      hy e)
crc_loop_byte c (b ∷ xs) x y ys h hx px py hy e =
    crc_loop_byte (fold_byte c b) xs x y ys (fold_byte-lt c b h hx.0) hx.1 px py hy e

-- Two byte sequences that differ in exactly one byte, at any place, have different checksums.
pub crc32_detects_byte :
    (xs : List ℕ) (x y : ℕ) (ys : List ℕ)
    → IsBytes xs
    → x < 256
    → y < 256
    → IsBytes ys
    → x ≢ y
    → crc32 (xs ++ x ∷ ys) ≢ crc32 (xs ++ y ∷ ys)
unfolding crc32
crc32_detects_byte xs x y ys hx px py hy differs e = differs (
    crc_loop_byte 0xFFFFFFFF xs x y ys (omega arith) hx px py hy (
      xor_inj (crc_loop 0xFFFFFFFF (xs ++ x ∷ ys)) (crc_loop 0xFFFFFFFF (xs ++ y ∷ ys)) 0xFFFFFFFF
        (reg x px) (reg y py) (omega arith) e))
  where
    reg : (b : ℕ) → b < 256 → crc_loop 0xFFFFFFFF (xs ++ b ∷ ys) < 2 ^ 32
    reg b h = crc_loop-lt 0xFFFFFFFF (xs ++ b ∷ ys) (omega arith) (bytes_around b h xs hx)
      where
        bytes_around : (b : ℕ) → b < 256 → (zs : List ℕ) → IsBytes zs → IsBytes (zs ++ b ∷ ys)
        bytes_around b h [] hz = (h, hy)
        bytes_around b h (z ∷ zs) hz = (hz.0, bytes_around b h zs hz.1)

-- ===== src/Protocol/Crc32.antt =====
-- protocol/crc32.cpp: the bitwise CRC-32 (reflected, polynomial 0xEDB88320). A pointer with a size
-- is the list of the bytes that it covers.
pub mod Injective
use embedded_comm_reliabilit.Common.{
  ℕ, zero, suc, ◌/◌, bit_and, bit_xor, List, [], ◌∷◌, ◌==◌, if◌then◌else◌,
}

-- One round of the inner loop: `crc >> 1`, with the polynomial if a one was shifted out.
unfoldable pub crc_bit : ℕ → ℕ
crc_bit crc = if bit_and crc 1 == 0 then crc / 2 else bit_xor (crc / 2) 0xEDB88320

unfoldable pub crc_bits : ℕ → ℕ → ℕ
crc_bits zero crc = crc
crc_bits (suc rounds) crc = crc_bits rounds (crc_bit crc)

unfoldable pub crc_loop : ℕ → List ℕ → ℕ
crc_loop crc [] = crc
crc_loop crc (byte ∷ bytes) = crc_loop (crc_bits 8 (bit_xor crc byte)) bytes

unfoldable pub crc32 : List ℕ → ℕ
crc32 bytes = bit_xor (crc_loop 0xFFFFFFFF bytes) 0xFFFFFFFF

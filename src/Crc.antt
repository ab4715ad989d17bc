-- ===== src/Crc.antt =====
-- `crc16` of protocol/src/frame.rs: CRC-16 with the polynomial 0x1021, initial value 0, no
-- reflection.
pub mod Linear
pub mod Detect
use samsung_nasa.Base.{
  ℕ, zero, suc, ◌*◌, ◌%◌, ◌^◌, bit_and, bit_xor, List, [], ◌∷◌, ◌==◌, if◌then◌else◌,
}

-- One round of the inner loop: `crc <<= 1` drops the bit that leaves the u16.
unfoldable pub crc_bit : ℕ → ℕ
crc_bit crc =
    if bit_and crc 0x8000 == 0 then crc * 2 % 2 ^ 16 else bit_xor (crc * 2 % 2 ^ 16) 0x1021

-- The inner loop, with the rounds left.
unfoldable pub crc_bits : ℕ → ℕ → ℕ
crc_bits zero crc = crc
crc_bits (suc left) crc = crc_bits left (crc_bit crc)

-- One round of the outer loop: `crc ^ (u16::from(*byte) << 8)`, then eight bits.
unfoldable pub crc_byte : ℕ → ℕ → ℕ
crc_byte crc byte = crc_bits 8 (bit_xor crc (byte * 2 ^ 8 % 2 ^ 16))

unfoldable pub crc_loop : ℕ → List ℕ → ℕ
crc_loop crc [] = crc
crc_loop crc (byte ∷ bytes) = crc_loop (crc_byte crc byte) bytes

unfoldable pub crc16 : List ℕ → ℕ
crc16 bytes = crc_loop 0 bytes

-- ===== src/Bits.antt =====
-- Laws of the bit operations at variables, which every word of the protocol rests on.
pub mod Digits
pub mod Xor
pub mod Fields

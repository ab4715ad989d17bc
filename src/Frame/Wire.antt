-- ===== src/Frame/Wire.antt =====
-- The frame format, as the parser and the serialiser both have it: a start byte, a big-endian
-- size that counts itself and the CRC, the data, the CRC, and an end byte.
use samsung_nasa.Base.{ℕ, ◌+◌, List, [], ◌∷◌, ◌++◌, length}
use samsung_nasa.Bytes.{u16_to_be_bytes}
use samsung_nasa.Crc.{crc16}

abbrev pub closing : List ℕ → List ℕ
closing bytes = u16_to_be_bytes (crc16 bytes) ++ (0x34 ∷ [])

abbrev pub frame_of : List ℕ → List ℕ
frame_of bytes = 0x32 ∷ (u16_to_be_bytes (length bytes + 4) ++ (bytes ++ closing bytes))

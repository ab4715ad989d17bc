-- ===== src/Packet/Reader.antt =====
-- `PacketReader`: a cursor over the bytes of a packet, and its reads.
pub mod Steps
use samsung_nasa.Base.{
  ℕ, zero, suc, ◌+◌, ◌*◌, ◌≡◌, refl, arith, List, [], ◌∷◌, length, take, drop, leb, if◌then◌else◌,
  Result, ok, err, panic,
}
use samsung_nasa.Base.Stateful.{◌>>=◌, pure}
use samsung_nasa.Packet.Error.{PacketError, too_short}

-- The state of a reader is the bytes that are left.
abbrev pub Reader : Type 0 → Type 0
Reader A = List ℕ → Result PacketError (A × List ℕ)

-- The bytes that are left, without reading them.
abbrev pub remaining : Reader (List ℕ)
remaining left = ok (left, left)

unfoldable pub read_array : ℕ → Reader (List ℕ)
read_array n left = if leb n (length left) then ok (take n left, drop n left) else err too_short

-- `from_be_bytes`, at every width; a single byte is itself.
be_value_from : ℕ → List ℕ → ℕ
be_value_from acc [] = acc
be_value_from acc (byte ∷ bytes) = be_value_from (acc * 256 + byte) bytes

unfoldable pub be_value : List ℕ → ℕ
unfolding be_value_from
be_value bytes = be_value_from 0 bytes

unfoldable pub read_u8 : Reader ℕ
unfolding be_value
read_u8 = do bytes ← read_array 1; pure (be_value bytes)

unfoldable pub read_u16 : Reader ℕ
unfolding be_value
read_u16 = do bytes ← read_array 2; pure (be_value bytes)

unfoldable pub read_u32 : Reader ℕ
unfolding be_value
read_u32 = do bytes ← read_array 4; pure (be_value bytes)

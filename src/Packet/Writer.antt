-- ===== src/Packet/Writer.antt =====
-- `PacketWriter`: a buffer of fixed size and a position in it, and its writes.
pub mod Emits
use samsung_nasa.Base.{
  ℕ, ◌+◌, ◌-◌, List, [], ◌∷◌, ◌++◌, length, take, drop, leb, ◌&&◌, if◌then◌else◌, Result, ok, err,
  panic,
}
use samsung_nasa.Base.Stateful.{lift}
use samsung_nasa.Bytes.{u16_to_be_bytes, u32_to_be_bytes}
use samsung_nasa.Packet.Error.{SerializePacketError, buffer_too_short}

pub record PacketWriter : Type 0 where
  pub buff : List ℕ
  pub pos : ℕ

abbrev pub Writer : Type 0 → Type 0
Writer A = PacketWriter → Result SerializePacketError (A × PacketWriter)

-- `PacketWriter::new`.
abbrev pub new : List ℕ → PacketWriter
new buff = record { buff = buff; pos = 0 }

-- `copy_from_slice` into the bytes from `at` on.
abbrev pub overwrite : ℕ → List ℕ → List ℕ → List ℕ
overwrite at slice buff = take at buff ++ (slice ++ drop (at + length slice) buff)

-- The bytes from `lo` to `hi`; indices out of range, or out of order, panic.
unfoldable pub slice_of : ℕ → ℕ → List ℕ → Result SerializePacketError (List ℕ)
slice_of lo hi buff =
    if leb lo hi && leb hi (length buff) then ok (take (hi - lo) (drop lo buff)) else panic

-- `remaining_mut` panics where the position is behind the buffer.
unfoldable pub write_bytes : List ℕ → Writer (Unit {0})
write_bytes slice w =
    if leb w.pos (length w.buff)
    then (if leb (length slice) (length w.buff - w.pos)
        then ok (tt, record { buff = overwrite w.pos slice w.buff; pos = w.pos + length slice })
        else err buffer_too_short)
    else panic

abbrev pub write_array : List ℕ → Writer (Unit {0})
write_array = write_bytes

abbrev pub write_u8 : ℕ → Writer (Unit {0})
write_u8 u = write_array (u ∷ [])

abbrev pub write_u16 : ℕ → Writer (Unit {0})
write_u16 u = write_array (u16_to_be_bytes u)

abbrev pub write_u32 : ℕ → Writer (Unit {0})
write_u32 u = write_array (u32_to_be_bytes u)

abbrev pub position : Writer ℕ
position w = ok (w.pos, w)

-- `&writer.buff[lo..hi]`.
abbrev pub written : ℕ → ℕ → Writer (List ℕ)
written lo hi w = lift (slice_of lo hi w.buff) w

-- `writer.buff[at..][..slice.len()].copy_from_slice(slice)`.
unfoldable pub patch : ℕ → List ℕ → Writer (Unit {0})
patch at slice w =
    if leb (at + length slice) (length w.buff)
    then ok (tt, record w { buff = overwrite at slice w.buff })
    else panic

-- ===== src/Packet/Serialize.antt =====
-- `Packet::serialize` and `Packet::serialize_frame`.
pub mod Emits
pub mod Frame
use samsung_nasa.Base.{
  ℕ, ◌+◌, ◌-◌, ◌*◌, ◌%◌, ◌^◌, bit_or, List, [], ◌∷◌, length, Option, none, some, ltb, if◌then◌else◌,
  Result, ok, err, panic,
}
use samsung_nasa.Base.Stateful.{◌>>=◌, ◌>>◌, pure, fail, abort}
use samsung_nasa.Bytes.{u16_to_be_bytes}
use samsung_nasa.Crates.{Crates}
use samsung_nasa.Crc.{crc16}
use samsung_nasa.Frame.{frame_start, frame_end}
use samsung_nasa.Packet.Address
use samsung_nasa.Packet.PacketInfo
use samsung_nasa.Packet.PacketType
use samsung_nasa.Packet.DataType
use samsung_nasa.Packet.Error.{SerializePacketError, invalid_message_value, packet_too_long}
use samsung_nasa.Packet.MessageKind
use samsung_nasa.Packet.MessageKind.{MessageKind}
use samsung_nasa.Packet.Value.{Value, Message, enum_value, variable_value, long_variable_value}
use samsung_nasa.Packet.Types.{Packet, Payload, messages, structure}
use samsung_nasa.Packet.Writer.{
  PacketWriter, Writer, new, write_bytes, write_array, write_u8, write_u16, write_u32, position,
  written, patch,
}

-- The match on the kind of a message's number and its value.
unfoldable pub write_value : MessageKind → Value → Writer (Unit {0})
write_value MessageKind.enum (enum_value n) = write_u8 n
write_value MessageKind.variable (variable_value n) = write_u16 n
write_value MessageKind.long_variable (long_variable_value n) = write_u32 n
write_value _ _ = fail invalid_message_value

-- `kind` with its unreachable arm.
abbrev pub unwrap : Option MessageKind → Writer MessageKind
unwrap (some k) w = ok (k, w)
unwrap none w = panic

abbrev pub kind_of : ℕ → Writer MessageKind
kind_of id = unwrap (MessageKind.kind id)

unfoldable pub write_messages : List Message → Writer (Unit {0})
write_messages [] = pure tt
write_messages (m ∷ ms) = do
  write_u16 m.id
  k ← kind_of m.id
  write_value k m.value
  write_messages ms

-- `structure.number.kind() != MessageKind::Structure` is an error.
unfoldable pub require_structure : MessageKind → Writer (Unit {0})
require_structure MessageKind.structure = pure tt
require_structure _ = fail invalid_message_value

-- `u8::try_from(len).unwrap()`.
unfoldable pub write_count : ℕ → Writer (Unit {0})
write_count n = if ltb n 256 then write_u8 n else abort

unfoldable pub write_payload : Payload → Writer (Unit {0})
unfolding require_structure write_count
write_payload (messages ms) = do write_count (length ms); write_messages ms
write_payload (structure s) = do
  write_u8 1
  k ← kind_of s.number
  require_structure k
  write_u16 s.number
  write_bytes s.contents

unfoldable pub write_preamble : Writer (Unit {0})
write_preamble = do write_u8 0xfd; write_u8 0xf8; write_u8 0xef; write_u8 0x7c; write_u8 frame_start

-- `u16::try_from(len).map_err(…)`.
unfoldable pub frame_length : ℕ → Writer ℕ
frame_length len = if ltb len (2 ^ 16) then pure len else fail packet_too_long

module _ (crates : Crates) where
  -- `byte |= … << 4; byte |= …`, from 0.
  unfoldable pub types_byte : Packet → ℕ
  types_byte p =
      let high = bit_or 0 (PacketType.to_u4 crates p.packet_type * 2 ^ 4 % 2 ^ 8) in
      bit_or high (DataType.to_u4 crates p.data_type)

  unfoldable pub serialize : Packet → Writer (Unit {0})
  serialize p = do
    write_array (Address.to_bytes p.source)
    write_array (Address.to_bytes p.destination)
    write_u8 (PacketInfo.to_byte p.packet_info)
    write_u8 (types_byte p)
    write_u8 p.packet_number
    write_payload p.payload

  unfoldable pub write_frame : Packet → Writer ℕ
  unfolding frame_length
  write_frame p = do
    write_preamble
    len_pos ← position
    write_u16 0
    data_pos ← position
    serialize p
    data_end ← position
    bytes ← written data_pos data_end
    write_u16 (crc16 bytes)
    end ← position
    wire_len ← frame_length (end - len_pos)
    patch len_pos (u16_to_be_bytes wire_len)
    write_u8 frame_end
    position

  -- The number of bytes written, and the buffer.
  unfoldable pub serialize_frame : Packet → List ℕ → Result SerializePacketError (ℕ × List ℕ)
  serialize_frame p out = elim (write_frame p (new out)) [
    | ok (n, w) ↦ ok (n, w.buff)
    | err e ↦ err e
    | panic ↦ panic
  ]
